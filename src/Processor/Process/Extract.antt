-- ===== src/Processor/Process/Extract.antt =====
-- `_upsert_frame` and the loop over the frames, of services/replays/processor.py.
use league_of_legnds_ai_coac.Prelude.{
  ℕ, ◌+◌, min, String, Bool, false, ◌&&◌, Option, none, some, List, [], ◌∷◌, ◌==◌, str_eq, find,
  if◌then◌else◌, Outcome, ok, raise, pos, pos_part,
}
use league_of_legnds_ai_coac.Domain.{ReplayArtifactKind, extracting, game_to_video_time}
use league_of_legnds_ai_coac.Rows.{ReplayUploadRow, ReplayArtifactRow}
use league_of_legnds_ai_coac.Database.{Db}
use league_of_legnds_ai_coac.Repo.Artifacts.{upsert, list_for_replay, frame_code}
use league_of_legnds_ai_coac.Service.Calls.{StoredObject, World, non_empty}
use league_of_legnds_ai_coac.Processor.{object_not_found}
use league_of_legnds_ai_coac.Processor.Pipeline.{
  frame_path, Workshop, Stop, failed, Work, ◌>>=◌, ◌>>◌, pure, outside, lift, transact, reading,
  ensure_not_deleting, move, upload_if_not_deleting,
}
use league_of_legnds_ai_coac.Processor.Process.{value_error, is_extracting, stage_values, kind_at}

abbrev pub is_frame : ReplayArtifactKind → ℕ → ℕ → ReplayArtifactRow → Bool
is_frame kind game_time_ms video_time_ms a =
    frame_code a.kind == frame_code kind
    && a.game_time_ms == game_time_ms
    && a.video_time_ms == video_time_ms

abbrev pub digest_or_none :
    {O : Type 0} → Outcome Stop String × World O → Outcome Stop (Option String) × World O
digest_or_none (ok digest, w) = (ok (some digest), w)
digest_or_none (raise (failed object_not_found), w) = (ok none, w)
digest_or_none (raise e, w) = (raise e, w)

abbrev pub is_digest : Option String → String → Bool
is_digest none sha256 = false
is_digest (some digest) sha256 = str_eq digest sha256

module _ {O : Type 0} (workshop : Workshop O) (others : ℕ → Db → Db) where
  abbrev pub frame_row :
      ReplayUploadRow
      → ReplayArtifactKind
      → ℕ
      → ℕ
      → String
      → StoredObject
      → String
      → Option ℕ
      → Option ℕ
      → ℕ
      → ℕ
      → ReplayArtifactRow
  frame_row row kind game_time_ms video_time_ms object_key stored digest width height k now =
      record {
        id = k;
        replay_id = row.id;
        kind = kind;
        game_time_ms = game_time_ms;
        video_time_ms = video_time_ms;
        object_key = object_key;
        sha256 = digest;
        media_type = "image/jpeg";
        size_bytes = stored.size_bytes;
        width = width;
        height = height;
        duration_ms = none;
        created_at = now;
        delete_after = none;
      }

  -- The hash that the storage gives, or else that of the file.
  abbrev pub or_sha256 : Option String → Work O String
  or_sha256 none = outside (workshop.sha256_file frame_path)
  or_sha256 (some digest) = pure digest

  -- The frame is extracted, uploaded under the key and recorded.
  unfoldable pub add_frame :
      ReplayUploadRow
      → ReplayArtifactKind
      → ℕ
      → ℕ
      → String
      → Option ℕ
      → Option ℕ
      → Work O (Unit {0})
  unfolding upload_if_not_deleting
  add_frame row kind game_time_ms video_time_ms object_key width height = do
    outside (workshop.extract_frame video_time_ms frame_path)
    stored ← upload_if_not_deleting workshop others row.id object_key frame_path
    digest ← or_sha256 (non_empty stored.sha256)
    now ← reading workshop others
    k ← (λ w. (ok (workshop.uuid4 w.turn), w))
    transact workshop others (
        upsert (
          frame_row row kind game_time_ms video_time_ms object_key stored digest width height k
            now))
    pure tt

  unfoldable pub digest_of : String → Work O (Option String)
  digest_of object_key = λ w. digest_or_none (
      (outside (workshop.download_to_path object_key frame_path) >>= λ _.
      outside (workshop.sha256_file frame_path))
        w)

  abbrev pub frame_over :
      ReplayUploadRow
      → ReplayArtifactKind
      → ℕ
      → ℕ
      → Option ℕ
      → Option ℕ
      → Option ReplayArtifactRow
      → Work O (Unit {0})
  frame_over row kind game_time_ms video_time_ms width height none =
      add_frame row kind game_time_ms video_time_ms (workshop.frame_key row.id kind game_time_ms)
        width height
  frame_over row kind game_time_ms video_time_ms width height (some existing) =
      digest_of existing.object_key >>= λ digest.
      (if is_digest digest existing.sha256
        then (transact workshop others (upsert existing) >>= λ _. pure tt)
        else add_frame row kind game_time_ms video_time_ms existing.object_key width height)

  -- `_upsert_frame`
  unfoldable pub upsert_frame :
      ReplayUploadRow → ℕ → ReplayArtifactKind → Option ℕ → Option ℕ → Work O (Unit {0})
  unfolding add_frame digest_of
  upsert_frame row game_time_ms kind width height = do
    video_time_ms ←
        lift value_error (game_to_video_time (pos game_time_ms) (pos row.game_time_zero_ms))
    existing_rows ← transact workshop others (λ db. ok (list_for_replay row.id db, db))
    frame_over row kind game_time_ms (pos_part video_time_ms) width height
        (find (is_frame kind game_time_ms (pos_part video_time_ms)) existing_rows)

  -- The loop: `index` frames are done, of `total`.
  abbrev pub extract_frames :
      Option ℕ → Option ℕ → ℕ → ℕ → ReplayUploadRow → List ℕ → Work O ReplayUploadRow
  extract_frames width height total index row [] = pure row
  extract_frames width height total index row (game_time_ms ∷ times) =
      ensure_not_deleting workshop others row.id >>= λ _.
      upsert_frame row game_time_ms (kind_at game_time_ms) width height >>= λ _.
      reading workshop others >>= λ now.
      move workshop others row is_extracting extracting
        (stage_values "extracting" (min 95 (81 + workshop.frame_share (index + 1) total)) now)
      >>= λ row'. extract_frames width height total (index + 1) row' times
