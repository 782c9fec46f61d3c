-- ===== src/Processor/Process.antt =====
-- `ReplayProcessor.process` with `_process_in_scratch`, `_upsert_frame` and the cleanup of a cancelled
-- job, of services/replays/processor.py.
pub mod Extract
pub mod Run
pub mod Honest
pub mod Stages
pub mod Whole
pub mod Settled
pub mod Ready
pub mod Ends
use league_of_legnds_ai_coac.Prelude.{
  ℕ, suc, ◌+◌, min, max, String, Bool, true, false, not, ◌&&◌, ◌||◌, Option, none, some, List, [],
  ◌∷◌, ◌++◌, any, leb, ◌==◌, str_eq, find, length, if◌then◌else◌, Outcome, ok, raise, pos, pos_part,
}
use league_of_legnds_ai_coac.Domain.{
  ReplayStatus, ReplayArtifactKind, anchor_frame, verification_frame, ValueError, ReplayCoverage,
  queued, probing, transcoding, extracting, ready, calculate_coverage, game_to_video_time,
}
use league_of_legnds_ai_coac.Rows.{ReplayUploadRow, ReplayJobRow, ReplayArtifactRow}
use league_of_legnds_ai_coac.Database.{Db, DbError}
use league_of_legnds_ai_coac.Repo.Replays.{
  set_actual_size_bytes, set_source_sha256, set_updated_at, set_error_code, set_error_retryable,
  set_processing_stage, set_progress_percent, set_source_delete_after, set_derived_delete_after,
  set_processing_started_at, set_processing_finished_at, set_normalized_object_key,
  set_normalized_duration_ms, set_source_duration_ms, set_dimensions, set_frame_rate,
  set_actual_container, set_available_game_time, set_warning_codes, Assign,
}
use league_of_legnds_ai_coac.Repo.Jobs.{succeed, cancel}
use league_of_legnds_ai_coac.Repo.Artifacts.{upsert, list_for_replay, delete_rows, frame_code}
use league_of_legnds_ai_coac.Service.Calls.{StoredObject, World, non_empty, is_empty}
use league_of_legnds_ai_coac.Frames.{FrameError, bad_value, anchor_too_close, process_frame_times}
use league_of_legnds_ai_coac.Media.{
  MediaProbe, MediaLimits, ValidatedMedia, MediaError, media_code, validate_probe, default_limits,
}
use league_of_legnds_ai_coac.Processor.{
  ProcessError, media, object_not_found, other_error, is_failable, fail_job, handle_process_failure,
}
use league_of_legnds_ai_coac.Processor.Pipeline.{
  Scratch, source_path, normalized_path, frame_path, Workshop, Stop, cancelled, conflicted, failed,
  Work, ◌>>=◌, ◌>>◌, pure, stop, outside, lift, attempt, transact, reading, require_replay,
  ensure_not_deleting, move, upload_if_not_deleting,
}

-- What `process` reads of `Settings`; retentions are in microseconds.
pub record ProcessSettings : Type 0 where
  pub replay_min_duration_seconds : ℕ
  pub replay_max_duration_seconds : ℕ
  pub replay_source_retention : ℕ
  pub replay_derived_retention : ℕ

abbrev pub limits_of : ProcessSettings → MediaLimits
limits_of settings = record default_limits {
  min_duration_seconds = settings.replay_min_duration_seconds;
  max_duration_seconds = settings.replay_max_duration_seconds;
}

abbrev pub media_error : MediaError → ProcessError
media_error e = media (media_code e)

-- A `ValueError` is none of the exceptions that are told apart.
abbrev pub value_error : ValueError → ProcessError
value_error e = other_error

abbrev pub frame_error : FrameError → ProcessError
frame_error (bad_value e) = other_error
frame_error anchor_too_close = media "REPLAY_MEDIA_UNSUPPORTED"

abbrev pub or_now : Option ℕ → ℕ → ℕ
or_now none now = now
or_now (some at) now = at

abbrev pub is_probing_or_transcoding : ReplayStatus → Bool
is_probing_or_transcoding probing = true
is_probing_or_transcoding transcoding = true
is_probing_or_transcoding _ = false

abbrev pub is_transcodable_again : ReplayStatus → Bool
is_transcodable_again queued = true
is_transcodable_again probing = true
is_transcodable_again transcoding = true
is_transcodable_again extracting = true
is_transcodable_again _ = false

abbrev pub is_transcoding_or_extracting : ReplayStatus → Bool
is_transcoding_or_extracting transcoding = true
is_transcoding_or_extracting extracting = true
is_transcoding_or_extracting _ = false

abbrev pub is_extracting : ReplayStatus → Bool
is_extracting extracting = true
is_extracting _ = false

abbrev pub stage_values : String → ℕ → ℕ → List Assign
stage_values stage percent now =
    set_processing_stage (some stage) ∷ set_progress_percent percent ∷ set_updated_at now ∷ []

abbrev pub with_warning : Bool → List String → List String
with_warning partial codes =
    if partial && not (any (λ c. str_eq c "partial_coverage") codes)
    then codes ++ "partial_coverage" ∷ []
    else codes

abbrev pub kind_at : ℕ → ReplayArtifactKind
kind_at game_time_ms = if game_time_ms == 0 then anchor_frame else verification_frame

module _ {O : Type 0} (workshop : Workshop O) (others : ℕ → Db → Db) where
  abbrev pub source_key : Option String → Work O String
  source_key none = stop (failed (media "REPLAY_MEDIA_UNSUPPORTED"))
  source_key (some key) = pure key

  -- The object of an earlier run is taken over where it is there.
  abbrev pub or_hash : Option String → Work O String
  or_hash none = outside (workshop.sha256_file normalized_path)
  or_hash (some hash) = pure hash

  abbrev pub if_found : {A : Type 0} → A → Outcome Stop A × World O → Outcome Stop A × World O
  if_found a (raise (failed object_not_found), w) = (ok a, w)
  if_found a r = r

  unfoldable pub take_over : String → Work O Bool
  take_over key = do
    existing ← outside (workshop.download_to_path key normalized_path)
    hash ← or_hash (non_empty existing)
    pure (not (is_empty hash))

  abbrev pub skips_transcode : Option String → Work O Bool
  skips_transcode none = pure false
  skips_transcode (some key) = λ w. if_found false (take_over key w)

  -- `_on_progress`: a conflict without a deletion goes on with the row as it is now.
  abbrev pub on_conflict :
      ℕ → Outcome Stop ReplayUploadRow × World O → Outcome Stop ReplayUploadRow × World O
  on_conflict replay_id (raise conflicted, w) =
      (require_replay workshop others replay_id >>= λ latest.
      ensure_not_deleting workshop others latest.id >>= λ _. pure latest)
        w
  on_conflict replay_id r = r

  unfoldable pub on_progress : ReplayUploadRow → ℕ → Work O ReplayUploadRow
  unfolding move require_replay
  on_progress row percent = do
    now ← reading workshop others
    (λ w. on_conflict row.id (
        move workshop others row is_probing_or_transcoding transcoding
          (stage_values "transcoding" (max 15 (min 80 percent)) now) w))

  -- The callbacks of one run of the media runner, in their order.
  abbrev pub on_reports : ReplayUploadRow → List ℕ → Work O ReplayUploadRow
  on_reports row [] = pure row
  on_reports row (percent ∷ percents) = on_progress row percent >>= λ row'. on_reports row' percents

  unfoldable pub transcode : ReplayUploadRow → MediaProbe → Work O ReplayUploadRow
  unfolding on_progress
  transcode row source_probe = do
    percents ← (λ w. (ok (workshop.reports w.objects), w))
    row' ← on_reports row percents
    outside (workshop.normalize source_probe)
    now ← reading workshop others
    move workshop others row' is_probing_or_transcoding transcoding
        (stage_values "transcoding" 80 now)

  unfoldable pub reuse : ReplayUploadRow → Work O ReplayUploadRow
  reuse row = do
    now ← reading workshop others
    move workshop others row is_transcodable_again transcoding (stage_values "transcoding" 80 now)

  -- The row once the normalized video is in its file, and what is probed of that file.
  unfoldable pub normalized :
      ReplayUploadRow → MediaProbe → Bool → Work O (ReplayUploadRow × MediaProbe)
  unfolding transcode reuse ensure_not_deleting
  normalized row source_probe true = do
    found ← outside (workshop.probe normalized_path)
    row' ← reuse row
    ensure_not_deleting workshop others row'.id
    pure (row', found)
  normalized row source_probe false = do
    row' ← transcode row source_probe
    ensure_not_deleting workshop others row'.id
    found ← outside (workshop.probe normalized_path)
    pure (row', found)
