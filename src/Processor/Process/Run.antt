-- ===== src/Processor/Process/Run.antt =====
-- `_process_in_scratch`, `_complete_cancelled_process` and `process`, of services/replays/processor.py.
use league_of_legnds_ai_coac.Prelude.{
  ℕ, ◌+◌, max, String, true, Option, none, some, List, [], ◌∷◌, leb, length, if◌then◌else◌, Outcome,
  ok, raise, pos, pos_part,
}
use league_of_legnds_ai_coac.Domain.{ReplayCoverage, probing, extracting, ready, calculate_coverage}
use league_of_legnds_ai_coac.Rows.{ReplayUploadRow, ReplayJobRow}
use league_of_legnds_ai_coac.Database.{Db, DbError}
use league_of_legnds_ai_coac.Repo.Replays.{
  set_actual_size_bytes, set_source_sha256, set_updated_at, set_error_code, set_error_retryable,
  set_processing_stage, set_progress_percent, set_source_delete_after, set_derived_delete_after,
  set_processing_started_at, set_processing_finished_at, set_normalized_object_key,
  set_normalized_duration_ms, set_source_duration_ms, set_dimensions, set_frame_rate,
  set_actual_container, set_available_game_time, set_warning_codes, Assign,
}
use league_of_legnds_ai_coac.Repo.Jobs.{succeed, cancel}
use league_of_legnds_ai_coac.Repo.Artifacts.{delete_rows}
use league_of_legnds_ai_coac.Service.Calls.{World, non_empty}
use league_of_legnds_ai_coac.Frames.{process_frame_times}
use league_of_legnds_ai_coac.Media.{ValidatedMedia, MediaProbe, validate_probe}
use league_of_legnds_ai_coac.Processor.{
  ProcessError, media, other_error, is_failable, fail_job, handle_process_failure,
}
use league_of_legnds_ai_coac.Processor.Pipeline.{
  source_path, normalized_path, Workshop, Stop, cancelled, conflicted, failed, Work, ◌>>=◌, ◌>>◌,
  pure, stop, outside, lift, attempt, transact, reading, require_replay, ensure_not_deleting, move,
  upload_if_not_deleting,
}
use league_of_legnds_ai_coac.Processor.Process.{
  ProcessSettings, limits_of, media_error, value_error, frame_error, or_now,
  is_transcoding_or_extracting, is_extracting, with_warning, source_key, skips_transcode,
  normalized,
}
use league_of_legnds_ai_coac.Processor.Process.Extract.{extract_frames}

abbrev pub or_default : Option String → String → String
or_default none key = key
or_default (some k) key = k

abbrev pub extracted_values :
    String → ℕ → ℕ → ValidatedMedia → ReplayCoverage → List String → ℕ → List Assign
extracted_values key normalized_ms source_ms video coverage codes now =
    set_processing_stage (some "extracting")
    ∷ set_progress_percent 81
    ∷ set_normalized_object_key (some key)
    ∷ set_normalized_duration_ms (some normalized_ms)
    ∷ set_source_duration_ms (some source_ms)
    ∷ set_dimensions (some video.width) (some video.height)
    ∷ set_frame_rate (some 30) (some 1)
    ∷ set_actual_container (some "mp4")
    ∷ set_available_game_time (some (pos_part coverage.start_ms)) (some (pos_part coverage.end_ms))
    ∷ set_warning_codes codes
    ∷ set_updated_at now
    ∷ []

abbrev pub ready_values : ProcessSettings → ℕ → List Assign
ready_values settings finished =
    set_processing_stage (some "ready")
    ∷ set_progress_percent 100
    ∷ set_error_code none
    ∷ set_error_retryable none
    ∷ set_processing_finished_at (some finished)
    ∷ set_source_delete_after (some (finished + settings.replay_source_retention))
    ∷ set_derived_delete_after (some (finished + settings.replay_derived_retention))
    ∷ set_updated_at finished
    ∷ []

module _ {O : Type 0} (workshop : Workshop O) (others : ℕ → Db → Db)
    (settings : ProcessSettings) where
  -- The source is fetched and measured.
  unfoldable pub fetch_source : ReplayJobRow → ℕ → Work O ReplayUploadRow
  unfolding require_replay ensure_not_deleting outside move
  fetch_source job now = do
    found ← require_replay workshop others job.replay_id
    ensure_not_deleting workshop others found.id
    key ← source_key workshop others (non_empty found.source_object_key)
    outside (workshop.download_to_path key source_path)
    digest ← outside (workshop.sha256_file source_path)
    size ← outside (workshop.file_size source_path)
    move workshop others found is_failable found.status (
        set_source_sha256 (some digest)
        ∷ set_actual_size_bytes (some size)
        ∷ set_updated_at now
        ∷ [])

  -- The source is probed; the anchor has to lie inside the video.
  unfoldable pub probe_source :
      ℕ → ReplayUploadRow → Work O (ReplayUploadRow × (MediaProbe × ValidatedMedia))
  unfolding ensure_not_deleting outside move lift
  probe_source now row = do
    source_probe ← outside (workshop.probe source_path)
    updated ← reading workshop others
    row' ← move workshop others row is_failable probing (
        set_processing_stage (some "probing")
        ∷ set_progress_percent 10
        ∷ set_processing_started_at (some (or_now row.processing_started_at now))
        ∷ set_updated_at updated
        ∷ [])
    ensure_not_deleting workshop others row'.id
    validated ← lift media_error (validate_probe source_probe (limits_of settings))
    (if leb (workshop.to_ms validated.duration_seconds) row'.game_time_zero_ms
        then stop (failed (media "REPLAY_MEDIA_UNSUPPORTED"))
        else pure (row', (source_probe, validated)))

  -- The normalized video is made or taken over, stored, and described in the row.
  unfoldable pub store_normalized :
      ReplayUploadRow
      → MediaProbe
      → ValidatedMedia
      → Work O (ReplayUploadRow × (ValidatedMedia × ReplayCoverage))
  unfolding normalized upload_if_not_deleting move lift
  store_normalized row source_probe validated = do
    let key = or_default (non_empty row.normalized_object_key) (workshop.normalized_key row.id)
    skipped ← skips_transcode workshop others (non_empty row.normalized_object_key)
    (row', found) ← normalized workshop others row source_probe skipped
    video ← lift media_error (validate_probe found (limits_of settings))
    upload_if_not_deleting workshop others row'.id key normalized_path
    coverage ← lift value_error (
        calculate_coverage (pos (workshop.to_ms video.duration_seconds))
          (pos row'.game_time_zero_ms) (pos row'.match_duration_ms))
    now ← reading workshop others
    row'' ← move workshop others row' is_transcoding_or_extracting extracting (
        extracted_values key (workshop.to_ms video.duration_seconds)
          (workshop.to_ms validated.duration_seconds) video coverage
          (with_warning coverage.partial row'.warning_codes) now)
    ensure_not_deleting workshop others row''.id
    pure (row'', (video, coverage))

  -- The last transition, and the job that has succeeded.
  unfoldable pub finish : ReplayJobRow → ReplayUploadRow → Work O (Unit {0})
  unfolding ensure_not_deleting move
  finish job row = do
    ensure_not_deleting workshop others row.id
    finished ← reading workshop others
    move workshop others row is_extracting ready (ready_values settings finished)
    transact workshop others (succeed job.id finished)
    pure tt

  -- `_process_in_scratch` until the frames are there.
  unfoldable pub extracted : ReplayJobRow → ℕ → Work O ReplayUploadRow
  unfolding fetch_source probe_source store_normalized
  extracted job now = do
    fetched ← fetch_source job now
    (row, (source_probe, validated)) ← probe_source now fetched
    (row', (video, coverage)) ← store_normalized row source_probe validated
    times ← lift frame_error (
        process_frame_times (pos (workshop.to_ms video.duration_seconds))
          (pos row'.game_time_zero_ms) coverage.end_ms)
    extract_frames workshop others (some video.width) (some video.height) (max 1 (length times)) 0
        row' times

  -- `_process_in_scratch`
  unfoldable pub process_in_scratch : ReplayJobRow → ℕ → Work O (Unit {0})
  unfolding extracted finish
  process_in_scratch job now = do row ← extracted job now; finish job row

  -- `_sweep_cancelled_derived`
  unfoldable pub sweep_cancelled_derived : ℕ → Work O (Unit {0})
  unfolding outside attempt
  sweep_cancelled_derived replay_id = do
    outside (workshop.delete_prefix (workshop.normalized_prefix replay_id))
    outside (workshop.delete_prefix (workshop.frames_prefix replay_id))
    transact workshop others (λ db. ok (delete_rows replay_id db))
    pure tt

  -- A transaction whose exception leaves `process`.
  abbrev pub ends_in :
      {A : Type 0}
      → Outcome Stop (Outcome DbError A) × World O
      → Outcome DbError (Unit {0}) × World O
  ends_in (ok (ok _), w) = (ok tt, w)
  ends_in (ok (raise e), w) = (raise e, w)
  ends_in (raise e, w) = (ok tt, w)

  -- `_complete_cancelled_process`, after the sweep: the job is cancelled, or fails for a retry.
  abbrev pub after_sweep :
      ReplayJobRow → ℕ → Outcome Stop (Unit {0}) × World O → Outcome DbError (Unit {0}) × World O
  after_sweep job jitter (ok _, w) =
      ends_in (attempt workshop others (cancel job.id (workshop.clock w.turn)) w)
  after_sweep job jitter (raise e, w) = ends_in (
      attempt workshop others
        (fail_job job "REPLAY_CLEANUP_FAILED" true (workshop.clock w.turn) jitter) w)

  abbrev pub complete_cancelled_process :
      ReplayJobRow → ℕ → World O → Outcome DbError (Unit {0}) × World O
  complete_cancelled_process job jitter w =
      after_sweep job jitter (sweep_cancelled_derived job.replay_id w)

  -- `_handle_process_failure`, between whose transactions other sessions run theirs.
  abbrev pub settle_failure :
      ReplayJobRow → ProcessError → ℕ → World O → Outcome DbError (Unit {0}) × World O
  settle_failure job e jitter w =
      let result =
        handle_process_failure (others (w.turn + 1)) (others (w.turn + 2)) job e
          (workshop.clock w.turn) jitter settings.replay_source_retention (others w.turn w.db) in
      (result.0, record w { db = result.1; turn = w.turn + 3 })

  -- The `except` clauses of `process`.
  abbrev pub settle :
      ReplayJobRow → ℕ → Outcome Stop (Unit {0}) × World O → Outcome DbError (Unit {0}) × World O
  settle job jitter (ok _, w) = (ok tt, w)
  settle job jitter (raise cancelled, w) = complete_cancelled_process job jitter w
  settle job jitter (raise conflicted, w) = settle_failure job other_error jitter w
  settle job jitter (raise (failed e), w) = settle_failure job e jitter w

  unfoldable pub process : ReplayJobRow → ℕ → World O → Outcome DbError (Unit {0}) × World O
  unfolding process_in_scratch sweep_cancelled_derived
  process job jitter w = settle job jitter (process_in_scratch job (workshop.clock w.turn) w)
