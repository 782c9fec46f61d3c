-- ===== src/Processor.antt =====
-- backend/app/services/replays/processor.py: how a job that failed is settled, and the two deletion
-- jobs. Between two transactions other sessions may run theirs: the `meanwhile` and
-- `others` arguments.
pub mod Deletion
pub mod Failing
pub mod Mirror
pub mod Deleted
pub mod Pipeline
pub mod Process
use league_of_legnds_ai_coac.Prelude.{
  ℕ, ◌+◌, ◌*◌, ◌^◌, min, String, Bool, true, false, not, ◌&&◌, ◌||◌, Option, none, some, List, [],
  ◌∷◌, ◌++◌, ltb, ◌==◌, any, if◌then◌else◌, Outcome, ok, raise, str_eq, map,
}
use league_of_legnds_ai_coac.Domain.{
  ReplayStatus, ReplayJobStatus, queued, probing, transcoding, extracting, deleting,
}
use league_of_legnds_ai_coac.Rows.{ReplayUploadRow, ReplayJobRow, ReplayArtifactRow, same_status}
use league_of_legnds_ai_coac.Database.{Db, DbError, state_conflict, Tx}
use league_of_legnds_ai_coac.Repo.Replays.{
  Assign, set_processing_stage, set_error_code, set_error_retryable, set_processing_finished_at,
  set_source_delete_after, set_updated_at, set_source_object_key, set_source_sha256,
  set_actual_size_bytes, get, transition, scrub_deleted,
}
use league_of_legnds_ai_coac.Repo.Jobs.{fail, succeed}
use league_of_legnds_ai_coac.Repo.Recovery.{is_gone}
use league_of_legnds_ai_coac.Repo.Artifacts.{list_for_replay, delete_rows}

-- The exceptions that `classify_process_error` tells apart; `media` carries the code of a
-- `ReplayMediaError`, `os_error` is a `TimeoutError`, `ConnectionError` or `OSError`.
pub data ProcessError : Type 0 where
  media : String → ProcessError
  object_not_found os_error other_error : ProcessError

-- `_NON_RETRYABLE_MEDIA_CODES`
abbrev pub non_retryable_media_codes : List String
non_retryable_media_codes =
    "REPLAY_MEDIA_UNSUPPORTED" ∷ "REPLAY_DURATION_UNSUPPORTED" ∷ "REPLAY_PROCESSING_FAILED"
    ∷ "REPLAY_FFMPEG_UNAVAILABLE" ∷ []

unfoldable pub classify_process_error : ProcessError → String × Bool
classify_process_error (media code) = (code, not (any (str_eq code) non_retryable_media_codes))
classify_process_error object_not_found = ("REPLAY_MEDIA_UNSUPPORTED", false)
classify_process_error os_error = ("REPLAY_STORAGE_UNAVAILABLE", true)
classify_process_error other_error = ("REPLAY_PROCESSING_FAILED", false)

-- `min(60, 2 ** max(0, attempt_count))` seconds, in microseconds.
unfoldable pub retry_base : ℕ → ℕ
retry_base attempt_count = min 60 (2 ^ attempt_count) * 1000000

-- `_retry_delay`, with the draw of `random.uniform(0, 0.25 * base)`.
unfoldable pub retry_delay : ℕ → ℕ → ℕ
unfolding retry_base
retry_delay attempt_count jitter = retry_base attempt_count + jitter

-- When the job may be tried again.
unfoldable pub retry_at : ReplayJobRow → Bool → ℕ → ℕ → Option ℕ
retry_at job retryable now jitter =
    if retryable && ltb job.attempt_count job.max_attempts
    then some (now + retry_delay job.attempt_count jitter)
    else none

-- `_fail_job`
unfoldable pub fail_job : ReplayJobRow → String → Bool → ℕ → ℕ → Tx ReplayJobRow
unfolding retry_at
fail_job job error_code retryable now jitter =
    fail job.id error_code now (retry_at job retryable now jitter)

-- The statuses that a failure may be written over.
abbrev pub is_failable : ReplayStatus → Bool
is_failable queued = true
is_failable probing = true
is_failable transcoding = true
is_failable extracting = true
is_failable ReplayStatus.failed = true
is_failable _ = false

abbrev pub is_retry_scheduled : ReplayJobStatus → Bool
is_retry_scheduled ReplayJobStatus.retry_scheduled = true
is_retry_scheduled _ = false

abbrev pub failure_values : Bool → String → Bool → ℕ → ℕ → List Assign
failure_values again code retryable now retention =
    set_processing_stage (some (if again then "queued" else "failed"))
    ∷ set_error_code (some code)
    ∷ set_error_retryable (some retryable)
    ∷ set_processing_finished_at (if again then none else some now)
    ∷ set_source_delete_after (some (now + retention))
    ∷ set_updated_at now
    ∷ []

-- A call that may raise, with the tables it leaves.
abbrev pub Settled : Type 0
Settled = Outcome DbError (Unit {0}) × Db

-- `except ReplayStateConflict` ends normally in both its branches.
unfoldable pub settle_transition : Outcome DbError (ReplayUploadRow × Db) → Db → Settled
settle_transition (ok (_, db')) db = (ok tt, db')
settle_transition (raise state_conflict) db = (ok tt, db)
settle_transition (raise e) db = (raise e, db)

-- The replay after its job was settled.
unfoldable pub mirror_failure :
    (Db → Db) → Option ReplayUploadRow → Bool → String → Bool → ℕ → ℕ → Db → Settled
unfolding settle_transition
mirror_failure meanwhile none again code retryable now retention db = (ok tt, db)
mirror_failure meanwhile (some row) again code retryable now retention db =
    if is_gone row.status
    then (ok tt, db)
    else settle_transition
        (transition row.id is_failable row.version (if again then queued else ReplayStatus.failed)
          (failure_values again code retryable now retention) now (meanwhile db))
        (meanwhile db)

-- `_handle_process_failure`
unfoldable pub handle_process_failure :
    (Db → Db) → (Db → Db) → ReplayJobRow → ProcessError → ℕ → ℕ → ℕ → Db → Settled
unfolding mirror_failure classify_process_error get fail_job
handle_process_failure meanwhile meanwhile' job error now jitter retention db =
    let (code, retryable) = classify_process_error error in
    elim (fail_job job code retryable now jitter db) [
      | raise e ↦ (raise e, db)
      | ok (updated, after) ↦
          mirror_failure meanwhile' (get job.replay_id (meanwhile after))
            (is_retry_scheduled updated.status) code retryable now retention (meanwhile after)
    ]
