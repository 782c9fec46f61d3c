-- ===== src/Repo/Recovery.antt =====
-- `recover_stale` of `SqlReplayJobRepository`, with `_sync_replay_after_stale_process_job`.
use league_of_legnds_ai_coac.Prelude.{
  ℕ, ◌+◌, Bool, true, false, ◌&&◌, ◌||◌, Option, none, some, List, [], ◌∷◌, ltb, if◌then◌else◌,
  filter, length,
}
use league_of_legnds_ai_coac.Domain.{
  ReplayStatus, ReplayJobKind, ReplayJobStatus, queued, deleting, deleted, process,
}
use league_of_legnds_ai_coac.Rows.{
  ReplayUploadRow, ReplayJobRow, is_running, same_kind, same_status,
}
use league_of_legnds_ai_coac.Database.{Db, find_upload, write_upload, write_job}

-- The arguments of `recover_stale`.
pub record Recovery : Type 0 where
  pub heartbeat_before : ℕ
  pub available_at : ℕ
  pub now : ℕ
  pub source_delete_after : Option ℕ

-- The `where` of the selection.
abbrev pub is_stale : Recovery → ReplayJobRow → Bool
is_stale r j =
    is_running j.status
    && (elim j.heartbeat_at [ none ↦ false | some beat ↦ ltb beat r.heartbeat_before ])

-- `{ReplayStatus.DELETING, ReplayStatus.DELETED}`
abbrev pub is_gone : ReplayStatus → Bool
is_gone s = same_status s deleting || same_status s deleted

abbrev pub is_process : ReplayJobKind → Bool
is_process k = same_kind k process

abbrev or_else : Option ℕ → Option ℕ → Option ℕ
or_else none d = d
or_else (some v) d = some v

-- `_sync_replay_after_stale_process_job`
unfoldable pub synced : Recovery → Bool → ReplayUploadRow → ReplayUploadRow
synced r true row = record row {
  status = queued;
  processing_stage = some "queued";
  error_code = some "REPLAY_WORKER_STALE";
  error_retryable = some true;
  processing_finished_at = none;
  updated_at = r.now;
  version = row.version + 1;
}
synced r false row = record row {
  status = ReplayStatus.failed;
  processing_stage = some "failed";
  error_code = some "REPLAY_WORKER_STALE";
  error_retryable = some true;
  processing_finished_at = some r.now;
  source_delete_after = or_else r.source_delete_after row.source_delete_after;
  updated_at = r.now;
  version = row.version + 1;
}

-- What the loop writes on every job it has settled.
abbrev pub unclaimed : Recovery → ReplayJobRow → ReplayJobRow
unclaimed r job = record job {
  last_error_code = some "REPLAY_WORKER_STALE";
  worker_id = none;
  claimed_at = none;
  heartbeat_at = none;
  updated_at = r.now;
}

abbrev pub recovered_cancelled : Recovery → ReplayJobRow → ReplayJobRow
recovered_cancelled r job =
    unclaimed r (record job { status = ReplayJobStatus.cancelled; finished_at = some r.now })

abbrev pub recovered_settled : Recovery → ReplayJobRow → ReplayJobRow
recovered_settled r job = unclaimed r (
    if ltb job.attempt_count job.max_attempts
    then record job {
      status = ReplayJobStatus.retry_scheduled;
      available_at = r.available_at;
      finished_at = none;
    }
    else record job { status = ReplayJobStatus.failed; finished_at = some r.now })

-- One round of the loop, with the replay row that `session.get` found.
unfoldable pub recover_one : Recovery → ReplayJobRow → Option ReplayUploadRow → Db → Db
unfolding synced
recover_one r job none db = write_job (recovered_settled r job) db
recover_one r job (some replay) db =
    if is_process job.kind && is_gone replay.status
    then write_job (recovered_cancelled r job) db
    else if is_process job.kind
    then write_job (recovered_settled r job)
        (write_upload (synced r (ltb job.attempt_count job.max_attempts) replay) db)
    else write_job (recovered_settled r job) db

-- `for job in jobs`
unfoldable pub recover_all : Recovery → List ReplayJobRow → Db → Db
unfolding recover_one
recover_all r [] db = db
recover_all r (job ∷ jobs) db =
    recover_all r jobs (recover_one r job (find_upload job.replay_id db) db)

unfoldable pub recover_stale : Recovery → Db → ℕ × Db
unfolding recover_all
recover_stale r db = let jobs = filter (is_stale r) db.jobs in (length jobs, recover_all r jobs db)
