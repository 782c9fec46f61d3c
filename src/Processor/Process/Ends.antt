-- ===== src/Processor/Process/Ends.antt =====
-- How `process` settles its job, on each of its paths.
use league_of_legnds_ai_coac.Prelude.{ℕ, ◌≡◌, ◌⊎◌, String, some, Outcome, ok, raise}
use league_of_legnds_ai_coac.Domain.{ReplayJobStatus}
use league_of_legnds_ai_coac.Rows.{ReplayJobRow}
use league_of_legnds_ai_coac.Database.{Db, find_job}
use league_of_legnds_ai_coac.Service.Calls.{World}
use league_of_legnds_ai_coac.Processor.{ProcessError, other_error, classify_process_error, fail_job}
use league_of_legnds_ai_coac.Processor.Pipeline.{Workshop, Stop, cancelled, conflicted, failed}
use league_of_legnds_ai_coac.Processor.Pipeline.Honest.{IsGoneIn}
use league_of_legnds_ai_coac.Processor.Process.{ProcessSettings}
use league_of_legnds_ai_coac.Processor.Process.Ready.{IsThrough}
use league_of_legnds_ai_coac.Processor.Process.Run.{sweep_cancelled_derived}

-- The job has failed with the code: it waits for a retry or is FAILED.
pub record HasFailed (job_id : ℕ) (code : String) (db : Db) : Type 0 where
  pub row : ReplayJobRow
  pub found : find_job job_id db ≡ some row
  pub code_is : row.last_error_code ≡ some code
  pub status_is :
      (row.status ≡ ReplayJobStatus.retry_scheduled) ⊎ (row.status ≡ ReplayJobStatus.failed)

pub record IsCancelled (job_id : ℕ) (db : Db) : Type 0 where
  pub row : ReplayJobRow
  pub found : find_job job_id db ≡ some row
  pub status_is : row.status ≡ ReplayJobStatus.cancelled

module _ {O : Type 0} (workshop : Workshop O) (others : ℕ → Db → Db)
    (settings : ProcessSettings) where
  -- How a job ends whose run was cancelled: after the sweep of what was derived, or for a retry of it.
  abbrev pub Swept : ReplayJobRow → Outcome Stop (Unit {0}) → Db → Type 0
  Swept job (ok _) db = IsCancelled job.id db
  Swept job (raise e) db = HasFailed job.id "REPLAY_CLEANUP_FAILED" db

  -- The first transaction after a failure at `v` has settled the job.
  pub record FailedFrom (job : ReplayJobRow) (e : ProcessError) (jitter : ℕ) (v : World O)
      : Type 0 where
    pub row : ReplayJobRow
    pub after : Db
    pub settling :
        fail_job job
          (classify_process_error e).0
          (classify_process_error e).1
          (workshop.clock v.turn)
          jitter
          (others v.turn v.db)
        ≡ ok (row, after)
    pub has_failed : HasFailed job.id (classify_process_error e).0 after

  -- What a run that ended in `r` leads to in the tables.
  abbrev pub Settles :
      ReplayJobRow → ℕ → World O → Outcome Stop (Unit {0}) × World O → World O → Type 0
  Settles job jitter v (ok _, x) w =
      IsThrough workshop others settings job (workshop.clock v.turn) v w
  Settles job jitter v (raise cancelled, x) w =
      IsGoneIn job.replay_id x.db
      × Swept job (sweep_cancelled_derived workshop others settings job.replay_id x).0 w.db
  Settles job jitter v (raise conflicted, x) w = FailedFrom job other_error jitter x
  Settles job jitter v (raise (failed e), x) w = FailedFrom job e jitter x
