-- ===== src/Service/Enqueue.antt =====
-- `enqueue_idempotent` of `SqlReplayJobRepository`: an insertion and, where it breaks a constraint, a
-- second transaction, between which other sessions may run theirs.
use league_of_legnds_ai_coac.Prelude.{ℕ, Option, none, some, Outcome, ok, raise}
use league_of_legnds_ai_coac.Domain.{ReplayJobKind}
use league_of_legnds_ai_coac.Rows.{ReplayJobRow}
use league_of_legnds_ai_coac.Database.{Db, DbError, active_job_integrity, other_integrity}
use league_of_legnds_ai_coac.Repo.Jobs.{enqueue, get_active_job}
use league_of_legnds_ai_coac.Service.Calls.{uncaught_db, Call, pure, fails, ◌>>=◌, attempt, read}

module _ {O : Type 0} (others : ℕ → Db → Db) where
  -- The exception is raised again if no active job is there by then.
  abbrev pub or_raise : DbError → Option ReplayJobRow → Call O ReplayJobRow
  or_raise e none = fails (uncaught_db e)
  or_raise e (some existing) = pure existing

  -- `except IntegrityError`: any of them.
  abbrev pub recover_integrity :
      ℕ → ReplayJobKind → Outcome DbError ReplayJobRow → Call O ReplayJobRow
  recover_integrity replay_id kind (ok job) = pure job
  recover_integrity replay_id kind (raise active_job_integrity) =
      read others (get_active_job replay_id kind) >>= or_raise active_job_integrity
  recover_integrity replay_id kind (raise other_integrity) =
      read others (get_active_job replay_id kind) >>= or_raise other_integrity
  recover_integrity replay_id kind (raise e) = fails (uncaught_db e)

  unfoldable pub enqueue_idempotent : ℕ → ReplayJobKind → ℕ → ℕ → ℕ → ℕ → Call O ReplayJobRow
  enqueue_idempotent replay_id kind available_at max_attempts job_id now = do
    result ← attempt others (enqueue replay_id kind available_at max_attempts job_id now)
    recover_integrity replay_id kind result
