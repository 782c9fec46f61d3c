-- ===== src/Service/Requests.antt =====
-- The transactions that the requests share, as steps.
use league_of_legnds_ai_coac.Prelude.{ℕ, ◌≡◌, String, Bool, true, false, List, Outcome, ok, raise}
use league_of_legnds_ai_coac.Domain.{ReplayStatus}
use league_of_legnds_ai_coac.Database.{Db, DbError}
use league_of_legnds_ai_coac.Repo.Replays.{Assign, transition}
use league_of_legnds_ai_coac.Repo.Recovery.{is_gone}
use league_of_legnds_ai_coac.Repo.Steps.{Step, Reach, IsMove}
use league_of_legnds_ai_coac.Service.Calls.{
  uncaught_db, ReplayStorage, ReplaySettings, attempt, or_uncaught,
}
use league_of_legnds_ai_coac.Service.Runs.{Runs, pure-Runs, fails-Runs, attempt-Runs}

module _ (O : Type 0) (drawn : ℕ → Bool) (others : ℕ → Db → Db)
    (outside : (n : ℕ) (db : Db) → Reach drawn db (others n db)) (storage : ReplayStorage O)
    (settings : ReplaySettings) (digest : String → String → String) where
  pub transition-Runs :
      (replay_id : ℕ) (expected : ReplayStatus → Bool) (version : ℕ) (status : ReplayStatus)
      (values : List Assign) (now : ℕ)
      → ((s : ReplayStatus) → is_gone s ≡ true → expected s ≡ false)
      → Runs O drawn (attempt others (transition replay_id expected version status values now))
  transition-Runs replay_id expected version status values now alive =
      attempt-Runs O drawn others outside (transition replay_id expected version status values now)
        (λ db r db' e. Reach.next {db' = db} Reach.here (
          Step.moved_to replay_id expected version status values now {r = r} (IsMove.alive alive)
            e))

  pub uncaught-Runs : {A : Type 0} (o : Outcome DbError A) → Runs O drawn (or_uncaught others o)
  uncaught-Runs (ok a) = pure-Runs O drawn a
  uncaught-Runs {A} (raise e) = fails-Runs O drawn A (uncaught_db e)
