-- ===== src/Processor/Process/Settled.antt =====
-- Where `_process_in_scratch` gives up for a deletion.
use league_of_legnds_ai_coac.Prelude.{ℕ, ◌≡◌, refl, Bool, Outcome, ok, raise}
use league_of_legnds_ai_coac.Rows.{ReplayJobRow}
use league_of_legnds_ai_coac.Database.{Db}
use league_of_legnds_ai_coac.Repo.Steps.{Reach}
use league_of_legnds_ai_coac.Service.Calls.{World}
use league_of_legnds_ai_coac.Processor.Pipeline.{Workshop, Stop, cancelled, conflicted, failed}
use league_of_legnds_ai_coac.Processor.Pipeline.Honest.{IsGoneIn, Ends, Any}
use league_of_legnds_ai_coac.Processor.Process.{ProcessSettings}
use league_of_legnds_ai_coac.Processor.Process.Whole.{process_in_scratch-IsHonest}
use league_of_legnds_ai_coac.Processor.Process.Run.{process_in_scratch}

module _ (O : Type 0) (drawn : ℕ → Bool) (workshop : Workshop O) (others : ℕ → Db → Db)
    (theirs : (n : ℕ) (db : Db) → Reach drawn db (others n db)) (settings : ProcessSettings) where
  cancelled-IsGoneIn :
      (k : ℕ) (r : Outcome Stop (Unit {0}) × World O)
      → Ends k Any r
      → r.0 ≡ raise cancelled
      → IsGoneIn k r.1.db
  unfolding Ends
  cancelled-IsGoneIn k (raise cancelled, w) h e = h
  cancelled-IsGoneIn k (ok u, w) h e = cc
  cancelled-IsGoneIn k (raise conflicted, w) h e = cc
  cancelled-IsGoneIn k (raise (failed x), w) h e = cc

  -- The processing of a job is cancelled only where the replay is being deleted or is deleted in the
  -- tables at that moment, whatever other sessions and the media runner do.
  pub process_in_scratch-IsGoneIn :
      (job : ReplayJobRow) (now : ℕ) (w : World O)
      → (process_in_scratch workshop others settings job now w).0 ≡ raise cancelled
      → IsGoneIn job.replay_id (process_in_scratch workshop others settings job now w).1.db
  process_in_scratch-IsGoneIn job now w =
      cancelled-IsGoneIn job.replay_id (process_in_scratch workshop others settings job now w) (
        (process_in_scratch-IsHonest O drawn workshop others theirs settings job.replay_id job now
            refl).ends
          w)
