-- ===== src/Processor/Process/Ready.antt =====
-- What a run that gets through has done.
use league_of_legnds_ai_coac.Prelude.{ℕ, ◌+◌, ◌≡◌, some, In, ok}
use league_of_legnds_ai_coac.Domain.{ReplayJobStatus, ready, extracting}
use league_of_legnds_ai_coac.Rows.{ReplayUploadRow, ReplayJobRow}
use league_of_legnds_ai_coac.Database.{Db, find_job, write_upload}
use league_of_legnds_ai_coac.Repo.Replays.{moved}
use league_of_legnds_ai_coac.Repo.Jobs.{succeed}
use league_of_legnds_ai_coac.Service.Calls.{World}
use league_of_legnds_ai_coac.Processor.Pipeline.{Workshop}
use league_of_legnds_ai_coac.Processor.Process.{ProcessSettings}
use league_of_legnds_ai_coac.Processor.Process.Run.{ready_values, extracted}

-- The tables at the transition: after two transactions that only read, and what comes before each.
abbrev pub looked_twice : {O : Type 0} → (ℕ → Db → Db) → World O → Db
looked_twice others x = others (x.turn + 2) (others (x.turn + 1) (others x.turn x.db))

-- A run that gets through, from the state `v` to `w`: the frames are there at `x`, then come two looks
-- at the replay, the transition and the settlement of the job, each after what other sessions do.
pub record IsThrough {O : Type 0} (workshop : Workshop O) (others : ℕ → Db → Db)
    (settings : ProcessSettings) (job : ReplayJobRow) (now : ℕ) (v w : World O) : Type 0 where
  pub row : ReplayUploadRow
  pub x : World O
  pub has_extracted : extracted workshop others settings job now v ≡ (ok row, x)
  pub was : ReplayUploadRow
  pub was_there : In was (looked_twice others x).uploads
  pub was_replay : was.id ≡ job.replay_id
  pub was_extracting : was.status ≡ extracting
  pub was_version : was.version ≡ row.version
  pub replay : ReplayUploadRow
  pub after : Db
  pub moved_on :
      replay
      ≡ moved ready row.version
          (workshop.clock (x.turn + 2))
          (ready_values settings (workshop.clock (x.turn + 1)))
          was
  pub written : after ≡ write_upload replay (looked_twice others x)
  pub settled_job : ReplayJobRow
  pub settled_then :
      succeed job.id (workshop.clock (x.turn + 1)) (others (x.turn + 3) after)
      ≡ ok (settled_job, w.db)
  pub found : find_job job.id w.db ≡ some settled_job
  pub has_succeeded : settled_job.status ≡ ReplayJobStatus.succeeded
