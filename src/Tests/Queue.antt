-- ===== src/Tests/Queue.antt =====
-- The theorems on the repositories at concrete tables.
use league_of_legnds_ai_coac.Prelude.{
  ℕ, ◌≡◌, ◌+◌, Bool, false, none, [], ◌∷◌, ◌++◌, ◌==◌, any, ok, raise, refl, arith,
}
use league_of_legnds_ai_coac.Prelude.Tables.{count}
use league_of_legnds_ai_coac.Domain.{
  created, uploaded, queued, probing, deleting, process, delete_all,
}
use league_of_legnds_ai_coac.Rows.{ReplayUploadRow, ReplayJobRow, same_status}
use league_of_legnds_ai_coac.Database.{Db, state_conflict, add_job}
use league_of_legnds_ai_coac.Repo.Replays.{
  create, transition, moved, assign_all, assign, queue_process_job, process_job, as_conflict,
  set_updated_at,
}
use league_of_legnds_ai_coac.Repo.Jobs.{is_active_for, first_job, claimed, claim_next}
use league_of_legnds_ai_coac.Repo.Recovery.{Recovery, is_stale, recover_stale}
use league_of_legnds_ai_coac.Repo.Retention.{enqueue_due_retention, Sweep}
use league_of_legnds_ai_coac.Repo.Steps.{Step, Reach, IsMove}
use league_of_legnds_ai_coac.Repo.Sound.{IsSound}
use league_of_legnds_ai_coac.Repo.Sound.Swept.{IsSwept, enqueue_due_retention_lem}
use league_of_legnds_ai_coac.Repo.Sound.Stale.{recover_stale_complete}
use league_of_legnds_ai_coac.Repo.Reach.{Reach-IsSound}
use league_of_legnds_ai_coac.Repo.Buried.{IsBuried, Reach-IsBuried}
use league_of_legnds_ai_coac.Repo.Transition.{IsMoved, transition-transition}
use league_of_legnds_ai_coac.Repo.Queueing.{queue_process_job_lem}
use league_of_legnds_ai_coac.Repo.Claims.{claim_next-claim_next}
use league_of_legnds_ai_coac.Tests.{
  upload_row, job_row, running_row, empty_db, db_with, empty-IsSound, one-IsSound, pair-IsSound,
  pending-IsJobOk, running-IsJobOk,
}

abbrev fresh_row : ReplayUploadRow
fresh_row = upload_row 1 created 1

abbrev drawn_one : ℕ → Bool
drawn_one k = k == 1

-- A replay is created, uploaded, and a worker then finds no job.
abbrev uploaded_row : ReplayUploadRow
uploaded_row = record (upload_row 1 uploaded 2) { updated_at = 7 }

created_and_uploaded : Reach drawn_one empty_db (db_with (uploaded_row ∷ []) [])
unfolding create transition moved assign_all assign
created_and_uploaded =
    Reach.next {db' = db_with (fresh_row ∷ []) []}
      (Reach.next {db' = empty_db} Reach.here (Step.created fresh_row {r = fresh_row} refl refl))
      (Step.moved_to 1 (same_status created) 1 uploaded (set_updated_at 7 ∷ []) 6 {r = uploaded_row}
        (IsMove.alive (λ s gone. ground arith)) refl)

Reach-IsSound_example : IsSound (db_with (uploaded_row ∷ []) [])
Reach-IsSound_example =
    Reach-IsSound drawn_one {db = empty_db} {db' = db_with (uploaded_row ∷ []) []} empty-IsSound
      created_and_uploaded

-- A replay that is being deleted gets its job, and a worker claims it.
abbrev doomed_row : ReplayUploadRow
doomed_row = upload_row 4 deleting 3

abbrev doomed_job : ReplayJobRow
doomed_job = job_row 9 4 delete_all

claimed_doomed :
    Reach drawn_one
      (db_with (doomed_row ∷ []) (doomed_job ∷ []))
      (db_with (doomed_row ∷ []) (claimed "w" 8 doomed_job ∷ []))
unfolding claim_next first_job claimed
claimed_doomed =
    Reach.next {db' = db_with (doomed_row ∷ []) (doomed_job ∷ [])} Reach.here
      (Step.claimed_one "w" 8)

Reach-IsBuried_example : IsBuried 4 (db_with (doomed_row ∷ []) (claimed "w" 8 doomed_job ∷ []))
Reach-IsBuried_example =
    Reach-IsBuried drawn_one 4 {db = db_with (doomed_row ∷ []) (doomed_job ∷ [])}
      {db' = db_with (doomed_row ∷ []) (claimed "w" 8 doomed_job ∷ [])} refl
      (pair-IsSound doomed_row doomed_job (pending-IsJobOk 9 4 delete_all) refl) ((λ _. refl), tt)
      claimed_doomed

-- The sweep finds an upload that has expired.
abbrev from_ten : ℕ → ℕ
from_ten i = 10 + i

enqueue_due_retention_lem_example :
    (t : Sweep) × (enqueue_due_retention from_ten 2000 (db_with (fresh_row ∷ []) []) ≡ ok t)
    × IsSwept 2000 (db_with (fresh_row ∷ []) []) t
enqueue_due_retention_lem_example =
    enqueue_due_retention_lem from_ten 2000 (db_with (fresh_row ∷ []) []) (one-IsSound fresh_row)
      (λ i k e. omega arith) (λ i. refl)

abbrev stale_row : ReplayJobRow
stale_row = running_row 9 1 process

abbrev recovery : Recovery
recovery = record { heartbeat_before = 20; available_at = 40; now = 30; source_delete_after = none }

abbrev stale_db : Db
stale_db = db_with (upload_row 1 probing 4 ∷ []) (stale_row ∷ [])

stale_db-IsSound : IsSound stale_db
stale_db-IsSound =
    pair-IsSound (upload_row 1 probing 4) stale_row (running-IsJobOk 9 1 process) refl

recover_stale_complete_example :
    IsSound (recover_stale recovery stale_db).1
    × (count (is_stale recovery) (recover_stale recovery stale_db).1.jobs ≡ 0)
    × ((recover_stale recovery stale_db).0 ≡ count (is_stale recovery) stale_db.jobs)
recover_stale_complete_example = recover_stale_complete recovery stale_db stale_db-IsSound

-- Two jobs of two replays.
abbrev two_jobs : Db
two_jobs =
    db_with (upload_row 1 queued 3 ∷ upload_row 2 queued 3 ∷ [])
      (job_row 8 1 process ∷ job_row 9 2 process ∷ [])

two_jobs-IsSound : IsSound two_jobs
two_jobs-IsSound = record {
  upload_keys = λ k. ground arith;
  job_keys = λ k. ground arith;
  one_active = λ replay_id kind. ground arith;
  jobs_ok = (pending-IsJobOk 8 1 process, (pending-IsJobOk 9 2 process, tt));
  owned = (refl, (refl, tt));
}

claim_next-claim_next_example :
    ((claimed "w" 6 (job_row 8 1 process)).id == (claimed "v" 7 (job_row 9 2 process)).id) ≡ false
unfolding claim_next first_job claimed
claim_next-claim_next_example =
    claim_next-claim_next "w" "v" 6 7 two_jobs (claimed "w" 6 (job_row 8 1 process))
      (claimed "v" 7 (job_row 9 2 process)) two_jobs-IsSound refl refl

-- Two writers that read version 1.
abbrev fresh_db : Db
fresh_db = db_with (fresh_row ∷ []) []

transition-transition_example :
    transition 1 (same_status uploaded) 1 deleting [] 8 (db_with (uploaded_row ∷ []) [])
    ≡ raise state_conflict
unfolding transition moved assign_all assign
transition-transition_example =
    transition-transition 1 1 (same_status created) (same_status uploaded) uploaded deleting
      (set_updated_at 7 ∷ []) [] 6 8 fresh_db {r = uploaded_row}
      {db' = db_with (uploaded_row ∷ []) []} (one-IsSound fresh_row) refl

abbrev queued_row : ReplayUploadRow
queued_row = record (upload_row 1 queued 2) { updated_at = 6 }

abbrev waiting_db : Db
waiting_db = db_with (upload_row 1 uploaded 1 ∷ []) []

abbrev queued_db : Db
queued_db = db_with (queued_row ∷ []) (process_job 5 1 3 7 6 ∷ [])

queue_process_job_lem_example :
    IsMoved 1 (same_status uploaded) 1 queued waiting_db queued_row queued_db
    × (any (is_active_for 1 process) waiting_db.jobs ≡ false)
    × (queued_db.jobs ≡ waiting_db.jobs ++ process_job 5 1 3 7 6 ∷ [])
    × IsSound queued_db
unfolding queue_process_job moved assign_all as_conflict add_job
queue_process_job_lem_example =
    queue_process_job_lem 1 (same_status uploaded) 1 queued [] 7 3 5 6 waiting_db {r = queued_row}
      {db' = queued_db} (one-IsSound (upload_row 1 uploaded 1)) refl
