-- ===== src/Repo/Sound/Stale.antt =====
-- The recovery of stale jobs keeps the tables sound and leaves no stale job behind.
use mathlib.Core.Path.{ap}
use league_of_legnds_ai_coac.Prelude.{
  ℕ, ◌+◌, ◌≤◌, ◌≡◌, refl, true, false, Option, none, some, List, [], ◌∷◌, ◌==◌, find, filter,
  length, All, arith, Bool-cases, inl, inr, ◌∙◌, ltb, ◌⊎◌,
}
use league_of_legnds_ai_coac.Prelude.Tables.{
  count, All-find, find-written, count-written, written, In-filter, find_of_In, All-of_In, All-In,
  count_none, count-filter-le, length-filter,
}
use league_of_legnds_ai_coac.Rows.{ReplayUploadRow, ReplayJobRow, is_running}
use league_of_legnds_ai_coac.Database.{Db, find_upload, find_job, write_upload, write_job}
use league_of_legnds_ai_coac.Repo.Recovery.{
  Recovery, is_stale, is_gone, is_process, synced, recovered_cancelled, recovered_settled,
  recover_one, recover_all, recover_stale,
}
use league_of_legnds_ai_coac.Repo.Sound.{IsJobOk, IsSound}
use league_of_legnds_ai_coac.Repo.Sound.Writes.{write_job-IsSound, write_upload-IsSound}

-- A row that the loop writes for a job: the same job, no longer running.
record IsRecovered (job row : ReplayJobRow) : Type 0 where
  same_id : row.id ≡ job.id
  same_replay : row.replay_id ≡ job.replay_id
  same_kind_of : row.kind ≡ job.kind
  stopped : is_running row.status ≡ false
  fine : IsJobOk row

module _ (r : Recovery) (job : ReplayJobRow) (ok_before : IsJobOk job) where
  settled-IsRecovered : IsRecovered job (recovered_settled r job)
  settled-IsRecovered = record {
    same_id = ground arith;
    same_replay = ground arith;
    same_kind_of = ground arith;
    stopped = ground arith;
    fine = ground arith;
  }

  cancelled-IsRecovered : IsRecovered job (recovered_cancelled r job)
  cancelled-IsRecovered = record {
    same_id = refl;
    same_replay = refl;
    same_kind_of = refl;
    stopped = refl;
    fine = ground arith;
  }

-- One round writes such a row, and at most a replay row beside it.
recover_one_inv :
    (r : Recovery) (job : ReplayJobRow) (replay : Option ReplayUploadRow) (db : Db)
    → IsJobOk job
    → (row : ReplayJobRow) × IsRecovered job row
      × ((recover_one r job replay db ≡ write_job row db)
          ⊎ ((u : ReplayUploadRow) × (recover_one r job replay db
                ≡ write_job row (write_upload u db))))
unfolding recover_one
recover_one_inv r job none db fine =
    (recovered_settled r job, settled-IsRecovered r job fine, inl refl)
recover_one_inv r job (some u) db fine = elim (Bool-cases (is_process job.kind)) [
  | inl p ↦ elim (Bool-cases (is_gone u.status)) [
    | inl gone ↦
        (recovered_cancelled r job, cancelled-IsRecovered r job fine, inl (rw (p, gone) refl))
    | inr there ↦ (
      recovered_settled r job,
      settled-IsRecovered r job fine,
      inr (synced r (ltb job.attempt_count job.max_attempts) u, rw (p, there) refl),
    )
  ]
  | inr other ↦ (recovered_settled r job, settled-IsRecovered r job fine, inl (rw other refl))
]

-- A stale job that is found under its key.
record IsPresent (r : Recovery) (db : Db) (job : ReplayJobRow) : Type 0 where
  present : find_job job.id db ≡ some job
  stale : is_stale r job ≡ true

-- One round: the jobs afterwards, and that the tables stay sound.
module _ (r : Recovery) (job : ReplayJobRow) (replay : Option ReplayUploadRow) (db : Db)
    (sound : IsSound db) (here : IsPresent r db job) where
  job_fine : IsJobOk job
  job_fine = All-find IsJobOk (λ k. k.id == job.id) db.jobs {x = job} here.present sound.jobs_ok

  written-IsSound :
      (row : ReplayJobRow) (db' : Db)
      → IsRecovered job row
      → IsSound db'
      → db'.jobs ≡ db.jobs
      → IsSound (write_job row db')
  written-IsSound row db' done sound' same_jobs =
      write_job-IsSound db' row job sound' (rw (done.same_id, same_jobs) here.present) done.fine
        done.same_replay
        (λ replay_id kind e. ground (arith, here.stale, done.same_replay, done.same_kind_of))

  recover_one_jobs :
      (row : ReplayJobRow) × IsRecovered job row
      × ((recover_one r job replay db).jobs ≡ written (λ j. j.id) row db.jobs)
      × IsSound (recover_one r job replay db)
  recover_one_jobs =
      let (row, done, tables) = recover_one_inv r job replay db job_fine in
      elim tables [
        | inl e ↦ (row, done, rw e refl, rw e (written-IsSound row db done sound refl))
        | inr (u, e) ↦ (
          row,
          done,
          rw e refl,
          rw e
              (written-IsSound row (write_upload u db) done (write_upload-IsSound db u sound) refl),
        )
      ]

  -- Every other stale job is still there.
  others_present :
      (row other : ReplayJobRow)
      → IsRecovered job row
      → (job.id == other.id) ≡ false
      → IsPresent r db other
      → find (λ j. j.id == other.id) (written (λ j. j.id) row db.jobs) ≡ some other
  others_present row other done differ there =
      find-written (λ j. j.id) row other.id db.jobs ∙ rw (done.same_id, differ) there.present

  -- The round takes one job from the stale ones.
  one_less :
      (row : ReplayJobRow)
      → IsRecovered job row
      → count (is_stale r) (written (λ j. j.id) row db.jobs) + 1 ≡ count (is_stale r) db.jobs
  one_less row done = ground (
    arith,
    here.stale,
    done.stopped,
    count-written (λ j. j.id) (is_stale r) row job db.jobs (sound.job_keys row.id)
        (rw done.same_id here.present),
  )

-- The loop over stale jobs with distinct keys.
recover_all_lem :
    (r : Recovery) (jobs : List ReplayJobRow) (db : Db)
    → IsSound db
    → All (IsPresent r db) jobs
    → ((k : ℕ) → count (λ j. j.id == k) jobs ≤ 1)
    → IsSound (recover_all r jobs db)
      × (count (is_stale r) (recover_all r jobs db).jobs + length jobs ≡ count (is_stale r) db.jobs)
unfolding recover_all
recover_all_lem r [] db sound here distinct = (sound, omega arith)
recover_all_lem r (job ∷ jobs) db sound here distinct =
    let replay = find_upload job.replay_id db in
    let next : Db = recover_one r job replay db in
    let (row, done, same_jobs, sound') = recover_one_jobs r job replay db sound here.0 in
    let differ : All (λ j. (j.id == job.id) ≡ false) jobs =
      count_none (λ j. j.id == job.id) jobs (ground (arith, distinct job.id)) in
    let still : All (IsPresent r next) jobs = All-of_In (IsPresent r next) jobs (λ other i.
      let there = All-In (IsPresent r db) jobs here.1 i in
      record {
        present =
            ap (find (λ j. j.id == other.id)) same_jobs
            ∙ others_present r job replay db sound here.0 row other done
                (ground (arith, All-In (λ j. (j.id == job.id) ≡ false) jobs differ i)) there;
        stale = there.stale;
      }) in
    let (sound'', counts) =
      recover_all_lem r jobs next sound' still (λ k. omega (arith, distinct k)) in
    let less = ap (count (is_stale r)) same_jobs in
    (sound'', omega (arith, counts, less, one_less r job replay db sound here.0 row done))

stale-IsPresent :
    (r : Recovery) (db : Db) → IsSound db → All (IsPresent r db) (filter (is_stale r) db.jobs)
stale-IsPresent r db sound = All-of_In (IsPresent r db) (filter (is_stale r) db.jobs) (λ job i.
    let (j, stale) = In-filter (is_stale r) {x = job} db.jobs i in
    record {
      present = find_of_In (λ k. k.id) {x = job} db.jobs j (sound.job_keys job.id);
      stale = stale;
    })

-- On sound tables, `recover_stale` leaves sound tables in which no job is stale, and the number it
-- returns is the number of jobs that were stale.
pub recover_stale_complete :
    (r : Recovery) (db : Db)
    → IsSound db
    → IsSound (recover_stale r db).1
      × (count (is_stale r) (recover_stale r db).1.jobs ≡ 0)
      × ((recover_stale r db).0 ≡ count (is_stale r) db.jobs)
unfolding recover_stale
recover_stale_complete r db sound =
    let stale = filter (is_stale r) db.jobs in
    let (sound', counts) = recover_all_lem r stale db sound (stale-IsPresent r db sound) (λ k.
      omega (arith, sound.job_keys k, count-filter-le (λ j. j.id == k) (is_stale r) db.jobs)) in
    (
      sound',
      omega (arith, counts, length-filter (is_stale r) db.jobs),
      length-filter (is_stale r) db.jobs,
    )
