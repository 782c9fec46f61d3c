-- ===== src/Repo/Sound/Queue.antt =====
-- Each operation on the job queue keeps the tables sound.
use league_of_legnds_ai_coac.Prelude.{
  ℕ, ◌≡◌, refl, String, true, none, some, List, [], ◌∷◌, ◌==◌, filter, arith, Bool-cases,
  Option-cases, inl, inr, ok, In,
}
use league_of_legnds_ai_coac.Prelude.Tables.{All-find, In-filter, find_of_In}
use league_of_legnds_ai_coac.Domain.{ReplayJobKind}
use league_of_legnds_ai_coac.Rows.{ReplayJobRow}
use league_of_legnds_ai_coac.Database.{Db, find_job, write_job}
use league_of_legnds_ai_coac.Repo.Jobs.{
  pending_job, enqueue, first_job, comes_before, is_due, claimed, claim_next,
}
use league_of_legnds_ai_coac.Repo.Sound.{IsJobOk, IsSound}
use league_of_legnds_ai_coac.Repo.Sound.Writes.{write_job-IsSound, add_job-IsSound, add_job_inv}

pub enqueue-IsSound :
    (replay_id : ℕ) (kind : ReplayJobKind) (available_at max_attempts job_id now : ℕ) (db : Db)
    {r : ReplayJobRow} {db' : Db}
    → IsSound db
    → enqueue replay_id kind available_at max_attempts job_id now db ≡ ok (r, db')
    → IsSound db'
unfolding enqueue
enqueue-IsSound replay_id kind available_at max_attempts job_id now db {r} {db'} sound h =
    let job = pending_job job_id replay_id kind available_at max_attempts now in
    let (_, _, _, _, _, positive) = add_job_inv job db {r = r} {db' = db'} h in
    add_job-IsSound job db {r = r} {db' = db'} sound (ground arith) h

first_job-In : (jobs : List ReplayJobRow) {j : ReplayJobRow} → first_job jobs ≡ some j → In j jobs
unfolding first_job
first_job-In [] h = cc
first_job-In (k ∷ jobs) {j} h = elim (Option-cases (first_job jobs)) [
  | inl e ↦ In.here (ground arith)
  | inr (b, e) ↦ elim (Bool-cases (comes_before k b)) [
    | inl first ↦ In.here (ground arith)
    | inr second ↦ In.there (first_job-In jobs {j = j} (ground arith))
  ]
]

-- The job that is claimed was due, and is found under its key.
pub claim_next_inv :
    (worker_id : String) (now : ℕ) (db : Db) {r : ReplayJobRow}
    → IsSound db
    → (claim_next worker_id now db).0 ≡ some r
    → (j : ReplayJobRow) × (first_job (filter (is_due now) db.jobs) ≡ some j)
      × (find_job j.id db ≡ some j)
      × (is_due now j ≡ true)
      × (r ≡ claimed worker_id now j)
      × ((claim_next worker_id now db).1 ≡ write_job r db)
unfolding claim_next
claim_next_inv worker_id now db {r} sound h =
    elim (Option-cases (first_job (filter (is_due now) db.jobs))) [
      | inl e ↦ absurd (ground arith)
      | inr (j, e) ↦
          let (i, due) =
            In-filter (is_due now) {x = j} db.jobs
              (first_job-In (filter (is_due now) db.jobs) {j = j} e) in
          (
            j,
            e,
            find_of_In (λ k. k.id) {x = j} db.jobs i (sound.job_keys j.id),
            due,
            ground arith,
            ground arith,
          )
    ]

pub claim_next-none :
    (worker_id : String) (now : ℕ) (db : Db)
    → (claim_next worker_id now db).0 ≡ none
    → (first_job (filter (is_due now) db.jobs) ≡ none) × ((claim_next worker_id now db).1 ≡ db)
unfolding claim_next
claim_next-none worker_id now db h = elim (Option-cases (first_job (filter (is_due now) db.jobs))) [
  | inl e ↦ (e, ground arith)
  | inr (j, e) ↦ absurd (ground arith)
]

claimed-IsSound :
    (worker_id : String) (now : ℕ) (db : Db) (j : ReplayJobRow)
    → IsSound db
    → find_job j.id db ≡ some j
    → is_due now j ≡ true
    → IsSound (write_job (claimed worker_id now j) db)
unfolding claimed
claimed-IsSound worker_id now db j sound found due =
    let fine : IsJobOk j =
      All-find IsJobOk (λ k. k.id == j.id) db.jobs {x = j} found sound.jobs_ok in
    write_job-IsSound db (claimed worker_id now j) j sound found (ground arith) refl
      (λ replay_id kind e. ground arith)

pub claim_next-IsSound :
    (worker_id : String) (now : ℕ) (db : Db) → IsSound db → IsSound (claim_next worker_id now db).1
claim_next-IsSound worker_id now db sound = elim (Option-cases (claim_next worker_id now db).0) [
  | inl e ↦ rw (claim_next-none worker_id now db e).1 sound
  | inr (r, e) ↦
      let (j, _, found, due, same, tables) = claim_next_inv worker_id now db {r = r} sound e in
      rw (tables, same) (claimed-IsSound worker_id now db j sound found due)
]
