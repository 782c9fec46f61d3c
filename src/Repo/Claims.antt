-- ===== src/Repo/Claims.antt =====
-- Which job a worker gets, and that no other gets it too: `claim_next`.
use mathlib.Core.Path.{subst}
use league_of_legnds_ai_coac.Prelude.{
  ℕ, ◌≡◌, refl, sym, ◌∙◌, String, true, false, none, some, List, [], ◌∷◌, ◌==◌, filter, All, arith,
  Bool-cases, Option-cases, inl, inr,
}
use league_of_legnds_ai_coac.Prelude.Tables.{All-map, find-written}
use league_of_legnds_ai_coac.Domain.{ReplayJobStatus}
use league_of_legnds_ai_coac.Rows.{ReplayJobRow}
use league_of_legnds_ai_coac.Database.{Db, find_job, write_job}
use league_of_legnds_ai_coac.Repo.Jobs.{first_job, comes_before, is_due, claimed, claim_next}
use league_of_legnds_ai_coac.Repo.Sound.{IsSound}
use league_of_legnds_ai_coac.Repo.Sound.Queue.{claim_next_inv, claim_next-none, claim_next-IsSound}

comes_before_trans :
    (a b c : ReplayJobRow)
    → comes_before a b ≡ true
    → comes_before b c ≡ true
    → comes_before a c ≡ true
comes_before_trans a b c h k = ground arith

comes_before_total : (a b : ReplayJobRow) → comes_before a b ≡ false → comes_before b a ≡ true
comes_before_total a b h = ground arith

first_job-none : (jobs : List ReplayJobRow) → first_job jobs ≡ none → jobs ≡ []
unfolding first_job
first_job-none [] h = refl
first_job-none (j ∷ jobs) h = cc

first_job_least :
    (jobs : List ReplayJobRow) {j : ReplayJobRow}
    → first_job jobs ≡ some j
    → All (λ k. comes_before j k ≡ true) jobs
unfolding first_job
first_job_least [] h = tt
first_job_least (k ∷ jobs) {j} h = elim (Option-cases (first_job jobs)) [
  | inl e ↦
      let same : j ≡ k = ground arith in
      (
        rw same (ground arith),
        subst (λ ms. All (λ m. comes_before j m ≡ true) ms) (sym (first_job-none jobs e)) tt,
      )
  | inr (b, e) ↦ elim (Bool-cases (comes_before k b)) [
    | inl first ↦
        let same : j ≡ k = ground arith in
        (
          rw same (ground arith),
          All-map (λ m. comes_before b m ≡ true) (λ m. comes_before j m ≡ true) jobs
              (λ m h'. rw same (comes_before_trans k b m first h'))
              (first_job_least jobs {j = b} e),
        )
    | inr second ↦
        let same : j ≡ b = ground arith in
        (
          rw same (comes_before_total k b second),
          subst (λ i. All (λ m. comes_before i m ≡ true) jobs) (sym same)
              (first_job_least jobs {j = b} e),
        )
  ]
]

numbers : (m n : ℕ) → (m == n) ≡ true → m ≡ n
numbers m n h = ground arith

find-claimed :
    (worker_id : String) (now : ℕ) (j : ReplayJobRow) (db : Db)
    → find_job j.id db ≡ some j
    → find_job j.id (write_job (claimed worker_id now j) db) ≡ some (claimed worker_id now j)
unfolding claimed
find-claimed worker_id now j db found =
    ground (arith, find-written (λ k. k.id) (claimed worker_id now j) j.id db.jobs)

pub claim_next_lem :
    (worker_id : String) (now : ℕ) (db : Db)
    → IsSound db
    → ((claim_next worker_id now db).0 ≡ none
        → (filter (is_due now) db.jobs ≡ []) × ((claim_next worker_id now db).1 ≡ db))
      × ((r : ReplayJobRow)
          → (claim_next worker_id now db).0 ≡ some r
          → (j : ReplayJobRow) × (find_job j.id db ≡ some j)
            × (is_due now j ≡ true)
            × All (λ k. comes_before j k ≡ true) (filter (is_due now) db.jobs)
            × (r ≡ claimed worker_id now j)
            × (find_job j.id (claim_next worker_id now db).1 ≡ some r))
claim_next_lem worker_id now db sound = (
  λ h.
      let (nothing, same) = claim_next-none worker_id now db h in
      (first_job-none (filter (is_due now) db.jobs) nothing, same),
  λ r h.
      let (j, first, found, due, same, tables) = claim_next_inv worker_id now db {r = r} sound h in
      (
        j,
        found,
        due,
        first_job_least (filter (is_due now) db.jobs) {j = j} first,
        same,
        rw (tables, same) (find-claimed worker_id now j db found),
      ),
)

claimed_status :
    (worker_id : String) (now : ℕ) (j : ReplayJobRow)
    → (claimed worker_id now j).status ≡ ReplayJobStatus.running
unfolding claimed
claimed_status worker_id now j = refl

claimed_id : (worker_id : String) (now : ℕ) (j : ReplayJobRow) → (claimed worker_id now j).id ≡ j.id
unfolding claimed
claimed_id worker_id now j = refl

-- On sound tables, two claims one after the other give two different jobs, whatever the workers and
-- the instants.
pub claim_next-claim_next :
    (worker_id worker_id' : String) (now now' : ℕ) (db : Db) (r r' : ReplayJobRow)
    → IsSound db
    → (claim_next worker_id now db).0 ≡ some r
    → (claim_next worker_id' now' (claim_next worker_id now db).1).0 ≡ some r'
    → (r.id == r'.id) ≡ false
claim_next-claim_next worker_id worker_id' now now' db r r' sound h h' =
    let db' : Db = (claim_next worker_id now db).1 in
    let (_, one) = claim_next_lem worker_id now db sound in
    let (_, two) = claim_next_lem worker_id' now' db' (claim_next-IsSound worker_id now db sound) in
    let (j, _, _, _, same, found) = one r h in
    let (j', found', due', _, same', _) = two r' h' in
    elim (Bool-cases (r.id == r'.id)) [
      | inl e ↦
          let keys : j.id ≡ j'.id =
            rw (same, claimed_id worker_id now j, same', claimed_id worker_id' now' j') at
              (numbers r.id r'.id e) in
          let again : some j' ≡ some r =
            sym found' ∙ subst (λ k. find_job k db' ≡ some r) keys found in
          let row : j' ≡ r = ground arith in
          let running = claimed_status worker_id now j in absurd (ground arith)
      | inr e ↦ e
    ]
