-- ===== src/Service/Enqueued.antt =====
-- What `enqueue_idempotent` ends in.
use league_of_legnds_ai_coac.Prelude.{
  ℕ, ◌+◌, Bool, ◌≡◌, refl, true, none, some, List, [], ◌∷◌, ◌++◌, In, find_sound, find-In, arith,
  Outcome, ok, raise, Option, Option-cases, Outcome-cases, inl, inr, ◌⊎◌,
}
use league_of_legnds_ai_coac.Domain.{ReplayJobKind}
use league_of_legnds_ai_coac.Rows.{ReplayJobRow}
use league_of_legnds_ai_coac.Database.{
  Db, DbError, state_conflict, active_job_conflict, artifact_conflict, active_job_integrity,
  other_integrity, no_result, Tx, add_job,
}
use league_of_legnds_ai_coac.Repo.Jobs.{pending_job, enqueue, is_active_for, get_active_job}
use league_of_legnds_ai_coac.Repo.Steps.{Step, Reach}
use league_of_legnds_ai_coac.Service.Calls.{ServiceError, World, pure, fails, ◌>>=◌, attempt, read}
use league_of_legnds_ai_coac.Service.Enqueue.{or_raise, recover_integrity, enqueue_idempotent}
use league_of_legnds_ai_coac.Service.Runs.{
  Runs, pure-Runs, fails-Runs, bind-Runs, attempt-Runs, transact-Runs,
}

-- The job is in the tables and active for the replay and the kind.
pub record IsActiveIn (replay_id : ℕ) (kind : ReplayJobKind) (job : ReplayJobRow) (db : Db)
    : Type 0 where
  pub there : In job db.jobs
  pub active : is_active_for replay_id kind job ≡ true

module _ (O : Type 0) (drawn : ℕ → Bool) (others : ℕ → Db → Db)
    (outside : (n : ℕ) (db : Db) → Reach drawn db (others n db)) where
  looks :
      (replay_id : ℕ) (kind : ReplayJobKind) (e : DbError)
      → Runs O drawn (read others (get_active_job replay_id kind) >>= or_raise others e)
  looks replay_id kind e =
      bind-Runs O drawn _ _
        (transact-Runs O drawn others outside (λ db. ok (get_active_job replay_id kind db, db))
          (λ db r db' h. let same : db ≡ db' = ground arith in rw (← same) Reach.here))
        (λ found. or_raise-Runs found)
    where
      or_raise-Runs : (found : Option ReplayJobRow) → Runs O drawn (or_raise others e found)
      or_raise-Runs none = fails-Runs O drawn _ _
      or_raise-Runs (some j) = pure-Runs O drawn j

  recover_integrity-Runs :
      (replay_id : ℕ) (kind : ReplayJobKind) (r : Outcome DbError ReplayJobRow)
      → Runs O drawn (recover_integrity others replay_id kind r)
  recover_integrity-Runs replay_id kind (ok job) = pure-Runs O drawn job
  recover_integrity-Runs replay_id kind (raise active_job_integrity) = looks replay_id kind _
  recover_integrity-Runs replay_id kind (raise other_integrity) = looks replay_id kind _
  recover_integrity-Runs replay_id kind (raise state_conflict) = fails-Runs O drawn _ _
  recover_integrity-Runs replay_id kind (raise active_job_conflict) = fails-Runs O drawn _ _
  recover_integrity-Runs replay_id kind (raise artifact_conflict) = fails-Runs O drawn _ _
  recover_integrity-Runs replay_id kind (raise no_result) = fails-Runs O drawn _ _

  pub enqueue_idempotent-Runs :
      (replay_id : ℕ) (kind : ReplayJobKind) (available_at max_attempts job_id now : ℕ)
      → Runs O drawn (enqueue_idempotent others replay_id kind available_at max_attempts job_id now)
  unfolding enqueue_idempotent
  enqueue_idempotent-Runs replay_id kind available_at max_attempts job_id now =
      bind-Runs O drawn _ _
        (attempt-Runs O drawn others outside
          (enqueue replay_id kind available_at max_attempts job_id now)
          (λ db r db' e.
            Reach.next {db' = db} Reach.here
              (Step.enqueued replay_id kind available_at max_attempts job_id now {r = r} e)))
        (recover_integrity-Runs replay_id kind)

In-last : (js : List ReplayJobRow) (j : ReplayJobRow) → In j (js ++ j ∷ [])
In-last [] j = In.here refl
In-last (k ∷ js) j = In.there (In-last js j)

-- What a result or an exception says of the tables.
abbrev Says :
    {O : Type 0} → ℕ → ReplayJobKind → Outcome ServiceError ReplayJobRow × World O → Type 0
Says replay_id kind (ok job, w) = IsActiveIn replay_id kind job w.db
Says replay_id kind (raise e, w) = get_active_job replay_id kind w.db ≡ none

enqueue_inv :
    (replay_id : ℕ) (kind : ReplayJobKind) (available_at max_attempts job_id now : ℕ) (db : Db)
    → ((r : ReplayJobRow) × (db' : Db) × (enqueue replay_id kind available_at max_attempts job_id
            now db
          ≡ ok (r, db'))
        × IsActiveIn replay_id kind r db')
      ⊎ ((enqueue replay_id kind available_at max_attempts job_id now db
            ≡ raise active_job_integrity)
          ⊎ (enqueue replay_id kind available_at max_attempts job_id now db
              ≡ raise other_integrity))
unfolding enqueue add_job
enqueue_inv replay_id kind available_at max_attempts job_id now db =
    let new = pending_job job_id replay_id kind available_at max_attempts now in
    elim (Outcome-cases (add_job new db)) [
      | inl ((r, db'), e) ↦
          let made : db' ≡ record db { jobs = db.jobs ++ new ∷ [] } = ground arith in
          let same : r ≡ new = ground arith in
          inl (
            r,
            db',
            e,
            record {
              there = rw (made, same) (In-last db.jobs new);
              active = rw same (ground arith);
            },
          )
      | inr (x, e) ↦ inr (ground arith)
    ]

module _ {O : Type 0} (others : ℕ → Db → Db) where
  looks-Says :
      (replay_id : ℕ) (kind : ReplayJobKind) (e : DbError) (w : World O)
      → Says replay_id kind ((read others (get_active_job replay_id kind) >>= or_raise others e) w)
  unfolding get_active_job attempt ◌>>=◌ pure fails
  looks-Says replay_id kind e w =
      let db = others w.turn w.db in
      elim (Option-cases (get_active_job replay_id kind db)) [
        | inl n ↦ rw n n
        | inr (j, f) ↦ rw f (record {
          there = find-In (is_active_for replay_id kind) db.jobs f;
          active = find_sound (is_active_for replay_id kind) db.jobs {a = j} f;
        })
      ]

  attempt_ok :
      {A : Type 0} (tx : Tx A) (w : World O) {a : A} {db' : Db}
      → tx (others w.turn w.db) ≡ ok (a, db')
      → attempt others tx w ≡ (ok (ok a), record w { db = db'; turn = w.turn + 1 })
  unfolding attempt
  attempt_ok tx w e = rw (attempt, e) refl

  attempt_raise :
      {A : Type 0} (tx : Tx A) (w : World O) {x : DbError}
      → tx (others w.turn w.db) ≡ raise x
      → attempt others tx w
        ≡ (ok (raise x), record w { db = others w.turn w.db; turn = w.turn + 1 })
  unfolding attempt
  attempt_raise tx w e = rw (attempt, e) refl

  idempotent-Says :
      (replay_id : ℕ) (kind : ReplayJobKind) (available_at max_attempts job_id now : ℕ)
      (w : World O)
      → Says replay_id kind
          (enqueue_idempotent others replay_id kind available_at max_attempts job_id now w)
  unfolding enqueue_idempotent ◌>>=◌ pure
  idempotent-Says replay_id kind available_at max_attempts job_id now w =
      let tx : Tx ReplayJobRow = enqueue replay_id kind available_at max_attempts job_id now in
      elim (enqueue_inv replay_id kind available_at max_attempts job_id now (others w.turn w.db)) [
        | inl (r, db', e, there) ↦ rw (attempt_ok tx w {a = r} {db' = db'} e) there
        | inr (inl e) ↦ rw (attempt_raise tx w e) (looks-Says replay_id kind active_job_integrity _)
        | inr (inr e) ↦ rw (attempt_raise tx w e) (looks-Says replay_id kind other_integrity _)
      ]

-- Whatever other sessions do before the insertion and before the look after it: what
-- `enqueue_idempotent` returns is in the tables, as an active job of the replay and the kind; where
-- it raises, no such job was there at the last look.
pub enqueue_idempotent_lem :
    {O : Type 0} (others : ℕ → Db → Db) (replay_id : ℕ) (kind : ReplayJobKind)
    (available_at max_attempts job_id now : ℕ) (w : World O)
    → let done = enqueue_idempotent others replay_id kind available_at max_attempts job_id now w in
      ((job : ReplayJobRow) → done.0 ≡ ok job → IsActiveIn replay_id kind job done.1.db)
      × ((e : ServiceError) → done.0 ≡ raise e → get_active_job replay_id kind done.1.db ≡ none)
enqueue_idempotent_lem others replay_id kind available_at max_attempts job_id now w =
    let said = idempotent-Says others replay_id kind available_at max_attempts job_id now w in
    let done = enqueue_idempotent others replay_id kind available_at max_attempts job_id now w in
    (λ job e. says_ok replay_id kind done said job e, λ x e. says_none replay_id kind done said x e)
  where
    says_ok :
        {O : Type 0} (k : ℕ) (kind : ReplayJobKind)
        (r : Outcome ServiceError ReplayJobRow × World O)
        → Says k kind r
        → (job : ReplayJobRow) → r.0 ≡ ok job
        → IsActiveIn k kind job r.1.db
    says_ok k kind (ok j, w) h job e = let same : j ≡ job = cc in rw (← same) h
    says_ok k kind (raise x, w) h job e = cc

    says_none :
        {O : Type 0} (k : ℕ) (kind : ReplayJobKind)
        (r : Outcome ServiceError ReplayJobRow × World O)
        → Says k kind r
        → (x : ServiceError) → r.0 ≡ raise x
        → get_active_job k kind r.1.db ≡ none
    says_none k kind (ok j, w) h x e = cc
    says_none k kind (raise y, w) h x e = h
