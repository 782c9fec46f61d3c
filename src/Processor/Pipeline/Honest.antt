-- ===== src/Processor/Pipeline/Honest.antt =====
-- Calls of the pipeline: they run transactions of the repositories only, and are cancelled only where
-- a deletion has won.
use league_of_legnds_ai_coac.Prelude.{
  ℕ, ◌≡◌, refl, Bool, true, false, some, Outcome, ok, raise, if◌then◌else◌,
}
use league_of_legnds_ai_coac.Rows.{ReplayUploadRow}
use league_of_legnds_ai_coac.Database.{
  Db, DbError, state_conflict, active_job_conflict, artifact_conflict, active_job_integrity,
  other_integrity, no_result, Tx, find_upload,
}
use league_of_legnds_ai_coac.Repo.Recovery.{is_gone}
use league_of_legnds_ai_coac.Repo.Steps.{Reach}
use league_of_legnds_ai_coac.Service.Calls.{World}
use league_of_legnds_ai_coac.Service.Runs.{Reach-trans}
use league_of_legnds_ai_coac.Processor.{ProcessError, other_error}
use league_of_legnds_ai_coac.Processor.Pipeline.{
  Workshop, Stop, cancelled, conflicted, failed, Work, continue, ◌>>=◌, pure, stop, tried, did,
  or_stop, outside, lifted, lift, attempt, transact, reading,
}

-- The replay is being deleted or is deleted.
pub record IsGoneIn (k : ℕ) (db : Db) : Type 0 where
  pub row : ReplayUploadRow
  pub found : find_upload k db ≡ some row
  pub gone : is_gone row.status ≡ true

-- What a call on the replay `k` may end in.
unfoldable pub Ends : {O A : Type 0} → ℕ → (A → Type 0) → Outcome Stop A × World O → Type 0
Ends k P (ok a, w) = P a
Ends k P (raise cancelled, w) = IsGoneIn k w.db
Ends k P (raise conflicted, w) = Unit
Ends k P (raise (failed e), w) = Unit

pub record IsHonest (O : Type 0) (drawn : ℕ → Bool) (k : ℕ) {A : Type 0} (P : A → Type 0)
    (m : Work O A) : Type 0 where
  pub runs : (w : World O) → Reach drawn w.db (m w).1.db
  pub ends : (w : World O) → Ends k P (m w)

abbrev pub Any : {A : Type 0} → A → Type 0
Any a = Unit

-- The row of the replay.
abbrev pub IsOf : ℕ → ReplayUploadRow → Type 0
IsOf k row = row.id ≡ k

module _ (O : Type 0) (drawn : ℕ → Bool) (k : ℕ) where
  pub pure-IsHonest : {A : Type 0} (P : A → Type 0) (a : A) → P a → IsHonest O drawn k P (pure a)
  unfolding pure Ends
  pure-IsHonest P a h = record { runs = λ w. Reach.here; ends = λ w. h }

  pub failed-IsHonest :
      {A : Type 0} (P : A → Type 0) (e : ProcessError)
      → IsHonest O drawn k P (stop {A = A} (failed e))
  unfolding stop Ends
  failed-IsHonest P e = record { runs = λ w. Reach.here; ends = λ w. tt }

  pub conflicted-IsHonest :
      {A : Type 0} (P : A → Type 0) → IsHonest O drawn k P (stop {A = A} conflicted)
  unfolding stop Ends
  conflicted-IsHonest P = record { runs = λ w. Reach.here; ends = λ w. tt }

  -- A call that leaves the tables alone and is not cancelled.
  pub did-Ends :
      {A : Type 0} (P : A → Type 0) (w : World O) (r : Outcome ProcessError A × O)
      → ((a : A) → P a)
      → Ends k P (did w r) × ((did w r).1.db ≡ w.db)
  unfolding Ends
  did-Ends P w (ok a, o) h = (h a, refl)
  did-Ends P w (raise e, o) h = (tt, refl)

  pub outside-IsHonest :
      {A : Type 0} (f : O → Outcome ProcessError A × O) → IsHonest O drawn k Any (outside f)
  unfolding outside
  outside-IsHonest f = record {
    runs = λ w. rw ((did-Ends Any w (f w.objects) (λ a. tt)).1) Reach.here;
    ends = λ w. (did-Ends Any w (f w.objects) (λ a. tt)).0;
  }

  lifted-Ends :
      {A E : Type 0} (f : E → ProcessError) (o : Outcome E A) (w : World O)
      → Ends k Any (lifted f o, w)
  unfolding Ends
  lifted-Ends f (ok a) w = tt
  lifted-Ends f (raise e) w = tt

  pub lift-IsHonest :
      {A E : Type 0} (f : E → ProcessError) (o : Outcome E A) → IsHonest O drawn k Any (lift f o)
  unfolding lift
  lift-IsHonest f o = record { runs = λ w. Reach.here; ends = λ w. lifted-Ends f o w }

  -- A value that is read off the state.
  pub value-IsHonest : {A : Type 0} (f : World O → A) → IsHonest O drawn k Any (λ w. (ok (f w), w))
  unfolding Ends
  value-IsHonest f = record { runs = λ w. Reach.here; ends = λ w. tt }

  continue-runs :
      {A B : Type 0} (P : A → Type 0) (Q : B → Type 0) (r : Outcome Stop A × World O)
      (f : A → Work O B)
      → ((a : A) → P a → IsHonest O drawn k Q (f a))
      → Ends k P r
      → Reach drawn r.1.db (continue r f).1.db × Ends k Q (continue r f)
  unfolding Ends
  continue-runs P Q (ok a, w) f h e = ((h a e).runs w, (h a e).ends w)
  continue-runs P Q (raise cancelled, w) f h e = (Reach.here, e)
  continue-runs P Q (raise conflicted, w) f h e = (Reach.here, tt)
  continue-runs P Q (raise (failed x), w) f h e = (Reach.here, tt)

  pub bind-IsHonest :
      {A B : Type 0} (P : A → Type 0) (Q : B → Type 0) (m : Work O A) (f : A → Work O B)
      → IsHonest O drawn k P m
      → ((a : A) → P a → IsHonest O drawn k Q (f a))
      → IsHonest O drawn k Q (m >>= f)
  unfolding ◌>>=◌
  bind-IsHonest P Q m f h g = record {
    runs = λ w.
        Reach-trans drawn {a = w.db} {b = (m w).1.db} {c = (continue (m w) f).1.db} (h.runs w)
          (continue-runs P Q (m w) f g (h.ends w)).0;
    ends = λ w. (continue-runs P Q (m w) f g (h.ends w)).1;
  }

  pub if-IsHonest :
      {A : Type 0} (P : A → Type 0) (c : Bool) (m n : Work O A)
      → (c ≡ true → IsHonest O drawn k P m)
      → (c ≡ false → IsHonest O drawn k P n)
      → IsHonest O drawn k P (if c then m else n)
  if-IsHonest P true m n h g = h refl
  if-IsHonest P false m n h g = g refl

  or_stop-IsHonest :
      {A : Type 0} (P : A → Type 0) (o : Outcome DbError A)
      → ((a : A) → o ≡ ok a → P a)
      → IsHonest O drawn k P (or_stop o)
  or_stop-IsHonest P (ok a) h = pure-IsHonest P a (h a refl)
  or_stop-IsHonest P (raise state_conflict) h = conflicted-IsHonest P
  or_stop-IsHonest P (raise active_job_conflict) h = failed-IsHonest P other_error
  or_stop-IsHonest P (raise artifact_conflict) h = failed-IsHonest P other_error
  or_stop-IsHonest P (raise active_job_integrity) h = failed-IsHonest P other_error
  or_stop-IsHonest P (raise other_integrity) h = failed-IsHonest P other_error
  or_stop-IsHonest P (raise no_result) h = failed-IsHonest P other_error

  module _ (workshop : Workshop O) (others : ℕ → Db → Db)
      (theirs : (n : ℕ) (db : Db) → Reach drawn db (others n db)) where
    -- What holds of the results of a transaction.
    abbrev pub IsResult : {A : Type 0} → (A → Type 0) → Outcome DbError A → Type 0
    IsResult P (ok a) = P a
    IsResult P (raise e) = Unit

    tried-Ends :
        {A : Type 0} (P : A → Type 0) (w : World O) (before : Db) (r : Outcome DbError (A × Db))
        → Reach drawn w.db before
        → ((a : A) (db' : Db) → r ≡ ok (a, db') → Reach drawn before db' × P a)
        → Reach drawn w.db (tried w before r).1.db × Ends k (IsResult P) (tried w before r)
    unfolding Ends
    tried-Ends P w before (ok (a, db')) h f =
        (Reach-trans drawn {a = w.db} {b = before} {c = db'} h (f a db' refl).0, (f a db' refl).1)
    tried-Ends P w before (raise e) h f = (h, tt)

    pub attempt-IsHonest :
        {A : Type 0} (P : A → Type 0) (tx : Tx A)
        → ((db : Db) (a : A) (db' : Db) → tx db ≡ ok (a, db') → Reach drawn db db' × P a)
        → IsHonest O drawn k (IsResult P) (attempt workshop others tx)
    unfolding attempt
    attempt-IsHonest P tx f = record {
      runs = λ w.
          (tried-Ends P w (others w.turn w.db) (tx (others w.turn w.db)) (theirs w.turn w.db)
            (λ a db' e. f (others w.turn w.db) a db' e)).0;
      ends = λ w.
          (tried-Ends P w (others w.turn w.db) (tx (others w.turn w.db)) (theirs w.turn w.db)
            (λ a db' e. f (others w.turn w.db) a db' e)).1;
    }

    result_ok :
        {A : Type 0} (P : A → Type 0) (o : Outcome DbError A)
        → IsResult P o
        → (a : A) → o ≡ ok a
        → P a
    result_ok P (ok b) h a e = let same : b ≡ a = cc in rw (← same) h
    result_ok P (raise x) h a e = cc

    pub transact-IsHonest :
        {A : Type 0} (P : A → Type 0) (tx : Tx A)
        → ((db : Db) (a : A) (db' : Db) → tx db ≡ ok (a, db') → Reach drawn db db' × P a)
        → IsHonest O drawn k P (transact workshop others tx)
    transact-IsHonest P tx f =
        bind-IsHonest (IsResult P) P _ _ (attempt-IsHonest P tx f)
          (λ o h. or_stop-IsHonest P o (result_ok P o h))

    pub reading-IsHonest : IsHonest O drawn k Any (reading workshop others)
    unfolding reading
    reading-IsHonest = value-IsHonest (λ w. workshop.clock w.turn)
