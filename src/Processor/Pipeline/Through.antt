-- ===== src/Processor/Pipeline/Through.antt =====
-- What a call of the pipeline that gets through has done.
use mathlib.Core.Path.{subst}
use league_of_legnds_ai_coac.Prelude.{
  ℕ, ◌+◌, ◌≡◌, refl, sym, ◌∙◌, ap, Bool, Bool-cases, Option, none, some, List, Outcome, ok, raise,
  Outcome-cases, inl, inr, arith,
}
use league_of_legnds_ai_coac.Domain.{ReplayStatus}
use league_of_legnds_ai_coac.Rows.{ReplayUploadRow}
use league_of_legnds_ai_coac.Database.{
  Db, DbError, state_conflict, active_job_conflict, artifact_conflict, active_job_integrity,
  other_integrity, no_result, Tx,
}
use league_of_legnds_ai_coac.Repo.Replays.{Assign, transition}
use league_of_legnds_ai_coac.Repo.Recovery.{is_gone}
use league_of_legnds_ai_coac.Service.Calls.{World}
use league_of_legnds_ai_coac.Processor.Pipeline.{
  Workshop, Stop, conflicted, Work, continue, ◌>>=◌, pure, stop, tried, or_stop, attempt, transact,
  reading, or_missing, require_replay, ensure_not_deleting, look_into, move,
}
use league_of_legnds_ai_coac.Processor.Pipeline.Honest.{Ends, IsHonest}

value_of :
    {A : Type 0} {b a : A} {o : Outcome DbError A}
    → ◌≡◌ {A = Outcome Stop (Outcome DbError A)} (ok (ok b)) (ok o)
    → o ≡ ok a
    → b ≡ a
value_of h e = cc

no_value :
    {A : Type 0} {x : DbError} {a : A} {o : Outcome DbError A}
    → ◌≡◌ {A = Outcome Stop (Outcome DbError A)} (ok (raise x)) (ok o)
    → o ≡ ok a
    → ⊥
no_value h e = cc

pub value_read : {n m : ℕ} → ◌≡◌ {A = Outcome Stop ℕ} (ok n) (ok m) → n ≡ m
value_read h = cc

module _ {O : Type 0} where
  continue_inv :
      {A B : Type 0} (r : Outcome Stop A × World O) (f : A → Work O B) {b : B} {w' : World O}
      → continue r f ≡ (ok b, w')
      → (a : A) × (w : World O) × (r ≡ (ok a, w)) × (f a w ≡ (ok b, w'))
  continue_inv (ok a, w) f h = (a, w, refl, h)
  continue_inv (raise e, w) f {b} {w'} h = let first = ap (λ x. x.0) h in cc

  pub bind_inv :
      {A B : Type 0} (m : Work O A) (f : A → Work O B) (v : World O) {b : B} {w' : World O}
      → (m >>= f) v ≡ (ok b, w')
      → (a : A) × (w : World O) × (m v ≡ (ok a, w)) × (f a w ≡ (ok b, w'))
  unfolding ◌>>=◌
  bind_inv m f v {b} {w'} h = continue_inv (m v) f {b = b} {w' = w'} h

  pub honest_result :
      (drawn : ℕ → Bool) (k : ℕ) {A : Type 0} (P : A → Type 0) (m : Work O A) (v : World O) {a : A}
      {w : World O}
      → IsHonest O drawn k P m
      → m v ≡ (ok a, w)
      → P a
  unfolding Ends
  honest_result drawn k P m v {a} {w} h e =
      let ends : Ends k P (ok a, w) = rw e at (h.ends v) in ends

  pub pure_inv :
      {A : Type 0} {b a : A} {v w : World O}
      → ◌≡◌ {A = Outcome Stop A × World O} (ok b, v) (ok a, w)
      → (◌≡◌ {A = Outcome DbError A} (ok b) (ok a)) × (v ≡ w)
  pure_inv h = let first = ap (λ x. x.0) h in let second = ap (λ x. x.1) h in (cc, second)

  stop_inv :
      {A : Type 0} {e : Stop} {a : A} {v w : World O}
      → ◌≡◌ {A = Outcome Stop A × World O} (raise e, v) (ok a, w)
      → ⊥
  stop_inv h = let first = ap (λ x. x.0) h in cc

  tried_inv :
      {A : Type 0} (w : World O) (before : Db) (r : Outcome DbError (A × Db))
      {o : Outcome DbError A} {w' : World O}
      → tried w before r ≡ (ok o, w')
      → (a : A) → o ≡ ok a
      → r ≡ ok (a, w'.db)
  tried_inv w before (ok (b, after)) {o} {w'} h a e =
      let first : b ≡ a = value_of (ap (λ x. x.0) h) e in
      let second : after ≡ w'.db = ap (λ x. x.1.db) h in rw (first, second) refl
  tried_inv w before (raise x) {o} {w'} h a e = absurd (no_value (ap (λ x. x.0) h) e)

  module _ (workshop : Workshop O) (others : ℕ → Db → Db) where
    attempt_inv :
        {A : Type 0} (tx : Tx A) (v : World O) {a : A} {w : World O}
        → attempt workshop others tx v ≡ (ok (ok a), w)
        → tx (others v.turn v.db) ≡ ok (a, w.db)
    unfolding attempt
    attempt_inv tx v {a} {w} h =
        tried_inv v (others v.turn v.db) (tx (others v.turn v.db)) {o = ok a} {w' = w} h a refl

    or_stop_inv :
        {A : Type 0} (o : Outcome DbError A) (v : World O) {a : A} {w : World O}
        → or_stop o v ≡ (ok a, w)
        → (o ≡ ok a) × (v ≡ w)
    unfolding pure stop
    or_stop_inv (ok b) v {a} {w} h = pure_inv h
    or_stop_inv (raise e) v {a} {w} h = absurd (stop_inv h)

    look_into_inv :
        (k : ℕ) (o : Outcome DbError ReplayUploadRow) (v : World O) {r : ReplayUploadRow}
        {w : World O}
        → look_into workshop others k o v ≡ (ok r, w)
        → (o ≡ ok r) × (v ≡ w)
    unfolding pure stop
    look_into_inv k (ok b) v {r} {w} h = pure_inv h
    look_into_inv k (raise state_conflict) v {r} {w} h =
        let (latest, x, _, h') =
          bind_inv (require_replay workshop others k) _ v {b = r} {w' = w} h in
        let (u, y, _, stopped) =
          bind_inv (ensure_not_deleting workshop others latest.id) (λ _. stop conflicted) x {b = r}
            {w' = w} h' in
        absurd (stop_inv stopped)
    look_into_inv k (raise active_job_conflict) v {r} {w} h = absurd (stop_inv h)
    look_into_inv k (raise artifact_conflict) v {r} {w} h = absurd (stop_inv h)
    look_into_inv k (raise active_job_integrity) v {r} {w} h = absurd (stop_inv h)
    look_into_inv k (raise other_integrity) v {r} {w} h = absurd (stop_inv h)
    look_into_inv k (raise no_result) v {r} {w} h = absurd (stop_inv h)

    reading_inv :
        (v : World O) {n : ℕ} {w : World O} → reading workshop others v ≡ (ok n, w) → v ≡ w
    unfolding reading
    reading_inv v h = ap (λ x. x.1) h

    attempt_turn :
        {A : Type 0} (tx : Tx A) (v : World O) {o : Outcome DbError A} {w : World O}
        → attempt workshop others tx v ≡ (ok o, w)
        → w.turn ≡ v.turn + 1
    unfolding attempt
    attempt_turn tx v {o} {w} h = elim (Outcome-cases (tx (others v.turn v.db))) [
      | inl ((a, after), e) ↦ sym (ap (λ x. x.1.turn) (rw (attempt, e) at h))
      | inr (x, e) ↦ sym (ap (λ x. x.1.turn) (rw (attempt, e) at h))
    ]

    -- The transaction of a call that gets through.
    pub transact_inv :
        {A : Type 0} (tx : Tx A) (v : World O) {a : A} {w : World O}
        → transact workshop others tx v ≡ (ok a, w)
        → tx (others v.turn v.db) ≡ ok (a, w.db)
    transact_inv tx v {a} {w} h =
        let (o, x, first, second) =
          bind_inv (attempt workshop others tx) or_stop v {b = a} {w' = w} h in
        let (is_ok, same) = or_stop_inv o x {a = a} {w = w} second in
        attempt_inv tx v {a = a} {w = w} (rw (first, is_ok, same) refl)

    -- The state after a transaction that only reads.
    abbrev pub after_read : World O → World O
    after_read v = record v { db = others v.turn v.db; turn = v.turn + 1 }

    or_missing_inv :
        (found : Option ReplayUploadRow) (v : World O) {r : ReplayUploadRow} {w : World O}
        → or_missing workshop others found v ≡ (ok r, w)
        → v ≡ w
    unfolding pure stop
    or_missing_inv none v h = absurd (stop_inv h)
    or_missing_inv (some row) v h = (pure_inv h).1

    require_replay_inv :
        (k : ℕ) (v : World O) {r : ReplayUploadRow} {w : World O}
        → require_replay workshop others k v ≡ (ok r, w)
        → after_read v ≡ w
    unfolding require_replay attempt
    require_replay_inv k v {r} {w} h =
        let (found, x, h0, h1) = bind_inv _ (or_missing workshop others) v {b = r} {w' = w} h in
        let (o, y, first, second) = bind_inv _ or_stop v {b = found} {w' = x} h0 in
        let same : after_read v ≡ y = ap (λ z. z.1) first in
        let (_, same') = or_stop_inv o y {a = found} {w = x} second in
        same ∙ same' ∙ or_missing_inv found x {r = r} {w = w} h1

    pub ensure_not_deleting_inv :
        (k : ℕ) (v : World O) {w : World O}
        → ensure_not_deleting workshop others k v ≡ (ok tt, w)
        → after_read v ≡ w
    unfolding ensure_not_deleting pure stop
    ensure_not_deleting_inv k v {w} h =
        let (latest, x, first, second) =
          bind_inv (require_replay workshop others k) _ v {b = tt} {w' = w} h in
        require_replay_inv k v {r = latest} {w = x} first
        ∙ elim (Bool-cases (is_gone latest.status)) [
          | inl gone ↦ absurd (stop_inv (rw gone at second))
          | inr alive ↦ (pure_inv (rw alive at second)).1
        ]

    -- The conditional update of a move that gets through.
    pub move_inv :
        (row : ReplayUploadRow) (expected : ReplayStatus → Bool) (status : ReplayStatus)
        (values : List Assign) (v : World O) {r : ReplayUploadRow} {w : World O}
        → move workshop others row expected status values v ≡ (ok r, w)
        → (transition row.id expected row.version status values
              (workshop.clock (v.turn + 1))
              (others (v.turn + 1) (others v.turn v.db))
            ≡ ok (r, w.db))
          × (w.turn ≡ v.turn + 2)
    unfolding move reading
    move_inv row expected status values v {r} {w} h =
        let (_, x, guarded, h1) =
          bind_inv (ensure_not_deleting workshop others row.id) _ v {b = r} {w' = w} h in
        let is_x : after_read v ≡ x = ensure_not_deleting_inv row.id v {w = x} guarded in
        let (now, y, clocked, h2) = bind_inv (reading workshop others) _ x {b = r} {w' = w} h1 in
        let is_now : workshop.clock x.turn ≡ now = value_read (ap (λ z. z.0) clocked) in
        let is_y : x ≡ y = ap (λ z. z.1) clocked in
        let tx = transition row.id expected row.version status values now in
        let (o, z, tried_it, h3) = bind_inv (attempt workshop others tx) _ y {b = r} {w' = w} h2 in
        let (is_ok, same) = look_into_inv row.id o z {r = r} {w = w} h3 in
        let done : tx (others y.turn y.db) ≡ ok (r, w.db) =
          attempt_inv tx y {a = r} {w = w} (rw (tried_it, is_ok, same) refl) in
        let turn : z.turn ≡ y.turn + 1 = attempt_turn tx y {o = o} {w = z} tried_it in
        let is_y' : after_read v ≡ y = is_x ∙ is_y in
        let at : workshop.clock (v.turn + 1) ≡ now =
          ap (λ (u : World O). workshop.clock u.turn) is_x ∙ is_now in
        let turns : w.turn ≡ v.turn + 1 + 1 =
          ap (λ (u : World O). u.turn) (sym same)
          ∙ turn
          ∙ ap (λ (u : World O). u.turn + 1) (sym is_y') in
        (
          subst
              (λ n.
                transition row.id expected row.version status values n
                  (others (v.turn + 1) (others v.turn v.db))
                ≡ ok (r, w.db))
              (sym at)
              (subst (λ (u : World O). tx (others u.turn u.db) ≡ ok (r, w.db)) (sym is_y') done),
          omega (arith, turns),
        )
