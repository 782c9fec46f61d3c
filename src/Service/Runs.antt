-- ===== src/Service/Runs.antt =====
-- What a request does to the tables is a sequence of the repositories' transactions.
use league_of_legnds_ai_coac.Prelude.{
  ℕ, ◌≡◌, String, Bool, true, false, Option, none, some, arith, if◌then◌else◌, Outcome, ok, raise,
  Outcome-cases, inl, inr,
}
use league_of_legnds_ai_coac.Rows.{ReplayUploadRow}
use league_of_legnds_ai_coac.Database.{Db, DbError, Tx}
use league_of_legnds_ai_coac.Repo.Replays.{get}
use league_of_legnds_ai_coac.Repo.Steps.{Reach}
use league_of_legnds_ai_coac.Service.Calls.{
  ServiceError, uncaught_db, replay_not_found, verify_replay_token, is_empty, ReplaySettings, World,
  Call, pure, fails, continue, ◌>>=◌, attempt, or_uncaught, transact, read, check_digest, check_row,
  authorize,
}

pub Reach-trans :
    (drawn : ℕ → Bool) {a b c : Db} → Reach drawn a b → Reach drawn b c → Reach drawn a c
Reach-trans drawn h Reach.here = h
Reach-trans drawn {a} {b} {c} h (Reach.next {db'} k step) =
    Reach.next {db' = db'} (Reach-trans drawn {a = a} {b = b} {c = db'} h k) step

-- The call leads from any tables to tables that the transactions reach.
pub record Runs (O : Type 0) (drawn : ℕ → Bool) {A : Type 0} (m : Call O A) : Type 0 where
  pub runs : (w : World O) → Reach drawn w.db (m w).1.db

module _ (O : Type 0) (drawn : ℕ → Bool) where
  pub pure-Runs : {A : Type 0} (a : A) → Runs O drawn (pure a)
  unfolding pure
  pure-Runs a = record { runs = λ w. Reach.here }

  pub fails-Runs : (A : Type 0) (e : ServiceError) → Runs O drawn (fails {A = A} e)
  unfolding fails
  fails-Runs A e = record { runs = λ w. Reach.here }

  continue-Runs :
      {A B : Type 0} (r : Outcome ServiceError A × World O) (f : A → Call O B)
      → ((a : A) → Runs O drawn (f a))
      → Reach drawn r.1.db (continue r f).1.db
  continue-Runs (ok a, w) f k = (k a).runs w
  continue-Runs (raise e, w) f k = Reach.here

  pub bind-Runs :
      {A B : Type 0} (m : Call O A) (f : A → Call O B)
      → Runs O drawn m
      → ((a : A) → Runs O drawn (f a))
      → Runs O drawn (m >>= f)
  unfolding ◌>>=◌
  bind-Runs m f h k = record {
    runs = λ w.
        Reach-trans drawn {a = w.db} {b = (m w).1.db} {c = (continue (m w) f).1.db} (h.runs w)
          (continue-Runs (m w) f k);
  }

  pub if-Runs :
      {A : Type 0} (c : Bool) (m n : Call O A)
      → Runs O drawn m
      → Runs O drawn n
      → Runs O drawn (if c then m else n)
  if-Runs true m n h k = h
  if-Runs false m n h k = k

  module _ (others : ℕ → Db → Db) (outside : (n : ℕ) (db : Db) → Reach drawn db (others n db)) where
    pub attempt-Runs :
        {A : Type 0} (tx : Tx A)
        → ((db : Db) (a : A) (db' : Db) → tx db ≡ ok (a, db') → Reach drawn db db')
        → Runs O drawn (attempt others tx)
    unfolding attempt
    attempt-Runs tx run = record {
      runs = λ w. elim (Outcome-cases (tx (others w.turn w.db))) [
        | inl ((a, db'), e) ↦
            rw (attempt, e)
              (Reach-trans drawn {a = w.db} {b = others w.turn w.db} {c = db'} (outside w.turn w.db)
                (run (others w.turn w.db) a db' e))
        | inr (x, e) ↦ rw (attempt, e) (outside w.turn w.db)
      ];
    }

    or_uncaught-Runs : {A : Type 0} (o : Outcome DbError A) → Runs O drawn (or_uncaught others o)
    or_uncaught-Runs (ok a) = pure-Runs a
    or_uncaught-Runs {A} (raise e) = fails-Runs A (uncaught_db e)

    pub transact-Runs :
        {A : Type 0} (tx : Tx A)
        → ((db : Db) (a : A) (db' : Db) → tx db ≡ ok (a, db') → Reach drawn db db')
        → Runs O drawn (transact others tx)
    transact-Runs tx run =
        bind-Runs (attempt others tx) (or_uncaught others) (attempt-Runs tx run) or_uncaught-Runs

    pub read-Runs : {A : Type 0} (f : Db → A) → Runs O drawn (read others f)
    read-Runs f =
        transact-Runs (λ db. ok (f db, db))
          (λ db a db' e. let same : db' ≡ db = ground arith in rw same Reach.here)

    module _ (settings : ReplaySettings) (digest : String → String → String) where
      check_digest-Runs :
          (token : String) (row : ReplayUploadRow) (d : Option String)
          → Runs O drawn (check_digest others settings digest token row d)
      unfolding check_digest
      check_digest-Runs token row none = fails-Runs ReplayUploadRow replay_not_found
      check_digest-Runs token row (some expected) =
          if-Runs (verify_replay_token digest settings.replay_token_secret token expected)
            (pure row) (fails replay_not_found) (pure-Runs row)
            (fails-Runs ReplayUploadRow replay_not_found)

      check_row-Runs :
          (token : String) (row : Option ReplayUploadRow)
          → Runs O drawn (check_row others settings digest token row)
      unfolding check_row
      check_row-Runs token none = fails-Runs ReplayUploadRow replay_not_found
      check_row-Runs token (some row) = check_digest-Runs token row row.token_digest

      pub authorize-Runs :
          (replay_id : ℕ) (token : String)
          → Runs O drawn (authorize others settings digest replay_id token)
      unfolding authorize
      authorize-Runs replay_id token =
          if-Runs (is_empty token) (fails replay_not_found)
            (read others (get replay_id) >>= check_row others settings digest token)
            (fails-Runs ReplayUploadRow replay_not_found)
            (bind-Runs (read others (get replay_id)) (check_row others settings digest token)
              (read-Runs (get replay_id)) (check_row-Runs token))
