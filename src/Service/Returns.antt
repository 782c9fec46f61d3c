-- ===== src/Service/Returns.antt =====
-- What is known of a request that returns: what each of its calls has returned.
use league_of_legnds_ai_coac.Prelude.{
  ℕ, ◌+◌, ◌≡◌, String, true, false, some, arith, Outcome, ok, raise, Bool-cases, Option-cases,
  Outcome-cases, inl, inr, refl,
}
use league_of_legnds_ai_coac.Rows.{ReplayUploadRow}
use league_of_legnds_ai_coac.Database.{Db, Tx, find_upload}
use league_of_legnds_ai_coac.Repo.Replays.{get}
use league_of_legnds_ai_coac.Service.Calls.{
  ServiceError, verify_replay_token, is_empty, ReplaySettings, World, Call, pure, fails, continue,
  ◌>>=◌, attempt, transact, check_digest, check_row, authorize,
}

module _ (O : Type 0) where
  continue_inv :
      {A B : Type 0} (r : Outcome ServiceError A × World O) (f : A → Call O B) {b : B}
      {w' : World O}
      → continue r f ≡ (ok b, w')
      → (a : A) × (r.0 ≡ ok a) × (f a r.1 ≡ (ok b, w'))
  continue_inv (ok a, w) f h = (a, refl, h)
  continue_inv (raise e, w) f h = absurd (ground arith)

  pub bind_inv :
      {A B : Type 0} (m : Call O A) (f : A → Call O B) (w : World O) {b : B} {w' : World O}
      → (m >>= f) w ≡ (ok b, w')
      → (a : A) × ((m w).0 ≡ ok a) × (f a (m w).1 ≡ (ok b, w'))
  unfolding ◌>>=◌
  bind_inv m f w {b} {w'} h = continue_inv (m w) f {b = b} {w' = w'} h

  pub pure_inv :
      {A : Type 0} (a : A) (w : World O) {b : A} {w' : World O}
      → pure a w ≡ (ok b, w')
      → (b ≡ a) × (w' ≡ w)
  unfolding pure
  pure_inv a w h = (ground arith, ground arith)

  pub fails_inv :
      {A : Type 0} (e : ServiceError) (w : World O) {b : A} {w' : World O}
      → ¬ (fails {A = A} e w ≡ (ok b, w'))
  unfolding fails
  fails_inv e w h = absurd (ground arith)

  module _ (others : ℕ → Db → Db) where
    pub transact_inv :
        {A : Type 0} (tx : Tx A) (w : World O) {a : A}
        → (transact others tx w).0 ≡ ok a
        → (tx (others w.turn w.db) ≡ ok (a, (transact others tx w).1.db))
    unfolding attempt ◌>>=◌ pure fails
    transact_inv tx w {a} h = elim (Outcome-cases (tx (others w.turn w.db))) [
      | inl ((b, db'), e) ↦ ground arith
      | inr (x, e) ↦ absurd (ground arith)
    ]

    pub attempt_inv :
        {A : Type 0} (tx : Tx A) (w : World O) {a : A}
        → (attempt others tx w).0 ≡ ok (ok a)
        → tx (others w.turn w.db) ≡ ok (a, (attempt others tx w).1.db)
    unfolding attempt
    attempt_inv tx w {a} h = elim (Outcome-cases (tx (others w.turn w.db))) [
      | inl ((b, db'), e) ↦ ground arith
      | inr (x, e) ↦ absurd (ground arith)
    ]

    module _ (settings : ReplaySettings) (digest : String → String → String) where
      -- Who is authorized has named a replay that is there, with a token that fits its digest.
      pub authorize_inv :
          (replay_id : ℕ) (token : String) (w : World O) {row : ReplayUploadRow}
          → (authorize others settings digest replay_id token w).0 ≡ ok row
          → (is_empty token ≡ false)
            × (find_upload replay_id (others w.turn w.db) ≡ some row)
            × ((authorize others settings digest replay_id token w).1.db ≡ others w.turn w.db)
            × ((d : String) × (row.token_digest ≡ some d)
                × (verify_replay_token digest settings.replay_token_secret token d ≡ true))
      unfolding authorize check_row check_digest attempt ◌>>=◌ pure fails get
      authorize_inv replay_id token w {row} h = elim (Bool-cases (is_empty token)) [
        | inl e ↦ absurd (ground arith)
        | inr e ↦ elim (Option-cases (find_upload replay_id (others w.turn w.db))) [
          | inl f ↦ absurd (ground arith)
          | inr (u, f) ↦ elim (Option-cases u.token_digest) [
            | inl g ↦ absurd (ground arith)
            | inr (d, g) ↦
                elim (Bool-cases
                  (verify_replay_token digest settings.replay_token_secret token d)) [
                    | inl v ↦
                        let same : row ≡ u = ground arith in
                        (e, rw same f, rw (e, f, g, v) refl, (d, rw same g, v))
                    | inr v ↦ absurd (ground arith)
                  ]
          ]
        ]
      ]

      -- That is one transaction, which changes nothing.
      pub authorize_world :
          (replay_id : ℕ) (token : String) (w : World O) {row : ReplayUploadRow}
          → (authorize others settings digest replay_id token w).0 ≡ ok row
          → (authorize others settings digest replay_id token w).1
            ≡ record w { db = others w.turn w.db; turn = w.turn + 1 }
      unfolding authorize check_row check_digest attempt ◌>>=◌ pure fails get
      authorize_world replay_id token w {row} h = elim (Bool-cases (is_empty token)) [
        | inl e ↦ absurd (ground arith)
        | inr e ↦ elim (Option-cases (find_upload replay_id (others w.turn w.db))) [
          | inl f ↦ absurd (ground arith)
          | inr (u, f) ↦ elim (Option-cases u.token_digest) [
            | inl g ↦ absurd (ground arith)
            | inr (d, g) ↦
                elim (Bool-cases
                  (verify_replay_token digest settings.replay_token_secret token d)) [
                    | inl v ↦ rw (e, f, g, v) refl
                    | inr v ↦ absurd (ground arith)
                  ]
          ]
        ]
      ]
