-- ===== src/Detection/Service/Safe.antt =====
-- Calls that keep the table sound and raise nothing but errors of the API and the error of a text that
-- is too long for its column.
use league_of_legnds_ai_coac.Prelude.{
  ℕ, ◌≡◌, refl, String, Bool, true, false, All, if◌then◌else◌, Outcome, ok, raise,
}
use league_of_legnds_ai_coac.Errors.{ApiError}
use league_of_legnds_ai_coac.Detection.{
  data_error, PlatformDetectionRecord, PlatformDetectionRow, Rows,
}
use league_of_legnds_ai_coac.Detection.Store.{IsSoundTable}
use league_of_legnds_ai_coac.Detection.Service.{
  Failure, api_error, store_error, unsupported_locale, World, Call, continue, ◌>>=◌, mapped, lift,
  returns, fails,
}

-- What a call may end in.
unfoldable pub GoodEnd : {A : Type 0} → (A → Type 0) → Outcome Failure A → Type 0
GoodEnd P (ok a) = P a
GoodEnd P (raise (api_error e)) = Unit
GoodEnd P (raise (store_error e)) = e ≡ data_error
GoodEnd P (raise unsupported_locale) = ⊥

-- Each key of a row is drawn for one pair of keys of a name: `game` and `tag` say for which.
pub record Owners : Type 0 where
  pub game : ℕ → String
  pub tag : ℕ → String

abbrev pub IsOwned : Owners → PlatformDetectionRow → Type 0
IsOwned owners row =
    (owners.game row.id ≡ row.game_name_key) × (owners.tag row.id ≡ row.tag_line_key)

pub record IsKept (owners : Owners) (rows : Rows) : Type 0 where
  pub sound : IsSoundTable rows
  pub owned : All (IsOwned owners) rows

abbrev pub OwnsRecord : Owners → PlatformDetectionRecord → Type 0
OwnsRecord owners r = (owners.game r.id ≡ r.game_name_key) × (owners.tag r.id ≡ r.tag_line_key)

pub record IsSafe (owners : Owners) {A : Type 0} (P : A → Type 0) (m : Call A) : Type 0 where
  pub keeps : (w : World) → IsKept owners w.rows → IsKept owners (m w).1.rows
  pub ends : (w : World) → IsKept owners w.rows → GoodEnd P (m w).0

module _ (owners : Owners) where
  pub returns-IsSafe : {A : Type 0} (P : A → Type 0) (a : A) → P a → IsSafe owners P (returns a)
  unfolding returns GoodEnd
  returns-IsSafe P a h = record { keeps = λ w k. k; ends = λ w k. h }

  pub fails-IsSafe : {A : Type 0} (P : A → Type 0) (e : ApiError) → IsSafe owners P (fails e)
  unfolding fails GoodEnd
  fails-IsSafe P e = record { keeps = λ w k. k; ends = λ w k. tt }

  mapped-GoodEnd :
      {A : Type 0} (P : A → Type 0) (o : Outcome ApiError A)
      → ((a : A) → o ≡ ok a → P a)
      → GoodEnd P (mapped api_error o)
  unfolding GoodEnd
  mapped-GoodEnd P (ok a) h = h a refl
  mapped-GoodEnd P (raise e) h = tt

  pub lift-IsSafe :
      {A : Type 0} (P : A → Type 0) (o : Outcome ApiError A)
      → ((a : A) → o ≡ ok a → P a)
      → IsSafe owners P (lift api_error o)
  unfolding lift
  lift-IsSafe P o h = record { keeps = λ w k. k; ends = λ w k. mapped-GoodEnd P o h }

  pub lift_ok-IsSafe :
      {A E : Type 0} (P : A → Type 0) (f : E → Failure) (o : Outcome E A) (a : A)
      → o ≡ ok a
      → P a
      → IsSafe owners P (lift f o)
  unfolding lift GoodEnd
  lift_ok-IsSafe P f o a e h = record { keeps = λ w k. k; ends = λ w k. rw e h }

  continue_keeps :
      {A B : Type 0} (P : A → Type 0) (Q : B → Type 0) (r : Outcome Failure A × World)
      (f : A → Call B)
      → ((a : A) → P a → IsSafe owners Q (f a))
      → GoodEnd P r.0
      → IsKept owners r.1.rows
      → IsKept owners (continue r f).1.rows
  unfolding GoodEnd
  continue_keeps P Q (ok a, w) f k g h = (k a g).keeps w h
  continue_keeps P Q (raise e, w) f k g h = h

  continue_ends :
      {A B : Type 0} (P : A → Type 0) (Q : B → Type 0) (r : Outcome Failure A × World)
      (f : A → Call B)
      → ((a : A) → P a → IsSafe owners Q (f a))
      → GoodEnd P r.0
      → IsKept owners r.1.rows
      → GoodEnd Q (continue r f).0
  unfolding GoodEnd
  continue_ends P Q (ok a, w) f k g h = (k a g).ends w h
  continue_ends P Q (raise (api_error e), w) f k g h = tt
  continue_ends P Q (raise (store_error e), w) f k g h = g
  continue_ends P Q (raise unsupported_locale, w) f k g h = elim g [ ]

  pub bind-IsSafe :
      {A B : Type 0} (P : A → Type 0) (Q : B → Type 0) (m : Call A) (f : A → Call B)
      → IsSafe owners P m
      → ((a : A) → P a → IsSafe owners Q (f a))
      → IsSafe owners Q (m >>= f)
  unfolding ◌>>=◌
  bind-IsSafe P Q m f h k = record {
    keeps = λ w s. continue_keeps P Q (m w) f k (h.ends w s) (h.keeps w s);
    ends = λ w s. continue_ends P Q (m w) f k (h.ends w s) (h.keeps w s);
  }

  pub if-IsSafe :
      {A : Type 0} (P : A → Type 0) (c : Bool) (m n : Call A)
      → (c ≡ true → IsSafe owners P m)
      → (c ≡ false → IsSafe owners P n)
      → IsSafe owners P (if c then m else n)
  if-IsSafe P true m n h k = h refl
  if-IsSafe P false m n h k = k refl

  weaken_end :
      {A : Type 0} (P Q : A → Type 0) (o : Outcome Failure A)
      → ((a : A) → P a → Q a)
      → GoodEnd P o
      → GoodEnd Q o
  unfolding GoodEnd
  weaken_end P Q (ok a) f h = f a h
  weaken_end P Q (raise (api_error e)) f h = tt
  weaken_end P Q (raise (store_error e)) f h = h
  weaken_end P Q (raise unsupported_locale) f h = h

  pub weaken-IsSafe :
      {A : Type 0} (P Q : A → Type 0) (m : Call A)
      → ((a : A) → P a → Q a)
      → IsSafe owners P m
      → IsSafe owners Q m
  weaken-IsSafe P Q m f h = record {
    keeps = h.keeps;
    ends = λ w k. weaken_end P Q (m w).0 f (h.ends w k);
  }
