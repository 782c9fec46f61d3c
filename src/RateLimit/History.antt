-- ===== src/RateLimit/History.antt =====
-- The history of the hits that a rolling window has allowed, and what its bucket keeps of it.
use league_of_legnds_ai_coac.Prelude.{
  ℕ, ◌+◌, ◌≤◌, ◌<◌, ◌≡◌, refl, String, Bool, true, false, ◌&&◌, List, [], ◌∷◌, ◌++◌, ltb, leb,
  arith, if◌then◌else◌, length, All, str_eq, ok, raise, Outcome, Bool-cases, inl, inr,
}
use native.Mathlib.Nat.{le_refl}
use league_of_legnds_ai_coac.RateLimit.{
  IndexError, Verdict, allowed, refused, RollingWindowCounter, drop_expired, hit,
}

-- Is `t` later than `instant - window`, and not after `instant`?
abbrev pub is_within : ℕ → ℕ → ℕ → Bool
is_within window instant t = ltb instant (t + window) && leb t instant

-- How many of the times lie in the window that ends at `instant`.
abbrev pub count_within : ℕ → ℕ → List ℕ → ℕ
count_within window instant [] = 0
count_within window instant (t ∷ ts) =
    (if is_within window instant t then 1 else 0) + count_within window instant ts

-- The clock does not run backwards.
abbrev pub IsRising : ℕ → List ℕ → Type 0
IsRising start [] = Unit
IsRising start (t ∷ ts) = (start ≤ t) × IsRising t ts

-- The rule in terms of the history: allow a hit while fewer than `limit` of the hits allowed
-- before it lie in the window that ends with it. The result is the history afterwards.
unfoldable pub admit : ℕ → ℕ → List ℕ → List ℕ → List ℕ
admit limit window log [] = log
admit limit window log (now ∷ later) =
    admit limit window (if ltb (count_within window now log) limit then log ++ now ∷ [] else log)
      later

abbrev pub is_allowed : Outcome IndexError Verdict → Bool
is_allowed (ok allowed) = true
is_allowed (ok (refused retry_after)) = false
is_allowed (raise e) = false

-- The times at which the hits of one client were allowed, where all clients hit one counter.
unfoldable pub allowed_hits : String → RollingWindowCounter → List ℕ → List (String × ℕ) → List ℕ
allowed_hits client c log [] = log
allowed_hits client c log ((key, now) ∷ later) =
    let (verdict, c') = hit c key now in
    allowed_hits client c'
      (if str_eq key client && is_allowed verdict then log ++ now ∷ [] else log) later

-- The times at which one client tried.
abbrev pub times_of : String → List (String × ℕ) → List ℕ
times_of client [] = []
times_of client ((key, now) ∷ later) =
    let rest = times_of client later in if str_eq key client then now ∷ rest else rest

-- `lo ≤ x₁ ≤ … ≤ xₙ ≤ hi`
abbrev pub IsBetween : ℕ → ℕ → List ℕ → Type 0
IsBetween lo hi [] = lo ≤ hi
IsBetween lo hi (x ∷ xs) = (lo ≤ x) × IsBetween x hi xs

pub between_le : (lo hi : ℕ) (xs : List ℕ) → IsBetween lo hi xs → lo ≤ hi
between_le lo hi [] h = h
between_le lo hi (x ∷ xs) h = omega (arith, between_le x hi xs h.1)

pub between_widen :
    (lo mid hi : ℕ) (xs : List ℕ) → lo ≤ mid → IsBetween mid hi xs → IsBetween lo hi xs
between_widen lo mid hi [] a h = omega arith
between_widen lo mid hi (x ∷ xs) a h = (omega arith, h.1)

pub between_extend :
    (lo mid hi : ℕ) (xs : List ℕ) → mid ≤ hi → IsBetween lo mid xs → IsBetween lo hi xs
between_extend lo mid hi [] a h = omega arith
between_extend lo mid hi (x ∷ xs) a h = (h.0, between_extend x mid hi xs a h.1)

pub between_append :
    (lo hi : ℕ) (xs : List ℕ) → IsBetween lo hi xs → IsBetween lo hi (xs ++ hi ∷ [])
between_append lo hi [] h = (h, le_refl hi)
between_append lo hi (x ∷ xs) h = (h.0, between_append x hi xs h.1)

module _ (window : ℕ) where
  pub count-append :
      (instant t : ℕ) (xs : List ℕ)
      → count_within window instant (xs ++ t ∷ [])
        ≡ count_within window instant xs + (if is_within window instant t then 1 else 0)
  count-append instant t [] = ground arith
  count-append instant t (x ∷ xs) = ground (arith, count-append instant t xs)

  pub count-le-length : (instant : ℕ) (xs : List ℕ) → count_within window instant xs ≤ length xs
  count-le-length instant [] = omega arith
  count-le-length instant (x ∷ xs) = ground (arith, count-le-length instant xs)

  pub count-drop_expired :
      (now instant : ℕ) (xs : List ℕ)
      → now ≤ instant
      → count_within window instant (drop_expired window now xs) ≡ count_within window instant xs
  unfolding drop_expired
  count-drop_expired now instant [] h = refl
  count-drop_expired now instant (x ∷ xs) h = ground (arith, count-drop_expired now instant xs h)

  pub count_all :
      (lo now : ℕ) (xs : List ℕ)
      → IsBetween lo now xs
      → now < lo + window
      → count_within window now xs ≡ length xs
  count_all lo now [] h f = refl
  count_all lo now (x ∷ xs) h f = ground (arith, count_all x now xs h.1, between_le x now xs h.1)

  pub count_fresh :
      (lo now : ℕ) (xs : List ℕ)
      → IsBetween lo now xs
      → count_within window now (drop_expired window now xs) ≡ length (drop_expired window now xs)
  unfolding drop_expired
  count_fresh lo now [] h = refl
  count_fresh lo now (x ∷ xs) h = elim (Bool-cases (leb (x + window) now)) [
    | inl e ↦ rw e (count_fresh x now xs h.1)
    | inr e ↦ rw e (count_all x now (x ∷ xs) (le_refl x, h.1) (ground arith))
  ]

  pub drop_expired-IsBetween :
      (lo now hi : ℕ) (xs : List ℕ)
      → IsBetween lo hi xs
      → IsBetween lo hi (drop_expired window now xs)
  unfolding drop_expired
  drop_expired-IsBetween lo now hi [] h = h
  drop_expired-IsBetween lo now hi (x ∷ xs) h = elim (Bool-cases (leb (x + window) now)) [
    | inl e ↦ rw e (between_widen lo x hi _ h.0 (drop_expired-IsBetween x now hi xs h.1))
    | inr e ↦ rw e h
  ]

-- An instant later on counts no more of a history that ends before.
pub count_later :
    (window now instant : ℕ) (log : List ℕ)
    → All (λ t. t ≤ now) log
    → now ≤ instant
    → count_within window instant log ≤ count_within window now log
count_later window now instant [] h k = omega arith
count_later window now instant (t ∷ log) h k =
    ground (arith, count_later window now instant log h.1 k)

All-extend :
    (last now : ℕ) (log : List ℕ) → All (λ t. t ≤ last) log → last ≤ now → All (λ t. t ≤ now) log
All-extend last now [] h k = tt
All-extend last now (t ∷ log) h k = (omega arith, All-extend last now log h.1 k)

All-append :
    (now : ℕ) (log : List ℕ) → All (λ t. t ≤ now) log → All (λ t. t ≤ now) (log ++ now ∷ [])
All-append now [] h = (le_refl now, tt)
All-append now (t ∷ log) h = (h.0, All-append now log h.1)

-- The rule keeps every window within the limit.
pub admit_capped :
    (limit window last : ℕ) (log times : List ℕ) (instant : ℕ)
    → IsRising last times
    → All (λ t. t ≤ last) log
    → ((at : ℕ) → count_within window at log ≤ limit)
    → count_within window instant (admit limit window log times) ≤ limit
unfolding admit
admit_capped limit window last log [] instant rising old capped = capped instant
admit_capped limit window last log (now ∷ later) instant rising old capped =
    elim (Bool-cases (ltb (count_within window now log) limit)) [
      | inl e ↦ rw e (
          admit_capped limit window now (log ++ now ∷ []) later instant rising.1
            (All-append now log (All-extend last now log old rising.0)) (λ at. one_more at e))
      | inr e ↦ rw e (
          admit_capped limit window now log later instant rising.1
            (All-extend last now log old rising.0) capped)
    ]
  where
    one_more :
        (at : ℕ)
        → ltb (count_within window now log) limit ≡ true
        → count_within window at (log ++ now ∷ []) ≤ limit
    one_more at e = grind (
      arith,
      count-append window at now log,
      capped at,
      count_later window now at log (All-extend last now log old rising.0),
    )
