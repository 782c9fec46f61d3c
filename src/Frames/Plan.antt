-- ===== src/Frames/Plan.antt =====
-- The planned times: in order, at most an interval apart, from 0 to the end, and few enough.
use league_of_legnds_ai_coac.Prelude.{
  ℕ, zero, suc, ◌+◌, ◌*◌, ◌-◌, ◌/◌, ◌≤◌, ◌<◌, ◌≡◌, refl, List, [], ◌∷◌, ◌++◌, ◌==◌, if◌then◌else◌,
  take, length, All, length-append, inl, inr, Bool-cases, arith,
}
use league_of_legnds_ai_coac.Frames.{
  frame_interval_ms, multiples, range_list, last_or, or_zero, close_at, frame_times_to,
}

-- From `prev` on the times rise, by at most the frame interval.
abbrev pub IsSpaced : ℕ → List ℕ → Type 0
IsSpaced prev [] = Unit
IsSpaced prev (x ∷ xs) = (prev < x) × (x ≤ prev + frame_interval_ms) × IsSpaced x xs

-- The times begin at 0 and go on spaced.
abbrev pub IsPlan : List ℕ → Type 0
IsPlan [] = Unit
IsPlan (x ∷ xs) = (x ≡ 0) × IsSpaced x xs

last-multiples :
    (k s : ℕ)
    → last_or s (multiples k (s + frame_interval_ms) frame_interval_ms) ≡ s + k * frame_interval_ms
unfolding multiples last_or
last-multiples zero s = omega arith
last-multiples (suc k) s = omega (arith, last-multiples k (s + frame_interval_ms))

length-multiples : (k s step : ℕ) → length (multiples k s step) ≡ k
unfolding multiples
length-multiples zero s step = refl
length-multiples (suc k) s step = omega (arith, length-multiples k (s + step) step)

multiples-IsSpaced : (k s : ℕ) → IsSpaced s (multiples k (s + frame_interval_ms) frame_interval_ms)
unfolding multiples
multiples-IsSpaced zero s = tt
multiples-IsSpaced (suc k) s =
    (omega arith, omega arith, multiples-IsSpaced k (s + frame_interval_ms))

append-IsSpaced :
    (s e : ℕ) (xs : List ℕ)
    → IsSpaced s xs
    → last_or s xs < e
    → e ≤ last_or s xs + frame_interval_ms
    → IsSpaced s (xs ++ e ∷ [])
unfolding last_or
append-IsSpaced s e [] h a b = (a, b, tt)
append-IsSpaced s e (x ∷ xs) h a b = (h.0, h.1, append-IsSpaced x e xs h.2 a b)

last-append : (s e : ℕ) (xs : List ℕ) → last_or s (xs ++ e ∷ []) ≡ e
unfolding last_or
last-append s e [] = refl
last-append s e (x ∷ xs) = last-append x e xs

take-IsSpaced : (n s : ℕ) (xs : List ℕ) → IsSpaced s xs → IsSpaced s (take n xs)
take-IsSpaced zero s xs h = tt
take-IsSpaced (suc n) s [] h = tt
take-IsSpaced (suc n) s (x ∷ xs) h = (h.0, h.1, take-IsSpaced n x xs h.2)

pub take-IsPlan : (n : ℕ) (xs : List ℕ) → IsPlan xs → IsPlan (take n xs)
take-IsPlan zero xs h = tt
take-IsPlan (suc n) [] h = tt
take-IsPlan (suc n) (x ∷ xs) h = (h.0, take-IsSpaced n x xs h.1)

last_or_least : (s : ℕ) (xs : List ℕ) → IsSpaced s xs → s ≤ last_or s xs
unfolding last_or
last_or_least s [] h = omega arith
last_or_least s (x ∷ xs) h = omega (arith, last_or_least x xs h.2)

All-le-last : (s b : ℕ) (xs : List ℕ) → IsSpaced s xs → last_or s xs ≤ b → All (λ t. t ≤ b) xs
unfolding last_or
All-le-last s b [] h e = tt
All-le-last s b (x ∷ xs) h e = (omega (arith, last_or_least x xs h.2), All-le-last x b xs h.2 e)

-- In a plan no time lies behind the last.
pub IsPlan-All-le : (b : ℕ) (xs : List ℕ) → IsPlan xs → last_or 0 xs ≤ b → All (λ t. t ≤ b) xs
unfolding last_or
IsPlan-All-le b [] h e = tt
IsPlan-All-le b (x ∷ xs) h e = (omega (arith, last_or_least x xs h.1), All-le-last x b xs h.1 e)

-- The list before the end is closed: 0, and one time for each whole interval.
grid :
    (end_ms : ℕ)
    → or_zero (range_list (end_ms + 1) frame_interval_ms)
      ≡ 0 ∷ multiples (end_ms / frame_interval_ms) frame_interval_ms frame_interval_ms
unfolding range_list or_zero
grid end_ms =
    let e : (end_ms + 1 + frame_interval_ms - 1) / frame_interval_ms
        ≡ suc (end_ms / frame_interval_ms) =
      omega arith in
    rw e refl

-- `close_at` on a list that begins at 0 and stops less than an interval before the end.
module _ (end_ms : ℕ) (xs : List ℕ) where
  close_at-IsPlan :
      IsSpaced 0 xs
      → last_or 0 xs ≤ end_ms
      → end_ms ≤ last_or 0 xs + frame_interval_ms
      → IsPlan (close_at end_ms (0 ∷ xs))
  unfolding close_at last_or
  close_at-IsPlan h a b = elim (Bool-cases (last_or 0 xs == end_ms)) [
    | inl e ↦ rw e (refl, h)
    | inr e ↦ rw e (refl, append-IsSpaced 0 end_ms xs h (ground arith) b)
  ]

  last-close_at : last_or 0 (close_at end_ms (0 ∷ xs)) ≡ end_ms
  unfolding close_at last_or
  last-close_at = elim (Bool-cases (last_or 0 xs == end_ms)) [
    | inl e ↦ rw e (ground arith)
    | inr e ↦ rw e (last-append 0 end_ms xs)
  ]

  length-close_at :
      length (close_at end_ms (0 ∷ xs))
      ≡ (if last_or 0 xs == end_ms then length xs + 1 else length xs + 2)
  unfolding close_at last_or
  length-close_at = ground (arith, length-append xs (end_ms ∷ []))

module _ (end_ms : ℕ) where
  abbrev whole : List ℕ
  whole = multiples (end_ms / frame_interval_ms) frame_interval_ms frame_interval_ms

  last-whole : last_or 0 whole ≡ end_ms / frame_interval_ms * frame_interval_ms
  last-whole = omega (arith, last-multiples (end_ms / frame_interval_ms) 0)

  pub frame_times_to-IsPlan : IsPlan (frame_times_to end_ms)
  unfolding frame_times_to
  frame_times_to-IsPlan = rw (grid end_ms) (
      close_at-IsPlan end_ms whole (multiples-IsSpaced (end_ms / frame_interval_ms) 0)
        (omega (arith, last-whole)) (omega (arith, last-whole)))

  pub last-frame_times_to : last_or 0 (frame_times_to end_ms) ≡ end_ms
  unfolding frame_times_to
  last-frame_times_to = rw (grid end_ms) (last-close_at end_ms whole)

  pub length-frame_times_to : end_ms ≤ 5400000 → length (frame_times_to end_ms) ≤ 181
  unfolding frame_times_to
  length-frame_times_to h =
      rw (grid end_ms, length-close_at end_ms whole)
        (ground (
          arith,
          last-whole,
          length-multiples (end_ms / frame_interval_ms) frame_interval_ms frame_interval_ms,
        ))
