-- ===== src/Prelude/Sort.antt =====
-- Python's `sorted` with a key: a stable insertion sort.
use Prim.Native.Nat.{ℕ, ◌≤◌}
use mathlib.Core.Path.{◌≡◌, refl}
use mathlib.Core.Logic.{inl, inr}
use mathlib.Core.Bool.{Bool}
use mathlib.Core.List.{List, [], ◌∷◌}
use native.Mathlib.Omega.{arith}
use league_of_legnds_ai_coac.Prelude.Tests.{leb, if◌then◌else◌, Bool-cases}
use league_of_legnds_ai_coac.Prelude.Lists.{All, length, filter}
use league_of_legnds_ai_coac.Prelude.Tables.{All-map, All-filter, count}

module _ {ℓ} {A : Type ℓ} (key : A → ℕ) where
  -- The new element goes before the ones whose key is not smaller.
  abbrev pub insert_by : A → List A → List A
  insert_by x [] = x ∷ []
  insert_by x (y ∷ ys) = if leb (key x) (key y) then x ∷ y ∷ ys else y ∷ insert_by x ys

  abbrev pub sort_by : List A → List A
  sort_by [] = []
  sort_by (x ∷ xs) = insert_by x (sort_by xs)

  abbrev pub IsAscending : List A → Type 0
  IsAscending [] = Unit
  IsAscending (x ∷ xs) = All (λ y. key x ≤ key y) xs × IsAscending xs

  count-insert_by :
      (p : A → Bool) (x : A) (xs : List A) → count p (insert_by x xs) ≡ count p (x ∷ xs)
  count-insert_by p x [] = refl
  count-insert_by p x (y ∷ ys) = ground (arith, count-insert_by p x ys)

  -- A sorted list has the elements of the list, as often as it has them.
  pub count-sort_by : (p : A → Bool) (xs : List A) → count p (sort_by xs) ≡ count p xs
  count-sort_by p [] = refl
  count-sort_by p (x ∷ xs) = omega (arith, count-insert_by p x (sort_by xs), count-sort_by p xs)

  pub length-sort_by : (xs : List A) → length (sort_by xs) ≡ length xs
  length-sort_by [] = refl
  length-sort_by (x ∷ xs) = omega (arith, length-insert_by (sort_by xs), length-sort_by xs)
    where
      length-insert_by : (ys : List A) → length (insert_by x ys) ≡ length (x ∷ ys)
      length-insert_by [] = refl
      length-insert_by (y ∷ ys) = ground (arith, length-insert_by ys)

  All-insert_by {κ} :
      (P : A → Type κ) (x : A) (xs : List A) → P x → All P xs → All P (insert_by x xs)
  All-insert_by P x [] h k = (h, tt)
  All-insert_by P x (y ∷ ys) h k = elim (Bool-cases (leb (key x) (key y))) [
    | inl e ↦ rw e (h, k)
    | inr e ↦ rw e (k.0, All-insert_by P x ys h k.1)
  ]

  insert_by-IsAscending : (x : A) (xs : List A) → IsAscending xs → IsAscending (insert_by x xs)
  insert_by-IsAscending x [] h = (tt, tt)
  insert_by-IsAscending x (y ∷ ys) h = elim (Bool-cases (leb (key x) (key y))) [
    | inl e ↦
        let first : key x ≤ key y = ground arith in
        rw e ((first, All-map (λ z. key y ≤ key z) _ ys (λ z k. omega arith) h.0), h)
    | inr e ↦
        let first : key y ≤ key x = ground arith in
        rw e (All-insert_by (λ z. key y ≤ key z) x ys first h.0, insert_by-IsAscending x ys h.1)
  ]

  pub sort_by-IsAscending : (xs : List A) → IsAscending (sort_by xs)
  sort_by-IsAscending [] = tt
  sort_by-IsAscending (x ∷ xs) = insert_by-IsAscending x (sort_by xs) (sort_by-IsAscending xs)

  insert_by-first : (x : A) (xs : List A) → All (λ y. key x ≤ key y) xs → insert_by x xs ≡ x ∷ xs
  insert_by-first x [] h = refl
  insert_by-first x (y ∷ ys) h = ground arith

  -- What is in order already stays as it is.
  pub sort_by-ascending : (xs : List A) → IsAscending xs → sort_by xs ≡ xs
  sort_by-ascending [] h = refl
  sort_by-ascending (x ∷ xs) h = rw (sort_by-ascending xs h.1) (insert_by-first x xs h.0)

  pub filter-IsAscending : (p : A → Bool) (xs : List A) → IsAscending xs → IsAscending (filter p xs)
  filter-IsAscending p [] h = tt
  filter-IsAscending p (x ∷ xs) h = elim (Bool-cases (p x)) [
    | inl e ↦ rw e (All-filter (λ y. key x ≤ key y) p xs h.0, filter-IsAscending p xs h.1)
    | inr e ↦ rw e (filter-IsAscending p xs h.1)
  ]
