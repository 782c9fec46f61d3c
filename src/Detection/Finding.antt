-- ===== src/Detection/Finding.antt =====
-- Rows found under a test that one row passes at most, after an update and after an insertion.
use mathlib.Core.Option
use league_of_legnds_ai_coac.Prelude.{
  ◌≡◌, refl, ◌≤◌, Bool, ◌&&◌, Option, none, some, List, [], ◌∷◌, ◌++◌, find, filter, update_where,
  if◌then◌else◌, arith, Bool-cases, inl, inr,
}
use league_of_legnds_ai_coac.Prelude.Tables.{count}

module _ {ℓ} {A : Type ℓ} where
  abbrev pub singleton_if : (A → Bool) → Option A → List A
  singleton_if q none = []
  singleton_if q (some x) = if q x then x ∷ [] else []

  filter-none : (p q : A → Bool) (xs : List A) → count p xs ≡ 0 → filter (λ x. p x && q x) xs ≡ []
  filter-none p q [] h = refl
  filter-none p q (x ∷ xs) h = ground (arith, filter-none p q xs)

  -- The rows that pass two tests, where one row at most passes the first.
  pub filter-find :
      (p q : A → Bool) (xs : List A)
      → count p xs ≤ 1
      → filter (λ x. p x && q x) xs ≡ singleton_if q (find p xs)
  filter-find p q [] h = refl
  filter-find p q (x ∷ xs) h = elim (Bool-cases (p x)) [
    | inl e ↦
        let rest : filter (λ x. p x && q x) xs ≡ [] = filter-none p q xs (ground arith) in
        ground (arith, rest)
    | inr e ↦ ground (arith, filter-find p q xs)
  ]

  pub find-update_where :
      (p q : A → Bool) (f : A → A) (xs : List A)
      → ((x : A) → p (f x) ≡ p x)
      → find p (update_where q f xs) ≡ Option.map (λ x. if q x then f x else x) (find p xs)
  find-update_where p q f [] k = refl
  find-update_where p q f (x ∷ xs) k = ground (arith, k x, find-update_where p q f xs k)

  abbrev pub or_last : (A → Bool) → A → Option A → Option A
  or_last p y none = if p y then some y else none
  or_last p y (some x) = some x

  pub find-append :
      (p : A → Bool) (xs : List A) (y : A) → find p (xs ++ y ∷ []) ≡ or_last p y (find p xs)
  find-append p [] y = refl
  find-append p (x ∷ xs) y = ground (arith, find-append p xs y)

  pub count_of_find : (p : A → Bool) (xs : List A) → find p xs ≡ none → count p xs ≡ 0
  count_of_find p [] h = refl
  count_of_find p (x ∷ xs) h = ground (arith, count_of_find p xs)
