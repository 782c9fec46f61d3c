-- ===== src/Prelude/Tables.antt =====
-- Tables as lists: rows found, counted and written back under their key.
use Prim.Native.Nat.{ℕ, ◌+◌, ◌≤◌}
use mathlib.Core.Path.{◌≡◌, refl}
use mathlib.Core.Logic.{◌⊎◌, inl, inr}
use mathlib.Core.Bool.{Bool, true, false}
use mathlib.Core.List.{List, [], ◌∷◌, ◌++◌}
use mathlib.Core.Option
use mathlib.Core.Option.{Option, none, some}
use native.Mathlib.Omega.{arith}
use league_of_legnds_ai_coac.Prelude.Tests.{◌==◌, if◌then◌else◌, Bool-cases}
use league_of_legnds_ai_coac.Prelude.Lists.{find, any, filter, update_where, All, length, In}

abbrev pub bit : Bool → ℕ
bit true = 1
bit false = 0

module _ {ℓ} {A : Type ℓ} where
  -- How many rows pass the test.
  abbrev pub count : (A → Bool) → List A → ℕ
  count p [] = 0
  count p (x ∷ xs) = bit (p x) + count p xs

  pub count-append :
      (p : A → Bool) (xs : List A) (y : A) → count p (xs ++ y ∷ []) ≡ count p xs + bit (p y)
  count-append p [] y = omega arith
  count-append p (x ∷ xs) y = omega (arith, count-append p xs y)

  pub any-count : (p : A → Bool) (xs : List A) → any p xs ≡ false → count p xs ≡ 0
  any-count p [] h = refl
  any-count p (x ∷ xs) h = ground (arith, any-count p xs)

  pub any-count_pos : (p : A → Bool) (xs : List A) → any p xs ≡ true → 1 ≤ count p xs
  any-count_pos p [] h = cc
  any-count_pos p (x ∷ xs) h = ground (arith, any-count_pos p xs)

  pub count-filter-le : (p q : A → Bool) (xs : List A) → count p (filter q xs) ≤ count p xs
  count-filter-le p q [] = omega arith
  count-filter-le p q (x ∷ xs) = ground (arith, count-filter-le p q xs)

  pub All-append {κ} :
      (P : A → Type κ) (xs : List A) (y : A) → All P xs → P y → All P (xs ++ y ∷ [])
  All-append P [] y h k = (k, tt)
  All-append P (x ∷ xs) y h k = (h.0, All-append P xs y h.1 k)

  pub All-filter {κ} :
      (P : A → Type κ) (q : A → Bool) (xs : List A) → All P xs → All P (filter q xs)
  All-filter P q [] h = tt
  All-filter P q (x ∷ xs) h = elim (Bool-cases (q x)) [
    | inl e ↦ rw e (h.0, All-filter P q xs h.1)
    | inr e ↦ rw e (All-filter P q xs h.1)
  ]

  pub All-update_where {κ} :
      (P : A → Type κ) (q : A → Bool) (f : A → A) (xs : List A)
      → ((x : A) → q x ≡ true → P x → P (f x))
      → All P xs
      → All P (update_where q f xs)
  All-update_where P q f [] k h = tt
  All-update_where P q f (x ∷ xs) k h = elim (Bool-cases (q x)) [
    | inl e ↦ rw e (k x e h.0, All-update_where P q f xs k h.1)
    | inr e ↦ rw e (h.0, All-update_where P q f xs k h.1)
  ]

  pub All-find {κ} :
      (P : A → Type κ) (q : A → Bool) (xs : List A) {x : A} → find q xs ≡ some x → All P xs → P x
  All-find P q [] h k = cc
  All-find P q (y ∷ ys) {x} h k = elim (Bool-cases (q y)) [
    | inl e ↦ let same : y ≡ x = ground arith in rw same at k.0
    | inr e ↦ All-find P q ys {x = x} (rw e at h) k.1
  ]

  pub All-map {κ μ} :
      (P : A → Type κ) (Q : A → Type μ) (xs : List A) → ((x : A) → P x → Q x) → All P xs → All Q xs
  All-map P Q [] k h = tt
  All-map P Q (x ∷ xs) k h = (k x h.0, All-map P Q xs k h.1)

  -- An update that no test tells apart leaves the counts alone.
  pub count-update_where :
      (p q : A → Bool) (f : A → A) (xs : List A)
      → ((x : A) → p (f x) ≡ p x)
      → count p (update_where q f xs) ≡ count p xs
  count-update_where p q f [] k = refl
  count-update_where p q f (x ∷ xs) k = ground (arith, k x, count-update_where p q f xs k)

  pub any-update_where :
      (p q : A → Bool) (f : A → A) (xs : List A)
      → ((x : A) → p (f x) ≡ p x)
      → any p (update_where q f xs) ≡ any p xs
  any-update_where p q f [] k = refl
  any-update_where p q f (x ∷ xs) k = ground (arith, k x, any-update_where p q f xs k)

module _ {ℓ} {A : Type ℓ} (key : A → ℕ) where
  -- `key x` is the primary key; `written r xs` is the table after `r` is written under its key.
  abbrev pub has_key : ℕ → A → Bool
  has_key k x = key x == k

  abbrev pub written : A → List A → List A
  written r xs = update_where (has_key (key r)) (λ _. r) xs

  pub find-written :
      (r : A) (k : ℕ) (xs : List A)
      → find (has_key k) (written r xs)
        ≡ (if key r == k then Option.map (λ _. r) (find (has_key k) xs) else find (has_key k) xs)
  find-written r k [] = ground arith
  find-written r k (x ∷ xs) = ground (arith, find-written r k xs)

  pub any-written :
      (r : A) (k : ℕ) (xs : List A) → any (has_key k) (written r xs) ≡ any (has_key k) xs
  any-written r k [] = refl
  any-written r k (x ∷ xs) = ground (arith, any-written r k xs)

  pub count-key-written :
      (r : A) (k : ℕ) (xs : List A) → count (has_key k) (written r xs) ≡ count (has_key k) xs
  count-key-written r k [] = refl
  count-key-written r k (x ∷ xs) = ground (arith, count-key-written r k xs)

  count_absent :
      (p : A → Bool) (r : A) (xs : List A)
      → count (has_key (key r)) xs ≡ 0
      → count p (written r xs) ≡ count p xs
  count_absent p r [] h = refl
  count_absent p r (x ∷ xs) h = ground (arith, count_absent p r xs)

  -- Where the key is unique, writing a row moves every count from the old row to the new.
  pub count-written :
      (p : A → Bool) (r x : A) (xs : List A)
      → count (has_key (key r)) xs ≤ 1
      → find (has_key (key r)) xs ≡ some x
      → count p (written r xs) + bit (p x) ≡ count p xs + bit (p r)
  count-written p r x [] h e = cc
  count-written p r x (y ∷ ys) h e = ground (arith, count_absent p r ys, count-written p r x ys)

  In-any : {x : A} (xs : List A) → In x xs → 1 ≤ count (has_key (key x)) xs
  In-any [] i = elim i [ ]
  In-any (y ∷ ys) (In.here e) = ground arith
  In-any (y ∷ ys) (In.there i) = omega (arith, In-any ys i)

  -- A row that is in the table is found under its key, where that key is unique.
  pub find_of_In :
      {x : A} (xs : List A)
      → In x xs
      → count (has_key (key x)) xs ≤ 1
      → find (has_key (key x)) xs ≡ some x
  find_of_In [] i h = elim i [ ]
  find_of_In (y ∷ ys) (In.here e) h = ground arith
  find_of_In (y ∷ ys) (In.there i) h = ground (arith, In-any ys i, find_of_In ys i)

module _ {ℓ} {A : Type ℓ} where
  pub In-cons : {x y : A} {ys : List A} → In x (y ∷ ys) → (x ≡ y) ⊎ In x ys
  In-cons (In.here e) = inl e
  In-cons (In.there i) = inr i

  pub In-filter : (p : A → Bool) {x : A} (xs : List A) → In x (filter p xs) → In x xs × (p x ≡ true)
  In-filter p [] i = elim i [ ]
  In-filter p {x} (y ∷ ys) i = elim (Bool-cases (p y)) [
    | inl e ↦ elim (In-cons (rw e at i)) [
      | inl same ↦ (In.here same, rw same e)
      | inr rest ↦ let (j, t) = In-filter p {x = x} ys rest in (In.there j, t)
    ]
    | inr e ↦ let (j, t) = In-filter p {x = x} ys (rw e at i) in (In.there j, t)
  ]

  pub All-In {κ} : (P : A → Type κ) {x : A} (xs : List A) → All P xs → In x xs → P x
  All-In P [] h i = elim i [ ]
  All-In P (y ∷ ys) h (In.here e) = rw e h.0
  All-In P (y ∷ ys) h (In.there i) = All-In P ys h.1 i

  pub All-of_In {κ} : (P : A → Type κ) (xs : List A) → ((x : A) → In x xs → P x) → All P xs
  All-of_In P [] f = tt
  All-of_In P (x ∷ xs) f = (f x (In.here refl), All-of_In P xs (λ y i. f y (In.there i)))

  pub count_none : (p : A → Bool) (xs : List A) → count p xs ≡ 0 → All (λ x. p x ≡ false) xs
  count_none p [] h = tt
  count_none p (x ∷ xs) h = (ground arith, count_none p xs (ground arith))

  pub length-filter : (p : A → Bool) (xs : List A) → length (filter p xs) ≡ count p xs
  length-filter p [] = refl
  length-filter p (x ∷ xs) = ground (arith, length-filter p xs)

  pub count_mono :
      (p q : A → Bool) (xs : List A) → ((x : A) → p x ≡ true → q x ≡ true) → count p xs ≤ count q xs
  count_mono p q [] k = omega arith
  count_mono p q (x ∷ xs) k = elim (Bool-cases (p x)) [
    | inl e ↦ ground (arith, e, k x e, count_mono p q xs k)
    | inr e ↦ ground (arith, e, count_mono p q xs k)
  ]
