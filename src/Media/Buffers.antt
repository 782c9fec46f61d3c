-- ===== src/Media/Buffers.antt =====
-- Buffers hold what they promise, however the output is cut into chunks.
use league_of_legnds_ai_coac.Prelude.{
  ℕ, zero, suc, ◌≡◌, refl, sym, ◌∙◌, ap, ◌≤◌, ◌-◌, ◌+◌, List, [], ◌∷◌, ◌++◌, length, drop, ltb,
  arith, Bool-cases, inl, inr, length-append, length-drop,
}
use league_of_legnds_ai_coac.Media.{Bytes, append, append_all}

abbrev pub concat : List Bytes → Bytes
concat [] = []
concat (chunk ∷ chunks) = chunk ++ concat chunks

-- The last bytes of a text, at most so many.
abbrev pub last_bytes : ℕ → Bytes → Bytes
last_bytes n bytes = drop (length bytes - n) bytes

pub append_assoc : (xs ys zs : Bytes) → (xs ++ ys) ++ zs ≡ xs ++ (ys ++ zs)
append_assoc [] ys zs = refl
append_assoc (x ∷ xs) ys zs = ap (λ t. x ∷ t) (append_assoc xs ys zs)

pub append_nil : (xs : Bytes) → xs ++ [] ≡ xs
append_nil [] = refl
append_nil (x ∷ xs) = ap (λ t. x ∷ t) (append_nil xs)

append-last_bytes :
    (n : ℕ) (held chunk : Bytes) → append n held chunk ≡ last_bytes n (held ++ chunk)
unfolding append
append-last_bytes n held chunk = elim (Bool-cases (ltb n (length (held ++ chunk)))) [
  | inl e ↦ rw e refl
  | inr e ↦ let short : length (held ++ chunk) - n ≡ 0 = ground arith in rw (e, short) refl
]

drop-append : (n : ℕ) (xs ys : Bytes) → n ≤ length xs → drop n (xs ++ ys) ≡ drop n xs ++ ys
drop-append zero xs ys h = refl
drop-append (suc n) [] ys h = absurd (omega arith)
drop-append (suc n) (x ∷ xs) ys h = drop-append n xs ys (omega arith)

drop-nil : (n : ℕ) → ◌≡◌ {A = Bytes} (drop n []) []
drop-nil zero = refl
drop-nil (suc n) = refl

drop-drop : (m n k : ℕ) (xs : Bytes) → n + m ≡ k → drop m (drop n xs) ≡ drop k xs
drop-drop m zero k xs e = let same : m ≡ k = omega arith in rw same refl
drop-drop m (suc n) k [] e = rw (drop-nil m, drop-nil k) refl
drop-drop m (suc n) zero (x ∷ xs) e = absurd (omega arith)
drop-drop m (suc n) (suc k) (x ∷ xs) e = drop-drop m n k xs (omega arith)

-- Of a text whose front was cut off to the last bytes, the last bytes are those of the whole text.
last_bytes-append :
    (n : ℕ) (xs ys : Bytes) → last_bytes n (last_bytes n xs ++ ys) ≡ last_bytes n (xs ++ ys)
last_bytes-append n xs ys =
    let cut : last_bytes n xs ++ ys ≡ drop (length xs - n) (xs ++ ys) =
      sym (drop-append (length xs - n) xs ys (omega arith)) in
    let count : (length xs - n) + (length (drop (length xs - n) (xs ++ ys)) - n)
        ≡ length (xs ++ ys) - n =
      omega (arith, length-drop (length xs - n) (xs ++ ys), length-append xs ys) in
    rw cut (
      drop-drop (length (drop (length xs - n) (xs ++ ys)) - n) (length xs - n)
        (length (xs ++ ys) - n) (xs ++ ys) count)

append_all_from :
    (n : ℕ) (seen held : Bytes) (chunks : List Bytes)
    → held ≡ last_bytes n seen
    → append_all n held chunks ≡ last_bytes n (seen ++ concat chunks)
append_all_from n seen held [] e = rw (append_nil seen) e
append_all_from n seen held (chunk ∷ chunks) e = rw (← append_assoc seen chunk (concat chunks)) (
    append_all_from n (seen ++ chunk) (append n held chunk) chunks
      (append-last_bytes n held chunk ∙ rw e (last_bytes-append n seen chunk)))

-- However the output of a process comes in chunks, the buffer holds the last bytes of the whole
-- output, as many as it may hold, and never more.
pub append_all_lem :
    (max_bytes : ℕ) (chunks : List Bytes)
    → (append_all max_bytes [] chunks ≡ last_bytes max_bytes (concat chunks))
      × (length (append_all max_bytes [] chunks) ≤ max_bytes)
append_all_lem n chunks =
    let same : append_all n [] chunks ≡ last_bytes n (concat chunks) =
      append_all_from n [] [] chunks (sym (drop-nil (0 - n))) in
    (same, rw same (omega (arith, length-drop (length (concat chunks) - n) (concat chunks))))
