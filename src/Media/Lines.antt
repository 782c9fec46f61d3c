-- ===== src/Media/Lines.antt =====
-- The lines of an output, however it is cut into chunks.
use league_of_legnds_ai_coac.Prelude.{
  ℕ, ◌≡◌, refl, ◌∙◌, ap, Bool, false, List, [], ◌∷◌, ◌++◌, any, if◌then◌else◌, arith, Bool-cases,
  inl, inr,
}
use league_of_legnds_ai_coac.Media.{Bytes, is_newline, take_lines, last_line, read_chunks}
use league_of_legnds_ai_coac.Media.Buffers.{concat, append_assoc, append_nil}

-- What is held goes before the first line.
abbrev pub extend : Bytes → List Bytes → List Bytes
extend held [] = last_line held
extend held (line ∷ lines) = (held ++ line) ∷ lines

-- The lines of a text: the pieces between separators, without an empty one at the end.
abbrev pub lines_of : Bytes → List Bytes
lines_of [] = []
lines_of (byte ∷ bytes) =
    let rest = lines_of bytes in if is_newline byte then [] ∷ rest else extend (byte ∷ []) rest

abbrev pub has_newline : Bytes → Bool
has_newline bytes = any is_newline bytes

last_line_snoc : (held : Bytes) (b : ℕ) → last_line (held ++ b ∷ []) ≡ (held ++ b ∷ []) ∷ []
last_line_snoc [] b = refl
last_line_snoc (x ∷ xs) b = refl

extend_snoc :
    (held : Bytes) (b : ℕ) (lines : List Bytes)
    → extend (held ++ b ∷ []) lines ≡ extend held (extend (b ∷ []) lines)
extend_snoc held b [] = last_line_snoc held b
extend_snoc held b (line ∷ lines) = rw (append_assoc held (b ∷ []) line) refl

extend_nil : (lines : List Bytes) → extend [] lines ≡ lines
extend_nil [] = refl
extend_nil (line ∷ lines) = refl

take_lines-lines_of :
    (held xs ys : Bytes)
    → (take_lines held xs).0 ++ extend (take_lines held xs).1 (lines_of ys)
      ≡ extend held (lines_of (xs ++ ys))
take_lines-lines_of held [] ys = refl
take_lines-lines_of held (x ∷ xs) ys = elim (Bool-cases (is_newline x)) [
  | inl e ↦
      rw (e, append_nil held)
        (ap (λ t. held ∷ t) (take_lines-lines_of [] xs ys ∙ extend_nil (lines_of (xs ++ ys))))
  | inr e ↦
      rw e (take_lines-lines_of (held ++ x ∷ []) xs ys ∙ extend_snoc held x (lines_of (xs ++ ys)))
]

has_newline-snoc :
    (held : Bytes) (b : ℕ)
    → has_newline held ≡ false
    → is_newline b ≡ false
    → has_newline (held ++ b ∷ []) ≡ false
has_newline-snoc [] b h e = ground arith
has_newline-snoc (x ∷ xs) b h e = ground (arith, has_newline-snoc xs b)

rest_has_none :
    (held xs : Bytes) → has_newline held ≡ false → has_newline (take_lines held xs).1 ≡ false
rest_has_none held [] h = h
rest_has_none held (x ∷ xs) h = elim (Bool-cases (is_newline x)) [
  | inl e ↦ rw e (rest_has_none [] xs refl)
  | inr e ↦ rw e (rest_has_none (held ++ x ∷ []) xs (has_newline-snoc held x h e))
]

take_lines_held :
    (held buffer xs : Bytes)
    → has_newline buffer ≡ false
    → take_lines held (buffer ++ xs) ≡ take_lines (held ++ buffer) xs
take_lines_held held [] xs h = rw (append_nil held) refl
take_lines_held held (b ∷ buffer) xs h = elim (Bool-cases (is_newline b)) [
  | inl e ↦ absurd (ground arith)
  | inr e ↦ rw e (
      take_lines_held (held ++ b ∷ []) buffer xs (ground arith)
      ∙ rw (append_assoc held (b ∷ []) buffer) refl)
]

read_chunks_from :
    (buffer : Bytes) (chunks : List Bytes)
    → has_newline buffer ≡ false
    → read_chunks buffer chunks ≡ extend buffer (lines_of (concat chunks))
read_chunks_from buffer [] h = refl
read_chunks_from buffer (chunk ∷ chunks) h = rw (take_lines_held [] buffer chunk h) (
    ap (λ t. (take_lines buffer chunk).0 ++ t)
      (read_chunks_from (take_lines buffer chunk).1 chunks (rest_has_none buffer chunk h))
    ∙ take_lines-lines_of buffer chunk (concat chunks))

-- However the output of a process is cut into chunks, the reader hands on the lines of the whole
-- output in their order: the pieces between separators, without an empty one at the end.
pub read_chunks-lines_of : (chunks : List Bytes) → read_chunks [] chunks ≡ lines_of (concat chunks)
read_chunks-lines_of chunks =
    read_chunks_from [] chunks refl ∙ extend_nil (lines_of (concat chunks))
