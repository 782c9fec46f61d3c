-- ===== src/RiotId/Parts.antt =====
-- What `parse_riot_id` accepts.
use Prim.Native.Char.{Char}
use text.Mathlib.TextEquality.{Char-path}
use league_of_legnds_ai_coac.Prelude.{
  ◌≡◌, refl, sym, ◌∙◌, ◌≤◌, String, true, false, ◌&&◌, Option, none, some, [], ◌∷◌, ◌++◌, length,
  any, ok, raise, arith, Bool-cases, Option-cases, inl, inr, ◌⊎◌,
}
use league_of_legnds_ai_coac.RiotId.{
  Text, chars, is_hash, strip, rpartition, fits_within, parsed, accept, parse_riot_id, hash,
  ParsedRiotId,
}
use league_of_legnds_ai_coac.Errors.{invalid_riot_id}

-- The text is `game`, a separator, and a `tag` without one.
abbrev pub IsSplit : Text → Text → Text → Type 0
IsSplit cs game tag = (cs ≡ game ++ hash ∷ tag) × (any is_hash tag ≡ false)

rpartition-none : (cs : Text) → any is_hash cs ≡ false → rpartition cs ≡ none
rpartition-none [] h = refl
rpartition-none (c ∷ cs) h = ground (arith, rpartition-none cs)

rpartition_split :
    (game tag : Text) → any is_hash tag ≡ false → rpartition (game ++ hash ∷ tag) ≡ some (game, tag)
unfolding hash
rpartition_split [] tag h = rw (rpartition-none tag h) refl
rpartition_split (c ∷ game) tag h = rw (rpartition_split game tag h) refl

none_split : (cs : Text) → rpartition cs ≡ none → any is_hash cs ≡ false
none_split [] h = refl
none_split (c ∷ cs) h = elim (Option-cases (rpartition cs)) [
  | inl e ↦ ground (arith, none_split cs e)
  | inr (p, e) ↦ absurd (ground arith)
]

is_hash-eq : (c : Char) → is_hash c ≡ true → c ≡ hash
unfolding hash
is_hash-eq c h = Char-path c (Char.char 35 tt) (ground arith)

before-IsSplit :
    (c : Char) (cs : Text) (game tag : Text)
    → rpartition (c ∷ cs) ≡ some (game, tag)
    → ((g t : Text) → rpartition cs ≡ some (g, t) → IsSplit cs g t)
    → IsSplit (c ∷ cs) game tag
before-IsSplit c cs game tag h later = elim (Option-cases (rpartition cs)) [
  | inr ((g, t), e) ↦
      let (same, free) = later g t e in
      let (is_game, is_tag) : (c ∷ g ≡ game) × (t ≡ tag) = ground arith in
      (rw (same, ← is_game, ← is_tag) refl, rw (← is_tag) free)
  | inl e ↦ elim (Bool-cases (is_hash c)) [
    | inr f ↦ absurd (ground arith)
    | inl f ↦
        let (is_game, is_tag) : ([] ≡ game) × (cs ≡ tag) = ground arith in
        (rw (← is_game, ← is_tag, is_hash-eq c f) refl, rw (← is_tag) (none_split cs e))
  ]
]

rpartition-IsSplit : (cs game tag : Text) → rpartition cs ≡ some (game, tag) → IsSplit cs game tag
rpartition-IsSplit [] game tag h = cc
rpartition-IsSplit (c ∷ cs) game tag h = before-IsSplit c cs game tag h (rpartition-IsSplit cs)

-- A name of 1 to 32 characters, a separator, and a tag of 1 to 16 characters without a separator.
pub record IsRiotId (cs game tag : Text) : Type 0 where
  pub splits : IsSplit cs game tag
  pub some_name : 1 ≤ length game
  pub short_name : length game ≤ 32
  pub some_tag : 1 ≤ length tag
  pub short_tag : length tag ≤ 16

accept_ok :
    (fold : String → String) (cs game tag : Text)
    → IsRiotId cs game tag
    → accept fold (rpartition cs) ≡ ok (parsed fold game tag)
accept_ok fold cs game tag v = rw (v.splits.0, rpartition_split game tag v.splits.1) (ground arith)

accept_inv :
    (fold : String → String) (cs : Text) {p : ParsedRiotId}
    → accept fold (rpartition cs) ≡ ok p
    → (game : Text) × (tag : Text) × IsRiotId cs game tag
accept_inv fold cs {p} h = elim (Option-cases (rpartition cs)) [
  | inl e ↦ absurd (ground arith)
  | inr ((game, tag), e) ↦ elim (Bool-cases (fits_within 32 game && fits_within 16 tag)) [
    | inr f ↦ absurd (ground arith)
    | inl f ↦ (
      game,
      tag,
      record {
        splits = rpartition-IsSplit cs game tag e;
        some_name = ground arith;
        short_name = ground arith;
        some_tag = ground arith;
        short_tag = ground arith;
      },
    )
  ]
]

accept-error :
    (fold : String → String) (found : Option (Text × Text))
    → ((p : ParsedRiotId) × (accept fold found ≡ ok p))
      ⊎ (accept fold found ≡ raise invalid_riot_id)
accept-error fold none = inr refl
accept-error fold (some (game, tag)) =
    elim (Bool-cases (fits_within 32 game && fits_within 16 tag)) [
      | inl e ↦ inl (parsed fold game tag, rw e refl)
      | inr e ↦ inr (rw e refl)
    ]

-- A text is accepted exactly if, stripped, it is a name of 1 to 32 characters, a `#`, and a tag of 1
-- to 16 characters without a `#`; the parts are then the name and the tag. Any other text raises
-- the error INVALID_RIOT_ID.
pub parse_riot_id_decides :
    (fold : String → String) (value : String)
    → ((game : Text) × (tag : Text) × IsRiotId (strip (chars value)) game tag
        × (parse_riot_id fold value ≡ ok (parsed fold game tag)))
      ⊎ (((game tag : Text) → ¬ IsRiotId (strip (chars value)) game tag)
          × (parse_riot_id fold value ≡ raise invalid_riot_id))
unfolding parse_riot_id
parse_riot_id_decides fold value = elim (accept-error fold (rpartition (strip (chars value)))) [
  | inl (p, e) ↦
      let (game, tag, v) = accept_inv fold (strip (chars value)) {p = p} e in
      inl (game, tag, v, accept_ok fold (strip (chars value)) game tag v)
  | inr e ↦ inr (
    λ game tag v.
        let bad : ok (parsed fold game tag) ≡ raise invalid_riot_id =
          sym (accept_ok fold (strip (chars value)) game tag v) ∙ e in
        cc,
    e,
  )
]
