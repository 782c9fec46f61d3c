-- ===== src/RiotId.antt =====
-- Riot IDs as the user types them: backend/app/services/parsing/players.py and
-- backend/app/core/normalization.py. `fold` is the NFKC normalization and case folding of the library.
pub mod Parts
use Prim.Native.Char.{Char, code}
use Prim.Native.String
use league_of_legnds_ai_coac.Prelude.{
  ℕ, String, Bool, true, false, ◌&&◌, ◌||◌, Option, none, some, List, [], ◌∷◌, ◌++◌, length, leb,
  ◌==◌, if◌then◌else◌, Outcome, ok, raise,
}
use league_of_legnds_ai_coac.Errors.{ApiError, invalid_riot_id}

abbrev pub Text : Type 0
Text = List Char

abbrev pub chars : String → Text
chars String.[] = []
chars (String.◌∷◌ c s) = c ∷ chars s

abbrev pub string : Text → String
string [] = String.[]
string (c ∷ cs) = String.◌∷◌ c (string cs)

-- `str.isspace`: the characters that `strip` takes away.
unfoldable pub is_space : Char → Bool
is_space c =
    leb 9 (code c) && leb (code c) 13
    || leb 28 (code c) && leb (code c) 32
    || code c == 133
    || code c == 160
    || code c == 5760
    || leb 8192 (code c) && leb (code c) 8202
    || code c == 8232
    || code c == 8233
    || code c == 8239
    || code c == 8287
    || code c == 12288

abbrev pub is_hash : Char → Bool
is_hash c = code c == 35

abbrev pub lstrip : Text → Text
lstrip [] = []
lstrip (c ∷ cs) = let rest = lstrip cs in if is_space c then rest else c ∷ cs

abbrev pub is_blank : Text → Bool
is_blank [] = true
is_blank (c ∷ cs) = is_space c && is_blank cs

abbrev pub rstrip : Text → Text
rstrip [] = []
rstrip (c ∷ cs) = let rest = rstrip cs in if is_blank (c ∷ cs) then [] else c ∷ rest

abbrev pub strip : Text → Text
strip cs = rstrip (lstrip cs)

abbrev pub before : Char → Option (Text × Text) → Text → Option (Text × Text)
before c (some (game, tag)) cs = some (c ∷ game, tag)
before c none cs = if is_hash c then some ([], cs) else none

-- `rpartition("#")`: what stands before and after the last separator.
abbrev pub rpartition : Text → Option (Text × Text)
rpartition [] = none
rpartition (c ∷ cs) = before c (rpartition cs) cs

pub record ParsedRiotId : Type 0 where
  pub game_name : String
  pub tag_line : String
  pub game_name_key : String
  pub tag_line_key : String

unfoldable pub lookup_key : (String → String) → Text → String
lookup_key fold value = fold (string (strip value))

abbrev pub fits_within : ℕ → Text → Bool
fits_within limit part = leb 1 (length part) && leb (length part) limit

unfoldable pub parsed : (String → String) → Text → Text → ParsedRiotId
unfolding lookup_key
parsed fold game tag = record {
  game_name = string game;
  tag_line = string tag;
  game_name_key = lookup_key fold game;
  tag_line_key = lookup_key fold tag;
}

abbrev pub accept : (String → String) → Option (Text × Text) → Outcome ApiError ParsedRiotId
accept fold none = raise invalid_riot_id
accept fold (some (game, tag)) =
    if fits_within 32 game && fits_within 16 tag
    then ok (parsed fold game tag)
    else raise invalid_riot_id

unfoldable pub parse_riot_id : (String → String) → String → Outcome ApiError ParsedRiotId
unfolding parsed is_space
parse_riot_id fold value = accept fold (rpartition (strip (chars value)))

-- `f"{game}#{tag}"`
unfoldable pub hash : Char
hash = Char.char 35 tt

unfoldable pub riot_id : Text → Text → String
unfolding hash
riot_id game tag = string (game ++ hash ∷ tag)
