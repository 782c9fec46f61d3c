-- ===== src/Tests/Detection.antt =====
-- Concrete detections: a player of two regions' platforms, the table, and the requests.
use league_of_legnds_ai_coac.Prelude.{
  ◌≡◌, refl, ◌⊎◌, String, true, some, [], ◌∷◌, ok, raise, if◌then◌else◌, arith, inl, inr, any,
  Bool-cases,
}
use league_of_legnds_ai_coac.Errors.{player_not_found, invalid_riot_id}
use league_of_legnds_ai_coac.Routing.{
  ordered_platforms, Region, Platform, same_region, same_platform,
}
use league_of_legnds_ai_coac.RiotId.{Text, ParsedRiotId, chars, strip, parsed, parse_riot_id}
use league_of_legnds_ai_coac.RiotId.Parts.{IsRiotId, parse_riot_id_decides}
use league_of_legnds_ai_coac.Detection.{
  ambiguous, PlatformDetectionRecord, Rows, values_of, fits_columns,
}
use league_of_legnds_ai_coac.Detection.Codec.{HasStatus, IsValid}
use league_of_legnds_ai_coac.Detection.Store.{IsSoundTable}
use league_of_legnds_ai_coac.Detection.Lookup.{IsUpserted, upsert_lem}
use league_of_legnds_ai_coac.Detection.Service.{
  AccountDto, Answers, DetectionSettings, Readings, World, find_account, probe_platform,
}
use league_of_legnds_ai_coac.Detection.Service.Safe.{Owners, IsKept}
use league_of_legnds_ai_coac.Detection.Service.Exact.{platforms_of_player}
use league_of_legnds_ai_coac.Detection.Service.Found.{
  IsNarrow, is_answered, IsDetected, detect_uncached_lem,
}
use league_of_legnds_ai_coac.Detection.Service.Requests.{detect_uncached}

-- The player is on EUW1 and TR1; only EUROPE has the account.
abbrev account : AccountDto
account = record { puuid = "p-1"; game_name = "Ahri"; tag_line = "FOX" }

abbrev answers : Answers String
answers = record {
  get_account_by_riot_id_in_region = λ region game tag.
      if same_region region Region.europe then ok account else raise player_not_found;
  get_summoner_by_puuid = λ platform puuid.
      if any (same_platform platform) (Platform.euw1 ∷ Platform.tr1 ∷ [])
      then ok (record { puuid = puuid })
      else raise player_not_found;
  get_by_puuid = λ platform puuid. ok puuid;
  completion = Platform.kr ∷ Platform.euw1 ∷ [];
}

abbrev settings : DetectionSettings
settings = record {
  detection_ttl_seconds = 3600;
  not_found_ttl_seconds = 60;
  confirmation_ttl_seconds = 600;
  primary_region = Region.asia;
}

abbrev at : Readings
at = record { started_at = 10; fetched_at = 20; expiry_from = 30; new_id = 7 }

abbrev fold : String → String
fold s = s

abbrev ahri : ParsedRiotId
ahri = record { game_name = "Ahri"; tag_line = "FOX"; game_name_key = "Ahri"; tag_line_key = "FOX" }

abbrev stored : PlatformDetectionRecord
stored = record {
  id = 5;
  game_name_key = "Ahri";
  tag_line_key = "FOX";
  canonical_game_name = some "Ahri";
  canonical_tag_line = some "FOX";
  puuid = some "p-1";
  status = ambiguous;
  candidate_platforms = Platform.euw1 ∷ Platform.tr1 ∷ [];
  fetched_at = 20;
  expires_at = 3600000020;
  confirmation_expires_at = some 600000020;
}

stored-IsValid : IsValid stored
unfolding HasStatus
stored-IsValid = record {
  fits = (refl, omega arith, refl);
  ordered = ((omega arith, tt), (tt, tt));
}

abbrev table : Rows
table = values_of stored ∷ []

table-IsSound : IsSoundTable table
unfolding values_of
table-IsSound = record {
  all_stored = (record { stored = stored; valid = stored-IsValid; same = refl }, tt);
  keys_once = λ g t. ground arith;
  ids_once = λ k. ground arith;
}

-- The pair of keys is drawn for both keys of rows.
abbrev owners : Owners
owners = record { game = λ k. "Ahri"; tag = λ k. "FOX" }

table-IsKept : IsKept owners table
unfolding values_of
table-IsKept = record { sound = table-IsSound; owned = ((refl, refl), tt) }

abbrev later_record : PlatformDetectionRecord
later_record = record stored { id = 9; expires_at = 7200000000 }

later_record-IsValid : IsValid later_record
unfolding HasStatus
later_record-IsValid = record {
  fits = (refl, omega arith, refl);
  ordered = ((omega arith, tt), (tt, tt));
}

parse_riot_id_decides_example :
    ((game : Text) × (tag : Text) × IsRiotId (strip (chars " Ahri#FOX ")) game tag
      × (parse_riot_id fold " Ahri#FOX " ≡ ok (parsed fold game tag)))
    ⊎ (((game tag : Text) → ¬ IsRiotId (strip (chars " Ahri#FOX ")) game tag)
        × (parse_riot_id fold " Ahri#FOX " ≡ raise invalid_riot_id))
parse_riot_id_decides_example = parse_riot_id_decides fold " Ahri#FOX "

later_fits : fits_columns (values_of later_record) ≡ true
unfolding fits_columns values_of
later_fits = refl

upsert_lem_example : IsUpserted later_record table
unfolding values_of
upsert_lem_example =
    upsert_lem later_record table later_record-IsValid later_fits table-IsSound (λ absent. refl)

abbrev start : World
start = record { rows = table; turn = 0 }

found_ahri : find_account answers Region.asia ahri ≡ ok (some account)
unfolding find_account
found_ahri = refl

answered : (p : Platform) → is_answered (probe_platform answers "p-1" p) ≡ true
answered p = elim (Bool-cases (any (same_platform p) (Platform.euw1 ∷ Platform.tr1 ∷ []))) [
  | inl e ↦ rw e refl
  | inr e ↦ rw e refl
]

ahri-IsNarrow : IsNarrow ahri account
ahri-IsNarrow = record {
  game_key = omega arith;
  tag_key = omega arith;
  game_name = omega arith;
  tag_line = omega arith;
  puuid = omega arith;
}

detect_uncached_lem_example :
    (r : PlatformDetectionRecord) × (w' : World) × (detect_uncached
        (λ n rows. rows)
        settings
        answers
        at
        ahri
        start
      ≡ (ok r, w'))
    × IsDetected settings at ahri (platforms_of_player answers "p-1") r w'.rows
detect_uncached_lem_example =
    detect_uncached_lem owners (λ n rows. rows) (λ n rows k. k) settings at ahri account
      (refl, refl) ahri-IsNarrow answers start found_ahri answered table-IsKept

on_both : platforms_of_player answers "p-1" ≡ Platform.euw1 ∷ Platform.tr1 ∷ []
unfolding platforms_of_player ordered_platforms
on_both = refl
