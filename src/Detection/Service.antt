-- ===== src/Detection/Service.antt =====
-- The service: backend/app/services/platform_detection.py. The gateway and the player service are
-- the interface `Answers`; `others` is what other sessions do to the table before a transaction.
-- Metrics and the sharing of one detection by requests that overlap are left out.
pub mod Requests
pub mod Safe
pub mod Built
pub mod Transactions
pub mod Detect
pub mod Exact
pub mod Found
pub mod Confirmed
use league_of_legnds_ai_coac.Prelude.{
  ℕ, suc, ◌+◌, ◌*◌, String, Bool, true, false, not, ◌&&◌, ◌||◌, Option, none, some, List, [], ◌∷◌,
  length, any, filter, leb, ◌==◌, str_eq, if◌then◌else◌, Outcome, ok, raise,
}
use league_of_legnds_ai_coac.Errors.{
  ApiError, has_code, invalid_response, player_not_found, riot_platform_detection_unavailable,
  platform_confirmation_expired, invalid_platform_selection,
}
use league_of_legnds_ai_coac.Routing.{
  Region, Platform, same_region, same_platform, ordered_platforms, detection_probe_platforms,
  display_name_for,
}
use league_of_legnds_ai_coac.RiotId.{ParsedRiotId, parse_riot_id, riot_id, chars}
use league_of_legnds_ai_coac.Detection.{
  DetectionStatus, resolved, ambiguous, not_found, PlatformDetectionRecord, StoreError, Rows,
  platform_detection_record, upsert, get_fresh, get_for_confirmation, delete,
}

pub record AccountDto : Type 0 where
  pub puuid : String
  pub game_name : String
  pub tag_line : String

-- What the service reads of a `SummonerDto`.
pub record SummonerDto : Type 0 where
  pub puuid : String

pub data Locale : Type 0 where
  zh_cn en_us : Locale

abbrev pub locale_value : Locale → String
locale_value zh_cn = "zh-CN"
locale_value en_us = "en-US"

-- `DetectionGateway` and `DetectionPlayerService`: what they answer while a request runs, and the
-- order in which the probes that run at the same time end.
pub record Answers (View : Type 0) : Type 0 where
  pub get_account_by_riot_id_in_region : Region → String → String → Outcome ApiError AccountDto
  pub get_summoner_by_puuid : Platform → String → Outcome ApiError SummonerDto
  pub get_by_puuid : Platform → String → Outcome ApiError View
  pub completion : List Platform

pub record DetectionSettings : Type 0 where
  pub detection_ttl_seconds : ℕ
  pub not_found_ttl_seconds : ℕ
  pub confirmation_ttl_seconds : ℕ
  pub primary_region : Region

-- The readings of the clock, and the key that a new record draws.
pub record Readings : Type 0 where
  pub started_at : ℕ
  pub fetched_at : ℕ
  pub expiry_from : ℕ
  pub new_id : ℕ

abbrev pub later : ℕ → ℕ → ℕ
later now seconds = now + 1000000 * seconds

pub data Failure : Type 0 where
  api_error : ApiError → Failure
  store_error : StoreError → Failure
  unsupported_locale : Failure

pub record CandidateView : Type 0 where
  pub platform : Platform
  pub display_name : String

pub data DetectionResult (View : Type 0) : Type 0 where
  resolved_detection : View → DetectionResult View
  confirmation_required : ℕ → ℕ → List CandidateView → DetectionResult View

pub record World : Type 0 where
  pub rows : Rows
  pub turn : ℕ

abbrev pub Call : Type 0 → Type 0
Call A = World → Outcome Failure A × World

abbrev pub continue :
    {A B : Type 0} → Outcome Failure A × World → (A → Call B) → Outcome Failure B × World
continue (ok a, w) f = f a w
continue (raise e, w) f = (raise e, w)

infixl 5 ◌>>=◌ ◌>>◌
unfoldable pub ◌>>=◌ : {A B : Type 0} → Call A → (A → Call B) → Call B
◌>>=◌ m f w = continue (m w) f

abbrev pub ◌>>◌ : {B : Type 0} → Call (Unit {0}) → Call B → Call B
m >> k = m >>= λ _. k

abbrev pub mapped : {A E : Type 0} → (E → Failure) → Outcome E A → Outcome Failure A
mapped f (ok a) = ok a
mapped f (raise e) = raise (f e)

-- A result, or an exception, that leaves the table alone.
unfoldable pub lift : {A E : Type 0} → (E → Failure) → Outcome E A → Call A
lift f o w = (mapped f o, w)

unfoldable pub returns : {A : Type 0} → A → Call A
returns a w = (ok a, w)

unfoldable pub fails : {A : Type 0} → ApiError → Call A
fails e w = (raise (api_error e), w)

abbrev pub ended : {A : Type 0} → ℕ → Outcome StoreError A × Rows → Outcome Failure A × World
ended turn (o, rows) = (mapped store_error o, record { rows = rows; turn = turn })

-- A transaction of the repository, after what other sessions do.
unfoldable pub transact :
    {A : Type 0} → (ℕ → Rows → Rows) → (Rows → Outcome StoreError A × Rows) → Call A
transact others f w = ended (suc w.turn) (f (others w.turn w.rows))

-- `_REGION_FALLBACK_ORDER`
abbrev pub region_fallback_order : List Region
region_fallback_order = Region.americas ∷ Region.asia ∷ Region.europe ∷ Region.sea ∷ []

-- `_region_order`
unfoldable pub region_order : Region → List Region
region_order primary =
    primary ∷ filter (λ region. not (same_region region primary)) region_fallback_order

-- The `except` clause of the loop: the next region is asked only where the player is not found.
abbrev pub or_next :
    Outcome ApiError AccountDto
    → Outcome ApiError (Option AccountDto)
    → Outcome ApiError (Option AccountDto)
or_next (ok account) rest = ok (some account)
or_next (raise e) rest = if has_code "PLAYER_NOT_FOUND" e then rest else raise e

-- `_PROBE_AVAILABILITY_CODES`
abbrev pub is_availability : ApiError → Bool
is_availability e = has_code "RIOT_RATE_LIMITED" e || has_code "RIOT_UNAVAILABLE" e

abbrev pub probed :
    Platform → String → Outcome ApiError SummonerDto → Outcome ApiError (Option Platform)
probed platform puuid (ok summoner) =
    if str_eq summoner.puuid puuid then ok (some platform) else raise invalid_response
probed platform puuid (raise e) = if has_code "PLAYER_NOT_FOUND" e then ok none else raise e

abbrev pub or_failure : Outcome ApiError (Option Platform) → Option ApiError → Option ApiError
or_failure (ok found) rest = rest
or_failure (raise e) rest = some e

abbrev pub is_found : Outcome ApiError (Option Platform) → Bool
is_found (ok (some platform)) = true
is_found _ = false

abbrev pub gathered : Option ApiError → List Platform → Outcome ApiError (List Platform)
gathered none platforms = ok platforms
gathered (some e) platforms = raise e

module _ {View : Type 0} (answers : Answers View) where
  abbrev pub find_account_in : ParsedRiotId → List Region → Outcome ApiError (Option AccountDto)
  find_account_in parsed [] = ok none
  find_account_in parsed (region ∷ regions) =
      or_next (answers.get_account_by_riot_id_in_region region parsed.game_name parsed.tag_line)
        (find_account_in parsed regions)

  -- `_find_account`
  unfoldable pub find_account : Region → ParsedRiotId → Outcome ApiError (Option AccountDto)
  unfolding region_order
  find_account primary parsed = find_account_in parsed (region_order primary)

  -- `_probe_platform`
  abbrev pub probe_platform : String → Platform → Outcome ApiError (Option Platform)
  probe_platform puuid platform =
      probed platform puuid (answers.get_summoner_by_puuid platform puuid)

  -- The failure of the probe that fails first.
  abbrev pub first_failure : String → List Platform → Option ApiError
  first_failure puuid [] = none
  first_failure puuid (platform ∷ platforms) =
      or_failure (probe_platform puuid platform) (first_failure puuid platforms)

  -- `_probe_platforms`: `gather` raises the failure that comes first in time; without one the
  -- platforms that are found stand in the order of the tasks.
  unfoldable pub probe_platforms : String → Outcome ApiError (List Platform)
  probe_platforms puuid =
      gathered (first_failure puuid answers.completion)
        (filter (λ platform. is_found (probe_platform puuid platform)) detection_probe_platforms)

abbrev pub unavailable : Outcome ApiError (List Platform) → Outcome ApiError (List Platform)
unavailable (ok candidates) = ok candidates
unavailable (raise e) =
    raise (if is_availability e then riot_platform_detection_unavailable (some e) else e)

abbrev pub not_found_record : ParsedRiotId → ℕ → ℕ → ℕ → PlatformDetectionRecord
not_found_record parsed new_id fetched_at expires_at = record {
  id = new_id;
  game_name_key = parsed.game_name_key;
  tag_line_key = parsed.tag_line_key;
  canonical_game_name = none;
  canonical_tag_line = none;
  puuid = none;
  status = not_found;
  candidate_platforms = [];
  fetched_at = fetched_at;
  expires_at = expires_at;
  confirmation_expires_at = none;
}

unfoldable pub in_order : List Platform → List Platform
in_order candidates = filter (λ platform. any (same_platform platform) candidates) ordered_platforms

abbrev pub found_status : List Platform → DetectionStatus
found_status candidates = if length candidates == 1 then resolved else ambiguous

abbrev pub confirmation_expiry : DetectionStatus → ℕ → Option ℕ
confirmation_expiry ambiguous at = some at
confirmation_expiry _ at = none

abbrev pub found_record :
    DetectionSettings → ParsedRiotId → AccountDto → List Platform → ℕ → ℕ → PlatformDetectionRecord
found_record settings parsed account ordered new_id now = record {
  id = new_id;
  game_name_key = parsed.game_name_key;
  tag_line_key = parsed.tag_line_key;
  canonical_game_name = some account.game_name;
  canonical_tag_line = some account.tag_line;
  puuid = some account.puuid;
  status = found_status ordered;
  candidate_platforms = ordered;
  fetched_at = now;
  expires_at = later now settings.detection_ttl_seconds;
  confirmation_expires_at =
      confirmation_expiry (found_status ordered) (later now settings.confirmation_ttl_seconds);
}
