-- ===== src/Detection/Service/Requests.antt =====
-- The requests `detect` and `confirm` of backend/app/services/platform_detection.py.
use league_of_legnds_ai_coac.Prelude.{
  ℕ, String, Bool, true, false, not, ◌&&◌, Option, none, some, List, [], ◌∷◌, any, leb, str_eq,
  if◌then◌else◌, Outcome, ok, raise,
}
use league_of_legnds_ai_coac.Errors.{
  ApiError, has_code, invalid_response, player_not_found, platform_confirmation_expired,
  invalid_platform_selection,
}
use league_of_legnds_ai_coac.Routing.{Platform, same_platform, display_name_for}
use league_of_legnds_ai_coac.RiotId.{ParsedRiotId, parse_riot_id, riot_id, chars}
use league_of_legnds_ai_coac.Detection.{
  DetectionStatus, resolved, ambiguous, not_found, PlatformDetectionRecord, Rows,
  platform_detection_record, upsert, get_fresh, get_for_confirmation, delete,
}
use league_of_legnds_ai_coac.Detection.Service.{
  AccountDto, SummonerDto, Locale, locale_value, Answers, DetectionSettings, Readings, later,
  Failure, api_error, store_error, unsupported_locale, CandidateView, DetectionResult,
  resolved_detection, confirmation_required, Call, ◌>>=◌, ◌>>◌, lift, returns, fails, transact,
  find_account, probe_platforms, unavailable, not_found_record, in_order, found_record,
}

-- The record is built, which checks it, and written.
unfoldable pub save : (ℕ → Rows → Rows) → PlatformDetectionRecord → Call PlatformDetectionRecord
save others r = do
  built ← lift store_error (platform_detection_record r)
  transact others (upsert built)

abbrev pub save_found :
    (ℕ → Rows → Rows)
    → DetectionSettings
    → Readings
    → ParsedRiotId
    → AccountDto
    → List Platform
    → Call PlatformDetectionRecord
save_found others settings at parsed account [] = save others (
    not_found_record parsed at.new_id at.fetched_at
      (later at.fetched_at settings.not_found_ttl_seconds))
save_found others settings at parsed account (p ∷ ps) =
    save others (found_record settings parsed account (in_order (p ∷ ps)) at.new_id at.fetched_at)

abbrev pub is_overdue : ℕ → Option ℕ → Bool
is_overdue now none = false
is_overdue now (some at) = leb at now

abbrev pub is_ambiguous : DetectionStatus → Bool
is_ambiguous ambiguous = true
is_ambiguous _ = false

abbrev pub named :
    Platform → Option String → List CandidateView → Outcome Failure (List CandidateView)
named platform none rest = raise unsupported_locale
named platform (some name) rest = ok (record { platform = platform; display_name = name } ∷ rest)

abbrev pub named_all : String → List Platform → Outcome Failure (List CandidateView)
named_all locale [] = ok []
named_all locale (platform ∷ platforms) = elim (named_all locale platforms) [
  | raise e ↦ raise e
  | ok rest ↦ named platform (display_name_for platform locale) rest
]

-- The candidates that are shown for an ambiguous record.
unfoldable pub candidate_views : Locale → List Platform → Outcome Failure (List CandidateView)
candidate_views locale candidates = named_all (locale_value locale) (in_order candidates)

-- A record that is read again: a confirmation that has run out gets a new end.
abbrev pub refreshed :
    (ℕ → Rows → Rows)
    → DetectionSettings
    → ℕ
    → PlatformDetectionRecord
    → Call PlatformDetectionRecord
refreshed others settings now r =
    if is_ambiguous r.status && is_overdue now r.confirmation_expires_at
    then save others
        (record r { confirmation_expires_at = some (later now settings.confirmation_ttl_seconds) })
    else returns r

module _ {View : Type 0} where
  abbrev pub resolve : Answers View → List Platform → Option String → Call (DetectionResult View)
  resolve answers (platform ∷ []) (some puuid) = do
    view ← lift api_error (answers.get_by_puuid platform puuid)
    returns (resolved_detection view)
  resolve answers _ _ = fails invalid_response

  abbrev pub ask : Locale → PlatformDetectionRecord → Option ℕ → Call (DetectionResult View)
  ask locale r none = fails invalid_response
  ask locale r (some expires_at) = do
    views ← lift (λ e. e) (candidate_views locale r.candidate_platforms)
    returns (confirmation_required r.id expires_at views)

  abbrev pub result_by :
      Answers View
      → Locale
      → PlatformDetectionRecord
      → DetectionStatus
      → Call (DetectionResult View)
  result_by answers locale r not_found = fails player_not_found
  result_by answers locale r resolved = resolve answers r.candidate_platforms r.puuid
  result_by answers locale r ambiguous = ask locale r r.confirmation_expires_at

  -- `_result_for`
  unfoldable pub result_for :
      Answers View → Locale → PlatformDetectionRecord → Call (DetectionResult View)
  unfolding candidate_views
  result_for answers locale r = result_by answers locale r r.status

module _ {View : Type 0} (others : ℕ → Rows → Rows) (settings : DetectionSettings) where
  abbrev pub detect_account :
      Answers View → Readings → ParsedRiotId → Option AccountDto → Call PlatformDetectionRecord
  detect_account answers at parsed none = save others (
      not_found_record parsed at.new_id at.fetched_at
        (later at.expiry_from settings.not_found_ttl_seconds))
  detect_account answers at parsed (some account) = do
    candidates ← lift api_error (unavailable (probe_platforms answers account.puuid))
    save_found others settings at parsed account candidates

  unfoldable pub detect_uncached :
      Answers View → Readings → ParsedRiotId → Call PlatformDetectionRecord
  unfolding save find_account probe_platforms in_order
  detect_uncached answers at parsed = do
    account ← lift api_error (find_account answers settings.primary_region parsed)
    detect_account answers at parsed account

  abbrev pub hit_or_miss :
      Answers View
      → Readings
      → ParsedRiotId
      → Option PlatformDetectionRecord
      → Call PlatformDetectionRecord
  hit_or_miss answers at parsed none = detect_uncached answers at parsed
  hit_or_miss answers at parsed (some r) = refreshed others settings at.started_at r

  -- The record that `detect` answers with.
  unfoldable pub detect_record :
      Answers View → Readings → ParsedRiotId → Call PlatformDetectionRecord
  unfolding detect_uncached
  detect_record answers at parsed = do
    fresh ←
        transact others
          (λ rows. (get_fresh parsed.game_name_key parsed.tag_line_key at.started_at rows, rows))
    hit_or_miss answers at parsed fresh

  unfoldable pub detect :
      (String → String) → Answers View → Readings → String → Locale → Call (DetectionResult View)
  unfolding detect_record result_for
  detect fold answers at value locale = do
    parsed ← lift api_error (parse_riot_id fold value)
    r ← detect_record answers at parsed
    result_for answers locale r

  abbrev pub detect_again :
      (String → String)
      → Answers View
      → Readings
      → Locale
      → Option String
      → Option String
      → Call (DetectionResult View)
  detect_again fold answers at locale (some name) (some tag) =
      detect fold answers at (riot_id (chars name) (chars tag)) locale
  detect_again fold answers at locale _ _ = fails invalid_response

  abbrev pub confirm_with :
      ℕ
      → (String → String)
      → Answers View
      → Answers View
      → Readings
      → Platform
      → Locale
      → PlatformDetectionRecord
      → String
      → Outcome ApiError SummonerDto
      → Call (DetectionResult View)
  confirm_with detection_id fold answers next at platform locale r puuid (raise e) =
      if not (has_code "PLAYER_NOT_FOUND" e)
      then fails e
      else (transact others (λ rows. (ok tt, delete detection_id rows))
          >> detect_again fold next at locale r.canonical_game_name r.canonical_tag_line)
  confirm_with detection_id fold answers next at platform locale r puuid (ok summoner) =
      if not (str_eq summoner.puuid puuid)
      then fails invalid_response
      else (lift api_error (answers.get_by_puuid platform puuid) >>= λ view.
          returns (resolved_detection view))

  abbrev pub confirm_player :
      ℕ
      → (String → String)
      → Answers View
      → Answers View
      → Readings
      → Platform
      → Locale
      → PlatformDetectionRecord
      → Option String
      → Call (DetectionResult View)
  confirm_player detection_id fold answers next at platform locale r none = fails invalid_response
  confirm_player detection_id fold answers next at platform locale r (some puuid) =
      confirm_with detection_id fold answers next at platform locale r puuid
        (answers.get_summoner_by_puuid platform puuid)

  abbrev pub confirm_candidate :
      ℕ
      → (String → String)
      → Answers View
      → Answers View
      → Readings
      → Platform
      → Locale
      → Option PlatformDetectionRecord
      → Call (DetectionResult View)
  confirm_candidate detection_id fold answers next at platform locale none =
      fails platform_confirmation_expired
  confirm_candidate detection_id fold answers next at platform locale (some r) =
      if not (any (same_platform platform) r.candidate_platforms)
      then fails invalid_platform_selection
      else confirm_player detection_id fold answers next at platform locale r r.puuid

  -- `next` is what the gateway answers if the players of the record are looked for again, with the
  -- readings `at`; `now` is the reading of the confirmation itself.
  unfoldable pub confirm :
      (String → String)
      → Answers View
      → Answers View
      → ℕ
      → Readings
      → ℕ
      → Platform
      → Locale
      → Call (DetectionResult View)
  unfolding detect
  confirm fold answers next now at detection_id platform locale = do
    found ← transact others (λ rows. (get_for_confirmation detection_id now rows, rows))
    confirm_candidate detection_id fold answers next at platform locale found
