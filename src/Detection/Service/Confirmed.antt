-- ===== src/Detection/Service/Confirmed.antt =====
-- Which confirmations are answered.
use league_of_legnds_ai_coac.Prelude.{
  ℕ, ◌≡◌, ap, ◌<◌, ◌⊎◌, String, Bool, true, ◌&&◌, Option, none, some, any, find, Outcome, ok, raise,
  if◌then◌else◌, ltb,
}
use league_of_legnds_ai_coac.Errors.{ApiError}
use league_of_legnds_ai_coac.Routing.{Platform, same_platform}
use league_of_legnds_ai_coac.Detection.{
  PlatformDetectionRecord, PlatformDetectionRow, StoreError, Rows, has_id, is_after, to_record,
}
use league_of_legnds_ai_coac.Detection.Codec.{IsValid}
use league_of_legnds_ai_coac.Detection.Service.{
  SummonerDto, Locale, Answers, DetectionSettings, Readings, Failure, World, DetectionResult,
  resolved_detection,
}
use league_of_legnds_ai_coac.Detection.Service.Exact.{says_not_found}

-- A record under the key that is not out of date, and whose confirmation is not either.
pub record IsLive (detection_id now : ℕ) (r : PlatformDetectionRecord) : Type 0 where
  pub key : r.id ≡ detection_id
  pub fresh : now < r.expires_at
  pub open_until : is_after now r.confirmation_expires_at ≡ true
  pub valid : IsValid r

abbrev is_confirmable : ℕ → PlatformDetectionRow → Bool
is_confirmable now row = ltb now row.expires_at && is_after now row.confirmation_expires_at

readable :
    Outcome StoreError PlatformDetectionRecord → Outcome StoreError (Option PlatformDetectionRecord)
readable (ok r) = ok (some r)
readable (raise e) = raise e

live_entry : ℕ → Option PlatformDetectionRow → Outcome StoreError (Option PlatformDetectionRecord)
live_entry now none = ok none
live_entry now (some row) = if is_confirmable now row then readable (to_record row) else ok none

-- The row under the key, of which the record is read.
pub record IsRead (k : ℕ) (rows : Rows) (r : PlatformDetectionRecord) : Type 0 where
  pub row : PlatformDetectionRow
  pub found : find (has_id k) rows ≡ some row
  pub read : to_record row ≡ ok r

-- What stands behind an answer to a confirmation.
pub record IsConfirmed {View : Type 0} (answers : Answers View) (detection_id now : ℕ)
    (platform : Platform) (result : DetectionResult View) (rows : Rows)
    (r : PlatformDetectionRecord) : Type 0 where
  pub stored : IsRead detection_id rows r
  pub live : IsLive detection_id now r
  pub candidate : any (same_platform platform) r.candidate_platforms ≡ true
  pub puuid : String
  pub of_record : r.puuid ≡ some puuid
  pub asked :
      ((view : View) × (result ≡ resolved_detection view)
        × (answers.get_by_puuid platform puuid ≡ ok view)
        × (summoner : SummonerDto) × (answers.get_summoner_by_puuid platform puuid ≡ ok summoner)
        × (summoner.puuid ≡ puuid))
      ⊎ (says_not_found (answers.get_summoner_by_puuid platform puuid) ≡ true)

raised :
    {A : Type 0} {e : Failure} {a : A} {v w : World}
    → ◌≡◌ {A = Outcome Failure A × World} (raise e, v) (ok a, w)
    → ⊥
raised h = let first = ap (λ x. x.0) h in cc

module _ {View : Type 0} (others : ℕ → Rows → Rows) (settings : DetectionSettings)
    (fold : String → String) (answers next : Answers View) (now : ℕ) (at : Readings)
    (detection_id : ℕ) (platform : Platform) (locale : Locale) where
  abbrev Asked : String → Outcome ApiError SummonerDto → DetectionResult View → Type 0
  Asked puuid asked result =
      ((view : View) × (result ≡ resolved_detection view)
        × (answers.get_by_puuid platform puuid ≡ ok view)
        × (summoner : SummonerDto) × (asked ≡ ok summoner)
        × (summoner.puuid ≡ puuid))
      ⊎ (says_not_found asked ≡ true)
