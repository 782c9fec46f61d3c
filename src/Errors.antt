-- ===== src/Errors.antt =====
-- The API errors of backend/app/core/errors.py that the detection of platforms raises or reads.
use league_of_legnds_ai_coac.Prelude.{ℕ, String, Bool, true, false, Option, none, some, [], str_eq}
use league_of_legnds_ai_coac.Prelude.Dict.{Dict}

-- The parameters and headers of an error are texts here.
pub record ApiError : Type 0 where
  pub status_code : ℕ
  pub code : String
  pub message : String
  pub params : Dict String
  pub retryable : Bool
  pub headers : Dict String

abbrev pub plain : ℕ → String → String → ApiError
plain status_code code message = record {
  status_code = status_code;
  code = code;
  message = message;
  params = [];
  retryable = false;
  headers = [];
}

abbrev pub not_found : ApiError
not_found = plain 404 "NOT_FOUND" "The requested resource was not found."

abbrev pub invalid_riot_id : ApiError
invalid_riot_id = plain 422 "INVALID_RIOT_ID" "Riot ID is invalid."

abbrev pub player_not_found : ApiError
player_not_found = plain 404 "PLAYER_NOT_FOUND" "The player was not found."

abbrev pub params_of : Option ApiError → Dict String
params_of none = []
params_of (some e) = e.params

abbrev pub headers_of : Option ApiError → Dict String
headers_of none = []
headers_of (some e) = e.headers

abbrev pub riot_platform_detection_unavailable : Option ApiError → ApiError
riot_platform_detection_unavailable source = record {
  status_code = 503;
  code = "RIOT_PLATFORM_DETECTION_UNAVAILABLE";
  message = "Riot platform detection is temporarily unavailable.";
  params = params_of source;
  retryable = true;
  headers = headers_of source;
}

abbrev pub platform_confirmation_expired : ApiError
platform_confirmation_expired =
    plain 409 "PLATFORM_CONFIRMATION_EXPIRED" "Platform confirmation has expired."

abbrev pub invalid_platform_selection : ApiError
invalid_platform_selection =
    plain 422 "INVALID_PLATFORM_SELECTION" "The selected platform is not a candidate."

abbrev pub invalid_response : ApiError
invalid_response = plain 502 "RIOT_INVALID_RESPONSE" "Riot returned an invalid response."

-- `exc.code == code`
abbrev pub has_code : String → ApiError → Bool
has_code code e = str_eq e.code code
