-- ===== src/Service/Create.antt =====
-- `create` of `ReplayService`, with `_validate_create_request`.
use league_of_legnds_ai_coac.Prelude.{
  ℕ, ◌+◌, ◌*◌, String, Bool, false, not, ◌||◌, Option, none, some, List, [], ◌∷◌, any,
  if◌then◌else◌, Outcome, ok, raise, str_eq,
}
use league_of_legnds_ai_coac.Prelude.{ℤ, pos, ltb_ℤ, leb_ℤ, pos_part}
use league_of_legnds_ai_coac.Domain.{ReplayStatus, created}
use league_of_legnds_ai_coac.Rows.{ReplayUploadRow}
use league_of_legnds_ai_coac.Database.{Db}
use league_of_legnds_ai_coac.Repo.Replays
use league_of_legnds_ai_coac.Service.Calls.{
  ServiceError, replay_disabled, replay_match_not_found, replay_player_not_in_match,
  replay_too_large, replay_upload_invalid, replay_rights_attestation_required, uncaught_storage,
  StorageError, UploadTarget, ReplayStorage, ReplaySettings, Call, pure, fails, ◌>>=◌, ◌>>◌, guard,
  transact,
}

-- `ReplayCreateRequest`
pub record ReplayCreateRequest : Type 0 where
  pub match_id : String
  pub platform : String
  pub puuid : String
  pub original_filename : String
  pub declared_content_type : String
  pub declared_size_bytes : ℤ
  pub game_time_zero_ms : ℤ
  pub rights_attested : Bool
  pub rights_statement_version : String

-- What `get_for_replay_binding` gives of a stored match.
pub record MatchSnapshot : Type 0 where
  pub participants : List String
  pub duration_seconds : ℕ

-- `ReplayCreateData`
pub record ReplayCreateData : Type 0 where
  pub replay_id : ℕ
  pub access_token : String
  pub status : ReplayStatus
  pub upload : UploadTarget
  pub source_retention : ℕ
  pub derived_retention : ℕ

abbrev pub rights_statement_version : String
rights_statement_version = "2026-08-01"

-- `_CONTENT_TYPES_BY_EXTENSION.get(extension)`, whose keys are `_ACCEPTED_EXTENSIONS`
unfoldable pub content_types : String → Option (List String)
content_types extension =
    if str_eq extension ".mp4"
    then some ("video/mp4" ∷ "application/octet-stream" ∷ [])
    else if str_eq extension ".mkv"
    then some ("video/x-matroska" ∷ "video/mkv" ∷ "application/octet-stream" ∷ [])
    else if str_eq extension ".mov"
    then some ("video/quicktime" ∷ "application/octet-stream" ∷ [])
    else if str_eq extension ".webm"
    then some ("video/webm" ∷ "application/octet-stream" ∷ [])
    else none

unfoldable pub is_allowed_type : Option (List String) → String → Bool
is_allowed_type none content_type = false
is_allowed_type (some types) content_type = any (str_eq content_type) types

-- `_validate_create_request`, with the extension of the name in lower case.
unfoldable pub validate_create_request :
    ReplaySettings → String → ReplayCreateRequest → Outcome ServiceError (Unit {0})
unfolding content_types is_allowed_type
validate_create_request settings extension request =
    if not request.rights_attested
      || not (str_eq request.rights_statement_version rights_statement_version)
    then raise replay_rights_attestation_required
    else if ltb_ℤ (pos settings.replay_max_bytes) request.declared_size_bytes
    then raise replay_too_large
    else if leb_ℤ request.declared_size_bytes (pos 0) || ltb_ℤ request.game_time_zero_ms (pos 0)
    then raise replay_upload_invalid
    else if not (is_allowed_type (content_types extension) request.declared_content_type)
    then raise replay_upload_invalid
    else ok tt

-- A validated number of the request; the columns hold no negative one.
abbrev pub natural : ℤ → ℕ
natural z = pos_part z

module _ {O : Type 0} (storage : ReplayStorage O) (settings : ReplaySettings)
    (digest : String → String → String) (others : ℕ → Db → Db) (extension_of : String → String)
    (source_key upload_path : ℕ → String)
    (get_for_replay_binding : String → String → Option MatchSnapshot) where
  -- The row that `create` writes; `token` is the draw of `issue_replay_token`.
  unfoldable pub new_row : ReplayCreateRequest → MatchSnapshot → String → ℕ → ℕ → ReplayUploadRow
  new_row request snapshot token replay_id clock = record {
    id = replay_id;
    match_id = request.match_id;
    platform = request.platform;
    selected_puuid = some request.puuid;
    match_duration_ms = snapshot.duration_seconds * 1000;
    status = created;
    processing_stage = none;
    progress_percent = 0;
    token_digest = some (digest settings.replay_token_secret token);
    original_filename = some request.original_filename;
    declared_content_type = some request.declared_content_type;
    declared_size_bytes = natural request.declared_size_bytes;
    actual_container = none;
    actual_size_bytes = none;
    source_sha256 = none;
    source_duration_ms = none;
    normalized_duration_ms = none;
    width = none;
    height = none;
    frame_rate_numerator = none;
    frame_rate_denominator = none;
    game_time_zero_ms = natural request.game_time_zero_ms;
    available_game_time_start_ms = none;
    available_game_time_end_ms = none;
    source_object_key = some (source_key replay_id);
    normalized_object_key = none;
    rights_statement_version = request.rights_statement_version;
    rights_attested_at = clock;
    upload_expires_at = clock + settings.replay_upload_expiry;
    source_delete_after = none;
    derived_delete_after = none;
    warning_codes = [];
    error_code = none;
    error_retryable = none;
    created_at = clock;
    updated_at = clock;
    processing_started_at = none;
    processing_finished_at = none;
    deleted_at = none;
    version = 1;
  }

  unfoldable pub raised : Outcome ServiceError (Unit {0}) → Call O (Unit {0})
  raised (ok _) = pure tt
  raised (raise e) = fails e

  unfoldable pub target_of : Outcome StorageError UploadTarget → Call O UploadTarget
  target_of (ok target) = pure target
  target_of (raise e) = fails uncaught_storage

  -- From the binding on.
  unfoldable pub create_bound :
      ReplayCreateRequest → String → ℕ → ℕ → Option MatchSnapshot → Call O ReplayCreateData
  unfolding new_row target_of
  create_bound request token replay_id clock none = fails replay_match_not_found
  create_bound request token replay_id clock (some snapshot) = do
    guard (not (any (λ puuid. str_eq puuid request.puuid) snapshot.participants))
        replay_player_not_in_match
    target ← target_of (
        storage.create_upload_target
          (if settings.replay_storage_is_s3
            then storage.temp_upload_key (source_key replay_id)
            else source_key replay_id)
          (clock + settings.replay_upload_expiry) (upload_path replay_id))
    row ← transact others (Replays.create (new_row request snapshot token replay_id clock))
    pure (record {
      replay_id = replay_id;
      access_token = token;
      status = created;
      upload = target;
      source_retention = settings.replay_source_retention;
      derived_retention = settings.replay_derived_retention;
    })

  unfoldable pub create : ReplayCreateRequest → String → ℕ → ℕ → Call O ReplayCreateData
  unfolding create_bound raised
  create request token replay_id clock = do
    guard (not settings.replay_enabled) replay_disabled
    raised (validate_create_request settings (extension_of request.original_filename) request)
    create_bound request token replay_id clock
        (get_for_replay_binding request.platform request.match_id)
