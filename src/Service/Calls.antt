-- ===== src/Service/Calls.antt =====
-- The state of a request, its errors, the storage interface (storage/base.py), the access token
-- (security.py) and `_authorize`.
use league_of_legnds_ai_coac.Prelude.{
  ℕ, ◌+◌, String, Bool, true, false, Option, none, some, List, if◌then◌else◌, Outcome, ok, raise,
  str_eq,
}
use league_of_legnds_ai_coac.Domain.{ReplayStatus, queued, probing, transcoding, extracting, ready}
use league_of_legnds_ai_coac.Rows.{ReplayUploadRow}
use league_of_legnds_ai_coac.Database.{Db, DbError, Tx}
use league_of_legnds_ai_coac.Repo.Replays.{get}

-- The `ApiError`s that the service raises, by code, and what it lets pass.
pub data ServiceError : Type 0 where
  replay_disabled replay_match_not_found replay_player_not_in_match replay_not_found : ServiceError
  replay_upload_expired replay_too_large replay_upload_invalid : ServiceError
  replay_storage_unavailable replay_retry_not_allowed : ServiceError
  replay_rights_attestation_required : ServiceError
  uncaught_db : DbError → ServiceError
  uncaught_storage : ServiceError

pub record StoredObject : Type 0 where
  pub key : String
  pub size_bytes : ℕ
  pub sha256 : Option String

-- `ReplayObjectNotFound`, or any other exception
pub data StorageError : Type 0 where
  object_not_found other_failure : StorageError

pub record UploadTarget : Type 0 where
  pub method : String
  pub url : String
  pub expires_at : ℕ

-- The operations of `ReplayStorage` that the service calls, on a store of type `Objects`.
pub record ReplayStorage (Objects : Type 0) : Type 0 where
  pub create_upload_target : String → ℕ → String → Outcome StorageError UploadTarget
  pub stat : String → Objects → Outcome StorageError StoredObject
  pub promote : String → String → Objects → Outcome StorageError StoredObject × Objects
  pub delete : String → Objects → Outcome StorageError (Unit {0}) × Objects
  pub temp_upload_key : String → String
  pub create_download_target : Option (String → ℕ → Outcome StorageError (String × ℕ))

-- What the service reads of `Settings`; the durations are in microseconds.
pub record ReplaySettings : Type 0 where
  pub replay_enabled : Bool
  pub replay_max_bytes : ℕ
  pub replay_token_secret : String
  pub replay_storage_is_s3 : Bool
  pub replay_upload_expiry : ℕ
  pub replay_source_retention : ℕ
  pub replay_derived_retention : ℕ

pub record World (Objects : Type 0) : Type 0 where
  pub db : Db
  pub objects : Objects
  pub turn : ℕ

abbrev pub Call : Type 0 → Type 0 → Type 0
Call O A = World O → Outcome ServiceError A × World O

unfoldable pub pure : {O A : Type 0} → A → Call O A
pure a w = (ok a, w)

unfoldable pub fails : {O A : Type 0} → ServiceError → Call O A
fails e w = (raise e, w)

-- What follows a call, with the state that the call left; an exception skips it.
abbrev pub continue :
    {O A B : Type 0}
    → Outcome ServiceError A × World O
    → (A → Call O B)
    → Outcome ServiceError B × World O
continue (ok a, w) f = f a w
continue (raise e, w) f = (raise e, w)

infixl 5 ◌>>=◌ ◌>>◌
unfoldable pub ◌>>=◌ : {O A B : Type 0} → Call O A → (A → Call O B) → Call O B
◌>>=◌ m f w = continue (m w) f

abbrev pub ◌>>◌ : {O B : Type 0} → Call O (Unit {0}) → Call O B → Call O B
m >> k = m >>= λ _. k

unfoldable pub guard : {O : Type 0} → Bool → ServiceError → Call O (Unit {0})
guard c e w = (if c then raise e else ok tt, w)

-- `app.services.replays.security`, over the keyed hash of the standard library.
abbrev pub verify_replay_token : (String → String → String) → String → String → String → Bool
verify_replay_token digest secret token expected_digest =
    str_eq (digest secret token) expected_digest

abbrev pub is_empty : String → Bool
is_empty s = str_eq s ""

-- A key that is neither `None` nor empty.
abbrev pub non_empty : Option String → Option String
non_empty none = none
non_empty (some key) = if is_empty key then none else some key

-- `_COMPLETE_IDEMPOTENT_STATUSES`
abbrev pub is_complete_idempotent : ReplayStatus → Bool
is_complete_idempotent queued = true
is_complete_idempotent probing = true
is_complete_idempotent transcoding = true
is_complete_idempotent extracting = true
is_complete_idempotent ready = true
is_complete_idempotent _ = false

-- What `_status_data` gives of a row.
pub record ReplayStatusData : Type 0 where
  pub replay_id : ℕ
  pub status : ReplayStatus
  pub processing_stage : Option String
  pub progress_percent : ℕ
  pub normalized_duration_ms : Option ℕ
  pub width : Option ℕ
  pub height : Option ℕ
  pub available_game_time_start_ms : Option ℕ
  pub available_game_time_end_ms : Option ℕ
  pub warning_codes : List String
  pub error_code : Option String
  pub error_retryable : Option Bool
  pub source_delete_after : Option ℕ
  pub derived_delete_after : Option ℕ

abbrev pub status_data : ReplayUploadRow → ReplayStatusData
status_data row = record {
  replay_id = row.id;
  status = row.status;
  processing_stage = row.processing_stage;
  progress_percent = row.progress_percent;
  normalized_duration_ms = row.normalized_duration_ms;
  width = row.width;
  height = row.height;
  available_game_time_start_ms = row.available_game_time_start_ms;
  available_game_time_end_ms = row.available_game_time_end_ms;
  warning_codes = row.warning_codes;
  error_code = row.error_code;
  error_retryable = row.error_retryable;
  source_delete_after = row.source_delete_after;
  derived_delete_after = row.derived_delete_after;
}

module _ {O : Type 0} (others : ℕ → Db → Db) where
  -- One transaction, after what the other sessions did before it; an exception rolls it back.
  unfoldable pub attempt : {A : Type 0} → Tx A → Call O (Outcome DbError A)
  attempt tx w =
      let before = others w.turn w.db in
      elim (tx before) [
        | ok (a, after) ↦ (ok (ok a), record w { db = after; turn = w.turn + 1 })
        | raise e ↦ (ok (raise e), record w { db = before; turn = w.turn + 1 })
      ]

  abbrev pub or_uncaught : {A : Type 0} → Outcome DbError A → Call O A
  or_uncaught (ok a) = pure a
  or_uncaught (raise e) = fails (uncaught_db e)

  -- A transaction whose exceptions nobody catches.
  abbrev pub transact : {A : Type 0} → Tx A → Call O A
  transact tx = attempt tx >>= or_uncaught

  abbrev pub read : {A : Type 0} → (Db → A) → Call O A
  read f = transact (λ db. ok (f db, db))

  module _ (settings : ReplaySettings) (digest : String → String → String) where
    unfoldable pub check_digest : String → ReplayUploadRow → Option String → Call O ReplayUploadRow
    check_digest token row none = fails replay_not_found
    check_digest token row (some expected) =
        if verify_replay_token digest settings.replay_token_secret token expected
        then pure row
        else fails replay_not_found

    unfoldable pub check_row : String → Option ReplayUploadRow → Call O ReplayUploadRow
    unfolding check_digest
    check_row token none = fails replay_not_found
    check_row token (some row) = check_digest token row row.token_digest

    -- `_authorize`
    unfoldable pub authorize : ℕ → String → Call O ReplayUploadRow
    unfolding check_row
    authorize replay_id token =
        if is_empty token
        then fails replay_not_found
        else do row ← read (get replay_id); check_row token row
