-- ===== src/Service/Manage.antt =====
-- `get_status`, `list_artifacts`, `get_ready_artifact_content`, `retry` and `request_delete` of
-- `ReplayService`.
use league_of_legnds_ai_coac.Prelude.{
  ℕ, ◌+◌, String, Bool, false, not, ◌&&◌, Option, none, some, List, [], ◌∷◌, ltb, ◌==◌, find,
  if◌then◌else◌, Outcome, ok, raise,
}
use league_of_legnds_ai_coac.Domain.{
  ReplayStatus, ReplayArtifactKind, queued, ready, deleting, delete_all,
}
use league_of_legnds_ai_coac.Rows.{ReplayUploadRow, ReplayArtifactRow, same_status}
use league_of_legnds_ai_coac.Database.{Db, DbError, active_job_conflict}
use league_of_legnds_ai_coac.Repo.Replays.{
  Assign, set_error_code, set_error_retryable, set_processing_stage, set_progress_percent,
  set_updated_at, transition, queue_process_job,
}
use league_of_legnds_ai_coac.Repo.Recovery.{is_gone}
use league_of_legnds_ai_coac.Repo.Artifacts.{list_for_replay}
use league_of_legnds_ai_coac.Service.Enqueue.{enqueue_idempotent}
use league_of_legnds_ai_coac.Service.Calls.{
  replay_not_found, replay_storage_unavailable, replay_retry_not_allowed, uncaught_db,
  uncaught_storage, StoredObject, StorageError, object_not_found, other_failure, ReplayStorage,
  ReplaySettings, Call, pure, fails, ◌>>=◌, ◌>>◌, guard, non_empty, ReplayStatusData, status_data,
  attempt, transact, read, authorize,
}

-- `_ARTIFACT_ACCESS_TTL`: five minutes, in microseconds.
abbrev pub artifact_access_ttl : ℕ
artifact_access_ttl = 300000000

-- `ReplayArtifactAccess`; `bearer` stands for the URL that the two keys make.
pub data ArtifactAccess : Type 0 where
  presigned : String → ℕ → ArtifactAccess
  bearer : ℕ → ℕ → ℕ → ArtifactAccess

pub record ReplayArtifactResponse : Type 0 where
  pub artifact_id : ℕ
  pub replay_id : ℕ
  pub kind : ReplayArtifactKind
  pub game_time_ms : ℕ
  pub video_time_ms : ℕ
  pub media_type : String
  pub width : Option ℕ
  pub height : Option ℕ
  pub size_bytes : ℕ
  pub access : ArtifactAccess

pub record ReplayArtifactContent : Type 0 where
  pub artifact_id : ℕ
  pub media_type : String
  pub size_bytes : ℕ
  pub object_key : String

unfoldable pub is_true : Option Bool → Bool
is_true none = false
is_true (some b) = b

-- `source_delete_after is not None and source_delete_after > clock`
unfoldable pub is_kept_after : Option ℕ → ℕ → Bool
is_kept_after none clock = false
is_kept_after (some instant) clock = ltb clock instant

module _ {O : Type 0} (storage : ReplayStorage O) (settings : ReplaySettings)
    (digest : String → String → String) (others : ℕ → Db → Db) where
  unfoldable pub get_status : ℕ → String → Call O ReplayStatusData
  get_status replay_id token = do
    row ← authorize others settings digest replay_id token
    pure (status_data row)

  unfoldable pub access_with :
      ReplayArtifactRow
      → ℕ
      → Option (String → ℕ → Outcome StorageError (String × ℕ))
      → Call O ArtifactAccess
  access_with artifact expires_at none = pure (bearer artifact.replay_id artifact.id expires_at)
  access_with artifact expires_at (some create_download_target) =
      elim (create_download_target artifact.object_key expires_at) [
        | ok (url, until) ↦ pure (presigned url until)
        | raise e ↦ fails uncaught_storage
      ]

  unfoldable pub response : ReplayArtifactRow → ArtifactAccess → ReplayArtifactResponse
  response artifact access = record {
    artifact_id = artifact.id;
    replay_id = artifact.replay_id;
    kind = artifact.kind;
    game_time_ms = artifact.game_time_ms;
    video_time_ms = artifact.video_time_ms;
    media_type = artifact.media_type;
    width = artifact.width;
    height = artifact.height;
    size_bytes = artifact.size_bytes;
    access = access;
  }

  -- `for artifact in artifacts`
  unfoldable pub responses : ℕ → List ReplayArtifactRow → Call O (List ReplayArtifactResponse)
  unfolding access_with response
  responses expires_at [] = pure []
  responses expires_at (artifact ∷ artifacts) = do
    access ← access_with artifact expires_at storage.create_download_target
    rest ← responses expires_at artifacts
    pure (response artifact access ∷ rest)

  unfoldable pub list_artifacts : ℕ → String → ℕ → Call O (List ReplayArtifactResponse)
  unfolding responses
  list_artifacts replay_id token clock = do
    row ← authorize others settings digest replay_id token
    guard (not (same_status row.status ready)) replay_not_found
    artifacts ← read others (list_for_replay replay_id)
    responses (clock + artifact_access_ttl) artifacts

  unfoldable pub content_of : Option ReplayArtifactRow → Call O ReplayArtifactContent
  content_of none = fails replay_not_found
  content_of (some artifact) = pure (record {
    artifact_id = artifact.id;
    media_type = artifact.media_type;
    size_bytes = artifact.size_bytes;
    object_key = artifact.object_key;
  })

  unfoldable pub get_ready_artifact_content : ℕ → ℕ → String → Call O ReplayArtifactContent
  unfolding content_of
  get_ready_artifact_content replay_id artifact_id token = do
    row ← authorize others settings digest replay_id token
    guard (not (same_status row.status ready)) replay_not_found
    artifacts ← read others (list_for_replay replay_id)
    content_of (find (λ a. a.id == artifact_id) artifacts)

  -- The key that `retry` may go on with.
  unfoldable pub retryable_key : ReplayUploadRow → ℕ → Option String
  unfolding is_true is_kept_after
  retryable_key row clock =
      if same_status row.status ReplayStatus.failed
        && is_true row.error_retryable
        && is_kept_after row.source_delete_after clock
      then non_empty row.source_object_key
      else none

  -- `await self._storage.stat(…)` of `retry`.
  unfoldable pub check_source : Outcome StorageError StoredObject → Call O (Unit {0})
  check_source (ok _) = pure tt
  check_source (raise object_not_found) = fails replay_retry_not_allowed
  check_source (raise other_failure) = fails replay_storage_unavailable

  abbrev pub retry_values : ℕ → List Assign
  retry_values clock =
      set_error_code none
      ∷ set_error_retryable none
      ∷ set_processing_stage none
      ∷ set_progress_percent 0
      ∷ set_updated_at clock
      ∷ []

  unfoldable pub settle_retry : Outcome DbError ReplayUploadRow → Call O ReplayStatusData
  settle_retry (ok row) = pure (status_data row)
  settle_retry (raise active_job_conflict) = fails replay_retry_not_allowed
  settle_retry (raise e) = fails (uncaught_db e)

  unfoldable pub retry_with_key :
      ReplayUploadRow → ℕ → ℕ → ℕ → Option String → Call O ReplayStatusData
  unfolding check_source settle_retry
  retry_with_key row clock job_id now none = fails replay_retry_not_allowed
  retry_with_key row clock job_id now (some key) = do
    (λ w. check_source (storage.stat key w.objects) w)
    result ← attempt others (
        queue_process_job row.id (same_status ReplayStatus.failed) row.version queued
          (retry_values clock) clock 3 job_id now)
    settle_retry result

  unfoldable pub retry : ℕ → String → ℕ → ℕ → ℕ → Call O ReplayStatusData
  unfolding retry_with_key retryable_key
  retry replay_id token clock job_id now = do
    row ← authorize others settings digest replay_id token
    retry_with_key row clock job_id now (retryable_key row clock)

  -- The transition and the job of `request_delete`.
  unfoldable pub start_delete : ReplayUploadRow → ℕ → ℕ → ℕ → Call O ReplayStatusData
  start_delete row clock job_id now = do
    updated ← transact others (
        transition row.id (λ s. not (is_gone s)) row.version deleting (set_updated_at clock ∷ [])
          now)
    _ ← enqueue_idempotent others row.id delete_all clock 3 job_id now
    pure (status_data updated)

  unfoldable pub request_delete : ℕ → String → ℕ → ℕ → ℕ → Call O ReplayStatusData
  unfolding start_delete
  request_delete replay_id token clock job_id now = do
    row ← authorize others settings digest replay_id token
    (if is_gone row.status then pure (status_data row) else start_delete row clock job_id now)
