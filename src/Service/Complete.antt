-- ===== src/Service/Complete.antt =====
-- `mark_local_uploaded` and `complete` of `ReplayService`.
use league_of_legnds_ai_coac.Prelude.{
  ℕ, String, Bool, not, ◌&&◌, ◌||◌, Option, none, some, List, [], ◌∷◌, ltb, leb, if◌then◌else◌,
  Outcome, ok, raise,
}
use league_of_legnds_ai_coac.Domain.{ReplayStatus, created, uploaded, queued}
use league_of_legnds_ai_coac.Rows.{ReplayUploadRow, same_status}
use league_of_legnds_ai_coac.Database.{Db, DbError, state_conflict, active_job_conflict}
use league_of_legnds_ai_coac.Repo.Replays.{
  Assign, set_actual_size_bytes, set_source_sha256, set_updated_at, transition, queue_process_job,
}
use league_of_legnds_ai_coac.Service.Calls.{
  replay_not_found, replay_upload_expired, replay_too_large, replay_upload_invalid,
  replay_storage_unavailable, uncaught_db, uncaught_storage, StoredObject, StorageError,
  object_not_found, other_failure, ReplayStorage, ReplaySettings, World, Call, pure, fails, ◌>>=◌,
  ◌>>◌, guard, non_empty, is_complete_idempotent, ReplayStatusData, status_data, attempt, transact,
  authorize,
}

-- What a step of `complete` leaves: the answer of an early `return`, or a value to go on with.
pub data Progress (A : Type 0) : Type 0 where
  answered : ReplayStatusData → Progress A
  going_on : A → Progress A

module _ {O : Type 0} (storage : ReplayStorage O) (settings : ReplaySettings)
    (digest : String → String → String) (others : ℕ → Db → Db) where
  -- The guards of `mark_local_uploaded` on a row that is CREATED, and its transition.
  unfoldable pub accept_local : ReplayUploadRow → ℕ → ℕ → ℕ → Call O ReplayStatusData
  accept_local row actual_size_bytes clock now = do
    guard (leb row.upload_expires_at clock) replay_upload_expired
    guard (ltb settings.replay_max_bytes actual_size_bytes) replay_too_large
    guard (ltb row.declared_size_bytes actual_size_bytes) replay_upload_invalid
    updated ← transact others (
        transition row.id (same_status created) row.version uploaded
          (set_actual_size_bytes (some actual_size_bytes) ∷ set_updated_at clock ∷ []) now)
    pure (status_data updated)

  unfoldable pub mark_local_uploaded : ℕ → String → ℕ → ℕ → ℕ → Call O ReplayStatusData
  unfolding accept_local
  mark_local_uploaded replay_id token actual_size_bytes clock now = do
    row ← authorize others settings digest replay_id token
    (if same_status row.status uploaded
        then pure (status_data row)
        else if not (same_status row.status created)
        then fails replay_not_found
        else accept_local row actual_size_bytes clock now)

  unfoldable pub from_storage : Outcome StorageError StoredObject → Call O StoredObject
  from_storage (ok stored) = pure stored
  from_storage (raise object_not_found) = fails replay_upload_invalid
  from_storage (raise other_failure) = fails replay_storage_unavailable

  -- `promote`, and `stat` of the final key where the temporary object is gone.
  unfoldable pub promote_or_stat : String → World O → Outcome StorageError StoredObject × World O
  promote_or_stat key w =
      let (result, objects) = storage.promote (storage.temp_upload_key key) key w.objects in
      let after : World O = record w { objects = objects } in
      elim result [
        | ok stored ↦ (ok stored, after)
        | raise object_not_found ↦ (storage.stat key objects, after)
        | raise other_failure ↦ (raise other_failure, after)
      ]

  -- The `try` that finds the uploaded object.
  unfoldable pub find_upload_object : ReplayStatus → String → Call O StoredObject
  unfolding promote_or_stat from_storage
  find_upload_object status key w =
      if same_status status created && settings.replay_storage_is_s3
      then (let (result, after) = promote_or_stat key w in from_storage result after)
      else from_storage (storage.stat key w.objects) w

  -- `_delete_missing_ok`
  unfoldable pub delete_missing_ok : String → Call O (Unit {0})
  delete_missing_ok key w =
      let (result, objects) = storage.delete key w.objects in
      let after : World O = record w { objects = objects } in
      elim result [
        | ok _ ↦ (ok tt, after)
        | raise object_not_found ↦ (ok tt, after)
        | raise other_failure ↦ (raise uncaught_storage, after)
      ]

  unfoldable pub is_oversize : ReplayUploadRow → StoredObject → Bool
  is_oversize row stored =
      ltb settings.replay_max_bytes stored.size_bytes
      || ltb row.declared_size_bytes stored.size_bytes

  unfoldable pub reject_oversize : ReplayUploadRow → String → StoredObject → Call O (Unit {0})
  unfolding delete_missing_ok is_oversize
  reject_oversize row key stored = if not (is_oversize row stored) then pure tt else do
    delete_missing_ok key
    fails (
        if ltb settings.replay_max_bytes stored.size_bytes
        then replay_too_large
        else replay_upload_invalid)

  abbrev pub stored_values : StoredObject → ℕ → List Assign
  stored_values stored clock =
      set_actual_size_bytes (some stored.size_bytes)
      ∷ set_source_sha256 stored.sha256
      ∷ set_updated_at clock
      ∷ []

  -- `except ReplayStateConflict` of the first transition.
  unfoldable pub after_conflict : ReplayUploadRow → Call O (Progress ReplayUploadRow)
  after_conflict row =
      if is_complete_idempotent row.status
      then pure (answered (status_data row))
      else if same_status row.status uploaded
      then pure (going_on row)
      else fails replay_not_found

  unfoldable pub settle_uploaded :
      ℕ → String → Outcome DbError ReplayUploadRow → Call O (Progress ReplayUploadRow)
  unfolding after_conflict
  settle_uploaded replay_id token (ok row) = pure (going_on row)
  settle_uploaded replay_id token (raise state_conflict) = do
    row ← authorize others settings digest replay_id token
    after_conflict row
  settle_uploaded replay_id token (raise e) = fails (uncaught_db e)

  -- `if status == ReplayStatus.CREATED`
  unfoldable pub mark_uploaded :
      ℕ → String → ReplayUploadRow → StoredObject → ℕ → ℕ → Call O (Progress ReplayUploadRow)
  unfolding settle_uploaded
  mark_uploaded replay_id token row stored clock now =
      if not (same_status row.status created) then pure (going_on row) else do
        result ← attempt others (
            transition row.id (same_status created) row.version uploaded
              (stored_values stored clock) now)
        settle_uploaded replay_id token result

  -- `except (ReplayActiveJobConflict, ReplayStateConflict)` of the second.
  unfoldable pub answer_latest : ℕ → String → DbError → Call O ReplayStatusData
  answer_latest replay_id token e = do
    latest ← authorize others settings digest replay_id token
    (if is_complete_idempotent latest.status
        then pure (status_data latest)
        else fails (uncaught_db e))

  unfoldable pub settle_queued :
      ℕ → String → Outcome DbError ReplayUploadRow → Call O ReplayStatusData
  unfolding answer_latest
  settle_queued replay_id token (ok row) = pure (status_data row)
  settle_queued replay_id token (raise state_conflict) =
      answer_latest replay_id token state_conflict
  settle_queued replay_id token (raise active_job_conflict) =
      answer_latest replay_id token active_job_conflict
  settle_queued replay_id token (raise e) = fails (uncaught_db e)

  unfoldable pub queue_uploaded :
      ℕ → String → StoredObject → ℕ → ℕ → ℕ → Progress ReplayUploadRow → Call O ReplayStatusData
  unfolding settle_queued
  queue_uploaded replay_id token stored clock job_id now (answered answer) = pure answer
  queue_uploaded replay_id token stored clock job_id now (going_on row) = do
    result ← attempt others (
        queue_process_job row.id (same_status uploaded) row.version queued
          (stored_values stored clock) clock 3 job_id now)
    settle_queued replay_id token result

  -- The rest of `complete`, from the check of the key on.
  unfoldable pub complete_with_key :
      ℕ → String → ReplayUploadRow → ℕ → ℕ → ℕ → Option String → Call O ReplayStatusData
  unfolding find_upload_object reject_oversize mark_uploaded queue_uploaded
  complete_with_key replay_id token row clock job_id now none = fails replay_upload_invalid
  complete_with_key replay_id token row clock job_id now (some key) = do
    stored ← find_upload_object row.status key
    reject_oversize row key stored
    progress ← mark_uploaded replay_id token row stored clock now
    queue_uploaded replay_id token stored clock job_id now progress

  unfoldable pub complete : ℕ → String → ℕ → ℕ → ℕ → Call O ReplayStatusData
  unfolding complete_with_key
  complete replay_id token clock job_id now = do
    row ← authorize others settings digest replay_id token
    (if is_complete_idempotent row.status
        then pure (status_data row)
        else if not (same_status row.status created || same_status row.status uploaded)
        then fails replay_not_found
        else do
          guard (leb row.upload_expires_at clock) replay_upload_expired
          complete_with_key replay_id token row clock job_id now (non_empty row.source_object_key))
