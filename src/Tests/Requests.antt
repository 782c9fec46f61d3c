-- ===== src/Tests/Requests.antt =====
-- The theorems on requests and on the processor at concrete tables.
use league_of_legnds_ai_coac.Prelude.{
  ℕ, In, ◌≡◌, String, true, false, none, some, [], ◌∷◌, ok, raise, refl, str_eq, if◌then◌else◌,
}
use league_of_legnds_ai_coac.Domain.{ReplayStatus, created, deleting, queued, delete_all}
use league_of_legnds_ai_coac.Rows.{ReplayUploadRow, ReplayJobRow}
use league_of_legnds_ai_coac.Database.{Db, add_job, find_upload}
use league_of_legnds_ai_coac.Repo.Replays.{
  get, queue_process_job, transition, moved, assign_all, assign,
}
use league_of_legnds_ai_coac.Repo.Jobs.{pending_job, enqueue, get_active_job}
use league_of_legnds_ai_coac.Repo.Recovery.{is_gone}
use league_of_legnds_ai_coac.Repo.Steps.{Reach}
use league_of_legnds_ai_coac.Repo.Sound.{IsSound}
use league_of_legnds_ai_coac.Repo.Buried.{IsBuried}
use league_of_legnds_ai_coac.Service.Calls.{
  ServiceError, ReplayStorage, ReplaySettings, World, status_data, verify_replay_token, is_empty,
  attempt, authorize, check_row, check_digest, pure, fails, ◌>>=◌,
}
use league_of_legnds_ai_coac.Service.Access.{get_ready_artifact_content_lem}
use league_of_legnds_ai_coac.Service.Manage.{
  ReplayArtifactContent, content_of, get_ready_artifact_content,
}
use league_of_legnds_ai_coac.Rows.{ReplayArtifactRow}
use league_of_legnds_ai_coac.Domain.{ready, anchor_frame}
use league_of_legnds_ai_coac.Repo.Artifacts.{list_for_replay}
use league_of_legnds_ai_coac.Service.Calls.{guard}
use league_of_legnds_ai_coac.Prelude.{◌==◌}
use league_of_legnds_ai_coac.Rows.{same_status}
use league_of_legnds_ai_coac.Service.Manage.{retry, request_delete, start_delete}
use league_of_legnds_ai_coac.Service.Enqueue.{enqueue_idempotent}
use league_of_legnds_ai_coac.Service.Enqueued.{IsActiveIn, enqueue_idempotent_lem}
use league_of_legnds_ai_coac.Service.Retried.{IsRetried, retry_lem}
use league_of_legnds_ai_coac.Service.Promise.{request_delete_lem}
use league_of_legnds_ai_coac.Service.Returns.{authorize_inv}
use league_of_legnds_ai_coac.Tests.{upload_row, db_with, one-IsSound}

-- A store that holds an object of 50 bytes under every key.
abbrev store : ReplayStorage Unit
store = record {
  create_upload_target =
      λ key expires_at url. ok (record { method = "PUT"; url = url; expires_at = expires_at });
  stat = λ key objects. ok (record { key = key; size_bytes = 50; sha256 = some "h" });
  promote = λ temp final objects.
      (ok (record { key = final; size_bytes = 50; sha256 = some "h" }), objects);
  delete = λ key objects. (ok tt, objects);
  temp_upload_key = λ key. key;
  create_download_target = none;
}

abbrev settings : ReplaySettings
settings = record {
  replay_enabled = true;
  replay_max_bytes = 100;
  replay_token_secret = "s";
  replay_storage_is_s3 = false;
  replay_upload_expiry = 1000;
  replay_source_retention = 500;
  replay_derived_retention = 500;
}

-- A hash that gives every token "t" the digest of the example rows.
abbrev hash : String → String → String
hash secret token = if str_eq token "t" then "st" else "x"

abbrev alone : ℕ → Db → Db
alone n db = db

abbrev world_of : Db → World Unit
world_of db = record { db = db; objects = tt; turn = 0 }

abbrev first_db : Db
first_db = db_with (upload_row 1 created 1 ∷ []) []

abbrev deleting_row : ReplayUploadRow
deleting_row = record (upload_row 1 deleting 2) { updated_at = 7 }

abbrev deleting_world : World Unit
deleting_world = record {
  db = db_with (deleting_row ∷ []) (pending_job 5 1 delete_all 7 3 6 ∷ []);
  objects = tt;
  turn = 3;
}

request_delete_lem_example :
    (is_gone (status_data deleting_row).status ≡ true)
    × IsBuried 1 deleting_world.db
    × IsSound deleting_world.db
    × (row : ReplayUploadRow) × (find_upload 1 first_db ≡ some row)
    × ((d : String) × (row.token_digest ≡ some d)
        × (verify_replay_token hash settings.replay_token_secret "t" d ≡ true))
    × (is_gone row.status ≡ false
        → (job : ReplayJobRow) × IsActiveIn 1 delete_all job deleting_world.db)
unfolding request_delete start_delete authorize check_row check_digest get attempt pure fails ◌>>=◌
    transition moved assign_all assign enqueue_idempotent enqueue add_job
request_delete_lem_example =
    request_delete_lem Unit (λ k. false) alone (λ n db. Reach.here) store settings hash 1 "t" 7 5 6
      (world_of first_db) deleting_world (status_data deleting_row) refl
      (one-IsSound (upload_row 1 created 1)) refl

authorize_inv_example :
    (is_empty "t" ≡ false)
    × (find_upload 1 first_db ≡ some (upload_row 1 created 1))
    × ((authorize alone settings hash 1 "t" (world_of first_db)).1.db ≡ first_db)
    × ((d : String) × ((upload_row 1 created 1).token_digest ≡ some d)
        × (verify_replay_token hash settings.replay_token_secret "t" d ≡ true))
unfolding authorize check_row check_digest get attempt pure fails ◌>>=◌
authorize_inv_example =
    authorize_inv Unit alone settings hash 1 "t" (world_of first_db) {row = upload_row 1 created 1}
      refl

-- A replay that is READY, with one frame.
abbrev frame : ReplayArtifactRow
frame = record {
  id = 6;
  replay_id = 1;
  kind = anchor_frame;
  game_time_ms = 0;
  video_time_ms = 0;
  object_key = "frames/1/anchor_frame-0";
  sha256 = "h";
  media_type = "image/jpeg";
  size_bytes = 10;
  width = none;
  height = none;
  duration_ms = none;
  created_at = 5;
  delete_after = none;
}

abbrev ready_world : World Unit
ready_world =
    world_of (record { uploads = upload_row 1 ready 9 ∷ []; jobs = []; artifacts = frame ∷ [] })

abbrev frame_content : ReplayArtifactContent
frame_content = record {
  artifact_id = 6;
  media_type = "image/jpeg";
  size_bytes = 10;
  object_key = "frames/1/anchor_frame-0";
}

get_ready_artifact_content_lem_example :
    (row : ReplayUploadRow) × (a : ReplayArtifactRow) × (find_upload 1 ready_world.db ≡ some row)
    × (same_status row.status ready ≡ true)
    × ((d : String) × (row.token_digest ≡ some d)
        × (verify_replay_token hash settings.replay_token_secret "t" d ≡ true))
    × In a ready_world.db.artifacts
    × ((a.replay_id == 1) ≡ true)
    × ((a.id == 6) ≡ true)
    × (frame_content.artifact_id ≡ a.id)
    × (frame_content.object_key ≡ a.object_key)
unfolding get_ready_artifact_content content_of list_for_replay authorize check_row check_digest get
    attempt guard pure fails ◌>>=◌
get_ready_artifact_content_lem_example =
    get_ready_artifact_content_lem Unit alone store settings hash 1 6 "t" ready_world
      (record ready_world { turn = 2 }) frame_content refl

enqueue_idempotent_lem_example :
    let done = enqueue_idempotent alone 1 delete_all 7 3 5 6 (world_of first_db) in
    ((job : ReplayJobRow) → done.0 ≡ ok job → IsActiveIn 1 delete_all job done.1.db)
    × ((e : ServiceError) → done.0 ≡ raise e → get_active_job 1 delete_all done.1.db ≡ none)
enqueue_idempotent_lem_example =
    enqueue_idempotent_lem alone 1 delete_all 7 3 5 6 (world_of first_db)

abbrev failed_db : Db
failed_db = db_with (upload_row 1 ReplayStatus.failed 4 ∷ []) []

retried : retry store settings hash alone 1 "t" 7 5 6 (world_of failed_db) ≡ (
  ok (status_data (record (upload_row 1 queued 5) { error_retryable = none; updated_at = 7 })),
  (retry store settings hash alone 1 "t" 7 5 6 (world_of failed_db)).1,
)
unfolding retry authorize check_row check_digest get attempt pure fails ◌>>=◌ queue_process_job
    add_job
retried = refl

retry_lem_example :
    IsRetried alone store settings hash 1 "t" 7 5 6
      (world_of failed_db)
      (retry store settings hash alone 1 "t" 7 5 6 (world_of failed_db)).1
      (status_data (record (upload_row 1 queued 5) { error_retryable = none; updated_at = 7 }))
retry_lem_example =
    retry_lem Unit (λ k. false) alone (λ n db. Reach.here) store settings hash 1 "t" 7 5 6
      (world_of failed_db) (retry store settings hash alone 1 "t" 7 5 6 (world_of failed_db)).1
      (status_data (record (upload_row 1 queued 5) { error_retryable = none; updated_at = 7 }))
      (one-IsSound (upload_row 1 ReplayStatus.failed 4)) retried
