-- ===== src/Rows.antt =====
-- The tables of the replay database: backend/app/models/replay.py and the constraints that
-- backend/alembic/versions/0002_replay_r1.py declares for them. A UUID is a number, and an instant
-- the number of microseconds since the earliest `datetime`; the columns that a CHECK keeps from
-- being negative are naturals. A column of texts that stand for an enum holds the enum.
use league_of_legnds_ai_coac.Prelude.{ℕ, String, Bool, true, false, Option, List, ◌==◌}
use league_of_legnds_ai_coac.Domain.{
  ReplayStatus, ReplayJobStatus, ReplayJobKind, ReplayArtifactKind, created, uploaded, queued,
  probing, transcoding, extracting, ready, expired, deleting, deleted, process, delete_source,
  delete_all,
}

pub record ReplayUploadRow : Type 0 where
  pub id : ℕ
  pub match_id : String
  pub platform : String
  pub selected_puuid : Option String
  pub match_duration_ms : ℕ
  pub status : ReplayStatus
  pub processing_stage : Option String
  pub progress_percent : ℕ
  pub token_digest : Option String
  pub original_filename : Option String
  pub declared_content_type : Option String
  pub declared_size_bytes : ℕ
  pub actual_container : Option String
  pub actual_size_bytes : Option ℕ
  pub source_sha256 : Option String
  pub source_duration_ms : Option ℕ
  pub normalized_duration_ms : Option ℕ
  pub width : Option ℕ
  pub height : Option ℕ
  pub frame_rate_numerator : Option ℕ
  pub frame_rate_denominator : Option ℕ
  pub game_time_zero_ms : ℕ
  pub available_game_time_start_ms : Option ℕ
  pub available_game_time_end_ms : Option ℕ
  pub source_object_key : Option String
  pub normalized_object_key : Option String
  pub rights_statement_version : String
  pub rights_attested_at : ℕ
  pub upload_expires_at : ℕ
  pub source_delete_after : Option ℕ
  pub derived_delete_after : Option ℕ
  pub warning_codes : List String
  pub error_code : Option String
  pub error_retryable : Option Bool
  pub created_at : ℕ
  pub updated_at : ℕ
  pub processing_started_at : Option ℕ
  pub processing_finished_at : Option ℕ
  pub deleted_at : Option ℕ
  pub version : ℕ

pub record ReplayJobRow : Type 0 where
  pub id : ℕ
  pub replay_id : ℕ
  pub kind : ReplayJobKind
  pub status : ReplayJobStatus
  pub attempt_count : ℕ
  pub max_attempts : ℕ
  pub available_at : ℕ
  pub claimed_at : Option ℕ
  pub heartbeat_at : Option ℕ
  pub finished_at : Option ℕ
  pub worker_id : Option String
  pub last_error_code : Option String
  pub created_at : ℕ
  pub updated_at : ℕ

pub record ReplayArtifactRow : Type 0 where
  pub id : ℕ
  pub replay_id : ℕ
  pub kind : ReplayArtifactKind
  pub game_time_ms : ℕ
  pub video_time_ms : ℕ
  pub object_key : String
  pub sha256 : String
  pub media_type : String
  pub size_bytes : ℕ
  pub width : Option ℕ
  pub height : Option ℕ
  pub duration_ms : Option ℕ
  pub created_at : ℕ
  pub delete_after : Option ℕ

abbrev pub kind_code : ReplayJobKind → ℕ
kind_code process = 0
kind_code delete_source = 1
kind_code delete_all = 2

abbrev pub same_kind : ReplayJobKind → ReplayJobKind → Bool
same_kind a b = kind_code a == kind_code b

abbrev pub status_code : ReplayStatus → ℕ
status_code created = 0
status_code uploaded = 1
status_code queued = 2
status_code probing = 3
status_code transcoding = 4
status_code extracting = 5
status_code ready = 6
status_code ReplayStatus.failed = 7
status_code expired = 8
status_code deleting = 9
status_code deleted = 10

abbrev pub same_status : ReplayStatus → ReplayStatus → Bool
same_status a b = status_code a == status_code b

-- `_ACTIVE_JOB_STATUSES`, which the partial unique index names too
abbrev pub is_active : ReplayJobStatus → Bool
is_active ReplayJobStatus.pending = true
is_active ReplayJobStatus.running = true
is_active ReplayJobStatus.retry_scheduled = true
is_active _ = false

-- `_CLAIMABLE_JOB_STATUSES`
abbrev pub is_claimable : ReplayJobStatus → Bool
is_claimable ReplayJobStatus.pending = true
is_claimable ReplayJobStatus.retry_scheduled = true
is_claimable _ = false

abbrev pub is_running : ReplayJobStatus → Bool
is_running ReplayJobStatus.running = true
is_running _ = false
