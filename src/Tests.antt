-- ===== src/Tests.antt =====
-- Example tables for the tests, and an object store that holds one size for every key.
pub mod Parts
pub mod Detection
pub mod Processing
pub mod Requests
pub mod Queue
use league_of_legnds_ai_coac.Prelude.{
  ℕ, ◌≡◌, ◌+◌, String, Bool, true, false, Option, none, some, List, [], ◌∷◌, Outcome, ok, raise,
  refl, ltb, arith,
}
use league_of_legnds_ai_coac.Domain.{ReplayStatus, ReplayJobKind, ReplayJobStatus, created, process}
use league_of_legnds_ai_coac.Rows.{ReplayUploadRow, ReplayJobRow}
use league_of_legnds_ai_coac.Database.{Db}
use league_of_legnds_ai_coac.Repo.Sound.{IsSound, IsJobOk}

abbrev pub upload_row : ℕ → ReplayStatus → ℕ → ReplayUploadRow
upload_row id status version = record {
  id = id;
  match_id = "EUW1_1";
  platform = "euw1";
  selected_puuid = some "p";
  match_duration_ms = 1800000;
  status = status;
  processing_stage = none;
  progress_percent = 0;
  token_digest = some "st";
  original_filename = some "game.mp4";
  declared_content_type = some "video/mp4";
  declared_size_bytes = 100;
  actual_container = none;
  actual_size_bytes = none;
  source_sha256 = none;
  source_duration_ms = none;
  normalized_duration_ms = none;
  width = none;
  height = none;
  frame_rate_numerator = none;
  frame_rate_denominator = none;
  game_time_zero_ms = 0;
  available_game_time_start_ms = none;
  available_game_time_end_ms = none;
  source_object_key = some "source/1/input";
  normalized_object_key = none;
  rights_statement_version = "2026-08-01";
  rights_attested_at = 0;
  upload_expires_at = 1000;
  source_delete_after = some 500;
  derived_delete_after = none;
  warning_codes = [];
  error_code = none;
  error_retryable = some true;
  created_at = 0;
  updated_at = 0;
  processing_started_at = none;
  processing_finished_at = none;
  deleted_at = none;
  version = version;
}

abbrev pub job_row : ℕ → ℕ → ReplayJobKind → ReplayJobRow
job_row id replay_id kind = record {
  id = id;
  replay_id = replay_id;
  kind = kind;
  status = ReplayJobStatus.pending;
  attempt_count = 0;
  max_attempts = 3;
  available_at = 5;
  claimed_at = none;
  heartbeat_at = none;
  finished_at = none;
  worker_id = none;
  last_error_code = none;
  created_at = 5;
  updated_at = 5;
}

-- A job that a worker has claimed and was heard of at 10.
abbrev pub running_row : ℕ → ℕ → ReplayJobKind → ReplayJobRow
running_row id replay_id kind = record (job_row id replay_id kind) {
  status = ReplayJobStatus.running;
  attempt_count = 1;
  claimed_at = some 10;
  heartbeat_at = some 10;
  worker_id = some "w";
}

abbrev pub empty_db : Db
empty_db = record { uploads = []; jobs = []; artifacts = [] }

abbrev pub db_with : List ReplayUploadRow → List ReplayJobRow → Db
db_with uploads jobs = record { uploads = uploads; jobs = jobs; artifacts = [] }

pub empty-IsSound : IsSound empty_db
empty-IsSound = record {
  upload_keys = λ k. omega arith;
  job_keys = λ k. omega arith;
  one_active = λ replay_id kind. omega arith;
  jobs_ok = tt;
  owned = tt;
}

-- One replay, with no job.
pub one-IsSound : (u : ReplayUploadRow) → IsSound (db_with (u ∷ []) [])
one-IsSound u = record {
  upload_keys = λ k. ground arith;
  job_keys = λ k. omega arith;
  one_active = λ replay_id kind. omega arith;
  jobs_ok = tt;
  owned = tt;
}

-- One replay with one job of its own.
pub pair-IsSound :
    (u : ReplayUploadRow) (j : ReplayJobRow)
    → IsJobOk j
    → u.id ≡ j.replay_id
    → IsSound (db_with (u ∷ []) (j ∷ []))
pair-IsSound u j fine own = record {
  upload_keys = λ k. ground arith;
  job_keys = λ k. ground arith;
  one_active = λ replay_id kind. ground arith;
  jobs_ok = (fine, tt);
  owned = (ground arith, tt);
}

pub pending-IsJobOk :
    (id replay_id : ℕ) (kind : ReplayJobKind) → IsJobOk (job_row id replay_id kind)
pending-IsJobOk id replay_id kind = ground arith

pub running-IsJobOk :
    (id replay_id : ℕ) (kind : ReplayJobKind) → IsJobOk (running_row id replay_id kind)
running-IsJobOk id replay_id kind = ground arith
