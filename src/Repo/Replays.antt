-- ===== src/Repo/Replays.antt =====
-- `SqlReplayRepository`. `datetime.now(UTC)` is the argument `now`; a set of expected statuses is a
-- Boolean test.
use league_of_legnds_ai_coac.Prelude.{
  ℕ, ◌+◌, String, Bool, ◌&&◌, Option, none, some, List, [], ◌∷◌, ◌++◌, ◌==◌, if◌then◌else◌, any,
  find, Outcome, ok, raise,
}
use league_of_legnds_ai_coac.Domain.{ReplayStatus, deleted, process, ReplayJobStatus}
use league_of_legnds_ai_coac.Rows.{ReplayUploadRow, ReplayJobRow}
use league_of_legnds_ai_coac.Database.{
  Db, DbError, state_conflict, active_job_conflict, active_job_integrity, other_integrity, Tx,
  add_job, find_upload, write_upload,
}

-- An entry of the mapping `values`: the columns that the callers assign. None of them is a column of
-- the CHECK ck_replay_uploads_active_sensitive_fields, and what clears those columns (`scrubbed`)
-- makes the row DELETED.
pub data Assign : Type 0 where
  set_actual_size_bytes : Option ℕ → Assign
  set_source_sha256 : Option String → Assign
  set_updated_at : ℕ → Assign
  set_error_code : Option String → Assign
  set_error_retryable : Option Bool → Assign
  set_processing_stage : Option String → Assign
  set_progress_percent : ℕ → Assign
  set_source_object_key : Option String → Assign
  set_source_delete_after : Option ℕ → Assign
  set_derived_delete_after : Option ℕ → Assign
  set_processing_started_at : Option ℕ → Assign
  set_processing_finished_at : Option ℕ → Assign
  set_normalized_object_key : Option String → Assign
  set_normalized_duration_ms : Option ℕ → Assign
  set_source_duration_ms : Option ℕ → Assign
  set_dimensions : Option ℕ → Option ℕ → Assign
  set_frame_rate : Option ℕ → Option ℕ → Assign
  set_actual_container : Option String → Assign
  set_available_game_time : Option ℕ → Option ℕ → Assign
  set_warning_codes : List String → Assign

unfoldable pub assign : Assign → ReplayUploadRow → ReplayUploadRow
assign (set_actual_size_bytes v) r = record r { actual_size_bytes = v }
assign (set_source_sha256 v) r = record r { source_sha256 = v }
assign (set_updated_at v) r = record r { updated_at = v }
assign (set_error_code v) r = record r { error_code = v }
assign (set_error_retryable v) r = record r { error_retryable = v }
assign (set_processing_stage v) r = record r { processing_stage = v }
assign (set_progress_percent v) r = record r { progress_percent = v }
assign (set_source_object_key v) r = record r { source_object_key = v }
assign (set_source_delete_after v) r = record r { source_delete_after = v }
assign (set_derived_delete_after v) r = record r { derived_delete_after = v }
assign (set_processing_started_at v) r = record r { processing_started_at = v }
assign (set_processing_finished_at v) r = record r { processing_finished_at = v }
assign (set_normalized_object_key v) r = record r { normalized_object_key = v }
assign (set_normalized_duration_ms v) r = record r { normalized_duration_ms = v }
assign (set_source_duration_ms v) r = record r { source_duration_ms = v }
assign (set_dimensions w h) r = record r { width = w; height = h }
assign (set_frame_rate n d) r = record r { frame_rate_numerator = n; frame_rate_denominator = d }
assign (set_actual_container v) r = record r { actual_container = v }
assign (set_available_game_time s e) r = record r {
  available_game_time_start_ms = s;
  available_game_time_end_ms = e;
}
assign (set_warning_codes v) r = record r { warning_codes = v }

unfoldable pub assign_all : List Assign → ReplayUploadRow → ReplayUploadRow
unfolding assign
assign_all [] r = r
assign_all (a ∷ as') r = assign_all as' (assign a r)

-- `{"status": …, "version": expected_version + 1, "updated_at": now, **values}`
unfoldable pub moved : ReplayStatus → ℕ → ℕ → List Assign → ReplayUploadRow → ReplayUploadRow
unfolding assign_all
moved status expected_version now values row =
    assign_all values
      (record row { status = status; version = expected_version + 1; updated_at = now })

-- The `where` of the conditional update.
abbrev pub meets : ℕ → (ReplayStatus → Bool) → ℕ → ReplayUploadRow → Bool
meets replay_id expected_statuses expected_version row =
    row.id == replay_id && row.version == expected_version && expected_statuses row.status

unfoldable pub get : ℕ → Db → Option ReplayUploadRow
get replay_id db = find_upload replay_id db

-- A new row: the primary key is the constraint that can fail (the caller's values meet the CHECKs).
unfoldable pub create : ReplayUploadRow → Tx ReplayUploadRow
create row db =
    if any (λ u. u.id == row.id) db.uploads
    then raise other_integrity
    else ok (row, record db { uploads = db.uploads ++ row ∷ [] })

unfoldable pub transition :
    ℕ → (ReplayStatus → Bool) → ℕ → ReplayStatus → List Assign → ℕ → Tx ReplayUploadRow
unfolding moved
transition replay_id expected_statuses expected_version status values now db =
    elim (find (meets replay_id expected_statuses expected_version) db.uploads) [
      | none ↦ raise state_conflict
      | some row ↦
          let row' = moved status expected_version now values row in ok (row', write_upload row' db)
    ]

-- The job that `queue_process_job` adds; `job_id` is its `uuid4()`.
abbrev pub process_job : ℕ → ℕ → ℕ → ℕ → ℕ → ReplayJobRow
process_job job_id replay_id max_attempts available_at now = record {
  id = job_id;
  replay_id = replay_id;
  kind = process;
  status = ReplayJobStatus.pending;
  attempt_count = 0;
  max_attempts = max_attempts;
  available_at = available_at;
  claimed_at = none;
  heartbeat_at = none;
  finished_at = none;
  worker_id = none;
  last_error_code = none;
  created_at = now;
  updated_at = now;
}

-- `except IntegrityError`: only the active-job index becomes a conflict.
unfoldable pub as_conflict :
    ReplayUploadRow → Outcome DbError (ReplayJobRow × Db) → Outcome DbError (ReplayUploadRow × Db)
as_conflict row (ok (_, db)) = ok (row, db)
as_conflict row (raise active_job_integrity) = raise active_job_conflict
as_conflict row (raise e) = raise e

unfoldable pub queue_process_job :
    ℕ → (ReplayStatus → Bool) → ℕ → ReplayStatus → List Assign → ℕ → ℕ → ℕ → ℕ → Tx ReplayUploadRow
unfolding moved as_conflict
queue_process_job replay_id expected_statuses expected_version status values available_at
      max_attempts job_id now db =
    elim (find (meets replay_id expected_statuses expected_version) db.uploads) [
      | none ↦ raise state_conflict
      | some row ↦
          let row' = moved status expected_version now values row in
          as_conflict row' (
            add_job (process_job job_id replay_id max_attempts available_at now)
              (write_upload row' db))
    ]

-- `_SENSITIVE_SCRUB_FIELDS` and the columns that `scrub_deleted` sets beside them.
unfoldable pub scrubbed : ℕ → ReplayUploadRow → ReplayUploadRow
scrubbed now row = record row {
  selected_puuid = none;
  token_digest = none;
  original_filename = none;
  declared_content_type = none;
  source_object_key = none;
  normalized_object_key = none;
  source_sha256 = none;
  width = none;
  height = none;
  frame_rate_numerator = none;
  frame_rate_denominator = none;
  actual_size_bytes = none;
  actual_container = none;
  source_duration_ms = none;
  normalized_duration_ms = none;
  status = deleted;
  deleted_at = some now;
  updated_at = now;
  processing_stage = none;
  error_code = none;
  error_retryable = none;
  available_game_time_start_ms = none;
  available_game_time_end_ms = none;
  warning_codes = [];
}

unfoldable pub scrub_deleted : ℕ → ℕ → Tx ReplayUploadRow
unfolding scrubbed
scrub_deleted replay_id now db = elim (find_upload replay_id db) [
  | none ↦ raise state_conflict
  | some row ↦ let row' = scrubbed now row in ok (row', write_upload row' db)
]
