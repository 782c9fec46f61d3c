-- ===== src/Processor/Deleted.antt =====
-- What a DELETE_ALL job that gets through leaves of a replay.
use league_of_legnds_ai_coac.Prelude.{
  ℕ, ◌≡◌, none, some, List, [], ◌==◌, filter, ap, Outcome, ok, raise,
}
use league_of_legnds_ai_coac.Domain.{deleted}
use league_of_legnds_ai_coac.Rows.{ReplayUploadRow, ReplayArtifactRow}
use league_of_legnds_ai_coac.Database.{Db, find_upload}
use league_of_legnds_ai_coac.Service.Calls.{World}
use league_of_legnds_ai_coac.Processor.{ProcessError}

raised :
    {O A : Type 0} {e : ProcessError} {b : A} {v w : World O}
    → ◌≡◌ {A = Outcome ProcessError A × World O} (raise e, v) (ok b, w)
    → ⊥
raised h = let first = ap (λ x. x.0) h in cc

abbrev pub artifacts_of : ℕ → Db → List ReplayArtifactRow
artifacts_of k db = filter (λ a. a.replay_id == k) db.artifacts

-- The row is DELETED, and what tells of the user or of the video is gone.
pub record IsScrubbed (row : ReplayUploadRow) : Type 0 where
  pub is_deleted : row.status ≡ deleted
  pub no_player : row.selected_puuid ≡ none
  pub no_token : row.token_digest ≡ none
  pub no_filename : row.original_filename ≡ none
  pub no_content_type : row.declared_content_type ≡ none
  pub no_source : row.source_object_key ≡ none
  pub no_normalized : row.normalized_object_key ≡ none
  pub no_digest : row.source_sha256 ≡ none
  pub no_size : row.actual_size_bytes ≡ none
  pub no_container : row.actual_container ≡ none
  pub no_width : row.width ≡ none
  pub no_height : row.height ≡ none
  pub no_rate : (row.frame_rate_numerator ≡ none) × (row.frame_rate_denominator ≡ none)
  pub no_durations : (row.source_duration_ms ≡ none) × (row.normalized_duration_ms ≡ none)
  pub no_game_times :
      (row.available_game_time_start_ms ≡ none) × (row.available_game_time_end_ms ≡ none)
  pub no_warnings : row.warning_codes ≡ []

-- The replay has no artifact, and its row is scrubbed.
pub record IsEmptied (replay_id : ℕ) (db : Db) : Type 0 where
  pub row : ReplayUploadRow
  pub row_found : find_upload replay_id db ≡ some row
  pub scrubbed_off : IsScrubbed row
  pub no_artifacts : artifacts_of replay_id db ≡ []

-- Other sessions leave the row and the artifacts of the replay alone.
pub record LeaveAlone (replay_id : ℕ) (others : ℕ → Db → Db) : Type 0 where
  pub same_row : (n : ℕ) (db : Db) → find_upload replay_id (others n db) ≡ find_upload replay_id db
  pub same_artifacts :
      (n : ℕ) (db : Db) → artifacts_of replay_id (others n db) ≡ artifacts_of replay_id db
