-- ===== src/Repo/Retention.antt =====
-- The retention sweep: `enqueue_due_retention`, with `_delete_all_due_predicate`.
use league_of_legnds_ai_coac.Prelude.{
  ℕ, ◌+◌, Bool, false, not, ◌&&◌, ◌||◌, Option, none, some, List, [], ◌∷◌, ◌==◌, leb, if◌then◌else◌,
  any, filter, Outcome, ok, raise, ◌>>=◌,
}
use league_of_legnds_ai_coac.Domain.{
  ReplayStatus, ReplayJobKind, created, uploaded, expired, deleting, deleted, delete_all,
  delete_source,
}
use league_of_legnds_ai_coac.Rows.{ReplayUploadRow, same_status}
use league_of_legnds_ai_coac.Database.{Db, DbError, add_job}
use league_of_legnds_ai_coac.Repo.Jobs.{pending_job, is_active_for}

-- `_TOMBSTONE_RETENTION` and `_FAILED_FULL_DELETE_AFTER`: seven days, in microseconds.
abbrev pub tombstone_retention : ℕ
tombstone_retention = 604800000000

abbrev pub failed_full_delete_after : ℕ
failed_full_delete_after = 604800000000

-- `column IS NOT NULL AND column <= limit`, with the subtraction of `limit` moved across.
abbrev pub is_past : Option ℕ → ℕ → ℕ → Bool
is_past none retention now = false
is_past (some instant) retention now = leb (instant + retention) now

abbrev pub is_tombstone : ℕ → ReplayUploadRow → Bool
is_tombstone now u = same_status u.status deleted && is_past u.deleted_at tombstone_retention now

abbrev pub is_awaiting_upload : ReplayStatus → Bool
is_awaiting_upload s = same_status s created || same_status s uploaded || same_status s expired

-- `_delete_all_due_predicate`
abbrev pub is_delete_all_due : ℕ → ReplayUploadRow → Bool
is_delete_all_due now u =
    is_past u.derived_delete_after 0 now
    || same_status u.status deleting
    || leb u.upload_expires_at now && is_awaiting_upload u.status
    || same_status u.status ReplayStatus.failed
      && is_past u.processing_finished_at failed_full_delete_after now

-- The `where` of the second selection, but for `exclude_ids`.
abbrev pub is_source_due : ℕ → ReplayUploadRow → Bool
is_source_due now u =
    is_past u.source_delete_after 0 now
    && not (same_status u.status deleted || same_status u.status deleting)

-- `delete … where`, with `ON DELETE CASCADE` to the jobs and the artifacts.
unfoldable pub purge_tombstones : ℕ → Db → Db
purge_tombstones now db =
    let purged = filter (is_tombstone now) db.uploads in
    record {
      uploads = filter (λ u. not (is_tombstone now u)) db.uploads;
      jobs = filter (λ j. not (any (λ u. u.id == j.replay_id) purged)) db.jobs;
      artifacts = filter (λ a. not (any (λ u. u.id == a.replay_id) purged)) db.artifacts;
    }

abbrev pub has_active_job : ℕ → ReplayJobKind → Db → Bool
has_active_job replay_id kind db = any (is_active_for replay_id kind) db.jobs

-- What the loops carry: how many jobs they have created, and the tables. The number of the next
-- draw of `uuid4()` is that count.
abbrev pub Sweep : Type 0
Sweep = ℕ × Db

-- `_new_job` with `session.add`, and `created += 1`.
abbrev pub add_new : (ℕ → ℕ) → ℕ → ReplayJobKind → ℕ → Sweep → Outcome DbError Sweep
add_new uuid replay_id kind now (count, db) =
    elim (add_job (pending_job (uuid count) replay_id kind now 3 now) db) [
      | ok (_, db') ↦ ok (count + 1, db')
      | raise e ↦ raise e
    ]

-- `for row in delete_all_rows`
unfoldable pub sweep_delete_all : (ℕ → ℕ) → ℕ → List ReplayUploadRow → Sweep → Outcome DbError Sweep
sweep_delete_all uuid now [] s = ok s
sweep_delete_all uuid now (u ∷ us) s =
    (if has_active_job u.id delete_all s.1 then ok s else add_new uuid u.id delete_all now s)
    >>= sweep_delete_all uuid now us

-- `for row in source_rows`
unfoldable pub sweep_source : (ℕ → ℕ) → ℕ → List ReplayUploadRow → Sweep → Outcome DbError Sweep
sweep_source uuid now [] s = ok s
sweep_source uuid now (u ∷ us) s =
    (if has_active_job u.id delete_source s.1 || has_active_job u.id delete_all s.1
      then ok s
      else add_new uuid u.id delete_source now s)
    >>= sweep_source uuid now us

unfoldable pub enqueue_due_retention : (ℕ → ℕ) → ℕ → Db → Outcome DbError Sweep
unfolding purge_tombstones sweep_delete_all sweep_source
enqueue_due_retention uuid now db =
    let purged = purge_tombstones now db in
    let due = filter (is_delete_all_due now) purged.uploads in
    let source_due =
      filter (λ u. is_source_due now u && not (any (λ d. d.id == u.id) due)) purged.uploads in
    sweep_delete_all uuid now due (0, purged) >>= sweep_source uuid now source_due
