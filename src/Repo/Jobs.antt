-- ===== src/Repo/Jobs.antt =====
-- `SqlReplayJobRepository`: the job queue. Transactions run one after another here, so no row that
-- `skip_locked` would pass over is locked; the draws of `uuid4()` are arguments.
use league_of_legnds_ai_coac.Prelude.{
  ℕ, ◌+◌, String, Bool, false, not, ◌&&◌, ◌||◌, Option, none, some, List, [], ◌∷◌, ◌==◌, ltb, leb,
  if◌then◌else◌, any, find, filter, update_where, ok, raise, str_eq,
}
use league_of_legnds_ai_coac.Domain.{ReplayJobKind, ReplayJobStatus}
use league_of_legnds_ai_coac.Rows.{ReplayJobRow, is_active, is_claimable, is_running, same_kind}
use league_of_legnds_ai_coac.Database.{
  Db, state_conflict, active_job_integrity, no_result, Tx, clashes, add_job, find_job, write_job,
}

-- The row that `enqueue` and `_new_job` build.
abbrev pub pending_job : ℕ → ℕ → ReplayJobKind → ℕ → ℕ → ℕ → ReplayJobRow
pending_job job_id replay_id kind available_at max_attempts now = record {
  id = job_id;
  replay_id = replay_id;
  kind = kind;
  status = ReplayJobStatus.pending;
  attempt_count = 0;
  max_attempts = max_attempts;
  available_at = available_at;
  claimed_at = none;
  heartbeat_at = none;
  finished_at = none;
  worker_id = none;
  last_error_code = none;
  created_at = now;
  updated_at = now;
}

unfoldable pub enqueue : ℕ → ReplayJobKind → ℕ → ℕ → ℕ → ℕ → Tx ReplayJobRow
enqueue replay_id kind available_at max_attempts job_id now =
    add_job (pending_job job_id replay_id kind available_at max_attempts now)

-- The `where` of `_get_active_job` and `_has_active_job`.
abbrev pub is_active_for : ℕ → ReplayJobKind → ReplayJobRow → Bool
is_active_for replay_id kind j =
    j.replay_id == replay_id && same_kind j.kind kind && is_active j.status

unfoldable pub get_active_job : ℕ → ReplayJobKind → Db → Option ReplayJobRow
get_active_job replay_id kind db = find (is_active_for replay_id kind) db.jobs

-- `order_by(available_at, created_at)`
abbrev pub comes_before : ReplayJobRow → ReplayJobRow → Bool
comes_before a b =
    ltb a.available_at b.available_at
    || a.available_at == b.available_at && leb a.created_at b.created_at

-- `… .limit(1)`: the first row in that order.
abbrev pub first_of_two : ReplayJobRow → Option ReplayJobRow → ReplayJobRow
first_of_two a none = a
first_of_two a (some b) = if comes_before a b then a else b

unfoldable pub first_job : List ReplayJobRow → Option ReplayJobRow
first_job [] = none
first_job (j ∷ js) = some (first_of_two j (first_job js))

-- The `where` of `claim_next`.
abbrev pub is_due : ℕ → ReplayJobRow → Bool
is_due now j = is_claimable j.status && leb j.available_at now

unfoldable pub claimed : String → ℕ → ReplayJobRow → ReplayJobRow
claimed worker_id now row = record row {
  status = ReplayJobStatus.running;
  claimed_at = some now;
  heartbeat_at = some now;
  worker_id = some worker_id;
  attempt_count = row.attempt_count + 1;
  updated_at = now;
}

unfoldable pub claim_next : String → ℕ → Db → Option ReplayJobRow × Db
unfolding claimed
claim_next worker_id now db = elim (first_job (filter (is_due now) db.jobs)) [
  | none ↦ (none, db)
  | some row ↦ let row' = claimed worker_id now row in (some row', write_job row' db)
]

abbrev pub is_held_by : ℕ → String → ReplayJobRow → Bool
is_held_by job_id worker_id j =
    j.id == job_id
    && (elim j.worker_id [ none ↦ false | some w ↦ str_eq w worker_id ])
    && is_running j.status

unfoldable pub heartbeat : ℕ → String → ℕ → Db → Db
heartbeat job_id worker_id now db = record db {
  jobs =
      update_where (is_held_by job_id worker_id)
        (λ j. record j { heartbeat_at = some now; updated_at = now }) db.jobs;
}

-- The columns that `succeed` and `cancel` write.
abbrev pub settled : ReplayJobStatus → ℕ → ReplayJobRow → ReplayJobRow
settled status now row = record row {
  status = status;
  finished_at = some now;
  updated_at = now;
  worker_id = none;
  claimed_at = none;
  heartbeat_at = none;
}

unfoldable pub succeed : ℕ → ℕ → Tx ReplayJobRow
succeed job_id now db = elim (find_job job_id db) [
  | none ↦ raise no_result
  | some row ↦ let row' = settled ReplayJobStatus.succeeded now row in ok (row', write_job row' db)
]

unfoldable pub cancel : ℕ → ℕ → Tx ReplayJobRow
cancel job_id now db = elim (find_job job_id db) [
  | none ↦ raise state_conflict
  | some row ↦ let row' = settled ReplayJobStatus.cancelled now row in ok (row', write_job row' db)
]

-- The branch of `fail`: retried while an instant is given and attempts are left.
abbrev pub retried_or_failed : Option ℕ → ℕ → ReplayJobRow → ReplayJobRow
retried_or_failed none now row = record row {
  status = ReplayJobStatus.failed;
  finished_at = some now;
}
retried_or_failed (some available_at) now row =
    if ltb row.attempt_count row.max_attempts
    then record row {
      status = ReplayJobStatus.retry_scheduled;
      available_at = available_at;
      finished_at = none;
    }
    else record row { status = ReplayJobStatus.failed; finished_at = some now }

unfoldable pub failed_row : String → ℕ → Option ℕ → ReplayJobRow → ReplayJobRow
failed_row error_code now available_at row = retried_or_failed available_at now (record row {
  last_error_code = some error_code;
  updated_at = now;
  worker_id = none;
  claimed_at = none;
  heartbeat_at = none;
})

-- The flush checks the unique index, since a job that was not active may become so.
unfoldable pub fail : ℕ → String → ℕ → Option ℕ → Tx ReplayJobRow
fail job_id error_code now available_at db = elim (find_job job_id db) [
  | none ↦ raise state_conflict
  | some row ↦
      let row' = failed_row error_code now available_at row in
      if any (λ j. not (j.id == row'.id) && clashes row' j) db.jobs
      then raise active_job_integrity
      else ok (row', write_job row' db)
]
