-- ===== src/Processor/Failing.antt =====
-- The retry delay, and how a job that failed and its replay are settled together.
use mathlib.Core.Path.{subst}
use league_of_legnds_ai_coac.Prelude.{
  ap, ◌==◌, find_sound, ℕ, zero, suc, ◌≡◌, ◌≤◌, ◌+◌, ◌*◌, ◌^◌, String, Bool, true, false, ◌&&◌,
  Option, none, some, ltb, arith, ◌∙◌, if◌then◌else◌, ok, refl,
}
use league_of_legnds_ai_coac.Prelude.Tables.{find-written}
use league_of_legnds_ai_coac.Domain.{ReplayJobStatus}
use league_of_legnds_ai_coac.Rows.{ReplayJobRow}
use league_of_legnds_ai_coac.Database.{Db, find_job, write_job}
use league_of_legnds_ai_coac.Repo.Jobs.{failed_row}
use league_of_legnds_ai_coac.Repo.Sound.Settling.{fail_inv}
use league_of_legnds_ai_coac.Processor.{retry_base, retry_delay, retry_at, fail_job}

pow_pos : (n : ℕ) → 1 ≤ 2 ^ n
pow_pos zero = omega arith
pow_pos (suc n) = omega (arith, pow_pos n)

-- With a jitter of at most a quarter of the base, as it is drawn, a retry waits at least one second
-- and at most 75, whatever the number of attempts.
pub retry_delay_bounds :
    (attempt_count jitter : ℕ)
    → 4 * jitter ≤ retry_base attempt_count
    → (1000000 ≤ retry_delay attempt_count jitter) × (retry_delay attempt_count jitter ≤ 75000000)
unfolding retry_delay retry_base
retry_delay_bounds attempt_count jitter small = ground (arith, pow_pos attempt_count)

failed_row_columns :
    (code : String) (now : ℕ) (at : Option ℕ) (row : ReplayJobRow)
    → ((failed_row code now at row).id ≡ row.id) × ((failed_row code now at row).worker_id ≡ none)
unfolding failed_row
failed_row_columns code now none row = (refl, refl)
failed_row_columns code now (some at) row = ground arith

again_columns :
    (code : String) (now at : ℕ) (job stored : ReplayJobRow) (retryable : Bool)
    → stored.attempt_count ≡ job.attempt_count
    → stored.max_attempts ≡ job.max_attempts
    → (retryable && ltb job.attempt_count job.max_attempts) ≡ true
    → let row =
        failed_row code now
          (if retryable && ltb job.attempt_count job.max_attempts then some at else none)
          stored in
      (row.status ≡ ReplayJobStatus.retry_scheduled) × (row.available_at ≡ at)
unfolding failed_row
again_columns code now at job stored retryable attempts most again = ground arith

final_column :
    (code : String) (now : ℕ) (job : ReplayJobRow) (test : Bool) (at : ℕ)
    → test ≡ false
    → (failed_row code now (if test then some at else none) job).status ≡ ReplayJobStatus.failed
unfolding failed_row
final_column code now job test at ended = rw ended refl

row_key : (k : ℕ) (db : Db) (row : ReplayJobRow) → find_job k db ≡ some row → row.id ≡ k
row_key k db row found =
    let test = find_sound (λ j. j.id == k) db.jobs {a = row} found in ground arith

-- A job that `_fail_job` settles while its row has the number of attempts that it was claimed with, as
-- a heartbeat leaves it, goes back to the queue exactly if the failure is retryable and an attempt is
-- left, and then not before the retry delay; else it is FAILED.
pub fail_job_lem :
    (job : ReplayJobRow) (code : String) (retryable : Bool) (now jitter : ℕ) (db : Db)
    (row : ReplayJobRow) {r : ReplayJobRow} {db' : Db}
    → find_job job.id db ≡ some row
    → row.attempt_count ≡ job.attempt_count
    → row.max_attempts ≡ job.max_attempts
    → fail_job job code retryable now jitter db ≡ ok (r, db')
    → (find_job job.id db' ≡ some r)
      × (r.worker_id ≡ none)
      × ((retryable && ltb job.attempt_count job.max_attempts) ≡ true
          → (r.status ≡ ReplayJobStatus.retry_scheduled)
            × (r.available_at ≡ now + retry_delay job.attempt_count jitter))
      × ((retryable && ltb job.attempt_count job.max_attempts) ≡ false
          → r.status ≡ ReplayJobStatus.failed)
unfolding fail_job retry_at
fail_job_lem job code retryable now jitter db row {r} {db'} found attempts most h =
    let (row', found', same', _, tables) =
      fail_inv job.id code now (retry_at job retryable now jitter) db {r = r} {db' = db'} h in
    let is_row : row' ≡ row = ground arith in
    let at : Option ℕ = retry_at job retryable now jitter in
    let (key, worker) = failed_row_columns code now at row in
    let mine : r ≡ failed_row code now at row = same' ∙ ap (failed_row code now at) is_row in
    let rid : r.id ≡ job.id = ap (λ j. j.id) mine ∙ key ∙ row_key job.id db row found in
    (
      rw tables (
          subst (λ k. find_job k (write_job r db) ≡ some r) rid
            (ground (arith, rid, find-written (λ j. j.id) r r.id db.jobs))),
      rw (mine, worker) refl,
      λ again. rw mine (
          again_columns code now (now + retry_delay job.attempt_count jitter) job row retryable
            attempts most again),
      λ ended. rw mine (
          final_column code now row (retryable && ltb job.attempt_count job.max_attempts)
            (now + retry_delay job.attempt_count jitter) ended),
    )
