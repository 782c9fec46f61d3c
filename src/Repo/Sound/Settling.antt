-- ===== src/Repo/Sound/Settling.antt =====
-- A heartbeat and the settlements of a job keep the tables sound.
use league_of_legnds_ai_coac.Prelude.{
  ℕ, ◌≡◌, refl, String, true, false, not, ◌&&◌, Option, none, some, ◌==◌, any, find_sound, arith,
  Bool-cases, Option-cases, inl, inr, ok, sym,
}
use mathlib.Core.Path.{subst}
use league_of_legnds_ai_coac.Prelude.Tables.{All-update_where, All-find, count-update_where}
use league_of_legnds_ai_coac.Domain.{ReplayJobStatus}
use league_of_legnds_ai_coac.Rows.{ReplayJobRow, is_active}
use league_of_legnds_ai_coac.Database.{Db, clashes, find_job, write_job}
use league_of_legnds_ai_coac.Repo.Jobs.{
  is_active_for, is_held_by, heartbeat, settled, succeed, cancel, failed_row, fail,
}
use league_of_legnds_ai_coac.Repo.Sound.{IsJobOk, IsOwned, IsSound}
use league_of_legnds_ai_coac.Repo.Sound.Writes.{write_job-IsSound, write_clear_job-IsSound}

-- The row that was found under a key has that key.
pub found_under_key :
    (job_id : ℕ) (db : Db) {row : ReplayJobRow}
    → find_job job_id db ≡ some row
    → (row.id ≡ job_id) × (find_job row.id db ≡ some row)
found_under_key job_id db {row} found =
    let same : row.id ≡ job_id =
      ground (arith, find_sound (λ j. j.id == job_id) db.jobs {a = row} found) in
    (same, subst (λ k. find_job k db ≡ some row) (sym same) found)

pub heartbeat-IsSound :
    (job_id : ℕ) (worker_id : String) (now : ℕ) (db : Db)
    → IsSound db
    → IsSound (heartbeat job_id worker_id now db)
unfolding heartbeat
heartbeat-IsSound job_id worker_id now db sound = record {
  upload_keys = sound.upload_keys;
  job_keys = λ k.
      rw
        (count-update_where (λ j. j.id == k) (is_held_by job_id worker_id) beat db.jobs (λ _. refl))
        (sound.job_keys k);
  one_active = λ replay_id kind.
      rw
        (count-update_where (is_active_for replay_id kind) (is_held_by job_id worker_id) beat
          db.jobs (λ _. refl))
        (sound.one_active replay_id kind);
  jobs_ok =
      All-update_where IsJobOk (is_held_by job_id worker_id) beat db.jobs
        (λ j held fine. beat-IsJobOk j held fine) sound.jobs_ok;
  owned =
      All-update_where (IsOwned db) (is_held_by job_id worker_id) beat db.jobs (λ _ _ own. own)
        sound.owned;
}
  where
    beat : ReplayJobRow → ReplayJobRow
    beat j = record j { heartbeat_at = some now; updated_at = now }

    beat-IsJobOk :
        (j : ReplayJobRow) → is_held_by job_id worker_id j ≡ true → IsJobOk j → IsJobOk (beat j)
    beat-IsJobOk j held fine = ground arith

-- A row written by `succeed` or `cancel`.
settled-IsSound :
    (status : ReplayJobStatus) (now : ℕ) (job_id : ℕ) (row : ReplayJobRow) (db : Db)
    → is_active status ≡ false
    → IsSound db
    → find_job job_id db ≡ some row
    → IsSound (write_job (settled status now row) db)
settled-IsSound status now job_id row db inactive sound found =
    let fine : IsJobOk row =
      All-find IsJobOk (λ j. j.id == job_id) db.jobs {x = row} found sound.jobs_ok in
    write_job-IsSound db (settled status now row) row sound
      (found_under_key job_id db {row = row} found).1 (ground arith) refl
      (λ replay_id kind e. ground arith)

pub succeed-IsSound :
    (job_id now : ℕ) (db : Db) {r : ReplayJobRow} {db' : Db}
    → IsSound db
    → succeed job_id now db ≡ ok (r, db')
    → IsSound db'
unfolding succeed
succeed-IsSound job_id now db {r} {db'} sound h = elim (Option-cases (find_job job_id db)) [
  | inl e ↦ absurd (ground arith)
  | inr (row, e) ↦
      let tables : db' ≡ write_job (settled ReplayJobStatus.succeeded now row) db = ground arith in
      rw tables (settled-IsSound ReplayJobStatus.succeeded now job_id row db refl sound e)
]

pub cancel-IsSound :
    (job_id now : ℕ) (db : Db) {r : ReplayJobRow} {db' : Db}
    → IsSound db
    → cancel job_id now db ≡ ok (r, db')
    → IsSound db'
unfolding cancel
cancel-IsSound job_id now db {r} {db'} sound h = elim (Option-cases (find_job job_id db)) [
  | inl e ↦ absurd (ground arith)
  | inr (row, e) ↦
      let tables : db' ≡ write_job (settled ReplayJobStatus.cancelled now row) db = ground arith in
      rw tables (settled-IsSound ReplayJobStatus.cancelled now job_id row db refl sound e)
]

failed_row-IsJobOk :
    (error_code : String) (now : ℕ) (available_at : Option ℕ) (row : ReplayJobRow)
    → IsJobOk row
    → IsJobOk (failed_row error_code now available_at row)
unfolding failed_row
failed_row-IsJobOk error_code now none row fine = ground arith
failed_row-IsJobOk error_code now (some at) row fine = ground arith

same-failed_row :
    (error_code : String) (now : ℕ) (available_at : Option ℕ) (row : ReplayJobRow)
    → ((failed_row error_code now available_at row).id ≡ row.id)
      × ((failed_row error_code now available_at row).replay_id ≡ row.replay_id)
unfolding failed_row
same-failed_row error_code now none row = (refl, refl)
same-failed_row error_code now (some at) row = ground arith

-- What it takes that `fail` settles a job, and what is then there.
pub fail_inv :
    (job_id : ℕ) (error_code : String) (now : ℕ) (available_at : Option ℕ) (db : Db)
    {r : ReplayJobRow} {db' : Db}
    → fail job_id error_code now available_at db ≡ ok (r, db')
    → (row : ReplayJobRow) × (find_job job_id db ≡ some row)
      × (r ≡ failed_row error_code now available_at row)
      × (any (λ j. not (j.id == r.id) && clashes r j) db.jobs ≡ false)
      × (db' ≡ write_job r db)
unfolding fail
fail_inv job_id error_code now available_at db {r} {db'} h =
    elim (Option-cases (find_job job_id db)) [
      | inl e ↦ absurd (ground arith)
      | inr (row, e) ↦
          elim (Bool-cases (
            any
              (λ j.
                not (j.id == (failed_row error_code now available_at row).id)
                && clashes (failed_row error_code now available_at row) j)
              db.jobs)) [
                | inl clash ↦ absurd (ground arith)
                | inr clear ↦
                    let same : r ≡ failed_row error_code now available_at row = ground arith in
                    (row, e, same, rw same clear, ground arith)
              ]
    ]

pub fail-IsSound :
    (job_id : ℕ) (error_code : String) (now : ℕ) (available_at : Option ℕ) (db : Db)
    {r : ReplayJobRow} {db' : Db}
    → IsSound db
    → fail job_id error_code now available_at db ≡ ok (r, db')
    → IsSound db'
fail-IsSound job_id error_code now available_at db {r} {db'} sound h =
    let (row, found, same, clear, tables) =
      fail_inv job_id error_code now available_at db {r = r} {db' = db'} h in
    let (same_id, same_replay) = same-failed_row error_code now available_at row in
    let under_key = (found_under_key job_id db {row = row} found).1 in
    rw (tables, same)
      (write_clear_job-IsSound db (failed_row error_code now available_at row) row sound
        (subst (λ k. find_job k db ≡ some row) (sym same_id) under_key)
        (failed_row-IsJobOk error_code now available_at row
          (All-find IsJobOk (λ j. j.id == job_id) db.jobs {x = row} found sound.jobs_ok))
        same_replay (rw same at clear))
