-- ===== src/Repo/Queueing.antt =====
-- `queue_process_job` of `SqlReplayRepository`.
use league_of_legnds_ai_coac.Prelude.{
  ℕ, ◌≡◌, refl, Bool, true, false, some, List, [], ◌∷◌, ◌++◌, any, find, arith, Option-cases, inl,
  inr, ok, raise, Outcome,
}
use league_of_legnds_ai_coac.Domain.{ReplayStatus, process}
use league_of_legnds_ai_coac.Rows.{ReplayUploadRow, ReplayJobRow, is_active}
use league_of_legnds_ai_coac.Database.{Db, DbError, clashes, add_job, write_upload}
use league_of_legnds_ai_coac.Repo.Jobs.{is_active_for}
use league_of_legnds_ai_coac.Repo.Replays.{
  Assign, moved, meets, process_job, as_conflict, queue_process_job,
}
use league_of_legnds_ai_coac.Repo.Sound.{IsSound}
use league_of_legnds_ai_coac.Repo.Sound.Writes.{add_job_inv, add_job-IsSound, write_upload-IsSound}
use league_of_legnds_ai_coac.Repo.Transition.{IsMoved, moved-IsMoved}

as_conflict_inv :
    (row : ReplayUploadRow) (o : Outcome DbError (ReplayJobRow × Db)) {r : ReplayUploadRow}
    {db' : Db}
    → as_conflict row o ≡ ok (r, db')
    → (r ≡ row) × ((job : ReplayJobRow) × (o ≡ ok (job, db')))
unfolding as_conflict
as_conflict_inv row (ok (job, db)) h = (ground arith, (job, ground arith))
as_conflict_inv row (raise e) h = absurd (ground arith)

-- What queueing that succeeds has found and written.
queue_process_job_inv :
    (replay_id : ℕ) (expected : ReplayStatus → Bool) (version : ℕ) (status : ReplayStatus)
    (values : List Assign) (available_at max_attempts job_id now : ℕ) (db : Db)
    {r : ReplayUploadRow} {db' : Db}
    → queue_process_job replay_id expected version status values available_at max_attempts job_id
        now db
      ≡ ok (r, db')
    → (row : ReplayUploadRow) × (find (meets replay_id expected version) db.uploads ≡ some row)
      × (r ≡ moved status version now values row)
      × ((job : ReplayJobRow) × (add_job
              (process_job job_id replay_id max_attempts available_at now)
              (write_upload r db)
            ≡ ok (job, db')))
unfolding queue_process_job
queue_process_job_inv replay_id expected version status values available_at max_attempts job_id now
      db {r} {db'} h =
    elim (Option-cases (find (meets replay_id expected version) db.uploads)) [
      | inl e ↦ absurd (ground arith)
      | inr (row, e) ↦
          let row' : ReplayUploadRow = moved status version now values row in
          let (same, (job, added)) =
            as_conflict_inv row'
              (add_job (process_job job_id replay_id max_attempts available_at now)
                (write_upload row' db))
              {r = r} {db' = db'} (rw (queue_process_job, e) at h) in
          (row, e, same, (job, rw same added))
    ]

no_clash :
    (new : ReplayJobRow) (jobs : List ReplayJobRow)
    → is_active new.status ≡ true
    → any (clashes new) jobs ≡ false
    → any (is_active_for new.replay_id new.kind) jobs ≡ false
no_clash new [] active clear = refl
no_clash new (j ∷ jobs) active clear = ground (arith, no_clash new jobs)

pub queue_process_job-IsSound :
    (replay_id : ℕ) (expected : ReplayStatus → Bool) (version : ℕ) (status : ReplayStatus)
    (values : List Assign) (available_at max_attempts job_id now : ℕ) (db : Db)
    {r : ReplayUploadRow} {db' : Db}
    → IsSound db
    → queue_process_job replay_id expected version status values available_at max_attempts job_id
        now db
      ≡ ok (r, db')
    → IsSound db'
queue_process_job-IsSound replay_id expected version status values available_at max_attempts job_id
      now db {r} {db'} sound h =
    let (row, _, _, (job, added)) =
      queue_process_job_inv replay_id expected version status values available_at max_attempts
        job_id now db {r = r} {db' = db'} h in
    let new = process_job job_id replay_id max_attempts available_at now in
    let (_, _, _, _, _, positive) =
      add_job_inv new (write_upload r db) {r = job} {db' = db'} added in
    add_job-IsSound new (write_upload r db) {r = job} {db' = db'} (write_upload-IsSound db r sound)
      (ground arith) added

-- `queue_process_job` is atomic: where it succeeds on sound tables, the replay has moved as by
-- `transition`, it had no active PROCESS job before, the new tables hold the old jobs and one new
-- pending PROCESS job of the replay that can be claimed from `available_at` on, and are sound.
pub queue_process_job_lem :
    (replay_id : ℕ) (expected : ReplayStatus → Bool) (version : ℕ) (status : ReplayStatus)
    (values : List Assign) (available_at max_attempts job_id now : ℕ) (db : Db)
    {r : ReplayUploadRow} {db' : Db}
    → IsSound db
    → queue_process_job replay_id expected version status values available_at max_attempts job_id
        now db
      ≡ ok (r, db')
    → IsMoved replay_id expected version status db r db'
      × (any (is_active_for replay_id process) db.jobs ≡ false)
      × (db'.jobs ≡ db.jobs ++ process_job job_id replay_id max_attempts available_at now ∷ [])
      × IsSound db'
queue_process_job_lem replay_id expected version status values available_at max_attempts job_id now
      db {r} {db'} sound h =
    let (row, found, same, (job, added)) =
      queue_process_job_inv replay_id expected version status values available_at max_attempts
        job_id now db {r = r} {db' = db'} h in
    let new = process_job job_id replay_id max_attempts available_at now in
    let (_, clear, _, tables, _, _) =
      add_job_inv new (write_upload r db) {r = job} {db' = db'} added in
    let one = moved-IsMoved replay_id expected version status values now db row sound found in
    (
      rw (tables, same)
          (record {
            before = one.before;
            before_found = one.before_found;
            before_version = one.before_version;
            before_expected = one.before_expected;
            after_found = one.after_found;
            after_status = one.after_status;
            after_version = one.after_version;
            others = one.others;
          }),
      no_clash new db.jobs refl clear,
      rw tables refl,
      queue_process_job-IsSound replay_id expected version status values available_at max_attempts
          job_id now db {r = r} {db' = db'} sound h,
    )

pub queue_process_job_uploads :
    (replay_id : ℕ) (expected : ReplayStatus → Bool) (version : ℕ) (status : ReplayStatus)
    (values : List Assign) (available_at max_attempts job_id now : ℕ) (db : Db)
    {r : ReplayUploadRow} {db' : Db}
    → queue_process_job replay_id expected version status values available_at max_attempts job_id
        now db
      ≡ ok (r, db')
    → db'.uploads ≡ (write_upload r db).uploads
queue_process_job_uploads replay_id expected version status values available_at max_attempts job_id
      now db {r} {db'} h =
    let (_, _, _, (job, added)) =
      queue_process_job_inv replay_id expected version status values available_at max_attempts
        job_id now db {r = r} {db' = db'} h in
    let (_, _, _, tables, _, _) =
      add_job_inv (process_job job_id replay_id max_attempts available_at now) (write_upload r db)
        {r = job} {db' = db'} added in
    rw tables refl
