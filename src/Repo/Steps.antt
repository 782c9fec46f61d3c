-- ===== src/Repo/Steps.antt =====
-- The transactions of the replay repositories as steps between tables, in any order and from any
-- number of sessions, one after another.
use league_of_legnds_ai_coac.Prelude.{ℕ, ◌≡◌, String, Bool, true, false, Option, List, ok}
use league_of_legnds_ai_coac.Domain.{ReplayStatus, ReplayJobKind}
use league_of_legnds_ai_coac.Rows.{ReplayUploadRow, ReplayJobRow, ReplayArtifactRow}
use league_of_legnds_ai_coac.Database.{Db}
use league_of_legnds_ai_coac.Repo.Replays.{
  Assign, create, transition, queue_process_job, scrub_deleted,
}
use league_of_legnds_ai_coac.Repo.Jobs.{enqueue, claim_next, heartbeat, succeed, cancel, fail}
use league_of_legnds_ai_coac.Repo.Recovery.{Recovery, is_gone, recover_stale}
use league_of_legnds_ai_coac.Repo.Retention.{Sweep, enqueue_due_retention}
use league_of_legnds_ai_coac.Repo.Artifacts.{upsert, delete_rows}

-- What the callers pass to `transition`: a set of expected statuses that a deletion has not
-- reached, or the status that the row had and keeps (`delete_source`), or a set from which the
-- replay is deleted (`request_delete`, `delete_all`).
pub data IsMove (expected : ReplayStatus → Bool) (status : ReplayStatus) : Type 0 where
  alive : ((s : ReplayStatus) → is_gone s ≡ true → expected s ≡ false) → IsMove expected status
  stays : ((s : ReplayStatus) → expected s ≡ true → status ≡ s) → IsMove expected status
  deletes : is_gone status ≡ true → IsMove expected status

-- `drawn` tells the keys that `uuid4()` gives to new replays.
pub data Step (drawn : ℕ → Bool) (db : Db) : Db → Type 0 where
  created :
      (row : ReplayUploadRow) {r : ReplayUploadRow} {db' : Db}
      → drawn row.id ≡ true
      → create row db ≡ ok (r, db')
      → Step drawn db db'
  moved_to :
      (replay_id : ℕ) (expected : ReplayStatus → Bool) (version : ℕ) (status : ReplayStatus)
      (values : List Assign) (now : ℕ) {r : ReplayUploadRow} {db' : Db}
      → IsMove expected status
      → transition replay_id expected version status values now db ≡ ok (r, db')
      → Step drawn db db'
  queued_up :
      (replay_id : ℕ) (expected : ReplayStatus → Bool) (version : ℕ) (status : ReplayStatus)
      (values : List Assign) (available_at max_attempts job_id now : ℕ) {r : ReplayUploadRow}
      {db' : Db}
      → IsMove expected status
      → queue_process_job replay_id expected version status values available_at max_attempts job_id
          now db
        ≡ ok (r, db')
      → Step drawn db db'
  scrubbed_off :
      (replay_id now : ℕ) {r : ReplayUploadRow} {db' : Db}
      → scrub_deleted replay_id now db ≡ ok (r, db')
      → Step drawn db db'
  enqueued :
      (replay_id : ℕ) (kind : ReplayJobKind) (available_at max_attempts job_id now : ℕ)
      {r : ReplayJobRow} {db' : Db}
      → enqueue replay_id kind available_at max_attempts job_id now db ≡ ok (r, db')
      → Step drawn db db'
  claimed_one : (worker_id : String) (now : ℕ) → Step drawn db (claim_next worker_id now db).1
  beaten :
      (job_id : ℕ) (worker_id : String) (now : ℕ)
      → Step drawn db (heartbeat job_id worker_id now db)
  succeeded_job :
      (job_id now : ℕ) {r : ReplayJobRow} {db' : Db}
      → succeed job_id now db ≡ ok (r, db')
      → Step drawn db db'
  cancelled_job :
      (job_id now : ℕ) {r : ReplayJobRow} {db' : Db}
      → cancel job_id now db ≡ ok (r, db')
      → Step drawn db db'
  failed_job :
      (job_id : ℕ) (error_code : String) (now : ℕ) (available_at : Option ℕ) {r : ReplayJobRow}
      {db' : Db}
      → fail job_id error_code now available_at db ≡ ok (r, db')
      → Step drawn db db'
  recovered : (r : Recovery) → Step drawn db (recover_stale r db).1
  swept :
      (uuid : ℕ → ℕ) (now : ℕ) {t : Sweep}
      → enqueue_due_retention uuid now db ≡ ok t
      → Step drawn db t.1
  artifact_upserted :
      (row : ReplayArtifactRow) {r : ReplayArtifactRow} {db' : Db}
      → upsert row db ≡ ok (r, db')
      → Step drawn db db'
  artifacts_deleted : (replay_id : ℕ) → Step drawn db (delete_rows replay_id db).1

pub data Reach (drawn : ℕ → Bool) (db : Db) : Db → Type 0 where
  here : Reach drawn db db
  next : {db' db'' : Db} → Reach drawn db db' → Step drawn db' db'' → Reach drawn db db''
