-- ===== src/Repo/Reach.antt =====
-- What no sequence of transactions can break: the soundness of the tables, and a deletion.
use league_of_legnds_ai_coac.Prelude.{
  ℕ, ◌≡◌, refl, Bool, false, ◌||◌, some, List, [], ◌∷◌, ◌++◌, ◌==◌, any, arith, Bool-cases,
  Option-cases, inl, inr, ok,
}
use league_of_legnds_ai_coac.Prelude.Tables.{count-append, any-count, All-map}
use league_of_legnds_ai_coac.Rows.{ReplayUploadRow, ReplayArtifactRow}
use league_of_legnds_ai_coac.Database.{Db, find_upload, write_upload}
use league_of_legnds_ai_coac.Repo.Replays.{create, scrub_deleted, scrubbed}
use league_of_legnds_ai_coac.Repo.Artifacts.{upsert, add_artifact, delete_rows}
use league_of_legnds_ai_coac.Repo.Steps.{Step, Reach}
use league_of_legnds_ai_coac.Repo.Sound.{IsSound, IsOwned}
use league_of_legnds_ai_coac.Repo.Sound.Writes.{write_upload-IsSound}
use league_of_legnds_ai_coac.Repo.Sound.Queue.{enqueue-IsSound, claim_next-IsSound}
use league_of_legnds_ai_coac.Repo.Sound.Settling.{
  heartbeat-IsSound, succeed-IsSound, cancel-IsSound, fail-IsSound,
}
use league_of_legnds_ai_coac.Repo.Sound.Stale.{recover_stale_complete}
use league_of_legnds_ai_coac.Repo.Sound.Sweeping.{enqueue_due_retention-IsSound}
use league_of_legnds_ai_coac.Repo.Transition.{transition-IsSound}
use league_of_legnds_ai_coac.Repo.Queueing.{queue_process_job-IsSound}

count_upload_append :
    (p : ReplayUploadRow → Bool) (us : List ReplayUploadRow) (u : ReplayUploadRow)
    → any p (us ++ u ∷ []) ≡ (any p us || p u)
count_upload_append p [] u = ground arith
count_upload_append p (v ∷ us) u = ground (arith, count_upload_append p us u)

pub create_inv :
    (row : ReplayUploadRow) (db : Db) {r : ReplayUploadRow} {db' : Db}
    → create row db ≡ ok (r, db')
    → (any (λ u. u.id == row.id) db.uploads ≡ false)
      × (r ≡ row)
      × (db' ≡ record db { uploads = db.uploads ++ row ∷ [] })
unfolding create
create_inv row db h = ground arith

create-IsSound :
    (row : ReplayUploadRow) (db : Db) {r : ReplayUploadRow} {db' : Db}
    → IsSound db
    → create row db ≡ ok (r, db')
    → IsSound db'
create-IsSound row db {r} {db'} sound h =
    let (new, _, tables) = create_inv row db {r = r} {db' = db'} h in
    rw tables (record {
      upload_keys = λ k. elim (Bool-cases (row.id == k)) [
        | inl e ↦
            let same : row.id ≡ k = ground arith in
            rw (count-append (λ u. u.id == k) db.uploads row, ← same)
              (ground (arith, any-count (λ u. u.id == row.id) db.uploads new))
        | inr e ↦
            rw (count-append (λ u. u.id == k) db.uploads row, e)
              (omega (arith, sound.upload_keys k))
      ];
      job_keys = sound.job_keys;
      one_active = sound.one_active;
      jobs_ok = sound.jobs_ok;
      owned =
          All-map (IsOwned db) (IsOwned (record db { uploads = db.uploads ++ row ∷ [] })) db.jobs
            (λ j own. rw (count_upload_append (λ u. u.id == j.replay_id) db.uploads row, own) refl)
            sound.owned;
    })

pub scrub_deleted_inv :
    (replay_id now : ℕ) (db : Db) {r : ReplayUploadRow} {db' : Db}
    → scrub_deleted replay_id now db ≡ ok (r, db')
    → (row : ReplayUploadRow) × (find_upload replay_id db ≡ some row)
      × (r ≡ scrubbed now row)
      × (db' ≡ write_upload r db)
unfolding scrub_deleted
scrub_deleted_inv replay_id now db {r} {db'} h = elim (Option-cases (find_upload replay_id db)) [
  | inl e ↦ absurd (ground arith)
  | inr (row, e) ↦ (row, e, ground arith, ground arith)
]

-- The artifacts are no part of what soundness says.
same_tables-IsSound :
    (db db' : Db) → db'.uploads ≡ db.uploads → db'.jobs ≡ db.jobs → IsSound db → IsSound db'
same_tables-IsSound db db' us js sound = record {
  upload_keys = λ k. rw us (sound.upload_keys k);
  job_keys = λ k. rw js (sound.job_keys k);
  one_active = λ i k. rw js (sound.one_active i k);
  jobs_ok = rw js sound.jobs_ok;
  owned = rw (us, js) sound.owned;
}

pub upsert_inv :
    (row : ReplayArtifactRow) (db : Db) {r : ReplayArtifactRow} {db' : Db}
    → upsert row db ≡ ok (r, db')
    → (db'.uploads ≡ db.uploads) × (db'.jobs ≡ db.jobs)
unfolding upsert add_artifact
upsert_inv row db h = ground arith

pub delete_rows_lem :
    (replay_id : ℕ) (db : Db)
    → ((delete_rows replay_id db).1.uploads ≡ db.uploads)
      × ((delete_rows replay_id db).1.jobs ≡ db.jobs)
unfolding delete_rows
delete_rows_lem replay_id db = (refl, refl)

pub Step-IsSound : (drawn : ℕ → Bool) {db db' : Db} → IsSound db → Step drawn db db' → IsSound db'
Step-IsSound drawn {db} sound (Step.created row {r} {db'} _ h) =
    create-IsSound row db {r = r} {db' = db'} sound h
Step-IsSound drawn {db} sound
      (Step.moved_to replay_id expected version status values now {r} {db'} _ h) =
    transition-IsSound replay_id expected version status values now db {r = r} {db' = db'} sound h
Step-IsSound drawn {db} sound
      (Step.queued_up replay_id expected version status values available_at max_attempts job_id now
        {r} {db'} _ h) =
    queue_process_job-IsSound replay_id expected version status values available_at max_attempts
      job_id now db {r = r} {db' = db'} sound h
Step-IsSound drawn {db} sound (Step.scrubbed_off replay_id now {r} {db'} h) =
    let (_, _, _, tables) = scrub_deleted_inv replay_id now db {r = r} {db' = db'} h in
    rw tables (write_upload-IsSound db r sound)
Step-IsSound drawn {db} sound
      (Step.enqueued replay_id kind available_at max_attempts job_id now {r} {db'} h) =
    enqueue-IsSound replay_id kind available_at max_attempts job_id now db {r = r} {db' = db'} sound
      h
Step-IsSound drawn {db} sound (Step.claimed_one worker_id now) =
    claim_next-IsSound worker_id now db sound
Step-IsSound drawn {db} sound (Step.beaten job_id worker_id now) =
    heartbeat-IsSound job_id worker_id now db sound
Step-IsSound drawn {db} sound (Step.succeeded_job job_id now {r} {db'} h) =
    succeed-IsSound job_id now db {r = r} {db' = db'} sound h
Step-IsSound drawn {db} sound (Step.cancelled_job job_id now {r} {db'} h) =
    cancel-IsSound job_id now db {r = r} {db' = db'} sound h
Step-IsSound drawn {db} sound (Step.failed_job job_id error_code now available_at {r} {db'} h) =
    fail-IsSound job_id error_code now available_at db {r = r} {db' = db'} sound h
Step-IsSound drawn {db} sound (Step.recovered r) = (recover_stale_complete r db sound).0
Step-IsSound drawn {db} sound (Step.swept uuid now {t} h) =
    (enqueue_due_retention-IsSound uuid now db {t = t} sound h).0
Step-IsSound drawn {db} sound (Step.artifact_upserted row {r} {db'} h) =
    let (us, js) = upsert_inv row db {r = r} {db' = db'} h in same_tables-IsSound db db' us js sound
Step-IsSound drawn {db} sound (Step.artifacts_deleted replay_id) =
    let (us, js) = delete_rows_lem replay_id db in
    same_tables-IsSound db (delete_rows replay_id db).1 us js sound

-- Whatever sequence of transactions has run on sound tables, they are sound: at most one active job
-- for a replay and kind, no job with more attempts than it may have, a worker and a heartbeat
-- exactly on the running jobs, every job with its replay, every key of a replay or a job once.
pub Reach-IsSound : (drawn : ℕ → Bool) {db db' : Db} → IsSound db → Reach drawn db db' → IsSound db'
Reach-IsSound drawn {db} sound Reach.here = sound
Reach-IsSound drawn {db} sound (Reach.next {db'} {db''} before step) =
    Step-IsSound drawn {db = db'} {db' = db''}
      (Reach-IsSound drawn {db = db} {db' = db'} sound before) step
