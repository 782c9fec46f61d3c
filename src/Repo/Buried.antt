-- ===== src/Repo/Buried.antt =====
-- A deletion wins: a replay that is being deleted is never taken back.
use league_of_legnds_ai_coac.Prelude.{
  ℕ, ◌≡◌, refl, String, Bool, true, false, not, Option, none, List, [], ◌∷◌, ◌==◌, find_sound,
  filter, All, arith, Bool-cases, Option-cases, inl, inr, ◌⊎◌, ok, ltb,
}
use league_of_legnds_ai_coac.Prelude.Tables.{All-append, All-update_where, All-find, All-filter}
use league_of_legnds_ai_coac.Domain.{ReplayStatus, ReplayJobKind}
use league_of_legnds_ai_coac.Rows.{ReplayUploadRow, ReplayJobRow}
use league_of_legnds_ai_coac.Database.{Db, find_upload, find_job, write_upload, add_job}
use league_of_legnds_ai_coac.Repo.Replays.{scrubbed}
use league_of_legnds_ai_coac.Repo.Jobs.{
  pending_job, enqueue, claim_next, heartbeat, succeed, cancel, fail,
}
use league_of_legnds_ai_coac.Repo.Recovery.{
  Recovery, is_gone, is_process, is_stale, synced, recover_one, recover_all, recover_stale,
}
use league_of_legnds_ai_coac.Repo.Retention.{is_tombstone}
use league_of_legnds_ai_coac.Repo.Steps.{Step, Reach, IsMove}
use league_of_legnds_ai_coac.Repo.Sound.{IsSound}
use league_of_legnds_ai_coac.Repo.Transition.{IsMoved, transition-IsMoved, transition_inv}
use league_of_legnds_ai_coac.Repo.Queueing.{queue_process_job_lem, queue_process_job_uploads}
use league_of_legnds_ai_coac.Repo.Reach.{
  Reach-IsSound, create_inv, scrub_deleted_inv, upsert_inv, delete_rows_lem,
}
use league_of_legnds_ai_coac.Repo.Sound.Sweeping.{enqueue_due_retention-IsSound}

-- The replay `k` is being deleted, is deleted, or is no more.
abbrev pub IsBuriedRow : ℕ → ReplayUploadRow → Type 0
IsBuriedRow k u = (u.id == k) ≡ true → is_gone u.status ≡ true

abbrev pub IsBuried : ℕ → Db → Type 0
IsBuried k db = All (IsBuriedRow k) db.uploads

write-IsBuried :
    (k : ℕ) (u : ReplayUploadRow) (db : Db)
    → IsBuriedRow k u
    → IsBuried k db
    → IsBuried k (write_upload u db)
write-IsBuried k u db row buried =
    All-update_where (IsBuriedRow k) (λ v. v.id == u.id) (λ _. u) db.uploads (λ _ _ _. row) buried

-- A move that is open to the callers leaves a row that is gone gone.
move-is_gone :
    {expected : ReplayStatus → Bool} {status : ReplayStatus} (s : ReplayStatus)
    → IsMove expected status
    → expected s ≡ true
    → is_gone s ≡ true
    → is_gone status ≡ true
move-is_gone s (IsMove.alive out) fits gone = absurd (ground (arith, out s gone))
move-is_gone s (IsMove.stays same) fits gone = rw (same s fits) gone
move-is_gone s (IsMove.deletes to) fits gone = to

moved-IsBuriedRow :
    (k replay_id : ℕ) (expected : ReplayStatus → Bool) (version : ℕ) (status : ReplayStatus)
    (db db' : Db) (r : ReplayUploadRow)
    → IsMove expected status
    → IsMoved replay_id expected version status db r db'
    → IsBuried k db
    → IsBuriedRow k r
moved-IsBuriedRow k replay_id expected version status db db' r move one buried mine =
    let key_before : (one.before.id == replay_id) ≡ true =
      find_sound (λ u. u.id == replay_id) db.uploads {a = one.before} one.before_found in
    let key_after : (r.id == replay_id) ≡ true =
      find_sound (λ u. u.id == replay_id) db'.uploads {a = r} one.after_found in
    let was =
      All-find (IsBuriedRow k) (λ u. u.id == replay_id) db.uploads {x = one.before} one.before_found
        buried in
    rw one.after_status (
      move-is_gone {expected = expected} {status = status} one.before.status move
        one.before_expected (was (ground arith)))

recover_one-IsBuried :
    (k : ℕ) (r : Recovery) (job : ReplayJobRow) (db : Db)
    → IsBuried k db
    → IsBuried k (recover_one r job (find_upload job.replay_id db) db)
unfolding recover_one synced
recover_one-IsBuried k r job db buried = elim (Option-cases (find_upload job.replay_id db)) [
  | inl e ↦ rw e buried
  | inr (u, e) ↦
      let was = All-find (IsBuriedRow k) (λ v. v.id == job.replay_id) db.uploads {x = u} e buried in
      elim (Bool-cases (is_process job.kind)) [
        | inl p ↦ elim (Bool-cases (is_gone u.status)) [
          | inl gone ↦ rw (e, p, gone) buried
          | inr alive ↦
              rw (e, p, alive)
                (write-IsBuried k (synced r (ltb job.attempt_count job.max_attempts) u) db
                  (λ mine. absurd (ground (arith, was))) buried)
        ]
        | inr other ↦ rw (e, other) buried
      ]
]

recover_all-IsBuried :
    (k : ℕ) (r : Recovery) (jobs : List ReplayJobRow) (db : Db)
    → IsBuried k db
    → IsBuried k (recover_all r jobs db)
unfolding recover_all
recover_all-IsBuried k r [] db buried = buried
recover_all-IsBuried k r (job ∷ jobs) db buried =
    recover_all-IsBuried k r jobs (recover_one r job (find_upload job.replay_id db) db)
      (recover_one-IsBuried k r job db buried)

-- The transactions on jobs leave the replays alone.
uploads_of_job :
    (job_id now : ℕ) (error_code : String) (available_at : Option ℕ) (db : Db) {r : ReplayJobRow}
    {db' : Db}
    → (succeed job_id now db ≡ ok (r, db'))
      ⊎ ((cancel job_id now db ≡ ok (r, db'))
          ⊎ (fail job_id error_code now available_at db ≡ ok (r, db')))
    → db'.uploads ≡ db.uploads
unfolding succeed cancel fail
uploads_of_job job_id now error_code available_at db h = elim (Option-cases (find_job job_id db)) [
  | inl e ↦ absurd (ground arith)
  | inr (row, e) ↦ ground arith
]

add_job_uploads :
    (job : ReplayJobRow) (db : Db) {r : ReplayJobRow} {db' : Db}
    → add_job job db ≡ ok (r, db')
    → db'.uploads ≡ db.uploads
unfolding add_job
add_job_uploads job db h = ground arith

uploads_of_enqueue :
    (replay_id : ℕ) (kind : ReplayJobKind) (available_at max_attempts job_id now : ℕ) (db : Db)
    {r : ReplayJobRow} {db' : Db}
    → enqueue replay_id kind available_at max_attempts job_id now db ≡ ok (r, db')
    → db'.uploads ≡ db.uploads
unfolding enqueue
uploads_of_enqueue replay_id kind available_at max_attempts job_id now db {r} {db'} h =
    add_job_uploads (pending_job job_id replay_id kind available_at max_attempts now) db {r = r}
      {db' = db'} h

uploads_of_claim :
    (worker_id : String) (now : ℕ) (db : Db) → (claim_next worker_id now db).1.uploads ≡ db.uploads
unfolding claim_next
uploads_of_claim worker_id now db = ground arith

Step-IsBuried :
    (drawn : ℕ → Bool) (k : ℕ) {db db' : Db}
    → drawn k ≡ false
    → IsSound db
    → IsBuried k db
    → Step drawn db db'
    → IsBuried k db'
unfolding heartbeat scrubbed recover_stale
Step-IsBuried drawn k {db} old sound buried (Step.created row {r} {db'} new h) =
    let (_, _, tables) = create_inv row db {r = r} {db' = db'} h in
    rw tables (All-append (IsBuriedRow k) db.uploads row buried (λ mine. absurd (ground arith)))
Step-IsBuried drawn k {db} old sound buried
      (Step.moved_to replay_id expected version status values now {r} {db'} move h) =
    let (one, _, _) =
      transition-IsMoved replay_id expected version status values now db {r = r} {db' = db'} sound
        h in
    let (_, _, _, tables) =
      transition_inv replay_id expected version status values now db {r = r} {db' = db'} h in
    rw tables (
      write-IsBuried k r db
        (moved-IsBuriedRow k replay_id expected version status db db' r move one buried) buried)
Step-IsBuried drawn k {db} old sound buried
      (Step.queued_up replay_id expected version status values available_at max_attempts job_id now
        {r} {db'} move h) =
    let (one, _, _, _) =
      queue_process_job_lem replay_id expected version status values available_at max_attempts
        job_id now db {r = r} {db' = db'} sound h in
    let tables =
      queue_process_job_uploads replay_id expected version status values available_at max_attempts
        job_id now db {r = r} {db' = db'} h in
    rw tables (
      write-IsBuried k r db
        (moved-IsBuriedRow k replay_id expected version status db db' r move one buried) buried)
Step-IsBuried drawn k {db} old sound buried (Step.scrubbed_off replay_id now {r} {db'} h) =
    let (row, _, same, tables) = scrub_deleted_inv replay_id now db {r = r} {db' = db'} h in
    rw tables (write-IsBuried k r db (λ _. rw same refl) buried)
Step-IsBuried drawn k {db} old sound buried
      (Step.enqueued replay_id kind available_at max_attempts job_id now {r} {db'} h) =
    rw
      (uploads_of_enqueue replay_id kind available_at max_attempts job_id now db {r = r} {db' = db'}
        h)
      buried
Step-IsBuried drawn k {db} old sound buried (Step.claimed_one worker_id now) =
    rw (uploads_of_claim worker_id now db) buried
Step-IsBuried drawn k {db} old sound buried (Step.beaten job_id worker_id now) = buried
Step-IsBuried drawn k {db} old sound buried (Step.succeeded_job job_id now {r} {db'} h) =
    rw (uploads_of_job job_id now "" none db {r = r} {db' = db'} (inl h)) buried
Step-IsBuried drawn k {db} old sound buried (Step.cancelled_job job_id now {r} {db'} h) =
    rw (uploads_of_job job_id now "" none db {r = r} {db' = db'} (inr (inl h))) buried
Step-IsBuried drawn k {db} old sound buried
      (Step.failed_job job_id error_code now available_at {r} {db'} h) =
    rw (uploads_of_job job_id now error_code available_at db {r = r} {db' = db'} (inr (inr h)))
      buried
Step-IsBuried drawn k {db} old sound buried (Step.recovered r) =
    recover_all-IsBuried k r (filter (is_stale r) db.jobs) db buried
Step-IsBuried drawn k {db} old sound buried (Step.swept uuid now {t} h) =
    rw (enqueue_due_retention-IsSound uuid now db {t = t} sound h).1
      (All-filter (IsBuriedRow k) (λ u. not (is_tombstone now u)) db.uploads buried)
Step-IsBuried drawn k {db} old sound buried (Step.artifact_upserted row {r} {db'} h) =
    rw (upsert_inv row db {r = r} {db' = db'} h).0 buried
Step-IsBuried drawn k {db} old sound buried (Step.artifacts_deleted replay_id) =
    rw (delete_rows_lem replay_id db).0 buried

-- Whatever sequence of transactions has run on sound tables, a replay that was being deleted or was
-- deleted still is, or is no more, unless its key is drawn again for a new replay.
pub Reach-IsBuried :
    (drawn : ℕ → Bool) (k : ℕ) {db db' : Db}
    → drawn k ≡ false
    → IsSound db
    → IsBuried k db
    → Reach drawn db db'
    → IsBuried k db'
Reach-IsBuried drawn k {db} old sound buried Reach.here = buried
Reach-IsBuried drawn k {db} old sound buried (Reach.next {db'} {db''} before step) =
    Step-IsBuried drawn k {db = db'} {db' = db''} old
      (Reach-IsSound drawn {db = db} {db' = db'} sound before)
      (Reach-IsBuried drawn k {db = db} {db' = db'} old sound buried before) step
