-- ===== src/Processor/Mirror.antt =====
-- The replay of a job that failed shows how the job was settled.
use mathlib.Core.Path.{subst}
use league_of_legnds_ai_coac.Prelude.{
  ℕ, ◌≡◌, String, Bool, true, false, ◌&&◌, some, List, [], ◌∷◌, ltb, ◌==◌, find, find_sound, arith,
  sym, ◌∙◌, if◌then◌else◌, ok, Bool-cases, Outcome-cases, inl, inr, ◌⊎◌, refl,
}
use league_of_legnds_ai_coac.Domain.{ReplayStatus, ReplayJobStatus, queued}
use league_of_legnds_ai_coac.Rows.{ReplayUploadRow, ReplayJobRow}
use league_of_legnds_ai_coac.Database.{Db, find_upload, find_job, write_job, write_upload}
use league_of_legnds_ai_coac.Repo.Replays.{Assign, get, transition, meets, moved}
use league_of_legnds_ai_coac.Repo.Recovery.{is_gone}
use league_of_legnds_ai_coac.Repo.Sound.Settling.{fail_inv}
use league_of_legnds_ai_coac.Repo.Transition.{moved_columns, find-write_upload}
use league_of_legnds_ai_coac.Processor.{
  ProcessError, classify_process_error, retry_at, fail_job, is_failable, is_retry_scheduled,
  failure_values, settle_transition, mirror_failure, handle_process_failure,
}
use league_of_legnds_ai_coac.Processor.Failing.{fail_job_lem}

find-meets :
    (k version : ℕ) (expected : ReplayStatus → Bool) (us : List ReplayUploadRow)
    {u : ReplayUploadRow}
    → find (λ v. v.id == k) us ≡ some u
    → u.version ≡ version
    → expected u.status ≡ true
    → find (meets k expected version) us ≡ some u
find-meets k version expected [] h e f = cc
find-meets k version expected (v ∷ us) {u} h e f = elim (Bool-cases (v.id == k)) [
  | inl mine ↦ let same : v ≡ u = ground arith in rw same (ground arith)
  | inr other ↦ ground (arith, find-meets k version expected us {u = u} (rw other at h) e f)
]

transition_found :
    (replay_id version : ℕ) (expected : ReplayStatus → Bool) (status : ReplayStatus)
    (values : List Assign) (now : ℕ) (db : Db) (u : ReplayUploadRow)
    → find_upload replay_id db ≡ some u
    → u.version ≡ version
    → expected u.status ≡ true
    → transition replay_id expected version status values now db
      ≡ ok (moved status version now values u, write_upload (moved status version now values u) db)
unfolding transition
transition_found replay_id version expected status values now db u found e f =
    rw (transition, find-meets replay_id version expected db.uploads {u = u} found e f) refl

row_key : (k : ℕ) (db : Db) (u : ReplayUploadRow) → find_upload k db ≡ some u → u.id ≡ k
row_key k db u found =
    let test = find_sound (λ v. v.id == k) db.uploads {a = u} found in ground arith

failable_alive : (s : ReplayStatus) → is_failable s ≡ true → is_gone s ≡ false
failable_alive s fits = ground arith

fail_job_uploads :
    (job : ReplayJobRow) (code : String) (retryable : Bool) (now jitter : ℕ) (db : Db)
    {r : ReplayJobRow} {db' : Db}
    → fail_job job code retryable now jitter db ≡ ok (r, db')
    → (db'.uploads ≡ db.uploads) × (db' ≡ write_job r db)
unfolding fail_job
fail_job_uploads job code retryable now jitter db {r} {db'} h =
    let (_, _, _, _, tables) =
      fail_inv job.id code now (retry_at job retryable now jitter) db {r = r} {db' = db'} h in
    (rw tables refl, tables)

-- The second transaction on a replay that a failure may be written over.
mirror_failure_lem :
    (replay_id : ℕ) (u : ReplayUploadRow) (again : Bool) (code : String) (retryable : Bool)
    (now retention : ℕ) (db : Db)
    → find_upload replay_id db ≡ some u
    → is_failable u.status ≡ true
    → (u' : ReplayUploadRow) × (mirror_failure
          (λ d. d)
          (some u)
          again
          code
          retryable
          now
          retention
          db
        ≡ (ok tt, write_upload u' db))
      × (find_upload replay_id (write_upload u' db) ≡ some u')
      × (u'.status ≡ (if again then queued else ReplayStatus.failed))
unfolding mirror_failure settle_transition
mirror_failure_lem replay_id u again code retryable now retention db found fits =
    let status : ReplayStatus = if again then queued else ReplayStatus.failed in
    let values = failure_values again code retryable now retention in
    let u' : ReplayUploadRow = moved status u.version now values u in
    let key : u.id ≡ replay_id = row_key replay_id db u found in
    let (same_id, is_status, _) = moved_columns status u.version now values u in
    let mine : find_upload u.id db ≡ some u =
      subst (λ k. find_upload k db ≡ some u) (sym key) found in
    let alive : is_gone u.status ≡ false = failable_alive u.status fits in
    let (after, _) =
      find-write_upload u' u db (subst (λ k. find_upload k db ≡ some u) (sym same_id) mine) in
    (
      u',
      rw
          (
            mirror_failure,
            alive,
            transition_found u.id u.version is_failable status values now db u mine refl fits,
          )
          refl,
      subst (λ k. find_upload k (write_upload u' db) ≡ some u') (same_id ∙ key) after,
      is_status,
    )

-- Without other sessions: a PROCESS job whose row has the number of attempts that it was claimed with,
-- on a replay in a status that a failure may be written over. Where the failure is settled, the job waits for a retry and the
-- replay is QUEUED, or the job is FAILED and so is the replay.
pub handle_process_failure_lem :
    (job : ReplayJobRow) (error : ProcessError) (now jitter retention : ℕ) (db : Db)
    (stored : ReplayJobRow) (u : ReplayUploadRow) {db' : Db}
    → find_job job.id db ≡ some stored
    → stored.attempt_count ≡ job.attempt_count
    → stored.max_attempts ≡ job.max_attempts
    → find_upload job.replay_id db ≡ some u
    → is_failable u.status ≡ true
    → handle_process_failure (λ d. d) (λ d. d) job error now jitter retention db ≡ (ok tt, db')
    → (r : ReplayJobRow) × (u' : ReplayUploadRow) × (find_job job.id db' ≡ some r)
      × (find_upload job.replay_id db' ≡ some u')
      × (((r.status ≡ ReplayJobStatus.retry_scheduled) × (u'.status ≡ queued))
          ⊎ ((r.status ≡ ReplayJobStatus.failed) × (u'.status ≡ ReplayStatus.failed)))
unfolding handle_process_failure get
handle_process_failure_lem job error now jitter retention db stored u {db'} found_job attempts most
      found fits h =
    let (code, retryable) = classify_process_error error in
    elim (Outcome-cases (fail_job job code retryable now jitter db)) [
      | inr (e, f) ↦ absurd (ground arith)
      | inl ((r, after), f) ↦
          let (same, tables) =
            fail_job_uploads job code retryable now jitter db {r = r} {db' = after} f in
          let found_after : find_upload job.replay_id after ≡ some u = rw same found in
          let (u', mirrored, has, status) =
            mirror_failure_lem job.replay_id u (is_retry_scheduled r.status) code retryable now
              retention after found_after fits in
          let (job_after, _, again, ended) =
            fail_job_lem job code retryable now jitter db stored {r = r} {db' = after} found_job
              attempts most f in
          let result : db' ≡ write_upload u' after = ground (arith, found_after, mirrored) in
          (
            r,
            u',
            rw result job_after,
            rw result has,
            elim (Bool-cases (retryable && ltb job.attempt_count job.max_attempts)) [
              | inl t ↦ inl ((again t).0, status ∙ rw ((again t).0) refl)
              | inr t ↦ inr (ended t, status ∙ rw (ended t) refl)
            ],
          )
    ]
