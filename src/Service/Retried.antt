-- ===== src/Service/Retried.antt =====
-- What `retry` has checked and done where it answers.
use league_of_legnds_ai_coac.Prelude.{
  ℕ, ap, ◌+◌, ◌<◌, ◌≡◌, refl, ◌∙◌, String, Bool, true, false, Option, none, some, [], ◌∷◌, ◌++◌,
  any, arith, Outcome, ok, raise, Bool-cases, inl, inr,
}
use mathlib.Core.Path.{subst}
use league_of_legnds_ai_coac.Domain.{ReplayStatus, process, queued}
use league_of_legnds_ai_coac.Rows.{ReplayUploadRow, same_status}
use league_of_legnds_ai_coac.Database.{
  Db, DbError, Tx, state_conflict, active_job_conflict, active_job_integrity, artifact_conflict,
  other_integrity, no_result, find_upload,
}
use league_of_legnds_ai_coac.Repo.Replays.{queue_process_job, process_job}
use league_of_legnds_ai_coac.Repo.Jobs.{is_active_for}
use league_of_legnds_ai_coac.Repo.Steps.{Reach}
use league_of_legnds_ai_coac.Repo.Sound.{IsSound}
use league_of_legnds_ai_coac.Repo.Reach.{Reach-IsSound}
use league_of_legnds_ai_coac.Repo.Transition.{IsMoved}
use league_of_legnds_ai_coac.Repo.Queueing.{queue_process_job_lem}
use league_of_legnds_ai_coac.Service.Calls.{
  verify_replay_token, is_empty, StoredObject, StorageError, object_not_found, other_failure,
  ReplayStorage, ReplaySettings, World, Call, pure, fails, non_empty, ReplayStatusData, status_data,
  attempt, authorize,
}
use league_of_legnds_ai_coac.Service.Manage.{
  is_true, is_kept_after, retryable_key, check_source, retry_values, settle_retry, retry_with_key,
  retry,
}
use league_of_legnds_ai_coac.Service.Returns.{
  bind_inv, pure_inv, fails_inv, attempt_inv, authorize_inv, authorize_world,
}
use league_of_legnds_ai_coac.Service.Promise.{same_key}

-- The row may be tried again at the instant `clock`, from the source under the key.
pub record IsRetryable (row : ReplayUploadRow) (clock : ℕ) (key : String) : Type 0 where
  pub was_failed : row.status ≡ ReplayStatus.failed
  pub retryable : row.error_retryable ≡ some true
  pub until : ℕ
  pub kept_until : row.source_delete_after ≡ some until
  pub in_time : clock < until
  pub has_key : row.source_object_key ≡ some key
  pub key_there : is_empty key ≡ false

true_inv : (b : Option Bool) → is_true b ≡ true → b ≡ some true
unfolding is_true
true_inv none h = cc
true_inv (some true) h = refl
true_inv (some false) h = cc

kept_inv :
    (at : Option ℕ) (clock : ℕ)
    → is_kept_after at clock ≡ true
    → (n : ℕ) × (at ≡ some n) × (clock < n)
unfolding is_kept_after
kept_inv none clock h = cc
kept_inv (some n) clock h = (n, refl, ground arith)

key_inv :
    (k : Option String) {key : String}
    → non_empty k ≡ some key
    → (k ≡ some key) × (is_empty key ≡ false)
key_inv none h = cc
key_inv (some k) {key} h = elim (Bool-cases (is_empty k)) [
  | inl e ↦ absurd (no_key (rw e at h))
  | inr e ↦
      let same : ◌≡◌ {A = Option String} (some k) (some key) = rw e at h in
      (same, subst (λ x. is_empty x ≡ false) (key_same same) e)
]
  where
    no_key : {x : String} → ◌≡◌ {A = Option String} none (some x) → ⊥
    no_key e = cc

    key_same : {x y : String} → ◌≡◌ {A = Option String} (some x) (some y) → x ≡ y
    key_same e = cc

status_failed :
    (s : ReplayStatus) → same_status s ReplayStatus.failed ≡ true → s ≡ ReplayStatus.failed
status_failed s h = ground arith

retryable_key-IsRetryable :
    {O : Type 0} (storage : ReplayStorage O) (settings : ReplaySettings)
    (digest : String → String → String) (others : ℕ → Db → Db) (row : ReplayUploadRow) (clock : ℕ)
    {key : String}
    → retryable_key storage settings digest others row clock ≡ some key
    → IsRetryable row clock key
unfolding retryable_key
retryable_key-IsRetryable storage settings digest others row clock {key} h =
    let failing : same_status row.status ReplayStatus.failed ≡ true = ground arith in
    let again : is_true row.error_retryable ≡ true = ground arith in
    let kept : is_kept_after row.source_delete_after clock ≡ true = ground arith in
    let given : non_empty row.source_object_key ≡ some key = ground arith in
    let (until, at, later) = kept_inv row.source_delete_after clock kept in
    let (has, there) = key_inv row.source_object_key {key = key} given in
    record {
      was_failed = status_failed row.status failing;
      retryable = true_inv row.error_retryable again;
      until = until;
      kept_until = at;
      in_time = later;
      has_key = has;
      key_there = there;
    }

-- What stands behind an answer of `retry`.
pub record IsRetried {O : Type 0} (others : ℕ → Db → Db) (storage : ReplayStorage O)
    (settings : ReplaySettings) (digest : String → String → String) (replay_id : ℕ) (token : String)
    (clock job_id now : ℕ) (w w' : World O) (answer : ReplayStatusData) : Type 0 where
  pub row : ReplayUploadRow
  pub found : find_upload replay_id (others w.turn w.db) ≡ some row
  pub authorized :
      (d : String) × (row.token_digest ≡ some d)
      × (verify_replay_token digest settings.replay_token_secret token d ≡ true)
  pub key : String
  pub retryable : IsRetryable row clock key
  pub stored : StoredObject
  pub source_there : storage.stat key w.objects ≡ ok stored
  pub updated : ReplayUploadRow
  pub moved_on :
      IsMoved replay_id
        (same_status ReplayStatus.failed)
        row.version
        queued
        (others (w.turn + 1) (others w.turn w.db))
        updated
        w'.db
  pub none_active :
      any (is_active_for replay_id process) (others (w.turn + 1) (others w.turn w.db)).jobs ≡ false
  pub queued_job :
      w'.db.jobs
      ≡ (others (w.turn + 1) (others w.turn w.db)).jobs
        ++ process_job job_id replay_id 3 clock now ∷ []
  pub answers : answer ≡ status_data updated

module _ {O : Type 0} (others : ℕ → Db → Db) (storage : ReplayStorage O) (settings : ReplaySettings)
    (digest : String → String → String) where
  check_source_inv :
      (r : Outcome StorageError StoredObject) (w : World O) {u : Unit {0}}
      → (check_source storage settings digest others r w).0 ≡ ok u
      → (stored : StoredObject) × (r ≡ ok stored)
        × ((check_source storage settings digest others r w).1 ≡ w)
  unfolding check_source pure fails
  check_source_inv (ok stored) w h = (stored, refl, refl)
  check_source_inv (raise object_not_found) w h = absurd (ground arith)
  check_source_inv (raise other_failure) w h = absurd (ground arith)

  settle_retry_inv :
      (o : Outcome DbError ReplayUploadRow) (w : World O) {answer : ReplayStatusData} {w' : World O}
      → settle_retry storage settings digest others o w ≡ (ok answer, w')
      → (row : ReplayUploadRow) × (o ≡ ok row) × (answer ≡ status_data row) × (w' ≡ w)
  unfolding settle_retry
  settle_retry_inv (ok row) w {answer} {w'} h =
      let (said, same) = pure_inv O (status_data row) w {b = answer} {w' = w'} h in
      (row, refl, said, same)
  settle_retry_inv (raise active_job_conflict) w h = absurd (fails_inv O _ w h)
  settle_retry_inv (raise state_conflict) w h = absurd (fails_inv O _ w h)
  settle_retry_inv (raise artifact_conflict) w h = absurd (fails_inv O _ w h)
  settle_retry_inv (raise active_job_integrity) w h = absurd (fails_inv O _ w h)
  settle_retry_inv (raise other_integrity) w h = absurd (fails_inv O _ w h)
  settle_retry_inv (raise no_result) w h = absurd (fails_inv O _ w h)

  -- What `retry_with_key` has done where it answers.
  retry_with_key_inv :
      (row : ReplayUploadRow) (clock job_id now : ℕ) (k : Option String) (w : World O)
      {answer : ReplayStatusData} {w' : World O}
      → retry_with_key storage settings digest others row clock job_id now k w ≡ (ok answer, w')
      → (key : String) × (stored : StoredObject) × (updated : ReplayUploadRow) × (k ≡ some key)
        × (storage.stat key w.objects ≡ ok stored)
        × (queue_process_job row.id
              (same_status ReplayStatus.failed)
              row.version
              queued
              (retry_values storage settings digest others clock)
              clock
              3
              job_id
              now
              (others w.turn w.db)
            ≡ ok (updated, w'.db))
        × (answer ≡ status_data updated)
  unfolding retry_with_key
  retry_with_key_inv row clock job_id now none w h = absurd (fails_inv O _ w h)
  retry_with_key_inv row clock job_id now (some key) w {answer} {w'} h =
      let check : Call O (Unit {0}) =
        λ v. check_source storage settings digest others (storage.stat key v.objects) v in
      let tx : Tx ReplayUploadRow =
        queue_process_job row.id (same_status ReplayStatus.failed) row.version queued
          (retry_values storage settings digest others clock) clock 3 job_id now in
      let (u, checked, h1) = bind_inv O check _ w {b = answer} {w' = w'} h in
      let (stored, there, same) = check_source_inv (storage.stat key w.objects) w {u = u} checked in
      let (o, tried, h2) =
        bind_inv O (attempt others tx) (settle_retry storage settings digest others) (check w).1
          {b = answer} {w' = w'} h1 in
      let (updated, is_ok, said, ends) =
        settle_retry_inv o (attempt others tx (check w).1).1 {answer = answer} {w' = w'} h2 in
      let done = attempt_inv O others tx (check w).1 {a = updated} (tried ∙ ap ok is_ok) in
      (
        key,
        stored,
        updated,
        refl,
        there,
        subst (λ (v : World O). tx (others v.turn v.db) ≡ ok (updated, w'.db)) same (rw ends done),
        said,
      )

-- On sound tables, where other sessions run transactions of the repositories: if `retry` answers, the
-- token fits the digest of the row that was read, the row was FAILED and retryable, its source was to
-- be kept beyond the reading of the clock and was in the store, and one transaction has moved the
-- replay from FAILED to QUEUED and added a pending PROCESS job, where none was active. The answer
-- describes the row after that.
pub retry_lem :
    (O : Type 0) (drawn : ℕ → Bool) (others : ℕ → Db → Db)
    (outside : (n : ℕ) (db : Db) → Reach drawn db (others n db)) (storage : ReplayStorage O)
    (settings : ReplaySettings) (digest : String → String → String) (replay_id : ℕ) (token : String)
    (clock job_id now : ℕ) (w w' : World O) (answer : ReplayStatusData)
    → IsSound w.db
    → retry storage settings digest others replay_id token clock job_id now w ≡ (ok answer, w')
    → IsRetried others storage settings digest replay_id token clock job_id now w w' answer
unfolding retry
retry_lem O drawn others outside storage settings digest replay_id token clock job_id now w w'
      answer sound h =
    let auth = authorize others settings digest replay_id token in
    let again : ReplayUploadRow → Call O ReplayStatusData = λ row.
      retry_with_key storage settings digest others row clock job_id now
        (retryable_key storage settings digest others row clock) in
    let (row, authorized, rest) = bind_inv O auth again w {b = answer} {w' = w'} h in
    let (_, found, _, fits) =
      authorize_inv O others settings digest replay_id token w {row = row} authorized in
    let read : World O = record w { db = others w.turn w.db; turn = w.turn + 1 } in
    let world : (auth w).1 ≡ read =
      authorize_world O others settings digest replay_id token w {row = row} authorized in
    let (key, stored, updated, is_key, there, queueing, said) =
      retry_with_key_inv others storage settings digest row clock job_id now
        (retryable_key storage settings digest others row clock) read {answer = answer} {w' = w'}
        (subst (λ v. again row v ≡ (ok answer, w')) world rest) in
    let before : Db = others (w.turn + 1) (others w.turn w.db) in
    let sound_before : IsSound before =
      Reach-IsSound drawn {db = others w.turn w.db} {db' = before}
        (Reach-IsSound drawn {db = w.db} {db' = others w.turn w.db} sound (outside w.turn w.db))
        (outside (w.turn + 1) (others w.turn w.db)) in
    let same : row.id ≡ replay_id = same_key replay_id (others w.turn w.db) row found in
    let (moved_on, none_active, jobs, _) =
      queue_process_job_lem replay_id (same_status ReplayStatus.failed) row.version queued
        (retry_values storage settings digest others clock) clock 3 job_id now before {r = updated}
        {db' = w'.db} sound_before (rw same at queueing) in
    record {
      row = row;
      found = found;
      authorized = fits;
      key = key;
      retryable =
          retryable_key-IsRetryable storage settings digest others row clock {key = key} is_key;
      stored = stored;
      source_there = there;
      updated = updated;
      moved_on = moved_on;
      none_active = none_active;
      queued_job = jobs;
      answers = said;
    }
