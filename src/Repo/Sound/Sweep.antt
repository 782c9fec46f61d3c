-- ===== src/Repo/Sound/Sweep.antt =====
-- The retention sweep succeeds, and leaves a deletion job under way for all that is due.
use league_of_legnds_ai_coac.Prelude.{
  ℕ, ◌+◌, ◌≤◌, ◌<◌, ◌≡◌, refl, ◌∙◌, Bool, true, false, not, ◌&&◌, ◌||◌, List, [], ◌∷◌, ◌++◌, ◌==◌,
  any, filter, length, arith, ok,
}
use league_of_legnds_ai_coac.Prelude.Tables.{
  All-In, In-filter, All-of_In, count-filter-le, All-filter,
}
use league_of_legnds_ai_coac.Domain.{ReplayJobKind}
use league_of_legnds_ai_coac.Rows.{ReplayUploadRow, ReplayJobRow, same_kind}
use league_of_legnds_ai_coac.Database.{Db, clashes, add_job}
use league_of_legnds_ai_coac.Repo.Jobs.{is_active_for, pending_job}
use league_of_legnds_ai_coac.Repo.Retention.{
  is_tombstone, purge_tombstones, has_active_job, Sweep, add_new,
}
use league_of_legnds_ai_coac.Repo.Sound.{IsJobOk, IsOwned, IsSound}
use league_of_legnds_ai_coac.Repo.Sound.Writes.{add_job-IsSound, any_weaken}

any-filter :
    (p q : ReplayUploadRow → Bool) (us : List ReplayUploadRow)
    → any p us ≡ true
    → any p (filter q us) ≡ false
    → any p (filter (λ u. not (q u)) us) ≡ true
any-filter p q [] h k = cc
any-filter p q (u ∷ us) h k = ground (arith, any-filter p q us)

-- The rows that go take their jobs with them.
pub purge_tombstones-IsSound : (now : ℕ) (db : Db) → IsSound db → IsSound (purge_tombstones now db)
unfolding purge_tombstones
purge_tombstones-IsSound now db sound = record {
  upload_keys = λ k. omega (
    arith,
    sound.upload_keys k,
    count-filter-le (λ u. u.id == k) (λ u. not (is_tombstone now u)) db.uploads,
  );
  job_keys = λ k. omega (arith, sound.job_keys k, count-filter-le (λ j. j.id == k) stays db.jobs);
  one_active = λ replay_id kind. omega (
    arith,
    sound.one_active replay_id kind,
    count-filter-le (is_active_for replay_id kind) stays db.jobs,
  );
  jobs_ok = All-filter IsJobOk stays db.jobs sound.jobs_ok;
  owned = All-of_In (IsOwned (purge_tombstones now db)) (filter stays db.jobs) (λ j i.
      let (found, kept) = In-filter stays {x = j} db.jobs i in
      any-filter (λ u. u.id == j.replay_id) (is_tombstone now) db.uploads
        (All-In (IsOwned db) db.jobs sound.owned found) (ground arith));
}
  where
    stays : ReplayJobRow → Bool
    stays j = not (any (λ u. u.id == j.replay_id) (filter (is_tombstone now) db.uploads))

any-append :
    (p : ReplayJobRow → Bool) (jobs : List ReplayJobRow) (j : ReplayJobRow)
    → any p (jobs ++ j ∷ []) ≡ (any p jobs || p j)
any-append p [] j = ground arith
any-append p (k ∷ jobs) j = ground (arith, any-append p jobs j)

length_snoc :
    (jobs : List ReplayJobRow) (j : ReplayJobRow) → length (jobs ++ j ∷ []) ≡ length jobs + 1
length_snoc [] j = refl
length_snoc (k ∷ jobs) j = omega (arith, length_snoc jobs j)

active_of_clash :
    (new j : ReplayJobRow) → clashes new j ≡ true → is_active_for new.replay_id new.kind j ≡ true
active_of_clash new j h = ground arith

no_clash_inactive :
    (new : ReplayJobRow) (jobs : List ReplayJobRow)
    → any (is_active_for new.replay_id new.kind) jobs ≡ false
    → any (clashes new) jobs ≡ false
no_clash_inactive new jobs clear =
    any_weaken (clashes new) (is_active_for new.replay_id new.kind) (λ _. true) jobs
      (active_of_clash new) clear

-- The draws of `uuid4()` from the next on are no job's key.
abbrev pub IsFresh : (ℕ → ℕ) → Sweep → Type 0
IsFresh uuid s = (i : ℕ) → s.0 ≤ i → any (λ j. j.id == uuid i) s.1.jobs ≡ false

-- A sweep that has gone on from `s` to `t`.
pub record IsGrown (uuid : ℕ → ℕ) (s t : Sweep) : Type 0 where
  pub sound : IsSound t.1
  pub fresh : IsFresh uuid t
  pub same_uploads : t.1.uploads ≡ s.1.uploads
  pub same_artifacts : t.1.artifacts ≡ s.1.artifacts
  pub kept : (p : ReplayJobRow → Bool) → any p s.1.jobs ≡ true → any p t.1.jobs ≡ true
  pub counted : length t.1.jobs + s.0 ≡ length s.1.jobs + t.0

pub same-IsGrown : (uuid : ℕ → ℕ) (s : Sweep) → IsSound s.1 → IsFresh uuid s → IsGrown uuid s s
same-IsGrown uuid s sound fresh = record {
  sound = sound;
  fresh = fresh;
  same_uploads = refl;
  same_artifacts = refl;
  kept = λ p h. h;
  counted = refl;
}

pub IsGrown-trans :
    (uuid : ℕ → ℕ) (s t u : Sweep) → IsGrown uuid s t → IsGrown uuid t u → IsGrown uuid s u
IsGrown-trans uuid s t u first second = record {
  sound = second.sound;
  fresh = second.fresh;
  same_uploads = second.same_uploads ∙ first.same_uploads;
  same_artifacts = second.same_artifacts ∙ first.same_artifacts;
  kept = λ p h. second.kept p (first.kept p h);
  counted = omega (arith, first.counted, second.counted);
}

differs : (m n : ℕ) → ¬ (m ≡ n) → (m == n) ≡ false
differs m n h = ground arith

same_kind_refl : (n : ℕ) (kind : ReplayJobKind) → (n == n && same_kind kind kind && true) ≡ true
same_kind_refl n kind = ground arith

add_job_ok :
    (job : ReplayJobRow) (db : Db)
    → any (λ j. j.id == job.id) db.jobs ≡ false
    → 0 < job.max_attempts
    → any (clashes job) db.jobs ≡ false
    → any (λ u. u.id == job.replay_id) db.uploads ≡ true
    → add_job job db ≡ ok (job, record db { jobs = db.jobs ++ job ∷ [] })
unfolding add_job
add_job_ok job db new positive clear there = ground arith

-- A job is added for a replay that is there and has none of that kind.
pub add_new_lem :
    (uuid : ℕ → ℕ) (replay_id : ℕ) (kind : ReplayJobKind) (now : ℕ) (s : Sweep)
    → ((i k : ℕ) → uuid i ≡ uuid k → i ≡ k)
    → IsSound s.1
    → IsFresh uuid s
    → any (λ u. u.id == replay_id) s.1.uploads ≡ true
    → has_active_job replay_id kind s.1 ≡ false
    → (t : Sweep) × (add_new uuid replay_id kind now s ≡ ok t)
      × IsGrown uuid s t
      × (has_active_job replay_id kind t.1 ≡ true)
add_new_lem uuid replay_id kind now (n, db) distinct sound fresh there clear =
    let job : ReplayJobRow = pending_job (uuid n) replay_id kind now 3 now in
    let clear' : any (clashes job) db.jobs ≡ false = no_clash_inactive job db.jobs clear in
    let done : add_job job db ≡ ok (job, record db { jobs = db.jobs ++ job ∷ [] }) =
      add_job_ok job db (fresh n (omega arith)) (omega arith) clear' there in
    (
      (n + 1, record db { jobs = db.jobs ++ job ∷ [] }),
      rw (add_new, done) refl,
      record {
        sound =
            add_job-IsSound job db {r = job} {db' = record db { jobs = db.jobs ++ job ∷ [] }} sound
              (ground arith) done;
        fresh = λ i le.
            rw (any-append (λ j. j.id == uuid i) db.jobs job, fresh i (omega arith))
              (differs (uuid n) (uuid i) (λ e. absurd (omega (arith, distinct n i e))));
        same_uploads = refl;
        same_artifacts = refl;
        kept = λ p h. rw (any-append p db.jobs job, h) refl;
        counted = omega (arith, length_snoc db.jobs job);
      },
      rw (any-append (is_active_for replay_id kind) db.jobs job, clear)
          (same_kind_refl replay_id kind),
    )
