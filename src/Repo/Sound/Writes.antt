-- ===== src/Repo/Sound/Writes.antt =====
-- A row added or written back keeps the tables sound.
use league_of_legnds_ai_coac.Prelude.{
  ℕ, ◌≤◌, ◌<◌, ◌≡◌, refl, Bool, true, false, not, ◌&&◌, some, List, [], ◌∷◌, ◌++◌, ◌==◌, any, arith,
  Bool-cases, inl, inr, ok, ◌∙◌,
}
use league_of_legnds_ai_coac.Prelude.Tables.{
  count, count-append, any-count, All-append, All-update_where, All-map, All-find, written,
  count-written, count-key-written, any-written,
}
use league_of_legnds_ai_coac.Domain.{ReplayJobKind}
use league_of_legnds_ai_coac.Rows.{ReplayUploadRow, ReplayJobRow}
use league_of_legnds_ai_coac.Database.{Db, clashes, add_job, find_job, write_upload, write_job}
use league_of_legnds_ai_coac.Repo.Jobs.{is_active_for}
use league_of_legnds_ai_coac.Repo.Sound.{IsJobOk, IsOwned, IsSound}

count_inactive :
    (p : ReplayJobRow → Bool) (r : ReplayJobRow) (jobs : List ReplayJobRow)
    → any (λ j. not (j.id == r.id) && p j) jobs ≡ false
    → count p (written (λ j. j.id) r jobs) ≤ count (λ j. j.id == r.id) jobs
count_inactive p r [] h = omega arith
count_inactive p r (j ∷ jobs) h = ground (arith, count_inactive p r jobs)

pub any_weaken :
    (p q g : ReplayJobRow → Bool) (jobs : List ReplayJobRow)
    → ((j : ReplayJobRow) → p j ≡ true → q j ≡ true)
    → any (λ j. g j && q j) jobs ≡ false
    → any (λ j. g j && p j) jobs ≡ false
any_weaken p q g [] f h = refl
any_weaken p q g (j ∷ jobs) f h = ground (arith, f j, any_weaken p q g jobs f)

-- What is active for the replay and kind of an active job clashes with it.
clashes_of_active :
    (replay_id : ℕ) (kind : ReplayJobKind) (r j : ReplayJobRow)
    → is_active_for replay_id kind r ≡ true
    → is_active_for replay_id kind j ≡ true
    → clashes r j ≡ true
clashes_of_active replay_id kind r j h k = ground arith

-- A job written back in place of `old`, which is active for no more than `old` was.
pub write_job-IsSound :
    (db : Db) (r old : ReplayJobRow)
    → IsSound db
    → find_job r.id db ≡ some old
    → IsJobOk r
    → r.replay_id ≡ old.replay_id
    → ((replay_id : ℕ) (kind : ReplayJobKind)
        → is_active_for replay_id kind r ≡ true
        → is_active_for replay_id kind old ≡ true)
    → IsSound (write_job r db)
write_job-IsSound db r old sound found fine same_replay less = record {
  upload_keys = sound.upload_keys;
  job_keys = λ k. omega (arith, sound.job_keys k, count-key-written (λ j. j.id) r k db.jobs);
  one_active = λ replay_id kind. ground (
    arith,
    sound.one_active replay_id kind,
    less replay_id kind,
    count-written (λ j. j.id) (is_active_for replay_id kind) r old db.jobs (sound.job_keys r.id)
        found,
  );
  jobs_ok =
      All-update_where IsJobOk (λ j. j.id == r.id) (λ _. r) db.jobs (λ _ _ _. fine) sound.jobs_ok;
  owned =
      All-update_where (IsOwned db) (λ j. j.id == r.id) (λ _. r) db.jobs
        (λ _ _ _.
          rw same_replay
            (All-find (IsOwned db) (λ j. j.id == r.id) db.jobs {x = old} found sound.owned))
        sound.owned;
}

-- A job written back in place of `old` that clashes with no other, whatever `old` was.
pub write_clear_job-IsSound :
    (db : Db) (r old : ReplayJobRow)
    → IsSound db
    → find_job r.id db ≡ some old
    → IsJobOk r
    → r.replay_id ≡ old.replay_id
    → any (λ j. not (j.id == r.id) && clashes r j) db.jobs ≡ false
    → IsSound (write_job r db)
write_clear_job-IsSound db r old sound found fine same_replay clear = record {
  upload_keys = sound.upload_keys;
  job_keys = λ k. omega (arith, sound.job_keys k, count-key-written (λ j. j.id) r k db.jobs);
  one_active = one_left;
  jobs_ok =
      All-update_where IsJobOk (λ j. j.id == r.id) (λ _. r) db.jobs (λ _ _ _. fine) sound.jobs_ok;
  owned =
      All-update_where (IsOwned db) (λ j. j.id == r.id) (λ _. r) db.jobs
        (λ _ _ _.
          rw same_replay
            (All-find (IsOwned db) (λ j. j.id == r.id) db.jobs {x = old} found sound.owned))
        sound.owned;
}
  where
    one_left :
        (replay_id : ℕ) (kind : ReplayJobKind)
        → count (is_active_for replay_id kind) (written (λ j. j.id) r db.jobs) ≤ 1
    one_left replay_id kind = elim (Bool-cases (is_active_for replay_id kind r)) [
      | inl e ↦ omega (
        arith,
        sound.job_keys r.id,
        count_inactive (is_active_for replay_id kind) r db.jobs (
            any_weaken (is_active_for replay_id kind) (clashes r) (λ j. not (j.id == r.id)) db.jobs
              (λ j. clashes_of_active replay_id kind r j e) clear),
      )
      | inr e ↦ ground (
        arith,
        sound.one_active replay_id kind,
        count-written (λ j. j.id) (is_active_for replay_id kind) r old db.jobs (sound.job_keys r.id)
            found,
      )
    ]

-- What it takes that a job is added, and what is then there.
pub add_job_inv :
    (row : ReplayJobRow) (db : Db) {r : ReplayJobRow} {db' : Db}
    → add_job row db ≡ ok (r, db')
    → (any (λ j. j.id == row.id) db.jobs ≡ false)
      × (any (clashes row) db.jobs ≡ false)
      × IsOwned db row
      × (db' ≡ record db { jobs = db.jobs ++ row ∷ [] })
      × (r ≡ row)
      × (0 < row.max_attempts)
unfolding add_job
add_job_inv row db h = ground arith

-- A job that is added.
module _ (row : ReplayJobRow) (db : Db) (sound : IsSound db) (fine : IsJobOk row)
    (new_key : any (λ j. j.id == row.id) db.jobs ≡ false)
    (clear : any (clashes row) db.jobs ≡ false) where
  added_keys : (k : ℕ) → count (λ j. j.id == k) (db.jobs ++ row ∷ []) ≤ 1
  added_keys k = elim (Bool-cases (row.id == k)) [
    | inl e ↦
        let same : row.id ≡ k = ground arith in
        rw (count-append (λ j. j.id == k) db.jobs row, ← same)
          (ground (arith, any-count (λ j. j.id == row.id) db.jobs new_key))
    | inr e ↦ rw (count-append (λ j. j.id == k) db.jobs row, e) (omega (arith, sound.job_keys k))
  ]

  added_active :
      (replay_id : ℕ) (kind : ReplayJobKind)
      → count (is_active_for replay_id kind) (db.jobs ++ row ∷ []) ≤ 1
  added_active replay_id kind = elim (Bool-cases (is_active_for replay_id kind row)) [
    | inl e ↦
        rw (count-append (is_active_for replay_id kind) db.jobs row, e)
          (omega (
            arith,
            any-count (is_active_for replay_id kind) db.jobs (
                any_weaken (is_active_for replay_id kind) (clashes row) (λ _. true) db.jobs
                  (λ j. clashes_of_active replay_id kind row j e) clear),
          ))
    | inr e ↦
        rw (count-append (is_active_for replay_id kind) db.jobs row, e)
          (omega (arith, sound.one_active replay_id kind))
  ]

  added-IsSound : IsOwned db row → IsSound (record db { jobs = db.jobs ++ row ∷ [] })
  added-IsSound own = record {
    upload_keys = sound.upload_keys;
    job_keys = added_keys;
    one_active = added_active;
    jobs_ok = All-append IsJobOk db.jobs row sound.jobs_ok fine;
    owned = All-append (IsOwned db) db.jobs row sound.owned own;
  }

pub add_job-IsSound :
    (row : ReplayJobRow) (db : Db) {r : ReplayJobRow} {db' : Db}
    → IsSound db
    → IsJobOk row
    → add_job row db ≡ ok (r, db')
    → IsSound db'
add_job-IsSound row db {r} {db'} sound fine h =
    let (new_key, clear, own, tables, _, _) = add_job_inv row db {r = r} {db' = db'} h in
    rw tables (added-IsSound row db sound fine new_key clear own)

-- A replay row written back, whatever its columns.
pub write_upload-IsSound :
    (db : Db) (u : ReplayUploadRow) → IsSound db → IsSound (write_upload u db)
write_upload-IsSound db u sound = record {
  upload_keys =
      λ k. omega (arith, sound.upload_keys k, count-key-written (λ v. v.id) u k db.uploads);
  job_keys = sound.job_keys;
  one_active = sound.one_active;
  jobs_ok = sound.jobs_ok;
  owned =
      All-map (IsOwned db) (IsOwned (write_upload u db)) db.jobs
        (λ j own. any-written (λ v. v.id) u j.replay_id db.uploads ∙ own) sound.owned;
}
