-- ===== src/Repo/Transition.antt =====
-- The conditional updates of `SqlReplayRepository`: `transition` and `queue_process_job`.
use mathlib.Core.Path.{subst}
use league_of_legnds_ai_coac.Prelude.{
  ℕ, ◌+◌, ◌≡◌, refl, Bool, true, false, some, List, [], ◌∷◌, ◌==◌, find, find_sound, find-In, arith,
  Option-cases, inl, inr, ok, raise, sym, ◌∙◌,
}
use league_of_legnds_ai_coac.Prelude.Tables.{find-written, find_of_In}
use league_of_legnds_ai_coac.Domain.{ReplayStatus}
use league_of_legnds_ai_coac.Rows.{ReplayUploadRow}
use league_of_legnds_ai_coac.Database.{Db, state_conflict, find_upload, write_upload}
use league_of_legnds_ai_coac.Repo.Replays.{Assign, assign, assign_all, moved, meets, transition}
use league_of_legnds_ai_coac.Repo.Sound.{IsSound}
use league_of_legnds_ai_coac.Repo.Sound.Writes.{write_upload-IsSound}

-- No entry of `values` touches the key, the status or the version.
record IsKept (before after : ReplayUploadRow) : Type 0 where
  pub kept_id : after.id ≡ before.id
  pub kept_status : after.status ≡ before.status
  pub kept_version : after.version ≡ before.version

assign-IsKept : (a : Assign) (row : ReplayUploadRow) → IsKept row (assign a row)
unfolding assign
assign-IsKept a row = record {
  kept_id = ground arith;
  kept_status = ground arith;
  kept_version = ground arith;
}

assign_all-IsKept :
    (values : List Assign) (row : ReplayUploadRow) → IsKept row (assign_all values row)
unfolding assign_all
assign_all-IsKept [] row = record { kept_id = refl; kept_status = refl; kept_version = refl }
assign_all-IsKept (a ∷ values) row =
    let first = assign-IsKept a row in
    let rest = assign_all-IsKept values (assign a row) in
    record {
      kept_id = rest.kept_id ∙ first.kept_id;
      kept_status = rest.kept_status ∙ first.kept_status;
      kept_version = rest.kept_version ∙ first.kept_version;
    }

-- The columns of the row that an update writes.
pub moved_columns :
    (status : ReplayStatus) (version now : ℕ) (values : List Assign) (row : ReplayUploadRow)
    → ((moved status version now values row).id ≡ row.id)
      × ((moved status version now values row).status ≡ status)
      × ((moved status version now values row).version ≡ version + 1)
unfolding moved
moved_columns status version now values row =
    let start = record row { status = status; version = version + 1; updated_at = now } in
    let kept = assign_all-IsKept values start in (kept.kept_id, kept.kept_status, kept.kept_version)

-- The row that meets the conditions is the row under the key.
meets-find_upload :
    (replay_id : ℕ) (expected : ReplayStatus → Bool) (version : ℕ) (db : Db) {row : ReplayUploadRow}
    → IsSound db
    → find (meets replay_id expected version) db.uploads ≡ some row
    → (row.id ≡ replay_id)
      × (row.version ≡ version)
      × (expected row.status ≡ true)
      × (find_upload replay_id db ≡ some row)
meets-find_upload replay_id expected version db {row} sound found =
    let test = find_sound (meets replay_id expected version) db.uploads {a = row} found in
    let i = find-In (meets replay_id expected version) db.uploads {a = row} found in
    let same : row.id ≡ replay_id = ground arith in
    (
      same,
      ground arith,
      ground arith,
      subst (λ k. find_upload k db ≡ some row) same
          (find_of_In (λ u. u.id) {x = row} db.uploads i (sound.upload_keys row.id)),
    )

-- What a transition that succeeds has found and written.
pub transition_inv :
    (replay_id : ℕ) (expected : ReplayStatus → Bool) (version : ℕ) (status : ReplayStatus)
    (values : List Assign) (now : ℕ) (db : Db) {r : ReplayUploadRow} {db' : Db}
    → transition replay_id expected version status values now db ≡ ok (r, db')
    → (row : ReplayUploadRow) × (find (meets replay_id expected version) db.uploads ≡ some row)
      × (r ≡ moved status version now values row)
      × (db' ≡ write_upload r db)
unfolding transition
transition_inv replay_id expected version status values now db {r} {db'} h =
    elim (Option-cases (find (meets replay_id expected version) db.uploads)) [
      | inl e ↦ absurd (ground arith)
      | inr (row, e) ↦ (row, e, ground arith, ground arith)
    ]

-- What `written` leaves under each key.
pub find-write_upload :
    (r row : ReplayUploadRow) (db : Db)
    → find_upload r.id db ≡ some row
    → (find_upload r.id (write_upload r db) ≡ some r)
      × ((k : ℕ) → (r.id == k) ≡ false → find_upload k (write_upload r db) ≡ find_upload k db)
find-write_upload r row db found = (
  ground (arith, find-written (λ u. u.id) r r.id db.uploads),
  λ k differ. ground (arith, find-written (λ u. u.id) r k db.uploads),
)

pub record IsMoved (replay_id : ℕ) (expected : ReplayStatus → Bool) (version : ℕ)
    (status : ReplayStatus) (db : Db) (r : ReplayUploadRow) (db' : Db) : Type 0 where
  pub before : ReplayUploadRow
  pub before_found : find_upload replay_id db ≡ some before
  pub before_version : before.version ≡ version
  pub before_expected : expected before.status ≡ true
  pub after_found : find_upload replay_id db' ≡ some r
  pub after_status : r.status ≡ status
  pub after_version : r.version ≡ version + 1
  pub others : (k : ℕ) → (replay_id == k) ≡ false → find_upload k db' ≡ find_upload k db

pub moved-IsMoved :
    (replay_id : ℕ) (expected : ReplayStatus → Bool) (version : ℕ) (status : ReplayStatus)
    (values : List Assign) (now : ℕ) (db : Db) (row : ReplayUploadRow)
    → IsSound db
    → find (meets replay_id expected version) db.uploads ≡ some row
    → IsMoved replay_id expected version status db
        (moved status version now values row)
        (write_upload (moved status version now values row) db)
moved-IsMoved replay_id expected version status values now db row sound found =
    let (same, same_version, fits, under_key) =
      meets-find_upload replay_id expected version db {row = row} sound found in
    let (same_id, is_status, is_version) = moved_columns status version now values row in
    let r : ReplayUploadRow = moved status version now values row in
    let key : r.id ≡ replay_id = same_id ∙ same in
    let (after, others) =
      find-write_upload r row db (subst (λ k. find_upload k db ≡ some row) (sym key) under_key) in
    record {
      before = row;
      before_found = under_key;
      before_version = same_version;
      before_expected = fits;
      after_found = subst (λ k. find_upload k (write_upload r db) ≡ some r) key after;
      after_status = is_status;
      after_version = is_version;
      others =
          subst
            (λ k. (o : ℕ) → (k == o) ≡ false → find_upload o (write_upload r db) ≡ find_upload o db)
            key others;
    }

pub transition-IsMoved :
    (replay_id : ℕ) (expected : ReplayStatus → Bool) (version : ℕ) (status : ReplayStatus)
    (values : List Assign) (now : ℕ) (db : Db) {r : ReplayUploadRow} {db' : Db}
    → IsSound db
    → transition replay_id expected version status values now db ≡ ok (r, db')
    → IsMoved replay_id expected version status db r db'
      × (db'.jobs ≡ db.jobs)
      × (db'.artifacts ≡ db.artifacts)
transition-IsMoved replay_id expected version status values now db {r} {db'} sound h =
    let (row, found, same, tables) =
      transition_inv replay_id expected version status values now db {r = r} {db' = db'} h in
    (
      rw (tables, same)
          (moved-IsMoved replay_id expected version status values now db row sound found),
      rw tables refl,
      rw tables refl,
    )

pub transition-IsSound :
    (replay_id : ℕ) (expected : ReplayStatus → Bool) (version : ℕ) (status : ReplayStatus)
    (values : List Assign) (now : ℕ) (db : Db) {r : ReplayUploadRow} {db' : Db}
    → IsSound db
    → transition replay_id expected version status values now db ≡ ok (r, db')
    → IsSound db'
transition-IsSound replay_id expected version status values now db {r} {db'} sound h =
    let (_, _, _, tables) =
      transition_inv replay_id expected version status values now db {r = r} {db' = db'} h in
    rw tables (write_upload-IsSound db r sound)

-- After a transition that succeeds, a second one that read the same version fails: of two writers
-- with the same version, whatever they expect and write, only one gets through.
pub transition-transition :
    (replay_id version : ℕ) (expected expected' : ReplayStatus → Bool)
    (status status' : ReplayStatus) (values values' : List Assign) (now now' : ℕ) (db : Db)
    {r : ReplayUploadRow} {db' : Db}
    → IsSound db
    → transition replay_id expected version status values now db ≡ ok (r, db')
    → transition replay_id expected' version status' values' now' db' ≡ raise state_conflict
unfolding transition
transition-transition replay_id version expected expected' status status' values values' now now' db
      {r} {db'} sound h =
    let (one, _, _) =
      transition-IsMoved replay_id expected version status values now db {r = r} {db' = db'} sound
        h in
    let sound' =
      transition-IsSound replay_id expected version status values now db {r = r} {db' = db'} sound
        h in
    elim (Option-cases (find (meets replay_id expected' version) db'.uploads)) [
      | inl e ↦ ground arith
      | inr (row, e) ↦
          let (_, same_version, _, found) =
            meets-find_upload replay_id expected' version db' {row = row} sound' e in
          let same : some row ≡ some r = sym found ∙ one.after_found in
          absurd (ground (arith, one.after_version))
    ]
