-- ===== src/Database.antt =====
-- The state of the replay database and its transactions. A transaction (the body of
-- `async with self._session_factory.begin()`) gives its result and the new tables, or raises and
-- is rolled back: then the tables are those it began with. PostgreSQL checks the constraints.
use league_of_legnds_ai_coac.Prelude.{
  ℕ, Bool, ◌&&◌, ◌||◌, Option, List, [], ◌∷◌, ◌++◌, ◌==◌, if◌then◌else◌, any, find, update_where,
  Outcome, ok, raise,
}
use league_of_legnds_ai_coac.Rows.{
  ReplayUploadRow, ReplayJobRow, ReplayArtifactRow, is_active, same_kind,
}

pub record Db : Type 0 where
  pub uploads : List ReplayUploadRow
  pub jobs : List ReplayJobRow
  pub artifacts : List ReplayArtifactRow

-- What a repository call raises: its own exceptions, an `IntegrityError` by the constraint that
-- failed, and the `NoResultFound` of `scalar_one`.
pub data DbError : Type 0 where
  state_conflict active_job_conflict artifact_conflict : DbError
  active_job_integrity other_integrity no_result : DbError

abbrev pub Tx : Type 0 → Type 0
Tx A = Db → Outcome DbError (A × Db)

-- Would `new` break the partial unique index `uq_replay_active_job` beside `old`?
abbrev pub clashes : ReplayJobRow → ReplayJobRow → Bool
clashes new old =
    is_active new.status
    && is_active old.status
    && new.replay_id == old.replay_id
    && same_kind new.kind old.kind

-- `session.add(row); await session.flush()` of a new job: primary key, CHECK on `max_attempts`,
-- unique index, foreign key.
unfoldable pub add_job : ReplayJobRow → Tx ReplayJobRow
add_job row db =
    if any (λ j. j.id == row.id) db.jobs || row.max_attempts == 0
    then raise other_integrity
    else if any (clashes row) db.jobs
    then raise active_job_integrity
    else if any (λ u. u.id == row.replay_id) db.uploads
    then ok (row, record db { jobs = db.jobs ++ row ∷ [] })
    else raise other_integrity

abbrev pub find_upload : ℕ → Db → Option ReplayUploadRow
find_upload id db = find (λ u. u.id == id) db.uploads

abbrev pub find_job : ℕ → Db → Option ReplayJobRow
find_job id db = find (λ j. j.id == id) db.jobs

-- Write a row back under its primary key.
abbrev pub write_upload : ReplayUploadRow → Db → Db
write_upload row db = record db {
  uploads = update_where (λ u. u.id == row.id) (λ _. row) db.uploads;
}

abbrev pub write_job : ReplayJobRow → Db → Db
write_job row db = record db { jobs = update_where (λ j. j.id == row.id) (λ _. row) db.jobs }
