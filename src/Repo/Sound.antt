-- ===== src/Repo/Sound.antt =====
-- What holds of the replay tables between any two transactions.
pub mod Writes
pub mod Queue
pub mod Settling
pub mod Stale
pub mod Sweep
pub mod Due
pub mod Swept
pub mod Sweeping
use league_of_legnds_ai_coac.Prelude.{
  ℕ, ◌≤◌, ◌<◌, ◌≡◌, Bool, true, false, Option, none, some, ◌==◌, any, All,
}
use league_of_legnds_ai_coac.Prelude.Tables.{count}
use league_of_legnds_ai_coac.Domain.{ReplayJobKind}
use league_of_legnds_ai_coac.Rows.{ReplayUploadRow, ReplayJobRow, is_claimable, is_running}
use league_of_legnds_ai_coac.Database.{Db}
use league_of_legnds_ai_coac.Repo.Jobs.{is_active_for}

abbrev pub has_value {ℓ} : {A : Type ℓ} → Option A → Bool
has_value none = false
has_value (some _) = true

-- A job was never claimed more often than it may be, has an attempt left while it can be claimed,
-- and has a worker and a heartbeat exactly while it runs.
pub record IsJobOk (j : ReplayJobRow) : Type 0 where
  pub attempts_capped : j.attempt_count ≤ j.max_attempts
  pub attempts_left : is_claimable j.status ≡ true → j.attempt_count < j.max_attempts
  pub beats : has_value j.heartbeat_at ≡ is_running j.status
  pub worked : has_value j.worker_id ≡ is_running j.status

-- The job belongs to a replay that is there.
abbrev pub IsOwned : Db → ReplayJobRow → Type 0
IsOwned db j = any (λ u. u.id == j.replay_id) db.uploads ≡ true

pub record IsSound (db : Db) : Type 0 where
  pub upload_keys : (k : ℕ) → count (λ u. u.id == k) db.uploads ≤ 1
  pub job_keys : (k : ℕ) → count (λ j. j.id == k) db.jobs ≤ 1
  pub one_active :
      (replay_id : ℕ) (kind : ReplayJobKind) → count (is_active_for replay_id kind) db.jobs ≤ 1
  pub jobs_ok : All IsJobOk db.jobs
  pub owned : All (IsOwned db) db.jobs
