-- ===== src/Service/Deletes.antt =====
-- `request_delete` as transactions of the repositories.
use league_of_legnds_ai_coac.Prelude.{ℕ, String, Bool, not, [], ◌∷◌, refl}
use league_of_legnds_ai_coac.Domain.{deleting, delete_all}
use league_of_legnds_ai_coac.Rows.{ReplayUploadRow}
use league_of_legnds_ai_coac.Database.{Db}
use league_of_legnds_ai_coac.Repo.Replays.{set_updated_at}
use league_of_legnds_ai_coac.Repo.Recovery.{is_gone}
use league_of_legnds_ai_coac.Repo.Steps.{Reach}
use league_of_legnds_ai_coac.Service.Calls.{ReplayStorage, ReplaySettings}
use league_of_legnds_ai_coac.Service.Manage.{start_delete, request_delete}
use league_of_legnds_ai_coac.Service.Enqueued.{enqueue_idempotent-Runs}
use league_of_legnds_ai_coac.Service.Runs.{Runs, pure-Runs, bind-Runs, if-Runs, authorize-Runs}
use league_of_legnds_ai_coac.Service.Requests.{transition-Runs, uncaught-Runs}

module _ (O : Type 0) (drawn : ℕ → Bool) (others : ℕ → Db → Db)
    (outside : (n : ℕ) (db : Db) → Reach drawn db (others n db)) (storage : ReplayStorage O)
    (settings : ReplaySettings) (digest : String → String → String) where
  start_delete-Runs :
      (row : ReplayUploadRow) (clock job_id now : ℕ)
      → Runs O drawn (start_delete storage settings digest others row clock job_id now)
  unfolding start_delete
  start_delete-Runs row clock job_id now =
      bind-Runs O drawn _ _
        (bind-Runs O drawn _ _
          (transition-Runs O drawn others outside storage settings digest row.id
            (λ s. not (is_gone s)) row.version deleting (set_updated_at clock ∷ []) now
            (λ s gone. rw gone refl))
          (uncaught-Runs O drawn others outside storage settings digest))
        (λ _.
          bind-Runs O drawn _ _
            (enqueue_idempotent-Runs O drawn others outside row.id delete_all clock 3 job_id now)
            (λ _. pure-Runs O drawn _))

  pub request_delete-Runs :
      (replay_id : ℕ) (token : String) (clock job_id now : ℕ)
      → Runs O drawn
          (request_delete storage settings digest others replay_id token clock job_id now)
  unfolding request_delete
  request_delete-Runs replay_id token clock job_id now =
      bind-Runs O drawn _ _ (authorize-Runs O drawn others outside settings digest replay_id token)
        (λ (row : ReplayUploadRow).
          if-Runs O drawn (is_gone row.status) _ _ (pure-Runs O drawn _)
            (start_delete-Runs row clock job_id now))
