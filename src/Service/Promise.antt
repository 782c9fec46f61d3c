-- ===== src/Service/Promise.antt =====
-- What holds of the tables once `request_delete` returns.
use mathlib.Core.Path.{subst}
use league_of_legnds_ai_coac.Prelude.{
  ℕ, ◌≡◌, String, Bool, true, false, not, some, [], ◌∷◌, ◌==◌, find_sound, arith, sym, ◌∙◌,
  if◌then◌else◌, ok, Bool-cases, inl, inr, refl,
}
use league_of_legnds_ai_coac.Prelude.Tables.{All-of_In, find_of_In}
use league_of_legnds_ai_coac.Domain.{deleting, delete_all}
use league_of_legnds_ai_coac.Rows.{ReplayUploadRow, ReplayJobRow}
use league_of_legnds_ai_coac.Database.{Db, Tx, find_upload}
use league_of_legnds_ai_coac.Repo.Replays.{transition, set_updated_at}
use league_of_legnds_ai_coac.Service.Enqueue.{enqueue_idempotent}
use league_of_legnds_ai_coac.Service.Enqueued.{
  IsActiveIn, enqueue_idempotent-Runs, enqueue_idempotent_lem,
}
use league_of_legnds_ai_coac.Repo.Recovery.{is_gone}
use league_of_legnds_ai_coac.Repo.Steps.{Reach}
use league_of_legnds_ai_coac.Repo.Sound.{IsSound}
use league_of_legnds_ai_coac.Repo.Reach.{Reach-IsSound}
use league_of_legnds_ai_coac.Repo.Buried.{IsBuried, IsBuriedRow, Reach-IsBuried}
use league_of_legnds_ai_coac.Repo.Transition.{transition-IsMoved, transition-IsSound}
use league_of_legnds_ai_coac.Service.Calls.{
  verify_replay_token, ReplayStorage, ReplaySettings, World, Call, pure, ◌>>=◌, ReplayStatusData,
  status_data, transact, authorize,
}
use league_of_legnds_ai_coac.Service.Manage.{start_delete, request_delete}
use league_of_legnds_ai_coac.Service.Runs.{Runs, pure-Runs, bind-Runs, authorize-Runs}
use league_of_legnds_ai_coac.Service.Returns.{bind_inv, pure_inv, transact_inv, authorize_inv}
use league_of_legnds_ai_coac.Service.Deletes.{request_delete-Runs}

pub same_key : (k : ℕ) (db : Db) (u : ReplayUploadRow) → find_upload k db ≡ some u → u.id ≡ k
same_key k db u found =
    let test = find_sound (λ v. v.id == k) db.uploads {a = u} found in ground arith

found-IsBuried :
    (k : ℕ) (db : Db) (u : ReplayUploadRow)
    → IsSound db
    → find_upload k db ≡ some u
    → is_gone u.status ≡ true
    → IsBuried k db
found-IsBuried k db u sound found gone = All-of_In (IsBuriedRow k) db.uploads (λ v i mine.
    let same_key : v.id ≡ k = ground arith in
    let mine' : find_upload k db ≡ some v =
      subst (λ n. find_upload n db ≡ some v) same_key
        (find_of_In (λ x. x.id) {x = v} db.uploads i (sound.upload_keys v.id)) in
    let same : some v ≡ some u = sym mine' ∙ found in ground arith)

module _ (O : Type 0) (drawn : ℕ → Bool) (others : ℕ → Db → Db)
    (outside : (n : ℕ) (db : Db) → Reach drawn db (others n db)) (storage : ReplayStorage O)
    (settings : ReplaySettings) (digest : String → String → String) where
  start_delete_lem :
      (row : ReplayUploadRow) (clock job_id now : ℕ) (w w' : World O) (answer : ReplayStatusData)
      → drawn row.id ≡ false
      → IsSound w.db
      → start_delete storage settings digest others row clock job_id now w ≡ (ok answer, w')
      → (is_gone answer.status ≡ true)
        × IsBuried row.id w'.db
        × ((job : ReplayJobRow) × IsActiveIn row.id delete_all job w'.db)
  unfolding start_delete
  start_delete_lem row clock job_id now w w' answer old sound h =
      let move : Tx ReplayUploadRow =
        transition row.id (λ s. not (is_gone s)) row.version deleting (set_updated_at clock ∷ [])
          now in
      let job : Call O ReplayJobRow =
        enqueue_idempotent others row.id delete_all clock 3 job_id now in
      let after : ReplayUploadRow → Call O ReplayStatusData =
        λ updated. job >>= (λ _. pure (status_data updated)) in
      let (updated, first, rest) =
        bind_inv O (transact others move) after w {b = answer} {w' = w'} h in
      let w1 : World O = (transact others move w).1 in
      let before : Db = others w.turn w.db in
      let sound_before : IsSound before =
        Reach-IsSound drawn {db = w.db} {db' = before} sound (outside w.turn w.db) in
      let done : move before ≡ ok (updated, w1.db) =
        transact_inv O others move w {a = updated} first in
      let (one, _, _) =
        transition-IsMoved row.id (λ s. not (is_gone s)) row.version deleting
          (set_updated_at clock ∷ []) now before {r = updated} {db' = w1.db} sound_before done in
      let sound1 : IsSound w1.db =
        transition-IsSound row.id (λ s. not (is_gone s)) row.version deleting
          (set_updated_at clock ∷ []) now before {r = updated} {db' = w1.db} sound_before done in
      let gone : is_gone updated.status ≡ true = rw one.after_status refl in
      let buried : IsBuried row.id w1.db =
        found-IsBuried row.id w1.db updated sound1 one.after_found gone in
      let runs : Runs O drawn (after updated) =
        bind-Runs O drawn _ _
          (enqueue_idempotent-Runs O drawn others outside row.id delete_all clock 3 job_id now)
          (λ _. pure-Runs O drawn _) in
      let reach : Reach drawn w1.db w'.db =
        subst (λ r. Reach drawn w1.db r.1.db) rest (runs.runs w1) in
      let (queued_job, made, last) =
        bind_inv O job (λ _. pure (status_data updated)) w1 {b = answer} {w' = w'} rest in
      let (said, ends) = pure_inv O (status_data updated) (job w1).1 {b = answer} {w' = w'} last in
      let (active, _) = enqueue_idempotent_lem others row.id delete_all clock 3 job_id now w1 in
      (
        rw said gone,
        Reach-IsBuried drawn row.id {db = w1.db} {db' = w'.db} old sound1 buried reach,
        (queued_job, rw ends (active queued_job made)),
      )

  -- On sound tables, where the key of the replay is not drawn again and other sessions run
  -- transactions of the repositories: if `request_delete` returns, the token fits the digest of the
  -- row that was read, the answer says DELETING or DELETED, so does every row of the replay in the
  -- tables, which are sound, and unless the row that was read said so already, an active DELETE_ALL
  -- job of the replay is there.
  pub request_delete_lem :
      (replay_id : ℕ) (token : String) (clock job_id now : ℕ) (w w' : World O)
      (answer : ReplayStatusData)
      → drawn replay_id ≡ false
      → IsSound w.db
      → request_delete storage settings digest others replay_id token clock job_id now w
        ≡ (ok answer, w')
      → (is_gone answer.status ≡ true)
        × IsBuried replay_id w'.db
        × IsSound w'.db
        × (row : ReplayUploadRow) × (find_upload replay_id (others w.turn w.db) ≡ some row)
        × ((d : String) × (row.token_digest ≡ some d)
            × (verify_replay_token digest settings.replay_token_secret token d ≡ true))
        × (is_gone row.status ≡ false
            → (job : ReplayJobRow) × IsActiveIn replay_id delete_all job w'.db)
  unfolding request_delete
  request_delete_lem replay_id token clock job_id now w w' answer old sound h =
      let auth = authorize others settings digest replay_id token in
      let (row, authorized, rest) =
        bind_inv O auth
          (λ row.
            if is_gone row.status
            then pure (status_data row)
            else start_delete storage settings digest others row clock job_id now)
          w {b = answer} {w' = w'} h in
      let (_, found, tables, fits) =
        authorize_inv O others settings digest replay_id token w {row = row} authorized in
      let sound1 : IsSound (auth w).1.db =
        Reach-IsSound drawn {db = w.db} {db' = (auth w).1.db} sound
          ((authorize-Runs O drawn others outside settings digest replay_id token).runs w) in
      let w1 : World O = (auth w).1 in
      let here_found : find_upload replay_id w1.db ≡ some row = rw tables found in
      let key : row.id ≡ replay_id = same_key replay_id w1.db row here_found in
      let reach : Reach drawn w.db w'.db =
        subst (λ r. Reach drawn w.db r.1.db) h
          ((request_delete-Runs O drawn others outside storage settings digest replay_id token clock
              job_id now).runs
            w) in
      elim (Bool-cases (is_gone row.status)) [
        | inl gone ↦
            let (said, same) =
              pure_inv O (status_data row) w1 {b = answer} {w' = w'} (rw gone at rest) in
            (
              rw said gone,
              rw same (found-IsBuried replay_id w1.db row sound1 here_found gone),
              Reach-IsSound drawn {db = w.db} {db' = w'.db} sound reach,
              row,
              found,
              fits,
              λ alive. absurd (ground arith),
            )
        | inr alive ↦
            let (gone, buried, job) =
              start_delete_lem row clock job_id now w1 w' answer (rw key old) sound1
                (rw alive at rest) in
            (
              gone,
              subst (λ k. IsBuried k w'.db) key buried,
              Reach-IsSound drawn {db = w.db} {db' = w'.db} sound reach,
              row,
              found,
              fits,
              λ _. subst (λ k. (j : ReplayJobRow) × IsActiveIn k delete_all j w'.db) key job,
            )
      ]
