-- ===== src/Processor/Pipeline/Guards.antt =====
-- The guards against a deletion, the transitions and the uploads of the pipeline.
use league_of_legnds_ai_coac.Prelude.{
  ℕ, ◌+◌, ◌≡◌, refl, ◌∙◌, ap, String, Bool, true, false, Option, none, some, List, Outcome, ok,
  raise, arith, ◌==◌, find_sound, if◌then◌else◌, Option-cases, Bool-cases, inl, inr,
}
use league_of_legnds_ai_coac.Domain.{ReplayStatus}
use league_of_legnds_ai_coac.Rows.{ReplayUploadRow}
use league_of_legnds_ai_coac.Database.{
  Db, DbError, state_conflict, active_job_conflict, artifact_conflict, active_job_integrity,
  other_integrity, no_result, find_upload,
}
use league_of_legnds_ai_coac.Repo.Replays.{Assign, get, transition, meets}
use league_of_legnds_ai_coac.Repo.Recovery.{is_gone}
use league_of_legnds_ai_coac.Repo.Steps.{Step, Reach, IsMove}
use league_of_legnds_ai_coac.Repo.Transition.{transition_inv, moved_columns}
use league_of_legnds_ai_coac.Service.Calls.{StoredObject, World}
use league_of_legnds_ai_coac.Processor.{media, object_not_found, os_error, other_error}
use league_of_legnds_ai_coac.Processor.Pipeline.{
  Scratch, Workshop, Stop, cancelled, conflicted, failed, continue, ◌>>=◌, pure, stop, outside,
  attempt, or_missing, require_replay, ensure_not_deleting, look_into, move, after_missing,
  delete_missing_ok, or_roll_back, upload_if_not_deleting,
}
use league_of_legnds_ai_coac.Processor.Pipeline.Honest.{
  IsGoneIn, Ends, IsHonest, did-Ends, Any, IsOf, IsResult, pure-IsHonest, failed-IsHonest,
  conflicted-IsHonest, outside-IsHonest, bind-IsHonest, attempt-IsHonest, transact-IsHonest,
  reading-IsHonest,
}

module _ (O : Type 0) (drawn : ℕ → Bool) (k : ℕ) (workshop : Workshop O) (others : ℕ → Db → Db)
    (theirs : (n : ℕ) (db : Db) → Reach drawn db (others n db)) where
  row_of : (db : Db) (row : ReplayUploadRow) → find_upload k db ≡ some row → row.id ≡ k
  row_of db row found =
      let test = find_sound (λ v. v.id == k) db.uploads {a = row} found in ground arith

  abbrev IsFound : Option ReplayUploadRow → Type 0
  IsFound none = Unit
  IsFound (some row) = row.id ≡ k

  or_missing-IsHonest :
      (found : Option ReplayUploadRow)
      → IsFound found
      → IsHonest O drawn k (IsOf k) (or_missing workshop others found)
  or_missing-IsHonest none h = failed-IsHonest O drawn k (IsOf k) (media "REPLAY_MEDIA_UNSUPPORTED")
  or_missing-IsHonest (some row) h = pure-IsHonest O drawn k (IsOf k) row h

  is_found : (db : Db) (o : Option ReplayUploadRow) → find_upload k db ≡ o → IsFound o
  is_found db none e = tt
  is_found db (some row) e = row_of db row e

  pub require_replay-IsHonest : IsHonest O drawn k (IsOf k) (require_replay workshop others k)
  unfolding require_replay get
  require_replay-IsHonest =
      bind-IsHonest O drawn k IsFound (IsOf k) _ _
        (transact-IsHonest O drawn k workshop others theirs IsFound
          (λ db. ok (find_upload k db, db))
          (λ db found db' e.
            let (same, there) : (db ≡ db') × (find_upload k db ≡ found) = ground arith in
            (rw (← same) Reach.here, is_found db found there)))
        or_missing-IsHonest

  -- The state after the look at the replay.
  guarded : World O → Option ReplayUploadRow → Outcome Stop (Unit {0}) × World O
  guarded w none = (raise (failed (media "REPLAY_MEDIA_UNSUPPORTED")), w)
  guarded w (some row) = (if is_gone row.status then raise cancelled else ok tt, w)

  looked : World O → World O
  looked w = record w { db = others w.turn w.db; turn = w.turn + 1 }

  ensure_lem :
      (w : World O)
      → ensure_not_deleting workshop others k w
        ≡ guarded (looked w) (find_upload k (others w.turn w.db))
  unfolding ensure_not_deleting require_replay get ◌>>=◌ attempt pure stop guarded looked
  ensure_lem w = elim (Option-cases (find_upload k (others w.turn w.db))) [
    | inl e ↦ rw e refl
    | inr (row, e) ↦ rw e (elim (Bool-cases (is_gone row.status)) [
      | inl gone ↦ rw gone refl
      | inr alive ↦ rw alive refl
    ])
  ]

  guarded-Ends :
      (w : World O)
      → Ends k Any (guarded w (find_upload k w.db)) × ((guarded w (find_upload k w.db)).1.db ≡ w.db)
  unfolding guarded Ends
  guarded-Ends w = elim (Option-cases (find_upload k w.db)) [
    | inl e ↦ rw e (tt, refl)
    | inr (row, e) ↦ elim (Bool-cases (is_gone row.status)) [
      | inl gone ↦ rw (e, gone) (record { row = row; found = e; gone = gone }, refl)
      | inr alive ↦ rw (e, alive) (tt, refl)
    ]
  ]

  pub ensure_not_deleting-IsHonest : IsHonest O drawn k Any (ensure_not_deleting workshop others k)
  unfolding looked
  ensure_not_deleting-IsHonest = record {
    runs = λ w. rw (ensure_lem w, (guarded-Ends (looked w)).1) (theirs w.turn w.db);
    ends = λ w. rw (ensure_lem w) (guarded-Ends (looked w)).0;
  }

  look_into-IsHonest :
      (o : Outcome DbError ReplayUploadRow)
      → IsResult O drawn k workshop others theirs (IsOf k) o
      → IsHonest O drawn k (IsOf k) (look_into workshop others k o)
  look_into-IsHonest (ok row) h = pure-IsHonest O drawn k (IsOf k) row h
  look_into-IsHonest (raise state_conflict) h =
      bind-IsHonest O drawn k (IsOf k) (IsOf k) _ _ require_replay-IsHonest (λ latest is_k.
        rw is_k (
          bind-IsHonest O drawn k Any (IsOf k) _ _ ensure_not_deleting-IsHonest
            (λ u v. conflicted-IsHonest O drawn k (IsOf k))))
  look_into-IsHonest (raise active_job_conflict) h = failed-IsHonest O drawn k (IsOf k) other_error
  look_into-IsHonest (raise artifact_conflict) h = failed-IsHonest O drawn k (IsOf k) other_error
  look_into-IsHonest (raise active_job_integrity) h = failed-IsHonest O drawn k (IsOf k) other_error
  look_into-IsHonest (raise other_integrity) h = failed-IsHonest O drawn k (IsOf k) other_error
  look_into-IsHonest (raise no_result) h = failed-IsHonest O drawn k (IsOf k) other_error

  transition_step :
      (expected : ReplayStatus → Bool) (version : ℕ) (status : ReplayStatus) (values : List Assign)
      (now : ℕ) (db : Db) (r : ReplayUploadRow) (db' : Db)
      → ((s : ReplayStatus) → is_gone s ≡ true → expected s ≡ false)
      → transition k expected version status values now db ≡ ok (r, db')
      → Reach drawn db db' × IsOf k r
  transition_step expected version status values now db r db' alive h =
      let (row, found, same, _) =
        transition_inv k expected version status values now db {r = r} {db' = db'} h in
      let test = find_sound (meets k expected version) db.uploads {a = row} found in
      let is_k : row.id ≡ k = ground arith in
      (
        Reach.next {db' = db} Reach.here (
            Step.moved_to k expected version status values now {r = r} {db' = db'}
              (IsMove.alive alive) h),
        ap (λ x. x.id) same ∙ (moved_columns status version now values row).0 ∙ is_k,
      )

  -- A transition from statuses that a deletion has not reached.
  pub move-IsHonest :
      (row : ReplayUploadRow) (expected : ReplayStatus → Bool) (status : ReplayStatus)
      (values : List Assign)
      → row.id ≡ k
      → ((s : ReplayStatus) → is_gone s ≡ true → expected s ≡ false)
      → IsHonest O drawn k (IsOf k) (move workshop others row expected status values)
  unfolding move
  move-IsHonest row expected status values same alive = rw same (
      bind-IsHonest O drawn k Any (IsOf k) _ _ ensure_not_deleting-IsHonest (λ u _.
        bind-IsHonest O drawn k Any (IsOf k) _ _ (reading-IsHonest O drawn k workshop others theirs)
          (λ now _.
            bind-IsHonest O drawn k (IsResult O drawn k workshop others theirs (IsOf k)) (IsOf k) _
              _
              (attempt-IsHonest O drawn k workshop others theirs (IsOf k)
                (transition k expected row.version status values now)
                (λ db r db' e.
                  transition_step expected row.version status values now db r db' alive e))
              look_into-IsHonest)))

  after_missing-Ends :
      (r : Outcome Stop (Unit {0}) × World O)
      → Ends k Any r
      → Ends k Any (after_missing workshop others r)
        × ((after_missing workshop others r).1.db ≡ r.1.db)
  unfolding Ends
  after_missing-Ends (ok u, w) h = (tt, refl)
  after_missing-Ends (raise cancelled, w) h = (h, refl)
  after_missing-Ends (raise conflicted, w) h = (tt, refl)
  after_missing-Ends (raise (failed object_not_found), w) h = (tt, refl)
  after_missing-Ends (raise (failed (media c)), w) h = (tt, refl)
  after_missing-Ends (raise (failed os_error), w) h = (tt, refl)
  after_missing-Ends (raise (failed other_error), w) h = (tt, refl)

  delete_missing_ok-db :
      (key : String) (w : World O) → (delete_missing_ok workshop others key w).1.db ≡ w.db
  unfolding delete_missing_ok outside
  delete_missing_ok-db key w =
      (after_missing-Ends (outside (workshop.delete key) w)
        ((outside-IsHonest O drawn k (workshop.delete key)).ends w)).1
      ∙ (did-Ends O drawn k Any w (workshop.delete key w.objects) (λ a. tt)).1

  delete_missing_ok-Ends :
      (key : String) (w : World O) → Ends k Any (delete_missing_ok workshop others key w)
  unfolding delete_missing_ok
  delete_missing_ok-Ends key w =
      (after_missing-Ends (outside (workshop.delete key) w)
        ((outside-IsHonest O drawn k (workshop.delete key)).ends w)).0

  -- What follows the deletion of the object that was uploaded.
  rolled-Ends :
      (db : Db) (r : Outcome Stop (Unit {0}) × World O)
      → IsGoneIn k db
      → r.1.db ≡ db
      → Ends {A = StoredObject} k Any (continue r (λ _. stop cancelled))
        × ((continue {B = StoredObject} r (λ _. stop cancelled)).1.db ≡ db)
  unfolding Ends stop
  rolled-Ends db (ok u, w) gone same = (rw same gone, same)
  rolled-Ends db (raise cancelled, w) gone same = (rw same gone, same)
  rolled-Ends db (raise conflicted, w) gone same = (tt, same)
  rolled-Ends db (raise (failed e), w) gone same = (tt, same)

  or_roll_back-Ends :
      (key : String) (stored : StoredObject) (r : Outcome Stop (Unit {0}) × World O)
      → Ends k Any r
      → Ends k Any (or_roll_back workshop others key stored r)
        × ((or_roll_back workshop others key stored r).1.db ≡ r.1.db)
  unfolding Ends ◌>>=◌
  or_roll_back-Ends key stored (ok u, w) h = (tt, refl)
  or_roll_back-Ends key stored (raise conflicted, w) h = (tt, refl)
  or_roll_back-Ends key stored (raise (failed e), w) h = (tt, refl)
  or_roll_back-Ends key stored (raise cancelled, w) h =
      rolled-Ends w.db (delete_missing_ok workshop others key w) h (delete_missing_ok-db key w)

  pub upload_if_not_deleting-IsHonest :
      (key : String) (path : Scratch)
      → IsHonest O drawn k Any (upload_if_not_deleting workshop others k key path)
  unfolding upload_if_not_deleting
  upload_if_not_deleting-IsHonest key path =
      bind-IsHonest O drawn k Any Any _ _ ensure_not_deleting-IsHonest (λ u _.
        bind-IsHonest O drawn k Any Any _ _
          (outside-IsHonest O drawn k (workshop.upload_from_path key path))
          (λ stored _. record {
            runs = λ w.
                rw
                  ((or_roll_back-Ends key stored (ensure_not_deleting workshop others k w)
                    (ensure_not_deleting-IsHonest.ends w)).1)
                  (ensure_not_deleting-IsHonest.runs w);
            ends = λ w.
                (or_roll_back-Ends key stored (ensure_not_deleting workshop others k w)
                  (ensure_not_deleting-IsHonest.ends w)).0;
          }))
