-- ===== src/Processor/Process/Stages.antt =====
-- The stages of `_process_in_scratch`: the normalized video and the frames.
use league_of_legnds_ai_coac.Prelude.{
  ℕ, ◌+◌, ◌≡◌, refl, String, Bool, true, false, Option, none, some, List, [], ◌∷◌, Outcome, ok,
  raise, arith, pos_part,
}
use league_of_legnds_ai_coac.Domain.{ReplayArtifactKind, transcoding, extracting}
use league_of_legnds_ai_coac.Rows.{ReplayUploadRow, ReplayArtifactRow}
use league_of_legnds_ai_coac.Database.{Db}
use league_of_legnds_ai_coac.Repo.Artifacts.{upsert, list_for_replay}
use league_of_legnds_ai_coac.Repo.Steps.{Step, Reach}
use league_of_legnds_ai_coac.Service.Calls.{World, non_empty}
use league_of_legnds_ai_coac.Media.{MediaProbe}
use league_of_legnds_ai_coac.Processor.{
  ProcessError, media, object_not_found, os_error, other_error,
}
use league_of_legnds_ai_coac.Processor.Pipeline.{
  normalized_path, frame_path, Workshop, Stop, cancelled, conflicted, failed, Work, ◌>>=◌, outside,
  transact, reading, ensure_not_deleting, upload_if_not_deleting,
}
use league_of_legnds_ai_coac.Processor.Pipeline.Honest.{
  Ends, IsHonest, Any, IsOf, pure-IsHonest, outside-IsHonest, lift-IsHonest, value-IsHonest,
  bind-IsHonest, if-IsHonest, transact-IsHonest,
}
use league_of_legnds_ai_coac.Processor.Pipeline.Guards.{upload_if_not_deleting-IsHonest}
use league_of_legnds_ai_coac.Processor.Process.{
  is_transcodable_again, is_probing_or_transcoding, is_extracting, transcode, reuse, normalized,
  kind_at,
}
use league_of_legnds_ai_coac.Processor.Process.Extract.{
  digest_or_none, or_sha256, add_frame, digest_of, frame_over, upsert_frame, extract_frames,
}
use league_of_legnds_ai_coac.Processor.Process.Honest.{
  guard_row, clock_read, moves, on_reports-IsHonest,
}

module _ (O : Type 0) (drawn : ℕ → Bool) (k : ℕ) (workshop : Workshop O) (others : ℕ → Db → Db)
    (theirs : (n : ℕ) (db : Db) → Reach drawn db (others n db)) where
  pub calls : {A : Type 0} (f : O → Outcome ProcessError A × O) → IsHonest O drawn k Any (outside f)
  calls f = outside-IsHonest O drawn k f

  pub clocked : IsHonest O drawn k Any (reading workshop others)
  clocked = clock_read O drawn k workshop others theirs

  pub guarded :
      (row : ReplayUploadRow)
      → row.id ≡ k
      → IsHonest O drawn k Any (ensure_not_deleting workshop others row.id)
  guarded = guard_row O drawn k workshop others theirs

  transcode-IsHonest :
      (row : ReplayUploadRow) (probe : MediaProbe)
      → row.id ≡ k
      → IsHonest O drawn k (IsOf k) (transcode workshop others row probe)
  unfolding transcode
  transcode-IsHonest row probe same =
      bind-IsHonest O drawn k Any (IsOf k) _ _
        (value-IsHonest O drawn k (λ w. workshop.reports w.objects))
        (λ percents _.
          bind-IsHonest O drawn k (IsOf k) (IsOf k) _ _
            (on_reports-IsHonest O drawn k workshop others theirs row percents same)
            (λ row' same'.
              bind-IsHonest O drawn k Any (IsOf k) _ _ (calls (workshop.normalize probe)) (λ _ _.
                bind-IsHonest O drawn k Any (IsOf k) _ _ clocked (λ now _.
                  moves O drawn k workshop others theirs row' is_probing_or_transcoding transcoding
                    _ same' (λ s gone. ground arith)))))

  reuse-IsHonest :
      (row : ReplayUploadRow) → row.id ≡ k → IsHonest O drawn k (IsOf k) (reuse workshop others row)
  unfolding reuse
  reuse-IsHonest row same = bind-IsHonest O drawn k Any (IsOf k) _ _ clocked (λ now _.
      moves O drawn k workshop others theirs row is_transcodable_again transcoding _ same
        (λ s gone. ground arith))

  abbrev pub FirstOf : {B : Type 0} → ReplayUploadRow × B → Type 0
  FirstOf r = r.0.id ≡ k

  pub normalized-IsHonest :
      (row : ReplayUploadRow) (probe : MediaProbe) (skipped : Bool)
      → row.id ≡ k
      → IsHonest O drawn k FirstOf (normalized workshop others row probe skipped)
  unfolding normalized
  normalized-IsHonest row probe true same =
      bind-IsHonest O drawn k Any FirstOf _ _ (calls (workshop.probe normalized_path)) (λ found _.
        bind-IsHonest O drawn k (IsOf k) FirstOf _ _ (reuse-IsHonest row same) (λ row' same'.
          bind-IsHonest O drawn k Any FirstOf _ _ (guarded row' same')
            (λ _ _. pure-IsHonest O drawn k FirstOf (row', found) same')))
  normalized-IsHonest row probe false same =
      bind-IsHonest O drawn k (IsOf k) FirstOf _ _ (transcode-IsHonest row probe same)
        (λ row' same'. bind-IsHonest O drawn k Any FirstOf _ _ (guarded row' same') (λ _ _.
          bind-IsHonest O drawn k Any FirstOf _ _ (calls (workshop.probe normalized_path))
            (λ found _. pure-IsHonest O drawn k FirstOf (row', found) same')))

  or_sha256-IsHonest :
      (hash : Option String) → IsHonest O drawn k Any (or_sha256 workshop others hash)
  or_sha256-IsHonest none = calls (workshop.sha256_file frame_path)
  or_sha256-IsHonest (some digest) = pure-IsHonest O drawn k Any digest tt

  upsert-IsHonest :
      (row : ReplayArtifactRow) → IsHonest O drawn k Any (transact workshop others (upsert row))
  upsert-IsHonest row =
      transact-IsHonest O drawn k workshop others theirs Any (upsert row) (λ db r db' e.
        (Reach.next {db' = db} Reach.here (Step.artifact_upserted row {r = r} {db' = db'} e), tt))

  uploads :
      (row : ReplayUploadRow) (key : String)
      → row.id ≡ k
      → IsHonest O drawn k Any (upload_if_not_deleting workshop others row.id key frame_path)
  uploads row key same =
      rw same (upload_if_not_deleting-IsHonest O drawn k workshop others theirs key frame_path)

  add_frame-IsHonest :
      (row : ReplayUploadRow) (kind : ReplayArtifactKind) (game video : ℕ) (key : String)
      (width height : Option ℕ)
      → row.id ≡ k
      → IsHonest O drawn k Any (add_frame workshop others row kind game video key width height)
  unfolding add_frame
  add_frame-IsHonest row kind game video key width height same =
      bind-IsHonest O drawn k Any Any _ _ (calls (workshop.extract_frame video frame_path)) (λ _ _.
        bind-IsHonest O drawn k Any Any _ _ (uploads row key same) (λ stored _.
          bind-IsHonest O drawn k Any Any _ _ (or_sha256-IsHonest (non_empty stored.sha256))
            (λ digest _. bind-IsHonest O drawn k Any Any _ _ clocked (λ now _.
              bind-IsHonest O drawn k Any Any _ _
                (value-IsHonest O drawn k (λ w. workshop.uuid4 w.turn))
                (λ id _.
                  bind-IsHonest O drawn k Any Any _ _ (upsert-IsHonest _)
                    (λ _ _. pure-IsHonest O drawn k Any tt tt))))))

  digest-Ends :
      (r : Outcome Stop String × World O)
      → Ends k Any r
      → Ends k Any (digest_or_none r) × ((digest_or_none r).1.db ≡ r.1.db)
  unfolding Ends
  digest-Ends (ok b, w) h = (tt, refl)
  digest-Ends (raise cancelled, w) h = (h, refl)
  digest-Ends (raise conflicted, w) h = (tt, refl)
  digest-Ends (raise (failed object_not_found), w) h = (tt, refl)
  digest-Ends (raise (failed (media c)), w) h = (tt, refl)
  digest-Ends (raise (failed os_error), w) h = (tt, refl)
  digest-Ends (raise (failed other_error), w) h = (tt, refl)

  digest_of-IsHonest : (key : String) → IsHonest O drawn k Any (digest_of workshop others key)
  unfolding digest_of
  digest_of-IsHonest key =
      let m : Work O String = outside (workshop.download_to_path key frame_path) >>= λ _.
      outside (workshop.sha256_file frame_path) in
      let h : IsHonest O drawn k Any m =
        bind-IsHonest O drawn k Any Any _ _ (calls (workshop.download_to_path key frame_path))
          (λ _ _. calls (workshop.sha256_file frame_path)) in
      record {
        runs = λ w. rw ((digest-Ends (m w) (h.ends w)).1) (h.runs w);
        ends = λ w. (digest-Ends (m w) (h.ends w)).0;
      }

  frame_over-IsHonest :
      (row : ReplayUploadRow) (kind : ReplayArtifactKind) (game video : ℕ) (width height : Option ℕ)
      (existing : Option ReplayArtifactRow)
      → row.id ≡ k
      → IsHonest O drawn k Any
          (frame_over workshop others row kind game video width height existing)
  frame_over-IsHonest row kind game video width height none same =
      add_frame-IsHonest row kind game video _ width height same
  frame_over-IsHonest row kind game video width height (some a) same =
      bind-IsHonest O drawn k Any Any _ _ (digest_of-IsHonest a.object_key) (λ digest _.
        if-IsHonest O drawn k Any _ _ _
          (λ e.
            bind-IsHonest O drawn k Any Any _ _ (upsert-IsHonest a)
              (λ _ _. pure-IsHonest O drawn k Any tt tt))
          (λ e. add_frame-IsHonest row kind game video a.object_key width height same))

  upsert_frame-IsHonest :
      (row : ReplayUploadRow) (game : ℕ) (kind : ReplayArtifactKind) (width height : Option ℕ)
      → row.id ≡ k
      → IsHonest O drawn k Any (upsert_frame workshop others row game kind width height)
  unfolding upsert_frame
  upsert_frame-IsHonest row game kind width height same =
      bind-IsHonest O drawn k Any Any _ _ (lift-IsHonest O drawn k _ _) (λ video _.
        bind-IsHonest O drawn k Any Any _ _
          (transact-IsHonest O drawn k workshop others theirs Any
            (λ db. ok (list_for_replay row.id db, db))
            (λ db r db' e. let same : db ≡ db' = ground arith in (rw (← same) Reach.here, tt)))
          (λ rows _. frame_over-IsHonest row kind game (pos_part video) width height _ same))

  pub extract_frames-IsHonest :
      (width height : Option ℕ) (total index : ℕ) (row : ReplayUploadRow) (times : List ℕ)
      → row.id ≡ k
      → IsHonest O drawn k
          (IsOf k)
          (extract_frames workshop others width height total index row times)
  extract_frames-IsHonest width height total index row [] same =
      pure-IsHonest O drawn k (IsOf k) row same
  extract_frames-IsHonest width height total index row (t ∷ times) same =
      bind-IsHonest O drawn k Any (IsOf k) _ _ (guarded row same) (λ _ _.
        bind-IsHonest O drawn k Any (IsOf k) _ _
          (upsert_frame-IsHonest row t (kind_at t) width height same)
          (λ _ _. bind-IsHonest O drawn k Any (IsOf k) _ _ clocked (λ now _.
            bind-IsHonest O drawn k (IsOf k) (IsOf k) _ _
              (moves O drawn k workshop others theirs row is_extracting extracting _ same
                (λ s gone. ground arith))
              (λ row' same'.
                extract_frames-IsHonest width height total (index + 1) row' times same'))))
