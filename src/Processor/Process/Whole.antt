-- ===== src/Processor/Process/Whole.antt =====
-- `_process_in_scratch` and `process` as a whole.
use league_of_legnds_ai_coac.Prelude.{ℕ, ◌≡◌, String, Bool, some, arith, leb}
use league_of_legnds_ai_coac.Domain.{probing, extracting, ready}
use league_of_legnds_ai_coac.Rows.{ReplayUploadRow, ReplayJobRow}
use league_of_legnds_ai_coac.Database.{Db}
use league_of_legnds_ai_coac.Repo.Jobs.{succeed}
use league_of_legnds_ai_coac.Repo.Steps.{Step, Reach}
use league_of_legnds_ai_coac.Service.Calls.{non_empty}
use league_of_legnds_ai_coac.Media.{MediaProbe, ValidatedMedia}
use league_of_legnds_ai_coac.Processor.{media, is_failable}
use league_of_legnds_ai_coac.Processor.Pipeline.{
  source_path, normalized_path, Workshop, failed, require_replay, pure, stop,
  upload_if_not_deleting,
}
use league_of_legnds_ai_coac.Processor.Pipeline.Honest.{
  IsHonest, Any, IsOf, pure-IsHonest, failed-IsHonest, lift-IsHonest, bind-IsHonest, if-IsHonest,
  transact-IsHonest,
}
use league_of_legnds_ai_coac.Processor.Pipeline.Guards.{
  require_replay-IsHonest, upload_if_not_deleting-IsHonest,
}
use league_of_legnds_ai_coac.Processor.Process.{
  ProcessSettings, is_transcoding_or_extracting, is_extracting,
}
use league_of_legnds_ai_coac.Processor.Process.Honest.{
  moves, source_key-IsHonest, skips_transcode-IsHonest,
}
use league_of_legnds_ai_coac.Processor.Process.Stages.{
  calls, clocked, guarded, FirstOf, normalized-IsHonest, extract_frames-IsHonest,
}
use league_of_legnds_ai_coac.Processor.Process.Run.{
  ready_values, fetch_source, probe_source, store_normalized, finish, extracted, process_in_scratch,
}

module _ (O : Type 0) (drawn : ℕ → Bool) (workshop : Workshop O) (others : ℕ → Db → Db)
    (theirs : (n : ℕ) (db : Db) → Reach drawn db (others n db)) (settings : ProcessSettings) where
  module _ (k : ℕ) where
    -- A pair whose first part is the row of the replay.
    abbrev First : {B : Type 0} → ReplayUploadRow × B → Type 0
    First = FirstOf O drawn k workshop others theirs

    fetch_source-IsHonest :
        (job : ReplayJobRow) (now : ℕ)
        → job.replay_id ≡ k
        → IsHonest O drawn k (IsOf k) (fetch_source workshop others settings job now)
    unfolding fetch_source
    fetch_source-IsHonest job now same =
        bind-IsHonest O drawn k (IsOf k) (IsOf k) _ _ required (λ found is_k.
          bind-IsHonest O drawn k Any (IsOf k) _ _
            (guarded O drawn k workshop others theirs found is_k)
            (λ _ _.
              bind-IsHonest O drawn k Any (IsOf k) _ _
                (source_key-IsHonest O drawn k workshop others theirs
                  (non_empty found.source_object_key))
                (λ key _.
                  bind-IsHonest O drawn k Any (IsOf k) _ _
                    (calls O drawn k workshop others theirs
                      (workshop.download_to_path key source_path))
                    (λ _ _.
                      bind-IsHonest O drawn k Any (IsOf k) _ _
                        (calls O drawn k workshop others theirs (workshop.sha256_file source_path))
                        (λ digest _.
                          bind-IsHonest O drawn k Any (IsOf k) _ _
                            (calls O drawn k workshop others theirs
                              (workshop.file_size source_path))
                            (λ size _.
                              moves O drawn k workshop others theirs found is_failable found.status
                                _ is_k (λ s gone. ground arith)))))))
      where
        required : IsHonest O drawn k (IsOf k) (require_replay workshop others job.replay_id)
        required = rw same (require_replay-IsHonest O drawn k workshop others theirs)

    probe_source-IsHonest :
        (now : ℕ) (row : ReplayUploadRow)
        → row.id ≡ k
        → IsHonest O drawn k First (probe_source workshop others settings now row)
    unfolding probe_source
    probe_source-IsHonest now row same =
        bind-IsHonest O drawn k Any First _ _
          (calls O drawn k workshop others theirs (workshop.probe source_path))
          (λ source_probe _.
            bind-IsHonest O drawn k Any First _ _ (clocked O drawn k workshop others theirs)
              (λ updated _.
                bind-IsHonest O drawn k (IsOf k) First _ _
                  (moves O drawn k workshop others theirs row is_failable probing _ same
                    (λ s gone. ground arith))
                  (λ row' same'.
                    bind-IsHonest O drawn k Any First _ _
                      (guarded O drawn k workshop others theirs row' same')
                      (λ _ _.
                        bind-IsHonest O drawn k Any First _ _ (lift-IsHonest O drawn k _ _)
                          (λ validated _.
                            if-IsHonest O drawn k First
                              (leb (workshop.to_ms validated.duration_seconds)
                                row'.game_time_zero_ms)
                              (stop (failed (media "REPLAY_MEDIA_UNSUPPORTED")))
                              (pure (row', (source_probe, validated)))
                              (λ e.
                                failed-IsHonest O drawn k First (media "REPLAY_MEDIA_UNSUPPORTED"))
                              (λ e.
                                pure-IsHonest O drawn k First (row', (source_probe, validated))
                                  same'))))))

    store_normalized-IsHonest :
        (row : ReplayUploadRow) (probe : MediaProbe) (validated : ValidatedMedia)
        → row.id ≡ k
        → IsHonest O drawn k First (store_normalized workshop others settings row probe validated)
    unfolding store_normalized
    store_normalized-IsHonest row probe validated same =
        bind-IsHonest O drawn k Any First _ _
          (skips_transcode-IsHonest O drawn k workshop others theirs
            (non_empty row.normalized_object_key))
          (λ skipped _.
            bind-IsHonest O drawn k First First _ _
              (normalized-IsHonest O drawn k workshop others theirs row probe skipped same)
              (λ (row', found) same'.
                bind-IsHonest O drawn k Any First _ _ (lift-IsHonest O drawn k _ _) (λ video _.
                  bind-IsHonest O drawn k Any First _ _ (uploaded row' _ same') (λ _ _.
                    bind-IsHonest O drawn k Any First _ _ (lift-IsHonest O drawn k _ _)
                      (λ coverage _.
                        bind-IsHonest O drawn k Any First _ _
                          (clocked O drawn k workshop others theirs)
                          (λ now _.
                            bind-IsHonest O drawn k (IsOf k) First _ _
                              (moves O drawn k workshop others theirs row'
                                is_transcoding_or_extracting extracting _ same'
                                (λ s gone. ground arith))
                              (λ row'' same''.
                                bind-IsHonest O drawn k Any First _ _
                                  (guarded O drawn k workshop others theirs row'' same'')
                                  (λ _ _.
                                    pure-IsHonest O drawn k First (row'', (video, coverage))
                                      same''))))))))
      where
        uploaded :
            (x : ReplayUploadRow) (key : String)
            → x.id ≡ k
            → IsHonest O drawn k Any
                (upload_if_not_deleting workshop others x.id key normalized_path)
        uploaded x key e =
            rw e
              (upload_if_not_deleting-IsHonest O drawn k workshop others theirs key normalized_path)

    finish-IsHonest :
        (job : ReplayJobRow) (row : ReplayUploadRow)
        → row.id ≡ k
        → IsHonest O drawn k Any (finish workshop others settings job row)
    unfolding finish
    finish-IsHonest job row same =
        bind-IsHonest O drawn k Any Any _ _ (guarded O drawn k workshop others theirs row same)
          (λ _ _.
            bind-IsHonest O drawn k Any Any _ _ (clocked O drawn k workshop others theirs)
              (λ finished _.
                bind-IsHonest O drawn k (IsOf k) Any _ _
                  (moves O drawn k workshop others theirs row is_extracting ready
                    (ready_values settings finished) same (λ s gone. ground arith))
                  (λ _ _.
                    bind-IsHonest O drawn k Any Any _ _
                      (transact-IsHonest O drawn k workshop others theirs Any
                        (succeed job.id finished)
                        (λ db r db' e. (
                          Reach.next {db' = db} Reach.here
                              (Step.succeeded_job job.id finished {r = r} {db' = db'} e),
                          tt,
                        )))
                      (λ _ _. pure-IsHonest O drawn k Any tt tt))))

    pub extracted-IsHonest :
        (job : ReplayJobRow) (now : ℕ)
        → job.replay_id ≡ k
        → IsHonest O drawn k (IsOf k) (extracted workshop others settings job now)
    unfolding extracted
    extracted-IsHonest job now same =
        bind-IsHonest O drawn k (IsOf k) (IsOf k) _ _ (fetch_source-IsHonest job now same)
          (λ fetched is_k.
            bind-IsHonest O drawn k First (IsOf k) _ _ (probe_source-IsHonest now fetched is_k)
              (λ (row, (probe, validated)) is_row.
                bind-IsHonest O drawn k First (IsOf k) _ _
                  (store_normalized-IsHonest row probe validated is_row)
                  (λ (row', (video, coverage)) is_row'.
                    bind-IsHonest O drawn k Any (IsOf k) _ _ (lift-IsHonest O drawn k _ _)
                      (λ times _.
                        extract_frames-IsHonest O drawn k workshop others theirs (some video.width)
                          (some video.height) _ 0 row' times is_row'))))

    pub process_in_scratch-IsHonest :
        (job : ReplayJobRow) (now : ℕ)
        → job.replay_id ≡ k
        → IsHonest O drawn k Any (process_in_scratch workshop others settings job now)
    unfolding process_in_scratch
    process_in_scratch-IsHonest job now same =
        bind-IsHonest O drawn k (IsOf k) Any _ _ (extracted-IsHonest job now same)
          (λ row is_row. finish-IsHonest job row is_row)
