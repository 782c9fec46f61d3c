-- ===== src/Tests/Parts.antt =====
-- The theorems on the processor, the frame plan, the times and the rate limits at concrete inputs.
use league_of_legnds_ai_coac.Prelude.{
  ℕ, ◌≡◌, ◌≤◌, ◌+◌, String, true, false, ◌&&◌, none, some, List, [], ◌∷◌, ltb, length, All, ok,
  refl, arith, ◌⊎◌, pos, ◌+ℤ◌, ◌-ℤ◌, ◌≤ℤ◌, min_ℤ,
}
use league_of_legnds_ai_coac.Prelude.Dict.{lookup}
use league_of_legnds_ai_coac.Domain.{
  ReplayStatus, ReplayJobStatus, queued, probing, deleting, process, delete_all, ReplayCoverage,
  calculate_coverage,
}
use league_of_legnds_ai_coac.Domain.Times.{calculate_coverage_bounds}
use league_of_legnds_ai_coac.Frames.{
  plan_frame_game_times, process_frame_times, extractable_frame_end_ms, frame_times_to,
  extractable_or, is_negative, range_list, multiples, or_zero, close_at, last_or, max_frames,
  frame_seek_safe_margin_ms,
}
use league_of_legnds_ai_coac.Frames.Plan.{IsPlan}
use league_of_legnds_ai_coac.Frames.Window.{
  IsSeekable, process_frame_times-IsSeekable, process_frame_times_complete,
}
use league_of_legnds_ai_coac.RateLimit.{ConcurrencyCounter, current, acquire, release}
use league_of_legnds_ai_coac.RateLimit.History.{allowed_hits, admit, times_of, count_within}
use league_of_legnds_ai_coac.RateLimit.Window.{counter, allowed_hits_exact, allowed_hits_capped}
use league_of_legnds_ai_coac.RateLimit.Slots.{
  begin, finish, serve, serve_new_capped, release-acquire,
}
use league_of_legnds_ai_coac.Rows.{ReplayUploadRow, ReplayJobRow}
use league_of_legnds_ai_coac.Database.{Db, find_upload, find_job}
use league_of_legnds_ai_coac.Repo.Replays.{get, transition, moved, assign_all, assign}
use league_of_legnds_ai_coac.Repo.Jobs.{fail, failed_row}
use league_of_legnds_ai_coac.Processor.{
  os_error, classify_process_error, retry_base, retry_delay, retry_at, fail_job,
  handle_process_failure, mirror_failure, settle_transition,
}
use league_of_legnds_ai_coac.Processor.Failing.{fail_job_lem}
use league_of_legnds_ai_coac.Processor.Mirror.{handle_process_failure_lem}
use league_of_legnds_ai_coac.Processor.Deletion.{DeletingStorage}
use league_of_legnds_ai_coac.Service.Calls.{World}
use league_of_legnds_ai_coac.Tests.{upload_row, running_row, db_with}

-- A store whose deletions all succeed.
abbrev store : DeletingStorage Unit
store = record {
  delete = λ key objects. (ok tt, objects);
  delete_prefix = λ prefix objects. (ok tt, objects);
  id_text = λ id. "1";
  is_s3 = false;
}

abbrev doomed : ReplayUploadRow
doomed = upload_row 1 deleting 3

abbrev delete_job : ReplayJobRow
delete_job = running_row 9 1 delete_all

abbrev doomed_world : World Unit
doomed_world = record { db = db_with (doomed ∷ []) (delete_job ∷ []); objects = tt; turn = 0 }

abbrev alone : ℕ → Db → Db
alone n db = db

abbrev probing_row : ReplayUploadRow
probing_row = upload_row 1 probing 4

abbrev process_row : ReplayJobRow
process_row = running_row 9 1 process

abbrev probing_db : Db
probing_db = db_with (probing_row ∷ []) (process_row ∷ [])

abbrev failed_db : Db
failed_db = (handle_process_failure (λ d. d) (λ d. d) process_row os_error 20 0 500 probing_db).1

handle_process_failure_lem_example :
    (r : ReplayJobRow) × (u : ReplayUploadRow) × (find_job 9 failed_db ≡ some r)
    × (find_upload 1 failed_db ≡ some u)
    × (((r.status ≡ ReplayJobStatus.retry_scheduled) × (u.status ≡ queued))
        ⊎ ((r.status ≡ ReplayJobStatus.failed) × (u.status ≡ ReplayStatus.failed)))
unfolding handle_process_failure mirror_failure settle_transition classify_process_error get
    fail_job retry_at retry_delay retry_base fail failed_row transition moved assign_all assign
handle_process_failure_lem_example =
    handle_process_failure_lem process_row os_error 20 0 500 probing_db process_row probing_row
      {db' = failed_db} refl refl refl refl refl refl

fail_job_lem_example :
    (find_job 9 (db_with (probing_row ∷ []) (failed_row "E" 20 (some 2000020) process_row ∷ []))
      ≡ some (failed_row "E" 20 (some 2000020) process_row))
    × ((failed_row "E" 20 (some 2000020) process_row).worker_id ≡ none)
    × ((true && ltb 1 3) ≡ true
        → ((failed_row "E" 20 (some 2000020) process_row).status ≡ ReplayJobStatus.retry_scheduled)
          × ((failed_row "E" 20 (some 2000020) process_row).available_at ≡ 20 + retry_delay 1 0))
    × ((true && ltb 1 3) ≡ false
        → (failed_row "E" 20 (some 2000020) process_row).status ≡ ReplayJobStatus.failed)
unfolding fail_job retry_at retry_delay retry_base fail failed_row
fail_job_lem_example =
    fail_job_lem process_row "E" true 20 0 probing_db process_row
      {r = failed_row "E" 20 (some 2000020) process_row}
      {db' = db_with (probing_row ∷ []) (failed_row "E" 20 (some 2000020) process_row ∷ [])} refl
      refl refl refl

-- A video of 100 seconds whose game begins at 10, with footage of 80 seconds of game.
process_frame_times-IsSeekable_example :
    All (IsSeekable (pos 100000) (pos 10000)) (0 ∷ 30000 ∷ 60000 ∷ 80000 ∷ [])
unfolding process_frame_times extractable_frame_end_ms plan_frame_game_times frame_times_to
    extractable_or is_negative range_list multiples last_or or_zero close_at ◌-ℤ◌ ◌+ℤ◌
process_frame_times-IsSeekable_example =
    process_frame_times-IsSeekable (pos 100000) (pos 10000) (pos 80000)
      {times = 0 ∷ 30000 ∷ 60000 ∷ 80000 ∷ []} refl

process_frame_times_complete_example :
    (times : List ℕ) × (process_frame_times (pos 100000) (pos 10000) (pos 80000) ≡ ok times)
    × IsPlan times
    × (length times ≤ max_frames)
    × (pos (last_or 0 times)
        ≡ min_ℤ (pos 80000) (pos 100000 -ℤ pos 10000 -ℤ pos frame_seek_safe_margin_ms))
unfolding ◌+ℤ◌
process_frame_times_complete_example =
    process_frame_times_complete (pos 100000) (pos 10000) (pos 80000) (omega arith) (omega arith)
      (omega arith) (omega arith)

abbrev seventy : ReplayCoverage
seventy = record { start_ms = pos 0; end_ms = pos 70; partial = true }

calculate_coverage_bounds_example :
    (seventy.start_ms ≡ pos 0)
    × (pos 0 ≤ℤ seventy.end_ms)
    × (seventy.end_ms ≤ℤ pos 90)
    × (pos 30 +ℤ seventy.end_ms ≤ℤ pos 100)
unfolding calculate_coverage ◌-ℤ◌
calculate_coverage_bounds_example =
    calculate_coverage_bounds (pos 100) (pos 30) (pos 90) {c = seventy} refl

abbrev hits : List (String × ℕ)
hits = ("a", 1) ∷ ("b", 2) ∷ ("a", 3) ∷ ("a", 12) ∷ []

allowed_hits_exact_example :
    allowed_hits "a" (counter 1 10) [] hits ≡ admit 1 10 [] (times_of "a" hits)
allowed_hits_exact_example =
    allowed_hits_exact 1 10 "a" hits (omega arith, (omega arith, (omega arith, tt)))

allowed_hits_capped_example : count_within 10 12 (allowed_hits "a" (counter 1 10) [] hits) ≤ 1
allowed_hits_capped_example =
    allowed_hits_capped 1 10 "a" hits 12 (omega arith, (omega arith, (omega arith, tt)))

abbrev two_slots : ConcurrencyCounter
two_slots = record { slots = 2; active = ("a", 1) ∷ [] }

serve_new_capped_example :
    current
      (serve (record { slots = 1; active = [] }) (begin "a" ∷ begin "a" ∷ finish "a" ∷ []))
      "a"
    ≤ 1
serve_new_capped_example = serve_new_capped 1 (begin "a" ∷ begin "a" ∷ finish "a" ∷ []) "a"

release-acquire_example :
    current (release (acquire two_slots "a").1 "a") "b" ≡ current two_slots "b"
unfolding acquire current lookup
release-acquire_example = release-acquire two_slots "a" "b" refl
