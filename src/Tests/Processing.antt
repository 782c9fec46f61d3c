-- ===== src/Tests/Processing.antt =====
-- The media checks, the buffers and the pipeline at concrete inputs.
use league_of_legnds_ai_coac.Prelude.{
  ℕ, pos, ◌≡◌, ◌⊎◌, ◌≤◌, refl, true, false, none, some, List, [], ◌∷◌, length, ok, raise,
}
use league_of_legnds_ai_coac.Domain.{ReplayStatus, deleting, process as process_kind}
use league_of_legnds_ai_coac.Rows.{ReplayJobRow}
use league_of_legnds_ai_coac.Database.{Db}
use league_of_legnds_ai_coac.Repo.Replays.{get}
use league_of_legnds_ai_coac.Repo.Steps.{Reach}
use league_of_legnds_ai_coac.Service.Calls.{World}
use league_of_legnds_ai_coac.Media.{
  finite, VideoStreamProbe, MediaProbe, MediaError, default_limits, validated, validate_probe,
  append_all, read_chunks,
}
use league_of_legnds_ai_coac.Media.Buffers.{concat, last_bytes, append_all_lem}
use league_of_legnds_ai_coac.Media.Lines.{lines_of, read_chunks-lines_of}
use league_of_legnds_ai_coac.Media.Progress.{Submission}
use league_of_legnds_ai_coac.Media.Accepts.{IsSupported, validate_probe_decides}
use league_of_legnds_ai_coac.Media.Normalize.{Files, Calls, RunnerError, normalize}
use league_of_legnds_ai_coac.Media.Published.{IsPublished, GoesWell, normalize_lem}
use league_of_legnds_ai_coac.Processor.Pipeline.{Workshop, cancelled, ◌>>=◌, pure, stop}
use league_of_legnds_ai_coac.Processor.Pipeline.Honest.{IsGoneIn}
use league_of_legnds_ai_coac.Processor.Process.{ProcessSettings}
use league_of_legnds_ai_coac.Processor.Process.Run.{process_in_scratch, process, fetch_source}
use league_of_legnds_ai_coac.Processor.Process.Settled.{process_in_scratch-IsGoneIn}
use league_of_legnds_ai_coac.Tests.{upload_row, running_row, db_with}

-- 1800 seconds at 30 frames per second.
abbrev stream : VideoStreamProbe
stream = record {
  index = 0;
  width = 1920;
  height = 1080;
  codec_name = "h264";
  avg_frame_rate = finite 30 0;
  pix_fmt = some "yuv420p";
}

abbrev probe : MediaProbe
probe = record {
  duration_seconds = finite 1800 0;
  format_name = "mp4";
  video_streams = stream ∷ [];
  audio_streams = [];
  other_stream_types = [];
  size_bytes = some 100;
}

validate_probe_decides_example :
    ((video : VideoStreamProbe) × IsSupported probe default_limits video
      × (validate_probe probe default_limits ≡ ok (validated probe video)))
    ⊎ (((video : VideoStreamProbe) → ¬ IsSupported probe default_limits video)
        × (e : MediaError) × (validate_probe probe default_limits ≡ raise e))
validate_probe_decides_example = validate_probe_decides probe default_limits

accepted : validate_probe probe default_limits ≡ ok (validated probe stream)
unfolding validate_probe
accepted = refl

append_all_lem_example :
    (append_all 3 [] ((1 ∷ 2 ∷ []) ∷ (3 ∷ 4 ∷ 5 ∷ []) ∷ [])
      ≡ last_bytes 3 (concat ((1 ∷ 2 ∷ []) ∷ (3 ∷ 4 ∷ 5 ∷ []) ∷ [])))
    × (length (append_all 3 [] ((1 ∷ 2 ∷ []) ∷ (3 ∷ 4 ∷ 5 ∷ []) ∷ [])) ≤ 3)
append_all_lem_example = append_all_lem 3 ((1 ∷ 2 ∷ []) ∷ (3 ∷ 4 ∷ 5 ∷ []) ∷ [])

read_chunks-lines_of_example :
    read_chunks [] ((1 ∷ 10 ∷ 2 ∷ []) ∷ (3 ∷ 10 ∷ []) ∷ [])
    ≡ lines_of (concat ((1 ∷ 10 ∷ 2 ∷ []) ∷ (3 ∷ 10 ∷ []) ∷ []))
read_chunks-lines_of_example = read_chunks-lines_of ((1 ∷ 10 ∷ 2 ∷ []) ∷ (3 ∷ 10 ∷ []) ∷ [])

abbrev submissions : List Submission
submissions =
    record { value = 15; now = 0; succeeds = true }
    ∷ record { value = 16; now = 500; succeeds = true }
    ∷ record { value = 17; now = 1200; succeeds = true }
    ∷ []

-- A workshop in which every call succeeds and every video is the one above.
abbrev workshop : Workshop Unit
workshop = record {
  download_to_path = λ key path o. (ok none, o);
  upload_from_path =
      λ key path o. (ok (record { key = key; size_bytes = 100; sha256 = some "d" }), o);
  delete = λ key o. (ok tt, o);
  delete_prefix = λ key o. (ok tt, o);
  sha256_file = λ path o. (ok "d", o);
  file_size = λ path o. (ok 100, o);
  probe = λ path o. (ok probe, o);
  reports = λ o. 15 ∷ 40 ∷ [];
  normalize = λ p o. (ok probe, o);
  extract_frame = λ t path o. (ok tt, o);
  to_ms = λ x. 1800000;
  frame_share = λ i n. 0;
  normalized_key = λ k. "normalized/1/video";
  normalized_prefix = λ k. "normalized/1";
  frames_prefix = λ k. "frames/1";
  frame_key = λ k kind t. "frames/1/f";
  clock = λ n. n;
  uuid4 = λ n. n;
}

abbrev settings : ProcessSettings
settings = record {
  replay_min_duration_seconds = 600;
  replay_max_duration_seconds = 5400;
  replay_source_retention = 7;
  replay_derived_retention = 9;
}

abbrev alone : ℕ → Db → Db
alone n db = db

abbrev job : ReplayJobRow
job = running_row 5 1 process_kind

abbrev world_at : ReplayStatus → World Unit
world_at status = record {
  db = db_with (upload_row 1 status 2 ∷ []) (job ∷ []);
  objects = tt;
  turn = 0;
}

is_cancelled :
    (process_in_scratch workshop alone settings job 3 (world_at deleting)).0 ≡ raise cancelled
unfolding process_in_scratch fetch_source ◌>>=◌ pure get stop
is_cancelled = refl

process_in_scratch-IsGoneIn_example :
    IsGoneIn 1 (process_in_scratch workshop alone settings job 3 (world_at deleting)).1.db
process_in_scratch-IsGoneIn_example =
    process_in_scratch-IsGoneIn Unit (λ k. false) workshop alone (λ n db. Reach.here) settings job 3
      (world_at deleting) is_cancelled

-- The normalized video of the one above: at most 1280 by 720.
abbrev small_probe : MediaProbe
small_probe = record probe {
  video_streams = record stream { width = 1280; height = 720 } ∷ [];
  duration_seconds = finite 3602 1;
}

-- FFmpeg writes the bytes 1 and 2 into the partial file.
abbrev calls : Calls Unit
calls = record {
  run_normalize = λ f. (
    ok (record { returncode = pos 0; stdout = []; stderr = [] }),
    record f { temp = some (1 ∷ 2 ∷ []) },
  );
  progress_failure = λ f. none;
  final_failure = λ f. none;
  probe = λ f. ok small_probe;
  run_extract = λ t f. (ok (record { returncode = pos 0; stdout = []; stderr = [] }), f);
}

abbrev no_files : Files
no_files = record { temp = none; output = none }

normalize_lem_example :
    ((e : RunnerError Unit)
      → (normalize calls probe no_files).0 ≡ raise e
      → (normalize calls probe no_files).1.output ≡ none)
    × ((p : MediaProbe)
        → (normalize calls probe no_files).0 ≡ ok p
        → IsPublished calls probe p no_files (normalize calls probe no_files).1)
    × ((p : MediaProbe)
        → GoesWell calls probe p no_files
        → (normalize calls probe no_files).0 ≡ ok p)
normalize_lem_example = normalize_lem calls (λ f. refl) probe no_files

is_published :
    normalize calls probe no_files
    ≡ (ok small_probe, record { temp = none; output = some (1 ∷ 2 ∷ []) })
unfolding normalize
is_published = refl
