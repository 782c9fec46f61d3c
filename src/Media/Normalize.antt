-- ===== src/Media/Normalize.antt =====
-- `ReplayMediaRunner.normalize` and `extract_frame` of media.py with the check of the video that is
-- made. The FFmpeg processes and the progress callbacks are parameters; file operations succeed.
use Prim.Native.Char.{code}
use league_of_legnds_ai_coac.Prelude.{
  ℕ, suc, ◌+◌, ◌*◌, String, Bool, true, false, not, ◌&&◌, ◌||◌, Option, none, some, List, [], ◌∷◌,
  ltb, ◌==◌, str_eq, if◌then◌else◌, Outcome, ok, raise, raise_if, ◌>>◌, ℤ, pos, negsuc,
}
use league_of_legnds_ai_coac.Media.{
  Float, finite, negative, infinite, not_a_number, above, VideoStreamProbe, MediaProbe, Bytes,
  is_some,
}

-- The `ReplayMediaError`s that the runner raises itself, by their message.
pub data Fault : Type 0 where
  normalization_failed no_video_stream codec_invalid pixel_format_invalid container_invalid : Fault
  frame_rate_invalid dimensions_exceed_bounds duration_differs : Fault
  frame_time_negative extraction_failed : Fault

-- The code of the error.
abbrev pub fault_code : Fault → String
fault_code frame_time_negative = "REPLAY_MEDIA_UNSUPPORTED"
fault_code _ = "REPLAY_PROCESSING_FAILED"

-- What a method of the runner raises: an error of its own, that of a call, or that a file is missing.
pub data RunnerError (E : Type 0) : Type 0 where
  fault : Fault → RunnerError E
  raised : E → RunnerError E
  missing_file : RunnerError E

pub record ProcessResult : Type 0 where
  pub returncode : ℤ
  pub stdout : Bytes
  pub stderr : Bytes

-- The partial file and the output file.
pub record Files : Type 0 where
  pub temp : Option Bytes
  pub output : Option Bytes

-- The processes and the callbacks: the two FFmpeg commands, the exception of the first progress task
-- that fails, that of the final report, and `probe` on the partial file.
pub record Calls (E : Type 0) : Type 0 where
  pub run_normalize : Files → Outcome E ProcessResult × Files
  pub progress_failure : Files → Option E
  pub final_failure : Files → Option E
  pub probe : Files → Outcome E MediaProbe
  pub run_extract : ℕ → Files → Outcome E ProcessResult × Files

abbrev pub is_zero : ℤ → Bool
is_zero (pos n) = n == 0
is_zero (negsuc n) = false

-- `part in text`
abbrev pub starts_with : String → String → Bool
starts_with String.[] text = true
starts_with (String.◌∷◌ c part) String.[] = false
starts_with (String.◌∷◌ c part) (String.◌∷◌ d text) = code c == code d && starts_with part text

abbrev pub is_in : String → String → Bool
is_in part String.[] = starts_with part String.[]
is_in part (String.◌∷◌ c text) = starts_with part (String.◌∷◌ c text) || is_in part text

abbrev pub is_h264 : String → Bool
is_h264 codec = str_eq codec "h264" || str_eq codec "avc1"

abbrev pub is_other_format : Option String → Bool
is_other_format none = false
is_other_format (some format) = not (str_eq format "yuv420p")

-- `abs(rate - 30.0) > 0.5`
abbrev pub is_far_from_30 : Float → Bool
is_far_from_30 (finite n d) = ltb (61 * suc d) (2 * n) || ltb (2 * n) (59 * suc d)
is_far_from_30 (negative n d) = true
is_far_from_30 infinite = true
is_far_from_30 not_a_number = false

-- Both durations are finite and more than two seconds apart. The difference is taken exactly.
abbrev pub differs : Float → Float → Bool
differs (finite n d) (finite m e) =
    ltb (m * suc d + 2 * (suc d * suc e)) (n * suc e)
    || ltb (n * suc e + 2 * (suc d * suc e)) (m * suc d)
differs (finite n d) (negative m e) = ltb (2 * (suc d * suc e)) (n * suc e + m * suc d)
differs (negative n d) (finite m e) = ltb (2 * (suc d * suc e)) (n * suc e + m * suc d)
differs (negative n d) (negative m e) =
    ltb (m * suc d + 2 * (suc d * suc e)) (n * suc e)
    || ltb (n * suc e + 2 * (suc d * suc e)) (m * suc d)
differs _ _ = false

abbrev pub assert_video : MediaProbe → MediaProbe → VideoStreamProbe → Outcome Fault (Unit {0})
assert_video normalized source video = do
  raise_if (not (is_h264 video.codec_name)) codec_invalid
  raise_if (is_other_format video.pix_fmt) pixel_format_invalid
  raise_if (not (is_in "mp4" normalized.format_name)) container_invalid
  raise_if (above video.avg_frame_rate 0 && is_far_from_30 video.avg_frame_rate) frame_rate_invalid
  raise_if (ltb 1280 video.width || ltb 720 video.height) dimensions_exceed_bounds
  raise_if (differs normalized.duration_seconds source.duration_seconds) duration_differs

abbrev pub assert_first : MediaProbe → MediaProbe → List VideoStreamProbe → Outcome Fault (Unit {0})
assert_first normalized source [] = raise no_video_stream
assert_first normalized source (video ∷ videos) = assert_video normalized source video

-- `_assert_normalized_output`
unfoldable pub assert_normalized_output : MediaProbe → MediaProbe → Outcome Fault (Unit {0})
assert_normalized_output normalized source = assert_first normalized source normalized.video_streams

-- `temp_path.replace(output_path)`
abbrev pub replace :
    {E : Type 0} → MediaProbe → Option Bytes → Files → Outcome (RunnerError E) MediaProbe × Files
replace normalized none files = (raise missing_file, files)
replace normalized (some video) files =
    (ok normalized, record files { temp = none; output = some video })

abbrev pub publish :
    {E : Type 0}
    → MediaProbe
    → Outcome Fault (Unit {0})
    → Files
    → Outcome (RunnerError E) MediaProbe × Files
publish normalized (raise e) files = (raise (fault e), files)
publish normalized (ok _) files = replace normalized files.temp files

module _ {E : Type 0} (calls : Calls E) where
  abbrev pub after_probe :
      MediaProbe → Outcome E MediaProbe → Files → Outcome (RunnerError E) MediaProbe × Files
  after_probe source (raise e) files = (raise (raised e), files)
  after_probe source (ok normalized) files =
      publish normalized (assert_normalized_output normalized source) files

  abbrev pub after_final :
      MediaProbe → Option E → Files → Outcome (RunnerError E) MediaProbe × Files
  after_final source (some e) files = (raise (raised e), files)
  after_final source none files = after_probe source (calls.probe files) files

  abbrev pub after_progress :
      MediaProbe → ProcessResult → Option E → Files → Outcome (RunnerError E) MediaProbe × Files
  after_progress source result (some e) files = (raise (raised e), files)
  after_progress source result none files =
      if not (is_zero result.returncode)
      then (raise (fault normalization_failed), record files { temp = none })
      else after_final source (calls.final_failure files) files

  abbrev pub after_run :
      MediaProbe → Outcome E ProcessResult × Files → Outcome (RunnerError E) MediaProbe × Files
  after_run source (raise e, files) = (raise (raised e), files)
  after_run source (ok result, files) =
      after_progress source result (calls.progress_failure files) files

  -- A partial file of an earlier run is removed first.
  unfoldable pub normalize : MediaProbe → Files → Outcome (RunnerError E) MediaProbe × Files
  unfolding assert_normalized_output
  normalize source files = after_run source (calls.run_normalize (record files { temp = none }))

  abbrev pub after_extract :
      Outcome E ProcessResult × Files → Outcome (RunnerError E) (Unit {0}) × Files
  after_extract (raise e, files) = (raise (raised e), files)
  after_extract (ok result, files) =
      if not (is_zero result.returncode) || not (is_some files.output)
      then (raise (fault extraction_failed), record files { output = none })
      else (ok tt, files)

  unfoldable pub extract_frame : ℤ → Files → Outcome (RunnerError E) (Unit {0}) × Files
  extract_frame (negsuc n) files = (raise (fault frame_time_negative), files)
  extract_frame (pos t) files = after_extract (calls.run_extract t files)
