-- ===== src/Media.antt =====
-- The media runner of backend/app/services/replays/media.py: what it checks of a video, and how it
-- reads the output of a process. The processes themselves are outside.
pub mod Buffers
pub mod Lines
pub mod Progress
pub mod Accepts
pub mod Normalize
pub mod Normal
pub mod Published
use league_of_legnds_ai_coac.Prelude.{
  ℕ, suc, ◌+◌, ◌*◌, ◌-◌, String, Bool, true, false, not, ◌&&◌, ◌||◌, Option, none, some, List, [],
  ◌∷◌, ◌++◌, length, drop, ltb, leb, ◌==◌, if◌then◌else◌, Outcome, ok, raise, raise_if, ◌>>=◌, ◌>>◌,
}

-- A float: a finite one is a fraction, `finite n d` that of `n` and `d + 1`, with its sign.
pub data Float : Type 0 where
  finite : ℕ → ℕ → Float
  negative : ℕ → ℕ → Float
  infinite not_a_number : Float

abbrev pub is_finite : Float → Bool
is_finite (finite n d) = true
is_finite (negative n d) = true
is_finite _ = false

-- `x < k` and `x > k` for a natural number `k`; a comparison with nan is false. Only the positive
-- infinity is left, as the negative one is not told apart by any test here.
abbrev pub below : Float → ℕ → Bool
below (finite n d) k = ltb n (k * suc d)
below (negative n d) k = ltb 0 (n + k)
below _ k = false

abbrev pub above : Float → ℕ → Bool
above (finite n d) k = ltb (k * suc d) n
above (negative n d) k = false
above infinite k = true
above not_a_number k = false

pub record VideoStreamProbe : Type 0 where
  pub index : ℕ
  pub width : ℕ
  pub height : ℕ
  pub codec_name : String
  pub avg_frame_rate : Float
  pub pix_fmt : Option String

pub record AudioStreamProbe : Type 0 where
  pub index : ℕ
  pub codec_name : String
  pub channels : Option ℕ

pub record MediaProbe : Type 0 where
  pub duration_seconds : Float
  pub format_name : String
  pub video_streams : List VideoStreamProbe
  pub audio_streams : List AudioStreamProbe
  pub other_stream_types : List String
  pub size_bytes : Option ℕ

pub record MediaLimits : Type 0 where
  pub min_duration_seconds : ℕ
  pub max_duration_seconds : ℕ
  pub min_width : ℕ
  pub min_height : ℕ
  pub max_width : ℕ
  pub max_height : ℕ
  pub max_fps : ℕ

-- The defaults of `MediaLimits`.
abbrev pub default_limits : MediaLimits
default_limits = record {
  min_duration_seconds = 600;
  max_duration_seconds = 5400;
  min_width = 320;
  min_height = 180;
  max_width = 3840;
  max_height = 2160;
  max_fps = 120;
}

pub record ValidatedMedia : Type 0 where
  pub duration_seconds : Float
  pub width : ℕ
  pub height : ℕ
  pub fps : Float
  pub has_audio : Bool
  pub video : VideoStreamProbe
  pub audio : Option AudioStreamProbe

-- A `ReplayMediaError`, by its message.
pub data MediaError : Type 0 where
  duration_not_finite duration_outside_range one_video_stream_required : MediaError
  unsupported_streams dimensions_outside_range frame_rate_not_positive frame_rate_too_high :
      MediaError

-- The code of the error.
abbrev pub media_code : MediaError → String
media_code duration_outside_range = "REPLAY_DURATION_UNSUPPORTED"
media_code _ = "REPLAY_MEDIA_UNSUPPORTED"

abbrev pub first_audio : List AudioStreamProbe → Option AudioStreamProbe
first_audio [] = none
first_audio (a ∷ rest) = some a

abbrev pub is_some {ℓ} : {A : Type ℓ} → Option A → Bool
is_some none = false
is_some (some a) = true

abbrev pub is_empty_list {ℓ} : {A : Type ℓ} → List A → Bool
is_empty_list [] = true
is_empty_list (x ∷ xs) = false

abbrev pub validated : MediaProbe → VideoStreamProbe → ValidatedMedia
validated probe video = record {
  duration_seconds = probe.duration_seconds;
  width = video.width;
  height = video.height;
  fps = video.avg_frame_rate;
  has_audio = is_some (first_audio probe.audio_streams);
  video = video;
  audio = first_audio probe.audio_streams;
}

abbrev pub validate_video :
    MediaProbe → MediaLimits → VideoStreamProbe → Outcome MediaError ValidatedMedia
validate_video probe limits video = do
  raise_if (not (is_empty_list probe.other_stream_types)) unsupported_streams
  raise_if
      (ltb video.width limits.min_width
        || ltb video.height limits.min_height
        || ltb limits.max_width video.width
        || ltb limits.max_height video.height)
      dimensions_outside_range
  raise_if (not (is_finite video.avg_frame_rate) || not (above video.avg_frame_rate 0))
      frame_rate_not_positive
  raise_if (above video.avg_frame_rate limits.max_fps) frame_rate_too_high
  ok (validated probe video)

-- The number of video streams is looked at before the first one is taken.
abbrev pub validate_streams :
    MediaProbe → MediaLimits → List VideoStreamProbe → Outcome MediaError ValidatedMedia
validate_streams probe limits (video ∷ []) = validate_video probe limits video
validate_streams probe limits _ = raise one_video_stream_required

unfoldable pub validate_probe : MediaProbe → MediaLimits → Outcome MediaError ValidatedMedia
validate_probe probe limits = do
  raise_if (not (is_finite probe.duration_seconds)) duration_not_finite
  raise_if
      (below probe.duration_seconds limits.min_duration_seconds
        || above probe.duration_seconds limits.max_duration_seconds)
      duration_outside_range
  validate_streams probe limits probe.video_streams

abbrev pub Bytes : Type 0
Bytes = List ℕ

-- `_TailBuffer.append` on the data that it keeps.
unfoldable pub append : ℕ → Bytes → Bytes → Bytes
append max_bytes held chunk =
    let all_bytes = held ++ chunk in
    if ltb max_bytes (length all_bytes)
    then drop (length all_bytes - max_bytes) all_bytes
    else all_bytes

-- What the buffer holds after the chunks.
abbrev pub append_all : ℕ → Bytes → List Bytes → Bytes
append_all max_bytes held [] = held
append_all max_bytes held (chunk ∷ chunks) =
    append_all max_bytes (append max_bytes held chunk) chunks

abbrev pub is_newline : ℕ → Bool
is_newline byte = byte == 10

-- The loop `while b"\n" in buffer`: the lines that are complete, and the rest of the buffer. `held`
-- are the bytes since the last separator.
abbrev pub take_lines : Bytes → Bytes → List Bytes × Bytes
take_lines held [] = ([], held)
take_lines held (byte ∷ bytes) =
    let ended = take_lines [] bytes in
    let going = take_lines (held ++ byte ∷ []) bytes in
    if is_newline byte then (held ∷ ended.0, ended.1) else going

abbrev pub last_line : Bytes → List Bytes
last_line [] = []
last_line (byte ∷ bytes) = (byte ∷ bytes) ∷ []

-- `_read_stdout`: the lines that are handed on, in their order, before they are decoded.
abbrev pub read_chunks : Bytes → List Bytes → List Bytes
read_chunks buffer [] = last_line buffer
read_chunks buffer (chunk ∷ chunks) =
    let found = take_lines [] (buffer ++ chunk) in found.0 ++ read_chunks found.1 chunks
