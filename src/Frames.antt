-- ===== src/Frames.antt =====
-- The frame plan of a replay: `extractable_frame_end_ms` and `plan_frame_game_times` of
-- backend/app/services/replays/processor.py.
pub mod Plan
pub mod Window
use league_of_legnds_ai_coac.Prelude.{
  ℕ, zero, suc, ◌+◌, ◌-◌, ◌/◌, Bool, true, false, ◌||◌, Option, none, some, List, [], ◌∷◌, ◌++◌,
  ◌==◌, if◌then◌else◌, take, ℤ, pos, ◌-ℤ◌, ltb_ℤ, min_ℤ, pos_part, Outcome, ok, raise, raise_if,
  ◌>>=◌, ◌>>◌,
}
use league_of_legnds_ai_coac.Domain.{
  ValueError, negative_time, negative_coverage_end, negative_extractable_end,
}

-- `_FRAME_INTERVAL_MS`, `_MAX_FRAMES` and `_FRAME_SEEK_SAFE_MARGIN_MS`
abbrev pub frame_interval_ms : ℕ
frame_interval_ms = 30000

abbrev pub max_frames : ℕ
max_frames = 181

abbrev pub frame_seek_safe_margin_ms : ℕ
frame_seek_safe_margin_ms = 100

-- `anchor_too_close` is the `ReplayMediaError` with the code REPLAY_MEDIA_UNSUPPORTED.
pub data FrameError : Type 0 where
  bad_value : ValueError → FrameError
  anchor_too_close : FrameError

-- A `ValueError` that leaves the function it was raised in.
abbrev lift_value {ℓ} : {A : Type ℓ} → Outcome ValueError A → Outcome FrameError A
lift_value (ok a) = ok a
lift_value (raise e) = raise (bad_value e)

-- The last game time that is safe to seek.
unfoldable pub extractable_frame_end_ms : ℤ → ℤ → Outcome FrameError ℤ
extractable_frame_end_ms duration_ms game_time_zero_ms = do
  raise_if (ltb_ℤ duration_ms (pos 0) || ltb_ℤ game_time_zero_ms (pos 0)) (bad_value negative_time)
  let remaining_ms = duration_ms -ℤ game_time_zero_ms
  raise_if (ltb_ℤ remaining_ms (pos frame_seek_safe_margin_ms)) anchor_too_close
  ok (remaining_ms -ℤ pos frame_seek_safe_margin_ms)

-- `count` numbers from `start` on, `step` apart.
unfoldable pub multiples : ℕ → ℕ → ℕ → List ℕ
multiples zero start step = []
multiples (suc count) start step = start ∷ multiples count (start + step) step

-- Python's `list(range(0, stop, step))` at a positive step.
unfoldable pub range_list : ℕ → ℕ → List ℕ
unfolding multiples
range_list stop step = multiples ((stop + step - 1) / step) 0 step

-- `times[-1]`, of a list that is not empty.
unfoldable pub last_or : ℕ → List ℕ → ℕ
last_or d [] = d
last_or d (x ∷ xs) = last_or x xs

-- `if not times: times = [0]`
unfoldable pub or_zero : List ℕ → List ℕ
or_zero [] = 0 ∷ []
or_zero (x ∷ xs) = x ∷ xs

-- `if times[-1] != end_ms: times.append(end_ms)`
unfoldable pub close_at : ℕ → List ℕ → List ℕ
unfolding last_or
close_at end_ms times = if last_or 0 times == end_ms then times else times ++ end_ms ∷ []

unfoldable pub frame_times_to : ℕ → List ℕ
unfolding range_list or_zero close_at
frame_times_to end_ms = close_at end_ms (or_zero (range_list (end_ms + 1) frame_interval_ms))

unfoldable pub extractable_or : ℤ → Option ℤ → ℤ
extractable_or coverage_end_ms none = coverage_end_ms
extractable_or coverage_end_ms (some extractable_end_ms) = min_ℤ coverage_end_ms extractable_end_ms

unfoldable pub is_negative : Option ℤ → Bool
is_negative none = false
is_negative (some e) = ltb_ℤ e (pos 0)

-- Both guards have passed where the list is built, so the end is a natural number.
unfoldable pub plan_frame_game_times : ℤ → ℕ → Option ℤ → Outcome ValueError (List ℕ)
unfolding frame_times_to extractable_or is_negative
plan_frame_game_times coverage_end_ms limit extractable_end_ms = do
  raise_if (ltb_ℤ coverage_end_ms (pos 0)) negative_coverage_end
  raise_if (is_negative extractable_end_ms) negative_extractable_end
  let end_ms = extractable_or coverage_end_ms extractable_end_ms
  ok (take limit (frame_times_to (pos_part end_ms)))

-- The lines of `_process_in_scratch` that plan the frames of a normalized video.
unfoldable pub process_frame_times : ℤ → ℤ → ℤ → Outcome FrameError (List ℕ)
process_frame_times duration_ms game_time_zero_ms coverage_end_ms = do
  extractable_end_ms ← extractable_frame_end_ms duration_ms game_time_zero_ms
  lift_value (plan_frame_game_times coverage_end_ms max_frames (some extractable_end_ms))
