-- ===== src/Frames/Window.antt =====
-- The plan as the processor calls it: every guard, and every frame inside the footage.
use league_of_legnds_ai_coac.Prelude.{
  ℕ, zero, suc, ◌≤◌, ◌≡◌, List, [], ◌∷◌, Option, none, some, take, length, length-take, take-all,
  All, ℤ, pos, ◌+ℤ◌, ◌-ℤ◌, ◌≤ℤ◌, min_ℤ, pos_part, ok, arith,
}
use league_of_legnds_ai_coac.Frames.{
  max_frames, frame_seek_safe_margin_ms, last_or, frame_times_to, extractable_frame_end_ms,
  plan_frame_game_times, process_frame_times,
}
use league_of_legnds_ai_coac.Frames.Plan.{
  IsPlan, take-IsPlan, frame_times_to-IsPlan, last-frame_times_to, length-frame_times_to,
  IsPlan-All-le,
}

-- The end that a plan aims at.
abbrev pub plan_end : ℤ → Option ℤ → ℤ
plan_end coverage_end_ms none = coverage_end_ms
plan_end coverage_end_ms (some extractable_end_ms) = min_ℤ coverage_end_ms extractable_end_ms

-- What a plan that is computed consists of.
plan_times :
    (c : ℤ) (limit : ℕ) (e : Option ℤ) {times : List ℕ}
    → plan_frame_game_times c limit e ≡ ok times
    → (times ≡ take limit (frame_times_to (pos_part (plan_end c e)))) × (pos 0 ≤ℤ plan_end c e)
unfolding plan_frame_game_times
plan_times c limit none h = ground arith
plan_times c limit (some e) h = ground arith

-- Any plan begins at 0, rises by at most 30 seconds at a time, and has at most `limit` times.
pub plan_frame_game_times-IsPlan :
    (coverage_end_ms : ℤ) (limit : ℕ) (extractable_end_ms : Option ℤ) {times : List ℕ}
    → plan_frame_game_times coverage_end_ms limit extractable_end_ms ≡ ok times
    → IsPlan times × (length times ≤ limit)
plan_frame_game_times-IsPlan c limit e {times} h =
    let goal_end = pos_part (plan_end c e) in
    rw (plan_times c limit e {times = times} h).0 (
      take-IsPlan limit _ (frame_times_to-IsPlan goal_end),
      omega (arith, length-take limit (frame_times_to goal_end)),
    )

All-take {κ} : (P : ℕ → Type κ) (n : ℕ) (xs : List ℕ) → All P xs → All P (take n xs)
All-take P zero xs h = tt
All-take P (suc n) [] h = tt
All-take P (suc n) (x ∷ xs) h = (h.0, All-take P n xs h.1)

All-map {κ μ} :
    (P : ℕ → Type κ) (Q : ℕ → Type μ) (f : (t : ℕ) → P t → Q t) (xs : List ℕ) → All P xs → All Q xs
All-map P Q f [] h = tt
All-map P Q f (x ∷ xs) h = (f x h.0, All-map P Q f xs h.1)

-- A frame at game time `t` is sought at `zero_ms + t`, at least the margin before the end.
abbrev pub IsSeekable : ℤ → ℤ → ℕ → Type 0
IsSeekable duration_ms zero_ms t = zero_ms +ℤ pos t +ℤ pos frame_seek_safe_margin_ms ≤ℤ duration_ms

process_plan :
    (d z c : ℤ) {times : List ℕ}
    → process_frame_times d z c ≡ ok times
    → (plan_frame_game_times c max_frames (some (d -ℤ z -ℤ pos frame_seek_safe_margin_ms))
        ≡ ok times)
unfolding process_frame_times extractable_frame_end_ms
process_plan d z c h = ground arith

IsSeekable-of_le :
    (d z c : ℤ)
    → pos 0 ≤ℤ plan_end c (some (d -ℤ z -ℤ pos frame_seek_safe_margin_ms))
    → (t : ℕ) → t ≤ pos_part (plan_end c (some (d -ℤ z -ℤ pos frame_seek_safe_margin_ms)))
    → IsSeekable d z t
unfolding ◌+ℤ◌ ◌-ℤ◌
IsSeekable-of_le d z c nonneg t h = ground arith

goal_le :
    (d z c : ℤ)
    → pos 0 ≤ℤ z
    → pos 0 ≤ℤ c
    → z +ℤ pos frame_seek_safe_margin_ms ≤ℤ d
    → d ≤ℤ pos 5400000
    → pos_part (min_ℤ c (d -ℤ z -ℤ pos frame_seek_safe_margin_ms)) ≤ 5400000
unfolding ◌+ℤ◌ ◌-ℤ◌
goal_le d z c a b f g = ground arith

goal_pos :
    (d z c : ℤ)
    → pos 0 ≤ℤ z
    → pos 0 ≤ℤ c
    → z +ℤ pos frame_seek_safe_margin_ms ≤ℤ d
    → d ≤ℤ pos 5400000
    → pos (pos_part (min_ℤ c (d -ℤ z -ℤ pos frame_seek_safe_margin_ms)))
      ≡ min_ℤ c (d -ℤ z -ℤ pos frame_seek_safe_margin_ms)
unfolding ◌+ℤ◌ ◌-ℤ◌
goal_pos d z c a b f g = ground arith

-- Every frame that the processor plans can be sought: its video time lies at least 100 ms before
-- the end of the normalized video.
pub process_frame_times-IsSeekable :
    (duration_ms zero_ms coverage_end_ms : ℤ) {times : List ℕ}
    → process_frame_times duration_ms zero_ms coverage_end_ms ≡ ok times
    → All (IsSeekable duration_ms zero_ms) times
process_frame_times-IsSeekable d z c {times} h =
    let e : ℤ = d -ℤ z -ℤ pos frame_seek_safe_margin_ms in
    let (same, nonneg) = plan_times c max_frames (some e) {times = times} (process_plan d z c h) in
    let goal_end = pos_part (plan_end c (some e)) in
    rw same (
      All-take (IsSeekable d z) max_frames (frame_times_to goal_end) (
        All-map (λ t. t ≤ goal_end) (IsSeekable d z) (IsSeekable-of_le d z c nonneg)
          (frame_times_to goal_end)
          (IsPlan-All-le goal_end (frame_times_to goal_end) (frame_times_to-IsPlan goal_end)
            (omega (arith, last-frame_times_to goal_end)))))

process_frame_times_ok :
    (d z c : ℤ)
    → pos 0 ≤ℤ z
    → pos 0 ≤ℤ c
    → z +ℤ pos frame_seek_safe_margin_ms ≤ℤ d
    → process_frame_times d z c
      ≡ ok (
          take max_frames
            (frame_times_to (pos_part (min_ℤ c (d -ℤ z -ℤ pos frame_seek_safe_margin_ms)))))
unfolding process_frame_times extractable_frame_end_ms plan_frame_game_times ◌+ℤ◌ ◌-ℤ◌
process_frame_times_ok d z c a b f = ground arith

-- For a video of at most 90 minutes (the longest that the settings admit) whose anchor is not
-- negative and lies at least 100 ms before its end, and any coverage end that is not negative,
-- the processor gets a plan that begins at 0, rises by at most 30 seconds at a time, has at most
-- 181 times and ends exactly at the coverage end or at the last time that is safe to seek: the
-- limit on the number of frames cuts nothing off.
pub process_frame_times_complete :
    (duration_ms zero_ms coverage_end_ms : ℤ)
    → pos 0 ≤ℤ zero_ms
    → pos 0 ≤ℤ coverage_end_ms
    → zero_ms +ℤ pos frame_seek_safe_margin_ms ≤ℤ duration_ms
    → duration_ms ≤ℤ pos 5400000
    → (times : List ℕ) × (process_frame_times duration_ms zero_ms coverage_end_ms ≡ ok times)
      × IsPlan times
      × (length times ≤ max_frames)
      × (pos (last_or 0 times)
          ≡ min_ℤ coverage_end_ms (duration_ms -ℤ zero_ms -ℤ pos frame_seek_safe_margin_ms))
process_frame_times_complete d z c a b f g =
    let goal_end : ℕ = pos_part (min_ℤ c (d -ℤ z -ℤ pos frame_seek_safe_margin_ms)) in
    let short : length (frame_times_to goal_end) ≤ 181 =
      length-frame_times_to goal_end (goal_le d z c a b f g) in
    (
      frame_times_to goal_end,
      rw (process_frame_times_ok d z c a b f)
          (rw (take-all max_frames (frame_times_to goal_end) short)),
      frame_times_to-IsPlan goal_end,
      short,
      rw (last-frame_times_to goal_end) (goal_pos d z c a b f g),
    )
