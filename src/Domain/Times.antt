-- ===== src/Domain/Times.antt =====
-- Coverage and time conversion on every branch.
use league_of_legnds_ai_coac.Prelude.{◌≡◌, ℤ, pos, ◌≤ℤ◌, ◌-ℤ◌, ◌+ℤ◌, ok, arith}
use league_of_legnds_ai_coac.Domain.{
  ReplayCoverage, game_to_video_time, video_to_game_time, calculate_coverage,
}

-- Whatever coverage is computed lies within the match and within the video.
pub calculate_coverage_bounds :
    (video zero_ms duration : ℤ) {c : ReplayCoverage}
    → calculate_coverage video zero_ms duration ≡ ok c
    → (c.start_ms ≡ pos 0)
      × (pos 0 ≤ℤ c.end_ms)
      × (c.end_ms ≤ℤ duration)
      × (zero_ms +ℤ c.end_ms ≤ℤ video)
unfolding calculate_coverage ◌-ℤ◌ ◌+ℤ◌
calculate_coverage_bounds video zero_ms duration h = ground arith

-- Video time computed from game time gives the game time back.
pub video_to_game_time-game_to_video_time :
    (game zero_ms : ℤ) {video : ℤ}
    → game_to_video_time game zero_ms ≡ ok video
    → video_to_game_time video zero_ms ≡ ok game
unfolding game_to_video_time video_to_game_time ◌-ℤ◌ ◌+ℤ◌
video_to_game_time-game_to_video_time game zero_ms h = ground arith
