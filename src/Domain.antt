-- ===== src/Domain.antt =====
-- The replay vocabulary and its clock arithmetic: backend/app/services/replays/domain.py.
-- Times are Python ints, so they may be negative until a guard has passed.
pub mod Times
use league_of_legnds_ai_coac.Prelude.{
  Bool, ◌||◌, ℤ, pos, ◌+ℤ◌, ◌-ℤ◌, ltb_ℤ, leb_ℤ, min_ℤ, Outcome, ok, raise, raise_if, ◌>>=◌, ◌>>◌,
}

pub data ReplayStatus : Type 0 where
  created uploaded queued probing transcoding extracting ready failed expired : ReplayStatus
  deleting deleted : ReplayStatus

pub data ReplayJobStatus : Type 0 where
  pending running retry_scheduled succeeded failed cancelled : ReplayJobStatus

pub data ReplayJobKind : Type 0 where
  process delete_source delete_all : ReplayJobKind

pub data ReplayArtifactKind : Type 0 where
  anchor_frame verification_frame : ReplayArtifactKind

-- The messages of the `ValueError`s that this file and the frame plan raise.
pub data ValueError : Type 0 where
  negative_coverage inverted_coverage negative_time anchor_outside_video : ValueError
  negative_coverage_end negative_extractable_end : ValueError

pub record ReplayCoverage : Type 0 where
  pub start_ms : ℤ
  pub end_ms : ℤ
  pub partial : Bool

-- The constructor of the data class, with `__post_init__`.
replay_coverage : ℤ → ℤ → Bool → Outcome ValueError ReplayCoverage
replay_coverage start_ms end_ms partial = do
  raise_if (ltb_ℤ start_ms (pos 0) || ltb_ℤ end_ms (pos 0)) negative_coverage
  raise_if (ltb_ℤ end_ms start_ms) inverted_coverage
  ok (record { start_ms = start_ms; end_ms = end_ms; partial = partial })

unfoldable pub game_to_video_time : ℤ → ℤ → Outcome ValueError ℤ
game_to_video_time game_time_ms game_time_zero_ms = do
  raise_if (ltb_ℤ game_time_ms (pos 0) || ltb_ℤ game_time_zero_ms (pos 0)) negative_time
  ok (game_time_zero_ms +ℤ game_time_ms)

unfoldable pub video_to_game_time : ℤ → ℤ → Outcome ValueError ℤ
video_to_game_time video_time_ms game_time_zero_ms = do
  raise_if (ltb_ℤ video_time_ms (pos 0) || ltb_ℤ game_time_zero_ms (pos 0)) negative_time
  ok (video_time_ms -ℤ game_time_zero_ms)

unfoldable pub calculate_coverage : ℤ → ℤ → ℤ → Outcome ValueError ReplayCoverage
unfolding replay_coverage
calculate_coverage video_duration_ms game_time_zero_ms match_duration_ms = do
  raise_if
      (ltb_ℤ video_duration_ms (pos 0)
        || ltb_ℤ game_time_zero_ms (pos 0)
        || ltb_ℤ match_duration_ms (pos 0))
      negative_time
  raise_if (leb_ℤ video_duration_ms game_time_zero_ms) anchor_outside_video
  let available_end_ms = video_duration_ms -ℤ game_time_zero_ms
  let end_ms = min_ℤ available_end_ms match_duration_ms
  replay_coverage (pos 0) end_ms (ltb_ℤ available_end_ms match_duration_ms)
