-- ===== src/Media/Accepts.antt =====
-- Which videos `validate_probe` accepts.
use league_of_legnds_ai_coac.Prelude.{
  ℕ, suc, ◌*◌, ◌≤◌, ◌<◌, ◌≡◌, ◌⊎◌, refl, Bool, true, false, not, ◌||◌, List, [], ◌∷◌, ok, raise,
  arith, Bool-cases, Outcome-cases, inl, inr,
}
use league_of_legnds_ai_coac.Media.{
  Float, finite, negative, infinite, not_a_number, is_finite, below, above, VideoStreamProbe,
  MediaProbe, MediaLimits, ValidatedMedia, MediaError, is_empty_list, validated, validate_video,
  validate_streams, validate_probe,
}

-- The value lies between the bounds, which belong to the range.
pub Within : ℕ → ℕ → Float → Type 0
Within low high (finite n d) = (low * suc d ≤ n) × (n ≤ high * suc d)
Within low high (negative n d) = (n ≡ 0) × (low ≡ 0)
Within low high infinite = ⊥
Within low high not_a_number = ⊥

-- The value is greater than 0 and at most the bound.
pub PositiveUpTo : ℕ → Float → Type 0
PositiveUpTo high (finite n d) = (0 < n) × (n ≤ high * suc d)
PositiveUpTo high (negative n d) = ⊥
PositiveUpTo high infinite = ⊥
PositiveUpTo high not_a_number = ⊥

-- A video that is supported: a duration in range, one stream of a size in range and with a frame
-- rate up to the limit, and nothing but video and audio streams.
pub record IsSupported (probe : MediaProbe) (limits : MediaLimits) (video : VideoStreamProbe)
    : Type 0 where
  pub duration :
      Within limits.min_duration_seconds limits.max_duration_seconds probe.duration_seconds
  pub one_stream : probe.video_streams ≡ video ∷ []
  pub only_media : probe.other_stream_types ≡ []
  pub wide : limits.min_width ≤ video.width
  pub high : limits.min_height ≤ video.height
  pub not_too_wide : video.width ≤ limits.max_width
  pub not_too_high : video.height ≤ limits.max_height
  pub rate : PositiveUpTo limits.max_fps video.avg_frame_rate

duration_test : (low high : ℕ) (x : Float) → Bool
duration_test low high x = not (is_finite x) || (below x low || above x high)

Within-test : (low high : ℕ) (x : Float) → duration_test low high x ≡ false → Within low high x
unfolding Within duration_test
Within-test low high (finite n d) h = ground arith
Within-test low high (negative n d) h = ground arith
Within-test low high infinite h = cc
Within-test low high not_a_number h = cc

test-Within : (low high : ℕ) (x : Float) → Within low high x → duration_test low high x ≡ false
unfolding Within duration_test
test-Within low high (finite n d) h = ground arith
test-Within low high (negative n d) h = ground arith
test-Within low high infinite h = elim h [ ]
test-Within low high not_a_number h = elim h [ ]

rate_test : (high : ℕ) (x : Float) → Bool
rate_test high x = (not (is_finite x) || not (above x 0)) || above x high

Positive_test : (high : ℕ) (x : Float) → rate_test high x ≡ false → PositiveUpTo high x
unfolding PositiveUpTo rate_test
Positive_test high (finite n d) h = ground arith
Positive_test high (negative n d) h = cc
Positive_test high infinite h = cc
Positive_test high not_a_number h = cc

test_Positive : (high : ℕ) (x : Float) → PositiveUpTo high x → rate_test high x ≡ false
unfolding PositiveUpTo rate_test
test_Positive high (finite n d) h = ground arith
test_Positive high (negative n d) h = elim h [ ]
test_Positive high infinite h = elim h [ ]
test_Positive high not_a_number h = elim h [ ]

supported_ok :
    (probe : MediaProbe) (limits : MediaLimits) (video : VideoStreamProbe)
    → IsSupported probe limits video
    → validate_probe probe limits ≡ ok (validated probe video)
unfolding validate_probe duration_test rate_test
supported_ok probe limits video s =
    rw (validate_probe, s.one_stream, s.only_media)
      (ground (
        arith,
        test-Within limits.min_duration_seconds limits.max_duration_seconds probe.duration_seconds
            s.duration,
        test_Positive limits.max_fps video.avg_frame_rate s.rate,
      ))

one_stream :
    (probe : MediaProbe) (limits : MediaLimits) (videos : List VideoStreamProbe)
    {v : ValidatedMedia}
    → validate_streams probe limits videos ≡ ok v
    → (video : VideoStreamProbe) × (videos ≡ video ∷ [])
      × (validate_video probe limits video ≡ ok v)
one_stream probe limits [] h = cc
one_stream probe limits (video ∷ []) h = (video, refl, h)
one_stream probe limits (video ∷ w ∷ videos) h = cc

empty_of : {A : Type 0} (xs : List A) → is_empty_list xs ≡ true → xs ≡ []
empty_of [] h = refl
empty_of (x ∷ xs) h = cc

ok-IsSupported :
    (probe : MediaProbe) (limits : MediaLimits) {v : ValidatedMedia}
    → validate_probe probe limits ≡ ok v
    → (video : VideoStreamProbe) × IsSupported probe limits video
unfolding validate_probe duration_test rate_test
ok-IsSupported probe limits {v} h =
    elim (Bool-cases (
      duration_test limits.min_duration_seconds limits.max_duration_seconds
        probe.duration_seconds)) [
          | inl bad ↦ absurd (ground arith)
          | inr good ↦
              let (video, one, rest) =
                one_stream probe limits probe.video_streams {v = v} (ground arith) in
              let only : is_empty_list probe.other_stream_types ≡ true = ground arith in
              let rate : rate_test limits.max_fps video.avg_frame_rate ≡ false = ground arith in
              (
                video,
                record {
                  duration =
                      Within-test limits.min_duration_seconds limits.max_duration_seconds
                        probe.duration_seconds good;
                  one_stream = one;
                  only_media = empty_of probe.other_stream_types only;
                  wide = ground arith;
                  high = ground arith;
                  not_too_wide = ground arith;
                  not_too_high = ground arith;
                  rate = Positive_test limits.max_fps video.avg_frame_rate rate;
                },
              )
        ]

-- A probe is accepted exactly if the video is supported: its duration is a finite number in range,
-- there is one video stream, of a size in range and with a positive frame rate up to the limit, and
-- no stream but video and audio. What is returned describes that stream; any other probe raises an
-- error.
pub validate_probe_decides :
    (probe : MediaProbe) (limits : MediaLimits)
    → ((video : VideoStreamProbe) × IsSupported probe limits video
        × (validate_probe probe limits ≡ ok (validated probe video)))
      ⊎ (((video : VideoStreamProbe) → ¬ IsSupported probe limits video)
          × (e : MediaError) × (validate_probe probe limits ≡ raise e))
validate_probe_decides probe limits = elim (Outcome-cases (validate_probe probe limits)) [
  | inl (v, accepted) ↦
      let (video, s) = ok-IsSupported probe limits {v = v} accepted in
      inl (video, s, supported_ok probe limits video s)
  | inr (e, refused) ↦
      inr (λ video s. let accepted = supported_ok probe limits video s in cc, e, refused)
]
