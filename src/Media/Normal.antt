-- ===== src/Media/Normal.antt =====
-- The check of a normalized video decides what a normalized video is.
use league_of_legnds_ai_coac.Prelude.{
  suc, ◌+◌, ◌*◌, ◌≤◌, ◌≡◌, ◌⊎◌, refl, String, true, false, ◌&&◌, ◌||◌, Option, none, some, List, [],
  ◌∷◌, str_eq, str_eq_iff, ok, arith, Bool-cases, inl, inr,
}
use league_of_legnds_ai_coac.Media.{
  Float, finite, negative, infinite, not_a_number, above, VideoStreamProbe, MediaProbe,
}
use league_of_legnds_ai_coac.Media.Normalize.{
  is_in, is_far_from_30, differs, is_other_format, assert_first, assert_normalized_output,
}

-- The rate is not known, or within half a frame of 30 per second.
pub NearThirty : Float → Type 0
NearThirty (finite n d) = (n ≡ 0) ⊎ ((59 * suc d ≤ 2 * n) × (2 * n ≤ 61 * suc d))
NearThirty (negative n d) = Unit
NearThirty infinite = ⊥
NearThirty not_a_number = Unit

-- Finite durations are at most two seconds apart.
pub WithinTwoSeconds : Float → Float → Type 0
WithinTwoSeconds (finite n d) (finite m e) =
    (n * suc e ≤ m * suc d + 2 * (suc d * suc e)) × (m * suc d ≤ n * suc e + 2 * (suc d * suc e))
WithinTwoSeconds (negative n d) (negative m e) =
    (n * suc e ≤ m * suc d + 2 * (suc d * suc e)) × (m * suc d ≤ n * suc e + 2 * (suc d * suc e))
WithinTwoSeconds (finite n d) (negative m e) = n * suc e + m * suc d ≤ 2 * (suc d * suc e)
WithinTwoSeconds (negative n d) (finite m e) = n * suc e + m * suc d ≤ 2 * (suc d * suc e)
WithinTwoSeconds _ _ = Unit

-- What a normalized video of the source is.
pub record IsNormalized (source normalized : MediaProbe) : Type 0 where
  pub video : VideoStreamProbe
  pub others : List VideoStreamProbe
  pub streams : normalized.video_streams ≡ video ∷ others
  pub codec : (video.codec_name ≡ "h264") ⊎ (video.codec_name ≡ "avc1")
  pub format : (video.pix_fmt ≡ none) ⊎ (video.pix_fmt ≡ some "yuv420p")
  pub container : is_in "mp4" normalized.format_name ≡ true
  pub rate : NearThirty video.avg_frame_rate
  pub wide : video.width ≤ 1280
  pub high : video.height ≤ 720
  pub as_long : WithinTwoSeconds normalized.duration_seconds source.duration_seconds

near_thirty : (x : Float) → (above x 0 && is_far_from_30 x) ≡ false → NearThirty x
unfolding NearThirty
near_thirty (finite n d) h = elim (Bool-cases (above (finite n d) 0)) [
  | inl e ↦ inr (ground arith, ground arith)
  | inr e ↦ inl (ground arith)
]
near_thirty (negative n d) h = tt
near_thirty infinite h = cc
near_thirty not_a_number h = tt

within_two : (x y : Float) → differs x y ≡ false → WithinTwoSeconds x y
unfolding WithinTwoSeconds
within_two (finite n d) (finite m e) h = (ground arith, ground arith)
within_two (finite n d) (negative m e) h = ground arith
within_two (negative n d) (finite m e) h = ground arith
within_two (negative n d) (negative m e) h = (ground arith, ground arith)
within_two (finite n d) infinite h = tt
within_two (finite n d) not_a_number h = tt
within_two (negative n d) infinite h = tt
within_two (negative n d) not_a_number h = tt
within_two infinite y h = tt
within_two not_a_number y h = tt

known_format : (x : Option String) → is_other_format x ≡ false → (x ≡ none) ⊎ (x ≡ some "yuv420p")
known_format none h = inl refl
known_format (some f) h =
    let same : f ≡ "yuv420p" = ground (arith, str_eq_iff f "yuv420p") in inr (rw same refl)

known_codec :
    (x : String) → (str_eq x "h264" || str_eq x "avc1") ≡ true → (x ≡ "h264") ⊎ (x ≡ "avc1")
known_codec x h = elim (Bool-cases (str_eq x "h264")) [
  | inl e ↦ inl (ground (arith, str_eq_iff x "h264"))
  | inr e ↦ inr (ground (arith, str_eq_iff x "avc1"))
]

pub assert_first_inv :
    (normalized source : MediaProbe) (videos : List VideoStreamProbe)
    → normalized.video_streams ≡ videos
    → assert_first normalized source videos ≡ ok tt
    → IsNormalized source normalized
assert_first_inv normalized source [] e h = cc
assert_first_inv normalized source (video ∷ videos) e h = record {
  video = video;
  others = videos;
  streams = e;
  codec = known_codec video.codec_name (ground arith);
  format = known_format video.pix_fmt (ground arith);
  container = ground arith;
  rate = near_thirty video.avg_frame_rate (ground arith);
  wide = ground arith;
  high = ground arith;
  as_long = within_two normalized.duration_seconds source.duration_seconds (ground arith);
}

NearThirty-test : (x : Float) → NearThirty x → (above x 0 && is_far_from_30 x) ≡ false
unfolding NearThirty
NearThirty-test (finite n d) (inl e) = ground arith
NearThirty-test (finite n d) (inr (low, high)) = ground arith
NearThirty-test (negative n d) h = refl
NearThirty-test infinite h = absurd h
NearThirty-test not_a_number h = refl

format_test : (x : Option String) → (x ≡ none) ⊎ (x ≡ some "yuv420p") → is_other_format x ≡ false
format_test x (inl e) = rw e refl
format_test x (inr e) = rw e refl

codec_test :
    (x : String) → (x ≡ "h264") ⊎ (x ≡ "avc1") → (str_eq x "h264" || str_eq x "avc1") ≡ true
codec_test x (inl e) = rw e refl
codec_test x (inr e) = rw e refl

WithinTwoSeconds-test : (x y : Float) → WithinTwoSeconds x y → differs x y ≡ false
unfolding WithinTwoSeconds
WithinTwoSeconds-test (finite n d) (finite m e) (h, k) = ground arith
WithinTwoSeconds-test (finite n d) (negative m e) h = ground arith
WithinTwoSeconds-test (negative n d) (finite m e) h = ground arith
WithinTwoSeconds-test (negative n d) (negative m e) (h, k) = ground arith
WithinTwoSeconds-test (finite n d) infinite h = refl
WithinTwoSeconds-test (finite n d) not_a_number h = refl
WithinTwoSeconds-test (negative n d) infinite h = refl
WithinTwoSeconds-test (negative n d) not_a_number h = refl
WithinTwoSeconds-test infinite y h = refl
WithinTwoSeconds-test not_a_number y h = refl

pub IsNormalized-assert :
    (source p : MediaProbe) → IsNormalized source p → assert_normalized_output p source ≡ ok tt
unfolding assert_normalized_output
IsNormalized-assert source p s = rw s.streams (
    ground (
      arith,
      codec_test s.video.codec_name s.codec,
      format_test s.video.pix_fmt s.format,
      s.container,
      NearThirty-test s.video.avg_frame_rate s.rate,
      s.wide,
      s.high,
      WithinTwoSeconds-test p.duration_seconds source.duration_seconds s.as_long,
    ))
