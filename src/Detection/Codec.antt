-- ===== src/Detection/Codec.antt =====
-- A record that passes the checks comes back from its row as it was.
use league_of_legnds_ai_coac.Prelude.{
  ℕ, String, ◌≡◌, refl, ◌≤◌, false, none, List, [], ◌∷◌, map, length, ok, arith,
}
use league_of_legnds_ai_coac.Prelude.Sort.{IsAscending, sort_by-ascending}
use league_of_legnds_ai_coac.Routing.{Platform, platform_value, routes_for}
use league_of_legnds_ai_coac.Routing.Order.{platform_of-platform_value}
use league_of_legnds_ai_coac.Detection.{
  DetectionStatus, resolved, ambiguous, not_found, PlatformDetectionRecord, is_none, post_init,
  platform_detection_record, ordered_candidates, status_of, status_value, platforms_of, to_record,
  values_of,
}

-- What a record of each status consists of.
unfoldable pub HasStatus : DetectionStatus → PlatformDetectionRecord → Type 0
HasStatus resolved r =
    (is_none r.puuid ≡ false)
    × (length r.candidate_platforms ≡ 1)
    × (r.confirmation_expires_at ≡ none)
HasStatus ambiguous r =
    (is_none r.puuid ≡ false)
    × (2 ≤ length r.candidate_platforms)
    × (is_none r.confirmation_expires_at ≡ false)
HasStatus not_found r =
    (r.puuid ≡ none)
    × (length r.candidate_platforms ≡ 0)
    × (r.confirmation_expires_at ≡ none)
    × (r.canonical_game_name ≡ none)
    × (r.canonical_tag_line ≡ none)

pub record IsValid (r : PlatformDetectionRecord) : Type 0 where
  pub fits : HasStatus r.status r
  pub ordered : IsAscending (λ platform. (routes_for platform).sort_order) r.candidate_platforms

pub post_init_ok :
    (s : DetectionStatus) (r : PlatformDetectionRecord) → HasStatus s r → post_init s r ≡ ok tt
unfolding post_init HasStatus
post_init_ok resolved r h = ground arith
post_init_ok ambiguous r h = ground arith
post_init_ok not_found r h = ground arith

pub post_init-HasStatus :
    (s : DetectionStatus) (r : PlatformDetectionRecord) → post_init s r ≡ ok tt → HasStatus s r
unfolding post_init HasStatus
post_init-HasStatus resolved r h = ground arith
post_init-HasStatus ambiguous r h = ground arith
post_init-HasStatus not_found r h = ground arith

platforms_of-map : (ps : List Platform) → platforms_of (map platform_value ps) ≡ ok ps
platforms_of-map [] = refl
platforms_of-map (p ∷ ps) = rw (platform_of-platform_value p, platforms_of-map ps) refl

status_of-status_value : (s : DetectionStatus) → status_of (status_value s) ≡ ok s
status_of-status_value resolved = refl
status_of-status_value ambiguous = refl
status_of-status_value not_found = refl

pub construct_ok : (r : PlatformDetectionRecord) → IsValid r → platform_detection_record r ≡ ok r
unfolding platform_detection_record
construct_ok r v = rw (post_init_ok r.status r v.fits) refl

pub ordered_candidates_same :
    (r : PlatformDetectionRecord)
    → IsValid r
    → ordered_candidates r.candidate_platforms ≡ r.candidate_platforms
unfolding ordered_candidates
ordered_candidates_same r v =
    sort_by-ascending (λ platform. (routes_for platform).sort_order) r.candidate_platforms v.ordered

-- The row of a valid record, whatever its columns `created_at` and `updated_at`, is read as that
-- record.
pub to_record-values_of :
    (r : PlatformDetectionRecord) (created updated : ℕ)
    → IsValid r
    → to_record (record (values_of r) { created_at = created; updated_at = updated }) ≡ ok r
unfolding to_record values_of
to_record-values_of r created updated v =
    rw
      (
        platforms_of-map r.candidate_platforms,
        status_of-status_value r.status,
        ordered_candidates_same r v,
      )
      (construct_ok r v)

-- The checks do not read the key of a row nor the keys of the name.
HasStatus-moved :
    (s : DetectionStatus) (r : PlatformDetectionRecord) (k : ℕ) (game tag : String)
    → HasStatus s r
    → HasStatus s (record r { id = k; game_name_key = game; tag_line_key = tag })
unfolding HasStatus
HasStatus-moved resolved r k game tag h = h
HasStatus-moved ambiguous r k game tag h = h
HasStatus-moved not_found r k game tag h = h

pub IsValid-moved :
    (r : PlatformDetectionRecord) (k : ℕ) (game tag : String)
    → IsValid r
    → IsValid (record r { id = k; game_name_key = game; tag_line_key = tag })
IsValid-moved r k game tag v = record {
  fits = HasStatus-moved r.status r k game tag v.fits;
  ordered = v.ordered;
}
