-- ===== src/Detection/Service/Detect.antt =====
-- What `detect` answers and how it may fail.
use league_of_legnds_ai_coac.Prelude.{map}
use league_of_legnds_ai_coac.Prelude.Sort.{IsAscending}
use league_of_legnds_ai_coac.Routing.{routes_for}
use league_of_legnds_ai_coac.Detection.Service.{
  DetectionResult, resolved_detection, confirmation_required,
}

-- The candidates that are shown stand in the order of the platforms.
pub IsAnswer : {View : Type 0} → DetectionResult View → Type 0
IsAnswer (resolved_detection view) = Unit
IsAnswer (confirmation_required k at views) =
    IsAscending (λ p. (routes_for p).sort_order) (map (λ v. v.platform) views)
