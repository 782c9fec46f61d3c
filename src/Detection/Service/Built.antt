-- ===== src/Detection/Service/Built.antt =====
-- The records that a detection builds pass the checks of a record.
use league_of_legnds_ai_coac.Prelude.{
  ℕ, ◌≡◌, refl, ◌≤◌, true, List, ◌∷◌, length, any, ◌==◌, arith, Bool-cases, inl, inr,
}
use league_of_legnds_ai_coac.Prelude.Tables.{count_mono, length-filter}
use league_of_legnds_ai_coac.Prelude.Sort.{IsAscending, filter-IsAscending}
use league_of_legnds_ai_coac.Routing.{Platform, same_platform, ordered_platforms, routes_for}
use league_of_legnds_ai_coac.Routing.Order.{
  same_platform_eq, same_platform_self, ordered_platforms_once, ordered_platforms-IsAscending,
}
use league_of_legnds_ai_coac.RiotId.{ParsedRiotId}
use league_of_legnds_ai_coac.Detection.Codec.{HasStatus, IsValid}
use league_of_legnds_ai_coac.Detection.Service.{
  AccountDto, DetectionSettings, not_found_record, found_record, found_status, in_order,
}

pub in_order-IsAscending :
    (ps : List Platform) → IsAscending (λ p. (routes_for p).sort_order) (in_order ps)
unfolding in_order
in_order-IsAscending ps =
    filter-IsAscending (λ p. (routes_for p).sort_order) (λ p. any (same_platform p) ps)
      ordered_platforms ordered_platforms-IsAscending

listed :
    (p : Platform) (ps : List Platform) (q : Platform)
    → same_platform p q ≡ true
    → any (same_platform q) (p ∷ ps) ≡ true
listed p ps q e = rw (← same_platform_eq p q e, same_platform_self p) refl

pub in_order_some : (p : Platform) (ps : List Platform) → 1 ≤ length (in_order (p ∷ ps))
unfolding in_order
in_order_some p ps = omega (
  arith,
  length-filter (λ q. any (same_platform q) (p ∷ ps)) ordered_platforms,
  ordered_platforms_once p,
  count_mono (same_platform p) (λ q. any (same_platform q) (p ∷ ps)) ordered_platforms
      (listed p ps),
)

pub not_found_record-IsValid :
    (parsed : ParsedRiotId) (k a b : ℕ) → IsValid (not_found_record parsed k a b)
unfolding HasStatus
not_found_record-IsValid parsed k a b = record {
  fits = (refl, refl, refl, refl, refl);
  ordered = tt;
}

found-HasStatus :
    (settings : DetectionSettings) (parsed : ParsedRiotId) (account : AccountDto)
    (ordered : List Platform) (k now : ℕ)
    → 1 ≤ length ordered
    → HasStatus (found_status ordered) (found_record settings parsed account ordered k now)
unfolding HasStatus
found-HasStatus settings parsed account ordered k now h = elim (Bool-cases (length ordered == 1)) [
  | inl e ↦ rw e (ground arith)
  | inr e ↦ rw e (ground arith)
]

pub found_record-IsValid :
    (settings : DetectionSettings) (parsed : ParsedRiotId) (account : AccountDto) (p : Platform)
    (ps : List Platform) (k now : ℕ)
    → IsValid (found_record settings parsed account (in_order (p ∷ ps)) k now)
found_record-IsValid settings parsed account p ps k now = record {
  fits = found-HasStatus settings parsed account (in_order (p ∷ ps)) k now (in_order_some p ps);
  ordered = in_order-IsAscending (p ∷ ps);
}
