-- ===== src/Detection/Service/Exact.antt =====
-- Which players and platforms a detection finds.
use league_of_legnds_ai_coac.Prelude.{
  ◌≡◌, refl, ◌∙◌, String, Bool, true, false, ◌&&◌, List, [], ◌∷◌, any, filter, Outcome, ok, raise,
  arith, Bool-cases, inl, inr,
}
use league_of_legnds_ai_coac.Prelude.Tables.{any-count}
use league_of_legnds_ai_coac.Errors.{ApiError, has_code}
use league_of_legnds_ai_coac.Routing.{
  Region, Platform, same_platform, is_probed, ordered_platforms, detection_probe_platforms,
}
use league_of_legnds_ai_coac.Routing.Order.{
  same_platform_eq, same_platform_self, ordered_platforms_once,
}
use league_of_legnds_ai_coac.RiotId.{ParsedRiotId}
use league_of_legnds_ai_coac.Detection.Service.{Answers, probe_platform, is_found, in_order}

-- The gateway says that the region has no such player.
abbrev pub says_not_found : {A : Type 0} → Outcome ApiError A → Bool
says_not_found (ok a) = false
says_not_found (raise e) = has_code "PLAYER_NOT_FOUND" e

module _ {View : Type 0} (answers : Answers View) (parsed : ParsedRiotId) where
  abbrev pub is_missing_in : Region → Bool
  is_missing_in region =
      says_not_found
        (answers.get_account_by_riot_id_in_region region parsed.game_name parsed.tag_line)

module _ {View : Type 0} (answers : Answers View) (puuid : String) where
  abbrev pub is_on : Platform → Bool
  is_on p = is_probed p && is_found (probe_platform answers puuid p)

  -- The platforms on which the player is, in the order of the platforms.
  unfoldable pub platforms_of_player : List Platform
  platforms_of_player = filter is_on ordered_platforms

  any-filter :
      (p : Platform) (q : Platform → Bool) (xs : List Platform)
      → any (same_platform p) (filter q xs) ≡ (q p && any (same_platform p) xs)
  any-filter p q [] = ground arith
  any-filter p q (x ∷ xs) = elim (Bool-cases (same_platform p x)) [
    | inl e ↦
        let same : p ≡ x = same_platform_eq p x e in
        rw same (ground (arith, same_platform_self x, any-filter x q xs))
    | inr e ↦ ground (arith, e, any-filter p q xs)
  ]

  pub listed : (p : Platform) → any (same_platform p) ordered_platforms ≡ true
  listed p = elim (Bool-cases (any (same_platform p) ordered_platforms)) [
    | inl e ↦ e
    | inr e ↦
        absurd
          (omega (arith, any-count (same_platform p) ordered_platforms e, ordered_platforms_once p))
  ]

  filter_cong :
      (q r : Platform → Bool) (xs : List Platform)
      → ((p : Platform) → q p ≡ r p)
      → filter q xs ≡ filter r xs
  filter_cong q r [] h = refl
  filter_cong q r (x ∷ xs) h = ground (arith, h x, filter_cong q r xs h)

  pub in_order_found :
      in_order (filter (λ p. is_found (probe_platform answers puuid p)) detection_probe_platforms)
      ≡ platforms_of_player
  unfolding in_order detection_probe_platforms platforms_of_player
  in_order_found =
      filter_cong
        (λ p. any (same_platform p) (
          filter (λ q. is_found (probe_platform answers puuid q))
            (filter is_probed ordered_platforms)))
        is_on ordered_platforms
        (λ p.
          any-filter p (λ q. is_found (probe_platform answers puuid q))
            (filter is_probed ordered_platforms)
          ∙ rw (any-filter p is_probed ordered_platforms, listed p) (ground arith))
