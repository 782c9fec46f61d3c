-- ===== src/Routing/Order.antt =====
-- Platforms are told apart by their values, and each stands in the order once.
use league_of_legnds_ai_coac.Prelude.{◌≡◌, refl, sym, ◌∙◌, ap, some, true, str_eq_iff}
use league_of_legnds_ai_coac.Prelude.Tables.{count}
use league_of_legnds_ai_coac.Prelude.Sort.{IsAscending, sort_by-IsAscending, count-sort_by}
use league_of_legnds_ai_coac.Routing.{
  Platform, platform_value, platform_of, same_platform, ordered_platforms, all_platforms,
  routes_for,
}

pub platform_of-platform_value : (p : Platform) → platform_of (platform_value p) ≡ some p
unfolding platform_of
platform_of-platform_value Platform.br1 = refl
platform_of-platform_value Platform.eun1 = refl
platform_of-platform_value Platform.euw1 = refl
platform_of-platform_value Platform.jp1 = refl
platform_of-platform_value Platform.kr = refl
platform_of-platform_value Platform.la1 = refl
platform_of-platform_value Platform.la2 = refl
platform_of-platform_value Platform.na1 = refl
platform_of-platform_value Platform.oc1 = refl
platform_of-platform_value Platform.tr1 = refl
platform_of-platform_value Platform.ru = refl
platform_of-platform_value Platform.ph2 = refl
platform_of-platform_value Platform.sg2 = refl
platform_of-platform_value Platform.th2 = refl
platform_of-platform_value Platform.tw2 = refl
platform_of-platform_value Platform.vn2 = refl

platform_value_injective : (p q : Platform) → platform_value p ≡ platform_value q → p ≡ q
platform_value_injective p q e =
    let both : some p ≡ some q =
      sym (platform_of-platform_value p) ∙ ap platform_of e ∙ platform_of-platform_value q in
    cc

pub same_platform_eq : (p q : Platform) → same_platform p q ≡ true → p ≡ q
same_platform_eq p q h = platform_value_injective p q ((str_eq_iff _ _).0 h)

pub same_platform_self : (p : Platform) → same_platform p p ≡ true
same_platform_self p = (str_eq_iff _ _).1 refl

listed_once : (p : Platform) → count (same_platform p) all_platforms ≡ 1
listed_once Platform.br1 = refl
listed_once Platform.eun1 = refl
listed_once Platform.euw1 = refl
listed_once Platform.jp1 = refl
listed_once Platform.kr = refl
listed_once Platform.la1 = refl
listed_once Platform.la2 = refl
listed_once Platform.na1 = refl
listed_once Platform.oc1 = refl
listed_once Platform.tr1 = refl
listed_once Platform.ru = refl
listed_once Platform.ph2 = refl
listed_once Platform.sg2 = refl
listed_once Platform.th2 = refl
listed_once Platform.tw2 = refl
listed_once Platform.vn2 = refl

pub ordered_platforms_once : (p : Platform) → count (same_platform p) ordered_platforms ≡ 1
unfolding ordered_platforms
ordered_platforms_once p =
    count-sort_by (λ q. (routes_for q).sort_order) (same_platform p) all_platforms ∙ listed_once p

pub ordered_platforms-IsAscending : IsAscending (λ p. (routes_for p).sort_order) ordered_platforms
unfolding ordered_platforms
ordered_platforms-IsAscending = sort_by-IsAscending (λ p. (routes_for p).sort_order) all_platforms
