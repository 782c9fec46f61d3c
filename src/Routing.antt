-- ===== src/Routing.antt =====
-- Regions, platforms and their routes: backend/app/core/routing.py.
pub mod Order
use league_of_legnds_ai_coac.Prelude.{
  ℕ, String, Bool, true, false, Option, none, some, List, [], ◌∷◌, map, filter, find, str_eq,
  if◌then◌else◌,
}
use league_of_legnds_ai_coac.Prelude.Sort.{sort_by}

pub data Region : Type 0 where
  americas asia europe sea : Region

pub data Platform : Type 0 where
  br1 eun1 euw1 jp1 kr la1 la2 na1 oc1 tr1 ru ph2 sg2 th2 tw2 vn2 : Platform

-- The value of a member of an enumeration of texts, by which members are compared.
abbrev pub region_value : Region → String
region_value Region.americas = "AMERICAS"
region_value Region.asia = "ASIA"
region_value Region.europe = "EUROPE"
region_value Region.sea = "SEA"

abbrev pub platform_value : Platform → String
platform_value Platform.br1 = "BR1"
platform_value Platform.eun1 = "EUN1"
platform_value Platform.euw1 = "EUW1"
platform_value Platform.jp1 = "JP1"
platform_value Platform.kr = "KR"
platform_value Platform.la1 = "LA1"
platform_value Platform.la2 = "LA2"
platform_value Platform.na1 = "NA1"
platform_value Platform.oc1 = "OC1"
platform_value Platform.tr1 = "TR1"
platform_value Platform.ru = "RU"
platform_value Platform.ph2 = "PH2"
platform_value Platform.sg2 = "SG2"
platform_value Platform.th2 = "TH2"
platform_value Platform.tw2 = "TW2"
platform_value Platform.vn2 = "VN2"

abbrev pub same_region : Region → Region → Bool
same_region a b = str_eq (region_value a) (region_value b)

abbrev pub same_platform : Platform → Platform → Bool
same_platform a b = str_eq (platform_value a) (platform_value b)

-- `REGIONAL_HOSTS`
abbrev pub regional_host_for : Region → String
regional_host_for Region.americas = "americas.api.riotgames.com"
regional_host_for Region.asia = "asia.api.riotgames.com"
regional_host_for Region.europe = "europe.api.riotgames.com"
regional_host_for Region.sea = "sea.api.riotgames.com"

pub record RiotRoutes : Type 0 where
  pub region : Region
  pub platform_host : String
  pub display_name_zh : String
  pub display_name_en : String
  pub sort_order : ℕ
  pub include_in_detection_probe : Bool

abbrev pub regional_host : RiotRoutes → String
regional_host routes = regional_host_for routes.region

-- `ROUTES`, as the function that looks a platform up.
abbrev pub routes_for : Platform → RiotRoutes
routes_for Platform.br1 = record {
  region = Region.americas;
  platform_host = "br1.api.riotgames.com";
  display_name_zh = "巴西服";
  display_name_en = "Brazil";
  sort_order = 10;
  include_in_detection_probe = true;
}
routes_for Platform.eun1 = record {
  region = Region.europe;
  platform_host = "eun1.api.riotgames.com";
  display_name_zh = "欧东北服";
  display_name_en = "Europe Nordic & East";
  sort_order = 20;
  include_in_detection_probe = true;
}
routes_for Platform.euw1 = record {
  region = Region.europe;
  platform_host = "euw1.api.riotgames.com";
  display_name_zh = "欧西服";
  display_name_en = "Europe West";
  sort_order = 30;
  include_in_detection_probe = true;
}
routes_for Platform.jp1 = record {
  region = Region.asia;
  platform_host = "jp1.api.riotgames.com";
  display_name_zh = "日服";
  display_name_en = "Japan";
  sort_order = 40;
  include_in_detection_probe = true;
}
routes_for Platform.kr = record {
  region = Region.asia;
  platform_host = "kr.api.riotgames.com";
  display_name_zh = "韩服";
  display_name_en = "Korea";
  sort_order = 50;
  include_in_detection_probe = true;
}
routes_for Platform.la1 = record {
  region = Region.americas;
  platform_host = "la1.api.riotgames.com";
  display_name_zh = "拉丁美洲北服";
  display_name_en = "Latin America North";
  sort_order = 60;
  include_in_detection_probe = true;
}
routes_for Platform.la2 = record {
  region = Region.americas;
  platform_host = "la2.api.riotgames.com";
  display_name_zh = "拉丁美洲南服";
  display_name_en = "Latin America South";
  sort_order = 70;
  include_in_detection_probe = true;
}
routes_for Platform.na1 = record {
  region = Region.americas;
  platform_host = "na1.api.riotgames.com";
  display_name_zh = "北美服";
  display_name_en = "North America";
  sort_order = 80;
  include_in_detection_probe = true;
}
routes_for Platform.oc1 = record {
  region = Region.sea;
  platform_host = "oc1.api.riotgames.com";
  display_name_zh = "大洋洲服";
  display_name_en = "Oceania";
  sort_order = 90;
  include_in_detection_probe = true;
}
routes_for Platform.tr1 = record {
  region = Region.europe;
  platform_host = "tr1.api.riotgames.com";
  display_name_zh = "土耳其服";
  display_name_en = "Türkiye";
  sort_order = 100;
  include_in_detection_probe = true;
}
routes_for Platform.ru = record {
  region = Region.europe;
  platform_host = "ru.api.riotgames.com";
  display_name_zh = "俄服";
  display_name_en = "Russia";
  sort_order = 110;
  include_in_detection_probe = true;
}
routes_for Platform.ph2 = record {
  region = Region.sea;
  platform_host = "sg2.api.riotgames.com";
  display_name_zh = "菲律宾服";
  display_name_en = "Philippines";
  sort_order = 120;
  include_in_detection_probe = false;
}
routes_for Platform.sg2 = record {
  region = Region.sea;
  platform_host = "sg2.api.riotgames.com";
  display_name_zh = "新加坡服";
  display_name_en = "Singapore";
  sort_order = 130;
  include_in_detection_probe = true;
}
routes_for Platform.th2 = record {
  region = Region.sea;
  platform_host = "sg2.api.riotgames.com";
  display_name_zh = "泰国服";
  display_name_en = "Thailand";
  sort_order = 140;
  include_in_detection_probe = false;
}
routes_for Platform.tw2 = record {
  region = Region.sea;
  platform_host = "tw2.api.riotgames.com";
  display_name_zh = "台服";
  display_name_en = "Taiwan";
  sort_order = 150;
  include_in_detection_probe = true;
}
routes_for Platform.vn2 = record {
  region = Region.sea;
  platform_host = "vn2.api.riotgames.com";
  display_name_zh = "越南服";
  display_name_en = "Vietnam";
  sort_order = 160;
  include_in_detection_probe = true;
}

-- The keys of `ROUTES`, which are the members of `Platform`, in the order of the source.
abbrev pub all_platforms : List Platform
all_platforms =
    Platform.br1 ∷ Platform.eun1 ∷ Platform.euw1 ∷ Platform.jp1 ∷ Platform.kr ∷ Platform.la1
    ∷ Platform.la2 ∷ Platform.na1 ∷ Platform.oc1 ∷ Platform.tr1 ∷ Platform.ru ∷ Platform.ph2
    ∷ Platform.sg2 ∷ Platform.th2 ∷ Platform.tw2 ∷ Platform.vn2 ∷ []

unfoldable pub ordered_platforms : List Platform
ordered_platforms = sort_by (λ platform. (routes_for platform).sort_order) all_platforms

abbrev pub is_probed : Platform → Bool
is_probed platform = (routes_for platform).include_in_detection_probe

unfoldable pub detection_probe_platforms : List Platform
unfolding ordered_platforms
detection_probe_platforms = filter is_probed ordered_platforms

-- `None` stands for the `ValueError` on a locale that is not supported.
abbrev pub display_name_for : Platform → String → Option String
display_name_for platform locale =
    if str_eq locale "zh-CN"
    then some (routes_for platform).display_name_zh
    else if str_eq locale "en-US"
    then some (routes_for platform).display_name_en
    else none

-- `Platform(value)`
unfoldable pub platform_of : String → Option Platform
platform_of value = find (λ platform. str_eq (platform_value platform) value) all_platforms
