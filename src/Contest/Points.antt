-- ===== src/Contest/Points.antt =====
-- `pointsTotal` of contest_state.go and the totals that it chooses among.
use w4gns_logger4men.Base.{
  ℕ, ◌+◌, ◌/◌, Bool, true, false, not, ◌&&◌, ◌||◌, none, some, List, [], ◌∷◌, ◌++◌, nat_beq,
  if◌then◌else◌, length,
}
use w4gns_logger4men.Base.Eq.{◌==◌, nat_eq, list_beq}
use w4gns_logger4men.Base.Maps.{get, get_or}
use w4gns_logger4men.Text.{Text, text_eq, codes, clean}
use w4gns_logger4men.Exchange.{country_in_list}
use w4gns_logger4men.Contest.Types.{
  Category, IotaCategory, PointsRule, ZonePointsRule, IotaPointsRule, ContestState,
}

-- The text behind the last `|`, if there is one: `before` tells whether one was read.
after_bar : Bool → Text → Text → Text
after_bar found acc [] = if found then acc else []
after_bar found acc (c ∷ s) =
    let next = after_bar true [] s in
    let more = after_bar found (acc ++ c ∷ []) s in if nat_beq c b'|' then next else more

-- `bandFromCallBandKey`
unfoldable pub band_from_call_band_key : Text → Text
unfolding after_bar
band_from_call_band_key key = after_bar false [] key

unfoldable pub wpx_low_band : Text → Bool
unfolding clean list_beq
wpx_low_band band = let b = clean band in b == codes "160M" || b == codes "80M" || b == codes "40M"

-- `if lowBand && low != 0 { value = low }`
unfoldable pub tiered : Bool → ℕ → ℕ → ℕ
tiered low_band low value = if low_band && not (nat_beq low 0) then low else value

same_continent_points : PointsRule → ContestState → Text → Bool → ℕ
unfolding tiered get_or
same_continent_points rule c key low_band =
    let value = tiered low_band rule.low_band_same_continent rule.same_continent in
    let overrides =
      if low_band && not (nat_beq (length rule.low_band_same_continent_overrides) 0)
      then rule.low_band_same_continent_overrides
      else rule.same_continent_overrides in
    get_or (get_or key [] c.point_category_continent) value overrides

category_points : PointsRule → ContestState → Text → Bool → Category → ℕ
unfolding same_continent_points tiered
category_points rule c key low_band Category.same_country = rule.same_country
category_points rule c key low_band Category.same_continent =
    same_continent_points rule c key low_band
category_points rule c key low_band Category.other_continent =
    tiered low_band rule.low_band_other_continent rule.other_continent
category_points rule c key low_band Category.unknown = 0
category_points rule c key low_band Category.special = 0

-- What one key is worth under the country and continent tiers.
unfoldable pub tier_points : PointsRule → ContestState → Text → ℕ
unfolding category_points wpx_low_band band_from_call_band_key country_in_list get_or tiered
tier_points rule c key =
    let low_band = wpx_low_band (band_from_call_band_key key) in
    if not (nat_beq (length rule.country_group) 0)
      && country_in_list rule.country_group (get_or key [] c.point_category_country)
    then tiered low_band rule.low_band_group_points rule.group_points
    else category_points rule c key low_band (get_or key Category.unknown c.point_category)

unfoldable pub zone_points : ZonePointsRule → ContestState → Text → ℕ
unfolding get_or
zone_points rule c key = elim (get_or key Category.unknown c.point_category_zone) [
  | Category.same_country ↦ rule.same_zone
  | Category.same_continent ↦ rule.same_continent_different_zone
  | Category.other_continent ↦ rule.other_continent
  | Category.special ↦ rule.special
  | Category.unknown ↦ 0
]

unfoldable pub distance_points : ℕ → ContestState → Text → ℕ
unfolding get
distance_points per_km c key = elim (get key c.distance_km_by_key) [
  | none ↦ 0
  | some km ↦ 1 + km / per_km
]

unfoldable pub per_band_points : List (Text × ℕ) → Text → ℕ
unfolding get_or band_from_call_band_key
per_band_points per_band key = get_or (band_from_call_band_key key) 0 per_band

unfoldable pub iota_points : IotaPointsRule → ContestState → Text → ℕ
unfolding get_or
iota_points rule c key = elim (get_or key IotaCategory.unknown c.point_category_iota) [
  | IotaCategory.island_works_world ↦ rule.island_works_world
  | IotaCategory.island_works_same_reference ↦ rule.island_works_same_reference
  | IotaCategory.island_works_other_island ↦ rule.island_works_other_island
  | IotaCategory.world_works_world ↦ rule.world_works_world
  | IotaCategory.world_works_island ↦ rule.world_works_island
  | IotaCategory.unknown ↦ 0
]

-- `for key := range c.scoredCallBand { total += ... }`
unfoldable pub sum_points : (Text → ℕ) → List Text → ℕ
sum_points worth [] = 0
sum_points worth (key ∷ keys) = worth key + sum_points worth keys

-- What one key is worth under the rule that `pointsTotal` chooses.
unfoldable pub worth : PointsRule → ContestState → Text → ℕ
unfolding tier_points zone_points distance_points per_band_points iota_points
worth rule c key = elim rule.distance [
  | some per_km ↦ distance_points per_km c key
  | none ↦ elim rule.zone [
    | some zone ↦ zone_points zone c key
    | none ↦
        if not (nat_beq (length rule.per_band) 0)
        then per_band_points rule.per_band key
        else elim rule.iota [ some iota ↦ iota_points iota c key | none ↦ tier_points rule c key ]
  ]
]

unfoldable pub points_total : PointsRule → ContestState → ℕ
unfolding sum_points worth
points_total rule c = sum_points (worth rule c) c.scored_call_band
