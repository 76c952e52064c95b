-- ===== src/Cluster/Filters.antt =====
-- cluster_filters.go: the spots that the operator sees. `float64` and the country file are arguments.
pub mod Blank
use w4gns_logger4men.Base.{
  ℕ, ◌≡◌, refl, ap, ◌∙◌, Bool, true, false, not, ◌&&◌, ◌||◌, Option, none, some, List, [], ◌∷◌,
  ◌++◌, arith, ltb, nat_beq, if◌then◌else◌, length,
}
use w4gns_logger4men.Base.Eq.{◌==◌, list_beq}
use w4gns_logger4men.Text.{
  Text, text_eq, codes, within, is_empty, to_upper, upper_byte, trim_space, clean, equal_fold,
  fields, has_prefix, contains_text, in_table,
}
use w4gns_logger4men.Text.Numeral.{ℤ, pos, negsuc, atoi}
use w4gns_logger4men.Exchange.{Entity, Lookup}
use w4gns_logger4men.Wpx.{segments, all_digits}
use w4gns_logger4men.Validation.{Floats, Allocation, amateur_bands, is_likely_cw_frequency}
use w4gns_logger4men.Cluster.{ClusterSpot}

-- `clusterFilters`; `bands` holds the names whose value in the map is true.
pub record ClusterFilters : Type 0 where
  pub dxcc : Text
  pub dx_itu_zone : Text
  pub dx_cq_zone : Text
  pub dx_continent : Text
  pub de_cc : Text
  pub de_itu_zone : Text
  pub de_cq_zone : Text
  pub de_continent : Text
  pub de_call_area : Text
  pub bands : List Text

-- `cwBands`
unfoldable pub cw_bands : List Text
unfolding fields
cw_bands = fields (codes "160M 80M 60M 40M 30M 20M 17M 15M 12M 10M 6M")

-- `defaultClusterFilters`
unfoldable pub default_cluster_filters : ClusterFilters
unfolding cw_bands
default_cluster_filters = record {
  dxcc = [];
  dx_itu_zone = [];
  dx_cq_zone = [];
  dx_continent = [];
  de_cc = [];
  de_itu_zone = [];
  de_cq_zone = [];
  de_continent = [];
  de_call_area = [];
  bands = cw_bands;
}

-- The words of `nonCWModePattern`.
unfoldable pub other_modes : List Text
unfolding fields
other_modes = fields (
    codes
      "RTTY PSK31 PSK63 PSK FT8 FT4 JS8 JT65 JT9 JT4 MFSK OLIVIA SSTV SSB USB LSB DOMINO THOR CONTESTIA HELL")

unfoldable pub begins_with_any : List Text → Text → Bool
unfolding has_prefix
begins_with_any [] s = false
begins_with_any (w ∷ ws) s = has_prefix s w || begins_with_any ws s

abbrev is_word_char : ℕ → Bool
is_word_char c = within b'0' b'9' c || within b'A' b'Z' c || within b'a' b'z' c || nat_beq c b'_'

-- `\b(...)` from here on; `inside` is whether a word character stands before.
unfoldable pub names_mode : Bool → Text → Bool
unfolding begins_with_any other_modes to_upper
names_mode inside [] = false
names_mode inside (c ∷ s) =
    not inside && begins_with_any other_modes (to_upper (c ∷ s)) || names_mode (is_word_char c) s

-- `commentIndicatesNonCWMode`
unfoldable pub comment_indicates_non_cw_mode : Text → Bool
unfolding names_mode
comment_indicates_non_cw_mode comment = names_mode false comment

-- `strings.Split(s, ",")`, where `part` is the part that is being read.
unfoldable pub split_comma : Text → Text → List Text
split_comma part [] = part ∷ []
split_comma part (c ∷ s) =
    let next = split_comma [] s in
    let more = split_comma (part ++ c ∷ []) s in if nat_beq c b',' then part ∷ next else more

-- The last rune of the first part that is all digits.
unfoldable pub portable_digit : List Text → Option ℕ
unfolding all_digits
portable_digit [] = none
portable_digit ([] ∷ parts) = portable_digit parts
portable_digit ((c ∷ s) ∷ parts) =
    let rest = portable_digit parts in if all_digits (c ∷ s) then some (last_rune c s) else rest
  where
    last_rune : ℕ → Text → ℕ
    last_rune c [] = c
    last_rune c (d ∷ s) = last_rune d s

unfoldable pub longest_part : Text → List Text → Text
longest_part base [] = base
longest_part base (part ∷ parts) =
    longest_part (if ltb (length base) (length part) then part else base) parts

unfoldable pub leading_digit : Text → Option ℕ
leading_digit [] = none
leading_digit (c ∷ s) = let rest = leading_digit s in if within b'0' b'9' c then some c else rest

unfoldable pub base_digit : List Text → Option ℕ
unfolding longest_part leading_digit
base_digit [] = none
base_digit (part ∷ parts) = leading_digit (longest_part part parts)

-- `callAreaDigit`
unfoldable pub call_area_digit : Text → Option ℕ
unfolding clean segments portable_digit base_digit
call_area_digit call =
    let parts = segments (clean call) in
    if is_empty (clean call)
    then none
    else elim (portable_digit parts) [ none ↦ base_digit parts | some digit ↦ some digit ]

unfoldable pub lists_digit : ℕ → List Text → Bool
unfolding trim_space list_beq
lists_digit digit [] = false
lists_digit digit (want ∷ wants) = trim_space want == digit ∷ [] || lists_digit digit wants

-- `matchesCallArea`
unfoldable pub matches_call_area : Text → Text → Bool
unfolding call_area_digit lists_digit split_comma trim_space
matches_call_area call areas = is_empty (trim_space areas) || elim (call_area_digit call) [
  | none ↦ false
  | some digit ↦ lists_digit digit (split_comma [] (trim_space areas))
]

unfoldable pub matches_zone : Text → ℕ → Bool
unfolding atoi
matches_zone wanted zone = elim (atoi wanted) [
  | none ↦ false
  | some (pos n) ↦ nat_beq n zone
  | some (negsuc n) ↦ false
]

unfoldable pub matches_entity : Text → Text → Text → Text → Entity → Bool
unfolding matches_zone contains_text to_upper equal_fold
matches_entity country itu_zone cq_zone continent e =
    (is_empty country || contains_text (to_upper e.country) (to_upper country))
    && (is_empty itu_zone || matches_zone itu_zone e.itu_zone)
    && (is_empty cq_zone || matches_zone cq_zone e.cq_zone)
    && (is_empty continent || equal_fold continent e.continent)

-- `matchesEntityFilters`
unfoldable pub matches_entity_filters : Lookup → Text → Text → Text → Text → Text → Bool
unfolding matches_entity trim_space
matches_entity_filters lookup call country itu_zone cq_zone continent =
    is_empty (trim_space country)
      && is_empty (trim_space itu_zone)
      && is_empty (trim_space cq_zone)
      && is_empty (trim_space continent)
    || elim (lookup call) [
      | none ↦ false
      | some e ↦
          matches_entity (trim_space country) (trim_space itu_zone) (trim_space cq_zone)
            (trim_space continent) e
    ]

module _ (fl : Floats) where
  -- The band that a frequency in MHz lies in.
  unfoldable pub band_of : fl.Float → List Allocation → Option Text
  band_of mhz [] = none
  band_of mhz (b ∷ bs) =
      let rest = band_of mhz bs in
      if not (fl.is_below mhz (fl.constant b.low_mhz))
        && not (fl.is_below (fl.constant b.high_mhz) mhz)
      then some b.name
      else rest

  -- A frequency in kHz is 1000 or more.
  unfoldable pub in_mhz : fl.Float → fl.Float
  in_mhz value =
      if fl.is_below value (fl.constant (codes "1000")) then value else fl.thousandth value

  unfoldable pub band_of_number : Option fl.Float → Option (Text × fl.Float)
  unfolding in_mhz band_of amateur_bands
  band_of_number none = none
  band_of_number (some value) =
      if not (fl.is_below (fl.constant (codes "0")) value)
      then none
      else elim (band_of (in_mhz value) amateur_bands) [
        | none ↦ none
        | some band ↦ some (band, in_mhz value)
      ]

  -- `bandForFrequency`
  unfoldable pub band_for_frequency : Text → Option (Text × fl.Float)
  unfolding band_of_number trim_space
  band_for_frequency frequency = band_of_number (fl.parse_float (trim_space frequency))

  unfoldable pub is_shown_band : ClusterSpot → List Text → Option (Text × fl.Float) → Bool
  unfolding is_likely_cw_frequency comment_indicates_non_cw_mode in_table
  is_shown_band spot bands none = false
  is_shown_band spot bands (some (band, mhz)) =
      in_table bands band
      && is_likely_cw_frequency fl band mhz
      && not (comment_indicates_non_cw_mode spot.comment)

  -- `isBaselineCWEligible`
  unfoldable pub is_baseline_cw_eligible : ClusterSpot → List Text → Bool
  unfolding is_shown_band band_for_frequency
  is_baseline_cw_eligible spot bands = is_shown_band spot bands (band_for_frequency spot.frequency)

  -- `allowsSpot`
  unfoldable pub allows_spot : Lookup → ClusterFilters → ClusterSpot → Bool
  unfolding is_baseline_cw_eligible matches_entity_filters matches_call_area
  allows_spot lookup f spot =
      is_baseline_cw_eligible spot f.bands
      && matches_entity_filters lookup spot.callsign f.dxcc f.dx_itu_zone f.dx_cq_zone
          f.dx_continent
      && matches_entity_filters lookup spot.spotter f.de_cc f.de_itu_zone f.de_cq_zone
          f.de_continent
      && matches_call_area spot.spotter f.de_call_area
