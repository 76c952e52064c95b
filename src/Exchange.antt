-- ===== src/Exchange.antt =====
-- What the contests read out of a received exchange, a callsign or a country: exchange_area.go,
-- tn_county.go, canton.go, rdxc_oblast.go, dok_district.go, arrl_section.go, naqp_area.go,
-- sst_area.go, iaru_zone.go, sac_area.go and wae_country.go. The text "" stands for "no value".
-- The country file's lookup, whose answer depends on data the build embeds, is an argument.
pub mod Iota
pub mod Tables
use w4gns_logger4men.Base.{
  ℕ, zero, suc, ◌+◌, ◌≤◌, ◌≡◌, refl, Bool, true, false, not, ◌&&◌, ◌||◌, Option, none, some, List,
  [], ◌∷◌, ◌++◌, leb, ltb, nat_beq, if◌then◌else◌, length,
}
use w4gns_logger4men.Base.Eq.{◌==◌, list_beq}
use w4gns_logger4men.Text.{
  Text, text_eq, codes, within, is_empty, to_upper, trim_space, clean, equal_fold, fields, last_or,
  in_table,
}
use w4gns_logger4men.Text.Numeral.{positive}
use Tables.{
  exchange_area_codes, tn_county_codes, canton_codes, oblast_codes, arrl_section_codes,
  naqp_area_codes, wae_countries, sac_scandinavian_countries,
}

-- `dxccEntity`; the reference coordinates are not used by the scorer.
pub record Entity : Type 0 where
  pub country : Text
  pub cq_zone : ℕ
  pub itu_zone : ℕ
  pub continent : Text
  pub dxcc_number : ℕ

-- `sharedDXCCTable` and `lookup`; a table that does not load finds nothing.
abbrev pub Lookup : Type 0
Lookup = Text → Option Entity

-- A code if the table has it, and "" if not.
unfoldable pub listed : List Text → Text → Text
unfolding in_table
listed table code = if in_table table code then code else []

unfoldable pub exchange_area_alias : Text → Text
unfolding list_beq
exchange_area_alias code = if code == codes "NF" then codes "NL" else code

unfoldable pub exchange_area_code : Text → Text
unfolding listed exchange_area_alias clean exchange_area_codes
exchange_area_code text = listed exchange_area_codes (exchange_area_alias (clean text))

unfoldable pub tn_county_code : Text → Text
unfolding listed clean tn_county_codes
tn_county_code text = listed tn_county_codes (clean text)

unfoldable pub canton_code : Text → Text
unfolding listed clean canton_codes
canton_code text = listed canton_codes (clean text)

unfoldable pub rdxc_oblast_code : Text → Text
unfolding listed clean oblast_codes
rdxc_oblast_code text = listed oblast_codes (clean text)

first_letter : Text → Text
first_letter [] = []
first_letter (c ∷ s) = if within b'A' b'Z' c then c ∷ [] else []

unfoldable pub dok_district_code : Text → Text
unfolding first_letter clean list_beq
dok_district_code text = if clean text == codes "NM" then [] else first_letter (clean text)

unfoldable pub arrl_section_alias : Text → Text
unfolding list_beq
arrl_section_alias code =
    if code == codes "GTA" then codes "GH" else if code == codes "NT" then codes "TER" else code

-- `strings.ToUpper(fields[len(fields)-1])`; no field reads as "", which is in no table.
unfoldable pub last_field : Text → Text
unfolding fields last_or to_upper
last_field text = to_upper (last_or [] (fields text))

unfoldable pub arrl_section_code : Text → Text
unfolding listed arrl_section_alias last_field arrl_section_codes
arrl_section_code text = listed arrl_section_codes (arrl_section_alias (last_field text))

unfoldable pub naqp_area_alias : Text → Text
unfolding list_beq
naqp_area_alias code = if code == codes "NF" || code == codes "LB" then codes "NL" else code

-- The country of a hit, unless the state table speaks for it.
unfoldable pub other_country : Option Entity → Text
unfolding list_beq
other_country none = []
other_country (some e) =
    if e.country == codes "United States" || e.country == codes "Canada" then [] else e.country

unfoldable pub north_american : Option Entity → Option Entity
unfolding list_beq
north_american none = none
north_american (some e) = if e.continent == codes "NA" then some e else none

unfoldable pub naqp_area_code : Lookup → Text → Text
unfolding naqp_area_alias last_field naqp_area_codes in_table fields other_country north_american
naqp_area_code dxcc text =
    let code = naqp_area_alias (last_field text) in
    if in_table naqp_area_codes code
    then code
    else elim (fields text) [ [] ↦ [] | f ∷ fs ↦ other_country (north_american (dxcc code)) ]

unfoldable pub sst_area_code : Lookup → Text → Text
unfolding naqp_area_alias last_field naqp_area_codes in_table fields other_country
sst_area_code dxcc text =
    let code = naqp_area_alias (last_field text) in
    if in_table naqp_area_codes code
    then code
    else elim (fields text) [ [] ↦ [] | f ∷ fs ↦ other_country (dxcc code) ]

unfoldable pub zone_or_zero : Option ℕ → ℕ
zone_or_zero none = 0
zone_or_zero (some value) = if ltb 90 value then 0 else value

-- 0 if the text is no zone.
unfoldable pub iaru_exchange_zone : Text → ℕ
unfolding zone_or_zero positive clean
iaru_exchange_zone text = zone_or_zero (positive (clean text))

unfoldable pub all_letters : Text → Bool
all_letters [] = true
all_letters (c ∷ s) = within b'A' b'Z' c && all_letters s

unfoldable pub iaru_exchange_special : Text → Text
unfolding iaru_exchange_zone clean all_letters list_beq
iaru_exchange_special text =
    let t = clean text in
    if is_empty t || ltb 0 (iaru_exchange_zone t)
    then []
    else if ltb 12 (length t)
    then []
    else if t == codes "AC" || t == codes "R1" || t == codes "R2" || t == codes "R3"
    then t
    else if all_letters t
    then t
    else []

-- `countryInList`
unfoldable pub in_list_folded : List Text → Text → Bool
unfolding trim_space equal_fold
in_list_folded [] country = false
in_list_folded (x ∷ xs) country = equal_fold (trim_space x) country || in_list_folded xs country

unfoldable pub country_in_list : List Text → Text → Bool
unfolding in_list_folded trim_space
country_in_list list country =
    let c = trim_space country in if is_empty c then false else in_list_folded list c

first_digit : Text → Text
first_digit [] = codes "0"
first_digit (c ∷ s) = if within b'0' b'9' c then c ∷ [] else first_digit s

unfoldable pub sac_area_code : Entity → Text → Text
unfolding country_in_list first_digit clean sac_scandinavian_countries
sac_area_code entity call =
    if country_in_list sac_scandinavian_countries entity.country
    then entity.country ++ codes "-" ++ first_digit (clean call)
    else []

unfoldable pub folds_into : List Text → Text → Bool
unfolding equal_fold
folds_into [] country = false
folds_into (x ∷ xs) country = equal_fold x country || folds_into xs country

unfoldable pub is_wae_country : Text → Bool
unfolding folds_into trim_space wae_countries
is_wae_country country =
    let c = trim_space country in if is_empty c then false else folds_into wae_countries c

unfoldable pub wae_band_bonus : Text → ℕ
unfolding clean list_beq
wae_band_bonus band =
    let b = clean band in
    if b == codes "80M"
    then 4
    else if b == codes "40M"
    then 3
    else if b == codes "20M" || b == codes "15M" || b == codes "10M"
    then 2
    else 0
