-- ===== src/Submission/National.antt =====
-- The validators of contest_validation.go for contests in which the stations of one country send a
-- code of it and all other stations a serial or a zone. `true` stands for no error.
use w4gns_logger4men.Base.{
  ◌≡◌, refl, Bool, true, false, not, ◌&&◌, ◌||◌, some, List, [], ◌∷◌, ◌++◌, arith, nat_beq,
  if◌then◌else◌, length,
}
use w4gns_logger4men.Base.Eq.{◌==◌, list_beq}
use w4gns_logger4men.Text.{Text, text_eq, codes, is_empty, fields, in_table}
use w4gns_logger4men.Text.Sort.{text_lt}
use w4gns_logger4men.Exchange.{Entity, Lookup}
use w4gns_logger4men.Wpx.{all_digits}
use w4gns_logger4men.Submission.{positive_serial, submission_name}
use w4gns_logger4men.Submission.Areas.{
  at_entity, submission_zone, submission_area, non_negative_serial, is_two_letters,
  looks_like_county_token,
}

abbrev pub home_nations : List Text
home_nations = codes "England" ∷ codes "Scotland" ∷ codes "Wales" ∷ codes "Northern Ireland" ∷ []

-- One field.
unfoldable pub is_lone : (Text → Bool) → List Text → Bool
is_lone serial (a ∷ []) = serial a
is_lone serial _ = false

-- Two fields, a serial and a code.
unfoldable pub is_serial_and : (Text → Bool) → (Text → Bool) → List Text → Bool
is_serial_and serial code (a ∷ b ∷ []) = serial a && code b
is_serial_and serial code _ = false

abbrev some_text : Text → Bool
some_text s = not (is_empty s)

-- The checks of `validateUKDistrictExchange`: a home nation's exchange that passes the first one
-- goes on to the second one too.
unfoldable pub uk_district : List Text → Entity → Bool
unfolding is_lone is_serial_and in_table positive_serial
uk_district words e =
    (not (in_table home_nations e.country) || is_serial_and positive_serial some_text words)
    && is_lone positive_serial words

-- `validateUKDistrictExchange`
unfoldable pub validate_uk_district_exchange : Lookup → Text → Text → Bool
unfolding at_entity uk_district fields
validate_uk_district_exchange lookup call token = at_entity lookup call (uk_district (fields token))

unfoldable pub austrian_district : List Text → Entity → Bool
unfolding is_lone is_serial_and list_beq positive_serial submission_name
austrian_district words e =
    if e.country == codes "Austria"
    then is_serial_and positive_serial submission_name words
    else is_lone positive_serial words

-- `validateAustrianDistrictExchange`
unfoldable pub validate_austrian_district_exchange : Lookup → Text → Text → Bool
unfolding at_entity austrian_district fields
validate_austrian_district_exchange lookup call token =
    at_entity lookup call (austrian_district (fields token))

unfoldable pub uk_ei_district : List Text → Entity → Bool
unfolding is_lone is_serial_and in_table non_negative_serial submission_name
uk_ei_district words e =
    if in_table
      (home_nations
        ++ codes "Ireland" ∷ codes "Isle of Man" ∷ codes "Jersey" ∷ codes "Guernsey" ∷ [])
      e.country
    then is_serial_and non_negative_serial is_two_letters words
    else is_lone non_negative_serial words

-- `validateUKEIDistrictExchange`
unfoldable pub validate_ukei_district_exchange : Lookup → Text → Text → Bool
unfolding at_entity uk_ei_district fields
validate_ukei_district_exchange lookup call token =
    at_entity lookup call (uk_ei_district (fields token))

-- A code of the country for its stations, and a check for all others.
unfoldable pub split_by_country : Text → (Text → Bool) → (Text → Bool) → Text → Entity → Bool
unfolding list_beq
split_by_country country home other token e =
    if e.country == country then home token else other token

-- `hungarianCountyCodes`
unfoldable pub hungarian_county_codes : List Text
unfolding fields
hungarian_county_codes =
    fields (codes "BA BE BN BO BP CS FE GY HB HE SZ KO NG PE SO SA TO VA VE ZA")

-- `validateHungarianCountyExchange`
unfoldable pub validate_hungarian_county_exchange : Lookup → Text → Text → Bool
unfolding at_entity split_by_country hungarian_county_codes in_table positive_serial
validate_hungarian_county_exchange lookup call token =
    at_entity lookup call
      (split_by_country (codes "Hungary") (in_table hungarian_county_codes) positive_serial token)

-- `dutchProvinceCodes`
unfoldable pub dutch_province_codes : List Text
unfolding fields
dutch_province_codes = fields (codes "DR FL FR GD GR LB NB NH OV UT ZH ZL")

-- `validateDutchProvinceExchange`
unfoldable pub validate_dutch_province_exchange : Lookup → Text → Text → Bool
unfolding at_entity split_by_country dutch_province_codes in_table positive_serial
validate_dutch_province_exchange lookup call token =
    at_entity lookup call
      (split_by_country (codes "Netherlands") (in_table dutch_province_codes) positive_serial token)

-- `validateItalianProvinceOrSerialExchange`
unfoldable pub validate_italian_province_or_serial_exchange : Lookup → Text → Text → Bool
unfolding at_entity split_by_country positive_serial submission_name
validate_italian_province_or_serial_exchange lookup call token =
    at_entity lookup call (split_by_country (codes "Italy") is_two_letters positive_serial token)

-- `validateCVAExchange`
unfoldable pub validate_cva_exchange : Lookup → Text → Text → Bool
unfolding at_entity split_by_country in_table fields submission_name list_beq
validate_cva_exchange lookup call token =
    token == codes "MIL"
    || at_entity lookup call (
        split_by_country (codes "Brazil") is_two_letters
          (in_table (fields (codes "AF AN AS EU NA OC SA"))) token)

-- `arsiStateCodes`
unfoldable pub arsi_state_codes : List Text
unfolding fields
arsi_state_codes = fields (
    codes
      "AP AR AS BR CH CG DD DL DN GA GJ HR HP JK JH KA KL LA LD MP MH MN ML MZ NL OD PY PB RJ SK TN TG TR UP UK WB AN")

-- `validateARSIExchange`
unfoldable pub validate_arsi_exchange : Lookup → Text → Text → Bool
unfolding at_entity split_by_country arsi_state_codes in_table positive_serial
validate_arsi_exchange lookup call token =
    at_entity lookup call
      (split_by_country (codes "India") (in_table arsi_state_codes) positive_serial token)

abbrev prefecture : Text → Bool
prefecture token =
    nat_beq (length token) 2
    && all_digits token
    && not (token == codes "00")
    && not (text_lt (codes "50") token)

-- `validateJIDXExchange`
unfoldable pub validate_jidx_exchange : Lookup → Text → Text → Bool
unfolding at_entity split_by_country submission_zone all_digits text_lt list_beq
validate_jidx_exchange lookup call token =
    at_entity lookup call
      (split_by_country (codes "Japan") prefecture (λ s. submission_zone s 40) token)

-- `validateJapanZoneExchange`
unfoldable pub validate_japan_zone_exchange : Lookup → Text → Text → Bool
unfolding at_entity split_by_country submission_zone submission_name
validate_japan_zone_exchange lookup call token =
    at_entity lookup call
      (split_by_country (codes "Japan") is_two_letters (λ s. submission_zone s 40) token)

unfoldable pub belgian_section : List Text → Entity → Bool
unfolding is_lone is_serial_and list_beq positive_serial
belgian_section words e =
    if e.country == codes "Belgium"
    then is_serial_and positive_serial some_text words
    else is_lone positive_serial words

-- `validateBelgianSectionExchange`
unfoldable pub validate_belgian_section_exchange : Lookup → Text → Text → Bool
unfolding at_entity belgian_section fields
validate_belgian_section_exchange lookup call token =
    at_entity lookup call (belgian_section (fields token))

-- `validateCountyOrAreaExchange`
unfoldable pub validate_county_or_area_exchange : Lookup → Text → Text → Bool
unfolding at_entity submission_area looks_like_county_token list_beq
validate_county_or_area_exchange lookup call token = at_entity lookup call (λ e.
    token == codes "DX" || submission_area token e.country true || looks_like_county_token token)

no_two_fields :
    (words : List Text)
    → (is_serial_and positive_serial some_text words && is_lone positive_serial words) ≡ false
unfolding is_serial_and is_lone
no_two_fields [] = refl
no_two_fields (a ∷ []) = refl
no_two_fields (a ∷ b ∷ []) = ground arith
no_two_fields (a ∷ b ∷ c ∷ words) = refl

uk_district-home :
    (words : List Text) (e : Entity)
    → in_table home_nations e.country ≡ true
    → uk_district words e ≡ false
unfolding uk_district
uk_district-home words e h = ground (arith, no_two_fields words)

-- For a station that the country file places in England, Scotland, Wales or Northern Ireland,
-- `validateUKDistrictExchange` accepts no exchange at all: it asks for two fields and then for one.
pub validate_uk_district_exchange-home :
    (lookup : Lookup) (call token : Text) (e : Entity)
    → lookup call ≡ some e
    → in_table home_nations e.country ≡ true
    → validate_uk_district_exchange lookup call token ≡ false
unfolding validate_uk_district_exchange at_entity
validate_uk_district_exchange-home lookup call token e found home =
    rw (found, validate_uk_district_exchange, at_entity) (uk_district-home (fields token) e home)
