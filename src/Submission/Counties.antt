-- ===== src/Submission/Counties.antt =====
-- The validators of contest_validation.go for QSO parties whose stations send a county, a state, a
-- province or a prefix. `true` stands for no error. `lists` says whether the country file lists a
-- prefix for an entity of a country.
use w4gns_logger4men.Base.{
  Bool, true, false, not, ◌&&◌, ◌||◌, List, [], ◌∷◌, nat_beq, if◌then◌else◌, length,
}
use w4gns_logger4men.Base.Eq.{◌==◌, list_beq}
use w4gns_logger4men.Text.{Text, text_eq, codes, is_empty, fields, in_table}
use w4gns_logger4men.Exchange.{Entity, Lookup, arrl_section_code}
use w4gns_logger4men.Wpx.{segments}
use w4gns_logger4men.Submission.{positive_serial, submission_name}
use w4gns_logger4men.Submission.Areas.{
  at_entity, is_american, submission_area, looks_like_county_token,
}

-- `azqpCountyCodes`
unfoldable pub azqp_county_codes : List Text
unfolding fields
azqp_county_codes = fields (codes "APH CHS CNO GLA GHM GLE LPZ MCP MHV NVO PMA PNL SCZ YVP YMA")

unfoldable pub azqp : (Text → Text → Bool) → Text → Entity → Bool
unfolding submission_area in_table azqp_county_codes
azqp lists token e =
    in_table azqp_county_codes token
    || submission_area token e.country true
    || not (is_empty token) && not (is_american e.country) && lists token e.country

-- `validateAZQPExchange`
unfoldable pub validate_azqp_exchange : (Text → Text → Bool) → Lookup → Text → Text → Bool
unfolding at_entity azqp
validate_azqp_exchange lists lookup call token = at_entity lookup call (azqp lists token)

unfoldable pub serial_county : List Text → Entity → Bool
unfolding submission_area looks_like_county_token list_beq positive_serial
serial_county (serial ∷ location ∷ []) e =
    positive_serial serial
    && (location == codes "DX"
        || submission_area location e.country true
        || looks_like_county_token location)
serial_county _ e = false

-- `validateSerialCountyOrAreaExchange`
unfoldable pub validate_serial_county_or_area_exchange : Lookup → Text → Text → Bool
unfolding at_entity serial_county fields
validate_serial_county_or_area_exchange lookup call token =
    at_entity lookup call (serial_county (fields token))

unfoldable pub area_or_dx : Text → Entity → Bool
unfolding submission_area list_beq
area_or_dx token e =
    if is_american e.country then submission_area token e.country true else token == codes "DX"

-- `validateAreaOrDXExchange`
unfoldable pub validate_area_or_dx_exchange : Lookup → Text → Text → Bool
unfolding at_entity area_or_dx
validate_area_or_dx_exchange lookup call token = at_entity lookup call (area_or_dx token)

unfoldable pub county_or_dx : Text → Entity → Bool
unfolding submission_area looks_like_county_token list_beq
county_or_dx token e =
    if is_american e.country
    then submission_area token e.country true || looks_like_county_token token
    else token == codes "DX"

-- `validateUSCountyOrDXExchange`
unfoldable pub validate_us_county_or_dx_exchange : Lookup → Text → Text → Bool
unfolding at_entity county_or_dx
validate_us_county_or_dx_exchange lookup call token = at_entity lookup call (county_or_dx token)

unfoldable pub county_or_country : (Text → Text → Bool) → Text → Entity → Bool
unfolding submission_area looks_like_county_token list_beq
county_or_country lists token e =
    if is_american e.country
    then submission_area token e.country true || looks_like_county_token token
    else not (is_empty token) && lists token e.country

-- `validateUSCountyOrCountryExchange`
unfoldable pub validate_us_county_or_country_exchange :
    (Text → Text → Bool) → Lookup → Text → Text → Bool
unfolding at_entity county_or_country
validate_us_county_or_country_exchange lists lookup call token =
    at_entity lookup call (county_or_country lists token)

unfoldable pub sent_dx : Text → Entity → Bool
unfolding list_beq
sent_dx token e = token == codes "DX" && not (is_american e.country)

-- `validateUSCountyOrCountryOrDXExchange`
unfoldable pub validate_us_county_or_country_or_dx_exchange :
    (Text → Text → Bool) → Lookup → Text → Text → Bool
unfolding validate_us_county_or_country_exchange at_entity sent_dx
validate_us_county_or_country_or_dx_exchange lists lookup call token =
    validate_us_county_or_country_exchange lists lookup call token
    || at_entity lookup call (sent_dx token)

-- `mdcCountyCityCodes`
unfoldable pub mdc_county_city_codes : List Text
unfolding fields
mdc_county_city_codes = fields (
    codes
      "ALY ANA BAL BCT CLV CLN CRL CEC CHS DRC FRD GAR HFD HWD KEN MON PGE QAN STM SMR TAL WAS WIC WRC WDC")

unfoldable pub mdc : (Text → Text → Bool) → Text → Entity → Bool
unfolding submission_area in_table mdc_county_city_codes
mdc lists token e =
    if is_american e.country
    then in_table mdc_county_city_codes token || submission_area token e.country true
    else not (is_empty token) && lists token e.country

-- `validateMDCExchange`
unfoldable pub validate_mdc_exchange : (Text → Text → Bool) → Lookup → Text → Text → Bool
unfolding at_entity mdc
validate_mdc_exchange lists lookup call token = at_entity lookup call (mdc lists token)

-- `kentuckyParkCodes`
unfoldable pub kentucky_park_codes : List Text
unfolding fields
kentucky_park_codes = fields (
    codes
      "BRL KL BBL KC BLB LB BI LCR BLR LM CC LJW CCR LH CB MM CF MKH DH NB DLR NL DTW OFH TS OMM FB PL GBI PF GB PB GL PMR GRL PMT GLR RRD ISC TL JD WSH JW WH JJA WM KLR WWH KDV YL ALB BSF CN CG FD LAC MC MSB TT BL")

unfoldable pub kentucky_parks : Text → Entity → Bool
unfolding submission_area in_table kentucky_park_codes list_beq
kentucky_parks token e =
    if in_table kentucky_park_codes token || token == codes "KENTUCKY"
    then true
    else if e.country == codes "United States" || e.country == codes "Canada"
    then submission_area token e.country true
    else token == codes "DX"

-- `validateKentuckyParksExchange`
unfoldable pub validate_kentucky_parks_exchange : Lookup → Text → Text → Bool
unfolding at_entity kentucky_parks
validate_kentucky_parks_exchange lookup call token = at_entity lookup call (kentucky_parks token)

-- `validatePAQPExchange`
unfoldable pub validate_paqp_exchange : Text → Bool
unfolding fields positive_serial arrl_section_code submission_name list_beq
validate_paqp_exchange token = two (fields token)
  where
    two : List Text → Bool
    two (serial ∷ location ∷ []) =
        positive_serial serial
        && (location == codes "DX"
            || not (is_empty (arrl_section_code location))
            || nat_beq (length location) 3 && submission_name location)
    two _ = false

unfoldable pub minnesota : List Text → Entity → Bool
unfolding submission_area looks_like_county_token list_beq submission_name
minnesota (name ∷ []) e = submission_name name && not (is_american e.country)
minnesota (name ∷ location ∷ []) e =
    is_american e.country
    && submission_name name
    && (submission_area location e.country true || looks_like_county_token location)
minnesota _ e = false

-- `validateMinnesotaExchange`
unfoldable pub validate_minnesota_exchange : Lookup → Text → Text → Bool
unfolding at_entity minnesota fields
validate_minnesota_exchange lookup call token = at_entity lookup call (minnesota (fields token))

unfoldable pub two_counties : (Text → Bool) → List Text → Bool
two_counties county (a ∷ b ∷ []) = county a && county b
two_counties county _ = false

unfoldable pub county_pair : Text → Entity → Bool
unfolding two_counties looks_like_county_token segments
county_pair token e = is_american e.country && two_counties looks_like_county_token (segments token)

-- `validateKentuckyExchange`
unfoldable pub validate_kentucky_exchange : Lookup → Text → Text → Bool
unfolding validate_us_county_or_dx_exchange at_entity county_pair
validate_kentucky_exchange lookup call token =
    validate_us_county_or_dx_exchange lookup call token || at_entity lookup call (county_pair token)

unfoldable pub seven : Text → Entity → Bool
unfolding submission_area submission_name list_beq
seven token e =
    token == codes "DX"
    || submission_area token e.country true
    || nat_beq (length token) 5 && submission_name token

-- `validate7QPExchange`
unfoldable pub validate_7qp_exchange : Lookup → Text → Text → Bool
unfolding at_entity seven
validate_7qp_exchange lookup call token = at_entity lookup call (seven token)

abbrev is_three_letters : Text → Bool
is_three_letters s = nat_beq (length s) 3 && submission_name s

unfoldable pub new_york_counties : Text → Bool
unfolding submission_name two_counties segments
new_york_counties token =
    is_three_letters token
    || nat_beq (length token) 6 && submission_name token
    || two_counties is_three_letters (segments token)

unfoldable pub new_york : Text → Entity → Bool
unfolding submission_area new_york_counties list_beq
new_york token e =
    if not (is_american e.country)
    then token == codes "DX"
    else submission_area token e.country true || new_york_counties token

-- `validateNewYorkExchange`
unfoldable pub validate_new_york_exchange : Lookup → Text → Text → Bool
unfolding at_entity new_york
validate_new_york_exchange lookup call token = at_entity lookup call (new_york token)
