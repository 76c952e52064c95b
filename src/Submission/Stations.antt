-- ===== src/Submission/Stations.antt =====
-- The validators of contest_validation.go for the Czech and Slovak, US islands, Turkish, German 10 m
-- and French contests, and those for a location with a name, member number or power. `true` stands
-- for no error.
use w4gns_logger4men.Base.{
  Bool, true, false, ◌&&◌, ◌||◌, Option, none, some, List, [], ◌∷◌, leb, nat_beq, if◌then◌else◌,
  length,
}
use w4gns_logger4men.Base.Eq.{◌==◌, list_beq}
use w4gns_logger4men.Text.{Text, text_eq, codes, fields}
use w4gns_logger4men.Exchange.{Entity, Lookup}
use w4gns_logger4men.Wpx.{all_digits}
use w4gns_logger4men.Validation.{Floats}
use w4gns_logger4men.Submission.{positive_serial, submission_name}
use w4gns_logger4men.Submission.National.{is_serial_and}
use w4gns_logger4men.Submission.Areas.{
  at_entity, submission_zone, submission_area, looks_like_county_token, valid_wag_dok,
  valid_submission_power,
}

unfoldable pub czech_or_slovak : Text → Entity → Bool
unfolding submission_name positive_serial list_beq
czech_or_slovak token e =
    if e.country == codes "Czech Republic" || e.country == codes "Slovak Republic"
    then nat_beq (length token) 3 && submission_name token
    else positive_serial token

-- `validateOKOMDXExchange`
unfoldable pub validate_okomdx_exchange : Lookup → Text → Text → Bool
unfolding at_entity czech_or_slovak
validate_okomdx_exchange lookup call token = at_entity lookup call (czech_or_slovak token)

-- `usIslandReference`
unfoldable pub us_island_reference : Text → Bool
unfolding submission_name all_digits list_beq
us_island_reference (a ∷ b ∷ c ∷ d ∷ e ∷ []) =
    submission_name (a ∷ b ∷ []) && ((c ∷ d ∷ e ∷ []) == codes "NEW" || all_digits (c ∷ d ∷ e ∷ []))
us_island_reference (a ∷ b ∷ c ∷ d ∷ e ∷ f ∷ []) =
    submission_name (a ∷ b ∷ [])
    && all_digits (c ∷ d ∷ e ∷ [])
    && (nat_beq f b'S' || nat_beq f b'L')
us_island_reference _ = false

unfoldable pub us_island : Text → Entity → Bool
unfolding submission_area us_island_reference list_beq
us_island token e =
    if e.country == codes "United States"
      || e.country == codes "Alaska"
      || e.country == codes "Hawaii"
    then submission_area token e.country true || us_island_reference token
    else token == codes "DX"

-- `validateUSIslandExchange`
unfoldable pub validate_us_island_exchange : Lookup → Text → Text → Bool
unfolding at_entity us_island
validate_us_island_exchange lookup call token = at_entity lookup call (us_island token)

unfoldable pub turkish : Text → Entity → Bool
unfolding all_digits submission_zone positive_serial list_beq
turkish token e =
    if e.country == codes "European Turkey" || e.country == codes "Asiatic Turkey"
    then nat_beq (length token) 2 && all_digits token && submission_zone token 81
    else positive_serial token

-- `validateTurkiyeExchange`
unfoldable pub validate_turkiye_exchange : Lookup → Text → Text → Bool
unfolding at_entity turkish
validate_turkiye_exchange lookup call token = at_entity lookup call (turkish token)

unfoldable pub german_dok : Text → Entity → Bool
unfolding is_serial_and positive_serial valid_wag_dok fields list_beq
german_dok token e =
    if e.country == codes "Fed. Rep. of Germany"
    then is_serial_and positive_serial valid_wag_dok (fields token)
    else positive_serial token

-- `validateDARC10Exchange`
unfoldable pub validate_darc_10_exchange : Lookup → Text → Text → Bool
unfolding at_entity german_dok
validate_darc_10_exchange lookup call token = at_entity lookup call (german_dok token)

-- `frenchExchangeEntity`
unfoldable pub french_exchange_entity : Text → Bool
unfolding list_beq
french_exchange_entity country =
    country == codes "France"
    || country == codes "Corsica"
    || country == codes "Guadeloupe"
    || country == codes "Martinique"
    || country == codes "French Guiana"
    || country == codes "Reunion"
    || country == codes "Mayotte"
    || country == codes "Saint Pierre & Miquelon"

-- `frenchDepartmentCode`
unfoldable pub french_department_code : Text → Bool
unfolding submission_zone list_beq
french_department_code token =
    token == codes "2A"
    || token == codes "2B"
    || leb 1 (length token) && leb (length token) 3 && submission_zone token 999

unfoldable pub french_department : Text → Entity → Bool
unfolding french_exchange_entity french_department_code positive_serial
french_department token e =
    if french_exchange_entity e.country then french_department_code token else positive_serial token

-- `validateREF160Exchange`
unfoldable pub validate_ref_160_exchange : Lookup → Text → Text → Bool
unfolding at_entity french_department
validate_ref_160_exchange lookup call token = at_entity lookup call (french_department token)

-- `refOverseasPrefix`
unfoldable pub ref_overseas_prefix : Text → Option Text
unfolding list_beq
ref_overseas_prefix country =
    if country == codes "Guadeloupe"
    then some (codes "FG")
    else if country == codes "Martinique"
    then some (codes "FM")
    else if country == codes "French Guiana"
    then some (codes "FY")
    else if country == codes "Reunion"
    then some (codes "FR")
    else if country == codes "Mayotte"
    then some (codes "FH")
    else if country == codes "Saint Pierre & Miquelon"
    then some (codes "FP")
    else none

unfoldable pub department_or_prefix : Text → Entity → Bool
unfolding ref_overseas_prefix french_department_code positive_serial list_beq
department_or_prefix token e = elim (ref_overseas_prefix e.country) [
  | some prefix ↦ token == prefix
  | none ↦
      if e.country == codes "France" || e.country == codes "Corsica"
      then french_department_code token
      else positive_serial token
]

-- `validateREFCWExchange`
unfoldable pub validate_refcw_exchange : Lookup → Text → Text → Bool
unfolding at_entity department_or_prefix
validate_refcw_exchange lookup call token = at_entity lookup call (department_or_prefix token)

-- The trailing field.
unfoldable pub trailing : Floats → List Text → Bool
unfolding valid_submission_power list_beq
trailing fl [] = true
trailing fl (last ∷ []) =
    last == codes "NONE" || last == codes "NM" || valid_submission_power fl last
trailing fl _ = false

unfoldable pub behind_location : Floats → Bool → List Text → Bool
unfolding trailing submission_name
behind_location fl false words = trailing fl words
behind_location fl true [] = false
behind_location fl true (name ∷ words) = submission_name name && trailing fl words

unfoldable pub spc : Floats → Bool → List Text → Entity → Bool
unfolding submission_area looks_like_county_token behind_location list_beq
spc fl has_name [] e = false
spc fl has_name (location ∷ words) e =
    (location == codes "DX"
      || submission_area location e.country true
      || looks_like_county_token location)
    && behind_location fl has_name words

-- `validateSPCExchange`
unfoldable pub validate_spc_exchange : Floats → Lookup → Text → Text → Bool → Bool
unfolding at_entity spc fields
validate_spc_exchange fl lookup call token has_name =
    at_entity lookup call (spc fl has_name (fields token))

unfoldable pub number_or_power : Floats → List Text → Bool
unfolding positive_serial valid_submission_power list_beq
number_or_power fl (location ∷ last ∷ []) =
    last == codes "NM" || positive_serial last || valid_submission_power fl last
number_or_power fl _ = false

-- `validateHolidaySpiritsExchange`
unfoldable pub validate_holiday_spirits_exchange : Floats → Lookup → Text → Text → Bool
unfolding validate_spc_exchange number_or_power fields
validate_holiday_spirits_exchange fl lookup call token =
    validate_spc_exchange fl lookup call token false && number_or_power fl (fields token)
