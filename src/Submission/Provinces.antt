-- ===== src/Submission/Provinces.antt =====
-- The validators of contest_validation.go that read a Canadian province off the call. `true` stands
-- for no error.
use w4gns_logger4men.Base.{
  Bool, true, false, ◌&&◌, ◌||◌, Option, none, some, List, [], ◌∷◌, nat_beq, if◌then◌else◌, length,
}
use w4gns_logger4men.Base.Eq.{◌==◌, list_beq}
use w4gns_logger4men.Text.{Text, text_eq, codes, to_upper, trim_space, fields, in_table, has_prefix}
use w4gns_logger4men.Exchange.{Entity, Lookup}
use w4gns_logger4men.Submission.{positive_serial, submission_name}
use w4gns_logger4men.Submission.Counties.{area_or_dx}
use w4gns_logger4men.Submission.Areas.{at_entity, is_american, submission_area}

-- The prefixes of `racProvinceForCall`; all have three characters, so that the order of the map does
-- not matter.
abbrev rac_prefixes : List (Text × Text)
rac_prefixes =
    (codes "VE1", codes "NS")
    ∷ (codes "VA1", codes "NS")
    ∷ (codes "CY9", codes "NS")
    ∷ (codes "CY0", codes "NS")
    ∷ (codes "VE2", codes "QC")
    ∷ (codes "VA2", codes "QC")
    ∷ (codes "VE3", codes "ON")
    ∷ (codes "VA3", codes "ON")
    ∷ (codes "VE4", codes "MB")
    ∷ (codes "VA4", codes "MB")
    ∷ (codes "VE5", codes "SK")
    ∷ (codes "VA5", codes "SK")
    ∷ (codes "VE6", codes "AB")
    ∷ (codes "VA6", codes "AB")
    ∷ (codes "VE7", codes "BC")
    ∷ (codes "VA7", codes "BC")
    ∷ (codes "VE8", codes "NT")
    ∷ (codes "VE9", codes "NB")
    ∷ (codes "VO1", codes "NL")
    ∷ (codes "VO2", codes "NL")
    ∷ (codes "VY0", codes "NU")
    ∷ (codes "VY1", codes "YT")
    ∷ (codes "VY2", codes "PE")
    ∷ []

unfoldable pub province_in : List (Text × Text) → Text → Option Text
unfolding has_prefix
province_in [] call = none
province_in (row ∷ rows) call = if has_prefix call row.0 then some row.1 else province_in rows call

-- `racProvinceForCall`
unfoldable pub rac_province_for_call : Text → Option Text
unfolding province_in to_upper trim_space
rac_province_for_call call = province_in rac_prefixes (to_upper (trim_space call))

-- `validateRACCanadaExchange`
unfoldable pub validate_rac_canada_exchange : Text → Text → Bool
unfolding rac_province_for_call positive_serial list_beq
validate_rac_canada_exchange call token = elim (rac_province_for_call call) [
  | none ↦ positive_serial token
  | some province ↦ token == province
]

-- A check for the calls of some provinces, and a state, a province or DX for all others.
unfoldable pub for_provinces : List Text → (Text → Bool) → Lookup → Text → Text → Bool
unfolding in_table at_entity area_or_dx rac_province_for_call
for_provinces provinces home lookup call token = elim (rac_province_for_call call) [
  | none ↦ at_entity lookup call (area_or_dx token)
  | some province ↦
      if in_table provinces province
      then home province
      else at_entity lookup call (area_or_dx token)
]

unfoldable pub division : Text → Text → Bool
unfolding has_prefix submission_name
division (a ∷ b ∷ c ∷ d ∷ e ∷ []) province =
    has_prefix (a ∷ b ∷ c ∷ d ∷ e ∷ []) province && submission_name (c ∷ d ∷ e ∷ [])
division _ province = false

-- `validateAtlanticCanadaExchange`
unfoldable pub validate_atlantic_canada_exchange : Lookup → Text → Text → Bool
unfolding for_provinces division fields
validate_atlantic_canada_exchange lookup call token =
    for_provinces (fields (codes "NS NB NL PE")) (division token) lookup call token

-- `validateCPQPExchange`
unfoldable pub validate_cpqp_exchange : Lookup → Text → Text → Bool
unfolding for_provinces submission_name fields
validate_cpqp_exchange lookup call token =
    for_provinces (fields (codes "MB SK AB"))
      (λ province. nat_beq (length token) 3 && submission_name token) lookup call token

-- `quebecRegionCodes`
unfoldable pub quebec_region_codes : List Text
unfolding fields
quebec_region_codes =
    fields (codes "BSA SLS QUE MAU ETE MTL OTS ATE CND NDQ GIM CAS LVL LDE LNS MEE CDQ")

-- `quebecNonQuebecCanadaAreas`
unfoldable pub quebec_non_quebec_canada_areas : List Text
unfolding fields
quebec_non_quebec_canada_areas = fields (codes "NF LB PE NB NS ON MB SK AB BC NT YT NU NWT")

-- `strings.HasSuffix(call, "/VE2")`
unfoldable pub ends_in_ve2 : Text → Bool
unfolding list_beq
ends_in_ve2 [] = false
ends_in_ve2 (c ∷ s) = (c ∷ s) == codes "/VE2" || ends_in_ve2 s

unfoldable pub any_prefix : List Text → Text → Bool
unfolding has_prefix
any_prefix [] call = false
any_prefix (prefix ∷ prefixes) call = has_prefix call prefix || any_prefix prefixes call

-- `quebecCall`
unfoldable pub quebec_call : Text → Bool
unfolding to_upper ends_in_ve2 any_prefix fields
quebec_call call =
    ends_in_ve2 (to_upper call) || any_prefix (fields (codes "VA2 VB2 VE2 VX2")) (to_upper call)

unfoldable pub outside_quebec : Text → Entity → Bool
unfolding in_table quebec_non_quebec_canada_areas submission_area list_beq
outside_quebec token e =
    if e.country == codes "Canada"
    then in_table quebec_non_quebec_canada_areas token
    else if is_american e.country
    then submission_area token e.country true || token == codes "DC"
    else token == codes "DX"

-- `validateQuebecExchange`
unfoldable pub validate_quebec_exchange : Lookup → Text → Text → Bool
unfolding quebec_call in_table quebec_region_codes at_entity outside_quebec
validate_quebec_exchange lookup call token =
    if quebec_call call
    then in_table quebec_region_codes token
    else at_entity lookup call (outside_quebec token)
