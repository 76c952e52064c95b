-- ===== src/Submission/Districts.antt =====
-- The validators of contest_validation.go for the Bulgarian, Irish, German, EU, ARRL 160 m and EA-QRP
-- contests. `true` stands for no error.
use w4gns_logger4men.Base.{
  ℕ, Bool, false, not, ◌&&◌, ◌||◌, Option, none, some, List, [], ◌∷◌, leb, if◌then◌else◌, length,
}
use w4gns_logger4men.Base.Eq.{◌==◌, list_beq}
use w4gns_logger4men.Text.{Text, text_eq, codes, is_empty, fields, in_table, contains_text}
use w4gns_logger4men.Text.Numeral.{ℤ, pos, negsuc, atoi}
use w4gns_logger4men.Exchange.{Entity, Lookup, arrl_section_code}
use w4gns_logger4men.Wpx.{all_digits}
use w4gns_logger4men.Submission.{positive_serial, submission_name}
use w4gns_logger4men.Submission.National.{is_lone, is_serial_and}
use w4gns_logger4men.Submission.Areas.{at_entity, is_two_letters}

unfoldable pub is_between : ℕ → ℕ → Option ℤ → Bool
is_between min max none = false
is_between min max (some (pos n)) = leb min n && leb n max
is_between min max (some (negsuc n)) = false

unfoldable pub bulgarian : Text → Entity → Bool
unfolding is_between atoi submission_name list_beq
bulgarian token e =
    if e.country == codes "Bulgaria" then is_two_letters token else is_between 1 90 (atoi token)

-- `validateLZDXExchange`
unfoldable pub validate_lzdx_exchange : Lookup → Text → Text → Bool
unfolding at_entity bulgarian
validate_lzdx_exchange lookup call token = at_entity lookup call (bulgarian token)

unfoldable pub irish_county : List Text → Entity → Bool
unfolding is_lone is_serial_and positive_serial submission_name list_beq
irish_county words e =
    if e.country == codes "Ireland" || e.country == codes "Northern Ireland"
    then is_serial_and positive_serial submission_name words
    else is_lone positive_serial words

-- `validateIRTSCountyExchange`
unfoldable pub validate_irts_county_exchange : Lookup → Text → Text → Bool
unfolding at_entity irish_county fields
validate_irts_county_exchange lookup call token =
    at_entity lookup call (irish_county (fields token))

unfoldable pub german_district : Text → Entity → Bool
unfolding submission_name list_beq
german_district token e =
    if e.country == codes "Fed. Rep. of Germany"
    then leb 1 (length token) && leb (length token) 3 && submission_name token
    else is_empty token

-- `validateDTCExchange`
unfoldable pub validate_dtc_exchange : Lookup → Text → Text → Bool
unfolding at_entity german_district
validate_dtc_exchange lookup call token = at_entity lookup call (german_district token)

-- `arrl160WVEEntities`
unfoldable pub arrl_160_wve_entities : List Text
arrl_160_wve_entities =
    codes "United States"
    ∷ codes "Canada"
    ∷ codes "Alaska"
    ∷ codes "Hawaii"
    ∷ codes "Puerto Rico"
    ∷ codes "Virgin Islands"
    ∷ codes "Guam"
    ∷ codes "Northern Mariana Islands"
    ∷ codes "American Samoa"
    ∷ codes "Wake Island"
    ∷ codes "Midway Island"
    ∷ codes "Palmyra & Jarvis Islands"
    ∷ []

unfoldable pub section_or_blank : Text → Entity → Bool
unfolding in_table arrl_160_wve_entities arrl_section_code
section_or_blank token e =
    if in_table arrl_160_wve_entities e.country
    then not (is_empty (arrl_section_code token))
    else is_empty token

-- `validateARRL160Exchange`
unfoldable pub validate_arrl_160_exchange : Lookup → Text → Text → Bool
unfolding at_entity section_or_blank
validate_arrl_160_exchange lookup call token = at_entity lookup call (section_or_blank token)

abbrev eu_region_maximum : List (Text × ℕ)
eu_region_maximum =
    (codes "AT", 9)
    ∷ (codes "BE", 11)
    ∷ (codes "BG", 6)
    ∷ (codes "CZ", 14)
    ∷ (codes "CY", 5)
    ∷ (codes "HR", 5)
    ∷ (codes "DK", 5)
    ∷ (codes "EE", 5)
    ∷ (codes "FI", 19)
    ∷ (codes "FR", 20)
    ∷ (codes "DE", 16)
    ∷ (codes "GR", 13)
    ∷ (codes "HU", 7)
    ∷ (codes "IE", 4)
    ∷ (codes "IT", 21)
    ∷ (codes "LV", 6)
    ∷ (codes "LT", 5)
    ∷ (codes "LX", 1)
    ∷ (codes "MT", 5)
    ∷ (codes "NL", 13)
    ∷ (codes "PL", 16)
    ∷ (codes "PT", 7)
    ∷ (codes "RO", 8)
    ∷ (codes "SK", 8)
    ∷ (codes "SI", 6)
    ∷ (codes "ES", 19)
    ∷ (codes "SE", 21)
    ∷ []

unfoldable pub maximum_of : List (Text × ℕ) → Text → Option ℕ
unfolding list_beq
maximum_of [] country = none
maximum_of (row ∷ rows) country = if row.0 == country then some row.1 else maximum_of rows country

-- `validEURegionCode`
unfoldable pub valid_eu_region_code : Text → Bool
unfolding maximum_of submission_name all_digits is_between atoi
valid_eu_region_code (a ∷ b ∷ c ∷ d ∷ []) =
    submission_name (a ∷ b ∷ [])
    && all_digits (c ∷ d ∷ [])
    && elim (maximum_of eu_region_maximum (a ∷ b ∷ [])) [
      | none ↦ false
      | some maximum ↦ is_between 1 maximum (atoi (c ∷ d ∷ []))
    ]
valid_eu_region_code _ = false

-- A category of one letter.
unfoldable pub is_category : Text → Bool
unfolding contains_text
is_category (c ∷ []) = contains_text (codes "ABCD") (c ∷ [])
is_category _ = false

unfoldable pub category_words : List Text → Bool
unfolding is_category list_beq
category_words (category ∷ []) = is_category category
category_words (category ∷ member ∷ []) = is_category category && member == codes "M"
category_words _ = false

-- `validateEAQRPExchange`
unfoldable pub validate_eaqrp_exchange : Text → Bool
unfolding category_words fields
validate_eaqrp_exchange token = category_words (fields token)
