-- ===== src/Party/Exchange.antt =====
-- `partyExchange` and what it calls: what an exchange says of a station's place.
pub mod Places
use w4gns_logger4men.Base.{
  ℕ, Bool, true, false, not, ◌&&◌, ◌||◌, Option, none, some, List, [], ◌∷◌, ◌++◌, ltb, leb, nat_beq,
  if◌then◌else◌, length,
}
use w4gns_logger4men.Base.Eq.{◌==◌, list_beq}
use w4gns_logger4men.Base.Sets.{contains}
use w4gns_logger4men.Base.Maps.{get_or}
use w4gns_logger4men.Text.{
  Text, text_eq, codes, within, is_empty, to_upper, fields, has_prefix, contains_text, in_table,
}
use w4gns_logger4men.Text.Sort.{sort_texts}
use w4gns_logger4men.Cabrillo.{cabrillo_exchange}
use w4gns_logger4men.Submission.{positive_serial, submission_name}
use w4gns_logger4men.Wpx.{segments}
use w4gns_logger4men.Exchange.{Entity, Lookup}
use w4gns_logger4men.Contest.Types.{Event}
use w4gns_logger4men.Contest.Record.{county_code}
use w4gns_logger4men.Party.{
  Party, PartyRules, Countries, PartyExchange, PartyError, not_printable, bad_serial, bad_name,
  not_one_location, too_many_counties, unknown_county, no_prefix, bad_location, unknown_location,
}

abbrev pub no_exchange : PartyExchange
no_exchange = record { serial = []; name = []; area = []; location = []; counties = [] }

-- The value and the error of `partyExchange`; some callers read the value beside an error.
abbrev pub Parsed : Type 0
Parsed = PartyExchange × Option PartyError

-- `partyArea`
unfoldable pub party_area : PartyRules → Text → Text
unfolding get_or
party_area r area =
    let target = get_or area [] r.area_aliases in if is_empty target then area else target

unfoldable pub postal_areas : Text
postal_areas =
    codes
      " AL AK AZ AR CA CO CT DE DC FL GA HI ID IL IN IA KS KY LA ME MD MA MI MN MS MO MT NE NV NH NJ NM NY NC ND OH OK OR PA RI SC SD TN TX UT VT VA WA WV WI WY AB BC MB NB NL NS NT NU ON PE QC SK YT "

-- `partyPostalArea`
unfoldable pub party_postal_area : Text → Bool
unfolding contains_text postal_areas
party_postal_area s =
    nat_beq (length s) 2 && contains_text postal_areas (codes " " ++ s ++ codes " ")

abbrev pub party_abroad : Entity → Option Text
party_abroad e =
    if e.country == codes "United States"
      || e.country == codes "Canada"
      || e.country == codes "Alaska"
      || e.country == codes "Hawaii"
    then none
    else some e.country

-- `partyDXEntity`
unfoldable pub party_dx_entity : Countries → Text → Option Text
unfolding list_beq
party_dx_entity t call = elim (t.lookup call) [ none ↦ none | some e ↦ party_abroad e ]

unfoldable pub all_printable : Text → Bool
all_printable [] = true
all_printable (c ∷ s) = within b' ' b'~' c && all_printable s

-- `strings.ReplaceAll(s, "+", "/")`
unfoldable pub plus_to_slash : Text → Text
plus_to_slash [] = []
plus_to_slash (c ∷ s) = (if nat_beq c b'+' then b'/' else c) ∷ plus_to_slash s

-- `strings.TrimPrefix`
unfoldable pub trim_prefix : Text → Text → Text
trim_prefix s [] = s
trim_prefix [] (p ∷ ps) = []
trim_prefix (c ∷ s) (p ∷ ps) = if has_prefix (c ∷ s) (p ∷ ps) then trim_prefix s ps else c ∷ s

-- The loop over the parts of a county line; no county where one is unknown or comes again.
unfoldable pub county_line : Event → List Text → List Text → List Text
unfolding county_code contains
county_line e done [] = done
county_line e done (part ∷ parts) =
    let rest = county_line e (done ++ county_code e part ∷ []) parts in
    if not (is_empty (county_code e part)) && not (contains done (county_code e part))
    then rest
    else []

-- A letter or a digit.
unfoldable pub all_alphanumeric : Text → Bool
all_alphanumeric [] = true
all_alphanumeric (c ∷ s) = (within b'A' b'Z' c || within b'0' b'9' c) && all_alphanumeric s

abbrev located : PartyExchange → Text → Parsed
located x area = (record x { area = area }, none)

-- The country that a prefix names.
unfoldable pub read_prefix : Countries → Party → Text → PartyExchange → Parsed
unfolding party_dx_entity in_table
read_prefix t p token x =
    if in_table p.rules.home_multipliers (codes "dxcc") && t.is_prefix token
    then elim (party_dx_entity t token) [
      | none ↦ (x, some unknown_location)
      | some country ↦ located x (codes "DX:" ++ country)
    ]
    else (x, some unknown_location)

-- A location that is no county line.
unfoldable pub read_area : Countries → Party → PartyExchange → Parsed
unfolding trim_prefix all_alphanumeric party_postal_area party_area read_prefix get_or
read_area t p x =
    let token = trim_prefix x.location (codes "DX:") in
    if is_empty token
    then (x, some no_prefix)
    else if not (all_alphanumeric token)
    then (x, some bad_location)
    else if not (has_prefix x.location (codes "DX:"))
        && not (x.location == p.rules.state)
        && (party_postal_area x.location
            || x.location == codes "DX"
            || not (is_empty (get_or x.location [] p.rules.area_aliases)))
    then located x (party_area p.rules x.location)
    else read_prefix t p token x

-- A county line, or else an area.
unfoldable pub read_counties : Countries → Party → List Text → List Text → PartyExchange → Parsed
unfolding read_area sort_texts
read_counties t p parts [] x =
    if nat_beq (length parts) 1 then read_area t p x else (x, some unknown_county)
read_counties t p parts (c ∷ cs) x =
    if ltb p.rules.county_line_max (length (c ∷ cs))
    then (no_exchange, some too_many_counties)
    else (record x { counties = sort_texts (c ∷ cs) }, none)

unfoldable pub is_region : Text → Bool
unfolding list_beq
is_region s = s == codes "1" || s == codes "2" || s == codes "3"

unfoldable pub read_location : Countries → Party → PartyExchange → Parsed
unfolding read_counties county_line segments trim_prefix is_region in_table
read_location t p x =
    let region = trim_prefix x.location (codes "R") in
    if in_table p.rules.home_multipliers (codes "maritime") && is_region region
    then located x (codes "R" ++ region)
    else read_counties t p (segments x.location) (county_line p.event [] (segments x.location)) x

unfoldable pub read_one : Countries → Party → PartyExchange → List Text → Parsed
unfolding read_location plus_to_slash
read_one t p x (field ∷ []) = read_location t p (record x { location = plus_to_slash field })
read_one t p x _ = (x, some not_one_location)

unfoldable pub read_serial : Countries → Party → List Text → Parsed
unfolding read_one positive_serial
read_serial t p (serial ∷ field ∷ []) =
    if positive_serial serial
    then read_one t p (record no_exchange { serial = serial }) (field ∷ [])
    else (no_exchange, some bad_serial)
read_serial t p _ = (no_exchange, some bad_serial)

unfoldable pub read_name : Countries → Party → List Text → Parsed
unfolding read_one submission_name
read_name t p (name ∷ field ∷ []) =
    if submission_name name
    then read_one t p (record no_exchange { name = name }) (field ∷ [])
    else (no_exchange, some bad_name)
read_name t p _ = (no_exchange, some bad_name)

-- `partyExchange`
unfoldable pub party_exchange : Countries → Party → Text → Text → Parsed
unfolding read_serial read_name read_one all_printable fields to_upper cabrillo_exchange
party_exchange t p serial text =
    let parts = fields (to_upper (cabrillo_exchange serial text)) in
    if not (all_printable (serial ++ text))
    then (no_exchange, some not_printable)
    else if p.rules.exchange == codes "serial_location"
    then read_serial t p parts
    else if p.rules.exchange == codes "name_location"
    then read_name t p parts
    else read_one t p no_exchange parts
