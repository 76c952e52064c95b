-- ===== src/Party/Credits.antt =====
-- `partyCredits`, `partyCreditKey` and `partyMultiplierKeys`: what one QSO is credited for.
use w4gns_logger4men.Base.{
  Bool, true, false, not, ◌&&◌, ◌||◌, none, some, List, [], ◌∷◌, ◌++◌, ltb, if◌then◌else◌,
}
use w4gns_logger4men.Base.Eq.{◌==◌, list_beq}
use w4gns_logger4men.Base.Results.{Result, ok, err}
use w4gns_logger4men.Text.{
  Text, text_eq, codes, is_empty, to_upper, clean, equal_fold, has_prefix, in_table,
}
use w4gns_logger4men.Contest.Types.{Time, Qso}
use w4gns_logger4men.Party.{Period, Party, PartyRules, Countries, PartyExchange, PartyError}
use w4gns_logger4men.Party.Exchange.{
  Parsed, party_area, party_postal_area, party_dx_entity, party_exchange,
}

-- `partyInPeriod`
unfoldable pub in_period : List Period → Time → Bool
in_period [] at = false
in_period (p ∷ ps) at = not (ltb at p.start) && ltb at p.end || in_period ps at

abbrev pub sent_of : Countries → Party → Qso → Parsed
sent_of t p q = party_exchange t p q.stx q.stx_string

abbrev pub received_of : Countries → Party → Qso → Parsed
received_of t p q = party_exchange t p q.srx q.srx_string

-- `partyLocations`
unfoldable pub party_locations : PartyExchange → List Text
party_locations x = elim x.counties [ [] ↦ x.location ∷ [] | c ∷ cs ↦ c ∷ cs ]

abbrev named : Text → Text → Text
named name location = if is_empty name then location else name ++ codes " " ++ location

-- One pair of places.
unfoldable pub party_credit : PartyExchange → PartyExchange → Qso → Text → Text → Qso
party_credit sent received q home away = record q {
  stx = sent.serial;
  srx = received.serial;
  stx_string = named sent.name home;
  srx_string = named received.name away;
}

-- The loop over the other station's places.
unfoldable pub credits_from : PartyExchange → PartyExchange → Qso → Text → List Text → List Qso
unfolding party_credit
credits_from sent received q home [] = []
credits_from sent received q home (away ∷ more) =
    party_credit sent received q home away ∷ credits_from sent received q home more

-- The loop over the operator's own places.
unfoldable pub all_credits : PartyExchange → PartyExchange → Qso → List Text → List Text → List Qso
unfolding credits_from
all_credits sent received q [] aways = []
all_credits sent received q (home ∷ more) aways =
    credits_from sent received q home aways ++ all_credits sent received q more aways

abbrev no_counties : PartyExchange → Bool
no_counties x = elim x.counties [ [] ↦ true | c ∷ cs ↦ false ]

-- The credits of a QSO whose exchanges were read.
unfoldable pub credits_of : Party → Qso → PartyExchange → PartyExchange → List Qso
unfolding all_credits party_locations equal_fold in_table to_upper
credits_of p q sent received =
    if no_counties sent && no_counties received
    then []
    else if not (is_empty q.mode) && not (equal_fold q.mode (codes "CW"))
    then []
    else if not (in_table p.bands (to_upper q.band))
    then []
    else all_credits sent received q (party_locations sent) (party_locations received)

unfoldable pub read_credits : Party → Qso → Parsed → Parsed → Result PartyError (List Qso)
unfolding credits_of
read_credits p q (sent, some e) received = err e
read_credits p q (sent, none) (received, some e) = err e
read_credits p q (sent, none) (received, none) = ok (credits_of p q sent received)

-- `partyCredits`
unfoldable pub party_credits : Countries → Party → Qso → Result PartyError (List Qso)
unfolding read_credits party_exchange
party_credits t p q = read_credits p q (sent_of t p q) (received_of t p q)

-- `strings.Join(parts, "/")`
unfoldable pub join_slash : List Text → Text
join_slash [] = []
join_slash (part ∷ []) = part
join_slash (part ∷ next ∷ parts) = part ++ codes "/" ++ join_slash (next ∷ parts)

unfoldable pub area_key : Countries → Party → Text → Text → Text
unfolding party_dx_entity party_area list_beq
area_key t p area call =
    if area == codes "DX"
    then elim (party_dx_entity t call) [
      | none ↦ party_area p.rules area
      | some country ↦ codes "DX:" ++ country
    ]
    else party_area p.rules area

unfoldable pub location_key : Countries → Party → PartyExchange → Text → Text
unfolding join_slash area_key
location_key t p x call = elim x.counties [
  | [] ↦ area_key t p x.area call
  | c ∷ cs ↦ join_slash (c ∷ cs)
]

-- `partyCreditKey`
unfoldable pub party_credit_key : Countries → Party → Qso → Text
unfolding location_key party_exchange clean to_upper
party_credit_key t p q =
    clean q.call
    ++ codes "|"
    ++ to_upper q.band
    ++ codes "|"
    ++ location_key t p (sent_of t p q).0 q.station_callsign
    ++ codes "|"
    ++ location_key t p (received_of t p q).0 q.call

unfoldable pub county_keys : List Text → List Text
county_keys [] = []
county_keys (c ∷ cs) = (codes "county:" ++ c) ∷ county_keys cs

unfoldable pub state_keys : PartyRules → PartyExchange → List Text
unfolding party_area party_postal_area
state_keys r x =
    let area =
      party_area r (if not (no_counties x) && r.county_as_state then r.state else x.area) in
    if party_postal_area area then (codes "state:" ++ area) ∷ [] else []

unfoldable pub dxcc_keys : Countries → Text → Text → List Text
unfolding party_dx_entity list_beq
dxcc_keys t area call =
    if has_prefix area (codes "DX:")
    then area ∷ []
    else if area == codes "DX"
    then elim (party_dx_entity t call) [ none ↦ [] | some country ↦ (codes "DX:" ++ country) ∷ [] ]
    else []

-- What one kind of multiplier of the home stations finds in an exchange.
unfoldable pub home_keys : Countries → PartyRules → PartyExchange → Text → Text → List Text
unfolding county_keys state_keys dxcc_keys in_table list_beq
home_keys t r x call kind =
    if kind == codes "county"
    then county_keys x.counties
    else if kind == codes "state"
    then state_keys r x
    else if kind == codes "dxcc"
    then dxcc_keys t x.area call
    else if kind == codes "dx"
    then if x.area == codes "DX" then codes "DX" ∷ [] else []
    else if kind == codes "maritime"
    then if in_table (codes "R1" ∷ codes "R2" ∷ codes "R3" ∷ []) x.area
      then (codes "maritime:" ++ x.area) ∷ []
      else []
    else []

unfoldable pub all_home_keys : Countries → PartyRules → PartyExchange → Text → List Text → List Text
unfolding home_keys
all_home_keys t r x call [] = []
all_home_keys t r x call (kind ∷ kinds) =
    home_keys t r x call kind ++ all_home_keys t r x call kinds

-- `keys[i] += "|" + strings.ToUpper(q.band)`
unfoldable pub on_band : Text → List Text → List Text
on_band band [] = []
on_band band (key ∷ keys) = (key ++ codes "|" ++ band) ∷ on_band band keys

unfoldable pub unbanded_keys : Countries → Party → Qso → PartyExchange → PartyExchange → List Text
unfolding county_keys all_home_keys
unbanded_keys t p q sent received =
    if no_counties sent
    then county_keys received.counties
    else all_home_keys t p.rules received q.call p.rules.home_multipliers

unfoldable pub read_keys : Countries → Party → Qso → Parsed → Parsed → List Text
unfolding unbanded_keys on_band list_beq to_upper
read_keys t p q (sent, some e) received = []
read_keys t p q (sent, none) (received, some e) = []
read_keys t p q (sent, none) (received, none) =
    let keys = unbanded_keys t p q sent received in
    if p.rules.multiplier_per == codes "band" then on_band (to_upper q.band) keys else keys

-- `partyMultiplierKeys`
unfoldable pub party_multiplier_keys : Countries → Party → Qso → List Text
unfolding read_keys party_exchange
party_multiplier_keys t p q = read_keys t p q (sent_of t p q) (received_of t p q)
