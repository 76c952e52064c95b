-- ===== src/Party/Exchange/Places.antt =====
-- What `partyExchange` reports without an error.
use w4gns_logger4men.Base.{
  ◌≤◌, ◌≡◌, refl, Bool, true, false, not, ◌&&◌, ◌||◌, Option, none, some, List, [], ◌∷◌, ◌++◌,
  arith, length, ltb, nat_beq, if◌then◌else◌,
}
use w4gns_logger4men.Base.Eq.{◌==◌}
use w4gns_logger4men.Base.Maps.{get_or}
use w4gns_logger4men.Text.{Text, text_eq, codes, is_empty, in_table, has_prefix, fields, to_upper}
use w4gns_logger4men.Cabrillo.{cabrillo_exchange}
use w4gns_logger4men.Wpx.{segments}
use w4gns_logger4men.Submission.{positive_serial, submission_name}
use w4gns_logger4men.Text.Sort.{IsSorted, sort_texts, length-sort_texts, sort_texts-IsSorted}
use w4gns_logger4men.Party.{
  Party, PartyRules, Countries, PartyExchange, PartyError, unknown_location,
}
use w4gns_logger4men.Party.Exchange.{
  Parsed, party_area, party_dx_entity, no_exchange, read_prefix, read_area, read_counties,
  read_location, read_one, read_serial, read_name, party_exchange, trim_prefix, located,
  all_alphanumeric, all_printable, county_line, plus_to_slash, party_postal_area, is_region,
}

-- A place: a line of counties, sorted and within the limit, or a named area.
abbrev pub has_area : PartyExchange → Bool
has_area x = elim x.counties [ [] ↦ not (is_empty x.area) | c ∷ cs ↦ true ]

pub record IsPlaced (r : PartyRules) (x : PartyExchange) : Type 0 where
  pub within : length x.counties ≤ r.county_line_max
  pub sorted : IsSorted x.counties
  pub named : has_area x ≡ true

-- An exchange that was read without an error is a place.
record IsRead (r : PartyRules) (parsed : Parsed) : Type 0 where
  placed : parsed.1 ≡ none → IsPlaced r parsed.0

IsRead-if :
    (r : PartyRules) (b : Bool) (x y : Parsed)
    → (b ≡ true → IsRead r x)
    → (b ≡ false → IsRead r y)
    → IsRead r (if b then x else y)
IsRead-if r true x y h k = h refl
IsRead-if r false x y h k = k refl

failed-IsRead : (r : PartyRules) (x : PartyExchange) (e : PartyError) → IsRead r (x, some e)
failed-IsRead r x e = record { placed = λ h. absurd (ground arith) }

IsPlaced-area :
    (r : PartyRules) (x : PartyExchange) (counties : List Text)
    → x.counties ≡ counties
    → counties ≡ []
    → is_empty x.area ≡ false
    → IsPlaced r x
IsPlaced-area r x [] p empty named = record {
  within = rw p (omega arith);
  sorted = rw p tt;
  named = rw p (ground arith);
}
IsPlaced-area r x (c ∷ cs) p empty named = absurd (ground arith)

located-IsRead :
    (r : PartyRules) (x : PartyExchange) (area : Text)
    → x.counties ≡ []
    → is_empty area ≡ false
    → IsRead r (located x area)
located-IsRead r x area empty named = record {
  placed = λ h. IsPlaced-area r (record x { area = area }) [] empty refl named;
}

party_area-is_empty :
    (r : PartyRules) (area : Text) → is_empty area ≡ false → is_empty (party_area r area) ≡ false
unfolding party_area
party_area-is_empty r area h = ground arith

is_empty-trim_prefix :
    (s prefix : Text) → is_empty (trim_prefix s prefix) ≡ false → is_empty s ≡ false
unfolding trim_prefix
is_empty-trim_prefix [] [] h = h
is_empty-trim_prefix [] (p ∷ ps) h = h
is_empty-trim_prefix (c ∷ s) prefix h = refl

is_placed_sorted :
    (x : PartyExchange) (cs : List Text)
    → 1 ≤ length cs
    → has_area (record x { counties = cs }) ≡ true
is_placed_sorted x [] h = absurd (ground arith)
is_placed_sorted x (c ∷ cs) h = refl

module _ (t : Countries) (p : Party) where
  country-IsRead :
      (x : PartyExchange) (o : Option Text)
      → x.counties ≡ []
      → IsRead p.rules (elim o [
        | none ↦ (x, some unknown_location)
        | some country ↦ located x (codes "DX:" ++ country)
      ])
  country-IsRead x none empty = failed-IsRead p.rules x _
  country-IsRead x (some country) empty = located-IsRead p.rules x _ empty refl

  read_prefix-IsRead :
      (token : Text) (x : PartyExchange)
      → x.counties ≡ []
      → IsRead p.rules (read_prefix t p token x)
  unfolding read_prefix
  read_prefix-IsRead token x empty =
      IsRead-if p.rules (in_table p.rules.home_multipliers (codes "dxcc") && t.is_prefix token) _ _
        (λ _. country-IsRead x (party_dx_entity t token) empty) (λ _. failed-IsRead p.rules x _)

  read_area-IsRead : (x : PartyExchange) → x.counties ≡ [] → IsRead p.rules (read_area t p x)
  unfolding read_area
  read_area-IsRead x empty =
      IsRead-if p.rules (is_empty (trim_prefix x.location (codes "DX:"))) _ _
        (λ _. failed-IsRead p.rules x _)
        (λ token.
          IsRead-if p.rules (not (all_alphanumeric (trim_prefix x.location (codes "DX:")))) _ _
            (λ _. failed-IsRead p.rules x _)
            (λ _.
              IsRead-if p.rules
                (not (has_prefix x.location (codes "DX:"))
                  && not (x.location == p.rules.state)
                  && (party_postal_area x.location
                      || x.location == codes "DX"
                      || not (is_empty (get_or x.location [] p.rules.area_aliases))))
                _ _
                (λ _. located-IsRead p.rules x _ empty (
                  party_area-is_empty p.rules x.location
                    (is_empty-trim_prefix x.location (codes "DX:") token)))
                (λ _. read_prefix-IsRead _ x empty)))

  counties-IsPlaced :
      (x : PartyExchange) (c : Text) (cs : List Text)
      → ltb p.rules.county_line_max (length (c ∷ cs)) ≡ false
      → IsPlaced p.rules (record x { counties = sort_texts (c ∷ cs) })
  counties-IsPlaced x c cs few = record {
    within = ground (arith, length-sort_texts (c ∷ cs));
    sorted = sort_texts-IsSorted (c ∷ cs);
    named = is_placed_sorted x (sort_texts (c ∷ cs)) (ground (arith, length-sort_texts (c ∷ cs)));
  }

  read_counties-IsRead :
      (parts counties : List Text) (x : PartyExchange)
      → x.counties ≡ []
      → IsRead p.rules (read_counties t p parts counties x)
  unfolding read_counties
  read_counties-IsRead parts [] x empty =
      IsRead-if p.rules (nat_beq (length parts) 1) _ _ (λ _. read_area-IsRead x empty)
        (λ _. failed-IsRead p.rules x _)
  read_counties-IsRead parts (c ∷ cs) x empty =
      IsRead-if p.rules (ltb p.rules.county_line_max (length (c ∷ cs))) _ _
        (λ _. failed-IsRead p.rules no_exchange _)
        (λ few. record { placed = λ h. counties-IsPlaced x c cs few })

  read_location-IsRead :
      (x : PartyExchange) → x.counties ≡ [] → IsRead p.rules (read_location t p x)
  unfolding read_location
  read_location-IsRead x empty =
      IsRead-if p.rules
        (in_table p.rules.home_multipliers (codes "maritime")
          && is_region (trim_prefix x.location (codes "R")))
        _ _ (λ _. located-IsRead p.rules x _ empty refl)
        (λ _.
          read_counties-IsRead (segments x.location) (county_line p.event [] (segments x.location))
            x empty)

  read_one-IsRead :
      (x : PartyExchange) (parts : List Text)
      → x.counties ≡ []
      → IsRead p.rules (read_one t p x parts)
  unfolding read_one
  read_one-IsRead x [] empty = failed-IsRead p.rules x _
  read_one-IsRead x (field ∷ []) empty =
      read_location-IsRead (record x { location = plus_to_slash field }) empty
  read_one-IsRead x (field ∷ more ∷ parts) empty = failed-IsRead p.rules x _

  read_serial-IsRead : (parts : List Text) → IsRead p.rules (read_serial t p parts)
  unfolding read_serial
  read_serial-IsRead [] = failed-IsRead p.rules no_exchange _
  read_serial-IsRead (serial ∷ []) = failed-IsRead p.rules no_exchange _
  read_serial-IsRead (serial ∷ field ∷ []) =
      IsRead-if p.rules (positive_serial serial) _ _
        (λ _. read_one-IsRead (record no_exchange { serial = serial }) (field ∷ []) refl)
        (λ _. failed-IsRead p.rules no_exchange _)
  read_serial-IsRead (serial ∷ field ∷ more ∷ parts) = failed-IsRead p.rules no_exchange _

  read_name-IsRead : (parts : List Text) → IsRead p.rules (read_name t p parts)
  unfolding read_name
  read_name-IsRead [] = failed-IsRead p.rules no_exchange _
  read_name-IsRead (name ∷ []) = failed-IsRead p.rules no_exchange _
  read_name-IsRead (name ∷ field ∷ []) =
      IsRead-if p.rules (submission_name name) _ _
        (λ _. read_one-IsRead (record no_exchange { name = name }) (field ∷ []) refl)
        (λ _. failed-IsRead p.rules no_exchange _)
  read_name-IsRead (name ∷ field ∷ more ∷ parts) = failed-IsRead p.rules no_exchange _

  exchange-IsRead : (serial text : Text) → IsRead p.rules (party_exchange t p serial text)
  unfolding party_exchange
  exchange-IsRead serial text =
      IsRead-if p.rules (not (all_printable (serial ++ text))) _ _
        (λ _. failed-IsRead p.rules no_exchange _)
        (λ _.
          IsRead-if p.rules (p.rules.exchange == codes "serial_location") _ _
            (λ _. read_serial-IsRead (fields (to_upper (cabrillo_exchange serial text))))
            (λ _.
              IsRead-if p.rules (p.rules.exchange == codes "name_location") _ _
                (λ _. read_name-IsRead (fields (to_upper (cabrillo_exchange serial text))))
                (λ _.
                  read_one-IsRead no_exchange (fields (to_upper (cabrillo_exchange serial text)))
                    refl)))

-- An exchange that `partyExchange` reports without an error has a place: either counties, no more
-- than the party's county line allows and in order, or no county and an area that is not empty.
pub party_exchange-IsPlaced :
    (t : Countries) (p : Party) (serial text : Text)
    → (party_exchange t p serial text).1 ≡ none
    → IsPlaced p.rules (party_exchange t p serial text).0
party_exchange-IsPlaced t p serial text = (exchange-IsRead t p serial text).placed
