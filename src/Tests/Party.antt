-- ===== src/Tests/Party.antt =====
-- A state QSO party of three counties, and a log of it.
use w4gns_logger4men.Base.{
  ◌*◌, ◌≤◌, ◌≡◌, refl, true, false, none, [], ◌∷◌, arith, length, if◌then◌else◌,
}
use w4gns_logger4men.Text.{
  Text, text_eq, codes, is_space, upper_byte, to_upper, trim_left, trim_right, trim_space, clean,
  equal_fold, fields, has_prefix, contains_text, last_or, in_table,
}
use w4gns_logger4men.Text.Sort.{text_lt, insert_sorted, sort_texts}
use w4gns_logger4men.Text.Numeral.{digits_value, unsigned, atoi, positive}
use w4gns_logger4men.Cabrillo.{or_default, header_value, column_text, cabrillo_exchange}
use w4gns_logger4men.Submission.{positive_serial, all_capitals, submission_name}
use w4gns_logger4men.Party.Exchange.{
  party_area, postal_areas, party_postal_area, party_dx_entity, all_printable, plus_to_slash,
  trim_prefix, county_line, all_alphanumeric, read_prefix, read_area, read_counties, is_region,
  read_location, read_one, read_serial, read_name, party_exchange,
}
use w4gns_logger4men.Party.Credits.{
  in_period, party_locations, party_credit, credits_from, all_credits, credits_of, read_credits,
  party_credits, join_slash, area_key, location_key, party_credit_key, county_keys, state_keys,
  dxcc_keys, home_keys, all_home_keys, on_band, unbanded_keys, read_keys, party_multiplier_keys,
}
use w4gns_logger4men.Party.Score.{
  insert_all, count_counties, take_credit, take_credits, take_result, tally_qso, tally, is_operated,
  mobile_bonus, with_bonus, cap_at, finish, party_score, credit_mults, result_mults, known_mults,
  any_fresh, any_known, judge_credits, judge, party_new_multiplier, credit_keys, result_keys,
  is_compared, prior_keys, all_seen, dupe_of, is_party_dupe,
}
use w4gns_logger4men.Base.Maps.{get, put, get_or, set_at, insert_at, total_size, total_weight}
use w4gns_logger4men.Base.Sets.{Distinct, contains, insert}
use w4gns_logger4men.Base.Eq.{list_beq}
use w4gns_logger4men.Wpx.{segments}
use w4gns_logger4men.Contest.Types.{Qso, Event, ContestState, no_event, new_contest_state}
use w4gns_logger4men.Contest.Record.{county_code}
use w4gns_logger4men.Party.{Party, PartyRules, Countries}
use w4gns_logger4men.Party.Exchange.Places.{IsPlaced, party_exchange-IsPlaced}
use w4gns_logger4men.Party.Score.Dupes.{party_score_of_dupe}
use w4gns_logger4men.Party.Score.Bounds.{is_special, is_credited, paid, party_score-bounds}
use w4gns_logger4men.Tests.Contest.{blank_qso}

abbrev no_countries : Countries
no_countries = record { lookup = λ call. none; is_prefix = λ s. false }

abbrev party_event : Event
party_event = record no_event { county_options = codes "ADA" ∷ codes "BOI" ∷ codes "CAN" ∷ [] }

abbrev party_rules : PartyRules
party_rules = record {
  periods = record { start = 1; end = 1_000 } ∷ [];
  state = codes "ID";
  exchange = codes "location";
  county_line_max = 2;
  county_as_state = true;
  home_multipliers = codes "county" ∷ codes "state" ∷ [];
  multiplier_per = codes "contest";
  multiplier_cap = 1;
  points = 2;
  bonus_call = codes "K7ID";
  bonus_points = 100;
  mobile_county_minimum = 0;
  mobile_county_bonus = 0;
  mobile_county_multiplier = false;
  area_aliases = [];
  outside_category = [];
  category_soapbox = false;
  category_mode = [];
  power_factors = (codes "HIGH", 1) ∷ (codes "LOW", 2) ∷ [];
  qso_only_calls = [];
}

abbrev party : Party
party = record { event = party_event; bands = codes "20M" ∷ codes "40M" ∷ []; rules = party_rules }

abbrev party_qso : Qso
party_qso = record blank_qso {
  call = codes "W7AA";
  band = codes "20M";
  stx_string = codes "TN";
  srx_string = codes "boi/ada";
}

abbrev party_state : ContestState
party_state = record new_contest_state { party_qsos = party_qso ∷ [] }

party_run : Unit {0}
unfolding is_space upper_byte to_upper trim_left trim_right trim_space clean equal_fold fields
    has_prefix contains_text last_or in_table text_lt insert_sorted sort_texts digits_value unsigned
    atoi positive or_default header_value column_text cabrillo_exchange positive_serial all_capitals
    submission_name party_area postal_areas party_postal_area party_dx_entity all_printable
    plus_to_slash trim_prefix county_line all_alphanumeric read_prefix read_area read_counties
    is_region read_location read_one read_serial read_name party_exchange in_period party_locations
    party_credit credits_from all_credits credits_of read_credits party_credits join_slash area_key
    location_key party_credit_key county_keys state_keys dxcc_keys home_keys all_home_keys on_band
    unbanded_keys read_keys party_multiplier_keys insert_all count_counties take_credit take_credits
    take_result tally_qso tally is_operated mobile_bonus with_bonus cap_at finish party_score
    credit_mults result_mults known_mults any_fresh any_known judge_credits judge
    party_new_multiplier credit_keys result_keys is_compared prior_keys all_seen dupe_of
    is_party_dupe get put get_or set_at insert_at total_size total_weight contains insert list_beq
    segments county_code new_contest_state
party_run = tt

party_exchange-IsPlaced_example :
    IsPlaced party_rules (party_exchange no_countries party [] (codes "boi/ada")).0
unfolding party_run
party_exchange-IsPlaced_example =
    party_exchange-IsPlaced no_countries party [] (codes "boi/ada") refl

-- Two counties are two credits, and the two multipliers are capped at one.
scored :
    ((party_score no_countries party party_state).qso_points ≡ 4)
    × ((party_score no_countries party party_state).multipliers ≡ 1)
unfolding party_run
scored = (refl, refl)

-- A QSO flagged /X makes the same contact a duplicate, though only the second one is paid for.
abbrev flagged : Qso
flagged = record party_qso { unscored = true }

flagged_prior :
    (is_party_dupe no_countries party party_qso 0 0 (flagged ∷ []) ≡ true)
    × ((party_score no_countries party
          (record party_state { party_qsos = flagged ∷ [] })).qso_points
        ≡ 0)
    × ((party_score no_countries party
          (record party_state { party_qsos = flagged ∷ party_qso ∷ [] })).qso_points
        ≡ 4)
unfolding party_run
flagged_prior = (refl, refl, refl)

party_score_of_dupe_example :
    party_score no_countries party
      (record party_state { party_qsos = party_qso ∷ record party_qso { time = 5 } ∷ [] })
    ≡ party_score no_countries party party_state
unfolding party_run
party_score_of_dupe_example =
    party_score_of_dupe no_countries party (record party_qso { time = 5 }) 0 0 party_state
      ((λ h. refl), tt) refl

party_score-bounds_example :
    Distinct (paid no_countries party party_state).seen
    × ((k : Text)
        → contains (paid no_countries party party_state).seen k
          ≡ is_credited no_countries party k party_state.party_qsos)
    × ((party_score no_countries party party_state).qso_points ≡ (
        if is_special (paid no_countries party party_state)
        then length (paid no_countries party party_state).seen
        else 2 * length (paid no_countries party party_state).seen))
    × ((party_score no_countries party party_state).multipliers ≤ 1)
unfolding party_run
party_score-bounds_example =
    party_score-bounds no_countries party party_state (omega arith) (omega arith)
