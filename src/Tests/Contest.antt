-- ===== src/Tests/Contest.antt =====
-- A two-band log of an event in the manner of the CQ WW DX Contest.
use w4gns_logger4men.Base.{
  ℕ, ◌+◌, ◌<◌, ◌≡◌, ◌↔◌, refl, true, false, ◌||◌, Option, none, some, [], ◌∷◌, ◌++◌, arith, inl,
  inr, All, nat_beq, if◌then◌else◌,
}
use w4gns_logger4men.Base.Eq.{list_beq}
use w4gns_logger4men.Text.{
  Text, text_eq, codes, clean, is_space, upper_byte, to_upper, trim_left, trim_right, trim_space,
  equal_fold, fields, has_prefix, contains_text, last_or, in_table,
}
use w4gns_logger4men.Exchange.Iota.{iota_at, iota_reference_code, iota_multiplier_value}
use w4gns_logger4men.Base.Sets.{contains, insert}
use w4gns_logger4men.Base.Maps.{get, put, get_or, set_at, insert_at, total_size, total_weight}
use w4gns_logger4men.Text.Numeral.{digits_value, unsigned, atoi, positive}
use w4gns_logger4men.Exchange.{
  Entity, listed, exchange_area_alias, exchange_area_code, tn_county_code, canton_code,
  rdxc_oblast_code, dok_district_code, arrl_section_alias, arrl_section_code, naqp_area_alias,
  naqp_area_code, sst_area_code, zone_or_zero, iaru_exchange_zone, all_letters,
  iaru_exchange_special, in_list_folded, country_in_list, sac_area_code, folds_into, is_wae_country,
  wae_band_bonus,
}
use w4gns_logger4men.Wpx.{
  non_qualifying, wpx_prefix, segments, qualifying, is_letter, is_digit, trim_letters,
  prefix_from_segment, prefix_letters, all_digits, is_digits_only, portable_prefix, choose_prefix,
}
use w4gns_logger4men.Wpx.Suffixes.{wpx_prefix-suffixes}
use w4gns_logger4men.Contest.Types.{
  Qso, ScoringRules, Event, ContestState, no_event, new_contest_state,
}
use w4gns_logger4men.Contest.Record.{
  Reference, record_qso, record_text_value, record_value, credit_text, credit_number, county_code,
  exchange_entity, entity_with_persisted_context, iota_category, own_iaru_zone, credit_iaru,
  credit_codes, credit_distance, credit_exchange, count_continent, classify, credit_numbers,
  credit_wae, credit_dxcc_or_wae, note_country, classify_resolved, credit_entity, with_context,
  worked_entity, place_entity, is_duplicate, mark_worked, mark_scored, index_flagged, index_qso,
  note_party, with_station,
}
use w4gns_logger4men.Contest.Score.{
  count_of, no_score, effective_multipliers, sum_counts, qso_points_of, score, kind_of, scope_of,
  plain_count, weighted_count, text_count, multiplier_count, total,
}
use w4gns_logger4men.Contest.Advance.{
  would_be_new_multiplier, text_candidate, number_candidate, already_by_band,
  already_unless_contest, text_already, number_already, kind_verdict, rule_verdict, flags,
  exchange_entity?,
}
use w4gns_logger4men.Text.Sort.{text_lt, sort_texts}
use w4gns_logger4men.Contest.Queries.{
  is_worked_on_band, record_all, build_contest_state, check_partial, continent_summary,
  partial_matches, set_station,
}
use w4gns_logger4men.Contest.Queries.Complete.{IsCovered, check_partial-IsCovered}
use w4gns_logger4men.Contest.Queries.Partial.{IsListing, check_partial-IsListing}
use w4gns_logger4men.Contest.Fresh.{IsFresh}
use w4gns_logger4men.Contest.Agreement.{IsAsTyped, new_mult-iff-score}
use w4gns_logger4men.Contest.Unscored.{score-record_left_out}
use w4gns_logger4men.Contest.Invariant.{IsIndexed, build_contest_state-IsIndexed}
use w4gns_logger4men.Contest.Totals.{flat_points-record}
use w4gns_logger4men.Contest.Worked.{LacksBar, is_logged, worked-record_all}

abbrev germany : Entity
germany = record {
  country = codes "Fed. Rep. of Germany";
  cq_zone = 14;
  itu_zone = 28;
  continent = codes "EU";
  dxcc_number = 230;
}

abbrev united_states : Entity
united_states = record {
  country = codes "United States";
  cq_zone = 5;
  itu_zone = 8;
  continent = codes "NA";
  dxcc_number = 291;
}

abbrev if_prefix : ℕ → Option Entity
if_prefix c =
    if nat_beq c b'D' then some germany else if nat_beq c b'W' then some united_states else none

-- A country file of two prefixes.
abbrev pub country_file : Text → Option Entity
country_file [] = none
country_file (c ∷ s) = if_prefix c

abbrev reference : Reference
reference = record { dxcc = country_file; distance = λ a b. none }

abbrev pub blank_qso : Qso
blank_qso = record {
  id = 0;
  call = [];
  band = [];
  mode = codes "CW";
  rst_sent = codes "599";
  rst_rcvd = codes "599";
  exchange = [];
  frequency = [];
  name = [];
  qth = [];
  grid = [];
  state = [];
  county = [];
  country = [];
  cq_zone = [];
  itu_zone = [];
  dxcc_number = [];
  email = [];
  comment = [];
  pota_ref = [];
  park_name = [];
  iota_ref = [];
  island_name = [];
  contest_id = [];
  stx = [];
  stx_string = [];
  srx = [];
  srx_string = [];
  time = 1;
  time_off = 1;
  profile_id = 1;
  unscored = false;
  my_grid_square = [];
  my_iota_ref = [];
  station_callsign = [];
  operator_name = [];
  my_rig = [];
  my_antenna = [];
  tx_power = [];
}

abbrev first_qso : Qso
first_qso = record blank_qso { call = codes "dl1abc"; band = codes "20M"; srx_string = codes "14" }

abbrev second_qso : Qso
second_qso = record first_qso { band = codes "40M" }

abbrev event : Event
event = record no_event { dupe_scope = codes "call+band" }

abbrev rules : ScoringRules
rules = record {
  points_per_qso = 2;
  multiplier = [];
  multipliers =
      record { kind = codes "dxcc"; per = codes "band" }
      ∷ record { kind = codes "prefix"; per = codes "contest" }
      ∷ [];
  points = none;
}

-- The index with the first QSO.
abbrev one_state : ContestState
one_state = build_contest_state reference event (codes "W4GNS") (first_qso ∷ [])

-- What the model computes on these.
contest_run : Unit {0}
unfolding is_space upper_byte to_upper trim_left trim_right trim_space clean equal_fold fields
    has_prefix contains_text last_or in_table listed exchange_area_alias exchange_area_code
    tn_county_code canton_code rdxc_oblast_code dok_district_code arrl_section_alias
    arrl_section_code naqp_area_alias naqp_area_code sst_area_code zone_or_zero iaru_exchange_zone
    all_letters iaru_exchange_special in_list_folded country_in_list sac_area_code folds_into
    is_wae_country wae_band_bonus iota_at iota_reference_code iota_multiplier_value segments
    non_qualifying qualifying is_letter is_digit trim_letters prefix_from_segment prefix_letters
    all_digits is_digits_only portable_prefix choose_prefix wpx_prefix new_contest_state
    record_text_value record_value credit_text credit_number county_code exchange_entity
    entity_with_persisted_context iota_category own_iaru_zone credit_iaru credit_codes
    credit_distance credit_exchange count_continent classify credit_numbers credit_wae
    credit_dxcc_or_wae note_country classify_resolved credit_entity with_context worked_entity
    place_entity is_duplicate mark_worked mark_scored index_flagged index_qso note_party
    with_station record_qso kind_of scope_of plain_count weighted_count text_count count_of
    multiplier_count effective_multipliers total sum_counts qso_points_of score text_candidate
    number_candidate already_by_band already_unless_contest text_already number_already kind_verdict
    rule_verdict flags exchange_entity? would_be_new_multiplier is_worked_on_band continent_summary
    text_lt sort_texts partial_matches check_partial set_station record_all build_contest_state
    contains insert get put get_or set_at insert_at total_size total_weight list_beq is_logged
    digits_value unsigned atoi positive
contest_run = tt

scores :
    (score (λ c. no_score) (some rules) one_state
      ≡ record no_score { qso_points = 2; multipliers = 2 })
    × (score (λ c. no_score) (some rules) (record_qso reference second_qso one_state)
        ≡ record no_score { qso_points = 4; multipliers = 3 })
unfolding contest_run
scores = (refl, refl)

typed_flags :
    (would_be_new_multiplier reference rules
        (codes "dl2x")
        (codes "20M")
        (codes "14")
        (some germany)
        one_state
      ≡ (true, true))
    × (would_be_new_multiplier reference rules
          (codes "dl1abc")
          (codes "20M")
          (codes "14")
          (some germany)
          one_state
        ≡ (false, true))
unfolding contest_run
typed_flags = (refl, refl)

partials : check_partial (codes "1a") 5 one_state ≡ codes "DL1ABC" ∷ []
unfolding contest_run
partials = refl

second_IsFresh : IsFresh second_qso one_state
unfolding contest_run
second_IsFresh = record { counted = refl; named = refl; first = refl }

second_IsAsTyped : IsAsTyped second_qso
second_IsAsTyped = record {
  country = refl;
  dxcc_number = refl;
  cq_zone = refl;
  itu_zone = refl;
  iota_ref = refl;
}

new_mult-iff-score_example :
    ((would_be_new_multiplier reference rules
        (codes "dl1abc")
        (codes "40M")
        (codes "14")
        (some germany)
        one_state).0
      ≡ true)
    ↔ (sum_counts (effective_multipliers rules) one_state
        < sum_counts (effective_multipliers rules) (record_qso reference second_qso one_state))
unfolding contest_run
new_mult-iff-score_example =
    new_mult-iff-score reference second_qso one_state second_IsFresh second_IsAsTyped rules
      (inl refl, (inr refl, tt))

score-record_left_out_example :
    score (λ c. no_score) (some rules) (record_qso reference first_qso one_state)
    ≡ score (λ c. no_score) (some rules) one_state
unfolding contest_run
score-record_left_out_example =
    score-record_left_out reference first_qso one_state (inr refl) (λ c. no_score) (some rules) refl

build_contest_state-IsIndexed_example :
    IsIndexed (build_contest_state reference event (codes "W4GNS") (first_qso ∷ second_qso ∷ []))
build_contest_state-IsIndexed_example =
    build_contest_state-IsIndexed reference event (codes "W4GNS") (first_qso ∷ second_qso ∷ [])

flat_points-record_example :
    qso_points_of rules (record_qso reference second_qso one_state)
    ≡ qso_points_of rules one_state + 2
unfolding contest_run
flat_points-record_example =
    flat_points-record reference second_qso one_state second_IsFresh rules refl refl

plain_call : LacksBar (clean (codes "dl1abc"))
unfolding contest_run
plain_call =
    (omega arith, (omega arith, (omega arith, (omega arith, (omega arith, (omega arith, tt))))))

worked-record_all_example :
    is_worked_on_band
      (codes "dl1abc")
      (codes "40m")
      (record_all reference (first_qso ∷ second_qso ∷ []) new_contest_state)
    ≡ (is_logged (codes "dl1abc") (codes "40m") (first_qso ∷ second_qso ∷ [])
        || is_worked_on_band (codes "dl1abc") (codes "40m") new_contest_state)
unfolding contest_run
worked-record_all_example =
    worked-record_all reference (codes "dl1abc") (codes "40m") (first_qso ∷ second_qso ∷ [])
      new_contest_state plain_call (plain_call, (plain_call, tt))

wpx_prefix-suffixes_example :
    All
      (λ suffix. wpx_prefix (codes "W3ABC" ++ b'/' ∷ suffix) ≡ wpx_prefix (codes "W3ABC"))
      non_qualifying
wpx_prefix-suffixes_example = wpx_prefix-suffixes (codes "W3ABC") refl refl

check_partial-IsListing_example :
    IsListing (clean (codes "1a")) 5 (check_partial (codes "1a") 5 one_state)
check_partial-IsListing_example = check_partial-IsListing (codes "1a") 5 one_state

check_partial-IsCovered_example :
    IsCovered (codes "DL1ABC") 5 (check_partial (codes "1a") 5 one_state)
unfolding contest_run
check_partial-IsCovered_example =
    check_partial-IsCovered (codes "1a") 5 one_state (codes "DL1ABC") refl refl refl refl
