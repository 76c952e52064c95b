-- ===== src/Contest/Queries.antt =====
-- What the panels ask of the index: `isWorkedOnBand`, `checkPartial`, `continentSummary`; and
-- `buildContestState`, the index of a whole log, and `setStation`.
pub mod Partial
pub mod Complete
use w4gns_logger4men.Base.{
  ℕ, Bool, true, false, ◌&&◌, ◌||◌, none, some, List, [], ◌∷◌, map, ltb, nat_beq, if◌then◌else◌,
  length, take,
}
use w4gns_logger4men.Base.Eq.{◌==◌, nat_eq}
use w4gns_logger4men.Base.Sets.{contains}
use w4gns_logger4men.Base.Maps.{get_or}
use w4gns_logger4men.Text.Sort.{sort_texts}
use w4gns_logger4men.Text.{Text, text_eq, is_empty, clean, contains_text}
use w4gns_logger4men.Contest.Types.{Qso, Event, ContestState, new_contest_state}
use w4gns_logger4men.Contest.Record.{Reference, call_band, record_qso}

unfoldable pub is_worked_on_band : Text → Text → ContestState → Bool
unfolding contains clean
is_worked_on_band call band c = contains c.worked_call_band (call_band (clean call) (clean band))

unfoldable pub continent_summary : Text → Text → ContestState → Bool × ℕ
unfolding get_or clean
continent_summary continent band c =
    let count = get_or (clean band) 0 (get_or continent [] c.continent_band) in (ltb 0 count, count)

-- The loop over the keys of `byCall`.
unfoldable pub partial_matches : Text → List Text → List Text
unfolding contains_text
partial_matches fragment [] = []
partial_matches fragment (call ∷ calls) =
    let rest = partial_matches fragment calls in
    if call == fragment then rest else if contains_text call fragment then call ∷ rest else rest

unfoldable pub check_partial : Text → ℕ → ContestState → List Text
unfolding clean partial_matches sort_texts
check_partial fragment limit c =
    let f = clean fragment in
    if is_empty f
    then []
    else let matches = sort_texts (partial_matches f (map (λ e. e.0) c.by_call)) in
      if ltb limit (length matches) then take limit matches else matches

-- `setStation`
unfoldable pub set_station : Reference → Text → ContestState → ContestState
unfolding clean
set_station ref callsign c =
    let c1 = record c { party_station_call = clean callsign } in
    elim (ref.dxcc (clean callsign)) [
      | none ↦ c1
      | some entity ↦ if nat_beq entity.dxcc_number 0 then c1 else record c1 {
        station_dxcc_number = entity.dxcc_number;
        station_continent = entity.continent;
        station_resolved = true;
        station_itu_zone = if ltb 0 entity.itu_zone then entity.itu_zone else c1.station_itu_zone;
        station_zone_resolved = if ltb 0 entity.itu_zone then true else c1.station_zone_resolved;
      }
    ]

-- `forEachQSOForContest(..., func(q qso) error { state.record(q); return nil })`
unfoldable pub record_all : Reference → List Qso → ContestState → ContestState
record_all ref [] c = c
record_all ref (q ∷ qs) c = record_all ref qs (record_qso ref q c)

-- `buildContestState`, of the catalog's event and the rows that the store hands over, in order.
unfoldable pub build_contest_state : Reference → Event → Text → List Qso → ContestState
unfolding record_all set_station new_contest_state
build_contest_state ref event callsign qsos =
    record_all ref qsos (set_station ref callsign (record new_contest_state { event = event }))
