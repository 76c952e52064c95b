-- ===== src/Contest/Record.antt =====
-- `record` of contest_state.go and what it calls.
use w4gns_logger4men.Base.{
  ℕ, ◌+◌, Bool, false, not, ◌&&◌, ◌||◌, Option, none, some, [], ◌∷◌, ◌++◌, ltb, nat_beq,
  if◌then◌else◌,
}
use w4gns_logger4men.Base.Eq.{◌==◌, nat_eq}
use w4gns_logger4men.Base.Sets.{contains, insert}
use w4gns_logger4men.Base.Maps.{get, put, get_or, insert_at}
use w4gns_logger4men.Text.{Text, text_eq, codes, is_empty, trim_space, clean}
use w4gns_logger4men.Text.Numeral.{positive}
use w4gns_logger4men.Exchange.{
  Entity, Lookup, exchange_area_code, tn_county_code, canton_code, rdxc_oblast_code,
  dok_district_code, arrl_section_code, naqp_area_code, sst_area_code, iaru_exchange_zone,
  iaru_exchange_special, country_in_list, sac_area_code, is_wae_country,
}
use w4gns_logger4men.Exchange.Iota.{iota_reference_code, iota_multiplier_value}
use w4gns_logger4men.Wpx.{wpx_prefix}
use w4gns_logger4men.Contest.Types.{
  Qso, Event, Category, IotaCategory, TextKind, NumberKind, text_index, number_index, Mults,
  ContestState,
}

-- What the scorer takes from elsewhere: the country file's lookup, and the distance in whole
-- kilometres between two grid squares, `none` if one does not parse.
pub record Reference : Type 0 where
  pub dxcc : Lookup
  pub distance : Text → Text → Option ℕ

-- `recordMultiplierStringValue`
unfoldable pub record_text_value : Text → Text → Mults Text → Mults Text
record_text_value band value m =
    if is_empty value
    then m
    else record { by_band = insert_at band value m.by_band; all = insert value m.all }

-- `recordMultiplierValue`
unfoldable pub record_value : Text → ℕ → Mults ℕ → Mults ℕ
record_value band value m =
    if nat_beq value 0
    then m
    else record { by_band = insert_at band value m.by_band; all = insert value m.all }

-- `recordMultiplierStringValue(c.xByBand, c.xAll, band, value)`
unfoldable pub credit_text : TextKind → Text → Text → ContestState → ContestState
credit_text k band value c = record c {
  texts = λ j.
      if nat_beq (text_index j) (text_index k)
      then record_text_value band value (c.texts j)
      else c.texts j;
}

-- `recordMultiplierValue(c.xByBand, c.xAll, band, value)`
unfoldable pub credit_number : NumberKind → Text → ℕ → ContestState → ContestState
credit_number k band value c = record c {
  numbers = λ j.
      if nat_beq (number_index j) (number_index k)
      then record_value band value (c.numbers j)
      else c.numbers j;
}

-- `countyCode` of state_qso_party.go
unfoldable pub county_code : Event → Text → Text
unfolding clean contains
county_code e text = if contains e.county_options (clean text) then clean text else []

-- `exchangeEntity`
unfoldable pub exchange_entity : Event → Entity → Text → Entity
unfolding positive trim_space country_in_list
exchange_entity e entity text =
    if trim_space e.received_exchange_autofill == codes "cq_zone"
      && not (country_in_list e.received_exchange_autofill_domestic entity.country)
    then elim (positive (trim_space text)) [
      | none ↦ record entity { cq_zone = 0 }
      | some zone ↦ record entity { cq_zone = if ltb 40 zone then 0 else zone }
    ]
    else entity

or_else : Option ℕ → ℕ → ℕ
or_else none d = d
or_else (some n) d = n

-- `entityWithPersistedContext`
unfoldable pub entity_with_persisted_context : Entity → Qso → Entity
unfolding or_else positive trim_space
entity_with_persisted_context entity q = record entity {
  country = if is_empty (trim_space q.country) then entity.country else trim_space q.country;
  dxcc_number = or_else (positive (trim_space q.dxcc_number)) entity.dxcc_number;
  cq_zone = or_else (positive (trim_space q.cq_zone)) entity.cq_zone;
  itu_zone = or_else (positive (trim_space q.itu_zone)) entity.itu_zone;
}

-- `iotaCategory` of iota.go
unfoldable pub iota_category : Qso → IotaCategory
unfolding iota_reference_code iota_multiplier_value
iota_category q =
    let mine = iota_reference_code q.my_iota_ref in
    let worked = iota_multiplier_value q.srx_string q.iota_ref in
    if is_empty mine
    then if is_empty worked then IotaCategory.world_works_world else IotaCategory.world_works_island
    else if is_empty worked
    then IotaCategory.island_works_world
    else if mine == worked
    then IotaCategory.island_works_same_reference
    else IotaCategory.island_works_other_island

-- `ownIARUZone`
unfoldable pub own_iaru_zone : ContestState → Qso → Option ℕ
unfolding iaru_exchange_zone
own_iaru_zone c q =
    if ltb 0 (iaru_exchange_zone q.stx_string)
    then some (iaru_exchange_zone q.stx_string)
    else if c.station_zone_resolved
    then some c.station_itu_zone
    else none

is_zone : Option ℕ → ℕ → Bool
is_zone none zone = false
is_zone (some mine) zone = nat_beq zone mine

credit_zone : Text → Text → ℕ → Qso → ContestState → ContestState
unfolding is_zone own_iaru_zone
credit_zone band key zone q c =
    let c' = credit_number NumberKind.iaru_zone band zone c in
    if is_zone (own_iaru_zone c q) zone
    then record c' { point_category_zone = put key Category.same_country c.point_category_zone }
    else c'

-- The exchanged zone or abbreviation of the IARU contest.
unfoldable pub credit_iaru : Text → Text → Qso → ContestState → ContestState
unfolding credit_zone
credit_iaru band key q c =
    let abbreviation = iaru_exchange_special q.srx_string in
    let zone = iaru_exchange_zone q.srx_string in
    if is_empty abbreviation
    then if ltb 0 zone then credit_zone band key zone q c else c
    else record (credit_text TextKind.iaru_hq band abbreviation c) {
      point_category_zone = put key Category.special c.point_category_zone;
    }

-- The multipliers that the exchange and the callsign give.
unfoldable pub credit_codes : Reference → Text → Text → Text → Qso → ContestState → ContestState
unfolding credit_text
credit_codes ref call band key q c =
    let srx = q.srx_string in
    let c1 = credit_text TextKind.prefix band (wpx_prefix call) c in
    let c2 = credit_text TextKind.exchange_area band (exchange_area_code srx) c1 in
    let c3 = credit_text TextKind.tn_county band (tn_county_code srx) c2 in
    let c4 = credit_text TextKind.county band (county_code c3.event srx) c3 in
    let c5 = credit_text TextKind.canton band (canton_code srx) c4 in
    let c6 = credit_text TextKind.oblast band (rdxc_oblast_code srx) c5 in
    let c7 = credit_text TextKind.dok_district band (dok_district_code srx) c6 in
    let c8 = credit_text TextKind.iota band (iota_multiplier_value srx q.iota_ref) c7 in
    let c9 = record c8 { point_category_iota = put key (iota_category q) c8.point_category_iota } in
    let c10 = credit_text TextKind.naqp_area band (naqp_area_code ref.dxcc srx) c9 in
    let c11 = credit_text TextKind.sst_area band (sst_area_code ref.dxcc srx) c10 in
    credit_text TextKind.arrl_section band (arrl_section_code srx) c11

unfoldable pub credit_distance : Reference → Text → Qso → ContestState → ContestState
credit_distance ref key q c = elim (ref.distance q.my_grid_square q.srx_string) [
  | none ↦ c
  | some km ↦ record c { distance_km_by_key = put key km c.distance_km_by_key }
]

unfoldable pub credit_exchange : Reference → Text → Text → Text → Qso → ContestState → ContestState
credit_exchange ref call band key q c =
    credit_distance ref key q (credit_iaru band key q (credit_codes ref call band key q c))

-- `c.continentBand[entity.Continent][band]++`
unfoldable pub count_continent : Text → Entity → ContestState → ContestState
count_continent band entity c =
    if is_empty entity.continent
    then c
    else let counts = get_or entity.continent [] c.continent_band in
      record c {
        continent_band =
            put entity.continent (put band (get_or band 0 counts + 1) counts) c.continent_band;
      }

same_place : ContestState → Entity → Bool
same_place c entity = not (is_empty entity.continent) && entity.continent == c.station_continent

-- Where the worked station lies as seen from the operator's own.
unfoldable pub classify : Text → Qso → Entity → ContestState → ContestState
unfolding same_place
classify key q entity c =
    let placed =
      if not (nat_beq entity.dxcc_number 0) && nat_beq entity.dxcc_number c.station_dxcc_number
      then record c { point_category = put key Category.same_country c.point_category }
      else if same_place c entity
      then record c {
        point_category = put key Category.same_continent c.point_category;
        point_category_continent = put key entity.continent c.point_category_continent;
      }
      else record c { point_category = put key Category.other_continent c.point_category } in
    elim (get key c.point_category_zone) [
      | none ↦
          if ltb 0 (iaru_exchange_zone q.srx_string)
          then record placed {
            point_category_zone =
                put key
                  (if same_place c entity
                    then Category.same_continent
                    else Category.other_continent)
                  c.point_category_zone;
          }
          else placed
      | some _ ↦ placed
    ]

unfoldable pub credit_numbers : Text → Entity → ContestState → ContestState
unfolding credit_number
credit_numbers band entity c =
    let c1 = credit_number NumberKind.dxcc band entity.dxcc_number c in
    let c2 = credit_number NumberKind.cqzone band entity.cq_zone c1 in
    credit_number NumberKind.ituzone band entity.itu_zone c2

unfoldable pub credit_wae : Text → Entity → ContestState → ContestState
unfolding credit_text credit_number
credit_wae band entity c =
    if is_wae_country entity.country
    then credit_text TextKind.wae_country band entity.country c
    else credit_number NumberKind.dxcc_non_wae band entity.dxcc_number c

unfoldable pub credit_dxcc_or_wae : Text → Entity → ContestState → ContestState
unfolding credit_text
credit_dxcc_or_wae band entity c =
    if not (is_empty entity.country)
      && (not (nat_beq entity.dxcc_number 0) || is_wae_country entity.country)
    then credit_text TextKind.dxcc_or_wae band entity.country c
    else c

unfoldable pub note_country : Text → Entity → ContestState → ContestState
note_country key entity c =
    if is_empty entity.country
    then c
    else record c { point_category_country = put key entity.country c.point_category_country }

unfoldable pub classify_resolved : Text → Qso → Entity → ContestState → ContestState
classify_resolved key q entity c = if c.station_resolved then classify key q entity c else c

-- The multipliers and the points category that the worked country gives.
unfoldable pub credit_entity : Text → Text → Text → Qso → Entity → ContestState → ContestState
credit_entity call band key q entity c =
    let c1 = credit_numbers band entity c in
    let c2 = credit_text TextKind.sac_area band (sac_area_code entity call) c1 in
    let c3 = credit_dxcc_or_wae band entity (credit_wae band entity c2) in
    classify_resolved key q entity (note_country key entity c3)

-- The worked country, with what the QSO and its exchange say of it.
unfoldable pub with_context : Event → Qso → Option Entity → Option Entity
with_context e q none = none
with_context e q (some found) =
    some (exchange_entity e (entity_with_persisted_context found q) q.srx_string)

unfoldable pub worked_entity : Reference → Event → Text → Qso → Option Entity
unfolding with_context
worked_entity ref e call q = with_context e q (ref.dxcc call)

unfoldable pub place_entity : Text → Text → Text → Qso → Option Entity → ContestState → ContestState
place_entity call band key q none c = c
place_entity call band key q (some entity) c =
    let counted = count_continent band entity c in
    if q.unscored then counted else credit_entity call band key q entity counted

-- Whether the call was already credited, under the event's dupe scope.
unfoldable pub is_duplicate : Text → Text → ContestState → Bool
is_duplicate call key c =
    if c.event.dupe_scope == codes "call"
    then contains c.scored_unique_calls call
    else contains c.scored_call_band key

unfoldable pub mark_worked : Text → Text → Qso → ContestState → ContestState
mark_worked call key q c = record c {
  by_call = put call (get_or call [] c.by_call ++ q ∷ []) c.by_call;
  worked_call_band = insert key c.worked_call_band;
  unique_calls = insert call c.unique_calls;
  times = if nat_beq q.time 0 then c.times else c.times ++ q.time ∷ [];
}

unfoldable pub mark_scored : Text → Text → ContestState → ContestState
mark_scored call key c = record c {
  scored_call_band = insert key c.scored_call_band;
  scored_unique_calls = insert call c.scored_unique_calls;
}

abbrev pub call_band : Text → Text → Text
call_band call band = call ++ codes "|" ++ band

-- The rest of `record`, once it is known whether the QSO is left out of the score.
unfoldable pub index_flagged : Reference → Text → Text → Bool → Qso → ContestState → ContestState
unfolding mark_worked mark_scored
index_flagged ref call band unscored q c =
    let key = call_band call band in
    let q' = record q { unscored = unscored } in
    let worked = mark_worked call key q c in
    let scored =
      if unscored
      then worked
      else credit_exchange ref call band key q' (mark_scored call key worked) in
    place_entity call band key q' (worked_entity ref c.event call q') scored

-- The part of `record` behind the test for an empty call.
unfoldable pub index_qso : Reference → Text → Text → Qso → ContestState → ContestState
unfolding index_flagged is_duplicate
index_qso ref call band q c =
    index_flagged ref call band (q.unscored || is_duplicate call (call_band call band) c) q c

unfoldable pub note_party : Qso → ContestState → ContestState
note_party q c = record c {
  party_qsos = if c.event.qso_party then c.party_qsos ++ q ∷ [] else c.party_qsos;
}

unfoldable pub with_station : ContestState → Qso → Qso
with_station c q = record q {
  station_callsign =
      if is_empty q.station_callsign then c.party_station_call else q.station_callsign;
}

unfoldable pub record_qso : Reference → Qso → ContestState → ContestState
unfolding note_party with_station index_qso
record_qso ref q c =
    let q' = with_station c q in
    let noted = note_party q' c in
    if is_empty (clean q.call) then noted else index_qso ref (clean q.call) (clean q.band) q' noted
