-- ===== src/Contest/Types.antt =====
-- The data of contest_state.go: the QSO of main.go, the scoring rules of events.go and the index.
-- The struct's pairs of fields xByBand/xAll are two functions, from the name of a pair of sets of
-- texts (`TextKind`) or of numbers (`NumberKind`).
use w4gns_logger4men.Base.{ℕ, Bool, false, Option, List, []}
use w4gns_logger4men.Text.{Text}

-- An instant, in nanoseconds since the year 1; 0 is the zero `time.Time`.
abbrev pub Time : Type 0
Time = ℕ

pub record Qso : Type 0 where
  pub id : ℕ
  pub call : Text
  pub band : Text
  pub mode : Text
  pub rst_sent : Text
  pub rst_rcvd : Text
  pub exchange : Text
  pub frequency : Text
  pub name : Text
  pub qth : Text
  pub grid : Text
  pub state : Text
  pub county : Text
  pub country : Text
  pub cq_zone : Text
  pub itu_zone : Text
  pub dxcc_number : Text
  pub email : Text
  pub comment : Text
  pub pota_ref : Text
  pub park_name : Text
  pub iota_ref : Text
  pub island_name : Text
  pub contest_id : Text
  pub stx : Text
  pub stx_string : Text
  pub srx : Text
  pub srx_string : Text
  pub time : Time
  pub time_off : Time
  pub profile_id : ℕ
  pub unscored : Bool
  pub my_grid_square : Text
  pub my_iota_ref : Text
  pub station_callsign : Text
  pub operator_name : Text
  pub my_rig : Text
  pub my_antenna : Text
  pub tx_power : Text

-- `qsoPointCategory`
pub data Category : Type 0 where
  unknown same_country same_continent other_continent special : Category

-- `iotaPointCategory`
pub data IotaCategory : Type 0 where
  unknown island_works_world island_works_same_reference : IotaCategory
  island_works_other_island world_works_world world_works_island : IotaCategory

pub record MultiplierRule : Type 0 where
  pub kind : Text
  pub per : Text

pub record IotaPointsRule : Type 0 where
  pub island_works_world : ℕ
  pub island_works_same_reference : ℕ
  pub island_works_other_island : ℕ
  pub world_works_world : ℕ
  pub world_works_island : ℕ

pub record ZonePointsRule : Type 0 where
  pub same_zone : ℕ
  pub same_continent_different_zone : ℕ
  pub other_continent : ℕ
  pub special : ℕ

-- `Distance` is its only field `PerKm`.
pub record PointsRule : Type 0 where
  pub same_country : ℕ
  pub same_continent : ℕ
  pub other_continent : ℕ
  pub same_continent_overrides : List (Text × ℕ)
  pub low_band_same_continent : ℕ
  pub low_band_other_continent : ℕ
  pub low_band_same_continent_overrides : List (Text × ℕ)
  pub country_group : List Text
  pub group_points : ℕ
  pub low_band_group_points : ℕ
  pub zone : Option ZonePointsRule
  pub distance : Option ℕ
  pub per_band : List (Text × ℕ)
  pub iota : Option IotaPointsRule

pub record ScoringRules : Type 0 where
  pub points_per_qso : ℕ
  pub multiplier : Text
  pub multipliers : List MultiplierRule
  pub points : Option PointsRule

-- The fields of `eventDefinition` that the scorer reads. `qso_party` tells whether the event has
-- QSO party rules.
pub record Event : Type 0 where
  pub dupe_scope : Text
  pub county_options : List Text
  pub qso_party : Bool
  pub received_exchange_autofill : Text
  pub received_exchange_autofill_domestic : List Text

pub data TextKind : Type 0 where
  prefix exchange_area county tn_county canton oblast dok_district iota : TextKind
  naqp_area sst_area arrl_section iaru_hq sac_area wae_country dxcc_or_wae : TextKind

pub data NumberKind : Type 0 where
  iaru_zone dxcc cqzone ituzone dxcc_non_wae : NumberKind

abbrev pub text_index : TextKind → ℕ
text_index prefix = 0
text_index exchange_area = 1
text_index county = 2
text_index tn_county = 3
text_index canton = 4
text_index oblast = 5
text_index dok_district = 6
text_index iota = 7
text_index naqp_area = 8
text_index sst_area = 9
text_index arrl_section = 10
text_index iaru_hq = 11
text_index sac_area = 12
text_index wae_country = 13
text_index dxcc_or_wae = 14

abbrev pub number_index : NumberKind → ℕ
number_index iaru_zone = 0
number_index dxcc = 1
number_index cqzone = 2
number_index ituzone = 3
number_index dxcc_non_wae = 4

-- One multiplier's sets: `xByBand` and `xAll`.
pub record Mults (A : Type 0) : Type 0 where
  pub by_band : List (Text × List A)
  pub all : List A

abbrev pub no_mults : {A : Type 0} → Mults A
no_mults = record { by_band = []; all = [] }

pub record ContestState : Type 0 where
  pub party_qsos : List Qso
  pub party_category : Text
  pub party_power : Text
  pub party_station_call : Text
  pub event : Event
  pub by_call : List (Text × List Qso)
  pub worked_call_band : List Text
  pub unique_calls : List Text
  pub scored_call_band : List Text
  pub scored_unique_calls : List Text
  pub times : List Time
  pub continent_band : List (Text × List (Text × ℕ))
  pub texts : TextKind → Mults Text
  pub numbers : NumberKind → Mults ℕ
  pub point_category_country : List (Text × Text)
  pub station_dxcc_number : ℕ
  pub station_continent : Text
  pub station_resolved : Bool
  pub point_category : List (Text × Category)
  pub point_category_continent : List (Text × Text)
  pub station_itu_zone : ℕ
  pub station_zone_resolved : Bool
  pub point_category_zone : List (Text × Category)
  pub distance_km_by_key : List (Text × ℕ)
  pub point_category_iota : List (Text × IotaCategory)

abbrev pub no_event : Event
no_event = record {
  dupe_scope = [];
  county_options = [];
  qso_party = false;
  received_exchange_autofill = [];
  received_exchange_autofill_domestic = [];
}

unfoldable pub new_contest_state : ContestState
new_contest_state = record {
  party_qsos = [];
  party_category = [];
  party_power = [];
  party_station_call = [];
  event = no_event;
  by_call = [];
  worked_call_band = [];
  unique_calls = [];
  scored_call_band = [];
  scored_unique_calls = [];
  times = [];
  continent_band = [];
  texts = λ k. no_mults;
  numbers = λ k. no_mults;
  point_category_country = [];
  station_dxcc_number = 0;
  station_continent = [];
  station_resolved = false;
  point_category = [];
  point_category_continent = [];
  station_itu_zone = 0;
  station_zone_resolved = false;
  point_category_zone = [];
  distance_km_by_key = [];
  point_category_iota = [];
}
