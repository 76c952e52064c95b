-- ===== src/Party.antt =====
-- qso_party_rules.go: the state QSO parties. The country file is an argument: its lookup, and which
-- texts are prefixes that it lists.
pub mod Exchange
pub mod Credits
pub mod Score
use w4gns_logger4men.Base.{ℕ, Bool, false, List, [], ◌∷◌, Option, none, some}
use w4gns_logger4men.Text.{Text}
use w4gns_logger4men.Exchange.{Lookup}
use w4gns_logger4men.Contest.Types.{Time, Event}

-- `partyPeriod`
pub record Period : Type 0 where
  pub start : Time
  pub end : Time

-- `qsoPartyRules`
pub record PartyRules : Type 0 where
  pub periods : List Period
  pub state : Text
  pub exchange : Text
  pub county_line_max : ℕ
  pub county_as_state : Bool
  pub home_multipliers : List Text
  pub multiplier_per : Text
  pub multiplier_cap : ℕ
  pub points : ℕ
  pub bonus_call : Text
  pub bonus_points : ℕ
  pub mobile_county_minimum : ℕ
  pub mobile_county_bonus : ℕ
  pub mobile_county_multiplier : Bool
  pub area_aliases : List (Text × Text)
  pub outside_category : Text
  pub category_soapbox : Bool
  pub category_mode : Text
  pub power_factors : List (Text × ℕ)
  pub qso_only_calls : List Text

-- An event that has party rules.
pub record Party : Type 0 where
  pub event : Event
  pub bands : List Text
  pub rules : PartyRules

-- `sharedDXCCTable`: `lookup`, and whether `prefixByFirst` lists exactly this prefix.
pub record Countries : Type 0 where
  pub lookup : Lookup
  pub is_prefix : Text → Bool

-- `partyExchange`
pub record PartyExchange : Type 0 where
  pub serial : Text
  pub name : Text
  pub area : Text
  pub location : Text
  pub counties : List Text

pub data PartyError : Type 0 where
  not_printable bad_serial bad_name not_one_location too_many_counties : PartyError
  unknown_county no_prefix bad_location unknown_location : PartyError
