-- ===== src/Validation.antt =====
-- qso_validation.go, bandplan.go and the grammar of grid.go: what a QSO must be before it is stored.
-- `float64` and `strconv.ParseFloat` are arguments; a constant of the source is its text.
pub mod Checks
pub mod Storable
pub mod Stored
use w4gns_logger4men.Base.{
  ℕ, ◌+◌, Bool, true, false, not, ◌&&◌, ◌||◌, Option, none, some, List, [], ◌∷◌, ltb, leb, nat_beq,
  if◌then◌else◌, length,
}
use w4gns_logger4men.Text.{Text, codes, within, is_empty, to_upper, trim_space, equal_fold}
use w4gns_logger4men.Contest.Types.{Qso}

-- `float64`, as far as the band plan compares frequencies: `parse_float` finds no number where
-- `strconv.ParseFloat` fails and where the value is NaN or infinite.
pub record Floats : Type 1 where
  pub Float : Type 0
  pub parse_float : Text → Option Float
  pub constant : Text → Float
  pub is_below : Float → Float → Bool
  pub thousandth : Float → Float

-- A row of `amateurBands`.
pub record Allocation : Type 0 where
  pub name : Text
  pub low_mhz : Text
  pub high_mhz : Text
  pub default_mhz : Text
  pub cw_upper_mhz : Text

abbrev allocation : Text → Text → Text → Text → Text → Allocation
allocation name low high default upper = record {
  name = name;
  low_mhz = low;
  high_mhz = high;
  default_mhz = default;
  cw_upper_mhz = upper;
}

-- `amateurBands`
unfoldable pub amateur_bands : List Allocation
amateur_bands =
    allocation (codes "160M") (codes "1.800") (codes "2.000") (codes "1.810") (codes "1.840")
    ∷ allocation (codes "80M") (codes "3.500") (codes "4.000") (codes "3.550") (codes "3.600")
    ∷ allocation (codes "60M") (codes "5.3515") (codes "5.3665") (codes "5.354") (codes "5.3665")
    ∷ allocation (codes "40M") (codes "7.000") (codes "7.300") (codes "7.025") (codes "7.125")
    ∷ allocation (codes "30M") (codes "10.100") (codes "10.150") (codes "10.110") (codes "10.150")
    ∷ allocation (codes "20M") (codes "14.000") (codes "14.350") (codes "14.025") (codes "14.150")
    ∷ allocation (codes "17M") (codes "18.068") (codes "18.168") (codes "18.080") (codes "18.110")
    ∷ allocation (codes "15M") (codes "21.000") (codes "21.450") (codes "21.025") (codes "21.200")
    ∷ allocation (codes "12M") (codes "24.890") (codes "24.990") (codes "24.905") (codes "24.930")
    ∷ allocation (codes "10M") (codes "28.000") (codes "29.700") (codes "28.025") (codes "28.300")
    ∷ allocation (codes "6M") (codes "50.000") (codes "54.000") (codes "50.090") (codes "54.000")
    ∷ []

unfoldable pub find_band : Text → List Allocation → Option Allocation
unfolding equal_fold trim_space
find_band name [] = none
find_band name (b ∷ bs) = if equal_fold (trim_space name) b.name then some b else find_band name bs

-- `bandIndex`, with the row in place of its index.
unfoldable pub band_row : Text → Option Allocation
unfolding find_band amateur_bands
band_row name = find_band name amateur_bands

-- `bandAllowed`
unfoldable pub band_allowed : List Text → Text → Bool
unfolding equal_fold trim_space
band_allowed [] band = false
band_allowed (candidate ∷ allowed) band =
    equal_fold (trim_space candidate) band || band_allowed allowed band

pub data QsoError : Type 0 where
  no_call bad_call bad_station_call no_band bad_band bad_frequency out_of_band : QsoError
  bad_grid not_cw no_time no_end_time ends_early : QsoError

module _ (fl : Floats) where
  -- `isLikelyCWFrequency`
  unfoldable pub is_likely_cw_frequency : Text → fl.Float → Bool
  unfolding band_row
  is_likely_cw_frequency band mhz = elim (band_row band) [
    | none ↦ false
    | some b ↦
        not (fl.is_below mhz (fl.constant b.low_mhz))
        && not (fl.is_below (fl.constant b.cw_upper_mhz) mhz)
  ]

  unfoldable pub check_range : Allocation → Option fl.Float → Option QsoError
  check_range b none = some bad_frequency
  check_range b (some value) =
      if not (fl.is_below (fl.constant (codes "0")) value)
      then some bad_frequency
      else if fl.is_below value (fl.constant b.low_mhz)
          || fl.is_below (fl.constant b.high_mhz) value
      then some out_of_band
      else none

  -- `validateBandFrequency`
  unfoldable pub validate_band_frequency : Text → Text → Option QsoError
  unfolding band_row check_range trim_space
  validate_band_frequency band frequency = elim (band_row band) [
    | none ↦ some bad_band
    | some b ↦ check_range b (fl.parse_float (trim_space frequency))
  ]

-- A letter, a digit or "/".
abbrev pub is_call_char : ℕ → Bool
is_call_char c = within b'A' b'Z' c || within b'a' b'z' c || within b'0' b'9' c || nat_beq c b'/'

unfoldable pub all_call_chars : Text → Bool
all_call_chars [] = true
all_call_chars (c ∷ s) = is_call_char c && all_call_chars s

-- `validateCallsignChars`; `true` where it returns no error.
unfoldable pub valid_callsign_chars : Text → Bool
unfolding all_call_chars
valid_callsign_chars call = leb (length call) 20 && all_call_chars call

abbrev field_pair : ℕ → ℕ → ℕ → ℕ → Bool
field_pair low high a b = within low high a && within low high b

-- The pairs behind the field, which are digits and letters in turn.
unfoldable pub grid_pairs : Bool → Text → Bool
grid_pairs digits [] = true
grid_pairs digits (a ∷ []) = false
grid_pairs digits (a ∷ b ∷ s) =
    (if digits then field_pair b'0' b'9' a b else field_pair b'A' b'X' a b)
    && grid_pairs (not digits) s

unfoldable pub grid_field : Text → Bool
unfolding grid_pairs
grid_field [] = false
grid_field (a ∷ []) = false
grid_field (a ∷ b ∷ s) = field_pair b'A' b'R' a b && grid_pairs true s

-- `ParseGridSquare`; `true` where it returns no error.
unfoldable pub is_grid_square : Text → Bool
unfolding grid_field to_upper trim_space
is_grid_square locator =
    let grid = to_upper (trim_space locator) in leb (length grid) 10 && grid_field grid

abbrev first_error : Option QsoError → Option QsoError → Option QsoError
first_error none later = later
first_error (some e) later = some e

abbrev unless : Bool → QsoError → Option QsoError
unless true e = none
unless false e = some e

-- The checks of `validateQSO`, in its order; each one's text is without blanks around it.
unfoldable pub check_calls : Qso → Option QsoError
unfolding valid_callsign_chars trim_space
check_calls q =
    let station = trim_space q.station_callsign in
    first_error (unless (not (is_empty (trim_space q.call))) no_call) (
      first_error (unless (valid_callsign_chars (trim_space q.call)) bad_call)
        (unless (is_empty station || valid_callsign_chars station) bad_station_call))

abbrev has_band : Option Allocation → Bool
has_band none = false
has_band (some b) = true

unfoldable pub check_band : Floats → Qso → Option QsoError
unfolding validate_band_frequency band_row trim_space
check_band fl q = first_error (unless (not (is_empty (trim_space q.band))) no_band) (
    first_error (unless (has_band (band_row q.band)) bad_band) (
      if is_empty (trim_space q.frequency)
      then none
      else validate_band_frequency fl q.band q.frequency))

unfoldable pub check_times : Qso → Option QsoError
unfolding equal_fold trim_space
check_times q = first_error (unless (equal_fold (trim_space q.mode) (codes "CW")) not_cw) (
    first_error (unless (not (nat_beq q.time 0)) no_time) (
      first_error (unless (not (nat_beq q.time_off 0)) no_end_time)
        (unless (leb q.time q.time_off) ends_early)))

-- `validateQSO`
unfoldable pub validate_qso : Floats → Qso → Option QsoError
unfolding check_calls check_band check_times is_grid_square trim_space
validate_qso fl q = first_error (check_calls q) (
    first_error (check_band fl q) (
      first_error (unless (is_empty (trim_space q.grid) || is_grid_square q.grid) bad_grid)
        (check_times q)))
