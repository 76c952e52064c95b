-- ===== src/Validation/Storable.antt =====
-- What a stored QSO is, written without the tests of `validateQSO`.
use w4gns_logger4men.Base.{
  ℕ, ◌%◌, ◌≤◌, ◌≡◌, ◌⊎◌, Bool, true, false, ◌&&◌, Option, none, some, List, [], ◌∷◌, leb, length,
  if◌then◌else◌,
}
use w4gns_logger4men.Text.{Text, codes, is_empty, to_upper, trim_space, equal_fold}
use w4gns_logger4men.Contest.Types.{Qso}
use w4gns_logger4men.Validation.{Floats}

-- A letter, a digit or "/".
abbrev pub IsCallChar : ℕ → Type 0
IsCallChar c =
    ((b'A' ≤ c) × (c ≤ b'Z'))
    ⊎ (((b'a' ≤ c) × (c ≤ b'z')) ⊎ (((b'0' ≤ c) × (c ≤ b'9')) ⊎ (c ≡ b'/')))

abbrev pub AllCallChars : Text → Type 0
AllCallChars [] = Unit {0}
AllCallChars (c ∷ s) = IsCallChar c × AllCallChars s

-- One to twenty such characters.
abbrev pub IsCall : Text → Type 0
IsCall s = (1 ≤ length s) × (length s ≤ 20) × AllCallChars s

-- The bands with their edges in MHz.
abbrev pub band_edges : List (Text × Text × Text)
band_edges =
    (codes "160M", codes "1.800", codes "2.000")
    ∷ (codes "80M", codes "3.500", codes "4.000")
    ∷ (codes "60M", codes "5.3515", codes "5.3665")
    ∷ (codes "40M", codes "7.000", codes "7.300")
    ∷ (codes "30M", codes "10.100", codes "10.150")
    ∷ (codes "20M", codes "14.000", codes "14.350")
    ∷ (codes "17M", codes "18.068", codes "18.168")
    ∷ (codes "15M", codes "21.000", codes "21.450")
    ∷ (codes "12M", codes "24.890", codes "24.990")
    ∷ (codes "10M", codes "28.000", codes "29.700")
    ∷ (codes "6M", codes "50.000", codes "54.000")
    ∷ []

-- The edges of a band, by its name in any case.
unfoldable pub edges_of : Text → List (Text × Text × Text) → Option (Text × Text)
edges_of name [] = none
edges_of name (row ∷ rows) =
    let rest = edges_of name rows in if equal_fold name row.0 then some (row.1, row.2) else rest

-- A number above 0 that is not outside the edges.
pub record IsFrequency (fl : Floats) (edges : Text × Text) (text : Text) : Type 0 where
  pub value : fl.Float
  pub parsed : fl.parse_float text ≡ some value
  pub positive : fl.is_below (fl.constant (codes "0")) value ≡ true
  pub above : fl.is_below value (fl.constant edges.0) ≡ false
  pub below : fl.is_below (fl.constant edges.1) value ≡ false

-- A band of the plan, and a frequency in it or none.
pub record IsOnBand (fl : Floats) (band frequency : Text) : Type 0 where
  pub edges : Text × Text
  pub edges_is : edges_of band band_edges ≡ some edges
  pub frequency_is : (is_empty frequency ≡ true) ⊎ IsFrequency fl edges frequency

-- The characters of a Maidenhead locator of five pairs.
abbrev pub locator_ranges : List (ℕ × ℕ)
locator_ranges =
    (b'A', b'R')
    ∷ (b'A', b'R')
    ∷ (b'0', b'9')
    ∷ (b'0', b'9')
    ∷ (b'A', b'X')
    ∷ (b'A', b'X')
    ∷ (b'0', b'9')
    ∷ (b'0', b'9')
    ∷ (b'A', b'X')
    ∷ (b'A', b'X')
    ∷ []

-- Whether each character stands in its range, with no more characters than ranges.
unfoldable pub fits : List (ℕ × ℕ) → Text → Bool
fits ranges [] = true
fits [] (c ∷ s) = false
fits (range ∷ ranges) (c ∷ s) = leb range.0 c && leb c range.1 && fits ranges s

-- One to five pairs of these characters, in capitals.
abbrev pub IsLocator : Text → Type 0
IsLocator s = (2 ≤ length s) × (length s % 2 ≡ 0) × (fits locator_ranges s ≡ true)

-- What the program relies on in a stored QSO.
pub record IsStorable (fl : Floats) (q : Qso) : Type 0 where
  pub call : IsCall (trim_space q.call)
  pub station : (trim_space q.station_callsign ≡ []) ⊎ IsCall (trim_space q.station_callsign)
  pub band : IsOnBand fl (trim_space q.band) (trim_space q.frequency)
  pub grid : (trim_space q.grid ≡ []) ⊎ IsLocator (to_upper (trim_space q.grid))
  pub mode : equal_fold (trim_space q.mode) (codes "CW") ≡ true
  pub starts : 1 ≤ q.time
  pub times : q.time ≤ q.time_off
