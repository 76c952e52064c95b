-- ===== src/Validation/Stored.antt =====
-- `validateQSO` against the description of a stored QSO in Storable.
use w4gns_logger4men.Base.{
  ◌%◌, ◌≡◌, ◌↔◌, ◌⊎◌, inl, inr, refl, ap, ◌∙◌, sym, Bool, true, false, not, ◌||◌, ◌&&◌, Option,
  none, some, List, [], ◌∷◌, arith, leb, nat_beq, length, if◌then◌else◌,
}
use w4gns_logger4men.Text.{Text, upper_byte, codes, is_empty, to_upper, trim_space, equal_fold}
use w4gns_logger4men.Base.Eq.{list_beq}
use w4gns_logger4men.Contest.Types.{Qso}
use w4gns_logger4men.Validation.{
  Floats, Allocation, QsoError, all_call_chars, amateur_bands, find_band, band_row, has_band,
  valid_callsign_chars, is_grid_square, grid_field, grid_pairs, bad_band, bad_frequency,
  out_of_band, validate_qso, check_range, validate_band_frequency,
}
use w4gns_logger4men.Validation.Checks.{IsChecked, passes-IsChecked, IsChecked-passes}
use w4gns_logger4men.Validation.Storable.{
  AllCallChars, IsCall, band_edges, edges_of, IsFrequency, IsOnBand, locator_ranges, fits,
  IsLocator, IsStorable,
}

call_chars_lem : (s : Text) → (all_call_chars s ≡ true) ↔ AllCallChars s
unfolding all_call_chars
call_chars_lem [] = (λ h. tt, λ h. refl)
call_chars_lem (c ∷ s) =
    let h = call_chars_lem s in
    (λ p. (ground arith, h.0 (ground arith)), λ p. ground (arith, h.1 p.1, p.0))

is_call_lem : (s : Text) → is_empty s ≡ false → valid_callsign_chars s ≡ true → IsCall s
unfolding valid_callsign_chars
is_call_lem [] e h = cc
is_call_lem (c ∷ s) e h = (omega arith, ground arith, (call_chars_lem (c ∷ s)).0 (ground arith))

valid_of_call : (s : Text) → IsCall s → (is_empty s ≡ false) × (valid_callsign_chars s ≡ true)
unfolding valid_callsign_chars
valid_of_call [] h = absurd (omega arith)
valid_of_call (c ∷ s) h = let chars = (call_chars_lem (c ∷ s)).1 h.2 in (refl, ground arith)

grid_field_lem :
    (s : Text)
    → (leb (length s) 10 && grid_field s)
      ≡ (leb 2 (length s) && nat_beq (length s % 2) 0 && fits locator_ranges s)
unfolding grid_field grid_pairs fits
grid_field_lem [] = refl
grid_field_lem (a ∷ []) = ground arith
grid_field_lem (a ∷ b ∷ []) = ground arith
grid_field_lem (a ∷ b ∷ c ∷ []) = ground arith
grid_field_lem (a ∷ b ∷ c ∷ d ∷ []) = ground arith
grid_field_lem (a ∷ b ∷ c ∷ d ∷ e ∷ []) = ground arith
grid_field_lem (a ∷ b ∷ c ∷ d ∷ e ∷ f ∷ []) = ground arith
grid_field_lem (a ∷ b ∷ c ∷ d ∷ e ∷ f ∷ g ∷ []) = ground arith
grid_field_lem (a ∷ b ∷ c ∷ d ∷ e ∷ f ∷ g ∷ h ∷ []) = ground arith
grid_field_lem (a ∷ b ∷ c ∷ d ∷ e ∷ f ∷ g ∷ h ∷ i ∷ []) = ground arith
grid_field_lem (a ∷ b ∷ c ∷ d ∷ e ∷ f ∷ g ∷ h ∷ i ∷ j ∷ []) = ground arith
grid_field_lem (a ∷ b ∷ c ∷ d ∷ e ∷ f ∷ g ∷ h ∷ i ∷ j ∷ k ∷ s) = ground arith

blank_or : (s : Text) (P : Type 0) → (is_empty s ≡ false → P) → (s ≡ []) ⊎ P
blank_or [] P h = inl refl
blank_or (c ∷ s) P h = inr (h refl)

and_split : (a b : Bool) → (a && b) ≡ true → (a ≡ true) × (b ≡ true)
and_split a b h = ground arith

is_locator_lem : (s : Text) → (leb (length s) 10 && grid_field s) ≡ true → IsLocator s
is_locator_lem s h = let all = sym (grid_field_lem s) ∙ h in ground arith

locator_of : (s : Text) → IsLocator s → (leb (length s) 10 && grid_field s) ≡ true
locator_of s h = grid_field_lem s ∙ ground arith

grid_checked :
    (s : Text)
    → (is_empty (trim_space s) || is_grid_square s) ≡ true
    → (trim_space s ≡ []) ⊎ IsLocator (to_upper (trim_space s))
unfolding is_grid_square
grid_checked s h =
    blank_or (trim_space s) _ (λ full. is_locator_lem (to_upper (trim_space s)) (ground arith))

or_right : (a b : Bool) → b ≡ true → (a || b) ≡ true
or_right a b h = ground arith

grid_of :
    (s : Text)
    → (trim_space s ≡ []) ⊎ IsLocator (to_upper (trim_space s))
    → (is_empty (trim_space s) || is_grid_square s) ≡ true
unfolding is_grid_square
grid_of s (inl blank) = rw blank refl
grid_of s (inr h) = or_right (is_empty (trim_space s)) _ (locator_of (to_upper (trim_space s)) h)

station_checked : (s : Text) → (is_empty s || valid_callsign_chars s) ≡ true → (s ≡ []) ⊎ IsCall s
station_checked s h = blank_or s _ (λ full. is_call_lem s full (ground arith))

station_of : (s : Text) → (s ≡ []) ⊎ IsCall s → (is_empty s || valid_callsign_chars s) ≡ true
station_of s (inl blank) = rw blank refl
station_of s (inr h) = or_right (is_empty s) _ (valid_of_call s h).1

-- The names and edges of the rows of the band plan.
row_edges : List Allocation → List (Text × Text × Text)
row_edges [] = []
row_edges (b ∷ bs) = (b.name, b.low_mhz, b.high_mhz) ∷ row_edges bs

row_edges_lem : row_edges amateur_bands ≡ band_edges
unfolding row_edges amateur_bands
row_edges_lem = refl

ends : Option Allocation → Option (Text × Text)
ends none = none
ends (some b) = some (b.low_mhz, b.high_mhz)

ends_if :
    (t : Bool) (b : Allocation) (o : Option Allocation) (rest : Option (Text × Text))
    → rest ≡ ends o
    → (if t then some (b.low_mhz, b.high_mhz) else rest) ≡ ends (if t then some b else o)
unfolding ends
ends_if true b o rest h = refl
ends_if false b o rest h = h

edges_of_rows :
    (name : Text) (bs : List Allocation)
    → edges_of (trim_space name) (row_edges bs) ≡ ends (find_band name bs)
unfolding edges_of row_edges find_band ends
edges_of_rows name [] = refl
edges_of_rows name (b ∷ bs) =
    ends_if (equal_fold (trim_space name) b.name) b (find_band name bs) _ (edges_of_rows name bs)

edges_of_band : (name : Text) → edges_of (trim_space name) band_edges ≡ ends (band_row name)
unfolding band_row
edges_of_band name =
    ap (edges_of (trim_space name)) (sym row_edges_lem) ∙ edges_of_rows name amateur_bands

named_of_edges : (s : Text) (e : Text × Text) → edges_of s band_edges ≡ some e → is_empty s ≡ false
unfolding edges_of equal_fold to_upper upper_byte list_beq
named_of_edges [] e h = cc
named_of_edges (c ∷ s) e h = refl

range_if :
    (p low high : Bool)
    → (if not p then some bad_frequency else if low || high then some out_of_band else none) ≡ none
    → (p ≡ true) × (low ≡ false) × (high ≡ false)
range_if true false false h = (refl, refl, refl)
range_if true false true h = absurd (ground arith)
range_if true true high h = absurd (ground arith)
range_if false low high h = absurd (ground arith)

module _ (fl : Floats) (text : Text) (b : Allocation) where
  in_range :
      (o : Option fl.Float)
      → fl.parse_float text ≡ o
      → check_range fl b o ≡ none
      → IsFrequency fl (b.low_mhz, b.high_mhz) text
  unfolding check_range
  in_range none p h = absurd (ground arith)
  in_range (some value) p h =
      let r =
        range_if (fl.is_below (fl.constant (codes "0")) value)
          (fl.is_below value (fl.constant b.low_mhz)) (fl.is_below (fl.constant b.high_mhz) value)
          h in
      record { value = value; parsed = p; positive = r.0; above = r.1; below = r.2 }

  range_of :
      IsFrequency fl (b.low_mhz, b.high_mhz) text → check_range fl b (fl.parse_float text) ≡ none
  unfolding check_range
  range_of h = rw (h.parsed, h.positive, h.above, h.below) refl

blank_frequency :
    (s : Text) (o : Option QsoError) (P : Type 0)
    → (if is_empty s then none else o) ≡ none
    → (o ≡ none → P)
    → (is_empty s ≡ true) ⊎ P
blank_frequency [] o P h f = inl refl
blank_frequency (c ∷ s) o P h f = inr (f h)

module _ (fl : Floats) (q : Qso) where
  -- What `validateBandFrequency` checks once the band's row is known.
  abbrev FrequencyCheck : Option Allocation → Type 0
  FrequencyCheck row =
      (if is_empty (trim_space q.frequency) then none else elim row [
        | none ↦ some bad_band
        | some b ↦ check_range fl b (fl.parse_float (trim_space q.frequency))
      ])
      ≡ none

  on_band :
      (row : Option Allocation)
      → edges_of (trim_space q.band) band_edges ≡ ends row
      → has_band row ≡ true
      → FrequencyCheck row
      → IsOnBand fl (trim_space q.band) (trim_space q.frequency)
  unfolding ends
  on_band none same found h = absurd (ground arith)
  on_band (some b) same found h = record {
    edges = (b.low_mhz, b.high_mhz);
    edges_is = same;
    frequency_is =
        blank_frequency (trim_space q.frequency) _ _ h
          (in_range fl (trim_space q.frequency) b (fl.parse_float (trim_space q.frequency)) refl);
  }

  frequency_of :
      (b : Allocation) (text : Text)
      → (is_empty text ≡ true) ⊎ IsFrequency fl (b.low_mhz, b.high_mhz) text
      → (if is_empty text then none else check_range fl b (fl.parse_float text)) ≡ none
  frequency_of b text (inl blank) = rw blank refl
  frequency_of b text (inr h) = rw (range_of fl text b h) (either (is_empty text) none)
    where
      either : (b : Bool) (o : Option QsoError) → (if b then o else o) ≡ o
      either true o = refl
      either false o = refl

  off_band :
      (row : Option Allocation)
      → edges_of (trim_space q.band) band_edges ≡ ends row
      → IsOnBand fl (trim_space q.band) (trim_space q.frequency)
      → (has_band row ≡ true) × FrequencyCheck row
  unfolding ends
  off_band none same h =
      let same : none ≡ some h.edges = sym same ∙ h.edges_is in absurd (ground arith)
  off_band (some b) same h =
      let edges : (b.low_mhz, b.high_mhz) ≡ h.edges = some_inj (sym same ∙ h.edges_is) in
      (refl, frequency_of b (trim_space q.frequency) (rw edges h.frequency_is))
    where
      some_inj : {x y : Text × Text} → some x ≡ some y → x ≡ y
      some_inj h = cc

  storable : IsChecked fl q → IsStorable fl q
  unfolding validate_band_frequency
  storable h = record {
    call = is_call_lem (trim_space q.call) h.call h.call_chars;
    station = station_checked (trim_space q.station_callsign) h.station_chars;
    band = on_band (band_row q.band) (edges_of_band q.band) h.band h.frequency;
    grid = grid_checked q.grid h.grid;
    mode = h.mode;
    starts = h.starts;
    times = h.times;
  }

  checked : IsStorable fl q → IsChecked fl q
  unfolding validate_band_frequency
  checked h =
      let call = valid_of_call (trim_space q.call) h.call in
      let band = off_band (band_row q.band) (edges_of_band q.band) h.band in
      let starts = h.starts in
      let times = h.times in
      record {
        call = call.0;
        call_chars = call.1;
        station_chars = station_of (trim_space q.station_callsign) h.station;
        band_name = named_of_edges (trim_space q.band) h.band.edges h.band.edges_is;
        band = band.0;
        frequency = band.1;
        grid = grid_of q.grid h.grid;
        mode = h.mode;
        starts = starts;
        ends = omega arith;
        times = times;
      }

-- The checks of `validateQSO` pass exactly for a QSO for which, apart from blanks around each text:
-- the call has 1 to 20 letters, digits and "/", and so has the station's callsign where it is not
-- blank; the band is one of the eleven of the band plan, in any case, and the frequency is blank or
-- is read as a number above 0 that is neither below the band's lower edge nor above its upper one;
-- the grid is blank or, in capitals, one to five pairs of a Maidenhead locator; the mode is CW in
-- any case; and the start is set and not behind the end.
pub validate_qso-IsStorable : (fl : Floats) (q : Qso) → (validate_qso fl q ≡ none) ↔ IsStorable fl q
validate_qso-IsStorable fl q =
    (λ h. storable fl q (passes-IsChecked fl q h), λ h. IsChecked-passes fl q (checked fl q h))
