-- ===== src/Validation/Checks.antt =====
-- The single checks of `validateQSO` that a QSO passes.
use w4gns_logger4men.Base.{
  ◌≤◌, ◌≡◌, refl, Bool, true, false, not, ◌||◌, Option, none, some, arith, nat_beq, if◌then◌else◌,
}
use w4gns_logger4men.Text.{codes, is_empty, trim_space, equal_fold}
use w4gns_logger4men.Contest.Types.{Qso}
use w4gns_logger4men.Validation.{
  Floats, QsoError, no_call, bad_call, bad_station_call, no_band, bad_band, bad_grid, not_cw,
  no_time, no_end_time, ends_early, band_row, has_band, valid_callsign_chars, is_grid_square,
  check_calls, check_band, check_times, validate_qso, first_error, unless, validate_band_frequency,
}

-- Every check, as a truth value.
pub record IsChecked (fl : Floats) (q : Qso) : Type 0 where
  pub call : is_empty (trim_space q.call) ≡ false
  pub call_chars : valid_callsign_chars (trim_space q.call) ≡ true
  pub station_chars :
      (is_empty (trim_space q.station_callsign)
        || valid_callsign_chars (trim_space q.station_callsign))
      ≡ true
  pub band_name : is_empty (trim_space q.band) ≡ false
  pub band : has_band (band_row q.band) ≡ true
  pub frequency :
      (if is_empty (trim_space q.frequency)
        then none
        else validate_band_frequency fl q.band q.frequency)
      ≡ none
  pub grid : (is_empty (trim_space q.grid) || is_grid_square q.grid) ≡ true
  pub mode : equal_fold (trim_space q.mode) (codes "CW") ≡ true
  pub starts : 1 ≤ q.time
  pub ends : 1 ≤ q.time_off
  pub times : q.time ≤ q.time_off

first_error-none : (a b : Option QsoError) → first_error a b ≡ none → (a ≡ none) × (b ≡ none)
first_error-none none b h = (refl, h)
first_error-none (some e) b h = absurd (ground arith)

unless-none : (b : Bool) (e : QsoError) → unless b e ≡ none → b ≡ true
unless-none true e h = refl
unless-none false e h = absurd (ground arith)

none-first_error : (a b : Option QsoError) → a ≡ none → b ≡ none → first_error a b ≡ none
none-first_error none b p q = q
none-first_error (some e) b p q = absurd (ground arith)

none-unless : (b : Bool) (e : QsoError) → b ≡ true → unless b e ≡ none
none-unless true e h = refl
none-unless false e h = absurd (ground arith)

module _ (fl : Floats) (q : Qso) where
  checked :
      validate_qso fl q ≡ none
      → (check_calls q ≡ none)
        × (check_band fl q ≡ none)
        × ((is_empty (trim_space q.grid) || is_grid_square q.grid) ≡ true)
        × (check_times q ≡ none)
  unfolding validate_qso
  checked h =
      let a = first_error-none (check_calls q) _ h in
      let b = first_error-none (check_band fl q) _ a.1 in
      let c =
        first_error-none (unless (is_empty (trim_space q.grid) || is_grid_square q.grid) bad_grid) _
          b.1 in
      (a.0, b.0, unless-none _ bad_grid c.0, c.1)

  calls_checked :
      check_calls q ≡ none
      → (is_empty (trim_space q.call) ≡ false)
        × (valid_callsign_chars (trim_space q.call) ≡ true)
        × ((is_empty (trim_space q.station_callsign)
              || valid_callsign_chars (trim_space q.station_callsign))
            ≡ true)
  unfolding check_calls
  calls_checked h =
      let a = first_error-none (unless (not (is_empty (trim_space q.call))) no_call) _ h in
      let b = first_error-none (unless (valid_callsign_chars (trim_space q.call)) bad_call) _ a.1 in
      let here = unless-none _ no_call a.0 in
      (ground arith, unless-none _ bad_call b.0, unless-none _ bad_station_call b.1)

  band_checked :
      check_band fl q ≡ none
      → (is_empty (trim_space q.band) ≡ false)
        × (has_band (band_row q.band) ≡ true)
        × ((if is_empty (trim_space q.frequency)
              then none
              else validate_band_frequency fl q.band q.frequency)
            ≡ none)
  unfolding check_band
  band_checked h =
      let a = first_error-none (unless (not (is_empty (trim_space q.band))) no_band) _ h in
      let b = first_error-none (unless (has_band (band_row q.band)) bad_band) _ a.1 in
      let here = unless-none _ no_band a.0 in (ground arith, unless-none _ bad_band b.0, b.1)

  times_checked :
      check_times q ≡ none
      → (equal_fold (trim_space q.mode) (codes "CW") ≡ true)
        × (1 ≤ q.time)
        × (1 ≤ q.time_off)
        × (q.time ≤ q.time_off)
  unfolding check_times
  times_checked h =
      let a = first_error-none (unless (equal_fold (trim_space q.mode) (codes "CW")) not_cw) _ h in
      let b = first_error-none (unless (not (nat_beq q.time 0)) no_time) _ a.1 in
      let c = first_error-none (unless (not (nat_beq q.time_off 0)) no_end_time) _ b.1 in
      let starts = unless-none _ no_time b.0 in
      let ends = unless-none _ no_end_time c.0 in
      let order = unless-none _ ends_early c.1 in
      (unless-none _ not_cw a.0, ground arith, ground arith, ground arith)

  pub passes-IsChecked : validate_qso fl q ≡ none → IsChecked fl q
  passes-IsChecked h =
      let all = checked h in
      let calls = calls_checked all.0 in
      let band = band_checked all.1 in
      let times = times_checked all.3 in
      record {
        call = calls.0;
        call_chars = calls.1;
        station_chars = calls.2;
        band_name = band.0;
        band = band.1;
        frequency = band.2;
        grid = all.2;
        mode = times.0;
        starts = times.1;
        ends = times.2;
        times = times.3;
      }

  times_pass : IsChecked fl q → check_times q ≡ none
  unfolding check_times
  times_pass h =
      none-first_error (unless (equal_fold (trim_space q.mode) (codes "CW")) not_cw) _
        (none-unless _ not_cw h.mode)
        (none-first_error (unless (not (nat_beq q.time 0)) no_time) _
          (none-unless _ no_time (ground (arith, h.starts)))
          (none-first_error (unless (not (nat_beq q.time_off 0)) no_end_time) _
            (none-unless _ no_end_time (ground (arith, h.ends)))
            (none-unless _ ends_early (ground (arith, h.times)))))

  pub IsChecked-passes : IsChecked fl q → validate_qso fl q ≡ none
  unfolding validate_qso check_calls check_band check_times
  IsChecked-passes h =
      none-first_error (check_calls q) _
        (none-first_error (unless (not (is_empty (trim_space q.call))) no_call) _
          (none-unless _ no_call (ground arith))
          (none-first_error (unless (valid_callsign_chars (trim_space q.call)) bad_call) _
            (none-unless _ bad_call h.call_chars) (none-unless _ bad_station_call h.station_chars)))
        (none-first_error (check_band fl q) _
          (none-first_error (unless (not (is_empty (trim_space q.band))) no_band) _
            (none-unless _ no_band (ground arith))
            (none-first_error (unless (has_band (band_row q.band)) bad_band) _
              (none-unless _ bad_band h.band) h.frequency))
          (none-first_error
            (unless (is_empty (trim_space q.grid) || is_grid_square q.grid) bad_grid) _
            (none-unless _ bad_grid h.grid) (times_pass h)))
