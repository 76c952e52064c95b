-- ===== src/Tests/Files.antt =====
-- A log of two records, written and read.
use w4gns_logger4men.Base.{◌≡◌, refl, true, [], ◌∷◌, arith, All}
use w4gns_logger4men.Text.{codes, is_space, to_upper, upper_byte, trim_space, trim_left, trim_right}
use w4gns_logger4men.Adif.{Fields, finished, parse_adi_records}
use w4gns_logger4men.Adif.Bounds.{IsLimited, parse_adi_records-IsLimited}
use w4gns_logger4men.Adif.Export.{
  digits, itoa, write_field, filled, write_fields, write_record, write_records, write_adif,
}
use w4gns_logger4men.Adif.RoundTrip.{collect, contents, IsRecord, parse_adi_records-write_adif}

files_run : Unit {0}
unfolding is_space to_upper upper_byte trim_space trim_left trim_right digits itoa write_field
    filled write_fields write_record write_records write_adif collect contents
files_run = tt

abbrev first_record : Fields
first_record =
    (codes "CALL", codes "W4GNS") ∷ (codes "NAME", codes " ") ∷ (codes "BAND", codes "20M") ∷ []

abbrev second_record : Fields
second_record = (codes "CALL", codes "DL1ABC") ∷ []

written : write_record first_record ≡ codes "<CALL:5>W4GNS<BAND:3>20M<EOR>\n"
unfolding files_run
written = refl

first_IsRecord : IsRecord first_record
unfolding files_run
first_IsRecord = record {
  some_field = omega arith;
  written = (
    record { plain = refl; upper = refl; short = omega arith },
    (record { plain = refl; upper = refl; short = omega arith }, tt),
  );
  few = omega arith;
  small = omega arith;
}

second_IsRecord : IsRecord second_record
unfolding files_run
second_IsRecord = record {
  some_field = omega arith;
  written = (record { plain = refl; upper = refl; short = omega arith }, tt);
  few = omega arith;
  small = omega arith;
}

parse_adi_records-write_adif_example :
    parse_adi_records (λ fields. true) (write_adif (first_record ∷ second_record ∷ []))
    ≡ (contents (first_record ∷ second_record ∷ []), finished)
parse_adi_records-write_adif_example =
    parse_adi_records-write_adif (first_record ∷ second_record ∷ [])
      (first_IsRecord, (second_IsRecord, tt))

parse_adi_records-IsLimited_example :
    All IsLimited (parse_adi_records (λ fields. true) (codes "<CALL:5>W4GNS<EOR>")).0
parse_adi_records-IsLimited_example =
    parse_adi_records-IsLimited (λ fields. true) (codes "<CALL:5>W4GNS<EOR>")
