-- ===== src/Adif/Export.antt =====
-- The writer of adif_export.go. A value is what `asciiField` makes of the QSO's, a text of ASCII; a
-- QSO is the list that `adifQSOFields` gives.
use Prim.Native.Nat.{◌/◌, ◌%◌}
use w4gns_logger4men.Base.{ℕ, zero, suc, ◌+◌, List, [], ◌∷◌, ◌++◌, ltb, if◌then◌else◌, length}
use w4gns_logger4men.Text.{Text, text_eq, codes, is_empty, trim_space}
use w4gns_logger4men.Adif.{Fields}
use w4gns_logger4men.Adif.{Fields}

-- `strconv.Itoa` and `%d`, on a number below the rounds.
unfoldable pub digits : ℕ → ℕ → Text
digits zero n = []
digits (suc rounds) n =
    let rest = digits rounds (n / 10) in
    if ltb n 10 then (b'0' + n) ∷ [] else rest ++ (b'0' + n % 10) ∷ []

unfoldable pub itoa : ℕ → Text
unfolding digits
itoa n = digits (suc n) n

-- `writeADIFField`
unfoldable pub write_field : Text → Text → Text
unfolding itoa
write_field name text = b'<' ∷ (name ++ b':' ∷ itoa (length text)) ++ b'>' ∷ text

-- The fields whose values `exportADIF` writes.
unfoldable pub filled : Fields → Fields
unfolding trim_space
filled [] = []
filled (f ∷ fs) = let rest = filled fs in if is_empty (trim_space f.1) then rest else f ∷ rest

unfoldable pub write_fields : Fields → Text
unfolding write_field
write_fields [] = []
write_fields (f ∷ fs) = write_field f.0 f.1 ++ write_fields fs

-- One round of the callback of `exportADIF`.
unfoldable pub write_record : Fields → Text
unfolding write_fields filled
write_record fs = write_fields (filled fs) ++ codes "<EOR>\n"

unfoldable pub write_records : List Fields → Text
unfolding write_record
write_records [] = []
write_records (r ∷ rs) = write_record r ++ write_records rs

-- The header and the records, as `exportADIF` writes them.
unfoldable pub write_adif : List Fields → Text
unfolding write_records
write_adif rs =
    codes "CW Logger ADIF export\n<ADIF_VER:5>3.1.7<PROGRAMID:9>CW Logger<EOH>\n"
    ++ write_records rs
