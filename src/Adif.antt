-- ===== src/Adif.antt =====
-- The streaming parser of adif_import.go. It reads a byte at a time, so its place in the loop is a
-- state: between tags, in a tag, or in a value. `accept` stands for the callback `onRecord`, `true`
-- where it returns no error. A text that ends is a reader at its end; a reader's own errors are not
-- modelled.
pub mod Bounds
pub mod Export
pub mod Lengths
pub mod Tags
pub mod RoundTrip
use w4gns_logger4men.Base.{
  ℕ, zero, suc, ◌+◌, ◌-◌, ◌≡◌, refl, Bool, true, false, not, ◌&&◌, ◌||◌, Option, none, some, List,
  [], ◌∷◌, ◌++◌, ltb, leb, nat_beq, if◌then◌else◌, length,
}
use w4gns_logger4men.Base.Eq.{◌==◌, list_beq}
use w4gns_logger4men.Base.Maps.{put}
use w4gns_logger4men.Text.{Text, text_eq, codes, to_upper, trim_space}
use w4gns_logger4men.Text.Numeral.{ℤ, pos, negsuc, atoi}

abbrev pub max_tag_length : ℕ
max_tag_length = 256

abbrev pub max_field_bytes : ℕ
max_field_bytes = 1_048_576

abbrev pub max_fields_per_record : ℕ
max_fields_per_record = 2000

abbrev pub max_record_bytes : ℕ
max_record_bytes = 1_048_576

-- A record: a map from the fields' names to their values.
abbrev pub Fields : Type 0
Fields = List (Text × Text)

-- Why the parser stopped.
pub data Ending : Type 0 where
  finished unterminated bad_tag bad_descriptor bad_length long_field short_field : Ending
  many_fields big_record refused : Ending

-- `value name left read`: `left` bytes are still to be read behind `read`.
pub data Mode : Type 0 where
  skipping : Mode
  tag : Text → Mode
  value : Text → ℕ → Text → Mode

pub record State : Type 0 where
  pub mode : Mode
  pub fields : Fields
  pub record_bytes : ℕ

-- What one byte leads to: the next state, a record for the callback, or the end.
pub data Step : Type 0 where
  go : State → Step
  hand : Fields → Step
  stop : Ending → Step

abbrev pub start : State
start = record { mode = skipping; fields = []; record_bytes = 0 }

unfoldable pub natural : Option ℤ → Option ℕ
natural none = none
natural (some (pos n)) = some n
natural (some (negsuc n)) = none

-- `parseADIFLength`
unfoldable pub parse_adif_length : Text → Option ℕ
unfolding trim_space atoi natural
parse_adif_length s = natural (atoi (trim_space s))

-- `parts[0]` of `strings.Split(descriptor, ":")`
unfoldable pub before_colon : Text → Text
before_colon [] = []
before_colon (c ∷ s) = let rest = before_colon s in if nat_beq c b':' then [] else c ∷ rest

-- What stands behind the first colon, if there is one.
unfoldable pub after_colon : Text → Option Text
after_colon [] = none
after_colon (c ∷ s) = let rest = after_colon s in if nat_beq c b':' then some s else rest

-- A field with its whole value.
unfoldable pub store_field : Text → Text → State → Step
unfolding put to_upper trim_space list_beq
store_field name text s =
    let bytes = s.record_bytes + length text in
    if leb max_fields_per_record (length s.fields)
    then stop many_fields
    else if ltb max_record_bytes bytes
    then stop big_record
    else go (record {
      mode = skipping;
      fields = put (to_upper (trim_space name)) text s.fields;
      record_bytes = bytes;
    })

unfoldable pub begin_value : Text → Option ℕ → State → Step
unfolding store_field
begin_value name none s = stop bad_length
begin_value name (some zero) s = store_field name [] s
begin_value name (some (suc n)) s =
    if ltb max_field_bytes (suc n)
    then stop long_field
    else go (record s { mode = value name (suc n) [] })

unfoldable pub begin_field : Text → Option Text → State → Step
unfolding begin_value parse_adif_length before_colon
begin_field descriptor none s = stop bad_descriptor
begin_field descriptor (some rest) s =
    begin_value (before_colon descriptor) (parse_adif_length (before_colon rest)) s

-- `<EOR>`: a record without fields is passed over.
unfoldable pub end_record : Fields → State → Step
end_record [] s = go (record s { mode = skipping })
end_record (f ∷ fs) s = hand (f ∷ fs)

-- A whole tag, without its angle brackets.
unfoldable pub on_tag : Text → State → Step
unfolding begin_field end_record after_colon to_upper trim_space list_beq
on_tag text s =
    let descriptor = trim_space text in
    let known = to_upper descriptor in
    if known == codes "EOH"
    then go start
    else if known == codes "EOR"
    then end_record s.fields s
    else begin_field descriptor (after_colon descriptor) s

-- One byte of `readUntil`.
unfoldable pub on_tag_byte : Text → ℕ → State → Step
unfolding on_tag
on_tag_byte text c s =
    if nat_beq c b'>'
    then on_tag text s
    else if leb max_tag_length (length text + 1)
    then stop bad_tag
    else go (record s { mode = tag (text ++ c ∷ []) })

-- One byte of `io.ReadFull`, with those that are left behind it.
unfoldable pub on_value_byte : Text → ℕ → Text → ℕ → State → Step
unfolding store_field
on_value_byte name zero text c s = store_field name (text ++ c ∷ []) s
on_value_byte name (suc n) text c s = go (record s { mode = value name (suc n) (text ++ c ∷ []) })

unfoldable pub step : Mode → ℕ → State → Step
unfolding on_tag_byte on_value_byte
step skipping c s = if nat_beq c b'<' then go (record s { mode = tag [] }) else go s
step (tag text) c s = on_tag_byte text c s
step (value name left text) c s = on_value_byte name (left - 1) text c s

-- The reader is at its end.
unfoldable pub at_end : Mode → Fields → Ending
at_end skipping [] = finished
at_end skipping (f ∷ fs) = unterminated
at_end (tag text) fs = bad_tag
at_end (value name left text) fs = short_field

-- The callback has answered for the record; `rest` is what follows if it took it.
unfoldable pub hand_over : Bool → Fields → List Fields × Ending → List Fields × Ending
hand_over true fields rest = (fields ∷ rest.0, rest.1)
hand_over false fields rest = (fields ∷ [], refused)

-- What the loop does with a step, where `run` is the rest of the loop.
unfoldable pub resume :
    (Fields → Bool) → (State → List Fields × Ending) → Step → List Fields × Ending
unfolding hand_over
resume accept run (go s) = run s
resume accept run (hand fields) = hand_over (accept fields) fields (run start)
resume accept run (stop ending) = ([], ending)

-- The records that the callback was given, in order, and how the parser ended.
unfoldable pub parse : (Fields → Bool) → State → Text → List Fields × Ending
unfolding resume step at_end
parse accept s [] = ([], at_end s.mode s.fields)
parse accept s (c ∷ text) = resume accept (λ next. parse accept next text) (step s.mode c s)

-- `parseADIRecords`
unfoldable pub parse_adi_records : (Fields → Bool) → Text → List Fields × Ending
unfolding parse
parse_adi_records accept text = parse accept start text

parse_test :
    parse_adi_records
      (λ r. true)
      (codes "x<adif_ver:5>3.1.7<EOH>\n<call:5>W4GNS<Band:3:S>20M <eor><QTH:0><EOR>")
    ≡ (
      ((codes "CALL", codes "W4GNS") ∷ (codes "BAND", codes "20M") ∷ [])
          ∷ ((codes "QTH", []) ∷ [])
          ∷ [],
      finished,
    )
unfolding parse_adi_records
parse_test = refl
