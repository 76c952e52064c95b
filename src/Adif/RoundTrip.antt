-- ===== src/Adif/RoundTrip.antt =====
-- A log that is written is read back.
use w4gns_logger4men.Base.{
  ℕ, suc, ◌+◌, ◌≤◌, ◌<◌, ◌≡◌, refl, ap, ◌∙◌, Bool, true, false, some, List, [], ◌∷◌, ◌++◌, arith,
  length, append_assoc, All,
}
use w4gns_logger4men.Base.Maps.{put}
use w4gns_logger4men.Text.{Text, text_eq, codes, to_upper, trim_space}
use w4gns_logger4men.Adif.{
  Fields, Ending, Mode, skipping, tag, value, State, go, start, finished, max_tag_length,
  max_field_bytes, max_fields_per_record, max_record_bytes, store_field, begin_value, end_record,
  on_tag, on_tag_byte, on_value_byte, begin_field, parse_adif_length, before_colon, after_colon,
  step, resume, hand_over, parse, parse_adi_records,
}
use w4gns_logger4men.Adif.Bounds.{field_bytes, length-put}
use w4gns_logger4men.Adif.Export.{
  itoa, write_field, filled, write_fields, write_record, write_records, write_adif,
}
use w4gns_logger4men.Adif.Lengths.{is_tag_text, is_tag_text-digits, is_solid-tag, trim_space-solid}
use w4gns_logger4men.Adif.Tags.{descriptor, has_close, on_tag-descriptor, parse-tag, parse-value}

-- A field that can be written and read.
pub record IsField (f : Text × Text) : Type 0 where
  pub plain : is_tag_text f.0 ≡ true
  pub upper : to_upper f.0 ≡ f.0
  pub short : length (descriptor f.0 (length f.1)) < max_tag_length

has_close-append :
    (s t : Text) → has_close s ≡ false → has_close t ≡ false → has_close (s ++ t) ≡ false
unfolding has_close
has_close-append [] t h k = k
has_close-append (c ∷ s) t h k = ground (arith, has_close-append s t)

has_close-tag : (s : Text) → is_tag_text s ≡ true → has_close s ≡ false
unfolding has_close
has_close-tag [] h = refl
has_close-tag (c ∷ s) h = ground (arith, has_close-tag s)

has_close-colon : (s : Text) → has_close s ≡ false → has_close (b':' ∷ s) ≡ false
unfolding has_close
has_close-colon s h = h

abbrev at : Fields → ℕ → State
at fields bytes = record { mode = skipping; fields = fields; record_bytes = bytes }

store_field-go :
    (name text : Text) (fields : Fields) (bytes : ℕ)
    → is_tag_text name ≡ true
    → to_upper name ≡ name
    → length fields < max_fields_per_record
    → bytes + length text ≤ max_record_bytes
    → store_field name text (at fields bytes) ≡ go (at (put name text fields) (bytes + length text))
unfolding store_field
store_field-go name text fields bytes plain upper few small =
    let same : to_upper (trim_space name) ≡ name =
      ap to_upper (trim_space-solid name (is_solid-tag name plain)) ∙ upper in
    rw same (ground arith)

begin_value-go :
    (name : Text) (n : ℕ) (s : State)
    → suc n ≤ max_field_bytes
    → begin_value name (some (suc n)) s ≡ go (record s { mode = value name (suc n) [] })
unfolding begin_value
begin_value-go name n s h = ground arith

module _ (accept : Fields → Bool) (rest : Text) (name : Text) (fields : Fields) (bytes : ℕ) where
  -- The loop behind a field's tag.
  parse-begin :
      (text : Text) (m : Mode)
      → bytes + length text ≤ max_record_bytes
      → resume accept
          (λ next. parse accept next (text ++ rest))
          (begin_value name
            (some (length text))
            (record { mode = m; fields = fields; record_bytes = bytes }))
        ≡ resume accept (λ next. parse accept next rest) (store_field name text (at fields bytes))
  unfolding begin_value store_field resume
  parse-begin [] m small = refl
  parse-begin (c ∷ text) m small =
      ap (resume accept (λ next. parse accept next ((c ∷ text) ++ rest))) (
        begin_value-go name (length text)
          (record { mode = m; fields = fields; record_bytes = bytes }) (ground arith))
      ∙ parse-value accept name c text rest [] fields bytes

-- The loop over a field that was written.
parse-write_field :
    (accept : Fields → Bool) (f : Text × Text) (rest : Text) (fields : Fields) (bytes : ℕ)
    → IsField f
    → length fields < max_fields_per_record
    → bytes + length f.1 ≤ max_record_bytes
    → parse accept (at fields bytes) (write_field f.0 f.1 ++ rest)
      ≡ parse accept (at (put f.0 f.1 fields) (bytes + length f.1)) rest
unfolding parse step resume
parse-write_field accept f rest fields bytes h few small =
    let name = f.0 in
    let text = f.1 in
    let d = descriptor name (length text) in
    let layout : write_field name text ++ rest ≡ b'<' ∷ d ++ b'>' ∷ (text ++ rest) =
      unfold write_field in ap (λ l. b'<' ∷ l) (append_assoc d (b'>' ∷ text) rest) in
    ap (parse accept (at fields bytes)) layout
    ∙ parse-tag accept d (text ++ rest) [] fields bytes
        (has_close-append name (b':' ∷ itoa (length text)) (has_close-tag name h.plain) (
          has_close-colon (itoa (length text)) (
            has_close-tag (itoa (length text))
              (unfold itoa in is_tag_text-digits (suc (length text)) (length text)))))
        (omega (arith, h.short))
    ∙ ap (resume accept (λ next. parse accept next (text ++ rest))) (
        on_tag-descriptor name (length text) h.plain
          (record { mode = tag d; fields = fields; record_bytes = bytes }) (ground arith))
    ∙ parse-begin accept rest name fields bytes text (tag d) small
    ∙ ap (resume accept (λ next. parse accept next rest))
        (store_field-go name text fields bytes h.plain h.upper few small)

-- The map of the fields behind those of `acc`: a name that comes again replaces its value.
unfoldable pub collect : Fields → Fields → Fields
unfolding put
collect acc [] = acc
collect acc (f ∷ fs) = collect (put f.0 f.1 acc) fs

parse-write_fields :
    (accept : Fields → Bool) (fs : Fields) (rest : Text) (acc : Fields) (bytes : ℕ)
    → All IsField fs
    → length acc + length fs ≤ max_fields_per_record
    → bytes + field_bytes fs ≤ max_record_bytes
    → parse accept (at acc bytes) (write_fields fs ++ rest)
      ≡ parse accept (at (collect acc fs) (bytes + field_bytes fs)) rest
unfolding write_fields collect
parse-write_fields accept [] rest acc bytes h few small =
    ap (λ b. parse accept (at acc b) rest) (omega arith)
parse-write_fields accept (f ∷ fs) rest acc bytes (h, hs) few small =
    ap (parse accept (at acc bytes)) (append_assoc (write_field f.0 f.1) (write_fields fs) rest)
    ∙ parse-write_field accept f (write_fields fs ++ rest) acc bytes h (omega arith) (omega arith)
    ∙ parse-write_fields accept fs rest (put f.0 f.1 acc) (bytes + length f.1) hs
        (omega (arith, length-put f.0 f.1 acc)) (omega arith)
    ∙ ap (λ b. parse accept (at (collect (put f.0 f.1 acc) fs) b) rest) (omega arith)

put_some : (k v : Text) (acc : Fields) → 1 ≤ length (put k v acc)
unfolding put
put_some k v [] = omega arith
put_some k v ((j, w) ∷ acc) = ground arith

collect_some : (fs acc : Fields) → 1 ≤ length acc + length fs → 1 ≤ length (collect acc fs)
unfolding collect
collect_some [] acc h = omega arith
collect_some (f ∷ fs) acc h =
    collect_some fs (put f.0 f.1 acc) (omega (arith, put_some f.0 f.1 acc))

abbrev every : Fields → Bool
every fields = true

-- The end of a record that has fields.
parse-end :
    (fields : Fields) (bytes : ℕ) (rest : Text)
    → 1 ≤ length fields
    → parse every (at fields bytes) (codes "<EOR>\n" ++ rest)
      ≡ (fields ∷ (parse every start rest).0, (parse every start rest).1)
unfolding parse step on_tag_byte on_tag end_record resume hand_over
parse-end [] bytes rest h = absurd (omega arith)
parse-end (f ∷ fs) bytes rest h = refl

-- A record that fits the parser's limits, and has a field that is not blank.
pub record IsRecord (fs : Fields) : Type 0 where
  pub some_field : 1 ≤ length (filled fs)
  pub written : All IsField (filled fs)
  pub few : length (filled fs) ≤ max_fields_per_record
  pub small : field_bytes (filled fs) ≤ max_record_bytes

parse-write_record :
    (fs : Fields) (rest : Text)
    → IsRecord fs
    → parse every start (write_record fs ++ rest)
      ≡ (collect [] (filled fs) ∷ (parse every start rest).0, (parse every start rest).1)
unfolding write_record
parse-write_record fs rest h =
    ap (parse every start) (append_assoc (write_fields (filled fs)) (codes "<EOR>\n") rest)
    ∙ parse-write_fields every (filled fs) (codes "<EOR>\n" ++ rest) [] 0 h.written
        (omega (arith, h.few)) (omega (arith, h.small))
    ∙ parse-end (collect [] (filled fs)) (0 + field_bytes (filled fs)) rest
        (collect_some (filled fs) [] (omega (arith, h.some_field)))

-- The maps that the fields of the records make.
unfoldable pub contents : List Fields → List Fields
unfolding collect filled
contents [] = []
contents (fs ∷ rs) = collect [] (filled fs) ∷ contents rs

parse-header :
    (rest : Text)
    → parse every start
        (codes "CW Logger ADIF export\n<ADIF_VER:5>3.1.7<PROGRAMID:9>CW Logger<EOH>\n" ++ rest)
      ≡ parse every start rest
unfolding parse step on_tag_byte on_value_byte on_tag begin_field begin_value parse_adif_length
    before_colon after_colon store_field resume
parse-header rest = refl

parse-write_records :
    (rs : List Fields)
    → All IsRecord rs
    → parse every start (write_records rs) ≡ (contents rs, finished)
unfolding write_records contents
parse-write_records [] h = unfold parse in refl
parse-write_records (fs ∷ rs) (h, hs) =
    parse-write_record fs (write_records rs) h
    ∙ ap (λ (x : List Fields × Ending). (collect [] (filled fs) ∷ x.0, x.1))
        (parse-write_records rs hs)

-- Whatever is exported is imported: the parser hands over, for each record that the export writes,
-- the map of its fields that are not blank, in order, and ends without an error; for records with
-- such a field, within the parser's limits, whose names are written in capitals without brackets,
-- colons or white space.
pub parse_adi_records-write_adif :
    (rs : List Fields)
    → All IsRecord rs
    → parse_adi_records (λ fields. true) (write_adif rs) ≡ (contents rs, finished)
unfolding parse_adi_records write_adif
parse_adi_records-write_adif rs h = parse-header (write_records rs) ∙ parse-write_records rs h
