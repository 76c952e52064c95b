-- ===== src/Adif/Bounds.antt =====
-- What the limits of the ADIF parser guarantee to the callback and to the buffers.
use w4gns_logger4men.Base.{
  ℕ, zero, suc, ◌+◌, ◌-◌, ◌≤◌, ◌<◌, ◌≡◌, refl, Bool, true, false, Option, none, some, List, [], ◌∷◌,
  ◌++◌, arith, ltb, leb, nat_beq, if◌then◌else◌, length, length-append, All,
}
use w4gns_logger4men.Base.Eq.{◌==◌}
use w4gns_logger4men.Base.Maps.{put}
use w4gns_logger4men.Text.{Text, text_eq, to_upper, trim_space, codes}
use w4gns_logger4men.Adif.{
  Fields, Ending, Mode, skipping, tag, value, State, Step, go, hand, stop, start, max_tag_length,
  max_field_bytes, max_fields_per_record, max_record_bytes, parse_adif_length, store_field,
  begin_value, begin_field, end_record, on_tag, on_tag_byte, on_value_byte, step, hand_over, resume,
  parse, parse_adi_records, before_colon, after_colon,
}

-- The bytes of a record's values.
abbrev pub field_bytes : Fields → ℕ
field_bytes [] = 0
field_bytes (f ∷ fs) = length f.1 + field_bytes fs

pub length-put : (k v : Text) (fs : Fields) → length (put k v fs) ≤ length fs + 1
unfolding put
length-put k v [] = ground arith
length-put k v ((j, w) ∷ fs) = ground (arith, length-put k v fs)

pub field_bytes-put :
    (k v : Text) (fs : Fields) → field_bytes (put k v fs) ≤ field_bytes fs + length v
unfolding put
field_bytes-put k v [] = ground arith
field_bytes-put k v ((j, w) ∷ fs) = ground (arith, field_bytes-put k v fs)

-- A record within the limits, and so many bytes counted for it.
abbrev pub IsWithin : Fields → ℕ → Type 0
IsWithin fs bytes =
    (length fs ≤ max_fields_per_record) × (field_bytes fs ≤ bytes) × (bytes ≤ max_record_bytes)

-- A buffer within the limits.
abbrev pub IsSmall : Mode → Type 0
IsSmall skipping = Unit
IsSmall (tag text) = length text < max_tag_length
IsSmall (value name left text) = (1 ≤ left) × (length text + left ≤ max_field_bytes)

abbrev pub IsBounded : State → Type 0
IsBounded s = IsSmall s.mode × IsWithin s.fields s.record_bytes

-- What a step may lead to.
abbrev pub IsFine : Step → Type 0
IsFine (go s) = IsBounded s
IsFine (hand fs) = IsWithin fs max_record_bytes
IsFine (stop e) = Unit

IsFine-if : (b : Bool) (x y : Step) → IsFine x → IsFine y → IsFine (if b then x else y)
IsFine-if true x y h k = h
IsFine-if false x y h k = k

-- As `IsFine-if`, where the second branch knows that the test failed.
IsFine-else :
    (b : Bool) (x y : Step) → IsFine x → (b ≡ false → IsFine y) → IsFine (if b then x else y)
IsFine-else true x y h k = h
IsFine-else false x y h k = k refl

store_field-IsFine :
    (name text : Text) (s : State)
    → IsWithin s.fields s.record_bytes
    → IsFine (store_field name text s)
unfolding store_field
store_field-IsFine name text s h =
    IsFine-else (leb max_fields_per_record (length s.fields)) _ _ tt (λ few.
      IsFine-else (ltb max_record_bytes (s.record_bytes + length text)) _ _ tt (λ small. (
        tt,
        (
          ground (arith, length-put (to_upper (trim_space name)) text s.fields),
          ground (arith, field_bytes-put (to_upper (trim_space name)) text s.fields),
          ground arith,
        ),
      )))

begin_value-IsFine :
    (name : Text) (n : Option ℕ) (s : State)
    → IsWithin s.fields s.record_bytes
    → IsFine (begin_value name n s)
unfolding begin_value
begin_value-IsFine name none s h = tt
begin_value-IsFine name (some zero) s h = store_field-IsFine name [] s h
begin_value-IsFine name (some (suc n)) s h =
    IsFine-else (ltb max_field_bytes (suc n)) _ _ tt (λ small. ((ground arith, ground arith), h))

begin_field-IsFine :
    (descriptor : Text) (rest : Option Text) (s : State)
    → IsWithin s.fields s.record_bytes
    → IsFine (begin_field descriptor rest s)
unfolding begin_field
begin_field-IsFine descriptor none s h = tt
begin_field-IsFine descriptor (some rest) s h =
    begin_value-IsFine (before_colon descriptor) (parse_adif_length (before_colon rest)) s h

end_record-IsFine :
    (fs : Fields) (s : State)
    → IsWithin s.fields s.record_bytes
    → IsWithin fs s.record_bytes
    → IsFine (end_record fs s)
unfolding end_record
end_record-IsFine [] s h k = (tt, h)
end_record-IsFine (f ∷ fs) s h k = (ground arith, ground arith, ground arith)

on_tag-IsFine :
    (text : Text) (s : State) → IsWithin s.fields s.record_bytes → IsFine (on_tag text s)
unfolding on_tag
on_tag-IsFine text s h =
    let known = to_upper (trim_space text) in
    IsFine-if (known == codes "EOH") _ _ (tt, (ground arith, ground arith, ground arith))
      (IsFine-if (known == codes "EOR") _ _ (end_record-IsFine s.fields s h h)
        (begin_field-IsFine (trim_space text) (after_colon (trim_space text)) s h))

on_tag_byte-IsFine :
    (text : Text) (c : ℕ) (s : State)
    → IsWithin s.fields s.record_bytes
    → IsFine (on_tag_byte text c s)
unfolding on_tag_byte
on_tag_byte-IsFine text c s h = IsFine-if (nat_beq c b'>') _ _ (on_tag-IsFine text s h) (
    IsFine-else (leb max_tag_length (length text + 1)) _ _ tt
      (λ short. (ground (arith, length-append text (c ∷ [])), h)))

on_value_byte-IsFine :
    (name : Text) (left : ℕ) (text : Text) (c : ℕ) (s : State)
    → length text + suc left ≤ max_field_bytes
    → IsWithin s.fields s.record_bytes
    → IsFine (on_value_byte name left text c s)
unfolding on_value_byte
on_value_byte-IsFine name zero text c s small h = store_field-IsFine name (text ++ c ∷ []) s h
on_value_byte-IsFine name (suc n) text c s small h =
    ((ground arith, ground (arith, length-append text (c ∷ []))), h)

step-IsFine :
    (m : Mode) (c : ℕ) (s : State)
    → IsSmall m
    → IsSmall s.mode
    → IsWithin s.fields s.record_bytes
    → IsFine (step m c s)
unfolding step
step-IsFine skipping c s small same h = IsFine-if (nat_beq c b'<') _ _ (ground arith, h) (same, h)
step-IsFine (tag text) c s small same h = on_tag_byte-IsFine text c s h
step-IsFine (value name left text) c s small same h =
    on_value_byte-IsFine name (left - 1) text c s (ground arith) h

-- A record that the callback may be given.
abbrev pub IsLimited : Fields → Type 0
IsLimited fs = IsWithin fs max_record_bytes

hand_over-All :
    (b : Bool) (fields : Fields) (rest : List Fields × Ending)
    → IsLimited fields
    → All IsLimited rest.0
    → All IsLimited (hand_over b fields rest).0
unfolding hand_over
hand_over-All true fields rest fine h = (fine, h)
hand_over-All false fields rest fine h = (fine, tt)

resume-All :
    (accept : Fields → Bool) (run : State → List Fields × Ending) (x : Step)
    → ((s : State) → IsBounded s → All IsLimited (run s).0)
    → IsFine x
    → All IsLimited (resume accept run x).0
unfolding resume
resume-All accept run (go s) h fine = h s fine
resume-All accept run (hand fields) h fine =
    hand_over-All (accept fields) fields (run start) fine
      (h start (tt, (ground arith, ground arith, ground arith)))
resume-All accept run (stop ending) h fine = tt

parse-All :
    (accept : Fields → Bool) (text : Text) (s : State)
    → IsBounded s
    → All IsLimited (parse accept s text).0
unfolding parse
parse-All accept [] s h = tt
parse-All accept (c ∷ text) s (small, within) =
    resume-All accept (λ next. parse accept next text) (step s.mode c s)
      (λ next fine. parse-All accept text next fine) (step-IsFine s.mode c s small small within)

-- Whatever the bytes of the file, and whichever records the callback refuses, a record that it is
-- given has at most 2000 fields and at most 1 MiB of values.
pub parse_adi_records-IsLimited :
    (accept : Fields → Bool) (text : Text) → All IsLimited (parse_adi_records accept text).0
unfolding parse_adi_records
parse_adi_records-IsLimited accept text =
    parse-All accept text start (tt, (ground arith, ground arith, ground arith))
