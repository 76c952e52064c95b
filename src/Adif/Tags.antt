-- ===== src/Adif/Tags.antt =====
-- The parser's loop over a tag and a value that were written.
use w4gns_logger4men.Base.{
  ℕ, suc, ◌+◌, ◌-◌, ◌^◌, ◌<◌, ◌≡◌, refl, ap, ◌∙◌, Bool, true, false, ◌||◌, some, List, [], ◌∷◌,
  ◌++◌, arith, nat_beq, length, append-nil, append_assoc, length-append,
}
use w4gns_logger4men.Text.{Text, text_eq, codes, trim_space}
use w4gns_logger4men.Adif.{
  Fields, Ending, skipping, tag, value, State, go, max_tag_length, parse_adif_length, store_field,
  begin_value, begin_field, on_tag, on_tag_byte, on_value_byte, step, resume, parse,
}
use w4gns_logger4men.Adif.Export.{itoa}
use w4gns_logger4men.Adif.Lengths.{
  is_tag_text, is_tag_text-digits, is_solid-tag, is_solid-append, trim_space-solid, has_colon,
  has_colon-middle, not_end, before_colon-tag, before_colon-all, after_colon-tag,
  parse_adif_length-itoa, is_solid-colon,
}

-- What stands between the brackets of a field's tag.
abbrev pub descriptor : Text → ℕ → Text
descriptor name n = name ++ b':' ∷ itoa n

module _ (name : Text) (n : ℕ) (plain : is_tag_text name ≡ true) where
  trim_space-descriptor : trim_space (descriptor name n) ≡ (descriptor name n)
  trim_space-descriptor = trim_space-solid (descriptor name n) (
      is_solid-append name (b':' ∷ itoa n) (is_solid-tag name plain) (
        is_solid-colon (itoa n)
          (is_solid-tag (itoa n) (unfold itoa in is_tag_text-digits (suc n) n))))

  -- The tag of a field that is written.
  pub on_tag-descriptor :
      (s : State) → n < 2 ^ 63 → on_tag (descriptor name n) s ≡ begin_value name (some n) s
  unfolding on_tag begin_field
  on_tag-descriptor s lt =
      rw
        (
          trim_space-descriptor,
          not_end (descriptor name n) (codes "EOH") (has_colon-middle name (itoa n))
              (unfold has_colon in refl),
          not_end (descriptor name n) (codes "EOR") (has_colon-middle name (itoa n))
              (unfold has_colon in refl),
          after_colon-tag name (itoa n) plain,
          before_colon-tag name (itoa n) plain,
        )
        (ap (λ x. begin_value name x s)
          (ap parse_adif_length
              (before_colon-all (itoa n) (unfold itoa in is_tag_text-digits (suc n) n))
            ∙ parse_adif_length-itoa n lt))

unfoldable pub has_close : Text → Bool
has_close [] = false
has_close (c ∷ s) = nat_beq c b'>' || has_close s

on_tag_byte-more :
    (read : Text) (c : ℕ) (s : State)
    → nat_beq c b'>' ≡ false
    → length read + 1 < max_tag_length
    → on_tag_byte read c s ≡ go (record s { mode = tag (read ++ c ∷ []) })
unfolding on_tag_byte
on_tag_byte-more read c s h lt = ground arith

-- What the loop does behind a tag.
abbrev pub tagged : (Fields → Bool) → Text → Fields → ℕ → Text → List Fields × Ending
tagged accept rest fields bytes d =
    resume accept (λ next. parse accept next rest)
      (on_tag d (record { mode = tag d; fields = fields; record_bytes = bytes }))

-- The tag's bytes, up to its end.
pub parse-tag :
    (accept : Fields → Bool) (d rest read : Text) (fields : Fields) (bytes : ℕ)
    → has_close d ≡ false
    → length read + length d < max_tag_length
    → parse accept
        (record { mode = tag read; fields = fields; record_bytes = bytes })
        (d ++ b'>' ∷ rest)
      ≡ tagged accept rest fields bytes (read ++ d)
unfolding parse step resume has_close
parse-tag accept [] rest read fields bytes h lt = rw (append-nil read) refl
parse-tag accept (c ∷ d) rest read fields bytes h lt =
    ap (resume accept (λ next. parse accept next (d ++ b'>' ∷ rest))) (
      on_tag_byte-more read c (record { mode = tag read; fields = fields; record_bytes = bytes })
        (ground arith) (ground arith))
    ∙ parse-tag accept d rest (read ++ c ∷ []) fields bytes (ground arith)
        (ground (arith, length-append read (c ∷ [])))
    ∙ ap (tagged accept rest fields bytes) (append_assoc read (c ∷ []) d)

pred : (n : ℕ) → suc n - 1 ≡ n
pred n = omega arith

-- The value's bytes.
pub parse-value :
    (accept : Fields → Bool) (name : Text) (c : ℕ) (text rest read : Text) (fields : Fields)
    (bytes : ℕ)
    → parse accept
        (record {
          mode = value name (suc (length text)) read;
          fields = fields;
          record_bytes = bytes;
        })
        ((c ∷ text) ++ rest)
      ≡ resume accept
          (λ next. parse accept next rest)
          (store_field name
            (read ++ c ∷ text)
            (record { mode = skipping; fields = fields; record_bytes = bytes }))
unfolding parse step resume on_value_byte store_field
parse-value accept name c [] rest read fields bytes = refl
parse-value accept name c (d ∷ text) rest read fields bytes =
    ap
      (λ left.
        resume accept (λ next. parse accept next (d ∷ text ++ rest))
          (on_value_byte name left read c (record {
            mode = value name (suc (suc (length text))) read;
            fields = fields;
            record_bytes = bytes;
          })))
      (pred (suc (length text)))
    ∙ parse-value accept name d text rest (read ++ c ∷ []) fields bytes
    ∙ ap
        (λ r.
          resume accept (λ next. parse accept next rest)
            (store_field name r
              (record { mode = skipping; fields = fields; record_bytes = bytes })))
        (append_assoc read (c ∷ []) (d ∷ text))
