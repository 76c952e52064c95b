-- ===== src/Adif/Lengths.antt =====
-- A length that is written in decimal is read back.
use Prim.Native.Nat.{◌/◌, ◌%◌}
use w4gns_logger4men.Base.{
  ℕ, zero, suc, ◌+◌, ◌-◌, ◌*◌, ◌^◌, ◌<◌, ◌≡◌, refl, ap, ◌∙◌, Bool, true, false, not, ◌&&◌, ◌||◌,
  some, [], ◌∷◌, ◌++◌, arith, nat_beq,
}
use w4gns_logger4men.Base.Eq.{◌==◌}
use w4gns_logger4men.Text.{
  Text, text_eq, within, is_space, is_empty, upper_byte, to_upper, trim_left, trim_right,
  trim_space,
}
use w4gns_logger4men.Text.Numeral.{pos, digits_value, unsigned, atoi}
use w4gns_logger4men.Adif.{natural, parse_adif_length, before_colon, after_colon}
use w4gns_logger4men.Adif.Export.{digits, itoa}

digits_value-last :
    (n : ℕ) (s : Text) (c m : ℕ)
    → digits_value n s ≡ some m
    → within b'0' b'9' c ≡ true
    → digits_value n (s ++ c ∷ []) ≡ some (m * 10 + (c - b'0'))
unfolding digits_value
digits_value-last n [] c m h k = ground arith
digits_value-last n (d ∷ s) c m h k = ground (arith, digits_value-last (n * 10 + (d - b'0')) s c m)

digits_value-one : (n : ℕ) → n < 10 → digits_value 0 ((b'0' + n) ∷ []) ≡ some n
unfolding digits_value
digits_value-one n h = ground arith

digits_value-digits : (rounds n : ℕ) → n < rounds → digits_value 0 (digits rounds n) ≡ some n
unfolding digits
digits_value-digits zero n h = absurd (ground arith)
digits_value-digits (suc rounds) n h = ground (
  arith,
  digits_value-one n,
  digits_value-last 0 (digits rounds (n / 10)) (b'0' + n % 10) (n / 10),
  digits_value-digits rounds (n / 10),
)

-- A byte that a tag may have beside its brackets and colons.
abbrev pub is_tag_byte : ℕ → Bool
is_tag_byte c = not (is_space c) && not (nat_beq c b'>') && not (nat_beq c b':')

abbrev pub is_tag_text : Text → Bool
is_tag_text [] = true
is_tag_text (c ∷ s) = is_tag_byte c && is_tag_text s

is_tag_text-append :
    (s t : Text) → is_tag_text s ≡ true → is_tag_text t ≡ true → is_tag_text (s ++ t) ≡ true
is_tag_text-append [] t h k = k
is_tag_text-append (c ∷ s) t h k = ground (arith, is_tag_text-append s t)

is_tag_digit : (n : ℕ) → n < 10 → is_tag_byte (b'0' + n) ≡ true
unfolding is_space
is_tag_digit n h = ground arith

pub is_tag_text-digits : (rounds n : ℕ) → is_tag_text (digits rounds n) ≡ true
unfolding digits
is_tag_text-digits zero n = refl
is_tag_text-digits (suc rounds) n = ground (
  arith,
  is_tag_digit n,
  is_tag_digit (n % 10),
  is_tag_text-digits rounds (n / 10),
  is_tag_text-append (digits rounds (n / 10)) ((b'0' + n % 10) ∷ []),
)

-- No white space.
abbrev pub is_solid : Text → Bool
is_solid [] = true
is_solid (c ∷ s) = not (is_space c) && is_solid s

pub is_solid-tag : (s : Text) → is_tag_text s ≡ true → is_solid s ≡ true
is_solid-tag [] h = refl
is_solid-tag (c ∷ s) h = ground (arith, is_solid-tag s)

pub is_solid-append :
    (s t : Text) → is_solid s ≡ true → is_solid t ≡ true → is_solid (s ++ t) ≡ true
is_solid-append [] t h k = k
is_solid-append (c ∷ s) t h k = ground (arith, is_solid-append s t)

trim_left-solid : (s : Text) → is_solid s ≡ true → trim_left s ≡ s
unfolding trim_left
trim_left-solid [] h = refl
trim_left-solid (c ∷ s) h = ground arith

trim_right-solid : (s : Text) → is_solid s ≡ true → trim_right s ≡ s
unfolding trim_right
trim_right-solid [] h = refl
trim_right-solid (c ∷ s) h = ground (arith, trim_right-solid s)

pub trim_space-solid : (s : Text) → is_solid s ≡ true → trim_space s ≡ s
unfolding trim_space
trim_space-solid s h = ap trim_right (trim_left-solid s h) ∙ trim_right-solid s h

unfoldable pub has_colon : Text → Bool
has_colon [] = false
has_colon (c ∷ s) = nat_beq c b':' || has_colon s

has_colon-to_upper : (s : Text) → has_colon s ≡ true → has_colon (to_upper s) ≡ true
unfolding has_colon to_upper upper_byte
has_colon-to_upper [] h = absurd (ground arith)
has_colon-to_upper (c ∷ s) h = ground (arith, has_colon-to_upper s)

pub has_colon-middle : (s t : Text) → has_colon (s ++ b':' ∷ t) ≡ true
unfolding has_colon
has_colon-middle [] t = ground arith
has_colon-middle (c ∷ s) t = ground (arith, has_colon-middle s t)

-- A text with a colon is neither EOH nor EOR.
pub not_end :
    (s end : Text) → has_colon s ≡ true → has_colon end ≡ false → (to_upper s == end) ≡ false
not_end s end h k = ground (arith, text_eq.beq_iff (to_upper s) end, has_colon-to_upper s h)

pub before_colon-tag : (s t : Text) → is_tag_text s ≡ true → before_colon (s ++ b':' ∷ t) ≡ s
unfolding before_colon
before_colon-tag [] t h = ground arith
before_colon-tag (c ∷ s) t h = ground (arith, before_colon-tag s t)

pub before_colon-all : (s : Text) → is_tag_text s ≡ true → before_colon s ≡ s
unfolding before_colon
before_colon-all [] h = refl
before_colon-all (c ∷ s) h = ground (arith, before_colon-all s)

pub after_colon-tag : (s t : Text) → is_tag_text s ≡ true → after_colon (s ++ b':' ∷ t) ≡ some t
unfolding after_colon
after_colon-tag [] t h = ground arith
after_colon-tag (c ∷ s) t h = ground (arith, after_colon-tag s t)

abbrev is_number : Text → Bool
is_number [] = true
is_number (c ∷ s) = within b'0' b'9' c && is_number s

atoi-digits :
    (s : Text) (n : ℕ)
    → is_empty s ≡ false
    → is_number s ≡ true
    → digits_value 0 s ≡ some n
    → n < 2 ^ 63
    → atoi s ≡ some (pos n)
unfolding atoi unsigned
atoi-digits [] n e h p lt = absurd (ground arith)
atoi-digits (c ∷ s) n e h p lt = ground arith

is_number-append :
    (s t : Text) → is_number s ≡ true → is_number t ≡ true → is_number (s ++ t) ≡ true
is_number-append [] t h k = k
is_number-append (c ∷ s) t h k = ground (arith, is_number-append s t)

is_number-digit : (n : ℕ) → n < 10 → is_number ((b'0' + n) ∷ []) ≡ true
is_number-digit n h = ground arith

is_number-digits : (rounds n : ℕ) → is_number (digits rounds n) ≡ true
unfolding digits
is_number-digits zero n = refl
is_number-digits (suc rounds) n = ground (
  arith,
  is_number-digit n,
  is_number-digit (n % 10),
  is_number-digits rounds (n / 10),
  is_number-append (digits rounds (n / 10)) ((b'0' + n % 10) ∷ []),
)

is_empty-last : (s : Text) (c : ℕ) → is_empty (s ++ c ∷ []) ≡ false
is_empty-last [] c = refl
is_empty-last (d ∷ s) c = refl

is_empty-itoa : (n : ℕ) → is_empty (itoa n) ≡ false
unfolding itoa digits
is_empty-itoa n = ground (arith, is_empty-last (digits n (n / 10)) (b'0' + n % 10))

-- A length that is written is read back.
pub parse_adif_length-itoa : (n : ℕ) → n < 2 ^ 63 → parse_adif_length (itoa n) ≡ some n
unfolding parse_adif_length
parse_adif_length-itoa n lt =
    let tagged : is_tag_text (itoa n) ≡ true = unfold itoa in is_tag_text-digits (suc n) n in
    let number : is_number (itoa n) ≡ true = unfold itoa in is_number-digits (suc n) n in
    let valued : digits_value 0 (itoa n) ≡ some n =
      unfold itoa in digits_value-digits (suc n) n (omega arith) in
    ap natural (
      ap atoi (trim_space-solid (itoa n) (is_solid-tag (itoa n) tagged))
      ∙ atoi-digits (itoa n) n (is_empty-itoa n) number valued lt)

pub is_solid-colon : (s : Text) → is_solid s ≡ true → is_solid (b':' ∷ s) ≡ true
unfolding is_space
is_solid-colon s h = h
