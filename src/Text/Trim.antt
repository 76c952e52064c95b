-- ===== src/Text/Trim.antt =====
-- Laws of trimming and upper-casing.
use w4gns_logger4men.Base.{ℕ, ◌≡◌, refl, ap, ◌∙◌, [], ◌∷◌, arith}
use w4gns_logger4men.Text.{
  Text, is_space, upper_byte, to_upper, trim_left, trim_right, trim_space, clean, is_empty,
}

upper_byte_idem : (c : ℕ) → upper_byte (upper_byte c) ≡ upper_byte c
unfolding upper_byte
upper_byte_idem c = ground arith

is_space-upper_byte : (c : ℕ) → is_space (upper_byte c) ≡ is_space c
unfolding is_space upper_byte
is_space-upper_byte c = ground arith

pub to_upper_idem : (s : Text) → to_upper (to_upper s) ≡ to_upper s
unfolding to_upper
to_upper_idem [] = refl
to_upper_idem (c ∷ s) = cc (upper_byte_idem c, to_upper_idem s)

is_empty-to_upper : (s : Text) → is_empty (to_upper s) ≡ is_empty s
unfolding to_upper
is_empty-to_upper [] = refl
is_empty-to_upper (c ∷ s) = refl

trim_left-to_upper : (s : Text) → trim_left (to_upper s) ≡ to_upper (trim_left s)
unfolding trim_left to_upper
trim_left-to_upper [] = refl
trim_left-to_upper (c ∷ s) = ground (arith, is_space-upper_byte c, trim_left-to_upper s)

trim_right-to_upper : (s : Text) → trim_right (to_upper s) ≡ to_upper (trim_right s)
unfolding trim_right to_upper
trim_right-to_upper [] = refl
trim_right-to_upper (c ∷ s) =
    ground (arith, is_space-upper_byte c, trim_right-to_upper s, is_empty-to_upper (trim_right s))

pub trim_space-to_upper : (s : Text) → trim_space (to_upper s) ≡ to_upper (trim_space s)
unfolding trim_space
trim_space-to_upper s = cc (trim_left-to_upper s, trim_right-to_upper (trim_left s))

trim_left_idem : (s : Text) → trim_left (trim_left s) ≡ trim_left s
unfolding trim_left
trim_left_idem [] = refl
trim_left_idem (c ∷ s) = ground (arith, trim_left_idem s)

trim_right_idem : (s : Text) → trim_right (trim_right s) ≡ trim_right s
unfolding trim_right
trim_right_idem [] = refl
trim_right_idem (c ∷ s) = ground (arith, trim_right_idem s)

trim_left-trim_right-trim_left :
    (s : Text) → trim_left (trim_right (trim_left s)) ≡ trim_right (trim_left s)
unfolding trim_left trim_right
trim_left-trim_right-trim_left [] = refl
trim_left-trim_right-trim_left (c ∷ s) = ground (arith, trim_left-trim_right-trim_left s)

pub trim_space_idem : (s : Text) → trim_space (trim_space s) ≡ trim_space s
unfolding trim_space
trim_space_idem s = ap trim_right (trim_left-trim_right-trim_left s) ∙ trim_right_idem (trim_left s)

-- A cleaned text is clean.
pub clean_idem : (s : Text) → clean (clean s) ≡ clean s
unfolding clean
clean_idem s =
    ap to_upper (trim_space-to_upper (trim_space s))
    ∙ to_upper_idem (trim_space (trim_space s))
    ∙ ap to_upper (trim_space_idem s)
