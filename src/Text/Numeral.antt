-- ===== src/Text/Numeral.antt =====
-- Integers, and `strconv.Atoi` on a 64-bit platform.
use w4gns_logger4men.Base.{
  ℕ, ◌+◌, ◌-◌, ◌*◌, ◌^◌, ◌≡◌, refl, Option, none, some, [], ◌∷◌, leb, ltb, nat_beq, if◌then◌else◌,
}
use w4gns_logger4men.Text.{Text, codes, within}

-- `negsuc n` is -(n + 1).
pub data ℤ : Type 0 where
  pos : ℕ → ℤ
  negsuc : ℕ → ℤ

-- The digits of the text, read behind `n`; `none` at any other byte.
unfoldable pub digits_value : ℕ → Text → Option ℕ
digits_value n [] = some n
digits_value n (c ∷ s) =
    let rest = digits_value (n * 10 + (c - b'0')) s in if within b'0' b'9' c then rest else none

-- A sign's digits must be there, and the value must fit in an int.
unfoldable pub unsigned : Text → Option ℕ
unfolding digits_value
unsigned [] = none
unsigned (c ∷ s) = digits_value 0 (c ∷ s)

positive_int : Option ℕ → Option ℤ
positive_int none = none
positive_int (some n) = if ltb n (2 ^ 63) then some (pos n) else none

negative_int : Option ℕ → Option ℤ
negative_int none = none
negative_int (some n) =
    if nat_beq n 0 then some (pos 0) else if leb n (2 ^ 63) then some (negsuc (n - 1)) else none

unfoldable pub atoi : Text → Option ℤ
unfolding unsigned positive_int negative_int
atoi [] = none
atoi (c ∷ s) =
    if nat_beq c b'+'
    then positive_int (unsigned s)
    else if nat_beq c b'-'
    then negative_int (unsigned s)
    else positive_int (unsigned (c ∷ s))

-- `value, err := strconv.Atoi(s); err == nil && value > 0`
unfoldable pub positive : Text → Option ℕ
unfolding atoi
positive s = elim (atoi s) [
  | none ↦ none
  | some (pos n) ↦ if ltb 0 n then some n else none
  | some (negsuc n) ↦ none
]

atoi_test :
    (atoi (codes "007") ≡ some (pos 7))
    × (atoi (codes "-12") ≡ some (negsuc 11))
    × (atoi (codes "1x") ≡ none)
    × (atoi (codes "9223372036854775808") ≡ none)
unfolding atoi
atoi_test = (refl, refl, refl, refl)
