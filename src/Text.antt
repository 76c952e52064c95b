-- ===== src/Text.antt =====
-- Go strings as lists of bytes, and the functions of the packages strings and strconv that the
-- program calls. Case and white space are those of ASCII; a text with a byte above 127 is outside
-- what these functions describe.
pub mod Trim
pub mod Numeral
pub mod Sort
use Prim.Native.Char.{code}
use Prim.Native.String.{String}
use w4gns_logger4men.Base.{
  ℕ, ◌+◌, ◌-◌, Bool, true, false, ◌&&◌, ◌||◌, not, List, [], ◌∷◌, ◌++◌, map, ◌≡◌, refl, leb,
  nat_beq, if◌then◌else◌,
}
use w4gns_logger4men.Base.Eq.{Eq, nat_eq, ◌==◌, list_beq, list_beq_iff}

abbrev pub Text : Type 0
Text = List ℕ

-- The bytes of a literal.
abbrev pub codes : String → Text
codes String.[] = []
codes (String.◌∷◌ c s) = code c ∷ codes s

instance abbrev pub text_eq : Eq Text
text_eq = record { beq = list_beq; beq_iff = list_beq_iff }

abbrev pub within : ℕ → ℕ → ℕ → Bool
within lo hi c = leb lo c && leb c hi

unfoldable pub is_space : ℕ → Bool
is_space c = within 9 13 c || nat_beq c 32

unfoldable pub upper_byte : ℕ → ℕ
upper_byte c = if within b'a' b'z' c then c - 32 else c

-- `strings.ToUpper`
unfoldable pub to_upper : Text → Text
unfolding upper_byte
to_upper [] = []
to_upper (c ∷ s) = upper_byte c ∷ to_upper s

-- `strings.TrimLeftFunc(s, unicode.IsSpace)`
unfoldable pub trim_left : Text → Text
unfolding is_space
trim_left [] = []
trim_left (c ∷ s) = if is_space c then trim_left s else c ∷ s

abbrev pub is_empty : Text → Bool
is_empty [] = true
is_empty (c ∷ s) = false

-- `strings.TrimRightFunc(s, unicode.IsSpace)`
unfoldable pub trim_right : Text → Text
unfolding is_space
trim_right [] = []
trim_right (c ∷ s) = let rest = trim_right s in if is_space c && is_empty rest then [] else c ∷ rest

-- `strings.TrimSpace`
unfoldable pub trim_space : Text → Text
unfolding trim_left trim_right
trim_space s = trim_right (trim_left s)

-- `strings.ToUpper(strings.TrimSpace(s))`, the form in which the program compares its texts.
unfoldable pub clean : Text → Text
unfolding to_upper trim_space
clean s = to_upper (trim_space s)

-- `strings.EqualFold`
unfoldable pub equal_fold : Text → Text → Bool
unfolding to_upper list_beq
equal_fold a b = to_upper a == to_upper b

-- The loop of `strings.Fields`: `word` is the field that is being read.
split_fields : Text → Text → List Text
unfolding is_space
split_fields word [] = if is_empty word then [] else word ∷ []
split_fields word (c ∷ s) =
    let rest = split_fields [] s in
    let more = split_fields (word ++ c ∷ []) s in
    if is_space c then if is_empty word then rest else word ∷ rest else more

unfoldable pub fields : Text → List Text
unfolding split_fields
fields s = split_fields [] s

-- `strings.HasPrefix(s, prefix)`
unfoldable pub has_prefix : Text → Text → Bool
has_prefix s [] = true
has_prefix [] (p ∷ ps) = false
has_prefix (c ∷ s) (p ∷ ps) = nat_beq c p && has_prefix s ps

-- `strings.Contains(s, part)`
unfoldable pub contains_text : Text → Text → Bool
unfolding has_prefix
contains_text [] part = is_empty part
contains_text (c ∷ s) part = has_prefix (c ∷ s) part || contains_text s part

-- `xs[len(xs)-1]`, where the list is not empty.
unfoldable pub last_or : Text → List Text → Text
last_or d [] = d
last_or d (x ∷ xs) = last_or x xs

-- A membership test on a table of codes, `table[code]` of a `map[string]bool`.
unfoldable pub in_table : List Text → Text → Bool
unfolding list_beq
in_table [] s = false
in_table (x ∷ xs) s = x == s || in_table xs s

clean_test : clean (codes " w4gns\t") ≡ codes "W4GNS"
unfolding clean
clean_test = refl

fields_test : fields (codes " a  bc ") ≡ codes "a" ∷ codes "bc" ∷ []
unfolding fields
fields_test = refl
