-- ===== src/Wpx.antt =====
-- wpx.go: the prefix multiplier of the CQ WPX contests.
pub mod Suffixes
use w4gns_logger4men.Base.{
  ℕ, zero, suc, ◌+◌, ◌≡◌, refl, Bool, true, false, not, ◌&&◌, ◌||◌, List, [], ◌∷◌, ◌++◌, ltb, leb,
  nat_beq, if◌then◌else◌, length, take,
}
use w4gns_logger4men.Base.Eq.{◌==◌, list_beq}
use w4gns_logger4men.Text.{Text, text_eq, codes, within, is_empty, clean, in_table, fields}

-- `strings.Split(s, "/")`: at least one part.
unfoldable split_slash : Text → Text → List Text
split_slash part [] = part ∷ []
split_slash part (c ∷ s) =
    let next = split_slash [] s in
    let more = split_slash (part ++ c ∷ []) s in if nat_beq c b'/' then part ∷ next else more

unfoldable pub segments : Text → List Text
unfolding split_slash
segments s = split_slash [] s

-- `wpxNonQualifyingSuffixes`
unfoldable pub non_qualifying : List Text
unfolding fields
non_qualifying = fields (codes "M MM AM A E J P QRP QRPP")

-- The loop that keeps the candidate segments.
unfoldable pub qualifying : List Text → List Text
unfolding in_table non_qualifying
qualifying [] = []
qualifying (seg ∷ segs) =
    if is_empty seg || in_table non_qualifying seg then qualifying segs else seg ∷ qualifying segs

unfoldable pub is_letter : ℕ → Bool
is_letter c = within b'A' b'Z' c

unfoldable pub is_digit : ℕ → Bool
is_digit c = within b'0' b'9' c

-- `strings.TrimRight(seg, "ABCDEFGHIJKLMNOPQRSTUVWXYZ")`
unfoldable pub trim_letters : Text → Text
unfolding is_letter
trim_letters [] = []
trim_letters (c ∷ s) =
    let rest = trim_letters s in if is_letter c && is_empty rest then [] else c ∷ rest

unfoldable pub prefix_from_segment : Text → Text
unfolding trim_letters list_beq
prefix_from_segment seg =
    let trimmed = trim_letters seg in
    if trimmed == seg then seg else if is_empty trimmed then take 2 seg ++ codes "0" else trimmed

-- `wpxPrefixLetters`: what stands before the first digit.
unfoldable pub prefix_letters : Text → Text
unfolding is_digit
prefix_letters [] = []
prefix_letters (c ∷ s) = let rest = prefix_letters s in if is_digit c then [] else c ∷ rest

unfoldable pub all_digits : Text → Bool
unfolding is_digit
all_digits [] = true
all_digits (c ∷ s) = is_digit c && all_digits s

unfoldable pub is_digits_only : Text → Bool
unfolding all_digits
is_digits_only s = not (is_empty s) && all_digits s

unfoldable pub portable_prefix : Text → Text → Text
unfolding is_digits_only prefix_letters prefix_from_segment
portable_prefix portable home =
    if is_digits_only portable
    then prefix_letters home ++ portable
    else prefix_from_segment portable

-- The choice among the kept segments; `first` is the raw first segment.
unfoldable pub choose_prefix : Text → List Text → Text
unfolding portable_prefix prefix_from_segment
choose_prefix first [] = prefix_from_segment first
choose_prefix first (a ∷ []) = prefix_from_segment a
choose_prefix first (a ∷ b ∷ more) =
    if ltb (length b) (length a) then portable_prefix b a else portable_prefix a b

unfoldable head_or_empty : List Text → Text
head_or_empty [] = []
head_or_empty (x ∷ xs) = x

unfoldable pub wpx_prefix : Text → Text
unfolding clean segments qualifying choose_prefix head_or_empty
wpx_prefix call =
    let c = clean call in
    if is_empty c then [] else choose_prefix (head_or_empty (segments c)) (qualifying (segments c))

-- The examples that the comments of wpx.go give.
wpx_examples :
    (wpx_prefix (codes "4X1AB") ≡ codes "4X1")
    × (wpx_prefix (codes "PA/N8BJQ") ≡ codes "PA0")
    × (wpx_prefix (codes "xeftjw") ≡ codes "XE0")
    × (wpx_prefix (codes "W3ABC/4") ≡ codes "W4")
    × (wpx_prefix (codes "W3ABC/MM") ≡ codes "W3")
unfolding wpx_prefix
wpx_examples = (refl, refl, refl, refl, refl)
