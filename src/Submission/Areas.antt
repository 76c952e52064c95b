-- ===== src/Submission/Areas.antt =====
-- The parts of an exchange that several validators of contest_validation.go check. `true` stands for
-- no error. The country file and `float64` are arguments.
use w4gns_logger4men.Base.{
  ℕ, Bool, true, false, not, ◌&&◌, ◌||◌, Option, none, some, [], ◌∷◌, ◌++◌, leb, nat_beq,
  if◌then◌else◌, length,
}
use w4gns_logger4men.Base.Eq.{◌==◌, list_beq}
use w4gns_logger4men.Text.{Text, text_eq, codes, within, is_empty, in_table, contains_text}
use w4gns_logger4men.Text.Numeral.{ℤ, pos, negsuc, atoi}
use w4gns_logger4men.Exchange.{Entity, Lookup}
use w4gns_logger4men.Exchange.Tables.{exchange_area_codes}
use w4gns_logger4men.Validation.{Floats}
use w4gns_logger4men.Submission.{positive_serial, submission_name}

-- What a validator makes of the station's country; a call that is not found is an error.
unfoldable pub at_entity : Lookup → Text → (Entity → Bool) → Bool
at_entity lookup call check = elim (lookup call) [ none ↦ false | some e ↦ check e ]

unfoldable pub is_at_most : ℕ → Option ℤ → Bool
is_at_most max none = false
is_at_most max (some (pos n)) = leb n max
is_at_most max (some (negsuc n)) = true

-- `submissionZone`
unfoldable pub submission_zone : Text → ℕ → Bool
unfolding positive_serial atoi is_at_most
submission_zone token max = positive_serial token && is_at_most max (atoi token)

abbrev pub is_american : Text → Bool
is_american country =
    country == codes "United States"
    || country == codes "Canada"
    || country == codes "Alaska"
    || country == codes "Hawaii"

-- `canadianSubmissionAreas`
unfoldable pub canadian_submission_areas : Text
canadian_submission_areas = codes " AB BC MB NB NL NF LB NS NT NU ON PE QC SK YT "

unfoldable pub is_canadian : Text → Bool
unfolding contains_text canadian_submission_areas
is_canadian token =
    nat_beq (length token) 2
    && contains_text canadian_submission_areas (codes " " ++ token ++ codes " ")

-- `submissionArea`
unfoldable pub submission_area : Text → Text → Bool → Bool
unfolding is_canadian in_table exchange_area_codes list_beq
submission_area token country include_ak_hi =
    if country == codes "Canada"
    then is_canadian token
    else if country == codes "Alaska"
    then include_ak_hi && token == codes "AK"
    else if country == codes "Hawaii"
    then include_ak_hi && token == codes "HI"
    else country == codes "United States"
      && in_table exchange_area_codes token
      && not (is_canadian token)

-- `nonNegativeSerial`
unfoldable pub non_negative_serial : Text → Bool
unfolding positive_serial list_beq
non_negative_serial s = s == codes "0" || positive_serial s

-- `isThreeCharAlnumCode`
unfoldable pub is_three_char_alnum_code : Text → Bool
is_three_char_alnum_code (a ∷ b ∷ c ∷ []) = is_alnum a && is_alnum b && is_alnum c
  where
    is_alnum : ℕ → Bool
    is_alnum r = within b'A' b'Z' r || within b'0' b'9' r
is_three_char_alnum_code other = false

-- `len(token) == 2 && submissionName(token)`
abbrev pub is_two_letters : Text → Bool
is_two_letters token = nat_beq (length token) 2 && submission_name token

-- `looksLikeCountyToken`, whose characters are those of a name.
unfoldable pub looks_like_county_token : Text → Bool
unfolding submission_name
looks_like_county_token s = leb 2 (length s) && leb (length s) 6 && submission_name s

unfoldable pub dok_runes : Bool → Text → Bool
dok_runes has_letter [] = has_letter
dok_runes has_letter (r ∷ s) =
    let letter = dok_runes true s in
    let digit = dok_runes has_letter s in
    if within b'A' b'Z' r then letter else if within b'0' b'9' r then digit else false

-- `validWAGDOK`
unfoldable pub valid_wag_dok : Text → Bool
unfolding dok_runes
valid_wag_dok token = leb 2 (length token) && dok_runes false token

-- `validSpanishProvinceCode`
unfoldable pub valid_spanish_province_code : Text → Bool
unfolding submission_name
valid_spanish_province_code s = leb 1 (length s) && leb (length s) 3 && submission_name s

-- `strings.NewReplacer("A", "1", "N", "9", "T", "0", "O", "0")`
unfoldable pub uncut : Text → Text
uncut [] = []
uncut (c ∷ s) =
    (if nat_beq c b'A'
      then b'1'
      else if nat_beq c b'N'
      then b'9'
      else if nat_beq c b'T' || nat_beq c b'O'
      then b'0'
      else c)
    ∷ uncut s

-- `strings.TrimSuffix(s, suffix)` for a suffix of one byte.
unfoldable pub trim_byte : ℕ → Text → Text
trim_byte suffix [] = []
trim_byte suffix (c ∷ s) =
    let rest = trim_byte suffix s in if nat_beq c suffix && is_empty s then [] else c ∷ rest

-- Digits with at most one point.
unfoldable pub is_decimal : Bool → Text → Bool
is_decimal dot [] = true
is_decimal dot (r ∷ s) =
    let point = is_decimal true s in
    let digit = is_decimal dot s in
    if nat_beq r b'.' && not dot then point else within b'0' b'9' r && digit

abbrev is_positive : (fl : Floats) → Option fl.Float → Bool
is_positive fl none = false
is_positive fl (some n) = fl.is_below (fl.constant (codes "0")) n

-- `validSubmissionPower`
unfoldable pub valid_submission_power : Floats → Text → Bool
unfolding uncut trim_byte is_decimal list_beq
valid_submission_power fl s =
    let watts = trim_byte b'K' (trim_byte b'W' (uncut s)) in
    if s == codes "NAN" || s == codes "INF"
    then false
    else if s == codes "KW"
    then true
    else not (is_empty watts) && is_decimal false watts && is_positive fl (fl.parse_float watts)
