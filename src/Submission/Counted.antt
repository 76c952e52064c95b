-- ===== src/Submission/Counted.antt =====
-- An accepted state or province, and the scorer's multipliers.
use w4gns_logger4men.Base.{
  ℕ, ◌≤◌, ◌≡◌, refl, Bool, true, false, not, ◌&&◌, ◌||◌, List, [], ◌∷◌, ◌++◌, arith, nat_beq,
  if◌then◌else◌, length,
}
use w4gns_logger4men.Base.Eq.{◌==◌, list_beq}
use w4gns_logger4men.Text.{
  Text, text_eq, codes, is_space, upper_byte, to_upper, trim_left, trim_right, trim_space, clean,
  fields, last_or, is_empty, in_table, has_prefix, contains_text,
}
use w4gns_logger4men.Exchange.{
  Lookup, listed, exchange_area_alias, exchange_area_code, naqp_area_alias, naqp_area_code,
  last_field, other_country, north_american,
}
use w4gns_logger4men.Exchange.Tables.{exchange_area_codes, naqp_area_codes}
use w4gns_logger4men.Submission.Areas.{canadian_submission_areas, is_canadian, submission_area}

-- The same test on each text of a list.
all_pass : (Text → Bool) → List Text → Bool
all_pass test [] = true
all_pass test (x ∷ xs) = test x && all_pass test xs

pass_of_table :
    (test : Text → Bool) (xs : List Text) (s : Text)
    → all_pass test xs ≡ true
    → in_table xs s ≡ true
    → test s ≡ true
unfolding in_table all_pass
pass_of_table test [] s h k = cc
pass_of_table test (x ∷ xs) s h k = ground (arith, text_eq.beq_iff x s, pass_of_table test xs s)

-- The Canadian areas as a list.
unfoldable canadian_areas : List Text
unfolding fields
canadian_areas = fields (codes "AB BC MB NB NL NF LB NS NT NU ON PE QC SK YT")

long_not_two : (n : ℕ) (b : Bool) → 3 ≤ n → (nat_beq n 2 && b) ≡ false
long_not_two n b h = ground arith

long_not_canadian : (a b c : ℕ) (s : Text) → is_canadian (a ∷ b ∷ c ∷ s) ≡ false
unfolding is_canadian
long_not_canadian a b c s =
    long_not_two (length (a ∷ b ∷ c ∷ s))
      (contains_text canadian_submission_areas (codes " " ++ (a ∷ b ∷ c ∷ s) ++ codes " "))
      (omega arith)

true_not_false : {b : Bool} {A : Type 0} → b ≡ true → b ≡ false → A
true_not_false h k = absurd (ground arith)

in_canadian_areas : (s : Text) → is_canadian s ≡ true → in_table canadian_areas s ≡ true
unfolding is_canadian canadian_submission_areas canadian_areas contains_text has_prefix in_table
    list_beq fields is_space
in_canadian_areas [] h = cc
in_canadian_areas (a ∷ []) h = cc
in_canadian_areas (a ∷ b ∷ []) h = h
in_canadian_areas (a ∷ b ∷ c ∷ s) h = true_not_false h (long_not_canadian a b c s)

abbrev counts_as_area : Text → Bool
counts_as_area s = not (is_empty (exchange_area_code s))

abbrev counts_for_naqp : Lookup → Text → Bool
counts_for_naqp lookup s = not (is_empty (naqp_area_code lookup s))

canadian_counts : all_pass counts_as_area canadian_areas ≡ true
unfolding all_pass canadian_areas fields is_space exchange_area_code exchange_area_alias listed
    exchange_area_codes in_table list_beq clean to_upper upper_byte trim_space trim_left trim_right
canadian_counts = refl

american_counts : all_pass counts_as_area exchange_area_codes ≡ true
unfolding all_pass fields is_space exchange_area_code exchange_area_alias listed exchange_area_codes
    in_table list_beq clean to_upper upper_byte trim_space trim_left trim_right
american_counts = refl

canadian_naqp : (lookup : Lookup) → all_pass (counts_for_naqp lookup) canadian_areas ≡ true
unfolding all_pass canadian_areas fields is_space naqp_area_code naqp_area_alias last_field last_or
    naqp_area_codes exchange_area_codes in_table list_beq to_upper upper_byte other_country
    north_american
canadian_naqp lookup = refl

american_naqp : (lookup : Lookup) → all_pass (counts_for_naqp lookup) exchange_area_codes ≡ true
unfolding all_pass canadian_areas fields is_space naqp_area_code naqp_area_alias last_field last_or
    naqp_area_codes exchange_area_codes in_table list_beq to_upper upper_byte other_country
    north_american
american_naqp lookup = refl

alaska_naqp :
    (lookup : Lookup)
    → (counts_for_naqp lookup (codes "AK") ≡ true) × (counts_for_naqp lookup (codes "HI") ≡ true)
unfolding all_pass canadian_areas fields is_space naqp_area_code naqp_area_alias last_field last_or
    naqp_area_codes exchange_area_codes in_table list_beq to_upper upper_byte other_country
    north_american
alaska_naqp lookup = (refl, refl)

-- The cases of `submissionArea`, as truth values.
area_if :
    (canada alaska hawaii states with_ak_hi canadian listed ak hi : Bool)
    → (if canada
        then canadian
        else if alaska
        then with_ak_hi && ak
        else if hawaii
        then with_ak_hi && hi
        else states && listed && not canadian)
      ≡ true
    → (canadian || listed || with_ak_hi && (ak || hi)) ≡ true
area_if canada alaska hawaii states with_ak_hi canadian listed ak hi h = ground arith

area_cases :
    (token country : Text) (with_ak_hi : Bool)
    → submission_area token country with_ak_hi ≡ true
    → (is_canadian token
        || in_table exchange_area_codes token
        || with_ak_hi && (token == codes "AK" || token == codes "HI"))
      ≡ true
unfolding submission_area
area_cases token country with_ak_hi h =
    area_if (country == codes "Canada") (country == codes "Alaska") (country == codes "Hawaii")
      (country == codes "United States") with_ak_hi (is_canadian token)
      (in_table exchange_area_codes token) (token == codes "AK") (token == codes "HI") h

or_elim :
    (a b c d : Bool)
    → (a ≡ true → d ≡ true)
    → (b ≡ true → d ≡ true)
    → (c ≡ true → d ≡ true)
    → (a || b || c) ≡ true
    → d ≡ true
or_elim true b c d f g k h = f refl
or_elim false true c d f g k h = g refl
or_elim false false c d f g k h = k h

mainland_counts :
    (token country : Text)
    → submission_area token country false ≡ true
    → counts_as_area token ≡ true
mainland_counts token country h =
    or_elim (is_canadian token) (in_table exchange_area_codes token) false (counts_as_area token)
      (λ p.
        pass_of_table counts_as_area canadian_areas token canadian_counts
          (in_canadian_areas token p))
      (λ p. pass_of_table counts_as_area exchange_area_codes token american_counts p)
      (λ p. absurd (ground arith)) (area_cases token country false h)

ak_hi_counts :
    (lookup : Lookup) (token : Text)
    → (token == codes "AK" || token == codes "HI" || false) ≡ true
    → counts_for_naqp lookup token ≡ true
ak_hi_counts lookup token h =
    or_elim (token == codes "AK") (token == codes "HI") false (counts_for_naqp lookup token)
      (λ p. rw ((text_eq.beq_iff token (codes "AK")).0 p) (alaska_naqp lookup).0)
      (λ p. rw ((text_eq.beq_iff token (codes "HI")).0 p) (alaska_naqp lookup).1)
      (λ p. absurd (ground arith)) h

last_false : (a b : Bool) → (a || b) ≡ true → (a || b || false) ≡ true
last_false true b h = refl
last_false false true h = refl
last_false false false h = absurd (ground arith)

naqp_counts :
    (lookup : Lookup) (token country : Text)
    → submission_area token country true ≡ true
    → counts_for_naqp lookup token ≡ true
naqp_counts lookup token country h =
    or_elim (is_canadian token) (in_table exchange_area_codes token)
      (token == codes "AK" || token == codes "HI") (counts_for_naqp lookup token)
      (λ p.
        pass_of_table (counts_for_naqp lookup) canadian_areas token (canadian_naqp lookup)
          (in_canadian_areas token p))
      (λ p.
        pass_of_table (counts_for_naqp lookup) exchange_area_codes token (american_naqp lookup) p)
      (λ p. ak_hi_counts lookup token (last_false (token == codes "AK") (token == codes "HI") p))
      (area_cases token country true h)

counted :
    (lookup : Lookup) (token country : Text) (with_ak_hi : Bool)
    → submission_area token country with_ak_hi ≡ true
    → not (is_empty (if with_ak_hi then naqp_area_code lookup token else exchange_area_code token))
      ≡ true
counted lookup token country true h = naqp_counts lookup token country h
counted lookup token country false h = mainland_counts token country h

-- A state or province that `submissionArea` accepts counts as a multiplier, whatever the country
-- file: where Alaska and Hawaii are included it has a value of `naqpAreaCode`, and where they are not
-- it has a value of `exchangeAreaCode`.
pub submission_area-counts :
    (lookup : Lookup) (token country : Text) (with_ak_hi : Bool)
    → submission_area token country with_ak_hi ≡ true
    → is_empty (if with_ak_hi then naqp_area_code lookup token else exchange_area_code token)
      ≡ false
submission_area-counts lookup token country with_ak_hi h =
    not_true (counted lookup token country with_ak_hi h)
  where
    not_true : {b : Bool} → not b ≡ true → b ≡ false
    not_true h = ground arith
