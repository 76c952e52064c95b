-- ===== src/Submission/Locations.antt =====
-- `validateLocationSubmission`, `validateRookieRoundupExchange`, `validateQRPFoxHuntExchange` and
-- `sweepstakesExchange`. `true` stands for no error.
use w4gns_logger4men.Base.{
  ℕ, zero, suc, ◌-◌, Bool, true, false, not, ◌&&◌, ◌||◌, Option, none, some, List, [], ◌∷◌, ◌++◌,
  leb, nat_beq, if◌then◌else◌, length,
}
use w4gns_logger4men.Base.Eq.{◌==◌, list_beq}
use w4gns_logger4men.Text.{
  Text, text_eq, codes, within, is_empty, to_upper, clean, fields, in_table, contains_text,
}
use w4gns_logger4men.Exchange.{Entity, Lookup, arrl_section_code}
use w4gns_logger4men.Exchange.Tables.{tn_county_codes}
use w4gns_logger4men.Wpx.{all_digits}
use w4gns_logger4men.Validation.{Floats}
use w4gns_logger4men.Submission.{positive_serial, submission_name}
use w4gns_logger4men.Submission.Areas.{
  is_american, at_entity, submission_zone, submission_area, valid_submission_power,
}

-- What the validators take from elsewhere: the country file's lookup, whether it lists a prefix for
-- an entity of a country, and `float64`.
pub record Sources : Type 1 where
  pub lookup : Lookup
  pub lists : Text → Text → Bool
  pub floats : Floats

unfoldable pub tn_location : Text → Entity → Bool
unfolding in_table tn_county_codes submission_area list_beq
tn_location token e =
    e.country == codes "United States" && in_table tn_county_codes token
    || not (token == codes "TN") && submission_area token e.country true
    || not (is_american e.country) && token == codes "DX"

-- The events whose exchange is one state, province, zone or power.
unfoldable pub one_token : Sources → Text → Text → Entity → Bool
unfolding submission_area submission_zone valid_submission_power list_beq
one_token src event token e =
    if e.country == codes "United States" || e.country == codes "Canada"
    then submission_area token e.country false
    else if event == codes "CQ-160-CW"
    then submission_zone token 40
    else valid_submission_power src.floats token

abbrev is_sprint : Text → Bool
is_sprint event = event == codes "NA-SPRINT-CW" || event == codes "NCCC-SPRINT-CW"

abbrev is_northern : Entity → Bool
is_northern e = e.continent == codes "NA" || e.country == codes "Hawaii"

-- The location behind the name.
unfoldable pub second_location : Sources → Text → Text → Entity → Bool
unfolding submission_area positive_serial list_beq
second_location src event location e =
    if event == codes "CWT" && positive_serial location
    then true
    else if is_american e.country
    then submission_area location e.country true
    else if not (is_northern e)
        && location == codes "DX"
        && (event == codes "NAQP-CW" || is_sprint event)
    then true
    else (is_northern e || is_sprint event || event == codes "CWT" || event == codes "K1USN-SST")
      && src.lists location e.country

unfoldable pub name_and_location : Sources → Text → List Text → Entity → Bool
unfolding second_location submission_name list_beq
name_and_location src event (name ∷ []) e =
    submission_name name && not (is_northern e) && event == codes "NAQP-CW"
name_and_location src event (name ∷ location ∷ []) e =
    submission_name name && second_location src event location e
name_and_location src event _ e = false

unfoldable pub behind_serial : Sources → Text → List Text → Entity → Bool
unfolding name_and_location positive_serial
behind_serial src event [] e = false
behind_serial src event (serial ∷ words) e =
    positive_serial serial && name_and_location src event words e

unfoldable pub location_of_event : Sources → Text → Text → Entity → Bool
unfolding tn_location one_token behind_serial name_and_location fields list_beq
location_of_event src event token e =
    if event == codes "TNQP" || event == codes "TNQP-DX"
    then tn_location token e
    else if event == codes "ARRL-DX-CW" || event == codes "CQ-160-CW"
    then one_token src event token e
    else if is_sprint event
    then behind_serial src event (fields token) e
    else name_and_location src event (fields token) e

-- `validateLocationSubmission`
unfoldable pub validate_location_submission : Sources → Text → Text → Text → Bool
unfolding at_entity location_of_event
validate_location_submission src event call token =
    at_entity src.lookup call (location_of_event src event token)

-- "XE" and a digit.
unfoldable pub is_call_area : Text → Bool
is_call_area (x ∷ e ∷ digit ∷ []) = nat_beq x b'X' && nat_beq e b'E' && within b'0' b'9' digit
is_call_area other = false

unfoldable pub rookie_location : Text → Entity → Bool
unfolding is_call_area submission_area list_beq
rookie_location location e =
    if e.country == codes "Mexico"
    then is_call_area location
    else if is_american e.country
    then submission_area location e.country true
    else location == codes "DX"

unfoldable pub rookie_words : List Text → Entity → Bool
unfolding rookie_location submission_name all_digits
rookie_words (name ∷ year ∷ location ∷ []) e =
    submission_name name && nat_beq (length year) 2 && all_digits year && rookie_location location e
rookie_words _ e = false

-- `validateRookieRoundupExchange`
unfoldable pub validate_rookie_roundup_exchange : Lookup → Text → Text → Bool
unfolding at_entity rookie_words fields
validate_rookie_roundup_exchange lookup call token =
    at_entity lookup call (rookie_words (fields token))

unfoldable pub fox_words : Floats → List Text → Entity → Bool
unfolding submission_area submission_name valid_submission_power list_beq
fox_words fl (location ∷ name ∷ power ∷ []) e =
    submission_name name
    && valid_submission_power fl power
    && (if is_american e.country
        then submission_area location e.country true
        else submission_name location)
fox_words fl _ e = false

-- `validateQRPFoxHuntExchange`
unfoldable pub validate_qrp_fox_hunt_exchange : Sources → Text → Text → Bool
unfolding at_entity fox_words fields
validate_qrp_fox_hunt_exchange src call token =
    at_entity src.lookup call (fox_words src.floats (fields token))

-- The hint's callsign between precedence and check is left out.
unfoldable pub without_call : Text → List Text → List Text
unfolding clean list_beq
without_call call (precedence ∷ own ∷ check ∷ section ∷ []) =
    if own == clean call
    then precedence ∷ check ∷ section ∷ []
    else precedence ∷ own ∷ check ∷ section ∷ []
without_call call words = words

unfoldable pub spaces : ℕ → Text
spaces zero = []
spaces (suc n) = b' ' ∷ spaces n

-- `%4s %s %2s %-3s`
unfoldable pub sweepstakes_columns : Text → Text → Text → Text → Text
unfolding spaces
sweepstakes_columns serial precedence check section =
    spaces (4 - length serial)
    ++ serial
    ++ codes " "
    ++ precedence
    ++ codes " "
    ++ spaces (2 - length check)
    ++ check
    ++ codes " "
    ++ section
    ++ spaces (3 - length section)

unfoldable pub sweepstakes_words : Text → List Text → Option Text
unfolding positive_serial contains_text all_digits arrl_section_code sweepstakes_columns
sweepstakes_words serial (precedence ∷ check ∷ section ∷ []) =
    if positive_serial serial
      && leb (length serial) 4
      && nat_beq (length precedence) 1
      && contains_text (codes "QABUMS") precedence
      && nat_beq (length check) 2
      && all_digits check
      && not (is_empty (arrl_section_code section))
    then some (sweepstakes_columns serial precedence check (arrl_section_code section))
    else none
sweepstakes_words serial _ = none

-- `sweepstakesExchange`; `none` is an error.
unfoldable pub sweepstakes_exchange : Text → Text → Text → Option Text
unfolding sweepstakes_words without_call fields to_upper
sweepstakes_exchange serial text call =
    sweepstakes_words serial (without_call call (fields (to_upper text)))
