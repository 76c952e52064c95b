-- ===== src/Party/Score.antt =====
-- `partyScore`, `partyNewMultiplier` and `isPartyDupe`.
pub mod Dupes
pub mod Bounds
use w4gns_logger4men.Base.{
  ℕ, zero, ◌+◌, ◌*◌, ◌/◌, Bool, true, false, not, ◌&&◌, ◌||◌, Option, none, some, List, [], ◌∷◌,
  ◌++◌, ltb, leb, nat_beq, if◌then◌else◌, length,
}
use w4gns_logger4men.Base.Eq.{◌==◌, list_beq}
use w4gns_logger4men.Base.Results.{Result, ok, err}
use w4gns_logger4men.Base.Sets.{contains, insert}
use w4gns_logger4men.Base.Maps.{get_or, put}
use w4gns_logger4men.Text.{Text, text_eq, codes, to_upper, equal_fold, has_prefix, in_table}
use w4gns_logger4men.Cabrillo.{or_default}
use w4gns_logger4men.Contest.Types.{Time, Qso, ContestState}
use w4gns_logger4men.Contest.Score.{ContestScore, no_score}
use w4gns_logger4men.Party.{Party, PartyRules, Countries, PartyError}
use w4gns_logger4men.Party.Credits.{
  in_period, sent_of, party_credits, party_credit_key, party_multiplier_keys,
}

-- The variables of `partyScore` during its loop.
pub record Tally : Type 0 where
  pub points : ℕ
  pub seen : List Text
  pub mults : List Text
  pub bonus : List Text
  pub county_contacts : List (Text × ℕ)
  pub all_special : Bool
  pub has_credit : Bool

abbrev pub no_tally : Tally
no_tally = record {
  points = 0;
  seen = [];
  mults = [];
  bonus = [];
  county_contacts = [];
  all_special = true;
  has_credit = false;
}

unfoldable pub insert_all : List Text → List Text → List Text
unfolding insert
insert_all [] set = set
insert_all (k ∷ ks) set = insert_all ks (insert k set)

-- `for _, county := range sent.counties { countyContacts[county]++ }`
unfoldable pub count_counties : List Text → List (Text × ℕ) → List (Text × ℕ)
unfolding get_or put
count_counties [] m = m
count_counties (c ∷ cs) m = count_counties cs (put c (get_or c 0 m + 1) m)

-- A credit whose key was not seen; `q` is the QSO it comes from.
unfoldable pub take_credit : Countries → Party → Qso → Qso → Tally → Tally
unfolding insert_all insert count_counties party_multiplier_keys party_credit_key in_table
    equal_fold to_upper
take_credit t p q credit a = record {
  points = a.points + p.rules.points;
  seen = insert (party_credit_key t p credit) a.seen;
  mults = insert_all (party_multiplier_keys t p credit) a.mults;
  bonus =
      if equal_fold q.call p.rules.bonus_call then insert (to_upper q.band) a.bonus else a.bonus;
  county_contacts = count_counties ((sent_of t p credit).0.counties) a.county_contacts;
  all_special = a.all_special && in_table p.rules.qso_only_calls (to_upper credit.station_callsign);
  has_credit = true;
}

-- The loop over the credits of one QSO.
unfoldable pub take_credits : Countries → Party → Qso → List Qso → Tally → Tally
unfolding take_credit contains party_credit_key
take_credits t p q [] a = a
take_credits t p q (credit ∷ credits) a =
    take_credits t p q credits
      (if contains a.seen (party_credit_key t p credit) then a else take_credit t p q credit a)

unfoldable pub take_result : Countries → Party → Qso → Result PartyError (List Qso) → Tally → Tally
unfolding take_credits
take_result t p q (err e) a = a
take_result t p q (ok credits) a = take_credits t p q credits a

-- One round of the loop over the log.
unfoldable pub tally_qso : Countries → Party → Qso → Tally → Tally
unfolding take_result party_credits in_period
tally_qso t p q a =
    if q.unscored || not (in_period p.rules.periods q.time)
    then a
    else take_result t p q (party_credits t p q) a

unfoldable pub tally : Countries → Party → List Qso → Tally → Tally
unfolding tally_qso
tally t p [] a = a
tally t p (q ∷ qs) a = tally t p qs (tally_qso t p q a)

unfoldable pub is_operated : Text → List Text → Bool
unfolding list_beq
is_operated county [] = false
is_operated county (k ∷ ks) =
    k == codes "county:" ++ county
    || has_prefix k (codes "county:" ++ county ++ codes "|")
    || is_operated county ks

-- The loop over the counties that a mobile or a rover was in.
unfoldable pub mobile_bonus : PartyRules → List (Text × ℕ) → ℕ × List Text → ℕ × List Text
unfolding is_operated insert
mobile_bonus r [] (bonus, mults) = (bonus, mults)
mobile_bonus r ((county, n) ∷ more) (bonus, mults) = mobile_bonus r more (
    if nat_beq r.mobile_county_minimum 0 || ltb n r.mobile_county_minimum then (bonus, mults) else (
      bonus + r.mobile_county_bonus,
      if r.mobile_county_multiplier && not (is_operated county mults)
          then insert (codes "operated:" ++ county) mults
          else mults,
    ))

abbrev is_moving : Text → Bool
is_moving category = category == codes "MOBILE" || category == codes "ROVER"

-- The bonus points and the multipliers, before the cap.
unfoldable pub with_bonus : PartyRules → Text → Tally → ℕ × List Text
unfolding mobile_bonus
with_bonus r category a =
    let base = length a.bonus * r.bonus_points in
    if is_moving category then mobile_bonus r a.county_contacts (base, a.mults) else (base, a.mults)

unfoldable pub cap_at : ℕ → ℕ → ℕ
cap_at limit n = if ltb 0 limit && ltb limit n then limit else n

-- What `partyScore` makes of its variables behind the loop.
unfoldable pub finish : PartyRules → Text → Text → Tally → ContestScore
unfolding with_bonus cap_at get_or or_default
finish r category power a =
    let extra = with_bonus r category a in
    if a.has_credit && a.all_special
    then record {
      qso_points = a.points / r.points;
      multipliers = 1;
      bonus_points = 0;
      power_factor = 1;
    }
    else record {
      qso_points = a.points;
      multipliers = cap_at r.multiplier_cap (length extra.1);
      bonus_points = extra.0;
      power_factor = get_or (or_default power (codes "HIGH")) 0 r.power_factors;
    }

-- `partyScore`
unfoldable pub party_score : Countries → Party → ContestState → ContestScore
unfolding tally finish
party_score t p c = finish p.rules c.party_category c.party_power (tally t p c.party_qsos no_tally)

-- The multipliers of a list of credits.
unfoldable pub credit_mults : Countries → Party → List Qso → List Text → List Text
unfolding insert_all party_multiplier_keys
credit_mults t p [] set = set
credit_mults t p (credit ∷ credits) set =
    credit_mults t p credits (insert_all (party_multiplier_keys t p credit) set)

unfoldable pub result_mults :
    Countries → Party → Result PartyError (List Qso) → List Text → List Text
unfolding credit_mults
result_mults t p (err e) set = set
result_mults t p (ok credits) set = credit_mults t p credits set

-- The loop of `partyNewMultiplier` over the log.
unfoldable pub known_mults : Countries → Party → List Qso → List Text → List Text
unfolding result_mults party_credits in_period
known_mults t p [] set = set
known_mults t p (q ∷ qs) set = known_mults t p qs (
    if q.unscored || not (in_period p.rules.periods q.time)
    then set
    else result_mults t p (party_credits t p q) set)

-- Whether a key is not in the set, and whether one is.
unfoldable pub any_fresh : List Text → List Text → Bool
unfolding contains
any_fresh set [] = false
any_fresh set (k ∷ ks) = not (contains set k) || any_fresh set ks

unfoldable pub any_known : List Text → List Text → Bool
unfolding contains
any_known set [] = false
any_known set (k ∷ ks) = contains set k || any_known set ks

unfoldable pub judge_credits : Countries → Party → List Text → List Qso → Bool × Bool
unfolding any_fresh any_known party_multiplier_keys
judge_credits t p set [] = (false, false)
judge_credits t p set (credit ∷ credits) =
    let rest = judge_credits t p set credits in
    let keys = party_multiplier_keys t p credit in
    (any_fresh set keys || rest.0, any_known set keys || rest.1)

unfoldable pub judge : Countries → Party → List Text → Result PartyError (List Qso) → Bool × Bool
unfolding judge_credits
judge t p set (err e) = (false, false)
judge t p set (ok credits) =
    let found = judge_credits t p set credits in
    let limit = p.rules.multiplier_cap in
    (found.0 && not (ltb 0 limit && leb limit (length set)), found.1)

-- `partyNewMultiplier`: whether the QSO would be a new multiplier, and whether one was worked.
unfoldable pub party_new_multiplier : Countries → Party → Qso → ContestState → Bool × Bool
unfolding judge known_mults party_credits
party_new_multiplier t p q c = judge t p (known_mults t p c.party_qsos []) (party_credits t p q)

unfoldable pub credit_keys : Countries → Party → List Qso → List Text → List Text
unfolding insert party_credit_key
credit_keys t p [] set = set
credit_keys t p (credit ∷ credits) set =
    credit_keys t p credits (insert (party_credit_key t p credit) set)

unfoldable pub result_keys :
    Countries → Party → Result PartyError (List Qso) → List Text → List Text
unfolding credit_keys
result_keys t p (err e) set = set
result_keys t p (ok credits) set = credit_keys t p credits set

-- Whether `isPartyDupe` compares the candidate with this QSO of the log.
unfoldable pub is_compared : Party → Qso → ℕ → Time → Qso → Bool
unfolding in_period equal_fold
is_compared p candidate exclude since prior =
    in_period p.rules.periods prior.time
    && not (nat_beq prior.id exclude && not (nat_beq exclude 0))
    && not (not (nat_beq since 0) && ltb prior.time since)
    && equal_fold prior.call candidate.call
    && equal_fold prior.band candidate.band

unfoldable pub prior_keys : Countries → Party → Qso → ℕ → Time → List Qso → List Text → List Text
unfolding is_compared result_keys party_credits
prior_keys t p candidate exclude since [] set = set
prior_keys t p candidate exclude since (prior ∷ log) set =
    prior_keys t p candidate exclude since log (
      if is_compared p candidate exclude since prior
      then result_keys t p (party_credits t p prior) set
      else set)

unfoldable pub all_seen : Countries → Party → List Text → List Qso → Bool
unfolding contains party_credit_key
all_seen t p set [] = true
all_seen t p set (credit ∷ credits) =
    contains set (party_credit_key t p credit) && all_seen t p set credits

unfoldable pub dupe_of : Countries → Party → List Text → Result PartyError (List Qso) → Bool
unfolding all_seen
dupe_of t p set (err e) = false
dupe_of t p set (ok []) = false
dupe_of t p set (ok (c ∷ cs)) = all_seen t p set (c ∷ cs)

-- `isPartyDupe`, where the store hands the contest's log over without an error.
unfoldable pub is_party_dupe : Countries → Party → Qso → ℕ → Time → List Qso → Bool
unfolding dupe_of prior_keys party_credits
is_party_dupe t p candidate exclude since log =
    dupe_of t p (prior_keys t p candidate exclude since log []) (party_credits t p candidate)
