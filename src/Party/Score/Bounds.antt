-- ===== src/Party/Score/Bounds.antt =====
-- What `partyScore` pays for, and how often.
use w4gns_logger4men.Base.{
  not, ◌||◌, ℕ, ◌+◌, ◌*◌, ◌/◌, ◌≤◌, ◌≡◌, refl, ap, ◌∙◌, Bool, true, false, ◌&&◌, List, [], ◌∷◌,
  arith, length, if◌then◌else◌,
}
use native.Mathlib.Nat.{mul-div_left, mul_comm}
use w4gns_logger4men.Base.Results.{Result, ok, err}
use w4gns_logger4men.Base.Sets.{
  contains, insert, Distinct, insert-Distinct, length-insert, contains-insert,
}
use w4gns_logger4men.Text.{Text, text_eq, codes}
use w4gns_logger4men.Base.Eq.{◌==◌}
use w4gns_logger4men.Contest.Types.{Qso, ContestState}
use w4gns_logger4men.Party.{Party, PartyRules, Countries, PartyError}
use w4gns_logger4men.Party.Credits.{
  in_period, party_credits, party_credit_key, party_multiplier_keys,
}
use w4gns_logger4men.Party.Score.{
  Tally, no_tally, insert_all, take_credit, take_credits, take_result, tally_qso, tally, with_bonus,
  cap_at, finish, party_score,
}

insert_all-Distinct : (ks set : List Text) → Distinct set → Distinct (insert_all ks set)
unfolding insert_all
insert_all-Distinct [] set d = d
insert_all-Distinct (k ∷ ks) set d = insert_all-Distinct ks (insert k set) (insert-Distinct k set d)

-- Whether one of the credits has the key.
unfoldable pub any_key : Countries → Party → Text → List Qso → Bool
any_key t p k [] = false
any_key t p k (credit ∷ credits) = party_credit_key t p credit == k || any_key t p k credits

unfoldable pub has_key : Countries → Party → Text → Result PartyError (List Qso) → Bool
unfolding any_key
has_key t p k (err e) = false
has_key t p k (ok credits) = any_key t p k credits

-- Whether a QSO of the log is not flagged /X, stands in a period of the party, and has exchanges that
-- are read and give a credit with the key.
unfoldable pub is_credited : Countries → Party → Text → List Qso → Bool
unfolding has_key
is_credited t p k [] = false
is_credited t p k (q ∷ qs) =
    not q.unscored && in_period p.rules.periods q.time && has_key t p k (party_credits t p q)
    || is_credited t p k qs

contains-known :
    (key k : Text) (set : List Text)
    → contains set key ≡ true
    → contains set k ≡ (key == k || contains set k)
contains-known key k set h = ground (arith, text_eq.beq_iff key k)

or_shift : (a b c : Bool) → (b || (a || c)) ≡ ((a || b) || c)
or_shift a b c = ground arith

module _ (t : Countries) (p : Party) (k : Text) where
  seen-take_credit :
      (q credit : Qso) (a : Tally)
      → contains (take_credit t p q credit a).seen k
        ≡ (party_credit_key t p credit == k || contains a.seen k)
  unfolding take_credit
  seen-take_credit q credit a = contains-insert (party_credit_key t p credit) k a.seen

  seen-choice :
      (q credit : Qso) (a : Tally) (b : Bool)
      → contains a.seen (party_credit_key t p credit) ≡ b
      → contains (if b then a else take_credit t p q credit a).seen k
        ≡ (party_credit_key t p credit == k || contains a.seen k)
  seen-choice q credit a true old = contains-known (party_credit_key t p credit) k a.seen old
  seen-choice q credit a false new = seen-take_credit q credit a

  seen-take_credits :
      (q : Qso) (credits : List Qso) (a : Tally)
      → contains (take_credits t p q credits a).seen k
        ≡ (any_key t p k credits || contains a.seen k)
  unfolding take_credits any_key
  seen-take_credits q [] a = refl
  seen-take_credits q (credit ∷ credits) a =
      seen-take_credits q credits _
      ∙ ap (λ b. any_key t p k credits || b)
          (seen-choice q credit a (contains a.seen (party_credit_key t p credit)) refl)
      ∙ or_shift (party_credit_key t p credit == k) (any_key t p k credits) (contains a.seen k)

  seen-take_result :
      (q : Qso) (r : Result PartyError (List Qso)) (a : Tally)
      → contains (take_result t p q r a).seen k ≡ (has_key t p k r || contains a.seen k)
  unfolding take_result has_key
  seen-take_result q (err e) a = refl
  seen-take_result q (ok credits) a = seen-take_credits q credits a

  seen-if :
      (flagged inside : Bool) (a b : Tally) (key : Bool)
      → contains b.seen k ≡ (key || contains a.seen k)
      → contains (if flagged || not inside then a else b).seen k
        ≡ (not flagged && inside && key || contains a.seen k)
  seen-if true inside a b key h = refl
  seen-if false true a b key h = h
  seen-if false false a b key h = refl

  seen-tally :
      (log : List Qso) (a : Tally)
      → contains (tally t p log a).seen k ≡ (is_credited t p k log || contains a.seen k)
  unfolding tally tally_qso is_credited
  seen-tally [] a = refl
  seen-tally (q ∷ log) a =
      seen-tally log _
      ∙ ap (λ b. is_credited t p k log || b)
          (seen-if q.unscored (in_period p.rules.periods q.time) a _
            (has_key t p k (party_credits t p q)) (seen-take_result q (party_credits t p q) a))
      ∙ or_shift
          (not q.unscored
            && in_period p.rules.periods q.time
            && has_key t p k (party_credits t p q))
          (is_credited t p k log) (contains a.seen k)

-- Each credit and each multiplier stands once, and every credit was paid the same.
pub record IsPaid (p : Party) (a : Tally) : Type 0 where
  pub seen : Distinct a.seen
  pub mults : Distinct a.mults
  pub points : a.points ≡ p.rules.points * length a.seen

length-new :
    (k : Text) (set : List Text) → contains set k ≡ false → length (insert k set) ≡ length set + 1
length-new k set new = ground (arith, length-insert k set)

grown : (n m l points : ℕ) → l ≡ m + 1 → points ≡ n * m → points + n ≡ n * l
grown n m l points p h = rw p (ground arith)

module _ (t : Countries) (p : Party) where
  take_credit-IsPaid :
      (q credit : Qso) (a : Tally)
      → contains a.seen (party_credit_key t p credit) ≡ false
      → IsPaid p a
      → IsPaid p (take_credit t p q credit a)
  unfolding take_credit
  take_credit-IsPaid q credit a new h = record {
    seen = insert-Distinct (party_credit_key t p credit) a.seen h.seen;
    mults = insert_all-Distinct (party_multiplier_keys t p credit) a.mults h.mults;
    points = grown p.rules.points (length a.seen) _ a.points (length-new _ a.seen new) h.points;
  }

  take_credits-IsPaid :
      (q : Qso) (credits : List Qso) (a : Tally)
      → IsPaid p a
      → IsPaid p (take_credits t p q credits a)
  unfolding take_credits
  take_credits-IsPaid q [] a h = h
  take_credits-IsPaid q (credit ∷ credits) a h =
      take_credits-IsPaid q credits _ (choice (contains a.seen (party_credit_key t p credit)) refl)
    where
      choice :
          (b : Bool)
          → contains a.seen (party_credit_key t p credit) ≡ b
          → IsPaid p (if b then a else take_credit t p q credit a)
      choice true old = h
      choice false new = take_credit-IsPaid q credit a new h

  take_result-IsPaid :
      (q : Qso) (r : Result PartyError (List Qso)) (a : Tally)
      → IsPaid p a
      → IsPaid p (take_result t p q r a)
  unfolding take_result
  take_result-IsPaid q (err e) a h = h
  take_result-IsPaid q (ok credits) a h = take_credits-IsPaid q credits a h

  IsPaid-if : (b : Bool) (x y : Tally) → IsPaid p x → IsPaid p y → IsPaid p (if b then x else y)
  IsPaid-if true x y h k = h
  IsPaid-if false x y h k = k

  -- The rounds of the loop over the log keep it true that no credit key and no multiplier key
  -- stands twice and that the points are the party's points per credit times the number of
  -- distinct credit keys, whatever the log holds.
  pub tally-IsPaid : (log : List Qso) (a : Tally) → IsPaid p a → IsPaid p (tally t p log a)
  unfolding tally tally_qso
  tally-IsPaid [] a h = h
  tally-IsPaid (q ∷ log) a h =
      tally-IsPaid log _ (IsPaid-if _ a _ h (take_result-IsPaid q (party_credits t p q) a h))

pub no_tally-IsPaid : (p : Party) → IsPaid p no_tally
no_tally-IsPaid p = record { seen = tt; mults = tt; points = omega arith }

cap_at_le : (limit n : ℕ) → 1 ≤ limit → cap_at limit n ≤ limit
unfolding cap_at
cap_at_le limit n h = ground arith

-- What a log is paid under a party's rules.
abbrev pub paid : Countries → Party → ContestState → Tally
paid t p c = tally t p c.party_qsos no_tally

cap_at_of_none : (n : ℕ) → cap_at 0 n ≡ n
unfolding cap_at
cap_at_of_none n = ground arith

-- Every QSO of the log that was credited was one of the "QSO only" calls.
abbrev pub is_special : Tally → Bool
is_special a = a.has_credit && a.all_special

finish-qso_points :
    (r : PartyRules) (category power : Text) (a : Tally)
    → 1 ≤ r.points
    → a.points ≡ r.points * length a.seen
    → (finish r category power a).qso_points
      ≡ (if is_special a then length a.seen else r.points * length a.seen)
unfolding finish
finish-qso_points r category power a pos h =
    let each : a.points / r.points ≡ length a.seen =
      ap (λ n. n / r.points) (h ∙ mul_comm r.points (length a.seen))
      ∙ mul-div_left (length a.seen) pos in
    ground arith

finish-multipliers :
    (r : PartyRules) (category power : Text) (a : Tally)
    → 1 ≤ r.multiplier_cap
    → (finish r category power a).multipliers ≤ r.multiplier_cap
unfolding finish
finish-multipliers r category power a h =
    ground (arith, cap_at_le r.multiplier_cap (length (with_bonus r category a).1) h)

-- For a party that pays at least one point per credit and has a multiplier cap: the credit keys that
-- the score of a log pays for are pairwise distinct, and they are exactly the keys of the credits of
-- the log's QSOs that are not flagged /X, stand in a period of the party and have readable exchanges;
-- the QSO points are the party's points for each key, or one for each key where the loop's
-- `allSpecial` holds and a credit was paid; and the multipliers never pass the cap.
pub party_score-bounds :
    (t : Countries) (p : Party) (c : ContestState)
    → 1 ≤ p.rules.points
    → 1 ≤ p.rules.multiplier_cap
    → Distinct (paid t p c).seen
      × ((k : Text) → contains (paid t p c).seen k ≡ is_credited t p k c.party_qsos)
      × ((party_score t p c).qso_points ≡ (
          if is_special (paid t p c)
          then length (paid t p c).seen
          else p.rules.points * length (paid t p c).seen))
      × ((party_score t p c).multipliers ≤ p.rules.multiplier_cap)
unfolding party_score
party_score-bounds t p c pos capped =
    let h = tally-IsPaid t p c.party_qsos no_tally (no_tally-IsPaid p) in
    (
      h.seen,
      (λ k. seen-tally t p k c.party_qsos no_tally ∙ none_before (is_credited t p k c.party_qsos)),
      finish-qso_points p.rules c.party_category c.party_power (paid t p c) pos h.points,
      finish-multipliers p.rules c.party_category c.party_power (paid t p c) capped,
    )
  where
    none_before : (b : Bool) → (b || contains [] (codes "")) ≡ b
    none_before b = unfold contains in ground arith
