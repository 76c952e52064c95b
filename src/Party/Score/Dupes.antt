-- ===== src/Party/Score/Dupes.antt =====
-- A duplicate by `isPartyDupe`, and `partyScore`.
use w4gns_logger4men.Base.{
  ℕ, ◌≡◌, refl, ap, ◌∙◌, true, false, List, [], ◌∷◌, ◌++◌, arith, if◌then◌else◌, Bool-cases, inl,
  inr,
}
use w4gns_logger4men.Base.Results.{Result, ok, err}
use w4gns_logger4men.Base.Sets.{contains, insert, contains-insert}
use w4gns_logger4men.Text.{Text, text_eq}
use w4gns_logger4men.Contest.Types.{Time, Qso, ContestState}
use w4gns_logger4men.Party.{Party, Countries, PartyError}
use w4gns_logger4men.Party.Credits.{in_period, party_credits, party_credit_key}
use w4gns_logger4men.Party.Score.{
  Tally, no_tally, take_credit, take_credits, take_result, tally_qso, tally, finish, party_score,
  credit_keys, result_keys, is_compared, prior_keys, all_seen, dupe_of, is_party_dupe,
}

-- Every key of the set was paid for.
abbrev pub Covers : List Text → Tally → Type 0
Covers set a = (k : Text) → contains set k ≡ true → contains a.seen k ≡ true

-- No QSO of the log that `isPartyDupe` compares with the candidate is flagged /X.
abbrev pub AllScored : Party → Qso → ℕ → Time → List Qso → Type 0
AllScored p candidate exclude since [] = Unit {0}
AllScored p candidate exclude since (q ∷ qs) =
    (is_compared p candidate exclude since q ≡ true → q.unscored ≡ false)
    × AllScored p candidate exclude since qs

module _ (t : Countries) (p : Party) where
  Covers-take :
      (q credit : Qso) (set : List Text) (a : Tally)
      → Covers set a
      → Covers
          (insert (party_credit_key t p credit) set)
          (if contains a.seen (party_credit_key t p credit) then a else take_credit t p q credit a)
  unfolding take_credit
  Covers-take q credit set a h k m =
      elim (Bool-cases (contains a.seen (party_credit_key t p credit))) [
        | inl old ↦ rw old (
            ground (
              arith,
              contains-insert (party_credit_key t p credit) k set,
              h k,
              text_eq.beq_iff (party_credit_key t p credit) k,
            ))
        | inr new ↦ rw new (
            ground (
              arith,
              contains-insert (party_credit_key t p credit) k set,
              contains-insert (party_credit_key t p credit) k a.seen,
              h k,
            ))
      ]

  Covers-keep :
      (q credit : Qso) (set : List Text) (a : Tally)
      → Covers set a
      → Covers set
          (if contains a.seen (party_credit_key t p credit) then a else take_credit t p q credit a)
  unfolding take_credit
  Covers-keep q credit set a h k m =
      elim (Bool-cases (contains a.seen (party_credit_key t p credit))) [
        | inl old ↦ rw old (h k m)
        | inr new ↦
            rw new (ground (arith, contains-insert (party_credit_key t p credit) k a.seen, h k))
      ]

  Covers-credits :
      (q : Qso) (credits : List Qso) (set : List Text) (a : Tally)
      → Covers set a
      → Covers (credit_keys t p credits set) (take_credits t p q credits a)
  unfolding credit_keys take_credits
  Covers-credits q [] set a h = h
  Covers-credits q (credit ∷ credits) set a h =
      Covers-credits q credits _ _ (Covers-take q credit set a h)

  Covers-later :
      (q : Qso) (credits : List Qso) (set : List Text) (a : Tally)
      → Covers set a
      → Covers set (take_credits t p q credits a)
  unfolding take_credits
  Covers-later q [] set a h = h
  Covers-later q (credit ∷ credits) set a h =
      Covers-later q credits set _ (Covers-keep q credit set a h)

  Covers-result :
      (q : Qso) (r : Result PartyError (List Qso)) (set : List Text) (a : Tally)
      → Covers set a
      → Covers (result_keys t p r set) (take_result t p q r a)
  unfolding result_keys take_result
  Covers-result q (err e) set a h = h
  Covers-result q (ok credits) set a h = Covers-credits q credits set a h

  Covers-past :
      (q : Qso) (r : Result PartyError (List Qso)) (set : List Text) (a : Tally)
      → Covers set a
      → Covers set (take_result t p q r a)
  unfolding take_result
  Covers-past q (err e) set a h = h
  Covers-past q (ok credits) set a h = Covers-later q credits set a h

  Covers-tally :
      (q : Qso) (set : List Text) (a : Tally) → Covers set a → Covers set (tally_qso t p q a)
  unfolding tally_qso
  Covers-tally q set a h k m =
      ground (arith, Covers-past q (party_credits t p q) set a h k m, h k m)

  tally_qso_of_scored :
      (q : Qso) (a : Tally)
      → q.unscored ≡ false
      → in_period p.rules.periods q.time ≡ true
      → tally_qso t p q a ≡ take_result t p q (party_credits t p q) a
  unfolding tally_qso
  tally_qso_of_scored q a s h = ground arith

  is_compared-in_period :
      (candidate prior : Qso) (exclude : ℕ) (since : Time)
      → is_compared p candidate exclude since prior ≡ true
      → in_period p.rules.periods prior.time ≡ true
  unfolding is_compared
  is_compared-in_period candidate prior exclude since h = ground arith

  Covers-prior :
      (candidate prior : Qso) (exclude : ℕ) (since : Time) (set : List Text) (a : Tally)
      → (is_compared p candidate exclude since prior ≡ true → prior.unscored ≡ false)
      → Covers set a
      → Covers
          (if is_compared p candidate exclude since prior
            then result_keys t p (party_credits t p prior) set
            else set)
          (tally_qso t p prior a)
  Covers-prior candidate prior exclude since set a scored h =
      elim (Bool-cases (is_compared p candidate exclude since prior)) [
        | inl is ↦ rw is (
            rw
              (tally_qso_of_scored prior a (scored is)
                (is_compared-in_period candidate prior exclude since is))
              (Covers-result prior (party_credits t p prior) set a h))
        | inr other ↦ rw other (Covers-tally prior set a h)
      ]

  Covers-log :
      (candidate : Qso) (exclude : ℕ) (since : Time) (log : List Qso) (set : List Text) (a : Tally)
      → AllScored p candidate exclude since log
      → Covers set a
      → Covers (prior_keys t p candidate exclude since log set) (tally t p log a)
  unfolding prior_keys tally
  Covers-log candidate exclude since [] set a s h = h
  Covers-log candidate exclude since (prior ∷ log) set a (s, more) h =
      Covers-log candidate exclude since log _ _ more
        (Covers-prior candidate prior exclude since set a s h)

  take_credits_of_seen :
      (q : Qso) (credits : List Qso) (set : List Text) (a : Tally)
      → all_seen t p set credits ≡ true
      → Covers set a
      → take_credits t p q credits a ≡ a
  unfolding all_seen take_credits
  take_credits_of_seen q [] set a s h = refl
  take_credits_of_seen q (credit ∷ credits) set a s h =
      rw (h (party_credit_key t p credit) (ground arith))
        (take_credits_of_seen q credits set a (ground arith) h)

  take_result_of_dupe :
      (q : Qso) (r : Result PartyError (List Qso)) (set : List Text) (a : Tally)
      → dupe_of t p set r ≡ true
      → Covers set a
      → take_result t p q r a ≡ a
  unfolding dupe_of take_result
  take_result_of_dupe q (err e) set a d h = refl
  take_result_of_dupe q (ok []) set a d h = cc
  take_result_of_dupe q (ok (c ∷ cs)) set a d h = take_credits_of_seen q (c ∷ cs) set a d h

  tally-append :
      (log : List Qso) (q : Qso) (a : Tally)
      → tally t p (log ++ q ∷ []) a ≡ tally_qso t p q (tally t p log a)
  unfolding tally
  tally-append [] q a = refl
  tally-append (x ∷ log) q a = tally-append log q (tally_qso t p x a)

  tally_of_dupe :
      (q : Qso) (exclude : ℕ) (since : Time) (log : List Qso) (a : Tally)
      → Covers (prior_keys t p q exclude since log []) a
      → is_party_dupe t p q exclude since log ≡ true
      → tally_qso t p q a ≡ a
  unfolding tally_qso is_party_dupe
  tally_of_dupe q exclude since log a h d = ground (
    arith,
    take_result_of_dupe q (party_credits t p q) (prior_keys t p q exclude since log []) a d h,
  )

-- Where `isPartyDupe` calls the candidate a duplicate of the contest's log, whichever QSO it leaves
-- out and whatever the duplicate floor, and no QSO that it compares with the candidate is flagged
-- /X: logging the candidate behind that log leaves every part of `partyScore` as it was: QSO points,
-- multipliers, bonus points and power factor.
pub party_score_of_dupe :
    (t : Countries) (p : Party) (candidate : Qso) (exclude : ℕ) (since : Time) (c : ContestState)
    → AllScored p candidate exclude since c.party_qsos
    → is_party_dupe t p candidate exclude since c.party_qsos ≡ true
    → party_score t p (record c { party_qsos = c.party_qsos ++ candidate ∷ [] }) ≡ party_score t p c
unfolding party_score contains
party_score_of_dupe t p candidate exclude since c scored d =
    let same : tally t p (c.party_qsos ++ candidate ∷ []) no_tally
        ≡ tally t p c.party_qsos no_tally =
      tally-append t p c.party_qsos candidate no_tally
      ∙ tally_of_dupe t p candidate exclude since c.party_qsos (tally t p c.party_qsos no_tally)
          (Covers-log t p candidate exclude since c.party_qsos [] no_tally scored (λ k m. cc)) d in
    ap (finish p.rules c.party_category c.party_power) same
