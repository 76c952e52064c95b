-- ===== src/Contest/Invariant.antt =====
-- The invariant of the index, and that every index built from a log has it.
use w4gns_logger4men.Base.{
  ℕ, ◌≤◌, ◌≡◌, sym, inl, inr, Bool, true, false, ◌||◌, List, [], ◌∷◌, arith, length, if◌then◌else◌,
  Bool-cases, nat_beq,
}
use w4gns_logger4men.Base.Eq.{Eq, nat_eq}
use w4gns_logger4men.Base.Sets.{
  contains, insert, Distinct, Within, contains-insert, length-insert, insert-Distinct,
  Within-insert, Within-mono,
}
use w4gns_logger4men.Base.Maps.{
  get_or, total_size, set_at, insert_at, set_at-insert_at, total_size-insert_at,
}
use w4gns_logger4men.Text.{Text, text_eq, is_empty, clean}
use w4gns_logger4men.Contest.Types.{
  Qso, Event, TextKind, NumberKind, Mults, no_mults, ContestState, new_contest_state,
}
use w4gns_logger4men.Contest.Record.{
  Reference, record_text_value, record_value, is_duplicate, mark_worked, mark_scored, call_band,
  index_flagged, index_qso, note_party, with_station, record_qso,
}
use w4gns_logger4men.Contest.Keeps.{Kept, kept, index_scored-kept, index_unscored-kept}
use w4gns_logger4men.Contest.Fresh.{index_fresh-texts, index_fresh-numbers}
use w4gns_logger4men.Contest.Unscored.{index_unscored-view}
use mathlib.Core.Path.{subst}
use w4gns_logger4men.Contest.Queries.{record_all, set_station, build_contest_state}

-- One pair of sets: nothing twice, every band's values among the contest's, and no more values in
-- the contest than on the bands together.
pub record IsCounted {A : Type 0} ⦃e : Eq A⦄ (m : Mults A) : Type 0 where
  pub distinct : Distinct m.all
  pub inside : (b : Text) (a : A) → contains (set_at b m.by_band) a ≡ true → contains m.all a ≡ true
  pub covered : length m.all ≤ total_size m.by_band

module _ {A : Type 0} ⦃e : Eq A⦄ (band : Text) (value : A) (m : Mults A) where
  pub added-IsCounted :
      IsCounted m
      → IsCounted {A = A}
          (record { by_band = insert_at band value m.by_band; all = insert value m.all })
  added-IsCounted h = record {
    distinct = insert-Distinct value m.all h.distinct;
    inside = λ b a p. ground (
      arith,
      p,
      set_at-insert_at band b value m.by_band,
      contains-insert value a m.all,
      contains-insert value a (set_at band m.by_band),
      h.inside b a,
      h.inside band a,
    );
    covered = ground (
      arith,
      length-insert value m.all,
      total_size-insert_at band value m.by_band,
      h.inside band value,
      h.covered,
    );
  }

text_value-IsCounted :
    (band value : Text) (m : Mults Text) → IsCounted m → IsCounted (record_text_value band value m)
unfolding record_text_value
text_value-IsCounted band [] m h = h
text_value-IsCounted band (x ∷ xs) m h = added-IsCounted band (x ∷ xs) m h

value-IsCounted :
    (band : Text) (value : ℕ) (m : Mults ℕ) → IsCounted m → IsCounted (record_value band value m)
unfolding record_value
value-IsCounted band value m h = elim (Bool-cases (nat_beq value 0)) [
  | inl zero_value ↦ rw zero_value h
  | inr real_value ↦ rw real_value (added-IsCounted band value m h)
]

-- The calls: none stands twice, and what is scored was worked.
pub record AreConsistent (k : Kept) : Type 0 where
  pub worked : Distinct k.worked_call_band
  pub unique : Distinct k.unique_calls
  pub scored : Distinct k.scored_call_band
  pub scored_unique : Distinct k.scored_unique_calls
  pub scored_worked : Within k.scored_call_band k.worked_call_band
  pub scored_unique_worked : Within k.scored_unique_calls k.unique_calls

pub record IsIndexed (c : ContestState) : Type 0 where
  pub calls : AreConsistent (kept c)
  pub texts : (k : TextKind) → IsCounted (c.texts k)
  pub numbers : (k : NumberKind) → IsCounted (c.numbers k)

Within-insert_right : (a : Text) (xs ys : List Text) → Within xs ys → Within xs (insert a ys)
Within-insert_right a xs ys w =
    Within-mono xs ys (insert a ys) (λ b h. ground (arith, h, contains-insert a b ys)) w

module _ (call key : Text) (q : Qso) (c : ContestState) (h : AreConsistent (kept c)) where
  mark_worked-consistent : AreConsistent (kept (mark_worked call key q c))
  unfolding mark_worked
  mark_worked-consistent = record {
    worked = insert-Distinct key c.worked_call_band h.worked;
    unique = insert-Distinct call c.unique_calls h.unique;
    scored = h.scored;
    scored_unique = h.scored_unique;
    scored_worked = Within-insert_right key c.scored_call_band c.worked_call_band h.scored_worked;
    scored_unique_worked =
        Within-insert_right call c.scored_unique_calls c.unique_calls h.scored_unique_worked;
  }

  mark_scored-consistent : AreConsistent (kept (mark_scored call key (mark_worked call key q c)))
  unfolding mark_worked mark_scored
  mark_scored-consistent = record {
    worked = insert-Distinct key c.worked_call_band h.worked;
    unique = insert-Distinct call c.unique_calls h.unique;
    scored = insert-Distinct key c.scored_call_band h.scored;
    scored_unique = insert-Distinct call c.scored_unique_calls h.scored_unique;
    scored_worked = Within-insert key c.scored_call_band c.worked_call_band h.scored_worked;
    scored_unique_worked =
        Within-insert call c.scored_unique_calls c.unique_calls h.scored_unique_worked;
  }

module _ (ref : Reference) (call band : Text) (q : Qso) where
  index_flagged-IsIndexed :
      (left_out : Bool) (c : ContestState)
      → IsIndexed c
      → IsIndexed (index_flagged ref call band left_out q c)
  index_flagged-IsIndexed false c h = record {
    calls =
        subst AreConsistent (sym (index_scored-kept ref call band q c))
          (mark_scored-consistent call (call_band call band) q c h.calls);
    texts = λ k.
        subst IsCounted (sym (index_fresh-texts ref call band q c k))
          (text_value-IsCounted band _ (c.texts k) (h.texts k));
    numbers = λ k.
        subst IsCounted (sym (index_fresh-numbers ref call band q c k))
          (value-IsCounted band _ (c.numbers k) (h.numbers k));
  }
  index_flagged-IsIndexed true c h =
      let same = index_unscored-view ref call band q c in
      record {
        calls =
            subst AreConsistent (sym (index_unscored-kept ref call band q c))
              (mark_worked-consistent call (call_band call band) q c h.calls);
        texts = λ k. subst (λ (s : ContestState). IsCounted (s.texts k)) (sym same) (h.texts k);
        numbers =
            λ k. subst (λ (s : ContestState). IsCounted (s.numbers k)) (sym same) (h.numbers k);
      }

either-IsIndexed :
    (b : Bool) {s t : ContestState} → IsIndexed s → IsIndexed t → IsIndexed (if b then s else t)
either-IsIndexed true hs ht = hs
either-IsIndexed false hs ht = ht

-- Recording any QSO keeps the invariant.
pub record_qso-IsIndexed :
    (ref : Reference) (q : Qso) (c : ContestState) → IsIndexed c → IsIndexed (record_qso ref q c)
unfolding record_qso index_qso note_party
record_qso-IsIndexed ref q c h =
    let noted_h : IsIndexed (note_party (with_station c q) c) = record {
      calls = h.calls;
      texts = h.texts;
      numbers = h.numbers;
    } in
    either-IsIndexed (is_empty (clean q.call)) noted_h (
      index_flagged-IsIndexed ref (clean q.call) (clean q.band) (with_station c q)
        (q.unscored
          || is_duplicate (clean q.call) (call_band (clean q.call) (clean q.band))
              (note_party (with_station c q) c))
        (note_party (with_station c q) c) noted_h)

record_all-IsIndexed :
    (ref : Reference) (qs : List Qso) (c : ContestState)
    → IsIndexed c
    → IsIndexed (record_all ref qs c)
unfolding record_all
record_all-IsIndexed ref [] c h = h
record_all-IsIndexed ref (q ∷ qs) c h =
    record_all-IsIndexed ref qs (record_qso ref q c) (record_qso-IsIndexed ref q c h)

set_station-kept :
    (ref : Reference) (callsign : Text) (c : ContestState)
    → (kept (set_station ref callsign c) ≡ kept c)
      × ((set_station ref callsign c).texts ≡ c.texts)
      × ((set_station ref callsign c).numbers ≡ c.numbers)
unfolding set_station
set_station-kept ref callsign c = (ground arith, ground arith, ground arith)

set_station-IsIndexed :
    (ref : Reference) (callsign : Text) (c : ContestState)
    → IsIndexed c
    → IsIndexed (set_station ref callsign c)
set_station-IsIndexed ref callsign c h =
    let (calls, texts, numbers) = set_station-kept ref callsign c in
    record {
      calls = subst AreConsistent (sym calls) h.calls;
      texts = λ k. subst (λ (f : TextKind → Mults Text). IsCounted (f k)) (sym texts) (h.texts k);
      numbers =
          λ k. subst (λ (f : NumberKind → Mults ℕ). IsCounted (f k)) (sym numbers) (h.numbers k);
    }

no_mults-IsCounted : {A : Type 0} ⦃e : Eq A⦄ → IsCounted {A = A} no_mults
unfolding set_at get_or contains total_size
no_mults-IsCounted = record { distinct = tt; inside = λ b a p. p; covered = omega arith }

new-IsIndexed : (event : Event) → IsIndexed (record new_contest_state { event = event })
unfolding new_contest_state
new-IsIndexed event = record {
  calls = record {
    worked = tt;
    unique = tt;
    scored = tt;
    scored_unique = tt;
    scored_worked = tt;
    scored_unique_worked = tt;
  };
  texts = λ k. no_mults-IsCounted;
  numbers = λ k. no_mults-IsCounted;
}

-- The index of any log is consistent: no set repeats a value, what was credited was worked, and for
-- every multiplier each band's values are among the values of the contest, whose number is at most
-- the sum of the bands' numbers.
pub build_contest_state-IsIndexed :
    (ref : Reference) (event : Event) (callsign : Text) (qs : List Qso)
    → IsIndexed (build_contest_state ref event callsign qs)
unfolding build_contest_state
build_contest_state-IsIndexed ref event callsign qs = record_all-IsIndexed ref qs _ (
    set_station-IsIndexed ref callsign (record new_contest_state { event = event })
      (new-IsIndexed event))
