-- ===== src/Store/Dupe/Scopes.antt =====
-- The duplicate scopes of `isDupe`, one inside the other, and the QSO that was just logged.
use w4gns_logger4men.Base.{
  ◌⊎◌, inl, inr, ℕ, ◌≤◌, ◌≡◌, refl, ap, ◌∙◌, Bool, true, false, ◌||◌, Option, none, some, List, [],
  ◌∷◌, ◌++◌, arith, nat_beq,
}
use w4gns_logger4men.Base.Eq.{◌==◌, list_beq, beq_refl}
use w4gns_logger4men.Text.{Text, text_eq, codes}
use w4gns_logger4men.Contest.Types.{Qso}
use w4gns_logger4men.Outbox.{stamp}
use w4gns_logger4men.Store.{Services, StoredQso, stored_qso}
use w4gns_logger4men.Store.Atomic.{logged_qso}
use w4gns_logger4men.Store.Dupe.{
  Question, occurrence, occurrence_column, in_event, in_scope, same_occurrence, is_match, any_match,
  is_dupe,
}

abbrev pub ask : Text → Question → Question
ask scope x = record x { dupe_scope = scope }

abbrev pub session_scope : Text
session_scope = codes "call+band+session"

abbrev pub band_scope : Text
band_scope = codes "call+band"

abbrev pub call_scope : Text
call_scope = codes "call"

-- LIKE finds a text that begins as the pattern does up to its last "%".
abbrev pub FindsPrefix : (Text → Text → Bool) → Type 0
FindsPrefix like = (p : Text) (c : ℕ) (s : Text) → like (p ++ c ∷ s) (p ++ c ∷ codes "%") ≡ true

-- The contest id is the event's, or the event's with a session or an occurrence behind it.
pub data IsContestOf : Text → Text → Type 0 where
  whole : (event : Text) → IsContestOf event event
  session : (event s : Text) → IsContestOf event (event ++ b'-' ∷ s)
  occurs : (event s : Text) → IsContestOf event (event ++ b'@' ∷ s)

-- `contest_id = ? OR contest_id LIKE ? OR contest_id LIKE ?` on the contest id alone.
abbrev event_test : (Text → Text → Bool) → Text → Text → Bool
event_test like event contest =
    contest == event || like contest (event ++ codes "-%") || like contest (event ++ codes "@%")

event_test_lem :
    (like : Text → Text → Bool) (event contest : Text)
    → FindsPrefix like
    → IsContestOf event contest
    → event_test like event contest ≡ true
event_test_lem like event _ f (whole _) = rw (beq_refl event) refl
event_test_lem like event _ f (session _ s) =
    or_second _ _ (like (event ++ b'-' ∷ s) (event ++ codes "@%")) (f event b'-' s)
  where
    or_second : (a b c : Bool) → b ≡ true → (a || b || c) ≡ true
    or_second a b c h = ground arith
event_test_lem like event _ f (occurs _ s) =
    or_third _ (like (event ++ b'@' ∷ s) (event ++ codes "-%")) _ (f event b'@' s)
  where
    or_third : (a b c : Bool) → c ≡ true → (a || b || c) ≡ true
    or_third a b c h = ground arith

module _ (like : Text → Text → Bool) (x : Question) (f : FindsPrefix like)
    (h : IsContestOf x.event_id x.contest_id) where
  in_event_of_session :
      (r : StoredQso) → (r.values.contest_id == x.contest_id) ≡ true → in_event like x r ≡ true
  unfolding in_event
  in_event_of_session r same =
      rw ((text_eq.beq_iff r.values.contest_id x.contest_id).0 same)
        (event_test_lem like x.event_id x.contest_id f h)

  match_of_session :
      (r : StoredQso)
      → is_match like (ask session_scope x) r ≡ true
      → is_match like (ask band_scope x) r ≡ true
  unfolding is_match in_scope list_beq
  match_of_session r m =
      let same : same_occurrence like (ask band_scope x) r
          ≡ same_occurrence like (ask session_scope x) r =
        unfold same_occurrence in refl in
      let event : in_event like (ask band_scope x) r ≡ in_event like x r =
        unfold in_event in refl in
      ground (arith, same, event, in_event_of_session r)

match_of_band :
    (like : Text → Text → Bool) (x : Question) (r : StoredQso)
    → is_match like (ask band_scope x) r ≡ true
    → is_match like (ask call_scope x) r ≡ true
unfolding is_match in_scope list_beq
match_of_band like x r m =
    let same : same_occurrence like (ask call_scope x) r
        ≡ same_occurrence like (ask band_scope x) r =
      unfold same_occurrence in refl in
    let event : in_event like (ask call_scope x) r ≡ in_event like (ask band_scope x) r =
      unfold in_event in refl in
    ground (arith, same, event)

any_match_mono :
    (like : Text → Text → Bool) (x y : Question)
    → ((r : StoredQso) → is_match like x r ≡ true → is_match like y r ≡ true)
    → (log : List StoredQso) → any_match like x log ≡ true
    → any_match like y log ≡ true
unfolding any_match
any_match_mono like x y f [] h = cc
any_match_mono like x y f (r ∷ log) h = ground (arith, f r, any_match_mono like x y f log)

some-true : {a b : Bool} → some a ≡ some true → (a ≡ true → b ≡ true) → some b ≡ some true
some-true p f = ap some (f (ground arith))

pub is_dupe_nested :
    (like : Text → Text → Bool) (x : Question) (log : List StoredQso)
    → FindsPrefix like
    → IsContestOf x.event_id x.contest_id
    → (is_dupe like (ask session_scope x) log ≡ some true)
      ⊎ (is_dupe like (ask band_scope x) log ≡ some true)
    → (is_dupe like (ask band_scope x) log ≡ some true)
      × (is_dupe like (ask call_scope x) log ≡ some true)
unfolding is_dupe list_beq
is_dupe_nested like x log f h (inl p) =
    let band = some-true p (
      any_match_mono like (ask session_scope x) (ask band_scope x) (match_of_session like x f h)
        log) in
    (
      band,
      some-true band
          (any_match_mono like (ask band_scope x) (ask call_scope x) (match_of_band like x) log),
    )
is_dupe_nested like x log f h (inr p) = (
  p,
  some-true p
      (any_match_mono like (ask band_scope x) (ask call_scope x) (match_of_band like x) log),
)

or_false : (a : Bool) → (a || false) ≡ a
or_false true = refl
or_false false = refl

or_assoc : (a b c : Bool) → (a || (b || c)) ≡ ((a || b) || c)
or_assoc true b c = refl
or_assoc false b c = refl

pub any_match-append :
    (like : Text → Text → Bool) (x : Question) (r : StoredQso) (log : List StoredQso)
    → any_match like x (log ++ r ∷ []) ≡ (any_match like x log || is_match like x r)
unfolding any_match
any_match-append like x r [] = or_false (is_match like x r)
any_match-append like x r (s ∷ log) =
    ap (λ b. is_match like x s || b) (any_match-append like x r log)
    ∙ or_assoc (is_match like x s) (any_match like x log) (is_match like x r)

-- The question that saving `q` again would ask in a contest, under an event's scope, leaving out a
-- row and with a duplicate floor.
abbrev pub question_of : Qso → Text → Text → ℕ → ℕ → ℕ → Question
question_of q event scope exclude now since = record {
  call = q.call;
  band = q.band;
  contest_id = q.contest_id;
  event_id = event;
  dupe_scope = scope;
  profile_id = q.profile_id;
  exclude_id = exclude;
  now = now;
  since = since;
}

occurrence_column-of :
    (contest wanted : Text)
    → occurrence contest ≡ some wanted
    → (occurrence_column contest == wanted) ≡ true
unfolding occurrence_column
occurrence_column-of contest wanted p = rw (p, occurrence_column) (beq_refl wanted)

own_occurrence :
    (contest : Text) (o : Option Text) (b : Bool)
    → occurrence contest ≡ o
    → elim o [ none ↦ true | some wanted ↦ b || occurrence_column contest == wanted ] ≡ true
own_occurrence contest none b p = refl
own_occurrence contest (some wanted) b p = ground (arith, occurrence_column-of contest wanted p)

module _ (like : Text → Text → Bool) (env : Services) (q : Qso) (event : Text)
    (id exclude now since : ℕ) (f : FindsPrefix like) (h : IsContestOf event q.contest_id)
    (other : nat_beq id exclude ≡ false) (later : stamp since ≤ stamp q.time) where
  own_row-occurrence :
      (scope : Text)
      → same_occurrence like (question_of q event scope exclude now since) (logged_qso env id q)
        ≡ true
  unfolding same_occurrence stored_qso
  own_row-occurrence scope =
      own_occurrence q.contest_id (occurrence q.contest_id) (scope == []) refl

  own_row-in_event :
      (scope : Text)
      → in_event like (question_of q event scope exclude now since) (logged_qso env id q) ≡ true
  unfolding in_event stored_qso
  own_row-in_event scope = event_test_lem like event q.contest_id f h

  own_row-in_scope :
      (scope : Text)
      → (scope == []) ≡ false
      → in_scope like (question_of q event scope exclude now since) (logged_qso env id q) ≡ true
  unfolding in_scope stored_qso
  own_row-in_scope scope named =
      ground
        (arith, own_row-in_event scope, beq_refl q.call, beq_refl q.band, beq_refl q.contest_id)

  pub own_row-is_match :
      (scope : Text)
      → (scope == []) ≡ false
      → is_match like (question_of q event scope exclude now since) (logged_qso env id q) ≡ true
  unfolding is_match stored_qso
  own_row-is_match scope named =
      ground (arith, own_row-in_scope scope named, own_row-occurrence scope)
