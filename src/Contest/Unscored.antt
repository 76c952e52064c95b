-- ===== src/Contest/Unscored.antt =====
-- A QSO that does not count, flagged /X or a duplicate, and the score.
use w4gns_logger4men.Base.{
  ◌≡◌, refl, sym, ap, ◌∙◌, ◌⊎◌, inl, inr, Bool, true, false, ◌||◌, Option, none, some, List, [],
  ◌∷◌, arith, if◌then◌else◌, Bool-cases,
}
use w4gns_logger4men.Text.{Text, is_empty, clean}
use w4gns_logger4men.Exchange.{Entity}
use w4gns_logger4men.Contest.Types.{Qso, MultiplierRule, ScoringRules, ContestState}
use w4gns_logger4men.Contest.Record.{
  Reference, count_continent, worked_entity, place_entity, is_duplicate, mark_worked, call_band,
  index_flagged, index_qso, note_party, with_station, record_qso,
}
use w4gns_logger4men.Contest.Score.{
  ContestScore, Kind, no_multiplier, Scope, kind_of, scope_of, count_of, multiplier_count,
  sum_counts, qso_points_of, effective_multipliers, score,
}

-- The state without what the scorer never reads.
abbrev pub view : ContestState → ContestState
view c = record c {
  party_qsos = [];
  by_call = [];
  worked_call_band = [];
  unique_calls = [];
  times = [];
  continent_band = [];
}

qso_points_of-view :
    (r : ScoringRules) (c : ContestState) → qso_points_of r (view c) ≡ qso_points_of r c
unfolding qso_points_of
qso_points_of-view r c = refl

count_of-view : (k : Kind) (s : Scope) (c : ContestState) → count_of k s (view c) ≡ count_of k s c
unfolding count_of
count_of-view no_multiplier s c = refl
count_of-view _ s c = refl

sum_counts-view :
    (rules : List MultiplierRule) (c : ContestState)
    → sum_counts rules (view c) ≡ sum_counts rules c
unfolding sum_counts
sum_counts-view [] c = refl
sum_counts-view (rule ∷ rules) c =
    let same : multiplier_count rule (view c) ≡ multiplier_count rule c =
      unfold multiplier_count in count_of-view (kind_of rule.kind) (scope_of rule.per) c in
    omega (arith, same, sum_counts-view rules c)

score-view :
    (party : ContestState → ContestScore) (rules : Option ScoringRules) (c : ContestState)
    → c.event.qso_party ≡ false
    → score party rules (view c) ≡ score party rules c
unfolding score
score-view party none c h = ground arith
score-view party (some r) c h =
    ground (arith, qso_points_of-view r c, sum_counts-view (effective_multipliers r) c)

module _ (ref : Reference) (call band : Text) (q : Qso) where
  count_continent-view : (x : Entity) (c : ContestState) → view (count_continent band x c) ≡ view c
  unfolding count_continent
  count_continent-view x c = ground arith

  place_unscored-view :
      (key : Text) (o : Option Entity) (c : ContestState)
      → view (place_entity call band key (record q { unscored = true }) o c) ≡ view c
  unfolding place_entity
  place_unscored-view key none c = refl
  place_unscored-view key (some x) c = count_continent-view x c

  pub index_unscored-view :
      (c : ContestState) → view (index_flagged ref call band true q c) ≡ view c
  unfolding index_flagged mark_worked
  index_unscored-view c =
      place_unscored-view (call_band call band)
        (worked_entity ref c.event call (record q { unscored = true })) _

-- The QSO is flagged, or its call was already credited.
abbrev pub IsLeftOut : Qso → ContestState → Type 0
IsLeftOut q c =
    (q.unscored ≡ true)
    ⊎ (is_duplicate (clean q.call) (call_band (clean q.call) (clean q.band)) c ≡ true)

left_out : {a b : Bool} → (a ≡ true) ⊎ (b ≡ true) → (a || b) ≡ true
left_out (inl p) = ground arith
left_out (inr p) = ground arith

module _ (ref : Reference) (q : Qso) (c : ContestState) (h : IsLeftOut q c) where
  pub record_left_out-view : view (record_qso ref q c) ≡ view c
  unfolding record_qso index_qso is_duplicate with_station note_party
  record_left_out-view =
      let noted = note_party (with_station c q) c in
      let indexed = index_qso ref (clean q.call) (clean q.band) (with_station c q) noted in
      elim (Bool-cases (is_empty (clean q.call))) [
        | inl blank ↦ ap (λ b. view (if b then noted else indexed)) blank
        | inr named ↦
            ap (λ b. view (if b then noted else indexed)) named
            ∙ ap
                (λ b.
                  view (index_flagged ref (clean q.call) (clean q.band) b (with_station c q) noted))
                (left_out h)
            ∙ index_unscored-view ref (clean q.call) (clean q.band) (with_station c q) noted
      ]

  -- A QSO that is flagged /X, or whose call or call and band were already credited under the event's
  -- dupe scope, leaves the score as it was, under every rule set; for an event that is no QSO party.
  pub score-record_left_out :
      (party : ContestState → ContestScore) (rules : Option ScoringRules)
      → c.event.qso_party ≡ false
      → score party rules (record_qso ref q c) ≡ score party rules c
  score-record_left_out party rules plain =
      sym (
        score-view party rules (record_qso ref q c)
          (ap (λ (s : ContestState). s.event.qso_party) record_left_out-view ∙ plain))
      ∙ ap (score party rules) record_left_out-view
      ∙ score-view party rules c plain
