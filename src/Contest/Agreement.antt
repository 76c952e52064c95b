-- ===== src/Contest/Agreement.antt =====
-- The flags that the operator sees against the score: both read the same sets.
use w4gns_logger4men.Base.{
  ℕ, ◌+◌, ◌<◌, ◌≡◌, refl, ap, ◌∙◌, ◌⊎◌, inl, inr, ◌↔◌, Bool, true, false, not, ◌&&◌, ◌||◌, Option,
  none, some, List, [], ◌∷◌, arith, length, nat_beq, if◌then◌else◌, All,
}
use w4gns_logger4men.Base.Eq.{Eq, nat_eq}
use w4gns_logger4men.Base.Sets.{contains, insert, length-insert}
use w4gns_logger4men.Base.Maps.{total_size, set_at, insert_at, total_size-insert_at}
use w4gns_logger4men.Text.{Text, text_eq, is_empty, clean}
use w4gns_logger4men.Text.Numeral.{positive}
use w4gns_logger4men.Text.Trim.{clean_idem}
use w4gns_logger4men.Exchange.{
  Entity, iaru_exchange_zone, iaru_exchange_special, is_wae_country, zone_or_zero,
}
use w4gns_logger4men.Exchange.Iota.{iota_reference_code, iota_multiplier_value}
use w4gns_logger4men.Contest.Types.{
  Qso, TextKind, NumberKind, Mults, MultiplierRule, ScoringRules, Event, ContestState,
}
use w4gns_logger4men.Contest.Record.{
  Reference, record_text_value, record_value, exchange_entity, entity_with_persisted_context,
  with_context, worked_entity, mark_worked, mark_scored, record_qso, with_station, note_party,
}
use w4gns_logger4men.Contest.Score.{
  Kind, no_multiplier, unique_call, of_texts, of_numbers, unsupported, Scope, band, contest,
  kind_of, scope_of, weighted_count, text_count, count_of, multiplier_count, sum_counts,
  effective_multipliers,
}
use w4gns_logger4men.Contest.Advance.{
  Verdict, skipped, worked_before, new_mult, verdict, text_candidate, number_candidate,
  text_already, number_already, kind_verdict, rule_verdict, exchange_entity?, flags,
  would_be_new_multiplier,
}
use w4gns_logger4men.Contest.Sets.{exchange_value, exchange_number, entity_text, entity_value}
use w4gns_logger4men.Contest.Keeps.{Kept, index_scored-kept}
use w4gns_logger4men.Contest.Fresh.{
  IsFresh, credited_text, credited_number, record_fresh, record_fresh-texts, record_fresh-numbers,
}

-- A rule that counts each value once, per band or per contest.
abbrev pub IsPlain : Scope → Type 0
IsPlain s = (s ≡ band) ⊎ (s ≡ contest)

-- A sum of two tests: 1 for a new value.
abbrev gain : Verdict → ℕ
gain skipped = 0
gain worked_before = 0
gain new_mult = 1

module _ {A : Type 0} ⦃e : Eq A⦄ (on : Text) (value : A) (m : Mults A) where
  -- One insertion into a pair of sets.
  abbrev added : Mults A
  added = record { by_band = insert_at on value m.by_band; all = insert value m.all }

  count_band-added :
      total_size added.by_band
      ≡ total_size m.by_band + gain (verdict (contains (set_at on m.by_band) value))
  count_band-added = ground (arith, total_size-insert_at on value m.by_band)

  count_all-added : length added.all ≡ length m.all + gain (verdict (contains m.all value))
  count_all-added = ground (arith, length-insert value m.all)

-- Recording a value raises the count by one exactly when it was not there.
text_count-record :
    (k : TextKind) (s : Scope) (on value : Text) (m : Mults Text)
    → IsPlain s
    → text_count k s (record_text_value on value m)
      ≡ text_count k s m
        + gain (if is_empty value then skipped else verdict (text_already k s on value m))
unfolding text_count text_already record_text_value
text_count-record TextKind.wae_country s on value m (inl p) =
    rw p (ground (arith, count_band-added on value m))
text_count-record TextKind.wae_country s on value m (inr p) =
    rw p (ground (arith, count_all-added on value m))
text_count-record TextKind.dxcc_or_wae s on value m (inl p) =
    rw p (ground (arith, count_band-added on value m))
text_count-record TextKind.dxcc_or_wae s on value m (inr p) =
    rw p (ground (arith, count_all-added on value m))
text_count-record _ s on value m (inl p) = rw p (ground (arith, count_band-added on value m))
text_count-record _ s on value m (inr p) = rw p (ground (arith, count_all-added on value m))

number_count-record :
    (k : NumberKind) (s : Scope) (on : Text) (value : ℕ) (m : Mults ℕ)
    → IsPlain s
    → weighted_count s (record_value on value m)
      ≡ weighted_count s m
        + gain (if nat_beq value 0 then skipped else verdict (number_already k s on value m))
unfolding weighted_count number_already record_value
number_count-record NumberKind.iaru_zone s on value m (inl p) =
    rw p (ground (arith, count_band-added on value m))
number_count-record NumberKind.iaru_zone s on value m (inr p) =
    rw p (ground (arith, count_all-added on value m))
number_count-record _ s on value m (inl p) = rw p (ground (arith, count_band-added on value m))
number_count-record _ s on value m (inr p) = rw p (ground (arith, count_all-added on value m))

-- The QSO says no more than what was on the screen: its country fields and its own island
-- reference are blank, so that country and island come from the call and the exchange.
pub record IsAsTyped (q : Qso) : Type 0 where
  pub country : q.country ≡ []
  pub dxcc_number : q.dxcc_number ≡ []
  pub cq_zone : q.cq_zone ≡ []
  pub itu_zone : q.itu_zone ≡ []
  pub iota_ref : q.iota_ref ≡ []

-- An abbreviation is never a zone.
zone_of_special :
    (text : Text)
    → (if is_empty (iaru_exchange_special text) then iaru_exchange_zone text else 0)
      ≡ iaru_exchange_zone text
unfolding iaru_exchange_special
zone_of_special text =
    let same : iaru_exchange_zone (clean text) ≡ iaru_exchange_zone text =
      unfold iaru_exchange_zone in ap (λ t. zone_or_zero (positive t)) (clean_idem text) in
    ground (arith, same)

iota_of_blank : (text : Text) → iota_multiplier_value text [] ≡ iota_reference_code text
unfolding iota_multiplier_value
iota_of_blank text = blank (iota_reference_code text)
  where
    blank : (t : Text) → (if is_empty t then [] else t) ≡ t
    blank [] = refl
    blank (x ∷ xs) = refl

-- The two ways in which the source writes one test.
flip_test :
    (blank zero_number wae : Bool) (t : Text)
    → (if not blank && (not zero_number || wae) then t else [])
      ≡ (if blank || zero_number && not wae then [] else t)
flip_test true z w t = refl
flip_test false true true t = refl
flip_test false true false t = refl
flip_test false false w t = refl

module _ (ref : Reference) (e : Event) (call : Text) (q : Qso) (typed : IsAsTyped q) where
  no_context : (x : Entity) → entity_with_persisted_context x q ≡ x
  unfolding entity_with_persisted_context
  no_context x = simp (typed.country, typed.dxcc_number, typed.cq_zone, typed.itu_zone)

  typed_context : (o : Option Entity) → with_context e q o ≡ exchange_entity? e q.srx_string o
  unfolding with_context exchange_entity?
  typed_context none = refl
  typed_context (some x) = ap (λ y. some (exchange_entity e y q.srx_string)) (no_context x)

  typed_entity : worked_entity ref e call q ≡ exchange_entity? e q.srx_string (ref.dxcc call)
  unfolding worked_entity
  typed_entity = typed_context (ref.dxcc call)

  candidate_text :
      (o : Option Entity) (k : TextKind)
      → credited_text ref e call q o k ≡ text_candidate ref e call q.srx_string o k
  unfolding credited_text exchange_value entity_text text_candidate
  candidate_text o TextKind.iota = rw typed.iota_ref (iota_of_blank q.srx_string)
  candidate_text none TextKind.prefix = refl
  candidate_text none _ = refl
  candidate_text (some x) TextKind.dxcc_or_wae =
      flip_test (is_empty x.country) (nat_beq x.dxcc_number 0) (is_wae_country x.country) x.country
  candidate_text (some x) _ = refl

  candidate_number :
      (o : Option Entity) (k : NumberKind)
      → credited_number q o k ≡ number_candidate q.srx_string o k
  unfolding credited_number exchange_number entity_value number_candidate
  candidate_number o NumberKind.iaru_zone = zone_of_special q.srx_string
  candidate_number none NumberKind.dxcc = refl
  candidate_number none _ = refl
  candidate_number (some x) NumberKind.dxcc = refl
  candidate_number (some x) _ = refl

module _ (ref : Reference) (q : Qso) (c : ContestState) (f : IsFresh q c) where
  -- A fresh QSO credits its call.
  record_fresh_unique :
      (record_qso ref q c).scored_unique_calls ≡ insert (clean q.call) c.scored_unique_calls
  unfolding with_station note_party mark_worked mark_scored
  record_fresh_unique =
      ap (λ (s : ContestState). s.scored_unique_calls) (record_fresh ref q c f)
      ∙ ap (λ (s : Kept). s.scored_unique_calls)
          (index_scored-kept ref (clean q.call) (clean q.band) (with_station c q)
            (note_party (with_station c q) c))

-- What the loop over the rules says of one rule, for the call, the band and the exchange of `q`.
abbrev verdict_on : Reference → Qso → MultiplierRule → ContestState → Verdict
verdict_on ref q rule c =
    rule_verdict ref (clean q.call) (clean q.band) q.srx_string
      (exchange_entity? c.event q.srx_string (ref.dxcc (clean q.call))) rule c

module _ (ref : Reference) (q : Qso) (c : ContestState) (f : IsFresh q c) (t : IsAsTyped q) where
  count_of-record :
      (k : Kind) (s : Scope)
      → IsPlain s
      → count_of k s (record_qso ref q c)
        ≡ count_of k s c
          + gain (
              kind_verdict ref
                (clean q.call)
                (clean q.band)
                q.srx_string
                (exchange_entity? c.event q.srx_string (ref.dxcc (clean q.call)))
                k
                s
                c)
  unfolding count_of kind_verdict
  count_of-record no_multiplier s p = omega arith
  count_of-record unsupported s p = omega arith
  count_of-record unique_call s p =
      rw (record_fresh_unique ref q c f)
        (ground (arith, length-insert (clean q.call) c.scored_unique_calls))
  count_of-record (of_texts k) s p =
      rw
        (
          record_fresh-texts ref q c f k,
          typed_entity ref c.event (clean q.call) q t,
          candidate_text ref c.event (clean q.call) q t _ k,
        )
        (text_count-record k s (clean q.band) _ (c.texts k) p)
  count_of-record (of_numbers k) s p =
      rw
        (
          record_fresh-numbers ref q c f k,
          typed_entity ref c.event (clean q.call) q t,
          candidate_number ref c.event (clean q.call) q t _ k,
        )
        (number_count-record k s (clean q.band) _ (c.numbers k) p)

  -- Logging a fresh QSO raises a rule's count by one exactly when the rule's verdict was "new".
  pub multiplier_count-record :
      (rule : MultiplierRule)
      → IsPlain (scope_of rule.per)
      → multiplier_count rule (record_qso ref q c)
        ≡ multiplier_count rule c + gain (verdict_on ref q rule c)
  unfolding multiplier_count rule_verdict
  multiplier_count-record rule p = count_of-record (kind_of rule.kind) (scope_of rule.per) p

  -- How many rules see a new multiplier.
  abbrev pub news : List MultiplierRule → ℕ
  news [] = 0
  news (rule ∷ rules) = gain (verdict_on ref q rule c) + news rules

  pub sum_counts-record :
      (rules : List MultiplierRule)
      → All (λ rule. IsPlain (scope_of rule.per)) rules
      → sum_counts rules (record_qso ref q c) ≡ sum_counts rules c + news rules
  unfolding sum_counts
  sum_counts-record [] p = omega arith
  sum_counts-record (rule ∷ rules) (p, ps) =
      omega (arith, multiplier_count-record rule p, sum_counts-record rules ps)

  flags-news :
      (rules : List MultiplierRule)
      → ((flags (λ rule. verdict_on ref q rule c) rules).0 ≡ true) ↔ (0 < news rules)
  unfolding flags
  flags-news [] = ground arith
  flags-news (rule ∷ rules) = ground (arith, flags-news rules)

  -- The "new multiplier" flag is lit exactly when logging the QSO raises the multiplier total; for a
  -- QSO that counts (not flagged /X, with a call, and not a duplicate), that carries no country, zone
  -- or island of its own beside the exchange, under rules that count per band or per contest.
  pub new_mult-iff-score :
      (rules : ScoringRules)
      → All (λ rule. IsPlain (scope_of rule.per)) (effective_multipliers rules)
      → ((would_be_new_multiplier ref rules q.call q.band q.srx_string
            (ref.dxcc (clean q.call))
            c).0
          ≡ true)
        ↔ (sum_counts (effective_multipliers rules) c
            < sum_counts (effective_multipliers rules) (record_qso ref q c))
  unfolding would_be_new_multiplier
  new_mult-iff-score rules p = ground (
    arith,
    sum_counts-record (effective_multipliers rules) p,
    flags-news (effective_multipliers rules),
  )
