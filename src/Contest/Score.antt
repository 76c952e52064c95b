-- ===== src/Contest/Score.antt =====
-- `multiplierCount` and `score` of contest_state.go, and the total of cabrillo_export.go.
use w4gns_logger4men.Base.{
  ℕ, ◌+◌, ◌*◌, Option, none, some, List, [], ◌∷◌, nat_beq, if◌then◌else◌, length,
}
use w4gns_logger4men.Base.Eq.{Eq, ◌==◌, nat_eq, list_beq}
use w4gns_logger4men.Base.Maps.{get, total_size, total_weight}
use w4gns_logger4men.Text.{Text, text_eq, codes, is_empty, trim_space}
use w4gns_logger4men.Exchange.{wae_band_bonus}
use w4gns_logger4men.Contest.Types.{
  TextKind, NumberKind, Mults, MultiplierRule, ScoringRules, ContestState,
}
use w4gns_logger4men.Contest.Points.{points_total}

-- What a multiplier rule's kind names.
pub data Kind : Type 0 where
  no_multiplier unique_call : Kind
  of_texts : TextKind → Kind
  of_numbers : NumberKind → Kind
  unsupported : Kind

kind_names : List (Text × Kind)
kind_names =
    (codes "none", no_multiplier)
    ∷ (codes "unique_call", unique_call)
    ∷ (codes "prefix", of_texts TextKind.prefix)
    ∷ (codes "exchange_area", of_texts TextKind.exchange_area)
    ∷ (codes "county", of_texts TextKind.county)
    ∷ (codes "tn_county", of_texts TextKind.tn_county)
    ∷ (codes "sac_area", of_texts TextKind.sac_area)
    ∷ (codes "naqp_area", of_texts TextKind.naqp_area)
    ∷ (codes "sst_area", of_texts TextKind.sst_area)
    ∷ (codes "arrl_section", of_texts TextKind.arrl_section)
    ∷ (codes "iaru_hq", of_texts TextKind.iaru_hq)
    ∷ (codes "wae_country", of_texts TextKind.wae_country)
    ∷ (codes "canton", of_texts TextKind.canton)
    ∷ (codes "oblast", of_texts TextKind.oblast)
    ∷ (codes "dxcc_or_wae", of_texts TextKind.dxcc_or_wae)
    ∷ (codes "dok_district", of_texts TextKind.dok_district)
    ∷ (codes "iota", of_texts TextKind.iota)
    ∷ (codes "dxcc", of_numbers NumberKind.dxcc)
    ∷ (codes "cqzone", of_numbers NumberKind.cqzone)
    ∷ (codes "ituzone", of_numbers NumberKind.ituzone)
    ∷ (codes "iaru_zone", of_numbers NumberKind.iaru_zone)
    ∷ (codes "dxcc_non_wae", of_numbers NumberKind.dxcc_non_wae)
    ∷ []

known_kind : Option Kind → Kind
known_kind none = unsupported
known_kind (some k) = k

-- `switch strings.TrimSpace(rule.Kind)`
unfoldable pub kind_of : Text → Kind
unfolding kind_names known_kind get trim_space list_beq
kind_of name = known_kind (get (trim_space name) kind_names)

-- `strings.TrimSpace(rule.Per)`, as far as the scorer tells its values apart.
pub data Scope : Type 0 where
  band contest band_weighted other : Scope

unfoldable pub scope_of : Text → Scope
unfolding trim_space list_beq
scope_of per =
    let p = trim_space per in
    if p == codes "band"
    then band
    else if p == codes "contest"
    then contest
    else if p == codes "band_weighted"
    then band_weighted
    else other

module _ {A : Type 0} ⦃e : Eq A⦄ where
  -- One set's count where the rule knows no weights.
  unfoldable pub plain_count : Scope → Mults A → ℕ
  plain_count band m = total_size m.by_band
  plain_count contest m = length m.all
  plain_count band_weighted m = length m.all
  plain_count other m = length m.all

  -- One set's count where the bands may be weighted.
  unfoldable pub weighted_count : Scope → Mults A → ℕ
  weighted_count band m = total_size m.by_band
  weighted_count contest m = length m.all
  weighted_count band_weighted m = total_weight wae_band_bonus m.by_band
  weighted_count other m = length m.all

-- Of the kinds whose values are texts, the WAE countries alone know weights.
unfoldable pub text_count : TextKind → Scope → Mults Text → ℕ
unfolding plain_count weighted_count
text_count TextKind.wae_country scope m = weighted_count scope m
text_count _ scope m = plain_count scope m

unfoldable pub count_of : Kind → Scope → ContestState → ℕ
unfolding text_count weighted_count
count_of no_multiplier scope c = 1
count_of unique_call scope c = length c.scored_unique_calls
count_of (of_texts k) scope c = text_count k scope (c.texts k)
count_of (of_numbers k) scope c = weighted_count scope (c.numbers k)
count_of unsupported scope c = 0

unfoldable pub multiplier_count : MultiplierRule → ContestState → ℕ
unfolding count_of kind_of scope_of
multiplier_count rule c = count_of (kind_of rule.kind) (scope_of rule.per) c

-- `effectiveMultipliers` of events.go
unfoldable pub effective_multipliers : ScoringRules → List MultiplierRule
unfolding trim_space
effective_multipliers r = elim r.multipliers [
  | [] ↦
      if is_empty (trim_space r.multiplier)
      then []
      else record { kind = trim_space r.multiplier; per = codes "contest" } ∷ []
  | rule ∷ rules ↦ rule ∷ rules
]

pub record ContestScore : Type 0 where
  pub qso_points : ℕ
  pub multipliers : ℕ
  pub bonus_points : ℕ
  pub power_factor : ℕ

abbrev pub no_score : ContestScore
no_score = record { qso_points = 0; multipliers = 0; bonus_points = 0; power_factor = 0 }

-- `total` of cabrillo_export.go
unfoldable pub total : ContestScore → ℕ
total s =
    s.qso_points * s.multipliers * (if nat_beq s.power_factor 0 then 1 else s.power_factor)
    + s.bonus_points

unfoldable pub sum_counts : List MultiplierRule → ContestState → ℕ
sum_counts [] c = 0
sum_counts (rule ∷ rules) c = multiplier_count rule c + sum_counts rules c

unfoldable pub qso_points_of : ScoringRules → ContestState → ℕ
unfolding points_total
qso_points_of rules c = elim rules.points [
  | none ↦ length c.scored_call_band * rules.points_per_qso
  | some rule ↦ points_total rule c
]

-- `score`; the score of a QSO party is `partyScore` of qso_party_rules.go, an argument here.
unfoldable pub score :
    (ContestState → ContestScore) → Option ScoringRules → ContestState → ContestScore
unfolding qso_points_of sum_counts effective_multipliers
score party rules c = if c.event.qso_party then party c else elim rules [
  | none ↦ no_score
  | some r ↦ record no_score {
    qso_points = qso_points_of r c;
    multipliers = sum_counts (effective_multipliers r) c;
  }
]
