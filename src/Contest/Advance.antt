-- ===== src/Contest/Advance.antt =====
-- `wouldBeNewMultiplier` of contest_state.go: the flags that the operator sees while typing.
use w4gns_logger4men.Base.{
  ℕ, Bool, true, false, not, ◌&&◌, ◌||◌, Option, none, some, List, [], ◌∷◌, nat_beq, if◌then◌else◌,
}
use w4gns_logger4men.Base.Eq.{Eq, nat_eq}
use w4gns_logger4men.Base.Sets.{contains}
use w4gns_logger4men.Base.Maps.{set_at}
use w4gns_logger4men.Text.{Text, text_eq, is_empty, clean}
use w4gns_logger4men.Exchange.{
  Entity, exchange_area_code, tn_county_code, canton_code, rdxc_oblast_code, dok_district_code,
  arrl_section_code, naqp_area_code, sst_area_code, iaru_exchange_zone, iaru_exchange_special,
  sac_area_code, is_wae_country,
}
use w4gns_logger4men.Exchange.Iota.{iota_reference_code}
use w4gns_logger4men.Wpx.{wpx_prefix}
use w4gns_logger4men.Contest.Types.{
  TextKind, NumberKind, Mults, MultiplierRule, ScoringRules, Event, ContestState,
}
use w4gns_logger4men.Contest.Record.{Reference, county_code, exchange_entity}
use w4gns_logger4men.Contest.Score.{
  Kind, no_multiplier, unique_call, of_texts, of_numbers, unsupported, Scope, band, contest,
  band_weighted, other, kind_of, scope_of, effective_multipliers,
}

-- What one rule says: `continue`, worked before, or a new multiplier.
pub data Verdict : Type 0 where
  skipped worked_before new_mult : Verdict

abbrev pub verdict : Bool → Verdict
verdict true = worked_before
verdict false = new_mult

sac_candidate : Text → Option Entity → Text
unfolding sac_area_code
sac_candidate call none = []
sac_candidate call (some e) = sac_area_code e call

wae_candidate : Option Entity → Text
unfolding is_wae_country
wae_candidate none = []
wae_candidate (some e) = if is_wae_country e.country then e.country else []

dxcc_or_wae_candidate : Option Entity → Text
unfolding is_wae_country
dxcc_or_wae_candidate none = []
dxcc_or_wae_candidate (some e) =
    if is_empty e.country || nat_beq e.dxcc_number 0 && not (is_wae_country e.country)
    then []
    else e.country

-- The text that a rule of this kind would count; "" if there is none.
unfoldable pub text_candidate : Reference → Event → Text → Text → Option Entity → TextKind → Text
unfolding sac_candidate wae_candidate dxcc_or_wae_candidate
text_candidate ref e call text entity TextKind.prefix = wpx_prefix call
text_candidate ref e call text entity TextKind.exchange_area = exchange_area_code text
text_candidate ref e call text entity TextKind.county = county_code e text
text_candidate ref e call text entity TextKind.tn_county = tn_county_code text
text_candidate ref e call text entity TextKind.canton = canton_code text
text_candidate ref e call text entity TextKind.oblast = rdxc_oblast_code text
text_candidate ref e call text entity TextKind.dok_district = dok_district_code text
text_candidate ref e call text entity TextKind.iota = iota_reference_code text
text_candidate ref e call text entity TextKind.naqp_area = naqp_area_code ref.dxcc text
text_candidate ref e call text entity TextKind.sst_area = sst_area_code ref.dxcc text
text_candidate ref e call text entity TextKind.arrl_section = arrl_section_code text
text_candidate ref e call text entity TextKind.iaru_hq = iaru_exchange_special text
text_candidate ref e call text entity TextKind.sac_area = sac_candidate call entity
text_candidate ref e call text entity TextKind.wae_country = wae_candidate entity
text_candidate ref e call text entity TextKind.dxcc_or_wae = dxcc_or_wae_candidate entity

entity_number : NumberKind → Entity → ℕ
unfolding is_wae_country
entity_number NumberKind.iaru_zone e = 0
entity_number NumberKind.dxcc e = e.dxcc_number
entity_number NumberKind.cqzone e = e.cq_zone
entity_number NumberKind.ituzone e = e.itu_zone
entity_number NumberKind.dxcc_non_wae e = if is_wae_country e.country then 0 else e.dxcc_number

found_number : NumberKind → Option Entity → ℕ
unfolding entity_number
found_number k none = 0
found_number k (some e) = entity_number k e

-- The number that a rule of this kind would count; 0 if there is none.
unfoldable pub number_candidate : Text → Option Entity → NumberKind → ℕ
unfolding found_number iaru_exchange_zone
number_candidate text entity NumberKind.iaru_zone = iaru_exchange_zone text
number_candidate text entity NumberKind.dxcc = found_number NumberKind.dxcc entity
number_candidate text entity NumberKind.cqzone = found_number NumberKind.cqzone entity
number_candidate text entity NumberKind.ituzone = found_number NumberKind.ituzone entity
number_candidate text entity NumberKind.dxcc_non_wae = found_number NumberKind.dxcc_non_wae entity

module _ {A : Type 0} ⦃e : Eq A⦄ where
  -- `if Per == "band" { ... byBand } else { ... all }`
  unfoldable pub already_by_band : Scope → Text → A → Mults A → Bool
  already_by_band band on value m = contains (set_at on m.by_band) value
  already_by_band contest on value m = contains m.all value
  already_by_band band_weighted on value m = contains m.all value
  already_by_band other on value m = contains m.all value

  -- `if Per == "contest" { ... all } else { ... byBand }`
  unfoldable pub already_unless_contest : Scope → Text → A → Mults A → Bool
  already_unless_contest band on value m = contains (set_at on m.by_band) value
  already_unless_contest contest on value m = contains m.all value
  already_unless_contest band_weighted on value m = contains (set_at on m.by_band) value
  already_unless_contest other on value m = contains (set_at on m.by_band) value

unfoldable pub text_already : TextKind → Scope → Text → Text → Mults Text → Bool
unfolding already_by_band already_unless_contest
text_already TextKind.wae_country scope on value m = already_unless_contest scope on value m
text_already TextKind.dxcc_or_wae scope on value m = already_unless_contest scope on value m
text_already _ scope on value m = already_by_band scope on value m

unfoldable pub number_already : NumberKind → Scope → Text → ℕ → Mults ℕ → Bool
unfolding already_by_band already_unless_contest
number_already NumberKind.iaru_zone scope on value m = already_by_band scope on value m
number_already _ scope on value m = already_unless_contest scope on value m

-- One round of the loop over the rules.
unfoldable pub kind_verdict :
    Reference → Text → Text → Text → Option Entity → Kind → Scope → ContestState → Verdict
unfolding text_candidate number_candidate text_already number_already
kind_verdict ref call on text entity no_multiplier scope c = skipped
kind_verdict ref call on text entity unique_call scope c =
    verdict (contains c.scored_unique_calls call)
kind_verdict ref call on text entity (of_texts k) scope c =
    let value = text_candidate ref c.event call text entity k in
    if is_empty value then skipped else verdict (text_already k scope on value (c.texts k))
kind_verdict ref call on text entity (of_numbers k) scope c =
    let value = number_candidate text entity k in
    if nat_beq value 0 then skipped else verdict (number_already k scope on value (c.numbers k))
kind_verdict ref call on text entity unsupported scope c = skipped

unfoldable pub rule_verdict :
    Reference → Text → Text → Text → Option Entity → MultiplierRule → ContestState → Verdict
unfolding kind_verdict
rule_verdict ref call on text entity rule c =
    kind_verdict ref call on text entity (kind_of rule.kind) (scope_of rule.per) c

abbrev pub is_new : Verdict → Bool
is_new skipped = false
is_new worked_before = false
is_new new_mult = true

abbrev pub is_worked : Verdict → Bool
is_worked skipped = false
is_worked worked_before = true
is_worked new_mult = false

-- The two results, `newMult` and `workedBefore`.
unfoldable pub flags : (MultiplierRule → Verdict) → List MultiplierRule → Bool × Bool
flags judge [] = (false, false)
flags judge (rule ∷ rules) =
    let rest = flags judge rules in
    (is_new (judge rule) || rest.0, is_worked (judge rule) || rest.1)

unfoldable pub exchange_entity? : Event → Text → Option Entity → Option Entity
exchange_entity? e text none = none
exchange_entity? e text (some entity) = some (exchange_entity e entity text)

unfoldable pub would_be_new_multiplier :
    Reference → ScoringRules → Text → Text → Text → Option Entity → ContestState → Bool × Bool
unfolding rule_verdict flags exchange_entity? effective_multipliers clean
would_be_new_multiplier ref rules call on text entity c =
    flags
      (λ rule.
        rule_verdict ref (clean call) (clean on) text (exchange_entity? c.event text entity) rule c)
      (effective_multipliers rules)
