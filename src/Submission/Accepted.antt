-- ===== src/Submission/Accepted.antt =====
-- What the validators of the QSO parties have in common.
use w4gns_logger4men.Base.{
  ◌≡◌, refl, Bool, true, false, not, ◌||◌, Option, none, some, arith, if◌then◌else◌,
}
use w4gns_logger4men.Base.Eq.{◌==◌}
use w4gns_logger4men.Text.{Text, text_eq, codes}
use w4gns_logger4men.Exchange.{Entity, Lookup}
use w4gns_logger4men.Submission.Areas.{
  at_entity, is_american, submission_area, looks_like_county_token,
}
use w4gns_logger4men.Submission.National.{validate_county_or_area_exchange}
use w4gns_logger4men.Submission.Counties.{
  area_or_dx, county_or_dx, seven, new_york, new_york_counties, validate_area_or_dx_exchange,
  validate_us_county_or_dx_exchange, validate_kentucky_exchange, validate_7qp_exchange,
  validate_new_york_exchange,
}
use w4gns_logger4men.Submission.Charts.{
  charted, validate_ilqp_exchange, validate_inqp_exchange, validate_nmqp_exchange,
}

-- A weaker check of the country accepts at least the same exchanges.
at_entity_mono :
    (lookup : Lookup) (call : Text) (a b : Entity → Bool)
    → ((e : Entity) → a e ≡ true → b e ≡ true)
    → at_entity lookup call a ≡ true
    → at_entity lookup call b ≡ true
unfolding at_entity
at_entity_mono lookup call a b h k = of (lookup call) k
  where
    of :
        (found : Option Entity)
        → elim found [ none ↦ false | some e ↦ a e ] ≡ true
        → elim found [ none ↦ false | some e ↦ b e ] ≡ true
    of none k = k
    of (some e) k = h e k

either : (a b : Bool) → b ≡ true → (a || b) ≡ true
either a b h = ground arith

left_wider :
    (american area dx more : Bool)
    → (if american then area else dx) ≡ true
    → (if american then area || more else dx) ≡ true
left_wider true true dx more h = refl
left_wider true false dx more h = absurd (ground arith)
left_wider false area dx more h = h

all_wider :
    (american area dx more : Bool)
    → (if american then area else dx) ≡ true
    → (dx || area || more) ≡ true
all_wider true true dx more h = ground arith
all_wider true false dx more h = absurd (ground arith)
all_wider false area true more h = refl
all_wider false area false more h = absurd (ground arith)

others_first :
    (american area dx more : Bool)
    → (if american then area else dx) ≡ true
    → (if not american then dx else area || more) ≡ true
others_first true true dx more h = refl
others_first true false dx more h = absurd (ground arith)
others_first false area dx more h = h

module _ (token : Text) (e : Entity) where
  county_or_dx_of_area : area_or_dx token e ≡ true → county_or_dx token e ≡ true
  unfolding area_or_dx county_or_dx
  county_or_dx_of_area h = left_wider (is_american e.country) _ _ _ h

  county_or_area_of_area :
      area_or_dx token e ≡ true
      → (token == codes "DX"
          || submission_area token e.country true
          || looks_like_county_token token)
        ≡ true
  unfolding area_or_dx
  county_or_area_of_area h =
      all_wider (is_american e.country) (submission_area token e.country true) (token == codes "DX")
        _ h

  seven_of_area : area_or_dx token e ≡ true → seven token e ≡ true
  unfolding area_or_dx seven
  seven_of_area h =
      all_wider (is_american e.country) (submission_area token e.country true) (token == codes "DX")
        _ h

  new_york_of_area : area_or_dx token e ≡ true → new_york token e ≡ true
  unfolding area_or_dx new_york
  new_york_of_area h =
      others_first (is_american e.country) (submission_area token e.country true)
        (token == codes "DX") (new_york_counties token) h

pub validate_area_or_dx_exchange-accepted :
    (lookup : Lookup) (call token : Text)
    → validate_area_or_dx_exchange lookup call token ≡ true
    → (validate_us_county_or_dx_exchange lookup call token ≡ true)
      × (validate_kentucky_exchange lookup call token ≡ true)
      × (validate_county_or_area_exchange lookup call token ≡ true)
      × (validate_7qp_exchange lookup call token ≡ true)
      × (validate_new_york_exchange lookup call token ≡ true)
      × (validate_ilqp_exchange lookup call token ≡ true)
      × (validate_inqp_exchange lookup call token ≡ true)
      × (validate_nmqp_exchange lookup call token ≡ true)
unfolding validate_area_or_dx_exchange validate_us_county_or_dx_exchange validate_kentucky_exchange
    validate_county_or_area_exchange validate_7qp_exchange validate_new_york_exchange
    validate_ilqp_exchange validate_inqp_exchange validate_nmqp_exchange charted
validate_area_or_dx_exchange-accepted lookup call token h = (
  county,
  ground (arith, county),
  at_entity_mono lookup call _ _ (county_or_area_of_area token) h,
  at_entity_mono lookup call _ _ (seven_of_area token) h,
  at_entity_mono lookup call _ _ (new_york_of_area token) h,
  either _ _ h,
  either _ _ h,
  either _ _ h,
)
  where
    county : at_entity lookup call (county_or_dx token) ≡ true
    county = at_entity_mono lookup call _ _ (county_or_dx_of_area token) h
