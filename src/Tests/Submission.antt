-- ===== src/Tests/Submission.antt =====
-- Exchanges of an English and of a Canadian station.
use w4gns_logger4men.Base.{◌≡◌, refl, true, false, some}
use w4gns_logger4men.Base.Eq.{list_beq}
use w4gns_logger4men.Text.{codes, is_empty, in_table, has_prefix, contains_text}
use w4gns_logger4men.Exchange.{Entity, Lookup, exchange_area_code}
use w4gns_logger4men.Submission.Areas.{
  at_entity, canadian_submission_areas, is_canadian, submission_area,
}
use w4gns_logger4men.Submission.National.{
  validate_county_or_area_exchange, validate_uk_district_exchange,
  validate_uk_district_exchange-home,
}
use w4gns_logger4men.Submission.Counties.{
  area_or_dx, validate_area_or_dx_exchange, validate_us_county_or_dx_exchange,
  validate_kentucky_exchange, validate_7qp_exchange, validate_new_york_exchange,
}
use w4gns_logger4men.Submission.Charts.{
  validate_ilqp_exchange, validate_inqp_exchange, validate_nmqp_exchange,
}
use w4gns_logger4men.Submission.Accepted.{validate_area_or_dx_exchange-accepted}
use w4gns_logger4men.Submission.Counted.{submission_area-counts}

abbrev england : Entity
england = record {
  country = codes "England";
  cq_zone = 14;
  itu_zone = 27;
  continent = codes "EU";
  dxcc_number = 223;
}

abbrev english : Lookup
english call = some england

validate_uk_district_exchange-home_example :
    validate_uk_district_exchange english (codes "G4ABC") (codes "001 LN") ≡ false
unfolding in_table list_beq
validate_uk_district_exchange-home_example =
    validate_uk_district_exchange-home english (codes "G4ABC") (codes "001 LN") england refl refl

submission_area-counts_example : is_empty (exchange_area_code (codes "NF")) ≡ false
unfolding submission_area is_canadian canadian_submission_areas contains_text has_prefix list_beq
submission_area-counts_example =
    submission_area-counts english (codes "NF") (codes "Canada") false refl

validate_area_or_dx_exchange-accepted_example :
    (validate_us_county_or_dx_exchange english (codes "G4ABC") (codes "DX") ≡ true)
    × (validate_kentucky_exchange english (codes "G4ABC") (codes "DX") ≡ true)
    × (validate_county_or_area_exchange english (codes "G4ABC") (codes "DX") ≡ true)
    × (validate_7qp_exchange english (codes "G4ABC") (codes "DX") ≡ true)
    × (validate_new_york_exchange english (codes "G4ABC") (codes "DX") ≡ true)
    × (validate_ilqp_exchange english (codes "G4ABC") (codes "DX") ≡ true)
    × (validate_inqp_exchange english (codes "G4ABC") (codes "DX") ≡ true)
    × (validate_nmqp_exchange english (codes "G4ABC") (codes "DX") ≡ true)
unfolding validate_area_or_dx_exchange at_entity area_or_dx list_beq
validate_area_or_dx_exchange-accepted_example =
    validate_area_or_dx_exchange-accepted english (codes "G4ABC") (codes "DX") refl
