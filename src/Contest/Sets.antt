-- ===== src/Contest/Sets.antt =====
-- What `record` does to each pair of multiplier sets, and to the sets of credited calls.
use w4gns_logger4men.Base.{
  ℕ, ◌≡◌, refl, ap, ◌∙◌, not, ◌&&◌, ◌||◌, [], nat_beq, if◌then◌else◌, arith,
}
use w4gns_logger4men.Text.{Text, is_empty}
use w4gns_logger4men.Exchange.{
  Entity, exchange_area_code, tn_county_code, canton_code, rdxc_oblast_code, dok_district_code,
  arrl_section_code, naqp_area_code, sst_area_code, iaru_exchange_zone, iaru_exchange_special,
  sac_area_code, is_wae_country,
}
use w4gns_logger4men.Exchange.Iota.{iota_multiplier_value}
use w4gns_logger4men.Wpx.{wpx_prefix}
use w4gns_logger4men.Contest.Types.{
  Qso, TextKind, NumberKind, text_index, Mults, Event, ContestState,
}
use w4gns_logger4men.Contest.Record.{
  Reference, record_text_value, record_value, credit_text, credit_number, county_code, credit_iaru,
  credit_codes, credit_distance, credit_exchange, classify, classify_resolved, note_country,
  credit_numbers, credit_wae, credit_dxcc_or_wae, credit_entity,
}

-- The text that a scored QSO gives to each pair of sets from its call and its exchange.
unfoldable pub exchange_value : Reference → Event → Text → Qso → TextKind → Text
exchange_value ref e call q TextKind.prefix = wpx_prefix call
exchange_value ref e call q TextKind.exchange_area = exchange_area_code q.srx_string
exchange_value ref e call q TextKind.county = county_code e q.srx_string
exchange_value ref e call q TextKind.tn_county = tn_county_code q.srx_string
exchange_value ref e call q TextKind.canton = canton_code q.srx_string
exchange_value ref e call q TextKind.oblast = rdxc_oblast_code q.srx_string
exchange_value ref e call q TextKind.dok_district = dok_district_code q.srx_string
exchange_value ref e call q TextKind.iota = iota_multiplier_value q.srx_string q.iota_ref
exchange_value ref e call q TextKind.naqp_area = naqp_area_code ref.dxcc q.srx_string
exchange_value ref e call q TextKind.sst_area = sst_area_code ref.dxcc q.srx_string
exchange_value ref e call q TextKind.arrl_section = arrl_section_code q.srx_string
exchange_value ref e call q TextKind.iaru_hq = iaru_exchange_special q.srx_string
exchange_value ref e call q TextKind.sac_area = []
exchange_value ref e call q TextKind.wae_country = []
exchange_value ref e call q TextKind.dxcc_or_wae = []

codes_value : Reference → Event → Text → Qso → TextKind → Text
unfolding exchange_value
codes_value ref e call q TextKind.iaru_hq = []
codes_value ref e call q k = exchange_value ref e call q k

-- The number that it gives to each pair of sets of numbers.
unfoldable pub exchange_number : Qso → NumberKind → ℕ
exchange_number q NumberKind.iaru_zone =
    if is_empty (iaru_exchange_special q.srx_string) then iaru_exchange_zone q.srx_string else 0
exchange_number q NumberKind.dxcc = 0
exchange_number q NumberKind.cqzone = 0
exchange_number q NumberKind.ituzone = 0
exchange_number q NumberKind.dxcc_non_wae = 0

module _ (ref : Reference) (call band key : Text) (q : Qso) (c : ContestState) where
  credit_codes-texts :
      (k : TextKind)
      → (credit_codes ref call band key q c).texts k
        ≡ record_text_value band (codes_value ref c.event call q k) (c.texts k)
  unfolding credit_codes codes_value record_text_value
  credit_codes-texts TextKind.prefix = refl
  credit_codes-texts _ = refl

  credit_codes-numbers : (credit_codes ref call band key q c).numbers ≡ c.numbers
  unfolding credit_codes
  credit_codes-numbers = refl

module _ (band key : Text) (q : Qso) where
  credit_iaru-texts :
      (c : ContestState) (k : TextKind)
      → (credit_iaru band key q c).texts k ≡ (
          if nat_beq (text_index k) (text_index TextKind.iaru_hq)
          then record_text_value band (iaru_exchange_special q.srx_string) (c.texts k)
          else c.texts k)
  unfolding credit_iaru credit_text credit_number record_text_value
  credit_iaru-texts c TextKind.prefix = ground arith
  credit_iaru-texts c _ = ground arith

  credit_iaru-numbers :
      (c : ContestState) (k : NumberKind)
      → (credit_iaru band key q c).numbers k ≡ record_value band (exchange_number q k) (c.numbers k)
  unfolding credit_iaru credit_text credit_number record_value exchange_number
  credit_iaru-numbers c NumberKind.iaru_zone = ground arith
  credit_iaru-numbers c _ = ground arith

module _ (ref : Reference) (call band key : Text) (q : Qso) (c : ContestState) where
  credit_distance-texts : (credit_distance ref key q c).texts ≡ c.texts
  unfolding credit_distance
  credit_distance-texts = ground arith

  credit_distance-numbers : (credit_distance ref key q c).numbers ≡ c.numbers
  unfolding credit_distance
  credit_distance-numbers = ground arith

module _ (ref : Reference) (call band key : Text) (q : Qso) (c : ContestState) where
  codes_then_iaru :
      (k : TextKind)
      → (if nat_beq (text_index k) (text_index TextKind.iaru_hq)
          then record_text_value band
              (iaru_exchange_special q.srx_string)
              ((credit_codes ref call band key q c).texts k)
          else (credit_codes ref call band key q c).texts k)
        ≡ record_text_value band (exchange_value ref c.event call q k) (c.texts k)
  unfolding credit_codes exchange_value record_text_value
  codes_then_iaru TextKind.prefix = refl
  codes_then_iaru _ = refl

  -- The exchange phase gives each pair of sets its one value.
  pub credit_exchange-texts :
      (k : TextKind)
      → (credit_exchange ref call band key q c).texts k
        ≡ record_text_value band (exchange_value ref c.event call q k) (c.texts k)
  unfolding credit_exchange
  credit_exchange-texts k =
      let before = credit_codes ref call band key q c in
      ap (λ (f : TextKind → Mults Text). f k)
        (credit_distance-texts ref call band key q (credit_iaru band key q before))
      ∙ credit_iaru-texts band key q before k
      ∙ codes_then_iaru k

  pub credit_exchange-numbers :
      (k : NumberKind)
      → (credit_exchange ref call band key q c).numbers k
        ≡ record_value band (exchange_number q k) (c.numbers k)
  unfolding credit_exchange
  credit_exchange-numbers k =
      let before = credit_codes ref call band key q c in
      ap (λ (f : NumberKind → Mults ℕ). f k)
        (credit_distance-numbers ref call band key q (credit_iaru band key q before))
      ∙ credit_iaru-numbers band key q before k
      ∙ ap (λ (f : NumberKind → Mults ℕ). record_value band (exchange_number q k) (f k))
          (credit_codes-numbers ref call band key q c)

-- The text and the number that the worked country gives.
unfoldable pub entity_text : Text → Entity → TextKind → Text
entity_text call e TextKind.sac_area = sac_area_code e call
entity_text call e TextKind.wae_country = if is_wae_country e.country then e.country else []
entity_text call e TextKind.dxcc_or_wae =
    if not (is_empty e.country) && (not (nat_beq e.dxcc_number 0) || is_wae_country e.country)
    then e.country
    else []
entity_text call e _ = []

unfoldable pub entity_value : Entity → NumberKind → ℕ
entity_value e NumberKind.iaru_zone = 0
entity_value e NumberKind.dxcc = e.dxcc_number
entity_value e NumberKind.cqzone = e.cq_zone
entity_value e NumberKind.ituzone = e.itu_zone
entity_value e NumberKind.dxcc_non_wae = if is_wae_country e.country then 0 else e.dxcc_number

module _ (call band key : Text) (q : Qso) (entity : Entity) where
  classify_resolved-texts :
      (c : ContestState)
      → (classify_resolved key q entity (note_country key entity c)).texts ≡ c.texts
  unfolding classify_resolved classify note_country
  classify_resolved-texts c = ground arith

  classify_resolved-numbers :
      (c : ContestState)
      → (classify_resolved key q entity (note_country key entity c)).numbers ≡ c.numbers
  unfolding classify_resolved classify note_country
  classify_resolved-numbers c = ground arith

  credit_sac : ContestState → ContestState
  credit_sac c =
      credit_text TextKind.sac_area band (sac_area_code entity call) (credit_numbers band entity c)

  credit_sac-texts :
      (c : ContestState) (k : TextKind)
      → (credit_dxcc_or_wae band entity (credit_wae band entity (credit_sac c))).texts k
        ≡ record_text_value band (entity_text call entity k) (c.texts k)
  unfolding credit_sac credit_numbers credit_wae credit_dxcc_or_wae entity_text record_text_value
  credit_sac-texts c TextKind.prefix = ground arith
  credit_sac-texts c _ = ground arith

  credit_sac-numbers :
      (c : ContestState) (k : NumberKind)
      → (credit_dxcc_or_wae band entity (credit_wae band entity (credit_sac c))).numbers k
        ≡ record_value band (entity_value entity k) (c.numbers k)
  unfolding credit_sac credit_numbers credit_wae credit_dxcc_or_wae entity_value record_value
  credit_sac-numbers c NumberKind.dxcc = ground arith
  credit_sac-numbers c _ = ground arith

  -- The country phase gives each pair of sets its one value.
  pub credit_entity-texts :
      (c : ContestState) (k : TextKind)
      → (credit_entity call band key q entity c).texts k
        ≡ record_text_value band (entity_text call entity k) (c.texts k)
  unfolding credit_entity credit_sac
  credit_entity-texts c k =
      ap (λ (f : TextKind → Mults Text). f k)
        (classify_resolved-texts
          (credit_dxcc_or_wae band entity (credit_wae band entity (credit_sac c))))
      ∙ credit_sac-texts c k

  pub credit_entity-numbers :
      (c : ContestState) (k : NumberKind)
      → (credit_entity call band key q entity c).numbers k
        ≡ record_value band (entity_value entity k) (c.numbers k)
  unfolding credit_entity credit_sac
  credit_entity-numbers c k =
      ap (λ (f : NumberKind → Mults ℕ). f k)
        (classify_resolved-numbers
          (credit_dxcc_or_wae band entity (credit_wae band entity (credit_sac c))))
      ∙ credit_sac-numbers c k
