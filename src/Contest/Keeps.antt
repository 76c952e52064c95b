-- ===== src/Contest/Keeps.antt =====
-- What the phases of `record` leave alone: the credited calls, the worked calls, the event.
use w4gns_logger4men.Base.{◌≡◌, refl, ◌∙◌, true, false, Option, none, some, List, arith}
use w4gns_logger4men.Text.{Text, text_eq}
use w4gns_logger4men.Exchange.{Entity}
use w4gns_logger4men.Contest.Types.{Qso, Event, ContestState}
use w4gns_logger4men.Contest.Record.{
  Reference, credit_text, credit_number, credit_iaru, credit_codes, credit_distance,
  credit_exchange, count_continent, credit_entity, credit_numbers, credit_wae, credit_dxcc_or_wae,
  note_country, classify, classify_resolved, worked_entity, place_entity, mark_worked, mark_scored,
  call_band, index_flagged,
}

-- What none of the crediting phases writes.
pub record Kept : Type 0 where
  pub worked_call_band : List Text
  pub unique_calls : List Text
  pub scored_call_band : List Text
  pub scored_unique_calls : List Text
  pub event : Event

abbrev pub kept : ContestState → Kept
kept c = record {
  worked_call_band = c.worked_call_band;
  unique_calls = c.unique_calls;
  scored_call_band = c.scored_call_band;
  scored_unique_calls = c.scored_unique_calls;
  event = c.event;
}

module _ (ref : Reference) (call band key : Text) (q : Qso) where
  credit_iaru-kept : (c : ContestState) → kept (credit_iaru band key q c) ≡ kept c
  unfolding credit_iaru credit_text credit_number
  credit_iaru-kept c = ground arith

  credit_distance-kept : (c : ContestState) → kept (credit_distance ref key q c) ≡ kept c
  unfolding credit_distance
  credit_distance-kept c = ground arith

  credit_codes-kept : (c : ContestState) → kept (credit_codes ref call band key q c) ≡ kept c
  unfolding credit_codes
  credit_codes-kept c = refl

  pub credit_exchange-kept :
      (c : ContestState) → kept (credit_exchange ref call band key q c) ≡ kept c
  unfolding credit_exchange
  credit_exchange-kept c =
      credit_distance-kept (credit_iaru band key q (credit_codes ref call band key q c))
      ∙ credit_iaru-kept (credit_codes ref call band key q c)
      ∙ credit_codes-kept c

  count_continent-kept : (x : Entity) (c : ContestState) → kept (count_continent band x c) ≡ kept c
  unfolding count_continent
  count_continent-kept x c = ground arith

  classify_resolved-kept :
      (x : Entity) (c : ContestState)
      → kept (classify_resolved key q x (note_country key x c)) ≡ kept c
  unfolding classify_resolved note_country classify
  classify_resolved-kept x c = ground arith

  credit_wae-kept :
      (x : Entity) (c : ContestState)
      → kept (credit_dxcc_or_wae band x (credit_wae band x c)) ≡ kept c
  unfolding credit_dxcc_or_wae credit_wae
  credit_wae-kept x c = ground arith

  credit_entity-kept :
      (x : Entity) (c : ContestState) → kept (credit_entity call band key q x c) ≡ kept c
  unfolding credit_entity credit_numbers credit_text
  credit_entity-kept x c = classify_resolved-kept x _ ∙ credit_wae-kept x _

  pub place_entity-kept :
      (o : Option Entity) (c : ContestState) → kept (place_entity call band key q o c) ≡ kept c
  unfolding place_entity
  place_entity-kept none c = refl
  place_entity-kept (some x) c =
      ground (arith, count_continent-kept x c, credit_entity-kept x (count_continent band x c))

module _ (ref : Reference) (call band : Text) (q : Qso) (c : ContestState) where
  -- A QSO that counts is marked as worked and as scored; nothing else of these fields changes.
  pub index_scored-kept :
      kept (index_flagged ref call band false q c)
      ≡ kept (mark_scored call (call_band call band) (mark_worked call (call_band call band) q c))
  unfolding index_flagged
  index_scored-kept =
      let key = call_band call band in
      place_entity-kept ref call band key (record q { unscored = false })
        (worked_entity ref c.event call (record q { unscored = false })) _
      ∙ credit_exchange-kept ref call band key (record q { unscored = false }) _

  -- A QSO that does not count is marked as worked.
  pub index_unscored-kept :
      kept (index_flagged ref call band true q c)
      ≡ kept (mark_worked call (call_band call band) q c)
  unfolding index_flagged
  index_unscored-kept =
      place_entity-kept ref call band (call_band call band) (record q { unscored = true })
        (worked_entity ref c.event call (record q { unscored = true })) _
