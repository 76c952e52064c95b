-- ===== src/Contest/Fresh.antt =====
-- What `record` does to the multiplier sets when the QSO counts: neither flagged /X nor a
-- duplicate.
use w4gns_logger4men.Base.{
  ℕ, ◌≡◌, refl, ap, ◌∙◌, Bool, false, ◌||◌, Option, none, some, [], arith, if◌then◌else◌,
}
use w4gns_logger4men.Text.{Text, text_eq, is_empty, clean}
use w4gns_logger4men.Exchange.{Entity}
use w4gns_logger4men.Contest.Types.{Qso, TextKind, NumberKind, Mults, Event, ContestState}
use w4gns_logger4men.Contest.Record.{
  Reference, record_text_value, record_value, credit_exchange, count_continent,
  entity_with_persisted_context, worked_entity, place_entity, is_duplicate, mark_worked,
  mark_scored, call_band, index_flagged, index_qso, note_party, with_station, record_qso,
}
use w4gns_logger4men.Contest.Sets.{
  exchange_value, exchange_number, credit_exchange-texts, credit_exchange-numbers, entity_text,
  entity_value, credit_entity-texts, credit_entity-numbers,
}

-- The QSO counts: it is not flagged, its call is not blank, and the call was not yet credited.
pub record IsFresh (q : Qso) (c : ContestState) : Type 0 where
  pub counted : q.unscored ≡ false
  pub named : is_empty (clean q.call) ≡ false
  pub first : is_duplicate (clean q.call) (call_band (clean q.call) (clean q.band)) c ≡ false

entity_texts : Text → Option Entity → TextKind → Text
entity_texts call none k = []
entity_texts call (some e) k = entity_text call e k

entity_values : Option Entity → NumberKind → ℕ
entity_values none k = 0
entity_values (some e) k = entity_value e k

-- The one text, or "", that a fresh QSO adds to a pair of sets.
unfoldable pub credited_text : Reference → Event → Text → Qso → Option Entity → TextKind → Text
unfolding entity_texts
credited_text ref e call q o TextKind.sac_area = entity_texts call o TextKind.sac_area
credited_text ref e call q o TextKind.wae_country = entity_texts call o TextKind.wae_country
credited_text ref e call q o TextKind.dxcc_or_wae = entity_texts call o TextKind.dxcc_or_wae
credited_text ref e call q o k = exchange_value ref e call q k

-- The one number, or 0.
unfoldable pub credited_number : Qso → Option Entity → NumberKind → ℕ
unfolding entity_values
credited_number q o NumberKind.iaru_zone = exchange_number q NumberKind.iaru_zone
credited_number q o k = entity_values o k

module _ (ref : Reference) (call band : Text) (q : Qso) (e : Event) where
  both_texts :
      (o : Option Entity) (k : TextKind) (m : Mults Text)
      → record_text_value band
          (entity_texts call o k)
          (record_text_value band (exchange_value ref e call q k) m)
        ≡ record_text_value band (credited_text ref e call q o k) m
  unfolding credited_text exchange_value entity_text record_text_value
  both_texts none TextKind.prefix m = refl
  both_texts none _ m = refl
  both_texts (some x) TextKind.prefix m = refl
  both_texts (some x) _ m = refl

  both_numbers :
      (o : Option Entity) (k : NumberKind) (m : Mults ℕ)
      → record_value band (entity_values o k) (record_value band (exchange_number q k) m)
        ≡ record_value band (credited_number q o k) m
  unfolding credited_number exchange_number entity_value record_value
  both_numbers none NumberKind.dxcc m = refl
  both_numbers none _ m = refl
  both_numbers (some x) NumberKind.dxcc m = refl
  both_numbers (some x) _ m = refl

-- The QSO as it is credited.
abbrev pub scored : Qso → Qso
scored q = record q { unscored = false }

module _ (call band key : Text) (q : Qso) (c : ContestState) where
  count_continent-texts : (x : Entity) → (count_continent band x c).texts ≡ c.texts
  unfolding count_continent
  count_continent-texts x = ground arith

  count_continent-numbers : (x : Entity) → (count_continent band x c).numbers ≡ c.numbers
  unfolding count_continent
  count_continent-numbers x = ground arith

module _ (call band key : Text) (q : Qso) (c : ContestState) where
  place_entity-texts :
      (o : Option Entity) (k : TextKind)
      → (place_entity call band key (scored q) o c).texts k
        ≡ record_text_value band (entity_texts call o k) (c.texts k)
  unfolding place_entity entity_texts
  place_entity-texts none k = unfold record_text_value in refl
  place_entity-texts (some x) k =
      credit_entity-texts call band key (scored q) x (count_continent band x c) k
      ∙ ap (λ (f : TextKind → Mults Text). record_text_value band (entity_text call x k) (f k))
          (count_continent-texts call band key q c x)

  place_entity-numbers :
      (o : Option Entity) (k : NumberKind)
      → (place_entity call band key (scored q) o c).numbers k
        ≡ record_value band (entity_values o k) (c.numbers k)
  unfolding place_entity entity_values
  place_entity-numbers none k = unfold record_value in refl
  place_entity-numbers (some x) k =
      credit_entity-numbers call band key (scored q) x (count_continent band x c) k
      ∙ ap (λ (f : NumberKind → Mults ℕ). record_value band (entity_value x k) (f k))
          (count_continent-numbers call band key q c x)

module _ (ref : Reference) (call band : Text) (q : Qso) (c : ContestState) where
  -- The state in which a fresh QSO has been marked as worked and scored.
  pub marked : ContestState
  marked = mark_scored call (call_band call band) (mark_worked call (call_band call band) q c)

  pub fresh_entity : Option Entity
  fresh_entity = worked_entity ref c.event call (scored q)

  pub index_fresh-texts :
      (k : TextKind)
      → (index_flagged ref call band false q c).texts k
        ≡ record_text_value band
            (credited_text ref c.event call (scored q) fresh_entity k)
            (c.texts k)
  unfolding index_flagged mark_worked mark_scored marked fresh_entity
  index_fresh-texts k =
      let key = call_band call band in
      place_entity-texts call band key q (credit_exchange ref call band key (scored q) marked)
        fresh_entity k
      ∙ ap (record_text_value band (entity_texts call fresh_entity k))
          (credit_exchange-texts ref call band key (scored q) marked k)
      ∙ both_texts ref call band (scored q) c.event fresh_entity k (c.texts k)

  pub index_fresh-numbers :
      (k : NumberKind)
      → (index_flagged ref call band false q c).numbers k
        ≡ record_value band (credited_number (scored q) fresh_entity k) (c.numbers k)
  unfolding index_flagged mark_worked mark_scored marked fresh_entity
  index_fresh-numbers k =
      let key = call_band call band in
      place_entity-numbers call band key q (credit_exchange ref call band key (scored q) marked)
        fresh_entity k
      ∙ ap (record_value band (entity_values fresh_entity k))
          (credit_exchange-numbers ref call band key (scored q) marked k)
      ∙ both_numbers ref call band (scored q) c.event fresh_entity k (c.numbers k)

or_false : {a b : Bool} → a ≡ false → b ≡ false → (a || b) ≡ false
or_false p q = ground arith

module _ (ref : Reference) (q : Qso) (c : ContestState) (f : IsFresh q c) where
  pub record_fresh :
      record_qso ref q c
      ≡ index_flagged ref
          (clean q.call)
          (clean q.band)
          false
          (with_station c q)
          (note_party (with_station c q) c)
  unfolding record_qso index_qso is_duplicate note_party with_station
  record_fresh =
      let noted = note_party (with_station c q) c in
      let indexed = index_qso ref (clean q.call) (clean q.band) (with_station c q) noted in
      let flag : (q.unscored
            || is_duplicate (clean q.call) (call_band (clean q.call) (clean q.band)) c)
          ≡ false =
        or_false f.counted f.first in
      ap (λ b. if b then noted else indexed) f.named
      ∙ ap (λ b. index_flagged ref (clean q.call) (clean q.band) b (with_station c q) noted) flag

  -- The QSO that is credited: the caller's, but for the flag and the station's call.
  abbrev credited_qso : Qso
  credited_qso = scored (with_station c q)

  -- A fresh QSO adds one text to each pair of sets of texts.
  pub record_fresh-texts :
      (k : TextKind)
      → (record_qso ref q c).texts k
        ≡ record_text_value
            (clean q.band)
            (credited_text ref c.event
              (clean q.call)
              q
              (worked_entity ref c.event (clean q.call) q)
              k)
            (c.texts k)
  unfolding with_station note_party fresh_entity worked_entity credited_text exchange_value
      entity_texts entity_text entity_with_persisted_context
  record_fresh-texts TextKind.prefix =
      ap (λ (s : ContestState). s.texts TextKind.prefix) record_fresh
      ∙ index_fresh-texts ref (clean q.call) (clean q.band) (with_station c q)
          (note_party (with_station c q) c) TextKind.prefix
  record_fresh-texts k =
      ap (λ (s : ContestState). s.texts k) record_fresh
      ∙ index_fresh-texts ref (clean q.call) (clean q.band) (with_station c q)
          (note_party (with_station c q) c) k

  -- And one number to each pair of sets of numbers.
  pub record_fresh-numbers :
      (k : NumberKind)
      → (record_qso ref q c).numbers k
        ≡ record_value
            (clean q.band)
            (credited_number q (worked_entity ref c.event (clean q.call) q) k)
            (c.numbers k)
  unfolding with_station note_party fresh_entity worked_entity credited_number exchange_number
      entity_values entity_value entity_with_persisted_context
  record_fresh-numbers NumberKind.dxcc =
      ap (λ (s : ContestState). s.numbers NumberKind.dxcc) record_fresh
      ∙ index_fresh-numbers ref (clean q.call) (clean q.band) (with_station c q)
          (note_party (with_station c q) c) NumberKind.dxcc
  record_fresh-numbers k =
      ap (λ (s : ContestState). s.numbers k) record_fresh
      ∙ index_fresh-numbers ref (clean q.call) (clean q.band) (with_station c q)
          (note_party (with_station c q) c) k
