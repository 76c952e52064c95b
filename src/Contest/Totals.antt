-- ===== src/Contest/Totals.antt =====
-- The QSO points of a log with one more QSO in it.
use w4gns_logger4men.Base.{◌+◌, ◌≡◌, ap, ◌∙◌, false, none, arith, length, if◌then◌else◌}
use w4gns_logger4men.Base.Sets.{contains, insert, length-insert}
use w4gns_logger4men.Text.{text_eq, codes, clean}
use w4gns_logger4men.Base.Eq.{◌==◌, nat_eq}
use w4gns_logger4men.Contest.Types.{Qso, ScoringRules, ContestState}
use w4gns_logger4men.Contest.Record.{
  Reference, is_duplicate, mark_worked, mark_scored, call_band, record_qso, with_station,
  note_party,
}
use w4gns_logger4men.Contest.Score.{qso_points_of}
use w4gns_logger4men.Contest.Keeps.{Kept, index_scored-kept}
use w4gns_logger4men.Contest.Fresh.{IsFresh, record_fresh}

module _ (ref : Reference) (q : Qso) (c : ContestState) (f : IsFresh q c) where
  record_fresh-scored :
      (record_qso ref q c).scored_call_band
      ≡ insert (call_band (clean q.call) (clean q.band)) c.scored_call_band
  unfolding with_station note_party mark_worked mark_scored
  record_fresh-scored =
      ap (λ (s : ContestState). s.scored_call_band) (record_fresh ref q c f)
      ∙ ap (λ (s : Kept). s.scored_call_band)
          (index_scored-kept ref (clean q.call) (clean q.band) (with_station c q)
            (note_party (with_station c q) c))

  -- A rule without point tiers pays a QSO that counts (not flagged /X, with a call, and not a
  -- duplicate) its points once, where dupes are not judged by the call alone.
  pub flat_points-record :
      (r : ScoringRules)
      → r.points ≡ none
      → (c.event.dupe_scope == codes "call") ≡ false
      → qso_points_of r (record_qso ref q c) ≡ qso_points_of r c + r.points_per_qso
  unfolding qso_points_of is_duplicate
  flat_points-record r flat scope =
      let key = call_band (clean q.call) (clean q.band) in
      let new : contains c.scored_call_band key ≡ false = ground (arith, f.first) in
      let one_more : length (record_qso ref q c).scored_call_band ≡ length c.scored_call_band + 1 =
        ap length record_fresh-scored
        ∙ length-insert key c.scored_call_band
        ∙ ap (λ b. if b then length c.scored_call_band else length c.scored_call_band + 1) new in
      rw (flat, one_more) (omega arith)
