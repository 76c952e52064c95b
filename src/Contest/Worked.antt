-- ===== src/Contest/Worked.antt =====
-- `isWorkedOnBand` against the log itself.
use w4gns_logger4men.Base.{
  ◌≡◌, ◌≢◌, refl, ap, Bool, true, false, not, ◌&&◌, ◌||◌, List, [], ◌∷◌, All, arith, if◌then◌else◌,
  Bool_of_iff,
}
use w4gns_logger4men.Base.Eq.{◌==◌, list_beq_iff, nat_eq}
use w4gns_logger4men.Base.Sets.{insert, contains-insert}
use w4gns_logger4men.Text.{Text, text_eq, is_empty, clean}
use w4gns_logger4men.Contest.Types.{Qso, ContestState}
use w4gns_logger4men.Contest.Record.{
  Reference, call_band, mark_worked, mark_scored, index_flagged, index_qso, note_party,
  with_station, record_qso, is_duplicate,
}
use w4gns_logger4men.Contest.Keeps.{Kept, index_scored-kept, index_unscored-kept}
use w4gns_logger4men.Contest.Queries.{is_worked_on_band, record_all}

-- The text has no `|`, the mark between call and band in a key.
abbrev pub LacksBar : Text → Type 0
LacksBar = All (λ c. c ≢ b'|')

call_band-injective :
    (a a' b b' : Text)
    → LacksBar a
    → LacksBar a'
    → call_band a b ≡ call_band a' b'
    → (a ≡ a') × (b ≡ b')
call_band-injective [] [] b b' h h' e = (refl, ground arith)
call_band-injective [] (x ∷ a') b b' h (n, h') e = absurd (n (cc))
call_band-injective (x ∷ a) [] b b' (n, h) h' e = absurd (n (cc))
call_band-injective (x ∷ a) (y ∷ a') b b' (n, h) (n', h') e =
    let (p, r) = call_band-injective a a' b b' h h' (ground arith) in (cc, r)

-- The log has a QSO with this call on this band; a blank call is no QSO.
unfoldable pub is_logged : Text → Text → List Qso → Bool
is_logged call band [] = false
is_logged call band (q ∷ qs) =
    not (is_empty (clean q.call)) && clean q.call == clean call && clean q.band == clean band
    || is_logged call band qs

module _ (ref : Reference) (q : Qso) (c : ContestState) where
  index_flagged-worked :
      (left_out : Bool) (call band : Text) (s : ContestState)
      → (index_flagged ref call band left_out q s).worked_call_band
        ≡ insert (call_band call band) s.worked_call_band
  unfolding mark_worked mark_scored
  index_flagged-worked false call band s =
      ap (λ (k : Kept). k.worked_call_band) (index_scored-kept ref call band q s)
  index_flagged-worked true call band s =
      ap (λ (k : Kept). k.worked_call_band) (index_unscored-kept ref call band q s)

either_worked :
    (b : Bool) (s t : ContestState) {x y : List Text}
    → s.worked_call_band ≡ x
    → t.worked_call_band ≡ y
    → (if b then s else t).worked_call_band ≡ (if b then x else y)
either_worked true s t p r = p
either_worked false s t p r = r

-- Flagged or not, duplicate or not, a QSO with a call marks its call and band as worked.
record_qso-worked :
    (ref : Reference) (q : Qso) (c : ContestState)
    → (record_qso ref q c).worked_call_band ≡ (
        if is_empty (clean q.call)
        then c.worked_call_band
        else insert (call_band (clean q.call) (clean q.band)) c.worked_call_band)
unfolding record_qso index_qso note_party
record_qso-worked ref q c =
    let noted = note_party (with_station c q) c in
    either_worked (is_empty (clean q.call)) noted
      (index_qso ref (clean q.call) (clean q.band) (with_station c q) noted) refl
      (index_flagged-worked ref (with_station c q) c
        (q.unscored || is_duplicate (clean q.call) (call_band (clean q.call) (clean q.band)) noted)
        (clean q.call) (clean q.band) noted)

-- The calls of a log that an entry form can have accepted.
abbrev pub HasPlainCalls : List Qso → Type 0
HasPlainCalls = All (λ q. LacksBar (clean q.call))

key_test :
    (a a' b b' : Text)
    → LacksBar a
    → LacksBar a'
    → (call_band a b == call_band a' b') ≡ (a == a' && b == b')
key_test a a' b b' h h' =
    Bool_of_iff _ _
      (λ e.
        let (p, r) = call_band-injective a a' b b' h h' ((list_beq_iff _ _).0 e) in
        rw ((list_beq_iff a a').1 p, (list_beq_iff b b').1 r) refl)
      (λ e. (list_beq_iff _ _).1 (ground (arith, e, list_beq_iff a a', list_beq_iff b b')))

worked-record_qso :
    (ref : Reference) (call band : Text) (q : Qso) (c : ContestState)
    → LacksBar (clean call)
    → LacksBar (clean q.call)
    → is_worked_on_band call band (record_qso ref q c) ≡ (
        not (is_empty (clean q.call)) && clean q.call == clean call && clean q.band == clean band
        || is_worked_on_band call band c)
unfolding is_worked_on_band
worked-record_qso ref call band q c h hq = ground (
  arith,
  record_qso-worked ref q c,
  contains-insert (call_band (clean q.call) (clean q.band)) (call_band (clean call) (clean band))
      c.worked_call_band,
  key_test (clean q.call) (clean call) (clean q.band) (clean band) hq h,
)

-- A call shows as worked on a band after a log exactly when it did before or the log has it on that
-- band; where neither this call nor a call of the log has the bar that separates call and band.
pub worked-record_all :
    (ref : Reference) (call band : Text) (qs : List Qso) (c : ContestState)
    → LacksBar (clean call)
    → HasPlainCalls qs
    → is_worked_on_band call band (record_all ref qs c)
      ≡ (is_logged call band qs || is_worked_on_band call band c)
unfolding record_all is_logged
worked-record_all ref call band [] c h hs = refl
worked-record_all ref call band (q ∷ qs) c h (hq, hs) = ground (
  arith,
  worked-record_all ref call band qs (record_qso ref q c) h hs,
  worked-record_qso ref call band q c h hq,
)
