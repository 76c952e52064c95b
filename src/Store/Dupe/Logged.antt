-- ===== src/Store/Dupe/Logged.antt =====
-- A QSO that was just logged, to the duplicate check.
use w4gns_logger4men.Base.{
  ℕ, ◌≤◌, ◌<◌, ◌≡◌, refl, ap, ◌∙◌, Bool, true, false, not, ◌||◌, Option, none, some, List, [], ◌∷◌,
  ◌++◌, arith, nat_beq, if◌then◌else◌,
}
use w4gns_logger4men.Base.Eq.{◌==◌}
use w4gns_logger4men.Text.{Text, text_eq, codes}
use w4gns_logger4men.Contest.Types.{Time, Qso}
use w4gns_logger4men.Outbox.{Destination, stamp}
use w4gns_logger4men.Store.{Services, StoredQso, Database, stored_qso}
use w4gns_logger4men.Store.Transaction.{Holds}
use w4gns_logger4men.Store.Insert.{insert_qso_with_uploads}
use w4gns_logger4men.Store.Rules.{weaken-Holds}
use w4gns_logger4men.Store.Atomic.{AllBelow, logged_qso, IsInserted, insert_qso_with_uploads_lem}
use w4gns_logger4men.Store.Dupe.{
  Question, in_event, in_scope, same_occurrence, is_match, any_match, is_dupe,
}
use w4gns_logger4men.Store.Dupe.Scopes.{
  FindsPrefix, IsContestOf, question_of, any_match-append, own_row-is_match,
}

abbrev location_scope : Text
location_scope = codes "call+band+location"

-- Where LIKE finds the texts that begin as its pattern, the ids of the table are below the next one,
-- the QSO's contest id is the event's or the event's with "-" or "@" and more behind it, the check
-- leaves another row out or none, and the duplicate floor is no later than the QSO: a QSO that
-- `insertQSOWithUploads` stores is a duplicate to `isDupe` from then on, under every scope but the
-- blank one and "call+band+location"; where the insert fails, the tables are as they were.
pub is_dupe_of_logged :
    (env : Services) (q : Qso) (dests : List Destination) (not_before clock : Time)
    (bindings : Option (Destination → Text)) (answers : List Bool) (db : Database)
    (event scope : Text) (exclude : ℕ) (now since : Time)
    → AllBelow db.next_id db.log
    → FindsPrefix env.like
    → IsContestOf event q.contest_id
    → nat_beq db.next_id exclude ≡ false
    → stamp since ≤ stamp q.time
    → (scope == []) ≡ false
    → (scope == location_scope) ≡ false
    → Holds
        (λ id new.
          is_dupe env.like (question_of q event scope exclude now since) new.log ≡ some true)
        (λ new. new ≡ db)
        (insert_qso_with_uploads env q dests not_before clock bindings answers db)
unfolding is_dupe
is_dupe_of_logged env q dests not_before clock bindings answers db event scope exclude now since
      below f h other later named placed =
    weaken-Holds (IsInserted env q dests db)
      (λ id new. is_dupe env.like (question_of q event scope exclude now since) new.log ≡ some true)
      (λ new. new ≡ db) (insert_qso_with_uploads env q dests not_before clock bindings answers db)
      (λ id new inserted. found new (inserted.log_is))
      (insert_qso_with_uploads_lem env q dests not_before clock bindings answers db below)
  where
    x : Question
    x = question_of q event scope exclude now since

    hit : any_match env.like x (db.log ++ logged_qso env db.next_id q ∷ []) ≡ true
    hit =
        any_match-append env.like x (logged_qso env db.next_id q) db.log
        ∙ rw
            (own_row-is_match env.like env q event db.next_id exclude now since f h other later
              scope named)
            (ground arith)

    found :
        (new : Database)
        → new.log ≡ db.log ++ logged_qso env db.next_id q ∷ []
        → is_dupe env.like x new.log ≡ some true
    found new p = rw (placed, p) (ap some hit)

module _ (like : Text → Text → Bool) (x : Question) (id : ℕ) where
  abbrev without : ℕ → Question
  without n = record x { exclude_id = n }

  is_kept_of :
      (r : StoredQso)
      → nat_beq r.values.id id ≡ false
      → (nat_beq id 0 || not (nat_beq r.values.id id)) ≡ true
  is_kept_of r h = ground arith

  old_row-is_match :
      (r : StoredQso)
      → r.values.id < id
      → is_match like (without id) r ≡ is_match like (without 0) r
  unfolding is_match in_scope in_event same_occurrence
  old_row-is_match r h = rw (is_kept_of r (ground arith)) refl

  old_rows-any_match :
      (log : List StoredQso)
      → AllBelow id log
      → any_match like (without id) log ≡ any_match like (without 0) log
  unfolding any_match
  old_rows-any_match [] below = refl
  old_rows-any_match (r ∷ log) (b, below) =
      rw (old_row-is_match r b, old_rows-any_match log below) refl

  own_row-is_no_match :
      (r : StoredQso) → r.values.id ≡ id → 1 ≤ id → is_match like (without id) r ≡ false
  unfolding is_match
  own_row-is_no_match r p h = ground arith

  any_match-own :
      (log : List StoredQso) (r : StoredQso)
      → AllBelow id log
      → r.values.id ≡ id
      → 1 ≤ id
      → any_match like (without id) (log ++ r ∷ []) ≡ any_match like (without 0) log
  any_match-own log r below p h =
      any_match-append like (without id) r log
      ∙ rw (own_row-is_no_match r p h, old_rows-any_match log below)
          (or_none (any_match like (without 0) log))
    where
      or_none : (b : Bool) → (b || false) ≡ b
      or_none b = ground arith

-- Where the ids of the table are below the next one, which is at least 1: behind a committed insert
-- `isDupe` that leaves the new row out answers every question as it did before the insert with no
-- row left out; where the insert fails, the tables are as they were.
pub is_dupe_without_logged :
    (env : Services) (q : Qso) (dests : List Destination) (not_before clock : Time)
    (bindings : Option (Destination → Text)) (answers : List Bool) (db : Database) (x : Question)
    → AllBelow db.next_id db.log
    → 1 ≤ db.next_id
    → Holds
        (λ id new.
          is_dupe env.like (record x { exclude_id = id }) new.log
          ≡ is_dupe env.like (record x { exclude_id = 0 }) db.log)
        (λ new. new ≡ db)
        (insert_qso_with_uploads env q dests not_before clock bindings answers db)
unfolding is_dupe
is_dupe_without_logged env q dests not_before clock bindings answers db x below first =
    weaken-Holds (IsInserted env q dests db)
      (λ id new.
        is_dupe env.like (record x { exclude_id = id }) new.log
        ≡ is_dupe env.like (record x { exclude_id = 0 }) db.log)
      (λ new. new ≡ db) (insert_qso_with_uploads env q dests not_before clock bindings answers db)
      (λ id new inserted. rw (inserted.id_is, inserted.log_is) same)
      (insert_qso_with_uploads_lem env q dests not_before clock bindings answers db below)
  where
    row : StoredQso
    row = logged_qso env db.next_id q

    row-id : row.values.id ≡ db.next_id
    row-id = unfold stored_qso in refl

    same :
        is_dupe env.like (record x { exclude_id = db.next_id }) (db.log ++ row ∷ [])
        ≡ is_dupe env.like (record x { exclude_id = 0 }) db.log
    same =
        ap (λ b. if x.dupe_scope == location_scope then none else some b)
          (any_match-own env.like x db.next_id db.log row below row-id first)
