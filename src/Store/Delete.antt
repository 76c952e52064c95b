-- ===== src/Store/Delete.antt =====
-- `deleteQSO`: the QSO and its queued uploads go together.
use w4gns_logger4men.Base.{
  length, ◌&&◌, ℕ, ◌≤◌, ◌≡◌, refl, Bool, true, false, List, [], ◌∷◌, arith, nat_beq, if◌then◌else◌,
}
use w4gns_logger4men.Outbox.{Row, Destination, is_key, find_row}
use w4gns_logger4men.Store.{StoredQso, Database, no_row}
use w4gns_logger4men.Store.Transaction.{pure, fail, statement, Holds, Triple}
use w4gns_logger4men.Store.Change.{
  matching, remove_rows, remove_uploads, delete_rows, delete_uploads, some_row, delete_body,
  delete_qso,
}
use w4gns_logger4men.Store.Rules.{
  triple_pure, triple_fail, triple_statement, triple_bind, triple_if, transaction-Holds,
}

-- Whether a row of the queue is for the QSO.
unfoldable pub has_upload : ℕ → List Row → Bool
has_upload id [] = false
has_upload id (r ∷ rs) = let rest = has_upload id rs in if nat_beq r.qso_id id then true else rest

-- The rows of a profile's log under an id.
unfoldable pub rows_at : ℕ → ℕ → List StoredQso → List StoredQso
rows_at profile id [] = []
rows_at profile id (r ∷ rs) =
    let rest = rows_at profile id rs in
    if nat_beq r.values.profile_id profile && nat_beq r.values.id id then r ∷ rest else rest

length-rows_at :
    (profile id : ℕ) (log : List StoredQso)
    → length (rows_at profile id log) ≡ matching profile id log
unfolding matching rows_at
length-rows_at profile id [] = refl
length-rows_at profile id (r ∷ rs) = ground (arith, length-rows_at profile id rs)

rows_at-remove_rows :
    (profile id : ℕ) (log : List StoredQso) → rows_at profile id (remove_rows profile id log) ≡ []
unfolding rows_at remove_rows
rows_at-remove_rows profile id [] = refl
rows_at-remove_rows profile id (r ∷ rs) = ground (arith, rows_at-remove_rows profile id rs)

rows_at-remove_other :
    (profile id owner other : ℕ) (log : List StoredQso)
    → (nat_beq owner profile && nat_beq other id) ≡ false
    → rows_at owner other (remove_rows profile id log) ≡ rows_at owner other log
unfolding rows_at remove_rows
rows_at-remove_other profile id owner other [] h = refl
rows_at-remove_other profile id owner other (r ∷ rs) h =
    ground (arith, rows_at-remove_other profile id owner other rs h)

has_upload-remove_uploads :
    (id : ℕ) (rows : List Row) → has_upload id (remove_uploads id rows) ≡ false
unfolding has_upload remove_uploads
has_upload-remove_uploads id [] = refl
has_upload-remove_uploads id (r ∷ rs) = ground (arith, has_upload-remove_uploads id rs)

find_row-remove_uploads :
    (id other : ℕ) (dest : Destination) (rows : List Row)
    → nat_beq other id ≡ false
    → find_row other dest (remove_uploads id rows) ≡ find_row other dest rows
unfolding find_row remove_uploads is_key
find_row-remove_uploads id other dest [] h = refl
find_row-remove_uploads id other dest (r ∷ rs) h =
    ground (arith, find_row-remove_uploads id other dest rs h)

-- What a committed delete leaves.
pub record IsDeleted (profile id owner other sent : ℕ) (dest : Destination) (old new : Database)
    : Type 0 where
  pub found : 1 ≤ length (rows_at profile id old.log)
  pub gone : rows_at profile id new.log ≡ []
  pub no_upload : has_upload id new.outbox ≡ false
  pub others : rows_at owner other new.log ≡ rows_at owner other old.log
  pub queued : find_row sent dest new.outbox ≡ find_row sent dest old.outbox

module _ (profile id owner other sent : ℕ) (dest : Destination) (old : Database)
    (apart : (nat_beq owner profile && nat_beq other id) ≡ false)
    (unsent : nat_beq sent id ≡ false) where
  -- The tables behind the DELETE of the QSO, and how many rows it hit.
  abbrev Removed : ℕ → Database → Type 0
  Removed n db =
      (n ≡ matching profile id old.log)
      × (db.log ≡ remove_rows profile id old.log)
      × (db.outbox ≡ old.outbox)

  -- The same where a row was hit.
  abbrev Hit : Unit {0} → Database → Type 0
  Hit u db =
      (1 ≤ matching profile id old.log)
      × (db.log ≡ remove_rows profile id old.log)
      × (db.outbox ≡ old.outbox)

  some_row_lem : (n : ℕ) → Triple (Removed n) (some_row n) Hit
  unfolding some_row
  some_row_lem n =
      triple_if (Removed n) Hit (nat_beq n 0) (fail no_row) (pure tt)
        (λ _. triple_fail {A = Unit {0}} (Removed n) Hit no_row)
        (λ some. triple_pure (Removed n) Hit tt (λ db h. (ground (arith, h.0), h.1, h.2)))

  delete_uploads-IsDeleted :
      (db : Database)
      → Hit tt db
      → IsDeleted profile id owner other sent dest old (delete_uploads id db).1
  delete_uploads-IsDeleted db (found, log, outbox) = record {
    found = ground (arith, length-rows_at profile id old.log);
    gone = rw log (rows_at-remove_rows profile id old.log);
    no_upload = has_upload-remove_uploads id db.outbox;
    others = rw log (rows_at-remove_other profile id owner other old.log apart);
    queued = rw outbox (find_row-remove_uploads id sent dest old.outbox unsent);
  }

  delete_body_lem :
      Triple
        (λ db. db ≡ old)
        (delete_body profile id)
        (λ _. IsDeleted profile id owner other sent dest old)
  unfolding delete_body
  delete_body_lem =
      triple_bind (λ db. db ≡ old) Removed (λ _. IsDeleted profile id owner other sent dest old)
        (statement (delete_rows profile id)) _
        (triple_statement (λ db. db ≡ old) Removed (delete_rows profile id)
          (λ db same. rw same (refl, refl, refl)))
        (λ n.
          triple_bind (Removed n) Hit (λ _. IsDeleted profile id owner other sent dest old)
            (some_row n) (λ _. statement (delete_uploads id)) (some_row_lem n)
            (λ u.
              triple_statement (Hit u) (λ _. IsDeleted profile id owner other sent dest old)
                (delete_uploads id) delete_uploads-IsDeleted))

-- Whatever the database answers, `deleteQSO` either returns an error and leaves the tables as they
-- were, or it found a row of the profile under the id, every such row is gone, the queue of uploads
-- holds no row for the id, each other pair of a profile and an id has the rows in the log that it
-- had, and each other id has the queued upload to a destination that it had.
pub delete_qso_lem :
    (profile id owner other sent : ℕ) (dest : Destination) (answers : List Bool) (db : Database)
    → (nat_beq owner profile && nat_beq other id) ≡ false
    → nat_beq sent id ≡ false
    → Holds
        (λ _. IsDeleted profile id owner other sent dest db)
        (λ new. new ≡ db)
        (delete_qso profile id answers db)
unfolding delete_qso
delete_qso_lem profile id owner other sent dest answers db apart unsent =
    transaction-Holds (λ d. d ≡ db) (λ _. IsDeleted profile id owner other sent dest db)
      (delete_body profile id) (delete_body_lem profile id owner other sent dest db apart unsent)
      answers db refl
