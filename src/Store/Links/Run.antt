-- ===== src/Store/Links/Run.antt =====
-- Every operation of the store and of its queue, and the uploads that refer to a QSO on file.
use w4gns_logger4men.Base.{
  ℕ, ◌≡◌, Bool, true, false, Option, none, some, List, [], ◌∷◌, arith, nat_beq, if◌then◌else◌,
  length,
}
use w4gns_logger4men.Text.{Text}
use w4gns_logger4men.Contest.Types.{Time, Qso}
use w4gns_logger4men.Outbox.{
  Row, Destination, Answers, claim_due_uploads, mark_upload_done, record_upload_failure,
}
use w4gns_logger4men.Validation.{QsoError, validate_qso}
use w4gns_logger4men.Store.{Services, StoredQso, Database, no_row, invalid}
use w4gns_logger4men.Store.Transaction.{pure, fail, statement, Triple}
use w4gns_logger4men.Store.Always.{
  tables, Always, Always-statement, Always-bind, Always-pure, Always-fail, Always-if,
  Always-transaction, triple_always, tables_always,
}
use w4gns_logger4men.Store.Rules.{
  triple_statement, triple_bind, triple_if, triple_fail, triple_pure,
}
use w4gns_logger4men.Store.Atomic.{AllBelow}
use w4gns_logger4men.Store.Insert.{insert_qso_with_uploads}
use w4gns_logger4men.Store.Change.{
  is_row, remove_rows, remove_uploads, delete_rows, delete_uploads, some_row, delete_body,
  delete_qso, flag_update, set_qso_unscored, read_call_band, edit_statement, unlink_statement,
  same_contact, update_body, update_checked, update_qso,
}
use w4gns_logger4men.Store.Import.{insert_qso_batch}
use w4gns_logger4men.Store.Links.Uploads.{
  AllLinked-choose, AllLinked-claim, AllLinked-done, AllLinked-failure,
}
use w4gns_logger4men.Store.Links.Steps.{insert_checked-IsLinked, chunks-IsLinked}
use w4gns_logger4men.Store.Links.{
  has_id, AllLinked, IsLinked, flag_rows-SameIds, edit_rows-SameIds, IsLinked-same,
}

-- An operation, with its arguments and what the database answers.
pub data Operation : Type 0 where
  log_qso :
      Qso → List Destination → Time → Time → Option (Destination → Text) → List Bool → Operation
  import_qsos : List Qso → List Bool → Operation
  edit : ℕ → Qso → List Bool → Operation
  flag : ℕ → ℕ → Bool → List Bool → Operation
  delete : ℕ → ℕ → List Bool → Operation
  claim_uploads : Answers → Time → ℕ → ℕ → Operation
  finish_upload : ℕ → Destination → Operation
  fail_upload : ℕ → Destination → Text → Time → Operation

-- The tables behind an operation.
unfoldable pub operate : Services → Operation → Database → Database
unfolding tables insert_qso_with_uploads insert_qso_batch update_qso set_qso_unscored delete_qso
    claim_due_uploads mark_upload_done record_upload_failure
operate env (log_qso q dests not_before now bindings answers) db =
    tables (insert_qso_with_uploads env q dests not_before now bindings answers db)
operate env (import_qsos qs answers) db = tables (insert_qso_batch env qs answers db)
operate env (edit id q answers) db = tables (update_qso env id q answers db)
operate env (flag profile id unscored answers) db =
    tables (set_qso_unscored profile id unscored answers db)
operate env (delete profile id answers) db = tables (delete_qso profile id answers db)
operate env (claim_uploads answers now lease limit) db = record db {
  outbox = (claim_due_uploads answers now lease limit db.outbox).1;
}
operate env (finish_upload id dest) db = record db { outbox = mark_upload_done id dest db.outbox }
operate env (fail_upload id dest message now) db = record db {
  outbox = record_upload_failure id dest message now db.outbox;
}

unfoldable pub operate_all : Services → List Operation → Database → Database
unfolding operate
operate_all env [] db = db
operate_all env (o ∷ os) db = operate_all env os (operate env o db)

some_row-IsLinked : (n : ℕ) → Always IsLinked (some_row n)
unfolding some_row
some_row-IsLinked n =
    Always-if IsLinked (nat_beq n 0) (fail no_row) (pure tt)
      (Always-fail (Unit {0}) IsLinked no_row) (Always-pure IsLinked tt)

flag-IsLinked :
    (profile id : ℕ) (unscored : Bool) → Always IsLinked (set_qso_unscored profile id unscored)
unfolding set_qso_unscored
flag-IsLinked profile id unscored =
    Always-bind IsLinked (statement (flag_update profile id unscored)) some_row
      (Always-statement IsLinked (flag_update profile id unscored)
        (λ db h. IsLinked-same db _ (flag_rows-SameIds profile id unscored db.log) h))
      some_row-IsLinked

module _ (env : Services) (id : ℕ) (q : Qso) where
  unlink-IsLinked : (db : Database) → IsLinked db → IsLinked (unlink_statement id db).1
  unlink-IsLinked db h = record { below = h.below; linked = h.linked }

  update_body-IsLinked : Always IsLinked (update_body env id q)
  unfolding update_body
  update_body-IsLinked =
      Always-bind IsLinked (statement (read_call_band id)) _
        (Always-statement IsLinked (read_call_band id) (λ db h. h))
        (λ previous.
          Always-bind IsLinked (statement (edit_statement env id q)) _
            (Always-statement IsLinked (edit_statement env id q)
              (λ db h. IsLinked-same db _ (edit_rows-SameIds env id q db.log) h))
            (λ n. Always-bind IsLinked (some_row n) _ (some_row-IsLinked n) (λ _.
              Always-if IsLinked (same_contact previous q) (pure tt)
                (statement (unlink_statement id)) (Always-pure IsLinked tt)
                (Always-statement IsLinked (unlink_statement id) unlink-IsLinked))))

  update-IsLinked : (o : Option QsoError) → Always IsLinked (update_checked o env id q)
  unfolding update_checked
  update-IsLinked (some e) = Always-fail (Unit {0}) IsLinked (invalid e)
  update-IsLinked none =
      Always-transaction IsLinked (update_body env id q)
        (triple_always IsLinked (update_body env id q) update_body-IsLinked)

has_id-remove_rows :
    (profile id other : ℕ) (log : List StoredQso)
    → nat_beq other id ≡ false
    → has_id other log ≡ true
    → has_id other (remove_rows profile id log) ≡ true
unfolding has_id remove_rows
has_id-remove_rows profile id other [] h i = i
has_id-remove_rows profile id other (r ∷ log) h i =
    ground (arith, has_id-remove_rows profile id other log)

AllBelow-if :
    (n : ℕ) (b : Bool) (rs ss : List StoredQso)
    → AllBelow n rs
    → AllBelow n ss
    → AllBelow n (if b then rs else ss)
AllBelow-if n true rs ss h k = h
AllBelow-if n false rs ss h k = k

AllBelow-remove_rows :
    (n profile id : ℕ) (log : List StoredQso)
    → AllBelow n log
    → AllBelow n (remove_rows profile id log)
unfolding remove_rows
AllBelow-remove_rows n profile id [] h = tt
AllBelow-remove_rows n profile id (r ∷ log) (b, h) =
    AllBelow-if n (is_row profile id r) _ _ (AllBelow-remove_rows n profile id log h)
      (b, AllBelow-remove_rows n profile id log h)

AllLinked-delete :
    (profile id : ℕ) (log : List StoredQso) (rows : List Row)
    → AllLinked log rows
    → AllLinked (remove_rows profile id log) (remove_uploads id rows)
unfolding remove_uploads
AllLinked-delete profile id log [] h = tt
AllLinked-delete profile id log (r ∷ rows) (i, h) =
    AllLinked-choose (remove_rows profile id log) (nat_beq r.qso_id id) r (remove_uploads id rows)
      (AllLinked-delete profile id log rows h)
      (λ other. has_id-remove_rows profile id r.qso_id log other i)

module _ (profile id : ℕ) where
  -- Linked once the uploads of the id are gone.
  abbrev Pending : Database → Type 0
  Pending db = AllBelow db.next_id db.log × AllLinked db.log (remove_uploads id db.outbox)

  delete_rows-Pending : (db : Database) → IsLinked db → Pending (delete_rows profile id db).1
  delete_rows-Pending db h = (
    AllBelow-remove_rows db.next_id profile id db.log h.below,
    AllLinked-delete profile id db.log db.outbox h.linked,
  )

  delete_body-IsLinked : Triple IsLinked (delete_body profile id) (λ _. IsLinked)
  unfolding delete_body some_row
  delete_body-IsLinked =
      triple_bind IsLinked (λ _. Pending) (λ _. IsLinked) (statement (delete_rows profile id)) _
        (triple_statement IsLinked (λ _. Pending) (delete_rows profile id) delete_rows-Pending)
        (λ n.
          triple_bind Pending (λ _. Pending) (λ _. IsLinked) (some_row n)
            (λ _. statement (delete_uploads id))
            (triple_if Pending (λ _. Pending) (nat_beq n 0) (fail no_row) (pure tt)
              (λ _. triple_fail {A = Unit {0}} Pending (λ _. Pending) no_row)
              (λ _. triple_pure Pending (λ _. Pending) tt (λ db h. h)))
            (λ _.
              triple_statement Pending (λ _. IsLinked) (delete_uploads id)
                (λ db h. record { below = h.0; linked = h.1 })))

operate-IsLinked :
    (env : Services) (o : Operation) (db : Database) → IsLinked db → IsLinked (operate env o db)
unfolding operate insert_qso_with_uploads insert_qso_batch update_qso delete_qso
operate-IsLinked env (log_qso q dests not_before now bindings answers) db h =
    tables_always IsLinked (insert_qso_with_uploads env q dests not_before now bindings answers db)
      (insert_checked-IsLinked env q not_before now bindings (validate_qso env.floats q) dests
        answers db h)
operate-IsLinked env (import_qsos qs answers) db h =
    tables_always IsLinked (insert_qso_batch env qs answers db)
      (chunks-IsLinked env (length qs) 0 qs answers db h)
operate-IsLinked env (edit id q answers) db h =
    tables_always IsLinked (update_qso env id q answers db)
      (update-IsLinked env id q (validate_qso env.floats q) answers db h)
operate-IsLinked env (flag profile id unscored answers) db h =
    tables_always IsLinked (set_qso_unscored profile id unscored answers db)
      (flag-IsLinked profile id unscored answers db h)
operate-IsLinked env (delete profile id answers) db h =
    tables_always IsLinked (delete_qso profile id answers db) (
      Always-transaction IsLinked (delete_body profile id) (delete_body-IsLinked profile id) answers
        db h)
operate-IsLinked env (claim_uploads answers now lease limit) db h = record {
  below = h.below;
  linked = AllLinked-claim db.log answers now lease limit db.outbox h.linked;
}
operate-IsLinked env (finish_upload id dest) db h = record {
  below = h.below;
  linked = AllLinked-done db.log id dest db.outbox h.linked;
}
operate-IsLinked env (fail_upload id dest message now) db h = record {
  below = h.below;
  linked = AllLinked-failure db.log id dest message now db.outbox h.linked;
}

-- Where the ids of the log are below the next id and every row of the queue of uploads refers to a
-- QSO of the log, that is so behind any sequence of logging, importing, editing, flagging and
-- deleting QSOs and of claiming, finishing and failing uploads, whatever the database answers: no
-- upload is left queued for a QSO that is gone.
pub operate_all-IsLinked :
    (env : Services) (os : List Operation) (db : Database)
    → IsLinked db
    → IsLinked (operate_all env os db)
unfolding operate_all
operate_all-IsLinked env [] db h = h
operate_all-IsLinked env (o ∷ os) db h = operate_all-IsLinked env os _ (operate-IsLinked env o db h)
