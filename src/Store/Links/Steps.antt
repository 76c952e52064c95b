-- ===== src/Store/Links/Steps.antt =====
-- Inserts and imports, and the uploads that refer to a QSO on file.
use w4gns_logger4men.Base.{
  ℕ, zero, suc, ◌+◌, ◌≡◌, refl, ◌∙◌, Bool, true, false, Option, none, some, List, [], ◌∷◌, nat_beq,
  if◌then◌else◌, take, drop,
}
use w4gns_logger4men.Text.{Text}
use w4gns_logger4men.Contest.Types.{Time, Qso}
use w4gns_logger4men.Outbox.{Destination}
use w4gns_logger4men.Validation.{QsoError}
use w4gns_logger4men.Store.{Services, Database, missing_not_before, stored_qso, invalid}
use w4gns_logger4men.Store.Transaction.{◌>>◌, pure, fail, statement, Triple}
use w4gns_logger4men.Store.Always.{
  Always, Always-statement, Always-bind, Always-pure, Always-fail, Always-if, Always-transaction,
  triple_always,
}
use w4gns_logger4men.Store.Rules.{triple_statement, triple_bind, triple_if, triple_pure}
use w4gns_logger4men.Store.Insert.{
  insert_row, flag_row, insert_qso_into, enqueue_row, bind_row, bind_destination, enqueue_all,
  schedule_uploads, insert_body, insert_checked,
}
use w4gns_logger4men.Store.Import.{
  find_import, import_missing, import_records, prepare, chunk_body, chunk_checked, insert_qso_chunk,
  import_chunks, import_batch_size,
}
use w4gns_logger4men.Store.Links.{
  has_id, IsLinked, AllLinked-log, has_id-append, has_id-last, AllBelow-append, flag_qso-SameIds,
  IsLinked-same, AllLinked-enqueue, AllLinked-bind,
}

module _ (env : Services) (q : Qso) where
  -- Linked, and the QSO of the id is on file.
  abbrev Holding : ℕ → Database → Type 0
  Holding id db = IsLinked db × (has_id id db.log ≡ true)

  insert_row-Holding :
      (db : Database) → IsLinked db → Holding (insert_row env q db).0 (insert_row env q db).1
  insert_row-Holding db h = (
    record {
      below = AllBelow-append db.next_id (stored_qso env db.next_id q) db.log h.below stored_id;
      linked =
          AllLinked-log db.log _ db.outbox
            (λ id. has_id-append id (stored_qso env db.next_id q) db.log) h.linked;
    },
    has_id-last db.next_id (stored_qso env db.next_id q) db.log stored_id,
  )
    where
      stored_id : (stored_qso env db.next_id q).values.id ≡ db.next_id
      stored_id = unfold stored_qso in refl

  flag_row-Holding : (id : ℕ) (db : Database) → Holding id db → Holding id (flag_row id true db).1
  flag_row-Holding id db (h, i) =
      let s = flag_qso-SameIds id true db.log in (IsLinked-same db _ s h, s.same id ∙ i)

  insert_into-Holding : Triple IsLinked (insert_qso_into env q) Holding
  unfolding insert_qso_into
  insert_into-Holding =
      triple_bind IsLinked Holding Holding (statement (insert_row env q)) _
        (triple_statement IsLinked Holding (insert_row env q) insert_row-Holding)
        (λ id.
          triple_bind (Holding id) (λ _. Holding id) Holding
            (if q.unscored then statement (flag_row id true) else pure tt) (λ _. pure id)
            (triple_if (Holding id) (λ _. Holding id) q.unscored (statement (flag_row id true))
              (pure tt)
              (λ _.
                triple_statement (Holding id) (λ _. Holding id) (flag_row id true)
                  (flag_row-Holding id))
              (λ _. triple_pure (Holding id) (λ _. Holding id) tt (λ db h. h)))
            (λ _. triple_pure (Holding id) Holding id (λ db h. h)))

  module _ (not_before now : Time) (bindings : Option (Destination → Text)) where
    enqueue_row-Holding :
        (id : ℕ) (dest : Destination) (db : Database)
        → Holding id db
        → Holding id (enqueue_row id q.profile_id dest not_before now db).1
    enqueue_row-Holding id dest db (h, i) = (
      record {
        below = h.below;
        linked = AllLinked-enqueue db.log id q.profile_id dest not_before now db.outbox h.linked i;
      },
      i,
    )

    bind-Holding :
        (id : ℕ) (dest : Destination) (o : Option (Destination → Text))
        → Always (Holding id) (bind_destination id dest o)
    unfolding bind_destination
    bind-Holding id dest none = Always-pure (Holding id) tt
    bind-Holding id dest (some names) =
        Always-statement (Holding id) (bind_row id dest (names dest)) (λ db h. (
          record {
            below = h.0.below;
            linked = AllLinked-bind db.log id dest (names dest) db.outbox h.0.linked;
          },
          h.1,
        ))

    enqueue_all-Holding :
        (id : ℕ) (dests : List Destination)
        → Always (Holding id) (enqueue_all id q.profile_id not_before now bindings dests)
    unfolding enqueue_all
    enqueue_all-Holding id [] = Always-pure (Holding id) tt
    enqueue_all-Holding id (dest ∷ dests) =
        Always-bind (Holding id)
          (statement (enqueue_row id q.profile_id dest not_before now)
            >> bind_destination id dest bindings)
          (λ _. enqueue_all id q.profile_id not_before now bindings dests)
          (Always-bind (Holding id) (statement (enqueue_row id q.profile_id dest not_before now))
            (λ _. bind_destination id dest bindings)
            (Always-statement (Holding id) (enqueue_row id q.profile_id dest not_before now)
              (enqueue_row-Holding id dest))
            (λ _. bind-Holding id dest bindings))
          (λ _. enqueue_all-Holding id dests)

    schedule-Holding :
        (id : ℕ) (dests : List Destination)
        → Always (Holding id) (schedule_uploads id q.profile_id not_before now bindings dests)
    unfolding schedule_uploads
    schedule-Holding id [] = Always-pure (Holding id) tt
    schedule-Holding id (dest ∷ dests) =
        Always-if (Holding id) (nat_beq not_before 0) (fail missing_not_before)
          (enqueue_all id q.profile_id not_before now bindings (dest ∷ dests))
          (Always-fail (Unit {0}) (Holding id) missing_not_before)
          (enqueue_all-Holding id (dest ∷ dests))

    insert_body-IsLinked :
        (dests : List Destination)
        → Triple IsLinked (insert_body env q dests not_before now bindings) (λ _. IsLinked)
    unfolding insert_body
    insert_body-IsLinked dests =
        triple_bind IsLinked Holding (λ _. IsLinked) (insert_qso_into env q) _ insert_into-Holding
          (λ id.
            triple_bind (Holding id) (λ _. Holding id) (λ _. IsLinked)
              (schedule_uploads id q.profile_id not_before now bindings dests) (λ _. pure id)
              (triple_always (Holding id)
                (schedule_uploads id q.profile_id not_before now bindings dests)
                (schedule-Holding id dests))
              (λ _. triple_pure (Holding id) (λ _. IsLinked) id (λ db h. h.0)))

    pub insert_checked-IsLinked :
        (o : Option QsoError) (dests : List Destination)
        → Always IsLinked (insert_checked o env q dests not_before now bindings)
    unfolding insert_checked
    insert_checked-IsLinked (some e) dests = Always-fail ℕ IsLinked (invalid e)
    insert_checked-IsLinked none dests =
        Always-transaction IsLinked (insert_body env q dests not_before now bindings)
          (insert_body-IsLinked dests)

  import_missing-IsLinked :
      (n : ℕ) (found : Bool) → Triple IsLinked (import_missing env q n found) (λ _. IsLinked)
  unfolding import_missing
  import_missing-IsLinked n true = triple_pure IsLinked (λ _. IsLinked) n (λ db h. h)
  import_missing-IsLinked n false =
      triple_bind IsLinked Holding (λ _. IsLinked) (insert_qso_into env q) (λ _. pure (n + 1))
        insert_into-Holding (λ id. triple_pure (Holding id) (λ _. IsLinked) (n + 1) (λ db h. h.0))

module _ (env : Services) where
  import_records-IsLinked :
      (qs : List Qso) (n : ℕ) → Triple IsLinked (import_records env qs n) (λ _. IsLinked)
  unfolding import_records
  import_records-IsLinked [] n = triple_pure IsLinked (λ _. IsLinked) n (λ db h. h)
  import_records-IsLinked (q ∷ qs) n =
      triple_bind IsLinked (λ _. IsLinked) (λ _. IsLinked) (statement (find_import q)) _
        (triple_statement IsLinked (λ _. IsLinked) (find_import q) (λ db h. h))
        (λ found.
          triple_bind IsLinked (λ _. IsLinked) (λ _. IsLinked) (import_missing env q n found)
            (λ m. import_records env qs m) (import_missing-IsLinked env q n found)
            (λ m. import_records-IsLinked qs m))

  chunk_body-IsLinked : (qs : List Qso) → Triple IsLinked (chunk_body env qs) (λ _. IsLinked)
  unfolding chunk_body
  chunk_body-IsLinked qs =
      let Q : Unit {0} → Database → Type 0 = λ _. IsLinked in
      triple_bind IsLinked Q (λ _. IsLinked) (statement prepare >> statement prepare)
        (λ _. import_records env qs 0)
        (triple_bind IsLinked Q Q (statement prepare) (λ _. statement prepare)
          (triple_statement IsLinked Q prepare (λ db h. h))
          (λ _. triple_statement IsLinked Q prepare (λ db h. h)))
        (λ _. import_records-IsLinked qs 0)

  chunk-IsLinked : (o : Option QsoError) (qs : List Qso) → Always IsLinked (chunk_checked o env qs)
  unfolding chunk_checked
  chunk-IsLinked (some e) qs = Always-fail ℕ IsLinked (invalid e)
  chunk-IsLinked none qs = Always-transaction IsLinked (chunk_body env qs) (chunk_body-IsLinked qs)

  pub chunks-IsLinked :
      (rounds n : ℕ) (qs : List Qso) → Always IsLinked (import_chunks rounds env qs n)
  unfolding import_chunks
  chunks-IsLinked rounds n [] = Always-statement IsLinked (λ db. (n, db)) (λ db h. h)
  chunks-IsLinked zero n (q ∷ qs) = Always-statement IsLinked (λ db. (n, db)) (λ db h. h)
  chunks-IsLinked (suc rounds) n (q ∷ qs) =
      Always-bind IsLinked (insert_qso_chunk env (take import_batch_size (q ∷ qs)))
        (λ m. import_chunks rounds env (drop import_batch_size (q ∷ qs)) (n + m))
        (unfold insert_qso_chunk in chunk-IsLinked _ (take import_batch_size (q ∷ qs)))
        (λ m. chunks-IsLinked rounds (n + m) (drop import_batch_size (q ∷ qs)))
