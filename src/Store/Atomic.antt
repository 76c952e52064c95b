-- ===== src/Store/Atomic.antt =====
-- The QSO and its queued uploads: both, or neither.
use w4gns_logger4men.Base.{
  ℕ, ◌<◌, ◌≡◌, refl, ap, Bool, true, false, Option, none, some, List, [], ◌∷◌, ◌++◌, arith, nat_beq,
  if◌then◌else◌,
}
use w4gns_logger4men.Text.{Text}
use w4gns_logger4men.Contest.Types.{Time, Qso}
use w4gns_logger4men.Outbox.{Destination}
use w4gns_logger4men.Validation.{QsoError, validate_qso}
use w4gns_logger4men.Store.{Services, StoredQso, Database, missing_not_before, stored_qso}
use w4gns_logger4men.Store.Transaction.{◌>>◌, pure, fail, statement, Holds, Triple}
use w4gns_logger4men.Store.Insert.{
  flag_qso, insert_row, flag_row, insert_qso_into, enqueue_row, bind_row, bind_destination,
  enqueue_all, schedule_uploads, insert_body, insert_checked, insert_qso_with_uploads,
}
use w4gns_logger4men.Store.Queued.{AllQueued, is_queued-enqueue, AllQueued-enqueue, AllQueued-bind}
use w4gns_logger4men.Store.Rules.{
  triple_pure, triple_fail, triple_statement, triple_bind, triple_if, triple_weaken,
  transaction-Holds,
}

-- AUTOINCREMENT: the ids of a table are below the next one.
abbrev pub AllBelow : ℕ → List StoredQso → Type 0
AllBelow n [] = Unit {0}
AllBelow n (r ∷ rs) = (r.values.id < n) × AllBelow n rs

-- The row of a QSO that was logged, with its flag.
abbrev pub logged_qso : Services → ℕ → Qso → StoredQso
logged_qso env id q =
    let row = stored_qso env id q in
    record row { values = record row.values { unscored = q.unscored } }

flag_qso-new :
    (id : ℕ) (flag : Bool) (log : List StoredQso) (r : StoredQso)
    → AllBelow id log
    → r.values.id ≡ id
    → flag_qso id flag (log ++ r ∷ [])
      ≡ log ++ record r { values = record r.values { unscored = flag } } ∷ []
unfolding flag_qso
flag_qso-new id flag [] r below is = ground arith
flag_qso-new id flag (s ∷ log) r (b, below) is = ground (arith, flag_qso-new id flag log r below is)

-- The log behind the insert, and the destinations that are queued already.
record IsLogged (env : Services) (q : Qso) (old : Database) (ds : List Destination) (id : ℕ)
    (new : Database) : Type 0 where
  id_is : id ≡ old.next_id
  log_is : new.log ≡ old.log ++ logged_qso env old.next_id q ∷ []
  queued : AllQueued id ds new.outbox

module _ (env : Services) (q : Qso) (old : Database) where
  -- The tables behind the INSERT.
  abbrev Inserted : ℕ → Database → Type 0
  Inserted id db = (id ≡ old.next_id) × (db.log ≡ old.log ++ stored_qso env old.next_id q ∷ [])

  insert_row-Inserted :
      (db : Database) → db ≡ old → Inserted (insert_row env q db).0 (insert_row env q db).1
  insert_row-Inserted db same =
      (ap (λ d. d.next_id) same, ap (λ d. d.log ++ stored_qso env d.next_id q ∷ []) same)

  flag_row-IsLogged :
      (id : ℕ)
      → AllBelow old.next_id old.log
      → q.unscored ≡ true
      → (db : Database) → Inserted id db
      → IsLogged env q old [] id (flag_row id true db).1
  unfolding stored_qso
  flag_row-IsLogged id below flagged db (p, h) = record {
    id_is = p;
    log_is =
        rw (h, p, flagged)
          (flag_qso-new old.next_id true old.log (stored_qso env old.next_id q) below refl);
    queued = tt;
  }

  keep-IsLogged :
      (id : ℕ) → q.unscored ≡ false → (db : Database) → Inserted id db → IsLogged env q old [] id db
  unfolding stored_qso
  keep-IsLogged id plain db (p, h) = record { id_is = p; log_is = rw plain h; queued = tt }

  insert_into_lem :
      AllBelow old.next_id old.log
      → Triple (λ db. db ≡ old) (insert_qso_into env q) (IsLogged env q old [])
  unfolding insert_qso_into
  insert_into_lem below =
      triple_bind (λ db. db ≡ old) Inserted (IsLogged env q old []) (statement (insert_row env q)) _
        (triple_statement (λ db. db ≡ old) Inserted (insert_row env q) insert_row-Inserted)
        (λ id.
          triple_bind (Inserted id) (λ _. IsLogged env q old [] id) (IsLogged env q old [])
            (if q.unscored then statement (flag_row id true) else pure tt) (λ _. pure id)
            (triple_if (Inserted id) (λ _. IsLogged env q old [] id) q.unscored
              (statement (flag_row id true)) (pure tt)
              (λ flagged.
                triple_statement (Inserted id) (λ _. IsLogged env q old [] id) (flag_row id true)
                  (flag_row-IsLogged id below flagged))
              (λ plain.
                triple_pure (Inserted id) (λ _. IsLogged env q old [] id) tt
                  (keep-IsLogged id plain)))
            (λ _. triple_pure (IsLogged env q old [] id) (IsLogged env q old []) id (λ db h. h)))

  module _ (not_before now : Time) (bindings : Option (Destination → Text)) (id : ℕ) where
    -- The log, and what is queued of the two lists.
    abbrev Queuing : List Destination → List Destination → Database → Type 0
    Queuing before ds db = IsLogged env q old before id db × AllQueued id ds db.outbox

    enqueue_row-IsLogged :
        (dest : Destination) (before : List Destination) (db : Database)
        → IsLogged env q old before id db
        → IsLogged env q old
            (dest ∷ before)
            id
            (enqueue_row id q.profile_id dest not_before now db).1
    enqueue_row-IsLogged dest before db h = record {
      id_is = h.id_is;
      log_is = h.log_is;
      queued = (
        is_queued-enqueue id q.profile_id dest not_before now db.outbox,
        AllQueued-enqueue id q.profile_id dest not_before now db.outbox before h.queued,
      );
    }

    bind_row-IsLogged :
        (dest : Destination) (binding : Text) (before : List Destination) (db : Database)
        → IsLogged env q old before id db
        → IsLogged env q old before id (bind_row id dest binding db).1
    bind_row-IsLogged dest binding before db h = record {
      id_is = h.id_is;
      log_is = h.log_is;
      queued = AllQueued-bind id dest binding db.outbox before h.queued;
    }

    bind_destination_lem :
        (dest : Destination) (o : Option (Destination → Text)) (before : List Destination)
        → Triple
            (IsLogged env q old before id)
            (bind_destination id dest o)
            (λ _. IsLogged env q old before id)
    unfolding bind_destination
    bind_destination_lem dest none before =
        triple_pure (IsLogged env q old before id) (λ _. IsLogged env q old before id) tt
          (λ db h. h)
    bind_destination_lem dest (some names) before =
        triple_statement (IsLogged env q old before id) (λ _. IsLogged env q old before id)
          (bind_row id dest (names dest)) (bind_row-IsLogged dest (names dest) before)

    finish_enqueue :
        (dest : Destination) (before ds : List Destination) (db : Database)
        → IsLogged env q old (dest ∷ before) id db × AllQueued id ds db.outbox
        → IsLogged env q old before id db × AllQueued id (dest ∷ ds) db.outbox
    finish_enqueue dest before ds db (h, more) =
        (record { id_is = h.id_is; log_is = h.log_is; queued = h.queued.1 }, (h.queued.0, more))

    enqueue_all_lem :
        (ds before : List Destination)
        → Triple
            (IsLogged env q old before id)
            (enqueue_all id q.profile_id not_before now bindings ds)
            (λ _. Queuing before ds)
    unfolding enqueue_all
    enqueue_all_lem [] before =
        triple_pure (IsLogged env q old before id) (λ _. Queuing before []) tt (λ db h. (h, tt))
    enqueue_all_lem (dest ∷ ds) before =
        let P = IsLogged env q old before id in
        let Q : Unit {0} → Database → Type 0 = λ _. IsLogged env q old (dest ∷ before) id in
        let S : Unit {0} → Database → Type 0 = λ _. Queuing before (dest ∷ ds) in
        triple_bind P Q S
          (statement (enqueue_row id q.profile_id dest not_before now)
            >> bind_destination id dest bindings)
          (λ _. enqueue_all id q.profile_id not_before now bindings ds)
          (triple_bind P Q Q (statement (enqueue_row id q.profile_id dest not_before now))
            (λ _. bind_destination id dest bindings)
            (triple_statement P Q (enqueue_row id q.profile_id dest not_before now)
              (enqueue_row-IsLogged dest before))
            (λ _. bind_destination_lem dest bindings (dest ∷ before)))
          (λ u.
            triple_weaken (Q u) (λ _. Queuing (dest ∷ before) ds) S
              (enqueue_all id q.profile_id not_before now bindings ds)
              (λ _. finish_enqueue dest before ds) (enqueue_all_lem ds (dest ∷ before)))

    schedule_uploads_lem :
        (ds : List Destination)
        → Triple
            (IsLogged env q old [] id)
            (schedule_uploads id q.profile_id not_before now bindings ds)
            (λ _. Queuing [] ds)
    unfolding schedule_uploads
    schedule_uploads_lem [] =
        triple_pure (IsLogged env q old [] id) (λ _. Queuing [] []) tt (λ db h. (h, tt))
    schedule_uploads_lem (dest ∷ ds) =
        triple_if (IsLogged env q old [] id) (λ _. Queuing [] (dest ∷ ds)) (nat_beq not_before 0)
          (fail missing_not_before)
          (enqueue_all id q.profile_id not_before now bindings (dest ∷ ds))
          (λ _.
            triple_fail {A = Unit {0}} (IsLogged env q old [] id) (λ _. Queuing [] (dest ∷ ds))
              missing_not_before)
          (λ _. enqueue_all_lem (dest ∷ ds) [])

-- What a committed insert leaves: the QSO behind the log, under the next id, and a queued upload
-- for each of its destinations.
pub record IsInserted (env : Services) (q : Qso) (dests : List Destination) (old : Database)
    (id : ℕ) (new : Database) : Type 0 where
  pub id_is : id ≡ old.next_id
  pub log_is : new.log ≡ old.log ++ logged_qso env old.next_id q ∷ []
  pub queued : AllQueued id dests new.outbox

module _ (env : Services) (q : Qso) (dests : List Destination) (not_before now : Time)
    (bindings : Option (Destination → Text)) (old : Database)
    (below : AllBelow old.next_id old.log) where
  insert_body_lem :
      Triple
        (λ db. db ≡ old)
        (insert_body env q dests not_before now bindings)
        (IsInserted env q dests old)
  unfolding insert_body
  insert_body_lem =
      triple_bind (λ db. db ≡ old) (IsLogged env q old []) (IsInserted env q dests old)
        (insert_qso_into env q) _ (insert_into_lem env q old below)
        (λ id.
          triple_bind (IsLogged env q old [] id)
            (λ _. Queuing env q old not_before now bindings id [] dests)
            (IsInserted env q dests old)
            (schedule_uploads id q.profile_id not_before now bindings dests) (λ _. pure id)
            (schedule_uploads_lem env q old not_before now bindings id dests)
            (λ _.
              triple_pure (Queuing env q old not_before now bindings id [] dests)
                (IsInserted env q dests old) id
                (λ db h. record { id_is = h.0.id_is; log_is = h.0.log_is; queued = h.1 })))

  insert_checked_lem :
      (o : Option QsoError) (answers : List Bool)
      → Holds
          (IsInserted env q dests old)
          (λ db. db ≡ old)
          (insert_checked o env q dests not_before now bindings answers old)
  unfolding insert_checked
  insert_checked_lem (some e) answers = refl
  insert_checked_lem none answers =
      transaction-Holds (λ db. db ≡ old) (IsInserted env q dests old)
        (insert_body env q dests not_before now bindings) insert_body_lem answers old refl

-- Whatever the database answers, on a table whose ids are below the next id `insertQSOWithUploads`
-- either returns an error and leaves the tables as they were, or returns the next id, with the QSO
-- (its flag included) behind the log under that id and a queued upload for each destination.
pub insert_qso_with_uploads_lem :
    (env : Services) (q : Qso) (dests : List Destination) (not_before now : Time)
    (bindings : Option (Destination → Text)) (answers : List Bool) (db : Database)
    → AllBelow db.next_id db.log
    → Holds
        (IsInserted env q dests db)
        (λ new. new ≡ db)
        (insert_qso_with_uploads env q dests not_before now bindings answers db)
unfolding insert_qso_with_uploads
insert_qso_with_uploads_lem env q dests not_before now bindings answers db below =
    insert_checked_lem env q dests not_before now bindings db below (validate_qso env.floats q)
      answers
