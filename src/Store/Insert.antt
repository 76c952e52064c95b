-- ===== src/Store/Insert.antt =====
-- `insertQSOWithUploads` and what it calls.
use w4gns_logger4men.Base.{
  ℕ, ◌+◌, Bool, true, Option, none, some, List, [], ◌∷◌, ◌++◌, nat_beq, if◌then◌else◌,
}
use w4gns_logger4men.Text.{Text}
use w4gns_logger4men.Contest.Types.{Time, Qso}
use w4gns_logger4men.Outbox.{Row, Destination, is_key, enqueue_upload}
use w4gns_logger4men.Validation.{QsoError, validate_qso}
use w4gns_logger4men.Store.{Services, StoredQso, Database, invalid, missing_not_before, stored_qso}
use w4gns_logger4men.Store.Transaction.{Tx, ◌>>=◌, ◌>>◌, pure, fail, statement, transaction}

-- `UPDATE qso SET unscored = ? WHERE id = ?`
unfoldable pub flag_qso : ℕ → Bool → List StoredQso → List StoredQso
flag_qso id flag [] = []
flag_qso id flag (r ∷ rs) =
    (if nat_beq r.values.id id
      then record r { values = record r.values { unscored = flag } }
      else r)
    ∷ flag_qso id flag rs

-- The INSERT, which returns the id of the new row.
abbrev pub insert_row : Services → Qso → Database → ℕ × Database
insert_row env q db = (
  db.next_id,
  record db { log = db.log ++ stored_qso env db.next_id q ∷ []; next_id = db.next_id + 1 },
)

abbrev pub flag_row : ℕ → Bool → Database → Unit {0} × Database
flag_row id flag db = (tt, record db { log = flag_qso id flag db.log })

-- `insertQSOInto`
unfoldable pub insert_qso_into : Services → Qso → Tx ℕ
unfolding stored_qso flag_qso
insert_qso_into env q = do
  id ← statement (insert_row env q)
  if q.unscored then statement (flag_row id true) else pure tt
  pure id

-- `UPDATE upload_outbox SET binding=? WHERE qso_id=? AND destination=?`
unfoldable pub bind_upload : ℕ → Destination → Text → List Row → List Row
unfolding is_key
bind_upload id dest binding [] = []
bind_upload id dest binding (r ∷ rs) =
    (if is_key id dest r then record r { binding = binding } else r)
    ∷ bind_upload id dest binding rs

-- `enqueueUploadTx`
abbrev pub enqueue_row : ℕ → ℕ → Destination → Time → Time → Database → Unit {0} × Database
enqueue_row id profile dest not_before now db =
    (tt, record db { outbox = enqueue_upload id profile dest not_before now db.outbox })

abbrev pub bind_row : ℕ → Destination → Text → Database → Unit {0} × Database
bind_row id dest binding db = (tt, record db { outbox = bind_upload id dest binding db.outbox })

-- The UPDATE of the binding, where the caller passed bindings.
unfoldable pub bind_destination : ℕ → Destination → Option (Destination → Text) → Tx (Unit {0})
unfolding bind_upload
bind_destination id dest none = pure tt
bind_destination id dest (some bindings) = statement (bind_row id dest (bindings dest))

-- The loop over the destinations.
unfoldable pub enqueue_all :
    ℕ → ℕ → Time → Time → Option (Destination → Text) → List Destination → Tx (Unit {0})
unfolding enqueue_upload bind_destination
enqueue_all id profile not_before now bindings [] = pure tt
enqueue_all id profile not_before now bindings (dest ∷ dests) =
    statement (enqueue_row id profile dest not_before now)
    >> bind_destination id dest bindings
    >> enqueue_all id profile not_before now bindings dests

unfoldable pub schedule_uploads :
    ℕ → ℕ → Time → Time → Option (Destination → Text) → List Destination → Tx (Unit {0})
unfolding enqueue_all
schedule_uploads id profile not_before now bindings [] = pure tt
schedule_uploads id profile not_before now bindings (dest ∷ dests) =
    if nat_beq not_before 0
    then fail missing_not_before
    else enqueue_all id profile not_before now bindings (dest ∷ dests)

unfoldable pub insert_body :
    Services → Qso → List Destination → Time → Time → Option (Destination → Text) → Tx ℕ
unfolding insert_qso_into schedule_uploads
insert_body env q dests not_before now bindings = do
  id ← insert_qso_into env q
  schedule_uploads id q.profile_id not_before now bindings dests
  pure id

unfoldable pub insert_checked :
    Option QsoError
    → Services
    → Qso
    → List Destination
    → Time
    → Time
    → Option (Destination → Text)
    → Tx ℕ
unfolding insert_body
insert_checked (some e) env q dests not_before now bindings = fail (invalid e)
insert_checked none env q dests not_before now bindings =
    transaction (insert_body env q dests not_before now bindings)

-- `insertQSOWithUploads`; `now` is the clock of the rows that it enqueues.
unfoldable pub insert_qso_with_uploads :
    Services → Qso → List Destination → Time → Time → Option (Destination → Text) → Tx ℕ
unfolding insert_checked validate_qso
insert_qso_with_uploads env q dests not_before now bindings =
    insert_checked (validate_qso env.floats q) env q dests not_before now bindings

-- `insertQSO`
unfoldable pub insert_qso : Services → Qso → Tx ℕ
unfolding insert_qso_with_uploads
insert_qso env q = insert_qso_with_uploads env q [] 0 0 none
