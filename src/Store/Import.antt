-- ===== src/Store/Import.antt =====
-- `insertQSOBatch` and `insertQSOChunk`.
pub mod Again
pub mod Batch
use w4gns_logger4men.Base.{
  ℕ, zero, suc, ◌+◌, Bool, true, false, not, ◌&&◌, ◌||◌, Option, none, some, List, [], ◌∷◌, nat_beq,
  if◌then◌else◌, take, drop, length,
}
use w4gns_logger4men.Base.Eq.{◌==◌, list_beq}
use w4gns_logger4men.Text.{Text, text_eq}
use w4gns_logger4men.Contest.Types.{Qso}
use w4gns_logger4men.Outbox.{stamp}
use w4gns_logger4men.Validation.{Floats, QsoError, validate_qso}
use w4gns_logger4men.Store.{Services, StoredQso, Database, StoreError, invalid}
use w4gns_logger4men.Store.Transaction.{
  Outcome, failed, done, after, Tx, ◌>>=◌, ◌>>◌, pure, fail, statement, transaction,
}
use w4gns_logger4men.Store.Insert.{insert_qso_into}

-- The WHERE of the check for a record that is already there.
unfoldable pub is_import_of : Qso → StoredQso → Bool
unfolding list_beq
is_import_of q r =
    r.values.call == q.call
    && r.values.band == q.band
    && nat_beq r.started (stamp q.time)
    && nat_beq r.values.profile_id q.profile_id

unfoldable pub is_imported : Qso → List StoredQso → Bool
unfolding is_import_of
is_imported q [] = false
is_imported q (r ∷ rs) = is_import_of q r || is_imported q rs

abbrev pub find_import : Qso → Database → Bool × Database
find_import q db = (is_imported q db.log, db)

-- A record that was not found is inserted and counted.
unfoldable pub import_missing : Services → Qso → ℕ → Bool → Tx ℕ
unfolding insert_qso_into
import_missing env q inserted true = pure inserted
import_missing env q inserted false = insert_qso_into env q >> pure (inserted + 1)

-- The loop over the records of a chunk.
unfoldable pub import_records : Services → List Qso → ℕ → Tx ℕ
unfolding is_imported import_missing
import_records env [] inserted = pure inserted
import_records env (q ∷ qs) inserted = do
  found ← statement (find_import q)
  n ← import_missing env q inserted found
  import_records env qs n

abbrev pub prepare : Database → Unit {0} × Database
prepare db = (tt, db)

-- The two statements are prepared, and then the records follow.
unfoldable pub chunk_body : Services → List Qso → Tx ℕ
unfolding import_records
chunk_body env qs = statement prepare >> statement prepare >> import_records env qs 0

-- The first record that is no QSO to store.
unfoldable pub first_invalid : Floats → List Qso → Option QsoError
unfolding validate_qso
first_invalid fl [] = none
first_invalid fl (q ∷ qs) =
    let rest = first_invalid fl qs in elim (validate_qso fl q) [ some e ↦ some e | none ↦ rest ]

unfoldable pub chunk_checked : Option QsoError → Services → List Qso → Tx ℕ
unfolding chunk_body
chunk_checked (some e) env qs = fail (invalid e)
chunk_checked none env qs = transaction (chunk_body env qs)

-- `insertQSOChunk`
unfoldable pub insert_qso_chunk : Services → List Qso → Tx ℕ
unfolding chunk_checked first_invalid
insert_qso_chunk env qs = chunk_checked (first_invalid env.floats qs) env qs

abbrev pub import_batch_size : ℕ
import_batch_size = 1_000

-- `PRAGMA optimize`
abbrev pub optimize : ℕ → Tx ℕ
optimize inserted = statement (λ db. (inserted, db))

-- The loop over the chunks, with the rounds that are left. The chunks before one that fails stay.
unfoldable pub import_chunks : ℕ → Services → List Qso → ℕ → Tx ℕ
unfolding insert_qso_chunk
import_chunks rounds env [] inserted = optimize inserted
import_chunks zero env (q ∷ qs) inserted = optimize inserted
import_chunks (suc rounds) env (q ∷ qs) inserted = do
  n ← insert_qso_chunk env (take import_batch_size (q ∷ qs))
  import_chunks rounds env (drop import_batch_size (q ∷ qs)) (inserted + n)

-- `insertQSOBatch`: each round takes a record at least.
unfoldable pub insert_qso_batch : Services → List Qso → Tx ℕ
unfolding import_chunks
insert_qso_batch env qs = import_chunks (length qs) env qs 0
