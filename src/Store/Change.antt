-- ===== src/Store/Change.antt =====
-- `updateQSO`, `setQSOUnscored` and `deleteQSO`.
use w4gns_logger4men.Base.{
  ℕ, ◌+◌, Bool, ◌&&◌, Option, none, some, List, [], ◌∷◌, nat_beq, if◌then◌else◌,
}
use w4gns_logger4men.Text.{Text, equal_fold, trim_space}
use w4gns_logger4men.Contest.Types.{Qso}
use w4gns_logger4men.Outbox.{Row}
use w4gns_logger4men.Validation.{QsoError, validate_qso}
use w4gns_logger4men.Store.{Services, StoredQso, Database, invalid, no_row, stored_qso}
use w4gns_logger4men.Store.Transaction.{Tx, ◌>>=◌, ◌>>◌, pure, fail, statement, transaction}

-- `WHERE id = ? AND profile_id = ?`
abbrev pub is_row : ℕ → ℕ → StoredQso → Bool
is_row profile id r = nat_beq r.values.id id && nat_beq r.values.profile_id profile

-- `RowsAffected`: how many rows the WHERE finds.
unfoldable pub matching : ℕ → ℕ → List StoredQso → ℕ
matching profile id [] = 0
matching profile id (r ∷ rs) =
    let rest = matching profile id rs in if is_row profile id r then rest + 1 else rest

unfoldable pub remove_rows : ℕ → ℕ → List StoredQso → List StoredQso
remove_rows profile id [] = []
remove_rows profile id (r ∷ rs) =
    let rest = remove_rows profile id rs in if is_row profile id r then rest else r ∷ rest

-- `DELETE FROM upload_outbox WHERE qso_id = ?`
unfoldable pub remove_uploads : ℕ → List Row → List Row
remove_uploads id [] = []
remove_uploads id (r ∷ rs) =
    let rest = remove_uploads id rs in if nat_beq r.qso_id id then rest else r ∷ rest

abbrev pub delete_rows : ℕ → ℕ → Database → ℕ × Database
delete_rows profile id db =
    (matching profile id db.log, record db { log = remove_rows profile id db.log })

abbrev pub delete_uploads : ℕ → Database → Unit {0} × Database
delete_uploads id db = (tt, record db { outbox = remove_uploads id db.outbox })

-- No row affected is an error.
unfoldable pub some_row : ℕ → Tx (Unit {0})
some_row n = if nat_beq n 0 then fail no_row else pure tt

unfoldable pub delete_body : ℕ → ℕ → Tx (Unit {0})
unfolding matching remove_rows remove_uploads some_row
delete_body profile id = do
  n ← statement (delete_rows profile id)
  some_row n
  statement (delete_uploads id)

-- `deleteQSO`
unfoldable pub delete_qso : ℕ → ℕ → Tx (Unit {0})
unfolding delete_body
delete_qso profile id = transaction (delete_body profile id)

-- `UPDATE qso SET unscored = ? WHERE id = ? AND profile_id = ?`
unfoldable pub flag_rows : ℕ → ℕ → Bool → List StoredQso → List StoredQso
flag_rows profile id flag [] = []
flag_rows profile id flag (r ∷ rs) =
    (if is_row profile id r then record r { values = record r.values { unscored = flag } } else r)
    ∷ flag_rows profile id flag rs

abbrev pub flag_update : ℕ → ℕ → Bool → Database → ℕ × Database
flag_update profile id flag db =
    (matching profile id db.log, record db { log = flag_rows profile id flag db.log })

-- `setQSOUnscored`: one statement, which is its own transaction.
unfoldable pub set_qso_unscored : ℕ → ℕ → Bool → Tx (Unit {0})
unfolding matching flag_rows some_row
set_qso_unscored profile id flag = statement (flag_update profile id flag) >>= some_row

-- The columns that `updateQSO` sets; the id, the profile, the mode, the times, the flag and the
-- station's own columns stay.
unfoldable pub edit_row : Services → Qso → StoredQso → StoredQso
unfolding stored_qso
edit_row env q r =
    let fresh = stored_qso env r.values.id q in
    record r {
      values = record r.values {
        call = q.call;
        band = q.band;
        frequency = q.frequency;
        rst_sent = q.rst_sent;
        rst_rcvd = q.rst_rcvd;
        name = q.name;
        qth = q.qth;
        grid = q.grid;
        state = q.state;
        county = q.county;
        email = q.email;
        pota_ref = q.pota_ref;
        park_name = q.park_name;
        iota_ref = q.iota_ref;
        island_name = q.island_name;
        comment = q.comment;
        contest_id = q.contest_id;
        stx = q.stx;
        stx_string = q.stx_string;
        srx = q.srx;
        srx_string = q.srx_string;
      };
      country = fresh.country;
      cq_zone = fresh.cq_zone;
      itu_zone = fresh.itu_zone;
      dxcc_number = fresh.dxcc_number;
      sig = fresh.sig;
    }

unfoldable pub edit_rows : Services → ℕ → Qso → List StoredQso → List StoredQso
unfolding edit_row
edit_rows env id q [] = []
edit_rows env id q (r ∷ rs) =
    (if is_row q.profile_id id r then edit_row env q r else r) ∷ edit_rows env id q rs

-- `SELECT call, band FROM qso WHERE id = ?`; two empty texts where there is no row.
unfoldable pub call_band_of : ℕ → List StoredQso → Text × Text
call_band_of id [] = ([], [])
call_band_of id (r ∷ rs) =
    let rest = call_band_of id rs in
    if nat_beq r.values.id id then (r.values.call, r.values.band) else rest

-- `UPDATE lotw_confirmation SET qso_id = NULL WHERE qso_id = ?`
unfoldable pub unlink : ℕ → List (Option ℕ) → List (Option ℕ)
unlink id [] = []
unlink id (none ∷ ms) = none ∷ unlink id ms
unlink id (some n ∷ ms) = (if nat_beq n id then none else some n) ∷ unlink id ms

-- Whether call and band are still those of the row, up to case and blanks around them.
unfoldable pub same_contact : Text × Text → Qso → Bool
unfolding equal_fold trim_space
same_contact (call, band) q =
    equal_fold (trim_space call) (trim_space q.call)
    && equal_fold (trim_space band) (trim_space q.band)

abbrev pub read_call_band : ℕ → Database → (Text × Text) × Database
read_call_band id db = (call_band_of id db.log, db)

abbrev pub edit_statement : Services → ℕ → Qso → Database → ℕ × Database
edit_statement env id q db =
    (matching q.profile_id id db.log, record db { log = edit_rows env id q db.log })

abbrev pub unlink_statement : ℕ → Database → Unit {0} × Database
unlink_statement id db = (tt, record db { confirmed = unlink id db.confirmed })

unfoldable pub update_body : Services → ℕ → Qso → Tx (Unit {0})
unfolding matching edit_rows unlink same_contact some_row call_band_of
update_body env id q = do
  previous ← statement (read_call_band id)
  n ← statement (edit_statement env id q)
  some_row n
  if same_contact previous q then pure tt else statement (unlink_statement id)

unfoldable pub update_checked : Option QsoError → Services → ℕ → Qso → Tx (Unit {0})
unfolding update_body
update_checked (some e) env id q = fail (invalid e)
update_checked none env id q = transaction (update_body env id q)

-- `updateQSO`
unfoldable pub update_qso : Services → ℕ → Qso → Tx (Unit {0})
unfolding update_checked validate_qso
update_qso env id q = update_checked (validate_qso env.floats q) env id q
