-- ===== src/Store.antt =====
-- store.go: the table of QSOs and the statements on it. The database's answers are an argument:
-- `true` for a statement that succeeds; a transaction that does not commit is rolled back. SQLite's
-- LIKE, `float64` and the country file are arguments. The columns of a QSO's date and time are the
-- number of whole seconds that they spell.
pub mod Transaction
pub mod Insert
pub mod Change
pub mod Import
pub mod Dupe
pub mod Rules
pub mod Queued
pub mod Atomic
pub mod Delete
pub mod Always
pub mod Links
use w4gns_logger4men.Base.{
  ℕ, ◌+◌, Bool, true, false, not, ◌&&◌, ◌||◌, Option, none, some, List, [], ◌∷◌, nat_beq,
  if◌then◌else◌,
}
use w4gns_logger4men.Text.{Text, codes, is_empty, trim_space}
use w4gns_logger4men.Text.Numeral.{ℤ, pos, atoi}
use w4gns_logger4men.Exchange.{Entity, Lookup}
use w4gns_logger4men.Contest.Types.{Qso}
use w4gns_logger4men.Outbox.{Row, stamp}
use w4gns_logger4men.Validation.{Floats, QsoError}

-- What the store calls: the country file, `float64`, and `text LIKE pattern`.
pub record Services : Type 1 where
  pub lookup : Lookup
  pub floats : Floats
  pub like : Text → Text → Bool

-- A row of the table `qso`: the text columns, with the row's id, and the columns that are no copy of
-- a field of the QSO.
pub record StoredQso : Type 0 where
  pub values : Qso
  pub started : ℕ
  pub ended : ℕ
  pub country : Text
  pub cq_zone : Option ℤ
  pub itu_zone : Option ℤ
  pub dxcc_number : Option ℤ
  pub sig : Text

-- The tables `qso` and `upload_outbox`, and the column `qso_id` of `lotw_confirmation`; `next_id` is
-- the number that AUTOINCREMENT gives to the next row.
pub record Database : Type 0 where
  pub log : List StoredQso
  pub next_id : ℕ
  pub outbox : List Row
  pub confirmed : List (Option ℕ)

pub data StoreError : Type 0 where
  invalid : QsoError → StoreError
  cannot_begin cannot_run cannot_commit missing_not_before no_row missing_exchanges : StoreError

-- `potaSignal`
unfoldable pub pota_signal : Text → Text
unfolding trim_space
pota_signal reference = if is_empty (trim_space reference) then [] else codes "POTA"

abbrev pub numbered : ℕ → Option ℤ
numbered n = if nat_beq n 0 then none else some (pos n)

-- `dxccContext`: the country, the CQ zone, the ITU zone and the DXCC number.
unfoldable pub dxcc_context : Lookup → Text → Text × Option ℤ × Option ℤ × Option ℤ
dxcc_context lookup call = elim (lookup call) [
  | none ↦ ([], none, none, none)
  | some e ↦ (e.country, some (pos e.cq_zone), some (pos e.itu_zone), numbered e.dxcc_number)
]

-- A number of the QSO in place of the country file's.
unfoldable pub prefer_number : Text → Option ℤ → Option ℤ
unfolding trim_space atoi
prefer_number text found = elim (atoi (trim_space text)) [ none ↦ found | some n ↦ some n ]

-- `resolveDXCC`
unfoldable pub resolve_dxcc : Lookup → Qso → Text × Option ℤ × Option ℤ × Option ℤ
unfolding dxcc_context prefer_number trim_space
resolve_dxcc lookup q =
    let found = dxcc_context lookup q.call in
    let country = trim_space q.country in
    (
      if is_empty country then found.0 else country,
      prefer_number q.cq_zone found.1,
      prefer_number q.itu_zone found.2,
      prefer_number q.dxcc_number found.3,
    )

-- The row that an INSERT makes of a QSO.
unfoldable pub stored_qso : Services → ℕ → Qso → StoredQso
unfolding resolve_dxcc pota_signal
stored_qso env id q =
    let place = resolve_dxcc env.lookup q in
    record {
      values = record q { id = id; unscored = false };
      started = stamp q.time;
      ended = stamp q.time_off;
      country = place.0;
      cq_zone = place.1;
      itu_zone = place.2;
      dxcc_number = place.3;
      sig = pota_signal q.pota_ref;
    }

-- `count`
unfoldable pub count_qsos : ℕ → List StoredQso → ℕ
count_qsos profile [] = 0
count_qsos profile (r ∷ rs) =
    let rest = count_qsos profile rs in
    if nat_beq r.values.profile_id profile then rest + 1 else rest
