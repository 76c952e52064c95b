-- ===== src/Outbox.antt =====
-- outbox.go: the durable queue of uploads. The table `upload_outbox` is a list of rows; a statement
-- of the source is a function on that list. Instants are nanoseconds; a stored time is RFC 3339
-- text in UTC, whose order is the order of the whole seconds that it spells, so a stored time is
-- that number of seconds. The database's answers are an argument: `true` for a statement that
-- succeeds.
pub mod Claims
pub mod Backoff
pub mod Keys
pub mod Live
use w4gns_logger4men.Base.{
  ℕ, zero, suc, ◌+◌, ◌-◌, ◌*◌, ◌/◌, ◌≡◌, refl, Bool, true, false, not, ◌&&◌, ◌||◌, Option, none,
  some, List, [], ◌∷◌, ◌++◌, leb, ltb, nat_beq, if◌then◌else◌, take,
}
use w4gns_logger4men.Text.{Text, codes}

-- `uploadDestQRZ`, `uploadDestWRL`, `uploadDestLoTW`
pub data Destination : Type 0 where
  qrz wrl lotw : Destination

abbrev pub destination_index : Destination → ℕ
destination_index qrz = 0
destination_index wrl = 1
destination_index lotw = 2

-- A row of `upload_outbox`.
pub record Row : Type 0 where
  pub qso_id : ℕ
  pub profile_id : ℕ
  pub destination : Destination
  pub attempts : ℕ
  pub next_attempt_at : ℕ
  pub last_error : Option Text
  pub created_at : ℕ
  pub binding : Text

-- `outboxEntry`
pub record Entry : Type 0 where
  pub qso_id : ℕ
  pub profile_id : ℕ
  pub destination : Destination
  pub binding : Text

abbrev pub second : ℕ
second = 1_000_000_000

abbrev pub minute : ℕ
minute = 60 * second

-- `t.UTC().Format(time.RFC3339)`
abbrev pub stamp : ℕ → ℕ
stamp t = t / second

-- `WHERE qso_id = ? AND destination = ?`
unfoldable pub is_key : ℕ → Destination → Row → Bool
is_key id dest r =
    nat_beq r.qso_id id && nat_beq (destination_index r.destination) (destination_index dest)

unfoldable pub find_row : ℕ → Destination → List Row → Option Row
unfolding is_key
find_row id dest [] = none
find_row id dest (r ∷ rs) = if is_key id dest r then some r else find_row id dest rs

-- The row that `enqueueUpload` inserts.
abbrev pub queued_row : ℕ → ℕ → Destination → ℕ → ℕ → Row
queued_row id profile dest not_before now = record {
  qso_id = id;
  profile_id = profile;
  destination = dest;
  attempts = 0;
  next_attempt_at = stamp not_before;
  last_error = none;
  created_at = stamp now;
  binding = [];
}

-- INSERT OR IGNORE: a row of the key is kept as it is.
unfoldable pub add_missing : Row → List Row → Option Row → List Row
add_missing r rows none = rows ++ r ∷ []
add_missing r rows (some found) = rows

-- `enqueueUpload`: INSERT OR IGNORE on the primary key (qso_id, destination).
unfoldable pub enqueue_upload : ℕ → ℕ → Destination → ℕ → ℕ → List Row → List Row
unfolding find_row add_missing
enqueue_upload id profile dest not_before now rows =
    add_missing (queued_row id profile dest not_before now) rows (find_row id dest rows)

abbrev pub max_upload_attempts : ℕ
max_upload_attempts = 20

-- `attempts < 20 AND next_attempt_at <= ?`
unfoldable pub is_due : ℕ → Row → Bool
is_due now_stamp r = ltb r.attempts max_upload_attempts && leb r.next_attempt_at now_stamp

unfoldable pub due_rows : ℕ → List Row → List Row
unfolding is_due
due_rows now_stamp [] = []
due_rows now_stamp (r ∷ rs) =
    let rest = due_rows now_stamp rs in if is_due now_stamp r then r ∷ rest else rest

-- `ORDER BY next_attempt_at`
unfoldable insert_due : Row → List Row → List Row
insert_due r [] = r ∷ []
insert_due r (s ∷ ss) =
    if ltb s.next_attempt_at r.next_attempt_at then s ∷ insert_due r ss else r ∷ s ∷ ss

unfoldable pub order_due : List Row → List Row
unfolding insert_due
order_due [] = []
order_due (r ∷ rs) = insert_due r (order_due rs)

abbrev pub entry_of : Row → Entry
entry_of r = record {
  qso_id = r.qso_id;
  profile_id = r.profile_id;
  destination = r.destination;
  binding = r.binding;
}

unfoldable pub entries_of : List Row → List Entry
entries_of [] = []
entries_of (r ∷ rs) = entry_of r ∷ entries_of rs

-- The rows of the claim's SELECT.
unfoldable pub select_due : ℕ → ℕ → List Row → List Entry
unfolding due_rows order_due entries_of
select_due now_stamp limit rows = entries_of (take limit (order_due (due_rows now_stamp rows)))

-- `SET next_attempt_at = ?, last_error = NULL` on the row of one key.
unfoldable pub lease_row : ℕ → Entry → List Row → List Row
unfolding is_key
lease_row until e [] = []
lease_row until e (r ∷ rs) =
    (if is_key e.qso_id e.destination r
      then record r { next_attempt_at = until; last_error = none }
      else r)
    ∷ lease_row until e rs

-- The loop of leases; `none` at the first statement that fails.
unfoldable pub lease_all : ℕ → List Entry → List Bool → List Row → Option (List Row)
unfolding lease_row
lease_all until [] answers rows = some rows
lease_all until (e ∷ es) [] rows = none
lease_all until (e ∷ es) (answer ∷ answers) rows =
    let rest = lease_all until es answers (lease_row until e rows) in if answer then rest else none

-- What a claim returns: the entries, or an error.
pub data Claim : Type 0 where
  claimed : List Entry → Claim
  failed : Claim

-- The database's answers to the claim's statements.
pub record Answers : Type 0 where
  pub begin : Bool
  pub query : Bool
  pub updates : List Bool
  pub commit : Bool

unfoldable pub commit_claim : Bool → List Entry → Option (List Row) → List Row → Claim × List Row
commit_claim commit entries none rows = (failed, rows)
commit_claim commit entries (some leased) rows =
    if commit then (claimed entries, leased) else (failed, rows)

-- `claimDueUploads`: an error anywhere rolls the transaction back.
unfoldable pub claim_due_uploads : Answers → ℕ → ℕ → ℕ → List Row → Claim × List Row
unfolding select_due lease_all commit_claim
claim_due_uploads db now lease limit rows =
    let entries = select_due (stamp now) limit rows in
    if db.begin && db.query
    then commit_claim db.commit entries (lease_all (stamp (now + lease)) entries db.updates rows)
        rows
    else (failed, rows)

-- `markUploadDone`: DELETE by key.
unfoldable pub mark_upload_done : ℕ → Destination → List Row → List Row
unfolding is_key
mark_upload_done id dest [] = []
mark_upload_done id dest (r ∷ rs) =
    let rest = mark_upload_done id dest rs in if is_key id dest r then rest else r ∷ rest

abbrev pub half_hour : ℕ
half_hour = 30 * minute

abbrev pub year : ℕ
year = 365 * 24 * 60 * minute

-- The loop of `uploadBackoff`, with the rounds that are left.
unfoldable pub double_delay : ℕ → ℕ → ℕ
double_delay zero delay = delay
double_delay (suc rounds) delay =
    let longer = double_delay rounds (delay * 2) in
    if leb half_hour (delay * 2) then half_hour else longer

unfoldable pub upload_backoff : ℕ → ℕ
unfolding double_delay
upload_backoff attempts =
    if leb max_upload_attempts attempts then year else double_delay (attempts - 1) minute

-- UPDATE of attempts, next_attempt_at and last_error by key.
unfoldable pub reschedule : ℕ → Destination → ℕ → ℕ → Text → List Row → List Row
unfolding is_key
reschedule id dest attempts next message [] = []
reschedule id dest attempts next message (r ∷ rs) =
    (if is_key id dest r
      then record r { attempts = attempts; next_attempt_at = next; last_error = some message }
      else r)
    ∷ reschedule id dest attempts next message rs

-- `recordUploadFailure`; a row that is gone is left alone.
unfoldable pub record_upload_failure : ℕ → Destination → Text → ℕ → List Row → List Row
unfolding find_row reschedule upload_backoff
record_upload_failure id dest message now rows = elim (find_row id dest rows) [
  | none ↦ rows
  | some r ↦
      reschedule id dest (r.attempts + 1) (stamp (now + upload_backoff (r.attempts + 1))) message
        rows
]
