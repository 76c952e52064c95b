-- ===== src/Tests/Services.antt =====
-- A queue of two deliveries, and a map store of two reports.
use w4gns_logger4men.Base.{
  ◌*◌, ◌^◌, ◌-◌, ◌≤◌, ◌≡◌, refl, true, false, none, some, List, [], ◌∷◌, arith, length, All, ltb,
  if◌then◌else◌,
}
use w4gns_logger4men.Text.{codes}
use w4gns_logger4men.Outbox.{
  Row, qrz, wrl, second, minute, find_row, enqueue_upload, is_key, is_due, due_rows, order_due,
  entries_of, select_due, lease_row, lease_all, Answers, claim_due_uploads, mark_upload_done,
  upload_backoff, double_delay, reschedule, record_upload_failure, add_missing,
}
use w4gns_logger4men.Outbox.Claims.{has_entry, claimed_entries, returned, claim_due_uploads-once}
use w4gns_logger4men.Outbox.Backoff.{capped, upload_backoff-capped}
use w4gns_logger4men.Outbox.Keys.{
  Action, enqueue, claim, failure, act, run, key_count, finishes, none_finish, IsKeyed, run-IsKeyed,
  run-keeps,
}
use w4gns_logger4men.Text.Numeral.{pos}
use w4gns_logger4men.Mapfeed.{
  Location, Report, Store, new_store, newest, add, expire, keep_since, changed_since, changes_since,
  oldest_id, replaces, relocate, is_relocated, update_if, update_one, update_reports,
  update_locations, Call, adds, updates, call, calls,
}
use w4gns_logger4men.Mapfeed.Delta.{call_cost, cost, Covered, changes_since_complete}
use w4gns_logger4men.Mapfeed.Ids.{IsOrdered, added, new_store-IsOrdered}

services_run : Unit {0}
unfolding find_row enqueue_upload is_key is_due due_rows order_due entries_of select_due lease_row
    lease_all claim_due_uploads mark_upload_done upload_backoff double_delay reschedule
    record_upload_failure add_missing has_entry claimed_entries act run key_count finishes
    none_finish new_store newest add expire keep_since changed_since changes_since oldest_id
    replaces relocate is_relocated update_if update_one update_reports update_locations call calls
    call_cost cost added
services_run = tt

abbrev queue : List Row
queue = enqueue_upload 7 1 wrl (60 * second) 0 (enqueue_upload 7 1 qrz 0 0 [])

abbrev working : Answers
working = record { begin = true; query = true; updates = true ∷ true ∷ []; commit = true }

-- The second delivery is not yet due.
claims :
    (length (returned (claim_due_uploads working second minute 20 queue)) ≡ 1)
    × (length (returned (claim_due_uploads working (60 * second) minute 20 queue)) ≡ 2)
unfolding services_run
claims = (refl, refl)

claim_due_uploads-once_example :
    has_entry 7 qrz (
      returned (
        claim_due_uploads working
          (30 * second)
          minute
          20
          ((claim_due_uploads working second minute 20 queue).1)))
    ≡ false
unfolding services_run
claim_due_uploads-once_example =
    claim_due_uploads-once working working second minute 20 (30 * second) minute 20 7 qrz queue refl
      (omega arith)

upload_backoff-capped_example : upload_backoff 4 ≡ capped (minute * 2 ^ (4 - 1))
upload_backoff-capped_example = upload_backoff-capped 4 (omega arith) (omega arith)

queue-IsKeyed : IsKeyed queue
unfolding services_run
queue-IsKeyed =
    run-IsKeyed (enqueue 7 1 qrz 0 0 ∷ enqueue 7 1 wrl (60 * second) 0 ∷ []) []
      (λ id dest. omega arith)

abbrev actions : List Action
actions = claim working second minute 20 ∷ failure 7 qrz (codes "timeout") (3 * second) ∷ []

run-keeps_example : key_count 7 qrz (run actions queue) ≡ 1
unfolding services_run
run-keeps_example = run-keeps 7 qrz actions queue queue-IsKeyed refl refl

abbrev heard : Report
heard = record {
  schema_version = 0;
  session_id = [];
  event_id = pos 0;
  received_at = 5;
  dx_call = codes "DL1ABC";
  spotter_call = codes "K3LR";
  frequency_hz = 14_025_000;
  band = codes "20M";
  comment = [];
  dx_location = none;
  spotter_location = none;
  source_time = none;
}

abbrev berlin : Location
berlin = record {
  address = 1;
  country = codes "Germany";
  latitude = 0;
  longitude = 0;
  source = 1;
  precision = 1;
  locator = [];
  resolved_at = 0;
}

abbrev snapshot_store : Store
snapshot_store = calls (adds heard ∷ adds heard ∷ []) (new_store 2 (codes "s"))

abbrev later_calls : List Call
later_calls = updates (λ l. true) (λ r. (some berlin, none)) ∷ adds heard ∷ []

delta :
    ((changes_since snapshot_store.revision (calls later_calls snapshot_store)).revision ≡ 5)
    × (length (changes_since snapshot_store.revision (calls later_calls snapshot_store)).reports
        ≡ 2)
unfolding services_run
delta = (refl, refl)

changes_since_complete_example :
    All
      (Covered snapshot_store.reports
        (changes_since snapshot_store.revision (calls later_calls snapshot_store)).reports)
      (calls later_calls snapshot_store).reports
unfolding services_run
changes_since_complete_example =
    changes_since_complete later_calls snapshot_store (omega arith) (omega arith)

new_store-IsOrdered_example :
    (length (calls (adds heard ∷ adds heard ∷ []) (new_store 1 (codes "s"))).reports
      ≤ (if ltb 1 1 then 1 else 1))
    × ((calls (adds heard ∷ adds heard ∷ []) (new_store 1 (codes "s"))).next_event ≡ pos 2)
    × IsOrdered 0 2 (calls (adds heard ∷ adds heard ∷ []) (new_store 1 (codes "s"))).reports
unfolding added
new_store-IsOrdered_example =
    new_store-IsOrdered (adds heard ∷ adds heard ∷ []) 1 (codes "s") (omega arith)
