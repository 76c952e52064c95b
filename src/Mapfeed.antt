-- ===== src/Mapfeed.antt =====
-- internal/mapfeed/store.go and the report of internal/spot/report.go: the bounded store of the
-- companion map. Each method holds the store's lock for the whole of its body, so a run of
-- the store is a list of calls. Instants are nanoseconds; a location is a pointer, so it carries its
-- address beside what it points to, and the coordinates' test is an argument, since it is one of
-- floating-point numbers. The session identifier, random bytes, is an argument of `new_store`.
pub mod Delta
pub mod Ids
use w4gns_logger4men.Base.{
  ℕ, zero, suc, ◌+◌, ◌-◌, ◌%◌, ◌≤◌, ◌<◌, ◌≡◌, refl, Bool, true, false, not, ◌&&◌, ◌||◌, Option,
  none, some, List, [], ◌∷◌, ◌++◌, arith, leb, ltb, nat_beq, if◌then◌else◌, drop, length,
}
use w4gns_logger4men.Text.{Text}
use w4gns_logger4men.Text.Numeral.{ℤ, pos, negsuc}

-- `geo.Location`, at its address; a coordinate is the 64 bits of its float.
pub record Location : Type 0 where
  pub address : ℕ
  pub country : Text
  pub latitude : ℕ
  pub longitude : ℕ
  pub source : ℕ
  pub precision : ℕ
  pub locator : Text
  pub resolved_at : ℕ

-- `spot.Report`
pub record Report : Type 0 where
  pub schema_version : ℕ
  pub session_id : Text
  pub event_id : ℤ
  pub received_at : ℕ
  pub dx_call : Text
  pub spotter_call : Text
  pub frequency_hz : ℕ
  pub band : Text
  pub comment : Text
  pub dx_location : Option Location
  pub spotter_location : Option Location
  pub source_time : Option ℕ

-- `retainedReport`
pub record Retained : Type 0 where
  pub report : Report
  pub revision : ℕ

-- `Store`
pub record Store : Type 0 where
  pub capacity : ℕ
  pub session_id : Text
  pub next_event : ℤ
  pub revision : ℕ
  pub reports : List Retained

-- `Changes`
pub record Changes : Type 0 where
  pub reports : List Report
  pub revision : ℕ
  pub oldest_id : ℤ
  pub at_capacity : Bool

-- The revisions are `uint64`.
abbrev pub word : ℕ
word = 18_446_744_073_709_551_616

-- The greatest `int64`.
abbrev pub max_int64 : ℕ
max_int64 = 9_223_372_036_854_775_807

-- `n + 1` of an `int64`, which goes on at the least one behind the greatest.
unfoldable pub next_int64 : ℤ → ℤ
next_int64 (pos n) = if leb max_int64 n then negsuc max_int64 else pos (n + 1)
next_int64 (negsuc zero) = pos 0
next_int64 (negsuc (suc n)) = negsuc n

abbrev pub schema_version : ℕ
schema_version = 1

-- `NewStore`
unfoldable pub new_store : ℕ → Text → Store
new_store capacity session = record {
  capacity = if ltb capacity 1 then 1 else capacity;
  session_id = session;
  next_event = pos 0;
  revision = 0;
  reports = [];
}

unfoldable pub keep_since : ℕ → List Retained → List Retained
keep_since before [] = []
keep_since before (r ∷ rs) =
    let rest = keep_since before rs in if ltb r.report.received_at before then rest else r ∷ rest

-- `Store.Expire`
unfoldable pub expire : ℕ → Store → Store
unfolding keep_since
expire before s = record s { reports = keep_since before s.reports }

-- The reports that stay when the oldest are dropped above the capacity.
unfoldable pub newest : ℕ → List Retained → List Retained
newest capacity rs = if ltb capacity (length rs) then drop (length rs - capacity) rs else rs

-- `Store.Add`, with the event id that it returns.
unfoldable pub add : Report → Store → ℤ × Store
unfolding newest next_int64
add r s =
    let event = next_int64 s.next_event in
    let revision = (s.revision + 1) % word in
    let stored : Retained = record {
      report = record r {
        schema_version = schema_version;
        session_id = s.session_id;
        event_id = event;
      };
      revision = revision;
    } in
    (
      event,
      record s {
        next_event = event;
        revision = revision;
        reports = newest s.capacity (s.reports ++ stored ∷ []);
      },
    )

unfoldable pub changed_since : ℕ → List Retained → List Report
changed_since cursor [] = []
changed_since cursor (r ∷ rs) =
    let rest = changed_since cursor rs in if ltb cursor r.revision then r.report ∷ rest else rest

unfoldable pub oldest_id : ℤ → List Retained → ℤ
unfolding next_int64
oldest_id next_event [] = next_int64 next_event
oldest_id next_event (r ∷ rs) = r.report.event_id

-- `Store.ChangesSince`
unfoldable pub changes_since : ℕ → Store → Changes
unfolding changed_since oldest_id
changes_since cursor s = record {
  reports = changed_since cursor s.reports;
  revision = s.revision;
  oldest_id = oldest_id s.next_event s.reports;
  at_capacity = leb s.capacity (length s.reports);
}

-- `Store.Snapshot`
unfoldable pub snapshot : Store → List Report
unfolding changes_since
snapshot s = (changes_since 0 s).reports

-- `found != nil && found != old && geo.ValidCoordinates(...)`
unfoldable pub replaces : (Location → Bool) → Option Location → Option Location → Bool
replaces valid none old = false
replaces valid (some found) none = valid found
replaces valid (some found) (some old) = not (nat_beq found.address old.address) && valid found

-- What a lookup found for the two ends of a report.
abbrev pub Resolver : Type 0
Resolver = Report → Option Location × Option Location

unfoldable pub relocate : (Location → Bool) → Resolver → Report → Report
unfolding replaces
relocate valid resolve r =
    let dx = (resolve r).0 in
    let spotter = (resolve r).1 in
    record r {
      dx_location = if replaces valid dx r.dx_location then dx else r.dx_location;
      spotter_location =
          if replaces valid spotter r.spotter_location then spotter else r.spotter_location;
    }

unfoldable pub is_relocated : (Location → Bool) → Resolver → Report → Bool
unfolding replaces
is_relocated valid resolve r =
    replaces valid (resolve r).0 r.dx_location || replaces valid (resolve r).1 r.spotter_location

-- One round of the loop of `UpdateLocations`.
unfoldable pub update_if : Bool → Report → Retained → ℕ → Retained × ℕ
update_if false moved r revision = (r, revision)
update_if true moved r revision =
    (record { report = moved; revision = (revision + 1) % word }, (revision + 1) % word)

unfoldable pub update_one : (Location → Bool) → Resolver → Retained → ℕ → Retained × ℕ
unfolding relocate is_relocated update_if
update_one valid resolve r revision =
    update_if (is_relocated valid resolve r.report) (relocate valid resolve r.report) r revision

unfoldable pub update_reports : (Location → Bool) → Resolver → List Retained → ℕ → List Retained × ℕ
unfolding update_one
update_reports valid resolve [] revision = ([], revision)
update_reports valid resolve (r ∷ rs) revision =
    let one = update_one valid resolve r revision in
    let rest = update_reports valid resolve rs one.1 in (one.0 ∷ rest.0, rest.1)

-- `Store.UpdateLocations`
unfoldable pub update_locations : (Location → Bool) → Resolver → Store → Store
unfolding update_reports
update_locations valid resolve s =
    let updated = update_reports valid resolve s.reports s.revision in
    record s { revision = updated.1; reports = updated.0 }

-- `Store.Len`
unfoldable pub len : Store → ℕ
len s = length s.reports

-- The calls that change a store.
pub data Call : Type 0 where
  adds : Report → Call
  expires : ℕ → Call
  updates : (Location → Bool) → Resolver → Call

unfoldable pub call : Call → Store → Store
unfolding add expire update_locations
call (adds r) s = (add r s).1
call (expires before) s = expire before s
call (updates valid resolve) s = update_locations valid resolve s

unfoldable pub calls : List Call → Store → Store
unfolding call
calls [] s = s
calls (c ∷ cs) s = calls cs (call c s)
