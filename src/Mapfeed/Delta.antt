-- ===== src/Mapfeed/Delta.antt =====
-- What a client of the map relies on: the bound, the event ids, and deltas that miss nothing.
use w4gns_logger4men.Base.{
  ℕ, zero, suc, ◌+◌, ◌-◌, ◌≤◌, ◌<◌, ◌≡◌, refl, ap, Bool, true, false, List, [], ◌∷◌, arith, ltb,
  if◌then◌else◌, drop, length, All, All-append, ◌⊎◌, inl, inr,
}
use mathlib.Core.List.{Memᴰ}
use w4gns_logger4men.Mapfeed.{
  Location, Report, Retained, Store, word, keep_since, newest, add, expire, changed_since,
  changes_since, Resolver, is_relocated, relocate, update_if, update_one, update_reports,
  update_locations, Call, adds, expires, updates, call, calls,
}

-- The most that a call can add to the revision.
unfoldable pub call_cost : ℕ → Call → ℕ
call_cost capacity (adds r) = 1
call_cost capacity (expires before) = 0
call_cost capacity (updates valid resolve) = capacity

unfoldable pub cost : ℕ → List Call → ℕ
unfolding call_cost
cost capacity [] = 0
cost capacity (c ∷ cs) = call_cost capacity c + cost capacity cs

module _ {κ} (P : Retained → Type κ) where
  All-if : (b : Bool) (xs ys : List Retained) → All P xs → All P ys → All P (if b then xs else ys)
  All-if true xs ys h k = h
  All-if false xs ys h k = k

  All-keep_since : (before : ℕ) (rs : List Retained) → All P rs → All P (keep_since before rs)
  unfolding keep_since
  All-keep_since before [] h = h
  All-keep_since before (r ∷ rs) (p, h) =
      All-if (ltb r.report.received_at before) _ _ (All-keep_since before rs h)
        (p, All-keep_since before rs h)

  All-drop : (n : ℕ) (rs : List Retained) → All P rs → All P (drop n rs)
  All-drop zero rs h = h
  All-drop (suc n) [] h = h
  All-drop (suc n) (r ∷ rs) (p, h) = All-drop n rs h

  All-newest : (capacity : ℕ) (rs : List Retained) → All P rs → All P (newest capacity rs)
  unfolding newest
  All-newest capacity rs h =
      All-if (ltb capacity (length rs)) _ _ (All-drop (length rs - capacity) rs h) h

length-keep_since : (before : ℕ) (rs : List Retained) → length (keep_since before rs) ≤ length rs
unfolding keep_since
length-keep_since before [] = ground arith
length-keep_since before (r ∷ rs) = ground (arith, length-keep_since before rs)

length-drop : (n : ℕ) (rs : List Retained) → length (drop n rs) ≡ length rs - n
length-drop zero rs = ground arith
length-drop (suc n) [] = ground arith
length-drop (suc n) (r ∷ rs) = ground (arith, length-drop n rs)

length-newest : (capacity : ℕ) (rs : List Retained) → length (newest capacity rs) ≤ capacity
unfolding newest
length-newest capacity rs = ground (arith, length-drop (length rs - capacity) rs)

length-update_reports :
    (valid : Location → Bool) (resolve : Resolver) (rs : List Retained) (revision : ℕ)
    → length (update_reports valid resolve rs revision).0 ≡ length rs
unfolding update_reports
length-update_reports valid resolve [] revision = refl
length-update_reports valid resolve (r ∷ rs) revision =
    ap suc (length-update_reports valid resolve rs _)

-- A store holds at most its capacity, whatever is called.
pub length-call :
    (c : Call) (s : Store) → length s.reports ≤ s.capacity → length (call c s).reports ≤ s.capacity
unfolding call add expire update_locations
length-call (adds r) s h = length-newest s.capacity _
length-call (expires before) s h = ground (arith, length-keep_since before s.reports)
length-call (updates valid resolve) s h =
    ground (arith, length-update_reports valid resolve s.reports s.revision)

pub capacity-call : (c : Call) (s : Store) → (call c s).capacity ≡ s.capacity
unfolding call add expire update_locations
capacity-call (adds r) s = refl
capacity-call (expires before) s = refl
capacity-call (updates valid resolve) s = refl

-- A retained report that the client had, or that is newer than the client's cursor.
abbrev Known : List Retained → ℕ → Retained → Type 0
Known old cursor r = Memᴰ r old ⊎ cursor < r.revision

update_if-Known :
    (changed : Bool) (moved : Report) (old : List Retained) (cursor : ℕ) (r : Retained)
    → (revision : ℕ) → cursor ≤ revision
    → revision + 1 < word
    → Known old cursor r
    → Known old cursor (update_if changed moved r revision).0
      × (revision ≤ (update_if changed moved r revision).1)
      × ((update_if changed moved r revision).1 ≤ revision + 1)
unfolding update_if
update_if-Known true moved old cursor r revision le lt k =
    (inr (ground arith), ground arith, ground arith)
update_if-Known false moved old cursor r revision le lt k = (k, ground arith, ground arith)

update_reports-Known :
    (valid : Location → Bool) (resolve : Resolver) (old : List Retained) (cursor : ℕ)
    → (rs : List Retained) (revision : ℕ) → cursor ≤ revision
    → revision + length rs < word
    → All (Known old cursor) rs
    → All (Known old cursor) (update_reports valid resolve rs revision).0
      × (revision ≤ (update_reports valid resolve rs revision).1)
      × ((update_reports valid resolve rs revision).1 ≤ revision + length rs)
unfolding update_reports update_one
update_reports-Known valid resolve old cursor [] revision le lt h = (tt, ground arith, ground arith)
update_reports-Known valid resolve old cursor (r ∷ rs) revision le lt (k, h) =
    let one =
      update_if-Known (is_relocated valid resolve r.report) (relocate valid resolve r.report) old
        cursor r revision le (ground arith) k in
    let rest =
      update_reports-Known valid resolve old cursor rs (update_one valid resolve r revision).1
        (ground arith) (ground arith) h in
    ((one.0, rest.0), ground arith, ground arith)

-- The bound on the number of retained reports, with what one call does to the client's knowledge.
call-Known :
    (c : Call) (old : List Retained) (cursor : ℕ) (s : Store)
    → length s.reports ≤ s.capacity
    → cursor ≤ s.revision
    → s.revision + call_cost s.capacity c < word
    → All (Known old cursor) s.reports
    → All (Known old cursor) (call c s).reports
      × (s.revision ≤ (call c s).revision)
      × ((call c s).revision ≤ s.revision + call_cost s.capacity c)
unfolding call call_cost add expire update_locations
call-Known (adds r) old cursor s fits le lt h = (
  All-newest (Known old cursor) s.capacity _
      (All-append (Known old cursor) s.reports _ h (inr (ground arith), tt)),
  ground arith,
  ground arith,
)
call-Known (expires before) old cursor s fits le lt h =
    (All-keep_since (Known old cursor) before s.reports h, ground arith, ground arith)
call-Known (updates valid resolve) old cursor s fits le lt h =
    let updated =
      update_reports-Known valid resolve old cursor s.reports s.revision le (ground arith) h in
    (updated.0, updated.1, ground arith)

calls-Known :
    (cs : List Call) (old : List Retained) (cursor : ℕ) (s : Store)
    → length s.reports ≤ s.capacity
    → cursor ≤ s.revision
    → s.revision + cost s.capacity cs < word
    → All (Known old cursor) s.reports
    → All (Known old cursor) (calls cs s).reports
unfolding calls cost
calls-Known [] old cursor s fits le lt h = h
calls-Known (c ∷ cs) old cursor s fits le lt h =
    let one = call-Known c old cursor s fits le (ground arith) h in
    calls-Known cs old cursor (call c s) (ground (arith, length-call c s fits, capacity-call c s))
      (ground arith) (ground (arith, ap (λ n. cost n cs) (capacity-call c s))) one.0

All-self :
    (rs old : List Retained) (cursor : ℕ)
    → ((r : Retained) → Memᴰ r rs → Memᴰ r old)
    → All (Known old cursor) rs
All-self [] old cursor h = tt
All-self (r ∷ rs) old cursor h =
    (inl (h r (Memᴰ.head refl)), All-self rs old cursor (λ x m. h x (Memᴰ.tail m)))

Mem-if :
    (b : Bool) (x : Report) (r : Report) (rs : List Report)
    → Memᴰ x rs
    → Memᴰ x (if b then r ∷ rs else rs)
Mem-if true x r rs m = Memᴰ.tail m
Mem-if false x r rs m = m

head-if : (b : Bool) (x : Report) (rs : List Report) → b ≡ true → Memᴰ x (if b then x ∷ rs else rs)
head-if true x rs p = Memᴰ.head refl
head-if false x rs p = absurd (ground arith)

-- A retained report is one of the client's, or the delta has it.
abbrev pub Covered : List Retained → List Report → Retained → Type 0
Covered old delta r = Memᴰ r old ⊎ Memᴰ r.report delta

All-changed_since :
    (old : List Retained) (cursor : ℕ) (rs : List Retained) (delta : List Report)
    → ((x : Report) → Memᴰ x (changed_since cursor rs) → Memᴰ x delta)
    → All (Known old cursor) rs
    → All (Covered old delta) rs
unfolding changed_since
All-changed_since old cursor [] delta within h = tt
All-changed_since old cursor (r ∷ rs) delta within (k, h) = (
  elim k [
    | inl m ↦ inl m
    | inr newer ↦ inr (
        within r.report
          (head-if (ltb cursor r.revision) r.report (changed_since cursor rs) (ground arith)))
  ],
  All-changed_since old cursor rs delta
      (λ x m. within x (Mem-if (ltb cursor r.revision) x r.report (changed_since cursor rs) m)) h,
)

-- A client that has the reports of a snapshot and asks for the changes since the revision of that
-- snapshot misses nothing: after any calls, a report that the store retains is one that it retained
-- at the snapshot, unchanged, or is in the delta; provided that the store was within its capacity and
-- the calls do not use up the 64-bit revision.
pub changes_since_complete :
    (cs : List Call) (s : Store)
    → length s.reports ≤ s.capacity
    → s.revision + cost s.capacity cs < word
    → All (Covered s.reports (changes_since s.revision (calls cs s)).reports) (calls cs s).reports
unfolding changes_since
changes_since_complete cs s fits lt =
    All-changed_since s.reports s.revision (calls cs s).reports _ (λ x m. m)
      (calls-Known cs s.reports s.revision s fits (ground arith) lt
        (All-self s.reports s.reports s.revision (λ r m. m)))
