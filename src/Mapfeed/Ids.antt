-- ===== src/Mapfeed/Ids.antt =====
-- Event ids: they grow from the oldest report to the newest, whatever is called.
use w4gns_logger4men.Base.{
  ap, ◌∙◌, ℕ, zero, suc, ◌+◌, ◌-◌, ◌≤◌, ◌<◌, ◌≡◌, refl, Bool, true, false, List, [], ◌∷◌, ◌++◌,
  arith, ltb, if◌then◌else◌, drop, length,
}
use w4gns_logger4men.Text.{Text}
use w4gns_logger4men.Text.Numeral.{ℤ, pos, negsuc}
use w4gns_logger4men.Mapfeed.{
  Location, Retained, Store, max_int64, next_int64, new_store, keep_since, newest, add, expire,
  Resolver, is_relocated, relocate, update_if, update_one, update_reports, update_locations, Call,
  adds, expires, updates, call, calls,
}
use w4gns_logger4men.Mapfeed.Delta.{length-call, capacity-call}

-- The part of a number above 0.
abbrev pub pos_part : ℤ → ℕ
pos_part (pos n) = n
pos_part (negsuc n) = 0

abbrev id_of : Retained → ℕ
id_of r = pos_part r.report.event_id

-- The ids after `low` are positive and grow, and none is above `last`.
abbrev pub IsOrdered : ℕ → ℕ → List Retained → Type 0
IsOrdered low last [] = low ≤ last
IsOrdered low last (r ∷ rs) = (low < (id_of r)) × IsOrdered (id_of r) last rs

IsOrdered-lower :
    (low low' last : ℕ) (rs : List Retained)
    → low' ≤ low
    → IsOrdered low last rs
    → IsOrdered low' last rs
IsOrdered-lower low low' last [] le h = ground arith
IsOrdered-lower low low' last (r ∷ rs) le (lt, h) = (ground arith, h)

IsOrdered-last :
    (low last last' : ℕ) (rs : List Retained)
    → last ≤ last'
    → IsOrdered low last rs
    → IsOrdered low last' rs
IsOrdered-last low last last' [] le h = ground arith
IsOrdered-last low last last' (r ∷ rs) le (lt, h) =
    (lt, IsOrdered-last (id_of r) last last' rs le h)

IsOrdered-if :
    (b : Bool) (low last : ℕ) (xs ys : List Retained)
    → IsOrdered low last xs
    → IsOrdered low last ys
    → IsOrdered low last (if b then xs else ys)
IsOrdered-if true low last xs ys h k = h
IsOrdered-if false low last xs ys h k = k

IsOrdered-keep_since :
    (before low last : ℕ) (rs : List Retained)
    → IsOrdered low last rs
    → IsOrdered low last (keep_since before rs)
unfolding keep_since
IsOrdered-keep_since before low last [] h = h
IsOrdered-keep_since before low last (r ∷ rs) (lt, h) =
    let rest = IsOrdered-keep_since before (id_of r) last rs h in
    IsOrdered-if (ltb r.report.received_at before) low last _ _
      (IsOrdered-lower (id_of r) low last _ (ground arith) rest) (lt, rest)

IsOrdered-drop :
    (n low last : ℕ) (rs : List Retained) → IsOrdered low last rs → IsOrdered low last (drop n rs)
IsOrdered-drop zero low last rs h = h
IsOrdered-drop (suc n) low last [] h = h
IsOrdered-drop (suc n) low last (r ∷ rs) (lt, h) =
    IsOrdered-drop n low last rs (IsOrdered-lower (id_of r) low last rs (ground arith) h)

IsOrdered-newest :
    (capacity low last : ℕ) (rs : List Retained)
    → IsOrdered low last rs
    → IsOrdered low last (newest capacity rs)
unfolding newest
IsOrdered-newest capacity low last rs h =
    IsOrdered-if (ltb capacity (length rs)) low last _ _
      (IsOrdered-drop (length rs - capacity) low last rs h) h

IsOrdered-append :
    (low last : ℕ) (rs : List Retained) (r : Retained)
    → last < (id_of r)
    → IsOrdered low last rs
    → IsOrdered low (id_of r) (rs ++ r ∷ [])
IsOrdered-append low last [] r lt h = (ground arith, ground arith)
IsOrdered-append low last (x ∷ xs) r lt (k, h) = (k, IsOrdered-append (id_of x) last xs r lt h)

event_id-update_if :
    (valid : Location → Bool) (resolve : Resolver) (changed : Bool) (r : Retained) (revision : ℕ)
    → id_of (update_if changed (relocate valid resolve r.report) r revision).0 ≡ (id_of r)
unfolding update_if relocate
event_id-update_if valid resolve true r revision = refl
event_id-update_if valid resolve false r revision = refl

IsOrdered-cons :
    (low last : ℕ) (x r : Retained) (rs : List Retained)
    → (id_of x) ≡ (id_of r)
    → low < (id_of r)
    → IsOrdered (id_of r) last rs
    → IsOrdered low last (x ∷ rs)
IsOrdered-cons low last x r rs same lt h =
    (ground arith, IsOrdered-lower (id_of r) (id_of x) last rs (ground arith) h)

IsOrdered-update_reports :
    (valid : Location → Bool) (resolve : Resolver) (rs : List Retained) (low last revision : ℕ)
    → IsOrdered low last rs
    → IsOrdered low last (update_reports valid resolve rs revision).0
unfolding update_reports update_one
IsOrdered-update_reports valid resolve [] low last revision h = h
IsOrdered-update_reports valid resolve (r ∷ rs) low last revision (lt, h) =
    IsOrdered-cons low last (update_one valid resolve r revision).0 r _
      (event_id-update_if valid resolve (is_relocated valid resolve r.report) r revision) lt
      (IsOrdered-update_reports valid resolve rs (id_of r) last _ h)

-- The number of reports that the calls add.
unfoldable pub added : List Call → ℕ
added [] = 0
added (adds r ∷ cs) = suc (added cs)
added (expires before ∷ cs) = added cs
added (updates valid resolve ∷ cs) = added cs

next_int64-pos : (n : ℕ) → n < max_int64 → next_int64 (pos n) ≡ pos (n + 1)
unfolding next_int64
next_int64-pos n h = ground arith

call-IsOrdered :
    (c : Call) (n : ℕ) (s : Store)
    → n + added (c ∷ []) ≤ max_int64
    → s.next_event ≡ pos n
    → IsOrdered 0 n s.reports
    → ((call c s).next_event ≡ pos (n + added (c ∷ [])))
      × IsOrdered 0 (n + added (c ∷ [])) (call c s).reports
unfolding call added add expire update_locations
call-IsOrdered (adds r) n s le same h =
    rw (same, next_int64-pos n (omega arith))
      (
        refl,
        IsOrdered-newest s.capacity 0 (n + 1) _ (IsOrdered-append 0 n s.reports _ (omega arith) h),
      )
call-IsOrdered (expires before) n s le same h = (
  ground arith,
  IsOrdered-last 0 n _ _ (omega arith) (IsOrdered-keep_since before 0 n s.reports h),
)
call-IsOrdered (updates valid resolve) n s le same h = (
  ground arith,
  IsOrdered-last 0 n _ _ (omega arith)
      (IsOrdered-update_reports valid resolve s.reports 0 n s.revision h),
)

added-cons : (c : Call) (cs : List Call) → added (c ∷ cs) ≡ added (c ∷ []) + added cs
unfolding added
added-cons (adds r) cs = omega arith
added-cons (expires before) cs = omega arith
added-cons (updates valid resolve) cs = omega arith

-- What holds once `n` reports were added.
abbrev Grown : ℕ → ℕ → Store → Type 0
Grown limit n s = (length s.reports ≤ limit) × (s.next_event ≡ pos n) × IsOrdered 0 n s.reports

calls-Grown :
    (cs : List Call) (n : ℕ) (s : Store)
    → length s.reports ≤ s.capacity
    → n + added cs ≤ max_int64
    → s.next_event ≡ pos n
    → IsOrdered 0 n s.reports
    → Grown s.capacity (n + added cs) (calls cs s)
unfolding calls
calls-Grown [] n s fits le same h =
    unfold added in (ground arith, ground arith, IsOrdered-last 0 n _ _ (omega arith) h)
calls-Grown (c ∷ cs) n s fits le same h =
    let sum = added-cons c cs in
    let one = call-IsOrdered c n s (omega arith) same h in
    let rest =
      calls-Grown cs (n + added (c ∷ [])) (call c s)
        (ground (arith, length-call c s fits, capacity-call c s)) (omega arith) one.0 one.1 in
    (
      ground (arith, capacity-call c s),
      rest.1 ∙ ap pos (omega arith),
      IsOrdered-last 0 _ _ _ (omega arith) rest.2,
    )

-- From a new store on, and while no more than 2^63 - 1 reports were added, a store holds at most its
-- capacity (one where the capacity asked for is zero), the last id given out is the number of
-- reports added, and the ids of the reports it holds are positive, grow from the oldest to the
-- newest, and do not pass the last one given out.
pub new_store-IsOrdered :
    (cs : List Call) (capacity : ℕ) (session : Text)
    → added cs ≤ max_int64
    → let s = calls cs (new_store capacity session) in
      (length s.reports ≤ (if ltb capacity 1 then 1 else capacity))
      × (s.next_event ≡ pos (added cs))
      × IsOrdered 0 (added cs) s.reports
unfolding new_store
new_store-IsOrdered cs capacity session le =
    let h =
      calls-Grown cs 0 (new_store capacity session) (ground arith) (omega arith) refl
        (omega arith) in
    let same : 0 + added cs ≡ added cs = omega arith in
    (h.0, h.1 ∙ ap pos same, IsOrdered-last 0 _ _ _ (omega arith) h.2)
