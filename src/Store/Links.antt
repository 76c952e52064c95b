-- ===== src/Store/Links.antt =====
-- The ids of the QSOs, and the queued uploads that refer to them.
pub mod Steps
pub mod Uploads
pub mod Run
use w4gns_logger4men.Base.{
  ℕ, ◌+◌, ◌<◌, ◌≡◌, refl, ap, ◌∙◌, Bool, true, false, not, ◌&&◌, ◌||◌, Option, none, some, List, [],
  ◌∷◌, ◌++◌, arith, nat_beq, if◌then◌else◌,
}
use w4gns_logger4men.Text.{Text}
use w4gns_logger4men.Contest.Types.{Time, Qso}
use w4gns_logger4men.Outbox.{
  Row, Destination, is_key, add_missing, enqueue_upload, queued_row, find_row,
}
use w4gns_logger4men.Store.{Services, StoredQso, Database}
use w4gns_logger4men.Store.Insert.{flag_qso, bind_upload}
use w4gns_logger4men.Store.Change.{
  is_row, remove_rows, remove_uploads, flag_rows, edit_row, edit_rows,
}
use w4gns_logger4men.Store.Atomic.{AllBelow}

unfoldable pub has_id : ℕ → List StoredQso → Bool
has_id id [] = false
has_id id (r ∷ rs) = nat_beq r.values.id id || has_id id rs

-- Every row of the queue refers to a QSO of the log.
abbrev pub AllLinked : List StoredQso → List Row → Type 0
AllLinked log [] = Unit {0}
AllLinked log (r ∷ rows) = (has_id r.qso_id log ≡ true) × AllLinked log rows

pub record IsLinked (db : Database) : Type 0 where
  pub below : AllBelow db.next_id db.log
  pub linked : AllLinked db.log db.outbox

pub AllLinked-log :
    (log more : List StoredQso) (rows : List Row)
    → ((id : ℕ) → has_id id log ≡ true → has_id id more ≡ true)
    → AllLinked log rows
    → AllLinked more rows
AllLinked-log log more [] f h = tt
AllLinked-log log more (r ∷ rows) f (i, h) = (f r.qso_id i, AllLinked-log log more rows f h)

pub has_id-append :
    (id : ℕ) (r : StoredQso) (log : List StoredQso)
    → has_id id log ≡ true
    → has_id id (log ++ r ∷ []) ≡ true
unfolding has_id
has_id-append id r [] h = cc
has_id-append id r (s ∷ log) h = ground (arith, has_id-append id r log)

pub has_id-last :
    (id : ℕ) (r : StoredQso) (log : List StoredQso)
    → r.values.id ≡ id
    → has_id id (log ++ r ∷ []) ≡ true
unfolding has_id
has_id-last id r [] p = ground arith
has_id-last id r (s ∷ log) p = ground (arith, has_id-last id r log p)

pub AllBelow-append :
    (n : ℕ) (r : StoredQso) (log : List StoredQso)
    → AllBelow n log
    → r.values.id ≡ n
    → AllBelow (n + 1) (log ++ r ∷ [])
AllBelow-append n r [] h is = (omega (arith, is), tt)
AllBelow-append n r (s ∷ log) (b, h) is = (omega (arith, b), AllBelow-append n r log h is)

-- A change of the rows that keeps every id.
keeps_id-if :
    (b : Bool) (r s : StoredQso)
    → r.values.id ≡ s.values.id
    → (if b then r else s).values.id ≡ s.values.id
keeps_id-if true r s p = p
keeps_id-if false r s p = refl

has_id-cons :
    (id : ℕ) (r s : StoredQso) (rs ss : List StoredQso)
    → r.values.id ≡ s.values.id
    → has_id id rs ≡ has_id id ss
    → has_id id (r ∷ rs) ≡ has_id id (s ∷ ss)
unfolding has_id
has_id-cons id r s rs ss p h = rw (p, h) refl

AllBelow-cons :
    (n : ℕ) (r s : StoredQso) (rs : List StoredQso)
    → r.values.id ≡ s.values.id
    → s.values.id < n
    → AllBelow n rs
    → AllBelow n (r ∷ rs)
AllBelow-cons n r s rs p b h = (rw p b, h)

-- Two logs with the same ids.
pub record SameIds (log more : List StoredQso) : Type 0 where
  pub same : (id : ℕ) → has_id id log ≡ has_id id more
  pub bound : (n : ℕ) → AllBelow n more → AllBelow n log

SameIds-nil : SameIds [] []
SameIds-nil = record { same = λ id. refl; bound = λ n h. h }

SameIds-cons :
    (r s : StoredQso) (rs ss : List StoredQso)
    → r.values.id ≡ s.values.id
    → SameIds rs ss
    → SameIds (r ∷ rs) (s ∷ ss)
SameIds-cons r s rs ss p h = record {
  same = λ id. has_id-cons id r s rs ss p (h.same id);
  bound = λ n b. AllBelow-cons n r s rs p b.0 (h.bound n b.1);
}

pub flag_qso-SameIds :
    (id : ℕ) (flag : Bool) (log : List StoredQso) → SameIds (flag_qso id flag log) log
unfolding flag_qso
flag_qso-SameIds id flag [] = SameIds-nil
flag_qso-SameIds id flag (r ∷ log) =
    SameIds-cons _ r _ log
      (keeps_id-if (nat_beq r.values.id id)
        (record r { values = record r.values { unscored = flag } }) r refl)
      (flag_qso-SameIds id flag log)

pub flag_rows-SameIds :
    (profile id : ℕ) (flag : Bool) (log : List StoredQso)
    → SameIds (flag_rows profile id flag log) log
unfolding flag_rows
flag_rows-SameIds profile id flag [] = SameIds-nil
flag_rows-SameIds profile id flag (r ∷ log) =
    SameIds-cons _ r _ log
      (keeps_id-if (is_row profile id r) (record r { values = record r.values { unscored = flag } })
        r refl)
      (flag_rows-SameIds profile id flag log)

edit_row-id :
    (env : Services) (q : Qso) (r : StoredQso) → (edit_row env q r).values.id ≡ r.values.id
unfolding edit_row
edit_row-id env q r = refl

pub edit_rows-SameIds :
    (env : Services) (id : ℕ) (q : Qso) (log : List StoredQso)
    → SameIds (edit_rows env id q log) log
unfolding edit_rows
edit_rows-SameIds env id q [] = SameIds-nil
edit_rows-SameIds env id q (r ∷ log) =
    SameIds-cons _ r _ log
      (keeps_id-if (is_row q.profile_id id r) (edit_row env q r) r (edit_row-id env q r))
      (edit_rows-SameIds env id q log)

pub IsLinked-same :
    (db : Database) (log : List StoredQso)
    → SameIds log db.log
    → IsLinked db
    → IsLinked (record db { log = log })
IsLinked-same db log s h = record {
  below = s.bound db.next_id h.below;
  linked = AllLinked-log db.log log db.outbox (λ id p. s.same id ∙ p) h.linked;
}

-- Rows of the queue that go, come or change.
pub AllLinked-append :
    (log : List StoredQso) (r : Row) (rows : List Row)
    → AllLinked log rows
    → has_id r.qso_id log ≡ true
    → AllLinked log (rows ++ r ∷ [])
AllLinked-append log r [] h p = (p, tt)
AllLinked-append log r (s ∷ rows) (i, h) p = (i, AllLinked-append log r rows h p)

AllLinked-missing :
    (log : List StoredQso) (r : Row) (rows : List Row) (o : Option Row)
    → AllLinked log rows
    → has_id r.qso_id log ≡ true
    → AllLinked log (add_missing r rows o)
unfolding add_missing
AllLinked-missing log r rows none h p = AllLinked-append log r rows h p
AllLinked-missing log r rows (some found) h p = h

pub AllLinked-enqueue :
    (log : List StoredQso) (id profile : ℕ) (dest : Destination) (not_before now : Time)
    (rows : List Row)
    → AllLinked log rows
    → has_id id log ≡ true
    → AllLinked log (enqueue_upload id profile dest not_before now rows)
unfolding enqueue_upload
AllLinked-enqueue log id profile dest not_before now rows h p =
    AllLinked-missing log (queued_row id profile dest not_before now) rows (find_row id dest rows) h
      p

pub linked-if :
    (log : List StoredQso) (b : Bool) (r s : Row)
    → r.qso_id ≡ s.qso_id
    → has_id s.qso_id log ≡ true
    → has_id (if b then r else s).qso_id log ≡ true
linked-if log true r s p h = rw p h
linked-if log false r s p h = h

pub AllLinked-bind :
    (log : List StoredQso) (id : ℕ) (dest : Destination) (binding : Text) (rows : List Row)
    → AllLinked log rows
    → AllLinked log (bind_upload id dest binding rows)
unfolding bind_upload
AllLinked-bind log id dest binding [] h = tt
AllLinked-bind log id dest binding (r ∷ rows) (i, h) = (
  linked-if log (is_key id dest r) (record r { binding = binding }) r refl i,
  AllLinked-bind log id dest binding rows h,
)
