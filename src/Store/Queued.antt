-- ===== src/Store/Queued.antt =====
-- What is queued for a QSO, and what enqueueing and binding leave queued.
use w4gns_logger4men.Base.{
  ℕ, ◌≡◌, refl, ◌∙◌, Bool, true, false, ◌||◌, Option, none, some, List, [], ◌∷◌, ◌++◌, arith,
}
use w4gns_logger4men.Text.{Text}
use w4gns_logger4men.Contest.Types.{Time}
use w4gns_logger4men.Outbox.{
  Row, Destination, is_key, find_row, queued_row, add_missing, enqueue_upload,
}
use w4gns_logger4men.Store.Insert.{bind_upload}

unfoldable pub is_queued : ℕ → Destination → List Row → Bool
unfolding find_row
is_queued id dest rows = elim (find_row id dest rows) [ none ↦ false | some r ↦ true ]

abbrev pub AllQueued : ℕ → List Destination → List Row → Type 0
AllQueued id [] rows = Unit {0}
AllQueued id (d ∷ ds) rows = (is_queued id d rows ≡ true) × AllQueued id ds rows

is_queued-append :
    (id : ℕ) (dest : Destination) (r : Row) (rows : List Row)
    → is_queued id dest (rows ++ r ∷ []) ≡ (is_queued id dest rows || is_key id dest r)
unfolding is_queued find_row
is_queued-append id dest r [] = ground arith
is_queued-append id dest r (s ∷ rows) = ground (arith, is_queued-append id dest r rows)

is_key-queued_row :
    (id profile : ℕ) (dest : Destination) (not_before now : Time)
    → is_key id dest (queued_row id profile dest not_before now) ≡ true
unfolding is_key
is_key-queued_row id profile dest not_before now = ground arith

is_queued-found :
    (id : ℕ) (dest : Destination) (rows : List Row) (r : Row)
    → find_row id dest rows ≡ some r
    → is_queued id dest rows ≡ true
unfolding is_queued
is_queued-found id dest rows r p = rw (p, is_queued) refl

pub is_queued-enqueue :
    (id profile : ℕ) (dest : Destination) (not_before now : Time) (rows : List Row)
    → is_queued id dest (enqueue_upload id profile dest not_before now rows) ≡ true
unfolding enqueue_upload add_missing
is_queued-enqueue id profile dest not_before now rows = choice (find_row id dest rows) refl
  where
    r : Row
    r = queued_row id profile dest not_before now

    choice :
        (o : Option Row)
        → find_row id dest rows ≡ o
        → is_queued id dest (add_missing r rows o) ≡ true
    choice none p =
        is_queued-append id dest r rows
        ∙ rw (is_key-queued_row id profile dest not_before now) (ground arith)
    choice (some found) p = is_queued-found id dest rows found p

is_queued-missing :
    (id : ℕ) (dest : Destination) (r : Row) (rows : List Row) (o : Option Row)
    → is_queued id dest rows ≡ true
    → is_queued id dest (add_missing r rows o) ≡ true
unfolding add_missing
is_queued-missing id dest r rows none h = is_queued-append id dest r rows ∙ rw h refl
is_queued-missing id dest r rows (some found) h = h

pub is_queued-later :
    (id profile : ℕ) (dest other : Destination) (not_before now : Time) (rows : List Row)
    → is_queued id other rows ≡ true
    → is_queued id other (enqueue_upload id profile dest not_before now rows) ≡ true
unfolding enqueue_upload
is_queued-later id profile dest other not_before now rows h =
    is_queued-missing id other (queued_row id profile dest not_before now) rows
      (find_row id dest rows) h

is_queued-bind :
    (id : ℕ) (dest other : Destination) (binding : Text) (rows : List Row)
    → is_queued id other rows ≡ true
    → is_queued id other (bind_upload id dest binding rows) ≡ true
unfolding is_queued bind_upload is_key
is_queued-bind id dest other binding [] h = h
is_queued-bind id dest other binding (r ∷ rs) h =
    ground (arith, is_queued-bind id dest other binding rs)

pub AllQueued-enqueue :
    (id profile : ℕ) (dest : Destination) (not_before now : Time) (rows : List Row)
    (ds : List Destination)
    → AllQueued id ds rows
    → AllQueued id ds (enqueue_upload id profile dest not_before now rows)
AllQueued-enqueue id profile dest not_before now rows [] h = tt
AllQueued-enqueue id profile dest not_before now rows (d ∷ ds) (q, h) = (
  is_queued-later id profile dest d not_before now rows q,
  AllQueued-enqueue id profile dest not_before now rows ds h,
)

pub AllQueued-bind :
    (id : ℕ) (dest : Destination) (binding : Text) (rows : List Row) (ds : List Destination)
    → AllQueued id ds rows
    → AllQueued id ds (bind_upload id dest binding rows)
AllQueued-bind id dest binding rows [] h = tt
AllQueued-bind id dest binding rows (d ∷ ds) (q, h) =
    (is_queued-bind id dest d binding rows q, AllQueued-bind id dest binding rows ds h)
