-- ===== src/Outbox/Live.antt =====
-- A due upload is delivered: a claim with room for it returns it.
use w4gns_logger4men.Base.{
  ℕ, zero, suc, ◌+◌, ◌≤◌, ◌≡◌, refl, ◌∙◌, Bool, true, false, ◌&&◌, ◌||◌, Option, none, some, List,
  [], ◌∷◌, arith, take, length,
}
use w4gns_logger4men.Outbox.{
  Row, Entry, Destination, stamp, is_key, is_due, due_rows, insert_due, order_due, entries_of,
  select_due, lease_row, lease_all, Answers, commit_claim, claim_due_uploads,
}
use w4gns_logger4men.Outbox.Claims.{has_entry, claimed_entries}

unfoldable pub has_key : ℕ → Destination → List Row → Bool
unfolding is_key
has_key id dest [] = false
has_key id dest (r ∷ rs) = is_key id dest r || has_key id dest rs

-- A row of the key is due.
unfoldable pub awaits : ℕ → Destination → ℕ → List Row → Bool
unfolding is_key is_due
awaits id dest now_stamp [] = false
awaits id dest now_stamp (r ∷ rs) =
    is_key id dest r && is_due now_stamp r || awaits id dest now_stamp rs

-- The next `n` statements succeed.
abbrev pub Granted : ℕ → List Bool → Type 0
Granted zero answers = Unit {0}
Granted (suc n) [] = true ≡ false
Granted (suc n) (answer ∷ answers) = (answer ≡ true) × Granted n answers

take_all : (n : ℕ) (rows : List Row) → length rows ≤ n → take n rows ≡ rows
take_all zero [] h = refl
take_all zero (r ∷ rs) h = absurd (ground arith)
take_all (suc n) [] h = refl
take_all (suc n) (r ∷ rs) h = ground (arith, take_all n rs)

length-insert_due : (r : Row) (rows : List Row) → length (insert_due r rows) ≡ length rows + 1
unfolding insert_due
length-insert_due r [] = refl
length-insert_due r (s ∷ ss) = ground (arith, length-insert_due r ss)

length-order_due : (rows : List Row) → length (order_due rows) ≡ length rows
unfolding order_due
length-order_due [] = refl
length-order_due (r ∷ rs) = ground (arith, length-insert_due r (order_due rs), length-order_due rs)

length-entries_of : (rows : List Row) → length (entries_of rows) ≡ length rows
unfolding entries_of
length-entries_of [] = refl
length-entries_of (r ∷ rs) = ground (arith, length-entries_of rs)

order_due-fits :
    (now_stamp limit : ℕ) (rows : List Row)
    → length (due_rows now_stamp rows) ≤ limit
    → take limit (order_due (due_rows now_stamp rows)) ≡ order_due (due_rows now_stamp rows)
order_due-fits now_stamp limit rows room =
    take_all limit (order_due (due_rows now_stamp rows))
      (rw (length-order_due (due_rows now_stamp rows)) room)

length-select_due :
    (now_stamp limit : ℕ) (rows : List Row)
    → length (due_rows now_stamp rows) ≤ limit
    → length (select_due now_stamp limit rows) ≡ length (due_rows now_stamp rows)
unfolding select_due
length-select_due now_stamp limit rows room =
    length-entries_of (take limit (order_due (due_rows now_stamp rows)))
    ∙ rw (order_due-fits now_stamp limit rows room) (length-order_due (due_rows now_stamp rows))

module _ (id : ℕ) (dest : Destination) where
  has_key-due_rows :
      (now_stamp : ℕ) (rows : List Row)
      → awaits id dest now_stamp rows ≡ true
      → has_key id dest (due_rows now_stamp rows) ≡ true
  unfolding awaits has_key due_rows
  has_key-due_rows now_stamp [] h = cc
  has_key-due_rows now_stamp (r ∷ rs) h = ground (arith, has_key-due_rows now_stamp rs)

  has_key-insert_due :
      (r : Row) (rows : List Row)
      → has_key id dest (insert_due r rows) ≡ (is_key id dest r || has_key id dest rows)
  unfolding has_key insert_due
  has_key-insert_due r [] = refl
  has_key-insert_due r (s ∷ ss) = ground (arith, has_key-insert_due r ss)

  has_key-order_due : (rows : List Row) → has_key id dest (order_due rows) ≡ has_key id dest rows
  unfolding has_key order_due
  has_key-order_due [] = refl
  has_key-order_due (r ∷ rs) = has_key-insert_due r (order_due rs) ∙ rw (has_key-order_due rs) refl

  has_entry-entries_of :
      (rows : List Row) → has_entry id dest (entries_of rows) ≡ has_key id dest rows
  unfolding has_entry entries_of has_key is_key
  has_entry-entries_of [] = refl
  has_entry-entries_of (r ∷ rs) = rw (has_entry-entries_of rs) refl

  has_entry-select_due :
      (now_stamp limit : ℕ) (rows : List Row)
      → awaits id dest now_stamp rows ≡ true
      → length (due_rows now_stamp rows) ≤ limit
      → has_entry id dest (select_due now_stamp limit rows) ≡ true
  unfolding select_due
  has_entry-select_due now_stamp limit rows h room =
      let due = due_rows now_stamp rows in
      has_entry-entries_of (take limit (order_due due))
      ∙ rw (order_due-fits now_stamp limit rows room)
          (has_key-order_due due ∙ has_key-due_rows now_stamp rows h)

-- Whether the leases went through.
abbrev is_leased : Option (List Row) → Bool
is_leased none = false
is_leased (some rows) = true

lease_all-Granted :
    (until : ℕ) (es : List Entry) (answers : List Bool) (rows : List Row)
    → Granted (length es) answers
    → is_leased (lease_all until es answers rows) ≡ true
unfolding lease_all
lease_all-Granted until [] answers rows g = refl
lease_all-Granted until (e ∷ es) [] rows g = absurd (ground arith)
lease_all-Granted until (e ∷ es) (answer ∷ answers) rows (granted, g) =
    rw granted (lease_all-Granted until es answers (lease_row until e rows) g)

claimed-commit :
    (es : List Entry) (o : Option (List Row)) (rows : List Row)
    → is_leased o ≡ true
    → claimed_entries (commit_claim true es o rows).0 ≡ es
unfolding commit_claim claimed_entries
claimed-commit es none rows h = absurd (ground arith)
claimed-commit es (some leased) rows h = refl

Granted-fewer : (n m : ℕ) (answers : List Bool) → n ≤ m → Granted m answers → Granted n answers
Granted-fewer zero m answers h g = tt
Granted-fewer (suc n) zero answers h g = absurd (ground arith)
Granted-fewer (suc n) (suc m) [] h g = absurd (ground arith)
Granted-fewer (suc n) (suc m) (answer ∷ answers) h (granted, g) =
    (granted, Granted-fewer n m answers (omega (arith, h)) g)

-- Where a row of the key is due, the limit leaves room for every due row and the database performs
-- the claim's statements, one update for each due row: `claimDueUploads` returns an entry of the key.
pub claim_due_uploads-live :
    (id : ℕ) (dest : Destination) (db : Answers) (now lease limit : ℕ) (rows : List Row)
    → awaits id dest (stamp now) rows ≡ true
    → length (due_rows (stamp now) rows) ≤ limit
    → db.begin ≡ true
    → db.query ≡ true
    → db.commit ≡ true
    → Granted (length (due_rows (stamp now) rows)) db.updates
    → has_entry id dest (claimed_entries (claim_due_uploads db now lease limit rows).0) ≡ true
unfolding claim_due_uploads
claim_due_uploads-live id dest db now lease limit rows h room begun queried committed g =
    rw (begun, queried, committed)
      (rw
        (claimed-commit es (lease_all (stamp (now + lease)) es db.updates rows) rows (
          lease_all-Granted (stamp (now + lease)) es db.updates rows
            (Granted-fewer (length es) (length due) db.updates few g)))
        (has_entry-select_due id dest (stamp now) limit rows h room))
  where
    es : List Entry
    es = select_due (stamp now) limit rows

    due : List Row
    due = due_rows (stamp now) rows

    few : length es ≤ length due
    few = omega (arith, length-select_due (stamp now) limit rows room)
