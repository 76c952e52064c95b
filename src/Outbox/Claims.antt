-- ===== src/Outbox/Claims.antt =====
-- Claims: what is leased is not claimed again before the lease ends, and an error changes nothing.
use w4gns_logger4men.Base.{
  ℕ, zero, suc, ◌+◌, ◌<◌, ◌≡◌, refl, ◌∙◌, Bool, true, false, ◌&&◌, ◌||◌, Option, none, some, List,
  [], ◌∷◌, arith, nat_beq, if◌then◌else◌, take, All, Bool-cases, inl, inr,
}
use w4gns_logger4men.Outbox.{
  Row, Entry, Destination, destination_index, stamp, is_key, due_rows, insert_due, order_due,
  entries_of, select_due, lease_row, lease_all, Claim, claimed, failed, Answers, commit_claim,
  claim_due_uploads,
}

-- An entry for this key is among those returned.
unfoldable pub has_entry : ℕ → Destination → List Entry → Bool
has_entry id dest [] = false
has_entry id dest (e ∷ es) =
    nat_beq e.qso_id id && nat_beq (destination_index e.destination) (destination_index dest)
    || has_entry id dest es

unfoldable pub claimed_entries : Claim → List Entry
claimed_entries (claimed entries) = entries
claimed_entries failed = []

module _ (id : ℕ) (dest : Destination) where
  -- Every row of the key waits until the given second.
  abbrev Waits : ℕ → List Row → Type 0
  Waits until = All (λ r. is_key id dest r ≡ true → r.next_attempt_at ≡ until)

  lease_row-keeps :
      (until : ℕ) (e : Entry) (rows : List Row)
      → Waits until rows
      → Waits until (lease_row until e rows)
  unfolding lease_row
  lease_row-keeps until e [] w = tt
  lease_row-keeps until e (r ∷ rs) (h, w) = (ground arith, lease_row-keeps until e rs w)

  lease_row-sets :
      (until : ℕ) (e : Entry) (rows : List Row)
      → (nat_beq e.qso_id id && nat_beq (destination_index e.destination) (destination_index dest))
        ≡ true
      → Waits until (lease_row until e rows)
  unfolding lease_row
  lease_row-sets until e [] h = tt
  lease_row-sets until e (r ∷ rs) h = (ground arith, lease_row-sets until e rs h)

  lease_all-keeps :
      (until : ℕ) (es : List Entry) (answers : List Bool) (rows : List Row) {leased : List Row}
      → Waits until rows
      → lease_all until es answers rows ≡ some leased
      → Waits until leased
  unfolding lease_all
  lease_all-keeps until [] answers rows w p = ground arith
  lease_all-keeps until (e ∷ es) [] rows w p = absurd (ground arith)
  lease_all-keeps until (e ∷ es) (answer ∷ answers) rows {leased = leased} w p =
      lease_all-keeps until es answers (lease_row until e rows) {leased = leased}
        (lease_row-keeps until e rows w) (ground arith)

  -- A row that waits longer is not due.
  has_entry_due :
      (until now_stamp : ℕ) (rows : List Row)
      → now_stamp < until
      → Waits until rows
      → has_entry id dest (entries_of (due_rows now_stamp rows)) ≡ false
  unfolding has_entry due_rows entries_of is_key
  has_entry_due until now_stamp [] lt w = refl
  has_entry_due until now_stamp (r ∷ rs) lt (h, w) =
      ground (arith, has_entry_due until now_stamp rs lt w)

  has_entry-insert :
      (r : Row) (rs : List Row)
      → has_entry id dest (entries_of (insert_due r rs)) ≡ has_entry id dest (entries_of (r ∷ rs))
  unfolding has_entry insert_due entries_of
  has_entry-insert r [] = refl
  has_entry-insert r (s ∷ ss) = ground (arith, has_entry-insert r ss)

  has_entry-cons :
      (r : Row) (ss rs : List Row)
      → has_entry id dest (entries_of ss) ≡ has_entry id dest (entries_of rs)
      → has_entry id dest (entries_of (r ∷ ss)) ≡ has_entry id dest (entries_of (r ∷ rs))
  unfolding has_entry entries_of
  has_entry-cons r ss rs h = ground arith

  has_entry-order :
      (rs : List Row)
      → has_entry id dest (entries_of (order_due rs)) ≡ has_entry id dest (entries_of rs)
  unfolding order_due
  has_entry-order [] = refl
  has_entry-order (r ∷ rs) =
      has_entry-insert r (order_due rs) ∙ has_entry-cons r (order_due rs) rs (has_entry-order rs)

  has_entry-take :
      (n : ℕ) (rs : List Row)
      → has_entry id dest (entries_of rs) ≡ false
      → has_entry id dest (entries_of (take n rs)) ≡ false
  unfolding has_entry entries_of
  has_entry-take zero rs h = refl
  has_entry-take (suc n) [] h = refl
  has_entry-take (suc n) (r ∷ rs) h = ground (arith, has_entry-take n rs)

  has_entry-select :
      (until now_stamp limit : ℕ) (rows : List Row)
      → now_stamp < until
      → Waits until rows
      → has_entry id dest (select_due now_stamp limit rows) ≡ false
  unfolding select_due
  has_entry-select until now_stamp limit rows lt w =
      has_entry-take limit (order_due (due_rows now_stamp rows))
        (has_entry-order (due_rows now_stamp rows) ∙ has_entry_due until now_stamp rows lt w)

  -- Every entry that a loop of leases goes over waits afterwards.
  lease_all-sets :
      (until : ℕ) (es : List Entry) (answers : List Bool) (rows : List Row) {leased : List Row}
      → has_entry id dest es ≡ true
      → lease_all until es answers rows ≡ some leased
      → Waits until leased
  unfolding lease_all has_entry
  lease_all-sets until [] answers rows h p = absurd (ground arith)
  lease_all-sets until (e ∷ es) [] rows h p = absurd (ground arith)
  lease_all-sets until (e ∷ es) (answer ∷ answers) rows {leased = leased} h p =
      elim (Bool-cases (
        nat_beq e.qso_id id
        && nat_beq (destination_index e.destination) (destination_index dest))) [
          | inl same ↦
              lease_all-keeps until es answers (lease_row until e rows) {leased = leased}
                (lease_row-sets until e rows same) (ground arith)
          | inr other ↦
              lease_all-sets until es answers (lease_row until e rows) {leased = leased}
                (ground arith) (ground arith)
        ]

  commit_claim-Waits :
      (commit : Bool) (entries : List Entry) (leased : Option (List Row)) (rows : List Row)
      → (until : ℕ)
      → ((all : List Row) → has_entry id dest entries ≡ true → leased ≡ some all → Waits until all)
      → has_entry id dest (claimed_entries (commit_claim commit entries leased rows).0) ≡ true
      → Waits until (commit_claim commit entries leased rows).1
  unfolding commit_claim claimed_entries has_entry
  commit_claim-Waits commit entries none rows until w h = absurd (ground arith)
  commit_claim-Waits true entries (some leased) rows until w h = w leased h refl
  commit_claim-Waits false entries (some leased) rows until w h = absurd (ground arith)

  guarded-Waits :
      (b : Bool) (x : Claim × List Row) (rows : List Row) (until : ℕ)
      → (has_entry id dest (claimed_entries x.0) ≡ true → Waits until x.1)
      → has_entry id dest (claimed_entries (if b then x else (failed, rows)).0) ≡ true
      → Waits until (if b then x else (failed, rows)).1
  unfolding claimed_entries has_entry
  guarded-Waits true x rows until w h = w h
  guarded-Waits false x rows until w h = absurd (ground arith)

  guarded-none :
      (b : Bool) (x : Claim × List Row) (rows : List Row)
      → has_entry id dest (claimed_entries x.0) ≡ false
      → has_entry id dest (claimed_entries (if b then x else (failed, rows)).0) ≡ false
  unfolding claimed_entries has_entry
  guarded-none true x rows h = h
  guarded-none false x rows h = refl

  commit_claim-none :
      (commit : Bool) (entries : List Entry) (leased : Option (List Row)) (rows : List Row)
      → has_entry id dest entries ≡ false
      → has_entry id dest (claimed_entries (commit_claim commit entries leased rows).0) ≡ false
  unfolding commit_claim claimed_entries has_entry
  commit_claim-none commit entries none rows h = refl
  commit_claim-none true entries (some leased) rows h = h
  commit_claim-none false entries (some leased) rows h = refl

  -- A delivery that a claim returns waits until the end of the lease.
  claim_due_uploads-Waits :
      (db : Answers) (now lease limit : ℕ) (rows : List Row)
      → has_entry id dest (claimed_entries (claim_due_uploads db now lease limit rows).0) ≡ true
      → Waits (stamp (now + lease)) (claim_due_uploads db now lease limit rows).1
  unfolding claim_due_uploads
  claim_due_uploads-Waits db now lease limit rows =
      guarded-Waits (db.begin && db.query) _ rows (stamp (now + lease)) (
        commit_claim-Waits db.commit entries
          (lease_all (stamp (now + lease)) entries db.updates rows) rows (stamp (now + lease))
          (λ all h. lease_all-sets (stamp (now + lease)) entries db.updates rows h))
    where
      entries : List Entry
      entries = select_due (stamp now) limit rows

  select_none :
      (db : Answers) (now lease limit : ℕ) (rows : List Row)
      → has_entry id dest (select_due (stamp now) limit rows) ≡ false
      → has_entry id dest (claimed_entries (claim_due_uploads db now lease limit rows).0) ≡ false
  unfolding claim_due_uploads commit_claim claimed_entries has_entry
  select_none db now lease limit rows h =
      guarded-none (db.begin && db.query) _ rows
        (commit_claim-none db.commit (select_due (stamp now) limit rows) _ rows h)

-- What a claim hands to the uploader, and the rows it leaves.
abbrev pub returned : Claim × List Row → List Entry
returned x = claimed_entries x.0

-- A delivery that a claim returns is not returned by a claim that follows it and whose time, in
-- whole seconds, is before the end of the lease, whatever the database answers.
pub claim_due_uploads-once :
    (db later : Answers) (now lease limit now' lease' limit' id : ℕ) (dest : Destination)
    → (rows : List Row)
    → has_entry id dest (returned (claim_due_uploads db now lease limit rows)) ≡ true
    → stamp now' < stamp (now + lease)
    → has_entry id dest (
        returned (
          claim_due_uploads later now' lease' limit'
            ((claim_due_uploads db now lease limit rows).1)))
      ≡ false
claim_due_uploads-once db later now lease limit now' lease' limit' id dest rows h lt =
    select_none id dest later now' lease' limit' _ (
      has_entry-select id dest (stamp (now + lease)) (stamp now') limit' _ lt
        (claim_due_uploads-Waits id dest db now lease limit rows h))
