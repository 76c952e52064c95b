-- ===== src/Outbox/Keys.antt =====
-- The queue as a whole: its primary key, and that only a finished delivery leaves it.
use w4gns_logger4men.Base.{
  ℕ, suc, ◌+◌, ◌≤◌, ◌≡◌, refl, ◌∙◌, Bool, true, false, not, ◌&&◌, Option, none, some, List, [], ◌∷◌,
  ◌++◌, arith, nat_beq, if◌then◌else◌,
}
use w4gns_logger4men.Text.{Text}
use w4gns_logger4men.Outbox.{
  Row, Entry, Destination, destination_index, stamp, is_key, find_row, queued_row, add_missing,
  enqueue_upload, lease_row, lease_all, select_due, Claim, failed, Answers, commit_claim,
  claim_due_uploads, mark_upload_done, upload_backoff, reschedule, record_upload_failure,
}

-- The operations on the queue, with their arguments and the clock.
pub data Action : Type 0 where
  enqueue : ℕ → ℕ → Destination → ℕ → ℕ → Action
  claim : Answers → ℕ → ℕ → ℕ → Action
  done : ℕ → Destination → Action
  failure : ℕ → Destination → Text → ℕ → Action

unfoldable pub act : Action → List Row → List Row
act (enqueue id profile dest not_before now) rows =
    enqueue_upload id profile dest not_before now rows
act (claim db now lease limit) rows = (claim_due_uploads db now lease limit rows).1
act (done id dest) rows = mark_upload_done id dest rows
act (failure id dest message now) rows = record_upload_failure id dest message now rows

unfoldable pub run : List Action → List Row → List Row
unfolding act
run [] rows = rows
run (a ∷ more) rows = run more (act a rows)

unfoldable pub key_count : ℕ → Destination → List Row → ℕ
unfolding is_key
key_count id dest [] = 0
key_count id dest (r ∷ rs) =
    let rest = key_count id dest rs in if is_key id dest r then suc rest else rest

-- An action that finishes the delivery of the key.
unfoldable pub finishes : ℕ → Destination → Action → Bool
finishes id dest (done id' dest') =
    nat_beq id' id && nat_beq (destination_index dest') (destination_index dest)
finishes id dest other = false

module _ (id : ℕ) (dest : Destination) where
  key_count-append :
      (rows more : List Row)
      → key_count id dest (rows ++ more) ≡ key_count id dest rows + key_count id dest more
  unfolding key_count
  key_count-append [] more = ground arith
  key_count-append (r ∷ rs) more = ground (arith, key_count-append rs more)

  key_count-find_row : (rows : List Row) → find_row id dest rows ≡ none → key_count id dest rows ≡ 0
  unfolding key_count find_row
  key_count-find_row [] h = refl
  key_count-find_row (r ∷ rs) h = ground (arith, key_count-find_row rs)

  key_count-cons :
      (r s : Row) (rs ss : List Row)
      → is_key id dest r ≡ is_key id dest s
      → key_count id dest rs ≡ key_count id dest ss
      → key_count id dest (r ∷ rs) ≡ key_count id dest (s ∷ ss)
  unfolding key_count
  key_count-cons r s rs ss p h = ground arith

  is_key-lease :
      (b : Bool) (until : ℕ) (r : Row)
      → is_key id dest (if b then record r { next_attempt_at = until; last_error = none } else r)
        ≡ is_key id dest r
  unfolding is_key
  is_key-lease true until r = refl
  is_key-lease false until r = refl

  key_count-lease_row :
      (until : ℕ) (e : Entry) (rows : List Row)
      → key_count id dest (lease_row until e rows) ≡ key_count id dest rows
  unfolding lease_row
  key_count-lease_row until e [] = refl
  key_count-lease_row until e (r ∷ rs) =
      key_count-cons _ r _ rs (is_key-lease (is_key e.qso_id e.destination r) until r)
        (key_count-lease_row until e rs)

  key_count-reschedule :
      (id' : ℕ) (dest' : Destination) (attempts next : ℕ) (message : Text) (rows : List Row)
      → key_count id dest (reschedule id' dest' attempts next message rows) ≡ key_count id dest rows
  unfolding key_count reschedule
  key_count-reschedule id' dest' attempts next message [] = refl
  key_count-reschedule id' dest' attempts next message (r ∷ rs) =
      ground (arith, key_count-reschedule id' dest' attempts next message rs)

  key_count-mark_upload_done :
      (id' : ℕ) (dest' : Destination) (rows : List Row)
      → (key_count id dest (mark_upload_done id' dest' rows) ≤ key_count id dest rows)
        × (finishes id dest (done id' dest') ≡ false
            → key_count id dest (mark_upload_done id' dest' rows) ≡ key_count id dest rows)
  unfolding key_count mark_upload_done finishes
  key_count-mark_upload_done id' dest' [] = ground arith
  key_count-mark_upload_done id' dest' (r ∷ rs) =
      ground (arith, key_count-mark_upload_done id' dest' rs)

  key_count-lease_all :
      (until : ℕ) (es : List Entry) (answers : List Bool) (rows : List Row) {leased : List Row}
      → lease_all until es answers rows ≡ some leased
      → key_count id dest leased ≡ key_count id dest rows
  unfolding lease_all
  key_count-lease_all until [] answers rows p = ground arith
  key_count-lease_all until (e ∷ es) [] rows p = absurd (ground arith)
  key_count-lease_all until (e ∷ es) (answer ∷ answers) rows {leased = leased} p =
      key_count-lease_all until es answers (lease_row until e rows) {leased = leased} (ground arith)
      ∙ key_count-lease_row until e rows

  key_count-commit_claim :
      (commit : Bool) (entries : List Entry) (leased : Option (List Row)) (rows : List Row)
      → ((all : List Row) → leased ≡ some all → key_count id dest all ≡ key_count id dest rows)
      → key_count id dest (commit_claim commit entries leased rows).1 ≡ key_count id dest rows
  unfolding commit_claim
  key_count-commit_claim commit entries none rows h = refl
  key_count-commit_claim true entries (some all) rows h = h all refl
  key_count-commit_claim false entries (some all) rows h = refl

  key_count-guarded :
      (b : Bool) (x : Claim × List Row) (rows : List Row)
      → key_count id dest x.1 ≡ key_count id dest rows
      → key_count id dest (if b then x else (failed, rows)).1 ≡ key_count id dest rows
  key_count-guarded true x rows h = h
  key_count-guarded false x rows h = refl

  key_count-claim_due_uploads :
      (db : Answers) (now lease limit : ℕ) (rows : List Row)
      → key_count id dest (claim_due_uploads db now lease limit rows).1 ≡ key_count id dest rows
  unfolding claim_due_uploads
  key_count-claim_due_uploads db now lease limit rows =
      key_count-guarded (db.begin && db.query) _ rows (
        key_count-commit_claim db.commit (select_due (stamp now) limit rows) _ rows (λ all p.
          key_count-lease_all (stamp (now + lease)) (select_due (stamp now) limit rows) db.updates
            rows p))

  key_count-record_upload_failure :
      (id' : ℕ) (dest' : Destination) (message : Text) (now : ℕ) (rows : List Row)
      → key_count id dest (record_upload_failure id' dest' message now rows)
        ≡ key_count id dest rows
  unfolding record_upload_failure
  key_count-record_upload_failure id' dest' message now rows = go (find_row id' dest' rows)
    where
      go :
          (found : Option Row)
          → key_count id dest (elim found [
            | none ↦ rows
            | some r ↦
                reschedule id' dest'
                  (r.attempts + 1)
                  (stamp (now + upload_backoff (r.attempts + 1)))
                  message
                  rows
          ])
            ≡ key_count id dest rows
      go none = refl
      go (some r) = key_count-reschedule id' dest' _ _ message rows

-- One row for each key, as the primary key has it.
abbrev pub IsKeyed : List Row → Type 0
IsKeyed rows = (id : ℕ) (dest : Destination) → key_count id dest rows ≤ 1

module _ (id : ℕ) (dest : Destination) where
  key_count-same :
      (id' : ℕ) (dest' : Destination) (rows : List Row)
      → (nat_beq id' id && nat_beq (destination_index dest') (destination_index dest)) ≡ true
      → key_count id dest rows ≡ key_count id' dest' rows
  unfolding key_count is_key
  key_count-same id' dest' [] h = refl
  key_count-same id' dest' (r ∷ rs) h = ground (arith, key_count-same id' dest' rs h)

  key_count-added :
      (r : Row) (rows : List Row)
      → IsKeyed rows
      → find_row r.qso_id r.destination rows ≡ none
      → (key_count id dest rows ≤ key_count id dest (rows ++ r ∷ []))
        × (key_count id dest (rows ++ r ∷ []) ≤ 1)
  unfolding key_count is_key
  key_count-added r rows h missing = ground (
    arith,
    key_count-append id dest rows (r ∷ []),
    key_count-find_row r.qso_id r.destination rows,
    key_count-same r.qso_id r.destination rows,
    h id dest,
  )

  key_count-enqueue_upload :
      (id' profile : ℕ) (dest' : Destination) (not_before now : ℕ) (rows : List Row)
      → IsKeyed rows
      → (key_count id dest rows
          ≤ key_count id dest (enqueue_upload id' profile dest' not_before now rows))
        × (key_count id dest (enqueue_upload id' profile dest' not_before now rows) ≤ 1)
  unfolding enqueue_upload add_missing
  key_count-enqueue_upload id' profile dest' not_before now rows h =
      go (find_row id' dest' rows) refl
    where
      go :
          (found : Option Row)
          → find_row id' dest' rows ≡ found
          → (key_count id dest rows
              ≤ key_count id dest
                  (add_missing (queued_row id' profile dest' not_before now) rows found))
            × (key_count id dest
                  (add_missing (queued_row id' profile dest' not_before now) rows found)
                ≤ 1)
      go none p = key_count-added _ rows h p
      go (some r) p = ground (arith, h id dest)

  -- What one action does to the rows of a key.
  key_count-act :
      (a : Action) (rows : List Row)
      → IsKeyed rows
      → (key_count id dest (act a rows) ≤ 1)
        × (finishes id dest a ≡ false → key_count id dest rows ≤ key_count id dest (act a rows))
  unfolding act finishes
  key_count-act (enqueue id' profile dest' not_before now) rows h =
      ground (arith, key_count-enqueue_upload id' profile dest' not_before now rows h)
  key_count-act (claim db now lease limit) rows h =
      ground (arith, key_count-claim_due_uploads id dest db now lease limit rows, h id dest)
  key_count-act (done id' dest') rows h =
      ground (arith, key_count-mark_upload_done id dest id' dest' rows, h id dest)
  key_count-act (failure id' dest' message now) rows h =
      ground (arith, key_count-record_upload_failure id dest id' dest' message now rows, h id dest)

-- Whatever the operations and the database's answers, a queue that starts with at most one row for
-- each key keeps at most one, so no delivery is queued twice.
pub run-IsKeyed :
    (actions : List Action) (rows : List Row) → IsKeyed rows → IsKeyed (run actions rows)
unfolding run
run-IsKeyed [] rows h = h
run-IsKeyed (a ∷ more) rows h =
    run-IsKeyed more (act a rows) (λ id dest. (key_count-act id dest a rows h).0)

-- None of the actions finishes the delivery of the key.
unfoldable pub none_finish : ℕ → Destination → List Action → Bool
unfolding finishes
none_finish id dest [] = true
none_finish id dest (a ∷ more) = not (finishes id dest a) && none_finish id dest more

-- A delivery that is queued stays queued, in one row, through claims, failures and a spent retry
-- budget, until an action finishes it; in a queue with at most one row for each key.
pub run-keeps :
    (id : ℕ) (dest : Destination) (actions : List Action) (rows : List Row)
    → IsKeyed rows
    → none_finish id dest actions ≡ true
    → key_count id dest rows ≡ 1
    → key_count id dest (run actions rows) ≡ 1
unfolding run none_finish
run-keeps id dest [] rows h open_key one = one
run-keeps id dest (a ∷ more) rows h open_key one =
    let step = key_count-act id dest a rows h in
    run-keeps id dest more (act a rows) (λ id' dest'. (key_count-act id' dest' a rows h).0)
      (ground arith) (ground arith)
