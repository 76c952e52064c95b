-- ===== src/Store/Links/Uploads.antt =====
-- The queue of uploads, whose operations keep the QSO that a row refers to.
use w4gns_logger4men.Base.{
  ℕ, ◌+◌, ◌≡◌, refl, Bool, true, false, ◌&&◌, Option, none, some, List, [], ◌∷◌, if◌then◌else◌,
}
use w4gns_logger4men.Text.{Text}
use w4gns_logger4men.Contest.Types.{Time}
use w4gns_logger4men.Outbox.{
  Row, Entry, Destination, Answers, Claim, is_key, find_row, lease_row, lease_all, select_due,
  commit_claim, claim_due_uploads, mark_upload_done, reschedule, record_upload_failure,
  upload_backoff, stamp,
}
use w4gns_logger4men.Store.{StoredQso}
use w4gns_logger4men.Store.Links.{linked-if, has_id, AllLinked}

pub AllLinked-choose :
    (log : List StoredQso) (b : Bool) (r : Row) (rows : List Row)
    → AllLinked log rows
    → (b ≡ false → has_id r.qso_id log ≡ true)
    → AllLinked log (if b then rows else r ∷ rows)
AllLinked-choose log true r rows h i = h
AllLinked-choose log false r rows h i = (i refl, h)

module _ (log : List StoredQso) where
  AllLinked-lease_row :
      (until : ℕ) (e : Entry) (rows : List Row)
      → AllLinked log rows
      → AllLinked log (lease_row until e rows)
  unfolding lease_row
  AllLinked-lease_row until e [] h = tt
  AllLinked-lease_row until e (r ∷ rows) (i, h) = (
    linked-if log (is_key e.qso_id e.destination r)
        (record r { next_attempt_at = until; last_error = none }) r refl i,
    AllLinked-lease_row until e rows h,
  )

  -- The rows behind the leases, where there are some.
  abbrev Leased : Option (List Row) → Type 0
  Leased none = Unit {0}
  Leased (some rows) = AllLinked log rows

  Leased-if : (b : Bool) (o : Option (List Row)) → Leased o → Leased (if b then o else none)
  Leased-if true o h = h
  Leased-if false o h = tt

  Leased-lease_all :
      (until : ℕ) (es : List Entry) (answers : List Bool) (rows : List Row)
      → AllLinked log rows
      → Leased (lease_all until es answers rows)
  unfolding lease_all
  Leased-lease_all until [] answers rows h = h
  Leased-lease_all until (e ∷ es) [] rows h = tt
  Leased-lease_all until (e ∷ es) (answer ∷ answers) rows h =
      Leased-if answer _ (Leased-lease_all until es answers _ (AllLinked-lease_row until e rows h))

  AllLinked-commit :
      (b : Bool) (es : List Entry) (o : Option (List Row)) (rows : List Row)
      → Leased o
      → AllLinked log rows
      → AllLinked log (commit_claim b es o rows).1
  unfolding commit_claim
  AllLinked-commit b es none rows h k = k
  AllLinked-commit true es (some leased) rows h k = h
  AllLinked-commit false es (some leased) rows h k = k

  linked-claim_if :
      (b : Bool) (x y : Claim × List Row)
      → AllLinked log x.1
      → AllLinked log y.1
      → AllLinked log (if b then x else y).1
  linked-claim_if true x y h k = h
  linked-claim_if false x y h k = k

  pub AllLinked-claim :
      (answers : Answers) (now : Time) (lease limit : ℕ) (rows : List Row)
      → AllLinked log rows
      → AllLinked log (claim_due_uploads answers now lease limit rows).1
  unfolding claim_due_uploads
  AllLinked-claim answers now lease limit rows h =
      linked-claim_if (answers.begin && answers.query) _ _
        (AllLinked-commit answers.commit _ _ rows
          (Leased-lease_all (stamp (now + lease)) (select_due (stamp now) limit rows)
            answers.updates rows h)
          h)
        h

  pub AllLinked-done :
      (id : ℕ) (dest : Destination) (rows : List Row)
      → AllLinked log rows
      → AllLinked log (mark_upload_done id dest rows)
  unfolding mark_upload_done
  AllLinked-done id dest [] h = tt
  AllLinked-done id dest (r ∷ rows) (i, h) =
      AllLinked-choose log (is_key id dest r) r (mark_upload_done id dest rows)
        (AllLinked-done id dest rows h) (λ _. i)

  AllLinked-reschedule :
      (id : ℕ) (dest : Destination) (attempts next : ℕ) (message : Text) (rows : List Row)
      → AllLinked log rows
      → AllLinked log (reschedule id dest attempts next message rows)
  unfolding reschedule
  AllLinked-reschedule id dest attempts next message [] h = tt
  AllLinked-reschedule id dest attempts next message (r ∷ rows) (i, h) = (
    linked-if log (is_key id dest r)
        (record r { attempts = attempts; next_attempt_at = next; last_error = some message }) r refl
        i,
    AllLinked-reschedule id dest attempts next message rows h,
  )

  pub AllLinked-failure :
      (id : ℕ) (dest : Destination) (message : Text) (now : Time) (rows : List Row)
      → AllLinked log rows
      → AllLinked log (record_upload_failure id dest message now rows)
  unfolding record_upload_failure
  AllLinked-failure id dest message now rows h = choice (find_row id dest rows)
    where
      choice :
          (o : Option Row)
          → AllLinked log (elim o [
            | none ↦ rows
            | some r ↦
                reschedule id dest
                  (r.attempts + 1)
                  (stamp (now + upload_backoff (r.attempts + 1)))
                  message
                  rows
          ])
      choice none = h
      choice (some r) =
          AllLinked-reschedule id dest (r.attempts + 1)
            (stamp (now + upload_backoff (r.attempts + 1))) message rows h
