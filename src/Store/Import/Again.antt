-- ===== src/Store/Import/Again.antt =====
-- An import that is run again.
use w4gns_logger4men.Base.{
  ℕ, ◌+◌, ◌≡◌, refl, ◌∙◌, Bool, true, false, List, [], ◌∷◌, ◌++◌, arith, nat_beq, if◌then◌else◌,
}
use w4gns_logger4men.Base.Eq.{beq_refl}
use w4gns_logger4men.Text.{text_eq}
use w4gns_logger4men.Contest.Types.{Qso}
use w4gns_logger4men.Store.{Services, StoredQso, Database, stored_qso}
use w4gns_logger4men.Store.Transaction.{pure, statement, Triple}
use w4gns_logger4men.Store.Insert.{flag_qso, insert_row, flag_row, insert_qso_into}
use w4gns_logger4men.Store.Import.{
  is_import_of, is_imported, find_import, import_missing, import_records,
}
use w4gns_logger4men.Store.Rules.{
  triple_pure, triple_statement, triple_bind, triple_if, triple_weaken,
}

-- Each record is on file, as the import's own check sees it.
abbrev pub AllImported : List Qso → List StoredQso → Type 0
AllImported [] log = Unit {0}
AllImported (q ∷ qs) log = (is_imported q log ≡ true) × AllImported qs log

is_imported-append :
    (q : Qso) (r : StoredQso) (log : List StoredQso)
    → is_imported q log ≡ true
    → is_imported q (log ++ r ∷ []) ≡ true
unfolding is_imported
is_imported-append q r [] h = cc
is_imported-append q r (s ∷ log) h = ground (arith, is_imported-append q r log)

is_imported-last :
    (q : Qso) (r : StoredQso) (log : List StoredQso)
    → is_import_of q r ≡ true
    → is_imported q (log ++ r ∷ []) ≡ true
unfolding is_imported
is_imported-last q r [] h = ground arith
is_imported-last q r (s ∷ log) h = ground (arith, is_imported-last q r log h)

is_import_of-stored :
    (env : Services) (id : ℕ) (q : Qso) → is_import_of q (stored_qso env id q) ≡ true
unfolding is_import_of stored_qso
is_import_of-stored env id q = ground (arith, beq_refl q.call, beq_refl q.band)

is_import_of-flag :
    (q : Qso) (r : StoredQso) (id : ℕ) (flag b : Bool)
    → is_import_of q (if b then record r { values = record r.values { unscored = flag } } else r)
      ≡ is_import_of q r
unfolding is_import_of
is_import_of-flag q r id flag true = refl
is_import_of-flag q r id flag false = refl

is_imported-flag :
    (q : Qso) (id : ℕ) (flag : Bool) (log : List StoredQso)
    → is_imported q (flag_qso id flag log) ≡ is_imported q log
unfolding is_imported flag_qso
is_imported-flag q id flag [] = refl
is_imported-flag q id flag (r ∷ log) =
    rw (is_import_of-flag q r id flag (nat_beq r.values.id id), is_imported-flag q id flag log) refl

AllImported-append :
    (qs : List Qso) (r : StoredQso) (log : List StoredQso)
    → AllImported qs log
    → AllImported qs (log ++ r ∷ [])
AllImported-append [] r log h = tt
AllImported-append (q ∷ qs) r log (i, h) =
    (is_imported-append q r log i, AllImported-append qs r log h)

AllImported-flag :
    (qs : List Qso) (id : ℕ) (flag : Bool) (log : List StoredQso)
    → AllImported qs log
    → AllImported qs (flag_qso id flag log)
AllImported-flag [] id flag log h = tt
AllImported-flag (q ∷ qs) id flag log (i, h) =
    (is_imported-flag q id flag log ∙ i, AllImported-flag qs id flag log h)

module _ (env : Services) where
  -- The records of a list are on file.
  abbrev pub OnFile : List Qso → Database → Type 0
  OnFile qs db = AllImported qs db.log

  insert_into-OnFile :
      (q : Qso) (before : List Qso)
      → Triple (OnFile before) (insert_qso_into env q) (λ _. OnFile (q ∷ before))
  unfolding insert_qso_into
  insert_into-OnFile q before =
      triple_bind (OnFile before) (λ _. OnFile (q ∷ before)) (λ _. OnFile (q ∷ before))
        (statement (insert_row env q)) _
        (triple_statement (OnFile before) (λ _. OnFile (q ∷ before)) (insert_row env q)
          (λ db h. (
            is_imported-last q (stored_qso env db.next_id q) db.log
                (is_import_of-stored env db.next_id q),
            AllImported-append before (stored_qso env db.next_id q) db.log h,
          )))
        (λ id.
          triple_bind (OnFile (q ∷ before)) (λ _. OnFile (q ∷ before)) (λ _. OnFile (q ∷ before))
            (if q.unscored then statement (flag_row id true) else pure tt) (λ _. pure id)
            (triple_if (OnFile (q ∷ before)) (λ _. OnFile (q ∷ before)) q.unscored
              (statement (flag_row id true)) (pure tt)
              (λ _.
                triple_statement (OnFile (q ∷ before)) (λ _. OnFile (q ∷ before)) (flag_row id true)
                  (λ db h. AllImported-flag (q ∷ before) id true db.log h))
              (λ _. triple_pure (OnFile (q ∷ before)) (λ _. OnFile (q ∷ before)) tt (λ db h. h)))
            (λ _. triple_pure (OnFile (q ∷ before)) (λ _. OnFile (q ∷ before)) id (λ db h. h)))

  -- What the check found.
  abbrev Checked : Qso → List Qso → Bool → Database → Type 0
  Checked q before found db = (is_imported q db.log ≡ found) × OnFile before db

  import_missing-OnFile :
      (q : Qso) (before : List Qso) (n : ℕ) (found : Bool)
      → Triple (Checked q before found) (import_missing env q n found) (λ _. OnFile (q ∷ before))
  unfolding import_missing
  import_missing-OnFile q before n true =
      triple_pure (Checked q before true) (λ _. OnFile (q ∷ before)) n (λ db h. h)
  import_missing-OnFile q before n false =
      triple_bind (Checked q before false) (λ _. OnFile (q ∷ before)) (λ _. OnFile (q ∷ before))
        (insert_qso_into env q) (λ _. pure (n + 1))
        (λ answers db h. insert_into-OnFile q before answers db h.1)
        (λ _. triple_pure (OnFile (q ∷ before)) (λ _. OnFile (q ∷ before)) (n + 1) (λ db h. h))

  -- Both lists are on file.
  abbrev pub BothOnFile : List Qso → List Qso → Database → Type 0
  BothOnFile before qs db = OnFile before db × OnFile qs db

  pub import_records-OnFile :
      (qs before : List Qso) (n : ℕ)
      → Triple (OnFile before) (import_records env qs n) (λ _. BothOnFile before qs)
  unfolding import_records
  import_records-OnFile [] before n =
      triple_pure (OnFile before) (λ _. BothOnFile before []) n (λ db h. (h, tt))
  import_records-OnFile (q ∷ qs) before n =
      triple_bind (OnFile before) (Checked q before) (λ _. BothOnFile before (q ∷ qs))
        (statement (find_import q)) _
        (triple_statement (OnFile before) (Checked q before) (find_import q) (λ db h. (refl, h)))
        (λ found.
          triple_bind (Checked q before found) (λ _. OnFile (q ∷ before))
            (λ _. BothOnFile before (q ∷ qs)) (import_missing env q n found)
            (λ m. import_records env qs m) (import_missing-OnFile q before n found)
            (λ m.
              triple_weaken (OnFile (q ∷ before)) (λ _. BothOnFile (q ∷ before) qs)
                (λ _. BothOnFile before (q ∷ qs)) (import_records env qs m)
                (λ k db h. (h.0.1, (h.0.0, h.1))) (import_records-OnFile qs (q ∷ before) m)))
