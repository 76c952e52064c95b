-- ===== src/Store/Import/Batch.antt =====
-- The chunks of an import, and the import that is run again.
use mathlib.Core.Path.{subst}
use w4gns_logger4men.Base.{
  ℕ, zero, suc, ◌+◌, ◌≤◌, ◌≡◌, refl, ◌∙◌, Bool, true, false, Option, none, some, List, [], ◌∷◌,
  arith, take, drop, length,
}
use w4gns_logger4men.Text.{text_eq}
use w4gns_logger4men.Contest.Types.{Qso}
use w4gns_logger4men.Validation.{QsoError}
use w4gns_logger4men.Store.{Services, StoredQso, Database}
use w4gns_logger4men.Store.Transaction.{
  Outcome, done, failed, after, Tx, ◌>>◌, statement, transaction, Holds, Triple,
}
use w4gns_logger4men.Store.Import.{
  find_import, import_missing, import_records, prepare, chunk_body, first_invalid, chunk_checked,
  insert_qso_chunk, import_batch_size, optimize, import_chunks, insert_qso_batch,
}
use w4gns_logger4men.Store.Import.Again.{AllImported, OnFile, BothOnFile, import_records-OnFile}
use w4gns_logger4men.Store.Rules.{
  triple_pure, triple_statement, triple_bind, triple_weaken, triple_both, weaken-Holds,
  transaction-Holds,
}

forget :
    {A : Type 0} (Q : A → Database → Type 0) (R : Database → Type 0) (o : Outcome A)
    → Holds Q R o
    → Holds Q (λ _. Unit {0}) o
forget Q R (done a answers db) h = h
forget Q R (failed e db) h = tt

AllImported-take :
    (n : ℕ) (qs : List Qso) (log : List StoredQso)
    → AllImported (take n qs) log
    → AllImported (drop n qs) log
    → AllImported qs log
AllImported-take zero qs log h k = k
AllImported-take (suc n) [] log h k = tt
AllImported-take (suc n) (q ∷ qs) log (i, h) k = (i, AllImported-take n qs log h k)

length-drop : (n : ℕ) (qs : List Qso) → length (drop n qs) ≤ length qs
length-drop zero qs = omega arith
length-drop (suc n) [] = omega arith
length-drop (suc n) (q ∷ qs) = omega (arith, length-drop n qs)

module _ (env : Services) where
  chunk_body-OnFile :
      (qs before : List Qso)
      → Triple (OnFile env before) (chunk_body env qs) (λ _. BothOnFile env before qs)
  unfolding chunk_body
  chunk_body-OnFile qs before =
      let P = OnFile env before in
      let Q : Unit {0} → Database → Type 0 = λ _. OnFile env before in
      let S : ℕ → Database → Type 0 = λ _. BothOnFile env before qs in
      triple_bind P Q S (statement prepare >> statement prepare) (λ _. import_records env qs 0)
        (triple_bind P Q Q (statement prepare) (λ _. statement prepare)
          (triple_statement P Q prepare (λ db h. h))
          (λ _. triple_statement P Q prepare (λ db h. h)))
        (λ _. import_records-OnFile env qs before 0)

  chunk-OnFile :
      (o : Option QsoError) (qs before : List Qso)
      → Triple (OnFile env before) (chunk_checked o env qs) (λ _. BothOnFile env before qs)
  unfolding chunk_checked
  chunk-OnFile (some e) qs before answers db h = tt
  chunk-OnFile none qs before answers db h =
      forget (λ _. BothOnFile env before qs) (λ new. new ≡ db)
        (transaction (chunk_body env qs) answers db)
        (transaction-Holds (OnFile env before) (λ _. BothOnFile env before qs) (chunk_body env qs)
          (chunk_body-OnFile qs before) answers db h)

  chunks-OnFile :
      (rounds : ℕ) (qs before : List Qso) (n : ℕ)
      → length qs ≤ rounds
      → Triple (OnFile env before) (import_chunks rounds env qs n) (λ _. BothOnFile env before qs)
  unfolding import_chunks
  chunks-OnFile rounds [] before n enough =
      triple_statement (OnFile env before) (λ _. BothOnFile env before []) (λ db. (n, db))
        (λ db h. (h, tt))
  chunks-OnFile zero (q ∷ qs) before n enough = absurd (ground arith)
  chunks-OnFile (suc rounds) (q ∷ qs) before n enough =
      triple_bind (OnFile env before) (λ _. BothOnFile env before chunk)
        (λ _. BothOnFile env before (q ∷ qs)) (insert_qso_chunk env chunk)
        (λ m. import_chunks rounds env rest (n + m))
        (unfold insert_qso_chunk in chunk-OnFile (first_invalid env.floats chunk) chunk before)
        (λ m.
          triple_weaken (BothOnFile env before chunk)
            (λ _ db. BothOnFile env before rest db × BothOnFile env chunk rest db)
            (λ _. BothOnFile env before (q ∷ qs)) (import_chunks rounds env rest (n + m))
            (λ k db h. (h.0.0, AllImported-take import_batch_size (q ∷ qs) db.log h.1.0 h.1.1))
            (triple_both (OnFile env before) (OnFile env chunk) (λ _. BothOnFile env before rest)
              (λ _. BothOnFile env chunk rest) (import_chunks rounds env rest (n + m))
              (chunks-OnFile rounds rest before (n + m) fewer)
              (chunks-OnFile rounds rest chunk (n + m) fewer)))
    where
      chunk : List Qso
      chunk = take import_batch_size (q ∷ qs)

      rest : List Qso
      rest = drop import_batch_size (q ∷ qs)

      fewer : length rest ≤ rounds
      fewer = omega (arith, length-drop 999 qs, enough)

-- Where `insertQSOBatch` returns without an error, every record that it was given is on file: a row
-- has its call, band, date, time and profile. The rounds that the loop over the chunks is given are
-- thus enough for every record.
pub insert_qso_batch-AllImported :
    (env : Services) (qs : List Qso) (answers : List Bool) (db : Database)
    → Holds (λ _ new. AllImported qs new.log) (λ _. Unit {0}) (insert_qso_batch env qs answers db)
unfolding insert_qso_batch
insert_qso_batch-AllImported env qs answers db =
    triple_weaken (OnFile env []) (λ _. BothOnFile env [] qs) (λ _ new. AllImported qs new.log)
      (import_chunks (length qs) env qs 0) (λ n new h. h.1)
      (chunks-OnFile env (length qs) qs [] 0 (omega arith)) answers db tt

add_none : (n : ℕ) → n + 0 ≡ n
add_none n = omega arith

module _ (env : Services) (old : Database) where
  -- Nothing was inserted.
  abbrev Same : ℕ → ℕ → Database → Type 0
  Same n m db = (m ≡ n) × (db ≡ old)

  abbrev Found : Bool → Database → Type 0
  Found found db = (found ≡ true) × (db ≡ old)

  missing-Same :
      (q : Qso) (n : ℕ) (found : Bool)
      → Triple (Found found) (import_missing env q n found) (Same n)
  unfolding import_missing
  missing-Same q n true answers db h = (refl, h.1)
  missing-Same q n false answers db h = absurd (ground (arith, h.0))

  -- A count that is still the one before.
  chain_Same :
      (m n : ℕ) (body : Tx ℕ)
      → Triple (λ db. db ≡ old) body (Same m)
      → Triple (Same n m) body (Same n)
  chain_Same m n body h answers db p =
      weaken-Holds (Same m) (Same n) (λ _. Unit {0}) (body answers db) (λ k d s. (s.0 ∙ p.0, s.1))
        (h answers db p.1)

  records-Same :
      (qs : List Qso) (n : ℕ)
      → AllImported qs old.log
      → Triple (λ db. db ≡ old) (import_records env qs n) (Same n)
  unfolding import_records
  records-Same [] n all = triple_pure (λ db. db ≡ old) (Same n) n (λ db h. (refl, h))
  records-Same (q ∷ qs) n (i, all) =
      triple_bind (λ db. db ≡ old) Found (Same n) (statement (find_import q)) _
        (triple_statement (λ db. db ≡ old) Found (find_import q) (λ db h. (rw h i, h)))
        (λ found.
          triple_bind (Found found) (Same n) (Same n) (import_missing env q n found)
            (λ m. import_records env qs m) (missing-Same q n found)
            (λ m. chain_Same m n (import_records env qs m) (records-Same qs m all)))

  chunk_body-Same :
      (qs : List Qso)
      → AllImported qs old.log
      → Triple (λ db. db ≡ old) (chunk_body env qs) (Same 0)
  unfolding chunk_body
  chunk_body-Same qs all =
      let P : Database → Type 0 = λ db. db ≡ old in
      let Q : Unit {0} → Database → Type 0 = λ _. P in
      triple_bind P Q (Same 0) (statement prepare >> statement prepare)
        (λ _. import_records env qs 0)
        (triple_bind P Q Q (statement prepare) (λ _. statement prepare)
          (triple_statement P Q prepare (λ db h. h))
          (λ _. triple_statement P Q prepare (λ db h. h)))
        (λ _. records-Same qs 0 all)

  chunk-Same :
      (o : Option QsoError) (qs : List Qso) (answers : List Bool)
      → AllImported qs old.log
      → Holds (Same 0) (λ db. db ≡ old) (chunk_checked o env qs answers old)
  unfolding chunk_checked
  chunk-Same (some e) qs answers all = refl
  chunk-Same none qs answers all =
      transaction-Holds (λ db. db ≡ old) (Same 0) (chunk_body env qs) (chunk_body-Same qs all)
        answers old refl

  optimize-Same :
      (n : ℕ) (answers : List Bool) → Holds (Same n) (λ db. db ≡ old) (optimize n answers old)
  optimize-Same n [] = refl
  optimize-Same n (true ∷ answers) = (refl, refl)
  optimize-Same n (false ∷ answers) = refl

  next_chunk :
      (o : Outcome ℕ) (n : ℕ) (f : ℕ → Tx ℕ)
      → Holds (Same 0) (λ db. db ≡ old) o
      → ((answers : List Bool) → Holds (Same n) (λ db. db ≡ old) (f 0 answers old))
      → Holds (Same n) (λ db. db ≡ old) (after o f)
  next_chunk (done m answers db) n f h k = rw (h.0, h.1) (k answers)
  next_chunk (failed e db) n f h k = h

  AllImported-split :
      (n : ℕ) (qs : List Qso)
      → AllImported qs old.log
      → AllImported (take n qs) old.log × AllImported (drop n qs) old.log
  AllImported-split zero qs h = (tt, h)
  AllImported-split (suc n) [] h = (tt, tt)
  AllImported-split (suc n) (q ∷ qs) (i, h) =
      let parts = AllImported-split n qs h in ((i, parts.0), parts.1)

  chunks-Same :
      (rounds n : ℕ) (qs : List Qso) (answers : List Bool)
      → AllImported qs old.log
      → Holds (Same n) (λ db. db ≡ old) (import_chunks rounds env qs n answers old)
  unfolding import_chunks
  chunks-Same rounds n [] answers all = optimize-Same n answers
  chunks-Same zero n (q ∷ qs) answers all = optimize-Same n answers
  chunks-Same (suc rounds) n (q ∷ qs) answers all =
      let parts = AllImported-split import_batch_size (q ∷ qs) all in
      next_chunk (insert_qso_chunk env (take import_batch_size (q ∷ qs)) answers old) n _
        (unfold insert_qso_chunk in chunk-Same _ _ answers parts.0)
        (λ more.
          rw (add_none n) (chunks-Same rounds n (drop import_batch_size (q ∷ qs)) more parts.1))

-- Once `insertQSOBatch` has returned without an error, running it again on the same records leaves
-- the tables as they are, whatever the database answers, and counts no record where it returns.
pub insert_qso_batch_again :
    (env : Services) (qs : List Qso) (first second rest : List Bool) (db new : Database) (n : ℕ)
    → insert_qso_batch env qs first db ≡ done n rest new
    → Holds
        (λ m again. (m ≡ 0) × (again ≡ new))
        (λ again. again ≡ new)
        (insert_qso_batch env qs second new)
unfolding insert_qso_batch
insert_qso_batch_again env qs first second rest db new n h =
    chunks-Same env new (length qs) 0 qs second
      (imported (insert_qso_batch-AllImported env qs first db))
  where
    imported :
        Holds (λ _ d. AllImported qs d.log) (λ _. Unit {0}) (insert_qso_batch env qs first db)
        → AllImported qs new.log
    imported holds = subst (Holds (λ _ d. AllImported qs d.log) (λ _. Unit {0})) h holds
