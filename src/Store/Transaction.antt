-- ===== src/Store/Transaction.antt =====
-- A transaction: statements that run one after another while each of them succeeds.
use w4gns_logger4men.Base.{Bool, true, false, List, [], ◌∷◌}
use w4gns_logger4men.Store.{Database, StoreError, cannot_begin, cannot_run, cannot_commit}

-- What a statement or a transaction leaves: a value, the answers that are left and the database, or
-- an error and the database.
pub data Outcome (A : Type 0) : Type 0 where
  done : A → List Bool → Database → Outcome A
  failed : StoreError → Database → Outcome A

abbrev pub Tx : Type 0 → Type 0
Tx A = List Bool → Database → Outcome A

abbrev pub pure : {A : Type 0} → A → Tx A
pure a answers db = done a answers db

abbrev pub fail : {A : Type 0} → StoreError → Tx A
fail e answers db = failed e db

abbrev pub after : {A B : Type 0} → Outcome A → (A → Tx B) → Outcome B
after (done a answers db) f = f a answers db
after (failed e db) f = failed e db

infixl 5 ◌>>=◌ ◌>>◌
abbrev pub ◌>>=◌ : {A B : Type 0} → Tx A → (A → Tx B) → Tx B
◌>>=◌ m f answers db = after (m answers db) f

abbrev pub ◌>>◌ : {A B : Type 0} → Tx A → Tx B → Tx B
m >> k = m >>= λ _. k

abbrev pub answered : {A : Type 0} → Bool → A → List Bool → Database → Database → Outcome A
answered true a answers old new = done a answers new
answered false a answers old new = failed cannot_run old

-- One statement: what it returns, and what it makes of the tables.
abbrev pub statement : {A : Type 0} → (Database → A × Database) → Tx A
statement run [] db = failed cannot_run db
statement run (answer ∷ answers) db = answered answer (run db).0 answers db (run db).1

abbrev pub commit : {A : Type 0} → A → List Bool → Database → Database → Outcome A
commit a [] old new = failed cannot_commit old
commit a (true ∷ answers) old new = done a answers new
commit a (false ∷ answers) old new = failed cannot_commit old

-- `defer tx.Rollback()`, and the commit at the end.
abbrev pub settle : {A : Type 0} → Outcome A → Database → Outcome A
settle (done a answers new) old = commit a answers old new
settle (failed e new) old = failed e old

abbrev pub transaction : {A : Type 0} → Tx A → Tx A
transaction body [] db = failed cannot_begin db
transaction body (false ∷ answers) db = failed cannot_begin db
transaction body (true ∷ answers) db = settle (body answers db) db

-- What holds of an outcome: of the value and the tables, or of the tables behind an error.
abbrev pub Holds : {A : Type 0} → (A → Database → Type 0) → (Database → Type 0) → Outcome A → Type 0
Holds Q R (done a answers db) = Q a db
Holds Q R (failed e db) = R db

-- From tables with `P`, a success leaves `Q`.
abbrev pub Triple : {A : Type 0} → (Database → Type 0) → Tx A → (A → Database → Type 0) → Type 0
Triple P m Q = (answers : List Bool) (db : Database) → P db → Holds Q (λ _. Unit {0}) (m answers db)
