-- ===== src/Store/Always.antt =====
-- What holds of the tables before a transaction and after it, whatever it returns.
use w4gns_logger4men.Base.{◌≡◌, Bool, true, false, List, [], ◌∷◌, if◌then◌else◌}
use w4gns_logger4men.Store.{Database, StoreError}
use w4gns_logger4men.Store.Transaction.{
  Outcome, done, failed, Tx, after, ◌>>=◌, pure, fail, statement, transaction, Holds, Triple,
}
use w4gns_logger4men.Store.Rules.{transaction-Holds}

-- The tables that a call leaves.
unfoldable pub tables : {A : Type 0} → Outcome A → Database
tables (done a answers db) = db
tables (failed e db) = db

abbrev pub Always : {A : Type 0} → (Database → Type 0) → Tx A → Type 0
Always P m = (answers : List Bool) (db : Database) → P db → Holds (λ _. P) P (m answers db)

pub Always-statement :
    {A : Type 0} (P : Database → Type 0) (run : Database → A × Database)
    → ((db : Database) → P db → P (run db).1)
    → Always P (statement run)
Always-statement P run h [] db p = p
Always-statement P run h (true ∷ answers) db p = h db p
Always-statement P run h (false ∷ answers) db p = p

after-Always :
    {A B : Type 0} (P : Database → Type 0) (f : A → Tx B)
    → ((a : A) → Always P (f a))
    → (o : Outcome A) → Holds (λ _. P) P o
    → Holds (λ _. P) P (after o f)
after-Always P f k (done a answers db) h = k a answers db h
after-Always P f k (failed e db) h = h

pub Always-bind :
    {A B : Type 0} (P : Database → Type 0) (m : Tx A) (f : A → Tx B)
    → Always P m
    → ((a : A) → Always P (f a))
    → Always P (m >>= f)
Always-bind P m f h k answers db p = after-Always P f k (m answers db) (h answers db p)

pub Always-pure : {A : Type 0} (P : Database → Type 0) (a : A) → Always P (pure a)
Always-pure P a answers db p = p

pub Always-fail : (A : Type 0) (P : Database → Type 0) (e : StoreError) → Always {A = A} P (fail e)
Always-fail A P e answers db p = p

pub Always-if :
    {A : Type 0} (P : Database → Type 0) (b : Bool) (m n : Tx A)
    → Always P m
    → Always P n
    → Always P (if b then m else n)
Always-if P true m n h k = h
Always-if P false m n h k = k

rolled_back :
    {A : Type 0} (P : Database → Type 0) (o : Outcome A) (db : Database)
    → P db
    → Holds (λ _. P) (λ new. new ≡ db) o
    → Holds (λ _. P) P o
rolled_back P (done a answers new) db p h = h
rolled_back P (failed e new) db p h = rw h p

-- A transaction keeps what its body leaves true where it succeeds.
pub Always-transaction :
    {A : Type 0} (P : Database → Type 0) (body : Tx A)
    → Triple P body (λ _. P)
    → Always P (transaction body)
Always-transaction P body h answers db p =
    rolled_back P (transaction body answers db) db p
      (transaction-Holds P (λ _. P) body h answers db p)

forget_error :
    {A : Type 0} (P : Database → Type 0) (o : Outcome A)
    → Holds (λ _. P) P o
    → Holds (λ _. P) (λ _. Unit {0}) o
forget_error P (done a answers db) h = h
forget_error P (failed e db) h = tt

pub triple_always :
    {A : Type 0} (P : Database → Type 0) (body : Tx A) → Always P body → Triple P body (λ _. P)
triple_always P body h answers db p = forget_error P (body answers db) (h answers db p)

pub tables_always :
    {A : Type 0} (P : Database → Type 0) (o : Outcome A) → Holds (λ _. P) P o → P (tables o)
unfolding tables
tables_always P (done a answers db) h = h
tables_always P (failed e db) h = h
