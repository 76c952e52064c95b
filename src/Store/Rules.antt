-- ===== src/Store/Rules.antt =====
-- The rules of proof for transactions.
use w4gns_logger4men.Base.{◌≡◌, refl, Bool, true, false, List, [], ◌∷◌, if◌then◌else◌}
use w4gns_logger4men.Store.{Database, StoreError}
use w4gns_logger4men.Store.Transaction.{
  Outcome, done, failed, Tx, after, ◌>>=◌, pure, fail, statement, commit, settle, transaction,
  Holds, Triple,
}

pub triple_pure :
    {A : Type 0} (P : Database → Type 0) (Q : A → Database → Type 0) (a : A)
    → ((db : Database) → P db → Q a db)
    → Triple P (pure a) Q
triple_pure P Q a h answers db p = h db p

pub triple_fail :
    {A : Type 0} (P : Database → Type 0) (Q : A → Database → Type 0) (e : StoreError)
    → Triple P (fail e) Q
triple_fail P Q e answers db p = tt

pub triple_statement :
    {A : Type 0} (P : Database → Type 0) (Q : A → Database → Type 0) (run : Database → A × Database)
    → ((db : Database) → P db → Q (run db).0 (run db).1)
    → Triple P (statement run) Q
triple_statement P Q run h [] db p = tt
triple_statement P Q run h (true ∷ answers) db p = h db p
triple_statement P Q run h (false ∷ answers) db p = tt

after-Holds :
    {A B : Type 0} (Q : A → Database → Type 0) (S : B → Database → Type 0) (f : A → Tx B)
    → ((a : A) → Triple (Q a) (f a) S)
    → (o : Outcome A) → Holds Q (λ _. Unit {0}) o
    → Holds S (λ _. Unit {0}) (after o f)
after-Holds Q S f k (done a answers db) h = k a answers db h
after-Holds Q S f k (failed e db) h = tt

pub triple_bind :
    {A B : Type 0} (P : Database → Type 0) (Q : A → Database → Type 0) (S : B → Database → Type 0)
    (m : Tx A) (f : A → Tx B)
    → Triple P m Q
    → ((a : A) → Triple (Q a) (f a) S)
    → Triple P (m >>= f) S
triple_bind P Q S m f h k answers db p = after-Holds Q S f k (m answers db) (h answers db p)

pub triple_if :
    {A : Type 0} (P : Database → Type 0) (Q : A → Database → Type 0) (b : Bool) (m n : Tx A)
    → (b ≡ true → Triple P m Q)
    → (b ≡ false → Triple P n Q)
    → Triple P (if b then m else n) Q
triple_if P Q true m n h k = h refl
triple_if P Q false m n h k = k refl

commit-Holds :
    {A : Type 0} (Q : A → Database → Type 0) (a : A) (answers : List Bool) (old new : Database)
    → Q a new
    → Holds Q (λ db. db ≡ old) (commit a answers old new)
commit-Holds Q a [] old new h = refl
commit-Holds Q a (true ∷ answers) old new h = h
commit-Holds Q a (false ∷ answers) old new h = refl

settle-Holds :
    {A : Type 0} (Q : A → Database → Type 0) (o : Outcome A) (old : Database)
    → Holds Q (λ _. Unit {0}) o
    → Holds Q (λ db. db ≡ old) (settle o old)
settle-Holds Q (done a answers new) old h = commit-Holds Q a answers old new h
settle-Holds Q (failed e new) old h = refl

pub transaction-Holds :
    {A : Type 0} (P : Database → Type 0) (Q : A → Database → Type 0) (body : Tx A)
    → Triple P body Q
    → (answers : List Bool) (db : Database) → P db
    → Holds Q (λ new. new ≡ db) (transaction body answers db)
transaction-Holds P Q body h [] db p = refl
transaction-Holds P Q body h (false ∷ answers) db p = refl
transaction-Holds P Q body h (true ∷ answers) db p =
    settle-Holds Q (body answers db) db (h answers db p)

pub weaken-Holds :
    {A : Type 0} (Q S : A → Database → Type 0) (R : Database → Type 0) (o : Outcome A)
    → ((a : A) (db : Database) → Q a db → S a db)
    → Holds Q R o
    → Holds S R o
weaken-Holds Q S R (done a answers db) k h = k a db h
weaken-Holds Q S R (failed e db) k h = h

pub triple_weaken :
    {A : Type 0} (P : Database → Type 0) (Q S : A → Database → Type 0) (m : Tx A)
    → ((a : A) (db : Database) → Q a db → S a db)
    → Triple P m Q
    → Triple P m S
triple_weaken P Q S m k h answers db p =
    weaken-Holds Q S (λ _. Unit {0}) (m answers db) k (h answers db p)

both_hold :
    {A : Type 0} (Q S : A → Database → Type 0) (o : Outcome A)
    → Holds Q (λ _. Unit {0}) o
    → Holds S (λ _. Unit {0}) o
    → Holds (λ a db. Q a db × S a db) (λ _. Unit {0}) o
both_hold Q S (done a answers db) h k = (h, k)
both_hold Q S (failed e db) h k = tt

pub triple_both :
    {A : Type 0} (P R : Database → Type 0) (Q S : A → Database → Type 0) (m : Tx A)
    → Triple P m Q
    → Triple R m S
    → Triple (λ db. P db × R db) m (λ a db. Q a db × S a db)
triple_both P R Q S m h k answers db p =
    both_hold Q S (m answers db) (h answers db p.0) (k answers db p.1)
