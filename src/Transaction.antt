-- ===== src/Transaction.antt =====
-- What the services throw, and `db.transaction` (src/errors.ts, and its use in every service).
-- A statement that throws inside a transaction leaves no state behind: the failure case carries
-- none. Transactions run one at a time.
use agentmesh_mcp.Prelude.{ℕ, ◌≡◌, refl, arith, Bool, true, false, leb, if◌then◌else◌}
use agentmesh_mcp.Schema.{Db}

-- An instance of the service's own error class with its code, or any other exception.
pub data Failure (C : Type 0) : Type 0 where
  code : C → Failure C
  internal : Failure C

pub data Result (C A : Type 0) : Type 0 where
  ok : A → Result C A
  err : Failure C → Result C A

-- The body of a transaction.
abbrev pub Tx : Type 0 → Type 0 → Type 0
Tx C A = Db → Result C (A × Db)

module _ {C A : Type 0} where
  abbrev pub pure : A → Tx C A
  pure a db = ok (a, db)

  abbrev pub throw : C → Tx C A
  throw c db = err (code c)

  abbrev pub crash : Tx C A
  crash db = err internal

  -- A read, by a SELECT.
  abbrev pub read : (Db → A) → Tx C A
  read f db = ok (f db, db)

-- A statement that writes and returns nothing.
abbrev pub write : {C : Type 0} → (Db → Db) → Tx C (Unit {0})
write f db = ok (tt, f db)

abbrev pub require : {C : Type 0} → Bool → C → Tx C (Unit {0})
require true c db = ok (tt, db)
require false c db = err (code c)

infixl 5 ◌>>=◌ ◌>>◌
abbrev pub continue : {C A B : Type 0} → Result C (A × Db) → (A → Tx C B) → Result C (B × Db)
continue (ok (a, db)) f = f a db
continue (err e) f = err e

abbrev pub ◌>>=◌ : {C A B : Type 0} → Tx C A → (A → Tx C B) → Tx C B
◌>>=◌ m f db = continue (m db) f

abbrev pub ◌>>◌ : {C B : Type 0} → Tx C (Unit {0}) → Tx C B → Tx C B
m >> k = m >>= λ _. k

-- `db.transaction(body)`: the result of the call, and the database after it.
abbrev pub settle : {C A : Type 0} → Result C (A × Db) → Db → Result C A × Db
settle (ok (a, db')) db = (ok a, db')
settle (err e) db = (err e, db)

unfoldable pub transaction : {C A : Type 0} → Tx C A → Db → Result C A × Db
transaction body db = settle (body db) db

-- A step that succeeds in a transaction that succeeds.
pub continue-eq-ok :
    {C A B : Type 0} (r : Result C (A × Db)) (f : A → Tx C B) {b : B} {db' : Db}
    → continue r f ≡ ok (b, db')
    → (a : A) × (db : Db) × (r ≡ ok (a, db)) × (f a db ≡ ok (b, db'))
continue-eq-ok (ok (a, db)) f h = (a, db, refl, h)
continue-eq-ok (err e) f h = cc

settle-eq-ok :
    {C A : Type 0} (r : Result C (A × Db)) (db : Db) {a : A} {db' : Db}
    → settle r db ≡ (ok a, db')
    → r ≡ ok (a, db')
settle-eq-ok (ok (b, db1)) db h = ground arith
settle-eq-ok (err e) db h = ground arith

settle-eq-err :
    {C A : Type 0} (r : Result C (A × Db)) (db db' : Db) (e : Failure C)
    → settle r db ≡ (err e, db')
    → (r ≡ err e) × (db ≡ db')
settle-eq-err (ok (b, db1)) db db' e h = ground arith
settle-eq-err (err e') db db' e h = ground arith

-- A transaction that is committed.
pub transaction-eq-ok :
    {C A : Type 0} (body : Tx C A) (db : Db) {a : A} {db' : Db}
    → transaction body db ≡ (ok a, db')
    → body db ≡ ok (a, db')
unfolding transaction
transaction-eq-ok body db h = settle-eq-ok (body db) db h

-- A transaction that is rolled back leaves the database as it was.
pub transaction-eq-err :
    {C A : Type 0} (body : Tx C A) (db db' : Db) (e : Failure C)
    → transaction body db ≡ (err e, db')
    → (body db ≡ err e) × (db ≡ db')
unfolding transaction
transaction-eq-err body db db' e h = settle-eq-err (body db) db db' e h

pub ok_inj :
    {C A : Type 0} (a b : A) (db db' : Db)
    → ◌≡◌ {A = Result C (A × Db)} (ok (a, db)) (ok (b, db'))
    → (a ≡ b) × (db ≡ db')
ok_inj a b db db' h = (cc, cc)

-- A service's `catch`: its own errors are thrown again, all others become its last code.
abbrev pub otherwise : {C A : Type 0} → C → Result C A × Db → Result C A × Db
otherwise c (ok a, db) = (ok a, db)
otherwise c (err (code e), db) = (err (code e), db)
otherwise c (err internal, db) = (err (code c), db)

pub otherwise-eq-ok :
    {C A : Type 0} (c : C) (r : Result C A × Db) (a : A) (db' : Db)
    → otherwise c r ≡ (ok a, db')
    → r ≡ (ok a, db')
otherwise-eq-ok c (ok b, db) a db' h = h
otherwise-eq-ok c (err (code e), db) a db' h = h
otherwise-eq-ok c (err internal, db) a db' h = absurd (ground arith)

-- The largest time of a JavaScript Date; `new Date` of a larger one is an Invalid Date.
abbrev pub valid_date : ℕ → Bool
valid_date t = leb t 8640000000000000

pub require-eq-ok :
    {C : Type 0} (b : Bool) (c : C) (db : Db) (u : Unit {0}) (db' : Db)
    → require b c db ≡ ok (u, db')
    → (b ≡ true) × (db ≡ db')
require-eq-ok true c db u db' h = (refl, cc)
require-eq-ok false c db u db' h = absurd (ground arith)

-- `if (!b) throw e` before a value, in a body and in a call.
pub guard-eq-ok :
    {C A : Type 0} (b : Bool) (r : Result C A) (e : Failure C) {x : A}
    → (if b then r else err e) ≡ ok x
    → (b ≡ true) × (r ≡ ok x)
guard-eq-ok true r e h = (refl, h)
guard-eq-ok false r e h = absurd (ground arith)

pub call-eq-ok :
    {C A : Type 0} (b : Bool) (r : Result C A × Db) (e : Failure C) (db : Db) {x : A} {db' : Db}
    → (if b then r else (err e, db)) ≡ (ok x, db')
    → (b ≡ true) × (r ≡ (ok x, db'))
call-eq-ok true r e db h = (refl, h)
call-eq-ok false r e db h = absurd (ground arith)
