-- ===== src/Store/Session.antt =====
-- `session_scope` of vyomel/store/db.py: a unit of work on the database that gives a value, or raises and
-- leaves the database as it was.
pub mod Rules
use vyomel.Prelude.{◌≡◌, refl, arith}
use vyomel.Core.Errors.{VyomelError, Result, ok, err}
use vyomel.Store.{Db}

abbrev pub Session {ℓ} : Type ℓ → Type ℓ
Session A = Db → Result (A × Db)

abbrev pub pure {ℓ} : {A : Type ℓ} → A → Session A
pure a db = ok (a, db)

abbrev pub raise {ℓ} : {A : Type ℓ} → VyomelError → Session A
raise e db = err e

-- A result that does not touch the database.
abbrev pub given {ℓ} : {A : Type ℓ} → Result A → Session A
given (ok a) db = ok (a, db)
given (err e) db = err e

abbrev pub go_on {ℓ κ} :
    {A : Type ℓ} {B : Type κ} → Result (A × Db) → (A → Session B) → Result (B × Db)
go_on (err e) next = err e
go_on (ok (a, db)) next = next a db

infixl 5 ◌>>=◌ ◌>>◌
abbrev pub ◌>>=◌ {ℓ κ} : {A : Type ℓ} {B : Type κ} → Session A → (A → Session B) → Session B
(m >>= next) db = go_on (m db) next

abbrev pub ◌>>◌ {ℓ κ} : {A : Type ℓ} {B : Type κ} → Session A → Session B → Session B
(m >> next) db = go_on (m db) (λ a. next)

-- What is read of the database, and a change of it.
abbrev pub look {ℓ} : {A : Type ℓ} → (Db → A) → Session A
look f db = ok (f db, db)

abbrev pub change : (Db → Db) → Session (Unit {0})
change f db = ok (tt, f db)

-- The database that a committed unit of work leaves.
abbrev pub after {ℓ} : {A : Type ℓ} → Db → Result (A × Db) → Db
after db (ok (a, new)) = new
after db (err e) = db

-- Inversion of a bind that succeeds.
pub go_on-eq-ok {ℓ κ} :
    {A : Type ℓ} {B : Type κ} (m : Result (A × Db)) (next : A → Session B) {b : B} {new : Db}
    → go_on m next ≡ ok (b, new)
    → (a : A) × (db : Db) × (m ≡ ok (a, db)) × (next a db ≡ ok (b, new))
go_on-eq-ok (err e) next h = cc
go_on-eq-ok (ok (a, db)) next h = (a, db, refl, h)

pub given-eq-ok {ℓ} :
    {A : Type ℓ} (r : Result A) (db : Db) {a : A} {new : Db}
    → given r db ≡ ok (a, new)
    → (r ≡ ok a) × (new ≡ db)
given-eq-ok (err e) db h = cc
given-eq-ok (ok a) db h = ground (arith, h)
