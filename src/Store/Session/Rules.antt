-- ===== src/Store/Session/Rules.antt =====
-- Rules for units of work: what a value satisfies, and what the database keeps.
use vyomel.Prelude.{◌≡◌, arith}
use vyomel.Core.Errors.{VyomelError, Result, ok, err}
use vyomel.Store.{Db}
use vyomel.Store.Session.{Session, pure, raise, given, go_on-eq-ok, ◌>>=◌, look}

-- The value that a unit of work gives.
pub record Gives {ℓ κ} {A : Type ℓ} (P : A → Type κ) (m : Session A) : Type (ℓ ⊔ κ) where
  pub gives : (db : Db) (a : A) (new : Db) → m db ≡ ok (a, new) → P a

module _ {ℓ κ} {A : Type ℓ} (P : A → Type κ) where
  pub Gives-pure : (a : A) → P a → Gives P (pure a)
  Gives-pure a p = record { gives = λ db b new h. let e : a ≡ b = ground (arith, h) in rw e at p }

  pub Gives-bind {μ} :
      {B : Type μ} (m : Session B) (next : B → Session A)
      → ((b : B) → Gives P (next b))
      → Gives P (m >>= next)
  Gives-bind m next h = record {
    gives = λ db a new e. let (b, mid, f, g) = go_on-eq-ok (m db) next e in (h b).gives mid a new g;
  }

-- A relation of databases that composes.
pub record Composes (R : Db → Db → Type 0) : Type 0 where
  pub stay : (db : Db) → R db db
  pub join : (a b c : Db) → R a b → R b c → R a c

pub record Keeps {ℓ} {A : Type ℓ} (R : Db → Db → Type 0) (m : Session A) : Type ℓ where
  pub kept : (db : Db) (a : A) (new : Db) → m db ≡ ok (a, new) → R db new

module _ {ℓ} {A : Type ℓ} (R : Db → Db → Type 0) (c : Composes R) where
  pub Keeps-pure : (a : A) → Keeps R (pure a)
  Keeps-pure a = record {
    kept = λ db b new h. let e : db ≡ new = ground (arith, h) in rw (← e) (c.stay db);
  }

  pub Keeps-look : (f : Db → A) → Keeps R (look f)
  Keeps-look f = record {
    kept = λ db b new h. let e : db ≡ new = ground (arith, h) in rw (← e) (c.stay db);
  }

  pub Keeps-given : (r : Result A) → Keeps R (given r)
  Keeps-given (ok a) = Keeps-pure a
  Keeps-given (err e) = record { kept = λ db b new h. cc }

  pub Keeps-raise : (e : VyomelError) → Keeps R (raise {A = A} e)
  Keeps-raise e = record { kept = λ db b new h. cc }

  pub Keeps-bind {κ} :
      {B : Type κ} (m : Session B) (next : B → Session A)
      → Keeps R m
      → ((b : B) → Keeps R (next b))
      → Keeps R (m >>= next)
  Keeps-bind m next h k = record {
    kept = λ db a new e.
        let (b, mid, f, g) = go_on-eq-ok (m db) next e in
        c.join db mid new (h.kept db b mid f) ((k b).kept mid a new g);
  }
