-- ===== src/Store/Actions/Rows.antt =====
-- What the updates with a condition leave in the rows, and the frames of the other operations.
use vyomel.Prelude.{
  ℕ, ◌≡◌, refl, Bool, true, false, ◌&&◌, List, [], ◌∷◌, Text, All, arith, Bool-cases, inl, inr,
}
use vyomel.Core.Types.{ActionStatus}
use vyomel.Core.Errors.{ok}
use vyomel.Store.{Db, Action}
use vyomel.Store.Session.{Session, go_on-eq-ok, ◌>>=◌}
use vyomel.Store.Session.Rules.{Composes, Keeps}
use vyomel.Store.Actions.{
  same_status, is_at, updated, update, cas_status, add_dead_letter, insert_ledger,
}

-- No row of the action has the status.
abbrev pub Left : ℕ → ActionStatus → Db → Type 0
Left id s db = All (λ a. is_at id s a ≡ false) db.actions

-- The actions stay as they are.
abbrev pub SameActions : Db → Db → Type 0
SameActions db new = new.actions ≡ db.actions

pub SameActions-Composes : Composes SameActions
SameActions-Composes = record { stay = λ db. refl; join = λ a b c h k. cc }

updated-Left :
    (id : ℕ) (s dest : ActionStatus) (fields : Action → Action) (rows : List Action)
    → same_status dest s ≡ false
    → All
        (λ a. is_at id s a ≡ false)
        (updated (is_at id s) (λ a. record (fields a) { status = dest }) rows)
updated-Left id s dest fields [] h = tt
updated-Left id s dest fields (a ∷ rows) h = elim (Bool-cases (is_at id s a)) [
  | inl at ↦ rw at (ground arith, updated-Left id s dest fields rows h)
  | inr off ↦ rw off (off, updated-Left id s dest fields rows h)
]

-- What a unit of work that succeeds leaves behind.
pub record Ends {ℓ} {A : Type ℓ} (P : Db → Type 0) (m : Session A) : Type ℓ where
  pub ends : (db : Db) (a : A) (new : Db) → m db ≡ ok (a, new) → P new

pub cas_status-Left :
    (id : ℕ) (s dest : ActionStatus) (fields : Action → Action)
    → same_status dest s ≡ false
    → Ends (Left id s) (cas_status id s dest fields)
unfolding cas_status update
cas_status-Left id s dest fields h = record {
  ends = λ db a new e.
      let j : record db {
        actions = updated (is_at id s) (λ a. record (fields a) { status = dest }) db.actions;
      }
          ≡ new =
        ground (arith, e) in
      rw (← j) (updated-Left id s dest fields db.actions h);
}

module _ {ℓ κ} {A : Type ℓ} {B : Type κ} (id : ℕ) (s : ActionStatus) where
  -- What the first part has done, the rest does not undo.
  pub Left-first :
      (m : Session B) (next : B → Session A)
      → Ends (Left id s) m
      → ((b : B) → Keeps SameActions (next b))
      → Ends (Left id s) (m >>= next)
  Left-first m next h k = record {
    ends = λ db a new e.
        let (b, mid, f, g) = go_on-eq-ok (m db) next e in
        let same = (k b).kept mid a new g in rw same (h.ends db b mid f);
  }

  pub Left-rest :
      (m : Session B) (next : B → Session A)
      → ((b : B) → Ends (Left id s) (next b))
      → Ends (Left id s) (m >>= next)
  Left-rest m next k = record {
    ends = λ db a new e. let (b, mid, f, g) = go_on-eq-ok (m db) next e in (k b).ends mid a new g;
  }

-- A dead letter and an entry of the ledger leave the actions alone.
pub add_dead_letter-SameActions :
    (id : ℕ) (reason : Text) → Keeps SameActions (add_dead_letter id reason)
unfolding add_dead_letter
add_dead_letter-SameActions id reason = record { kept = λ db a new e. ground arith }

pub insert_ledger-SameActions :
    (key tool : Text) (id : ℕ) → Keeps SameActions (insert_ledger key tool id)
unfolding insert_ledger
insert_ledger-SameActions key tool id = record { kept = λ db a new e. ground arith }

-- An update with a second condition that holds, or that does not.
pub updated_never :
    (f : Action → Action) (p : Action → Bool) (rows : List Action)
    → updated (λ r. p r && false) f rows ≡ rows
updated_never f p [] = refl
updated_never f p (r ∷ rows) = elim (Bool-cases (p r)) [
  | inl t ↦ rw (t, updated_never f p rows) refl
  | inr t ↦ rw (t, updated_never f p rows) refl
]

pub updated_starts :
    (f : Action → Action) (p : Action → Bool) (rows : List Action)
    → updated (λ r. p r && true) f rows ≡ updated p f rows
updated_starts f p [] = refl
updated_starts f p (r ∷ rows) = elim (Bool-cases (p r)) [
  | inl t ↦ rw (t, updated_starts f p rows) refl
  | inr t ↦ rw (t, updated_starts f p rows) refl
]
