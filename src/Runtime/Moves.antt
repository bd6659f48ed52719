-- ===== src/Runtime/Moves.antt =====
-- What the runtime may do to the rows of the actions: each keeps its identifier and its status moves
-- along the table of vyomel/runtime/state.py.
use vyomel.Prelude.{
  ℕ, ◌≡◌, refl, Bool, true, false, List, [], ◌∷◌, Option, arith, Bool-cases, inl, inr, ◌∙◌,
}
use vyomel.Core.Types.{ActionStatus, action_status_eq}
use vyomel.Core.Errors.{Result, ok}
use vyomel.Runtime.State.{ActionTrigger, apply_action}
use vyomel.Store.{Db, Action}
use vyomel.Store.Session.{Session, given, given-eq-ok, go_on-eq-ok, ◌>>=◌}
use vyomel.Store.Session.Rules.{Composes, Keeps, Keeps-bind}
use vyomel.Store.Actions.{same_status, is_at, updated, update, cas_status}
use vyomel.Runtime.State.Steps.{
  ActionStep, step_of_apply, promote, gate, refuse, dispatch, grant, reject, claim, unclaimed, pass,
  unproven, fail, retry, reap, undo, drop,
}
use vyomel.Store.Actions.Rows.{Ends, Left, Left-first, cas_status-Left, SameActions}

-- A status is reached by triggers that the table has.
pub data Reaches : ActionStatus → ActionStatus → Type 0 where
  here : (s : ActionStatus) → Reaches s s
  next :
      {s d e : ActionStatus} (t : ActionTrigger)
      → apply_action s t ≡ ok d
      → Reaches d e
      → Reaches s e

pub Reaches-trans : {s d e : ActionStatus} → Reaches s d → Reaches d e → Reaches s e
Reaches-trans (here s) q = q
Reaches-trans (next t h p) q = next t h (Reaches-trans p q)

abbrev pub RowMoves : Action → Action → Type 0
RowMoves a b = (b.id ≡ a.id) × Reaches a.status b.status

abbrev pub RowsMove : List Action → List Action → Type 0
RowsMove [] [] = Unit {0}
RowsMove (a ∷ rows) (b ∷ new) = RowMoves a b × RowsMove rows new
RowsMove [] (b ∷ new) = ⊥
RowsMove (a ∷ rows) [] = ⊥

abbrev pub Moves : Db → Db → Type 0
Moves db new = RowsMove db.actions new.actions

pub RowsMove-refl : (rows : List Action) → RowsMove rows rows
RowsMove-refl [] = tt
RowsMove-refl (a ∷ rows) = ((refl, here a.status), RowsMove-refl rows)

pub RowsMove-trans : (xs ys zs : List Action) → RowsMove xs ys → RowsMove ys zs → RowsMove xs zs
RowsMove-trans [] [] [] p q = tt
RowsMove-trans [] [] (z ∷ zs) p q = absurd q
RowsMove-trans [] (y ∷ ys) zs p q = absurd p
RowsMove-trans (x ∷ xs) [] zs p q = absurd p
RowsMove-trans (x ∷ xs) (y ∷ ys) [] p q = absurd q
RowsMove-trans (x ∷ xs) (y ∷ ys) (z ∷ zs) ((i, p), ps) ((j, q), qs) =
    ((j ∙ i, Reaches-trans p q), RowsMove-trans xs ys zs ps qs)

pub Moves-Composes : Composes Moves
Moves-Composes = record {
  stay = λ db. RowsMove-refl db.actions;
  join = λ a b c h k. RowsMove-trans a.actions b.actions c.actions h k;
}

pub Moves-Same : (db new : Db) → SameActions db new → Moves db new
Moves-Same db new h = rw h (RowsMove-refl db.actions)

pub Keeps-Moves {ℓ} : {A : Type ℓ} (m : Session A) → Keeps SameActions m → Keeps Moves m
Keeps-Moves m k = record { kept = λ db a new e. Moves-Same db new (k.kept db a new e) }

-- An update that changes each row it takes along the table.
pub updated-RowsMove :
    (p : Action → Bool) (f : Action → Action) (rows : List Action)
    → ((a : Action) → p a ≡ true → RowMoves a (f a))
    → RowsMove rows (updated p f rows)
updated-RowsMove p f [] h = tt
updated-RowsMove p f (a ∷ rows) h = elim (Bool-cases (p a)) [
  | inl does ↦ rw does (h a does, updated-RowsMove p f rows h)
  | inr not_it ↦ rw not_it ((refl, here a.status), updated-RowsMove p f rows h)
]

pub update-Moves :
    (p : Action → Bool) (f : Action → Action)
    → ((a : Action) → p a ≡ true → RowMoves a (f a))
    → Keeps Moves (update p f)
unfolding update
update-Moves p f h = record {
  kept = λ db row new e.
      let j : record db { actions = updated p f db.actions } ≡ new = ground (arith, e) in
      rw (← j) (updated-RowsMove p f db.actions h);
}

is_at-eq : (id : ℕ) (s : ActionStatus) (a : Action) → is_at id s a ≡ true → a.status ≡ s
is_at-eq id s a h = ground (arith, (action_status_eq.beq_iff a.status s).0)

cas_status-Moves :
    (id : ℕ) (s dest : ActionStatus) (t : ActionTrigger) (fields : Action → Action)
    → apply_action s t ≡ ok dest
    → ((a : Action) → (fields a).id ≡ a.id)
    → Keeps Moves (cas_status id s dest fields)
unfolding cas_status
cas_status-Moves id s dest t fields h k =
    update-Moves (is_at id s) (λ a. record (fields a) { status = dest })
      (λ a at. (k a, rw (is_at-eq id s a at) (next t h (here dest))))

-- Ask the table, then move the row with a condition: the pattern of every operation.
pub Moves-move {ℓ} :
    {A : Type ℓ} (id : ℕ) (s : ActionStatus) (t : ActionTrigger) (fields : Action → Action)
    (rest : ActionStatus → Option Action → Session A)
    → ((a : Action) → (fields a).id ≡ a.id)
    → ((dest : ActionStatus) (row : Option Action) → Keeps Moves (rest dest row))
    → Keeps Moves (given (apply_action s t) >>= λ dest. cas_status id s dest fields >>= rest dest)
Moves-move id s t fields rest k h = record {
  kept = λ db a new e.
      let (dest, mid, f, g) = go_on-eq-ok (given (apply_action s t) db) _ e in
      let (table, same) = given-eq-ok (apply_action s t) db f in
      let c = cas_status-Moves id s dest t fields table k in
      let r =
        Keeps-bind Moves Moves-Composes (cas_status id s dest fields) (rest dest) c (h dest) in
      rw same at (r.kept mid a new g);
}

step-Leaves : {s d : ActionStatus} {t : ActionTrigger} → ActionStep s d t → same_status d s ≡ false
step-Leaves promote = refl
step-Leaves gate = refl
step-Leaves refuse = refl
step-Leaves dispatch = refl
step-Leaves grant = refl
step-Leaves reject = refl
step-Leaves claim = refl
step-Leaves unclaimed = refl
step-Leaves pass = refl
step-Leaves unproven = refl
step-Leaves fail = refl
step-Leaves retry = refl
step-Leaves reap = refl
step-Leaves undo = refl
step-Leaves (drop {s = s} h) = ground arith

-- Asking the table and moving the row with a condition leaves no row of the action at the status.
pub Left-move {ℓ} :
    {A : Type ℓ} (id : ℕ) (s : ActionStatus) (t : ActionTrigger) (fields : Action → Action)
    (rest : ActionStatus → Option Action → Session A)
    → ((dest : ActionStatus) (row : Option Action) → Keeps SameActions (rest dest row))
    → Ends
        (Left id s)
        (given (apply_action s t) >>= λ dest. cas_status id s dest fields >>= rest dest)
Left-move id s t fields rest h = record {
  ends = λ db a new e.
      let (dest, mid, f, g) = go_on-eq-ok (given (apply_action s t) db) _ e in
      let (table, same) = given-eq-ok (apply_action s t) db f in
      let c = cas_status-Left id s dest fields (step-Leaves (step_of_apply s dest t table)) in
      (Left-first id s (cas_status id s dest fields) (rest dest) c (h dest)).ends mid a new g;
}

-- The same where something else is computed between the two.
module _ {ℓ κ} {A : Type ℓ} {B : Type κ} (id : ℕ) (s : ActionStatus) (t : ActionTrigger)
    (r : Result B) where
  pub Moves-move_with :
      (fields : B → Action → Action) (rest : ActionStatus → B → Option Action → Session A)
      → ((b : B) (a : Action) → (fields b a).id ≡ a.id)
      → ((dest : ActionStatus) (b : B) (row : Option Action) → Keeps Moves (rest dest b row))
      → Keeps Moves (
          given (apply_action s t) >>= λ dest.
          given r >>= λ b. cas_status id s dest (fields b) >>= rest dest b)
  Moves-move_with fields rest k h = record {
    kept = λ db a new e.
        let (dest, mid, f, g) = go_on-eq-ok (given (apply_action s t) db) _ e in
        let (table, same) = given-eq-ok (apply_action s t) db f in
        let (b, later, u, v) =
          go_on-eq-ok (given r mid) (λ b. cas_status id s dest (fields b) >>= rest dest b) g in
        let (what, still) = given-eq-ok r mid u in
        let c = cas_status-Moves id s dest t (fields b) table (k b) in
        let m =
          Keeps-bind Moves Moves-Composes (cas_status id s dest (fields b)) (rest dest b) c
            (h dest b) in
        let moved = m.kept later a new v in rw (still, same) at moved;
  }

  pub Left-move_with :
      (fields : B → Action → Action) (rest : ActionStatus → B → Option Action → Session A)
      → ((dest : ActionStatus) (b : B) (row : Option Action) → Keeps SameActions (rest dest b row))
      → Ends (Left id s) (
          given (apply_action s t) >>= λ dest.
          given r >>= λ b. cas_status id s dest (fields b) >>= rest dest b)
  Left-move_with fields rest h = record {
    ends = λ db a new e.
        let (dest, mid, f, g) = go_on-eq-ok (given (apply_action s t) db) _ e in
        let (table, same) = given-eq-ok (apply_action s t) db f in
        let (b, later, u, v) =
          go_on-eq-ok (given r mid) (λ b. cas_status id s dest (fields b) >>= rest dest b) g in
        let c = cas_status-Left id s dest (fields b) (step-Leaves (step_of_apply s dest t table)) in
        (Left-first id s (cas_status id s dest (fields b)) (rest dest b) c (h dest b)).ends later a
          new v;
  }
