-- ===== src/Runtime/Closes.antt =====
-- What the engine leaves of the rows of the actions in the end: the moves of the transition table, and the
-- replanning, which takes a failed action out and adds rows.
use vyomel.Prelude.{◌≡◌, refl, Bool, true, false, not, List, [], ◌∷◌, if◌then◌else◌, arith}
use vyomel.Core.Types.{ActionStatus, action_is_terminal}
use vyomel.Runtime.State.{ActionTrigger}
use vyomel.Runtime.State.Steps.{
  ActionStep, step_of_apply, promote, gate, refuse, dispatch, grant, reject, claim, unclaimed, pass,
  unproven, fail, retry, reap, undo, drop,
}
use vyomel.Runtime.Moves.{Reaches, here, next, RowsMove, Moves}
use vyomel.Store.{Db, Action}
use vyomel.Store.Session.{Session, ◌>>=◌}
use vyomel.Store.Session.Rules.{Composes, Keeps, Keeps-bind}
use vyomel.Store.Actions.Rows.{SameActions}

-- What may follow a status in the end.
abbrev pub closed : ActionStatus → ActionStatus → Bool
closed ActionStatus.succeeded ActionStatus.succeeded = true
closed ActionStatus.succeeded ActionStatus.rolled_back = true
closed ActionStatus.unverified ActionStatus.unverified = true
closed ActionStatus.failed ActionStatus.failed = true
closed ActionStatus.failed ActionStatus.cancelled = true
closed ActionStatus.cancelled ActionStatus.cancelled = true
closed ActionStatus.rolled_back ActionStatus.rolled_back = true
closed s d = not (action_is_terminal s)

closed-step :
    {s d : ActionStatus} {t : ActionTrigger} (e : ActionStatus)
    → ActionStep s d t
    → closed d e ≡ true
    → closed s e ≡ true
closed-step e promote h = ground arith
closed-step e gate h = ground arith
closed-step e refuse h = ground arith
closed-step e dispatch h = ground arith
closed-step e grant h = ground arith
closed-step e reject h = ground arith
closed-step e claim h = ground arith
closed-step e unclaimed h = ground arith
closed-step e pass h = ground arith
closed-step e unproven h = ground arith
closed-step e fail h = ground arith
closed-step e retry h = ground arith
closed-step e reap h = ground arith
closed-step e undo h = ground arith
closed-step e (drop {s = s} nt) h = ground arith

pub closed_refl : (s : ActionStatus) → closed s s ≡ true
closed_refl s = ground arith

Reaches-closed : {s e : ActionStatus} → Reaches s e → closed s e ≡ true
Reaches-closed (here s) = closed_refl s
Reaches-closed {s} {e} (next {d = d} t h r) =
    closed-step e (step_of_apply s d t h) (Reaches-closed r)

-- Row by row, the identifier stays and the status goes only where it may; new rows may stand behind.
abbrev pub RowsClose : List Action → List Action → Type 0
RowsClose [] [] = Unit {0}
RowsClose (a ∷ rows) (b ∷ new) =
    ((b.id ≡ a.id) × (closed a.status b.status ≡ true)) × RowsClose rows new
RowsClose [] (b ∷ new) = Unit {0}
RowsClose (a ∷ rows) [] = ⊥

pub RowsMove-RowsClose : (rows new : List Action) → RowsMove rows new → RowsClose rows new
RowsMove-RowsClose [] [] h = tt
RowsMove-RowsClose [] (b ∷ new) h = tt
RowsMove-RowsClose (a ∷ rows) [] h = h
RowsMove-RowsClose (a ∷ rows) (b ∷ new) ((i, r), h) =
    ((i, Reaches-closed r), RowsMove-RowsClose rows new h)

closed_trans : (s d e : ActionStatus) → closed s d ≡ true → closed d e ≡ true → closed s e ≡ true
closed_trans ActionStatus.planned d e h k = ground (arith, h, k)
closed_trans ActionStatus.ready d e h k = ground (arith, h, k)
closed_trans ActionStatus.dispatched d e h k = ground (arith, h, k)
closed_trans ActionStatus.running d e h k = ground (arith, h, k)
closed_trans ActionStatus.waiting_for_user d e h k = ground (arith, h, k)
closed_trans ActionStatus.succeeded d e h k = ground (arith, h, k)
closed_trans ActionStatus.unverified d e h k = ground (arith, h, k)
closed_trans ActionStatus.failed d e h k = ground (arith, h, k)
closed_trans ActionStatus.rolled_back d e h k = ground (arith, h, k)
closed_trans ActionStatus.cancelled d e h k = ground (arith, h, k)

pub RowsClose-refl : (rows : List Action) → RowsClose rows rows
RowsClose-refl [] = tt
RowsClose-refl (a ∷ rows) = ((refl, closed_refl a.status), RowsClose-refl rows)

pub RowsClose-trans : (a b c : List Action) → RowsClose a b → RowsClose b c → RowsClose a c
RowsClose-trans [] b [] h k = tt
RowsClose-trans [] b (z ∷ c) h k = tt
RowsClose-trans (x ∷ a) [] c h k = absurd h
RowsClose-trans (x ∷ a) (y ∷ b) [] h k = absurd k
RowsClose-trans (x ∷ a) (y ∷ b) (z ∷ c) ((i, h), hs) ((j, k), ks) =
    ((cc, closed_trans x.status y.status z.status h k), RowsClose-trans a b c hs ks)

abbrev pub Closes : Db → Db → Type 0
Closes db new = RowsClose db.actions new.actions

Closes-Composes : Composes Closes
Closes-Composes = record {
  stay = λ db. RowsClose-refl db.actions;
  join = λ a b c h k. RowsClose-trans a.actions b.actions c.actions h k;
}

pub Moves-Closes {ℓ} : {A : Type ℓ} (m : Session A) → Keeps Moves m → Keeps Closes m
Moves-Closes m h = record {
  kept = λ db a new e. RowsMove-RowsClose db.actions new.actions (h.kept db a new e);
}

pub same-Closes {ℓ} : {A : Type ℓ} (m : Session A) → Keeps SameActions m → Keeps Closes m
same-Closes m h = record {
  kept = λ db a new e. let s = h.kept db a new e in rw s (RowsClose-refl db.actions);
}

pub Closes-bind {ℓ κ} :
    {A : Type ℓ} {B : Type κ} (m : Session B) (rest : B → Session A)
    → Keeps Closes m
    → ((b : B) → Keeps Closes (rest b))
    → Keeps Closes (m >>= rest)
Closes-bind m rest = Keeps-bind Closes Closes-Composes m rest

pub Closes-if {ℓ} :
    {A : Type ℓ} (b : Bool) (m n : Session A)
    → Keeps Closes m
    → Keeps Closes n
    → Keeps Closes (if b then m else n)
Closes-if true m n h k = h
Closes-if false m n h k = k
