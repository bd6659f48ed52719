-- ===== src/Runtime/Gate/Kept.antt =====
-- What the operations of vyomel/runtime/gate.py do to the rows of the actions: a gate that does not allow a
-- dispatch has taken the action out of READY, and every operation moves rows along the table.
use vyomel.Prelude.{
  ℕ, refl, Bool, List, [], ◌∷◌, Text, Option, none, some, arith, Bool-cases, inl, inr, any, not,
}
use vyomel.Core.Types.{
  cap_gt, ActionStatus, action_is_terminal, TaskStatus, Decision, allow, confirm, deny,
}
use vyomel.Core.Errors.{Result}
use vyomel.Core.Json.{Fields}
use vyomel.Runtime.State.{ActionTrigger, apply_action}
use vyomel.Runtime.Moves.{Moves, Moves-Composes, Moves-move, Keeps-Moves}
use vyomel.Security.Policy.{PolicyDecision, evaluate}
use vyomel.Security.Approvals.{Approval}
use vyomel.Store.{Db, Action, Task}
use vyomel.Store.Session.{Session, pure, given, ◌>>=◌, look, change}
use vyomel.Store.Session.Rules.{Keeps, Keeps-bind, Keeps-pure, Keeps-look, Keeps-given}
use vyomel.Store.Actions.{same_status, cas_status, get_action, list_actions}
use vyomel.Store.Actions.Rows.{
  Left, SameActions, SameActions-Composes, add_dead_letter-SameActions, insert_ledger-SameActions,
  Ends, cas_status-Left, Left-first, Left-rest,
}
use vyomel.Store.Tasks.{cas_task, get_task, same_task_status}
use vyomel.Runtime.Gate.{Env, note, request_of}
use vyomel.Runtime.Gate.Decide.{
  fail_ready_action, refuse_ceiling, refuse_policy, ask, spend, park, wait_for, spend_or_wait,
  require_approval, by_decision, check,
}
use vyomel.Runtime.Gate.Answer.{
  resume_found, resume_task, grant, fail_blocked, fail_found, fail_task_if_blocked, refuse,
  refuse_waiting, expire_one, expire_each, expire_overdue,
}

pub note-SameActions :
    (env : Env) (actor event : Text) (action : Action) (payload : Fields)
    → Keeps SameActions (note env actor event action payload)
unfolding note
note-SameActions env actor event action payload = record { kept = λ db a new e. ground arith }

pub change_approvals-SameActions :
    (f : Db → List Approval) → Keeps SameActions (change (λ db. record db { approvals = f db }))
change_approvals-SameActions f = record { kept = λ db a new e. ground arith }

pub cas_task-SameActions :
    (id : ℕ) (expected new : TaskStatus) (fields : Task → Task)
    → Keeps SameActions (cas_task id expected new fields)
unfolding cas_task
cas_task-SameActions id expected new fields = record { kept = λ db a new e. ground arith }

pub get_task-SameActions : (id : ℕ) → Keeps SameActions (get_task id)
unfolding get_task
get_task-SameActions id = record { kept = λ db a new e. ground arith }

pub list_actions-SameActions : (id : ℕ) → Keeps SameActions (list_actions id)
unfolding list_actions
list_actions-SameActions id = record { kept = λ db a new e. ground arith }

pub get_action-SameActions : (id : ℕ) → Keeps SameActions (get_action id)
unfolding get_action
get_action-SameActions id = record { kept = λ db a new e. ground arith }

pub same_bind {ℓ κ} :
    {A : Type ℓ} {B : Type κ} (m : Session B) (next : B → Session A)
    → Keeps SameActions m
    → ((b : B) → Keeps SameActions (next b))
    → Keeps SameActions (m >>= next)
same_bind m next = Keeps-bind SameActions SameActions-Composes m next

pub same_pure {ℓ} : {A : Type ℓ} (a : A) → Keeps SameActions (pure a)
same_pure a = Keeps-pure SameActions SameActions-Composes a

pub same_look {ℓ} : {A : Type ℓ} (f : Db → A) → Keeps SameActions (look f)
same_look f = Keeps-look SameActions SameActions-Composes f

pub same_given {ℓ} : {A : Type ℓ} (r : Result A) → Keeps SameActions (given r)
same_given r = Keeps-given SameActions SameActions-Composes r

pub ruleset same_actions = (
  same_bind, same_pure, same_look, same_given, note-SameActions, add_dead_letter-SameActions,
  insert_ledger-SameActions, change_approvals-SameActions, cas_task-SameActions,
  get_task-SameActions, list_actions-SameActions, get_action-SameActions,
)

pub Moves-bind {ℓ κ} :
    {A : Type ℓ} {B : Type κ} (m : Session B) (next : B → Session A)
    → Keeps Moves m
    → ((b : B) → Keeps Moves (next b))
    → Keeps Moves (m >>= next)
Moves-bind m next = Keeps-bind Moves Moves-Composes m next

pub same_then {ℓ κ} :
    {A : Type ℓ} {B : Type κ} (m : Session B) (next : B → Session A)
    → Keeps SameActions m
    → ((b : B) → Keeps Moves (next b))
    → Keeps Moves (m >>= next)
same_then m next h = Moves-bind m next (Keeps-Moves m h)

pub Moves-pure {ℓ} : {A : Type ℓ} (a : A) → Keeps Moves (pure a)
Moves-pure a = Keeps-Moves (pure a) (same_pure a)

pub ruleset moves = (same_then, Moves-pure, same_actions)

fail_ready_action-Moves :
    (env : Env) (action : Action) (message : Text)
    → Keeps Moves (fail_ready_action env action message)
unfolding fail_ready_action
fail_ready_action-Moves env action message =
    Moves-move _ _ _ _ _ (λ a. refl) (λ dest row. Keeps-Moves _ (search (same_actions)))

refuse_ceiling-Moves :
    (env : Env) (action : Action) (task : Task) → Keeps Moves (refuse_ceiling env action task)
unfolding refuse_ceiling
refuse_ceiling-Moves env action task =
    Moves-bind _ _ (fail_ready_action-Moves env action _)
      (λ u. Keeps-Moves _ (search (same_actions) depth 20))

refuse_policy-Moves :
    (env : Env) (action : Action) (d : PolicyDecision) → Keeps Moves (refuse_policy env action d)
unfolding refuse_policy
refuse_policy-Moves env action d =
    Moves-bind _ _ (fail_ready_action-Moves env action _)
      (λ u. Keeps-Moves _ (search (same_actions) depth 20))

ask-SameActions :
    (env : Env) (action : Action) (d : PolicyDecision) (existing : Option Approval)
    → Keeps SameActions (ask env action d existing)
unfolding ask
ask-SameActions env action d (some a) = search (same_actions) depth 20
ask-SameActions env action d none = search (same_actions) depth 20

pub park-SameActions :
    (env : Env) (action : Action) (d : PolicyDecision) (approval : Approval) (moved : Option Action)
    → Keeps SameActions (park env action d approval moved)
unfolding park
park-SameActions env action d approval none = search (same_actions) depth 20
park-SameActions env action d approval (some moved) = search (same_actions) depth 20

wait_move :
    (env : Env) (action : Action) (d : PolicyDecision) (approval : Approval)
    → Keeps Moves (
        given (apply_action ActionStatus.ready ActionTrigger.policy_confirm) >>= λ dest.
        cas_status action.id ActionStatus.ready dest (λ a. a) >>= λ moved.
        park env action d approval moved)
wait_move env action d approval =
    Moves-move _ _ _ _ _ (λ a. refl)
      (λ dest row. Keeps-Moves _ (park-SameActions env action d approval row))

wait_for-Moves :
    (env : Env) (action : Action) (d : PolicyDecision) → Keeps Moves (wait_for env action d)
unfolding wait_for
wait_for-Moves env action d = search (moves, ask-SameActions, wait_move) depth 20

spend-SameActions :
    (env : Env) (action : Action) (d : PolicyDecision) (usable : Approval)
    → Keeps SameActions (spend env action d usable)
unfolding spend
spend-SameActions env action d usable = search (same_actions) depth 20

spend_or_wait-Moves :
    (env : Env) (action : Action) (d : PolicyDecision) (usable : Option Approval)
    → Keeps Moves (spend_or_wait env action d usable)
unfolding spend_or_wait
spend_or_wait-Moves env action d (some usable) =
    Keeps-Moves _ (spend-SameActions env action d usable)
spend_or_wait-Moves env action d none = wait_for-Moves env action d

by_decision-Moves :
    (env : Env) (action : Action) (d : PolicyDecision) (decision : Decision)
    → Keeps Moves (by_decision env action d decision)
unfolding by_decision require_approval
by_decision-Moves env action d deny = refuse_policy-Moves env action d
by_decision-Moves env action d allow = Keeps-Moves _ (search (same_actions) depth 20)
by_decision-Moves env action d confirm = search (moves, spend_or_wait-Moves) depth 20

pub check-Moves : (env : Env) (action : Action) (task : Task) → Keeps Moves (check env action task)
unfolding check
check-Moves env action task =
    let asked = evaluate env.ext env.policy (request_of action task) env.today in
    let by : Keeps Moves (given asked >>= λ d. by_decision env action d d.decision) =
      same_then (given asked) _ (same_given asked)
        (λ d. by_decision-Moves env action d d.decision) in
    elim (Bool-cases (cap_gt action.capability_level task.capability_ceiling)) [
      | inl over ↦ rw over (refuse_ceiling-Moves env action task)
      | inr within ↦ rw within by
    ]

resume_found-SameActions : (found : Option Task) → Keeps SameActions (resume_found found)
resume_found-SameActions none = search (same_actions)
resume_found-SameActions (some task) =
    elim (Bool-cases (same_task_status task.status TaskStatus.waiting_for_user)) [
      | inl does ↦ rw does (search (same_actions) depth 20)
      | inr not_so ↦ rw not_so (search (same_actions))
    ]

pub resume_task-SameActions : (id : ℕ) → Keeps SameActions (resume_task id)
unfolding resume_task
resume_task-SameActions id = search (same_actions, resume_found-SameActions) depth 20

pub grant-Moves :
    (env : Env) (action : Action) (approval_id : ℕ) (decided_by : Text) (modified : Bool)
    → Keeps Moves (grant env action approval_id decided_by modified)
unfolding grant
grant-Moves env action approval_id decided_by modified =
    Moves-move _ _ _ _ _ (λ a. refl)
      (λ dest row. Keeps-Moves _ (search (same_actions, resume_task-SameActions) depth 20))

fail_blocked-SameActions :
    (env : Env) (message : Text) (task : Task) (actions : List Action)
    → Keeps SameActions (fail_blocked env message task actions)
fail_blocked-SameActions env message task actions =
    elim (Bool-cases (any (λ a. not (action_is_terminal a.status)) actions)) [
      | inl live ↦ rw live (search (same_actions))
      | inr ended ↦ rw ended (search (same_actions) depth 20)
    ]

fail_found-SameActions :
    (env : Env) (message : Text) (found : Option Task)
    → Keeps SameActions (fail_found env message found)
fail_found-SameActions env message none = search (same_actions)
fail_found-SameActions env message (some task) =
    elim (Bool-cases (same_task_status task.status TaskStatus.waiting_for_user)) [
      | inl does ↦ rw does (search (same_bind, list_actions-SameActions, fail_blocked-SameActions))
      | inr not_so ↦ rw not_so (search (same_actions))
    ]

pub fail_task_if_blocked-SameActions :
    (env : Env) (id : ℕ) (message : Text) → Keeps SameActions (fail_task_if_blocked env id message)
unfolding fail_task_if_blocked
fail_task_if_blocked-SameActions env id message =
    search (same_actions, fail_found-SameActions) depth 20

pub refuse-Moves :
    (env : Env) (action : Action) (approval_id : ℕ) (decided_by event message : Text)
    → Keeps Moves (refuse env action approval_id decided_by event message)
unfolding refuse
refuse-Moves env action approval_id decided_by event message =
    Moves-move _ _ _ _ _ (λ a. refl)
      (λ dest row. Keeps-Moves _ (search (same_actions, fail_task_if_blocked-SameActions) depth 20))

refuse_waiting-Moves :
    (env : Env) (approval : Approval) (found : Option Action)
    → Keeps Moves (refuse_waiting env approval found)
refuse_waiting-Moves env approval none = Keeps-Moves _ (search (same_actions))
refuse_waiting-Moves env approval (some action) =
    elim (Bool-cases (same_status action.status ActionStatus.waiting_for_user)) [
      | inl does ↦ rw does (refuse-Moves env action approval.id [] _ _)
      | inr not_so ↦ rw not_so (Keeps-Moves _ (search (same_actions)))
    ]

expire_one-Moves : (env : Env) (approval : Approval) → Keeps Moves (expire_one env approval)
unfolding expire_one
expire_one-Moves env approval = search (moves, refuse_waiting-Moves) depth 20

expire_each-Moves : (env : Env) (due : List Approval) → Keeps Moves (expire_each env due)
unfolding expire_each
expire_each-Moves env [] = Keeps-Moves _ (search (same_actions))
expire_each-Moves env (approval ∷ due) =
    Moves-bind (expire_one env approval) _ (expire_one-Moves env approval) (λ u.
      Moves-bind (expire_each env due) (λ rest. pure (approval.id ∷ rest))
        (expire_each-Moves env due) (λ rest. Moves-pure _))

pub expire_overdue-Moves : (env : Env) → Keeps Moves (expire_overdue env)
unfolding expire_overdue
expire_overdue-Moves env = search (moves, expire_each-Moves) depth 20
