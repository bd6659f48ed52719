-- ===== src/Runtime/Cancel.antt =====
-- vyomel/runtime/cancel.py: what a cancellation does to the actions of its task, and the compensation of what
-- has succeeded, in reverse order of the plan. The compensation of one action by its tool is a parameter. The
-- wait for the workers, after which the compensation runs once more, and the logs are left out.
pub mod Report
pub mod Dropped
pub mod Closed
use vyomel.Prelude.{
  ℕ, Bool, true, false, not, ◌&&◌, ◌||◌, Option, none, some, List, [], ◌∷◌, ◌++◌, map, Text, codes,
  eqb, all, any, select, find_first, if◌then◌else◌,
}
use vyomel.Core.Types.{ActionStatus, TaskStatus, task_is_terminal, StepStatus}
use vyomel.Core.Errors.{Result, ok, err, raise_class, key_error, not_found_error, conflict_error}
use vyomel.Core.Json.{Value, Fields}
use vyomel.Runtime.State.{ActionTrigger, apply_action, TaskTrigger, apply_task}
use vyomel.Runtime.Dag.{ActionNode}
use vyomel.Runtime.Dag.Kahn.{reverse_topo}
use vyomel.Security.Audit.{append}
use vyomel.Store.{Db, Task, Step, Action}
use vyomel.Store.Session.{Session, pure, raise, given, ◌>>=◌, ◌>>◌, look, change}
use vyomel.Store.Actions.{same_status, list_actions, cas_status}
use vyomel.Store.Tasks.{same_task_status, get_task, cas_task, list_steps, set_step_status}
use vyomel.Runtime.Gate.{Env, note, with_tool}

-- `CancelReport`, by identifiers, without the status of the task and what is still running
pub record CancelReport : Type 0 where
  pub compensated : List ℕ
  pub irreversible : List ℕ
  pub failed : List ℕ

pub record CancelEnv : Type 0 where
  pub env : Env
  -- `_compensate_one`, by whether it raises
  pub compensates : Action → Bool
  -- `report.as_payload()`, with what it says of each action
  pub payload : CancelReport → Fields

-- `_CANCEL_NOW`
abbrev pub cancel_now : ActionStatus → Bool
cancel_now ActionStatus.planned = true
cancel_now ActionStatus.ready = true
cancel_now ActionStatus.dispatched = true
cancel_now ActionStatus.waiting_for_user = true
cancel_now _ = false

unfoldable pub drop_one : Env → Action → Session (Unit {0})
drop_one env action =
    if cancel_now action.status
    then (do
      dest ← given (apply_action action.status ActionTrigger.task_cancelled)
      _ ←
          cas_status action.id action.status dest
            (λ a. record a { finished_at = some env.now; lease_owner = none; lease_until = none })
      pure tt)
    else pure tt

-- the loop over the actions that have not started
unfoldable pub drop_pending : Env → List Action → Session (Unit {0})
unfolding drop_one
drop_pending env [] = pure tt
drop_pending env (action ∷ actions) = do drop_one env action; drop_pending env actions

-- a task that is not there any more, or ended otherwise, after a lost race
abbrev pub lost_to : Option Task → Session Bool
lost_to none = raise (raise_class not_found_error)
lost_to (some task) =
    if same_task_status task.status TaskStatus.cancelled
    then pure false
    else raise (raise_class conflict_error)

abbrev pub drop_if_moved : Env → ℕ → List Action → Option Task → Session Bool
drop_if_moved env task_id actions none = do found ← get_task task_id; lost_to found
drop_if_moved env task_id actions (some task) = do drop_pending env actions; pure true

abbrev pub begin_found : Env → Option Task → Session Bool
begin_found env none = raise (raise_class not_found_error)
begin_found env (some task) = do
  actions ← list_actions task.id
  if same_task_status task.status TaskStatus.cancelled
      then pure false
      else if task_is_terminal task.status
      then raise (raise_class conflict_error)
      else (do
        dest ← given (apply_task task.status TaskTrigger.cancelled)
        moved ← cas_task task.id task.status dest (λ t. record t { finished_at = some env.now })
        drop_if_moved env task.id actions moved)

-- `cancel` up to its commit: whether there is something to compensate
unfoldable pub begin_cancel : Env → ℕ → Session Bool
unfolding drop_pending
begin_cancel env task_id = do found ← get_task task_id; begin_found env found

abbrev pub nodes_of : List Action → List ActionNode
nodes_of actions =
    map
      (λ (a : Action). record {
        id = a.id;
        status = a.status;
        depends_on = a.depends_on;
        step_id = a.step_id;
        tolerates_unverified = false;
      })
      actions

-- `by_id[id]`: of several with one identifier the last counts
abbrev pub by_id : ℕ → List Action → Option Action
by_id id [] = none
by_id id (a ∷ actions) = elim (by_id id actions) [
  | some b ↦ some b
  | none ↦ if eqb a.id id then some a else none
]

abbrev pub is_done : Action → Bool
is_done a = same_status a.status ActionStatus.succeeded

unfoldable pub undo : CancelEnv → Text → Action → Session (Unit {0})
undo c actor action = do
  dest ← given (apply_action ActionStatus.succeeded ActionTrigger.compensated)
  _ ←
      cas_status action.id ActionStatus.succeeded dest
        (λ a. record a { finished_at = some c.env.now })
  note c.env actor (codes "action.compensated") action (with_tool action Fields.end)

-- one round of the compensation: what it finds, and what it adds to the report
pub data Round : Type 0 where
  passed_over left_in_place broke undone : Round

unfoldable pub round_of : CancelEnv → Action → Round
round_of c action =
    if not (is_done action)
    then passed_over
    else if not action.reversible
    then left_in_place
    else if c.compensates action
    then undone
    else broke

abbrev pub reported : Action → CancelReport → Round → CancelReport
reported action report passed_over = report
reported action report left_in_place = record report {
  irreversible = report.irreversible ++ action.id ∷ [];
}
reported action report broke = record report { failed = report.failed ++ action.id ∷ [] }
reported action report undone = record report { compensated = report.compensated ++ action.id ∷ [] }

abbrev pub do_round : CancelEnv → Text → Action → Round → Session (Unit {0})
do_round c actor action undone = undo c actor action
do_round c actor action _ = pure tt

-- `self.by_id[action_id]` raises where it is missing
abbrev pub found_action : Option Action → Result Action
found_action none = err (raise_class key_error)
found_action (some a) = ok a

-- the loop over the order
unfoldable pub compensate_each :
    CancelEnv → Text → List Action → List ℕ → CancelReport → Session CancelReport
unfolding undo round_of
compensate_each c actor actions [] report = pure report
compensate_each c actor actions (id ∷ order) report = do
  action ← given (found_action (by_id id actions))
  do_round c actor action (round_of c action)
  compensate_each c actor actions order (reported action report (round_of c action))

-- `_compensate_succeeded`
unfoldable pub compensate_succeeded : CancelEnv → Text → List Action → Session CancelReport
unfolding compensate_each
compensate_succeeded c actor actions = do
  order ← given (reverse_topo (nodes_of actions))
  compensate_each c actor actions order
      (record { compensated = []; irreversible = []; failed = [] })

-- `_sync_cancelled_steps`
abbrev pub is_dropped : ActionStatus → Bool
is_dropped ActionStatus.cancelled = true
is_dropped ActionStatus.rolled_back = true
is_dropped _ = false

abbrev pub all_dropped : List Action → Bool
all_dropped [] = false
all_dropped (a ∷ group) = all (λ b. is_dropped b.status) (a ∷ group)

abbrev pub skip_step : Step → Bool → Session (Unit {0})
skip_step s true = set_step_status s.id StepStatus.skipped
skip_step s false = pure tt

unfoldable pub sync_cancelled_steps : List Step → List Action → Session (Unit {0})
sync_cancelled_steps [] actions = pure tt
sync_cancelled_steps (s ∷ steps) actions = do
  skip_step s (all_dropped (select (λ a. eqb a.step_id s.id) actions))
  sync_cancelled_steps steps actions

-- `audit.append` about the task
unfoldable pub note_task : CancelEnv → Text → ℕ → Fields → Session (Unit {0})
note_task c actor task_id payload db =
    let (r, trail) =
      append c.env.hashing c.env.scrubbing c.env.secrets c.env.now actor (codes "task.cancelled")
        (some (c.env.ulid task_id)) none none payload db.trail in
    ok (tt, record db { trail = trail })

-- the rest of `cancel` after its commit, where what succeeded is compensated, without the wait for the
-- workers
unfoldable pub finish_cancel : CancelEnv → Text → ℕ → Session CancelReport
unfolding compensate_succeeded sync_cancelled_steps note_task
finish_cancel c actor task_id = do
  steps ← list_steps task_id
  actions ← list_actions task_id
  report ← compensate_succeeded c actor actions
  after_actions ← list_actions task_id
  sync_cancelled_steps steps after_actions
  note_task c actor task_id (c.payload report)
  pure report
