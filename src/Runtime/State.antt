-- ===== src/Runtime/State.antt =====
-- vyomel/runtime/state.py: the state machines of actions and tasks, as tables of transitions.
pub mod Table
pub mod Steps
pub mod Traces
mod Examples
use vyomel.Prelude.{
  ℕ, ◌≡◌, Bool, true, false, not, Option, none, some, List, [], ◌∷◌, ◌++◌, map, select, eqb, Eq,
  ◌==◌, ◌&&◌, if◌then◌else◌, contains, ◌↔◌, arith,
}
use vyomel.Core.Types.{
  ActionStatus, TaskStatus, action_is_terminal, task_is_terminal, action_status_eq, task_status_eq,
}
use vyomel.Core.Errors.{
  Result, ok, err, ◌>>=◌, raise_class, illegal_transition_error, runtime_error,
}

pub data ActionTrigger : Type 0 where
  dependencies_satisfied task_cancelled policy_confirm policy_deny enqueued : ActionTrigger
  approval_granted approval_rejected worker_claimed lease_expired : ActionTrigger
  verification_pass verification_no_method tool_failed_terminal : ActionTrigger
  tool_failed_retryable compensated : ActionTrigger

pub data TaskTrigger : Type 0 where
  plan_requested plan_invalid plan_validated first_dispatch approval_needed : TaskTrigger
  approval_granted approval_rejected paused resumed replan_exhausted : TaskTrigger
  all_succeeded required_failed cancelled deadline human_replied : TaskTrigger

abbrev pub action_trigger_index : ActionTrigger → ℕ
action_trigger_index dependencies_satisfied = 0
action_trigger_index task_cancelled = 1
action_trigger_index policy_confirm = 2
action_trigger_index policy_deny = 3
action_trigger_index enqueued = 4
action_trigger_index approval_granted = 5
action_trigger_index approval_rejected = 6
action_trigger_index worker_claimed = 7
action_trigger_index lease_expired = 8
action_trigger_index verification_pass = 9
action_trigger_index verification_no_method = 10
action_trigger_index tool_failed_terminal = 11
action_trigger_index tool_failed_retryable = 12
action_trigger_index compensated = 13

abbrev pub task_trigger_index : TaskTrigger → ℕ
task_trigger_index plan_requested = 0
task_trigger_index plan_invalid = 1
task_trigger_index plan_validated = 2
task_trigger_index first_dispatch = 3
task_trigger_index approval_needed = 4
task_trigger_index approval_granted = 5
task_trigger_index approval_rejected = 6
task_trigger_index paused = 7
task_trigger_index resumed = 8
task_trigger_index replan_exhausted = 9
task_trigger_index all_succeeded = 10
task_trigger_index required_failed = 11
task_trigger_index cancelled = 12
task_trigger_index deadline = 13
task_trigger_index human_replied = 14

pub action_trigger_eqb_iff :
    (a b : ActionTrigger) → (eqb (action_trigger_index a) (action_trigger_index b) ≡ true) ↔ (a ≡ b)
action_trigger_eqb_iff a b = ground arith

pub task_trigger_eqb_iff :
    (a b : TaskTrigger) → (eqb (task_trigger_index a) (task_trigger_index b) ≡ true) ↔ (a ≡ b)
task_trigger_eqb_iff a b = ground arith

instance abbrev pub action_trigger_eq : Eq ActionTrigger
action_trigger_eq = record {
  beq = λ a b. eqb (action_trigger_index a) (action_trigger_index b);
  beq_iff = action_trigger_eqb_iff;
}

instance abbrev pub task_trigger_eq : Eq TaskTrigger
task_trigger_eq = record {
  beq = λ a b. eqb (task_trigger_index a) (task_trigger_index b);
  beq_iff = task_trigger_eqb_iff;
}

-- A row is (source, dest, trigger).
abbrev pub Row : Type 0 → Type 0 → Type 0
Row S T = S × S × T

abbrev action_statuses : List ActionStatus
action_statuses =
    ActionStatus.planned ∷ ActionStatus.ready ∷ ActionStatus.dispatched ∷ ActionStatus.running
    ∷ ActionStatus.waiting_for_user ∷ ActionStatus.succeeded ∷ ActionStatus.unverified
    ∷ ActionStatus.failed ∷ ActionStatus.rolled_back ∷ ActionStatus.cancelled ∷ []

abbrev task_statuses : List TaskStatus
task_statuses =
    TaskStatus.created ∷ TaskStatus.planning ∷ TaskStatus.ready ∷ TaskStatus.running
    ∷ TaskStatus.waiting_for_user ∷ TaskStatus.paused ∷ TaskStatus.succeeded ∷ TaskStatus.failed
    ∷ TaskStatus.cancelled ∷ TaskStatus.needs_human ∷ []

-- `ACTION_TRANSITIONS`. The source's set has no order; the rows are listed as they are written.
abbrev pub action_transitions : List (Row ActionStatus ActionTrigger)
action_transitions =
    ((ActionStatus.planned, ActionStatus.ready, ActionTrigger.dependencies_satisfied)
      ∷ (ActionStatus.ready, ActionStatus.waiting_for_user, ActionTrigger.policy_confirm)
      ∷ (ActionStatus.ready, ActionStatus.failed, ActionTrigger.policy_deny)
      ∷ (ActionStatus.ready, ActionStatus.dispatched, ActionTrigger.enqueued)
      ∷ (ActionStatus.waiting_for_user, ActionStatus.ready, ActionTrigger.approval_granted)
      ∷ (ActionStatus.waiting_for_user, ActionStatus.failed, ActionTrigger.approval_rejected)
      ∷ (ActionStatus.dispatched, ActionStatus.running, ActionTrigger.worker_claimed)
      ∷ (ActionStatus.dispatched, ActionStatus.ready, ActionTrigger.lease_expired)
      ∷ (ActionStatus.running, ActionStatus.succeeded, ActionTrigger.verification_pass)
      ∷ (ActionStatus.running, ActionStatus.unverified, ActionTrigger.verification_no_method)
      ∷ (ActionStatus.running, ActionStatus.failed, ActionTrigger.tool_failed_terminal)
      ∷ (ActionStatus.running, ActionStatus.ready, ActionTrigger.tool_failed_retryable)
      ∷ (ActionStatus.running, ActionStatus.ready, ActionTrigger.lease_expired)
      ∷ (ActionStatus.succeeded, ActionStatus.rolled_back, ActionTrigger.compensated)
      ∷ [])
    ++ map (λ s. (s, ActionStatus.cancelled, ActionTrigger.task_cancelled))
        (select (λ s. not (action_is_terminal s)) action_statuses)

-- `TASK_TRANSITIONS`
abbrev pub task_transitions : List (Row TaskStatus TaskTrigger)
task_transitions =
    ((TaskStatus.created, TaskStatus.planning, TaskTrigger.plan_requested)
      ∷ (TaskStatus.planning, TaskStatus.failed, TaskTrigger.plan_invalid)
      ∷ (TaskStatus.planning, TaskStatus.ready, TaskTrigger.plan_validated)
      ∷ (TaskStatus.ready, TaskStatus.running, TaskTrigger.first_dispatch)
      ∷ (TaskStatus.running, TaskStatus.waiting_for_user, TaskTrigger.approval_needed)
      ∷ (TaskStatus.waiting_for_user, TaskStatus.running, TaskTrigger.approval_granted)
      ∷ (TaskStatus.waiting_for_user, TaskStatus.failed, TaskTrigger.approval_rejected)
      ∷ (TaskStatus.running, TaskStatus.paused, TaskTrigger.paused)
      ∷ (TaskStatus.paused, TaskStatus.running, TaskTrigger.resumed)
      ∷ (TaskStatus.running, TaskStatus.needs_human, TaskTrigger.replan_exhausted)
      ∷ (TaskStatus.needs_human, TaskStatus.running, TaskTrigger.human_replied)
      ∷ (TaskStatus.running, TaskStatus.succeeded, TaskTrigger.all_succeeded)
      ∷ (TaskStatus.running, TaskStatus.failed, TaskTrigger.required_failed)
      ∷ (TaskStatus.running, TaskStatus.failed, TaskTrigger.deadline)
      ∷ (TaskStatus.ready, TaskStatus.failed, TaskTrigger.deadline)
      ∷ [])
    ++ map (λ s. (s, TaskStatus.cancelled, TaskTrigger.cancelled))
        (select (λ s. not (task_is_terminal s)) task_statuses)

module _ {S T : Type 0} ⦃se : Eq S⦄ ⦃te : Eq T⦄ where
  -- `dict.get` on a dictionary with keys (source, trigger)
  abbrev pub dest_of : S → T → List (Row S T) → Option S
  dest_of s t [] = none
  dest_of s t ((source, dest, trigger) ∷ rest) =
      if source == s && trigger == t then some dest else dest_of s t rest

  -- The loop of `_index`; the dictionary is kept as rows, one to a key.
  unfoldable pub index_from : List (Row S T) → List (Row S T) → Result (List (Row S T))
  index_from indexed [] = ok indexed
  index_from indexed ((source, dest, trigger) ∷ rest) = elim (dest_of source trigger indexed) [
    | none ↦ index_from ((source, dest, trigger) ∷ indexed) rest
    | some existing ↦
        if existing == dest
        then index_from ((source, dest, trigger) ∷ indexed) rest
        else err (raise_class runtime_error)
  ]

  unfoldable pub index : List (Row S T) → Result (List (Row S T))
  unfolding index_from
  index rows = index_from [] rows

  -- `(source, dest, trigger) in TRANSITIONS`
  abbrev pub has_row : S → S → T → List (Row S T) → Bool
  has_row s d t [] = false
  has_row s d t ((source, dest, trigger) ∷ rest) =
      if source == s && dest == d && trigger == t then true else has_row s d t rest

  -- `_INDEX.get((current, trigger))`, with the error that is raised on a missing key
  unfoldable pub look_up : S → T → List (Row S T) → Result S
  look_up current trigger indexed = elim (dest_of current trigger indexed) [
    | none ↦ err (raise_class illegal_transition_error)
    | some dest ↦ ok dest
  ]

unfoldable pub apply_action : ActionStatus → ActionTrigger → Result ActionStatus
unfolding index look_up
apply_action current trigger = do
  indexed ← index action_transitions
  look_up current trigger indexed

unfoldable pub apply_task : TaskStatus → TaskTrigger → Result TaskStatus
unfolding index look_up
apply_task current trigger = do indexed ← index task_transitions; look_up current trigger indexed

unfoldable pub action_allowed : ActionStatus → ActionStatus → ActionTrigger → Bool
action_allowed source dest trigger = has_row source dest trigger action_transitions
