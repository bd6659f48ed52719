-- ===== src/Runtime/State/Table.antt =====
-- Which triggers the state machines of runtime/state.py accept, and where they lead.
use vyomel.Prelude.{◌≡◌, ◌↔◌, true, arith, if◌then◌else◌}
use vyomel.Core.Errors.{VyomelError, ok, err, raise_class, illegal_transition_error}
use vyomel.Core.Types.{
  ActionStatus, TaskStatus, task_status_eq, action_is_terminal, task_is_terminal,
}
use vyomel.Runtime.State.{
  ActionTrigger, TaskTrigger, task_transitions, task_trigger_eq, has_row, apply_action, apply_task,
  action_allowed,
}

-- A trigger is accepted in an action's status, with a destination, exactly when `action_allowed`
-- finds that row.
pub action_table_exact :
    (s d : ActionStatus) (t : ActionTrigger)
    → (apply_action s t ≡ ok d) ↔ (action_allowed s d t ≡ true)
unfolding apply_action action_allowed
action_table_exact s d t = ground arith

-- A trigger is accepted in a task's status, with a destination, exactly when the table has that
-- row.
pub task_table_exact :
    (s d : TaskStatus) (t : TaskTrigger)
    → (apply_task s t ≡ ok d) ↔ (has_row s d t task_transitions ≡ true)
unfolding apply_task
task_table_exact s d t = ground arith

-- The index is built without an ambiguity, so the only error is the illegal transition.
pub apply_action_error :
    (s : ActionStatus) (t : ActionTrigger) (e : VyomelError)
    → apply_action s t ≡ err e
    → e ≡ raise_class illegal_transition_error
unfolding apply_action
apply_action_error s t e h = ground arith

-- A terminal action accepts nothing, but for the compensation of a succeeded one, which rolls it
-- back.
pub terminal_action_final :
    (s d : ActionStatus) (t : ActionTrigger)
    → action_is_terminal s ≡ true
    → apply_action s t ≡ ok d
    → (s ≡ ActionStatus.succeeded)
      × (t ≡ ActionTrigger.compensated)
      × (d ≡ ActionStatus.rolled_back)
unfolding apply_action
terminal_action_final s d t h k = ground arith

-- A terminal task accepts no trigger, and raises the illegal transition.
pub terminal_task_final :
    (s : TaskStatus) (t : TaskTrigger)
    → task_is_terminal s ≡ true
    → apply_task s t ≡ err (raise_class illegal_transition_error)
unfolding apply_task
terminal_task_final s t h = ground arith

-- Cancelling is accepted in every status that is not terminal, and in no other.
pub cancel_action_exact :
    (s : ActionStatus)
    → apply_action s ActionTrigger.task_cancelled ≡ (
        if action_is_terminal s
        then err (raise_class illegal_transition_error)
        else ok ActionStatus.cancelled)
unfolding apply_action
cancel_action_exact s = ground arith

pub cancel_task_exact :
    (s : TaskStatus)
    → apply_task s TaskTrigger.cancelled ≡ (
        if task_is_terminal s
        then err (raise_class illegal_transition_error)
        else ok TaskStatus.cancelled)
unfolding apply_task
cancel_task_exact s = ground arith
