-- ===== src/Runtime/State/Steps.antt =====
-- The life of an action as a relation: what docs/07-EXECUTION-ENGINE.md draws as a diagram.
use vyomel.Prelude.{◌≡◌, refl, ◌↔◌, false, arith}
use vyomel.Core.Errors.{ok}
use vyomel.Core.Types.{ActionStatus, action_is_terminal}
use vyomel.Runtime.State.{ActionTrigger, apply_action}

pub data ActionStep : ActionStatus → ActionStatus → ActionTrigger → Type 0 where
  promote : ActionStep ActionStatus.planned ActionStatus.ready ActionTrigger.dependencies_satisfied
  gate : ActionStep ActionStatus.ready ActionStatus.waiting_for_user ActionTrigger.policy_confirm
  refuse : ActionStep ActionStatus.ready ActionStatus.failed ActionTrigger.policy_deny
  dispatch : ActionStep ActionStatus.ready ActionStatus.dispatched ActionTrigger.enqueued
  grant : ActionStep ActionStatus.waiting_for_user ActionStatus.ready ActionTrigger.approval_granted
  reject :
      ActionStep ActionStatus.waiting_for_user ActionStatus.failed ActionTrigger.approval_rejected
  claim : ActionStep ActionStatus.dispatched ActionStatus.running ActionTrigger.worker_claimed
  unclaimed : ActionStep ActionStatus.dispatched ActionStatus.ready ActionTrigger.lease_expired
  pass : ActionStep ActionStatus.running ActionStatus.succeeded ActionTrigger.verification_pass
  unproven :
      ActionStep ActionStatus.running ActionStatus.unverified ActionTrigger.verification_no_method
  fail : ActionStep ActionStatus.running ActionStatus.failed ActionTrigger.tool_failed_terminal
  retry : ActionStep ActionStatus.running ActionStatus.ready ActionTrigger.tool_failed_retryable
  reap : ActionStep ActionStatus.running ActionStatus.ready ActionTrigger.lease_expired
  undo : ActionStep ActionStatus.succeeded ActionStatus.rolled_back ActionTrigger.compensated
  drop :
      {s : ActionStatus}
      → action_is_terminal s ≡ false
      → ActionStep s ActionStatus.cancelled ActionTrigger.task_cancelled

ruleset steps = (
  promote, gate, refuse, dispatch, grant, reject, claim, unclaimed, pass, unproven, fail, retry,
  reap, undo, drop,
)

pub step_of_apply :
    (s d : ActionStatus) (t : ActionTrigger) → apply_action s t ≡ ok d → ActionStep s d t
unfolding apply_action
step_of_apply s d t h = grind (arith, steps)

pub apply_of_step :
    {s d : ActionStatus} {t : ActionTrigger} → ActionStep s d t → apply_action s t ≡ ok d
unfolding apply_action
apply_of_step promote = refl
apply_of_step gate = refl
apply_of_step refuse = refl
apply_of_step dispatch = refl
apply_of_step grant = refl
apply_of_step reject = refl
apply_of_step claim = refl
apply_of_step unclaimed = refl
apply_of_step pass = refl
apply_of_step unproven = refl
apply_of_step fail = refl
apply_of_step retry = refl
apply_of_step reap = refl
apply_of_step undo = refl
apply_of_step (drop {s = ActionStatus.planned} h) = refl
apply_of_step (drop {s = ActionStatus.ready} h) = refl
apply_of_step (drop {s = ActionStatus.dispatched} h) = refl
apply_of_step (drop {s = ActionStatus.running} h) = refl
apply_of_step (drop {s = ActionStatus.waiting_for_user} h) = refl
apply_of_step (drop {s = _} h) = cc

-- `apply_action` accepts a trigger, with a destination, exactly when the diagram has that edge.
pub apply_action_steps :
    (s d : ActionStatus) (t : ActionTrigger) → (apply_action s t ≡ ok d) ↔ ActionStep s d t
apply_action_steps s d t = (step_of_apply s d t, apply_of_step)
