-- ===== src/Runtime/State/Examples.antt =====
-- Runs of the action state machine, and its theorems at concrete inputs.
use vyomel.Prelude.{◌≡◌, refl, ◌↔◌, List, [], ◌∷◌}
use vyomel.Core.Errors.{ok}
use vyomel.Core.Types.{ActionStatus}
use vyomel.Runtime.State.{ActionTrigger, apply_action}
use vyomel.Runtime.State.Steps.{ActionStep, apply_action_steps}
use vyomel.Runtime.State.Traces.{Within, run_action, success_history}

-- One retry, then an approval, then success.
abbrev bumpy : List ActionTrigger
bumpy =
    ActionTrigger.dependencies_satisfied ∷ ActionTrigger.policy_confirm
    ∷ ActionTrigger.approval_granted ∷ ActionTrigger.enqueued ∷ ActionTrigger.worker_claimed
    ∷ ActionTrigger.tool_failed_retryable ∷ ActionTrigger.enqueued ∷ ActionTrigger.worker_claimed
    ∷ ActionTrigger.verification_pass ∷ []

success_history_example :
    Within
      (ActionTrigger.dependencies_satisfied ∷ ActionTrigger.enqueued ∷ ActionTrigger.worker_claimed
        ∷ ActionTrigger.verification_pass ∷ [])
      bumpy
unfolding run_action apply_action
success_history_example = success_history bumpy refl

apply_action_steps_example :
    (apply_action ActionStatus.running ActionTrigger.lease_expired ≡ ok ActionStatus.ready)
    ↔ ActionStep ActionStatus.running ActionStatus.ready ActionTrigger.lease_expired
apply_action_steps_example =
    apply_action_steps ActionStatus.running ActionStatus.ready ActionTrigger.lease_expired
