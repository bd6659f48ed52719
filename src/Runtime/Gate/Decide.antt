-- ===== src/Runtime/Gate/Decide.antt =====
-- `PolicyGate.check` of vyomel/runtime/gate.py.
pub mod Allowed
use vyomel.Prelude.{
  ℕ, ◌*◌, Bool, true, false, Option, none, some, List, [], ◌∷◌, ◌++◌, Text, codes, if◌then◌else◌,
}
use vyomel.Core.Types.{Capability, cap_gt, ActionStatus, Decision, allow, confirm, deny}
use vyomel.Core.Errors.{Result, ok, err, ErrorCode, permission_denied, code_value}
use vyomel.Core.Json.{Value, Fields}
use vyomel.Runtime.State.{ActionTrigger, apply_action}
use vyomel.Security.Policy.{PolicyDecision, evaluate, level_value}
use vyomel.Security.Approvals.{
  Approval, ApprovalRequest, usable_for, consume, save, pending_for, create,
}
use vyomel.Store.{Db, Task, Action}
use vyomel.Store.Session.{Session, pure, given, ◌>>=◌, ◌>>◌, look, change}
use vyomel.Store.Actions.{cas_status, add_dead_letter}
use vyomel.Runtime.Gate.{
  Env, GateVerdict, parameter_hash, decision_payload, request_of, note, refusal, with_tool,
}

-- `_fail_ready_action`
unfoldable pub fail_ready_action : Env → Action → Text → Session (Unit {0})
fail_ready_action env action message = do
  dest ← given (apply_action ActionStatus.ready ActionTrigger.policy_deny)
  _ ← cas_status action.id ActionStatus.ready dest (λ a. record a {
    finished_at = some env.now;
    lease_owner = none;
    lease_until = none;
    error = some (refusal permission_denied message);
  })
  add_dead_letter action.id (code_value permission_denied)

unfoldable pub refuse_ceiling : Env → Action → Task → Session GateVerdict
refuse_ceiling env action task = do
  let message =
      codes "action requires "
      ++ level_value action.capability_level
      ++ codes " but the task ceiling is "
      ++ level_value task.capability_ceiling
  fail_ready_action env action message
  note env (codes "policy") (codes "policy.ceiling_exceeded") action (
      with_tool action (
        Fields.field (codes "required") (Value.str (level_value action.capability_level)) (
          Fields.field (codes "ceiling") (Value.str (level_value task.capability_ceiling))
            Fields.end)))
  pure (record { allowed = false; reason = message; decision = none; approval_id = none })

unfoldable pub refuse_policy : Env → Action → PolicyDecision → Session GateVerdict
refuse_policy env action d = do
  let message = codes "policy rule " ++ d.rule_id ++ codes " denied this action: " ++ d.reason
  fail_ready_action env action message
  note env (codes "policy") (codes "policy.denied") action (with_tool action (decision_payload d))
  pure (record { allowed = false; reason = message; decision = some d; approval_id = none })

-- the approval that waits already, or a new one
unfoldable pub ask : Env → Action → PolicyDecision → Option Approval → Session Approval
ask env action d (some a) = pure a
ask env action d none = do
  rows ← look (λ db. db.approvals)
  let (a, more) =
      create env.now (env.ttl_s * 1000000) (env.new_id rows)
        (record {
          action_id = action.id;
          task_id = action.task_id;
          capability_level = action.capability_level;
          parameter_hash = parameter_hash env action.parameters;
          policy_rule_id = some d.rule_id;
          policy_hash = some d.policy_hash;
        })
        rows
  change (λ db. record db { approvals = more })
  pure a

unfoldable pub spend : Env → Action → PolicyDecision → Approval → Session GateVerdict
spend env action d usable = do
  used ← given (consume env.now usable)
  change (λ db. record db { approvals = save used db.approvals })
  note env (codes "policy") (codes "approval.consumed") action
      (Fields.field (codes "approval_id") (Value.str (env.ulid usable.id)) (decision_payload d))
  pure (record {
    allowed = true;
    reason = codes "covered by a decided approval";
    decision = some d;
    approval_id = some usable.id;
  })

unfoldable pub park : Env → Action → PolicyDecision → Approval → Option Action → Session GateVerdict
park env action d approval none = pure (record {
  allowed = false;
  reason = codes "action left READY concurrently";
  decision = none;
  approval_id = none;
})
park env action d approval (some moved) = do
  note env (codes "policy") (codes "policy.confirm_required") action (
      Fields.field (codes "approval_id") (Value.str (env.ulid approval.id))
        (with_tool action (decision_payload d)))
  note env (codes "policy") (codes "approval.requested") action
      (Fields.field (codes "approval_id") (Value.str (env.ulid approval.id)) Fields.end)
  pure (record {
    allowed = false;
    reason = codes "awaiting approval " ++ env.ulid approval.id;
    decision = some d;
    approval_id = some approval.id;
  })

unfoldable pub wait_for : Env → Action → PolicyDecision → Session GateVerdict
wait_for env action d = do
  rows ← look (λ db. db.approvals)
  existing ← given (pending_for action.id rows)
  approval ← ask env action d existing
  dest ← given (apply_action ActionStatus.ready ActionTrigger.policy_confirm)
  moved ← cas_status action.id ActionStatus.ready dest (λ a. a)
  park env action d approval moved

-- `_require_approval`
unfoldable pub spend_or_wait : Env → Action → PolicyDecision → Option Approval → Session GateVerdict
spend_or_wait env action d (some usable) = spend env action d usable
spend_or_wait env action d none = wait_for env action d

unfoldable pub require_approval : Env → Action → PolicyDecision → Session GateVerdict
require_approval env action d = do
  rows ← look (λ db. db.approvals)
  spend_or_wait env action d (
      usable_for action.id (parameter_hash env action.parameters) action.capability_level env.now
        rows)

unfoldable pub by_decision : Env → Action → PolicyDecision → Decision → Session GateVerdict
by_decision env action d deny = refuse_policy env action d
by_decision env action d allow = do
  note env (codes "policy") (codes "policy.allowed") action (with_tool action (decision_payload d))
  pure (record { allowed = true; reason = d.reason; decision = some d; approval_id = none })
by_decision env action d confirm = require_approval env action d

unfoldable pub check : Env → Action → Task → Session GateVerdict
check env action task =
    if cap_gt action.capability_level task.capability_ceiling
    then refuse_ceiling env action task
    else (do
      d ← given (evaluate env.ext env.policy (request_of action task) env.today)
      by_decision env action d d.decision)
