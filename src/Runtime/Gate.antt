-- ===== src/Runtime/Gate.antt =====
-- vyomel/runtime/gate.py: what stands between READY and DISPATCHED. The clock is read once for a call.
-- What an approval shows the user (summary, presented, blast radius) and the metrics are left out.
pub mod Decide
pub mod Answer
pub mod Kept
pub mod Refused
use vyomel.Prelude.{ℕ, Bool, true, false, Option, none, some, List, [], ◌∷◌, ◌++◌, Text, codes}
use vyomel.Core.Types.{Capability, ActionStatus, Decision, allow, confirm, deny}
use vyomel.Core.Errors.{ErrorCode, code_value, ok}
use vyomel.Core.Json.{ℤ, Value, Fields, get}
use vyomel.Core.Redact.{Scrubbing}
use vyomel.Security.External.{External}
use vyomel.Security.Policy.{Policy, PolicyDecision, PolicyRequest, level_value}
use vyomel.Security.Approvals.{Approval}
use vyomel.Security.Audit.{Hashing, append, content_hash}
use vyomel.Store.{Db, Task, Action, ErrorInfo}
use vyomel.Store.Session.{Session}

-- What the gate is built with, and what it reads: the policy that `PolicyStore.get` gives, the time, and
-- the number of a new row.
pub record Env : Type 0 where
  pub ext : External
  pub hashing : Hashing
  pub scrubbing : Scrubbing
  pub secrets : List Text
  -- the text of an identifier
  pub ulid : ℕ → Text
  -- the text of a number
  pub show : ℕ → Text
  pub policy : Policy
  -- a number of seconds
  pub ttl_s : ℕ
  pub now : ℕ
  pub today : ℕ
  -- `new_id`, against the approvals that there are
  pub new_id : List Approval → ℕ

pub record GateVerdict : Type 0 where
  pub allowed : Bool
  pub reason : Text
  pub decision : Option PolicyDecision
  pub approval_id : Option ℕ

-- `parameter_hash` of vyomel/security/approvals.py
abbrev pub parameter_hash : Env → Fields → Text
parameter_hash env parameters = content_hash env.hashing (Value.obj parameters)

abbrev pub decision_text : Decision → Text
decision_text allow = codes "ALLOW"
decision_text confirm = codes "CONFIRM"
decision_text deny = codes "DENY"

-- `decision.to_payload()`
abbrev pub decision_payload : PolicyDecision → Fields
decision_payload d = Fields.field (codes "decision") (Value.str (decision_text d.decision)) (
    Fields.field (codes "rule_id") (Value.str d.rule_id) (
      Fields.field (codes "reason") (Value.str d.reason) (
        Fields.field (codes "level") (Value.str (level_value d.level)) (
          Fields.field (codes "policy_version") (Value.int d.policy_version)
            (Fields.field (codes "policy_hash") (Value.str d.policy_hash) Fields.end)))))

-- `_workflow_of`
abbrev pub text_only : Value → Option Text
text_only (Value.str s) = some s
text_only _ = none

abbrev pub workflow_of : Task → Option Text
workflow_of task = text_only (get task.context_hints (codes "workflow"))

abbrev pub request_of : Action → Task → PolicyRequest
request_of action task = record {
  tool = action.tool;
  level = action.capability_level;
  parameters = action.parameters;
  workflow = workflow_of task;
}

-- `audit.append` about an action
unfoldable pub note : Env → Text → Text → Action → Fields → Session (Unit {0})
note env actor event action payload db =
    let (r, trail) =
      append env.hashing env.scrubbing env.secrets env.now actor event
        (some (env.ulid action.task_id)) (some (env.ulid action.id)) (some action.capability_level)
        payload db.trail in
    ok (tt, record db { trail = trail })

-- the error that a refusal writes
abbrev pub refusal : ErrorCode → Text → ErrorInfo
refusal code message = record {
  code = code_value code;
  message = message;
  retryable = false;
  observation = none;
}

abbrev pub with_tool : Action → Fields → Fields
with_tool action fs = Fields.field (codes "tool") (Value.str action.tool) fs
