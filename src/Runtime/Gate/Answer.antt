-- ===== src/Runtime/Gate/Answer.antt =====
-- `PolicyGate.grant`, `refuse` and `expire_overdue` of vyomel/runtime/gate.py: what becomes of an action
-- that waits for the user. What is written to the log is left out.
pub mod Expiry
use vyomel.Prelude.{
  ℕ, Bool, true, false, not, any, Option, none, some, List, [], ◌∷◌, ◌++◌, Text, codes, eqb, select,
  if◌then◌else◌,
}
use vyomel.Core.Types.{
  ActionStatus, action_status_eq, action_is_terminal, TaskStatus, task_status_eq,
}
use vyomel.Core.Errors.{Result, ok, err, ErrorCode, permission_denied, code_value}
use vyomel.Core.Json.{Value, Fields}
use vyomel.Runtime.State.{ActionTrigger, apply_action, TaskTrigger, apply_task}
use vyomel.Security.Approvals.{Approval, due_for_expiry, mark_expired, save}
use vyomel.Store.{Db, Task, Action}
use vyomel.Store.Session.{Session, pure, given, ◌>>=◌, ◌>>◌, look, change}
use vyomel.Store.Actions.{same_status, cas_status, add_dead_letter, list_actions, get_action}
use vyomel.Store.Tasks.{same_task_status, get_task, cas_task}
use vyomel.Runtime.Gate.{Env, note, refusal}

-- `_resume_task`
abbrev pub resume_found : Option Task → Session (Unit {0})
resume_found none = pure tt
resume_found (some task) =
    if same_task_status task.status TaskStatus.waiting_for_user
    then (do
      dest ← given (apply_task TaskStatus.waiting_for_user TaskTrigger.approval_granted)
      _ ← cas_task task.id TaskStatus.waiting_for_user dest (λ t. t)
      pure tt)
    else pure tt

unfoldable pub resume_task : ℕ → Session (Unit {0})
resume_task task_id = do found ← get_task task_id; resume_found found

-- `f"user:{decided_by}"`
abbrev pub user_actor : Text → Text
user_actor decided_by = codes "user:" ++ decided_by

unfoldable pub grant : Env → Action → ℕ → Text → Bool → Session (Unit {0})
unfolding resume_task
grant env action approval_id decided_by modified = do
  dest ← given (apply_action ActionStatus.waiting_for_user ActionTrigger.approval_granted)
  _ ←
      cas_status action.id ActionStatus.waiting_for_user dest
        (λ a. record a { available_at = none; error = none })
  note env (user_actor decided_by)
      (if modified then codes "approval.modified" else codes "approval.granted") action
      (Fields.field (codes "approval_id") (Value.str (env.ulid approval_id)) (
        Fields.field (codes "tool") (Value.str action.tool)
          (Fields.field (codes "parameters") (Value.obj action.parameters) Fields.end)))
  resume_task action.task_id

-- `_fail_task_if_blocked`
abbrev pub fail_blocked : Env → Text → Task → List Action → Session (Unit {0})
fail_blocked env message task actions =
    if any (λ a. not (action_is_terminal a.status)) actions then pure tt else (do
      dest ← given (apply_task TaskStatus.waiting_for_user TaskTrigger.approval_rejected)
      _ ← cas_task task.id TaskStatus.waiting_for_user dest (λ t. record t {
        finished_at = some env.now;
        error = some (refusal permission_denied message);
      })
      pure tt)

abbrev pub fail_found : Env → Text → Option Task → Session (Unit {0})
fail_found env message none = pure tt
fail_found env message (some task) =
    if same_task_status task.status TaskStatus.waiting_for_user
    then (do actions ← list_actions task.id; fail_blocked env message task actions)
    else pure tt

unfoldable pub fail_task_if_blocked : Env → ℕ → Text → Session (Unit {0})
fail_task_if_blocked env task_id message = do found ← get_task task_id; fail_found env message found

-- `if decided_by`
abbrev pub actor_of : Text → Text
actor_of [] = codes "policy"
actor_of (c ∷ decided_by) = user_actor (c ∷ decided_by)

-- `refuse` with its default code, PERMISSION_DENIED, which every caller leaves
unfoldable pub refuse : Env → Action → ℕ → Text → Text → Text → Session (Unit {0})
unfolding fail_task_if_blocked
refuse env action approval_id decided_by event message = do
  dest ← given (apply_action ActionStatus.waiting_for_user ActionTrigger.approval_rejected)
  _ ← cas_status action.id ActionStatus.waiting_for_user dest (λ a. record a {
    finished_at = some env.now;
    lease_owner = none;
    lease_until = none;
    error = some (refusal permission_denied message);
  })
  add_dead_letter action.id (code_value permission_denied)
  note env (actor_of decided_by) event action (
      Fields.field (codes "approval_id") (Value.str (env.ulid approval_id)) (
        Fields.field (codes "tool") (Value.str action.tool)
          (Fields.field (codes "message") (Value.str message) Fields.end)))
  fail_task_if_blocked env action.task_id message

-- the message of an expiry; the number of seconds stands in it
abbrev pub expiry_message : Env → Text
expiry_message env =
    codes "approval expired unanswered after "
    ++ env.show env.ttl_s
    ++ codes "s; failing closed (FR-305)"

abbrev pub refuse_waiting : Env → Approval → Option Action → Session (Unit {0})
refuse_waiting env approval none = pure tt
refuse_waiting env approval (some action) =
    if same_status action.status ActionStatus.waiting_for_user
    then refuse env action approval.id [] (codes "approval.expired") (expiry_message env)
    else pure tt

-- one approval that is due
unfoldable pub expire_one : Env → Approval → Session (Unit {0})
unfolding refuse
expire_one env approval = do
  change (λ db. record db { approvals = save (mark_expired env.now approval) db.approvals })
  found ← get_action approval.action_id
  refuse_waiting env approval found

-- the loop of `expire_overdue` over the approvals that are due
unfoldable pub expire_each : Env → List Approval → Session (List ℕ)
unfolding expire_one
expire_each env [] = pure []
expire_each env (approval ∷ due) = do
  expire_one env approval
  rest ← expire_each env due
  pure (approval.id ∷ rest)

unfoldable pub expire_overdue : Env → Session (List ℕ)
unfolding expire_each
expire_overdue env = do due ← look (λ db. due_for_expiry env.now db.approvals); expire_each env due
