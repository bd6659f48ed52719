-- ===== src/Runtime/Gate/Refused.antt =====
-- vyomel/runtime/gate.py: what an answer of the gate leaves of the status that it was asked at.
use vyomel.Prelude.{
  ℕ, ◌≡◌, refl, Bool, true, false, Text, Option, none, some, arith, Bool-cases, ◌⊎◌, inl, inr,
}
use vyomel.Core.Types.{cap_gt, ActionStatus, Decision, allow, confirm, deny}
use vyomel.Core.Errors.{ok}
use vyomel.Runtime.State.{ActionTrigger, apply_action}
use vyomel.Runtime.Moves.{Left-move}
use vyomel.Security.Policy.{PolicyDecision, evaluate}
use vyomel.Security.Approvals.{Approval}
use vyomel.Store.{Db, Action, Task}
use vyomel.Store.Session.{Session, pure, given, go_on-eq-ok, ◌>>=◌}
use vyomel.Store.Actions.{cas_status}
use vyomel.Store.Actions.Rows.{Left, Ends, Left-first}
use vyomel.Runtime.Gate.{Env, GateVerdict, request_of}
use vyomel.Runtime.Gate.Decide.{
  fail_ready_action, refuse_ceiling, refuse_policy, spend, park, wait_for, spend_or_wait,
  require_approval, by_decision, check,
}
use vyomel.Runtime.Gate.Answer.{grant, refuse}
use vyomel.Runtime.Gate.Kept.{
  same_actions, park-SameActions, resume_task-SameActions, fail_task_if_blocked-SameActions,
}

-- The gate gave its leave, or no row of the action is READY.
record Decides (id : ℕ) (m : Session GateVerdict) : Type 0 where
  pub decides :
      (db : Db) (v : GateVerdict) (new : Db)
      → m db ≡ ok (v, new)
      → (v.allowed ≡ true) ⊎ Left id ActionStatus.ready new

Decides-Left :
    (id : ℕ) (m : Session GateVerdict) → Ends (Left id ActionStatus.ready) m → Decides id m
Decides-Left id m h = record { decides = λ db v new e. inr (h.ends db v new e) }

Decides-pure : (id : ℕ) (v : GateVerdict) → v.allowed ≡ true → Decides id (pure v)
Decides-pure id v h = record { decides = λ db w new e. inl (ground arith) }

Decides-bind {ℓ} :
    {B : Type ℓ} (id : ℕ) (m : Session B) (next : B → Session GateVerdict)
    → ((b : B) → Decides id (next b))
    → Decides id (m >>= next)
Decides-bind id m next k = record {
  decides =
      λ db v new e. let (b, mid, f, g) = go_on-eq-ok (m db) next e in (k b).decides mid v new g;
}

fail_ready_action-Left :
    (env : Env) (action : Action) (message : Text)
    → Ends (Left action.id ActionStatus.ready) (fail_ready_action env action message)
unfolding fail_ready_action
fail_ready_action-Left env action message = Left-move _ _ _ _ _ (λ dest row. search (same_actions))

refuse_ceiling-Decides :
    (env : Env) (action : Action) (task : Task) → Decides action.id (refuse_ceiling env action task)
unfolding refuse_ceiling
refuse_ceiling-Decides env action task = Decides-Left _ _ (
    Left-first action.id ActionStatus.ready (fail_ready_action env action _) _
      (fail_ready_action-Left env action _) (λ u. search (same_actions) depth 20))

refuse_policy-Decides :
    (env : Env) (action : Action) (d : PolicyDecision)
    → Decides action.id (refuse_policy env action d)
unfolding refuse_policy
refuse_policy-Decides env action d = Decides-Left _ _ (
    Left-first action.id ActionStatus.ready (fail_ready_action env action _) _
      (fail_ready_action-Left env action _) (λ u. search (same_actions) depth 20))

wait_move-Decides :
    (env : Env) (action : Action) (d : PolicyDecision) (approval : Approval)
    → Decides action.id (
        given (apply_action ActionStatus.ready ActionTrigger.policy_confirm) >>= λ dest.
        cas_status action.id ActionStatus.ready dest (λ a. a) >>= λ moved.
        park env action d approval moved)
wait_move-Decides env action d approval =
    Decides-Left _ _ (Left-move _ _ _ _ _ (λ dest row. park-SameActions env action d approval row))

ruleset decides = (
  Decides-bind, Decides-pure, refl, refuse_ceiling-Decides, refuse_policy-Decides,
  wait_move-Decides,
)

wait_for-Decides :
    (env : Env) (action : Action) (d : PolicyDecision) → Decides action.id (wait_for env action d)
unfolding wait_for
wait_for-Decides env action d = search (decides) depth 20

spend_or_wait-Decides :
    (env : Env) (action : Action) (d : PolicyDecision) (usable : Option Approval)
    → Decides action.id (spend_or_wait env action d usable)
unfolding spend_or_wait spend
spend_or_wait-Decides env action d (some usable) = search (decides) depth 20
spend_or_wait-Decides env action d none = wait_for-Decides env action d

by_decision-Decides :
    (env : Env) (action : Action) (d : PolicyDecision) (decision : Decision)
    → Decides action.id (by_decision env action d decision)
unfolding by_decision require_approval
by_decision-Decides env action d deny = refuse_policy-Decides env action d
by_decision-Decides env action d allow = search (decides) depth 20
by_decision-Decides env action d confirm = search (decides, spend_or_wait-Decides) depth 20

check-Decides :
    (env : Env) (action : Action) (task : Task) → Decides action.id (check env action task)
unfolding check
check-Decides env action task =
    let asked = evaluate env.ext env.policy (request_of action task) env.today in
    let by : Decides action.id (given asked >>= λ d. by_decision env action d d.decision) =
      Decides-bind _ (given asked) _ (λ d. by_decision-Decides env action d d.decision) in
    elim (Bool-cases (cap_gt action.capability_level task.capability_ceiling)) [
      | inl over ↦ rw over (refuse_ceiling-Decides env action task)
      | inr within ↦ rw within by
    ]

-- Where check does not allow an action, no row of the action is READY afterwards.
pub refused_leaves_ready :
    (env : Env) (action : Action) (task : Task) (db new : Db) (v : GateVerdict)
    → check env action task db ≡ ok (v, new)
    → v.allowed ≡ false
    → Left action.id ActionStatus.ready new
refused_leaves_ready env action task db new v h f =
    elim ((check-Decides env action task).decides db v new h) [ inl t ↦ cc | inr left ↦ left ]

pub answered_leaves_waiting :
    (env : Env) (action : Action) (approval_id : ℕ) (decided_by event message : Text)
    (modified : Bool) (db granted refused : Db)
    → grant env action approval_id decided_by modified db ≡ ok (tt, granted)
    → refuse env action approval_id decided_by event message db ≡ ok (tt, refused)
    → Left action.id ActionStatus.waiting_for_user granted
      × Left action.id ActionStatus.waiting_for_user refused
unfolding grant refuse
answered_leaves_waiting env action approval_id decided_by event message modified db granted refused
      h k =
    (
      (Left-move _ _ _ _ _
            (λ dest row. search (same_actions, resume_task-SameActions) depth 20)).ends
          db tt granted h,
      (Left-move _ _ _ _ _
            (λ dest row. search (same_actions, fail_task_if_blocked-SameActions) depth 20)).ends
          db tt refused k,
    )
