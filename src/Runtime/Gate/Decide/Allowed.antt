-- ===== src/Runtime/Gate/Decide/Allowed.antt =====
-- What it takes for `PolicyGate.check` of vyomel/runtime/gate.py to allow a dispatch.
use vyomel.Prelude.{
  ◌≤◌, ◌≡◌, refl, true, false, ◌⊎◌, inl, inr, Option, none, some, Text, codes, arith, Bool-cases,
  Option-cases,
}
use vyomel.Core.Types.{rank, cap_gt, Decision, allow, confirm, deny}
use vyomel.Core.Errors.{ok}
use vyomel.Security.Policy.{PolicyDecision, evaluate}
use vyomel.Security.Approvals.{Approval, usable_for, consume, save}
use vyomel.Security.Approvals.Usable.{InTable, Qualifies, usable_for_sound}
use vyomel.Core.Json.{Value, Fields}
use vyomel.Store.{Db, Task, Action}
use vyomel.Store.Session.{given, given-eq-ok, go_on-eq-ok, ◌>>=◌}
use vyomel.Store.Session.Rules.{Gives, Gives-pure, Gives-bind}
use vyomel.Runtime.Gate.{
  Env, GateVerdict, parameter_hash, request_of, note, decision_payload, with_tool,
}
use vyomel.Runtime.Gate.Decide.{
  refuse_ceiling, refuse_policy, spend, park, wait_for, spend_or_wait, require_approval,
  by_decision, check,
}

abbrev Refused : GateVerdict → Type 0
Refused v = v.allowed ≡ false

ruleset refused = (Gives-bind, Gives-pure)

refuse_ceiling-Refused :
    (env : Env) (action : Action) (task : Task) → Gives Refused (refuse_ceiling env action task)
unfolding refuse_ceiling
refuse_ceiling-Refused env action task = search (refused) depth 20

refuse_policy-Refused :
    (env : Env) (action : Action) (d : PolicyDecision) → Gives Refused (refuse_policy env action d)
unfolding refuse_policy
refuse_policy-Refused env action d = search (refused) depth 20

park-Refused :
    (env : Env) (action : Action) (d : PolicyDecision) (approval : Approval) (moved : Option Action)
    → Gives Refused (park env action d approval moved)
unfolding park
park-Refused env action d approval none = search (refused) depth 20
park-Refused env action d approval (some moved) = search (refused) depth 20

wait_for-Refused :
    (env : Env) (action : Action) (d : PolicyDecision) → Gives Refused (wait_for env action d)
unfolding wait_for
wait_for-Refused env action d = search (refused, park-Refused) depth 20

-- Noting something in the trail changes nothing else.
pub note-eq-ok :
    (env : Env) (actor event : Text) (action : Action) (payload : Fields) (db new : Db)
    (u : Unit {0})
    → note env actor event action payload db ≡ ok (u, new)
    → (new.actions ≡ db.actions) × (new.approvals ≡ db.approvals) × (new.tasks ≡ db.tasks)
unfolding note
note-eq-ok env actor event action payload db new u h = ground arith

-- What covers a dispatch for which the policy asks: an approval of the table that gives leave, which the
-- same step spends.
pub record Covered (env : Env) (action : Action) (db new : Db) : Type 0 where
  pub before : Approval
  pub spent : Approval
  pub stood : InTable before db.approvals
  pub qualified :
      Qualifies action.id
        (parameter_hash env action.parameters)
        action.capability_level
        env.now
        before
  pub consumed : consume env.now before ≡ ok spent
  pub written : new.approvals ≡ save spent db.approvals

spend-Covered :
    (env : Env) (action : Action) (d : PolicyDecision) (usable : Approval) (db new : Db)
    (v : GateVerdict)
    → usable_for action.id
        (parameter_hash env action.parameters)
        action.capability_level
        env.now
        db.approvals
      ≡ some usable
    → spend env action d usable db ≡ ok (v, new)
    → Covered env action db new × (new.actions ≡ db.actions)
unfolding spend
spend-Covered env action d usable db new v u h =
    let (used, mid, a, f) = go_on-eq-ok (given (consume env.now usable) db) _ h in
    let (c, same) = given-eq-ok (consume env.now usable) db a in
    let (w, end, n, g) =
      go_on-eq-ok
        (note env (codes "policy") (codes "approval.consumed") action
          (Fields.field (codes "approval_id") (Value.str (env.ulid usable.id)) (decision_payload d))
          (record mid { approvals = save used mid.approvals }))
        _ f in
    let (acts, apps, _) =
      note-eq-ok env _ _ action _ (record mid { approvals = save used mid.approvals }) end w n in
    let last : end ≡ new = ground (arith, g) in
    let (stood, q) =
      usable_for_sound action.id (parameter_hash env action.parameters) action.capability_level
        env.now db.approvals usable u in
    (
      record {
        before = usable;
        spent = used;
        stood = stood;
        qualified = q;
        consumed = c;
        written = rw (← last, apps, same) refl;
      },
      rw (← last, acts, same) refl,
    )

-- What the database is after a dispatch that the gate allows.
abbrev pub AllowedBy : Env → Action → Db → Db → PolicyDecision → Type 0
AllowedBy env action db new d =
    ((d.decision ≡ allow) × (new.approvals ≡ db.approvals))
    ⊎ ((d.decision ≡ confirm) × Covered env action db new)

require_approval-AllowedBy :
    (env : Env) (action : Action) (d : PolicyDecision) (db new : Db) (v : GateVerdict)
    → d.decision ≡ confirm
    → require_approval env action d db ≡ ok (v, new)
    → v.allowed ≡ true
    → (new.actions ≡ db.actions) × AllowedBy env action db new d
unfolding require_approval spend_or_wait
require_approval-AllowedBy env action d db new v e h t =
    let rows =
      usable_for action.id (parameter_hash env action.parameters) action.capability_level env.now
        db.approvals in
    elim (Option-cases rows) [
      | inl n ↦
          let g : wait_for env action d db ≡ ok (v, new) = rw n at h in
          let no_way = (wait_for-Refused env action d).gives db v new g in cc
      | inr (usable, u) ↦
          let g : spend env action d usable db ≡ ok (v, new) = rw u at h in
          let (c, same) = spend-Covered env action d usable db new v u g in (same, inr (e, c))
    ]

by_decision-AllowedBy :
    (env : Env) (action : Action) (d : PolicyDecision) (decision : Decision) (db new : Db)
    (v : GateVerdict)
    → d.decision ≡ decision
    → by_decision env action d decision db ≡ ok (v, new)
    → v.allowed ≡ true
    → (new.actions ≡ db.actions) × AllowedBy env action db new d
unfolding by_decision
by_decision-AllowedBy env action d deny db new v e h t =
    let refused = (refuse_policy-Refused env action d).gives db v new h in cc
by_decision-AllowedBy env action d allow db new v e h t =
    let (u, mid, n, g) =
      go_on-eq-ok
        (note env (codes "policy") (codes "policy.allowed") action
          (with_tool action (decision_payload d)) db)
        _ h in
    let (acts, apps, _) = note-eq-ok env _ _ action _ db mid u n in
    let last : mid ≡ new = ground (arith, g) in (rw (← last) acts, inl (e, rw (← last) apps))
by_decision-AllowedBy env action d confirm db new v e h t =
    require_approval-AllowedBy env action d db new v e h t

-- Where check allows an action, its level is within the ceiling of the task, evaluate gives a decision
-- d on it, no row of an action has changed, and either d allows and the approvals are as before, or d
-- asks and an approval that covers the action has been spent.
pub allowed_only_by_decision :
    (env : Env) (action : Action) (task : Task) (db new : Db) (v : GateVerdict)
    → check env action task db ≡ ok (v, new)
    → v.allowed ≡ true
    → (d : PolicyDecision) × (evaluate env.ext env.policy (request_of action task) env.today ≡ ok d)
      × (rank action.capability_level ≤ rank task.capability_ceiling)
      × (new.actions ≡ db.actions)
      × AllowedBy env action db new d
unfolding check
allowed_only_by_decision env action task db new v h t =
    elim (Bool-cases (cap_gt action.capability_level task.capability_ceiling)) [
      | inl over ↦
          let g : refuse_ceiling env action task db ≡ ok (v, new) = rw over at h in
          let refused = (refuse_ceiling-Refused env action task).gives db v new g in cc
      | inr within ↦
          let g : (given (evaluate env.ext env.policy (request_of action task) env.today) >>= λ d.
          by_decision env action d d.decision)
                db
              ≡ ok (v, new) =
            rw within at h in
          let (d, mid, a, b) =
            go_on-eq-ok (given (evaluate env.ext env.policy (request_of action task) env.today) db)
              _ g in
          let (e, same) =
            given-eq-ok (evaluate env.ext env.policy (request_of action task) env.today) db a in
          let b' : by_decision env action d d.decision db ≡ ok (v, new) = rw (← same) b in
          let (acts, by) = by_decision-AllowedBy env action d d.decision db new v refl b' t in
          (d, e, ground arith, acts, by)
    ]
