-- ===== src/Runtime/Gate/Answer/Expiry.antt =====
-- vyomel/runtime/gate.py: what the sweep of unanswered approvals leaves of them.
use vyomel.Prelude.{
  ℕ, ◌≡◌, refl, sym, subst, Bool, true, false, not, ◌&&◌, List, [], ◌∷◌, Option, none, some, Text,
  eqb, eqb_iff, leb, any, All, All-map, select, arith, Bool-cases, ◌⊎◌, inl, inr,
}
use vyomel.Core.Types.{ActionStatus, action_is_terminal, TaskStatus}
use vyomel.Core.Errors.{Result, ok}
use vyomel.Core.Json.{Fields}
use vyomel.Security.Approvals.{Approval, is_pending, due_for_expiry, mark_expired, save}
use vyomel.Store.{Db, Action, Task}
use vyomel.Store.Session.{Session, pure, given, go_on-eq-ok, ◌>>=◌, look}
use vyomel.Store.Session.Rules.{Composes, Keeps, Keeps-bind, Keeps-pure, Keeps-look, Keeps-given}
use vyomel.Store.Actions.{
  same_status, update, cas_status, add_dead_letter, get_action, list_actions,
}
use vyomel.Store.Tasks.{cas_task, get_task, same_task_status}
use vyomel.Runtime.Gate.{Env, note}
use vyomel.Runtime.Gate.Answer.{
  fail_blocked, fail_found, fail_task_if_blocked, refuse, refuse_waiting, expire_one, expire_each,
  expire_overdue,
}

-- The approvals stay as they are.
SameApprovals : Db → Db → Type 0
SameApprovals db new = new.approvals ≡ db.approvals

SameApprovals-Composes : Composes SameApprovals
unfolding SameApprovals
SameApprovals-Composes = record { stay = λ db. refl; join = λ a b c h k. cc }

approvals_cas :
    (id : ℕ) (s dest : ActionStatus) (fields : Action → Action)
    → Keeps SameApprovals (cas_status id s dest fields)
unfolding cas_status update SameApprovals
approvals_cas id s dest fields = record { kept = λ db a new e. ground arith }

approvals_letter : (id : ℕ) (reason : Text) → Keeps SameApprovals (add_dead_letter id reason)
unfolding add_dead_letter SameApprovals
approvals_letter id reason = record { kept = λ db a new e. ground arith }

approvals_note :
    (env : Env) (actor event : Text) (action : Action) (payload : Fields)
    → Keeps SameApprovals (note env actor event action payload)
unfolding note SameApprovals
approvals_note env actor event action payload = record { kept = λ db a new e. ground arith }

approvals_task :
    (id : ℕ) (s dest : TaskStatus) (fields : Task → Task)
    → Keeps SameApprovals (cas_task id s dest fields)
unfolding cas_task SameApprovals
approvals_task id s dest fields = record { kept = λ db a new e. ground arith }

approvals_bind {ℓ κ} :
    {A : Type ℓ} {B : Type κ} (m : Session B) (next : B → Session A)
    → Keeps SameApprovals m
    → ((b : B) → Keeps SameApprovals (next b))
    → Keeps SameApprovals (m >>= next)
approvals_bind m next = Keeps-bind SameApprovals SameApprovals-Composes m next

approvals_pure {ℓ} : {A : Type ℓ} (a : A) → Keeps SameApprovals (pure a)
approvals_pure a = Keeps-pure SameApprovals SameApprovals-Composes a

approvals_look {ℓ} : {A : Type ℓ} (f : Db → A) → Keeps SameApprovals (look f)
approvals_look f = Keeps-look SameApprovals SameApprovals-Composes f

approvals_given {ℓ} : {A : Type ℓ} (r : Result A) → Keeps SameApprovals (given r)
approvals_given r = Keeps-given SameApprovals SameApprovals-Composes r

ruleset approvals = (
  approvals_bind, approvals_pure, approvals_look, approvals_given, approvals_cas, approvals_letter,
  approvals_note, approvals_task,
)

fail_blocked-SameApprovals :
    (env : Env) (message : Text) (task : Task) (actions : List Action)
    → Keeps SameApprovals (fail_blocked env message task actions)
fail_blocked-SameApprovals env message task actions =
    elim (Bool-cases (any (λ a. not (action_is_terminal a.status)) actions)) [
      | inl live ↦ rw live (search (approvals))
      | inr ended ↦ rw ended (search (approvals) depth 20)
    ]

list_actions-SameApprovals : (id : ℕ) → Keeps SameApprovals (list_actions id)
unfolding list_actions
list_actions-SameApprovals id = search (approvals)

fail_found-SameApprovals :
    (env : Env) (message : Text) (found : Option Task)
    → Keeps SameApprovals (fail_found env message found)
fail_found-SameApprovals env message none = search (approvals)
fail_found-SameApprovals env message (some task) =
    elim (Bool-cases (same_task_status task.status TaskStatus.waiting_for_user)) [
      | inl does ↦
          rw does (search (approvals_bind, list_actions-SameApprovals, fail_blocked-SameApprovals))
      | inr not_so ↦ rw not_so (search (approvals))
    ]

fail_task-SameApprovals :
    (env : Env) (id : ℕ) (message : Text)
    → Keeps SameApprovals (fail_task_if_blocked env id message)
unfolding fail_task_if_blocked get_task
fail_task-SameApprovals env id message = search (approvals, fail_found-SameApprovals) depth 20

refuse-SameApprovals :
    (env : Env) (action : Action) (id : ℕ) (decided_by event message : Text)
    → Keeps SameApprovals (refuse env action id decided_by event message)
unfolding refuse
refuse-SameApprovals env action id decided_by event message =
    search (approvals, fail_task-SameApprovals) depth 20

refuse_waiting-SameApprovals :
    (env : Env) (approval : Approval) (found : Option Action)
    → Keeps SameApprovals (refuse_waiting env approval found)
refuse_waiting-SameApprovals env approval none = search (approvals)
refuse_waiting-SameApprovals env approval (some action) =
    elim (Bool-cases (same_status action.status ActionStatus.waiting_for_user)) [
      | inl does ↦ rw does (refuse-SameApprovals env action approval.id [] _ _)
      | inr not_so ↦ rw not_so (search (approvals))
    ]

-- what the sweep looks for
abbrev pub is_overdue : ℕ → Approval → Bool
is_overdue now a = is_pending a.status && leb a.expires_at now

-- An approval is not overdue, or one of these with its identifier is still to be expired.
abbrev IsDue : ℕ → List Approval → Approval → Type 0
IsDue now due a = (is_overdue now a ≡ false) ⊎ (any (λ q. eqb a.id q.id) due ≡ true)

saved-IsDue :
    (now : ℕ) (q : Approval) (due rows : List Approval)
    → All (IsDue now (q ∷ due)) rows
    → All (IsDue now due) (save (mark_expired now q) rows)
unfolding mark_expired
saved-IsDue now q due [] h = tt
saved-IsDue now q due (a ∷ rows) (h, hs) = elim (Bool-cases (eqb a.id q.id)) [
  | inl same ↦ rw same (inl refl, saved-IsDue now q due rows hs)
  | inr other ↦ rw other (
    (elim h [ inl fresh ↦ inl fresh | inr later ↦ inr (rw other at later) ]),
    saved-IsDue now q due rows hs,
  )
]

expire_one-IsDue :
    (env : Env) (q : Approval) (due : List Approval) (db new : Db) (u : Unit {0})
    → expire_one env q db ≡ ok (u, new)
    → All (IsDue env.now (q ∷ due)) db.approvals
    → All (IsDue env.now due) new.approvals
unfolding expire_one SameApprovals get_action
expire_one-IsDue env q due db new u e h =
    let mid = record db { approvals = save (mark_expired env.now q) db.approvals } in
    let (found, next, f, g) =
      go_on-eq-ok (get_action q.action_id mid) (λ found. refuse_waiting env q found) e in
    let same : new.approvals ≡ next.approvals =
      (refuse_waiting-SameApprovals env q found).kept next u new g in
    let still : mid ≡ next = ground (arith, f) in
    rw same (rw (← still) (saved-IsDue env.now q due db.approvals h))

expire_each-IsDue :
    (env : Env) (due : List Approval) (db new : Db) (ids : List ℕ)
    → expire_each env due db ≡ ok (ids, new)
    → All (IsDue env.now due) db.approvals
    → All (IsDue env.now []) new.approvals
unfolding expire_each
expire_each-IsDue env [] db new ids e h = let w : db ≡ new = ground (arith, e) in rw (← w) h
expire_each-IsDue env (q ∷ due) db new ids e h =
    let (u, mid, f, g) = go_on-eq-ok (expire_one env q db) _ e in
    let (rest, last, a, b) = go_on-eq-ok (expire_each env due mid) (λ rest. pure (q.id ∷ rest)) g in
    let w : last ≡ new = ground (arith, b) in
    let done =
      expire_each-IsDue env due mid last rest a (expire_one-IsDue env q due db mid u f h) in
    rw (← w) done

IsDue-more :
    (now : ℕ) (q : Approval) (due : List Approval) (a : Approval)
    → IsDue now due a
    → IsDue now (q ∷ due) a
IsDue-more now q due a (inl fresh) = inl fresh
IsDue-more now q due a (inr later) = inr (ground arith)

IsDue-late :
    (now : ℕ) (a : Approval) (rest due rows : List Approval)
    → due ≡ a ∷ rest
    → All (IsDue now rest) rows
    → All (IsDue now due) (a ∷ rows)
IsDue-late now a rest due rows e h =
    let head : IsDue now (a ∷ rest) a = inr (rw ((eqb_iff a.id a.id).1 refl) refl) in
    let tail : All (IsDue now (a ∷ rest)) rows =
      All-map (IsDue now rest) (IsDue now (a ∷ rest)) rows (IsDue-more now a rest) h in
    subst (λ d. All (IsDue now d) (a ∷ rows)) (sym e) (head, tail)

IsDue-fresh :
    (now : ℕ) (a : Approval) (rest due rows : List Approval)
    → due ≡ rest
    → is_overdue now a ≡ false
    → All (IsDue now rest) rows
    → All (IsDue now due) (a ∷ rows)
IsDue-fresh now a rest due rows e fresh h =
    subst (λ d. All (IsDue now d) (a ∷ rows)) (sym e) (inl fresh, h)

selected-IsDue :
    (now : ℕ) (rows : List Approval) → All (IsDue now (select (is_overdue now) rows)) rows
selected-IsDue now [] = tt
selected-IsDue now (a ∷ rows) = elim (Bool-cases (is_overdue now a)) [
  | inl late ↦
      IsDue-late now a (select (is_overdue now) rows) (select (is_overdue now) (a ∷ rows)) rows
        (rw late refl) (selected-IsDue now rows)
  | inr fresh ↦
      IsDue-fresh now a (select (is_overdue now) rows) (select (is_overdue now) (a ∷ rows)) rows
        (rw fresh refl) fresh (selected-IsDue now rows)
]

IsDue-none : (now : ℕ) (a : Approval) → IsDue now [] a → is_overdue now a ≡ false
IsDue-none now a (inl fresh) = fresh
IsDue-none now a (inr due) = cc

-- Where expire_overdue returns, no approval is pending past its time.
pub expiry_is_complete :
    (env : Env) (db new : Db) (ids : List ℕ)
    → expire_overdue env db ≡ ok (ids, new)
    → All (λ a. is_overdue env.now a ≡ false) new.approvals
unfolding expire_overdue due_for_expiry
expiry_is_complete env db new ids h =
    All-map (IsDue env.now []) (λ a. is_overdue env.now a ≡ false) new.approvals
      (IsDue-none env.now)
      (expire_each-IsDue env (select (is_overdue env.now) db.approvals) db new ids h
        (selected-IsDue env.now db.approvals))
