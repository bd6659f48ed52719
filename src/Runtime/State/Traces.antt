-- ===== src/Runtime/State/Traces.antt =====
-- What holds of an action over every sequence of triggers.
use vyomel.Prelude.{◌≡◌, refl, true, false, Option, none, some, List, [], ◌∷◌, arith, ◌⊎◌, inl}
use vyomel.Core.Errors.{Result, ok, ◌>>=◌, >>=-eq-ok}
use vyomel.Core.Types.{ActionStatus, action_is_terminal}
use vyomel.Runtime.State.{ActionTrigger, apply_action}
use vyomel.Runtime.State.Table.{terminal_action_final}
use vyomel.Runtime.State.Steps.{
  ActionStep, step_of_apply, promote, gate, refuse, dispatch, grant, reject, claim, unclaimed, pass,
  unproven, fail, retry, reap, undo, drop,
}

-- A sequence of triggers, each accepted in turn.
unfoldable pub run_action : ActionStatus → List ActionTrigger → Result ActionStatus
run_action s [] = ok s
run_action s (t ∷ ts) = do d ← apply_action s t; run_action d ts

-- The first list is a subsequence of the second.
pub data Within : List ActionTrigger → List ActionTrigger → Type 0 where
  stop : (ts : List ActionTrigger) → Within [] ts
  skip : {us ts : List ActionTrigger} (t : ActionTrigger) → Within us ts → Within us (t ∷ ts)
  keep : {us ts : List ActionTrigger} (t : ActionTrigger) → Within us ts → Within (t ∷ us) (t ∷ ts)

-- What an action in a status still has to see before it succeeds; `none` where it never will.
abbrev owed : ActionStatus → Option (List ActionTrigger)
owed ActionStatus.planned = some (
    ActionTrigger.dependencies_satisfied ∷ ActionTrigger.enqueued ∷ ActionTrigger.worker_claimed
    ∷ ActionTrigger.verification_pass ∷ [])
owed ActionStatus.ready =
    some
      (ActionTrigger.enqueued ∷ ActionTrigger.worker_claimed ∷ ActionTrigger.verification_pass ∷ [])
owed ActionStatus.waiting_for_user =
    some
      (ActionTrigger.enqueued ∷ ActionTrigger.worker_claimed ∷ ActionTrigger.verification_pass ∷ [])
owed ActionStatus.dispatched =
    some (ActionTrigger.worker_claimed ∷ ActionTrigger.verification_pass ∷ [])
owed ActionStatus.running = some (ActionTrigger.verification_pass ∷ [])
owed ActionStatus.succeeded = some []
owed _ = none

abbrev OwedWithin : Option (List ActionTrigger) → List ActionTrigger → Type 0
OwedWithin none ts = ⊥
OwedWithin (some us) ts = Within us ts

drop_one : {u : ActionTrigger} {us ts : List ActionTrigger} → Within (u ∷ us) ts → Within us ts
drop_one (skip t w) = skip t (drop_one w)
drop_one (keep t w) = skip t w

-- One accepted trigger pays at most the first of what is owed.
owed-step :
    {s d : ActionStatus} {t : ActionTrigger} (ts : List ActionTrigger)
    → ActionStep s d t
    → OwedWithin (owed d) ts
    → OwedWithin (owed s) (t ∷ ts)
owed-step ts promote w = keep _ w
owed-step ts gate w = skip _ w
owed-step ts refuse w = absurd w
owed-step ts dispatch w = keep _ w
owed-step ts grant w = skip _ w
owed-step ts reject w = absurd w
owed-step ts claim w = keep _ w
owed-step ts unclaimed w = skip _ (drop_one w)
owed-step ts pass w = keep _ w
owed-step ts unproven w = absurd w
owed-step ts fail w = absurd w
owed-step ts retry w = skip _ (drop_one (drop_one w))
owed-step ts reap w = skip _ (drop_one (drop_one w))
owed-step ts undo w = absurd w
owed-step ts (drop h) w = absurd w

run-owed :
    (s : ActionStatus) (ts : List ActionTrigger)
    → run_action s ts ≡ ok ActionStatus.succeeded
    → OwedWithin (owed s) ts
unfolding run_action
run-owed ActionStatus.succeeded [] h = Within.stop []
run-owed _ [] h = cc
run-owed s (t ∷ ts) h =
    let (d, step, rest) = >>=-eq-ok (apply_action s t) (λ d. run_action d ts) h in
    owed-step ts (step_of_apply s d t step) (run-owed d ts rest)

-- An action that was planned and has succeeded was, in this order, promoted, enqueued, claimed by a
-- worker and verified, whatever else happened in between.
pub success_history :
    (ts : List ActionTrigger)
    → run_action ActionStatus.planned ts ≡ ok ActionStatus.succeeded
    → Within
        (ActionTrigger.dependencies_satisfied ∷ ActionTrigger.enqueued
          ∷ ActionTrigger.worker_claimed ∷ ActionTrigger.verification_pass ∷ [])
        ts
success_history ts h = run-owed ActionStatus.planned ts h

-- Once an action is terminal, the only sequences that it accepts are the empty one and, if it
-- succeeded, its one compensation.
pub terminal_action_trace :
    (s d : ActionStatus) (ts : List ActionTrigger)
    → action_is_terminal s ≡ true
    → run_action s ts ≡ ok d
    → (ts ≡ []) ⊎ ((s ≡ ActionStatus.succeeded) × (ts ≡ ActionTrigger.compensated ∷ []))
unfolding run_action
terminal_action_trace s d [] h k = inl refl
terminal_action_trace s d (t ∷ []) h k =
    let (m, step, rest) = >>=-eq-ok (apply_action s t) (λ m. run_action m []) k in
    ground (arith, terminal_action_final s m t h step)
terminal_action_trace s d (t ∷ u ∷ ts) h k =
    let (m, step, rest) = >>=-eq-ok (apply_action s t) (λ m. run_action m (u ∷ ts)) k in
    let (n, step', rest') = >>=-eq-ok (apply_action m u) (λ m. run_action m ts) rest in
    ground (arith, terminal_action_final s m t h step, terminal_action_final m n u)

-- the triggers that lead an action to success
way : ActionStatus → List ActionTrigger
way ActionStatus.planned =
    ActionTrigger.dependencies_satisfied ∷ ActionTrigger.enqueued ∷ ActionTrigger.worker_claimed
    ∷ ActionTrigger.verification_pass ∷ []
way ActionStatus.ready =
    ActionTrigger.enqueued ∷ ActionTrigger.worker_claimed ∷ ActionTrigger.verification_pass ∷ []
way ActionStatus.dispatched = ActionTrigger.worker_claimed ∷ ActionTrigger.verification_pass ∷ []
way ActionStatus.running = ActionTrigger.verification_pass ∷ []
way ActionStatus.waiting_for_user =
    ActionTrigger.approval_granted ∷ ActionTrigger.enqueued ∷ ActionTrigger.worker_claimed
    ∷ ActionTrigger.verification_pass ∷ []
way _ = []

-- No status that is not terminal is a dead end: some sequence of triggers leads to success.
pub action_can_succeed :
    (s : ActionStatus)
    → action_is_terminal s ≡ false
    → (ts : List ActionTrigger) × (run_action s ts ≡ ok ActionStatus.succeeded)
unfolding run_action apply_action way
action_can_succeed ActionStatus.planned h = (way ActionStatus.planned, refl)
action_can_succeed ActionStatus.ready h = (way ActionStatus.ready, refl)
action_can_succeed ActionStatus.dispatched h = (way ActionStatus.dispatched, refl)
action_can_succeed ActionStatus.running h = (way ActionStatus.running, refl)
action_can_succeed ActionStatus.waiting_for_user h = (way ActionStatus.waiting_for_user, refl)
action_can_succeed _ h = cc
