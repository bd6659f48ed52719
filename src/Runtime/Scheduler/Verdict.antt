-- ===== src/Runtime/Scheduler/Verdict.antt =====
-- vyomel/runtime/scheduler.py: when a task and a step count as done.
use vyomel.Prelude.{
  ◌≡◌, refl, Bool, true, false, ◌&&◌, none, some, List, [], ◌∷◌, eqb, any, all, select, find_first,
  length, ◌<◌, arith, ◌↔◌,
}
use vyomel.Core.Types.{ActionStatus, TaskStatus, StepStatus}
use vyomel.Core.Errors.{ok}
use vyomel.Store.{Task, Step, Action}
use vyomel.Store.Actions.{same_status}
use vyomel.Store.Tasks.{same_task_status}
use vyomel.Runtime.Scheduler.{
  is_live, has_failed, is_satisfied, step_verdict, any_unproven, task_end, complete,
}

-- The action does not stand in the way of its task's success: it succeeded, or was dropped, or is unverified on a
-- step that tolerates that.
abbrev pub is_accepted_at : List Step → Action → ActionStatus → Bool
is_accepted_at steps a ActionStatus.succeeded = true
is_accepted_at steps a ActionStatus.cancelled = true
is_accepted_at steps a ActionStatus.rolled_back = true
is_accepted_at steps a ActionStatus.unverified = elim (find_first (λ s. eqb s.id a.step_id) steps) [
  | none ↦ false
  | some s ↦ s.tolerates_unverified
]
is_accepted_at steps a _ = false

abbrev pub is_accepted : List Step → Action → Bool
is_accepted steps a = is_accepted_at steps a a.status

-- One more action: the three tests pass with it as they pass without it and it is accepted.
accepts :
    (steps : List Step) (actions : List Action)
    → (any is_live actions ≡ false)
      × (any has_failed actions ≡ false)
      × (any_unproven steps actions ≡ ok false)
    → all (is_accepted steps) actions ≡ true
unfolding any_unproven
accepts steps [] h = refl
accepts steps (a ∷ actions) (l, f, u) = ground (arith, l, f, u, accepts steps actions)

accepted :
    (steps : List Step) (actions : List Action)
    → all (is_accepted steps) actions ≡ true
    → (any is_live actions ≡ false)
      × (any has_failed actions ≡ false)
      × (any_unproven steps actions ≡ ok false)
unfolding any_unproven
accepted steps [] h = (refl, refl, refl)
accepted steps (a ∷ actions) h = ground (arith, h, accepted steps actions)

-- A task is complete exactly when it is RUNNING and each of its actions is SUCCEEDED, CANCELLED,
-- ROLLED_BACK, or UNVERIFIED with a step that tolerates it.
pub task_complete_iff :
    (task : Task) (actions : List Action) (steps : List Step)
    → (task_end task actions steps ≡ ok complete) ↔ (
        (same_task_status task.status TaskStatus.running ≡ true)
        × (all (is_accepted steps) actions ≡ true))
unfolding task_end
task_complete_iff task actions steps =
    (λ h. ground (arith, h, accepts steps actions), λ h. ground (arith, h, accepted steps actions))

-- Satisfied actions are terminal, and none of them failed.
satisfied_end :
    (tolerates : Bool) (group : List Action)
    → all (λ a. is_satisfied tolerates a.status) group ≡ true
    → (any is_live group ≡ false) × (any has_failed group ≡ false)
satisfied_end tolerates [] h = (refl, refl)
satisfied_end tolerates (a ∷ group) h = ground (arith, h, satisfied_end tolerates group)

-- A step is written SUCCEEDED exactly when it has actions and each of them is satisfied.
pub step_succeeds_iff :
    (tolerates : Bool) (group : List Action)
    → (step_verdict tolerates group ≡ some StepStatus.succeeded)
      ↔ ((0 < length group) × (all (λ a. is_satisfied tolerates a.status) group ≡ true))
unfolding step_verdict
step_succeeds_iff tolerates [] = (λ h. ground (arith, h), λ h. ground (arith, h.0))
step_succeeds_iff tolerates (a ∷ group) =
    (λ h. ground (arith, h), λ h. ground (arith, h.1, satisfied_end tolerates (a ∷ group)))

-- the action was dropped, and is one of the step's
abbrev pub is_dropped_of : Step → Action → Bool
is_dropped_of s a = eqb a.step_id s.id && same_status a.status ActionStatus.cancelled

dropped_group :
    (s : Step) (actions : List Action)
    → any (is_dropped_of s) actions ≡ true
    → all
        (λ a. is_satisfied s.tolerates_unverified a.status)
        (select (λ a. eqb a.step_id s.id) actions)
      ≡ false
dropped_group s [] h = cc
dropped_group s (a ∷ actions) h = ground (arith, h, dropped_group s actions)

any-select :
    (p q : Action → Bool) (actions : List Action)
    → any p actions ≡ false
    → any p (select q actions) ≡ false
any-select p q [] h = refl
any-select p q (a ∷ actions) h = ground (arith, h, any-select p q actions)

fails_unless_satisfied :
    (tolerates : Bool) (group : List Action)
    → any is_live group ≡ false
    → all (λ a. is_satisfied tolerates a.status) group ≡ false
    → step_verdict tolerates group ≡ some StepStatus.failed
unfolding step_verdict
fails_unless_satisfied tolerates [] l h = cc
fails_unless_satisfied tolerates (a ∷ group) l h = ground (arith, l, h)

-- Where a task is complete, the verdict on the step of a CANCELLED action is FAILED.
pub complete_over_failed_step :
    (task : Task) (actions : List Action) (steps : List Step) (s : Step)
    → task_end task actions steps ≡ ok complete
    → any (is_dropped_of s) actions ≡ true
    → step_verdict s.tolerates_unverified (select (λ a. eqb a.step_id s.id) actions)
      ≡ some StepStatus.failed
complete_over_failed_step task actions steps s h k =
    let (runs, all_accepted) = (task_complete_iff task actions steps).0 h in
    let (live, failed, rest) = accepted steps actions all_accepted in
    fails_unless_satisfied s.tolerates_unverified (select (λ a. eqb a.step_id s.id) actions)
      (any-select is_live (λ a. eqb a.step_id s.id) actions live) (dropped_group s actions k)
