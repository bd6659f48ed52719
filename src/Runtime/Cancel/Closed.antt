-- ===== src/Runtime/Cancel/Closed.antt =====
-- vyomel/runtime/cancel.py: what a cancellation leaves of the rows of the actions.
use vyomel.Prelude.{ℕ, Bool, true, false, Option, none, some, List, [], ◌∷◌, Text, arith}
use vyomel.Core.Types.{TaskStatus, StepStatus, task_is_terminal}
use vyomel.Core.Json.{Fields}
use vyomel.Store.{Task, Step, Action}
use vyomel.Store.Session.{given}
use vyomel.Store.Session.Rules.{Keeps}
use vyomel.Store.Actions.{list_actions}
use vyomel.Store.Actions.Rows.{SameActions}
use vyomel.Store.Tasks.{get_task, list_steps, same_task_status}
use vyomel.Runtime.State.{TaskTrigger, apply_task}
use vyomel.Runtime.Gate.{Env}
use vyomel.Runtime.Gate.Kept.{
  same_bind, same_pure, same_given, list_actions-SameActions, get_task-SameActions,
  cas_task-SameActions,
}
use vyomel.Runtime.Closes.{Closes, Moves-Closes, same-Closes, Closes-bind, Closes-if}
use vyomel.Runtime.Replan.Closed.{set_step_status-SameActions, list_steps-SameActions}
use vyomel.Runtime.Cancel.Report.{drop_pending-Moves, compensate_succeeded-Moves}
use vyomel.Runtime.Cancel.{
  CancelEnv, lost_to, drop_if_moved, begin_found, begin_cancel, drop_pending, compensate_succeeded,
  skip_step, sync_cancelled_steps, note_task, finish_cancel,
}

lost_to-Closes : (found : Option Task) → Keeps Closes (lost_to found)
lost_to-Closes none = record { kept = λ db a new e. cc }
lost_to-Closes (some task) =
    Closes-if (same_task_status task.status TaskStatus.cancelled) _ _
      (same-Closes _ (same_pure false)) (record { kept = λ db a new e. cc })

drop_if_moved-Closes :
    (env : Env) (task_id : ℕ) (actions : List Action) (moved : Option Task)
    → Keeps Closes (drop_if_moved env task_id actions moved)
drop_if_moved-Closes env task_id actions none =
    Closes-bind (get_task task_id) _ (same-Closes _ (get_task-SameActions task_id)) lost_to-Closes
drop_if_moved-Closes env task_id actions (some task) =
    Closes-bind (drop_pending env actions) _ (Moves-Closes _ (drop_pending-Moves env actions))
      (λ u. same-Closes _ (same_pure true))

begin_found-Closes : (env : Env) (found : Option Task) → Keeps Closes (begin_found env found)
begin_found-Closes env none = record { kept = λ db a new e. cc }
begin_found-Closes env (some task) =
    Closes-bind (list_actions task.id) _ (same-Closes _ (list_actions-SameActions task.id))
      (λ actions.
        Closes-if (same_task_status task.status TaskStatus.cancelled) _ _
          (same-Closes _ (same_pure false))
          (Closes-if (task_is_terminal task.status) _ _ (record { kept = λ db a new e. cc })
            (Closes-bind (given (apply_task task.status TaskTrigger.cancelled)) _
              (same-Closes _ (same_given (apply_task task.status TaskTrigger.cancelled)))
              (λ dest.
                Closes-bind _ _ (same-Closes _ (cas_task-SameActions task.id task.status dest _))
                  (drop_if_moved-Closes env task.id actions)))))

pub begin_cancel-Closes : (env : Env) (task_id : ℕ) → Keeps Closes (begin_cancel env task_id)
unfolding begin_cancel
begin_cancel-Closes env task_id =
    Closes-bind (get_task task_id) _ (same-Closes _ (get_task-SameActions task_id))
      (begin_found-Closes env)

skip_step-SameActions : (s : Step) (b : Bool) → Keeps SameActions (skip_step s b)
skip_step-SameActions s true = set_step_status-SameActions s.id StepStatus.skipped
skip_step-SameActions s false = same_pure tt

sync-SameActions :
    (steps : List Step) (actions : List Action)
    → Keeps SameActions (sync_cancelled_steps steps actions)
unfolding sync_cancelled_steps
sync-SameActions [] actions = same_pure tt
sync-SameActions (s ∷ steps) actions =
    same_bind (skip_step s _) _ (skip_step-SameActions s _) (λ u. sync-SameActions steps actions)

note_task-SameActions :
    (c : CancelEnv) (actor : Text) (task_id : ℕ) (payload : Fields)
    → Keeps SameActions (note_task c actor task_id payload)
unfolding note_task
note_task-SameActions c actor task_id payload = record { kept = λ db a new e. ground arith }

pub finish_cancel-Closes :
    (c : CancelEnv) (actor : Text) (task_id : ℕ) → Keeps Closes (finish_cancel c actor task_id)
unfolding finish_cancel
finish_cancel-Closes c actor task_id =
    Closes-bind (list_steps task_id) _ (same-Closes _ (list_steps-SameActions task_id)) (λ steps.
      Closes-bind (list_actions task_id) _ (same-Closes _ (list_actions-SameActions task_id))
        (λ actions.
          Closes-bind (compensate_succeeded c actor actions) _
            (Moves-Closes _ (compensate_succeeded-Moves c actor actions))
            (λ report.
              Closes-bind (list_actions task_id) _
                (same-Closes _ (list_actions-SameActions task_id))
                (λ later.
                  Closes-bind (sync_cancelled_steps steps later) _
                    (same-Closes _ (sync-SameActions steps later))
                    (λ u.
                      Closes-bind (note_task c actor task_id (c.payload report)) _
                        (same-Closes _ (note_task-SameActions c actor task_id (c.payload report)))
                        (λ v. same-Closes _ (same_pure report)))))))
