-- ===== src/Runtime/Ticked.antt =====
-- vyomel/runtime/scheduler.py: what a tick leaves of the rows of the actions.
use vyomel.Prelude.{Bool, true, false, Option, none, some, List, [], ◌∷◌, if◌then◌else◌}
use vyomel.Core.Types.{StepStatus}
use vyomel.Store.{Task, Step, Action, ErrorInfo}
use vyomel.Store.Session.{Session}
use vyomel.Store.Session.Rules.{Keeps}
use vyomel.Store.Actions.Rows.{SameActions}
use vyomel.Runtime.State.{TaskTrigger}
use vyomel.Runtime.Gate.{Env}
use vyomel.Runtime.Replan.Closed.{
  set_step_status-SameActions, list_steps-SameActions, try_replan-Closes,
}
use vyomel.Runtime.Gate.Kept.{
  list_actions-SameActions, same_bind, same_pure, same_given, same_actions,
}
use vyomel.Runtime.Closes.{Closes, Moves-Closes, same-Closes, Closes-bind, Closes-if}
use vyomel.Runtime.Dispatcher.{maybe_start_task}
use vyomel.Runtime.Dispatcher.Moved.{promote_ready-Moves, enqueue_ready-Moves}
use vyomel.Runtime.Scheduler.{
  SchedulerEnv, resume_if_unblocked, block_if_awaiting, write_step, sync_steps, TaskEnd, unfinished,
  broken, unproven, complete, fail_task, unless_replanned, finish_task, complete_if_done,
  start_if_begun, or_task, is_overdue, advance, unless_gated, tick_actions, tick_task, task_end,
}

fail_task-SameActions :
    (env : Env) (task : Task) (trigger : TaskTrigger) (error : ErrorInfo)
    → Keeps SameActions (fail_task env task trigger error)
unfolding fail_task
fail_task-SameActions env task trigger error = search (same_actions) depth 20

unless_replanned-SameActions :
    (env : Env) (task : Task) (b : Bool) → Keeps SameActions (unless_replanned env task b)
unless_replanned-SameActions env task true = same_pure tt
unless_replanned-SameActions env task false = fail_task-SameActions env task _ _

finish_task-Closes :
    (s : SchedulerEnv) (task : Task) (actions : List Action) (steps : List Step) (end : TaskEnd)
    → Keeps Closes (finish_task s task actions steps end)
unfolding finish_task
finish_task-Closes s task actions steps unfinished = same-Closes _ (same_pure tt)
finish_task-Closes s task actions steps broken =
    Closes-if _ _ _
      (Closes-bind _ _ (try_replan-Closes s.replan_gate task actions steps)
        (λ b. same-Closes _ (unless_replanned-SameActions s.dispatch.env task b)))
      (same-Closes _ (fail_task-SameActions s.dispatch.env task _ _))
finish_task-Closes s task actions steps unproven =
    same-Closes _ (fail_task-SameActions s.dispatch.env task _ _)
finish_task-Closes s task actions steps complete = same-Closes _ (search (same_actions) depth 20)

complete_if_done-Closes :
    (s : SchedulerEnv) (task : Task) (actions : List Action) (steps : List Step)
    → Keeps Closes (complete_if_done s task actions steps)
unfolding complete_if_done
complete_if_done-Closes s task actions steps =
    Closes-bind _ _ (same-Closes _ (same_given (task_end task actions steps)))
      (λ end. finish_task-Closes s task actions steps end)

same_if {ℓ} :
    {A : Type ℓ} (b : Bool) (m n : Session A)
    → Keeps SameActions m
    → Keeps SameActions n
    → Keeps SameActions (if b then m else n)
same_if true m n h k = h
same_if false m n h k = k

ruleset same_branches = (same_if, same_actions)

write_step-SameActions :
    (s : Step) (status : Option StepStatus) → Keeps SameActions (write_step s status)
write_step-SameActions s none = same_pure tt
write_step-SameActions s (some status) = set_step_status-SameActions s.id status

sync_steps-SameActions :
    (steps : List Step) (actions : List Action) → Keeps SameActions (sync_steps steps actions)
unfolding sync_steps
sync_steps-SameActions [] actions = same_pure tt
sync_steps-SameActions (s ∷ steps) actions =
    same_bind (write_step s _) _ (write_step-SameActions s _)
      (λ u. sync_steps-SameActions steps actions)

resume-SameActions :
    (task : Task) (actions : List Action) → Keeps SameActions (resume_if_unblocked task actions)
unfolding resume_if_unblocked
resume-SameActions task actions = search (same_branches) depth 20

block-SameActions :
    (task : Task) (actions : List Action) → Keeps SameActions (block_if_awaiting task actions)
unfolding block_if_awaiting
block-SameActions task actions = search (same_branches) depth 20

start-SameActions : (env : Env) (task : Task) → Keeps SameActions (maybe_start_task env task)
unfolding maybe_start_task
start-SameActions env task = search (same_branches) depth 20

start_if_begun-SameActions :
    (s : SchedulerEnv) (task : Task) (actions : List Action)
    → Keeps SameActions (start_if_begun s task actions)
start_if_begun-SameActions s task actions = search (same_branches, start-SameActions) depth 20

advance-Closes :
    (s : SchedulerEnv) (task : Task) (steps : List Step) (actions : List Action)
    → Keeps Closes (advance s task steps actions)
unfolding advance
advance-Closes s task steps actions =
    Closes-bind _ _ (Moves-Closes _ (promote_ready-Moves actions steps)) (λ n.
      Closes-bind _ _ (same-Closes _ (list_actions-SameActions task.id)) (λ promoted.
        Closes-bind _ _ (Moves-Closes _ (enqueue_ready-Moves s.dispatch task promoted)) (λ progress.
          Closes-bind _ _ (same-Closes _ (list_actions-SameActions task.id)) (λ now_actions.
            Closes-bind _ _ (same-Closes _ (start_if_begun-SameActions s task now_actions))
              (λ started.
                Closes-bind _ _ (same-Closes _ (sync_steps-SameActions steps now_actions)) (λ u.
                  Closes-bind _ _ (same-Closes _ (block-SameActions started now_actions)) (λ v.
                    Closes-bind _ _ (complete_if_done-Closes s started now_actions steps)
                      (λ w. same-Closes _ (same_pure progress.published)))))))))

tick_actions-Closes :
    (s : SchedulerEnv) (task : Task) (steps : List Step) (actions : List Action)
    → Keeps Closes (tick_actions s task steps actions)
unfolding unless_gated
tick_actions-Closes s task steps [] = same-Closes _ (same_pure [])
tick_actions-Closes s task steps (a ∷ actions) =
    Closes-bind _ _ (same-Closes _ (resume-SameActions task (a ∷ actions))) (λ resumed.
      Closes-if _ _ _ (same-Closes _ (same_pure []))
        (advance-Closes s (or_task resumed task) steps (a ∷ actions)))

pub tick_task-Closes : (s : SchedulerEnv) (task : Task) → Keeps Closes (tick_task s task)
unfolding tick_task
tick_task-Closes s task =
    Closes-if (is_overdue s.dispatch.env.now task) _ _
      (same-Closes _ (search (same_actions, fail_task-SameActions) depth 20))
      (Closes-bind _ _ (same-Closes _ (list_steps-SameActions task.id)) (λ steps.
        Closes-bind _ _ (same-Closes _ (list_actions-SameActions task.id))
          (λ actions. tick_actions-Closes s task steps actions)))
