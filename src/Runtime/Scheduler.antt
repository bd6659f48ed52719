-- ===== src/Runtime/Scheduler.antt =====
-- vyomel/runtime/scheduler.py: what a tick does for one task. What a success sets off (the episode that is
-- remembered, the mining of it) is a parameter; the result column, metrics and logs are
-- left out, and so is the loop that runs the ticks.
pub mod Verdict
pub mod Ticks
use vyomel.Prelude.{
  ℕ, Bool, true, false, not, ◌&&◌, ◌||◌, Option, none, some, List, [], ◌∷◌, Text, codes, eqb, ltb,
  leb, any, all, select, find_first, if◌then◌else◌,
}
use vyomel.Core.Types.{ActionStatus, action_is_terminal, TaskStatus, StepStatus}
use vyomel.Core.Errors.{Result, ok, err, raise_class, key_error}
use vyomel.Runtime.State.{TaskTrigger, apply_task}
use vyomel.Store.{Db, Task, Step, Action, ErrorInfo}
use vyomel.Store.Session.{Session, pure, given, ◌>>=◌, ◌>>◌, look, change}
use vyomel.Store.Actions.{same_status, list_actions}
use vyomel.Store.Tasks.{same_task_status, cas_task, list_steps, set_step_status}
use vyomel.Runtime.Gate.{Env}
use vyomel.Runtime.Replan.{ReplanEnv, try_replan}
use vyomel.Runtime.Dispatcher.{
  DispatchEnv, Published, Progress, promote_ready, enqueue_ready, maybe_start_task,
}

-- what the scheduler is built with
pub record SchedulerEnv : Type 0 where
  pub dispatch : DispatchEnv
  pub max_replans : ℕ
  -- `replan_gate`
  pub replan_gate : ReplanEnv
  -- `record_episode` and `auto_mine_after_task`, which write to tables that are not modelled, or raise
  pub remember : Task → List Action → Result (Unit {0})

abbrev pub is_waiting : Action → Bool
is_waiting a = same_status a.status ActionStatus.waiting_for_user

abbrev pub is_live : Action → Bool
is_live a = not (action_is_terminal a.status)

abbrev pub has_failed : Action → Bool
has_failed a = same_status a.status ActionStatus.failed

-- `_resume_if_unblocked`
unfoldable pub resume_if_unblocked : Task → List Action → Session (Option Task)
resume_if_unblocked task actions =
    if not (same_task_status task.status TaskStatus.waiting_for_user)
    then pure none
    else if any is_waiting actions
    then pure none
    else (do
      dest ← given (apply_task TaskStatus.waiting_for_user TaskTrigger.approval_granted)
      cas_task task.id TaskStatus.waiting_for_user dest (λ t. t))

-- `not live or any(a.status is not WAITING_FOR_USER for a in live)`
abbrev pub may_proceed : List Action → Bool
may_proceed [] = true
may_proceed (a ∷ live) = any (λ b. not (is_waiting b)) (a ∷ live)

-- `_block_if_awaiting_user`
unfoldable pub block_if_awaiting : Task → List Action → Session (Unit {0})
block_if_awaiting task actions =
    if not (same_task_status task.status TaskStatus.running)
    then pure tt
    else if may_proceed (select is_live actions)
    then pure tt
    else (do
      dest ← given (apply_task TaskStatus.running TaskTrigger.approval_needed)
      _ ← cas_task task.id TaskStatus.running dest (λ t. t)
      pure tt)

-- `_action_satisfied`
abbrev pub is_satisfied : Bool → ActionStatus → Bool
is_satisfied tolerates ActionStatus.succeeded = true
is_satisfied tolerates ActionStatus.unverified = tolerates
is_satisfied tolerates _ = false

-- what `_sync_steps` writes for a step with these actions
unfoldable pub step_verdict : Bool → List Action → Option StepStatus
step_verdict tolerates [] = none
step_verdict tolerates (a ∷ group) =
    if any is_live (a ∷ group)
    then (if any (λ b. same_status b.status ActionStatus.running) (a ∷ group)
        then some StepStatus.running
        else none)
    else if any has_failed (a ∷ group)
    then some StepStatus.failed
    else if all (λ b. is_satisfied tolerates b.status) (a ∷ group)
    then some StepStatus.succeeded
    else some StepStatus.failed

abbrev pub write_step : Step → Option StepStatus → Session (Unit {0})
write_step s none = pure tt
write_step s (some status) = set_step_status s.id status

-- `_sync_steps`
unfoldable pub sync_steps : List Step → List Action → Session (Unit {0})
unfolding step_verdict
sync_steps [] actions = pure tt
sync_steps (s ∷ steps) actions = do
  write_step s (step_verdict s.tolerates_unverified (select (λ a. eqb a.step_id s.id) actions))
  sync_steps steps actions

-- `unverified`: an action is unverified and its step does not tolerate that
unfoldable pub any_unproven : List Step → List Action → Result Bool
any_unproven steps [] = ok false
any_unproven steps (a ∷ actions) =
    let rest = any_unproven steps actions in
    if same_status a.status ActionStatus.unverified
    then elim (find_first (λ s. eqb s.id a.step_id) steps) [
      | none ↦ err (raise_class key_error)
      | some s ↦ elim rest [ err e ↦ err e | ok b ↦ ok (not s.tolerates_unverified || b) ]
    ]
    else rest

-- how `_complete_if_done` finds the task
pub data TaskEnd : Type 0 where
  unfinished broken unproven complete : TaskEnd

unfoldable pub task_end : Task → List Action → List Step → Result TaskEnd
unfolding any_unproven
task_end task actions steps =
    if any is_live actions
    then ok unfinished
    else if not (same_task_status task.status TaskStatus.running)
    then ok unfinished
    else if any has_failed actions
    then ok broken
    else elim (any_unproven steps actions) [
      | err e ↦ err e
      | ok b ↦ ok (if b then unproven else complete)
    ]

abbrev pub task_error : Text → Text → ErrorInfo
task_error code message = record {
  code = code;
  message = message;
  retryable = false;
  observation = none;
}

unfoldable pub fail_task : Env → Task → TaskTrigger → ErrorInfo → Session (Unit {0})
fail_task env task trigger error = do
  dest ← given (apply_task task.status trigger)
  _ ←
      cas_task task.id task.status dest
        (λ t. record t { finished_at = some env.now; error = some error })
  pure tt

abbrev pub action_failed : ErrorInfo
action_failed = task_error (codes "ACTION_FAILED") (codes "a required action failed")

abbrev pub not_verified : ErrorInfo
not_verified =
    task_error (codes "UNVERIFIED")
      (codes "an action finished UNVERIFIED and the step does not tolerate it")

abbrev pub unless_replanned : Env → Task → Bool → Session (Unit {0})
unless_replanned env task true = pure tt
unless_replanned env task false = fail_task env task TaskTrigger.required_failed action_failed

unfoldable pub finish_task :
    SchedulerEnv → Task → List Action → List Step → TaskEnd → Session (Unit {0})
unfolding fail_task
finish_task s task actions steps unfinished = pure tt
finish_task s task actions steps broken =
    if ltb task.replan_count s.max_replans
    then (do
      replanned ← try_replan s.replan_gate task actions steps
      unless_replanned s.dispatch.env task replanned)
    else fail_task s.dispatch.env task TaskTrigger.replan_exhausted action_failed
finish_task s task actions steps unproven =
    fail_task s.dispatch.env task TaskTrigger.required_failed not_verified
finish_task s task actions steps complete = do
  dest ← given (apply_task task.status TaskTrigger.all_succeeded)
  _ ← cas_task task.id task.status dest (λ t. record t { finished_at = some s.dispatch.env.now })
  given (s.remember (record task { status = dest; finished_at = some s.dispatch.env.now }) actions)

-- `_complete_if_done`
unfoldable pub complete_if_done : SchedulerEnv → Task → List Action → List Step → Session (Unit {0})
unfolding task_end finish_task
complete_if_done s task actions steps = do
  end ← given (task_end task actions steps)
  finish_task s task actions steps end

abbrev pub has_started : Action → Bool
has_started a =
    not (same_status a.status ActionStatus.planned) && not (same_status a.status ActionStatus.ready)

-- the deadline has passed, and the task is READY or RUNNING
abbrev pub is_overdue : ℕ → Task → Bool
is_overdue now task =
    elim task.deadline_at [ none ↦ false | some moment ↦ leb moment now ]
    && (same_task_status task.status TaskStatus.ready
        || same_task_status task.status TaskStatus.running)

-- `… or task`
abbrev pub or_task : Option Task → Task → Task
or_task none task = task
or_task (some new) task = new

abbrev pub start_if_begun : SchedulerEnv → Task → List Action → Session Task
start_if_begun s task actions =
    if any has_started actions
    then (do started ← maybe_start_task s.dispatch.env task; pure (or_task started task))
    else pure task

-- the part of `_tick_task` for a task that is not gated
unfoldable pub advance : SchedulerEnv → Task → List Step → List Action → Session (List Published)
unfolding sync_steps block_if_awaiting complete_if_done
advance s task steps actions = do
  _ ← promote_ready actions steps
  promoted ← list_actions task.id
  progress ← enqueue_ready s.dispatch task promoted
  now_actions ← list_actions task.id
  started ← start_if_begun s task now_actions
  sync_steps steps now_actions
  block_if_awaiting started now_actions
  complete_if_done s started now_actions steps
  pure progress.published

unfoldable pub unless_gated :
    SchedulerEnv → Task → List Step → List Action → Session (List Published)
unfolding advance
unless_gated s task steps actions =
    if same_task_status task.status TaskStatus.waiting_for_user
    then pure []
    else advance s task steps actions

abbrev pub tick_actions : SchedulerEnv → Task → List Step → List Action → Session (List Published)
tick_actions s task steps [] = pure []
tick_actions s task steps (a ∷ actions) = do
  resumed ← resume_if_unblocked task (a ∷ actions)
  unless_gated s (or_task resumed task) steps (a ∷ actions)

-- `_tick_task`
unfoldable pub tick_task : SchedulerEnv → Task → Session (List Published)
unfolding fail_task resume_if_unblocked unless_gated
tick_task s task =
    if is_overdue s.dispatch.env.now task
    then (do
      fail_task s.dispatch.env task TaskTrigger.deadline
          (task_error (codes "DEADLINE_EXCEEDED") (codes "task wall clock exceeded"))
      pure [])
    else (do
      steps ← list_steps task.id
      actions ← list_actions task.id
      tick_actions s task steps actions)
