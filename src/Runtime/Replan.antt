-- ===== src/Runtime/Replan.antt =====
-- vyomel/orchestrator/replanning.py: what the scheduler calls when a task has a failed action. The new plan, as
-- the rows that `PlanService._materialize` makes of the planner's answer, is a parameter.
pub mod Closed
use vyomel.Prelude.{
  ℕ, suc, Bool, true, false, not, ◌&&◌, ◌||◌, Option, none, some, List, [], ◌∷◌, ◌++◌, map, Text,
  codes, text_beq, eqb, leb, any, select, find_first, if◌then◌else◌,
}
use vyomel.Core.Types.{ActionStatus, action_is_terminal, StepStatus}
use vyomel.Core.Errors.{Result, raise_class, runtime_error}
use vyomel.Core.Json.{Fields}
use vyomel.Security.Audit.{append}
use vyomel.Store.{Db, Task, Step, Action, ErrorInfo}
use vyomel.Store.Session.{Session, pure, raise, given, ◌>>=◌, ◌>>◌, change}
use vyomel.Store.Actions.{same_status, list_actions, cas_status}
use vyomel.Store.Tasks.{set_step_status}
use vyomel.Runtime.Gate.{Env}

-- The new rows of a plan.
pub record NewRows : Type 0 where
  pub steps : List Step
  pub actions : List Action

pub record ReplanEnv : Type 0 where
  pub env : Env
  pub max_replans : ℕ
  -- `replan` and `_materialize`, for a task and its failed step and action
  pub plan : Task → Step → Action → Result NewRows
  -- the payloads of the two records in the trail
  pub installed : Task → NewRows → Fields
  pub requested : Task → Action → Fields

abbrev pub has_failed_at : Action → Bool
has_failed_at a = same_status a.status ActionStatus.failed

-- `code in {"VERIFICATION_FAILED", "PERMISSION_DENIED"}`
abbrev pub is_final : Option ErrorInfo → Bool
is_final none = false
is_final (some e) =
    text_beq e.code (codes "VERIFICATION_FAILED") || text_beq e.code (codes "PERMISSION_DENIED")

-- `audit.append` about the task
unfoldable pub note_plan : ReplanEnv → Text → Text → Task → Fields → Session (Unit {0})
note_plan r actor event task payload = change (λ db.
    let (row, trail) =
      append r.env.hashing r.env.scrubbing r.env.secrets r.env.now actor event
        (some (r.env.ulid task.id)) none none payload db.trail in
    record db { trail = trail })

-- `append_replan`, without the version of the plan and the level in its record
unfoldable pub append_replan : ReplanEnv → Task → NewRows → Session (Unit {0})
unfolding note_plan
append_replan r task rows = do
  change (λ db. record db { steps = db.steps ++ rows.steps; actions = db.actions ++ rows.actions })
  note_plan r (codes "orchestrator:replan") (codes "plan.installed") task (r.installed task rows)

-- `task.replan_count += 1`
unfoldable pub count_replan : Task → Session (Unit {0})
count_replan task = change (λ db. record db {
  tasks =
      map
        (λ (t : Task).
          if eqb t.id task.id then record t { replan_count = suc task.replan_count } else t)
        db.tasks;
})

-- a step that has live actions again and no failed one
abbrev pub runs_again : List Action → Bool
runs_again group =
    not (any has_failed_at group) && any (λ a. not (action_is_terminal a.status)) group

abbrev pub write_running : Step → Bool → Session (Unit {0})
write_running s true = set_step_status s.id StepStatus.running
write_running s false = pure tt

unfoldable pub resync_steps : List Step → List Action → Session (Unit {0})
resync_steps [] actions = pure tt
resync_steps (s ∷ steps) actions = do
  write_running s (runs_again (select (λ a. eqb a.step_id s.id) actions))
  resync_steps steps actions

-- the failed action makes room for the new plan
unfoldable pub replan_with : ReplanEnv → Task → Action → List Step → NewRows → Session Bool
unfolding append_replan count_replan resync_steps
replan_with r task failed steps rows = do
  _ ← cas_status failed.id ActionStatus.failed ActionStatus.cancelled (λ a. a)
  append_replan r task rows
  count_replan task
  note_plan r (codes "planner:replan") (codes "plan.requested") task (r.requested task failed)
  refreshed ← list_actions task.id
  resync_steps steps refreshed
  pure true

-- `next(s for s in steps if s.id == failed_action.step_id)`; out of a coroutine its StopIteration comes as a
-- RuntimeError
abbrev pub replan_step : ReplanEnv → Task → Action → List Step → Option Step → Session Bool
replan_step r task failed steps none = raise (raise_class runtime_error)
replan_step r task failed steps (some step) = do
  rows ← given (r.plan task step failed)
  replan_with r task failed steps rows

abbrev pub replan_first : ReplanEnv → Task → List Step → List Action → Session Bool
replan_first r task steps [] = pure false
replan_first r task steps (failed ∷ others) =
    if is_final failed.error
    then pure false
    else replan_step r task failed steps (find_first (λ s. eqb s.id failed.step_id) steps)

-- `OrchestratorReplanGate.try_replan`
unfoldable pub try_replan : ReplanEnv → Task → List Action → List Step → Session Bool
unfolding replan_with
try_replan r task actions steps =
    if leb r.max_replans task.replan_count
    then pure false
    else replan_first r task steps (select has_failed_at actions)
