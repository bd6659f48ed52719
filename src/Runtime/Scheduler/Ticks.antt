-- ===== src/Runtime/Scheduler/Ticks.antt =====
-- vyomel/runtime/scheduler.py: what a tick does for a task that is overdue, and for one that is gated.
use vyomel.Prelude.{
  ℕ, ◌≤◌, ◌≡◌, ◌⊎◌, refl, Bool, true, false, map, if◌then◌else◌, ◌&&◌, none, some, List, [], ◌∷◌,
  eqb, any, select, arith, inl, inr, codes,
}
use vyomel.Core.Types.{TaskStatus, task_status_eq}
use vyomel.Core.Errors.{Result, ok}
use vyomel.Runtime.State.{TaskTrigger, apply_task}
use vyomel.Runtime.Dispatcher.{Published}
use vyomel.Store.{Db, Task, Step, Action}
use vyomel.Store.Actions.{list_actions}
use vyomel.Store.Tasks.{same_task_status, cas_task, updated_tasks, by_ordinal, list_steps}
use vyomel.Runtime.Scheduler.{
  SchedulerEnv, is_waiting, resume_if_unblocked, unless_gated, tick_actions, tick_task, is_overdue,
  fail_task,
}

gated_actions :
    (s : SchedulerEnv) (task : Task) (steps : List Step) (actions : List Action) (db new : Db)
    (published : List Published)
    → same_task_status task.status TaskStatus.waiting_for_user ≡ true
    → any is_waiting actions ≡ true
    → tick_actions s task steps actions db ≡ ok (published, new)
    → (published ≡ []) × (new ≡ db)
unfolding resume_if_unblocked unless_gated
gated_actions s task steps [] db new published w a h = cc
gated_actions s task steps (b ∷ actions) db new published w a h =
    let blocked : resume_if_unblocked task (b ∷ actions) db ≡ ok (none, db) = rw (w, a) refl in
    let f : unless_gated s task steps (b ∷ actions) db ≡ ok (published, new) = rw blocked at h in
    let g : Result.ok ([], db) ≡ ok (published, new) = rw w at f in ground (arith, g)

-- Where a task waits for the user and one of its actions does too, a tick that returns changes nothing
-- and publishes nothing.
pub gated_tick_stays :
    (s : SchedulerEnv) (task : Task) (db new : Db) (published : List Published)
    → same_task_status task.status TaskStatus.waiting_for_user ≡ true
    → any is_waiting (select (λ a. eqb a.task_id task.id) db.actions) ≡ true
    → tick_task s task db ≡ ok (published, new)
    → (published ≡ []) × (new ≡ db)
unfolding tick_task list_steps list_actions
gated_tick_stays s task db new published w a h =
    let open_ended : is_overdue s.dispatch.env.now task ≡ false = ground (arith, w) in
    let f = rw open_ended at h in
    gated_actions s task (by_ordinal (select (λ q. eqb q.task_id task.id) db.steps))
      (select (λ q. eqb q.task_id task.id) db.actions) db new published w a f

-- what the deadline makes of a row
abbrev pub expired_task : ℕ → Task → Task → Task
expired_task now task row =
    if eqb row.id task.id && same_task_status row.status task.status
    then record row {
      status = TaskStatus.failed;
      finished_at = some now;
      error = some (record {
        code = codes "DEADLINE_EXCEEDED";
        message = codes "task wall clock exceeded";
        retryable = false;
        observation = none;
      });
    }
    else row

updated_tasks-map :
    (p : Task → Bool) (f : Task → Task) (rows : List Task)
    → updated_tasks p f rows ≡ map (λ t. if p t then f t else t) rows
updated_tasks-map p f [] = refl
updated_tasks-map p f (t ∷ rows) = rw (updated_tasks-map p f rows) refl

overdue :
    (now moment : ℕ) (task : Task)
    → task.deadline_at ≡ some moment
    → moment ≤ now
    → (task.status ≡ TaskStatus.ready) ⊎ (task.status ≡ TaskStatus.running)
    → is_overdue now task ≡ true
overdue now moment task d m (inl e) = rw (d, e) (ground (arith, m))
overdue now moment task d m (inr e) = rw (d, e) (ground (arith, m))

deadline_dest :
    (s : TaskStatus)
    → (s ≡ TaskStatus.ready) ⊎ (s ≡ TaskStatus.running)
    → apply_task s TaskTrigger.deadline ≡ ok TaskStatus.failed
unfolding apply_task
deadline_dest s (inl e) = rw e refl
deadline_dest s (inr e) = rw e refl

-- A tick for a task that is READY or RUNNING at or past its deadline returns, publishes nothing, and
-- changes the database in the rows of the task at that status only: they are FAILED, with the error
-- DEADLINE_EXCEEDED and the time of the tick as their end.
pub deadline_stops :
    (s : SchedulerEnv) (task : Task) (moment : ℕ) (db : Db)
    → task.deadline_at ≡ some moment
    → moment ≤ s.dispatch.env.now
    → (task.status ≡ TaskStatus.ready) ⊎ (task.status ≡ TaskStatus.running)
    → tick_task s task db
      ≡ ok ([], record db { tasks = map (expired_task s.dispatch.env.now task) db.tasks })
unfolding tick_task fail_task cas_task
deadline_stops s task moment db d m e =
    rw (overdue s.dispatch.env.now moment task d m e, deadline_dest task.status e)
      (rw (updated_tasks-map _ _ db.tasks) refl)
