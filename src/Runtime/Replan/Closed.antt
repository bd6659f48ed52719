-- ===== src/Runtime/Replan/Closed.antt =====
-- vyomel/orchestrator/replanning.py: what the replanning leaves of the rows of the actions.
use vyomel.Prelude.{
  ℕ, ◌≡◌, refl, Bool, true, false, none, some, List, [], ◌∷◌, ◌++◌, Text, codes, leb, eqb, select,
  find_first, arith, Bool-cases, inl, inr,
}
use vyomel.Core.Types.{ActionStatus, StepStatus}
use vyomel.Core.Json.{Fields}
use vyomel.Store.{Task, Step, Action}
use vyomel.Store.Session.{pure, ◌>>=◌, ◌>>◌, change}
use vyomel.Store.Session.Rules.{Keeps}
use vyomel.Store.Actions.{is_at, updated, update, cas_status, list_actions}
use vyomel.Store.Actions.Rows.{SameActions}
use vyomel.Store.Tasks.{list_steps, set_step_status}
use vyomel.Runtime.Gate.Kept.{same_bind, same_pure, same_given, same_actions}
use vyomel.Runtime.Closes.{RowsClose, Closes, same-Closes, Closes-bind, Closes-if, closed_refl}
use vyomel.Runtime.Replan.{
  NewRows, ReplanEnv, note_plan, append_replan, count_replan, is_final, write_running, resync_steps,
  replan_with, replan_step, replan_first, has_failed_at, try_replan,
}

pub set_step_status-SameActions :
    (id : ℕ) (status : StepStatus) → Keeps SameActions (set_step_status id status)
unfolding set_step_status
set_step_status-SameActions id status = record { kept = λ db a new e. ground arith }

pub list_steps-SameActions : (id : ℕ) → Keeps SameActions (list_steps id)
unfolding list_steps
list_steps-SameActions id = record { kept = λ db a new e. ground arith }

note_plan-SameActions :
    (r : ReplanEnv) (actor event : Text) (task : Task) (payload : Fields)
    → Keeps SameActions (note_plan r actor event task payload)
unfolding note_plan
note_plan-SameActions r actor event task payload = record { kept = λ db a new e. ground arith }

count_replan-SameActions : (task : Task) → Keeps SameActions (count_replan task)
unfolding count_replan
count_replan-SameActions task = record { kept = λ db a new e. ground arith }

write_running-SameActions : (s : Step) (b : Bool) → Keeps SameActions (write_running s b)
write_running-SameActions s true = set_step_status-SameActions s.id StepStatus.running
write_running-SameActions s false = same_pure tt

resync_steps-SameActions :
    (steps : List Step) (actions : List Action) → Keeps SameActions (resync_steps steps actions)
unfolding resync_steps
resync_steps-SameActions [] actions = same_pure tt
resync_steps-SameActions (s ∷ steps) actions =
    same_bind (write_running s _) _ (write_running-SameActions s _)
      (λ u. resync_steps-SameActions steps actions)

-- A failed row may be cancelled.
dropped-RowsClose :
    (id : ℕ) (rows : List Action)
    → RowsClose rows (
        updated
          (is_at id ActionStatus.failed)
          (λ a. record a { status = ActionStatus.cancelled })
          rows)
dropped-RowsClose id [] = tt
dropped-RowsClose id (a ∷ rows) = elim (Bool-cases (is_at id ActionStatus.failed a)) [
  | inl at ↦ rw at ((refl, ground (arith, at)), dropped-RowsClose id rows)
  | inr off ↦ rw off ((refl, closed_refl a.status), dropped-RowsClose id rows)
]

drop_failed-Closes :
    (id : ℕ) → Keeps Closes (cas_status id ActionStatus.failed ActionStatus.cancelled (λ a. a))
unfolding cas_status update
drop_failed-Closes id = record {
  kept = λ db row new e.
      let w : updated (is_at id ActionStatus.failed)
            (λ a. record a { status = ActionStatus.cancelled }) db.actions
          ≡ new.actions =
        ground (arith, e) in
      rw (← w) (dropped-RowsClose id db.actions);
}

added-RowsClose : (rows more : List Action) → RowsClose rows (rows ++ more)
added-RowsClose [] [] = tt
added-RowsClose [] (b ∷ more) = tt
added-RowsClose (a ∷ rows) more = ((refl, closed_refl a.status), added-RowsClose rows more)

appended-Closes :
    (rows : NewRows)
    → Keeps Closes (
        change (λ db. record db {
          steps = db.steps ++ rows.steps;
          actions = db.actions ++ rows.actions;
        }))
appended-Closes rows = record {
  kept = λ db u new e.
      let w : db.actions ++ rows.actions ≡ new.actions = ground (arith, e) in
      rw (← w) (added-RowsClose db.actions rows.actions);
}

append_replan-Closes :
    (r : ReplanEnv) (task : Task) (rows : NewRows) → Keeps Closes (append_replan r task rows)
unfolding append_replan
append_replan-Closes r task rows =
    Closes-bind
      (change
        (λ db. record db { steps = db.steps ++ rows.steps; actions = db.actions ++ rows.actions }))
      _ (appended-Closes rows)
      (λ u. same-Closes _ (
        note_plan-SameActions r (codes "orchestrator:replan") (codes "plan.installed") task
          (r.installed task rows)))

counted-SameActions :
    (r : ReplanEnv) (task : Task) (failed : Action) (steps : List Step)
    → Keeps SameActions (do
      count_replan task
      note_plan r (codes "planner:replan") (codes "plan.requested") task (r.requested task failed)
      refreshed ← list_actions task.id
      resync_steps steps refreshed
      pure true)
counted-SameActions r task failed steps =
    search (same_actions, count_replan-SameActions, note_plan-SameActions, resync_steps-SameActions)
      depth 20

replan_with-Closes :
    (r : ReplanEnv) (task : Task) (failed : Action) (steps : List Step) (rows : NewRows)
    → Keeps Closes (replan_with r task failed steps rows)
unfolding replan_with
replan_with-Closes r task failed steps rows = Closes-bind _ _ (drop_failed-Closes failed.id) (λ x.
    Closes-bind (append_replan r task rows) _ (append_replan-Closes r task rows)
      (λ u. same-Closes _ (counted-SameActions r task failed steps)))

replan_first-Closes :
    (r : ReplanEnv) (task : Task) (steps : List Step) (failed : List Action)
    → Keeps Closes (replan_first r task steps failed)
replan_first-Closes r task steps [] = same-Closes _ (same_pure false)
replan_first-Closes r task steps (a ∷ others) =
    Closes-if (is_final a.error) _ _ (same-Closes _ (same_pure false))
      (elim (find_first (λ s. eqb s.id a.step_id) steps)
        as (λ o. Keeps Closes (replan_step r task a steps o)) [
          | none ↦ record { kept = λ db x new e. cc }
          | some step ↦
              Closes-bind _ _ (same-Closes _ (same_given (r.plan task step a)))
                (λ rows. replan_with-Closes r task a steps rows)
        ])

pub try_replan-Closes :
    (r : ReplanEnv) (task : Task) (actions : List Action) (steps : List Step)
    → Keeps Closes (try_replan r task actions steps)
unfolding try_replan
try_replan-Closes r task actions steps =
    Closes-if (leb r.max_replans task.replan_count) _ _ (same-Closes _ (same_pure false))
      (replan_first-Closes r task steps (select has_failed_at actions))
