-- ===== src/Store/Tasks.antt =====
-- `TaskRepo` and `StepRepo` of vyomel/store/repos.py.
use vyomel.Prelude.{
  ℕ, Bool, true, false, ◌&&◌, Option, none, some, List, [], ◌∷◌, eqb, select, find_first, ltb,
  if◌then◌else◌,
}
use vyomel.Core.Types.{TaskStatus, task_status_eq, StepStatus}
use vyomel.Store.{Task, Step}
use vyomel.Store.Session.{Session, pure, ◌>>=◌, ◌>>◌, look, change}

abbrev pub same_task_status : TaskStatus → TaskStatus → Bool
same_task_status a b = task_status_eq.beq a b

abbrev pub updated_tasks : (Task → Bool) → (Task → Task) → List Task → List Task
updated_tasks p f [] = []
updated_tasks p f (t ∷ rows) = (if p t then f t else t) ∷ updated_tasks p f rows

unfoldable pub get_task : ℕ → Session (Option Task)
get_task id = look (λ db. find_first (λ t. eqb t.id id) db.tasks)

-- `TaskRepo.cas_status`
unfoldable pub cas_task : ℕ → TaskStatus → TaskStatus → (Task → Task) → Session (Option Task)
cas_task id expected new fields = do
  let p = λ (t : Task). eqb t.id id && same_task_status t.status expected
  let f = λ (t : Task). record (fields t) { status = new }
  row ← look (λ db. elim (find_first p db.tasks) [ none ↦ none | some t ↦ some (f t) ])
  change (λ db. record db { tasks = updated_tasks p f db.tasks })
  pure row

abbrev pub is_runnable : TaskStatus → Bool
is_runnable TaskStatus.ready = true
is_runnable TaskStatus.running = true
is_runnable TaskStatus.waiting_for_user = true
is_runnable _ = false

unfoldable pub runnable : Session (List Task)
runnable = look (λ db. select (λ t. is_runnable t.status) db.tasks)

-- `order_by(Step.ordinal)`
abbrev pub insert_step : Step → List Step → List Step
insert_step s [] = s ∷ []
insert_step s (q ∷ rows) = if ltb q.ordinal s.ordinal then q ∷ insert_step s rows else s ∷ q ∷ rows

abbrev pub by_ordinal : List Step → List Step
by_ordinal [] = []
by_ordinal (s ∷ rows) = insert_step s (by_ordinal rows)

unfoldable pub list_steps : ℕ → Session (List Step)
list_steps task_id = look (λ db. by_ordinal (select (λ s. eqb s.task_id task_id) db.steps))

abbrev pub with_step_status : ℕ → StepStatus → List Step → List Step
with_step_status id status [] = []
with_step_status id status (s ∷ rows) =
    (if eqb s.id id then record s { status = status } else s) ∷ with_step_status id status rows

unfoldable pub set_step_status : ℕ → StepStatus → Session (Unit {0})
set_step_status id status = change (λ db. record db { steps = with_step_status id status db.steps })
