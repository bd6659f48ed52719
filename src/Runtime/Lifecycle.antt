-- ===== src/Runtime/Lifecycle.antt =====
-- vyomel/runtime: the units of work of the engine as the steps of a relation on the database, in any order
-- and any number, and what holds over all of them.
use vyomel.Prelude.{ℕ, ◌≡◌, refl, Bool, ◌&&◌, Option, some, List, Text}
use vyomel.Core.Types.{ActionStatus}
use vyomel.Core.Errors.{ok}
use vyomel.Runtime.Moves.{here, Moves, update-Moves}
use vyomel.Runtime.Gate.{Env, GateVerdict}
use vyomel.Runtime.Gate.Decide as Decide
use vyomel.Runtime.Gate.Answer as Answer
use vyomel.Runtime.Gate.Kept.{check-Moves, grant-Moves, refuse-Moves, expire_overdue-Moves}
use vyomel.Runtime.Reaper as Reaper
use vyomel.Runtime.Reaper.Cleared.{reap-Moves}
use vyomel.Runtime.Dispatcher as Dispatcher
use vyomel.Runtime.Dispatcher.Moved.{promote_ready-Moves, enqueue_ready-Moves}
use vyomel.Runtime.Worker.{WorkerEnv}
use vyomel.Runtime.Worker.Run as Run
use vyomel.Runtime.Worker.Run.Moved.{handle-Moves}
use vyomel.Runtime.Cancel as Cancel
use vyomel.Runtime.Cancel.Closed.{begin_cancel-Closes, finish_cancel-Closes}
use vyomel.Runtime.Scheduler.{SchedulerEnv, tick_task}
use vyomel.Runtime.Ticked.{tick_task-Closes}
use vyomel.Runtime.Dispatcher.{Published}
use vyomel.Runtime.Closes.{
  RowsClose, RowsClose-refl, RowsClose-trans, RowsMove-RowsClose, Closes, Moves-Closes,
}
use vyomel.Store.{Db, Action, Task, Step}
use vyomel.Store.Session.Rules.{Keeps}
use vyomel.Store.Actions.{extend_lease, is_at, is_owner}

-- One committed unit of work.
pub data Works : Db → Db → Type 0 where
  checked :
      {db new : Db} (env : Env) (action : Action) (task : Task) (v : GateVerdict)
      → Decide.check env action task db ≡ ok (v, new)
      → Works db new
  granted :
      {db new : Db} (env : Env) (action : Action) (approval_id : ℕ) (decided_by : Text)
      (modified : Bool)
      → Answer.grant env action approval_id decided_by modified db ≡ ok (tt, new)
      → Works db new
  refused :
      {db new : Db} (env : Env) (action : Action) (approval_id : ℕ)
      (decided_by event message : Text)
      → Answer.refuse env action approval_id decided_by event message db ≡ ok (tt, new)
      → Works db new
  swept :
      {db new : Db} (env : Env) (ids : List ℕ)
      → Answer.expire_overdue env db ≡ ok (ids, new)
      → Works db new
  promoted :
      {db new : Db} (actions : List Action) (steps : List Step) (n : ℕ)
      → Dispatcher.promote_ready actions steps db ≡ ok (n, new)
      → Works db new
  enqueued :
      {db new : Db} (d : Dispatcher.DispatchEnv) (task : Task) (actions : List Action)
      (end : Dispatcher.Progress)
      → Dispatcher.enqueue_ready d task actions db ≡ ok (end, new)
      → Works db new
  reaped :
      {db new : Db} (moment : ℕ) (ids : List ℕ)
      → Reaper.reap moment db ≡ ok (ids, new)
      → Works db new
  handled : {db new : Db} (w : WorkerEnv) (id : ℕ) → (Run.handle w id db).1 ≡ new → Works db new
  beaten :
      {db new : Db} (id : ℕ) (worker : Text) (until : ℕ) (row : Option Action)
      → extend_lease id worker until db ≡ ok (row, new)
      → Works db new
  begun :
      {db new : Db} (env : Env) (task_id : ℕ) (moved : Bool)
      → Cancel.begin_cancel env task_id db ≡ ok (moved, new)
      → Works db new
  cancelled :
      {db new : Db} (c : Cancel.CancelEnv) (actor : Text) (task_id : ℕ)
      (report : Cancel.CancelReport)
      → Cancel.finish_cancel c actor task_id db ≡ ok (report, new)
      → Works db new
  ticked :
      {db new : Db} (s : SchedulerEnv) (task : Task) (published : List Published)
      → tick_task s task db ≡ ok (published, new)
      → Works db new

-- Any sequence of them, by any workers and with any clocks.
pub data Runs (db : Db) : Db → Type 0 where
  start : Runs db db
  later : {mid new : Db} → Runs db mid → Works mid new → Runs db new

extend_lease-Moves :
    (id : ℕ) (worker : Text) (until : ℕ) → Keeps Moves (extend_lease id worker until)
unfolding extend_lease
extend_lease-Moves id worker until =
    update-Moves (λ a. is_at id ActionStatus.running a && is_owner worker a.lease_owner)
      (λ a. record a { lease_until = some until }) (λ a h. (refl, here a.status))

Works-Closes : {db new : Db} → Works db new → Closes db new
Works-Closes {db} {new} (checked env action task v h) =
    (Moves-Closes _ (check-Moves env action task)).kept db v new h
Works-Closes {db} {new} (granted env action id by modified h) =
    (Moves-Closes _ (grant-Moves env action id by modified)).kept db tt new h
Works-Closes {db} {new} (refused env action id by event message h) =
    (Moves-Closes _ (refuse-Moves env action id by event message)).kept db tt new h
Works-Closes {db} {new} (swept env ids h) =
    (Moves-Closes _ (expire_overdue-Moves env)).kept db ids new h
Works-Closes {db} {new} (promoted actions steps n h) =
    (Moves-Closes _ (promote_ready-Moves actions steps)).kept db n new h
Works-Closes {db} {new} (enqueued d task actions end h) =
    (Moves-Closes _ (enqueue_ready-Moves d task actions)).kept db end new h
Works-Closes {db} {new} (reaped moment ids h) =
    (Moves-Closes _ (reap-Moves moment)).kept db ids new h
Works-Closes {db} {new} (handled w id h) =
    RowsMove-RowsClose db.actions new.actions (rw h at (handle-Moves w id db))
Works-Closes {db} {new} (beaten id worker until row h) =
    (Moves-Closes _ (extend_lease-Moves id worker until)).kept db row new h
Works-Closes {db} {new} (begun env task_id moved h) =
    (begin_cancel-Closes env task_id).kept db moved new h
Works-Closes {db} {new} (cancelled c actor task_id report h) =
    (finish_cancel-Closes c actor task_id).kept db report new h
Works-Closes {db} {new} (ticked s task published h) =
    (tick_task-Closes s task).kept db published new h

-- Over any sequence of committed units of work (a call of the gate, a pass of the dispatcher, the
-- worker or the reaper, a heartbeat, a tick of the scheduler with its replanning, the two parts of a
-- cancellation), in any order, the rows of the actions keep their places and identifiers, new rows
-- stand behind them, and a row that is terminal keeps its status, except that SUCCEEDED may become
-- ROLLED_BACK and FAILED may become CANCELLED.
pub terminal_rows_stay : (db new : Db) → Runs db new → RowsClose db.actions new.actions
terminal_rows_stay db new start = RowsClose-refl db.actions
terminal_rows_stay db new (later {mid} r w) =
    RowsClose-trans db.actions mid.actions new.actions (terminal_rows_stay db mid r)
      (Works-Closes w)
