-- ===== src/Runtime/Worker/Run/Moved.antt =====
-- vyomel/runtime/worker.py: a worker moves the rows of the actions along the table only.
use vyomel.Prelude.{
  ℕ, ◌≡◌, refl, sym, Bool, true, false, ◌&&◌, Option, none, some, List, Text, ltb, if◌then◌else◌,
  arith, Bool-cases, inl, inr,
}
use vyomel.Core.Types.{ActionStatus, VerifyOutcome, held, broken, no_method, action_status_eq}
use vyomel.Core.Errors.{VyomelError, Result, ok, err, ErrorCode}
use vyomel.Core.Json.{Fields}
use vyomel.Runtime.State.{ActionTrigger, apply_action}
use vyomel.Runtime.Moves.{
  Reaches, RowMoves, update-Moves, Moves, Moves-move, Moves-move_with, RowsMove-refl,
  RowsMove-trans, Keeps-Moves,
}
use vyomel.Runtime.Gate.Kept.{moves, Moves-bind, same_actions, same_then, get_task-SameActions}
use vyomel.Store.{Db, Action}
use vyomel.Store.Session.{Session, raise, ◌>>=◌}
use vyomel.Store.Session.Rules.{Keeps}
use vyomel.Store.Actions.{can_claim, claimed, claimable, cas_claim, same_status}
use vyomel.Store.Tasks.{get_task}
use vyomel.Runtime.Worker.{
  Tool, Ending, returned, timed_out, stopped, tool_failed, vyomel_failed, crashed, Execution, Check,
  Report, WorkerEnv,
}
use vyomel.Runtime.Worker.Finish.{finish_failed, retry_later, retry_or_fail, finish_cancelled}
use vyomel.Runtime.Worker.Run.{
  record_checks, conclude, judge, settle, run_tool, refuse_replay, run_reserved, run_ready,
  run_checked, run_valid, run_found, run_claimed, refresh_and_record, is_cancelled, run_under,
  execute_found, execute, claim_found, claim, executed, handled, handle,
}
use vyomel.Runtime.Worker.Run.Settled.{refresh-SameActions}

abbrev Moved {ℓ} : {A : Type ℓ} → Session A → Type ℓ
Moved m = Keeps Moves m

finish_failed-Moved :
    (action : Action) (now : ℕ) (code : ErrorCode) (message : Text) (retryable : Bool)
    (observation : Option Text) (result : Option Fields)
    → Moved (finish_failed action now code message retryable observation result)
unfolding finish_failed
finish_failed-Moved action now code message retryable observation result =
    Moves-move _ _ _ _ _ (λ a. refl) (λ dest row. Keeps-Moves _ (search (same_actions)))

retry_or_fail-Moved :
    (pick : ℕ → ℕ) (action : Action) (now : ℕ) (code : ErrorCode) (message : Text)
    (retryable : Bool) (observation : Option Text)
    → Moved (retry_or_fail pick action now code message retryable observation)
unfolding retry_or_fail retry_later
retry_or_fail-Moved pick action now code message retryable observation =
    elim (Bool-cases (retryable && ltb action.attempt_count action.max_retries)) [
      | inl again ↦
          rw again (Moves-move_with _ _ _ _ _ _ (λ b a. refl) (λ dest b row. search (moves)))
      | inr over ↦ rw over (finish_failed-Moved action now code message retryable observation none)
    ]

finish_cancelled-Moved : (action : Action) (now : ℕ) → Moved (finish_cancelled action now)
unfolding finish_cancelled
finish_cancelled-Moved action now = Moves-move _ _ _ _ _ (λ a. refl) (λ dest row. search (moves))

conclude-Moved :
    (w : WorkerEnv) (action : Action) (run : Execution) (stored : Fields) (report : Report)
    (o : VerifyOutcome)
    → Moved (conclude w action run stored report o)
unfolding conclude
conclude-Moved w action run stored report held =
    Moves-move _ _ _ _ _ (λ a. refl) (λ dest row. search (moves))
conclude-Moved w action run stored report no_method =
    Moves-move _ _ _ _ _ (λ a. refl) (λ dest row. search (moves))
conclude-Moved w action run stored report broken = finish_failed-Moved action _ _ _ _ _ _

record_checks-SameActions : (id : ℕ) (checks : List Check) → Keeps Moves (record_checks id checks)
unfolding record_checks
record_checks-SameActions id checks = Keeps-Moves _ (record { kept = λ db a new e. ground arith })

judge-Moved :
    (w : WorkerEnv) (action : Action) (tool : Tool) (run : Execution) (output : Fields)
    → Moved (judge w action tool run output)
unfolding judge
judge-Moved w action tool run output =
    search (moves, Moves-bind, record_checks-SameActions, conclude-Moved) depth 20

cancel-Moved :
    (action : Action) (now : ℕ) (b : Bool) (m : Session (Unit {0}))
    → Moved m
    → Moved (if b then finish_cancelled action now else m)
cancel-Moved action now true m h = finish_cancelled-Moved action now
cancel-Moved action now false m h = h

raise-Moved : (e : VyomelError) → Moved (raise {A = Unit {0}} e)
raise-Moved e = record { kept = λ db a new h. cc }

settle-Moved :
    (w : WorkerEnv) (action : Action) (tool : Tool) (run : Execution) (ending : Ending)
    → Moved (settle w action tool run ending)
unfolding settle
settle-Moved w action tool run (returned output) = judge-Moved w action tool run output
settle-Moved w action tool run timed_out = retry_or_fail-Moved _ action _ _ _ _ _
settle-Moved w action tool run stopped = cancel-Moved action _ _ _ (raise-Moved _)
settle-Moved w action tool run (tool_failed code message retryable observation) =
    cancel-Moved action _ _ _ (retry_or_fail-Moved _ action _ _ _ _ _)
settle-Moved w action tool run (vyomel_failed code message retryable) =
    cancel-Moved action _ _ _ (retry_or_fail-Moved _ action _ _ _ _ _)
settle-Moved w action tool run (crashed name) = finish_failed-Moved action _ _ _ _ _ _

run_tool-Moved : (w : WorkerEnv) (action : Action) (tool : Tool) → Moved (run_tool w action tool)
unfolding run_tool
run_tool-Moved w action tool =
    settle-Moved w action tool (w.execute tool action) (w.execute tool action).ending

refuse_replay-Moved :
    (w : WorkerEnv) (action : Action) (result : Option Fields)
    → Moved (refuse_replay w action result)
unfolding refuse_replay
refuse_replay-Moved w action (some result) =
    Moves-move _ _ _ _ _ (λ a. refl) (λ dest row. search (moves))
refuse_replay-Moved w action none = finish_failed-Moved action _ _ _ _ _ _

run_reserved-Moved :
    (w : WorkerEnv) (action : Action) (tool : Tool) (reserved : Bool)
    → Moved (run_reserved w action tool reserved)
unfolding run_reserved
run_reserved-Moved w action tool true = run_tool-Moved w action tool
run_reserved-Moved w action tool false = refuse_replay-Moved w action action.result

run_ready-Moved :
    (w : WorkerEnv) (action : Action) (tool : Tool) (idempotent : Bool)
    → Moved (run_ready w action tool idempotent)
unfolding run_ready
run_ready-Moved w action tool true = run_tool-Moved w action tool
run_ready-Moved w action tool false = search (moves, run_reserved-Moved) depth 20

run_checked-Moved :
    (w : WorkerEnv) (action : Action) (tool : Tool) (reason : Option (Option Text))
    → Moved (run_checked w action tool reason)
unfolding run_checked
run_checked-Moved w action tool none = run_ready-Moved w action tool tool.idempotent
run_checked-Moved w action tool (some reason) = finish_failed-Moved action _ _ _ _ _ _

run_valid-Moved :
    (w : WorkerEnv) (action : Action) (tool : Tool) (invalid : Option Text)
    → Moved (run_valid w action tool invalid)
unfolding run_valid
run_valid-Moved w action tool none = run_checked-Moved w action tool (w.preflight tool action)
run_valid-Moved w action tool (some message) = finish_failed-Moved action _ _ _ _ _ _

run_found-Moved :
    (w : WorkerEnv) (action : Action) (tool : Option Tool) → Moved (run_found w action tool)
unfolding run_found
run_found-Moved w action none = finish_failed-Moved action _ _ _ _ _ _
run_found-Moved w action (some tool) =
    run_valid-Moved w action tool (w.invalid tool action.parameters)

run_under-Moved : (w : WorkerEnv) (action : Action) (b : Bool) → Moved (run_under w action b)
unfolding run_under run_claimed
run_under-Moved w action true = finish_cancelled-Moved action _
run_under-Moved w action false = run_found-Moved w action (w.lookup action.tool)

executing-Moved :
    (w : WorkerEnv) (action : Action)
    → Moved (
        get_task action.task_id >>= λ task.
        run_under w action (is_cancelled task) >>= λ u. refresh_and_record w action.id)
executing-Moved w action =
    same_then (get_task action.task_id) _ (get_task-SameActions action.task_id) (λ task.
      Moves-bind (run_under w action (is_cancelled task)) _
        (run_under-Moved w action (is_cancelled task))
        (λ u. Keeps-Moves _ (refresh-SameActions w action.id)))

execute_found-Moved : (w : WorkerEnv) (found : Option Action) → Moved (execute_found w found)
unfolding execute_found
execute_found-Moved w none = search (moves)
execute_found-Moved w (some action) =
    elim (Bool-cases (same_status action.status ActionStatus.running)) [
      | inl runs ↦ rw runs (executing-Moved w action)
      | inr idle ↦ rw idle (search (moves))
    ]

pub execute-Moves : (w : WorkerEnv) (id : ℕ) → Moved (execute w id)
unfolding execute
execute-Moves w id = search (moves, execute_found-Moved) depth 20

-- A row that a claim takes goes by DISPATCHED, or by READY and DISPATCHED, to RUNNING.
claimable-Reaches : (s : ActionStatus) → claimable s ≡ true → Reaches s ActionStatus.running
unfolding apply_action
claimable-Reaches ActionStatus.dispatched h =
    Reaches.next ActionTrigger.worker_claimed refl (Reaches.here ActionStatus.running)
claimable-Reaches ActionStatus.ready h =
    Reaches.next ActionTrigger.enqueued refl
      (Reaches.next ActionTrigger.worker_claimed refl (Reaches.here ActionStatus.running))
claimable-Reaches _ h = cc

claimed-RowMoves :
    (id : ℕ) (worker : Text) (until now : ℕ) (a : Action)
    → can_claim id a ≡ true
    → RowMoves a (claimed worker until now a)
claimed-RowMoves id worker until now a h = (refl, claimable-Reaches a.status (ground (arith, h)))

cas_claim-Moves : (id : ℕ) (worker : Text) (until now : ℕ) → Moved (cas_claim id worker until now)
unfolding cas_claim
cas_claim-Moves id worker until now =
    update-Moves (can_claim id) (claimed worker until now) (claimed-RowMoves id worker until now)

claim_found-Moved : (w : WorkerEnv) (found : Option Action) → Moved (claim_found w found)
unfolding claim_found
claim_found-Moved w none = search (moves)
claim_found-Moved w (some a) = search (moves, Moves-bind, cas_claim-Moves) depth 20

pub claim-Moves : (w : WorkerEnv) (id : ℕ) → Moved (claim w id)
unfolding claim
claim-Moves w id = search (moves, claim_found-Moved) depth 20

executed-Moves :
    (w : WorkerEnv) (id : ℕ) (first db : Db) (r : Result (Unit {0} × Db))
    → r ≡ execute w id db
    → Moves first db
    → Moves first (executed w id db r).1
executed-Moves w id first db (err e) h m = m
executed-Moves w id first db (ok (u, new)) h m =
    RowsMove-trans first.actions db.actions new.actions m
      ((execute-Moves w id).kept db u new (sym h))

handled-Moves :
    (w : WorkerEnv) (id : ℕ) (db : Db) (r : Result (Bool × Db))
    → r ≡ claim w id db
    → Moves db (handled w id db r).1
handled-Moves w id db (err e) h = RowsMove-refl db.actions
handled-Moves w id db (ok (false, new)) h = (claim-Moves w id).kept db false new (sym h)
handled-Moves w id db (ok (true, new)) h =
    executed-Moves w id db new (execute w id new) refl ((claim-Moves w id).kept db true new (sym h))

pub handle-Moves : (w : WorkerEnv) (id : ℕ) (db : Db) → Moves db (handle w id db).1
unfolding handle
handle-Moves w id db = handled-Moves w id db (claim w id db) refl
