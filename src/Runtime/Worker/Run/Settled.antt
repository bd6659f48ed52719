-- ===== src/Runtime/Worker/Run/Settled.antt =====
-- vyomel/runtime/worker.py: an attempt that is carried through does not leave its action RUNNING.
use vyomel.Prelude.{
  ℕ, ◌≡◌, subst, Bool, true, false, ◌&&◌, Option, none, some, Text, ltb, eqb, find_first,
  if◌then◌else◌, Bool-cases, inl, inr, find_first-some, eqb_iff,
}
use vyomel.Core.Types.{ActionStatus, VerifyOutcome, held, broken, no_method}
use vyomel.Core.Errors.{VyomelError, ok, ErrorCode}
use vyomel.Core.Json.{Fields}
use vyomel.Runtime.Moves.{Left-move, Left-move_with}
use vyomel.Runtime.Gate.Kept.{same_actions}
use vyomel.Store.{Db, Action}
use vyomel.Store.Session.{Session, raise, ◌>>=◌}
use vyomel.Store.Session.Rules.{Keeps}
use vyomel.Store.Actions.{get_action, same_status}
use vyomel.Store.Actions.Rows.{Left, Ends, SameActions, Left-first, Left-rest}
use vyomel.Store.Tasks.{get_task}
use vyomel.Runtime.Worker.{
  Tool, Ending, returned, timed_out, stopped, tool_failed, vyomel_failed, crashed, Execution,
  Report, WorkerEnv,
}
use vyomel.Runtime.Worker.Finish.{finish_failed, retry_later, retry_or_fail, finish_cancelled}
use vyomel.Runtime.Worker.Run.{
  conclude, judge, settle, run_tool, refuse_replay, run_reserved, run_ready, run_checked, run_valid,
  run_found, run_claimed, record_outcome, record_found, refresh_and_record, is_cancelled, run_under,
  execute_found, execute,
}

-- The unit of work ends with the action at RUNNING nowhere.
abbrev Settled : Action → Session (Unit {0}) → Type 0
Settled action m = Ends (Left action.id ActionStatus.running) m

finish_failed-Settled :
    (action : Action) (now : ℕ) (code : ErrorCode) (message : Text) (retryable : Bool)
    (observation : Option Text) (result : Option Fields)
    → Settled action (finish_failed action now code message retryable observation result)
unfolding finish_failed
finish_failed-Settled action now code message retryable observation result =
    Left-move _ _ _ _ _ (λ dest row. search (same_actions))

retry_or_fail-Settled :
    (pick : ℕ → ℕ) (action : Action) (now : ℕ) (code : ErrorCode) (message : Text)
    (retryable : Bool) (observation : Option Text)
    → Settled action (retry_or_fail pick action now code message retryable observation)
unfolding retry_or_fail retry_later
retry_or_fail-Settled pick action now code message retryable observation =
    elim (Bool-cases (retryable && ltb action.attempt_count action.max_retries)) [
      | inl again ↦ rw again (Left-move_with _ _ _ _ _ _ (λ dest b row. search (same_actions)))
      | inr over ↦
          rw over (finish_failed-Settled action now code message retryable observation none)
    ]

finish_cancelled-Settled :
    (action : Action) (now : ℕ) → Settled action (finish_cancelled action now)
unfolding finish_cancelled
finish_cancelled-Settled action now = Left-move _ _ _ _ _ (λ dest row. search (same_actions))

conclude-Settled :
    (w : WorkerEnv) (action : Action) (run : Execution) (stored : Fields) (report : Report)
    (o : VerifyOutcome)
    → Settled action (conclude w action run stored report o)
unfolding conclude
conclude-Settled w action run stored report held =
    Left-move _ _ _ _ _ (λ dest row. search (same_actions))
conclude-Settled w action run stored report no_method =
    Left-move _ _ _ _ _ (λ dest row. search (same_actions))
conclude-Settled w action run stored report broken = finish_failed-Settled action _ _ _ _ _ _

judge-Settled :
    (w : WorkerEnv) (action : Action) (tool : Tool) (run : Execution) (output : Fields)
    → Settled action (judge w action tool run output)
unfolding judge
judge-Settled w action tool run output = search (Left-rest, conclude-Settled) depth 20

cancel-Settled :
    (action : Action) (now : ℕ) (b : Bool) (m : Session (Unit {0}))
    → Settled action m
    → Settled action (if b then finish_cancelled action now else m)
cancel-Settled action now true m h = finish_cancelled-Settled action now
cancel-Settled action now false m h = h

raise-Settled : (action : Action) (e : VyomelError) → Settled action (raise e)
raise-Settled action e = record { ends = λ db a new h. cc }

settle-Settled :
    (w : WorkerEnv) (action : Action) (tool : Tool) (run : Execution) (ending : Ending)
    → Settled action (settle w action tool run ending)
unfolding settle
settle-Settled w action tool run (returned output) = judge-Settled w action tool run output
settle-Settled w action tool run timed_out = retry_or_fail-Settled _ action _ _ _ _ _
settle-Settled w action tool run stopped = cancel-Settled action _ _ _ (raise-Settled action _)
settle-Settled w action tool run (tool_failed code message retryable observation) =
    cancel-Settled action _ _ _ (retry_or_fail-Settled _ action _ _ _ _ _)
settle-Settled w action tool run (vyomel_failed code message retryable) =
    cancel-Settled action _ _ _ (retry_or_fail-Settled _ action _ _ _ _ _)
settle-Settled w action tool run (crashed name) = finish_failed-Settled action _ _ _ _ _ _

run_tool-Settled :
    (w : WorkerEnv) (action : Action) (tool : Tool) → Settled action (run_tool w action tool)
unfolding run_tool
run_tool-Settled w action tool =
    settle-Settled w action tool (w.execute tool action) (w.execute tool action).ending

refuse_replay-Settled :
    (w : WorkerEnv) (action : Action) (result : Option Fields)
    → Settled action (refuse_replay w action result)
unfolding refuse_replay
refuse_replay-Settled w action (some result) =
    Left-move _ _ _ _ _ (λ dest row. search (same_actions))
refuse_replay-Settled w action none = finish_failed-Settled action _ _ _ _ _ _

run_reserved-Settled :
    (w : WorkerEnv) (action : Action) (tool : Tool) (reserved : Bool)
    → Settled action (run_reserved w action tool reserved)
unfolding run_reserved
run_reserved-Settled w action tool true = run_tool-Settled w action tool
run_reserved-Settled w action tool false = refuse_replay-Settled w action action.result

run_ready-Settled :
    (w : WorkerEnv) (action : Action) (tool : Tool) (idempotent : Bool)
    → Settled action (run_ready w action tool idempotent)
unfolding run_ready
run_ready-Settled w action tool true = run_tool-Settled w action tool
run_ready-Settled w action tool false = search (Left-rest, run_reserved-Settled)

run_checked-Settled :
    (w : WorkerEnv) (action : Action) (tool : Tool) (reason : Option (Option Text))
    → Settled action (run_checked w action tool reason)
unfolding run_checked
run_checked-Settled w action tool none = run_ready-Settled w action tool tool.idempotent
run_checked-Settled w action tool (some reason) = finish_failed-Settled action _ _ _ _ _ _

run_valid-Settled :
    (w : WorkerEnv) (action : Action) (tool : Tool) (invalid : Option Text)
    → Settled action (run_valid w action tool invalid)
unfolding run_valid
run_valid-Settled w action tool none = run_checked-Settled w action tool (w.preflight tool action)
run_valid-Settled w action tool (some message) = finish_failed-Settled action _ _ _ _ _ _

run_found-Settled :
    (w : WorkerEnv) (action : Action) (tool : Option Tool)
    → Settled action (run_found w action tool)
unfolding run_found
run_found-Settled w action none = finish_failed-Settled action _ _ _ _ _ _
run_found-Settled w action (some tool) =
    run_valid-Settled w action tool (w.invalid tool action.parameters)

run_claimed-Settled : (w : WorkerEnv) (action : Action) → Settled action (run_claimed w action)
unfolding run_claimed
run_claimed-Settled w action = run_found-Settled w action (w.lookup action.tool)

run_under-Settled :
    (w : WorkerEnv) (action : Action) (b : Bool) → Settled action (run_under w action b)
unfolding run_under
run_under-Settled w action true = finish_cancelled-Settled action _
run_under-Settled w action false = run_claimed-Settled w action

record_found-SameActions :
    (w : WorkerEnv) (found : Option Action) → Keeps SameActions (record_found w found)
unfolding record_outcome
record_found-SameActions w none = record { kept = λ db a new h. cc }
record_found-SameActions w (some action) = search (same_actions)

pub refresh-SameActions : (w : WorkerEnv) (id : ℕ) → Keeps SameActions (refresh_and_record w id)
unfolding refresh_and_record
refresh-SameActions w id = search (same_actions, record_found-SameActions) depth 20

executing-Settled :
    (w : WorkerEnv) (action : Action)
    → Settled action (
        get_task action.task_id >>= λ task.
        run_under w action (is_cancelled task) >>= λ u. refresh_and_record w action.id)
executing-Settled w action =
    Left-rest action.id ActionStatus.running (get_task action.task_id) _ (λ task.
      Left-first action.id ActionStatus.running (run_under w action (is_cancelled task)) _
        (run_under-Settled w action (is_cancelled task)) (λ u. refresh-SameActions w action.id))

-- Where a row is RUNNING when execute reads it, and execute returns, no row of the action is RUNNING
-- afterwards.
pub execute_settles :
    (w : WorkerEnv) (id : ℕ) (db new : Db) (action : Action)
    → find_first (λ a. eqb a.id id) db.actions ≡ some action
    → same_status action.status ActionStatus.running ≡ true
    → execute w id db ≡ ok (tt, new)
    → Left id ActionStatus.running new
unfolding execute execute_found get_action
execute_settles w id db new action f r h =
    let found : execute_found w (some action) db ≡ ok (tt, new) = rw f at h in
    let runs : (get_task action.task_id >>= λ task.
    run_under w action (is_cancelled task) >>= λ u. refresh_and_record w action.id)
          db
        ≡ ok (tt, new) =
      rw r at found in
    let same : action.id ≡ id =
      (eqb_iff action.id id).0 (find_first-some (λ a. eqb a.id id) db.actions action f) in
    subst (λ i. Left i ActionStatus.running new) same
      ((executing-Settled w action).ends db tt new runs)
