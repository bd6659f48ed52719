-- ===== src/Runtime/Worker/Run.antt =====
-- vyomel/runtime/worker.py: `_handle`, `_execute` and `_run_claimed`.
pub mod Settled
pub mod Moved
pub mod Once
use vyomel.Prelude.{
  ℕ, ◌+◌, ◌*◌, Bool, true, false, ◌||◌, Option, none, some, List, [], ◌∷◌, ◌++◌, map, Text, codes,
  find_first, if◌then◌else◌,
}
use vyomel.Core.Types.{ActionStatus, TaskStatus, VerifyOutcome, held, broken, no_method}
use vyomel.Core.Errors.{
  Result, ok, err, ErrorCode, timeout, unsupported, invalid_parameters, precondition_failed,
  conflict, internal, verification_failed, raise_class, cancelled_error, invalid_request_error,
}
use vyomel.Core.Json.{ℤ, pos, Value, Fields}
use vyomel.Store.{Db, Task, Action, Verification}
use vyomel.Store.Session.{Session, pure, raise, given, ◌>>=◌, ◌>>◌, look, change}
use vyomel.Store.Actions.{same_status, get_action, cas_status, cas_claim, insert_ledger}
use vyomel.Store.Tasks.{get_task, same_task_status}
use vyomel.Runtime.State.{ActionTrigger, apply_action}
use vyomel.Runtime.Gate.{Env, note}
use vyomel.Runtime.Worker.{
  Tool, Ending, returned, timed_out, stopped, tool_failed, vyomel_failed, crashed, Execution, Check,
  Report, WorkerEnv,
}
use vyomel.Runtime.Worker.Finish.{finish_failed, retry_or_fail, finish_cancelled}

-- `outcome.value`
abbrev pub outcome_value : VerifyOutcome → Text
outcome_value held = codes "PASS"
outcome_value broken = codes "FAIL"
outcome_value no_method = codes "NO_METHOD"

abbrev pub is_broken : VerifyOutcome → Bool
is_broken broken = true
is_broken _ = false

-- `_failing_observation`
abbrev pub failing_observation : WorkerEnv → Report → Text
failing_observation w report = elim (find_first (λ c. is_broken c.outcome) report.checks) [
  | none ↦ outcome_value report.outcome
  | some c ↦ c.verifier ++ codes ": " ++ w.describe c
]

-- f"worker:{self._worker_id}"
abbrev pub worker_actor : WorkerEnv → Text
worker_actor w = codes "worker:" ++ w.worker_id

-- `VerificationRepo.record`
unfoldable pub record_checks : ℕ → List Check → Session (Unit {0})
record_checks action_id checks = change (λ db. record db {
  verifications =
      map (λ c. record { action_id = action_id; verifier = c.verifier; outcome = c.outcome }) checks
      ++ db.verifications;
})

-- what the outcome of the verification makes of the action
unfoldable pub conclude :
    WorkerEnv → Action → Execution → Fields → Report → VerifyOutcome → Session (Unit {0})
conclude w action run stored report held = do
  dest ← given (apply_action ActionStatus.running ActionTrigger.verification_pass)
  _ ← cas_status action.id ActionStatus.running dest (λ a. record a {
    result = some stored;
    finished_at = some run.finished;
    lease_owner = none;
    lease_until = none;
    error = none;
  })
  pure tt
conclude w action run stored report no_method = do
  dest ← given (apply_action ActionStatus.running ActionTrigger.verification_no_method)
  _ ← cas_status action.id ActionStatus.running dest (λ a. record a {
    result = some stored;
    finished_at = some run.finished;
    lease_owner = none;
    lease_until = none;
  })
  pure tt
conclude w action run stored report broken =
    finish_failed action run.finished verification_failed (codes "postcondition failed") false
      (some (failing_observation w report)) (some stored)

unfoldable pub judge : WorkerEnv → Action → Tool → Execution → Fields → Session (Unit {0})
unfolding record_checks conclude
judge w action tool run output = do
  let report = w.verify tool action output
  record_checks action.id report.checks
  note w.env (worker_actor w) (codes "verification.completed") action (
      Fields.field (codes "outcome") (Value.str (outcome_value report.outcome))
        (Fields.field (codes "checks") (w.evidence report.checks) Fields.end))
  conclude w action run (w.spill output) report report.outcome

-- what the end of the tool's run makes of the action
unfoldable pub settle : WorkerEnv → Action → Tool → Execution → Ending → Session (Unit {0})
unfolding judge
settle w action tool run (returned output) = judge w action tool run output
settle w action tool run timed_out =
    retry_or_fail w.pick action w.env.now timeout (codes "action timed out") true none
settle w action tool run stopped =
    if run.action_cancelled || run.worker_cancelled
    then finish_cancelled action run.finished
    else raise (raise_class cancelled_error)
settle w action tool run (tool_failed code message retryable observation) =
    if run.action_cancelled
    then finish_cancelled action run.finished
    else retry_or_fail w.pick action w.env.now code message retryable observation
settle w action tool run (vyomel_failed code message retryable) =
    if run.action_cancelled
    then finish_cancelled action run.finished
    else retry_or_fail w.pick action w.env.now code message retryable none
settle w action tool run (crashed name) =
    finish_failed action w.env.now internal (codes "tool raised an unexpected error") false
      (some name) none

unfoldable pub run_tool : WorkerEnv → Action → Tool → Session (Unit {0})
unfolding settle
run_tool w action tool = let run = w.execute tool action in settle w action tool run run.ending

-- the key of the side effect is reserved already
unfoldable pub refuse_replay : WorkerEnv → Action → Option Fields → Session (Unit {0})
refuse_replay w action (some result) = do
  dest ← given (apply_action ActionStatus.running ActionTrigger.verification_pass)
  _ ←
      cas_status action.id ActionStatus.running dest
        (λ a. record a { finished_at = some w.env.now })
  pure tt
refuse_replay w action none =
    finish_failed action w.env.now conflict
      (codes "side-effect reserved but no result; refusing to replay") false none none

unfoldable pub run_reserved : WorkerEnv → Action → Tool → Bool → Session (Unit {0})
unfolding run_tool refuse_replay
run_reserved w action tool true = run_tool w action tool
run_reserved w action tool false = refuse_replay w action action.result

unfoldable pub run_ready : WorkerEnv → Action → Tool → Bool → Session (Unit {0})
unfolding run_reserved
run_ready w action tool true = run_tool w action tool
run_ready w action tool false = do
  reserved ← insert_ledger action.idempotency_key tool.name action.id
  run_reserved w action tool reserved

-- `pre.reason or "preflight failed"`
abbrev pub preflight_message : Option Text → Text
preflight_message none = codes "preflight failed"
preflight_message (some []) = codes "preflight failed"
preflight_message (some (c ∷ reason)) = c ∷ reason

unfoldable pub run_checked : WorkerEnv → Action → Tool → Option (Option Text) → Session (Unit {0})
unfolding run_ready
run_checked w action tool none = run_ready w action tool tool.idempotent
run_checked w action tool (some reason) =
    finish_failed action w.env.now precondition_failed (preflight_message reason) false none none

unfoldable pub run_valid : WorkerEnv → Action → Tool → Option Text → Session (Unit {0})
unfolding run_checked
run_valid w action tool none = run_checked w action tool (w.preflight tool action)
run_valid w action tool (some message) =
    finish_failed action w.env.now invalid_parameters message false none none

unfoldable pub run_found : WorkerEnv → Action → Option Tool → Session (Unit {0})
unfolding run_valid
run_found w action none =
    finish_failed action w.env.now unsupported (w.unknown action.tool) false none none
run_found w action (some tool) = run_valid w action tool (w.invalid tool action.parameters)

-- `_run_claimed`
unfoldable pub run_claimed : WorkerEnv → Action → Session (Unit {0})
unfolding run_found
run_claimed w action = run_found w action (w.lookup action.tool)

-- `action.status.value`
abbrev pub status_value : ActionStatus → Text
status_value ActionStatus.planned = codes "PLANNED"
status_value ActionStatus.ready = codes "READY"
status_value ActionStatus.dispatched = codes "DISPATCHED"
status_value ActionStatus.running = codes "RUNNING"
status_value ActionStatus.waiting_for_user = codes "WAITING_FOR_USER"
status_value ActionStatus.succeeded = codes "SUCCEEDED"
status_value ActionStatus.unverified = codes "UNVERIFIED"
status_value ActionStatus.failed = codes "FAILED"
status_value ActionStatus.rolled_back = codes "ROLLED_BACK"
status_value ActionStatus.cancelled = codes "CANCELLED"

abbrev pub is_some {ℓ} : {A : Type ℓ} → Option A → Bool
is_some none = false
is_some (some a) = true

-- the payload of `_record_outcome`; the names of the result's fields and the error are left out
abbrev pub outcome_payload : Action → Fields
outcome_payload action = Fields.field (codes "tool") (Value.str action.tool) (
    Fields.field (codes "status") (Value.str (status_value action.status))
      (Fields.field (codes "attempt") (Value.int (pos action.attempt_count)) Fields.end))

unfoldable pub record_outcome : WorkerEnv → Action → Session (Unit {0})
record_outcome w action =
    note w.env (worker_actor w) (codes "action.finished") action (outcome_payload action)

-- `session.refresh(action)`, which raises where the row is gone
abbrev pub record_found : WorkerEnv → Option Action → Session (Unit {0})
record_found w none = raise (raise_class invalid_request_error)
record_found w (some action) = record_outcome w action

unfoldable pub refresh_and_record : WorkerEnv → ℕ → Session (Unit {0})
unfolding record_outcome
refresh_and_record w id = do found ← get_action id; record_found w found

-- the task is cancelled
abbrev pub is_cancelled : Option Task → Bool
is_cancelled none = false
is_cancelled (some task) = same_task_status task.status TaskStatus.cancelled

-- the action under a task, cancelled or not
unfoldable pub run_under : WorkerEnv → Action → Bool → Session (Unit {0})
unfolding run_claimed
run_under w action true = finish_cancelled action w.env.now
run_under w action false = run_claimed w action

unfoldable pub execute_found : WorkerEnv → Option Action → Session (Unit {0})
unfolding run_under refresh_and_record
execute_found w none = pure tt
execute_found w (some action) =
    if same_status action.status ActionStatus.running
    then (do
      task ← get_task action.task_id
      run_under w action (is_cancelled task)
      refresh_and_record w action.id)
    else pure tt

-- `_execute`
unfoldable pub execute : WorkerEnv → ℕ → Session (Unit {0})
unfolding execute_found
execute w id = do found ← get_action id; execute_found w found

-- the first unit of work of `_handle`: whether there is something to execute
unfoldable pub claim_found : WorkerEnv → Option Action → Session Bool
claim_found w none = pure false
claim_found w (some existing) = do
  action ← cas_claim existing.id w.worker_id (w.env.now + existing.timeout_s * 1000000) w.env.now
  pure (is_some action)

unfoldable pub claim : WorkerEnv → ℕ → Session Bool
unfolding claim_found
claim w id = do existing ← get_action id; claim_found w existing

-- `_handle`, with what `run_once` makes of an exception: whether the message is acknowledged, and the
-- database. The claim is committed before the run starts.
abbrev pub executed : WorkerEnv → ℕ → Db → Result (Unit {0} × Db) → Bool × Db
executed w id db (ok (u, new)) = (true, new)
executed w id db (err e) = (false, db)

abbrev pub handled : WorkerEnv → ℕ → Db → Result (Bool × Db) → Bool × Db
handled w id db (err e) = (false, db)
handled w id db (ok (false, new)) = (true, new)
handled w id db (ok (true, new)) = executed w id new (execute w id new)

unfoldable pub handle : WorkerEnv → ℕ → Db → Bool × Db
unfolding execute claim
handle w id db = handled w id db (claim w id db)
