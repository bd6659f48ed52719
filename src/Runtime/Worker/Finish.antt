-- ===== src/Runtime/Worker/Finish.antt =====
-- vyomel/runtime/worker.py: `_retry_or_fail`, `_finish_failed` and `_finish_cancelled`.
use vyomel.Prelude.{ℕ, ◌+◌, Bool, true, ◌&&◌, Option, none, some, Text, ltb, if◌then◌else◌}
use vyomel.Core.Types.{ActionStatus}
use vyomel.Core.Errors.{ErrorCode, code_value}
use vyomel.Core.Json.{Fields}
use vyomel.Store.{Action, ErrorInfo}
use vyomel.Store.Session.{Session, pure, given, ◌>>=◌}
use vyomel.Store.Actions.{cas_status, add_dead_letter}
use vyomel.Runtime.State.{ActionTrigger, apply_action}
use vyomel.Runtime.Retry.{delay, default_backoff}

abbrev pub error_info : ErrorCode → Text → Bool → Option Text → ErrorInfo
error_info code message retryable observation = record {
  code = code_value code;
  message = message;
  retryable = retryable;
  observation = observation;
}

-- `fields["result"]`, where there is one
abbrev pub new_result : Option Fields → Option Fields → Option Fields
new_result none old = old
new_result (some result) old = some result

unfoldable pub finish_failed :
    Action → ℕ → ErrorCode → Text → Bool → Option Text → Option Fields → Session (Unit {0})
finish_failed action now code message retryable observation result = do
  dest ← given (apply_action ActionStatus.running ActionTrigger.tool_failed_terminal)
  _ ← cas_status action.id ActionStatus.running dest (λ a. record a {
    error = some (error_info code message retryable observation);
    finished_at = some now;
    lease_owner = none;
    lease_until = none;
    result = new_result result a.result;
  })
  add_dead_letter action.id (code_value code)

unfoldable pub retry_later :
    (ℕ → ℕ) → Action → ℕ → ErrorCode → Text → Bool → Option Text → Session (Unit {0})
retry_later pick action now code message retryable observation = do
  dest ← given (apply_action ActionStatus.running ActionTrigger.tool_failed_retryable)
  wait ← given (delay pick default_backoff true action.attempt_count)
  _ ← cas_status action.id ActionStatus.running dest (λ a. record a {
    error = some (error_info code message retryable observation);
    available_at = some (now + wait);
    lease_owner = none;
    lease_until = none;
  })
  pure tt

unfoldable pub retry_or_fail :
    (ℕ → ℕ) → Action → ℕ → ErrorCode → Text → Bool → Option Text → Session (Unit {0})
unfolding finish_failed retry_later
retry_or_fail pick action now code message retryable observation =
    if retryable && ltb action.attempt_count action.max_retries
    then retry_later pick action now code message retryable observation
    else finish_failed action now code message retryable observation none

-- `_finish_cancelled`, without its `session.commit()`: what follows it here counts to the same unit of work, so
-- the model undoes the move where that raises, and the source keeps it.
unfoldable pub finish_cancelled : Action → ℕ → Session (Unit {0})
finish_cancelled action now = do
  dest ← given (apply_action ActionStatus.running ActionTrigger.task_cancelled)
  _ ←
      cas_status action.id ActionStatus.running dest
        (λ a. record a { finished_at = some now; lease_owner = none; lease_until = none })
  pure tt
