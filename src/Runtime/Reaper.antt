-- ===== src/Runtime/Reaper.antt =====
-- vyomel/runtime/reaper.py: what becomes of an action whose lease has run out. What is logged and counted
-- is left out.
pub mod Cleared
pub mod Blocked
use vyomel.Prelude.{
  ℕ, Bool, true, false, ◌&&◌, Option, none, some, List, [], ◌∷◌, ◌++◌, Text, codes, leb,
  if◌then◌else◌,
}
use vyomel.Core.Types.{ActionStatus}
use vyomel.Core.Errors.{Result, ok, err}
use vyomel.Runtime.State.{ActionTrigger, apply_action}
use vyomel.Store.{Db, Action, ErrorInfo}
use vyomel.Store.Session.{Session, pure, given, ◌>>=◌, ◌>>◌, look, change}
use vyomel.Store.Actions.{same_status, expired_leases, cas_status, add_dead_letter}

abbrev pub exhausted_text : Text
exhausted_text = codes "lease_exhausted"

abbrev pub exhausted_error : ErrorInfo
exhausted_error = record {
  code = codes "TIMEOUT";
  message = codes "lease expired and retries exhausted";
  retryable = false;
  observation = none;
}

-- `action.status is RUNNING and action.attempt_count >= action.max_retries`
abbrev pub is_exhausted : Action → Bool
is_exhausted action =
    same_status action.status ActionStatus.running && leb action.max_retries action.attempt_count

unfoldable pub reap_exhausted : ℕ → Action → Session (List ℕ)
reap_exhausted moment action = do
  dest ← given (apply_action action.status ActionTrigger.tool_failed_terminal)
  _ ← cas_status action.id action.status dest (λ a. record a {
    finished_at = some moment;
    lease_owner = none;
    lease_until = none;
    error = some exhausted_error;
  })
  add_dead_letter action.id exhausted_text
  pure []

unfoldable pub reap_returned : Action → Session (List ℕ)
reap_returned action = do
  dest ← given (apply_action action.status ActionTrigger.lease_expired)
  _ ←
      cas_status action.id action.status dest
        (λ a. record a { lease_owner = none; lease_until = none })
  pure (action.id ∷ [])

unfoldable pub reap_one : ℕ → Action → Session (List ℕ)
unfolding reap_exhausted reap_returned
reap_one moment action =
    if is_exhausted action then reap_exhausted moment action else reap_returned action

-- the loop over the expired leases; what one round reclaims stands before what the next ones do
unfoldable pub reap_each : ℕ → List Action → Session (List ℕ)
unfolding reap_one
reap_each moment [] = pure []
reap_each moment (action ∷ actions) = do
  reclaimed ← reap_one moment action
  rest ← reap_each moment actions
  pure (reclaimed ++ rest)

unfoldable pub reap : ℕ → Session (List ℕ)
unfolding reap_each
reap moment = do actions ← expired_leases moment; reap_each moment actions
