-- ===== src/Runtime/Worker.antt =====
-- vyomel/runtime/worker.py: claim an action, run its tool, and write what came of it. The tool and what the
-- worker asks of it are parameters; so is what runs beside the tool, the watch for a cancellation, by what it
-- makes of the run. Metrics, spans, logs and the heartbeats are left out.
pub mod Finish
pub mod Run
use vyomel.Prelude.{ℕ, ◌+◌, ◌*◌, Bool, true, false, Option, none, some, List, Text}
use vyomel.Core.Types.{VerifyOutcome}
use vyomel.Core.Errors.{ErrorCode}
use vyomel.Core.Json.{Value, Fields}
use vyomel.Store.{Db, Action}
use vyomel.Runtime.Gate.{Env}

-- What the worker reads of a registered tool.
pub record Tool : Type 0 where
  pub name : Text
  pub idempotent : Bool

-- How the run of a tool ends: its output, the deadline, `CancelledError`, `ToolError`, another
-- `VyomelError`, any other exception by its class.
pub data Ending : Type 0 where
  returned : Fields → Ending
  timed_out stopped : Ending
  tool_failed : ErrorCode → Text → Bool → Option Text → Ending
  vyomel_failed : ErrorCode → Text → Bool → Ending
  crashed : Text → Ending

-- with the two cancellation tokens and the time afterwards
pub record Execution : Type 0 where
  pub ending : Ending
  pub action_cancelled : Bool
  pub worker_cancelled : Bool
  pub finished : ℕ

-- one check of a verification report
pub record Check : Type 0 where
  pub verifier : Text
  pub outcome : VerifyOutcome

pub record Report : Type 0 where
  pub outcome : VerifyOutcome
  pub checks : List Check

-- What the worker is built with, and what it calls.
pub record WorkerEnv : Type 0 where
  -- the audit trail and the clock when the run starts
  pub env : Env
  pub worker_id : Text
  -- `registry.get`, and the message of its error
  pub lookup : Text → Option Tool
  pub unknown : Text → Text
  -- the message of the `ValidationError` that the parameters give
  pub invalid : Tool → Fields → Option Text
  -- `preflight`, where it is not ok, with its reason
  pub preflight : Tool → Action → Option (Option Text)
  pub execute : Tool → Action → Execution
  pub spill : Fields → Fields
  pub verify : Tool → Action → Fields → Report
  -- `repr` of what a check expected and observed
  pub describe : Check → Text
  -- the checks in the payload of the trail
  pub evidence : List Check → Value
  -- `picker()` times a delay
  pub pick : ℕ → ℕ
