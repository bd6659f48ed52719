-- ===== src/Store.antt =====
-- vyomel/store/models.py: the rows of the tables that the runtime reads and writes, with the columns that
-- it uses, and the database as the lists of them. An identifier is the number that its ULID encodes and
-- is the primary key; a moment is a number of microseconds.
pub mod Session
pub mod Actions
pub mod Tasks
use vyomel.Prelude.{ℕ, Bool, Option, List, Text}
use vyomel.Core.Types.{Capability, ActionStatus, TaskStatus, StepStatus, VerifyOutcome}
use vyomel.Core.Json.{Fields}
use vyomel.Security.Approvals.{Approval}
use vyomel.Security.Audit.{Trail}

-- the mapping that the `error` columns hold; what a writer leaves out is false or none
pub record ErrorInfo : Type 0 where
  pub code : Text
  pub message : Text
  pub retryable : Bool
  pub observation : Option Text

pub record Task : Type 0 where
  pub id : ℕ
  pub status : TaskStatus
  pub capability_ceiling : Capability
  pub context_hints : Fields
  pub deadline_at : Option ℕ
  pub error : Option ErrorInfo
  pub trace_id : Option Text
  pub replan_count : ℕ
  pub started_at : Option ℕ
  pub finished_at : Option ℕ

pub record Step : Type 0 where
  pub id : ℕ
  pub task_id : ℕ
  pub ordinal : ℕ
  pub status : StepStatus
  pub tolerates_unverified : Bool

pub record Action : Type 0 where
  pub id : ℕ
  pub task_id : ℕ
  pub step_id : ℕ
  pub tool : Text
  pub tool_version : Text
  pub parameters : Fields
  pub capability_level : Capability
  pub reversible : Bool
  pub idempotency_key : Text
  pub depends_on : List ℕ
  pub status : ActionStatus
  pub attempt_count : ℕ
  pub max_retries : ℕ
  pub timeout_s : ℕ
  pub lease_owner : Option Text
  pub lease_until : Option ℕ
  pub available_at : Option ℕ
  pub result : Option Fields
  pub error : Option ErrorInfo
  pub dispatched_at : Option ℕ
  pub started_at : Option ℕ
  pub finished_at : Option ℕ

pub record SideEffectLedger : Type 0 where
  pub idempotency_key : Text
  pub tool : Text
  pub action_id : ℕ

-- `action_id` is unique
pub record DeadLetter : Type 0 where
  pub action_id : ℕ
  pub reason : Text

-- what was expected and observed is left out
pub record Verification : Type 0 where
  pub action_id : ℕ
  pub verifier : Text
  pub outcome : VerifyOutcome

pub record Db : Type 0 where
  pub tasks : List Task
  pub steps : List Step
  pub actions : List Action
  pub approvals : List Approval
  pub trail : Trail
  pub verifications : List Verification
  pub ledger : List SideEffectLedger
  pub dead_letters : List DeadLetter
