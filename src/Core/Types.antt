-- ===== src/Core/Types.antt =====
-- vyomel/core/types.py: the enumerations, the order of capabilities and their escalation.
use vyomel.Prelude.{
  ℕ, ◌+◌, ◌≡◌, Bool, true, false, ltb, leb, eqb, Eq, ◌↔◌, arith, if◌then◌else◌, min,
}

pub data Capability : Type 0 where
  l0 l1 l2 l3 l4 : Capability

-- `_CAPABILITY_RANK`
abbrev pub rank : Capability → ℕ
rank l0 = 0
rank l1 = 1
rank l2 = 2
rank l3 = 3
rank l4 = 4

-- `_RANK_TO_CAPABILITY`; every caller stays at or below 4.
abbrev pub of_rank : ℕ → Capability
of_rank n =
    if eqb n 0
    then l0
    else if eqb n 1
    then l1
    else if eqb n 2
    then l2
    else if eqb n 3
    then l3
    else l4

-- `a < b` and `a > b` on capabilities
abbrev pub cap_lt : Capability → Capability → Bool
cap_lt a b = ltb (rank a) (rank b)

abbrev pub cap_gt : Capability → Capability → Bool
cap_gt a b = ltb (rank b) (rank a)

abbrev pub cap_le : Capability → Capability → Bool
cap_le a b = leb (rank a) (rank b)

abbrev pub cap_ge : Capability → Capability → Bool
cap_ge a b = leb (rank b) (rank a)

-- The levels are a Python `int`, and a negative one counts as 0; callers pass a natural number.
unfoldable pub raised_by : Capability → ℕ → Capability
raised_by c levels = of_rank (min (rank c + levels) (rank l4))

pub rank_injective : (a b : Capability) → rank a ≡ rank b → a ≡ b
rank_injective a b h = ground arith

pub rank-eqb_iff : (a b : Capability) → (eqb (rank a) (rank b) ≡ true) ↔ (a ≡ b)
rank-eqb_iff a b = ground arith

instance abbrev pub capability_eq : Eq Capability
capability_eq = record { beq = λ a b. eqb (rank a) (rank b); beq_iff = rank-eqb_iff }

pub data TaskStatus : Type 0 where
  created planning ready running waiting_for_user paused succeeded failed cancelled : TaskStatus
  needs_human : TaskStatus

-- `is_terminal` of a task
abbrev pub task_is_terminal : TaskStatus → Bool
task_is_terminal succeeded = true
task_is_terminal failed = true
task_is_terminal cancelled = true
task_is_terminal _ = false

abbrev pub task_index : TaskStatus → ℕ
task_index created = 0
task_index planning = 1
task_index ready = 2
task_index running = 3
task_index waiting_for_user = 4
task_index paused = 5
task_index succeeded = 6
task_index failed = 7
task_index cancelled = 8
task_index needs_human = 9

pub task_eqb_iff : (a b : TaskStatus) → (eqb (task_index a) (task_index b) ≡ true) ↔ (a ≡ b)
task_eqb_iff a b = ground arith

instance abbrev pub task_status_eq : Eq TaskStatus
task_status_eq = record { beq = λ a b. eqb (task_index a) (task_index b); beq_iff = task_eqb_iff }

pub data StepStatus : Type 0 where
  planned ready running blocked succeeded failed skipped : StepStatus

pub data ActionStatus : Type 0 where
  planned ready dispatched running waiting_for_user succeeded unverified failed : ActionStatus
  rolled_back cancelled : ActionStatus

-- `is_terminal` of an action
abbrev pub action_is_terminal : ActionStatus → Bool
action_is_terminal succeeded = true
action_is_terminal unverified = true
action_is_terminal failed = true
action_is_terminal rolled_back = true
action_is_terminal cancelled = true
action_is_terminal _ = false

abbrev pub action_index : ActionStatus → ℕ
action_index planned = 0
action_index ready = 1
action_index dispatched = 2
action_index running = 3
action_index waiting_for_user = 4
action_index succeeded = 5
action_index unverified = 6
action_index failed = 7
action_index rolled_back = 8
action_index cancelled = 9

pub action_eqb_iff : (a b : ActionStatus) → (eqb (action_index a) (action_index b) ≡ true) ↔ (a ≡ b)
action_eqb_iff a b = ground arith

instance abbrev pub action_status_eq : Eq ActionStatus
action_status_eq = record {
  beq = λ a b. eqb (action_index a) (action_index b);
  beq_iff = action_eqb_iff;
}

pub data ApprovalStatus : Type 0 where
  pending approved modified rejected expired : ApprovalStatus

pub data Decision : Type 0 where
  allow confirm deny : Decision

pub data Sensitivity : Type 0 where
  public personal sensitive : Sensitivity

pub data Trust : Type 0 where
  user system memory tool_trusted tool_untrusted : Trust

pub data VerifyOutcome : Type 0 where
  held broken no_method : VerifyOutcome
