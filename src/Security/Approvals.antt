-- ===== src/Security/Approvals.antt =====
-- vyomel/security/approvals.py: the approvals table and what makes an approval mean something.
-- An identifier is the number that its ULID encodes; a moment is a number of microseconds. What is
-- only shown to the user (summary, presented, blast_radius) is left out.
pub mod Usable
pub mod Life
mod Examples
use vyomel.Prelude.{
  ℕ, ◌+◌, Bool, true, false, not, ◌&&◌, ◌||◌, Option, none, some, List, [], ◌∷◌, Text, codes,
  text_beq, eqb, ltb, leb, select, find_first, if◌then◌else◌,
}
use vyomel.Core.Types.{
  Capability, cap_lt, ApprovalStatus, pending, approved, modified, rejected, expired,
}
use vyomel.Core.Errors.{
  Result, ok, err, ◌>>=◌, raise_class, conflict_error, not_found_error, multiple_results_found,
}
use vyomel.Core.Json.{Fields}

pub record Approval : Type 0 where
  pub id : ℕ
  pub action_id : ℕ
  pub task_id : ℕ
  pub capability_level : Capability
  pub status : ApprovalStatus
  pub parameter_hash : Text
  pub modified_parameters : Option Fields
  pub policy_rule_id : Option Text
  pub policy_hash : Option Text
  pub decided_by : Option Text
  pub decided_at : Option ℕ
  pub consumed_at : Option ℕ
  pub expires_at : ℕ

pub record ApprovalRequest : Type 0 where
  pub action_id : ℕ
  pub task_id : ℕ
  pub capability_level : Capability
  pub parameter_hash : Text
  pub policy_rule_id : Option Text
  pub policy_hash : Option Text

abbrev pub is_pending : ApprovalStatus → Bool
is_pending pending = true
is_pending _ = false

-- `status.in_((APPROVED, MODIFIED))`
abbrev pub is_granted : ApprovalStatus → Bool
is_granted approved = true
is_granted modified = true
is_granted _ = false

abbrev pub is_unset {ℓ} : {A : Type ℓ} → Option A → Bool
is_unset none = true
is_unset (some a) = false

-- What a flush writes: the row with this identifier.
abbrev pub save : Approval → List Approval → List Approval
save a [] = []
save a (b ∷ rows) = (if eqb b.id a.id then a else b) ∷ save a rows

-- `get`
unfoldable pub get : ℕ → List Approval → Result Approval
get id rows = elim (find_first (λ a. eqb a.id id) rows) [
  | none ↦ err (raise_class not_found_error)
  | some a ↦ ok a
]

-- `create`; the identifier is fresh, and the row is added to the table
unfoldable pub create : ℕ → ℕ → ℕ → ApprovalRequest → List Approval → Approval × List Approval
create now ttl_s id request rows =
    let a : Approval = record {
      id = id;
      action_id = request.action_id;
      task_id = request.task_id;
      capability_level = request.capability_level;
      status = pending;
      parameter_hash = request.parameter_hash;
      modified_parameters = none;
      policy_rule_id = request.policy_rule_id;
      policy_hash = request.policy_hash;
      decided_by = none;
      decided_at = none;
      consumed_at = none;
      expires_at = now + ttl_s;
    } in
    (a, a ∷ rows)

-- `scalar_one_or_none`
unfoldable pub one_or_none {ℓ} : {A : Type ℓ} → List A → Result (Option A)
one_or_none [] = ok none
one_or_none (a ∷ []) = ok (some a)
one_or_none (a ∷ b ∷ rows) = err (raise_class multiple_results_found)

unfoldable pub pending_for : ℕ → List Approval → Result (Option Approval)
unfolding one_or_none
pending_for action_id rows =
    one_or_none (select (λ a. eqb a.action_id action_id && is_pending a.status) rows)

-- `order_by(Approval.id.desc())`
abbrev pub insert_desc : Approval → List Approval → List Approval
insert_desc a [] = a ∷ []
insert_desc a (b ∷ rows) = if ltb a.id b.id then b ∷ insert_desc a rows else a ∷ b ∷ rows

abbrev pub sort_desc : List Approval → List Approval
sort_desc [] = []
sort_desc (a ∷ rows) = insert_desc a (sort_desc rows)

-- the `where` of `usable_for`
abbrev pub is_candidate : ℕ → Approval → Bool
is_candidate action_id a =
    eqb a.action_id action_id && is_granted a.status && is_unset a.consumed_at

-- what the loop of `usable_for` does not pass over
abbrev pub covers : Text → Capability → ℕ → Approval → Bool
covers params_hash level now a =
    text_beq a.parameter_hash params_hash
    && not (cap_lt a.capability_level level)
    && not (leb a.expires_at now)

unfoldable pub usable_for : ℕ → Text → Capability → ℕ → List Approval → Option Approval
usable_for action_id params_hash level now rows =
    find_first (covers params_hash level now) (sort_desc (select (is_candidate action_id) rows))

unfoldable pub consume : ℕ → Approval → Result Approval
consume now a =
    if is_unset a.consumed_at
    then ok (record a { consumed_at = some now })
    else err (raise_class conflict_error)

-- `_assert_pending`
unfoldable pub assert_pending : ℕ → Approval → Result (Unit {0})
assert_pending now a =
    if is_pending a.status
    then (if leb a.expires_at now then err (raise_class conflict_error) else ok tt)
    else err (raise_class conflict_error)

-- `new if new is not None else old`
abbrev pub or_old {ℓ} : {A : Type ℓ} → Option A → A → A
or_old none old = old
or_old (some new) old = new

unfoldable pub approve : ℕ → Approval → Text → Option Fields → Option Text → Result Approval
unfolding assert_pending
approve now a decided_by modified_parameters new_parameter_hash = do
  _ ← assert_pending now a
  ok (record a {
    status = if is_unset modified_parameters then approved else modified;
    modified_parameters = modified_parameters;
    parameter_hash = or_old new_parameter_hash a.parameter_hash;
    decided_by = some decided_by;
    decided_at = some now;
  })

unfoldable pub reject : ℕ → Approval → Text → Result Approval
unfolding assert_pending
reject now a decided_by = do
  _ ← assert_pending now a
  ok (record a { status = rejected; decided_by = some decided_by; decided_at = some now })

unfoldable pub due_for_expiry : ℕ → List Approval → List Approval
due_for_expiry moment rows = select (λ a. is_pending a.status && leb a.expires_at moment) rows

-- the actor that the sweeper records
abbrev pub sweeper : Text
sweeper = codes "system:expiry"

unfoldable pub mark_expired : ℕ → Approval → Approval
mark_expired now a = record a { status = expired; decided_at = some now; decided_by = some sweeper }
