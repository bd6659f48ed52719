-- ===== src/Security/Approvals/Examples.antt =====
-- Approvals at concrete inputs.
use vyomel.Prelude.{ℕ, ◌≤◌, ◌≡◌, inl, inr, refl, none, some, List, [], ◌∷◌, codes, arith}
use vyomel.Core.Types.{l1, l2, pending, approved, rejected}
use vyomel.Security.Approvals.{Approval, approve, consume, usable_for}
use vyomel.Security.Approvals.Usable.{Qualifies, InTable, usable_for_sound}
use vyomel.Security.Approvals.Life.{
  Life, ApprovalStep, SameClaim, start, decided, spent, decided_and_spent_once, dead_forever,
}

abbrev asked : ℕ → Approval
asked id = record {
  id = id;
  action_id = 7;
  task_id = 3;
  capability_level = l2;
  status = pending;
  parameter_hash = codes "h";
  modified_parameters = none;
  policy_rule_id = none;
  policy_hash = none;
  decided_by = none;
  decided_at = none;
  consumed_at = none;
  expires_at = 100;
}

abbrev granted : ℕ → Approval
granted id = record (asked id) {
  status = approved;
  decided_by = some (codes "u");
  decided_at = some 5;
}

abbrev used : ℕ → Approval
used id = record (granted id) { consumed_at = some 9 }

abbrev table : List Approval
table = used 1 ∷ granted 2 ∷ asked 4 ∷ granted 3 ∷ []

usable_for_sound_example : InTable (granted 3) table × Qualifies 7 (codes "h") l1 50 (granted 3)
unfolding usable_for
usable_for_sound_example = usable_for_sound 7 (codes "h") l1 50 table (granted 3) refl

granted-Qualifies : Qualifies 7 (codes "h") l1 50 (granted 2)
granted-Qualifies = record {
  action = refl;
  granted = refl;
  unspent = refl;
  hash = refl;
  level_reached = ground arith;
  in_time = ground arith;
}

-- The newer of the two rows that give leave.
newest_test : usable_for 7 (codes "h") l1 50 table ≡ some (granted 3)
unfolding usable_for
newest_test = refl

abbrev used_life : Life (asked 1) 1 1 (used 1)
unfolding approve consume
used_life =
    spent (used 1) (decided (granted 1) start (ApprovalStep.accept 5 (codes "u") none none refl))
      (ApprovalStep.use_up 9 refl)

decided_and_spent_once_example : (1 ≤ 1) × (1 ≤ 1) × SameClaim (asked 1) (used 1)
decided_and_spent_once_example = decided_and_spent_once (used 1) used_life

abbrev use_of_granted : Life (granted 1) 0 1 (used 1)
unfolding consume
use_of_granted = spent (used 1) start (ApprovalStep.use_up 9 refl)

-- consume does not look at the status: a rejected approval is spent, and still gives no leave.
abbrev turned_down : Approval
turned_down = record (asked 1) { status = rejected }

abbrev spent_after : Life turned_down 0 1 (record turned_down { consumed_at = some 9 })
unfolding consume
spent_after = spent (record turned_down { consumed_at = some 9 }) start (ApprovalStep.use_up 9 refl)

dead_forever_example :
    Qualifies 7 (codes "h") l1 50 (record turned_down { consumed_at = some 9 }) → ⊥
dead_forever_example =
    dead_forever (record turned_down { consumed_at = some 9 }) spent_after (inr (inl refl)) 7
      (codes "h") l1 50
