-- ===== src/Security/Approvals/Life.antt =====
-- The life of one approval row under `approve`, `reject`, `consume` and the expiry sweep of
-- vyomel/security/approvals.py.
use vyomel.Prelude.{
  ℕ, suc, ◌≤◌, ◌<◌, ◌≡◌, refl, true, false, not, ◌&&◌, ◌||◌, Option, none, some, Text, leb, arith,
  ◌⊎◌, inl, inr, if◌then◌else◌, Bool-cases,
}
use vyomel.Core.Types.{Capability, approved, modified, rejected, expired}
use vyomel.Core.Errors.{ok, err, raise_class, conflict_error}
use vyomel.Core.Json.{Fields}
use vyomel.Security.Approvals.{
  Approval, is_pending, is_granted, is_unset, assert_pending, or_old, approve, reject, consume,
  mark_expired,
}
use vyomel.Security.Approvals.Usable.{Qualifies}

-- What a step does to a row: decide it, or spend it.
pub data Kind : Type 0 where
  decide : Kind
  spend : Kind

-- One call that changes a row. The sweep marks a row that `due_for_expiry` gave it.
pub data ApprovalStep (a b : Approval) : Kind → Type 0 where
  accept :
      (now : ℕ) (by : Text) (parameters : Option Fields) (hash : Option Text)
      → approve now a by parameters hash ≡ ok b
      → ApprovalStep a b decide
  refuse : (now : ℕ) (by : Text) → reject now a by ≡ ok b → ApprovalStep a b decide
  sweep :
      (now : ℕ)
      → (is_pending a.status && leb a.expires_at now) ≡ true
      → mark_expired now a ≡ b
      → ApprovalStep a b decide
  use_up : (now : ℕ) → consume now a ≡ ok b → ApprovalStep a b spend

-- A sequence of calls, with how many of them decide and how many spend.
pub data Life (a : Approval) : ℕ → ℕ → Approval → Type 0 where
  start : Life a 0 0 a
  decided :
      {b : Approval} {d u : ℕ} (c : Approval)
      → Life a d u b
      → ApprovalStep b c decide
      → Life a (suc d) u c
  spent :
      {b : Approval} {d u : ℕ} (c : Approval)
      → Life a d u b
      → ApprovalStep b c spend
      → Life a d (suc u) c

-- What no call changes.
abbrev pub SameClaim : Approval → Approval → Type 0
SameClaim a b =
    (b.id ≡ a.id)
    × (b.action_id ≡ a.action_id)
    × (b.capability_level ≡ a.capability_level)
    × (b.expires_at ≡ a.expires_at)

-- `approve` on a row succeeds exactly where the row is pending and in time; otherwise it is a
-- conflict and there is no row. It leaves the row granted, with the new parameters' hash if there is one.
pub approve_exact :
    (now : ℕ) (a : Approval) (by : Text) (parameters : Option Fields) (hash : Option Text)
    → ((is_pending a.status ≡ true)
        × (now < a.expires_at)
        × ((b : Approval) × (approve now a by parameters hash ≡ ok b)
            × (is_granted b.status ≡ true)
            × (b.parameter_hash ≡ or_old hash a.parameter_hash)
            × (b.consumed_at ≡ a.consumed_at)
            × SameClaim a b))
      ⊎ (((is_pending a.status ≡ false) ⊎ (a.expires_at ≤ now))
          × (approve now a by parameters hash ≡ err (raise_class conflict_error)))
unfolding approve assert_pending
approve_exact now a by parameters hash = elim (Bool-cases (is_pending a.status)) [
  | inl e ↦ elim (Bool-cases (leb a.expires_at now)) [
    | inl k ↦ inr (inr (ground (arith, k)), rw (e) (rw (k) refl))
    | inr k ↦ inl (
      e,
      ground (arith, k),
      (
        record a {
          status = if is_unset parameters then approved else modified;
          modified_parameters = parameters;
          parameter_hash = or_old hash a.parameter_hash;
          decided_by = some by;
          decided_at = some now;
        },
        rw (e) (rw (k) refl),
        ground arith,
        refl,
        refl,
        (refl, refl, refl, refl),
      ),
    )
  ]
  | inr e ↦ inr (inl e, rw (e) refl)
]

decide_lem :
    {a b : Approval}
    → ApprovalStep a b decide
    → (is_pending a.status ≡ true)
      × (is_pending b.status ≡ false)
      × (b.consumed_at ≡ a.consumed_at)
      × SameClaim a b
unfolding approve reject assert_pending mark_expired
decide_lem {a} {b} (accept now by parameters hash e) = ground arith
decide_lem {a} {b} (refuse now by e) = ground arith
decide_lem {a} {b} (sweep now k e) = ground arith

spend_lem :
    {a b : Approval}
    → ApprovalStep a b spend
    → (a.consumed_at ≡ none)
      × (is_unset b.consumed_at ≡ false)
      × (b.status ≡ a.status)
      × (b.parameter_hash ≡ a.parameter_hash)
      × SameClaim a b
unfolding consume
spend_lem {a} {b} (use_up now e) = ground arith

life_counts :
    {a : Approval} {d u : ℕ} {b : Approval}
    → Life a d u b
    → ((d ≡ 0) ⊎ ((d ≡ 1) × (is_pending b.status ≡ false)))
      × ((u ≡ 0) ⊎ ((u ≡ 1) × (is_unset b.consumed_at ≡ false)))
      × SameClaim a b
life_counts start = ground arith
life_counts (decided c life step) = ground (arith, life_counts life, decide_lem step)
life_counts (spent c life step) = ground (arith, life_counts life, spend_lem step)

-- Over any sequence of calls a row is decided at most once and spent at most once, and it stays the
-- row of the same action, level and expiry.
pub decided_and_spent_once :
    {a : Approval} {d u : ℕ} (b : Approval) → Life a d u b → (d ≤ 1) × (u ≤ 1) × SameClaim a b
decided_and_spent_once b life = ground (arith, life_counts life)

-- Once a row is decided, its parameters' hash and its status do not change any more, and once it is
-- spent it stays spent.
pub decision_is_final :
    {a : Approval} {d u : ℕ} (b : Approval)
    → Life a d u b
    → is_pending a.status ≡ false
    → (b.status ≡ a.status)
      × (b.parameter_hash ≡ a.parameter_hash)
      × ((is_unset a.consumed_at || not (is_unset b.consumed_at)) ≡ true)
decision_is_final b start h = ground arith
decision_is_final {a} _ (decided {b} c life step) h =
    ground (arith, decision_is_final b life h, decide_lem step)
decision_is_final {a} _ (spent {b} c life step) h =
    ground (arith, decision_is_final b life h, spend_lem step)

stays_spent :
    {a : Approval} {d u : ℕ} {b : Approval}
    → Life a d u b
    → is_unset a.consumed_at ≡ false
    → is_unset b.consumed_at ≡ false
stays_spent start h = h
stays_spent (decided c life step) h = ground (arith, stays_spent life h, decide_lem step)
stays_spent (spent c life step) h = ground (arith, spend_lem step)

-- A row that was spent, rejected or expired never again gives leave, at any time, for any action.
pub dead_forever :
    {a : Approval} {d u : ℕ} (b : Approval)
    → Life a d u b
    → ((is_unset a.consumed_at ≡ false) ⊎ (a.status ≡ rejected) ⊎ (a.status ≡ expired))
    → (action_id : ℕ) (params_hash : Text) (level : Capability) (now : ℕ)
    → Qualifies action_id params_hash level now b
    → ⊥
dead_forever b life h action_id params_hash level now q = elim h [
  | inl e ↦ ground (arith, stays_spent life e, q.unspent)
  | inr (inl e) ↦ ground (arith, e, decision_is_final b life (ground (arith, e)), q.granted)
  | inr (inr e) ↦ ground (arith, e, decision_is_final b life (ground (arith, e)), q.granted)
]
