-- ===== src/Runtime/Cancel/Dropped.antt =====
-- vyomel/runtime/cancel.py: what had not started when its task was cancelled.
use vyomel.Prelude.{
  ℕ, ◌≡◌, ◌∙◌, refl, Bool, false, not, ◌&&◌, none, some, List, [], ◌∷◌, any, map, if◌then◌else◌,
  arith, Bool-cases, inl, inr,
}
use vyomel.Core.Types.{ActionStatus, action_is_terminal, action_status_eq}
use vyomel.Core.Errors.{ok}
use vyomel.Runtime.State.{apply_action}
use vyomel.Runtime.Gate.{Env}
use vyomel.Store.{Db, Action}
use vyomel.Store.Actions.{same_status, is_at, updated, update, cas_status}
use vyomel.Store.Actions.Rows.{updated_starts, updated_never}
use vyomel.Runtime.Cancel.{drop_one, drop_pending}

-- The action is neither over nor running.
abbrev pub not_begun : ActionStatus → Bool
not_begun s = not (action_is_terminal s) && not (same_status s ActionStatus.running)

-- The row is that of one of these actions that has not begun, and stands at the status that it was read with.
abbrev pub still_unstarted : List Action → Action → Bool
still_unstarted actions row = any (λ a. is_at a.id a.status row && not_begun a.status) actions

abbrev pub cancelled_row : ℕ → Action → Action
cancelled_row now row = record row {
  status = ActionStatus.cancelled;
  finished_at = some now;
  lease_owner = none;
  lease_until = none;
}

abbrev pub dropped_row : ℕ → List Action → Action → Action
dropped_row now actions row = if still_unstarted actions row then cancelled_row now row else row

-- One round, at the status that the action was read with.
dropped_at :
    (env : Env) (action : Action) (s : ActionStatus) (db : Db)
    → action.status ≡ s
    → drop_one env action db
      ≡ ok (
        tt,
        record db {
          actions =
              updated (λ r. is_at action.id s r && not_begun s) (cancelled_row env.now) db.actions;
        },
      )
unfolding drop_one apply_action cas_status update
dropped_at env action ActionStatus.planned db h = rw h (
    rw (updated_starts (cancelled_row env.now) (is_at action.id ActionStatus.planned) db.actions)
      refl)
dropped_at env action ActionStatus.ready db h = rw h (
    rw (updated_starts (cancelled_row env.now) (is_at action.id ActionStatus.ready) db.actions)
      refl)
dropped_at env action ActionStatus.dispatched db h = rw h (
    rw (updated_starts (cancelled_row env.now) (is_at action.id ActionStatus.dispatched) db.actions)
      refl)
dropped_at env action ActionStatus.waiting_for_user db h = rw h (
    rw
      (updated_starts (cancelled_row env.now) (is_at action.id ActionStatus.waiting_for_user)
        db.actions)
      refl)
dropped_at env action ActionStatus.running db h = rw h (
    rw (updated_never (cancelled_row env.now) (is_at action.id ActionStatus.running) db.actions)
      refl)
dropped_at env action ActionStatus.succeeded db h = rw h (
    rw (updated_never (cancelled_row env.now) (is_at action.id ActionStatus.succeeded) db.actions)
      refl)
dropped_at env action ActionStatus.unverified db h = rw h (
    rw (updated_never (cancelled_row env.now) (is_at action.id ActionStatus.unverified) db.actions)
      refl)
dropped_at env action ActionStatus.failed db h = rw h (
    rw (updated_never (cancelled_row env.now) (is_at action.id ActionStatus.failed) db.actions)
      refl)
dropped_at env action ActionStatus.rolled_back db h = rw h (
    rw (updated_never (cancelled_row env.now) (is_at action.id ActionStatus.rolled_back) db.actions)
      refl)
dropped_at env action ActionStatus.cancelled db h = rw h (
    rw (updated_never (cancelled_row env.now) (is_at action.id ActionStatus.cancelled) db.actions)
      refl)

-- A row that is cancelled is unstarted no more.
cancelled-settled :
    (now : ℕ) (actions : List Action) (row : Action)
    → still_unstarted actions (cancelled_row now row) ≡ false
cancelled-settled now [] row = refl
cancelled-settled now (a ∷ actions) row = ground (arith, cancelled-settled now actions row)

row_by_row :
    (now : ℕ) (a : Action) (actions : List Action) (rows : List Action)
    → map
        (dropped_row now actions)
        (updated (λ r. is_at a.id a.status r && not_begun a.status) (cancelled_row now) rows)
      ≡ map (dropped_row now (a ∷ actions)) rows
row_by_row now a actions [] = refl
row_by_row now a actions (r ∷ rows) =
    let later = row_by_row now a actions rows in
    elim (Bool-cases (is_at a.id a.status r && not_begun a.status)) [
      | inl hit ↦ rw (hit, cancelled-settled now actions r, later) refl
      | inr miss ↦ rw (miss, later) refl
    ]

map-same : (now : ℕ) (rows : List Action) → map (dropped_row now []) rows ≡ rows
map-same now [] = refl
map-same now (r ∷ rows) = rw (map-same now rows) refl

-- drop_pending returns for every list of actions, and changes exactly the rows of those that were
-- neither terminal nor RUNNING when they were read and still stand at that status: they become
-- CANCELLED, with the time of the call as their end and without a lease.
pub unstarted_are_dropped :
    (env : Env) (actions : List Action) (db : Db)
    → drop_pending env actions db
      ≡ ok (tt, record db { actions = map (dropped_row env.now actions) db.actions })
unfolding drop_pending
unstarted_are_dropped env [] db = rw (map-same env.now db.actions) refl
unstarted_are_dropped env (a ∷ actions) db =
    let mid : Db = record db {
      actions =
          updated (λ r. is_at a.id a.status r && not_begun a.status) (cancelled_row env.now)
            db.actions;
    } in
    rw (dropped_at env a a.status db refl)
      (unstarted_are_dropped env actions mid ∙ rw (row_by_row env.now a actions db.actions) refl)
