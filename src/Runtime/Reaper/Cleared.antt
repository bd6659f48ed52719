-- ===== src/Runtime/Reaper/Cleared.antt =====
-- vyomel/runtime/reaper.py: what a pass of the reaper leaves, and where it moves the actions.
use vyomel.Prelude.{
  ℕ, ◌≡◌, refl, sym, subst, true, false, Option, List, [], ◌∷◌, ◌++◌, any, All, All-map, select,
  arith, Bool-cases, ◌⊎◌, inl, inr,
}
use vyomel.Core.Types.{ActionStatus, action_status_eq}
use vyomel.Core.Errors.{ok}
use vyomel.Runtime.State.{ActionTrigger, apply_action}
use vyomel.Runtime.Moves.{Moves, Moves-move}
use vyomel.Runtime.Gate.Kept.{moves, Moves-bind, same_actions}
use vyomel.Store.{Db, Action}
use vyomel.Store.Session.{Session, pure, given, given-eq-ok, go_on-eq-ok, ◌>>=◌}
use vyomel.Store.Session.Rules.{Keeps}
use vyomel.Store.Actions.{is_at, in_flight, is_expired, expired_leases, updated, update, cas_status}
use vyomel.Store.Actions.Rows.{SameActions}
use vyomel.Runtime.Reaper.{is_exhausted, reap_exhausted, reap_returned, reap_one, reap_each, reap}

reap_one-Moves : (moment : ℕ) (action : Action) → Keeps Moves (reap_one moment action)
unfolding reap_one reap_exhausted reap_returned
reap_one-Moves moment action = elim (Bool-cases (is_exhausted action)) [
  | inl over ↦ rw over (Moves-move _ _ _ _ _ (λ a. refl) (λ dest row. search (moves) depth 20))
  | inr again ↦ rw again (Moves-move _ _ _ _ _ (λ a. refl) (λ dest row. search (moves) depth 20))
]

reap_each-Moves : (moment : ℕ) (actions : List Action) → Keeps Moves (reap_each moment actions)
unfolding reap_each
reap_each-Moves moment [] = search (moves)
reap_each-Moves moment (action ∷ actions) =
    Moves-bind (reap_one moment action) _ (reap_one-Moves moment action) (λ reclaimed.
      Moves-bind (reap_each moment actions) (λ rest. pure (reclaimed ++ rest))
        (reap_each-Moves moment actions) (λ rest. search (moves)))

expired_leases-SameActions : (moment : ℕ) → Keeps SameActions (expired_leases moment)
unfolding expired_leases
expired_leases-SameActions moment = search (same_actions)

pub reap-Moves : (moment : ℕ) → Keeps Moves (reap moment)
unfolding reap
reap-Moves moment = search (moves, expired_leases-SameActions, reap_each-Moves) depth 20

-- A row is not expired, or one of these is still to be reaped at its identifier and status.
abbrev IsDue : ℕ → List Action → Action → Type 0
IsDue moment due a = (is_expired moment a ≡ false) ⊎ (any (λ q. is_at q.id q.status a) due ≡ true)

failed_off :
    (s d : ActionStatus)
    → apply_action s ActionTrigger.tool_failed_terminal ≡ ok d
    → in_flight d ≡ false
unfolding apply_action
failed_off s d h = ground arith

returned_off :
    (s d : ActionStatus) → apply_action s ActionTrigger.lease_expired ≡ ok d → in_flight d ≡ false
unfolding apply_action
returned_off s d h = ground arith

-- The rows that a round's update leaves.
updated-IsDue :
    (moment : ℕ) (q : Action) (due : List Action) (dest : ActionStatus) (fields : Action → Action)
    (rows : List Action)
    → in_flight dest ≡ false
    → All (IsDue moment (q ∷ due)) rows
    → All
        (IsDue moment due)
        (updated (is_at q.id q.status) (λ a. record (fields a) { status = dest }) rows)
updated-IsDue moment q due dest fields [] off h = tt
updated-IsDue moment q due dest fields (a ∷ rows) off (h, hs) =
    elim (Bool-cases (is_at q.id q.status a)) [
      | inl at ↦ rw at (inl (rw off refl), updated-IsDue moment q due dest fields rows off hs)
      | inr other ↦ rw other (
        (elim h [ inl fresh ↦ inl fresh | inr later ↦ inr (rw other at later) ]),
        updated-IsDue moment q due dest fields rows off hs,
      )
    ]

-- A round settles what it is about, and makes nothing due.
record Settles {ℓ} {A : Type ℓ} (moment : ℕ) (q : Action) (due : List Action) (m : Session A)
    : Type ℓ where
  pub settles :
      (db : Db) (a : A) (new : Db)
      → m db ≡ ok (a, new)
      → All (IsDue moment (q ∷ due)) db.actions
      → All (IsDue moment due) new.actions

move-Settles {ℓ} :
    {A : Type ℓ} (moment : ℕ) (q : Action) (due : List Action) (t : ActionTrigger)
    (fields : Action → Action) (rest : ActionStatus → Option Action → Session A)
    → ((s d : ActionStatus) → apply_action s t ≡ ok d → in_flight d ≡ false)
    → ((dest : ActionStatus) (row : Option Action) → Keeps SameActions (rest dest row))
    → Settles moment q due (
        given (apply_action q.status t) >>= λ dest.
        cas_status q.id q.status dest fields >>= rest dest)
unfolding cas_status update
move-Settles moment q due t fields rest off same = record {
  settles = λ db a new e h.
      let (dest, mid, f, g) = go_on-eq-ok (given (apply_action q.status t) db) _ e in
      let (table, stays) = given-eq-ok (apply_action q.status t) db f in
      let (row, next, u, v) =
        go_on-eq-ok (cas_status q.id q.status dest fields mid) (rest dest) g in
      let w : record mid {
        actions =
            updated (is_at q.id q.status) (λ a. record (fields a) { status = dest }) mid.actions;
      }
          ≡ next =
        ground (arith, u) in
      let cleared =
        updated-IsDue moment q due dest fields mid.actions (off q.status dest table) (rw stays h) in
      let after : All (IsDue moment due) next.actions = rw (← w) cleared in
      let k : new.actions ≡ next.actions = (same dest row).kept next a new v in rw k after;
}

reap_one-Settles :
    (moment : ℕ) (q : Action) (due : List Action) → Settles moment q due (reap_one moment q)
unfolding reap_one reap_exhausted reap_returned
reap_one-Settles moment q due = elim (Bool-cases (is_exhausted q)) [
  | inl over ↦
      rw over (move-Settles _ _ _ _ _ _ failed_off (λ dest row. search (same_actions) depth 20))
  | inr again ↦
      rw again (move-Settles _ _ _ _ _ _ returned_off (λ dest row. search (same_actions) depth 20))
]

reap_each-clears :
    (moment : ℕ) (due : List Action) (db new : Db) (ids : List ℕ)
    → reap_each moment due db ≡ ok (ids, new)
    → All (IsDue moment due) db.actions
    → All (IsDue moment []) new.actions
unfolding reap_each
reap_each-clears moment [] db new ids e h = let w : db ≡ new = ground (arith, e) in rw (← w) h
reap_each-clears moment (q ∷ due) db new ids e h =
    let (one, mid, f, g) = go_on-eq-ok (reap_one moment q db) _ e in
    let (rest, last, u, v) = go_on-eq-ok (reap_each moment due mid) _ g in
    let w : last ≡ new = ground (arith, v) in
    let done =
      reap_each-clears moment due mid last rest u
        ((reap_one-Settles moment q due).settles db one mid f h) in
    rw (← w) done

IsDue-more :
    (moment : ℕ) (q : Action) (due : List Action) (a : Action)
    → IsDue moment due a
    → IsDue moment (q ∷ due) a
IsDue-more moment q due a (inl fresh) = inl fresh
IsDue-more moment q due a (inr later) = inr (ground arith)

is_at_self : (a : Action) → is_at a.id a.status a ≡ true
is_at_self a = ground (arith, (action_status_eq.beq_iff a.status a.status).1 refl)

IsDue-late :
    (moment : ℕ) (a : Action) (rest due rows : List Action)
    → due ≡ a ∷ rest
    → All (IsDue moment rest) rows
    → All (IsDue moment due) (a ∷ rows)
IsDue-late moment a rest due rows e h =
    let head : IsDue moment (a ∷ rest) a = inr (rw (is_at_self a) refl) in
    let tail : All (IsDue moment (a ∷ rest)) rows =
      All-map (IsDue moment rest) (IsDue moment (a ∷ rest)) rows (IsDue-more moment a rest) h in
    subst (λ d. All (IsDue moment d) (a ∷ rows)) (sym e) (head, tail)

IsDue-fresh :
    (moment : ℕ) (a : Action) (rest due rows : List Action)
    → due ≡ rest
    → is_expired moment a ≡ false
    → All (IsDue moment rest) rows
    → All (IsDue moment due) (a ∷ rows)
IsDue-fresh moment a rest due rows e fresh h =
    subst (λ d. All (IsDue moment d) (a ∷ rows)) (sym e) (inl fresh, h)

-- Every expired row is among those selected.
selected-IsDue :
    (moment : ℕ) (rows : List Action) → All (IsDue moment (select (is_expired moment) rows)) rows
selected-IsDue moment [] = tt
selected-IsDue moment (a ∷ rows) = elim (Bool-cases (is_expired moment a)) [
  | inl late ↦
      IsDue-late moment a (select (is_expired moment) rows) (select (is_expired moment) (a ∷ rows))
        rows (rw late refl) (selected-IsDue moment rows)
  | inr fresh ↦
      IsDue-fresh moment a (select (is_expired moment) rows) (select (is_expired moment) (a ∷ rows))
        rows (rw fresh refl) fresh (selected-IsDue moment rows)
]

IsDue-none : (moment : ℕ) (a : Action) → IsDue moment [] a → is_expired moment a ≡ false
IsDue-none moment a (inl fresh) = fresh
IsDue-none moment a (inr due) = cc

-- Where a pass of the reaper returns, no action in flight has a lease that ran out before its moment.
pub reap_clears :
    (moment : ℕ) (db new : Db) (ids : List ℕ)
    → reap moment db ≡ ok (ids, new)
    → All (λ a. is_expired moment a ≡ false) new.actions
unfolding reap expired_leases
reap_clears moment db new ids h =
    All-map (IsDue moment []) (λ a. is_expired moment a ≡ false) new.actions (IsDue-none moment)
      (reap_each-clears moment (select (is_expired moment) db.actions) db new ids h
        (selected-IsDue moment db.actions))
