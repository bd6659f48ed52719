-- ===== src/Store/Actions.antt =====
-- `ActionRepo` of vyomel/store/repos.py. An update with a condition changes the row with the identifier
-- if the condition holds of it, and returns what it wrote.
pub mod Rows
use vyomel.Prelude.{
  ℕ, suc, ◌+◌, Bool, true, false, not, ◌&&◌, ◌||◌, Option, none, some, List, [], ◌∷◌, Text,
  text_beq, eqb, ltb, leb, any, select, find_first, length, if◌then◌else◌,
}
use vyomel.Core.Types.{Capability, ActionStatus, action_status_eq}
use vyomel.Core.Errors.{raise_class, integrity_error}
use vyomel.Core.Json.{Fields}
use vyomel.Store.{Db, Action, SideEffectLedger, DeadLetter}
use vyomel.Store.Session.{Session, pure, raise, ◌>>=◌, ◌>>◌, look, change}

abbrev pub same_status : ActionStatus → ActionStatus → Bool
same_status a b = action_status_eq.beq a b

-- `status.in_((DISPATCHED, RUNNING))`
abbrev pub in_flight : ActionStatus → Bool
in_flight ActionStatus.dispatched = true
in_flight ActionStatus.running = true
in_flight _ = false

-- `status.in_((DISPATCHED, READY))`
abbrev pub claimable : ActionStatus → Bool
claimable ActionStatus.dispatched = true
claimable ActionStatus.ready = true
claimable _ = false

-- The rows that an update with this condition changes, with the change made.
abbrev pub updated : (Action → Bool) → (Action → Action) → List Action → List Action
updated p f [] = []
updated p f (a ∷ rows) = (if p a then f a else a) ∷ updated p f rows

-- `returning(Action)`
abbrev pub returned : (Action → Bool) → (Action → Action) → List Action → Option Action
returned p f rows = elim (find_first p rows) [ none ↦ none | some a ↦ some (f a) ]

unfoldable pub update : (Action → Bool) → (Action → Action) → Session (Option Action)
update p f = do
  row ← look (λ db. returned p f db.actions)
  change (λ db. record db { actions = updated p f db.actions })
  pure row

unfoldable pub get_action : ℕ → Session (Option Action)
get_action id = look (λ db. find_first (λ a. eqb a.id id) db.actions)

unfoldable pub list_actions : ℕ → Session (List Action)
list_actions task_id = look (λ db. select (λ a. eqb a.task_id task_id) db.actions)

-- the condition of `cas_status`
abbrev pub is_at : ℕ → ActionStatus → Action → Bool
is_at id expected a = eqb a.id id && same_status a.status expected

-- `cas_status`; `fields` sets the other columns
unfoldable pub cas_status :
    ℕ → ActionStatus → ActionStatus → (Action → Action) → Session (Option Action)
unfolding update
cas_status id expected new fields =
    update (is_at id expected) (λ a. record (fields a) { status = new })

unfoldable pub cas_dispatch : ℕ → ℕ → Session (Option Action)
unfolding update
cas_dispatch id now = update (is_at id ActionStatus.ready) (λ a. record a {
  status = ActionStatus.dispatched;
  dispatched_at = some now;
  lease_owner = none;
  lease_until = none;
})

-- what a claim writes
abbrev pub claimed : Text → ℕ → ℕ → Action → Action
claimed worker_id lease_until now a = record a {
  status = ActionStatus.running;
  lease_owner = some worker_id;
  lease_until = some lease_until;
  started_at = some now;
  attempt_count = suc a.attempt_count;
}

abbrev pub can_claim : ℕ → Action → Bool
can_claim id a = eqb a.id id && claimable a.status

unfoldable pub cas_claim : ℕ → Text → ℕ → ℕ → Session (Option Action)
unfolding update
cas_claim id worker_id lease_until now = update (can_claim id) (claimed worker_id lease_until now)

-- `lease_owner == worker_id`: a null owner equals none
abbrev pub is_owner : Text → Option Text → Bool
is_owner worker_id none = false
is_owner worker_id (some owner) = text_beq owner worker_id

unfoldable pub extend_lease : ℕ → Text → ℕ → Session (Option Action)
unfolding update
extend_lease id worker_id lease_until =
    update (λ a. is_at id ActionStatus.running a && is_owner worker_id a.lease_owner)
      (λ a. record a { lease_until = some lease_until })

-- `lease_until.is_not(None)`, `lease_until < now`
abbrev pub is_before : ℕ → Option ℕ → Bool
is_before now none = false
is_before now (some moment) = ltb moment now

abbrev pub is_expired : ℕ → Action → Bool
is_expired now a = in_flight a.status && is_before now a.lease_until

unfoldable pub expired_leases : ℕ → Session (List Action)
expired_leases now = look (λ db. select (is_expired now) db.actions)

-- `available_at IS NULL OR available_at <= now`
abbrev pub is_available : ℕ → Option ℕ → Bool
is_available now none = true
is_available now (some moment) = leb moment now

abbrev pub is_unleased : Option ℕ → Bool
is_unleased none = true
is_unleased (some moment) = false

unfoldable pub orphan_dispatched : Session (List Action)
orphan_dispatched = look (λ db.
    select (λ a. same_status a.status ActionStatus.dispatched && is_unleased a.lease_until)
      db.actions)

unfoldable pub in_flight_count : ℕ → Session ℕ
in_flight_count task_id =
    look (λ db. length (select (λ a. eqb a.task_id task_id && in_flight a.status) db.actions))

unfoldable pub rewrite_invocation : ℕ → Fields → Capability → Text → Session (Option Action)
unfolding update
rewrite_invocation id parameters level key =
    update (is_at id ActionStatus.waiting_for_user)
      (λ a. record a { parameters = parameters; capability_level = level; idempotency_key = key })

-- `insert_ledger`: the key is the primary key, and a key that is taken rolls the nested part back
unfoldable pub insert_ledger : Text → Text → ℕ → Session Bool
insert_ledger key tool action_id = do
  taken ← look (λ db. any (λ l. text_beq l.idempotency_key key) db.ledger)
  if taken then pure false else (do
    change (λ db. record db {
      ledger = record { idempotency_key = key; tool = tool; action_id = action_id } ∷ db.ledger;
    })
    pure true)

-- `add_dead_letter`: a second letter for one action breaks the unique column, and the flush raises
unfoldable pub add_dead_letter : ℕ → Text → Session (Unit {0})
add_dead_letter action_id reason = do
  taken ← look (λ db. any (λ l. eqb l.action_id action_id) db.dead_letters)
  if taken
      then raise (raise_class integrity_error)
      else change (λ db. record db {
        dead_letters = record { action_id = action_id; reason = reason } ∷ db.dead_letters;
      })
