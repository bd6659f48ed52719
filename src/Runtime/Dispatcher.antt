-- ===== src/Runtime/Dispatcher.antt =====
-- vyomel/runtime/dispatcher.py: which actions are promoted and which are sent to the queue. The registry is a
-- parameter by the concurrency key that it gives for a tool. `publish` only sends, and is left out.
pub mod Limits
pub mod Approved
pub mod Moved
use vyomel.Prelude.{
  ℕ, suc, ◌+◌, ◌-◌, Bool, true, false, ◌&&◌, Option, none, some, List, [], ◌∷◌, ◌++◌, Text, codes,
  text_beq, eqb, ltb, leb, length, select, find_first, if◌then◌else◌,
}
use vyomel.Core.Types.{ActionStatus, TaskStatus}
use vyomel.Core.Errors.{Result, ok, err, raise_class, key_error}
use vyomel.Core.Json.{ℤ, pos, Value, Fields}
use vyomel.Security.Policy.{PolicyDecision}
use vyomel.Runtime.State.{ActionTrigger, apply_action, TaskTrigger, apply_task}
use vyomel.Runtime.Dag.{ActionNode, ready_ids}
use vyomel.Store.{Db, Task, Step, Action}
use vyomel.Store.Session.{Session, pure, given, ◌>>=◌, ◌>>◌, look, change}
use vyomel.Store.Actions.{same_status, in_flight, is_available, cas_status}
use vyomel.Store.Tasks.{same_task_status, cas_task}
use vyomel.Runtime.Gate.{Env, GateVerdict, note}
use vyomel.Runtime.Gate.Decide.{check}

-- what the dispatcher is built with
pub record DispatchEnv : Type 0 where
  pub env : Env
  -- `_concurrency_key(tool, registry)`
  pub key_of : Text → Option Text
  pub max_parallel : ℕ
  -- `format_traceparent`
  pub traceparent : Option Text → Option Text

-- `_CONCURRENCY_LIMITS.get(key, max_parallel)`
abbrev pub limits : List (Text × ℕ)
limits =
    (codes "desktop", 1)
    ∷ (codes "browser", 1)
    ∷ (codes "fs", 4)
    ∷ (codes "http", 8)
    ∷ (codes "model", 2)
    ∷ []

-- `dict.get(key, default)`, and the entry one higher
abbrev pub get_or : Text → ℕ → List (Text × ℕ) → ℕ
get_or key default [] = default
get_or key default ((k, n) ∷ rest) = if text_beq k key then n else get_or key default rest

abbrev pub bump : Text → List (Text × ℕ) → List (Text × ℕ)
bump key [] = (key, 1) ∷ []
bump key ((k, n) ∷ rest) = if text_beq k key then (k, suc n) ∷ rest else (k, n) ∷ bump key rest

abbrev pub bump_key : Option Text → List (Text × ℕ) → List (Text × ℕ)
bump_key none counts = counts
bump_key (some key) counts = bump key counts

unfoldable pub limit_of : DispatchEnv → Text → ℕ
limit_of d key = get_or key d.max_parallel limits

-- `_key_counts`
unfoldable pub key_counts : DispatchEnv → List Action → List (Text × ℕ) → List (Text × ℕ)
key_counts d [] counts = counts
key_counts d (a ∷ actions) counts = key_counts d actions (bump_key (d.key_of a.tool) counts)

-- `by_step[action.step_id].tolerates_unverified` for each action
unfoldable pub nodes_of : List Step → List Action → Result (List ActionNode)
nodes_of steps [] = ok []
nodes_of steps (a ∷ actions) =
    let rest = nodes_of steps actions in
    elim (find_first (λ s. eqb s.id a.step_id) steps) [
      | none ↦ err (raise_class key_error)
      | some s ↦ elim rest [
        | err e ↦ err e
        | ok nodes ↦ ok (
            record {
              id = a.id;
              status = a.status;
              depends_on = a.depends_on;
              step_id = a.step_id;
              tolerates_unverified = s.tolerates_unverified;
            }
            ∷ nodes)
      ]
    ]

-- one more where a row was moved
abbrev pub count_moved : Option Action → ℕ → ℕ
count_moved none n = n
count_moved (some row) n = suc n

unfoldable pub promote_each : List ℕ → Session ℕ
promote_each [] = pure 0
promote_each (id ∷ ids) = do
  dest ← given (apply_action ActionStatus.planned ActionTrigger.dependencies_satisfied)
  row ← cas_status id ActionStatus.planned dest (λ a. a)
  promoted ← promote_each ids
  pure (count_moved row promoted)

unfoldable pub promote_ready : List Action → List Step → Session ℕ
unfolding nodes_of promote_each
promote_ready actions steps = do
  nodes ← given (nodes_of steps actions)
  ids ← given (ready_ids nodes)
  promote_each ids

-- what is published: the action, its trace and its tool
pub record Published : Type 0 where
  pub action_id : ℕ
  pub trace : Option Text
  pub tool : Text

pub record Progress : Type 0 where
  pub published : List Published
  pub counts : List (Text × ℕ)

-- `candidates`
abbrev pub is_candidate : ℕ → Action → Bool
is_candidate now a = same_status a.status ActionStatus.ready && is_available now a.available_at

abbrev pub insert_action : Action → List Action → List Action
insert_action a [] = a ∷ []
insert_action a (b ∷ rows) = if ltb b.id a.id then b ∷ insert_action a rows else a ∷ b ∷ rows

abbrev pub sort_actions : List Action → List Action
sort_actions [] = []
sort_actions (a ∷ rows) = insert_action a (sort_actions rows)

-- the key has as many in flight as it may
abbrev pub is_full : DispatchEnv → Option Text → List (Text × ℕ) → Bool
is_full d none counts = false
is_full d (some key) counts = leb (limit_of d key) (get_or key 0 counts)

abbrev pub optional : Option Text → Value
optional none = Value.null
optional (some s) = Value.str s

abbrev pub rule_of : Option PolicyDecision → Value
rule_of none = Value.null
rule_of (some d) = Value.str d.rule_id

abbrev pub approval_of : Env → Option ℕ → Value
approval_of env none = Value.null
approval_of env (some id) = Value.str (env.ulid id)

unfoldable pub sent :
    DispatchEnv → Task → Action → GateVerdict → Progress → Option Action → Session Progress
sent d task action verdict st none = pure st
sent d task action verdict st (some row) = do
  note d.env (codes "dispatcher") (codes "action.dispatched") action (
      Fields.field (codes "tool") (Value.str action.tool) (
        Fields.field (codes "tool_version") (Value.str action.tool_version) (
          Fields.field (codes "attempt") (Value.int (pos action.attempt_count)) (
            Fields.field (codes "idempotency_key") (Value.str action.idempotency_key) (
              Fields.field (codes "policy_rule_id") (rule_of verdict.decision) (
                Fields.field (codes "approval_id") (approval_of d.env verdict.approval_id)
                  Fields.end))))))
  pure (record {
    published =
        record { action_id = action.id; trace = d.traceparent task.trace_id; tool = action.tool }
        ∷ st.published;
    counts = bump_key (d.key_of action.tool) st.counts;
  })

-- what the verdict's `allowed` makes of the round
unfoldable pub judged :
    DispatchEnv → Task → Action → GateVerdict → Progress → Bool → Session Progress
unfolding sent
judged d task action verdict st true = do
  dest ← given (apply_action ActionStatus.ready ActionTrigger.enqueued)
  row ←
      cas_status action.id ActionStatus.ready dest
        (λ a. record a { dispatched_at = some d.env.now; lease_owner = none; lease_until = none })
  sent d task action verdict st row
judged d task action verdict st false = pure st

-- one round of the loop, where the slots are not used up
unfoldable pub enqueue_one : DispatchEnv → Task → Action → Progress → Session Progress
unfolding judged
enqueue_one d task action st =
    if is_full d (d.key_of action.tool) st.counts
    then pure st
    else (do verdict ← check d.env action task; judged d task action verdict st verdict.allowed)

unfoldable pub enqueue_each : DispatchEnv → Task → ℕ → List Action → Progress → Session Progress
unfolding enqueue_one
enqueue_each d task slots [] st = pure st
enqueue_each d task slots (action ∷ actions) st =
    if leb slots (length st.published)
    then pure st
    else (do next ← enqueue_one d task action st; enqueue_each d task slots actions next)

-- `slots`
abbrev pub slots : DispatchEnv → List Action → ℕ
slots d actions = d.max_parallel - length (select (λ a. in_flight a.status) actions)

-- what is published stands last first
unfoldable pub enqueue_ready : DispatchEnv → Task → List Action → Session Progress
unfolding enqueue_each key_counts
enqueue_ready d task actions =
    enqueue_each d task (slots d actions) (sort_actions (select (is_candidate d.env.now) actions))
      (record {
        published = [];
        counts = key_counts d (select (λ a. in_flight a.status) actions) [];
      })

unfoldable pub maybe_start_task : Env → Task → Session (Option Task)
maybe_start_task env task =
    if same_task_status task.status TaskStatus.ready
    then (do
      dest ← given (apply_task TaskStatus.ready TaskTrigger.first_dispatch)
      cas_task task.id TaskStatus.ready dest (λ t. record t { started_at = some env.now }))
    else pure none
