-- ===== src/Lib.antt =====
-- Vyomel: what its core decides, checked.
--
-- Vyomel is a personal agent. A request becomes a plan of actions; each action runs through a state
-- machine (vyomel/runtime), is classified and put to a policy and, where that asks, to the user
-- (vyomel/security), and leaves a record in a hash-chained trail; planning asks a model provider, chosen
-- by privacy and kept behind circuit breakers (vyomel/models).
--
-- Files and what they model:
--   Prelude             lists, Boolean tests and texts (code points) that the models share
--   Core/Types          vyomel/core/types.py: levels, statuses, decisions
--   Core/Errors         vyomel/core/errors.py: error classes and codes; `Result` is a value or a raise
--   Core/Json           the values that json and yaml.safe_load give
--   Core/Redact         vyomel/core/logging.py: redact, redact_text, register_secret
--   Runtime/State       vyomel/runtime/state.py: the two transition tables, apply_action, apply_task
--   Store               vyomel/store/models.py: the rows that the runtime reads and writes; Store/Session
--                       session_scope of vyomel/store/db.py; Store/Actions and Store/Tasks the
--                       repositories of vyomel/store/repos.py
--   Runtime/Dag         vyomel/runtime/dag.py: ready_ids and the check of the edges; Dag/Kahn
--                       validate_acyclic and reverse_topo
--   Runtime/Gate        vyomel/runtime/gate.py: Gate/Decide `check`, Gate/Answer `grant`, `refuse` and
--                       `expire_overdue`
--   Runtime/Dispatcher  vyomel/runtime/dispatcher.py: promote_ready, enqueue_ready, maybe_start_task
--   Runtime/Worker      vyomel/runtime/worker.py: Worker/Run `_handle`, `_execute` and `_run_claimed`,
--                       Worker/Finish how an attempt ends
--   Runtime/Reaper      vyomel/runtime/reaper.py: reap; Runtime/Retry the delays of
--                       vyomel/runtime/retry.py
--   Runtime/Scheduler   vyomel/runtime/scheduler.py: _tick_task and what it calls
--   Runtime/Replan      vyomel/orchestrator/replanning.py: try_replan, and append_replan of
--                       vyomel/orchestrator/plans.py
--   Runtime/Cancel      vyomel/runtime/cancel.py: cancel and the compensation
--   Runtime/Moves       the moves along the transition table; Runtime/Closes and Runtime/Ticked what the
--                       scheduler adds to them; Runtime/Lifecycle the units of work of the engine as the
--                       steps of one relation
--   Security/Matching   vyomel/security/matching.py: globs to expressions, hosts
--   Security/Capability vyomel/security/capability.py: classify
--   Security/Policy     vyomel/security/policy.py: Policy.evaluate; Policy/Scalars and Policy/Parse the
--                       reader; Policy/Store the cached policy
--   Security/Approvals  vyomel/security/approvals.py: ApprovalService
--   Security/Audit      vyomel/security/audit.py: AuditTrail: append, verify, records
--   Models/Circuit      vyomel/models/circuit.py: CircuitBreaker and FailoverProvider.complete
--   Models/Router       vyomel/models/router.py: build_provider and get_planner_provider
-- A class's state is a record, a method that changes it gives the new record, a table is a list of rows;
-- a query's `where` is a selection, its `order_by` an insertion sort. A moment is a number of
-- microseconds, a day a day number, a ULID the number it encodes. `datetime.now` is an argument.
--
-- A unit of work of the runtime is a `Session`: from a database it gives a value and the new database, or
-- raises and leaves the database as it was. The scheduler, the dispatcher, the gate, the workers, the
-- reaper and a cancellation meet only in the database; between two units any other may run, inside one
-- none does, though an update may find its row moved, since the caller holds rows that it read before.
--
-- Parameters, for code outside the repository: Security/External (regular expressions, casefold, urlsplit,
-- dates, YAML, SHA-256 of a policy), Core/Redact.Scrubbing (replace, re.sub, lower), Security/Audit.Hashing
-- (json.dumps, SHA-256, isoformat), each provider's reply in Models/Circuit, and
-- what the runtime is built with: Gate.Env (the policy, the clock, new identifiers), Worker.WorkerEnv (the
-- tools, what ends their run, the verification), DispatchEnv (a tool's concurrency key), SchedulerEnv
-- (the memory of an episode), ReplanEnv (the plan that the planner gives, as rows) and CancelEnv (a tool's
-- compensation). Theorems that rely on one name what they ask: that SHA-256 gives no empty text, that it,
-- json.dumps and isoformat tell apart what they are given, that a library does not raise ConfigError, or
-- that a file's text depends on its time and size alone.
--
-- The search of Runtime/Dag/Kahn runs on fuel, the number of the plan's actions, which is shown enough for
-- every plan. Every other loop is structural recursion over a list, a value or a text.
--
-- Not modelled: metrics and log lines, the locks, what an approval shows the user, the cache of
-- compiled expressions, the order of backends that models/catalog.py reads, the queue, the loops of a
-- worker's heartbeat and of its watch for a cancellation, the jitter of a delay, the wait of a cancellation for the
-- workers, the loops that call a tick, a pass or a message for ever, and every part of the system that is
-- not named above (the planner, the memory, the tools, the API, the command line, the voice and the
-- learning services).
pub mod Prelude
pub mod Core
pub mod Models
pub mod Runtime
pub mod Security
pub mod Store
