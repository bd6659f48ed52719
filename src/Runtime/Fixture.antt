-- ===== src/Runtime/Fixture.antt =====
-- A small database and environment, for the runs of the execution engine.
use vyomel.Prelude.{ℕ, true, false, none, some, List, [], ◌∷◌, codes}
use vyomel.Core.Types.{
  Capability, l1, l2, allow, confirm, ActionStatus, TaskStatus, StepStatus, held,
}
use vyomel.Core.Errors.{Result, ok, err}
use vyomel.Core.Json.{ℤ, Value, Fields}
use vyomel.Core.Redact.{Scrubbing}
use vyomel.Security.Capability.{default_rules}
use vyomel.Security.Fixture.{plain_external}
use vyomel.Security.Policy.{Policy}
use vyomel.Security.Audit.{Hashing}
use vyomel.Runtime.Gate.{Env}
use vyomel.Runtime.Dispatcher.{DispatchEnv}
use vyomel.Runtime.Scheduler.{SchedulerEnv}
use vyomel.Runtime.Cancel.{CancelEnv}
use vyomel.Runtime.Worker.{Tool, returned, WorkerEnv}
use vyomel.Store.{Db, Task, Step, Action}

abbrev plain_scrubbing : Scrubbing
plain_scrubbing = record { replace = λ old new t. t; re_sub = λ pattern new t. t; lower = λ t. t }

abbrev plain_hashing : Hashing
plain_hashing = record { dumps = λ v. []; sha256 = λ s. 35 ∷ s; isoformat = λ n. n ∷ [] }

-- L1 is allowed and L2 asks.
abbrev policy : Policy
policy = record {
  version = ℤ.pos 1;
  defaults = (l1, allow) ∷ (l2, confirm) ∷ [];
  rules = [];
  egress = record { deny_by_default = true; allow_domains = [] };
  escalation = default_rules;
  sensitivity = Fields.end;
  hash = [];
}

abbrev pub env : Env
env = record {
  ext = plain_external;
  hashing = plain_hashing;
  scrubbing = plain_scrubbing;
  secrets = [];
  ulid = λ n. n ∷ [];
  show = λ n. n ∷ [];
  policy = policy;
  ttl_s = 900;
  now = 50;
  today = 3;
  new_id = λ rows. 77;
}

abbrev pub task_at : TaskStatus → Task
task_at status = record {
  id = 1;
  status = status;
  capability_ceiling = l2;
  context_hints = Fields.end;
  deadline_at = some 40;
  error = none;
  trace_id = none;
  replan_count = 0;
  started_at = none;
  finished_at = none;
}

abbrev pub step : Step
step = record {
  id = 5;
  task_id = 1;
  ordinal = 0;
  status = StepStatus.running;
  tolerates_unverified = false;
}

abbrev pub action_at : ℕ → ActionStatus → Capability → List ℕ → Action
action_at id status level deps = record {
  id = id;
  task_id = 1;
  step_id = 5;
  tool = codes "fs.write";
  tool_version = [];
  parameters = Fields.end;
  capability_level = level;
  reversible = true;
  idempotency_key = codes "key";
  depends_on = deps;
  status = status;
  attempt_count = 3;
  max_retries = 3;
  timeout_s = 10;
  lease_owner = some (codes "w");
  lease_until = some 20;
  available_at = none;
  result = none;
  error = none;
  dispatched_at = none;
  started_at = none;
  finished_at = none;
}

abbrev pub db_of : TaskStatus → List Action → Db
db_of status actions = record {
  tasks = task_at status ∷ [];
  steps = step ∷ [];
  actions = actions;
  approvals = [];
  trail = record { table = []; next = 0 };
  verifications = [];
  ledger = [];
  dead_letters = [];
}

abbrev pub dispatch : DispatchEnv
dispatch = record {
  env = env;
  key_of = λ tool. some (codes "fs");
  max_parallel = 2;
  traceparent = λ t. t;
}

abbrev pub scheduler : SchedulerEnv
scheduler = record {
  dispatch = dispatch;
  max_replans = 1;
  replan_gate = record {
    env = env;
    max_replans = 1;
    plan = λ task step action. ok (record { steps = []; actions = [] });
    installed = λ task rows. Fields.end;
    requested = λ task action. Fields.end;
  };
  remember = λ task actions. ok tt;
}

abbrev pub writer : Tool
writer = record { name = codes "fs.write"; idempotent = false }

abbrev pub worker : WorkerEnv
worker = record {
  env = env;
  worker_id = codes "w";
  lookup = λ name. some writer;
  unknown = λ name. name;
  invalid = λ tool parameters. none;
  preflight = λ tool action. none;
  execute = λ tool action. record {
    ending = returned Fields.end;
    action_cancelled = false;
    worker_cancelled = false;
    finished = 60;
  };
  spill = λ fields. fields;
  verify = λ tool action output. record { outcome = held; checks = [] };
  describe = λ check. [];
  evidence = λ checks. Value.null;
  pick = λ n. n;
}

abbrev pub canceller : CancelEnv
canceller = record { env = env; compensates = λ action. true; payload = λ report. Fields.end }

-- What a run that succeeds gives, and what it leaves.
abbrev pub value_of {ℓ} : {A : Type ℓ} → A → Result (A × Db) → A
value_of default (ok (a, db)) = a
value_of default (err e) = default
