-- ===== src/Runtime/Examples.antt =====
-- The execution engine at concrete inputs.
use vyomel.Prelude.{
  inr, arith, ◌≡◌, ◌≢◌, ◌≤◌, ◌+◌, max, refl, ◌↔◌, true, false, none, some, List, [], ◌∷◌, codes,
  All, all, length, select, eqb,
}
use vyomel.Core.Types.{l1, l2, rank, ActionStatus, TaskStatus, StepStatus, pending}
use vyomel.Core.Errors.{Result, ok, timeout}
use vyomel.Security.Policy.{PolicyDecision, evaluate}
use vyomel.Security.Approvals.{Approval, usable_for, pending_for, due_for_expiry}
use vyomel.Runtime.State.{apply_action, apply_task}
use vyomel.Store.{Db, Action, Task}
use vyomel.Store.Session.{after}
use vyomel.Store.Actions.{
  is_expired, in_flight, cas_status, add_dead_letter, expired_leases, get_action, list_actions,
  insert_ledger,
}
use vyomel.Store.Actions.Rows.{Left}
use vyomel.Store.Tasks.{get_task, cas_task, list_steps}
use vyomel.Runtime.Gate.{GateVerdict, request_of, note}
use vyomel.Runtime.Gate.Decide.{check, fail_ready_action}
use vyomel.Runtime.Gate.Decide.Allowed.{AllowedBy, allowed_only_by_decision}
use vyomel.Runtime.Gate.Refused.{refused_leaves_ready}
use vyomel.Runtime.Gate.Answer.{expire_overdue}
use vyomel.Runtime.Gate.Answer.Expiry.{is_overdue, expiry_is_complete}
use vyomel.Runtime.Reaper.{reap}
use vyomel.Runtime.Reaper.Cleared.{reap_clears}
use vyomel.Runtime.Reaper.Blocked.{has_letter, reap_blocked}
use vyomel.Runtime.Worker.Finish.{finish_failed}
use vyomel.Runtime.Worker.Run.{execute, run_claimed}
use vyomel.Runtime.Worker.Run.Settled.{execute_settles}
use vyomel.Runtime.Worker.Run.Once.{with_execute, never_replayed, late_failure}
use vyomel.Runtime.Dispatcher.{enqueue_ready, Published, Progress, limit_of}
use vyomel.Runtime.Dispatcher.Limits.{in_flight_with, published_with, dispatch_within_limits}
use vyomel.Runtime.Dispatcher.Approved.{Vouched, published_are-Vouched}
use vyomel.Runtime.Scheduler.{SchedulerEnv, task_end, tick_task, complete, step_verdict}
use vyomel.Runtime.Scheduler.Verdict.{is_accepted, task_complete_iff, complete_over_failed_step}
use vyomel.Runtime.Scheduler.Ticks.{gated_tick_stays, expired_task, deadline_stops}
use vyomel.Runtime.Closes.{RowsClose}
use vyomel.Runtime.Lifecycle.{start, later, ticked, terminal_rows_stay}
use vyomel.Runtime.Cancel.{CancelEnv, CancelReport, drop_pending, compensate_succeeded}
use vyomel.Runtime.Cancel.Report.{rolled_back, compensation_report}
use vyomel.Runtime.Cancel.Dropped.{cancelled_row, unstarted_are_dropped}
use vyomel.Runtime.Dag.Kahn.{reverse_topo}
use vyomel.Runtime.Fixture.{
  env, task_at, step, action_at, db_of, dispatch, scheduler, writer, worker, canceller, value_of,
}
use vyomel.Runtime.Worker.{Tool, Execution, timed_out}

abbrev no_verdict : GateVerdict
no_verdict = record { allowed = false; reason = []; decision = none; approval_id = none }

abbrev low : Action
low = action_at 2 ActionStatus.ready l1 []

abbrev high : Action
high = action_at 3 ActionStatus.ready l2 []

abbrev at_gate : Db
at_gate = db_of TaskStatus.running (low ∷ high ∷ [])

abbrev gated : Task
gated = task_at TaskStatus.running

-- The policy allows the first action, and asks for the second.
allowed_only_by_decision_example :
    (d : PolicyDecision) × (evaluate env.ext env.policy (request_of low gated) env.today ≡ ok d)
    × (rank l1 ≤ rank l2)
    × ((after at_gate (check env low gated at_gate)).actions ≡ at_gate.actions)
    × AllowedBy env low at_gate (after at_gate (check env low gated at_gate)) d
unfolding check evaluate vyomel.Runtime.Gate.Decide.by_decision note
allowed_only_by_decision_example =
    allowed_only_by_decision env low gated at_gate (after at_gate (check env low gated at_gate))
      (value_of no_verdict (check env low gated at_gate)) refl refl

refused_leaves_ready_example :
    Left 3 ActionStatus.ready (after at_gate (check env high gated at_gate))
unfolding check evaluate vyomel.Runtime.Gate.Decide.by_decision
    vyomel.Runtime.Gate.Decide.require_approval vyomel.Runtime.Gate.Decide.spend_or_wait usable_for
    vyomel.Runtime.Gate.Decide.wait_for pending_for vyomel.Runtime.Gate.Decide.ask apply_action
    cas_status vyomel.Runtime.Gate.Decide.park note
refused_leaves_ready_example =
    refused_leaves_ready env high gated at_gate (after at_gate (check env high gated at_gate))
      (value_of no_verdict (check env high gated at_gate)) refl refl

-- A lease that ran out, of an action that may be tried again.
abbrev lost : Db
lost =
    db_of TaskStatus.running
      (action_at 2 ActionStatus.dispatched l1 [] ∷ action_at 4 ActionStatus.failed l1 [] ∷ [])

reap_clears_example : All (λ a. is_expired 50 a ≡ false) (after lost (reap 50 lost)).actions
unfolding reap expired_leases apply_action cas_status
reap_clears_example = reap_clears 50 lost (after lost (reap 50 lost)) (2 ∷ []) refl

-- The planner's next plan has one action.
abbrev replanner : SchedulerEnv
replanner = record scheduler {
  replan_gate = record scheduler.replan_gate {
    plan = λ task step action.
        ok (record { steps = []; actions = action_at 9 ActionStatus.planned l1 [] ∷ [] });
  };
}

abbrev lively : Task
lively = record (task_at TaskStatus.running) { deadline_at = none }

abbrev failing : Db
failing = record (db_of TaskStatus.running (action_at 4 ActionStatus.failed l1 [] ∷ [])) {
  tasks = lively ∷ [];
}

abbrev replanned : Db
replanned = after failing (tick_task replanner lively failing)

-- The tick cancels the failed action and adds the new one.
terminal_rows_stay_example : RowsClose failing.actions replanned.actions
unfolding tick_task list_steps list_actions vyomel.Runtime.Dispatcher.promote_ready
    vyomel.Runtime.Dag.ready_ids enqueue_ready vyomel.Runtime.Dispatcher.maybe_start_task
    vyomel.Store.Tasks.set_step_status vyomel.Runtime.Replan.try_replan cas_status
terminal_rows_stay_example =
    let r : tick_task replanner lively failing ≡ ok ([], replanned) = refl in
    terminal_rows_stay failing replanned (later start (ticked replanner lively [] r))

replanned_test :
    replanned.actions
    ≡ action_at 4 ActionStatus.cancelled l1 [] ∷ action_at 9 ActionStatus.planned l1 [] ∷ []
unfolding tick_task list_steps list_actions vyomel.Runtime.Dispatcher.promote_ready
    vyomel.Runtime.Dag.ready_ids enqueue_ready vyomel.Runtime.Dispatcher.maybe_start_task
    vyomel.Store.Tasks.set_step_status vyomel.Runtime.Replan.try_replan cas_status
replanned_test = refl

-- Its attempts are used up, and a late failure has left a dead letter.
abbrev stuck : Db
stuck = record (db_of TaskStatus.running (action_at 2 ActionStatus.running l1 [] ∷ [])) {
  dead_letters = record { action_id = 2; reason = codes "TIMEOUT" } ∷ [];
}

reap_blocked_example : reap 50 stuck ≢ ok ([], stuck)
reap_blocked_example = reap_blocked 50 stuck stuck [] refl

abbrev taken_back : Db
taken_back = db_of TaskStatus.running (low ∷ [])

abbrev late_run : Result (Unit {0} × Db)
late_run =
    finish_failed (action_at 2 ActionStatus.running l1 []) 50 timeout (codes "late") true none none
      taken_back

late_failure_example :
    ((after taken_back late_run).actions ≡ taken_back.actions)
    × (has_letter (after taken_back late_run) 2 ≡ true)
unfolding finish_failed apply_action cas_status add_dead_letter
late_failure_example =
    late_failure (action_at 2 ActionStatus.running l1 []) 50 timeout (codes "late") true none none
      taken_back (after taken_back late_run) (refl, tt) refl

abbrev claimed : Action
claimed = action_at 2 ActionStatus.running l1 []

abbrev running : Db
running = db_of TaskStatus.running (claimed ∷ [])

execute_settles_example : Left 2 ActionStatus.running (after running (execute worker 2 running))
unfolding execute get_action get_task insert_ledger note apply_action cas_status
execute_settles_example =
    execute_settles worker 2 running (after running (execute worker 2 running)) claimed refl refl
      refl

abbrev reserved : Db
reserved = record running {
  ledger = record { idempotency_key = codes "key"; tool = codes "fs.write"; action_id = 2 } ∷ [];
}

abbrev otherwise : Tool → Action → Execution
otherwise tool action = record {
  ending = timed_out;
  action_cancelled = false;
  worker_cancelled = false;
  finished = 70;
}

never_replayed_example :
    run_claimed (with_execute otherwise worker) claimed reserved
    ≡ run_claimed worker claimed reserved
never_replayed_example = never_replayed worker otherwise claimed reserved refl writer refl refl

abbrev no_progress : Progress
no_progress = record { published = []; counts = [] }

abbrev sent : Progress
sent = value_of no_progress (enqueue_ready dispatch gated at_gate.actions at_gate)

dispatch_within_limits_example :
    (length (select (λ a. in_flight a.status) at_gate.actions) + length sent.published
      ≤ max dispatch.max_parallel (length (select (λ a. in_flight a.status) at_gate.actions)))
    × (in_flight_with dispatch (codes "fs") (select (λ a. in_flight a.status) at_gate.actions)
          + published_with dispatch (codes "fs") sent.published
        ≤ max (limit_of dispatch (codes "fs")) (
            in_flight_with dispatch
              (codes "fs")
              (select (λ a. in_flight a.status) at_gate.actions)))
unfolding enqueue_ready limit_of check evaluate vyomel.Runtime.Gate.Decide.by_decision note
    apply_action cas_status vyomel.Runtime.Gate.Decide.require_approval
    vyomel.Runtime.Gate.Decide.spend_or_wait usable_for vyomel.Runtime.Gate.Decide.wait_for
    pending_for vyomel.Runtime.Gate.Decide.ask vyomel.Runtime.Gate.Decide.park
dispatch_within_limits_example =
    dispatch_within_limits dispatch gated at_gate.actions (codes "fs") sent at_gate
      (after at_gate (enqueue_ready dispatch gated at_gate.actions at_gate)) refl

published_are-Vouched_example : All (Vouched dispatch gated at_gate.actions) sent.published
unfolding enqueue_ready limit_of check evaluate vyomel.Runtime.Gate.Decide.by_decision note
    apply_action cas_status vyomel.Runtime.Gate.Decide.require_approval
    vyomel.Runtime.Gate.Decide.spend_or_wait usable_for vyomel.Runtime.Gate.Decide.wait_for
    pending_for vyomel.Runtime.Gate.Decide.ask vyomel.Runtime.Gate.Decide.park
published_are-Vouched_example =
    published_are-Vouched dispatch gated at_gate.actions sent at_gate
      (after at_gate (enqueue_ready dispatch gated at_gate.actions at_gate)) refl

-- Of two actions one was dropped.
abbrev ended : List Action
ended = action_at 2 ActionStatus.succeeded l1 [] ∷ action_at 3 ActionStatus.cancelled l1 [] ∷ []

task_complete_iff_example :
    (task_end gated ended (step ∷ []) ≡ ok complete)
    ↔ ((true ≡ true) × (all (is_accepted (step ∷ [])) ended ≡ true))
task_complete_iff_example = task_complete_iff gated ended (step ∷ [])

complete_over_failed_step_example :
    step_verdict false (select (λ a. eqb a.step_id 5) ended) ≡ some StepStatus.failed
unfolding task_end
complete_over_failed_step_example = complete_over_failed_step gated ended (step ∷ []) step refl refl

abbrev nothing : List Published
nothing = []

abbrev waiting : Db
waiting = db_of TaskStatus.waiting_for_user (action_at 3 ActionStatus.waiting_for_user l2 [] ∷ [])

gated_tick_stays_example : (nothing ≡ []) × (waiting ≡ waiting)
unfolding tick_task list_steps list_actions
gated_tick_stays_example =
    gated_tick_stays scheduler (task_at TaskStatus.waiting_for_user) waiting waiting nothing refl
      refl refl

-- The deadline was at 10.
abbrev late : Task
late = record gated { deadline_at = some 10 }

abbrev at_deadline : Db
at_deadline = record at_gate { tasks = late ∷ [] }

deadline_stops_example :
    tick_task scheduler late at_deadline
    ≡ ok ([], record at_deadline { tasks = expired_task 50 late late ∷ [] })
deadline_stops_example = deadline_stops scheduler late 10 at_deadline refl (omega arith) (inr refl)

-- An approval past its time, of an action that waits.
abbrev unanswered : Approval
unanswered = record {
  id = 8;
  action_id = 3;
  task_id = 1;
  capability_level = l2;
  status = pending;
  parameter_hash = [];
  modified_parameters = none;
  policy_rule_id = none;
  policy_hash = none;
  decided_by = none;
  decided_at = none;
  consumed_at = none;
  expires_at = 40;
}

abbrev asked : Db
asked = record waiting { approvals = unanswered ∷ [] }

expiry_is_complete_example :
    All (λ a. is_overdue 50 a ≡ false) (after asked (expire_overdue env asked)).approvals
unfolding expire_overdue due_for_expiry get_action apply_action cas_status add_dead_letter note
    get_task list_actions apply_task cas_task
expiry_is_complete_example =
    expiry_is_complete env asked (after asked (expire_overdue env asked)) (8 ∷ []) refl

-- Of these, one waits for the user and one runs.
abbrev mixed : List Action
mixed =
    action_at 2 ActionStatus.running l1 [] ∷ action_at 3 ActionStatus.waiting_for_user l2 [] ∷ []

unstarted_are_dropped_example :
    drop_pending env mixed (db_of TaskStatus.cancelled mixed)
    ≡ ok (
      tt,
      db_of TaskStatus.cancelled (
          action_at 2 ActionStatus.running l1 []
          ∷ cancelled_row env.now (action_at 3 ActionStatus.waiting_for_user l2 [])
          ∷ []),
    )
unstarted_are_dropped_example = unstarted_are_dropped env mixed (db_of TaskStatus.cancelled mixed)

abbrev finished : List Action
finished =
    action_at 2 ActionStatus.succeeded l1 [] ∷ action_at 3 ActionStatus.succeeded l1 (2 ∷ []) ∷ []

abbrev done : Db
done = db_of TaskStatus.cancelled finished

abbrev no_report : CancelReport
no_report = record { compensated = []; irreversible = []; failed = [] }

-- The tool of the later one fails to undo it.
abbrev half : CancelEnv
half = record canceller { compensates = λ action. eqb action.id 2 }

abbrev report : CancelReport
report = value_of no_report (compensate_succeeded half (codes "user") finished done)

compensation_report_example :
    (report.compensated ≡ 2 ∷ [])
    × (report.failed ≡ 3 ∷ [])
    × (report.irreversible ≡ [])
    × ((after done (compensate_succeeded half (codes "user") finished done)).actions
        ≡ rolled_back env.now (action_at 2 ActionStatus.succeeded l1 [])
          ∷ action_at 3 ActionStatus.succeeded l1 (2 ∷ [])
          ∷ [])
unfolding compensate_succeeded reverse_topo vyomel.Runtime.Dag.check_edges apply_action cas_status
    note
compensation_report_example =
    compensation_report half (codes "user") finished (3 ∷ 2 ∷ []) report done
      (after done (compensate_succeeded half (codes "user") finished done)) refl refl
