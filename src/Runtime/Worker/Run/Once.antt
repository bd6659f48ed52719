-- ===== src/Runtime/Worker/Run/Once.antt =====
-- vyomel/runtime/worker.py: what the ledger of side effects keeps from running again, and what an attempt
-- that has lost its action still writes.
use vyomel.Prelude.{
  ℕ, ◌≡◌, ap, ◌∙◌, refl, Bool, true, false, Option, none, some, List, [], ◌∷◌, Text, any, All,
  text_beq, arith, eqb_iff,
}
use vyomel.Core.Types.{ActionStatus}
use vyomel.Core.Errors.{ok, ErrorCode, code_value}
use vyomel.Core.Json.{Fields}
use vyomel.Runtime.State.{ActionTrigger, apply_action}
use vyomel.Store.{Db, Action}
use vyomel.Store.Session.{given, given-eq-ok, go_on-eq-ok}
use vyomel.Store.Actions.{is_at, updated, update, cas_status, add_dead_letter, insert_ledger}
use vyomel.Store.Actions.Rows.{Left}
use vyomel.Runtime.Reaper.Blocked.{has_letter}
use vyomel.Runtime.Worker.{Tool, Execution, WorkerEnv}
use vyomel.Runtime.Worker.Finish.{finish_failed, new_result, error_info}
use vyomel.Runtime.Worker.Run.{
  refuse_replay, run_reserved, run_ready, run_checked, run_valid, run_found, run_claimed,
}

-- The ledger has the key.
abbrev pub is_reserved : Text → Db → Bool
is_reserved key db = any (λ l. text_beq l.idempotency_key key) db.ledger

-- the same worker with tools that run otherwise
abbrev pub with_execute : (Tool → Action → Execution) → WorkerEnv → WorkerEnv
with_execute other w = record w { execute = other }

module _ (w : WorkerEnv) (other : Tool → Action → Execution) (action : Action) (db : Db)
    (reserved : is_reserved action.idempotency_key db ≡ true) where
  replay_alike :
      (result : Option Fields)
      → refuse_replay (with_execute other w) action result db ≡ refuse_replay w action result db
  unfolding refuse_replay
  replay_alike none = refl
  replay_alike (some result) = refl

  ledger_refuses :
      (tool : Text) → insert_ledger action.idempotency_key tool action.id db ≡ ok (false, db)
  unfolding insert_ledger
  ledger_refuses tool = rw reserved refl

  ready_alike :
      (tool : Tool) (idempotent : Bool)
      → idempotent ≡ false
      → run_ready (with_execute other w) action tool idempotent db
        ≡ run_ready w action tool idempotent db
  unfolding run_ready run_reserved
  ready_alike tool true h = cc
  ready_alike tool false h = rw (ledger_refuses tool.name) (replay_alike action.result)

  checked_alike :
      (tool : Tool) (reason : Option (Option Text))
      → tool.idempotent ≡ false
      → run_checked (with_execute other w) action tool reason db
        ≡ run_checked w action tool reason db
  unfolding run_checked
  checked_alike tool none h = ready_alike tool tool.idempotent h
  checked_alike tool (some reason) h = refl

  valid_alike :
      (tool : Tool) (message : Option Text)
      → tool.idempotent ≡ false
      → run_valid (with_execute other w) action tool message db ≡ run_valid w action tool message db
  unfolding run_valid
  valid_alike tool none h = checked_alike tool (w.preflight tool action) h
  valid_alike tool (some message) h = refl

  -- Where the ledger has the key of an action whose tool is not idempotent, _run_claimed does the same
  -- whatever running the tool would do: the tool is not run.
  pub never_replayed :
      (tool : Tool)
      → w.lookup action.tool ≡ some tool
      → tool.idempotent ≡ false
      → run_claimed (with_execute other w) action db ≡ run_claimed w action db
  unfolding run_claimed run_found
  never_replayed tool found h = rw found (valid_alike tool (w.invalid tool action.parameters) h)

unmoved :
    (id : ℕ) (s : ActionStatus) (f : Action → Action) (rows : List Action)
    → All (λ a. is_at id s a ≡ false) rows
    → updated (is_at id s) f rows ≡ rows
unmoved id s f [] h = refl
unmoved id s f (a ∷ rows) (h, hs) = rw (h, unmoved id s f rows hs) refl

letter_written :
    (id : ℕ) (reason : Text) (db new : Db) (u : Unit {0})
    → add_dead_letter id reason db ≡ ok (u, new)
    → (new.actions ≡ db.actions) × (has_letter new id ≡ true)
unfolding add_dead_letter
letter_written id reason db new u h = ground (arith, eqb_iff id id)

-- Where no row of the action is RUNNING any more, a _finish_failed that returns leaves the rows as
-- they are and still has a dead letter written for the action.
pub late_failure :
    (action : Action) (now : ℕ) (code : ErrorCode) (message : Text) (retryable : Bool)
    (observation : Option Text) (result : Option Fields) (db new : Db)
    → Left action.id ActionStatus.running db
    → finish_failed action now code message retryable observation result db ≡ ok (tt, new)
    → (new.actions ≡ db.actions) × (has_letter new action.id ≡ true)
unfolding finish_failed cas_status update
late_failure action now code message retryable observation result db new left h =
    let (dest, one, f, g) =
      go_on-eq-ok (given (apply_action ActionStatus.running ActionTrigger.tool_failed_terminal) db)
        _ h in
    let (table, same) =
      given-eq-ok (apply_action ActionStatus.running ActionTrigger.tool_failed_terminal) db f in
    let fields = λ (a : Action). record a {
      error = some (error_info code message retryable observation);
      finished_at = some now;
      lease_owner = none;
      lease_until = none;
      result = new_result result a.result;
    } in
    let (row, two, u, v) =
      go_on-eq-ok (cas_status action.id ActionStatus.running dest fields one)
        (λ row. add_dead_letter action.id (code_value code)) g in
    let move = λ (a : Action). record (fields a) { status = dest } in
    let w : record one { actions = updated (is_at action.id ActionStatus.running) move one.actions }
        ≡ two =
      ground (arith, u) in
    let still : Left action.id ActionStatus.running one = rw same left in
    let stays : two.actions ≡ one.actions =
      rw (← w) (unmoved action.id ActionStatus.running move one.actions still) in
    let (acts, letter) = letter_written action.id (code_value code) two new tt v in
    (acts ∙ (stays ∙ ap (λ (d : Db). d.actions) same), letter)
