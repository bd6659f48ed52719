-- ===== src/Runtime/Dispatcher/Moved.antt =====
-- vyomel/runtime/dispatcher.py: the dispatcher moves the rows of the actions along the table only.
use vyomel.Prelude.{
  ℕ, refl, Bool, true, false, List, [], ◌∷◌, Option, none, some, leb, length, select, Bool-cases,
  inl, inr,
}
use vyomel.Runtime.Moves.{Moves, Moves-move, Keeps-Moves}
use vyomel.Runtime.Gate.Kept.{moves, Moves-bind, same_actions, check-Moves}
use vyomel.Runtime.Gate.{GateVerdict}
use vyomel.Runtime.Gate.Decide.{check}
use vyomel.Store.{Action, Step, Task}
use vyomel.Store.Session.{pure}
use vyomel.Store.Session.Rules.{Keeps}
use vyomel.Store.Actions.{in_flight}
use vyomel.Store.Actions.Rows.{SameActions}
use vyomel.Runtime.Dispatcher.{
  DispatchEnv, Progress, promote_each, promote_ready, count_moved, is_full, sent, judged,
  enqueue_one, enqueue_each, enqueue_ready, slots, sort_actions, is_candidate, key_counts,
}

promote_each-Moves : (ids : List ℕ) → Keeps Moves (promote_each ids)
unfolding promote_each
promote_each-Moves [] = search (moves)
promote_each-Moves (id ∷ ids) =
    Moves-move _ _ _ _ _ (λ a. refl)
      (λ dest row.
        Moves-bind (promote_each ids) (λ n. pure (count_moved row n)) (promote_each-Moves ids)
          (λ n. search (moves)))

pub promote_ready-Moves :
    (actions : List Action) (steps : List Step) → Keeps Moves (promote_ready actions steps)
unfolding promote_ready
promote_ready-Moves actions steps = search (moves, promote_each-Moves) depth 20

sent-SameActions :
    (d : DispatchEnv) (task : Task) (action : Action) (verdict : GateVerdict) (st : Progress)
    (row : Option Action)
    → Keeps SameActions (sent d task action verdict st row)
unfolding sent
sent-SameActions d task action verdict st none = search (same_actions)
sent-SameActions d task action verdict st (some row) = search (same_actions) depth 20

judged-Moves :
    (d : DispatchEnv) (task : Task) (action : Action) (verdict : GateVerdict) (st : Progress)
    (allowed : Bool)
    → Keeps Moves (judged d task action verdict st allowed)
unfolding judged
judged-Moves d task action verdict st true =
    Moves-move _ _ _ _ _ (λ a. refl)
      (λ dest row. Keeps-Moves _ (sent-SameActions d task action verdict st row))
judged-Moves d task action verdict st false = search (moves)

enqueue_one-Moves :
    (d : DispatchEnv) (task : Task) (action : Action) (st : Progress)
    → Keeps Moves (enqueue_one d task action st)
unfolding enqueue_one
enqueue_one-Moves d task action st =
    elim (Bool-cases (is_full d (d.key_of action.tool) st.counts)) [
      | inl full ↦ rw full (search (moves))
      | inr room ↦ rw room (
          Moves-bind (check d.env action task) _ (check-Moves d.env action task)
            (λ verdict. judged-Moves d task action verdict st verdict.allowed))
    ]

enqueue_each-Moves :
    (d : DispatchEnv) (task : Task) (most : ℕ) (actions : List Action) (st : Progress)
    → Keeps Moves (enqueue_each d task most actions st)
unfolding enqueue_each
enqueue_each-Moves d task most [] st = search (moves)
enqueue_each-Moves d task most (action ∷ actions) st =
    elim (Bool-cases (leb most (length st.published))) [
      | inl done ↦ rw done (search (moves))
      | inr more ↦ rw more (
          Moves-bind (enqueue_one d task action st) _ (enqueue_one-Moves d task action st)
            (λ next. enqueue_each-Moves d task most actions next))
    ]

pub enqueue_ready-Moves :
    (d : DispatchEnv) (task : Task) (actions : List Action)
    → Keeps Moves (enqueue_ready d task actions)
unfolding enqueue_ready
enqueue_ready-Moves d task actions =
    enqueue_each-Moves d task (slots d actions)
      (sort_actions (select (is_candidate d.env.now) actions))
      (record {
        published = [];
        counts = key_counts d (select (λ a. in_flight a.status) actions) [];
      })
