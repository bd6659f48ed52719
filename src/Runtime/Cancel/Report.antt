-- ===== src/Runtime/Cancel/Report.antt =====
-- vyomel/runtime/cancel.py: what is undone, what is reported, and what is left of the actions.
use vyomel.Prelude.{
  ℕ, ap, ◌∙◌, ◌≡◌, refl, Bool, true, false, ◌&&◌, Option, none, some, List, [], ◌∷◌, Text, eqb_iff,
  select, contains, nat_eq, not, ◌++◌, append_assoc, append-nil, map, sym, if◌then◌else◌, arith,
  Bool-cases, ◌⊎◌, inl, inr, Option-cases,
}
use vyomel.Core.Errors.{ok}
use vyomel.Runtime.State.{apply_action}
use vyomel.Store.Actions.{same_status, is_at, updated, update, cas_status}
use vyomel.Core.Types.{ActionStatus}
use vyomel.Runtime.Moves.{Moves, Moves-move, Keeps-Moves}
use vyomel.Runtime.Gate.{Env, note}
use vyomel.Runtime.Gate.Kept.{moves, Moves-bind, same_then, same_given, same_actions}
use vyomel.Runtime.Dag.Kahn.{reverse_topo}
use vyomel.Store.{Db, Action}
use vyomel.Store.Session.{pure, given, given-eq-ok, go_on-eq-ok}
use vyomel.Store.Actions.Rows.{updated_starts, updated_never}
use vyomel.Store.Session.Rules.{Keeps}
use vyomel.Runtime.Cancel.{
  CancelEnv, CancelReport, cancel_now, drop_one, drop_pending, nodes_of, by_id, is_done, undo,
  Round, passed_over, left_in_place, broke, undone, round_of, reported, do_round, found_action,
  compensate_each, compensate_succeeded,
}

drop_one-Moves : (env : Env) (action : Action) → Keeps Moves (drop_one env action)
unfolding drop_one
drop_one-Moves env action = elim (Bool-cases (cancel_now action.status)) [
  | inl does ↦ rw does (Moves-move _ _ _ _ _ (λ a. refl) (λ dest row. search (moves)))
  | inr not_so ↦ rw not_so (search (moves))
]

pub drop_pending-Moves :
    (env : Env) (actions : List Action) → Keeps Moves (drop_pending env actions)
unfolding drop_pending
drop_pending-Moves env [] = search (moves)
drop_pending-Moves env (action ∷ actions) =
    Moves-bind (drop_one env action) _ (drop_one-Moves env action)
      (λ u. drop_pending-Moves env actions)

do_round-Moves :
    (c : CancelEnv) (actor : Text) (action : Action) (r : Round)
    → Keeps Moves (do_round c actor action r)
unfolding undo
do_round-Moves c actor action undone =
    Moves-move _ _ _ _ _ (λ a. refl) (λ dest row. Keeps-Moves _ (search (same_actions)))
do_round-Moves c actor action passed_over = search (moves)
do_round-Moves c actor action left_in_place = search (moves)
do_round-Moves c actor action broke = search (moves)

compensate_each-Moves :
    (c : CancelEnv) (actor : Text) (actions : List Action) (order : List ℕ) (report : CancelReport)
    → Keeps Moves (compensate_each c actor actions order report)
unfolding compensate_each
compensate_each-Moves c actor actions [] report = search (moves)
compensate_each-Moves c actor actions (id ∷ order) report =
    same_then (given (found_action (by_id id actions))) _
      (same_given (found_action (by_id id actions)))
      (λ action.
        Moves-bind (do_round c actor action (round_of c action)) _
          (do_round-Moves c actor action (round_of c action))
          (λ u.
            compensate_each-Moves c actor actions order
              (reported action report (round_of c action))))

pub compensate_succeeded-Moves :
    (c : CancelEnv) (actor : Text) (actions : List Action)
    → Keeps Moves (compensate_succeeded c actor actions)
unfolding compensate_succeeded
compensate_succeeded-Moves c actor actions =
    same_then (given (reverse_topo (nodes_of actions))) _
      (same_given (reverse_topo (nodes_of actions)))
      (λ order. compensate_each-Moves c actor actions order _)

-- What becomes of an action that the order names: it succeeded and is undone, it succeeded and its tool fails
-- to undo it, or it succeeded and cannot be undone.
abbrev pub is_undone : CancelEnv → Action → Bool
is_undone c a = same_status a.status ActionStatus.succeeded && (a.reversible && c.compensates a)

abbrev pub is_broken : CancelEnv → Action → Bool
is_broken c a =
    same_status a.status ActionStatus.succeeded && (a.reversible && not (c.compensates a))

abbrev pub is_left : CancelEnv → Action → Bool
is_left c a = same_status a.status ActionStatus.succeeded && not a.reversible

abbrev in_found : (Action → Bool) → Option Action → Bool
in_found p none = false
in_found p (some a) = p a

-- what holds of the action with the identifier
abbrev pub where_found : (Action → Bool) → List Action → ℕ → Bool
where_found p actions id = in_found p (by_id id actions)

abbrev pub rolled_back : ℕ → Action → Action
rolled_back now row = record row { status = ActionStatus.rolled_back; finished_at = some now }

-- the row where these were compensated
abbrev pub undone_row : ℕ → List ℕ → Action → Action
undone_row now ids row =
    if contains row.id ids && same_status row.status ActionStatus.succeeded
    then rolled_back now row
    else row

by_id-id : (id : ℕ) (actions : List Action) (a : Action) → by_id id actions ≡ some a → a.id ≡ id
by_id-id id [] a h = cc
by_id-id id (b ∷ actions) a h = elim (Option-cases (by_id id actions)) [
  | inl absent ↦ ground (arith, h, absent, eqb_iff b.id id)
  | inr (q, there) ↦
      let e : q ≡ a = ground (arith, h, there) in rw e at (by_id-id id actions q there)
]

found_by : (o : Option Action) (a : Action) → found_action o ≡ ok a → o ≡ some a
found_by none a h = cc
found_by (some b) a h = ground (arith, h)

-- One more element goes to the end of what is collected so far.
collects :
    (p : ℕ → Bool) (xs : List ℕ) (i : ℕ) (order : List ℕ)
    → (if p i then xs ++ i ∷ [] else xs) ++ select p order ≡ xs ++ select p (i ∷ order)
collects p xs i order = elim (Bool-cases (p i)) [
  | inl t ↦ rw t (append_assoc xs (i ∷ []) (select p order))
  | inr t ↦ rw t refl
]

round_reported :
    (c : CancelEnv) (a : Action) (report : CancelReport)
    → ((reported a report (round_of c a)).compensated
        ≡ (if is_undone c a then report.compensated ++ a.id ∷ [] else report.compensated))
      × ((reported a report (round_of c a)).failed
          ≡ (if is_broken c a then report.failed ++ a.id ∷ [] else report.failed))
      × ((reported a report (round_of c a)).irreversible
          ≡ (if is_left c a then report.irreversible ++ a.id ∷ [] else report.irreversible))
unfolding round_of
round_reported c a report = ground arith

undo_rows :
    (c : CancelEnv) (actor : Text) (a : Action) (db new : Db) (u : Unit {0})
    → undo c actor a db ≡ ok (u, new)
    → new.actions ≡ updated (is_at a.id ActionStatus.succeeded) (rolled_back c.env.now) db.actions
unfolding undo apply_action cas_status update note
undo_rows c actor a db new u h = ground (arith, h)

-- Which rounds undo.
round_undoes :
    (c : CancelEnv) (a : Action)
    → ((round_of c a ≡ undone) × (is_undone c a ≡ true))
      ⊎ (((actor : Text) → do_round c actor a (round_of c a) ≡ pure tt) × (is_undone c a ≡ false))
unfolding round_of
round_undoes c a = elim (Bool-cases (is_done a)) [
  | inr t ↦ rw t (inr (λ actor. refl, refl))
  | inl t ↦ elim (Bool-cases a.reversible) [
    | inr u ↦ rw (u, t) (inr (λ actor. refl, refl))
    | inl u ↦ elim (Bool-cases (c.compensates a)) [
      | inr v ↦ rw (v, u, t) (inr (λ actor. refl, refl))
      | inl v ↦ rw (v, u, t) (inl (refl, refl))
    ]
  ]
]

-- what a round does to the rows
round_rows :
    (c : CancelEnv) (actor : Text) (a : Action) (db new : Db) (u : Unit {0})
    → do_round c actor a (round_of c a) db ≡ ok (u, new)
    → new.actions
      ≡ updated
          (λ r. is_at a.id ActionStatus.succeeded r && is_undone c a)
          (rolled_back c.env.now)
          db.actions
round_rows c actor a db new u h = elim (round_undoes c a) [
  | inl (e, t) ↦
      let g : undo c actor a db ≡ ok (u, new) = rw e at h in
      rw (t, updated_starts (rolled_back c.env.now) (is_at a.id ActionStatus.succeeded) db.actions)
        (undo_rows c actor a db new u g)
  | inr (e, t) ↦
      let g : pure tt db ≡ ok (u, new) = rw (e actor) at h in
      rw (t, updated_never (rolled_back c.env.now) (is_at a.id ActionStatus.succeeded) db.actions)
        (ground (arith, g))
]

-- A row after a round that undoes, and those after it.
row_join :
    (now id : ℕ) (ids : List ℕ) (r : Action)
    → undone_row now ids (if is_at id ActionStatus.succeeded r then rolled_back now r else r)
      ≡ undone_row now (id ∷ ids) r
row_join now id ids r = ground (arith, eqb_iff r.id id, eqb_iff id r.id)

join_all :
    (now id : ℕ) (ids : List ℕ) (rows : List Action)
    → map (undone_row now ids) (updated (is_at id ActionStatus.succeeded) (rolled_back now) rows)
      ≡ map (undone_row now (id ∷ ids)) rows
join_all now id ids [] = refl
join_all now id ids (r ∷ rows) = rw (row_join now id ids r, join_all now id ids rows) refl

-- Row by row, a round and then those after it.
rows_join :
    (now : ℕ) (id : ℕ) (b : Bool) (ids : List ℕ) (rows : List Action)
    → map
        (undone_row now ids)
        (updated (λ r. is_at id ActionStatus.succeeded r && b) (rolled_back now) rows)
      ≡ map (undone_row now (if b then id ∷ ids else ids)) rows
rows_join now id true ids rows =
    rw (updated_starts (rolled_back now) (is_at id ActionStatus.succeeded) rows)
      (join_all now id ids rows)
rows_join now id false ids rows =
    rw (updated_never (rolled_back now) (is_at id ActionStatus.succeeded) rows) refl

extends :
    (p : ℕ → Bool) (b : Bool) (xs ys zs : List ℕ) (i j : ℕ) (order : List ℕ)
    → p i ≡ b
    → j ≡ i
    → ys ≡ (if b then xs ++ j ∷ [] else xs)
    → zs ≡ ys ++ select p order
    → zs ≡ xs ++ select p (i ∷ order)
extends p b xs ys zs i j order hb hj hy hz = hz ∙ rw (hy, hj, ← hb) (collects p xs i order)

undone_none : (now : ℕ) (rows : List Action) → map (undone_row now []) rows ≡ rows
undone_none now [] = refl
undone_none now (r ∷ rows) = rw (undone_none now rows) refl

-- what the loop adds to the report, and what it does to the rows
abbrev Settled : CancelEnv → List Action → List ℕ → CancelReport → CancelReport → Db → Db → Type 0
Settled c actions order report end db new =
    (end.compensated ≡ report.compensated ++ select (where_found (is_undone c) actions) order)
    × (end.failed ≡ report.failed ++ select (where_found (is_broken c) actions) order)
    × (end.irreversible ≡ report.irreversible ++ select (where_found (is_left c) actions) order)
    × (new.actions
        ≡ map (undone_row c.env.now (select (where_found (is_undone c) actions) order)) db.actions)

compensate_each-Settled :
    (c : CancelEnv) (actor : Text) (actions : List Action) (order : List ℕ)
    (report end : CancelReport) (db new : Db)
    → compensate_each c actor actions order report db ≡ ok (end, new)
    → Settled c actions order report end db new
unfolding compensate_each
compensate_each-Settled c actor actions [] report end db new h =
    let e : report ≡ end = ground (arith, h) in
    let e' : db ≡ new = ground (arith, h) in
    rw (← e, ← e')
      (
        sym (append-nil report.compensated),
        sym (append-nil report.failed),
        sym (append-nil report.irreversible),
        sym (undone_none c.env.now db.actions),
      )
compensate_each-Settled c actor actions (id ∷ order) report end db new h =
    let (a, one, f, g) = go_on-eq-ok (given (found_action (by_id id actions)) db) _ h in
    let (found, same) = given-eq-ok (found_action (by_id id actions)) db f in
    let (u, two, k, l) = go_on-eq-ok (do_round c actor a (round_of c a) one) _ g in
    let (ihc, ihf, ihl, ihr) =
      compensate_each-Settled c actor actions order (reported a report (round_of c a)) end two new
        l in
    let there = found_by (by_id id actions) a found in
    let e : a.id ≡ id = by_id-id id actions a there in
    let (rc, rf, rl) = round_reported c a report in
    let rows = round_rows c actor a one two u k in
    let un : where_found (is_undone c) actions id ≡ is_undone c a =
      ap (in_found (is_undone c)) there in
    let br : where_found (is_broken c) actions id ≡ is_broken c a =
      ap (in_found (is_broken c)) there in
    let le : where_found (is_left c) actions id ≡ is_left c a = ap (in_found (is_left c)) there in
    let ids = select (where_found (is_undone c) actions) order in
    let joined : map (undone_row c.env.now ids) two.actions
        ≡ map (undone_row c.env.now (if is_undone c a then a.id ∷ ids else ids)) db.actions =
      rw (rows, same) (rows_join c.env.now a.id (is_undone c a) ids db.actions) in
    (
      extends (where_found (is_undone c) actions) _ _ _ _ id a.id order un e rc ihc,
      extends (where_found (is_broken c) actions) _ _ _ _ id a.id order br e rf ihf,
      extends (where_found (is_left c) actions) _ _ _ _ id a.id order le e rl ihl,
      ihr ∙ joined ∙ rw (un, e) refl,
    )

-- Where the compensation returns, it reports, in the reverse order of the plan, as compensated the
-- actions that succeeded, are reversible and whose tool undoes them, as failed those whose tool fails
-- to, as irreversible those that succeeded and are not reversible; and of the rows of actions only
-- those of the compensated ones that were SUCCEEDED change, to ROLLED_BACK with the time of the call.
pub compensation_report :
    (c : CancelEnv) (actor : Text) (actions : List Action) (order : List ℕ) (end : CancelReport)
    (db new : Db)
    → reverse_topo (nodes_of actions) ≡ ok order
    → compensate_succeeded c actor actions db ≡ ok (end, new)
    → (end.compensated ≡ select (where_found (is_undone c) actions) order)
      × (end.failed ≡ select (where_found (is_broken c) actions) order)
      × (end.irreversible ≡ select (where_found (is_left c) actions) order)
      × (new.actions ≡ map (undone_row c.env.now end.compensated) db.actions)
unfolding compensate_succeeded
compensation_report c actor actions order end db new o h =
    let start : CancelReport = record { compensated = []; irreversible = []; failed = [] } in
    let g : compensate_each c actor actions order start db ≡ ok (end, new) = rw o at h in
    let (un, br, le, rows) = compensate_each-Settled c actor actions order start end db new g in
    (un, br, le, rw un rows)
