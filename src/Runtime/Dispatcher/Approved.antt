-- ===== src/Runtime/Dispatcher/Approved.antt =====
-- vyomel/runtime/dispatcher.py: what stands behind an action that is published.
use vyomel.Prelude.{
  ℕ, ◌≤◌, ◌≡◌, ◌≢◌, refl, Bool, true, false, List, [], ◌∷◌, Option, none, some, leb, length, select,
  if◌then◌else◌, Bool-cases, ◌⊎◌, inl, inr, All, All-map, arith, ltb,
}
use vyomel.Core.Types.{rank, deny}
use vyomel.Core.Errors.{ok}
use vyomel.Security.Policy.{PolicyDecision, evaluate}
use vyomel.Runtime.Gate.{Env, GateVerdict, request_of}
use vyomel.Runtime.Gate.Decide.{check}
use vyomel.Runtime.Gate.Decide.Allowed.{allowed_only_by_decision, AllowedBy}
use vyomel.Store.{Db, Action, Task}
use vyomel.Store.Session.{pure, go_on-eq-ok, ◌>>=◌}
use vyomel.Store.Session.Rules.{Gives, Gives-pure, Gives-bind}
use vyomel.Runtime.Dispatcher.{
  DispatchEnv, Published, Progress, is_full, sent, judged, enqueue_one, enqueue_each, enqueue_ready,
  is_candidate, insert_action, sort_actions, slots,
}

-- the row is one of these
abbrev pub Stands : List Action → Action → Type 0
Stands [] a = ⊥
Stands (b ∷ rows) a = (b ≡ a) ⊎ Stands rows a

-- A published action is one of those given, READY and due as given, is no higher than the task's ceiling, and
-- the policy does not deny it.
pub record Vouched (d : DispatchEnv) (task : Task) (given_actions : List Action) (p : Published)
    : Type 0 where
  pub action : Action
  pub stands : Stands given_actions action
  pub decision : PolicyDecision
  pub same : p.action_id ≡ action.id
  pub due : is_candidate d.env.now action ≡ true
  pub within : rank action.capability_level ≤ rank task.capability_ceiling
  pub decided : evaluate d.env.ext d.env.policy (request_of action task) d.env.today ≡ ok decision
  pub not_denied : decision.decision ≢ deny

not_deny :
    (env : Env) (action : Action) (db new : Db) (d : PolicyDecision)
    → AllowedBy env action db new d
    → d.decision ≢ deny
not_deny env action db new d (inl (e, s)) h = ground (arith, e, h)
not_deny env action db new d (inr (e, c)) h = ground (arith, e, h)

sent-All :
    (P : Published → Type 0) (d : DispatchEnv) (task : Task) (action : Action)
    (verdict : GateVerdict) (st : Progress) (row : Option Action)
    → P (record { action_id = action.id; trace = d.traceparent task.trace_id; tool = action.tool })
    → All P st.published
    → Gives (λ (next : Progress). All P next.published) (sent d task action verdict st row)
unfolding sent
sent-All P d task action verdict st none p ps = Gives-pure _ st ps
sent-All P d task action verdict st (some row) p ps = Gives-bind _ _ _ (λ u. Gives-pure _ _ (p, ps))

judged-All :
    (P : Published → Type 0) (d : DispatchEnv) (task : Task) (action : Action)
    (verdict : GateVerdict) (st : Progress) (allowed : Bool)
    → (allowed ≡ true
        → P (record {
          action_id = action.id;
          trace = d.traceparent task.trace_id;
          tool = action.tool;
        }))
    → All P st.published
    → Gives (λ (next : Progress). All P next.published) (judged d task action verdict st allowed)
unfolding judged
judged-All P d task action verdict st true p ps =
    search (Gives-bind, sent-All P d task action verdict st, p refl) depth 20
judged-All P d task action verdict st false p ps = Gives-pure _ st ps

enqueue_one-Vouched :
    (d : DispatchEnv) (task : Task) (from : List Action) (action : Action) (st : Progress)
    → Stands from action
    → is_candidate d.env.now action ≡ true
    → All (Vouched d task from) st.published
    → Gives
        (λ (next : Progress). All (Vouched d task from) next.published)
        (enqueue_one d task action st)
unfolding enqueue_one
enqueue_one-Vouched d task from action st listed due ps = record {
  gives = λ db next new e. elim (Bool-cases (is_full d (d.key_of action.tool) st.counts)) [
    | inl full ↦
        let f : pure st db ≡ ok (next, new) = rw full at e in
        let w : st ≡ next = ground (arith, f) in rw w at ps
    | inr room ↦
        let f : (check d.env action task >>= λ verdict.
        judged d task action verdict st verdict.allowed)
              db
            ≡ ok (next, new) =
          rw room at e in
        let (verdict, mid, g, h) = go_on-eq-ok (check d.env action task db) _ f in
        let vouch = λ (t : verdict.allowed ≡ true).
          let (decision, decided, within, acts, by) =
            allowed_only_by_decision d.env action task db mid verdict g t in
          let v : Vouched d task from (record {
            action_id = action.id;
            trace = d.traceparent task.trace_id;
            tool = action.tool;
          }) =
            record {
              action = action;
              stands = listed;
              decision = decision;
              same = refl;
              due = due;
              within = within;
              decided = decided;
              not_denied = not_deny d.env action db mid decision by;
            } in
          v in
        (judged-All (Vouched d task from) d task action verdict st verdict.allowed vouch ps).gives
          mid next new h
  ];
}

enqueue_each-Vouched :
    (d : DispatchEnv) (task : Task) (from : List Action) (most : ℕ) (actions : List Action)
    (st end : Progress) (db new : Db)
    → All (λ a. Stands from a × (is_candidate d.env.now a ≡ true)) actions
    → All (Vouched d task from) st.published
    → enqueue_each d task most actions st db ≡ ok (end, new)
    → All (Vouched d task from) end.published
unfolding enqueue_each
enqueue_each-Vouched d task from most [] st end db new due ps e =
    let w : st ≡ end = ground (arith, e) in rw w at ps
enqueue_each-Vouched d task from most (action ∷ actions) st end db new ((listed, due), dues) ps e =
    elim (Bool-cases (leb most (length st.published))) [
      | inl done ↦
          let f : pure st db ≡ ok (end, new) = rw done at e in
          let w : st ≡ end = ground (arith, f) in rw w at ps
      | inr more ↦
          let f : (enqueue_one d task action st >>= λ next. enqueue_each d task most actions next)
                db
              ≡ ok (end, new) =
            rw more at e in
          let (next, mid, g, h) = go_on-eq-ok (enqueue_one d task action st db) _ f in
          enqueue_each-Vouched d task from most actions next end mid new dues
            ((enqueue_one-Vouched d task from action st listed due ps).gives db next mid g) h
    ]

All-if :
    (P : Action → Type 0) (b : Bool) (xs ys : List Action)
    → All P xs
    → All P ys
    → All P (if b then xs else ys)
All-if P true xs ys p q = p
All-if P false xs ys p q = q

insert_action-All :
    (P : Action → Type 0) (a : Action) (rows : List Action)
    → P a
    → All P rows
    → All P (insert_action a rows)
insert_action-All P a [] p ps = (p, ps)
insert_action-All P a (b ∷ rows) p (q, ps) =
    All-if P (ltb b.id a.id) (b ∷ insert_action a rows) (a ∷ b ∷ rows)
      (q, insert_action-All P a rows p ps) (p, (q, ps))

sort_actions-All :
    (P : Action → Type 0) (rows : List Action) → All P rows → All P (sort_actions rows)
sort_actions-All P [] ps = tt
sort_actions-All P (a ∷ rows) (p, ps) =
    insert_action-All P a (sort_actions rows) p (sort_actions-All P rows ps)

select-All :
    (P : Action → Type 0) (p : Action → Bool) (rows : List Action)
    → All P rows
    → All (λ a. P a × (p a ≡ true)) (select p rows)
select-All P p [] ps = tt
select-All P p (a ∷ rows) (q, ps) = elim (Bool-cases (p a)) [
  | inl does ↦ rw does ((q, does), select-All P p rows ps)
  | inr not_so ↦ rw not_so (select-All P p rows ps)
]

All-stand : (rows : List Action) → All (Stands rows) rows
All-stand [] = tt
All-stand (a ∷ rows) =
    (inl refl, All-map (Stands rows) (Stands (a ∷ rows)) rows (λ b. inr) (All-stand rows))

-- Where enqueue_ready returns, each identifier that it publishes is that of a given action, READY and
-- due, whose level is within the ceiling of the task and on which evaluate gives a decision that does
-- not deny.
pub published_are-Vouched :
    (d : DispatchEnv) (task : Task) (actions : List Action) (end : Progress) (db new : Db)
    → enqueue_ready d task actions db ≡ ok (end, new)
    → All (Vouched d task actions) end.published
unfolding enqueue_ready
published_are-Vouched d task actions end db new e =
    enqueue_each-Vouched d task actions (slots d actions) _ _ end db new
      (sort_actions-All (λ a. Stands actions a × (is_candidate d.env.now a ≡ true))
        (select (is_candidate d.env.now) actions)
        (select-All (Stands actions) (is_candidate d.env.now) actions (All-stand actions)))
      tt e
