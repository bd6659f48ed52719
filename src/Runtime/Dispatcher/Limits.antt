-- ===== src/Runtime/Dispatcher/Limits.antt =====
-- vyomel/runtime/dispatcher.py: how much one pass publishes.
use vyomel.Prelude.{
  ℕ, ap, sym, subst, ◌∙◌, suc, ◌+◌, ◌≤◌, max, ◌≡◌, refl, Bool, true, false, Option, none, some,
  List, [], ◌∷◌, Text, text_beq, text_beq_iff, leb, length, select, if◌then◌else◌, arith,
  Bool-cases, ◌⊎◌, inl, inr,
}
use vyomel.Core.Errors.{ok}
use vyomel.Store.{Db, Task, Action}
use vyomel.Store.Session.{pure, go_on-eq-ok, ◌>>=◌}
use vyomel.Store.Session.Rules.{Gives, Gives-pure, Gives-bind}
use vyomel.Store.Actions.{in_flight}
use vyomel.Runtime.Gate.{GateVerdict}
use vyomel.Runtime.Gate.Decide.{check}
use vyomel.Runtime.Dispatcher.{
  DispatchEnv, get_or, bump, bump_key, limit_of, key_counts, Published, Progress, is_full, sent,
  judged, enqueue_one, enqueue_each, enqueue_ready, slots, is_candidate, sort_actions,
}

-- what a round that publishes adds
abbrev pub grown : DispatchEnv → Task → Action → Progress → Progress
grown d task action st = record {
  published =
      record { action_id = action.id; trace = d.traceparent task.trace_id; tool = action.tool }
      ∷ st.published;
  counts = bump_key (d.key_of action.tool) st.counts;
}

-- A round publishes its action, whose key is not full, or nothing.
abbrev pub Grows : DispatchEnv → Task → Action → Progress → Progress → Type 0
Grows d task action st next =
    (next ≡ st)
    ⊎ ((next ≡ grown d task action st) × (is_full d (d.key_of action.tool) st.counts ≡ false))

module _ (d : DispatchEnv) (task : Task) (action : Action) (st : Progress)
    (room : is_full d (d.key_of action.tool) st.counts ≡ false) where
  sent-Grows :
      (verdict : GateVerdict) (row : Option Action)
      → Gives (Grows d task action st) (sent d task action verdict st row)
  unfolding sent
  sent-Grows verdict none = Gives-pure _ st (inl refl)
  sent-Grows verdict (some row) = Gives-bind _ _ _ (λ u. Gives-pure _ _ (inr (refl, room)))

  judged-Grows :
      (verdict : GateVerdict) (allowed : Bool)
      → Gives (Grows d task action st) (judged d task action verdict st allowed)
  unfolding judged
  judged-Grows verdict true = search (Gives-bind, sent-Grows verdict) depth 20
  judged-Grows verdict false = Gives-pure _ st (inl refl)

pub enqueue_one-Grows :
    (d : DispatchEnv) (task : Task) (action : Action) (st : Progress)
    → Gives (Grows d task action st) (enqueue_one d task action st)
unfolding enqueue_one
enqueue_one-Grows d task action st =
    elim (Bool-cases (is_full d (d.key_of action.tool) st.counts)) [
      | inl full ↦ rw full (Gives-pure _ st (inl refl))
      | inr room ↦ rw room (
          Gives-bind (Grows d task action st) (check d.env action task) _
            (λ verdict. judged-Grows d task action st room verdict verdict.allowed))
    ]

-- What holds at the start and in every round holds in the end.
pub enqueue_each_inv :
    (P : Progress → Type 0) (d : DispatchEnv) (task : Task) (most : ℕ)
    → ((action : Action) (st next : Progress)
        → P st
        → leb most (length st.published) ≡ false
        → Grows d task action st next
        → P next)
    → (actions : List Action) (st end : Progress) (db new : Db)
    → enqueue_each d task most actions st db ≡ ok (end, new)
    → P st
    → P end
unfolding enqueue_each
enqueue_each_inv P d task most keep [] st end db new e p =
    let w : st ≡ end = ground (arith, e) in rw w at p
enqueue_each_inv P d task most keep (action ∷ actions) st end db new e p =
    elim (Bool-cases (leb most (length st.published))) [
      | inl done ↦
          let f : pure st db ≡ ok (end, new) = rw done at e in
          let w : st ≡ end = ground (arith, f) in rw w at p
      | inr more ↦
          let f : (enqueue_one d task action st >>= λ next. enqueue_each d task most actions next)
                db
              ≡ ok (end, new) =
            rw more at e in
          let (next, mid, g, h) = go_on-eq-ok (enqueue_one d task action st db) _ f in
          enqueue_each_inv P d task most keep actions next end mid new h
            (keep action st next p more ((enqueue_one-Grows d task action st).gives db next mid g))
    ]

round_length :
    (d : DispatchEnv) (task : Task) (most : ℕ) (action : Action) (st next : Progress)
    → length st.published ≤ most
    → leb most (length st.published) ≡ false
    → Grows d task action st next
    → length next.published ≤ most
round_length d task most action st next p more g = ground (arith, g)

-- the key of a tool is this one
abbrev pub has_key : Text → Option Text → Bool
has_key key none = false
has_key key (some k) = text_beq k key

abbrev pub in_flight_with : DispatchEnv → Text → List Action → ℕ
in_flight_with d key actions = length (select (λ a. has_key key (d.key_of a.tool)) actions)

abbrev pub published_with : DispatchEnv → Text → List Published → ℕ
published_with d key published = length (select (λ p. has_key key (d.key_of p.tool)) published)

get_or-bump :
    (key k : Text) (counts : List (Text × ℕ))
    → get_or key 0 (bump k counts)
      ≡ (if text_beq k key then suc (get_or key 0 counts) else get_or key 0 counts)
get_or-bump key k [] = refl
get_or-bump key k ((j, n) ∷ rest) =
    ground (arith, text_beq_iff j k, text_beq_iff j key, text_beq_iff k key, get_or-bump key k rest)

get_or-bump_key :
    (key : Text) (k : Option Text) (counts : List (Text × ℕ))
    → get_or key 0 (bump_key k counts)
      ≡ (if has_key key k then suc (get_or key 0 counts) else get_or key 0 counts)
get_or-bump_key key none counts = refl
get_or-bump_key key (some k) counts = get_or-bump key k counts

-- The counter of a key counts the actions with it.
key_counts_lem :
    (d : DispatchEnv) (key : Text) (actions : List Action) (counts : List (Text × ℕ))
    → get_or key 0 (key_counts d actions counts)
      ≡ get_or key 0 counts + in_flight_with d key actions
unfolding key_counts
key_counts_lem d key [] counts = omega arith
key_counts_lem d key (a ∷ actions) counts = ground (
  arith,
  get_or-bump_key key (d.key_of a.tool) counts,
  key_counts_lem d key actions (bump_key (d.key_of a.tool) counts),
)

-- the invariant of the loop for one key
record Counted (d : DispatchEnv) (key : Text) (before : ℕ) (st : Progress) : Type 0 where
  pub counted : get_or key 0 st.counts ≡ before + published_with d key st.published
  pub bounded : get_or key 0 st.counts ≤ max (limit_of d key) before

bump_counted :
    (d : DispatchEnv) (key : Text) (before : ℕ) (k : Option Text) (counts : List (Text × ℕ)) (n : ℕ)
    → is_full d k counts ≡ false
    → get_or key 0 counts ≡ before + n
    → get_or key 0 counts ≤ max (limit_of d key) before
    → (get_or key 0 (bump_key k counts) ≡ before + (if has_key key k then suc n else n))
      × (get_or key 0 (bump_key k counts) ≤ max (limit_of d key) before)
bump_counted d key before none counts n room c b = (c, b)
bump_counted d key before (some k) counts n room c b = elim (Bool-cases (text_beq k key)) [
  | inl same ↦
      let e : k ≡ key = (text_beq_iff k key).0 same in
      let here : leb (limit_of d key) (get_or key 0 counts) ≡ false = rw e at room in
      let grows : get_or key 0 (bump k counts) ≡ suc (get_or key 0 counts) =
        rw same at (get_or-bump key k counts) in
      rw (same, grows) (ground (arith, c, b, here))
  | inr other ↦
      let stays : get_or key 0 (bump k counts) ≡ get_or key 0 counts =
        rw other at (get_or-bump key k counts) in
      rw (other, stays) (c, b)
]

length_cons_if {ℓ} :
    {A : Type ℓ} (b : Bool) (x : A) (xs : List A)
    → (if b then suc (length xs) else length xs) ≡ length (if b then x ∷ xs else xs)
length_cons_if true x xs = refl
length_cons_if false x xs = refl

round_key :
    (d : DispatchEnv) (key : Text) (before most : ℕ) (task : Task) (action : Action)
    (st next : Progress)
    → Counted d key before st
    → leb most (length st.published) ≡ false
    → Grows d task action st next
    → Counted d key before next
round_key d key before most task action st next c more (inl same) = rw same c
round_key d key before most task action st next c more (inr (e, room)) =
    let (counted, bounded) =
      bump_counted d key before (d.key_of action.tool) st.counts (published_with d key st.published)
        room c.counted c.bounded in
    subst (Counted d key before) (sym e) (record {
      counted =
          counted
          ∙ ap (λ (n : ℕ). before + n) (length_cons_if (has_key key (d.key_of action.tool)) _ _);
      bounded = bounded;
    })

key_within_limit :
    (d : DispatchEnv) (task : Task) (actions : List Action) (key : Text) (end : Progress)
    (db new : Db)
    → enqueue_ready d task actions db ≡ ok (end, new)
    → in_flight_with d key (select (λ a. in_flight a.status) actions)
        + published_with d key end.published
      ≤ max (limit_of d key) (in_flight_with d key (select (λ a. in_flight a.status) actions))
unfolding enqueue_ready
key_within_limit d task actions key end db new h =
    let busy = select (λ a. in_flight a.status) actions in
    let before = in_flight_with d key busy in
    let most = slots d actions in
    let start : Counted d key before (record { published = []; counts = key_counts d busy [] }) =
      record {
        counted = omega (arith, key_counts_lem d key busy []);
        bounded = omega (arith, key_counts_lem d key busy []);
      } in
    let c : Counted d key before end =
      enqueue_each_inv (Counted d key before) d task most (round_key d key before most task)
        (sort_actions (select (is_candidate d.env.now) actions)) _ end db new h start in
    omega (arith, c.counted, c.bounded)

slots_bound :
    (d : DispatchEnv) (task : Task) (actions : List Action) (end : Progress) (db new : Db)
    → enqueue_ready d task actions db ≡ ok (end, new)
    → length (select (λ a. in_flight a.status) actions) + length end.published
      ≤ max d.max_parallel (length (select (λ a. in_flight a.status) actions))
unfolding enqueue_ready
slots_bound d task actions end db new h =
    let most = slots d actions in
    let short : length end.published ≤ most =
      enqueue_each_inv (λ st. length st.published ≤ most) d task most (round_length d task most)
        (sort_actions (select (is_candidate d.env.now) actions)) _ end db new h (omega arith) in
    omega arith

-- Where enqueue_ready returns, what it publishes together with what was in flight among the actions
-- that it is given, which are those of one task, is at most the limit on parallel actions, and for
-- each concurrency key at most the limit of that key, or as many as were in flight among them before
-- where that was more.
pub dispatch_within_limits :
    (d : DispatchEnv) (task : Task) (actions : List Action) (key : Text) (end : Progress)
    (db new : Db)
    → enqueue_ready d task actions db ≡ ok (end, new)
    → (length (select (λ a. in_flight a.status) actions) + length end.published
        ≤ max d.max_parallel (length (select (λ a. in_flight a.status) actions)))
      × (in_flight_with d key (select (λ a. in_flight a.status) actions)
            + published_with d key end.published
          ≤ max (limit_of d key) (in_flight_with d key (select (λ a. in_flight a.status) actions)))
dispatch_within_limits d task actions key end db new h =
    (slots_bound d task actions end db new h, key_within_limit d task actions key end db new h)
