-- ===== src/Runtime/Reaper/Blocked.antt =====
-- vyomel/runtime/reaper.py: one transaction holds the whole pass, and a dead letter is unique for its action.
use vyomel.Prelude.{
  ℕ, ◌≡◌, ◌≢◌, Bool, true, ◌&&◌, none, some, List, [], ◌∷◌, Text, eqb, any, select, arith,
  Bool-cases, inl, inr,
}
use vyomel.Core.Types.{ActionStatus}
use vyomel.Core.Errors.{Result, ok}
use vyomel.Runtime.State.{ActionTrigger, apply_action}
use vyomel.Store.{Db, Action}
use vyomel.Store.Session.{Session, pure, given, given-eq-ok, go_on-eq-ok, ◌>>=◌}
use vyomel.Store.Session.Rules.{Composes, Keeps, Keeps-bind, Keeps-pure, Keeps-given}
use vyomel.Store.Actions.{is_expired, expired_leases, update, cas_status, add_dead_letter}
use vyomel.Runtime.Reaper.{
  is_exhausted, exhausted_text, exhausted_error, reap_exhausted, reap_returned, reap_one, reap_each,
  reap,
}

-- the action has a dead letter already
abbrev pub has_letter : Db → ℕ → Bool
has_letter db id = any (λ l. eqb l.action_id id) db.dead_letters

-- the action's lease is over, its attempts are used up, and it has a dead letter
abbrev pub is_stuck : ℕ → Db → Action → Bool
is_stuck moment db a = is_expired moment a && (is_exhausted a && has_letter db a.id)

-- Dead letters only come.
record KeepsLetters (db new : Db) : Type 0 where
  pub keeps : (id : ℕ) → has_letter db id ≡ true → has_letter new id ≡ true

KeepsLetters-Composes : Composes KeepsLetters
KeepsLetters-Composes = record {
  stay = λ db. record { keeps = λ id h. h };
  join = λ a b c h k. record { keeps = λ id l. k.keeps id (h.keeps id l) };
}

letters_cas :
    (id : ℕ) (s dest : ActionStatus) (fields : Action → Action)
    → Keeps KeepsLetters (cas_status id s dest fields)
unfolding cas_status update
letters_cas id s dest fields = record {
  kept = λ db a new e. record { keeps = λ i h. ground arith };
}

letters_add : (id : ℕ) (reason : Text) → Keeps KeepsLetters (add_dead_letter id reason)
unfolding add_dead_letter
letters_add id reason = record { kept = λ db a new e. record { keeps = λ i h. ground arith } }

letters_bind {ℓ κ} :
    {A : Type ℓ} {B : Type κ} (m : Session B) (next : B → Session A)
    → Keeps KeepsLetters m
    → ((b : B) → Keeps KeepsLetters (next b))
    → Keeps KeepsLetters (m >>= next)
letters_bind m next = Keeps-bind KeepsLetters KeepsLetters-Composes m next

letters_pure {ℓ} : {A : Type ℓ} (a : A) → Keeps KeepsLetters (pure a)
letters_pure a = Keeps-pure KeepsLetters KeepsLetters-Composes a

letters_given {ℓ} : {A : Type ℓ} (r : Result A) → Keeps KeepsLetters (given r)
letters_given r = Keeps-given KeepsLetters KeepsLetters-Composes r

ruleset letters = (letters_bind, letters_pure, letters_given, letters_cas, letters_add)

reap_one-KeepsLetters : (moment : ℕ) (action : Action) → Keeps KeepsLetters (reap_one moment action)
unfolding reap_one reap_exhausted reap_returned
reap_one-KeepsLetters moment action = elim (Bool-cases (is_exhausted action)) [
  | inl over ↦ rw over (search (letters) depth 20)
  | inr again ↦ rw again (search (letters) depth 20)
]

second_letter :
    (id : ℕ) (reason : Text) (db new : Db) (u : Unit {0})
    → has_letter db id ≡ true
    → add_dead_letter id reason db ≢ ok (u, new)
unfolding add_dead_letter
second_letter id reason db new u h e = ground arith

reap_exhausted_stuck :
    (moment : ℕ) (q : Action) (db new : Db) (ids : List ℕ)
    → has_letter db q.id ≡ true
    → reap_exhausted moment q db ≢ ok (ids, new)
unfolding reap_exhausted
reap_exhausted_stuck moment q db new ids h e =
    let (dest, one, f, g) =
      go_on-eq-ok (given (apply_action q.status ActionTrigger.tool_failed_terminal) db) _ e in
    let (same, stays) =
      given-eq-ok (apply_action q.status ActionTrigger.tool_failed_terminal) db f in
    let fields = λ (a : Action). record a {
      finished_at = some moment;
      lease_owner = none;
      lease_until = none;
      error = some exhausted_error;
    } in
    let (row, two, u, v) = go_on-eq-ok (cas_status q.id q.status dest fields one) _ g in
    let (w, three, x, y) = go_on-eq-ok (add_dead_letter q.id exhausted_text two) _ v in
    second_letter q.id exhausted_text two three w
      (((letters_cas q.id q.status dest fields).kept one row two u).keeps q.id (rw stays h)) x

any_mono {ℓ} :
    {A : Type ℓ} (p q : A → Bool) (xs : List A)
    → ((x : A) → p x ≡ true → q x ≡ true)
    → any p xs ≡ true
    → any q xs ≡ true
any_mono p q [] f h = cc
any_mono p q (x ∷ xs) f h = ground (arith, f x, any_mono p q xs f)

still_stuck :
    (db new : Db) (q : Action)
    → KeepsLetters db new
    → (is_exhausted q && has_letter db q.id) ≡ true
    → (is_exhausted q && has_letter new q.id) ≡ true
still_stuck db new q k h = ground (arith, k.keeps q.id)

reap_one_stuck :
    (moment : ℕ) (q : Action) (db new : Db) (ids : List ℕ)
    → (is_exhausted q && has_letter db q.id) ≡ true
    → reap_one moment q db ≢ ok (ids, new)
unfolding reap_one
reap_one_stuck moment q db new ids h e =
    let over : is_exhausted q ≡ true = ground (arith, h) in
    let letter : has_letter db q.id ≡ true = ground (arith, h) in
    reap_exhausted_stuck moment q db new ids letter (rw over at e)

reap_each_stuck :
    (moment : ℕ) (due : List Action) (db new : Db) (ids : List ℕ)
    → any (λ q. is_exhausted q && has_letter db q.id) due ≡ true
    → reap_each moment due db ≢ ok (ids, new)
unfolding reap_each
reap_each_stuck moment [] db new ids h e = cc
reap_each_stuck moment (q ∷ due) db new ids h e =
    let (one, mid, f, g) = go_on-eq-ok (reap_one moment q db) _ e in
    let (rest, last, u, v) = go_on-eq-ok (reap_each moment due mid) _ g in
    elim (Bool-cases (is_exhausted q && has_letter db q.id)) [
      | inl now ↦ reap_one_stuck moment q db mid one now f
      | inr later ↦
          let some_due : any (λ a. is_exhausted a && has_letter db a.id) due ≡ true =
            rw later at h in
          reap_each_stuck moment due mid last rest
            (any_mono (λ a. is_exhausted a && has_letter db a.id)
              (λ a. is_exhausted a && has_letter mid a.id) due
              (λ a. still_stuck db mid a ((reap_one-KeepsLetters moment q).kept db one mid f))
              some_due)
            u
    ]

selected_stuck :
    (moment : ℕ) (p : Action → Bool) (rows : List Action)
    → any (λ a. is_expired moment a && p a) rows ≡ true
    → any p (select (is_expired moment) rows) ≡ true
selected_stuck moment p [] h = cc
selected_stuck moment p (a ∷ rows) h = ground (arith, selected_stuck moment p rows)

-- Where an expired action has used up its attempts and has a dead letter already, no pass of the
-- reaper returns.
pub reap_blocked :
    (moment : ℕ) (db new : Db) (ids : List ℕ)
    → any (is_stuck moment db) db.actions ≡ true
    → reap moment db ≢ ok (ids, new)
unfolding reap expired_leases
reap_blocked moment db new ids h e =
    reap_each_stuck moment (select (is_expired moment) db.actions) db new ids
      (selected_stuck moment (λ a. is_exhausted a && has_letter db a.id) db.actions h) e
