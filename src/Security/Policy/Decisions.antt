-- ===== src/Security/Policy/Decisions.antt =====
-- What an evaluation of the policy can and cannot decide.
use vyomel.Prelude.{
  ℕ, ◌≡◌, ◌≢◌, refl, Bool, true, false, Option, none, some, List, [], ◌∷◌, ◌++◌, arith, ◌⊎◌, inl,
  inr, Text, codes,
}
use vyomel.Core.Types.{l4, Decision, allow, deny, capability_eq}
use vyomel.Core.Errors.{ok, >>=-eq-ok}
use vyomel.Core.Json.{ℤ}
use vyomel.Security.External.{External}
use vyomel.Security.Policy.{
  level_value, Rule, Policy, PolicyRequest, PolicyDecision, wants, above, is_past, default_for,
  matches, applies, first_rule, decide_as, decide_default, decide_allowing, conclude, evaluate,
  deny_all,
}

-- A rule of a list.
pub data InRules (r : Rule) : List Rule → Type 0 where
  here : (rs : List Rule) → InRules r (r ∷ rs)
  later : {rs : List Rule} (q : Rule) → InRules r rs → InRules r (q ∷ rs)

-- `_decide` records the decision that it is given, and refuses to allow at L4.
decide_as-eq-ok :
    (p : Policy) (request : PolicyRequest) (decision : Decision) (id reason : Text)
    (show : List Text) {d : PolicyDecision}
    → decide_as p request decision id reason show ≡ ok d
    → (d.decision ≡ decision)
      × (d.rule_id ≡ id)
      × (d.level ≡ request.level)
      × (request.level ≡ l4 → decision ≢ allow)
unfolding decide_as
decide_as-eq-ok p request decision id reason show h = ground arith

-- An allowance by default is the level's own, and the level is not L4.
default_allows :
    (p : Policy) (request : PolicyRequest) (d : PolicyDecision)
    → decide_default p request ≡ ok d
    → d.decision ≡ allow
    → (request.level ≢ l4) × (default_for request.level p.defaults ≡ some allow)
unfolding decide_default decide_as
default_allows p request d h al = ground arith

module _ (ext : External) (request : PolicyRequest) (today : ℕ) where
  first_rule_step :
      (denying : Bool) (q : Rule) (rules : List Rule) (o : Option Rule)
      → first_rule ext denying (q ∷ rules) request today ≡ ok o
      → ((wants denying q.decision ≡ true) × (applies ext q request today ≡ ok true) × (o ≡ some q))
        ⊎ (((wants denying q.decision ≡ false) ⊎ (applies ext q request today ≡ ok false))
            × (first_rule ext denying rules request today ≡ ok o))
  unfolding first_rule
  first_rule_step denying q rules o h = ground arith

  -- What a loop finds is a rule of the list that it wants and that applies.
  first_rule-some :
      (denying : Bool) (rules : List Rule) (r : Rule)
      → first_rule ext denying rules request today ≡ ok (some r)
      → InRules r rules
        × (wants denying r.decision ≡ true)
        × (applies ext r request today ≡ ok true)
  unfolding first_rule
  first_rule-some denying [] r h = cc
  first_rule-some denying (q ∷ rules) r h = elim (first_rule_step denying q rules (some r) h) [
    | inl (w, a, e) ↦ let e' : r ≡ q = ground (arith, e) in rw e' (here rules, w, a)
    | inr (no_hit, rest) ↦ let (m, w, a) = first_rule-some denying rules r rest in (later q m, w, a)
  ]

  -- A loop that finds nothing has seen no rule that it wants and that applies.
  first_rule-none :
      {r : Rule} (denying : Bool) {rules : List Rule}
      → InRules r rules
      → first_rule ext denying rules request today ≡ ok none
      → wants denying r.decision ≡ true
      → applies ext r request today ≢ ok true
  first_rule-none {r = r} denying (here rs) h w a =
      ground (arith, first_rule_step denying r rs none h)
  first_rule-none {r = r} denying (later {rs = rs} q m) h w a =
      elim (first_rule_step denying q rs none h) [
        | inl (w', a', e) ↦ cc
        | inr (no_hit, rest) ↦ first_rule-none denying m rest w a
      ]

-- A rule that applies has not expired, and the action is within both of its levels.
pub applies-InScope :
    (ext : External) (r : Rule) (request : PolicyRequest) (today : ℕ)
    → applies ext r request today ≡ ok true
    → (is_past today r.expires ≡ false)
      × (above request.level r.level ≡ false)
      × (above request.level r.max_level ≡ false)
      × (matches ext r.match request ≡ ok true)
unfolding applies
applies-InScope ext r request today h = ground arith

module _ (ext : External) (p : Policy) (request : PolicyRequest) (today : ℕ) where
  -- A successful evaluation, when the first loop found a rule and when it did not.
  conclude-eq-ok :
      (o : Option Rule) (d : PolicyDecision)
      → conclude ext p request today o ≡ ok d
      → ((r : Rule) × (o ≡ some r) × (d.decision ≡ r.decision) × (d.rule_id ≡ r.id))
        ⊎ ((a : Option Rule) × (o ≡ none)
            × (first_rule ext false p.rules request today ≡ ok a)
            × (decide_allowing p request a ≡ ok d))
  unfolding conclude
  conclude-eq-ok (some r) d h =
      let e = decide_as-eq-ok p request r.decision r.id _ [] h in inl (r, refl, e.0, e.1)
  conclude-eq-ok none d h =
      let (a, f, g) =
        >>=-eq-ok (first_rule ext false p.rules request today) (decide_allowing p request) h in
      inr (a, refl, f, g)

  -- Where evaluate returns a decision, a deny rule that applies to the request has made it deny,
  -- whatever the other rules and the defaults say.
  pub deny_wins :
      (r : Rule) (d : PolicyDecision)
      → InRules r p.rules
      → r.decision ≡ deny
      → applies ext r request today ≡ ok true
      → evaluate ext p request today ≡ ok d
      → d.decision ≡ deny
  unfolding evaluate
  deny_wins r d m w a h =
      let (o, f, g) =
        >>=-eq-ok (first_rule ext true p.rules request today) (conclude ext p request today) h in
      elim (conclude-eq-ok o d g) [
        | inl (q, e, k, _) ↦
            let (_, w', _) = first_rule-some ext request today true p.rules q (rw e at f) in
            ground (arith, k, w')
        | inr (q, e, _, _) ↦
            absurd (first_rule-none ext request today true m (rw e at f) (ground (arith, w)) a)
      ]

  -- An action is allowed only by the default of its level, or by a rule of the policy that says so, has
  -- not expired, matches, and has no level bound below the action's; and never at L4.
  pub allow_needs_grant :
      (d : PolicyDecision)
      → evaluate ext p request today ≡ ok d
      → d.decision ≡ allow
      → (request.level ≢ l4)
        × (((r : Rule) × InRules r p.rules
              × (r.decision ≡ allow)
              × (is_past today r.expires ≡ false)
              × (above request.level r.level ≡ false)
              × (above request.level r.max_level ≡ false)
              × (matches ext r.match request ≡ ok true))
            ⊎ (default_for request.level p.defaults ≡ some allow))
  unfolding evaluate decide_allowing
  allow_needs_grant d h al =
      let (o, f, g) =
        >>=-eq-ok (first_rule ext true p.rules request today) (conclude ext p request today) h in
      elim (conclude-eq-ok o d g) [
        | inl (q, e, k, _) ↦
            let (_, w, _) = first_rule-some ext request today true p.rules q (rw e at f) in
            absurd (ground (arith, k, w))
        | inr (none, e, k, l) ↦ let (n, t) = default_allows p request d l al in (n, inr t)
        | inr (some q, e, k, l) ↦
            let t = decide_as-eq-ok p request q.decision q.id _ q.show l in
            let (m, w, a) = first_rule-some ext request today false p.rules q k in
            let c : q.decision ≡ allow = cc t.0 in
            (
              λ l4. t.3 l4 c,
              let i = applies-InScope ext q request today a in inl (q, m, c, i.0, i.1, i.2, i.3),
            )
      ]

-- The fallback policy denies every request, and never raises.
pub deny_all_denies :
    (ext : External) (request : PolicyRequest) (today : ℕ)
    → (d : PolicyDecision) × (evaluate ext deny_all request today ≡ ok d) × (d.decision ≡ deny)
unfolding evaluate decide_default decide_as
deny_all_denies ext request today = (
  record {
    decision = deny;
    rule_id = codes "default:" ++ level_value request.level;
    reason = codes "level default";
    level = request.level;
    policy_version = ℤ.pos 0;
    policy_hash = codes "deny-all";
    show = [];
  },
  ground arith,
  refl,
)
