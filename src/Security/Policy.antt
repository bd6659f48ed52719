-- ===== src/Security/Policy.antt =====
-- vyomel/security/policy.py: rules, the evaluation of a request, and the fallback policy.
pub mod Decisions
pub mod Scalars
pub mod Parse
pub mod Fallback
pub mod Parsed
pub mod Store
mod Examples
use vyomel.Prelude.{
  ℕ, Bool, true, false, not, ◌&&◌, ◌||◌, Option, none, some, List, [], ◌∷◌, ◌++◌, Text, text_eq,
  text_beq, codes, ◌==◌, any, ltb, if◌then◌else◌,
}
use vyomel.Core.Types.{
  Capability, l0, l1, l2, l3, l4, capability_eq, Decision, allow, confirm, deny, cap_gt,
}
use vyomel.Core.Errors.{Result, ok, err, ◌>>=◌, raise_class, policy_invariant_violation}
use vyomel.Core.Json.{ℤ, Value, Fields, get}
use vyomel.Security.External.{External}
use vyomel.Security.Matching.{glob_match, any_match, domain_match}
use vyomel.Security.Capability.{EscalationRules, default_rules}

pub record Match : Type 0 where
  pub tool : Option Text
  pub args : Fields
  pub workflow : Option Text

pub record PolicyRequest : Type 0 where
  pub tool : Text
  pub level : Capability
  pub parameters : Fields
  pub workflow : Option Text

pub record Rule : Type 0 where
  pub id : Text
  pub match : Match
  pub decision : Decision
  pub level : Option Capability
  pub max_level : Option Capability
  pub show : List Text
  pub reason : Option Text
  pub expires : Option ℕ

pub record Egress : Type 0 where
  pub deny_by_default : Bool
  pub allow_domains : List Text

pub record PolicyDecision : Type 0 where
  pub decision : Decision
  pub rule_id : Text
  pub reason : Text
  pub level : Capability
  pub policy_version : ℤ
  pub policy_hash : Text
  pub show : List Text

-- A mapping from levels to decisions, as a list of its entries.
abbrev pub Defaults : Type 0
Defaults = List (Capability × Decision)

abbrev pub default_for : Capability → Defaults → Option Decision
default_for c [] = none
default_for c ((k, d) ∷ rest) = if k == c then some d else default_for c rest

pub record Policy : Type 0 where
  pub version : ℤ
  pub defaults : Defaults
  pub rules : List Rule
  pub egress : Egress
  pub escalation : EscalationRules
  pub sensitivity : Fields
  pub hash : Text

abbrev pub is_empty_fields : Fields → Bool
is_empty_fields Fields.end = true
is_empty_fields (Fields.field k v fs) = false

abbrev pub is_none {ℓ} : {A : Type ℓ} → Option A → Bool
is_none none = true
is_none (some a) = false

-- `Match.is_empty`
abbrev pub match_is_empty : Match → Bool
match_is_empty m = is_none m.tool && is_none m.workflow && is_empty_fields m.args

abbrev pub is_deny : Decision → Bool
is_deny deny = true
is_deny _ = false

-- which rules each loop of `evaluate` looks at
abbrev pub wants : Bool → Decision → Bool
wants true d = is_deny d
wants false d = not (is_deny d)

-- `level is not None and request.level > level`
abbrev pub above : Capability → Option Capability → Bool
above c none = false
above c (some bound) = cap_gt c bound

-- `expires is not None and today > expires`
abbrev pub is_past : ℕ → Option ℕ → Bool
is_past today none = false
is_past today (some day) = ltb day today

-- `reason or fallback`: an empty reason counts as none
abbrev pub reason_or : Option Text → Text → Text
reason_or none fallback = fallback
reason_or (some r) fallback = if text_beq r [] then fallback else r

abbrev pub level_value : Capability → Text
level_value l0 = codes "L0"
level_value l1 = codes "L1"
level_value l2 = codes "L2"
level_value l3 = codes "L3"
level_value l4 = codes "L4"

-- `f"{rule.decision.value.lower()} by rule"`
abbrev pub by_rule : Decision → Text
by_rule allow = codes "allow by rule"
by_rule confirm = codes "confirm by rule"
by_rule deny = codes "deny by rule"

module _ (ext : External) where
  unfoldable pub tool_matches : Option Text → PolicyRequest → Result Bool
  tool_matches none request = ok true
  tool_matches (some pattern) request = glob_match ext request.tool pattern

  unfoldable pub workflow_matches : Option Text → Option Text → Result Bool
  workflow_matches none workflow = ok true
  workflow_matches (some pattern) none = ok false
  workflow_matches (some pattern) (some workflow) = glob_match ext workflow pattern

  -- a parameter that is absent, or no text, is not a match
  unfoldable pub value_matches : Value → Value → Result Bool
  value_matches (Value.str s) patterns = any_match ext s patterns
  value_matches _ patterns = ok false

  unfoldable pub args_match : Fields → Fields → Result Bool
  unfolding value_matches
  args_match Fields.end parameters = ok true
  args_match (Fields.field key patterns fs) parameters = do
    hit ← value_matches (get parameters key) patterns
    if hit then args_match fs parameters else ok false

  unfoldable pub matches : Match → PolicyRequest → Result Bool
  unfolding tool_matches workflow_matches args_match
  matches m request = do
    tool_hit ← tool_matches m.tool request
    if not tool_hit then ok false else do
      workflow_hit ← workflow_matches m.workflow request.workflow
      if not workflow_hit then ok false else args_match m.args request.parameters

  unfoldable pub applies : Rule → PolicyRequest → ℕ → Result Bool
  applies rule request today =
      if is_past today rule.expires
      then ok false
      else if above request.level rule.level
      then ok false
      else if above request.level rule.max_level
      then ok false
      else matches rule.match request

  unfoldable pub egress_allows : Egress → Text → Bool
  egress_allows egress host =
      if any (domain_match ext host) egress.allow_domains then true else not egress.deny_by_default

  -- The two loops of `evaluate`: the first rule that denies, or does not, and applies.
  unfoldable pub first_rule : Bool → List Rule → PolicyRequest → ℕ → Result (Option Rule)
  first_rule denying [] request today = ok none
  first_rule denying (rule ∷ rules) request today =
      let rest = first_rule denying rules request today in
      if wants denying rule.decision
      then (do hit ← applies rule request today; if hit then ok (some rule) else rest)
      else rest

-- `_assert_l4_invariant`
unfoldable pub assert_l4_invariant : Capability → Decision → Result (Unit {0})
assert_l4_invariant l4 allow = err (raise_class policy_invariant_violation)
assert_l4_invariant _ _ = ok tt

-- `_decide`
unfoldable pub decide_as :
    Policy → PolicyRequest → Decision → Text → Text → List Text → Result PolicyDecision
unfolding assert_l4_invariant
decide_as policy request decision rule_id reason show = do
  _ ← assert_l4_invariant request.level decision
  ok (record {
    decision = decision;
    rule_id = rule_id;
    reason = reason;
    level = request.level;
    policy_version = policy.version;
    policy_hash = policy.hash;
    show = show;
  })

-- what `evaluate` does when no rule applies
unfoldable pub decide_default : Policy → PolicyRequest → Result PolicyDecision
unfolding decide_as
decide_default policy request = elim (default_for request.level policy.defaults) [
  | some default ↦
      decide_as policy request default (codes "default:" ++ level_value request.level)
        (codes "level default") []
  | none ↦
      decide_as policy request deny (codes "default:deny")
        (codes "no rule matched and no level default") []
]

-- what it does with the rule, if any, that allows or confirms
unfoldable pub decide_allowing : Policy → PolicyRequest → Option Rule → Result PolicyDecision
unfolding decide_as decide_default
decide_allowing policy request none = decide_default policy request
decide_allowing policy request (some rule) =
    decide_as policy request rule.decision rule.id (reason_or rule.reason (by_rule rule.decision))
      rule.show

-- what follows the first loop
unfoldable pub conclude :
    External → Policy → PolicyRequest → ℕ → Option Rule → Result PolicyDecision
unfolding first_rule decide_as decide_allowing
conclude ext policy request today (some rule) =
    decide_as policy request rule.decision rule.id (reason_or rule.reason (codes "denied by rule"))
      []
conclude ext policy request today none = do
  allowed ← first_rule ext false policy.rules request today
  decide_allowing policy request allowed

unfoldable pub evaluate : External → Policy → PolicyRequest → ℕ → Result PolicyDecision
unfolding conclude
evaluate ext policy request today = do
  denied ← first_rule ext true policy.rules request today
  conclude ext policy request today denied

-- `DENY_ALL`
abbrev pub deny_all : Policy
deny_all = record {
  version = ℤ.pos 0;
  defaults = (l0, deny) ∷ (l1, deny) ∷ (l2, deny) ∷ (l3, deny) ∷ (l4, deny) ∷ [];
  rules = [];
  egress = record { deny_by_default = true; allow_domains = [] };
  escalation = default_rules;
  sensitivity = Fields.end;
  hash = codes "deny-all";
}
