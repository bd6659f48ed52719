-- ===== src/Security/Policy/Parse.antt =====
-- The loading half of vyomel/security/policy.py: from a YAML document to a policy, or `ConfigError`.
use vyomel.Prelude.{
  Option, none, some, List, [], ◌∷◌, Text, text_eq, codes, contains, if◌then◌else◌,
}
use vyomel.Core.Types.{l4, allow, confirm}
use vyomel.Core.Errors.{Result, ok, err, ◌>>=◌, config_error}
use vyomel.Core.Json.{Value, Items, Fields, get}
use vyomel.Security.External.{External}
use vyomel.Security.Capability.{EscalationRules, default_rules}
use vyomel.Security.Policy.{Match, Rule, Defaults, default_for, Policy, match_is_empty, deny_all}
use vyomel.Security.Policy.Scalars.{
  fail, Variables, or_default, or_empty, optional_str, string_tuple, non_negative_int, parse_egress,
  parse_version, parse_sensitivity, substitute_text, optional_capability, capability, decision_of,
  optional_date,
}

module _ (ext : External) where
  -- the loop of `_parse_defaults`; a later entry of a level replaces an earlier one
  unfoldable pub defaults_from : Defaults → Fields → Result Defaults
  unfolding decision_of capability
  defaults_from defaults Fields.end = ok defaults
  defaults_from defaults (Fields.field key value fs) = do
    level ← capability ext (Value.str key)
    decision ← decision_of ext value
    defaults_from ((level, decision) ∷ defaults) fs

-- What `_parse_defaults` does about L4 behind its loop.
unfoldable pub secure_l4 : Defaults → Defaults
secure_l4 defaults = elim (default_for l4 defaults) [
  | none ↦ (l4, confirm) ∷ defaults
  | some allow ↦ (l4, confirm) ∷ defaults
  | some other ↦ defaults
]

module _ (ext : External) where
  unfoldable pub parse_defaults : Value → Result Defaults
  unfolding defaults_from secure_l4
  parse_defaults Value.null = ok ((l4, confirm) ∷ [])
  parse_defaults (Value.obj raw) = do defaults ← defaults_from ext [] raw; ok (secure_l4 defaults)
  parse_defaults _ = fail

-- `_substitute`
unfoldable mutual
  pub substitute : External → Variables → Value → Value
  substitute ext variables (Value.str s) = Value.str (substitute_text ext s variables)
  substitute ext variables (Value.arr vs) = Value.arr (substitute_items ext variables vs)
  substitute ext variables v = v

  pub substitute_items : External → Variables → Items → Items
  substitute_items ext variables Items.nil = Items.nil
  substitute_items ext variables (Items.cons v vs) =
      Items.cons (substitute ext variables v) (substitute_items ext variables vs)

unfoldable pub substitute_fields : External → Variables → Fields → Fields
substitute_fields ext variables Fields.end = Fields.end
substitute_fields ext variables (Fields.field k v fs) =
    Fields.field k (substitute ext variables v) (substitute_fields ext variables fs)

module _ (ext : External) (variables : Variables) where
  unfoldable pub parse_args : Value → Result Fields
  unfolding substitute_fields
  parse_args (Value.obj fs) = ok (substitute_fields ext variables fs)
  parse_args _ = fail

  unfoldable pub parse_match : Value → Result Match
  unfolding parse_args optional_str
  parse_match (Value.obj raw) = do
    args ← parse_args (or_empty (get raw (codes "args")))
    tool ← optional_str (get raw (codes "tool"))
    workflow ← optional_str (get raw (codes "workflow"))
    let m : Match = record { tool = tool; args = args; workflow = workflow }
    if match_is_empty m then fail else ok m
  parse_match _ = fail

  -- one `Rule(...)`, its identifier already read
  unfoldable pub parse_rule : Text → Fields → Result Rule
  unfolding parse_match decision_of optional_capability string_tuple optional_str optional_date
  parse_rule rule_id item = do
    m ← parse_match (get item (codes "match"))
    decision ← decision_of ext (get item (codes "decision"))
    level ← optional_capability ext (get item (codes "level"))
    max_level ← optional_capability ext (get item (codes "max_level"))
    show ← string_tuple (get item (codes "show"))
    reason ← optional_str (get item (codes "reason"))
    expires ← optional_date ext (get item (codes "expires"))
    ok (record {
      id = rule_id;
      match = m;
      decision = decision;
      level = level;
      max_level = max_level;
      show = show;
      reason = reason;
      expires = expires;
    })

  -- `isinstance(rule_id, str)` and not empty
  unfoldable pub rule_id_of : Value → Result Text
  rule_id_of (Value.str []) = fail
  rule_id_of (Value.str s) = ok s
  rule_id_of _ = fail

  unfoldable pub rules_from : List Text → Items → Result (List Rule)
  unfolding rule_id_of parse_rule
  rules_from seen Items.nil = ok []
  rules_from seen (Items.cons (Value.obj item) rest) = do
    rule_id ← rule_id_of (get item (codes "id"))
    if contains rule_id seen then fail else do
      rule ← parse_rule rule_id item
      rules ← rules_from (rule_id ∷ seen) rest
      ok (rule ∷ rules)
  rules_from seen (Items.cons _ rest) = fail

  unfoldable pub parse_rules : Value → Result (List Rule)
  unfolding rules_from
  parse_rules Value.null = ok []
  parse_rules (Value.arr raw) = rules_from [] raw
  parse_rules _ = fail

  -- `sensitive_paths`, each with its variables replaced
  unfoldable pub substitute_texts : List Text → List Text
  substitute_texts [] = []
  substitute_texts (s ∷ ss) = substitute_text ext s variables ∷ substitute_texts ss

  unfoldable pub parse_escalation : Value → Result EscalationRules
  unfolding optional_capability non_negative_int string_tuple substitute_texts
  parse_escalation Value.null = ok default_rules
  parse_escalation (Value.obj raw) = do
    vision ← optional_capability ext (get raw (codes "vision_tier_minimum"))
    taint_levels ← non_negative_int (get raw (codes "untrusted_taint_levels")) 1
    taint_minimum ← optional_capability ext (get raw (codes "untrusted_taint_minimum"))
    threshold ← non_negative_int (get raw (codes "bulk_threshold")) 10
    levels ← non_negative_int (get raw (codes "bulk_levels")) 1
    unknown ← optional_capability ext (get raw (codes "unknown_tool"))
    paths ← string_tuple (get raw (codes "sensitive_paths"))
    domains ← string_tuple (get raw (codes "sensitive_domains"))
    ok (record {
      vision_tier_minimum = or_default vision default_rules.vision_tier_minimum;
      untrusted_taint_levels = taint_levels;
      untrusted_taint_minimum = or_default taint_minimum default_rules.untrusted_taint_minimum;
      bulk_threshold = threshold;
      bulk_levels = levels;
      unknown_tool = or_default unknown default_rules.unknown_tool;
      sensitive_paths = substitute_texts paths;
      sensitive_domains = domains;
    })
  parse_escalation _ = fail

  -- `parse_policy` behind the YAML parser, on a mapping; the last argument is the text's hash
  unfoldable pub parse_document : Fields → Text → Result Policy
  unfolding parse_version parse_defaults parse_rules parse_escalation parse_egress parse_sensitivity
  parse_document document hash = do
    version ← parse_version (get document (codes "version"))
    defaults ← parse_defaults ext (get document (codes "defaults"))
    rules ← parse_rules (get document (codes "rules"))
    escalation ← parse_escalation (get document (codes "escalation"))
    egress ← parse_egress (get document (codes "egress"))
    sensitivity ← parse_sensitivity (or_empty (get document (codes "sensitivity")))
    ok (record {
      version = version;
      defaults = defaults;
      rules = rules;
      egress = egress;
      escalation = escalation;
      sensitivity = sensitivity;
      hash = hash;
    })

  unfoldable pub parse_loaded : Option Value → Text → Result Policy
  unfolding parse_document
  parse_loaded (some (Value.obj document)) hash = parse_document document hash
  parse_loaded _ hash = fail

  unfoldable pub parse_policy : Text → Result Policy
  unfolding parse_loaded
  parse_policy raw_text = do
    document ← ext.yaml_load raw_text
    parse_loaded document (ext.content_hash raw_text)

  -- `load_policy`, on what `read_text` does: it gives the text, it fails with an `OSError`, which is
  -- `none`, or it raises another exception, the `UnicodeDecodeError` of a file that is not UTF-8
  unfoldable pub load_policy : Result (Option Text) → Result Policy
  unfolding parse_policy
  load_policy (err e) = err e
  load_policy (ok none) = fail
  load_policy (ok (some raw_text)) = parse_policy raw_text

-- `except ConfigError: return DENY_ALL`; any other error goes on
unfoldable pub or_deny_all : Result Policy → Result Policy
or_deny_all (ok p) = ok p
or_deny_all (err e) = elim e.class [ config_error ↦ ok deny_all | _ ↦ err e ]

unfoldable pub safe_load_policy : External → Variables → Result (Option Text) → Result Policy
unfolding or_deny_all
safe_load_policy ext variables file = or_deny_all (load_policy ext variables file)
