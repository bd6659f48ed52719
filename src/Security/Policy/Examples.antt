-- ===== src/Security/Policy/Examples.antt =====
-- Policies at concrete inputs.
use vyomel.Prelude.{
  Option, eqb, if◌then◌else◌, ◌≡◌, ◌≢◌, ◌⊎◌, refl, true, false, none, some, List, [], ◌∷◌, Text,
  codes,
}
use vyomel.Core.Types.{l1, l2, l4, Decision, allow, confirm, deny}
use vyomel.Core.Errors.{Result, ok, err, raise_class, value_error}
use vyomel.Core.Json.{ℤ, Value, Items, Fields}
use vyomel.Security.External.{External}
use vyomel.Security.Fixture.{plain_external}
use vyomel.Security.Matching.{glob_match}
use vyomel.Security.Capability.{default_rules}
use vyomel.Security.Policy.{
  Rule, Policy, PolicyRequest, PolicyDecision, is_past, above, default_for, matches, applies,
  evaluate,
}
use vyomel.Security.Policy.Decisions.{InRules, here, later, deny_wins, allow_needs_grant}
use vyomel.Security.Policy.Parse.{load_policy, parse_policy, safe_load_policy, parse_document}
use vyomel.Security.Policy.Store.{Stamp, PolicyStore, IsCurrent, get, get-IsCurrent}

abbrev rule_named : Text → Decision → Rule
rule_named id decision = record {
  id = id;
  match = record { tool = some (codes "fs.*"); args = Fields.end; workflow = none };
  decision = decision;
  level = some l2;
  max_level = none;
  show = [];
  reason = none;
  expires = some 100;
}

abbrev policy_of : List Rule → Policy
policy_of rules = record {
  version = ℤ.pos 1;
  defaults = [];
  rules = rules;
  egress = record { deny_by_default = true; allow_domains = [] };
  escalation = default_rules;
  sensitivity = Fields.end;
  hash = [];
}

abbrev write : PolicyRequest
write = record { tool = codes "fs.write"; level = l1; parameters = Fields.end; workflow = none }

abbrev mixed : Policy
mixed = policy_of (rule_named (codes "a") allow ∷ rule_named (codes "d") deny ∷ [])

abbrev permissive : Policy
permissive = policy_of (rule_named (codes "a") allow ∷ [])

abbrev decided : Decision → Text → Text → PolicyDecision
decided decision id reason = record {
  decision = decision;
  rule_id = id;
  reason = reason;
  level = l1;
  policy_version = ℤ.pos 1;
  policy_hash = [];
  show = [];
}

-- The rule that denies stands second and still decides.
deny_wins_example : Decision.deny ≡ deny
unfolding evaluate applies matches glob_match
deny_wins_example =
    deny_wins plain_external mixed write 7 (rule_named (codes "d") deny)
      (decided deny (codes "d") (codes "denied by rule")) (later _ (here [])) refl refl refl

allow_needs_grant_example :
    (l1 ≢ l4)
    × (((r : Rule) × InRules r permissive.rules
          × (r.decision ≡ allow)
          × (is_past 7 r.expires ≡ false)
          × (above l1 r.level ≡ false)
          × (above l1 r.max_level ≡ false)
          × (matches plain_external r.match write ≡ ok true))
        ⊎ (default_for l1 permissive.defaults ≡ some allow))
unfolding evaluate applies matches glob_match
allow_needs_grant_example =
    allow_needs_grant plain_external permissive write 7
      (decided allow (codes "a") (codes "allow by rule")) refl refl

-- A file that is not UTF-8.
abbrev garbled : Result (Option Text)
garbled = err (raise_class value_error)

-- A document whose default at L4 is relaxed, and whose one rule is about a tool.
abbrev document : Fields
document = Fields.field (codes "version") (Value.int (ℤ.pos 3)) (
    Fields.field (codes "defaults")
      (Value.obj (Fields.field (codes "L4") (Value.str (codes "allow")) Fields.end))
      (Fields.field (codes "rules")
        (Value.arr (
          Items.cons
            (Value.obj (
              Fields.field (codes "id") (Value.str (codes "r")) (
                Fields.field (codes "match")
                  (Value.obj (Fields.field (codes "tool") (Value.str (codes "fs.*")) Fields.end))
                  (Fields.field (codes "decision") (Value.str (codes "deny")) Fields.end))))
            Items.nil))
        Fields.end))

abbrev parsed : Policy
parsed = record {
  version = ℤ.pos 3;
  defaults = (l4, confirm) ∷ (l4, allow) ∷ [];
  rules =
      record {
        id = codes "r";
        match = record { tool = some (codes "fs.*"); args = Fields.end; workflow = none };
        decision = deny;
        level = none;
        max_level = none;
        show = [];
        reason = none;
        expires = none;
      }
      ∷ [];
  egress = record { deny_by_default = true; allow_domains = [] };
  escalation = default_rules;
  sensitivity = Fields.end;
  hash = codes "h";
}

abbrev empty_store : PolicyStore
empty_store = record { stamp = none; policy = none }

-- The file holds the document since its last change.
abbrev reading : External
reading = record plain_external { yaml_load = λ s. ok (some (Value.obj document)) }

abbrev contents : Stamp → Result (Option Text)
contents now = if eqb now.0 4 then ok (some (codes "h")) else ok none

abbrev full_store : PolicyStore
full_store = record { stamp = some (4, 2); policy = some parsed }

-- The first call reads the file.
full_store-IsCurrent : IsCurrent reading [] contents full_store
unfolding get safe_load_policy load_policy parse_policy parse_document
full_store-IsCurrent =
    (get-IsCurrent reading [] contents (4, 2) empty_store (record { loaded = λ now p a b. cc })).1

-- The second one finds what the first one kept.
get-IsCurrent_example :
    ((get reading [] (some (4, 2)) (contents (4, 2)) full_store).0
      ≡ safe_load_policy reading [] (contents (4, 2)))
    × IsCurrent reading [] contents (get reading [] (some (4, 2)) (contents (4, 2)) full_store).1
get-IsCurrent_example = get-IsCurrent reading [] contents (4, 2) full_store full_store-IsCurrent
