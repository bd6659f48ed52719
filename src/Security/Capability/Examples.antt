-- ===== src/Security/Capability/Examples.antt =====
-- Classification at concrete inputs.
use vyomel.Prelude.{◌≤◌, ◌<◌, ◌≡◌, ◌↔◌, refl, some, [], ◌∷◌, codes}
use vyomel.Core.Types.{Capability, l1, l4, raised_by, tool_untrusted, Trust}
use vyomel.Core.Errors.{ok}
use vyomel.Core.Json.{Value, Items, Fields}
use vyomel.Security.Matching.{glob_match, any_globs}
use vyomel.Security.Fixture.{plain_external}
use vyomel.Security.Capability.{
  EscalationRules, Invocation, Classification, Reason, default_rules, classify,
  touches_sensitive_resource,
}
use vyomel.Security.Capability.Laws.{classify_never_lowers}

-- A click by coordinates that untrusted content asked for, on a list of two files.
abbrev click : Invocation
click = record {
  tool = codes "desktop.click";
  parameters =
      Fields.field (codes "Path")
        (Value.arr
          (Items.cons (Value.str (codes "a")) (Items.cons (Value.str (codes "b")) Items.nil)))
        Fields.end;
  base = some l1;
  actuation_tier = 4;
  trust = tool_untrusted;
  affected_count = 1;
}

abbrev click_level : Classification
click_level = record {
  level = Capability.l3;
  reasons = Reason.vision_tier ∷ Reason.untrusted_taint ∷ [];
}

click_classified : classify plain_external click default_rules ≡ ok click_level
unfolding classify touches_sensitive_resource raised_by glob_match
click_classified = refl

classify_never_lowers_example : (1 ≤ 3) × ((1 < 3) ↔ (0 < 2))
classify_never_lowers_example =
    classify_never_lowers plain_external default_rules click l1 click_level refl click_classified

-- A write to a path that the rules hold sensitive.
abbrev secret_write : Invocation
secret_write = record click {
  actuation_tier = 0;
  trust = Trust.user;
  parameters = Fields.field (codes "path") (Value.str (codes "a")) Fields.end;
}

abbrev guarded : EscalationRules
guarded = record default_rules { sensitive_paths = codes "a" ∷ [] }

abbrev top : Classification
top = record { level = l4; reasons = Reason.sensitive_resource ∷ [] }

secret_write_test : classify plain_external secret_write guarded ≡ ok top
unfolding classify touches_sensitive_resource raised_by glob_match any_globs
secret_write_test = refl
