-- ===== src/Security/Capability.antt =====
-- vyomel/security/capability.py: the level of an invocation, and every reason that raised it.
pub mod Laws
mod Examples
use vyomel.Prelude.{
  ℕ, suc, ◌+◌, Bool, true, false, ◌||◌, ◌&&◌, Option, none, some, List, [], ◌∷◌, ◌++◌, Text,
  text_eq, text_beq, codes, ◌==◌, has_scheme, any, contains, leb, ltb, if◌then◌else◌,
}
use vyomel.Core.Types.{
  Capability, l0, l1, l2, l3, l4, Trust, tool_untrusted, cap_lt, cap_gt, raised_by,
}
use vyomel.Core.Errors.{Result, ok, ◌>>=◌}
use vyomel.Core.Json.{Value, Items, Fields}
use vyomel.Security.External.{External}
use vyomel.Security.Matching.{any_globs, domain_match}

-- `PATH_KEYS`
abbrev path_keys : List Text
path_keys =
    codes "path"
    ∷ codes "paths"
    ∷ codes "src"
    ∷ codes "source"
    ∷ codes "dst"
    ∷ codes "dest"
    ∷ codes "destination"
    ∷ codes "file"
    ∷ codes "files"
    ∷ codes "directory"
    ∷ []

pub record EscalationRules : Type 0 where
  pub vision_tier_minimum : Capability
  pub untrusted_taint_levels : ℕ
  pub untrusted_taint_minimum : Capability
  pub bulk_threshold : ℕ
  pub bulk_levels : ℕ
  pub unknown_tool : Capability
  pub sensitive_paths : List Text
  pub sensitive_domains : List Text

-- `EscalationRules()`
abbrev pub default_rules : EscalationRules
default_rules = record {
  vision_tier_minimum = l2;
  untrusted_taint_levels = 1;
  untrusted_taint_minimum = l2;
  bulk_threshold = 10;
  bulk_levels = 1;
  unknown_tool = l4;
  sensitive_paths = [];
  sensitive_domains = [];
}

pub record Invocation : Type 0 where
  pub tool : Text
  pub parameters : Fields
  pub base : Option Capability
  pub actuation_tier : ℕ
  pub trust : Trust
  pub affected_count : ℕ

pub data Reason : Type 0 where
  unknown_tool vision_tier untrusted_taint bulk sensitive_resource : Reason

pub record Classification : Type 0 where
  pub level : Capability
  pub reasons : List Reason

-- `_walk`: the depth is cut at 6, and a list passes its key on
unfoldable mutual
  pub walk : (Text → Text) → Value → Text → ℕ → List (Text × Text)
  walk fold (Value.str s) key depth = if ltb 6 depth then [] else (key, s) ∷ []
  walk fold (Value.obj fs) key depth = if ltb 6 depth then [] else walk_fields fold fs depth
  walk fold (Value.arr vs) key depth = if ltb 6 depth then [] else walk_items fold vs key depth
  walk fold _ key depth = []

  pub walk_fields : (Text → Text) → Fields → ℕ → List (Text × Text)
  walk_fields fold Fields.end depth = []
  walk_fields fold (Fields.field k v fs) depth =
      walk fold v (fold k) (depth + 1) ++ walk_fields fold fs depth

  pub walk_items : (Text → Text) → Items → Text → ℕ → List (Text × Text)
  walk_items fold Items.nil key depth = []
  walk_items fold (Items.cons v vs) key depth =
      walk fold v key (depth + 1) ++ walk_items fold vs key depth

-- the steps of `classify`, each on the level and the reasons so far
unfoldable pub vision_step : EscalationRules → ℕ → Classification → Classification
vision_step rules tier c =
    if leb 4 tier && cap_lt c.level rules.vision_tier_minimum
    then record { level = rules.vision_tier_minimum; reasons = c.reasons ++ vision_tier ∷ [] }
    else c

abbrev pub is_untrusted : Trust → Bool
is_untrusted tool_untrusted = true
is_untrusted _ = false

unfoldable pub taint_step : EscalationRules → Trust → Classification → Classification
taint_step rules trust c =
    let by_levels = raised_by c.level rules.untrusted_taint_levels in
    let raised =
      if cap_lt by_levels rules.untrusted_taint_minimum
      then rules.untrusted_taint_minimum
      else by_levels in
    if is_untrusted trust && cap_gt raised c.level
    then record { level = raised; reasons = c.reasons ++ untrusted_taint ∷ [] }
    else c

unfoldable pub bulk_step : EscalationRules → ℕ → Classification → Classification
bulk_step rules affected c =
    let raised = raised_by c.level rules.bulk_levels in
    if ltb rules.bulk_threshold affected && cap_gt raised c.level
    then record { level = raised; reasons = c.reasons ++ bulk ∷ [] }
    else c

unfoldable pub sensitive_step : Bool → Classification → Classification
sensitive_step touched c =
    if touched
    then record {
      level = l4;
      reasons = if cap_lt c.level l4 then c.reasons ++ sensitive_resource ∷ [] else c.reasons;
    }
    else c

module _ (ext : External) where
  unfoldable pub host_of : Text → Result (Option Text)
  host_of value = if has_scheme value then ext.hostname value else ok none

  -- `host and any(domain_match(host, pattern) ...)`; an empty host is false
  unfoldable pub is_sensitive_host : Option Text → List Text → Bool
  is_sensitive_host none domains = false
  is_sensitive_host (some host) domains =
      if text_beq host [] then false else any (domain_match ext host) domains

  -- One round of the loop of `_touches_sensitive_resource`.
  unfoldable pub is_sensitive : EscalationRules → Text × Text → Result Bool
  unfolding host_of is_sensitive_host
  is_sensitive rules (key, value) = do
    path_hit ←
        (if contains key path_keys then any_globs ext value rules.sensitive_paths else ok false)
    if path_hit
        then ok true
        else do host ← host_of value; ok (is_sensitive_host host rules.sensitive_domains)

  unfoldable pub touches : EscalationRules → List (Text × Text) → Result Bool
  unfolding is_sensitive
  touches rules [] = ok false
  touches rules (pair ∷ pairs) = do
    hit ← is_sensitive rules pair
    if hit then ok true else touches rules pairs

  unfoldable pub touches_sensitive_resource : Fields → EscalationRules → Result Bool
  unfolding touches walk
  touches_sensitive_resource parameters rules =
      touches rules (walk ext.casefold (Value.obj parameters) [] 0)

  unfoldable pub classify_known : Capability → Invocation → EscalationRules → Result Classification
  unfolding vision_step taint_step bulk_step sensitive_step
  classify_known base inv rules = do
    let c0 : Classification = record { level = base; reasons = [] }
    let c1 = vision_step rules inv.actuation_tier c0
    let c2 = taint_step rules inv.trust c1
    let c3 = bulk_step rules inv.affected_count c2
    touched ← touches_sensitive_resource inv.parameters rules
    ok (sensitive_step touched c3)

  unfoldable pub classify : Invocation → EscalationRules → Result Classification
  unfolding classify_known
  classify inv rules = elim inv.base [
    | none ↦ ok (record { level = rules.unknown_tool; reasons = unknown_tool ∷ [] })
    | some base ↦ classify_known base inv rules
  ]
