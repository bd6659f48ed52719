-- ===== src/Security/Policy/Scalars.antt =====
-- The readers of single values of vyomel/security/policy.py: each gives `ConfigError` on what it does
-- not understand.
use vyomel.Prelude.{
  ℕ, zero, Bool, true, false, Option, none, some, List, [], ◌∷◌, Text, text_eq, codes, ◌++◌, ◌==◌,
  if◌then◌else◌,
}
use vyomel.Core.Types.{Capability, l0, l1, l2, l3, l4, Decision, allow, confirm, deny}
use vyomel.Core.Errors.{Result, ok, err, ◌>>=◌, raise_class, config_error}
use vyomel.Core.Json.{ℤ, Value, Items, Fields, get, get_default}
use vyomel.Security.External.{External}
use vyomel.Security.Policy.{Egress}

abbrev pub fail {ℓ} : {A : Type ℓ} → Result A
fail = err (raise_class config_error)

-- `variables`: what stands for `${name}`
abbrev pub Variables : Type 0
Variables = List (Text × Text)

-- `value or default`
abbrev pub or_default {ℓ} : {A : Type ℓ} → Option A → A → A
or_default none d = d
or_default (some a) d = a

-- what Python holds false, and `or {}` replaces
abbrev pub or_empty : Value → Value
or_empty Value.null = Value.obj Fields.end
or_empty (Value.bool false) = Value.obj Fields.end
or_empty (Value.int (ℤ.pos zero)) = Value.obj Fields.end
or_empty (Value.other zero) = Value.obj Fields.end
or_empty (Value.str []) = Value.obj Fields.end
or_empty (Value.arr Items.nil) = Value.obj Fields.end
or_empty v = v

-- `Capability(text)`
abbrev pub capability_named : Text → Option Capability
capability_named s =
    if s == codes "L0"
    then some l0
    else if s == codes "L1"
    then some l1
    else if s == codes "L2"
    then some l2
    else if s == codes "L3"
    then some l3
    else if s == codes "L4"
    then some l4
    else none

-- `_DECISIONS.get(text)`
abbrev pub decision_named : Text → Option Decision
decision_named s =
    if s == codes "allow"
    then some allow
    else if s == codes "confirm"
    then some confirm
    else if s == codes "deny"
    then some deny
    else none

unfoldable pub optional_str : Value → Result (Option Text)
optional_str Value.null = ok none
optional_str (Value.str s) = ok (some s)
optional_str _ = fail

unfoldable pub string_items : Items → Result (List Text)
string_items Items.nil = ok []
string_items (Items.cons (Value.str s) vs) = do rest ← string_items vs; ok (s ∷ rest)
string_items (Items.cons _ vs) = fail

unfoldable pub string_tuple : Value → Result (List Text)
unfolding string_items
string_tuple Value.null = ok []
string_tuple (Value.str s) = ok (s ∷ [])
string_tuple (Value.arr vs) = string_items vs
string_tuple _ = fail

unfoldable pub non_negative_int : Value → ℕ → Result ℕ
non_negative_int Value.null default = ok default
non_negative_int (Value.int (ℤ.pos n)) default = ok n
non_negative_int _ default = fail

unfoldable pub deny_flag : Value → Result Bool
deny_flag (Value.bool b) = ok b
deny_flag _ = fail

unfoldable pub parse_egress : Value → Result Egress
unfolding string_tuple deny_flag
parse_egress Value.null = ok (record { deny_by_default = true; allow_domains = [] })
parse_egress (Value.obj raw) = do
  flag ← deny_flag (get_default raw (codes "deny_by_default") (Value.bool true))
  domains ← string_tuple (get raw (codes "allow_domains"))
  ok (record { deny_by_default = flag; allow_domains = domains })
parse_egress _ = fail

-- `version`; Python's booleans are integers
unfoldable pub parse_version : Value → Result ℤ
parse_version (Value.int n) = ok n
parse_version (Value.bool b) = ok (ℤ.pos (if b then 1 else 0))
parse_version _ = fail

unfoldable pub parse_sensitivity : Value → Result Fields
parse_sensitivity (Value.obj fs) = ok fs
parse_sensitivity _ = fail

module _ (ext : External) where
  unfoldable pub substitute_text : Text → Variables → Text
  substitute_text value [] = value
  substitute_text value ((name, replacement) ∷ rest) =
      substitute_text (ext.replace (codes "${" ++ (name ++ codes "}")) replacement value) rest

  unfoldable pub optional_capability : Value → Result (Option Capability)
  optional_capability Value.null = ok none
  optional_capability (Value.str s) = elim (capability_named (ext.strip_upper s)) [
    | none ↦ fail
    | some c ↦ ok (some c)
  ]
  optional_capability _ = fail

  unfoldable pub capability : Value → Result Capability
  unfolding optional_capability
  capability value = do
    level ← optional_capability value
    elim level [ none ↦ fail | some c ↦ ok c ]

  unfoldable pub decision_of : Value → Result Decision
  decision_of (Value.str s) = elim (decision_named (ext.casefold (ext.strip s))) [
    | none ↦ fail
    | some d ↦ ok d
  ]
  decision_of _ = fail

  unfoldable pub optional_date : Value → Result (Option ℕ)
  optional_date Value.null = ok none
  optional_date (Value.datetime day) = ok (some day)
  optional_date (Value.date day) = ok (some day)
  optional_date (Value.str s) = elim (ext.from_iso (ext.strip s)) [
    | none ↦ fail
    | some day ↦ ok (some day)
  ]
  optional_date _ = fail
