-- ===== src/Security/Policy/Parsed.antt =====
-- What a policy is known to satisfy once it has been parsed.
use vyomel.Prelude.{◌≡◌, ◌⊎◌, true, false, some, List, [], ◌∷◌, Text, text_eq, contains, map}
use vyomel.Core.Types.{l4, confirm, deny, capability_eq}
use vyomel.Core.Errors.{Result, ok}
use vyomel.Security.External.{External}
use vyomel.Security.Policy.{Rule, Defaults, default_for, Policy, match_is_empty}

-- What a computation gives, when it succeeds, satisfies a predicate.
record Gives {ℓ κ} {A : Type ℓ} (P : A → Type κ) (m : Result A) : Type (ℓ ⊔ κ) where
  at : (a : A) → m ≡ ok a → P a

-- The identifiers differ from one another and no rule matches every invocation.
abbrev pub IsSound : List Rule → Type 0
IsSound [] = Unit
IsSound (r ∷ rs) =
    (match_is_empty r.match ≡ false) × (contains r.id (map (λ q. q.id) rs) ≡ false) × IsSound rs

-- At L4 the default asks, or denies.
abbrev pub AsksAtL4 : Defaults → Type 0
AsksAtL4 defaults = (default_for l4 defaults ≡ some confirm) ⊎ (default_for l4 defaults ≡ some deny)

abbrev ids : List Rule → List Text
ids rules = map (λ r. r.id) rules

abbrev Fresh : List Text → List Rule → Type 0
Fresh seen rules = (s : Text) → contains s seen ≡ true → contains s (ids rules) ≡ false
