-- ===== src/Security/Policy/Fallback.antt =====
-- vyomel/security/policy.py: how loading a policy fails. The program's own reader raises `ConfigError` and
-- nothing else, and that becomes DENY_ALL; what the libraries raise beside it is passed on.
use vyomel.Prelude.{
  ◌≡◌, ◌⊎◌, Bool, true, false, Option, none, some, Text, text_eq, arith, if◌then◌else◌,
}
use vyomel.Core.Types.{capability_eq}
use vyomel.Core.Errors.{VyomelError, Result, ok, err, ◌>>=◌, raise_class, config_error}
use vyomel.Security.External.{External}
use vyomel.Security.Policy.{Policy, deny_all}
use vyomel.Security.Policy.Scalars.{fail}

-- The only error of a computation is `ConfigError`.
pub record OnlyConfig {ℓ} {A : Type ℓ} (m : Result A) : Type ℓ where
  pub only : (e : VyomelError) → m ≡ err e → e ≡ raise_class config_error

OnlyConfig-ok {ℓ} : {A : Type ℓ} (a : A) → OnlyConfig (ok a)
OnlyConfig-ok a = record { only = λ e h. cc }

OnlyConfig-fail {ℓ} : {A : Type ℓ} → OnlyConfig (fail {A = A})
OnlyConfig-fail = record { only = λ e h. ground arith }

OnlyConfig-bind {ℓ κ} :
    {A : Type ℓ} {B : Type κ} (m : Result A) (f : A → Result B)
    → OnlyConfig m
    → ((a : A) → OnlyConfig (f a))
    → OnlyConfig (m >>= f)
OnlyConfig-bind (ok a) f hm hf = hf a
OnlyConfig-bind (err k) f hm hf = record { only = λ e h. hm.only e (ground arith) }

OnlyConfig-if {ℓ} :
    {A : Type ℓ} (b : Bool) (m n : Result A)
    → OnlyConfig m
    → OnlyConfig n
    → OnlyConfig (if b then m else n)
OnlyConfig-if true m n hm hn = hm
OnlyConfig-if false m n hm hn = hn

OnlyConfig-of_option {ℓ κ} :
    {A : Type ℓ} {B : Type κ} (o : Option A) (f : A → B)
    → OnlyConfig (elim o as (λ _. Result B) [ none ↦ fail | some a ↦ ok (f a) ])
OnlyConfig-of_option none f = OnlyConfig-fail
OnlyConfig-of_option (some a) f = OnlyConfig-ok (f a)

ruleset config_rules =
    (OnlyConfig-ok, OnlyConfig-fail, OnlyConfig-bind, OnlyConfig-if, OnlyConfig-of_option)

-- What the libraries raise that the loader does not catch: the reading of the file, or the YAML parser on its
-- text.
abbrev pub Escapes : External → Result (Option Text) → VyomelError → Type 0
Escapes ext (err e) k = e ≡ k
Escapes ext (ok none) k = ⊥
Escapes ext (ok (some raw_text)) k = ext.yaml_load raw_text ≡ err k

-- What loading gives, and what it becomes on the dispatch path.
abbrev pub Outcome : External → Result (Option Text) → Result Policy → Result Policy → Type 0
Outcome ext file loaded safe =
    ((p : Policy) × (loaded ≡ ok p) × (safe ≡ ok p))
    ⊎ (((loaded ≡ err (raise_class config_error)) × (safe ≡ ok deny_all))
        ⊎ ((k : VyomelError) × Escapes ext file k × (loaded ≡ err k) × (safe ≡ err k)))
