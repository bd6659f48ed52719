-- ===== src/Security/Policy/Store.antt =====
-- `PolicyStore` of vyomel/security/policy.py: a policy that is read again when its file changes.
use vyomel.Prelude.{
  ℕ, ◌≡◌, inl, inr, refl, Bool, false, ◌&&◌, Option, none, some, Text, eqb, arith, if◌then◌else◌,
  Option-cases, sym,
}
use vyomel.Core.Errors.{Result, ok, err}
use vyomel.Security.External.{External}
use vyomel.Security.Policy.{Policy, deny_all}
use vyomel.Security.Policy.Scalars.{Variables}
use vyomel.Security.Policy.Parse.{safe_load_policy}

-- (modification time, size)
abbrev pub Stamp : Type 0
Stamp = ℕ × ℕ

pub record PolicyStore : Type 0 where
  pub stamp : Option Stamp
  pub policy : Option Policy

abbrev same_stamp : Stamp → Option Stamp → Bool
same_stamp a none = false
same_stamp (m, n) (some (p, q)) = eqb m p && eqb n q

-- `self._policy is None or stamp != self._stamp`, the other way round
cached : Stamp → PolicyStore → Option Policy
cached now s = if same_stamp now s.stamp then s.policy else none

-- A policy that is loaded is kept with its stamp; an error leaves the store as it was.
remember : Stamp → PolicyStore → Result Policy → Result Policy × PolicyStore
remember now s (ok p) = (ok p, record { stamp = some now; policy = some p })
remember now s (err e) = (err e, s)

-- the body of `get` behind the call of `stat`
get_at :
    External → Variables → Stamp → Result (Option Text) → PolicyStore → Result Policy × PolicyStore
unfolding remember cached
get_at ext variables now file s = elim (cached now s) [
  | some p ↦ (ok p, s)
  | none ↦ remember now s (safe_load_policy ext variables file)
]

-- `get`: the file's stamp, or nothing where `stat` fails, and what a read does.
unfoldable pub get :
    External
    → Variables
    → Option Stamp
    → Result (Option Text)
    → PolicyStore
    → Result Policy × PolicyStore
unfolding get_at
get ext variables none file s = (ok deny_all, s)
get ext variables (some now) file s = get_at ext variables now file s

-- `reload`
unfoldable pub reload :
    External
    → Variables
    → Option Stamp
    → Result (Option Text)
    → PolicyStore
    → Result Policy × PolicyStore
unfolding get
reload ext variables stat file s =
    get ext variables stat file (record { stamp = none; policy = none })

-- What is kept was loaded from the file as it was at the stamp that is kept. `contents` gives the
-- text at each stamp, and so the text depends on it alone.
pub record IsCurrent (ext : External) (variables : Variables)
    (contents : Stamp → Result (Option Text)) (s : PolicyStore) : Type 0 where
  pub loaded :
      (now : Stamp) (p : Policy)
      → s.stamp ≡ some now
      → s.policy ≡ some p
      → safe_load_policy ext variables (contents now) ≡ ok p

cached_some :
    (now : Stamp) (s : PolicyStore) (p : Policy)
    → cached now s ≡ some p
    → (s.stamp ≡ some now) × (s.policy ≡ some p)
unfolding cached
cached_some now s p h = ground arith

module _ (ext : External) (variables : Variables) (contents : Stamp → Result (Option Text)) where
  remember-IsCurrent :
      (m : Result Policy) (now : Stamp) (s : PolicyStore)
      → safe_load_policy ext variables (contents now) ≡ m
      → IsCurrent ext variables contents s
      → ((remember now s m).0 ≡ m) × IsCurrent ext variables contents (remember now s m).1
  unfolding remember
  remember-IsCurrent (ok p) now s e h = (
    refl,
    record {
      loaded = λ at q a b.
          let a' : now ≡ at = ground (arith, a) in
          let b' : p ≡ q = ground (arith, b) in rw (← a', ← b') e;
    },
  )
  remember-IsCurrent (err k) now s e h = (refl, h)

  -- Where what a read of the file does depends on its modification time and size alone, PolicyStore.get
  -- on a store whose policy was loaded at its stamp gives what loading the file now would give, and
  -- leaves such a store.
  pub get-IsCurrent :
      (now : Stamp) (s : PolicyStore)
      → IsCurrent ext variables contents s
      → ((get ext variables (some now) (contents now) s).0
          ≡ safe_load_policy ext variables (contents now))
        × IsCurrent ext variables contents (get ext variables (some now) (contents now) s).1
  unfolding get
  get-IsCurrent now s h = elim (Option-cases (cached now s)) [
    | inl e ↦
        rw (e, get, get_at)
          (remember-IsCurrent (safe_load_policy ext variables (contents now)) now s refl h)
    | inr (p, e) ↦
        let (a, b) = cached_some now s p e in rw (e, get, get_at) (sym (h.loaded now p a b), h)
  ]
