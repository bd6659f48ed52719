-- ===== src/Models/Router/Privacy.antt =====
-- What `get_planner_provider` of vyomel/models/router.py promises about where a request may go.
use vyomel.Prelude.{
  ◌≡◌, refl, Bool, true, false, not, ◌&&◌, ◌||◌, List, [], ◌∷◌, Text, codes, text_eq, text_beq_iff,
  ◌==◌, contains, select, All, All-map, arith, inl, inr, Bool-cases, if◌then◌else◌,
}
use vyomel.Core.Types.{Sensitivity}
use vyomel.Core.Errors.{Result, ok, err, >>=-eq-ok, raise_class, config_error}
use vyomel.Models.Router.{
  Settings, ProviderInfo, Inner, single, failover, Routed, is_sensitive, is_blank, mock, mock_info,
  build_provider, eligible, auto_order, keep, candidates, pick, remote_backends, refuse_when,
  named_provider, get_planner_provider, openai_compatible,
}

-- Every provider that may answer.
abbrev pub providers_of : Inner → List ProviderInfo
providers_of (single p) = p ∷ []
providers_of (failover ps) = ps

abbrev pub IsLocal : ProviderInfo → Type 0
IsLocal p = p.is_remote ≡ false

eligible-IsLocal :
    (s : Settings) (x : Sensitivity) (p : ProviderInfo)
    → (is_sensitive x || s.offline) ≡ true
    → eligible s x p ≡ true
    → IsLocal p
eligible-IsLocal s x p h e = ground arith

keep-eligible :
    (s : Settings) (x : Sensitivity) (r : Result ProviderInfo) (rest : List ProviderInfo)
    → All (λ p. eligible s x p ≡ true) rest
    → All (λ p. eligible s x p ≡ true) (keep s x r rest)
keep-eligible s x (err e) rest h = h
keep-eligible s x (ok p) rest h = elim (Bool-cases (eligible s x p)) [
  | inl e ↦ rw (e) (e, h)
  | inr e ↦ rw (e) h
]

candidates-eligible :
    (s : Settings) (x : Sensitivity) (order : List Text)
    → All (λ p. eligible s x p ≡ true) (candidates s x order)
unfolding candidates
candidates-eligible s x [] = tt
candidates-eligible s x (name ∷ order) =
    keep-eligible s x (build_provider s name) (candidates s x order) (candidates-eligible s x order)

pick-providers :
    (s : Settings) (x : Sensitivity) (ps : List ProviderInfo) (i : Inner)
    → pick s x ps ≡ ok i
    → providers_of i ≡ ps
pick-providers s x [] i h = ground arith
pick-providers s x (p ∷ []) i h = ground arith
pick-providers s x (p ∷ q ∷ ps) i h = ground arith

build_vllm :
    (backend : Text) → (backend == codes "vllm") ≡ true → contains backend remote_backends ≡ true
build_vllm backend e = rw ((text_beq_iff backend (codes "vllm")).0 e) refl

build_remote : (o c v : Bool) → (o || (c || (v || false))) ≡ false → (o || (c || false)) ≡ false
build_remote o c v e = ground arith

-- The choice of `build_provider`, where the backend is none of the remote ones.
IsLocal-choice :
    (s : Settings) (p : ProviderInfo) (m a o l v : Bool)
    → o ≡ false
    → v ≡ false
    → (if m
        then ok mock_info
        else if a
        then ok mock_info
        else if o
        then openai_compatible (codes "openai") (codes "https://api.openai.com/v1") true
        else if l
        then openai_compatible (codes "local") s.local_model_base_url false
        else if v
        then openai_compatible (codes "vllm") s.vllm_base_url true
        else err (raise_class config_error))
      ≡ ok p
    → IsLocal p
IsLocal-choice s p m a o l v ho hv e = ground arith

not_vllm :
    (backend : Text) → contains backend remote_backends ≡ false → (backend == codes "vllm") ≡ false
not_vllm backend h = elim (Bool-cases (backend == codes "vllm")) [
  | inl e ↦ let k = build_vllm backend e in cc
  | inr e ↦ e
]

build-IsLocal :
    (s : Settings) (backend : Text) (p : ProviderInfo)
    → contains backend remote_backends ≡ false
    → build_provider s backend ≡ ok p
    → IsLocal p
unfolding build_provider
build-IsLocal s backend p h e =
    IsLocal-choice s p (contains backend (mock ∷ codes "mock-planner" ∷ []))
      (backend == codes "mock-alt") (contains backend (codes "openai" ∷ codes "cloud" ∷ []))
      (backend == codes "local") (backend == codes "vllm")
      (build_remote (codes "openai" == backend) (codes "cloud" == backend) (codes "vllm" == backend)
        h)
      (not_vllm backend h) e

refuse-ok : (b : Bool) → refuse_when b ≡ ok tt → b ≡ false
refuse-ok true h = ground arith
refuse-ok false h = refl

not_remote :
    (x t o r : Bool)
    → ((x && not t) || o) ≡ true
    → (x && r && not t) ≡ false
    → (o && r) ≡ false
    → r ≡ false
not_remote x t o r h a b = ground arith

named-IsLocal :
    (s : Settings) (x : Sensitivity) (backend : Text) (i : Inner)
    → ((is_sensitive x && not s.is_test) || s.offline) ≡ true
    → named_provider s x backend ≡ ok i
    → All IsLocal (providers_of i)
unfolding named_provider
named-IsLocal s x backend i h e =
    let (u, a, f) =
      >>=-eq-ok (refuse_when (is_sensitive x && contains backend remote_backends && not s.is_test))
        _ e in
    let (v, b, g) = >>=-eq-ok (refuse_when (s.offline && contains backend remote_backends)) _ f in
    let (p, c, k) = >>=-eq-ok (build_provider s backend) _ g in
    let (w, d, z) = >>=-eq-ok (refuse_when (s.offline && p.is_remote)) _ k in
    let r = contains backend remote_backends in
    let l : r ≡ false =
      not_remote (is_sensitive x) s.is_test s.offline r h
        (refuse-ok (is_sensitive x && r && not s.is_test) a) (refuse-ok (s.offline && r) b) in
    let j : single p ≡ i = ground (arith, z) in rw (← j) (build-IsLocal s backend p l c, tt)

named_case :
    (x t o a : Bool)
    → (x || o) ≡ true
    → (a || (not t || o)) ≡ true
    → a ≡ false
    → ((x && not t) || o) ≡ true
named_case x t o a h k e = ground arith

-- Where the request is sensitive, or the settings say offline, every provider that the router chooses is
-- local: by the routing order always, and by a backend that the settings name unless the environment is
-- a test and not offline.
pub no_remote_provider :
    (s : Settings) (has_session : Bool) (x : Sensitivity) (order : List Text) (r : Routed)
    → (is_sensitive x || s.offline) ≡ true
    → ((s.planner_backend == codes "auto") || (not s.is_test || s.offline)) ≡ true
    → get_planner_provider s has_session x order ≡ ok r
    → All IsLocal (providers_of r.inner)
unfolding get_planner_provider
no_remote_provider s has_session x order r h t e =
    let (i, a, f) =
      >>=-eq-ok
        (if s.planner_backend == codes "auto"
          then pick s x (candidates s x (auto_order s order))
          else named_provider s x s.planner_backend)
        _ e in
    let j : i ≡ r.inner = ground (arith, f) in
    elim (Bool-cases (s.planner_backend == codes "auto")) [
      | inl k ↦
          let ps = candidates s x (auto_order s order) in
          let m = pick-providers s x ps i (rw (k) at a) in
          rw (← j, m)
            (All-map (λ p. eligible s x p ≡ true) IsLocal ps (λ p q. eligible-IsLocal s x p h q)
              (candidates-eligible s x (auto_order s order)))
      | inr k ↦ rw (← j) (
          named-IsLocal s x s.planner_backend i
            (named_case (is_sensitive x) s.is_test s.offline (s.planner_backend == codes "auto") h t
              k)
            (rw (k) at a))
    ]

pick-first :
    (s : Settings) (x : Sensitivity) (p : ProviderInfo) (ps : List ProviderInfo)
    → (i : Inner) × (pick s x (p ∷ ps) ≡ ok i) × (providers_of i ≡ p ∷ ps)
pick-first s x p [] = (single p, refl, refl)
pick-first s x p (q ∷ ps) = (failover (p ∷ q ∷ ps), refl, refl)

-- By the routing order, in a test or without a key, the router always finds a provider, whatever the
-- request and the order: the mock, first, before all others that are eligible.
pub auto_without_key :
    (s : Settings) (has_session : Bool) (x : Sensitivity) (order : List Text)
    → (s.planner_backend == codes "auto") ≡ true
    → (s.is_test || is_blank s.openai_api_key) ≡ true
    → (i : Inner) × (rest : List ProviderInfo) × (get_planner_provider s has_session x order
        ≡ ok (record { inner = i; cached = s.is_test; accounted = has_session }))
      × (providers_of i ≡ mock_info ∷ rest)
unfolding get_planner_provider candidates build_provider
auto_without_key s has_session x order a k =
    let rest = candidates s x (select (λ b. not (b == mock)) order) in
    let e : eligible s x mock_info ≡ true = ground arith in
    let (i, p, q) = pick-first s x mock_info rest in (i, rest, rw (a, k, e, p) refl, q)
