-- ===== src/Models/Router.antt =====
-- vyomel/models/router.py: which providers may see a request. A provider is known by its information;
-- the order of backends that the routing configuration prefers for a purpose is an argument.
pub mod Privacy
mod Examples
use vyomel.Prelude.{
  ℕ, Bool, true, false, not, ◌&&◌, ◌||◌, Option, none, some, List, [], ◌∷◌, Text, codes, text_eq,
  ◌==◌, contains, select, if◌then◌else◌,
}
use vyomel.Core.Types.{Sensitivity, public, personal, sensitive}
use vyomel.Core.Errors.{
  Result, ok, err, ◌>>=◌, ◌>>◌, raise_class, config_error, privacy_routing_violation,
}

-- `is_test` is `env == "test"`.
pub record Settings : Type 0 where
  pub planner_backend : Text
  pub offline : Bool
  pub is_test : Bool
  pub openai_api_key : Text
  pub local_model_base_url : Text
  pub vllm_base_url : Text

pub record ProviderInfo : Type 0 where
  pub name : Text
  pub is_remote : Bool

-- The provider that answers: one, or several in order behind their breakers.
pub data Inner : Type 0 where
  single : ProviderInfo → Inner
  failover : List ProviderInfo → Inner

-- The provider with what wraps it: the cache and the accounting.
pub record Routed : Type 0 where
  pub inner : Inner
  pub cached : Bool
  pub accounted : Bool

abbrev pub is_sensitive : Sensitivity → Bool
is_sensitive sensitive = true
is_sensitive _ = false

abbrev pub is_blank : Text → Bool
is_blank [] = true
is_blank _ = false

-- `OpenAICompatibleProvider(...)`, which refuses a blank address
abbrev pub openai_compatible : Text → Text → Bool → Result ProviderInfo
openai_compatible name base_url is_remote =
    if is_blank base_url
    then err (raise_class config_error)
    else ok (record { name = name; is_remote = is_remote })

abbrev pub mock : Text
mock = codes "mock"

abbrev pub mock_info : ProviderInfo
mock_info = record { name = codes "mock-planner"; is_remote = false }

unfoldable pub build_provider : Settings → Text → Result ProviderInfo
build_provider s backend =
    if contains backend (mock ∷ codes "mock-planner" ∷ [])
    then ok mock_info
    else if backend == codes "mock-alt"
    then ok mock_info
    else if contains backend (codes "openai" ∷ codes "cloud" ∷ [])
    then openai_compatible (codes "openai") (codes "https://api.openai.com/v1") true
    else if backend == codes "local"
    then openai_compatible (codes "local") s.local_model_base_url false
    else if backend == codes "vllm"
    then openai_compatible (codes "vllm") s.vllm_base_url true
    else err (raise_class config_error)

abbrev pub eligible : Settings → Sensitivity → ProviderInfo → Bool
eligible s sensitivity p =
    if s.offline && p.is_remote then false else not (is_sensitive sensitivity && p.is_remote)

-- the backends that are tried in turn: without a key, or in a test, the mock comes first
abbrev pub auto_order : Settings → List Text → List Text
auto_order s order =
    if s.is_test || is_blank s.openai_api_key
    then mock ∷ select (λ b. not (b == mock)) order
    else order

-- the loop over the backends; all that `build_provider` raises is the `ConfigError` that it catches
abbrev pub keep :
    Settings → Sensitivity → Result ProviderInfo → List ProviderInfo → List ProviderInfo
keep s sensitivity (err e) rest = rest
keep s sensitivity (ok p) rest = if eligible s sensitivity p then p ∷ rest else rest

unfoldable pub candidates : Settings → Sensitivity → List Text → List ProviderInfo
candidates s sensitivity [] = []
candidates s sensitivity (name ∷ order) =
    keep s sensitivity (build_provider s name) (candidates s sensitivity order)

abbrev pub pick : Settings → Sensitivity → List ProviderInfo → Result Inner
pick s sensitivity [] =
    if is_sensitive sensitivity || s.offline
    then err (raise_class privacy_routing_violation)
    else err (raise_class config_error)
pick s sensitivity (p ∷ []) = ok (single p)
pick s sensitivity (p ∷ q ∷ ps) = ok (failover (p ∷ q ∷ ps))

abbrev pub remote_backends : List Text
remote_backends = codes "openai" ∷ codes "cloud" ∷ codes "vllm" ∷ []

abbrev pub refuse_when : Bool → Result (Unit {0})
refuse_when true = err (raise_class privacy_routing_violation)
refuse_when false = ok tt

-- the branch for a backend that the settings name
unfoldable pub named_provider : Settings → Sensitivity → Text → Result Inner
named_provider s sensitivity backend = do
  _ ← refuse_when (is_sensitive sensitivity && contains backend remote_backends && not s.is_test)
  _ ← refuse_when (s.offline && contains backend remote_backends)
  p ← build_provider s backend
  _ ← refuse_when (s.offline && p.is_remote)
  ok (single p)

unfoldable pub get_planner_provider : Settings → Bool → Sensitivity → List Text → Result Routed
unfolding candidates named_provider
get_planner_provider s has_session sensitivity order = do
  inner ←
      if s.planner_backend == codes "auto"
      then pick s sensitivity (candidates s sensitivity (auto_order s order))
      else named_provider s sensitivity s.planner_backend
  ok (record { inner = inner; cached = s.is_test; accounted = has_session })
