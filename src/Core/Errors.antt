-- ===== src/Core/Errors.antt =====
-- vyomel/core/errors.py: the error hierarchy. Messages, details and observations are left out.
use vyomel.Prelude.{ℕ, ◌≡◌, Bool, true, false, Option, none, some, refl, Text, codes}

pub data ErrorCode : Type 0 where
  timeout rate_limited transient_io element_not_found : ErrorCode
  precondition_failed permission_denied invalid_parameters verification_failed : ErrorCode
  unsupported budget_exceeded deadline_exceeded not_found conflict internal : ErrorCode
  illegal_transition policy_invariant privacy_routing : ErrorCode

-- `_RETRYABLE`
abbrev pub is_retryable : ErrorCode → Bool
is_retryable timeout = true
is_retryable rate_limited = true
is_retryable transient_io = true
is_retryable element_not_found = true
is_retryable _ = false

-- `code.value`
abbrev pub code_value : ErrorCode → Text
code_value timeout = codes "TIMEOUT"
code_value rate_limited = codes "RATE_LIMITED"
code_value transient_io = codes "TRANSIENT_IO"
code_value element_not_found = codes "ELEMENT_NOT_FOUND"
code_value precondition_failed = codes "PRECONDITION_FAILED"
code_value permission_denied = codes "PERMISSION_DENIED"
code_value invalid_parameters = codes "INVALID_PARAMETERS"
code_value verification_failed = codes "VERIFICATION_FAILED"
code_value unsupported = codes "UNSUPPORTED"
code_value budget_exceeded = codes "BUDGET_EXCEEDED"
code_value deadline_exceeded = codes "DEADLINE_EXCEEDED"
code_value not_found = codes "NOT_FOUND"
code_value conflict = codes "CONFLICT"
code_value internal = codes "INTERNAL"
code_value illegal_transition = codes "ILLEGAL_TRANSITION"
code_value policy_invariant = codes "POLICY_INVARIANT"
code_value privacy_routing = codes "PRIVACY_ROUTING"

-- `_HTTP_STATUS.get(code, 500)`
unfoldable pub http_status : ErrorCode → ℕ
http_status not_found = 404
http_status conflict = 409
http_status permission_denied = 403
http_status invalid_parameters = 422
http_status rate_limited = 429
http_status timeout = 504
http_status deadline_exceeded = 504
http_status unsupported = 501
http_status budget_exceeded = 402
http_status _ = 500

-- The exception classes that the modelled code raises or catches.
pub data ErrorClass : Type 0 where
  vyomel_error config_error not_found_error conflict_error tool_error : ErrorClass
  permission_denied_error budget_exceeded_error deadline_exceeded_error : ErrorClass
  verification_failed_error illegal_transition_error policy_invariant_violation : ErrorClass
  privacy_routing_violation cyclic_plan_error workflow_error workflow_not_found_error : ErrorClass
  runtime_error value_error key_error multiple_results_found integrity_error : ErrorClass
  cancelled_error invalid_request_error : ErrorClass

-- the `code` of each class
abbrev pub class_code : ErrorClass → ErrorCode
class_code config_error = invalid_parameters
class_code not_found_error = not_found
class_code conflict_error = conflict
class_code permission_denied_error = permission_denied
class_code budget_exceeded_error = budget_exceeded
class_code deadline_exceeded_error = deadline_exceeded
class_code verification_failed_error = verification_failed
class_code illegal_transition_error = illegal_transition
class_code policy_invariant_violation = policy_invariant
class_code privacy_routing_violation = privacy_routing
class_code cyclic_plan_error = invalid_parameters
class_code workflow_error = invalid_parameters
class_code workflow_not_found_error = not_found
class_code _ = internal

pub record VyomelError : Type 0 where
  pub class : ErrorClass
  pub code : ErrorCode
  pub retryable : Bool

-- `__init__`: what the caller does not give comes from the class and from the code.
unfoldable pub make_error : ErrorClass → Option ErrorCode → Option Bool → VyomelError
make_error c given retry =
    let code : ErrorCode = elim given [ none ↦ class_code c | some k ↦ k ] in
    record {
      class = c;
      code = code;
      retryable = elim retry [ none ↦ is_retryable code | some b ↦ b ];
    }

-- An error raised with its class's code.
abbrev pub raise_class : ErrorClass → VyomelError
raise_class c = record { class = c; code = class_code c; retryable = is_retryable (class_code c) }

pub data Result {ℓ} (A : Type ℓ) : Type ℓ where
  ok : A → Result A
  err : VyomelError → Result A

-- What follows runs on the value, and an error passes by.
infixl 5 ◌>>=◌ ◌>>◌
abbrev pub ◌>>=◌ {ℓ κ} :
    {A : Type ℓ} {B : Type κ} (first : Result A) (next : A → Result B) → Result B
err e >>= next = err e
ok x >>= next = next x

abbrev pub ◌>>◌ {ℓ κ} : {A : Type ℓ} {B : Type κ} (first : Result A) (last : Result B) → Result B
first >> last = first >>= λ _. last

-- Inversion of a bind that succeeds.
pub >>=-eq-ok {ℓ κ} :
    {A : Type ℓ} {B : Type κ} (first : Result A) (next : A → Result B) {y : B}
    → (first >>= next) ≡ ok y
    → (x : A) × (first ≡ ok x) × (next x ≡ ok y)
>>=-eq-ok (err e) next h = cc
>>=-eq-ok (ok x) next h = (x, refl, h)
