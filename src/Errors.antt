-- ===== src/Errors.antt =====
-- The gateway's error taxonomy: src/asterixdb_mcp/errors.py. A function that may raise returns a
-- `Result`; a method that changes an object and may raise, an action of `Exec`.
pub mod Classify
use asterixdb_mcp_server.Prelude.{Bool, true, false, String, List, [], ◌∷◌, if◌then◌else◌}
use asterixdb_mcp_server.Json.{Json, null, bool, str, Fields, of_fields, set}

-- `class ErrorType`
pub data ErrorType : Type 0 where
  timeout readonly_violation syntax_error semantic_error size_limit plan_rejected : ErrorType
  invalid_parameter not_found forbidden not_ready expired internal : ErrorType

-- `ErrorType.value`
unfoldable pub error_value : ErrorType → String
error_value timeout = "TIMEOUT"
error_value readonly_violation = "READONLY_VIOLATION"
error_value syntax_error = "SYNTAX_ERROR"
error_value semantic_error = "SEMANTIC_ERROR"
error_value size_limit = "SIZE_LIMIT"
error_value plan_rejected = "PLAN_REJECTED"
error_value invalid_parameter = "INVALID_PARAMETER"
error_value not_found = "NOT_FOUND"
error_value forbidden = "FORBIDDEN"
error_value not_ready = "NOT_READY"
error_value expired = "EXPIRED"
error_value internal = "INTERNAL"

unfoldable pub is_retryable : ErrorType → Bool
is_retryable timeout = true
is_retryable plan_rejected = true
is_retryable not_ready = true
is_retryable _ = false

-- `class GatewayError`
pub record GatewayError : Type 0 where
  pub error_type : ErrorType
  pub message : String
  pub asterix_code : Json

-- `GatewayError(error_type, message)`
abbrev pub gateway_error : ErrorType → String → GatewayError
gateway_error t m = record { error_type = t; message = m; asterix_code = null }

abbrev is_null : Json → Bool
is_null null = true
is_null _ = false

-- `to_structured`
unfoldable pub to_structured : GatewayError → Fields
unfolding of_fields set error_value is_retryable
to_structured e =
    let payload = of_fields (
      ("status", str "error")
      ∷ ("errorType", str (error_value e.error_type))
      ∷ ("errorMessage", str e.message)
      ∷ ("retryable", bool (is_retryable e.error_type))
      ∷ []) in
    if is_null e.asterix_code then payload else set "asterixCode" e.asterix_code payload

pub data Result {ℓ} (A : Type ℓ) : Type ℓ where
  ok : A → Result A
  err : GatewayError → Result A
  -- an exception outside the taxonomy, such as a `ValueError`, which no tool catches
  crash : Result A
