-- ===== src/Errors/Classify.antt =====
-- `classify_cc_error` of errors.py: how a failure that the cluster reports is sorted.
use asterixdb_mcp_server.Prelude.{
  false, ◌||◌, String, Option, none, some, ◌≡◌, refl, arith, within, lower, nonempty, ◌==◌,
  if◌then◌else◌,
}
use asterixdb_mcp_server.Json.{Json, str}
use asterixdb_mcp_server.Errors.{
  ErrorType, timeout, readonly_violation, syntax_error, semantic_error, internal, GatewayError,
  is_retryable,
}

-- `_ASX_CODE_MAP`
unfoldable pub asx_code_map : String → Option ErrorType
asx_code_map code =
    if code == "ASX1063"
    then some readonly_violation
    else if code == "ASX1001"
    then some syntax_error
    else if code == "ASX1002"
    then some syntax_error
    else none

-- The message heuristics of `classify_cc_error`, on the lowered message.
unfoldable pub message_type : String → ErrorType
message_type lowered =
    if within "readonly" lowered || within "read-only" lowered || within "read only" lowered
    then readonly_violation
    else if within "timeout" lowered || within "timed out" lowered
    then timeout
    else if within "syntax error" lowered || within "parse error" lowered
    then syntax_error
    else if within "type mismatch" lowered
        || within "cannot find" lowered
        || within "unknown" lowered
    then semantic_error
    else internal

-- The code's entry in the map, for a code that is a text and not empty. Another hashable value is
-- in no map.
unfoldable pub mapped_type : Json → Option ErrorType
unfolding asx_code_map
mapped_type (str code) = if nonempty code then asx_code_map code else none
mapped_type _ = none

unfoldable pub classify_cc_error : Json → String → GatewayError
unfolding mapped_type message_type
classify_cc_error asterix_code message = elim (mapped_type asterix_code) [
  | some t ↦ record { error_type = t; message = message; asterix_code = asterix_code }
  | none ↦ record {
    error_type = message_type (lower message);
    message = message;
    asterix_code = asterix_code;
  }
]

-- Whatever the cluster reports, the message and the code are passed on as they came; a mapped code
-- outranks every keyword of the message, and without one the type is that of the message alone.
pub classify_cc_error_lem :
    (code : Json) (message : String)
    → ((classify_cc_error code message).message ≡ message)
      × ((classify_cc_error code message).asterix_code ≡ code)
      × ((t : ErrorType)
          → mapped_type code ≡ some t
          → (classify_cc_error code message).error_type ≡ t)
      × (mapped_type code ≡ none
          → (classify_cc_error code message).error_type ≡ message_type (lower message))
unfolding classify_cc_error
classify_cc_error_lem code message =
    (ground arith, ground arith, λ t h. ground arith, λ h. ground arith)

-- The code of a readonly violation decides, whatever the message says, and the error is not
-- retryable.
pub classify_readonly :
    (message : String)
    → ((classify_cc_error (str "ASX1063") message).error_type ≡ readonly_violation)
      × (is_retryable (classify_cc_error (str "ASX1063") message).error_type ≡ false)
unfolding classify_cc_error is_retryable
classify_readonly message = (ground arith, ground arith)

test_classify : (classify_cc_error (str "ASX1063") "Syntax error").error_type ≡ readonly_violation
unfolding classify_cc_error
test_classify = refl

test_classify_message : (classify_cc_error (str "ASX0001") "Job TIMED OUT").error_type ≡ timeout
unfolding classify_cc_error lower
test_classify_message = refl
