-- ===== src/Tools/AsyncQuery.antt =====
-- The tools that wait for, fetch and cancel a submitted query: src/asterixdb_mcp/tools/async_query.py.
-- `report` and `capture` are at their default, `None`. A time is a number of milliseconds.

use asterixdb_mcp_server.Prelude.{
  ℕ, min, Bool, true, false, ◌||◌, String, Option, none, some, List, [], ◌∷◌, ◌==◌, nonempty, lower,
  repr, ◌<>◌, if◌then◌else◌,
}
use asterixdb_mcp_server.Json.{
  Json, null, bool, str, arr, obj, ℤ, pos, negsuc, cons, Fields, lookup, as_str, of_fields,
}
use asterixdb_mcp_server.Errors.{
  ErrorType, timeout, internal, forbidden, not_found, GatewayError, gateway_error,
}
use asterixdb_mcp_server.Errors.Classify.{classify_cc_error}
use asterixdb_mcp_server.Config.{Settings}
use asterixdb_mcp_server.ContextId.{parse_client_context_id, sanitize_segment}
use asterixdb_mcp_server.AuditLog.{AuditEntry, AuditLog, with_result_handle, record_entry}
use asterixdb_mcp_server.Tools.{ToolResult, tool_error}

abbrev pub default_limit : ℕ
default_limit = 20

abbrev pub max_limit : ℕ
max_limit = 1000

-- What else the tools ask of the outside world: the two clocks, `sleep`, the file of an artifact,
-- and the size of a row as JSON text.
pub record Outside (W : Type 0) : Type 0 where
  pub clock : W → ℕ
  pub audit_clock : W → ℕ
  pub sleep : (milliseconds : ℕ) → W → W
  pub write_artifact : List Json → W → Fields × W
  pub row_bytes : Json → ℕ

unfoldable pub is_terminal : String → Bool
is_terminal status =
    (status == "success") || (status == "failed") || (status == "fatal") || (status == "timeout")

-- `_FAILURE_ERROR_TYPES.get(status, ErrorType.INTERNAL)`
unfoldable pub failure_type : String → ErrorType
failure_type status = if status == "timeout" then timeout else internal

-- `_clamp_timeout`
unfoldable pub clamp_timeout : Option ℤ → ℕ → ℕ
clamp_timeout none ceiling_ms = ceiling_ms
clamp_timeout (some (pos n)) ceiling_ms = min n ceiling_ms
clamp_timeout (some (negsuc n)) ceiling_ms = 0

abbrev pub foreign_error : GatewayError
foreign_error =
    gateway_error forbidden
      "This clientContextID belongs to a different session. You can only wait on, fetch, or cancel queries you submitted in this session."

-- `_check_ownership`
unfoldable pub check_ownership : Settings → String → Option GatewayError
unfolding parse_client_context_id sanitize_segment
check_ownership settings client_context_id = elim (parse_client_context_id client_context_id) [
  | none ↦ none
  | some (session, tag, tail) ↦
      if session == sanitize_segment settings.agent_session_id none
      then none
      else some foreign_error
]

unfoldable pub unknown_submission_error : String → GatewayError
unknown_submission_error client_context_id = gateway_error not_found (
    "No submitted query found for clientContextID "
    <> repr client_context_id
    <> ". Submit one with submit_async_query first, and pass back the exact clientContextID it returned.")

-- `errors[0]`, if `errors` is a list and its first item is a dict
unfoldable pub first_error_of : Fields → Option Fields
unfolding lookup
first_error_of envelope = elim (lookup "errors" envelope) [
  | arr (cons (obj fs) vs) ↦ some fs
  | _ ↦ none
]

-- `_first_error_message`
unfoldable pub first_error_message : Fields → Option String
unfolding first_error_of as_str lookup
first_error_message envelope = elim (first_error_of envelope) [
  | none ↦ none
  | some first ↦ as_str (lookup "msg" first)
]

-- `text or default`
abbrev pub text_or : String → Option String → String
text_or default none = default
text_or default (some s) = if nonempty s then s else default

abbrev opt_json : Option String → Json
opt_json none = null
opt_json (some s) = str s

-- `_classify_envelope_error`
unfoldable pub classify_envelope_error : Fields → Option GatewayError
unfolding first_error_of as_str lookup classify_cc_error
classify_envelope_error envelope = elim (first_error_of envelope) [
  | none ↦ none
  | some first ↦ some (
      classify_cc_error (opt_json (as_str (lookup "code" first)))
        (text_or "AsterixDB returned an error." (as_str (lookup "msg" first))))
]

unfoldable pub success_result : String → String → ToolResult
unfolding of_fields
success_result client_context_id status = record {
  text =
      "Query finished. Fetch rows with fetch_query_result using clientContextID "
      <> repr client_context_id
      <> ".";
  structured = of_fields (
      ("status", str "success")
      ∷ ("done", bool true)
      ∷ ("queryStatus", str status)
      ∷ ("clientContextID", str client_context_id)
      ∷ []);
  is_error = false;
}

abbrev stash : ℕ → AuditEntry → Option String → AuditLog → AuditLog
unfolding record_entry with_result_handle
stash now entry none audit = audit
stash now entry (some handle) audit = record_entry now (with_result_handle handle entry) audit

-- `_terminal_result`
unfoldable pub terminal_result : ℕ → AuditEntry → Fields → String → AuditLog → ToolResult × AuditLog
unfolding stash success_result failure_type first_error_message as_str lookup tool_error
terminal_result now entry envelope status audit =
    if status == "success"
    then (
      success_result entry.client_context_id status,
      stash now entry (as_str (lookup "handle" envelope)) audit,
    )
    else (
      tool_error (
          gateway_error (failure_type status) (
            text_or ("Async query ended with status " <> repr status <> ".")
              (first_error_message envelope))),
      audit,
    )

-- `_still_running_result`
unfoldable pub still_running_result : String → String → ToolResult
unfolding of_fields
still_running_result client_context_id status = record {
  text = "Query is still running. Call wait_on_async_query again to keep waiting.";
  structured = of_fields (
      ("status", str "pending")
      ∷ ("done", bool false)
      ∷ ("queryStatus", str (text_or "running" (some status)))
      ∷ ("clientContextID", str client_context_id)
      ∷ []);
  is_error = false;
}

-- `(_as_str(envelope.get("status")) or "").lower()`
unfoldable pub status_of : Fields → String
unfolding as_str lookup lower
status_of envelope = lower (text_or "" (as_str (lookup "status" envelope)))
