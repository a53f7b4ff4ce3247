-- ===== src/Tools/Cancel.antt =====
-- `run_cancel_query` of src/asterixdb_mcp/tools/async_query.py.
pub mod Forgets
use asterixdb_mcp_server.Prelude.{
  ℕ, ◌≡◌, refl, Bool, true, false, String, Option, none, some, List, [], ◌∷◌, ◌<>◌, if◌then◌else◌,
  arith,
}
use asterixdb_mcp_server.Json.{bool, str, of_fields}
use asterixdb_mcp_server.Errors.{ErrorType, not_found, GatewayError, Result, ok, err, crash}
use asterixdb_mcp_server.Config.{Settings}
use asterixdb_mcp_server.AuditLog.{AuditLog, forget}
use asterixdb_mcp_server.Http.{Env}
use asterixdb_mcp_server.CcClient.{Client, cancel}
use asterixdb_mcp_server.Tools.{ToolResult, tool_error}
use asterixdb_mcp_server.Tools.AsyncQuery.{check_ownership}

-- `err.error_type is ErrorType.NOT_FOUND`
unfoldable pub is_not_found : ErrorType → Bool
is_not_found not_found = true
is_not_found _ = false

unfoldable pub cancelled_result : String → Bool → ToolResult
unfolding of_fields
cancelled_result client_context_id cancelled = record {
  text = "Cancelled query " <> client_context_id <> ".";
  structured = of_fields (
      ("status", str "cancelled")
      ∷ ("clientContextID", str client_context_id)
      ∷ ("cancelled", bool cancelled)
      ∷ []);
  is_error = false;
}

-- What the tool makes of the client's answer.
unfoldable pub conclude : String → Result Bool → AuditLog → Result ToolResult × AuditLog
unfolding cancelled_result is_not_found forget tool_error
conclude id (ok cancelled) audit = (ok (cancelled_result id cancelled), forget id audit)
conclude id (err e) audit =
    (ok (tool_error e), if is_not_found e.error_type then forget id audit else audit)
conclude id crash audit = (crash, audit)

module _ {W : Type 0} (env : Env W) (client : Client) (settings : Settings) where
  unfoldable pub cancel_query : String → AuditLog × W → Result ToolResult × (AuditLog × W)
  unfolding conclude check_ownership cancel tool_error
  cancel_query id (audit, w) = elim (check_ownership settings id) [
    | some e ↦ (ok (tool_error e), (audit, w))
    | none ↦
        let (answer, w') = cancel env client id w in
        let (result, audit') = conclude id answer audit in (result, (audit', w'))
  ]
