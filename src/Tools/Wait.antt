-- ===== src/Tools/Wait.antt =====
-- `run_wait_on_async_query` and its loop, `_poll_until_terminal`, on fuel: a wait that has no fuel
-- left has no value.
pub mod Ends
pub mod Permit
use asterixdb_mcp_server.Prelude.{
  ℕ, zero, suc, ◌+◌, ◌≡◌, Bool, true, false, String, Option, none, some, leb,
}
use asterixdb_mcp_server.Json.{ℤ, Fields}
use asterixdb_mcp_server.Errors.{GatewayError, Result, ok, err, crash}
use asterixdb_mcp_server.Config.{Settings}
use asterixdb_mcp_server.AuditLog
use asterixdb_mcp_server.AuditLog.{AuditEntry, AuditLog}
use asterixdb_mcp_server.Permits.{PermitPool}
use asterixdb_mcp_server.Permits.Acquire.{acquire, Body}
use asterixdb_mcp_server.Http.{Env}
use asterixdb_mcp_server.CcClient.{Client, poll_status}
use asterixdb_mcp_server.Tools.{ToolResult, tool_error}
use asterixdb_mcp_server.Tools.AsyncQuery.{
  Outside, is_terminal, clamp_timeout, check_ownership, unknown_submission_error, terminal_result,
  still_running_result, status_of,
}

-- The waits' pool, the audit log and the outside world.
abbrev pub State : Type 0 → Type 0
State W = PermitPool × (AuditLog × W)

module _ {W : Type 0} (env : Env W) (outside : Outside W) (client : Client)
    (settings : Settings) where
  -- What the loop makes of a poll: the tool's result if the loop ends here, and the state after it.
  unfoldable pub turn :
      ℕ → AuditEntry → AuditLog → Result Fields × W → Option (Result ToolResult) × (AuditLog × W)
  unfolding is_terminal terminal_result still_running_result status_of
  turn deadline entry audit (err e, w) = (some (err e), (audit, w))
  turn deadline entry audit (crash, w) = (some crash, (audit, w))
  turn deadline entry audit (ok envelope, w) = elim (is_terminal (status_of envelope)) [
    | true ↦
        let (result, audit') =
          terminal_result (outside.audit_clock w) entry envelope (status_of envelope) audit in
        (some (ok result), (audit', w))
    | false ↦ elim (leb deadline (outside.clock w)) [
      | true ↦ (
        some (ok (still_running_result entry.client_context_id (status_of envelope))),
        (audit, w),
      )
      | false ↦ (none, (audit, outside.sleep settings.wait_poll_interval_ms w))
    ]
  ]

  unfoldable pub poll_once :
      ℕ → AuditEntry → String → AuditLog × W → Option (Result ToolResult) × (AuditLog × W)
  unfolding turn poll_status
  poll_once deadline entry handle (audit, w) =
      turn deadline entry audit (poll_status env client handle w)

  abbrev pub continue_with :
      (AuditLog × W → Option (Result ToolResult × (AuditLog × W)))
      → Option (Result ToolResult) × (AuditLog × W)
      → Option (Result ToolResult × (AuditLog × W))
  continue_with rest (none, s) = rest s
  continue_with rest (some r, s) = some (r, s)

  unfoldable pub poll_until_terminal :
      ℕ → ℕ → AuditEntry → String → AuditLog × W → Option (Result ToolResult × (AuditLog × W))
  unfolding poll_once
  poll_until_terminal zero deadline entry handle s = none
  poll_until_terminal (suc fuel) deadline entry handle s =
      continue_with (poll_until_terminal fuel deadline entry handle)
        (poll_once deadline entry handle s)

  -- The loop changes nothing of the pool.
  abbrev pub beside_pool :
      PermitPool
      → Option (Result ToolResult × (AuditLog × W))
      → Option (Result ToolResult × State W)
  beside_pool p none = none
  beside_pool p (some (r, s)) = some (r, (p, s))

  unfoldable pub polling : ℕ → ℕ → AuditEntry → String → Body (AuditLog × W) ToolResult
  unfolding poll_until_terminal
  polling fuel deadline entry handle (p, s) =
      beside_pool p (poll_until_terminal fuel deadline entry handle s)

  -- `except GatewayError as err: return ToolResult.error(err)`
  abbrev pub answered : Option (Result ToolResult × State W) → Option (Result ToolResult × State W)
  unfolding tool_error
  answered (some (err e, s)) = some (ok (tool_error e), s)
  answered (some (ok r, s)) = some (ok r, s)
  answered (some (crash, s)) = some (crash, s)
  answered none = none

  abbrev refused : GatewayError → State W → Option (Result ToolResult × State W)
  unfolding tool_error
  refused e s = some (ok (tool_error e), s)

  abbrev pub wait_for_handle :
      ℕ
      → Option ℤ
      → String
      → AuditEntry
      → Option String
      → State W
      → Option (Result ToolResult × State W)
  unfolding acquire polling clamp_timeout unknown_submission_error tool_error
  wait_for_handle fuel timeout_ms id entry none s = refused (unknown_submission_error id) s
  wait_for_handle fuel timeout_ms id entry (some handle) (p, (audit, w)) =
      let deadline = outside.clock w + clamp_timeout timeout_ms settings.max_wait_ms in
      answered (acquire client.principal (polling fuel deadline entry handle) (p, (audit, w)))

  abbrev pub wait_for_entry :
      ℕ → Option ℤ → String → Option AuditEntry → State W → Option (Result ToolResult × State W)
  unfolding wait_for_handle unknown_submission_error tool_error
  wait_for_entry fuel timeout_ms id none s = refused (unknown_submission_error id) s
  wait_for_entry fuel timeout_ms id (some entry) s =
      wait_for_handle fuel timeout_ms id entry entry.handle s

  unfoldable pub wait_on_async_query :
      ℕ → String → Option ℤ → State W → Option (Result ToolResult × State W)
  unfolding wait_for_entry check_ownership AuditLog.get tool_error
  wait_on_async_query fuel id timeout_ms (p, (audit, w)) = elim (check_ownership settings id) [
    | some e ↦ some (ok (tool_error e), (p, (audit, w)))
    | none ↦
        let (entry, audit') = AuditLog.get (outside.audit_clock w) id audit in
        wait_for_entry fuel timeout_ms id entry (p, (audit', w))
  ]
