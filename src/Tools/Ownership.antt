-- ===== src/Tools/Ownership.antt =====
-- `_check_ownership` of src/asterixdb_mcp/tools/async_query.py, in the three tools.
use asterixdb_mcp_server.Prelude.{
  ℕ, ◌≡◌, refl, ◌∙◌, false, String, Option, none, some, ◌==◌, if◌then◌else◌,
}
use asterixdb_mcp_server.Json.{ℤ}
use asterixdb_mcp_server.Errors.{ok}
use asterixdb_mcp_server.Config.{Settings}
use asterixdb_mcp_server.ContextId.{make_client_context_id, sanitize_segment}
use asterixdb_mcp_server.ContextId.RoundTrip.{parse-make_client_context_id}
use asterixdb_mcp_server.AuditLog.{AuditLog}
use asterixdb_mcp_server.Permits.{PermitPool}
use asterixdb_mcp_server.Http.{Env}
use asterixdb_mcp_server.CcClient.{Client}
use asterixdb_mcp_server.Tools.{tool_error}
use asterixdb_mcp_server.Tools.AsyncQuery.{Outside, check_ownership, foreign_error}
use asterixdb_mcp_server.Tools.Wait.{wait_on_async_query}
use asterixdb_mcp_server.Tools.Fetch.{fetch_query_result}
use asterixdb_mcp_server.Tools.Cancel.{cancel_query}

-- An id is refused exactly if the session that made it and the gateway's own have different
-- sanitized names.
pub check_ownership-make :
    (settings : Settings) (other : String) (user_tag : Option String) (new_uuid : String)
    → check_ownership settings (make_client_context_id other user_tag new_uuid) ≡ (
        if sanitize_segment other none == sanitize_segment settings.agent_session_id none
        then none
        else some foreign_error)
unfolding check_ownership
check_ownership-make settings other user_tag new_uuid =
    rw (parse-make_client_context_id other user_tag new_uuid, check_ownership) refl

module _ {W : Type 0} (env : Env W) (outside : Outside W) (client : Client)
    (settings : Settings) where
  refused :
      (id : String) (fuel : ℕ) (timeout_ms : Option ℤ) (offset limit : ℤ) (pool : PermitPool)
      (audit : AuditLog) (w : W)
      → check_ownership settings id ≡ some foreign_error
      → (wait_on_async_query env outside client settings fuel id timeout_ms (pool, (audit, w))
          ≡ some (ok (tool_error foreign_error), (pool, (audit, w))))
        × (fetch_query_result env outside client settings id offset limit (audit, w)
            ≡ (ok (tool_error foreign_error), (audit, w)))
        × (cancel_query env client settings id (audit, w)
            ≡ (ok (tool_error foreign_error), (audit, w)))
  unfolding wait_on_async_query fetch_query_result cancel_query
  refused id fuel timeout_ms offset limit pool audit w h =
      (rw (h, wait_on_async_query) refl, rw (h, fetch_query_result) refl, rw (h, cancel_query) refl)

  -- An id that was made under a session name which, once sanitized, differs from the gateway's own is
  -- refused as FORBIDDEN by all three tools, and nothing is touched: not the cluster, not the log, not
  -- the pool. Nothing is said of two names that are sanitized to the same text.
  pub foreign_id-refused :
      (other : String) (user_tag : Option String) (new_uuid : String) (fuel : ℕ)
      (timeout_ms : Option ℤ) (offset limit : ℤ) (pool : PermitPool) (audit : AuditLog) (w : W)
      → (sanitize_segment other none == sanitize_segment settings.agent_session_id none) ≡ false
      → let id = make_client_context_id other user_tag new_uuid in
        (wait_on_async_query env outside client settings fuel id timeout_ms (pool, (audit, w))
          ≡ some (ok (tool_error foreign_error), (pool, (audit, w))))
        × (fetch_query_result env outside client settings id offset limit (audit, w)
            ≡ (ok (tool_error foreign_error), (audit, w)))
        × (cancel_query env client settings id (audit, w)
            ≡ (ok (tool_error foreign_error), (audit, w)))
  foreign_id-refused other user_tag new_uuid fuel timeout_ms offset limit pool audit w h =
      refused (make_client_context_id other user_tag new_uuid) fuel timeout_ms offset limit pool
        audit w (check_ownership-make settings other user_tag new_uuid ∙ rw h)
