-- ===== src/Tools/Handoff.antt =====
-- From a wait to the fetch of the rows, by the id (src/asterixdb_mcp/tools/async_query.py).
use asterixdb_mcp_server.Prelude.{ℕ, ◌≤◌, ◌≡◌, refl, ◌∙◌, false, String, none, some, arith, eq_iff}
use asterixdb_mcp_server.Prelude.Dict.{Distinct}
use asterixdb_mcp_server.Json.{ℤ, Fields, lookup, as_str}
use asterixdb_mcp_server.Config.{Settings}
use asterixdb_mcp_server.AuditLog
use asterixdb_mcp_server.AuditLog.{
  AuditEntry, AuditLog, with_result_handle, record_entry, is_expired,
}
use asterixdb_mcp_server.AuditLog.View.{view-record_entry, get-view}
use asterixdb_mcp_server.Http.{Env}
use asterixdb_mcp_server.CcClient.{Client, fetch_result}
use asterixdb_mcp_server.Tools.AsyncQuery.{Outside, check_ownership, terminal_result}
use asterixdb_mcp_server.Tools.Fetch.{fetch_answer, fetch_entry, fetch_query_result}

stashed :
    (now later : ℕ) (entry : AuditEntry) (handle : String) (audit : AuditLog)
    → Distinct audit.entries
    → now ≤ later
    → is_expired audit later entry ≡ false
    → (AuditLog.get later entry.client_context_id
        (record_entry now (with_result_handle handle entry) audit)).0
      ≡ some (with_result_handle handle entry)
unfolding with_result_handle is_expired
stashed now later entry handle audit u h live =
    let e = with_result_handle handle entry in
    let id = entry.client_context_id in
    (get-view later later (record_entry now e audit) id id (omega arith)).0
    ∙ ground (arith, view-record_entry now later audit e id u h, eq_iff id id)

terminal_result-log :
    (now : ℕ) (entry : AuditEntry) (envelope : Fields) (handle : String) (audit : AuditLog)
    → as_str (lookup "handle" envelope) ≡ some handle
    → (terminal_result now entry envelope "success" audit).1
      ≡ record_entry now (with_result_handle handle entry) audit
unfolding terminal_result
terminal_result-log now entry envelope handle audit h = rw (h, terminal_result) refl

module _ {W : Type 0} (env : Env W) (outside : Outside W) (client : Client)
    (settings : Settings) where
  fetch_found :
      (id : String) (offset limit : ℤ) (audit : AuditLog) (w : W) (entry : AuditEntry)
      → check_ownership settings id ≡ none
      → (AuditLog.get (outside.audit_clock w) id audit).0 ≡ some entry
      → (fetch_query_result env outside client settings id offset limit (audit, w)).0
        ≡ (fetch_entry env outside client settings id offset limit (some entry) w).0
  unfolding fetch_query_result
  fetch_found id offset limit audit w entry own found = rw (own, fetch_query_result) (rw found refl)

  -- After a wait that ended in success, a fetch by the same id asks the cluster for the very handle
  -- that the wait was told, and answers what comes of it, as long as the time to live of the entry is not over.
  pub fetch-terminal_result :
      (now : ℕ) (entry : AuditEntry) (envelope : Fields) (handle : String) (audit : AuditLog)
      (offset limit : ℤ) (w : W)
      → check_ownership settings entry.client_context_id ≡ none
      → as_str (lookup "handle" envelope) ≡ some handle
      → Distinct audit.entries
      → now ≤ outside.audit_clock w
      → is_expired audit (outside.audit_clock w) entry ≡ false
      → (fetch_query_result env outside client settings entry.client_context_id offset limit
          ((terminal_result now entry envelope "success" audit).1, w)).0
        ≡ (fetch_answer env outside client settings
            (with_result_handle handle entry)
            offset
            limit
            (fetch_result env client handle w)).0
  unfolding fetch_entry with_result_handle
  fetch-terminal_result now entry envelope handle audit offset limit w own told u h live =
      rw (terminal_result-log now entry envelope handle audit told) (
        fetch_found entry.client_context_id offset limit _ w (with_result_handle handle entry) own
          (stashed now (outside.audit_clock w) entry handle audit u h live))
