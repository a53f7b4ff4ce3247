-- ===== src/Tools/Cancel/Forgets.antt =====
-- What a cancellation does to the log.
use asterixdb_mcp_server.Prelude.{
  ℕ, ◌≡◌, refl, Bool, false, ◌&&◌, ◌||◌, String, none, [], ◌∷◌, arith, nat_eq, ◌==◌, if◌then◌else◌,
}
use asterixdb_mcp_server.Config.{Settings}
use asterixdb_mcp_server.AuditLog.{AuditLog}
use asterixdb_mcp_server.AuditLog.View.{view, view-forget}
use asterixdb_mcp_server.Http.{Transport, response, stale, timed_out, failed, Env}
use asterixdb_mcp_server.CcClient.{Client, headers, cancel_status, cancel_outcome, cancel}
use asterixdb_mcp_server.Tools.AsyncQuery.{check_ownership}
use asterixdb_mcp_server.Tools.Cancel.{is_not_found, conclude, cancel_query}

-- The cluster said that the query is not running any more: it was cancelled, or it is not known.
abbrev pub is_gone : Transport → Bool
is_gone (response status content) = nat_eq status 200 || nat_eq status 404
is_gone (stale e) = false
is_gone (timed_out e) = false
is_gone (failed e) = false

module _ {W : Type 0} (env : Env W) (client : Client) where
  abbrev pub deleted : String → W → Transport × W
  deleted id =
      env.delete "/admin/requests/running" (("client_context_id", id) ∷ [])
        (headers client.settings)

  conclude-view :
      (id : String) (t : Transport) (w : W) (audit : AuditLog) (later : ℕ) (j : String)
      → view later (conclude id (cancel_outcome env client id (t, w)).0 audit).1 j
        ≡ (if is_gone t && (id == j) then none else view later audit j)
  unfolding conclude cancel_outcome cancel_status is_not_found
  conclude-view id (response s c) w audit later j = ground (arith, view-forget 0 later audit j id)
  conclude-view id (stale e) w audit later j = refl
  conclude-view id (timed_out e) w audit later j = refl
  conclude-view id (failed e) w audit later j = refl

  -- A cancellation of an own query takes it off the log if the cluster says that it is not running
  -- any more, by a 200 or a 404; on every other answer, and on no answer, the log is as it was. No
  -- other query's entry is touched.
  pub cancel_query-view :
      (settings : Settings) (id : String) (audit : AuditLog) (w : W) (later : ℕ) (j : String)
      → check_ownership settings id ≡ none
      → view later (cancel_query env client settings id (audit, w)).1.0 j
        ≡ (if is_gone (deleted id w).0 && (id == j) then none else view later audit j)
  unfolding cancel_query cancel
  cancel_query-view settings id audit w later j own =
      rw (own, cancel_query) (conclude-view id (deleted id w).0 (deleted id w).1 audit later j)
