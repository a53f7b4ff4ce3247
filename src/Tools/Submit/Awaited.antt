-- ===== src/Tools/Submit/Awaited.antt =====
-- From a submission to the wait by the id that it returned (src/asterixdb_mcp/tools/async_query.py).
use asterixdb_mcp_server.Prelude.{ℕ, ◌≡◌, Bool, true, String, Option, none, some, ◌⊎◌}
use Prim.Native.Char.{Char}
use asterixdb_mcp_server.Prelude.Dict.{Dict}
use asterixdb_mcp_server.Json.{Json, ℤ, Fields, str, lookup, as_str}
use asterixdb_mcp_server.Errors.{Result, ok, err, crash}
use asterixdb_mcp_server.Config.{Settings}
use asterixdb_mcp_server.StatementGuard.{normalize_statement}
use asterixdb_mcp_server.AuditLog
use asterixdb_mcp_server.AuditLog.{AuditEntry, AuditLog}
use asterixdb_mcp_server.Permits.{PermitPool}
use asterixdb_mcp_server.Http.{Env}
use asterixdb_mcp_server.QueryForm.{Query}
use asterixdb_mcp_server.CcClient.{Client, submit_async}
use asterixdb_mcp_server.Tools.{ToolResult}
use asterixdb_mcp_server.Tools.AsyncQuery.{Outside, max_limit}
use asterixdb_mcp_server.Tools.Wait.{State, wait_for_entry, wait_on_async_query}

module _ {W : Type 0} (env : Env W) (outside : Outside W) (wide_word : Char → Bool)
    (repr_value : Json → String) (client : Client) (settings : Settings) (fuel : ℕ)
    (timeout_ms : Option ℤ) (waits : PermitPool) where
  -- The cluster answered a submission of the statement, under the id, with the envelope, and left the
  -- world as it is.
  unfoldable pub IsAnswered : String → String → Fields → W → Type 0
  IsAnswered id statement envelope w =
      (q : Query) × (before : W) × (q.client_context_id ≡ id)
      × (q.statement ≡ normalize_statement wide_word statement max_limit)
      × (submit_async env client q before ≡ (ok envelope, w))

  -- The answer is an error, or the id in it leads a wait to the entry of this submission, which has
  -- the handle of the cluster's answer.
  unfoldable pub LeadsToEntry :
      String → String → Option String → Option (Result ToolResult × State W) → Type 0
  LeadsToEntry id statement dataverse none = Unit {0}
  LeadsToEntry id statement dataverse (some (err e, s)) = Unit {0}
  LeadsToEntry id statement dataverse (some (crash, s)) = Unit {0}
  LeadsToEntry id statement dataverse (some (ok r, (p, (audit, w)))) =
      (r.is_error ≡ true)
      ⊎ ((envelope : Fields) × (entry : AuditEntry) × IsAnswered id statement envelope w
          × (lookup "clientContextID" r.structured ≡ str id)
          × (entry.statement ≡ statement)
          × (entry.dataverse ≡ dataverse)
          × (entry.handle ≡ as_str (lookup "handle" envelope))
          × (wait_on_async_query env outside client settings fuel id timeout_ms (waits, (audit, w))
              ≡ wait_for_entry env outside client settings fuel timeout_ms id (some entry)
                  (waits, (audit, w))))

  -- An outcome of the block under the permit that is an envelope is the cluster's answer.
  abbrev IsSent : String → String → Option (Result Fields × (PermitPool × W)) → Type 0
  IsSent id statement none = Unit {0}
  IsSent id statement (some (err e, s)) = Unit {0}
  IsSent id statement (some (crash, s)) = Unit {0}
  IsSent id statement (some (ok envelope, (p, w))) = IsAnswered id statement envelope w
