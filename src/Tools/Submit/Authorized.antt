-- ===== src/Tools/Submit/Authorized.antt =====
-- What a submission posts before its plan is accepted (src/asterixdb_mcp/tools/async_query.py).
use asterixdb_mcp_server.Prelude.{◌≡◌, ◌⊎◌, Bool, String, Option, some, List}
use Prim.Native.Char.{Char}
use asterixdb_mcp_server.Prelude.Dict.{Dict}
use asterixdb_mcp_server.Json.{Json, Fields}
use asterixdb_mcp_server.Errors.{Result, ok}
use asterixdb_mcp_server.Config.{Settings}
use asterixdb_mcp_server.StatementGuard.{normalize_statement}
use asterixdb_mcp_server.TenantPolicy.{check_compiled_plan}
use asterixdb_mcp_server.TenantPolicy.Statement.CompilesOnly.{OnlyCompiled}
use asterixdb_mcp_server.PlanGuard.{ColumnarAdvisory}
use asterixdb_mcp_server.AuditLog.{AuditLog}
use asterixdb_mcp_server.Permits.{PermitPool}
use asterixdb_mcp_server.Http.{Form, Env}
use asterixdb_mcp_server.QueryForm.{Query}
use asterixdb_mcp_server.CcClient.{Client, compile_query}
use asterixdb_mcp_server.CcClient.ReadOnly.{recording}
use asterixdb_mcp_server.Tools.{ToolResult}
use asterixdb_mcp_server.Tools.AsyncQuery.{Outside, max_limit}
use asterixdb_mcp_server.Tools.Refusals.{IsFailure, IsRefusal}
use asterixdb_mcp_server.Tools.Wait.{State}
use asterixdb_mcp_server.Tools.Submit.{compilation, prepare}

module _ {W : Type 0} (env : Env W) (outside : Outside (W × List Form)) (wide_word : Char → Bool)
    (repr_value : Json → String) (client : Client) (settings : Settings) where
  -- The cluster compiled the statement as it would be submitted, and the policy accepted the plan.
  unfoldable pub IsAccepted : String → String → Option String → W × List Form → Type 0
  IsAccepted statement id dataverse w =
      (compiled : Fields) × (w' : W × List Form) × (compile_query (recording env) client
          (compilation (normalize_statement wide_word statement max_limit) id dataverse) w
        ≡ (ok compiled, w'))
      × (check_compiled_plan settings client.principal compiled dataverse ≡ ok tt)

  -- Nothing was submitted: the call ended without success, the pool and the log are as they were, and
  -- only compilations were posted.
  unfoldable pub IsUnsent :
      PermitPool → AuditLog → Option (Result ToolResult × State (W × List Form)) → Type 0
  unfolding IsRefusal
  IsUnsent p audit out =
      (r : Result ToolResult) × (w : W × List Form) × (out ≡ some (r, (p, (audit, w))))
      × IsRefusal r
      × OnlyCompiled env client w

  -- The compilation that is asked for first.
  first_query : String → String → Option String → Query
  first_query statement id dataverse =
      compilation (normalize_statement wide_word statement max_limit) id dataverse

  preparation :
      String
      → String
      → Option String
      → W × List Form
      → Result (Fields × Option ColumnarAdvisory) × (W × List Form)
  preparation statement id dataverse w =
      prepare (recording env) outside wide_word repr_value client settings
        (normalize_statement wide_word statement max_limit) id dataverse w

  IsPrepared : String → String → Option String → W × List Form → Type 0
  unfolding preparation
  IsPrepared statement id dataverse w =
      IsAccepted statement id dataverse w
      ⊎ (IsFailure (preparation statement id dataverse w).0
          × OnlyCompiled env client (preparation statement id dataverse w).1)
