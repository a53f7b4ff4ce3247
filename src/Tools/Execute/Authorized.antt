-- ===== src/Tools/Execute/Authorized.antt =====
-- What `run_execute_query` posts before the plan is accepted
-- (src/asterixdb_mcp/tools/execute_query.py).
use asterixdb_mcp_server.Prelude.{◌≡◌, ◌⊎◌, Bool, String, Option, List}
use Prim.Native.Char.{Char}
use asterixdb_mcp_server.Prelude.Dict.{Dict}
use asterixdb_mcp_server.Json.{Json, Fields}
use asterixdb_mcp_server.Errors.{Result, ok}
use asterixdb_mcp_server.Config.{Settings}
use asterixdb_mcp_server.StatementGuard.{normalize_statement}
use asterixdb_mcp_server.TenantPolicy.{check_compiled_plan}
use asterixdb_mcp_server.TenantPolicy.Statement.CompilesOnly.{OnlyCompiled}
use asterixdb_mcp_server.PlanGuard.{ColumnarAdvisory}
use asterixdb_mcp_server.Http.{Form, Env}
use asterixdb_mcp_server.CcClient.{Client, compile_query}
use asterixdb_mcp_server.CcClient.ReadOnly.{recording}
use asterixdb_mcp_server.Tools.{ToolResult}
use asterixdb_mcp_server.Tools.AsyncQuery.{Outside}
use asterixdb_mcp_server.Tools.Refusals.{IsFailure, IsRefusal}
use asterixdb_mcp_server.Tools.Fetch.{clamp_limit}
use asterixdb_mcp_server.Tools.Execute.{Arguments, plan_query, run_authorized}

module _ {W : Type 0} (env : Env W) (outside : Outside (W × List Form)) (wide_word : Char → Bool)
    (repr_value : Json → String) (client : Client) (settings : Settings) where
  -- The cluster compiled the statement as it would be executed, and the policy accepted the plan.
  unfoldable pub IsAccepted : Arguments → String → W × List Form → Type 0
  IsAccepted call id w =
      (compiled : Fields) × (w' : W × List Form) × (compile_query (recording env) client
          (plan_query call (normalize_statement wide_word call.statement (clamp_limit call.limit))
            id)
          w
        ≡ (ok compiled, w'))
      × (check_compiled_plan settings client.principal compiled call.dataverse ≡ ok tt)

  -- Nothing was executed: the call ended without success, and only compilations were posted.
  unfoldable pub IsUnsent : Result ToolResult × (W × List Form) → Type 0
  unfolding IsRefusal
  IsUnsent out = IsRefusal out.0 × OnlyCompiled env client out.1

  effective_statement : Arguments → String
  effective_statement call = normalize_statement wide_word call.statement (clamp_limit call.limit)

  attempt :
      Arguments
      → String
      → Dict String
      → W × List Form
      → Result (Option ColumnarAdvisory × Fields) × (W × List Form)
  unfolding effective_statement
  attempt call id validated =
      run_authorized (recording env) outside wide_word repr_value client settings call
        (effective_statement call) id validated

  IsAttempted : Arguments → String → Dict String → W × List Form → Type 0
  unfolding attempt
  IsAttempted call id validated w =
      IsAccepted call id w
      ⊎ (IsFailure (attempt call id validated w).0
          × OnlyCompiled env client (attempt call id validated w).1)
