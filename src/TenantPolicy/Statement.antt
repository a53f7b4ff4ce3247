-- ===== src/TenantPolicy/Statement.antt =====
-- `authorize_statement` of src/asterixdb_mcp/tenant_policy.py: a compilation, and the check of its plan.
pub mod CompilesOnly
use asterixdb_mcp_server.Prelude.{Bool, true, false, not, String, Option, none, some, if◌then◌else◌}
use asterixdb_mcp_server.Json.{Fields}
use asterixdb_mcp_server.Errors.{Result, ok, err, crash}
use asterixdb_mcp_server.Config.{Settings}
use asterixdb_mcp_server.Http.{Env, Exec, pure, lift, ◌>>=◌}
use asterixdb_mcp_server.QueryForm.{Query, query}
use asterixdb_mcp_server.CcClient.{Client, compile_query}
use asterixdb_mcp_server.TenantPolicy.{is_enforced, check_compiled_plan}

-- The compilation that is asked for.
abbrev pub compilation : String → Option String → String → Query
compilation statement dataverse ccid = record (query statement ccid) {
  dataverse = dataverse;
  emit_plan = true;
}

module _ {W : Type 0} (env : Env W) (client : Client) (settings : Settings) where
  unfoldable pub authorize_compiled : String → Option String → String → Exec W (Unit {0})
  unfolding check_compiled_plan compile_query
  authorize_compiled statement dataverse ccid = do
    envelope ← compile_query env client (compilation statement dataverse ccid)
    lift (check_compiled_plan settings client.principal envelope dataverse)

  unfoldable pub authorize_statement : String → Option String → String → Exec W (Unit {0})
  unfolding authorize_compiled is_enforced
  authorize_statement statement dataverse ccid =
      if not (is_enforced settings) then pure tt else authorize_compiled statement dataverse ccid
