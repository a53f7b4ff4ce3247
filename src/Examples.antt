-- ===== src/Examples.antt =====
-- A tenant, a plan, a log, a pool and a client, for the tests and for the theorems' instances.
pub mod Plans
pub mod Clients
pub mod Waits
pub mod Submissions
pub mod Notes
pub mod Workloads
use asterixdb_mcp_server.Prelude.{
  ℕ, ◌+◌, zero, suc, Bool, true, false, String, Option, none, some, List, [], ◌∷◌,
}
use asterixdb_mcp_server.Prelude.Dict.{Dict}
use asterixdb_mcp_server.Json.{Json, null, str, arr, obj, Items, nil, cons, Fields, end, field}
use asterixdb_mcp_server.Config.{Settings}
use asterixdb_mcp_server.Http.{Form, Transport, response, stale, Env}
use asterixdb_mcp_server.Permits.{PermitPool}
use asterixdb_mcp_server.AuditLog.{AuditEntry, AuditLog}
use asterixdb_mcp_server.CcClient.{Client}
use asterixdb_mcp_server.Tools.AsyncQuery.{Outside}

abbrev pub the_settings : Settings
the_settings = record {
  cc_shared_secret = some "s3cret";
  agent_session_id = "alpha";
  memory_enabled = true;
  memory_write_enabled = false;
  max_time_ms = 30000;
  max_bytes_per_query = 1000;
  sync_permits = 2;
  async_permits = 2;
  max_concurrent_waits = 2;
  permits_per_principal = 1;
  dataverse_allowlist = some (("alice", "Yelp" ∷ []) ∷ []);
  max_wait_ms = 5;
  wait_poll_interval_ms = 2;
  audit_log_ttl_s = 60;
  max_rows_to_llm = 10;
  max_bytes_to_llm = 100;
  max_field_chars = 20;
  artifacts_enabled = false;
  auth_mode = "none";
}

abbrev pub scan_node : Fields
scan_node = field "operator" (str "data-scan") (field "data-source" (str "Yelp.Business") end)

abbrev pub root_node : Fields
root_node =
    field "operator" (str "distribute-result") (field "inputs" (arr (cons (obj scan_node) nil)) end)

abbrev pub the_plans : Fields
the_plans = field "optimizedLogicalPlan" (obj root_node) end

abbrev pub compiled : Fields
compiled = field "status" (str "success") (field "plans" (obj the_plans) end)

abbrev pub the_pool : PermitPool
the_pool = record { capacity = 2; name = "result wait"; per_principal = 1; in_use = 0; held = [] }

abbrev pub submitted : AuditEntry
submitted = record {
  client_context_id = "alpha::_::u1";
  session = "alpha";
  statement = "SELECT 1;";
  submitted_at = 3;
  handle = some "/status/1";
  result_handle = none;
  dataverse = none;
  signature = null;
  advisory = none;
  tool = some "submit_async_query";
  outcome = some "SUBMITTED";
  error_type = none;
  error_message = none;
  rows_returned = none;
}

abbrev pub the_log : AuditLog
the_log = record { ttl_s = 60; entries = ("alpha::_::u1", submitted) ∷ [] }

abbrev pub the_client : Client
the_client = record { settings = the_settings; principal = some "alice" }

abbrev first_stale : ℕ → Transport
first_stale zero = stale "reset"
first_stale (suc w) = response 200 []

-- A world that counts its requests; the first connection is stale.
abbrev pub the_env : Env ℕ
the_env = record {
  post = λ path form headers w. (first_stale w, suc w);
  get = λ path params headers w. (response 200 (1 ∷ []), suc w);
  delete = λ path params headers w. (response 200 [], suc w);
  loads = λ body. some (obj (field "status" (str "running") end));
  dumps = λ v. "null";
  container_text = λ v. "[]";
}

abbrev pub the_outside : Outside ℕ
the_outside = record {
  clock = λ w. w;
  audit_clock = λ w. w;
  sleep = λ ms w. w + ms;
  write_artifact = λ rows w. (end, w);
  row_bytes = λ row. 30;
}

-- The same, beside a record of the forms that were posted.
abbrev pub recorded_outside : Outside (ℕ × List Form)
recorded_outside = record {
  clock = λ (w, posted). w;
  audit_clock = λ (w, posted). w;
  sleep = λ ms (w, posted). (w + ms, posted);
  write_artifact = λ rows w. (end, w);
  row_bytes = λ row. 30;
}
