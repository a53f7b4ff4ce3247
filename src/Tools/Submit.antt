-- ===== src/Tools/Submit.antt =====
-- `run_submit_async_query` of src/asterixdb_mcp/tools/async_query.py. The id's last segment is an
-- argument; `none` is a submission that has not ended.
pub mod Awaited
pub mod Authorized
use asterixdb_mcp_server.Prelude.{
  ℕ, Bool, true, false, String, Option, none, some, List, [], ◌∷◌, repr, ◌<>◌, if◌then◌else◌,
}
use Prim.Native.Char.{Char}
use asterixdb_mcp_server.Prelude.Dict.{Dict}
use asterixdb_mcp_server.Json.{
  Json, null, str, obj, Fields, lookup, as_str, of_fields, of_list, array, set,
}
use asterixdb_mcp_server.Errors.{GatewayError, Result, ok, err, crash}
use asterixdb_mcp_server.Config.{Settings}
use asterixdb_mcp_server.ContextId.{make_client_context_id}
use asterixdb_mcp_server.CompilerParams.{as_knobs, validate_compiler_parameters}
use asterixdb_mcp_server.StatementGuard.{check_unsupported_functions, normalize_statement}
use asterixdb_mcp_server.TenantPolicy.{check_compiled_plan}
use asterixdb_mcp_server.PlanGuard.{ColumnarAdvisory, to_payload, assess_columnar_scan}
use asterixdb_mcp_server.AuditLog.{AuditEntry, AuditLog, record_entry}
use asterixdb_mcp_server.Permits.{PermitPool}
use asterixdb_mcp_server.Permits.Acquire.{acquire, Body}
use asterixdb_mcp_server.Http.{Env, Exec, pure, lift, ◌>>=◌, ◌>>◌}
use asterixdb_mcp_server.QueryForm.{Query, query}
use asterixdb_mcp_server.CcClient.{Client, compile_query, submit_async}
use asterixdb_mcp_server.Tools.{ToolResult, tool_error}
use asterixdb_mcp_server.Tools.AsyncQuery.{Outside, max_limit, text_or}
use asterixdb_mcp_server.Tools.Wait.{State}

abbrev payload_of : Option ColumnarAdvisory → Option Fields
unfolding to_payload
payload_of none = none
payload_of (some a) = some (to_payload a)

-- The compilation that the tool asks for.
abbrev pub compilation : String → String → Option String → Query
compilation effective id dataverse = record (query effective id) {
  dataverse = dataverse;
  emit_plan = true;
  signature = true;
}

unfoldable pub submitted_entry :
    Settings
    → ℕ
    → String
    → String
    → Option String
    → Fields
    → Option ColumnarAdvisory
    → Fields
    → AuditEntry
unfolding payload_of lookup as_str
submitted_entry settings now id statement dataverse compiled advisory envelope = record {
  client_context_id = id;
  session = settings.agent_session_id;
  statement = statement;
  submitted_at = now;
  handle = as_str (lookup "handle" envelope);
  result_handle = none;
  dataverse = dataverse;
  signature = lookup "signature" compiled;
  advisory = payload_of advisory;
  tool = some "submit_async_query";
  outcome = some "SUBMITTED";
  error_type = none;
  error_message = none;
  rows_returned = none;
}

abbrev advised_fields : Option Fields → Fields → Fields
unfolding set of_list
advised_fields none fs = fs
advised_fields (some payload) fs = set "advisories" (array (obj payload ∷ [])) fs

abbrev advised_note : Option Fields → String
advised_note none = ""
advised_note (some payload) =
    " Note: columnar full scan flagged — fetched output will be minimized."

unfoldable pub submitted_result : String → Option ColumnarAdvisory → Fields → ToolResult
unfolding payload_of advised_fields lookup as_str of_fields
submitted_result id advisory envelope = record {
  text =
      "Submitted async query. Pass clientContextID "
      <> repr id
      <> " to wait_on_async_query, then fetch_query_result."
      <> advised_note (payload_of advisory);
  structured = advised_fields (payload_of advisory) (
      of_fields (
        ("status", str "submitted")
        ∷ ("clientContextID", str id)
        ∷ ("queryStatus", str (text_or "running" (as_str (lookup "status" envelope))))
        ∷ []));
  is_error = false;
}

module _ {W : Type 0} (env : Env W) (outside : Outside W) (wide_word : Char → Bool)
    (repr_value : Json → String) (client : Client) (settings : Settings) where
  -- The part of the `try` block above the permit.
  unfoldable pub prepare :
      String → String → Option String → Exec W (Fields × Option ColumnarAdvisory)
  unfolding compile_query check_compiled_plan assess_columnar_scan lookup
  prepare effective id dataverse = do
    compiled ← compile_query env client (compilation effective id dataverse)
    lift (check_compiled_plan settings client.principal compiled dataverse)
    advisory ← assess_columnar_scan env client id (lookup "plans" compiled) dataverse
    pure (compiled, advisory)

  -- The body under the permit.
  unfoldable pub submitting : String → String → Option String → Dict String → Body W Fields
  unfolding submit_async as_knobs
  submitting effective id dataverse validated (p, w) =
      let (outcome, w') =
        submit_async env client
          (record (query effective id) {
            dataverse = dataverse;
            compiler_parameters = as_knobs validated;
          })
          w in
      some (outcome, (p, w'))

  -- The part below the `try` block.
  unfoldable pub concluded :
      String
      → String
      → Option String
      → Fields
      → Option ColumnarAdvisory
      → AuditLog
      → Option (Result Fields × (PermitPool × W))
      → Option (Result ToolResult × State W)
  unfolding submitted_entry submitted_result record_entry tool_error
  concluded id statement dataverse compiled advisory audit none = none
  concluded id statement dataverse compiled advisory audit (some (err e, (p, w))) =
      some (ok (tool_error e), (p, (audit, w)))
  concluded id statement dataverse compiled advisory audit (some (crash, (p, w))) =
      some (crash, (p, (audit, w)))
  concluded id statement dataverse compiled advisory audit (some (ok envelope, (p, w))) =
      let now = outside.audit_clock w in
      let entry = submitted_entry settings now id statement dataverse compiled advisory envelope in
      some (ok (submitted_result id advisory envelope), (p, (record_entry now entry audit, w)))

  unfoldable pub submit_prepared :
      String
      → String
      → String
      → Option String
      → Dict String
      → Result (Fields × Option ColumnarAdvisory) × W
      → PermitPool
      → AuditLog
      → Option (Result ToolResult × State W)
  unfolding concluded acquire submitting tool_error
  submit_prepared effective id statement dataverse validated (err e, w) p audit =
      some (ok (tool_error e), (p, (audit, w)))
  submit_prepared effective id statement dataverse validated (crash, w) p audit =
      some (crash, (p, (audit, w)))
  submit_prepared effective id statement dataverse validated (ok (compiled, advisory), w) p audit =
      concluded id statement dataverse compiled advisory audit
        (acquire client.principal (submitting effective id dataverse validated) (p, w))

  unfoldable pub submit_valid :
      String
      → String
      → Option String
      → Result (Dict String)
      → State W
      → Option (Result ToolResult × State W)
  unfolding submit_prepared prepare normalize_statement tool_error
  submit_valid id statement dataverse (err e) s = some (ok (tool_error e), s)
  submit_valid id statement dataverse crash s = some (crash, s)
  submit_valid id statement dataverse (ok validated) (p, (audit, w)) =
      let effective = normalize_statement wide_word statement max_limit in
      submit_prepared effective id statement dataverse validated (prepare effective id dataverse w)
        p audit

  unfoldable pub submit_async_query :
      String
      → String
      → Option String
      → Dict Json
      → Option String
      → State W
      → Option (Result ToolResult × State W)
  unfolding submit_valid check_unsupported_functions validate_compiler_parameters
      make_client_context_id tool_error
  submit_async_query new_uuid statement dataverse compiler_parameters user_tag s =
      elim (check_unsupported_functions wide_word statement) [
        | some e ↦ some (ok (tool_error e), s)
        | none ↦
            submit_valid (make_client_context_id settings.agent_session_id user_tag new_uuid)
              statement dataverse (validate_compiler_parameters repr_value compiler_parameters) s
      ]
