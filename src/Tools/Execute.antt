-- ===== src/Tools/Execute.antt =====
-- `run_execute_query` of src/asterixdb_mcp/tools/execute_query.py, with `memory_enabled` at false,
-- where `attach_statement_notes` returns the result as it is. The id's last segment is an argument.
pub mod Authorized
use asterixdb_mcp_server.Prelude.{
  ℕ, ◌≡◌, refl, Bool, true, false, not, ◌&&◌, String, Option, none, some, List, [], ◌∷◌, ◌++◌,
  nat_eq, length, strip, show, join, ◌<>◌, ◌==◌, if◌then◌else◌,
}
use Prim.Native.Char.{Char}
use asterixdb_mcp_server.Prelude.Dict.{Dict}
use asterixdb_mcp_server.Json.{
  Json, str, bool, obj, ℤ, nat, Fields, lookup, set, truthy, of_fields, of_list, array,
}
use asterixdb_mcp_server.Errors.{
  ErrorType, syntax_error, semantic_error, GatewayError, Result, ok, err, crash,
}
use asterixdb_mcp_server.Config.{Settings}
use asterixdb_mcp_server.ContextId.{make_client_context_id}
use asterixdb_mcp_server.CompilerParams.{as_knobs, validate_compiler_parameters}
use asterixdb_mcp_server.StatementGuard.{check_unsupported_functions, normalize_statement}
use asterixdb_mcp_server.TenantPolicy.{check_compiled_plan}
use asterixdb_mcp_server.PlanGuard.{ColumnarAdvisory, to_payload, assess_columnar_scan}
use asterixdb_mcp_server.Egress.{truncation_fields, Truncation}
use asterixdb_mcp_server.Http.{Env, Exec, pure, lift, ◌>>=◌, ◌>>◌}
use asterixdb_mcp_server.QueryForm.{Query, query}
use asterixdb_mcp_server.CcClient.{Client, compile_query, execute}
use asterixdb_mcp_server.Tools.{ToolResult, tool_error, overflow_artifact_payload}
use asterixdb_mcp_server.Tools.AsyncQuery.{Outside}
use asterixdb_mcp_server.Tools.Fetch.{clamp_offset, clamp_limit, rows_of, Page, page_of, set_given}

abbrev pub reference_hint : String
reference_hint =
    "Consult get_reference('errors') for this error code and get_reference('queries') for correct SQL++ patterns."

unfoldable pub is_hinted : ErrorType → Bool
is_hinted syntax_error = true
is_hinted semantic_error = true
is_hinted _ = false

-- `_with_reference_hint`
unfoldable pub with_reference_hint : GatewayError → GatewayError
unfolding is_hinted ◌<>◌
with_reference_hint e =
    if not (is_hinted e.error_type)
    then e
    else record e { message = e.message <> " " <> reference_hint }

-- The arguments of a call.
pub record Arguments : Type 0 where
  pub statement : String
  pub dataverse : Option String
  pub offset : ℤ
  pub limit : ℤ
  pub compiler_parameters : Dict Json
  pub profile : Bool
  pub signature : Bool
  pub max_warnings : ℕ
  pub user_tag : Option String

abbrev pub plan_query : Arguments → String → String → Query
plan_query call effective id = record (query effective id) {
  dataverse = call.dataverse;
  emit_plan = true;
}

abbrev pub run_query : Arguments → String → String → Dict String → Query
unfolding as_knobs
run_query call effective id validated = record (query effective id) {
  dataverse = call.dataverse;
  signature = call.signature;
  profile = call.profile;
  max_warnings = call.max_warnings;
  compiler_parameters = as_knobs validated;
}

abbrev advisory_payload : Option ColumnarAdvisory → Option Fields
unfolding to_payload
advisory_payload none = none
advisory_payload (some a) = some (to_payload a)

abbrev set_if : Bool → String → Json → Fields → Fields
unfolding set
set_if test key value fs = if test then set key value fs else fs

abbrev with_advisory : Option Fields → Fields → Fields
unfolding set of_list
with_advisory none fs = fs
with_advisory (some payload) fs = set "advisories" (array (obj payload ∷ [])) fs

abbrev with_artifact : Option Fields → Fields → Fields
unfolding set
with_artifact none fs = fs
with_artifact (some payload) fs = set "artifact" (obj payload) fs

abbrev part_if : Bool → String → List String
part_if test part = if test then part ∷ [] else []

abbrev is_given : Option Fields → Bool
is_given none = false
is_given (some fs) = true

-- `_summarize`
unfoldable pub summary : ℕ → ℕ → Bool → Option Fields → String
unfolding join show ◌<>◌
summary rows_returned offset more_available advisory =
    join " " (
      ("Returned " <> show rows_returned <> " row(s)")
        ∷ part_if (not (nat_eq offset 0)) ("from offset " <> show offset)
      ++ part_if more_available
          "(more rows available in this result, increase limit or page with offset)"
      ++ part_if (is_given advisory)
          "[columnar full scan flagged — output minimized; project columns or add a WHERE filter to widen]")
    <> "."

-- The answer from the rows of the envelope.
unfoldable pub executed_result :
    Arguments
    → String
    → String
    → Option Fields
    → Fields
    → List Json
    → Page
    → Option Fields
    → ToolResult
unfolding of_fields of_list truncation_fields set_given set_if with_advisory with_artifact summary
    clamp_offset clamp_limit lookup truthy strip
executed_result call effective id advisory envelope rows page artifact =
    let base = of_fields (
      ("status", str "success")
      ∷ ("clientContextID", str id)
      ∷ ("rowsReturned", nat (length page.window))
      ∷ ("rowsAvailableInResponse", nat (length rows))
      ∷ ("offset", nat (clamp_offset call.offset))
      ∷ ("limit", nat (clamp_limit call.limit))
      ∷ ("moreAvailable", bool page.more_available)
      ∷ ("results", array page.window)
      ∷ ("egress", obj (with_artifact artifact (truncation_fields page.truncation)))
      ∷ []) in
    let f1 =
      set_if (not (effective == strip call.statement)) "effectiveStatement" (str effective) base in
    let f2 = set_given "metrics" (lookup "metrics" envelope) f1 in
    let f3 =
      if call.signature then set_given "signature" (lookup "signature" envelope) f2 else f2 in
    let warnings = lookup "warnings" envelope in
    let f4 = set_if (truthy warnings) "warnings" warnings f3 in
    record {
      text = summary (length page.window) (clamp_offset call.offset) page.more_available advisory;
      structured = with_advisory advisory f4;
      is_error = false;
    }

module _ {W : Type 0} (env : Env W) (outside : Outside W) (wide_word : Char → Bool)
    (repr_value : Json → String) (client : Client) (settings : Settings) where
  -- The `try` block, from the validated knobs on.
  unfoldable pub run_authorized :
      Arguments → String → String → Dict String → Exec W (Option ColumnarAdvisory × Fields)
  unfolding compile_query check_compiled_plan assess_columnar_scan execute lookup run_query
  run_authorized call effective id validated = do
    compiled ← compile_query env client (plan_query call effective id)
    lift (check_compiled_plan settings client.principal compiled call.dataverse)
    advisory ← assess_columnar_scan env client id (lookup "plans" compiled) call.dataverse
    envelope ← execute env client (run_query call effective id validated)
    pure (advisory, envelope)

  unfoldable pub deliver_rows :
      Arguments → String → String → Option Fields → Fields → W → ToolResult × W
  unfolding rows_of page_of overflow_artifact_payload executed_result clamp_offset clamp_limit
  deliver_rows call effective id advisory envelope w =
      let rows = rows_of envelope in
      let page =
        page_of outside.row_bytes settings advisory (clamp_offset call.offset)
          (clamp_limit call.limit) rows in
      let (artifact, w') =
        overflow_artifact_payload outside.write_artifact settings page.more_available rows w in
      (executed_result call effective id advisory envelope rows page artifact, w')

  unfoldable pub answered :
      Arguments
      → String
      → String
      → Result (Option ColumnarAdvisory × Fields) × W
      → Result ToolResult × W
  unfolding deliver_rows advisory_payload with_reference_hint tool_error
  answered call effective id (err e, w) = (ok (tool_error (with_reference_hint e)), w)
  answered call effective id (crash, w) = (crash, w)
  answered call effective id (ok (advisory, envelope), w) =
      let (result, w') = deliver_rows call effective id (advisory_payload advisory) envelope w in
      (ok result, w')

  abbrev run_valid :
      Arguments → String → String → Result (Dict String) → Exec W (Option ColumnarAdvisory × Fields)
  unfolding run_authorized
  run_valid call effective id (ok validated) w = run_authorized call effective id validated w
  run_valid call effective id (err e) w = (err e, w)
  run_valid call effective id crash w = (crash, w)

  unfoldable pub execute_query : String → Arguments → Exec W ToolResult
  unfolding answered run_valid normalize_statement check_unsupported_functions
      validate_compiler_parameters make_client_context_id clamp_limit tool_error
  execute_query new_uuid call w = elim (check_unsupported_functions wide_word call.statement) [
    | some e ↦ (ok (tool_error e), w)
    | none ↦
        let id = make_client_context_id settings.agent_session_id call.user_tag new_uuid in
        let effective = normalize_statement wide_word call.statement (clamp_limit call.limit) in
        answered call effective id (
          run_valid call effective id
            (validate_compiler_parameters repr_value call.compiler_parameters) w)
  ]
