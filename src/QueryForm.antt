-- ===== src/QueryForm.antt =====
-- The form of a request to /query/service: `_build_query_form` of src/asterixdb_mcp/cc_client.py.
pub mod Enforced
use asterixdb_mcp_server.Prelude.{
  ℕ, suc, Bool, true, false, String, Option, none, some, List, [], ◌∷◌, nonempty, show, ◌<>◌,
  if◌then◌else◌,
}
use asterixdb_mcp_server.Prelude.Dict
use asterixdb_mcp_server.Prelude.Dict.{Dict}
use asterixdb_mcp_server.Json.{Json, null, bool, int, float, str, arr, obj, ℤ, pos, negsuc}
use asterixdb_mcp_server.Http.{Form}

unfoldable pub bool_param : Bool → String
bool_param true = "true"
bool_param false = "false"

-- `str(n)`
unfoldable pub int_text : ℤ → String
int_text (pos n) = show n
int_text (negsuc n) = "-" <> show (suc n)

-- `_scalar_param`; the text of a list or a dict is the parameter's.
unfoldable pub scalar_param : (Json → String) → Json → String
unfolding bool_param int_text
scalar_param container_text (bool b) = bool_param b
scalar_param container_text (str s) = s
scalar_param container_text (int n) = int_text n
scalar_param container_text (float x) = x.literal
scalar_param container_text null = "None"
scalar_param container_text (arr vs) = container_text (arr vs)
scalar_param container_text (obj fs) = container_text (obj fs)

-- The keyword arguments. `None` and an empty dict of parameters are one to the code.
pub record Query : Type 0 where
  pub statement : String
  pub client_context_id : String
  pub dataverse : Option String
  pub signature : Bool
  pub profile : Bool
  pub max_warnings : ℕ
  pub compiler_parameters : Dict Json
  pub statement_parameters : Dict Json
  pub mode : Option String
  pub compile_only : Bool
  pub emit_plan : Bool
  pub emit_unoptimized_plan : Bool
  pub emit_job : Bool

-- A call that gives a statement and its id, and leaves the other arguments at their defaults.
abbrev pub query : String → String → Query
query statement client_context_id = record {
  statement = statement;
  client_context_id = client_context_id;
  dataverse = none;
  signature = false;
  profile = false;
  max_warnings = 5;
  compiler_parameters = [];
  statement_parameters = [];
  mode = none;
  compile_only = false;
  emit_plan = false;
  emit_unoptimized_plan = false;
  emit_job = false;
}

-- `if value: form[key] = value`
put_text : String → Option String → Form → Form
put_text key none form = form
put_text key (some s) form = if nonempty s then Dict.put key s form else form

put_if : Bool → String → String → Form → Form
put_if test key value form = if test then Dict.put key value form else form

-- `for key, value in parameters.items(): form[prefix + key] = text(value)`
put_all : String → (Json → String) → Dict Json → Form → Form
put_all prefix text [] form = form
put_all prefix text ((key, value) ∷ rest) form =
    put_all prefix text rest (Dict.put (prefix <> key) (text value) form)

module _ (dumps container_text : Json → String) where
  -- The form up to the parameters.
  unfoldable pub base_form : Query → Form
  unfolding put_text put_if bool_param
  base_form q =
      let f0 : Form =
        ("statement", q.statement)
        ∷ ("client_context_id", q.client_context_id)
        ∷ ("signature", bool_param q.signature)
        ∷ ("max-warnings", show q.max_warnings)
        ∷ [] in
      let f1 = put_text "dataverse" q.dataverse f0 in
      let f2 = put_if q.profile "profile" "timings" f1 in
      let f3 = put_text "mode" q.mode f2 in
      let f4 = put_if q.compile_only "compile-only" "true" f3 in
      let f5 = put_if q.emit_plan "optimized-logical-plan" "true" f4 in
      let f6 = put_if q.emit_plan "plan-format" "clean_json" f5 in
      let f7 = put_if q.emit_unoptimized_plan "logical-plan" "true" f6 in
      let f8 = put_if q.emit_unoptimized_plan "plan-format" "clean_json" f7 in
      let f9 = put_if q.emit_job "job" "true" f8 in put_if q.emit_job "hyracks-job-format" "json" f9

  unfoldable pub with_parameters : Query → Form
  unfolding put_all scalar_param base_form
  with_parameters q =
      put_all "$" dumps q.statement_parameters
        (put_all "" (scalar_param container_text) q.compiler_parameters (base_form q))

  -- `timeout` is the text that `format_timeout` makes of the settings.
  unfoldable pub build_query_form : String → Query → Form
  unfolding with_parameters
  build_query_form timeout q =
      Dict.put "timeout" timeout (Dict.put "readonly" "true" (with_parameters q))
