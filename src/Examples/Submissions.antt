-- ===== src/Examples/Submissions.antt =====
-- The tuning knobs, the guard of statements and the submission of a query, on concrete data.
use asterixdb_mcp_server.Prelude.{◌≡◌, refl, Bool, true, false, String, none, [], ◌∷◌, show}
use Prim.Native.Char.{Char}
use asterixdb_mcp_server.Prelude.Dict
use asterixdb_mcp_server.Prelude.Dict.{Dict}
use asterixdb_mcp_server.Json.{Json, bool, str}
use asterixdb_mcp_server.Errors.{ok}
use asterixdb_mcp_server.QueryForm.{query, build_query_form}
use asterixdb_mcp_server.CompilerParams.{known_parameters, as_knobs, validate_compiler_parameters}
use asterixdb_mcp_server.CompilerParams.Canonical.{
  Answers, validate_compiler_parameters-Answers, validated_knobs-own_fields,
}
use asterixdb_mcp_server.StatementGuard.{after_set, strip_set_prefix}
use asterixdb_mcp_server.StatementGuard.NoSet.{strip_set_prefix-none}

abbrev no_text : Json → String
no_text v = ""

abbrev no_wide : Char → Bool
no_wide c = false

abbrev knobs : Dict Json
knobs = ("compiler.parallelism", str " 8 ") ∷ ("compiler.cbo", bool true) ∷ []

abbrev valid_knobs : Dict String
valid_knobs = ("compiler.parallelism", "8") ∷ ("compiler.cbo", "true") ∷ []

knobs_valid : validate_compiler_parameters no_text knobs ≡ ok valid_knobs
unfolding validate_compiler_parameters show
knobs_valid = refl

validate_compiler_parameters-Answers_example :
    Answers knobs "compiler.cbo" (Dict.get "compiler.cbo" valid_knobs)
validate_compiler_parameters-Answers_example =
    validate_compiler_parameters-Answers no_text knobs valid_knobs knobs_valid "compiler.cbo"

validated_knobs-own_fields_example :
    Dict.get "statement" (
      build_query_form no_text no_text "5ms"
        (record (query "SELECT 1;" "alpha::_::u1") { compiler_parameters = as_knobs valid_knobs }))
    ≡ Dict.get "statement" (
        build_query_form no_text no_text "5ms"
          (record (query "SELECT 1;" "alpha::_::u1") { compiler_parameters = [] }))
unfolding known_parameters Dict.get
validated_knobs-own_fields_example =
    validated_knobs-own_fields no_text no_text no_text "5ms" (query "SELECT 1;" "alpha::_::u1")
      knobs valid_knobs knobs_valid "statement" refl

abbrev sly : String
sly = "SET a 1; SELECT x FROM t"

strip_set_prefix-none_example : after_set (strip_set_prefix sly) ≡ none
strip_set_prefix-none_example = strip_set_prefix-none sly
