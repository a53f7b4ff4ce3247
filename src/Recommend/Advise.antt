-- ===== src/Recommend/Advise.antt =====
-- The advice of the engine: src/asterixdb_mcp/tools/recommend_indexes.py.
use asterixdb_mcp_server.Prelude.{
  ℕ, suc, Bool, true, false, not, String, Option, none, some, List, [], ◌∷◌, ◌++◌, map, take, ltb,
  nat_eq, nonempty, chars, take_text, show, strip, ◌<>◌, ◌&&◌, if◌then◌else◌,
}
use Prim.Native.Char.{Char}
use Prim.Native.String.{compare}
use Prim.Native.Nat.{Ordering}
use asterixdb_mcp_server.Prelude.Dict
use asterixdb_mcp_server.Prelude.Dict.{Dict, values}
use asterixdb_mcp_server.Json.{
  Json, str, arr, obj, Fields, lookup, member, of_fields, to_list, dicts,
}
use asterixdb_mcp_server.Errors.{ErrorType, error_value, invalid_parameter}
use asterixdb_mcp_server.Http.{Env, Exec, pure, try_except}
use asterixdb_mcp_server.QueryForm.{query}
use asterixdb_mcp_server.CcClient.{Client, execute}
use asterixdb_mcp_server.StatementGuard.{
  strip_set_prefix, ends_in_semicolon, check_unsupported_functions,
}
use asterixdb_mcp_server.Recommend.Report.{Recommendation, max_recommendations, parse_advise_ddl}

-- `class _Advice`
pub record Advice : Type 0 where
  pub recommended : List String
  pub current : List String

abbrev statement_of : Json → List String
unfolding strip
statement_of (str s) = strip s ∷ []
statement_of _ = []

unfoldable statements_of : List Fields → List String
unfolding statement_of lookup
statements_of [] = []
statements_of (entry ∷ entries) =
    statement_of (lookup "index_statement" entry) ++ statements_of entries

-- `_index_statements`
unfoldable pub index_statements : Json → List String
unfolding statements_of dicts to_list
index_statements (arr entries) = statements_of (dicts (to_list entries))
index_statements _ = []

-- What one row of the answer advises.
unfoldable pub advice_of : Fields → Option Advice
unfolding index_statements lookup member
advice_of row = elim (member "adviseinfo" (lookup "advice" row)) [
  | obj info ↦ some (record {
    recommended = index_statements (member "indexes" (lookup "recommended_indexes" info));
    current = index_statements (lookup "current_indexes" info);
  })
  | _ ↦ none
]

unfoldable pub first_advice : List Fields → Option Advice
unfolding advice_of
first_advice [] = none
first_advice (row ∷ rows) = elim (advice_of row) [
  | some advice ↦ some advice
  | none ↦ first_advice rows
]

-- `_parse_advise`
unfoldable pub parse_advise : Json → Option Advice
unfolding first_advice dicts to_list
parse_advise (arr rows) = first_advice (dicts (to_list rows))
parse_advise _ = none

module _ {W : Type 0} (env : Env W) (client : Client) where
  -- `_advise_statement`
  unfoldable pub advise_statement : String → String → Option String → Exec W (Option Advice)
  unfolding execute parse_advise lookup strip_set_prefix ◌<>◌
  advise_statement id statement dataverse =
      try_except
        (execute env client
          (record (query ("ADVISE " <> strip_set_prefix statement) id) { dataverse = dataverse }))
        (λ envelope. pure (parse_advise (lookup "results" envelope))) (λ e. pure none)

unfoldable pub advised : String → Recommendation
unfolding parse_advise_ddl ends_in_semicolon ◌<>◌
advised ddl =
    let (dv, ds, key_field) = parse_advise_ddl ddl in
    record {
      source = "advise";
      confidence = "high";
      dataverse = dv;
      dataset = ds;
      field = key_field;
      recommended_ddl = some (if ends_in_semicolon ddl then ddl else ddl <> ";");
      supporting_statements = 0;
      rationale = "";
      candidate = none;
    }

abbrev or_advised : String → Option Recommendation → Recommendation
unfolding advised
or_advised ddl none = advised ddl
or_advised ddl (some r) = r

-- `_accumulate_native`
unfoldable pub accumulate_native : String → Dict Recommendation → Dict Recommendation
unfolding or_advised Dict.get Dict.put
accumulate_native ddl native =
    let r = or_advised ddl (Dict.get ddl native) in
    Dict.put ddl (record r { supporting_statements = suc r.supporting_statements }) native

unfoldable pub accumulate_all : List String → Dict Recommendation → Dict Recommendation
unfolding accumulate_native
accumulate_all [] native = native
accumulate_all (ddl ∷ ddls) native = accumulate_all ddls (accumulate_native ddl native)

abbrev ddl_text : Option String → String
ddl_text none = ""
ddl_text (some ddl) = ddl

-- By `(-supportingStatements, recommendedDDL)`.
unfoldable pub native_before : Recommendation → Recommendation → Bool
native_before a b =
    if ltb b.supporting_statements a.supporting_statements
    then true
    else if ltb a.supporting_statements b.supporting_statements
    then false
    else elim (compare (ddl_text a.recommended_ddl) (ddl_text b.recommended_ddl)) [
      | Ordering.gt ↦ false
      | _ ↦ true
    ]

unfoldable pub insert_native : Recommendation → List Recommendation → List Recommendation
unfolding native_before
insert_native r [] = r ∷ []
insert_native r (s ∷ ss) = elim (native_before r s) [
  | true ↦ r ∷ s ∷ ss
  | false ↦ s ∷ insert_native r ss
]

unfoldable pub sort_native : List Recommendation → List Recommendation
unfolding insert_native
sort_native [] = []
sort_native (r ∷ rs) = insert_native r (sort_native rs)

unfoldable pub with_rationale : Recommendation → Recommendation
unfolding show ◌<>◌
with_rationale r = record r {
  rationale =
      "AsterixDB's cost-based advisor (ADVISE) recommends this index for "
      <> show r.supporting_statements
      <> " workload statement(s).";
}

-- `_native_recommendations`
unfoldable pub native_recommendations : Dict Recommendation → List Recommendation
unfolding sort_native with_rationale
native_recommendations native = sort_native (map with_rationale (values native))

-- `_merge`
unfoldable pub merge_recommendations :
    Dict Recommendation → List Recommendation → List Recommendation
unfolding native_recommendations
merge_recommendations native heuristic =
    take max_recommendations (native_recommendations native ++ heuristic)

-- `_skip`
unfoldable pub skip : String → ErrorType → String → Fields
unfolding of_fields error_value strip ◌<>◌
skip statement error_type message =
    let preview = strip statement in
    of_fields (
      (
        "statement",
        str (if ltb 120 (chars preview) then take_text 117 preview <> "..." else preview),
      )
      ∷ ("errorType", str (error_value error_type))
      ∷ ("reason", str message)
      ∷ [])

-- `_guard`
unfoldable pub guard : (Char → Bool) → String → Option Fields
unfolding skip strip_set_prefix strip check_unsupported_functions
guard wide_word statement =
    let cleaned = strip_set_prefix statement in
    if not (nonempty (strip cleaned))
    then some (skip statement invalid_parameter "Empty statement.")
    else elim (check_unsupported_functions wide_word cleaned) [
      | none ↦ none
      | some e ↦ some (skip statement invalid_parameter e.message)
    ]

-- `method`, from the statements that the advisor answered and those that were analyzed
unfoldable pub method : ℕ → ℕ → String
method native_used analyzed =
    if nat_eq native_used analyzed && ltb 0 analyzed
    then "advise"
    else if nat_eq native_used 0
    then "heuristic"
    else "mixed"
