-- ===== src/Recommend/Observe.antt =====
-- What a statement's plans say of the fields it filters: `_analyze_statement` and what it calls, of
-- src/asterixdb_mcp/tools/recommend_indexes.py, and the catalog's read of index_catalog.py.
use asterixdb_mcp_server.Prelude.{
  ℕ, zero, suc, ◌-◌, ◌≡◌, refl, Bool, true, false, not, ◌&&◌, ◌||◌, String, Option, none, some,
  List, [], ◌∷◌, ◌++◌, map, nat_eq, nonempty, chars, strip_left, is_space, if◌then◌else◌,
}
use Prim.Native.Char.{code}
use asterixdb_mcp_server.Prelude.Dict
use asterixdb_mcp_server.Prelude.Dict.{Dict}
use asterixdb_mcp_server.Json.{Json, null, str, arr, obj, cons, Fields, lookup, as_str}
use asterixdb_mcp_server.Errors.{internal, GatewayError}
use asterixdb_mcp_server.Errors.Classify.{classify_cc_error}
use asterixdb_mcp_server.Http.{Env, Exec, pure, lift, try_except, ◌>>=◌}
use asterixdb_mcp_server.QueryForm.{Query, query}
use asterixdb_mcp_server.CcClient.{Client, compile_query, execute}
use asterixdb_mcp_server.StatementGuard.{strip_set_prefix}
use asterixdb_mcp_server.PlanGuard.{result_dicts}
use asterixdb_mcp_server.PlanParser.{
  PlanOperator, node, Operators, leaf, child, ParsedPlan, parse_plan, parse_optimized_plan,
  datasets_from_sources, dedupe_preserving_order,
}
use asterixdb_mcp_server.Recommend.{SecondaryIndex, parse_index_row, Observation}
use asterixdb_mcp_server.Recommend.Report.{up_to, expect}
use asterixdb_mcp_server.Recommend.Advise.{skip}

abbrev pub unoptimized_plan_key : String
unoptimized_plan_key = "logicalPlan"

-- What follows the text, if `s` begins with it.
unfoldable pub after_text : String → String → Option String
after_text String.[] s = some s
after_text (String.◌∷◌ a p) String.[] = none
after_text (String.◌∷◌ a p) (String.◌∷◌ c s) = elim (nat_eq (code a) (code c)) [
  | true ↦ after_text p s
  | false ↦ none
]

abbrev bind : {A B : Type 0} → Option A → (A → Option B) → Option B
bind none f = none
bind (some a) f = f a

-- `[^,()]+,`, given whether a character was read
unfoldable pub after_argument : Bool → String → Option String
after_argument some_read String.[] = none
after_argument some_read (String.◌∷◌ c s) = elim (nat_eq (code c) b'(' || nat_eq (code c) b')') [
  | true ↦ none
  | false ↦ elim (nat_eq (code c) b',') [
    | true ↦ if some_read then some s else none
    | false ↦ after_argument true s
  ]
]

-- A name that is not empty, and what follows its closing character.
abbrev named : Option (String × String) → Option (String × String)
named none = none
named (some (name, rest)) = if nonempty name then some (name, rest) else none

-- `AString:\s*\{([^}]+)\}` or `"([^"]+)"`
abbrev first_of : {A : Type 0} → Option A → Option A → Option A
first_of none other = other
first_of (some a) other = some a

unfoldable pub field_name : String → Option (String × String)
unfolding after_text expect up_to strip_left is_space
field_name s =
    first_of
      (bind (after_text "AString:" s)
        λ s1. bind (expect b'{' (strip_left is_space s1)) λ s2. named (up_to b'}' s2))
      (bind (expect b'"' s) λ s1. named (up_to b'"' s1))

-- `_FIELD_ACCESS_RE` at the start of a text: the field, and what follows the match.
unfoldable pub match_access : String → Option (String × String)
unfolding after_text after_argument field_name strip_left is_space expect
match_access s = bind (after_text "field-access-by-name(" s) λ s1.
    bind (after_argument false s1) λ s2.
      bind (field_name (strip_left is_space s2))
        λ (name, s3). bind (expect b')' s3) λ rest. some (name, rest)

-- `findall`; `left` characters of a match are still to be passed.
unfoldable pub accesses : ℕ → String → List String
unfolding match_access
accesses left String.[] = []
accesses (suc left) (String.◌∷◌ c s) = accesses left s
accesses zero (String.◌∷◌ c s) = elim (match_access (String.◌∷◌ c s)) [
  | none ↦ accesses zero s
  | some (name, rest) ↦ name ∷ accesses (chars s - chars rest) s
]

unfoldable pub all_accesses : List String → List String
unfolding accesses
all_accesses [] = []
all_accesses (p ∷ ps) = accesses zero p ++ all_accesses ps

-- `extract_fields_from_predicates`
unfoldable pub extract_fields_from_predicates : List String → List String
unfolding all_accesses dedupe_preserving_order
extract_fields_from_predicates predicates = dedupe_preserving_order (all_accesses predicates)

-- The walk of `_all_predicates`: a stack, so the last input of a node comes first.
unfoldable mutual
  pub predicates_of : PlanOperator → List String
  predicates_of (node o inputs) = o.predicates ++ predicates_below inputs

  pub predicates_below : Operators → List String
  predicates_below leaf = []
  predicates_below (child p rest) = predicates_below rest ++ predicates_of p

abbrev all_predicates : ParsedPlan → List String
unfolding predicates_of dedupe_preserving_order
all_predicates parsed = dedupe_preserving_order (predicates_of parsed.root)

abbrev counted : String → ParsedPlan → Bool
unfolding Dict.get
counted kind parsed = elim (Dict.get kind parsed.operator_counts) [ none ↦ false | some n ↦ true ]

abbrev plan_or : Option ParsedPlan → ParsedPlan → ParsedPlan
plan_or none optimized = optimized
plan_or (some unoptimized) optimized = unoptimized

-- Fields are attributed to one dataset only.
abbrev attributed : {A : Type 0} → List A → List String → List String
unfolding extract_fields_from_predicates
attributed (d ∷ []) predicates = extract_fields_from_predicates predicates
attributed _ predicates = []

-- `_observe`
unfoldable pub observe : ParsedPlan → Option ParsedPlan → Option String → List Observation
unfolding all_predicates attributed counted datasets_from_sources
observe optimized unoptimized dataverse =
    let datasets = datasets_from_sources optimized.data_sources dataverse in
    let predicates = all_predicates (plan_or unoptimized optimized) in
    let fields = attributed datasets predicates in
    let full_scan = counted "data-scan" optimized && not (counted "unnest-map" optimized) in
    map
      (λ (dv, ds). record {
        dataverse = dv;
        dataset = ds;
        full_scan = full_scan;
        fields = fields;
        predicates = predicates;
      })
      datasets

abbrev code_text : Option String → Json
code_text none = null
code_text (some s) = str s

abbrev message_or : Option String → String
message_or none = "AsterixDB returned an error."
message_or (some s) = s

-- `_classify_envelope_error` of this module
unfoldable pub envelope_error : Fields → Option GatewayError
unfolding lookup as_str classify_cc_error
envelope_error envelope = elim (lookup "errors" envelope) [
  | arr (cons (obj first) rest) ↦ some (
      classify_cc_error (code_text (as_str (lookup "code" first)))
        (message_or (as_str (lookup "msg" first))))
  | _ ↦ none
]

-- The observations of a statement, or the record of why there are none.
pub data Analysis : Type 0 where
  observed : List Observation → Analysis
  skipped : Fields → Analysis

unfoldable pub analysis_of : String → Option String → Fields → Analysis
unfolding envelope_error parse_optimized_plan parse_plan observe skip lookup
analysis_of statement dataverse envelope = elim (envelope_error envelope) [
  | some e ↦ skipped (skip statement e.error_type e.message)
  | none ↦ elim (parse_optimized_plan (lookup "plans" envelope)) [
    | none ↦ skipped (skip statement internal "No optimized plan returned.")
    | some optimized ↦
        observed
          (observe optimized (parse_plan (lookup "plans" envelope) unoptimized_plan_key) dataverse)
  ]
]

unfoldable pub parsed_indexes : (Json → String) → List Fields → List SecondaryIndex
unfolding parse_index_row
parsed_indexes container_text [] = []
parsed_indexes container_text (row ∷ rows) =
    let rest = parsed_indexes container_text rows in
    elim (parse_index_row container_text (obj row)) [ none ↦ rest | some index ↦ index ∷ rest ]

abbrev pub all_secondary_indexes_query : String
all_secondary_indexes_query =
    "SELECT VALUE i FROM Metadata.`Index` i WHERE i.IsPrimary = false AND (i.IndexStructure IS UNKNOWN OR i.IndexStructure != \"SAMPLE\");"

abbrev pub dataverse_indexes_query : String
dataverse_indexes_query =
    "SELECT VALUE i FROM Metadata.`Index` i WHERE i.IsPrimary = false AND (i.IndexStructure IS UNKNOWN OR i.IndexStructure != \"SAMPLE\") AND i.DataverseName = $dv;"

abbrev pub indexes_query : String → Option String → Query
indexes_query id none = query all_secondary_indexes_query id
indexes_query id (some dv) = record (query dataverse_indexes_query id) {
  statement_parameters = ("dv", str dv) ∷ [];
}

module _ {W : Type 0} (env : Env W) (client : Client) where
  -- `_analyze_statement`
  unfoldable pub analyze_statement : String → String → Option String → Exec W Analysis
  unfolding compile_query analysis_of skip strip_set_prefix
  analyze_statement id statement dataverse =
      try_except
        (compile_query env client (record (query (strip_set_prefix statement) id) {
          dataverse = dataverse;
          emit_plan = true;
          emit_unoptimized_plan = true;
        }))
        (λ envelope. pure (analysis_of statement dataverse envelope))
        (λ e. pure (skipped (skip statement e.error_type e.message)))

  -- `fetch_secondary_indexes`
  unfoldable pub fetch_secondary_indexes : String → Option String → Exec W (List SecondaryIndex)
  unfolding execute result_dicts parsed_indexes lookup
  fetch_secondary_indexes id dataverse =
      try_except (execute env client (indexes_query id dataverse))
        (λ envelope. do
          rows ← lift (result_dicts (lookup "results" envelope))
          pure (parsed_indexes env.container_text rows))
        (λ e. pure [])

test_fields :
    extract_fields_from_predicates (
      "eq(field-access-by-name($$a, AString: {city}), field-access-by-name($$b, \"stars\"))"
      ∷ "gt(field-access-by-name($$a, AString: {city}), 3)" ∷ [])
    ≡ "city" ∷ "stars" ∷ []
unfolding extract_fields_from_predicates
test_fields = refl
