-- ===== src/PlanGuard.antt =====
-- The columnar full-scan advisory: src/asterixdb_mcp/plan_guard.py, and the format of a dataset as
-- src/asterixdb_mcp/tools/get_schema.py reads it from the metadata. A set of names is a list.
use asterixdb_mcp_server.Prelude.{
  Bool, true, false, ◌||◌, String, Option, none, some, List, [], ◌∷◌, map, keep, join, lower, ◌<>◌,
  ◌==◌, if◌then◌else◌,
}
use asterixdb_mcp_server.Prelude.Dict
use asterixdb_mcp_server.Prelude.Sorted.{sorted_set}
use asterixdb_mcp_server.Json.{
  Json, str, arr, obj, Fields, find, lookup, of_fields, of_list, array, truthy, dicts, to_list,
}
use asterixdb_mcp_server.Errors.{Result, ok, crash}
use asterixdb_mcp_server.Http.{Env, Exec, pure, lift, ◌>>=◌, try_except}
use asterixdb_mcp_server.QueryForm.{query}
use asterixdb_mcp_server.Envelope.{py_text}
use asterixdb_mcp_server.CcClient.{Client, execute}
use asterixdb_mcp_server.PlanParser.{
  ParsedPlan, contains, parse_optimized_plan, datasets_from_sources,
}

abbrev pub format_query : String
format_query =
    "SELECT VALUE d FROM Metadata.`Dataset` d WHERE d.DataverseName = $dv AND d.DatasetName = $ds;"

pub record ColumnarAdvisory : Type 0 where
  pub datasets : List String
  pub message : String

-- `to_payload`
unfoldable pub to_payload : ColumnarAdvisory → Fields
unfolding of_fields of_list
to_payload a = of_fields (
    ("type", str "COLUMNAR_FULL_SCAN")
    ∷ ("datasets", array (map str a.datasets))
    ∷ ("message", str a.message)
    ∷ [])

unfoldable pub advisory_message : String → String
advisory_message names =
    "Query scanned the entire COLUMNAR dataset(s) " <> names
    <> " with no column projection or filter. Columnar storage is expensive to read whole, so this is slower and costlier than needed. The query still ran and results are below, but the output was minimized to protect the context window. To run it faster and see more rows, project only the columns you need (SELECT col1, col2, ... not SELECT *) or add a WHERE filter. Call get_schema to see the available columns."

unfoldable pub full_name : String × String → String
full_name (dv, ds) = dv <> "." <> ds

-- `scanned_columnar`: the names the plan scans that are known to be columnar
unfoldable pub scanned_columnar : ParsedPlan → List String → List String
unfolding contains full_name datasets_from_sources
scanned_columnar parsed columnar_full_names =
    keep (λ name. contains name columnar_full_names)
      (map full_name (datasets_from_sources parsed.data_sources none))

has_key : String → ParsedPlan → Bool
has_key operator parsed = elim (Dict.get operator parsed.operator_counts) [
  | none ↦ false
  | some n ↦ true
]

unfoldable pub is_restricted : ParsedPlan → Bool
unfolding has_key
is_restricted parsed = has_key "project" parsed || has_key "select" parsed

abbrev advisory_for : Bool → List String → Option ColumnarAdvisory
unfolding advisory_message
advisory_for restricted [] = none
advisory_for restricted (name ∷ names) =
    if restricted
    then none
    else some
        (record { datasets = name ∷ names; message = advisory_message (join ", " (name ∷ names)) })

unfoldable pub check_columnar_scan : ParsedPlan → List String → Option ColumnarAdvisory
unfolding advisory_for is_restricted scanned_columnar
check_columnar_scan parsed [] = none
check_columnar_scan parsed (name ∷ names) =
    advisory_for (is_restricted parsed) (sorted_set (scanned_columnar parsed (name ∷ names)))

-- `[r for r in (envelope.get("results") or []) if isinstance(r, dict)]`; a number cannot be iterated,
-- and a text or a dict has no dict among its parts.
unfoldable pub result_dicts : Json → Result (List Fields)
unfolding dicts to_list truthy
result_dicts (arr vs) = ok (dicts (to_list vs))
result_dicts (str s) = ok []
result_dicts (obj fs) = ok []
result_dicts v = if truthy v then crash else ok []

-- `extract_dataset_format_info(row).get("format") == "COLUMNAR"`
unfoldable pub is_columnar : (Json → String) → Fields → Bool
unfolding lookup find py_text lower
is_columnar container_text row = elim (lookup "DatasetFormat" row) [
  | obj block ↦ elim (find "Format" block) [
    | none ↦ false
    | some v ↦ lower (py_text container_text v) == "column"
  ]
  | _ ↦ false
]

first_is_columnar : (Json → String) → List Fields → Bool
unfolding is_columnar
first_is_columnar container_text [] = false
first_is_columnar container_text (row ∷ rows) = is_columnar container_text row

module _ {W : Type 0} (env : Env W) (client : Client) where
  -- The body of the loop of `_columnar_datasets`, for the names found so far.
  unfoldable pub note_dataset : String → String × String → List String → Exec W (List String)
  unfolding execute result_dicts first_is_columnar full_name lookup try_except
  note_dataset ccid (dv, ds) columnar =
      try_except
        (execute env client (record (query format_query ccid) {
          statement_parameters = ("dv", str dv) ∷ ("ds", str ds) ∷ [];
        }))
        (λ envelope. do
          rows ← lift (result_dicts (lookup "results" envelope))
          pure (
              if first_is_columnar env.container_text rows
              then full_name (dv, ds) ∷ columnar
              else columnar))
        (λ e. pure columnar)

  unfoldable pub columnar_datasets :
      String → List (String × String) → List String → Exec W (List String)
  unfolding note_dataset
  columnar_datasets ccid [] columnar = pure columnar
  columnar_datasets ccid (pair ∷ pairs) columnar = do
    noted ← note_dataset ccid pair columnar
    columnar_datasets ccid pairs noted

  assess_datasets : String → ParsedPlan → List (String × String) → Exec W (Option ColumnarAdvisory)
  unfolding columnar_datasets check_columnar_scan
  assess_datasets ccid parsed [] = pure none
  assess_datasets ccid parsed (pair ∷ pairs) = do
    columnar ← columnar_datasets ccid (pair ∷ pairs) []
    pure (check_columnar_scan parsed columnar)

  unfoldable pub assess_columnar_scan :
      String → Json → Option String → Exec W (Option ColumnarAdvisory)
  unfolding assess_datasets parse_optimized_plan datasets_from_sources
  assess_columnar_scan ccid plans default_dataverse = elim (parse_optimized_plan plans) [
    | none ↦ pure none
    | some parsed ↦
        assess_datasets ccid parsed (datasets_from_sources parsed.data_sources default_dataverse)
  ]
