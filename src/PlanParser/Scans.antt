-- ===== src/PlanParser/Scans.antt =====
-- A plan as the cluster sends it, and the sources that the parser finds in it.
use asterixdb_mcp_server.Prelude.{
  ◌≡◌, refl, inl, inr, String, some, [], arith, ◌==◌, Has, Bool-cases, Has-append_left,
  Has-append_right,
}
use asterixdb_mcp_server.Json.{
  null, bool, int, float, str, arr, obj, Items, nil, cons, Fields, end, field, lookup, as_str,
  to_list,
}
use asterixdb_mcp_server.PlanParser.{
  ParsedPlan, add_source, collect, operator_of, parse_inputs, parse_items, parse_node, parse_root,
  parse_plan, dedupe_preserving_order,
}
use asterixdb_mcp_server.PlanParser.Counts.{sources_of, sources_all, start, collect_lem}
use asterixdb_mcp_server.PlanParser.Sources.{dedupe_preserving_order_lem}

-- The operator node, or one below it by way of `inputs`, names `source` as its data source.
pub data Scans (source : String) : Fields → Type 0 where
  at_node : {fs : Fields} → lookup "data-source" fs ≡ str source → Scans source fs
  below :
      {fs : Fields} (vs : Items) (input : Fields)
      → lookup "inputs" fs ≡ arr vs
      → Has (obj input) (to_list vs)
      → Scans source input
      → Scans source fs

parse_inputs-lookup :
    (fs : Fields) (vs : Items) → lookup "inputs" fs ≡ arr vs → parse_inputs fs ≡ parse_items vs
unfolding lookup parse_inputs
parse_inputs-lookup end vs h = cc
parse_inputs-lookup (field k v fs) vs h = elim (Bool-cases (k == "inputs")) [
  | inl e ↦ let v_arr : v ≡ arr vs = rw e at h in rw (e, parse_inputs, v_arr)
  | inr e ↦ rw (e, parse_inputs) (parse_inputs-lookup fs vs (rw e at h))
]

scanned_item :
    (source : String) (input : Fields) (vs : Items)
    → Has (obj input) (to_list vs)
    → Has source (sources_of (parse_node input))
    → Has source (sources_all (parse_items vs))
unfolding to_list parse_node sources_of
scanned_item source input nil m s = elim m [ ]
scanned_item source input (cons (obj fs) vs) (inl e) s =
    Has-append_left source (sources_of (parse_node fs)) (sources_all (parse_items vs))
      (rw (fields_eq) s)
  where
    fields_eq : fs ≡ input
    fields_eq = cc
scanned_item source input (cons (obj fs) vs) (inr m) s =
    Has-append_right source (sources_of (parse_node fs)) (sources_all (parse_items vs))
      (scanned_item source input vs m s)
scanned_item source input (cons null vs) (inl e) s = cc
scanned_item source input (cons null vs) (inr m) s = scanned_item source input vs m s
scanned_item source input (cons (bool b) vs) (inl e) s = cc
scanned_item source input (cons (bool b) vs) (inr m) s = scanned_item source input vs m s
scanned_item source input (cons (int n) vs) (inl e) s = cc
scanned_item source input (cons (int n) vs) (inr m) s = scanned_item source input vs m s
scanned_item source input (cons (float x) vs) (inl e) s = cc
scanned_item source input (cons (float x) vs) (inr m) s = scanned_item source input vs m s
scanned_item source input (cons (str t) vs) (inl e) s = cc
scanned_item source input (cons (str t) vs) (inr m) s = scanned_item source input vs m s
scanned_item source input (cons (arr ws) vs) (inl e) s = cc
scanned_item source input (cons (arr ws) vs) (inr m) s = scanned_item source input vs m s

Scans-sources_of :
    (source : String) {fs : Fields} → Scans source fs → Has source (sources_of (parse_node fs))
unfolding parse_node sources_of operator_of as_str
Scans-sources_of source {fs} (at_node h) = rw h (inl refl)
Scans-sources_of source {fs} (below vs input h m s) =
    Has-append_right source (add_source (operator_of fs).data_source [])
      (sources_all (parse_inputs fs))
      (rw (parse_inputs-lookup fs vs h)
        (scanned_item source input vs m (Scans-sources_of source s)))

parse_root-sources :
    (fs : Fields) {p : ParsedPlan}
    → parse_root (obj fs) ≡ some p
    → p.data_sources ≡ dedupe_preserving_order (collect (parse_node fs) start).sources
unfolding parse_root
parse_root-sources fs h = ground arith

-- Whatever the tree's shape: a source that any operator of the plan reads is among the
-- `data_sources` of the parsed plan.
pub parse_plan-Scans :
    (plans fs : Fields) (key : String) {source : String} {p : ParsedPlan}
    → lookup key plans ≡ obj fs
    → parse_plan (obj plans) key ≡ some p
    → Scans source fs
    → Has source p.data_sources
unfolding parse_plan
parse_plan-Scans plans fs key {source} {p} at_key parsed scans =
    rw (parse_root-sources fs (rw at_key at parsed), (collect_lem (parse_node fs)).1)
      (((dedupe_preserving_order_lem (sources_of (parse_node fs))).0 source).1
        (Scans-sources_of source scans))
