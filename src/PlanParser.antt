-- ===== src/PlanParser.antt =====
-- The optimized-plan parser: src/asterixdb_mcp/plan_parser.py.
pub mod Counts
pub mod Scans
pub mod Sources
pub mod Render
use asterixdb_mcp_server.Prelude.{
  ℕ, zero, suc, ◌+◌, max, Bool, true, false, String, Option, none, some, List, [], ◌∷◌, ◌++◌, map,
  split, nonempty, ◌==◌, ◌&&◌, ◌||◌, not, if◌then◌else◌,
}
use asterixdb_mcp_server.Prelude.Dict
use asterixdb_mcp_server.Prelude.Dict.{Dict, count_of}
use asterixdb_mcp_server.Json.{
  Json, null, bool, int, float, str, arr, obj, Items, nil, cons, Fields, end, field, lookup, as_str,
  as_list, strings, dict, array, nat,
}

abbrev pub optimized_plan_key : String
optimized_plan_key = "optimizedLogicalPlan"

-- The scalar fields of a `PlanOperator`.
pub record Operator : Type 0 where
  pub kind : Option String
  pub operator_id : Option String
  pub physical_operator : Option String
  pub data_source : Option String
  pub predicates : List String

mutual
  pub data PlanOperator : Type 0 where
    node : Operator → Operators → PlanOperator

  pub data Operators : Type 0 where
    leaf : Operators
    child : PlanOperator → Operators → Operators

pub record ParsedPlan : Type 0 where
  pub root : PlanOperator
  pub operator_counts : Dict ℕ
  pub data_sources : List String
  pub depth : ℕ

-- `_string_list`
abbrev string_list : Json → List String
unfolding strings as_list
string_list v = strings (as_list v)

condition_predicates : Json → List String
unfolding string_list lookup
condition_predicates (obj fs) = string_list (lookup "expressions" fs)
condition_predicates (str s) = s ∷ []
condition_predicates _ = []

-- `_extract_predicates`
unfoldable pub extract_predicates : Fields → List String
unfolding condition_predicates string_list lookup
extract_predicates fs =
    condition_predicates (lookup "condition" fs) ++ string_list (lookup "expressions" fs)

-- What `_parse_node` reads of a node beside its inputs.
unfoldable pub operator_of : Fields → Operator
unfolding extract_predicates lookup as_str
operator_of fs = record {
  kind = as_str (lookup "operator" fs);
  operator_id = as_str (lookup "operatorId" fs);
  physical_operator = as_str (lookup "physical-operator" fs);
  data_source = as_str (lookup "data-source" fs);
  predicates = extract_predicates fs;
}

-- `_parse_node`. The node's `inputs` are found field by field, so that the recursion is on the
-- value: `parse_inputs` reads the first field of that name, `parse_value` wants a list there, and
-- `parse_items` skips what is no dict.
unfoldable mutual
  pub parse_inputs : Fields → Operators
  parse_inputs end = leaf
  parse_inputs (field k v fs) = elim (k == "inputs") [
    | true ↦ parse_value v
    | false ↦ parse_inputs fs
  ]

  pub parse_value : Json → Operators
  parse_value (arr vs) = parse_items vs
  parse_value null = leaf
  parse_value (bool b) = leaf
  parse_value (int n) = leaf
  parse_value (float x) = leaf
  parse_value (str s) = leaf
  parse_value (obj fs) = leaf

  pub parse_items : Items → Operators
  parse_items nil = leaf
  parse_items (cons (obj fs) vs) = child (node (operator_of fs) (parse_inputs fs)) (parse_items vs)
  parse_items (cons null vs) = parse_items vs
  parse_items (cons (bool b) vs) = parse_items vs
  parse_items (cons (int n) vs) = parse_items vs
  parse_items (cons (float x) vs) = parse_items vs
  parse_items (cons (str s) vs) = parse_items vs
  parse_items (cons (arr ws) vs) = parse_items vs

unfoldable pub parse_node : Fields → PlanOperator
unfolding operator_of parse_inputs
parse_node fs = node (operator_of fs) (parse_inputs fs)

-- The two accumulators that `_collect` fills.
pub record Collected : Type 0 where
  pub counts : Dict ℕ
  pub sources : List String

-- `counts[kind] = counts.get(kind, 0) + 1`
abbrev pub count_kind : Option String → Dict ℕ → Dict ℕ
count_kind none d = d
count_kind (some k) d = Dict.put k (count_of (Dict.get k d) + 1) d

abbrev pub add_source : Option String → List String → List String
add_source none l = l
add_source (some s) l = l ++ (s ∷ [])

-- `_collect`
unfoldable mutual
  pub collect : PlanOperator → Collected → Collected
  collect (node o cs) acc = collect_all cs (record {
    counts = count_kind o.kind acc.counts;
    sources = add_source o.data_source acc.sources;
  })

  pub collect_all : Operators → Collected → Collected
  collect_all leaf acc = acc
  collect_all (child c cs) acc = collect_all cs (collect c acc)

-- `_depth`
unfoldable mutual
  pub depth : PlanOperator → ℕ
  depth (node o cs) = 1 + max_depth cs

  pub max_depth : Operators → ℕ
  max_depth leaf = 0
  max_depth (child c cs) = max (depth c) (max_depth cs)

-- `item in items`
unfoldable pub contains : String → List String → Bool
contains s [] = false
contains s (t ∷ ts) = (s == t) || contains s ts

-- `_dedupe_preserving_order`: the items that were seen, and the rest.
dedupe_from : List String → List String → List String
unfolding contains
dedupe_from seen [] = []
dedupe_from seen (s ∷ ss) = elim (contains s seen) [
  | true ↦ dedupe_from seen ss
  | false ↦ s ∷ dedupe_from (s ∷ seen) ss
]

unfoldable pub dedupe_preserving_order : List String → List String
unfolding dedupe_from
dedupe_preserving_order = dedupe_from []

abbrev plan_of : PlanOperator → Collected → ParsedPlan
unfolding dedupe_preserving_order depth
plan_of root c = record {
  root = root;
  operator_counts = c.counts;
  data_sources = dedupe_preserving_order c.sources;
  depth = depth root;
}

-- `parse_plan`, from the node under the key on
unfoldable pub parse_root : Json → Option ParsedPlan
unfolding parse_node collect plan_of
parse_root (obj fs) =
    let root = parse_node fs in
    some (plan_of root (collect root (record { counts = []; sources = [] })))
parse_root _ = none

unfoldable pub parse_plan : Json → String → Option ParsedPlan
unfolding parse_root lookup
parse_plan (obj fs) key = parse_root (lookup key fs)
parse_plan _ key = none

unfoldable pub parse_optimized_plan : Json → Option ParsedPlan
unfolding parse_plan
parse_optimized_plan plans = parse_plan plans optimized_plan_key

pub record ResolvedSources : Type 0 where
  pub datasets : List (String × String)
  pub unresolved : List String

pair_eq : String × String → String × String → Bool
pair_eq (a, b) (c, d) = (a == c) && (b == d)

unfoldable pub contains_pair : String × String → List (String × String) → Bool
unfolding pair_eq
contains_pair p [] = false
contains_pair p (q ∷ qs) = pair_eq p q || contains_pair p qs

-- What one source resolves to, from the pieces between its dots.
unfoldable pub resolve_parts : List String → Option String → Option (String × String)
resolve_parts [] default_dataverse = none
resolve_parts (a ∷ b ∷ rest) default_dataverse = some (a, b)
resolve_parts (a ∷ []) none = none
resolve_parts (a ∷ []) (some dv) = if nonempty dv then some (dv, a) else none

unfoldable pub resolve_source : Option String → String → Option (String × String)
unfolding split resolve_parts
resolve_source default_dataverse source = resolve_parts (split b'.' source) default_dataverse

-- The body of the loop of `resolve_sources`
unfoldable pub note_source : String → Option (String × String) → ResolvedSources → ResolvedSources
unfolding contains contains_pair
note_source source none r =
    if contains source r.unresolved
    then r
    else record r { unresolved = r.unresolved ++ (source ∷ []) }
note_source source (some pair) r =
    if contains_pair pair r.datasets then r else record r { datasets = r.datasets ++ (pair ∷ []) }

unfoldable pub resolve_from : Option String → List String → ResolvedSources → ResolvedSources
unfolding note_source resolve_source
resolve_from default_dataverse [] r = r
resolve_from default_dataverse (source ∷ rest) r =
    resolve_from default_dataverse rest
      (note_source source (resolve_source default_dataverse source) r)

unfoldable pub resolve_sources : List String → Option String → ResolvedSources
unfolding resolve_from
resolve_sources data_sources default_dataverse =
    resolve_from default_dataverse data_sources (record { datasets = []; unresolved = [] })

unfoldable pub datasets_from_sources : List String → Option String → List (String × String)
unfolding resolve_sources
datasets_from_sources data_sources default_dataverse =
    (resolve_sources data_sources default_dataverse).datasets
