-- ===== src/Recommend.antt =====
-- The recommendation of indexes from the plans of a workload: the heuristic part of
-- src/asterixdb_mcp/tools/recommend_indexes.py, and the catalog's indexes as it reads them, of
-- src/asterixdb_mcp/index_catalog.py. The names in the catalog are texts; a set is a list.
pub mod Led
pub mod Tally
pub mod Credited
pub mod Keyed
pub mod Novel
pub mod Report
pub mod Advise
pub mod Ranked
pub mod Observe
pub mod Workload
pub mod Accounted
use asterixdb_mcp_server.Prelude.{
  ℕ, suc, ◌+◌, ◌≡◌, refl, Bool, true, false, not, ◌&&◌, ◌||◌, String, Option, none, some, List, [],
  ◌∷◌, ◌++◌, map, keep, take, length, ltb, leb, nat_eq, nonempty, show, join, strip_left,
  strip_right, ◌<>◌, ◌==◌, if◌then◌else◌,
}
use Prim.Native.Char.{Char, code}
use Prim.Native.String.{compare}
use Prim.Native.Nat.{Ordering}
use asterixdb_mcp_server.Prelude.Dict
use asterixdb_mcp_server.Json.{Json, str, arr, Fields, find, lookup, as_str, to_list}
use asterixdb_mcp_server.Envelope.{py_text}
use asterixdb_mcp_server.PlanParser.{ParsedPlan, contains, datasets_from_sources}

-- `class SecondaryIndex`
pub record SecondaryIndex : Type 0 where
  pub dataverse : Option String
  pub dataset : Option String
  pub name : String
  pub structure : String
  pub key_fields : List String

-- `container_text` is `str` of a list or a dict.
module _ (container_text : Json → String) where
  -- An entry of a SearchKey, as text.
  abbrev key_text : Json → String
  unfolding to_list py_text join
  key_text (arr segments) = join "." (map (py_text container_text) (to_list segments))
  key_text value = py_text container_text value

  unfoldable pub normalize_search_key : Json → List String
  unfolding to_list key_text
  normalize_search_key (arr entries) = map key_text (to_list entries)
  normalize_search_key _ = []

  abbrev structure_text : Option Json → String
  unfolding py_text
  structure_text none = ""
  structure_text (some value) = py_text container_text value

  unfoldable pub parse_index_row : Json → Option SecondaryIndex
  unfolding lookup find as_str structure_text normalize_search_key
  parse_index_row (Json.obj row) = elim (lookup "IndexName" row) [
    | str name ↦ some (record {
      dataverse = as_str (lookup "DataverseName" row);
      dataset = as_str (lookup "DatasetName" row);
      name = name;
      structure = structure_text (find "IndexStructure" row);
      key_fields = normalize_search_key (lookup "SearchKey" row);
    })
    | _ ↦ none
  ]
  parse_index_row _ = none

-- The fields that lead an index, by dataverse and dataset.
abbrev pub Covered : Type 0
Covered = List ((String × String) × List String)

unfoldable pub same_place : String × String → String × String → Bool
same_place (dv, ds) (dv', ds') = (dv == dv') && (ds == ds')

-- `covered.get(location, set())`
unfoldable pub covered_at : String × String → Covered → List String
unfolding same_place
covered_at place [] = []
covered_at place ((p, fields) ∷ rest) = elim (same_place p place) [
  | true ↦ fields
  | false ↦ covered_at place rest
]

-- `covered.setdefault(location, set()).add(field)`
unfoldable pub cover : String × String → String → Covered → Covered
unfolding same_place
cover place key_field [] = (place, key_field ∷ []) ∷ []
cover place key_field ((p, fields) ∷ rest) = elim (same_place p place) [
  | true ↦ (p, key_field ∷ fields) ∷ rest
  | false ↦ (p, fields) ∷ cover place key_field rest
]

abbrev cover_index : Option String → Option String → List String → Covered → Covered
unfolding cover
cover_index (some dv) (some ds) (key_field ∷ rest) covered = cover (dv, ds) key_field covered
cover_index _ _ _ covered = covered

-- The loop of `_covered_first_keys`
unfoldable pub covered_from : Covered → List SecondaryIndex → Covered
unfolding cover_index
covered_from covered [] = covered
covered_from covered (index ∷ indexes) =
    covered_from (cover_index index.dataverse index.dataset index.key_fields covered) indexes

abbrev pub covered_first_keys : List SecondaryIndex → Covered
unfolding covered_from
covered_first_keys indexes = covered_from [] indexes

-- `class _Observation`
pub record Observation : Type 0 where
  pub dataverse : String
  pub dataset : String
  pub full_scan : Bool
  pub fields : List String
  pub predicates : List String

-- The record of a candidate; its `source` is always the heuristic.
pub record Candidate : Type 0 where
  pub dataverse : String
  pub dataset : String
  pub field : Option String
  pub score : ℕ
  pub supporting_statements : ℕ
  pub uses_full_scan : Bool
  pub predicates : List String

unfoldable pub weight : Observation → ℕ
weight obs = if obs.full_scan then 2 else 1

unfoldable pub same_field : Option String → Option String → Bool
same_field none none = true
same_field (some f) (some g) = f == g
same_field none (some g) = false
same_field (some f) none = false

-- Whether the candidate stands under the key.
unfoldable pub is_of : String → String → Option String → Candidate → Bool
unfolding same_field
is_of dv ds key_field c = (c.dataverse == dv) && (c.dataset == ds) && same_field c.field key_field

-- `for predicate in obs.predicates: if predicate not in record["predicates"]: ... append`
unfoldable pub add_predicates : List String → List String → List String
unfolding contains
add_predicates [] known = known
add_predicates (p ∷ ps) known =
    add_predicates ps (if contains p known then known else known ++ (p ∷ []))

unfoldable pub bump : Observation → Candidate → Candidate
unfolding weight add_predicates
bump obs c = record c {
  score = c.score + weight obs;
  supporting_statements = suc c.supporting_statements;
  uses_full_scan = c.uses_full_scan || obs.full_scan;
  predicates = add_predicates obs.predicates c.predicates;
}

unfoldable pub fresh : Observation → Option String → Candidate
fresh obs key_field = record {
  dataverse = obs.dataverse;
  dataset = obs.dataset;
  field = key_field;
  score = 0;
  supporting_statements = 0;
  uses_full_scan = false;
  predicates = [];
}

-- `_accumulate`
unfoldable pub accumulate : Observation → Option String → List Candidate → List Candidate
unfolding bump fresh is_of
accumulate obs key_field [] = bump obs (fresh obs key_field) ∷ []
accumulate obs key_field (c ∷ cs) = elim (is_of obs.dataverse obs.dataset key_field c) [
  | true ↦ bump obs c ∷ cs
  | false ↦ c ∷ accumulate obs key_field cs
]

unfoldable pub accumulate_each : Observation → List String → List Candidate → List Candidate
unfolding accumulate
accumulate_each obs [] candidates = candidates
accumulate_each obs (f ∷ fs) candidates =
    accumulate_each obs fs (accumulate obs (some f) candidates)

unfoldable pub novel_fields : Covered → Observation → List String
unfolding covered_at contains
novel_fields covered obs =
    keep (λ f. not (contains f (covered_at (obs.dataverse, obs.dataset) covered))) obs.fields

abbrev pub is_unattributed : Bool → List String → Bool
is_unattributed full_scan [] = full_scan
is_unattributed full_scan (f ∷ fs) = false

-- The body of the loop of `_aggregate`, given the novel fields.
abbrev pub observe_fields : Observation → List String → List Candidate → List Candidate
unfolding accumulate accumulate_each
observe_fields obs [] candidates =
    if is_unattributed obs.full_scan obs.fields then accumulate obs none candidates else candidates
observe_fields obs (f ∷ fs) candidates = accumulate_each obs (f ∷ fs) candidates

unfoldable pub aggregate_from : Covered → List Candidate → List Observation → List Candidate
unfolding observe_fields novel_fields
aggregate_from covered candidates [] = candidates
aggregate_from covered candidates (obs ∷ observations) =
    aggregate_from covered (observe_fields obs (novel_fields covered obs) candidates) observations

-- `_aggregate`
unfoldable pub aggregate : List Observation → Covered → List Candidate
unfolding aggregate_from
aggregate observations covered = aggregate_from covered [] observations
