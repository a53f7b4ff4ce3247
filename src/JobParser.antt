-- ===== src/JobParser.antt =====
-- The parser of Hyracks jobs: src/asterixdb_mcp/job_parser.py.
pub mod Summaries
use asterixdb_mcp_server.Prelude.{
  ℕ, suc, ◌+◌, ◌-◌, ◌≡◌, refl, Bool, true, false, String, Option, none, some, List, [], ◌∷◌, ◌++◌,
  map, length, leb, nat_eq, chars, take_text, split, nonempty, within, starts, ◌<>◌, if◌then◌else◌,
}
use asterixdb_mcp_server.Prelude.Dict
use asterixdb_mcp_server.Prelude.Dict.{Dict, count_of}
use asterixdb_mcp_server.Json.{
  Json, null, int, str, arr, obj, ℤ, pos, negsuc, nat, Fields, lookup, member, set, as_str, as_int,
  as_list, dicts, of_fields, of_list, array,
}

abbrev pub job_key : String
job_key = "job"

pub record JobOperator : Type 0 where
  pub operator_id : Option String
  pub kind : Option String
  pub in_arity : Option ℤ
  pub out_arity : Option ℤ
  pub partition_count : Option ℤ

pub record JobConnector : Type 0 where
  pub kind : Option String
  pub source_operator_id : Option String
  pub target_operator_id : Option String

pub record ParsedJob : Type 0 where
  pub operators : List JobOperator
  pub connectors : List JobConnector
  pub operator_counts : Dict ℕ
  pub connector_counts : Dict ℕ
  pub max_partition_count : Option ℤ

abbrev opt_text : Option String → Json
opt_text none = null
opt_text (some s) = str s

abbrev set_int : String → Option ℤ → Fields → Fields
unfolding set
set_int key none fs = fs
set_int key (some n) fs = set key (int n) fs

-- `JobOperator.to_dict`
unfoldable pub operator_dict : JobOperator → Fields
unfolding of_fields set_int
operator_dict op = set_int "partitionCount" op.partition_count (
    set_int "outArity" op.out_arity (
      set_int "inArity" op.in_arity
        (of_fields (("operatorId", opt_text op.operator_id) ∷ ("kind", opt_text op.kind) ∷ []))))

-- `JobConnector.to_dict`
unfoldable pub connector_dict : JobConnector → Fields
unfolding of_fields
connector_dict conn = of_fields (
    ("kind", opt_text conn.kind)
    ∷ ("from", opt_text conn.source_operator_id)
    ∷ ("to", opt_text conn.target_operator_id)
    ∷ [])

abbrev counts_dict : Dict ℕ → Json
unfolding of_fields
counts_dict counts = obj (of_fields (map (λ (kind, n). (kind, nat n)) counts))

-- `ParsedJob.to_dict`
unfoldable pub job_dict : ParsedJob → Fields
unfolding of_fields of_list set_int operator_dict connector_dict counts_dict
job_dict job = set_int "maxPartitionCount" job.max_partition_count (
    of_fields (
      ("operatorCount", nat (length job.operators))
      ∷ ("connectorCount", nat (length job.connectors))
      ∷ ("operatorCounts", counts_dict job.operator_counts)
      ∷ ("connectorCounts", counts_dict job.connector_counts)
      ∷ ("operators", array (map (λ op. obj (operator_dict op)) job.operators))
      ∷ ("connectors", array (map (λ conn. obj (connector_dict conn)) job.connectors))
      ∷ []))

-- `s.rsplit(".", 1)[-1]`
unfoldable pub last_piece : List String → String
last_piece [] = ""
last_piece (s ∷ []) = s
last_piece (s ∷ t ∷ rest) = last_piece (t ∷ rest)

-- `s[: -len(suffix)]` if the text ends in the suffix
unfoldable pub without_suffix : String → String → String
without_suffix suffix String.[] = String.[]
without_suffix suffix (String.◌∷◌ c s) = elim (nat_eq (chars suffix) (chars (String.◌∷◌ c s))) [
  | true ↦ if starts suffix (String.◌∷◌ c s) then String.[] else String.◌∷◌ c s
  | false ↦ String.◌∷◌ c (without_suffix suffix s)
]

abbrev or_none : String → Option String
or_none s = if nonempty s then some s else none

-- `_kind_from_class`
unfoldable pub kind_from_class : Json → String → Option String
unfolding split last_piece without_suffix
kind_from_class (str java_class) suffix =
    if nonempty java_class
    then or_none (without_suffix suffix (last_piece (split b'.' java_class)))
    else none
kind_from_class _ suffix = none

abbrev or_else : Option String → Option String → Option String
or_else (some s) other = some s
or_else none other = other

-- `_partition_count`
unfoldable pub partition_count : Json → Option ℤ
unfolding member as_int
partition_count constraints = as_int (member "count" constraints)

-- `_parse_operator`
unfoldable pub parse_operator : Fields → JobOperator
unfolding lookup as_str as_int kind_from_class partition_count
parse_operator op = record {
  operator_id = as_str (lookup "id" op);
  kind =
      or_else (kind_from_class (lookup "java-class" op) "OperatorDescriptor")
        (as_str (lookup "display-name" op));
  in_arity = as_int (lookup "in-arity" op);
  out_arity = as_int (lookup "out-arity" op);
  partition_count = partition_count (lookup "partition-constraints" op);
}

-- `_parse_connector`
unfoldable pub parse_connector : Fields → JobConnector
unfolding lookup member as_str kind_from_class
parse_connector conn = record {
  kind = kind_from_class (member "java-class" (lookup "connector" conn)) "ConnectorDescriptor";
  source_operator_id = as_str (lookup "in-operator-id" conn);
  target_operator_id = as_str (lookup "out-operator-id" conn);
}

-- `_parse_operators` and `_parse_connectors`
abbrev pub parse_operators : Json → List JobOperator
unfolding as_list dicts parse_operator
parse_operators raw = map parse_operator (dicts (as_list raw))

abbrev pub parse_connectors : Json → List JobConnector
unfolding as_list dicts parse_connector
parse_connectors raw = map parse_connector (dicts (as_list raw))

-- `_count_kinds`, from the counts so far
unfoldable pub count_kinds_from : Dict ℕ → List (Option String) → Dict ℕ
unfolding Dict.get Dict.put
count_kinds_from counts [] = counts
count_kinds_from counts (none ∷ kinds) = count_kinds_from counts kinds
count_kinds_from counts (some kind ∷ kinds) =
    count_kinds_from (Dict.put kind (count_of (Dict.get kind counts) + 1) counts) kinds

unfoldable pub count_kinds : List (Option String) → Dict ℕ
unfolding count_kinds_from
count_kinds kinds = count_kinds_from [] kinds

-- `<=` on the integers
unfoldable pub int_leb : ℤ → ℤ → Bool
int_leb (pos m) (pos n) = leb m n
int_leb (pos m) (negsuc n) = false
int_leb (negsuc m) (pos n) = true
int_leb (negsuc m) (negsuc n) = leb n m

abbrev pub larger : ℤ → Option ℤ → Option ℤ
unfolding int_leb
larger m none = some m
larger m (some n) = if int_leb m n then some n else some m

-- `max(counts) if counts else None`, of the counts that are there
unfoldable pub max_count : List (Option ℤ) → Option ℤ
unfolding larger
max_count [] = none
max_count (none ∷ counts) = max_count counts
max_count (some n ∷ counts) = larger n (max_count counts)

-- `_max_partition_count`
abbrev pub max_partition_count : List JobOperator → Option ℤ
unfolding max_count
max_partition_count operators = max_count (map (λ op. op.partition_count) operators)

abbrev pub job_of : List JobOperator → List JobConnector → ParsedJob
unfolding count_kinds
job_of operators connectors = record {
  operators = operators;
  connectors = connectors;
  operator_counts = count_kinds (map (λ op. op.kind) operators);
  connector_counts = count_kinds (map (λ conn. conn.kind) connectors);
  max_partition_count = max_partition_count operators;
}

-- `parse_job`
unfoldable pub parse_job : Json → String → Option ParsedJob
unfolding lookup job_of
parse_job (obj plans) key = elim (lookup key plans) [
  | obj job ↦ some (
      job_of (parse_operators (lookup "operators" job))
        (parse_connectors (lookup "connectors" job)))
  | _ ↦ none
]
parse_job _ key = none

test_kind :
    kind_from_class (str "org.apache.BTreeSearchOperatorDescriptor") "OperatorDescriptor"
    ≡ some "BTreeSearch"
unfolding kind_from_class
test_kind = refl
