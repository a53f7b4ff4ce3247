-- ===== src/CompilerParams.antt =====
-- The tuning knobs of a query: src/asterixdb_mcp/compiler_params.py.
pub mod Canonical
use asterixdb_mcp_server.Prelude.{
  ℕ, zero, suc, ◌+◌, ◌-◌, ◌*◌, Bool, true, false, ◌&&◌, ◌||◌, String, Option, none, some, List, [],
  ◌∷◌, ◌++◌, ◌==◌, ltb, leb, nat_eq, ◌<>◌, strip, lower, show, repr, join, if◌then◌else◌,
}
use Prim.Native.Char.{Char, code}
use asterixdb_mcp_server.Prelude.Dict
use asterixdb_mcp_server.Prelude.Dict.{Dict}
use asterixdb_mcp_server.Prelude.Sorted.{sorted_set}
use asterixdb_mcp_server.Json.{
  Json, null, bool, int, float, str, arr, obj, ℤ, pos, negsuc, nat, Fields, of_fields,
}
use asterixdb_mcp_server.Errors.{
  GatewayError, gateway_error, invalid_parameter, Result, ok, err, crash,
}
use asterixdb_mcp_server.QueryForm.{int_text}

abbrev pub min_operator_memory_bytes : ℕ
min_operator_memory_bytes = 512 * 1024

abbrev pub max_operator_memory_bytes : ℕ
max_operator_memory_bytes = 2 * 1024 * 1024 * 1024

abbrev pub min_parallelism : ℕ
min_parallelism = 0

abbrev pub max_parallelism : ℕ
max_parallelism = 4096

pub data ParamKind : Type 0 where
  boolean integer bytes : ParamKind

-- `ParamKind.value`
unfoldable pub kind_value : ParamKind → String
kind_value boolean = "boolean"
kind_value integer = "integer"
kind_value bytes = "bytes"

-- No bound of the allowlist is negative.
pub record ParamSpec : Type 0 where
  pub kind : ParamKind
  pub description : String
  pub minimum : Option ℕ
  pub maximum : Option ℕ

abbrev ranged : ParamKind → String → ℕ → ℕ → ParamSpec
ranged k text least most = record {
  kind = k;
  description = text;
  minimum = some least;
  maximum = some most;
}

abbrev memory : String → ParamSpec
memory text = ranged bytes text min_operator_memory_bytes max_operator_memory_bytes

abbrev toggle : String → ParamSpec
toggle text = record { kind = boolean; description = text; minimum = none; maximum = none }

-- `ALLOWLIST`
unfoldable pub known_parameters : Dict ParamSpec
known_parameters =
    (
      "compiler.parallelism",
      ranged integer
          "Query execution parallelism. 0 uses the storage parallelism; a positive value pins the number of parallel partitions."
          min_parallelism max_parallelism,
    )
    ∷ (
      "compiler.sortmemory",
      memory "Memory budget in bytes for a sort operator instance in a partition.",
    )
    ∷ (
      "compiler.joinmemory",
      memory "Memory budget in bytes for a join operator instance in a partition.",
    )
    ∷ (
      "compiler.groupmemory",
      memory "Memory budget in bytes for a group-by operator instance in a partition.",
    )
    ∷ (
      "compiler.windowmemory",
      memory "Memory budget in bytes for a window operator instance in a partition.",
    )
    ∷ ("compiler.cbo", toggle "Enable cost-based optimization.")
    ∷ (
      "compiler.forcejoinorder",
      toggle "Force the join order to follow the order written in the query.",
    )
    ∷ ("compiler.index.covering", toggle "Enable index-only (covering index) plans.")
    ∷ ("compiler.arrayindex", toggle "Enable use of array indexes in queries.")
    ∷ ("compiler.column.filter", toggle "Enable use of columnar min/max filters.")
    ∷ ("compiler.sort.parallel", toggle "Enable full parallel sort.")
    ∷ []

digit_value : Char → Option ℕ
digit_value c = if leb 48 (code c) && leb (code c) 57 then some (code c - 48) else none

-- The digits that are left, single underscores allowed between two of them.
digits_value : ℕ → Bool → String → Option ℕ
unfolding digit_value
digits_value seen after_digit String.[] = if after_digit then some seen else none
digits_value seen after_digit (String.◌∷◌ c s) = elim (digit_value c) [
  | some d ↦ digits_value (seen * 10 + d) true s
  | none ↦ elim (after_digit && nat_eq (code c) 95) [
    | true ↦ digits_value seen false s
    | false ↦ none
  ]
]

abbrev signed : Bool → Option ℕ → Option ℤ
signed negative none = none
signed true (some (suc n)) = some (negsuc n)
signed true (some zero) = some (pos zero)
signed false (some n) = some (pos n)

-- `int(s)` of a stripped text with ASCII digits, at most 4300 of them; `none` is the `ValueError`.
unfoldable pub parse_int : String → Option ℤ
unfolding digits_value
parse_int String.[] = none
parse_int (String.◌∷◌ c s) =
    if nat_eq (code c) 45
    then signed true (digits_value 0 false s)
    else if nat_eq (code c) 43
    then signed false (digits_value 0 false s)
    else signed false (digits_value 0 false (String.◌∷◌ c s))

-- `number < minimum` and `number > maximum`, `None` being no bound
unfoldable pub below : ℤ → Option ℕ → Bool
below number none = false
below (pos n) (some least) = ltb n least
below (negsuc n) (some least) = true

unfoldable pub above : ℤ → Option ℕ → Bool
above number none = false
above (pos n) (some most) = ltb most n
above (negsuc n) (some most) = false

abbrev bound_text : Option ℕ → String
bound_text none = "None"
bound_text (some n) = show n

-- `repr_value` is Python's `repr` of a JSON value.
module _ (repr_value : Json → String) where
  abbrev refuse : {A : Type 0} → String → String → Result A
  refuse key what =
      err (gateway_error invalid_parameter ("Compiler parameter " <> repr key <> " " <> what))

  unfoldable unknown_error : String → GatewayError
  unknown_error key = gateway_error invalid_parameter (
      "Unknown compiler parameter "
      <> repr key
      <> ". Allowed keys: "
      <> join ", " (sorted_set (Dict.keys known_parameters))
      <> ". See the asterixdb://config-parameters resource for types and ranges.")

  abbrev boolean_of : String → Json → String → Result String
  boolean_of key value s =
      if (s == "true") || (s == "false")
      then ok s
      else refuse key ("expects a boolean, got " <> repr_value value <> ".")

  -- `_validate_boolean`
  unfoldable pub validate_boolean : String → Json → Result String
  validate_boolean key (bool true) = ok "true"
  validate_boolean key (bool false) = ok "false"
  validate_boolean key (str s) = boolean_of key (str s) (lower (strip s))
  validate_boolean key value = refuse key ("expects a boolean, got " <> repr_value value <> ".")

  abbrev int_of : String → ParamKind → String → Option ℤ → Result ℤ
  int_of key kind s (some n) = ok n
  int_of key kind s none = refuse key ("expects " <> kind_value kind <> ", got " <> repr s <> ".")

  -- `_coerce_int`
  unfoldable pub coerce_int : String → Json → ParamKind → Result ℤ
  unfolding parse_int strip
  coerce_int key (bool b) kind = refuse key ("expects " <> kind_value kind <> ", got a boolean.")
  coerce_int key (int n) kind = ok n
  coerce_int key (str s) kind = int_of key kind s (parse_int (strip s))
  coerce_int key value kind =
      refuse key ("expects " <> kind_value kind <> ", got " <> repr_value value <> ".")

  -- The range check of `_validate_numeric`.
  unfoldable pub in_range : String → ParamSpec → Result ℤ → Result String
  unfolding below above int_text
  in_range key spec (ok number) =
      if below number spec.minimum
      then refuse key
          ("must be >= " <> bound_text spec.minimum <> ", got " <> int_text number <> ".")
      else if above number spec.maximum
      then refuse key
          ("must be <= " <> bound_text spec.maximum <> ", got " <> int_text number <> ".")
      else ok (int_text number)
  in_range key spec (err e) = err e
  in_range key spec crash = crash

  abbrev pub validate_numeric : String → Json → ParamSpec → Result String
  unfolding in_range coerce_int
  validate_numeric key value spec = in_range key spec (coerce_int key value spec.kind)

  -- `_validate_value`
  unfoldable pub validate_value : String → Json → ParamSpec → Result String
  unfolding validate_boolean in_range coerce_int
  validate_value key value spec = elim spec.kind [
    | boolean ↦ validate_boolean key value
    | _ ↦ validate_numeric key value spec
  ]

  unfoldable pub checked : String → Json → Option ParamSpec → Result String
  unfolding unknown_error validate_value
  checked key value none = err (unknown_error key)
  checked key value (some spec) = validate_value key value spec

  -- The loop, from the values validated so far.
  unfoldable pub validate_from : Dict String → Dict Json → Result (Dict String)
  unfolding checked Dict.get Dict.put known_parameters
  validate_from validated [] = ok validated
  validate_from validated ((key, value) ∷ params) =
      elim (checked key value (Dict.get key known_parameters)) [
        | ok s ↦ validate_from (Dict.put key s validated) params
        | err e ↦ err e
        | crash ↦ crash
      ]

  unfoldable pub validate_compiler_parameters : Dict Json → Result (Dict String)
  unfolding validate_from
  validate_compiler_parameters params = validate_from [] params

-- The validated knobs, as the client is given them.
unfoldable pub as_knobs : Dict String → Dict Json
as_knobs [] = []
as_knobs ((key, s) ∷ d) = (key, str s) ∷ as_knobs d

abbrev bound_field : String → Option ℕ → List (String × Json)
bound_field name none = []
bound_field name (some n) = (name, nat n) ∷ []

unfoldable pub described : String → ParamSpec → Fields
unfolding of_fields kind_value
described key spec = of_fields (
    ("name", str key)
      ∷ ("kind", str (kind_value spec.kind))
      ∷ ("description", str spec.description)
      ∷ bound_field "minimum" spec.minimum
    ++ bound_field "maximum" spec.maximum)

unfoldable pub describe_from : Dict ParamSpec → List Fields
unfolding described
describe_from [] = []
describe_from ((key, spec) ∷ rest) = described key spec ∷ describe_from rest

unfoldable pub describe_allowlist : List Fields
unfolding describe_from known_parameters
describe_allowlist = describe_from known_parameters
