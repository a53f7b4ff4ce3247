-- ===== src/HintDeriver.antt =====
-- Advice read off a parsed plan: src/asterixdb_mcp/hint_deriver.py.
pub mod Broadcast
use Prim.Native.Char.{Char, code}
use Prim.Native.String.{char_at}
use asterixdb_mcp_server.Prelude.{
  ℕ, ◌-◌, Bool, true, false, ◌&&◌, ◌||◌, String, Option, none, some, List, [], ◌∷◌, ◌++◌, map, leb,
  nat_eq, within, if◌then◌else◌,
}
use asterixdb_mcp_server.Prelude.Dict
use asterixdb_mcp_server.Json.{str, Fields, of_fields}
use asterixdb_mcp_server.PlanParser.{
  Operator, PlanOperator, node, Operators, leaf, child, ParsedPlan,
}

pub record Hint : Type 0 where
  pub code : String
  pub signal : String
  pub advice : String

-- `Hint.to_dict`
unfoldable pub hint_dict : Hint → Fields
unfolding of_fields
hint_dict hint =
    of_fields
      (("code", str hint.code) ∷ ("signal", str hint.signal) ∷ ("advice", str hint.advice) ∷ [])

-- `s.upper()`, for the letters of ASCII, and the long s
unfoldable pub upper : String → String
upper String.[] = String.[]
upper (String.◌∷◌ c s) =
    String.◌∷◌
      (if leb b'a' (code c) && leb (code c) b'z'
        then char_at "ABCDEFGHIJKLMNOPQRSTUVWXYZ" (code c - b'a')
        else if nat_eq (code c) 383
        then char_at "S" 0
        else c)
      (upper s)

unfoldable pub is_broadcast : Operator → Bool
unfolding upper
is_broadcast op = elim op.physical_operator [
  | none ↦ false
  | some physical ↦ within "BROADCAST" (upper physical)
]

-- `_has_broadcast`
unfoldable mutual
  unfolding is_broadcast

  pub has_broadcast : PlanOperator → Bool
  has_broadcast (node op inputs) = is_broadcast op || any_broadcast inputs

  pub any_broadcast : Operators → Bool
  any_broadcast leaf = false
  any_broadcast (child tree trees) = has_broadcast tree || any_broadcast trees

abbrev full_scan_hint : Hint
full_scan_hint = record {
  code = "full-scan";
  signal = "The plan scans a dataset without an index (data-scan).";
  advice =
      "Add a selective WHERE predicate or a secondary index; confirm with check_index_usage or recommend_indexes.";
}

abbrev broadcast_join_hint : Hint
broadcast_join_hint = record {
  code = "broadcast-join";
  signal = "A join input is broadcast to every partition.";
  advice =
      "Ensure the broadcast side is the smaller input; the hash-bcast and indexnl SQL++ hints steer join strategy (see the query-hints topic).";
}

abbrev is_present : Option ℕ → Bool
is_present none = false
is_present (some n) = true

abbrev hint_if : Bool → Hint → List Hint
hint_if test hint = if test then hint ∷ [] else []

-- `derive_hints`
unfoldable pub derive_hints : ParsedPlan → List Hint
unfolding Dict.get has_broadcast
derive_hints parsed =
    hint_if (is_present (Dict.get "data-scan" parsed.operator_counts)) full_scan_hint
    ++ hint_if (has_broadcast parsed.root) broadcast_join_hint

-- `hints_payload`
unfoldable pub hints_payload : ParsedPlan → List Fields
unfolding derive_hints hint_dict
hints_payload parsed = map hint_dict (derive_hints parsed)
