-- ===== src/Egress.antt =====
-- Egress guardrails: src/asterixdb_mcp/egress.py. The size of a row as JSON text,
-- `len(json.dumps(row, default=str).encode())`, is a parameter of the functions that ask for it.
pub mod Window
pub mod Clamp
use asterixdb_mcp_server.Prelude.{
  ℕ, zero, suc, ◌+◌, ◌*◌, min, Bool, true, false, not, ◌&&◌, String, Option, none, some, List, [],
  ◌∷◌, ◌++◌, map, length, take, ltb, leb, nat_eq, chars, take_text, show, ◌<>◌, if◌then◌else◌,
}
use asterixdb_mcp_server.Errors.{size_limit, gateway_error, GatewayError, Result, ok, err, crash}
use asterixdb_mcp_server.Json.{
  Json, null, bool, int, float, str, arr, obj, Items, nil, cons, Fields, end, field, nat, set,
  of_fields,
}

abbrev pub columnar_flagged_max_rows : ℕ
columnar_flagged_max_rows = 10

abbrev pub columnar_flagged_max_bytes : ℕ
columnar_flagged_max_bytes = 16 * 1024

unfoldable pub minimized_caps : ℕ → ℕ → ℕ × ℕ
minimized_caps max_rows max_bytes =
    (min max_rows columnar_flagged_max_rows, min max_bytes columnar_flagged_max_bytes)

-- `format_timeout`; `crash` is the `ValueError`.
unfoldable pub format_timeout : ℕ → Result String
format_timeout max_time_ms = if nat_eq max_time_ms 0 then crash else ok (show max_time_ms <> "ms")

-- `enforce_byte_ceiling`: the body, the GatewayError, or `crash` for the `ValueError`.
unfoldable pub enforce_byte_ceiling : List ℕ → ℕ → Result (List ℕ)
enforce_byte_ceiling body max_bytes_per_query =
    if nat_eq max_bytes_per_query 0
    then crash
    else if ltb max_bytes_per_query (length body)
    then err (
        gateway_error size_limit (
          "Response of "
          <> show (length body)
          <> " bytes exceeds the gateway ceiling of "
          <> show max_bytes_per_query
          <> " bytes. Add or tighten a LIMIT clause, project fewer fields, or push the analysis into SQL++ (GROUP BY / aggregates)."))
    else ok body

abbrev pub truncation_next_step_hint : String
truncation_next_step_hint =
    "Result was truncated to protect the context window. To see more: tighten the WHERE clause, project only the columns you need, aggregate in SQL++ (GROUP BY), or use submit_async_query and page through fetch_query_result with offset/limit."

-- The metadata block; `nextStepHint` is there exactly if `truncated`.
pub record Truncation : Type 0 where
  pub total_rows : ℕ
  pub delivered_rows : ℕ
  pub delivered_bytes : ℕ
  pub truncated : Bool

-- The block as the payload carries it.
unfoldable pub truncation_fields : Truncation → Fields
unfolding of_fields set
truncation_fields t =
    let base = of_fields (
      ("totalRows", nat t.total_rows)
      ∷ ("deliveredRows", nat t.delivered_rows)
      ∷ ("deliveredBytes", nat t.delivered_bytes)
      ∷ ("truncated", bool t.truncated)
      ∷ []) in
    if t.truncated then set "nextStepHint" (str truncation_next_step_hint) base else base

abbrev is_nonempty {ℓ} : {A : Type ℓ} → List A → Bool
is_nonempty [] = false
is_nonempty (x ∷ xs) = true

module _ (row_bytes : Json → ℕ) where
  -- The loop of `truncate_for_llm`: the rows delivered so far, and their bytes.
  unfoldable pub deliver : ℕ → List Json → List Json → ℕ → List Json × ℕ
  deliver max_bytes [] delivered delivered_bytes = (delivered, delivered_bytes)
  deliver max_bytes (row ∷ rows) delivered delivered_bytes =
      elim (is_nonempty delivered && ltb max_bytes (delivered_bytes + row_bytes row)) [
        | true ↦ (delivered, delivered_bytes)
        | false ↦ deliver max_bytes rows (delivered ++ (row ∷ [])) (delivered_bytes + row_bytes row)
      ]

  unfoldable pub truncate_for_llm : List Json → ℕ → ℕ → List Json × Truncation
  unfolding deliver
  truncate_for_llm rows max_rows max_bytes =
      let (delivered, delivered_bytes) = deliver max_bytes (take max_rows rows) [] 0 in
      (
        delivered,
        record {
          total_rows = length rows;
          delivered_rows = length delivered;
          delivered_bytes = delivered_bytes;
          truncated = ltb (length delivered) (length rows);
        },
      )

-- The marker that replaces the tail of a text of that length.
unfoldable pub marker : ℕ → String
marker n = "…[clamped, " <> show n <> " chars]"

unfoldable pub clamp_text : ℕ → String → String
unfolding marker
clamp_text max_field_chars s =
    if leb (chars s) max_field_chars then s else take_text max_field_chars s <> marker (chars s)

-- `clamp_long_values`
unfoldable mutual
  pub clamp_long_values : ℕ → Json → Json
  clamp_long_values n (str s) = str (clamp_text n s)
  clamp_long_values n (obj fs) = obj (clamp_fields n fs)
  clamp_long_values n (arr vs) = arr (clamp_items n vs)
  clamp_long_values n null = null
  clamp_long_values n (bool b) = bool b
  clamp_long_values n (int i) = int i
  clamp_long_values n (float x) = float x

  pub clamp_items : ℕ → Items → Items
  clamp_items n nil = nil
  clamp_items n (cons v vs) = cons (clamp_long_values n v) (clamp_items n vs)

  pub clamp_fields : ℕ → Fields → Fields
  clamp_fields n end = end
  clamp_fields n (field k v fs) = field k (clamp_long_values n v) (clamp_fields n fs)

unfoldable pub bound_rows_for_llm : (Json → ℕ) → List Json → ℕ → ℕ → ℕ → List Json × Truncation
unfolding clamp_long_values truncate_for_llm
bound_rows_for_llm row_bytes rows max_rows max_bytes max_field_chars =
    truncate_for_llm row_bytes (map (clamp_long_values max_field_chars) rows) max_rows max_bytes
