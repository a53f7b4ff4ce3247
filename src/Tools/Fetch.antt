-- ===== src/Tools/Fetch.antt =====
-- `run_fetch_query_result` of src/asterixdb_mcp/tools/async_query.py.
pub mod Complete
use asterixdb_mcp_server.Prelude.{
  ℕ, suc, ◌+◌, min, max, ◌≡◌, refl, Bool, true, false, ◌||◌, String, Option, none, some, List, [],
  ◌∷◌, ltb, length, take, drop, show, ◌<>◌, if◌then◌else◌, arith,
}
use asterixdb_mcp_server.Json.{
  Json, null, bool, int, float, str, arr, obj, ℤ, pos, negsuc, Fields, nat, lookup, set, truthy,
  to_list, of_list, of_fields, array,
}
use asterixdb_mcp_server.Errors.{not_ready, GatewayError, gateway_error, Result, ok, err, crash}
use asterixdb_mcp_server.Config.{Settings}
use asterixdb_mcp_server.Egress.{minimized_caps, truncation_fields, Truncation, bound_rows_for_llm}
use asterixdb_mcp_server.AuditLog
use asterixdb_mcp_server.AuditLog.{AuditEntry, AuditLog}
use asterixdb_mcp_server.Http.{Env}
use asterixdb_mcp_server.CcClient.{Client, fetch_result}
use asterixdb_mcp_server.Tools.{ToolResult, tool_error, overflow_artifact_payload}
use asterixdb_mcp_server.Tools.AsyncQuery.{
  Outside, max_limit, check_ownership, unknown_submission_error, classify_envelope_error,
}

unfoldable pub not_ready_error : String → GatewayError
not_ready_error id = gateway_error not_ready (
    "Query " <> id
    <> " has no result yet. Call wait_on_async_query until it reports done:true before fetching.")

-- `max(offset, 0)` and `min(max(limit, 1), MAX_LIMIT)`
unfoldable pub clamp_offset : ℤ → ℕ
clamp_offset (pos n) = n
clamp_offset (negsuc n) = 0

unfoldable pub clamp_limit : ℤ → ℕ
clamp_limit (pos n) = min (max n 1) max_limit
clamp_limit (negsuc n) = 1

-- `rows = envelope.get("results") or []`, and one row if that is no list
abbrev rows_in : Json → List Json
unfolding to_list
rows_in (arr vs) = to_list vs
rows_in v = v ∷ []

unfoldable pub rows_of : Fields → List Json
unfolding rows_in lookup truthy
rows_of envelope =
    let results = lookup "results" envelope in if truthy results then rows_in results else []

-- The caps for what reaches the model.
unfoldable pub caps : Settings → Option Fields → ℕ × ℕ
unfolding minimized_caps
caps settings none = (settings.max_rows_to_llm, settings.max_bytes_to_llm)
caps settings (some advisory) = minimized_caps settings.max_rows_to_llm settings.max_bytes_to_llm

-- The rows that are delivered, and whether there are more: of the result, or of the page.
pub record Page : Type 0 where
  pub window : List Json
  pub truncation : Truncation
  pub more_available : Bool

unfoldable pub page_of : (Json → ℕ) → Settings → Option Fields → ℕ → ℕ → List Json → Page
unfolding caps bound_rows_for_llm
page_of row_bytes settings advisory offset limit rows =
    let (max_rows, max_bytes) = caps settings advisory in
    let (window, truncation) =
      bound_rows_for_llm row_bytes (take limit (drop offset rows)) max_rows max_bytes
        settings.max_field_chars in
    record {
      window = window;
      truncation = truncation;
      more_available = ltb (offset + limit) (length rows) || truncation.truncated;
    }

-- `if value is not None: structured[key] = value`
unfoldable pub set_given : String → Json → Fields → Fields
unfolding set
set_given key null fs = fs
set_given key (bool b) fs = set key (bool b) fs
set_given key (int n) fs = set key (int n) fs
set_given key (float x) fs = set key (float x) fs
set_given key (str s) fs = set key (str s) fs
set_given key (arr vs) fs = set key (arr vs) fs
set_given key (obj gs) fs = set key (obj gs) fs

abbrev opt_obj : Option Fields → Json
opt_obj none = null
opt_obj (some fs) = obj fs

abbrev advised : Option Fields → Json
unfolding of_list
advised none = null
advised (some fs) = array (obj fs ∷ [])

abbrev minimized_note : Option Fields → String
minimized_note none = ""
minimized_note (some fs) = " [columnar full scan flagged — output minimized]"

unfoldable pub fetched_result :
    AuditEntry → Fields → ℤ → ℤ → List Json → Page → Option Fields → ToolResult
unfolding set_given of_fields of_list truncation_fields clamp_offset clamp_limit lookup
fetched_result entry envelope offset limit rows page artifact =
    let base = of_fields (
      ("status", str "success")
      ∷ ("clientContextID", str entry.client_context_id)
      ∷ ("rowsReturned", nat (length page.window))
      ∷ ("rowsAvailableInResponse", nat (length rows))
      ∷ ("offset", nat (clamp_offset offset))
      ∷ ("limit", nat (clamp_limit limit))
      ∷ ("moreAvailable", bool page.more_available)
      ∷ ("results", array page.window)
      ∷ (
        "egress",
        obj (set_given "artifact" (opt_obj artifact) (truncation_fields page.truncation)),
      )
      ∷ []) in
    record {
      text =
          "Returned "
          <> show (length page.window)
          <> " row(s) from the async result."
          <> minimized_note entry.advisory;
      structured = set_given "advisories" (advised entry.advisory) (
          set_given "signature" entry.signature
            (set_given "metrics" (lookup "metrics" envelope) base));
      is_error = false;
    }

module _ {W : Type 0} (env : Env W) (outside : Outside W) (client : Client)
    (settings : Settings) where
  unfoldable pub fetch_rows : AuditEntry → ℤ → ℤ → Fields → W → ToolResult × W
  unfolding page_of rows_of overflow_artifact_payload fetched_result clamp_offset clamp_limit
  fetch_rows entry offset limit envelope w =
      let rows = rows_of envelope in
      let page =
        page_of outside.row_bytes settings entry.advisory (clamp_offset offset) (clamp_limit limit)
          rows in
      let (artifact, w') =
        overflow_artifact_payload outside.write_artifact settings page.more_available rows w in
      (fetched_result entry envelope offset limit rows page artifact, w')

  -- What the tool makes of the client's answer.
  unfoldable pub fetch_answer : AuditEntry → ℤ → ℤ → Result Fields × W → Result ToolResult × W
  unfolding fetch_rows classify_envelope_error tool_error
  fetch_answer entry offset limit (err e, w) = (ok (tool_error e), w)
  fetch_answer entry offset limit (crash, w) = (crash, w)
  fetch_answer entry offset limit (ok envelope, w) = elim (classify_envelope_error envelope) [
    | some e ↦ (ok (tool_error e), w)
    | none ↦ let (result, w') = fetch_rows entry offset limit envelope w in (ok result, w')
  ]

  unfoldable pub fetch_entry : String → ℤ → ℤ → Option AuditEntry → W → Result ToolResult × W
  unfolding fetch_answer not_ready_error unknown_submission_error fetch_result tool_error
  fetch_entry id offset limit none w = (ok (tool_error (unknown_submission_error id)), w)
  fetch_entry id offset limit (some entry) w = elim entry.result_handle [
    | none ↦ (ok (tool_error (not_ready_error id)), w)
    | some handle ↦ fetch_answer entry offset limit (fetch_result env client handle w)
  ]

  unfoldable pub fetch_query_result :
      String → ℤ → ℤ → AuditLog × W → Result ToolResult × (AuditLog × W)
  unfolding fetch_entry check_ownership AuditLog.get tool_error
  fetch_query_result id offset limit (audit, w) = elim (check_ownership settings id) [
    | some e ↦ (ok (tool_error e), (audit, w))
    | none ↦
        let (entry, audit') = AuditLog.get (outside.audit_clock w) id audit in
        let (result, w') = fetch_entry id offset limit entry w in (result, (audit', w'))
  ]
