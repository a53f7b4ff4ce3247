-- ===== src/Envelope.antt =====
-- The cluster's answer, read: the last part of src/asterixdb_mcp/cc_client.py. A message says what
-- failed; details of the exception, such as its text and the class of a value, are left out of it.
use asterixdb_mcp_server.Prelude.{
  true, false, not, ◌&&◌, String, Option, none, some, List, nonempty, lower, repr, ◌<>◌, ◌==◌,
  if◌then◌else◌,
}
use asterixdb_mcp_server.Json.{
  Json, null, bool, str, arr, obj, cons, Fields, find, lookup, member, truthy, to_list,
}
use asterixdb_mcp_server.Errors.{gateway_error, internal, Result, ok, err, crash}
use asterixdb_mcp_server.Errors.Classify.{classify_cc_error}
use asterixdb_mcp_server.QueryForm.{scalar_param}

-- The first entry of an `errors` list, as far as it is a dict, is what an error is classified by.
first_error : Json → Json
first_error (arr (cons v vs)) = v
first_error _ = null

-- `message or "..."`, for a message that is a text or missing. Any other message has no `lower`.
message_text : Json → Result String
message_text (str s) = ok (if nonempty s then s else "AsterixDB returned an unspecified error.")
message_text v = if truthy v then crash else ok "AsterixDB returned an unspecified error."

raise_classified : Json → Result String → Result (Unit {0})
raise_classified code (ok message) = err (classify_cc_error code message)
raise_classified code (err e) = err e
raise_classified code crash = crash

-- `_raise_on_envelope_errors`. A list or a dict for a code is no key of the map: it crashes.
unfoldable pub raise_on_envelope_errors : Fields → Result (Unit {0})
unfolding first_error message_text raise_classified member
raise_on_envelope_errors envelope =
    let errors = lookup "errors" envelope in
    let first = first_error errors in
    if truthy errors
    then raise_classified (member "code" first) (message_text (member "msg" first))
    else ok tt

-- `str(value)` in Python's spelling.
unfoldable pub py_text : (Json → String) → Json → String
unfolding scalar_param
py_text container_text (bool true) = "True"
py_text container_text (bool false) = "False"
py_text container_text v = scalar_param container_text v

abbrev status_text : (Json → String) → Option Json → String
unfolding py_text
status_text container_text none = ""
status_text container_text (some v) = py_text container_text v

raise_on_status : String → Result (Unit {0})
raise_on_status status =
    if nonempty status && not (status == "success")
    then err (
        gateway_error internal
          ("AsterixDB returned non-success status " <> repr status <> " with no error detail."))
    else ok tt

-- `_raise_on_envelope_error`
unfoldable pub raise_on_envelope_error : (Json → String) → Fields → Result (Unit {0})
unfolding raise_on_envelope_errors raise_on_status status_text lower
raise_on_envelope_error container_text envelope = elim (raise_on_envelope_errors envelope) [
  | ok _ ↦ raise_on_status (lower (status_text container_text (find "status" envelope)))
  | err e ↦ err e
  | crash ↦ crash
]

-- `_parse_json_body`
unfoldable pub parsed_object : Option Json → Result Fields
parsed_object (some (obj fs)) = ok fs
parsed_object (some v) = err (gateway_error internal "Expected a JSON object from AsterixDB.")
parsed_object none = err (gateway_error internal "AsterixDB returned a non-JSON response.")

unfoldable pub parsed_array : Option Json → Result (List Json)
unfolding to_list
parsed_array (some (arr vs)) = ok (to_list vs)
parsed_array (some v) = err (gateway_error internal "Expected a JSON array from AsterixDB.")
parsed_array none = err (gateway_error internal "AsterixDB returned a non-JSON response.")
