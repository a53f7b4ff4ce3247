-- ===== src/CcClient.antt =====
-- The client of the cluster controller: src/asterixdb_mcp/cc_client.py. Each method is an action over
-- the state of the outside world. A message leaves out the base address and the exception's text.
pub mod ReadOnly
pub mod Calls
pub mod Retry
use Prim.Native.Char.{Char}
use asterixdb_mcp_server.Prelude.{
  ℕ, Bool, true, false, not, ◌&&◌, ◌||◌, String, Option, none, some, List, [], ◌∷◌, ◌++◌, nat_eq,
  nonempty, lower, starts, within, is_space, strip_left, show, repr, ◌<>◌, ◌==◌, if◌then◌else◌,
}
use asterixdb_mcp_server.Prelude.Dict
use asterixdb_mcp_server.Prelude.Dict.{Dict}
use asterixdb_mcp_server.Json.{
  Json, null, bool, int, float, str, arr, obj, Items, nil, cons, Fields, find, lookup, member, set,
  truthy, to_list,
}
use asterixdb_mcp_server.Errors.{
  GatewayError, gateway_error, timeout, not_found, forbidden, internal, Result, ok, err, crash,
}
use asterixdb_mcp_server.Errors.Classify.{classify_cc_error}
use asterixdb_mcp_server.Config.{Settings}
use asterixdb_mcp_server.Egress.{format_timeout, enforce_byte_ceiling}
use asterixdb_mcp_server.Http.{
  Form, Transport, response, stale, timed_out, failed, Env, Exec, pure, raise, lift, ◌>>=◌, ◌>>◌,
}
use asterixdb_mcp_server.QueryForm.{Query, query, build_query_form}
use asterixdb_mcp_server.MemoryStore.{
  owned_by, is_memory_write, principal_field, principal_parameter,
}
use asterixdb_mcp_server.Envelope.{
  raise_on_envelope_errors, raise_on_envelope_error, parsed_object, parsed_array,
}

unfoldable pub headers : Settings → Form
headers settings = elim settings.cc_shared_secret [
  | none ↦ ("Accept", "application/json") ∷ []
  | some s ↦
      if nonempty s
      then ("Accept", "application/json") ∷ ("X-Gateway-Secret", s) ∷ []
      else ("Accept", "application/json") ∷ []
]

pub record Client : Type 0 where
  pub settings : Settings
  pub principal : Option String

unfoldable pub for_principal : String → Client → Client
for_principal principal client = record client { principal = some principal }

module _ {W : Type 0} (env : Env W) (client : Client) where
  open client use {settings}

  post_query_once : Form → W → Transport × W
  unfolding headers
  post_query_once form = env.post "/query/service" form (headers settings)

  -- The body within the ceiling, parsed.
  pub body_object : List ℕ → Result Fields
  unfolding parsed_object enforce_byte_ceiling
  body_object content = elim (enforce_byte_ceiling content settings.max_bytes_per_query) [
    | ok body ↦ parsed_object (env.loads body)
    | err e ↦ err e
    | crash ↦ crash
  ]

  body_array : List ℕ → Result (List Json)
  unfolding parsed_array enforce_byte_ceiling
  body_array content = elim (enforce_byte_ceiling content settings.max_bytes_per_query) [
    | ok body ↦ parsed_array (env.loads body)
    | err e ↦ err e
    | crash ↦ crash
  ]

  reset_error : GatewayError
  reset_error =
      gateway_error internal
        "Connection to AsterixDB was reset and could not be re-established (the cluster may be restarting)."

  -- The retry: any `HTTPError` is final there.
  second_post : Transport × W → Result Fields × W
  unfolding body_object reset_error
  second_post (response status content, w) = (body_object content, w)
  second_post (stale _, w) = (err reset_error, w)
  second_post (timed_out _, w) = (err reset_error, w)
  second_post (failed _, w) = (err reset_error, w)

  first_post : Form → Transport × W → Result Fields × W
  unfolding body_object second_post
  first_post form (response status content, w) = (body_object content, w)
  first_post form (stale _, w) = second_post (post_query_once form w)
  first_post form (timed_out _, w) =
      (err (gateway_error timeout "AsterixDB did not respond within the request timeout."), w)
  first_post form (failed _, w) = (err (gateway_error internal "Failed to reach AsterixDB."), w)

  -- `_post_query`
  unfoldable pub post_query : Form → Exec W Fields
  unfolding first_post post_query_once
  post_query form w = first_post form (post_query_once form w)

  -- `_build_query_form` with the settings' timeout
  unfoldable pub query_form : Query → Result Form
  unfolding build_query_form format_timeout
  query_form q = elim (format_timeout settings.max_time_ms) [
    | ok t ↦ ok (build_query_form env.dumps env.container_text t q)
    | err e ↦ err e
    | crash ↦ crash
  ]

  -- `execute`; the query carries its keyword arguments.
  unfoldable pub execute : Query → Exec W Fields
  execute q = do
    form ← lift (query_form q)
    envelope ← post_query form
    lift (raise_on_envelope_error env.container_text envelope)
    pure envelope

  abbrev write_disabled : GatewayError
  write_disabled =
      gateway_error forbidden
        "Memory writes are disabled. Set ASTERIXDB_MCP_MEMORY_WRITE_ENABLED=true to allow the memory_write tool to persist notes."

  abbrev not_memory_write : GatewayError
  not_memory_write =
      gateway_error forbidden
        "Only INSERT/UPSERT statements targeting the AgentMemory store (or its exact bootstrap DDL) are permitted on the memory write path."

  abbrev unbound_write : GatewayError
  unbound_write =
      gateway_error internal "Refusing to write memory from a client that is not bound to a tenant."

  -- The part of `execute_memory_write` below its guards.
  unfoldable pub write_as : String → String → String → Dict Json → Exec W Fields
  write_as principal statement client_context_id statement_parameters = do
    form ← lift (
        query_form (record (query statement client_context_id) {
          statement_parameters = owned_by statement_parameters principal;
        }))
    envelope ← post_query (Dict.put "readonly" "false" form)
    lift (raise_on_envelope_error env.container_text envelope)
    pure envelope

  write_bound : Option String → String → String → Dict Json → Exec W Fields
  unfolding write_as
  write_bound none statement client_context_id statement_parameters = raise unbound_write
  write_bound (some principal) statement client_context_id statement_parameters =
      write_as principal statement client_context_id statement_parameters

  unfoldable pub execute_memory_write : String → String → Dict Json → Exec W Fields
  unfolding write_bound is_memory_write
  execute_memory_write statement client_context_id statement_parameters =
      if not settings.memory_write_enabled
      then raise write_disabled
      else if not (is_memory_write statement)
      then raise not_memory_write
      else write_bound client.principal statement client_context_id statement_parameters

  -- The part of `execute_memory_read` below its guards.
  read_bound : Option String → String → String → Dict Json → Exec W Fields
  unfolding execute
  read_bound none statement client_context_id statement_parameters = raise (
      gateway_error internal "Refusing to read memory from a client that is not bound to a tenant.")
  read_bound (some principal) statement client_context_id statement_parameters =
      if within principal_parameter statement
      then execute (record (query statement client_context_id) {
        statement_parameters = Dict.put principal_field (str principal) statement_parameters;
      })
      else raise (
          gateway_error internal
            "Refusing to run a memory query that does not filter on $principal; it would read every tenant's rows.")

  unfoldable pub execute_memory_read : String → String → Dict Json → Exec W Fields
  unfolding read_bound
  execute_memory_read = read_bound client.principal

  unfoldable pub submit_async : Query → Exec W Fields
  submit_async q = do
    form ← lift (query_form (record q { mode = some "async" }))
    envelope ← post_query form
    lift (raise_on_envelope_errors envelope)
    pure envelope

  unfoldable pub compile_query : Query → Exec W Fields
  compile_query q = do form ← lift (query_form (record q { compile_only = true })); post_query form

  unfoldable pub get_outcome :
      {A : Type 0} → (List ℕ → Result A) → String → Transport × W → Result A × W
  get_outcome read path (response status content, w) = (read content, w)
  get_outcome read path (timed_out _, w) =
      (err (gateway_error timeout ("AsterixDB admin endpoint " <> path <> " timed out.")), w)
  get_outcome read path (stale exc, w) = (
    err (
        gateway_error internal
          ("Failed to reach AsterixDB admin endpoint " <> path <> ": " <> exc)),
    w,
  )
  get_outcome read path (failed exc, w) = (
    err (
        gateway_error internal
          ("Failed to reach AsterixDB admin endpoint " <> path <> ": " <> exc)),
    w,
  )

  -- `_get_json`, which `poll_status` and `fetch_result` call with a handle
  unfoldable pub get_json : String → Exec W Fields
  unfolding get_outcome body_object headers
  get_json path w = get_outcome body_object path (env.get path [] (headers settings) w)

  unfoldable pub poll_status : String → Exec W Fields
  unfolding get_json
  poll_status handle = get_json handle

  unfoldable pub fetch_result : String → Exec W Fields
  unfolding get_json
  fetch_result handle = get_json handle

  unfoldable pub admin_running_requests : Bool → Exec W (List Json)
  unfolding get_outcome body_array headers
  admin_running_requests redact w = get_outcome body_array "/admin/requests/running" (
      env.get "/admin/requests/running" (if redact then ("redact", "true") ∷ [] else [])
        (headers settings) w)

  unfoldable pub cancel_status : String → ℕ → Result Bool
  cancel_status client_context_id status =
      if nat_eq status 200
      then ok true
      else if nat_eq status 404
      then err (
          gateway_error not_found (
            "No running request found for clientContextID "
            <> repr client_context_id
            <> ". It may have already finished or been cancelled."))
      else if nat_eq status 403
      then err (
          gateway_error forbidden (
            "The request for clientContextID "
            <> repr client_context_id
            <> " exists but cannot be cancelled."))
      else err (gateway_error internal ("Cancel returned unexpected status " <> show status <> "."))

  unfoldable pub cancel_outcome : String → Transport × W → Result Bool × W
  unfolding cancel_status
  cancel_outcome client_context_id (response status content, w) =
      (cancel_status client_context_id status, w)
  cancel_outcome client_context_id (timed_out _, w) =
      (err (gateway_error timeout "Cancel request timed out."), w)
  cancel_outcome client_context_id (stale exc, w) =
      (err (gateway_error internal ("Failed to reach AsterixDB to cancel request: " <> exc)), w)
  cancel_outcome client_context_id (failed exc, w) =
      (err (gateway_error internal ("Failed to reach AsterixDB to cancel request: " <> exc)), w)

  unfoldable pub cancel : String → Exec W Bool
  unfolding cancel_outcome headers
  cancel client_context_id w = cancel_outcome client_context_id (
      env.delete "/admin/requests/running" (("client_context_id", client_context_id) ∷ [])
        (headers settings) w)
