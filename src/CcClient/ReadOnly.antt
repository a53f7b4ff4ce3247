-- ===== src/CcClient/ReadOnly.antt =====
-- The forms that the methods of src/asterixdb_mcp/cc_client.py post, recorded.
use asterixdb_mcp_server.Prelude.{
  within, ◌≡◌, refl, ◌∙◌, Bool, true, false, not, String, Option, none, some, List, [], ◌∷◌, ◌++◌,
  arith, All, All-append, show, ◌<>◌,
}
use asterixdb_mcp_server.Prelude.Dict
use asterixdb_mcp_server.Prelude.Dict.{Dict, get-put}
use asterixdb_mcp_server.Json.{Json, str, Fields}
use asterixdb_mcp_server.Errors.{Result, ok}
use asterixdb_mcp_server.Http.{
  Form, Transport, response, stale, timed_out, failed, Env, lift, pure, ◌>>◌,
}
use asterixdb_mcp_server.Http.Preserves.{
  Preserves, Preserves-pure, Preserves-raise, Preserves-test, Preserves-then, Preserves-lift-then,
}
use asterixdb_mcp_server.QueryForm.{Query, query, build_query_form}
use asterixdb_mcp_server.QueryForm.Enforced.{build_query_form-readonly, build_query_form-statement}
use asterixdb_mcp_server.Egress.{format_timeout}
use asterixdb_mcp_server.Envelope.{raise_on_envelope_error, raise_on_envelope_errors}
use asterixdb_mcp_server.MemoryStore.{
  is_memory_write, owned_by, principal_field, principal_parameter,
}
use asterixdb_mcp_server.CcClient.{
  Client, post_query_once, second_post, first_post, post_query, query_form, execute, write_as,
  write_bound, execute_memory_write, read_bound, execute_memory_read, submit_async, compile_query,
}

-- The outside world, with a list of the forms that were posted to it.
module _ {W : Type 0} where
  abbrev logged : Form → List Form → Transport × W → Transport × (W × List Form)
  logged form posted (t, w) = (t, (w, posted ++ (form ∷ [])))

  abbrev beside : List Form → Transport × W → Transport × (W × List Form)
  beside posted (t, w) = (t, (w, posted))

  abbrev pub recording : Env W → Env (W × List Form)
  recording env = record {
    post = λ path form headers (w, posted). logged form posted (env.post path form headers w);
    get = λ path params headers (w, posted). beside posted (env.get path params headers w);
    delete = λ path params headers (w, posted). beside posted (env.delete path params headers w);
    loads = env.loads;
    dumps = env.dumps;
    container_text = env.container_text;
  }

-- A form is read-only; or it is a statement of the memory write path, writes are enabled, and the
-- client is bound to a tenant.
pub data IsAllowed (client : Client) (form : Form) : Type 0 where
  reads : Dict.get "readonly" form ≡ some "true" → IsAllowed client form
  writes :
      (statement principal : String)
      → client.settings.memory_write_enabled ≡ true
      → Dict.get "statement" form ≡ some statement
      → is_memory_write statement ≡ true
      → client.principal ≡ some principal
      → IsAllowed client form

not-false : {b : Bool} → not b ≡ false → b ≡ true
not-false {b} h = ground arith

module _ {W : Type 0} (env : Env W) (client : Client) where
  -- Every form that was posted is an allowed one.
  abbrev pub OnlyAllowed : W × List Form → Type 0
  OnlyAllowed (w, posted) = All (IsAllowed client) posted

  second_post-world :
      (t : Transport) (w : W × List Form) → (second_post (recording env) client (t, w)).1 ≡ w
  unfolding second_post
  second_post-world (response s c) w = refl
  second_post-world (stale e) w = refl
  second_post-world (timed_out e) w = refl
  second_post-world (failed e) w = refl

  post_query_once-OnlyAllowed :
      (form : Form) (w : W × List Form)
      → IsAllowed client form
      → OnlyAllowed w
      → OnlyAllowed (post_query_once (recording env) client form w).1
  unfolding post_query_once
  post_query_once-OnlyAllowed form (w, l) a h =
      All-append (IsAllowed client) l (form ∷ []) h (a, tt)

  first_post-OnlyAllowed :
      (form : Form) (t : Transport) (w : W × List Form)
      → IsAllowed client form
      → OnlyAllowed w
      → OnlyAllowed (first_post (recording env) client form (t, w)).1
  unfolding first_post
  first_post-OnlyAllowed form (response s c) w a h = h
  first_post-OnlyAllowed form (stale e) w a h =
      let again = post_query_once (recording env) client form w in
      rw (second_post-world again.0 again.1) (post_query_once-OnlyAllowed form w a h)
  first_post-OnlyAllowed form (timed_out e) w a h = h
  first_post-OnlyAllowed form (failed e) w a h = h

  post_query-Preserves :
      (form : Form)
      → IsAllowed client form
      → Preserves OnlyAllowed (post_query (recording env) client form)
  unfolding post_query
  post_query-Preserves form a = record {
    after = λ w h.
        let once = post_query_once (recording env) client form w in
        first_post-OnlyAllowed form once.0 once.1 a (post_query_once-OnlyAllowed form w a h);
  }

  abbrev pub timeout_text : String
  timeout_text = show client.settings.max_time_ms <> "ms"

  pub query_form_lem :
      (q : Query) (form : Form)
      → query_form (recording env) client q ≡ ok form
      → form ≡ build_query_form env.dumps env.container_text timeout_text q
  unfolding query_form format_timeout
  query_form_lem q form h = ground arith

  query_form-IsAllowed :
      (q : Query) (form : Form)
      → query_form (recording env) client q ≡ ok form
      → IsAllowed client form
  query_form-IsAllowed q form h = reads (
      rw (query_form_lem q form h)
        (build_query_form-readonly env.dumps env.container_text timeout_text q).0)

  finish-Preserves :
      (r : Fields → Result (Unit {0})) (envelope : Fields)
      → Preserves OnlyAllowed (lift (r envelope) >> pure envelope)
  finish-Preserves r envelope = Preserves-lift-then (r envelope) _ (λ u e. Preserves-pure envelope)

  pub execute-Preserves : (q : Query) → Preserves OnlyAllowed (execute (recording env) client q)
  unfolding execute
  execute-Preserves q = Preserves-lift-then (query_form (recording env) client q) _ (λ form e.
      Preserves-then (post_query (recording env) client form) _
        (post_query-Preserves form (query_form-IsAllowed q form e))
        (λ envelope. finish-Preserves (raise_on_envelope_error env.container_text) envelope))

  pub submit_async-Preserves :
      (q : Query) → Preserves OnlyAllowed (submit_async (recording env) client q)
  unfolding submit_async
  submit_async-Preserves q =
      let q' : Query = record q { mode = some "async" } in
      Preserves-lift-then (query_form (recording env) client q') _ (λ form e.
        Preserves-then (post_query (recording env) client form) _
          (post_query-Preserves form (query_form-IsAllowed q' form e))
          (λ envelope. finish-Preserves raise_on_envelope_errors envelope))

  pub compile_query-Preserves :
      (q : Query) → Preserves OnlyAllowed (compile_query (recording env) client q)
  unfolding compile_query
  compile_query-Preserves q =
      let q' : Query = record q { compile_only = true } in
      Preserves-lift-then (query_form (recording env) client q') _
        (λ form e. post_query-Preserves form (query_form-IsAllowed q' form e))

  read_bound-Preserves :
      (principal : Option String) (statement id : String) (parameters : Dict Json)
      → Preserves OnlyAllowed (read_bound (recording env) client principal statement id parameters)
  unfolding read_bound
  read_bound-Preserves none statement id parameters = Preserves-raise _
  read_bound-Preserves (some principal) statement id parameters =
      Preserves-test (within principal_parameter statement) _ _
        (λ e. execute-Preserves (record (query statement id) {
          statement_parameters = Dict.put principal_field (str principal) parameters;
        }))
        (λ e. Preserves-raise _)

  written_statement :
      (q : Query) (form : Form)
      → q.compiler_parameters ≡ []
      → query_form (recording env) client q ≡ ok form
      → Dict.get "statement" (Dict.put "readonly" "false" form) ≡ some q.statement
  unfolding Dict.get
  written_statement q form free e =
      get-put "readonly" "statement" "false" form
      ∙ rw (query_form_lem q form e)
          (build_query_form-statement env.dumps env.container_text timeout_text q (rw free))

  write_as-Preserves :
      (principal statement id : String) (parameters : Dict Json)
      → client.settings.memory_write_enabled ≡ true
      → is_memory_write statement ≡ true
      → client.principal ≡ some principal
      → Preserves OnlyAllowed (write_as (recording env) client principal statement id parameters)
  unfolding write_as
  write_as-Preserves principal statement id parameters enabled allowed bound =
      let q : Query = record (query statement id) {
        statement_parameters = owned_by parameters principal;
      } in
      Preserves-lift-then (query_form (recording env) client q) _ (λ form e.
        Preserves-then (post_query (recording env) client (Dict.put "readonly" "false" form)) _
          (post_query-Preserves _
            (writes statement principal enabled (written_statement q form refl e) allowed bound))
          (λ envelope. finish-Preserves (raise_on_envelope_error env.container_text) envelope))

  write_bound-Preserves :
      (p : Option String) (statement id : String) (parameters : Dict Json)
      → client.settings.memory_write_enabled ≡ true
      → is_memory_write statement ≡ true
      → client.principal ≡ p
      → Preserves OnlyAllowed (write_bound (recording env) client p statement id parameters)
  unfolding write_bound
  write_bound-Preserves none statement id parameters enabled allowed bound = Preserves-raise _
  write_bound-Preserves (some principal) statement id parameters enabled allowed bound =
      write_as-Preserves principal statement id parameters enabled allowed bound

  pub execute_memory_read-Preserves :
      (statement id : String) (parameters : Dict Json)
      → Preserves OnlyAllowed (execute_memory_read (recording env) client statement id parameters)
  unfolding execute_memory_read
  execute_memory_read-Preserves = read_bound-Preserves client.principal

  pub execute_memory_write-Preserves :
      (statement id : String) (parameters : Dict Json)
      → Preserves OnlyAllowed (execute_memory_write (recording env) client statement id parameters)
  unfolding execute_memory_write
  execute_memory_write-Preserves statement id parameters =
      Preserves-test (not client.settings.memory_write_enabled) _ _ (λ e. Preserves-raise _)
        (λ enabled.
          Preserves-test (not (is_memory_write statement)) _ _ (λ e. Preserves-raise _)
            (λ allowed.
              write_bound-Preserves client.principal statement id parameters (not-false enabled)
                (not-false allowed) refl))
