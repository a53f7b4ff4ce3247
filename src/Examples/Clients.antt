-- ===== src/Examples/Clients.antt =====
-- The client's forms, its requests, the ids, the log and the pool, on concrete data.
use asterixdb_mcp_server.Prelude.{All, ◌≡◌, refl, false, none, some, List, [], ◌∷◌, ◌++◌}
use asterixdb_mcp_server.Prelude.Dict
use asterixdb_mcp_server.Json.{str, obj, Fields, field, end}
use asterixdb_mcp_server.MemoryStore.{owned_by}
use asterixdb_mcp_server.MemoryStore.Owner.{IsOwned, owned_by-IsOwned}
use asterixdb_mcp_server.Errors.{GatewayError, gateway_error, internal}
use asterixdb_mcp_server.QueryForm.{Query, query, build_query_form}
use asterixdb_mcp_server.QueryForm.Enforced.{build_query_form-readonly}
use asterixdb_mcp_server.CcClient.{post_query}
use asterixdb_mcp_server.CcClient.ReadOnly.{recording, OnlyAllowed}
use asterixdb_mcp_server.CcClient.Calls.{
  Call, execute_call, memory_write_call, run_all, run_all-OnlyAllowed,
}
use asterixdb_mcp_server.CcClient.Retry.{answer, posts, post_query-posted}
use asterixdb_mcp_server.ContextId.{
  make_client_context_id, parse_client_context_id, sanitize_segment, or_empty, max_user_tag_length,
}
use asterixdb_mcp_server.ContextId.RoundTrip.{parse-make_client_context_id}
use asterixdb_mcp_server.AuditLog.{recent}
use asterixdb_mcp_server.AuditLog.Recent.{IsRecent, recent-IsRecent}
use asterixdb_mcp_server.Permits.{PermitPool, init, take}
use asterixdb_mcp_server.Permits.Steps.{enter, here, next, IsAccurate, Reach-IsAccurate}
use asterixdb_mcp_server.TenantPolicy.Statement.{authorize_statement}
use asterixdb_mcp_server.TenantPolicy.Statement.CompilesOnly.{
  IsCompilation, authorize_statement-OnlyCompiled,
}
use asterixdb_mcp_server.Scopes.{Identity, empty, for_call}
use asterixdb_mcp_server.Scopes.Isolated
use asterixdb_mcp_server.Scopes.Isolated.{IsOwn, for_call-Reach}
use asterixdb_mcp_server.Examples.{the_settings, the_pool, the_log, the_client, the_env}

-- A query whose tuning knobs and bound parameters try to switch the fields that matter.
abbrev sly : Query
sly = record (query "SELECT 1;" "alpha::_::u1") {
  compiler_parameters = ("readonly", str "false") ∷ [];
  statement_parameters = ("statement", str "DELETE") ∷ [];
}

build_query_form-readonly_example :
    (Dict.get "readonly" (build_query_form (λ v. "null") (λ v. "[]") "5ms" sly) ≡ some "true")
    × (Dict.get "timeout" (build_query_form (λ v. "null") (λ v. "[]") "5ms" sly) ≡ some "5ms")
build_query_form-readonly_example = build_query_form-readonly (λ v. "null") (λ v. "[]") "5ms" sly

abbrev some_calls : List Call
some_calls =
    execute_call sly ∷ memory_write_call "DROP DATASET Yelp.Business;" "alpha::_::u2" [] ∷ []

run_all-OnlyAllowed_example :
    OnlyAllowed the_env the_client (run_all (recording the_env) the_client some_calls (0, []))
run_all-OnlyAllowed_example = run_all-OnlyAllowed the_env the_client some_calls 0

post_query-posted_example :
    (post_query (recording the_env) the_client (("statement", "SELECT 1;") ∷ []) (0, [])).1.1
    ≡ []
      ++ posts the_env the_client
          (("statement", "SELECT 1;") ∷ [])
          (answer the_env the_client (("statement", "SELECT 1;") ∷ []) 0).0
post_query-posted_example =
    post_query-posted the_env the_client (("statement", "SELECT 1;") ∷ []) 0 []

parse-make_client_context_id_example :
    parse_client_context_id (make_client_context_id "al:pha" (some "my tag") "u1")
    ≡ some (
      sanitize_segment "al:pha" none,
      sanitize_segment (or_empty (some "my tag")) (some max_user_tag_length),
      sanitize_segment "u1" none,
    )
parse-make_client_context_id_example = parse-make_client_context_id "al:pha" (some "my tag") "u1"

recent-IsRecent_example : IsRecent 9 5 false the_log (recent 9 5 false the_log).0
recent-IsRecent_example = recent-IsRecent 9 5 false the_log

abbrev taken_pool : PermitPool
taken_pool = record {
  capacity = 2;
  name = "result wait";
  per_principal = 1;
  in_use = 1;
  held = ("alice", 1) ∷ [];
}

Reach-IsAccurate_example : IsAccurate (record { pool = taken_pool; running = "alice" ∷ [] })
unfolding init take Dict.get Dict.put
Reach-IsAccurate_example =
    Reach-IsAccurate 2 "result wait" (some 1) {p = the_pool} refl (next here (enter "alice" refl))

abbrev internal_error : GatewayError
internal_error = gateway_error internal "The cluster is gone."

abbrev alice : Identity
alice = record { principal = "alice"; session = "k1" }

abbrev bob : Identity
bob = record { principal = "bob"; session = "k1" }

for_call-Reach_example :
    IsOwn
      (some "s1")
      bob
      (for_call (some "s1") alice empty).1
      (for_call (some "s1") bob (for_call (some "s1") alice empty).1)
for_call-Reach_example =
    for_call-Reach (some "s1") bob (Isolated.called (some "s1") alice Isolated.start)

authorize_statement-OnlyCompiled_example :
    All IsCompilation
      (authorize_statement
        (recording the_env)
        the_client
        the_settings
        "DELETE FROM Yelp.Business;"
        none
        "alpha::_::u1"
        (0, [])).1.1
authorize_statement-OnlyCompiled_example =
    authorize_statement-OnlyCompiled the_env the_client the_settings "DELETE FROM Yelp.Business;"
      none "alpha::_::u1" 0

abbrev forged_row : Fields
forged_row = field "id" (str "n1") (field "principal" (str "bob") end)

owned_by-IsOwned_example :
    IsOwned forged_row "alice"
      (("row", obj forged_row) ∷ [])
      (owned_by (("row", obj forged_row) ∷ []) "alice")
unfolding Dict.get
owned_by-IsOwned_example = owned_by-IsOwned (("row", obj forged_row) ∷ []) "alice" forged_row refl
