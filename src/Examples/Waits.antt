-- ===== src/Examples/Waits.antt =====
-- The tools for submitted queries, on concrete data.
use asterixdb_mcp_server.Prelude.{◌≡◌, refl, ◌&&◌, none, some, ◌==◌, if◌then◌else◌, arith}
use asterixdb_mcp_server.Prelude.Dict
use asterixdb_mcp_server.Json.{str, pos, Fields, end, field, lookup, as_str}
use asterixdb_mcp_server.Errors.{ok}
use asterixdb_mcp_server.ContextId.{
  make_client_context_id, sanitize_segment, parse_client_context_id, is_unsafe,
}
use asterixdb_mcp_server.AuditLog.{is_expired, with_result_handle}
use asterixdb_mcp_server.AuditLog.View.{view}
use asterixdb_mcp_server.Permits.Acquire.{KeepsPool}
use asterixdb_mcp_server.CcClient.{fetch_result}
use asterixdb_mcp_server.Tools.{tool_error}
use asterixdb_mcp_server.Tools.AsyncQuery.{foreign_error, check_ownership, terminal_result}
use asterixdb_mcp_server.Tools.Ownership.{foreign_id-refused}
use asterixdb_mcp_server.Tools.Wait.{wait_on_async_query}
use asterixdb_mcp_server.Tools.Wait.Ends.{Ticks, Ends}
use asterixdb_mcp_server.Tools.Wait.Permit.{wait_on_async_query-Ends, wait_on_async_query-KeepsPool}
use asterixdb_mcp_server.Tools.Fetch.{fetch_query_result, fetch_answer}
use asterixdb_mcp_server.Tools.Handoff.{fetch-terminal_result}
use asterixdb_mcp_server.Tools.Cancel.{cancel_query}
use asterixdb_mcp_server.Tools.Cancel.Forgets.{is_gone, deleted, cancel_query-view}
use asterixdb_mcp_server.Examples.{
  the_settings, the_pool, submitted, the_log, the_client, the_env, the_outside,
}

the-Ticks : Ticks the_env the_outside
the-Ticks = record {
  sleeps = λ ms w h. omega (arith, h);
  requests = λ path params headers w. omega arith;
}

foreign_id-refused_example :
    let id = make_client_context_id "beta" none "u9" in
    (wait_on_async_query the_env the_outside the_client the_settings 6 id none
        (the_pool, (the_log, 3))
      ≡ some (ok (tool_error foreign_error), (the_pool, (the_log, 3))))
    × (fetch_query_result the_env the_outside the_client the_settings id
          (pos 0)
          (pos 20)
          (the_log, 3)
        ≡ (ok (tool_error foreign_error), (the_log, 3)))
    × (cancel_query the_env the_client the_settings id (the_log, 3)
        ≡ (ok (tool_error foreign_error), (the_log, 3)))
unfolding sanitize_segment is_unsafe
foreign_id-refused_example =
    foreign_id-refused the_env the_outside the_client the_settings "beta" none "u9" 6 none (pos 0)
      (pos 20) the_pool the_log 3 refl

wait_on_async_query-Ends_example : Ends (
    wait_on_async_query the_env the_outside the_client the_settings 6 "alpha::_::u1" none
      (the_pool, (the_log, 4)))
wait_on_async_query-Ends_example =
    wait_on_async_query-Ends the_env the_outside the_client the_settings 6 "alpha::_::u1" none
      the_pool the_log 4 the-Ticks (omega arith) (omega arith)

wait_on_async_query-KeepsPool_example : KeepsPool the_pool (
    wait_on_async_query the_env the_outside the_client the_settings 6 "alpha::_::u1" none
      (the_pool, (the_log, 4)))
unfolding Dict.get
wait_on_async_query-KeepsPool_example =
    wait_on_async_query-KeepsPool the_env the_outside the_client the_settings 6 "alpha::_::u1" none
      the_pool the_log 4 (λ k n h. ground arith)

abbrev finished : Fields
finished = field "status" (str "success") (field "handle" (str "/result/1") end)

fetch-terminal_result_example :
    (fetch_query_result the_env the_outside the_client the_settings "alpha::_::u1"
      (pos 0)
      (pos 20)
      ((terminal_result 5 submitted finished "success" the_log).1, 9)).0
    ≡ (fetch_answer the_env the_outside the_client the_settings
        (with_result_handle "/result/1" submitted)
        (pos 0)
        (pos 20)
        (fetch_result the_env the_client "/result/1" 9)).0
unfolding check_ownership parse_client_context_id sanitize_segment is_unsafe lookup as_str
    is_expired Dict.get
fetch-terminal_result_example =
    fetch-terminal_result the_env the_outside the_client the_settings 5 submitted finished
      "/result/1" the_log (pos 0) (pos 20) 9 refl refl (refl, tt) (omega arith) refl

cancel_query-view_example :
    view 9
      (cancel_query the_env the_client the_settings "alpha::_::u1" (the_log, 4)).1.0
      "alpha::_::u1"
    ≡ (if is_gone (deleted the_env the_client "alpha::_::u1" 4).0
          && ("alpha::_::u1" == "alpha::_::u1")
        then none
        else view 9 the_log "alpha::_::u1")
unfolding check_ownership parse_client_context_id sanitize_segment is_unsafe
cancel_query-view_example =
    cancel_query-view the_env the_client the_settings "alpha::_::u1" the_log 4 9 "alpha::_::u1" refl
