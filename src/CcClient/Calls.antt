-- ===== src/CcClient/Calls.antt =====
-- Sequences of calls of the client's methods that post a statement (src/asterixdb_mcp/cc_client.py).
use asterixdb_mcp_server.Prelude.{String, List, [], ◌∷◌}
use asterixdb_mcp_server.Prelude.Dict.{Dict}
use asterixdb_mcp_server.Json.{Json}
use asterixdb_mcp_server.Http.{Form, Env}
use asterixdb_mcp_server.QueryForm.{Query}
use asterixdb_mcp_server.CcClient.{
  Client, execute, submit_async, compile_query, execute_memory_write, execute_memory_read,
}
use asterixdb_mcp_server.CcClient.ReadOnly.{
  recording, OnlyAllowed, execute-Preserves, submit_async-Preserves, compile_query-Preserves,
  execute_memory_read-Preserves, execute_memory_write-Preserves,
}

-- A call of one of the methods that post a statement.
pub data Call : Type 0 where
  execute_call submit_async_call compile_query_call : Query → Call
  memory_write_call memory_read_call :
      (statement client_context_id : String) (statement_parameters : Dict Json) → Call

unfoldable run : {W : Type 0} → Env W → Client → Call → W → W
run env client (execute_call q) w = (execute env client q w).1
run env client (submit_async_call q) w = (submit_async env client q w).1
run env client (compile_query_call q) w = (compile_query env client q w).1
run env client (memory_write_call statement id parameters) w =
    (execute_memory_write env client statement id parameters w).1
run env client (memory_read_call statement id parameters) w =
    (execute_memory_read env client statement id parameters w).1

unfoldable pub run_all : {W : Type 0} → Env W → Client → List Call → W → W
unfolding run
run_all env client [] w = w
run_all env client (call ∷ calls) w = run_all env client calls (run env client call w)

module _ {W : Type 0} (env : Env W) (client : Client) where
  run-OnlyAllowed :
      (call : Call) (w : W × List Form)
      → OnlyAllowed env client w
      → OnlyAllowed env client (run (recording env) client call w)
  unfolding run
  run-OnlyAllowed (execute_call q) w h = (execute-Preserves env client q).after w h
  run-OnlyAllowed (submit_async_call q) w h = (submit_async-Preserves env client q).after w h
  run-OnlyAllowed (compile_query_call q) w h = (compile_query-Preserves env client q).after w h
  run-OnlyAllowed (memory_write_call statement id parameters) w h =
      (execute_memory_write-Preserves env client statement id parameters).after w h
  run-OnlyAllowed (memory_read_call statement id parameters) w h =
      (execute_memory_read-Preserves env client statement id parameters).after w h

  -- However a client is used, and whatever the cluster answers, every form that it posts says
  -- `readonly=true`, but for the statements that the guard of the memory write path lets through,
  -- and those only with writes enabled and a tenant bound.
  pub run_all-OnlyAllowed :
      (calls : List Call) (w : W)
      → OnlyAllowed env client (run_all (recording env) client calls (w, []))
  unfolding run_all
  run_all-OnlyAllowed calls w = all_calls calls (w, []) tt
    where
      all_calls :
          (calls : List Call) (w : W × List Form)
          → OnlyAllowed env client w
          → OnlyAllowed env client (run_all (recording env) client calls w)
      all_calls [] w h = h
      all_calls (call ∷ calls) w h = all_calls calls _ (run-OnlyAllowed call w h)
