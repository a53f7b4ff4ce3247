-- ===== src/MemoryWrite/Run/Settled.antt =====
-- What a write leaves in the store: `run_memory_write` of src/asterixdb_mcp/tools/memory_write.py.
use asterixdb_mcp_server.Prelude.{◌≡◌, refl, Bool, false, String, Option, List, ◌==◌}
use asterixdb_mcp_server.Json
use asterixdb_mcp_server.Json.{Json, ℤ}
use asterixdb_mcp_server.Errors.{Result, ok}
use asterixdb_mcp_server.Http.{Env, pure, continue, ◌>>=◌}
use asterixdb_mcp_server.CcClient.{Client}
use asterixdb_mcp_server.MemoryWrite.{Note, Outcome, authored}
use asterixdb_mcp_server.MemoryWrite.Answers.{written_result}
use asterixdb_mcp_server.MemoryWrite.Run.{insert, write_row, supersede, record_note}

module _ {W : Type 0} (env : Env W) (client : Client) (to_int : Json → Option ℤ)
    (float_text : String → String) (float_leb : String → String → Bool) where
  -- What a write that is made ends in, if the stored row could be retired.
  pub record_note-inserts :
      (ccid original : String) (author : Option String) (existing : Option Json.Fields)
      (note : Note) (conflicts : List String) (o : Outcome) (retired : Json.Fields) (w w' w'' : W)
      (inserted : Result Json.Fields)
      → (o.0 == "unchanged") ≡ false
      → supersede env client ccid note.now existing w ≡ (ok retired, w')
      → write_row env client insert ccid (authored author o.1) w' ≡ (inserted, w'')
      → record_note env client ccid original existing author note conflicts o w
        ≡ continue inserted
            (λ envelope. pure (
              written_result env.container_text note original o.0
                (authored author o.1)
                o.2
                conflicts))
            w''
  unfolding record_note ◌>>=◌
  record_note-inserts ccid original author existing note conflicts (action, row, n) retired w w' w''
        inserted changed first second =
      rw (changed, record_note) (rw (first, ◌>>=◌) (rw (second, ◌>>=◌) refl))
