-- ===== src/MemoryWrite/Run/Reported.antt =====
-- What the store went through when a write is reported: `run_memory_write` of
-- src/asterixdb_mcp/tools/memory_write.py.
use asterixdb_mcp_server.Prelude.{◌≡◌, ◌⊎◌, Bool, String, Option, some}
use asterixdb_mcp_server.Json
use asterixdb_mcp_server.Json.{Json, ℤ, str, lookup}
use asterixdb_mcp_server.Errors.{Result, ok, err, crash}
use asterixdb_mcp_server.Http.{Env}
use asterixdb_mcp_server.CcClient.{Client}
use asterixdb_mcp_server.Tools.{ToolResult}
use asterixdb_mcp_server.MemoryWrite.{Note, current_after}
use asterixdb_mcp_server.MemoryWrite.Run.{insert, write_row, supersede}

module _ {W : Type 0} (env : Env W) (client : Client) (to_int : Json → Option ℤ)
    (float_text : String → String) (float_leb : String → String → Bool) where
  -- The stored row was retired, and then the row that is current after the note was inserted, both
  -- with success; the answer has the id of that row.
  unfoldable pub IsWritten :
      String → Option String → Option Json.Fields → Note → W → ToolResult → W → Type 0
  unfolding current_after
  IsWritten ccid author existing note before result after =
      (row retired inserted : Json.Fields) × (between : W) × (current_after env.container_text
          author existing note
        ≡ some row)
      × (supersede env client ccid note.now existing before ≡ (ok retired, between))
      × (write_row env client insert ccid row between ≡ (ok inserted, after))
      × (lookup "id" result.structured ≡ lookup "id" row)

  -- What an answer of the tool says of the store.
  unfoldable pub IsReported :
      String → Option String → Option Json.Fields → Note → W → Result ToolResult × W → Type 0
  unfolding IsWritten lookup
  IsReported ccid author existing note before (ok result, after) =
      (lookup "action" result.structured ≡ str "duplicate")
      ⊎ (((lookup "action" result.structured ≡ str "unchanged") × (after ≡ before))
          ⊎ IsWritten ccid author existing note before result after)
  IsReported ccid author existing note before (err e, after) = Unit {0}
  IsReported ccid author existing note before (crash, after) = Unit {0}

  module _ (ccid original : String) (author : Option String) (existing : Option Json.Fields)
      (note : Note) (before : W) where
    abbrev Reports : Result ToolResult × W → Type 0
    Reports = IsReported ccid author existing note before
