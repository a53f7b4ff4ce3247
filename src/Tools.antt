-- ===== src/Tools.antt =====
-- The answer of a tool: src/asterixdb_mcp/tools/__init__.py, and the download of what a truncated
-- answer leaves out: `overflow_artifact_payload` of src/asterixdb_mcp/artifacts.py.
pub mod AsyncQuery
pub mod Wait
pub mod Fetch
pub mod Cancel
pub mod Submit
pub mod Execute
pub mod Ownership
pub mod Refusals
pub mod Handoff
use asterixdb_mcp_server.Prelude.{
  Bool, true, false, not, ◌||◌, String, Option, none, some, List, [], ◌∷◌, ◌<>◌, if◌then◌else◌,
}
use asterixdb_mcp_server.Json.{Json, Fields}
use asterixdb_mcp_server.Errors.{GatewayError, error_value, to_structured}
use asterixdb_mcp_server.Config.{Settings}

pub record ToolResult : Type 0 where
  pub text : String
  pub structured : Fields
  pub is_error : Bool

-- `ToolResult.error`
unfoldable pub tool_error : GatewayError → ToolResult
unfolding error_value to_structured
tool_error e = record {
  text = error_value e.error_type <> ": " <> e.message;
  structured = to_structured e;
  is_error = true;
}

abbrev no_rows : List Json → Bool
no_rows [] = true
no_rows (row ∷ rows) = false

-- `overflow_artifact_payload`. `write` stores the file and gives the payload that describes it: the
-- file system, the clock and `uuid`.
unfoldable pub overflow_artifact_payload :
    {W : Type 0}
    → (List Json → W → Fields × W)
    → Settings
    → Bool
    → List Json
    → W
    → Option Fields × W
overflow_artifact_payload write settings overflow rows w =
    if not overflow || not settings.artifacts_enabled || no_rows rows
    then (none, w)
    else (let (payload, w') = write rows w in (some payload, w'))
