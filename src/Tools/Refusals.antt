-- ===== src/Tools/Refusals.antt =====
-- What a tool answers that did not do what it was asked for: an error of the taxonomy, or an exception.
use asterixdb_mcp_server.Prelude.{◌≡◌, true, Never}
use asterixdb_mcp_server.Errors.{Result, ok, err, crash}
use asterixdb_mcp_server.Tools.{ToolResult}

unfoldable pub IsFailure : {A : Type 0} → Result A → Type 0
IsFailure (ok a) = Never {0}
IsFailure (err e) = Unit {0}
IsFailure crash = Unit {0}

unfoldable pub IsRefusal : Result ToolResult → Type 0
IsRefusal (ok result) = result.is_error ≡ true
IsRefusal (err e) = Unit {0}
IsRefusal crash = Unit {0}
