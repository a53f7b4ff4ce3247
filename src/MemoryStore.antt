-- ===== src/MemoryStore.antt =====
-- Who owns a memory row, and which statements may write one: src/asterixdb_mcp/memory_store.py, and
-- the guard of the client's write path in src/asterixdb_mcp/cc_client.py.
pub mod Owner
use asterixdb_mcp_server.Prelude.{
  Bool, false, ◌||◌, String, Option, some, List, [], ◌∷◌, starts, is_space, strip_left, ◌==◌,
}
use asterixdb_mcp_server.Prelude.Dict
use asterixdb_mcp_server.Prelude.Dict.{Dict}
use asterixdb_mcp_server.Json.{Json, str, obj, Fields, set}

-- The statements that the memory write path lets through.
abbrev pub memory_write_prefixes : List String
memory_write_prefixes =
    "INSERT INTO AgentMemory.Memory" ∷ "UPSERT INTO AgentMemory.Memory"
    ∷ "INSERT INTO AgentMemory.SessionEvent" ∷ "UPSERT INTO AgentMemory.SessionEvent" ∷ []

abbrev pub bootstrap_statements : List String
bootstrap_statements =
    "CREATE DATAVERSE AgentMemory IF NOT EXISTS;"
    ∷ "CREATE TYPE AgentMemory.MemoryType IF NOT EXISTS AS OPEN { id: string };"
    ∷ "CREATE DATASET AgentMemory.Memory(MemoryType) IF NOT EXISTS PRIMARY KEY id;"
    ∷ "CREATE INDEX memSubject IF NOT EXISTS ON AgentMemory.Memory(subject: string?) ENFORCED;"
    ∷ "CREATE INDEX memText IF NOT EXISTS ON AgentMemory.Memory(`text`: string?) TYPE FULLTEXT ENFORCED;"
    ∷ "CREATE INDEX memPrincipal IF NOT EXISTS ON AgentMemory.Memory(principal: string?) ENFORCED;"
    ∷ "CREATE TYPE AgentMemory.SessionEventType IF NOT EXISTS AS OPEN { id: string };"
    ∷ "CREATE DATASET AgentMemory.SessionEvent(SessionEventType) IF NOT EXISTS PRIMARY KEY id;"
    ∷ "CREATE INDEX evtPrincipal IF NOT EXISTS ON AgentMemory.SessionEvent(principal: string?) ENFORCED;"
    ∷ []

abbrev pub principal_field : String
principal_field = "principal"

abbrev pub principal_parameter : String
principal_parameter = "$principal"

-- `tag`
unfoldable pub tag : Fields → String → Fields
unfolding set
tag row principal = set principal_field (str principal) row

-- `_owned_by`: the bound row, if it is a dict, becomes the tenant's.
abbrev owned_row : Option Json → String → Dict Json → Dict Json
unfolding tag
owned_row (some (obj row)) principal parameters =
    Dict.put "row" (obj (tag row principal)) parameters
owned_row _ principal parameters = parameters

unfoldable pub owned_by : Dict Json → String → Dict Json
unfolding owned_row
owned_by parameters principal = owned_row (Dict.get "row" parameters) principal parameters

unfoldable pub any_starts : List String → String → Bool
any_starts [] s = false
any_starts (p ∷ ps) s = starts p s || any_starts ps s

member_of : String → List String → Bool
member_of s [] = false
member_of s (t ∷ ts) = (s == t) || member_of s ts

-- The statement guard of `execute_memory_write`.
unfoldable pub is_memory_write : String → Bool
unfolding any_starts member_of strip_left
is_memory_write statement =
    any_starts memory_write_prefixes (strip_left is_space statement)
    || member_of statement bootstrap_statements
