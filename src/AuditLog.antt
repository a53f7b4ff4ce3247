-- ===== src/AuditLog.antt =====
-- The submission audit log: src/asterixdb_mcp/audit_log.py. Time is an argument, one reading of the
-- clock for each call; a method that deletes returns the log that is left.
pub mod View
pub mod Recent
pub mod Refines
use asterixdb_mcp_server.Prelude.{
  ℕ, ◌+◌, Bool, true, false, not, String, Option, none, some, List, [], ◌∷◌, ltb, leb, nat_eq,
  length, take, keep, ◌==◌, if◌then◌else◌,
}
use asterixdb_mcp_server.Prelude.Dict
use asterixdb_mcp_server.Prelude.Dict.{Dict, values}
use asterixdb_mcp_server.Json.{Json, null, str, arr, obj, nat, Fields, of_fields, of_list, array}

-- `class AuditEntry`
pub record AuditEntry : Type 0 where
  pub client_context_id : String
  pub session : String
  pub statement : String
  pub submitted_at : ℕ
  pub handle : Option String
  pub result_handle : Option String
  pub dataverse : Option String
  pub signature : Json
  pub advisory : Option Fields
  pub tool : Option String
  pub outcome : Option String
  pub error_type : Option String
  pub error_message : Option String
  pub rows_returned : Option ℕ

unfoldable pub with_handle : String → AuditEntry → AuditEntry
with_handle handle e = record e { handle = some handle }

unfoldable pub with_result_handle : String → AuditEntry → AuditEntry
with_result_handle result_handle e = record e { result_handle = some result_handle }

-- A text or `None`, as JSON.
abbrev pub opt_str : Option String → Json
opt_str none = null
opt_str (some s) = str s

abbrev pub opt_nat : Option ℕ → Json
opt_nat none = null
opt_nat (some n) = nat n

abbrev advisories : Option Fields → List Json
advisories none = []
advisories (some Fields.end) = []
advisories (some (Fields.field k v fs)) = obj (Fields.field k v fs) ∷ []

unfoldable pub to_public : AuditEntry → Fields
unfolding of_fields of_list
to_public e = of_fields (
    ("clientContextID", str e.client_context_id)
    ∷ ("session", str e.session)
    ∷ ("statement", str e.statement)
    ∷ ("submittedAt", nat e.submitted_at)
    ∷ ("handle", opt_str e.handle)
    ∷ ("resultHandle", opt_str e.result_handle)
    ∷ ("dataverse", opt_str e.dataverse)
    ∷ ("signature", e.signature)
    ∷ ("advisories", array (advisories e.advisory))
    ∷ [])

unfoldable pub to_history_view : AuditEntry → Fields
unfolding of_fields
to_history_view e = of_fields (
    ("clientContextID", str e.client_context_id)
    ∷ ("tool", opt_str e.tool)
    ∷ ("statement", str e.statement)
    ∷ ("dataverse", opt_str e.dataverse)
    ∷ ("outcome", opt_str e.outcome)
    ∷ ("errorType", opt_str e.error_type)
    ∷ ("errorMessage", opt_str e.error_message)
    ∷ ("rowsReturned", opt_nat e.rows_returned)
    ∷ ("submittedAt", nat e.submitted_at)
    ∷ [])

pub record AuditLog : Type 0 where
  pub ttl_s : ℕ
  pub entries : Dict AuditEntry

-- `__init__`; `none` is the `ValueError`.
unfoldable pub init : ℕ → Option AuditLog
init ttl_s = if nat_eq ttl_s 0 then none else some (record { ttl_s = ttl_s; entries = [] })

-- `now - entry.submitted_at >= ttl_s`, with no difference taken
unfoldable pub is_expired : AuditLog → ℕ → AuditEntry → Bool
is_expired log now e = leb (log.ttl_s + e.submitted_at) now

unfoldable pub prune : ℕ → AuditLog → AuditLog
prune now log = record log { entries = Dict.select (λ e. not (is_expired log now e)) log.entries }

-- `record`; the word is reserved.
unfoldable pub record_entry : ℕ → AuditEntry → AuditLog → AuditLog
unfolding prune
record_entry now e log =
    let pruned = prune now log in
    record pruned { entries = Dict.put e.client_context_id e pruned.entries }

unfoldable pub forget : String → AuditLog → AuditLog
forget client_context_id log = record log { entries = Dict.remove client_context_id log.entries }

unfoldable pub found : ℕ → String → Option AuditEntry → AuditLog → Option AuditEntry × AuditLog
unfolding is_expired forget
found now client_context_id none log = (none, log)
found now client_context_id (some e) log =
    if is_expired log now e then (none, forget client_context_id log) else (some e, log)

unfoldable pub get : ℕ → String → AuditLog → Option AuditEntry × AuditLog
unfolding found
get now client_context_id log =
    found now client_context_id (Dict.get client_context_id log.entries) log

-- `entries.sort(key=submitted_at, reverse=True)`: stable, newest first.
unfoldable pub insert_entry : AuditEntry → List AuditEntry → List AuditEntry
insert_entry e [] = e ∷ []
insert_entry e (f ∷ fs) =
    if leb f.submitted_at e.submitted_at then e ∷ f ∷ fs else f ∷ insert_entry e fs

unfoldable pub newest_first : List AuditEntry → List AuditEntry
unfolding insert_entry
newest_first [] = []
newest_first (e ∷ es) = insert_entry e (newest_first es)

abbrev is_error : Option String → Bool
is_error none = false
is_error (some o) = o == "ERROR"

unfoldable pub wanted : Bool → AuditEntry → Bool
wanted failures_only e = if failures_only then is_error e.outcome else true

unfoldable pub recent : ℕ → ℕ → Bool → AuditLog → List AuditEntry × AuditLog
unfolding prune newest_first wanted
recent now limit failures_only log =
    let pruned = prune now log in
    (take limit (newest_first (keep (wanted failures_only) (values pruned.entries))), pruned)

-- `__len__`
unfoldable pub len : ℕ → AuditLog → ℕ × AuditLog
unfolding prune
len now log = let pruned = prune now log in (length pruned.entries, pruned)
