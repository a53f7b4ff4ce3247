-- ===== src/AuditLog/View.antt =====
-- What a caller reads from the log of src/asterixdb_mcp/audit_log.py: the live entry of an id.
use asterixdb_mcp_server.Prelude.{
  ℕ, ◌≤◌, ◌≡◌, not, String, Option, none, some, arith, ◌==◌, eq_iff, if◌then◌else◌, Option-cases,
  inl, inr,
}
use asterixdb_mcp_server.Prelude.Dict
use asterixdb_mcp_server.Prelude.Dict.{
  Dict, Distinct, get-put, get-remove, get-select, get-select-none, put-Distinct, remove-Distinct,
  select-Distinct,
}
use asterixdb_mcp_server.AuditLog.{
  AuditEntry, AuditLog, is_expired, prune, record_entry, forget, get,
}

-- The live entry of an id: what `get` answers.
abbrev fresh : AuditLog → ℕ → Option AuditEntry → Option AuditEntry
fresh log now none = none
fresh log now (some e) = if is_expired log now e then none else some e

unfoldable pub view : ℕ → AuditLog → String → Option AuditEntry
view now log id = fresh log now (Dict.get id log.entries)

module _ (now later : ℕ) (log : AuditLog) (j : String) where
  pub view-prune :
      Distinct log.entries → now ≤ later → view later (prune now log) j ≡ view later log j
  unfolding view prune is_expired
  view-prune u h = elim (Option-cases (Dict.get j log.entries)) [
    | inl absent ↦
        ground (arith, get-select-none (λ e. not (is_expired log now e)) j log.entries absent)
    | inr (e, present) ↦
        ground (arith, get-select (λ f. not (is_expired log now f)) j log.entries {v = e} u present)
  ]

  pub view-forget :
      (id : String) → view later (forget id log) j ≡ (if id == j then none else view later log j)
  unfolding view forget is_expired
  view-forget id = ground (arith, get-remove id j log.entries)

  view-put :
      (e : AuditEntry)
      → view later (record log { entries = Dict.put e.client_context_id e log.entries }) j ≡ (
          if e.client_context_id == j
          then (if is_expired log later e then none else some e)
          else view later log j)
  unfolding view is_expired
  view-put e = ground (arith, get-put e.client_context_id j e log.entries)

pub prune-Distinct :
    (now : ℕ) (log : AuditLog) → Distinct log.entries → Distinct (prune now log).entries
unfolding prune
prune-Distinct now log u = select-Distinct (λ e. not (is_expired log now e)) log.entries u

-- A submission is found under its own id until its time to live has passed, whatever was pruned on
-- the way, and recording it changes what no other id answers.
pub view-record_entry :
    (now later : ℕ) (log : AuditLog) (e : AuditEntry) (j : String)
    → Distinct log.entries
    → now ≤ later
    → view later (record_entry now e log) j ≡ (
        if e.client_context_id == j
        then (if is_expired log later e then none else some e)
        else view later log j)
unfolding record_entry prune is_expired
view-record_entry now later log e j u h =
    ground (arith, view-put now later (prune now log) j e, view-prune now later log j u h)

-- `get` answers the view of the id, and the lazy deletion of an expired entry changes no later
-- answer of any id.
pub get-view :
    (now later : ℕ) (log : AuditLog) (id j : String)
    → now ≤ later
    → ((get now id log).0 ≡ view now log id) × (view later (get now id log).1 j ≡ view later log j)
unfolding get view
get-view now later log id j h =
    (ground arith, ground (arith, view-forget now later log j id, eq_iff id j))

pub record_entry-Distinct :
    (now : ℕ) (e : AuditEntry) (log : AuditLog)
    → Distinct log.entries
    → Distinct (record_entry now e log).entries
unfolding record_entry
record_entry-Distinct now e log u =
    put-Distinct e.client_context_id e (prune now log).entries (prune-Distinct now log u)
