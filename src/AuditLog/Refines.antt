-- ===== src/AuditLog/Refines.antt =====
-- The log of src/asterixdb_mcp/audit_log.py against what it promises: for each id the last submission
-- recorded and not forgotten, until its time to live is over. Expired entries are no part of a promise.
use mathlib.Core.Path.{subst}
use asterixdb_mcp_server.Prelude.{
  ℕ, ◌+◌, ◌≤◌, ◌≡◌, refl, ◌∙◌, Bool, String, Option, none, some, List, [], ◌∷◌, All, leb, nat_eq,
  ◌==◌, arith, if◌then◌else◌, Bool-cases, inl, inr,
}
use asterixdb_mcp_server.Prelude.Dict
use asterixdb_mcp_server.Prelude.Dict.{Distinct, remove-Distinct}
use asterixdb_mcp_server.AuditLog.{
  AuditEntry, AuditLog, init, is_expired, record_entry, forget, get, recent, found,
}
use asterixdb_mcp_server.AuditLog.View.{
  view, view-prune, view-forget, view-record_entry, get-view, record_entry-Distinct, prune-Distinct,
}

-- A call of one of the methods, with its reading of the clock.
pub data Call : Type 0 where
  record_call : ℕ → AuditEntry → Call
  get_call : ℕ → String → Call
  forget_call : String → Call
  recent_call : ℕ → ℕ → Bool → Call

unfoldable pub time_of : Call → ℕ
time_of (record_call now e) = now
time_of (get_call now id) = now
time_of (forget_call id) = 0
time_of (recent_call now limit failures_only) = now

unfoldable pub after : Call → AuditLog → AuditLog
after (record_call now e) log = record_entry now e log
after (get_call now id) log = (get now id log).1
after (forget_call id) log = forget id log
after (recent_call now limit failures_only) log = (recent now limit failures_only log).1

unfoldable pub after_all : List Call → AuditLog → AuditLog
unfolding after
after_all [] log = log
after_all (call ∷ calls) log = after_all calls (after call log)

-- The abstract log, and what a call does to it: only recording and forgetting do anything.
abbrev pub Promise : Type 0
Promise = String → Option AuditEntry

unfoldable pub promised : Call → Promise → Promise
promised (record_call now e) s j = if e.client_context_id == j then some e else s j
promised (get_call now id) s j = s j
promised (forget_call id) s j = if id == j then none else s j
promised (recent_call now limit failures_only) s j = s j

unfoldable pub promised_all : List Call → Promise → Promise
unfolding promised
promised_all [] s = s
promised_all (call ∷ calls) s = promised_all calls (promised call s)

unfoldable pub live : ℕ → ℕ → Option AuditEntry → Option AuditEntry
live ttl_s later none = none
live ttl_s later (some e) = if leb (ttl_s + e.submitted_at) later then none else some e

-- The log keeps the promise at the time.
record Keeps (ttl_s later : ℕ) (s : Promise) (log : AuditLog) : Type 0 where
  distinct : Distinct log.entries
  same_ttl : log.ttl_s ≡ ttl_s
  answers : (j : String) → view later log j ≡ live ttl_s later (s j)

-- Reading an entry may delete it, and does nothing else.
found-kept :
    (now : ℕ) (id : String) (o : Option AuditEntry) (log : AuditLog)
    → Distinct log.entries
    → Distinct (found now id o log).1.entries × ((found now id o log).1.ttl_s ≡ log.ttl_s)
unfolding found forget
found-kept now id none log u = (u, refl)
found-kept now id (some e) log u = elim (Bool-cases (is_expired log now e)) [
  | inl gone ↦ rw (gone, found) (remove-Distinct id log.entries u, refl)
  | inr alive ↦ rw (alive, found) (u, refl)
]

get-kept :
    (now : ℕ) (id : String) (log : AuditLog)
    → Distinct log.entries
    → Distinct (get now id log).1.entries × ((get now id log).1.ttl_s ≡ log.ttl_s)
unfolding get
get-kept now id log u = found-kept now id (Dict.get id log.entries) log u

live-record_entry :
    (now later ttl_s : ℕ) (log : AuditLog) (e : AuditEntry) (j : String) (other : Option AuditEntry)
    → log.ttl_s ≡ ttl_s
    → Distinct log.entries
    → now ≤ later
    → view later log j ≡ live ttl_s later other
    → view later (record_entry now e log) j
      ≡ live ttl_s later (if e.client_context_id == j then some e else other)
unfolding live is_expired
live-record_entry now later ttl_s log e j other t u h k =
    ground (arith, view-record_entry now later log e j u h)

after-Keeps :
    (ttl_s later : ℕ) (call : Call) (s : Promise) (log : AuditLog)
    → time_of call ≤ later
    → Keeps ttl_s later s log
    → Keeps ttl_s later (promised call s) (after call log)
unfolding after promised time_of record_entry forget recent live
after-Keeps ttl_s later (record_call now e) s log h k = record {
  distinct = record_entry-Distinct now e log k.distinct;
  same_ttl = k.same_ttl;
  answers =
      λ j. live-record_entry now later ttl_s log e j (s j) k.same_ttl k.distinct h (k.answers j);
}
after-Keeps ttl_s later (get_call now id) s log h k = record {
  distinct = (get-kept now id log k.distinct).0;
  same_ttl = (get-kept now id log k.distinct).1 ∙ k.same_ttl;
  answers = λ j. (get-view now later log id j h).1 ∙ k.answers j;
}
after-Keeps ttl_s later (forget_call id) s log h k = record {
  distinct = remove-Distinct id log.entries k.distinct;
  same_ttl = k.same_ttl;
  answers = λ j. ground (arith, view-forget later later log j id, k.answers j);
}
after-Keeps ttl_s later (recent_call now limit failures_only) s log h k = record {
  distinct = prune-Distinct now log k.distinct;
  same_ttl = k.same_ttl;
  answers = λ j. view-prune now later log j k.distinct h ∙ k.answers j;
}

after_all-Keeps :
    (ttl_s later : ℕ) (calls : List Call) (s : Promise) (log : AuditLog)
    → All (λ call. time_of call ≤ later) calls
    → Keeps ttl_s later s log
    → Keeps ttl_s later (promised_all calls s) (after_all calls log)
unfolding after_all promised_all
after_all-Keeps ttl_s later [] s log h k = k
after_all-Keeps ttl_s later (call ∷ calls) s log h k =
    after_all-Keeps ttl_s later calls (promised call s) (after call log) h.1
      (after-Keeps ttl_s later call s log h.0 k)

abbrev pub nothing : Promise
nothing j = none

new_log : (ttl_s later : ℕ) (log : AuditLog) → init ttl_s ≡ some log → Keeps ttl_s later nothing log
unfolding init live view Dict.get
new_log ttl_s later log made = elim (Bool-cases (nat_eq ttl_s 0)) [
  | inl e ↦ absurd (ground arith)
  | inr e ↦
      let p : record { ttl_s = ttl_s; entries = [] } ≡ log = ground arith in
      subst (λ l. Keeps ttl_s later nothing l) p
        (record { distinct = tt; same_ttl = refl; answers = λ j. refl })
]

-- A new log is made by `__init__` and then used in any way; what it answers for an id at a time that
-- no call is later than is what it promises: the last submission of that id recorded and not forgotten
-- since, if its time to live is not over, and nothing otherwise. Pruning and the deletion of expired
-- entries on a read are never seen.
pub get-promised :
    (ttl_s later : ℕ) (calls : List Call) (log : AuditLog) (id : String)
    → init ttl_s ≡ some log
    → All (λ call. time_of call ≤ later) calls
    → (get later id (after_all calls log)).0 ≡ live ttl_s later (promised_all calls nothing id)
unfolding init
get-promised ttl_s later calls log id made h =
    (get-view later later (after_all calls log) id id (omega arith)).0
    ∙ (after_all-Keeps ttl_s later calls nothing log h (new_log ttl_s later log made)).answers id
