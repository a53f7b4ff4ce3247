-- ===== src/Lib.antt =====
-- A verification library for the AsterixDB MCP server: a gateway that lets language models query an
-- AsterixDB cluster, read-only but for one guarded store of notes, for several tenants at once.
--
-- The program's parts, and the files that model them (paths from the repository's root):
--   src/asterixdb_mcp/permits.py        Permits: a pool is a record, `_take` and `_give_back` are one
--     atomic step each, since both run under the pool's lock; Permits/Steps has any interleaving of
--     callers, Permits/Acquire the block of `acquire`.
--   src/asterixdb_mcp/plan_parser.py    PlanParser: the optimized plan as a tree, the walks over it,
--     and the datasets that its sources resolve to.
--   src/asterixdb_mcp/job_parser.py     JobParser: the physical job of a query, and its summaries.
--   src/asterixdb_mcp/tenant_policy.py  TenantPolicy: which compiled plans a tenant may run;
--     TenantPolicy/Statement compiles a statement to ask.
--   src/asterixdb_mcp/plan_guard.py     PlanGuard: the advisory on scans of columnar datasets.
--   src/asterixdb_mcp/cc_client.py      QueryForm (`_build_query_form`), Envelope (reading an answer),
--     CcClient (the methods); Http holds what lies outside the client.
--   src/asterixdb_mcp/memory_store.py   MemoryStore: the store's statements and the owner of a row.
--   src/asterixdb_mcp/context_id.py     ContextId: the identifiers of queries.
--   src/asterixdb_mcp/audit_log.py      AuditLog: the submissions that the gateway remembers.
--   src/asterixdb_mcp/egress.py         Egress: what of a result reaches the model.
--   src/asterixdb_mcp/scopes.py, src/asterixdb_mcp/identity.py   Scopes: the state of a connection.
--   src/asterixdb_mcp/errors.py         Errors: the taxonomy of errors, and results as values.
--   src/asterixdb_mcp/config.py         Config: the settings that the modelled code reads.
--   src/asterixdb_mcp/tools/__init__.py, src/asterixdb_mcp/artifacts.py   Tools: what a tool answers.
--   src/asterixdb_mcp/compiler_params.py   CompilerParams: the tuning knobs of a query.
--   src/asterixdb_mcp/statement_guard.py   StatementGuard: what the text of a statement is checked for,
--     and what it is normalized to.
--   src/asterixdb_mcp/tools/async_query.py   Tools/Submit, Tools/AsyncQuery, Tools/Wait, Tools/Fetch and
--     Tools/Cancel: the tools for submitted queries.
--   src/asterixdb_mcp/tools/execute_query.py   Tools/Execute: the tool that runs a query at once.
--   src/asterixdb_mcp/tools/recommend_indexes.py, src/asterixdb_mcp/index_catalog.py   Recommend: the
--     candidates for an index that a workload's plans speak for, Recommend/Observe the reading of the
--     plans, Recommend/Report the ranking, Recommend/Advise the engine's own advice and
--     Recommend/Workload the loop.
--   src/asterixdb_mcp/tools/memory_write.py   MemoryWrite: how a note is reconciled with the stored row;
--     MemoryWrite/Arguments its checks, MemoryWrite/Duplicates what it is compared with,
--     MemoryWrite/Run the tool with its two writes, MemoryWrite/Answers what it says.
--   src/asterixdb_mcp/decay.py   Decay: the pass that archives notes.
--   src/asterixdb_mcp/hint_deriver.py   HintDeriver: the advice read off a parsed plan.
--   src/asterixdb_mcp/claims.py, src/asterixdb_mcp/inventory.py   Claims: the numbers and words of a
--     note; Inventory: the names of the catalog.
-- Prelude has what they share: numbers' tests, lists, texts, dicts in insertion order and sorted sets;
-- Json is the values that `json.loads` gives. Examples has tests and instances of the theorems.
--
-- How they interact: a tool checks the owner of an id (ContextId), looks the submission up (AuditLog),
-- takes a permit (Permits), asks the cluster (CcClient) and bounds what comes back (Egress). A query is
-- compiled first; its plan is parsed (PlanParser) and the tenant's list decides (TenantPolicy).
--
-- How state and failure are written: an object is a record and a method that changes it returns the
-- new one; a request passes a state of the outside world on. `Result` has a value, an error of the
-- taxonomy, or `crash`, an exception that no tool catches, such as a `ValueError`. httpx, `json`, `uuid`
-- and the file system are parameters: fields of `Env` and `Outside`, or arguments.
--
-- Bounds and fuel: a time is a natural number of ticks, in the asynchronous tools of milliseconds, and
-- a method reads the clock once. The one loop that may go on is the wait's; it runs on fuel, one unit
-- for each poll, and the fuel that is enough is stated with it. The loop that
-- strips SET clauses runs on fuel too, one unit for each character. All others are over lists or trees.
-- A setting that is a number is a natural one; `in_use` is one as well, and is only taken from where a
-- permit is held. A float of a payload is its text, and whether it is zero.
--
-- Not modelled: the binding to the MCP SDK and the HTTP application, token verification,
-- memory capture and recall (a query is executed with `memory_enabled` at false), prompts, resources and the scripts. Of the
-- recommendation of indexes, the mark on datasets without statistics.
-- The error of the cluster's client leaves out the base address and the text of an exception; Python's `float`
-- and `int` on a note's numbers are parameters, `\d` is a digit of ASCII. `lower`
-- knows the letters of ASCII; progress reports and memory capture of a wait are off, their default.
pub mod HintDeriver
pub mod Decay
pub mod Inventory
pub mod Claims
pub mod Prelude
pub mod JobParser
pub mod Json
pub mod Errors
pub mod PlanParser
pub mod CompilerParams
pub mod Config
pub mod Egress
pub mod ContextId
pub mod AuditLog
pub mod Http
pub mod QueryForm
pub mod MemoryStore
pub mod MemoryWrite
pub mod Envelope
pub mod CcClient
pub mod Tools
pub mod Recommend
pub mod Scopes
pub mod PlanGuard
pub mod Examples
pub mod StatementGuard
pub mod TenantPolicy
pub mod Permits
