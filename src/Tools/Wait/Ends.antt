-- ===== src/Tools/Wait/Ends.antt =====
-- The loop of a wait against the clock (src/asterixdb_mcp/tools/async_query.py).
use asterixdb_mcp_server.Prelude.{
  Never, [], ℕ, zero, suc, ◌+◌, ◌≤◌, ◌<◌, ◌≡◌, refl, String, Option, none, some, arith,
}
use asterixdb_mcp_server.Json.{Fields}
use asterixdb_mcp_server.Errors.{Result, ok, err, crash}
use asterixdb_mcp_server.Config.{Settings}
use asterixdb_mcp_server.AuditLog.{AuditEntry, AuditLog}
use asterixdb_mcp_server.Http.{Form, Env, Transport, response, stale, timed_out, failed}
use asterixdb_mcp_server.CcClient.{Client, headers, get_outcome, get_json, body_object, poll_status}
use asterixdb_mcp_server.Tools.{ToolResult}
use asterixdb_mcp_server.Tools.AsyncQuery.{Outside}
use asterixdb_mcp_server.Tools.Wait.{turn, poll_once, continue_with, poll_until_terminal}

-- What the wait relies on: a `sleep` of a positive time moves the clock on, and a request never
-- moves it back.
pub record Ticks {W : Type 0} (env : Env W) (outside : Outside W) : Type 0 where
  pub sleeps : (ms : ℕ) (w : W) → 0 < ms → outside.clock w < outside.clock (outside.sleep ms w)
  pub requests :
      (path : String) (params headers : Form) (w : W)
      → outside.clock w ≤ outside.clock (env.get path params headers w).1

-- The computation ends with a value.
abbrev pub Ends : {A : Type 0} → Option A → Type 0
Ends none = Never
Ends (some a) = Unit {0}

module _ {W : Type 0} (env : Env W) (outside : Outside W) (client : Client)
    (settings : Settings) where
  poll_status-clock :
      (handle : String) (w : W)
      → Ticks env outside
      → outside.clock w ≤ outside.clock (poll_status env client handle w).1
  unfolding poll_status get_json
  poll_status-clock handle w ticks =
      outcome_clock (env.get handle [] (headers client.settings) w)
        (ticks.requests handle [] (headers client.settings) w)
    where
      outcome_clock :
          (out : Transport × W)
          → outside.clock w ≤ outside.clock out.1
          → outside.clock w
            ≤ outside.clock (get_outcome env client (body_object env client) handle out).1
      outcome_clock (response s c, w') h = h
      outcome_clock (stale e, w') h = h
      outcome_clock (timed_out e, w') h = h
      outcome_clock (failed e, w') h = h

  -- A turn that does not end the loop came before the deadline, and moved the clock on.
  turn-clock :
      (deadline : ℕ) (entry : AuditEntry) (audit : AuditLog) (answer : Result Fields) (w : W)
      → Ticks env outside
      → 0 < settings.wait_poll_interval_ms
      → (turn env outside client settings deadline entry audit (answer, w)).0 ≡ none
      → (outside.clock w < deadline)
        × (outside.clock w
            < outside.clock (turn env outside client settings deadline entry audit (answer, w)).1.1)
  unfolding turn
  turn-clock deadline entry audit (err e) w ticks i h = ground arith
  turn-clock deadline entry audit crash w ticks i h = ground arith
  turn-clock deadline entry audit (ok envelope) w ticks i h =
      ground (arith, ticks.sleeps settings.wait_poll_interval_ms w i)

  poll_once-clock :
      (deadline : ℕ) (entry : AuditEntry) (handle : String) (audit : AuditLog) (w : W)
      → Ticks env outside
      → 0 < settings.wait_poll_interval_ms
      → let out = poll_once env outside client settings deadline entry handle (audit, w) in
        out.0 ≡ none → (outside.clock w < deadline) × (outside.clock w < outside.clock out.1.1)
  unfolding poll_once
  poll_once-clock deadline entry handle audit w ticks i h =
      let (answer, w') = poll_status env client handle w in
      let first = poll_status-clock handle w ticks in
      let (before, on) = turn-clock deadline entry audit answer w' ticks i h in
      omega (arith, first, before, on)

  continue_with-Ends :
      (rest : AuditLog × W → Option (Result ToolResult × (AuditLog × W)))
      (out : Option (Result ToolResult) × (AuditLog × W))
      → (out.0 ≡ none → Ends (rest out.1))
      → Ends (continue_with env outside client settings rest out)
  continue_with-Ends rest (none, s) h = h refl
  continue_with-Ends rest (some r, s) h = tt

  -- The loop ends: one unit of fuel for each millisecond up to the deadline, and one more, is enough.
  pub poll_until_terminal-Ends :
      (fuel deadline : ℕ) (entry : AuditEntry) (handle : String) (audit : AuditLog) (w : W)
      → Ticks env outside
      → 0 < settings.wait_poll_interval_ms
      → 0 < fuel
      → deadline < outside.clock w + fuel
      → Ends (poll_until_terminal env outside client settings fuel deadline entry handle (audit, w))
  unfolding poll_until_terminal
  poll_until_terminal-Ends zero deadline entry handle audit w ticks i positive h =
      ground (arith, positive)
  poll_until_terminal-Ends (suc fuel) deadline entry handle audit w ticks i positive h =
      continue_with-Ends _ (poll_once env outside client settings deadline entry handle (audit, w))
        (λ more.
          let (before, on) = poll_once-clock deadline entry handle audit w ticks i more in
          let (audit', w') =
            (poll_once env outside client settings deadline entry handle (audit, w)).1 in
          poll_until_terminal-Ends fuel deadline entry handle audit' w' ticks i
            (omega (arith, before, h)) (omega (arith, on, h)))
