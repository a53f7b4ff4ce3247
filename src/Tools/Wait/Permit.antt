-- ===== src/Tools/Wait/Permit.antt =====
-- The whole of a wait: its fuel and its permit (src/asterixdb_mcp/tools/async_query.py).
use asterixdb_mcp_server.Prelude.{
  ℕ, ◌+◌, ◌≤◌, ◌<◌, refl, String, Option, none, some, arith, Option-cases, inl, inr,
}
use asterixdb_mcp_server.Json.{ℤ, pos, negsuc}
use asterixdb_mcp_server.Errors.{Result, ok, err, crash}
use asterixdb_mcp_server.Config.{Settings}
use asterixdb_mcp_server.AuditLog
use asterixdb_mcp_server.AuditLog.{AuditEntry, AuditLog}
use asterixdb_mcp_server.Permits.{PermitPool, who, take}
use asterixdb_mcp_server.Permits.Acquire.{
  acquire, with_permit, finally, Body, IsTidy, KeepsPool, acquire-KeepsPool,
}
use asterixdb_mcp_server.Http.{Env}
use asterixdb_mcp_server.CcClient.{Client}
use asterixdb_mcp_server.Tools.{ToolResult}
use asterixdb_mcp_server.Tools.AsyncQuery.{Outside, clamp_timeout, check_ownership}
use asterixdb_mcp_server.Tools.Wait.{
  State, beside_pool, polling, answered, wait_for_handle, wait_for_entry, wait_on_async_query,
}
use asterixdb_mcp_server.Tools.Wait.Ends.{Ticks, Ends, poll_until_terminal-Ends}

module _ {S A : Type 0} where
  finally-Ends :
      (k : String) (out : Option (Result A × (PermitPool × S))) → Ends out → Ends (finally k out)
  finally-Ends k none h = h
  finally-Ends k (some (r, (p, s))) h = tt

  with_permit-Ends :
      (k : String) (r : Result PermitPool) (body : Body S A) (p : PermitPool) (s : S)
      → ((q : PermitPool) → Ends (body (q, s)))
      → Ends (with_permit k r body (p, s))
  with_permit-Ends k (ok q) body p s h = finally-Ends k (body (q, s)) (h q)
  with_permit-Ends k (err e) body p s h = tt
  with_permit-Ends k crash body p s h = tt

  pub acquire-Ends :
      (principal : Option String) (body : Body S A) (p : PermitPool) (s : S)
      → ((q : PermitPool) → Ends (body (q, s)))
      → Ends (acquire principal body (p, s))
  unfolding acquire
  acquire-Ends principal body p s h =
      with_permit-Ends (who principal) (take (who principal) p) body p s h

clamp_timeout-le : (requested : Option ℤ) (ceiling : ℕ) → clamp_timeout requested ceiling ≤ ceiling
unfolding clamp_timeout
clamp_timeout-le none ceiling = omega arith
clamp_timeout-le (some (pos n)) ceiling = omega arith
clamp_timeout-le (some (negsuc n)) ceiling = omega arith

module _ {W : Type 0} (env : Env W) (outside : Outside W) (client : Client)
    (settings : Settings) where
  answered-Ends :
      (out : Option (Result ToolResult × State W))
      → Ends out
      → Ends (answered env outside client settings out)
  unfolding answered
  answered-Ends none h = h
  answered-Ends (some (ok r, s)) h = tt
  answered-Ends (some (err e, s)) h = tt
  answered-Ends (some (crash, s)) h = tt

  answered-KeepsPool :
      (p : PermitPool) (out : Option (Result ToolResult × State W))
      → KeepsPool p out
      → KeepsPool p (answered env outside client settings out)
  unfolding answered
  answered-KeepsPool p none h = h
  answered-KeepsPool p (some (ok r, s)) h = h
  answered-KeepsPool p (some (err e, s)) h = h
  answered-KeepsPool p (some (crash, s)) h = h

  beside_pool-Ends :
      (p : PermitPool) (out : Option (Result ToolResult × (AuditLog × W)))
      → Ends out
      → Ends (beside_pool env outside client settings p out)
  beside_pool-Ends p none h = h
  beside_pool-Ends p (some (r, s)) h = tt

  beside_pool-KeepsPool :
      (p : PermitPool) (out : Option (Result ToolResult × (AuditLog × W)))
      → KeepsPool p (beside_pool env outside client settings p out)
  beside_pool-KeepsPool p none = tt
  beside_pool-KeepsPool p (some (r, s)) = refl

  wait_for_handle-Ends :
      (fuel : ℕ) (timeout_ms : Option ℤ) (id : String) (entry : AuditEntry) (handle : Option String)
      (p : PermitPool) (audit : AuditLog) (w : W)
      → Ticks env outside
      → 0 < settings.wait_poll_interval_ms
      → settings.max_wait_ms < fuel
      → Ends (
          wait_for_handle env outside client settings fuel timeout_ms id entry handle
            (p, (audit, w)))
  unfolding wait_for_handle polling
  wait_for_handle-Ends fuel timeout_ms id entry none p audit w ticks i h = tt
  wait_for_handle-Ends fuel timeout_ms id entry (some handle) p audit w ticks i h =
      let window = clamp_timeout timeout_ms settings.max_wait_ms in
      let clamped = clamp_timeout-le timeout_ms settings.max_wait_ms in
      answered-Ends _ (
        acquire-Ends client.principal
          (polling env outside client settings fuel (outside.clock w + window) entry handle) p
          (audit, w)
          (λ q. beside_pool-Ends q _ (
            poll_until_terminal-Ends env outside client settings fuel (outside.clock w + window)
              entry handle audit w ticks i (omega (arith, h)) (omega (arith, h, clamped)))))

  wait_for_entry-Ends :
      (fuel : ℕ) (timeout_ms : Option ℤ) (id : String) (entry : Option AuditEntry) (p : PermitPool)
      (audit : AuditLog) (w : W)
      → Ticks env outside
      → 0 < settings.wait_poll_interval_ms
      → settings.max_wait_ms < fuel
      → Ends (wait_for_entry env outside client settings fuel timeout_ms id entry (p, (audit, w)))
  unfolding wait_for_entry
  wait_for_entry-Ends fuel timeout_ms id none p audit w ticks i h = tt
  wait_for_entry-Ends fuel timeout_ms id (some entry) p audit w ticks i h =
      wait_for_handle-Ends fuel timeout_ms id entry entry.handle p audit w ticks i h

  -- Whatever window the caller asks for and whatever the cluster answers, a wait ends: after at most
  -- as many polls as its ceiling, `max_wait_ms`, has milliseconds, and one more.
  pub wait_on_async_query-Ends :
      (fuel : ℕ) (id : String) (timeout_ms : Option ℤ) (p : PermitPool) (audit : AuditLog) (w : W)
      → Ticks env outside
      → 0 < settings.wait_poll_interval_ms
      → settings.max_wait_ms < fuel
      → Ends (wait_on_async_query env outside client settings fuel id timeout_ms (p, (audit, w)))
  unfolding wait_on_async_query
  wait_on_async_query-Ends fuel id timeout_ms p audit w ticks i h =
      elim (Option-cases (check_ownership settings id)) [
        | inr (e, foreign) ↦ rw (foreign, wait_on_async_query) tt
        | inl own ↦
            let (entry, audit') = AuditLog.get (outside.audit_clock w) id audit in
            rw (own, wait_on_async_query)
              (wait_for_entry-Ends fuel timeout_ms id entry p audit' w ticks i h)
      ]

  wait_for_handle-KeepsPool :
      (fuel : ℕ) (timeout_ms : Option ℤ) (id : String) (entry : AuditEntry) (handle : Option String)
      (p : PermitPool) (audit : AuditLog) (w : W)
      → IsTidy p
      → KeepsPool p (
          wait_for_handle env outside client settings fuel timeout_ms id entry handle
            (p, (audit, w)))
  unfolding wait_for_handle polling
  wait_for_handle-KeepsPool fuel timeout_ms id entry none p audit w tidy = refl
  wait_for_handle-KeepsPool fuel timeout_ms id entry (some handle) p audit w tidy =
      answered-KeepsPool p _ (
        acquire-KeepsPool client.principal p (audit, w)
          (polling env outside client settings fuel
            (outside.clock w + clamp_timeout timeout_ms settings.max_wait_ms) entry handle)
          tidy (λ q (audit', w'). beside_pool-KeepsPool q _))

  wait_for_entry-KeepsPool :
      (fuel : ℕ) (timeout_ms : Option ℤ) (id : String) (entry : Option AuditEntry) (p : PermitPool)
      (audit : AuditLog) (w : W)
      → IsTidy p
      → KeepsPool p
          (wait_for_entry env outside client settings fuel timeout_ms id entry (p, (audit, w)))
  unfolding wait_for_entry
  wait_for_entry-KeepsPool fuel timeout_ms id none p audit w tidy = refl
  wait_for_entry-KeepsPool fuel timeout_ms id (some entry) p audit w tidy =
      wait_for_handle-KeepsPool fuel timeout_ms id entry entry.handle p audit w tidy

  -- However a wait ends, refused, failed, finished or out of its window, its permit is back: the pool
  -- is what it was before, to the counter.
  pub wait_on_async_query-KeepsPool :
      (fuel : ℕ) (id : String) (timeout_ms : Option ℤ) (p : PermitPool) (audit : AuditLog) (w : W)
      → IsTidy p
      → KeepsPool p
          (wait_on_async_query env outside client settings fuel id timeout_ms (p, (audit, w)))
  unfolding wait_on_async_query
  wait_on_async_query-KeepsPool fuel id timeout_ms p audit w tidy =
      elim (Option-cases (check_ownership settings id)) [
        | inr (e, foreign) ↦ rw (foreign, wait_on_async_query) refl
        | inl own ↦
            let (entry, audit') = AuditLog.get (outside.audit_clock w) id audit in
            rw (own, wait_on_async_query)
              (wait_for_entry-KeepsPool fuel timeout_ms id entry p audit' w tidy)
      ]
