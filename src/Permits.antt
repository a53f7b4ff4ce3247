-- ===== src/Permits.antt =====
-- Concurrency permits: src/asterixdb_mcp/permits.py. A pool is a record; `_take` and `_give_back`
-- run under the pool's lock, so each is one atomic step.
pub mod Steps
pub mod Acquire
use asterixdb_mcp_server.Prelude.{
  ℕ, ◌+◌, ◌-◌, ◌≡◌, Bool, true, false, String, Option, none, some, List, [], min, ltb, leb, nat_eq,
  nonempty, show, ◌<>◌, length, if◌then◌else◌,
}
use asterixdb_mcp_server.Prelude.Dict
use asterixdb_mcp_server.Prelude.Dict.{Dict, count_of}
use asterixdb_mcp_server.Errors.{not_ready, gateway_error, Result, ok, err}

abbrev pub unattributed_principal : String
unattributed_principal = "unattributed"

pub record PermitPool : Type 0 where
  pub capacity : ℕ
  pub name : String
  pub per_principal : ℕ
  pub in_use : ℕ
  pub held : Dict ℕ

-- `min(per_principal, capacity) if per_principal else capacity`
unfoldable pub share : Option ℕ → ℕ → ℕ
share none capacity = capacity
share (some p) capacity = if nat_eq p 0 then capacity else min p capacity

-- `__init__`; `none` is the `ValueError`.
unfoldable pub init : ℕ → String → Option ℕ → Option PermitPool
unfolding share
init capacity name per_principal =
    if ltb capacity 1
    then none
    else some (record {
      capacity = capacity;
      name = name;
      per_principal = share per_principal capacity;
      in_use = 0;
      held = [];
    })

unfoldable pub available : PermitPool → ℕ
available p = p.capacity - p.in_use

unfoldable pub tracked_principals : PermitPool → ℕ
tracked_principals p = length p.held

-- `principal or UNATTRIBUTED_PRINCIPAL`
unfoldable pub who : Option String → String
who none = unattributed_principal
who (some p) = if nonempty p then p else unattributed_principal

-- `self._held.get(principal, 0)`
abbrev pub holds : PermitPool → String → ℕ
holds p principal = count_of (Dict.get principal p.held)

-- `_take`: the pool after it, or the error, which leaves the pool as it was.
unfoldable pub take : String → PermitPool → Result PermitPool
take principal p =
    if leb p.capacity p.in_use
    then err (
        gateway_error not_ready (
          "The gateway is at capacity for "
          <> p.name
          <> " work ("
          <> show p.capacity
          <> " concurrent). Retry shortly."))
    else if leb p.per_principal (holds p principal)
    then err (
        gateway_error not_ready (
          "This client is at its share of "
          <> p.name
          <> " work ("
          <> show p.per_principal
          <> " concurrent). Retry shortly, or let the queries already in flight finish first."))
    else ok (record p {
      in_use = p.in_use + 1;
      held = Dict.put principal (holds p principal + 1) p.held;
    })

-- `self._held.get(principal, 1) - 1`
abbrev remaining : Option ℕ → ℕ
remaining none = 0
remaining (some n) = n - 1

-- `_give_back`. It only runs after a `_take` of the same principal, so `in_use` is not 0 there.
unfoldable pub give_back : String → PermitPool → PermitPool
give_back principal p =
    let left = remaining (Dict.get principal p.held) in
    record p {
      in_use = p.in_use - 1;
      held = if ltb 0 left then Dict.put principal left p.held else Dict.remove principal p.held;
    }
