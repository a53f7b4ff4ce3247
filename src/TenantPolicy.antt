-- ===== src/TenantPolicy.antt =====
-- Which dataverses a tenant may read: src/asterixdb_mcp/tenant_policy.py.
pub mod Authorized
pub mod Statement
pub mod Verdict
use asterixdb_mcp_server.Prelude.{
  Bool, true, false, not, String, Option, none, some, List, [], ◌∷◌, map, join, ◌<>◌, keep,
  if◌then◌else◌,
}
use asterixdb_mcp_server.Prelude.Dict
use asterixdb_mcp_server.Prelude.Dict.{Dict}
use asterixdb_mcp_server.Prelude.Sorted.{sorted_set}
use asterixdb_mcp_server.Errors.{GatewayError, forbidden, gateway_error, Result, ok, err}
use asterixdb_mcp_server.Json.{Fields, lookup, truthy}
use asterixdb_mcp_server.Config.{Settings}
use asterixdb_mcp_server.PlanParser.{
  ParsedPlan, ResolvedSources, contains, parse_optimized_plan, resolve_sources,
}

-- `settings.dataverse_allowlist or {}`
abbrev pub allowlist : Settings → Dict (List String)
allowlist settings = elim settings.dataverse_allowlist [ none ↦ [] | some d ↦ d ]

nonempty_dict : Dict (List String) → Bool
nonempty_dict [] = false
nonempty_dict (e ∷ d) = true

unfoldable pub is_enforced : Settings → Bool
unfolding nonempty_dict
is_enforced settings = nonempty_dict (allowlist settings)

abbrev listed : Option (List String) → List String
listed none = []
listed (some l) = l

-- The set's elements; the code keeps them in a `frozenset`.
unfoldable pub allowed_dataverses : Settings → Option String → List String
allowed_dataverses settings none = []
allowed_dataverses settings (some principal) = listed (Dict.get principal (allowlist settings))

unresolved_error : List String → GatewayError
unresolved_error unresolved = gateway_error forbidden (
    "The compiled plan reads sources this gateway could not attribute to a dataverse ("
    <> join ", " (sorted_set unresolved)
    <> "), so they cannot be authorized. Qualify every name as Dataverse.Dataset, or pass a default dataverse.")

or_none : List String → String
or_none [] = "none"
or_none (s ∷ ss) = join ", " (s ∷ ss)

denied_error : List String → List String → List String → GatewayError
unfolding or_none
denied_error denied touched allowed = gateway_error forbidden (
    "This client is not permitted to read "
    <> join ", " denied
    <> ". The compiled plan reads "
    <> join ", " (sorted_set touched)
    <> "; permitted dataverses are "
    <> or_none (sorted_set allowed)
    <> ". Note that views, synonyms and UDFs are resolved to the datasets they read, so a permitted name can still reach an unpermitted one.")

-- `sorted(touched - allowed)`
unfoldable pub denied_of : List String → List String → List String
denied_of touched allowed = sorted_set (keep (λ dv. not (contains dv allowed)) touched)

abbrev no_denial : List String → List String → List String → Result (Unit {0})
unfolding denied_error
no_denial [] touched allowed = ok tt
no_denial (d ∷ ds) touched allowed = err (denied_error (d ∷ ds) touched allowed)

-- The part of `check_sources` below the tests, for the sources that all resolved.
unfoldable pub check_resolved :
    Settings → Option String → List (String × String) → Result (Unit {0})
unfolding no_denial denied_of
check_resolved settings principal datasets =
    let allowed = allowed_dataverses settings principal in
    let touched = map (λ p. p.0) datasets in no_denial (denied_of touched allowed) touched allowed

abbrev all_resolved :
    Settings → Option String → List (String × String) → List String → Result (Unit {0})
unfolding check_resolved unresolved_error
all_resolved settings principal datasets [] = check_resolved settings principal datasets
all_resolved settings principal datasets (u ∷ us) = err (unresolved_error (u ∷ us))

unfoldable pub check_sources : Settings → Option String → ResolvedSources → Result (Unit {0})
unfolding all_resolved is_enforced
check_sources settings principal resolved =
    if is_enforced settings
    then all_resolved settings principal resolved.datasets resolved.unresolved
    else ok tt

unfoldable pub no_plan_error : GatewayError
no_plan_error =
    gateway_error forbidden
      "This gateway could not obtain a compiled plan for the statement, so it cannot authorize what the statement would read. Nothing was executed."

unfoldable pub check_parsed :
    Settings → Option String → Option ParsedPlan → Option String → Result (Unit {0})
unfolding check_sources no_plan_error
check_parsed settings principal none dataverse = err no_plan_error
check_parsed settings principal (some parsed) dataverse =
    check_sources settings principal (resolve_sources parsed.data_sources dataverse)

unfoldable pub check_compiled_plan :
    Settings → Option String → Fields → Option String → Result (Unit {0})
unfolding check_parsed is_enforced
check_compiled_plan settings principal envelope dataverse =
    if not (is_enforced settings)
    then ok tt
    else if truthy (lookup "errors" envelope)
    then ok tt
    else check_parsed settings principal (parse_optimized_plan (lookup "plans" envelope)) dataverse
