-- ===== src/TenantPolicy/Authorized.antt =====
-- What an accepted plan may read.
use asterixdb_mcp_server.Prelude.{
  ◌≡◌, refl, inl, inr, true, false, not, String, Option, none, some, List, [], ◌∷◌, map, arith,
  keep, Has, Option-cases,
}
use asterixdb_mcp_server.Prelude.Sorted.{nil_of_sorted_set}
use asterixdb_mcp_server.Errors.{forbidden, GatewayError, ok, err}
use asterixdb_mcp_server.Json.{Fields, obj, lookup, truthy}
use asterixdb_mcp_server.Config.{Settings}
use asterixdb_mcp_server.PlanParser.{
  ParsedPlan, ResolvedSources, contains, optimized_plan_key, parse_optimized_plan, resolve_source,
  resolve_sources,
}
use asterixdb_mcp_server.PlanParser.Scans.{Scans, parse_plan-Scans}
use asterixdb_mcp_server.PlanParser.Sources.{IsNoted, Has-of_contains, resolve_sources-IsNoted}
use asterixdb_mcp_server.TenantPolicy.{
  is_enforced, allowed_dataverses, denied_of, no_plan_error, denied_error, unresolved_error,
  check_resolved, check_sources, check_parsed, check_compiled_plan,
}

contained_of_keep-nil :
    (allowed touched : List String) (dv : String)
    → keep (λ d. not (contains d allowed)) touched ≡ []
    → Has dv touched
    → contains dv allowed ≡ true
contained_of_keep-nil allowed [] dv h m = elim m [ ]
contained_of_keep-nil allowed (t ∷ ts) dv h (inl e) = ground arith
contained_of_keep-nil allowed (t ∷ ts) dv h (inr m) =
    contained_of_keep-nil allowed ts dv (ground arith) m

Has-dataverse :
    (dv ds : String) (l : List (String × String)) → Has (dv, ds) l → Has dv (map (λ p. p.0) l)
Has-dataverse dv ds [] m = elim m [ ]
Has-dataverse dv ds (p ∷ l) (inl e) = inl (ground arith)
Has-dataverse dv ds (p ∷ l) (inr m) = inr (Has-dataverse dv ds l m)

denied_nil :
    (s : Settings) (principal : Option String) (datasets : List (String × String))
    → check_resolved s principal datasets ≡ ok tt
    → denied_of (map (λ p. p.0) datasets) (allowed_dataverses s principal) ≡ []
unfolding check_resolved
denied_nil s principal datasets h = ground arith

check_resolved-allowed :
    (s : Settings) (principal : Option String) (datasets : List (String × String)) (dv ds : String)
    → check_resolved s principal datasets ≡ ok tt
    → Has (dv, ds) datasets
    → Has dv (allowed_dataverses s principal)
unfolding denied_of
check_resolved-allowed s principal datasets dv ds h m =
    Has-of_contains dv (allowed_dataverses s principal) (
      contained_of_keep-nil (allowed_dataverses s principal) (map (λ p. p.0) datasets) dv
        (nil_of_sorted_set _ (denied_nil s principal datasets h)) (Has-dataverse dv ds datasets m))

-- A source is authorized if it resolved to a dataset of a dataverse on the principal's list.
pub data IsAuthorized (s : Settings) (principal : Option String) (o : Option (String × String))
    : Type 0 where
  allowed :
      (dv ds : String)
      → o ≡ some (dv, ds)
      → Has dv (allowed_dataverses s principal)
      → IsAuthorized s principal o

check_sources-resolved :
    (s : Settings) (principal : Option String) (r : ResolvedSources)
    → is_enforced s ≡ true
    → check_sources s principal r ≡ ok tt
    → (r.unresolved ≡ []) × (check_resolved s principal r.datasets ≡ ok tt)
unfolding check_sources
check_sources-resolved s principal r e h = ground arith

pub noted-IsAuthorized :
    (s : Settings) (principal : Option String) (r : ResolvedSources) (source : String)
    (o : Option (String × String))
    → is_enforced s ≡ true
    → check_sources s principal r ≡ ok tt
    → IsNoted source o r
    → IsAuthorized s principal o
noted-IsAuthorized s principal r source none e h m =
    let none_left : Has source [] = rw (check_sources-resolved s principal r e h).0 at m in
    elim none_left [ ]
noted-IsAuthorized s principal r source (some (dv, ds)) e h m = allowed dv ds refl (
    check_resolved-allowed s principal r.datasets dv ds (check_sources-resolved s principal r e h).1
      m)

pub check_compiled-parsed :
    (s : Settings) (principal : Option String) (envelope : Fields) (dataverse : Option String)
    → is_enforced s ≡ true
    → truthy (lookup "errors" envelope) ≡ false
    → check_compiled_plan s principal envelope dataverse ≡ ok tt
    → (p : ParsedPlan) × (parse_optimized_plan (lookup "plans" envelope) ≡ some p)
      × (check_sources s principal (resolve_sources p.data_sources dataverse) ≡ ok tt)
unfolding check_compiled_plan check_parsed
check_compiled-parsed s principal envelope dataverse e no_errors h =
    elim (Option-cases (parse_optimized_plan (lookup "plans" envelope))) [
      | inl missing ↦ absurd (ground arith)
      | inr (p, found) ↦ (p, found, ground arith)
    ]

-- Tenant isolation, end to end. Where an allowlist is configured, a compiled envelope without
-- errors that the check accepts has a plan such that every data source named by any operator of the
-- plan, at any depth, resolves to a dataset in a dataverse on the principal's own list.
pub check_compiled_plan-IsAuthorized :
    (s : Settings) (principal dataverse : Option String) (envelope plans root : Fields)
    (source : String)
    → is_enforced s ≡ true
    → truthy (lookup "errors" envelope) ≡ false
    → lookup "plans" envelope ≡ obj plans
    → lookup optimized_plan_key plans ≡ obj root
    → check_compiled_plan s principal envelope dataverse ≡ ok tt
    → Scans source root
    → IsAuthorized s principal (resolve_source dataverse source)
unfolding parse_optimized_plan
check_compiled_plan-IsAuthorized s principal dataverse envelope plans root source e no_errors
      at_plans at_root h scans =
    let (p, found, checked) = check_compiled-parsed s principal envelope dataverse e no_errors h in
    noted-IsAuthorized s principal (resolve_sources p.data_sources dataverse) source
      (resolve_source dataverse source) e checked
      (resolve_sources-IsNoted p.data_sources dataverse source
        (parse_plan-Scans plans root optimized_plan_key at_root (rw at_plans at found) scans))

-- Every refusal of the check is FORBIDDEN: it never fails in another way that a caller might retry.
pub check_compiled_plan-forbidden :
    (s : Settings) (principal dataverse : Option String) (envelope : Fields) (e : GatewayError)
    → check_compiled_plan s principal envelope dataverse ≡ err e
    → e.error_type ≡ forbidden
unfolding check_compiled_plan check_parsed check_sources check_resolved denied_error
    unresolved_error no_plan_error
check_compiled_plan-forbidden s principal dataverse envelope e h = ground arith
