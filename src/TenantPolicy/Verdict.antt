-- ===== src/TenantPolicy/Verdict.antt =====
-- The whole verdict of `check_compiled_plan` of src/asterixdb_mcp/tenant_policy.py.
use asterixdb_mcp_server.Prelude.{
  ◌≡◌, refl, ◌⊎◌, ◌↔◌, inl, inr, true, false, not, String, Option, none, some, List, [], ◌∷◌, map,
  arith, keep, Has, All, All-append, Bool-cases,
}
use asterixdb_mcp_server.Prelude.Sorted.{sorted_set}
use asterixdb_mcp_server.Errors.{ok}
use asterixdb_mcp_server.Json.{Fields, lookup, truthy}
use asterixdb_mcp_server.Config.{Settings}
use asterixdb_mcp_server.PlanParser.{
  ParsedPlan, ResolvedSources, contains, contains_pair, parse_optimized_plan, resolve_source,
  note_source, resolve_from, resolve_sources,
}
use asterixdb_mcp_server.PlanParser.Sources.{contains_of_Has, resolve_sources-IsNoted}
use asterixdb_mcp_server.TenantPolicy.{
  is_enforced, allowed_dataverses, denied_of, check_resolved, check_sources, check_parsed,
  check_compiled_plan,
}
use asterixdb_mcp_server.TenantPolicy.Authorized.{
  IsAuthorized, allowed, noted-IsAuthorized, check_compiled-parsed,
}

module _ (s : Settings) (principal dataverse : Option String) where
  -- Each source of the plan resolves to a dataset in a dataverse on the principal's own list.
  unfoldable pub AreAuthorized : List String → Type 0
  AreAuthorized sources =
      (source : String)
      → Has source sources
      → IsAuthorized s principal (resolve_source dataverse source)

  -- The plan of an envelope was found, and each of its sources is authorized.
  unfoldable pub HasAuthorizedPlan : Fields → Type 0
  unfolding AreAuthorized
  HasAuthorizedPlan envelope =
      (p : ParsedPlan) × (parse_optimized_plan (lookup "plans" envelope) ≡ some p)
      × AreAuthorized p.data_sources

  -- All resolved so far, each to a permitted dataverse.
  IsGood : ResolvedSources → Type 0
  IsGood r =
      (r.unresolved ≡ []) × All (λ pair. Has pair.0 (allowed_dataverses s principal)) r.datasets

  listed :
      (pair : String × String) (dv ds : String)
      → some pair ≡ some (dv, ds)
      → Has dv (allowed_dataverses s principal)
      → Has pair.0 (allowed_dataverses s principal)
  listed pair dv ds e m = let same : dv ≡ pair.0 = ground arith in rw same at m

  note_source-IsGood :
      (source : String) (o : Option (String × String)) (r : ResolvedSources)
      → IsAuthorized s principal o
      → IsGood r
      → IsGood (note_source source o r)
  unfolding IsGood note_source
  note_source-IsGood source none r (allowed dv ds e m) good = cc
  note_source-IsGood source (some pair) r (allowed dv ds e m) (resolved, all) =
      elim (Bool-cases (contains_pair pair r.datasets)) [
        | inl c ↦ rw (c, note_source) (resolved, all)
        | inr c ↦
            let there : Has pair.0 (allowed_dataverses s principal) = listed pair dv ds e m in
            rw (c, note_source)
              (
                resolved,
                All-append (λ q. Has q.0 (allowed_dataverses s principal)) r.datasets (pair ∷ [])
                    all (there, tt),
              )
      ]

  resolve_from-IsGood :
      (sources : List String) (r : ResolvedSources)
      → AreAuthorized sources
      → IsGood r
      → IsGood (resolve_from dataverse sources r)
  unfolding AreAuthorized resolve_from
  resolve_from-IsGood [] r each good = good
  resolve_from-IsGood (source ∷ sources) r each good =
      resolve_from-IsGood sources (note_source source (resolve_source dataverse source) r)
        (λ other m. each other (inr m))
        (note_source-IsGood source (resolve_source dataverse source) r (each source (inl refl))
          good)

  keep-none :
      (pairs : List (String × String))
      → All (λ q. Has q.0 (allowed_dataverses s principal)) pairs
      → keep (λ dv. not (contains dv (allowed_dataverses s principal))) (map (λ p. p.0) pairs) ≡ []
  keep-none [] all = refl
  keep-none (q ∷ pairs) (m, all) =
      rw (contains_of_Has q.0 (allowed_dataverses s principal) m) (keep-none pairs all)

  good-check : (r : ResolvedSources) → IsGood r → check_sources s principal r ≡ ok tt
  unfolding IsGood check_sources check_resolved denied_of sorted_set
  good-check r (resolved, all) = elim (Bool-cases (is_enforced s)) [
    | inl e ↦ rw (e, resolved, keep-none r.datasets all) refl
    | inr e ↦ rw (e, check_sources) refl
  ]

  authorized-check :
      (envelope : Fields)
      → HasAuthorizedPlan envelope
      → check_compiled_plan s principal envelope dataverse ≡ ok tt
  unfolding HasAuthorizedPlan check_compiled_plan check_parsed resolve_sources IsGood
  authorized-check envelope (p, found, each) =
      let good : check_sources s principal (resolve_sources p.data_sources dataverse) ≡ ok tt =
        good-check (resolve_sources p.data_sources dataverse)
          (resolve_from-IsGood p.data_sources _ each (refl, tt)) in
      ground arith

  -- The check accepts an envelope in these cases and no other: no allowlist is configured; the
  -- envelope reports errors; or it has a plan that is found and each data source of that plan
  -- resolves to a dataset in a dataverse on the principal's own list.
  pub check_compiled_plan-verdict :
      (envelope : Fields)
      → (check_compiled_plan s principal envelope dataverse ≡ ok tt) ↔ (
          (is_enforced s ≡ false)
          ⊎ (truthy (lookup "errors" envelope) ≡ true)
          ⊎ HasAuthorizedPlan envelope)
  unfolding check_compiled_plan HasAuthorizedPlan AreAuthorized
  check_compiled_plan-verdict envelope = (
    (λ h. elim (Bool-cases (is_enforced s)) [
      | inr e ↦ inl e
      | inl e ↦ elim (Bool-cases (truthy (lookup "errors" envelope))) [
        | inl t ↦ inr (inl t)
        | inr t ↦
            let (p, found, checked) = check_compiled-parsed s principal envelope dataverse e t h in
            inr (
              inr (
                p,
                found,
                (λ source m.
                    noted-IsAuthorized s principal (resolve_sources p.data_sources dataverse) source
                      (resolve_source dataverse source) e checked
                      (resolve_sources-IsNoted p.data_sources dataverse source m)),
              ))
      ]
    ]),
    (λ o. elim o [
      | inl e ↦ ground arith
      | inr q ↦ elim q [ inl t ↦ ground arith | inr found ↦ authorized-check envelope found ]
    ]),
  )
