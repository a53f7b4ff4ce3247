-- ===== src/Examples/Plans.antt =====
-- The plan parser, the tenant policy and the limits on what is delivered, on concrete data.
use asterixdb_mcp_server.Prelude.{
  ◌≡◌, ◌⊎◌, ◌↔◌, refl, inl, true, false, String, none, some, List, [], ◌∷◌, map, length, drop, Has,
  ltb,
}
use asterixdb_mcp_server.Prelude.Dict
use asterixdb_mcp_server.Prelude.Dict.{count_of}
use asterixdb_mcp_server.Prelude.Sorted.{sorted_set}
use asterixdb_mcp_server.Json.{
  Json, nat, str, arr, obj, nil, cons, Fields, field, end, lookup, truthy, to_list,
}
use asterixdb_mcp_server.PlanParser.{
  optimized_plan_key, resolve_source, resolve_sources, parse_plan, parse_optimized_plan, parse_node,
  collect,
}
use asterixdb_mcp_server.PlanParser.Counts.{start, occurrences, sources_of, collect_lem}
use asterixdb_mcp_server.PlanParser.Scans.{Scans, at_node, below, parse_plan-Scans}
use asterixdb_mcp_server.Errors.{ok}
use asterixdb_mcp_server.JobParser.{ParsedJob, parse_operators, parse_connectors, parse_job}
use asterixdb_mcp_server.JobParser.Summaries.{IsSummary, parse_job-IsSummary}
use asterixdb_mcp_server.TenantPolicy.{is_enforced, allowed_dataverses, check_compiled_plan}
use asterixdb_mcp_server.TenantPolicy.Authorized.{IsAuthorized, check_compiled_plan-IsAuthorized}
use asterixdb_mcp_server.TenantPolicy.Verdict.{HasAuthorizedPlan, check_compiled_plan-verdict}
use asterixdb_mcp_server.Egress.{truncate_for_llm, clamp_long_values}
use asterixdb_mcp_server.Egress.Window.{IsWindow, total_bytes, truncate_for_llm-IsWindow}
use asterixdb_mcp_server.Egress.Clamp.{AreClamped, texts, clamp_long_values-IsClamped}
use asterixdb_mcp_server.Tools.Fetch.{page_of}
use asterixdb_mcp_server.Tools.Fetch.Complete.{page_of_complete}
use asterixdb_mcp_server.Examples.{the_settings, scan_node, root_node, the_plans, compiled}

Scans-business : Scans "Yelp.Business" root_node
unfolding lookup to_list
Scans-business = below (cons (obj scan_node) nil) scan_node refl (inl refl) (at_node refl)

check_compiled_plan-IsAuthorized_example :
    IsAuthorized the_settings (some "alice") (resolve_source none "Yelp.Business")
unfolding is_enforced truthy lookup check_compiled_plan parse_optimized_plan resolve_sources
    sorted_set allowed_dataverses Dict.get
check_compiled_plan-IsAuthorized_example =
    check_compiled_plan-IsAuthorized the_settings (some "alice") none compiled the_plans root_node
      "Yelp.Business" refl refl refl refl refl Scans-business

check_compiled_plan-verdict_example :
    (check_compiled_plan the_settings (some "alice") compiled none ≡ ok tt) ↔ (
      (is_enforced the_settings ≡ false)
      ⊎ (truthy (lookup "errors" compiled) ≡ true)
      ⊎ HasAuthorizedPlan the_settings (some "alice") none compiled)
check_compiled_plan-verdict_example =
    check_compiled_plan-verdict the_settings (some "alice") none compiled

parse_plan-Scans_example : Has {A = String} "Yelp.Business" ("Yelp.Business" ∷ [])
unfolding lookup parse_plan
parse_plan-Scans_example =
    parse_plan-Scans the_plans root_node optimized_plan_key {source = "Yelp.Business"} refl refl
      Scans-business

collect_lem_example :
    ((k : String)
      → count_of (Dict.get k (collect (parse_node root_node) start).counts)
        ≡ occurrences k (parse_node root_node))
    × ((collect (parse_node root_node) start).sources ≡ sources_of (parse_node root_node))
collect_lem_example = collect_lem (parse_node root_node)

abbrev scan_fields : Fields
scan_fields = field "id" (str "ODID:1") (
    field "java-class" (str "org.apache.BTreeSearchOperatorDescriptor")
      (field "partition-constraints" (obj (field "count" (nat 4) end)) end))

abbrev job_fields : Fields
job_fields = field "operators" (arr (cons (obj scan_fields) nil)) end

abbrev job_plans : Fields
job_plans = field "job" (obj job_fields) end

parse_job-IsSummary_example :
    (job : ParsedJob) × (parse_job (obj job_plans) "job" ≡ some job)
    × (job.operators ≡ parse_operators (lookup "operators" job_fields))
    × (job.connectors ≡ parse_connectors (lookup "connectors" job_fields))
    × IsSummary job
unfolding lookup
parse_job-IsSummary_example = parse_job-IsSummary job_plans job_fields "job" refl

abbrev three_rows : List Json
three_rows = str "a" ∷ str "b" ∷ str "c" ∷ []

truncate_for_llm-IsWindow_example :
    let (delivered, meta) = truncate_for_llm (λ row. 30) three_rows 2 100 in
    IsWindow (λ row. 30) three_rows 2 100 delivered
    × (meta.total_rows ≡ length three_rows)
    × (meta.delivered_rows ≡ length delivered)
    × (meta.delivered_bytes ≡ total_bytes (λ row. 30) delivered)
    × (meta.truncated ≡ ltb (length delivered) (length three_rows))
truncate_for_llm-IsWindow_example = truncate_for_llm-IsWindow (λ row. 30) three_rows 2 100

clamp_long_values-IsClamped_example :
    AreClamped 3 ("abcdef" ∷ []) (texts (clamp_long_values 3 (arr (cons (str "abcdef") nil))))
unfolding texts
clamp_long_values-IsClamped_example = clamp_long_values-IsClamped 3 (arr (cons (str "abcdef") nil))

page_of_complete_example :
    (page_of (λ row. 30) the_settings none 1 5 three_rows).window
    ≡ map (clamp_long_values the_settings.max_field_chars) (drop 1 three_rows)
unfolding page_of
page_of_complete_example = page_of_complete (λ row. 30) the_settings none 1 5 three_rows refl
