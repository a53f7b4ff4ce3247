-- ===== src/Examples/Workloads.antt =====
-- The recommendation of indexes, the execution of a query and the uses of a log, on concrete data.
use asterixdb_mcp_server.Prelude.{
  Bool, ◌≡◌, ◌≤◌, ◌↔◌, refl, true, false, ◌≢◌, String, Option, none, some, List, [], ◌∷◌, All, Has,
  length, arith,
}
use Prim.Native.Char.{Char}
use asterixdb_mcp_server.Json.{Json, pos}
use asterixdb_mcp_server.AuditLog.{init, get}
use asterixdb_mcp_server.AuditLog.Refines.{
  Call, record_call, get_call, forget_call, after_all, promised_all, live, nothing, get-promised,
  time_of,
}
use asterixdb_mcp_server.Tools.Execute.{Arguments}
use asterixdb_mcp_server.Recommend.{
  SecondaryIndex, covered_first_keys, Covered, Observation, Candidate, aggregate,
}
use asterixdb_mcp_server.Recommend.Credited.{credit}
use asterixdb_mcp_server.Recommend.Keyed.{key_of, AreDistinct, aggregate-credit}
use asterixdb_mcp_server.Recommend.Novel.{IsUnled, aggregate-IsUnled}
use asterixdb_mcp_server.Recommend.Report.{max_recommendations, rank_candidates, rank}
use asterixdb_mcp_server.Recommend.Advise.{merge_recommendations}
use asterixdb_mcp_server.Recommend.Workload.{recommend_indexes}
use asterixdb_mcp_server.Recommend.Accounted.{IsComplete, recommend_indexes-IsComplete}
use asterixdb_mcp_server.Recommend.Ranked.{IsDescending, rank_candidates-IsRanked}
use asterixdb_mcp_server.Examples.{the_settings, submitted, the_client, the_env}

abbrev filtered : Bool → List String → Observation
filtered full_scan fields = record {
  dataverse = "Yelp";
  dataset = "Business";
  full_scan = full_scan;
  fields = fields;
  predicates = [];
}

abbrev observations : List Observation
observations =
    filtered true ("city" ∷ "stars" ∷ []) ∷ filtered false ("stars" ∷ []) ∷ filtered true [] ∷ []

abbrev indexes : List SecondaryIndex
indexes =
    record {
      dataverse = some "Yelp";
      dataset = some "Business";
      name = "by_city";
      structure = "BTREE";
      key_fields = "city" ∷ "stars" ∷ [];
    }
    ∷ []

abbrev covered : Covered
covered = (("Yelp", "Business"), "city" ∷ []) ∷ []

test_support : credit indexes "Yelp" "Business" (some "stars") observations ≡ 2
unfolding credit
test_support = refl

aggregate-credit_example :
    AreDistinct (aggregate observations (covered_first_keys indexes))
    × ((c : Candidate)
        → Has c (aggregate observations (covered_first_keys indexes))
        → c.supporting_statements ≡ credit indexes c.dataverse c.dataset c.field observations)
    × ((dv ds : String) (f : Option String)
        → All (λ c. key_of c ≢ (dv, ds, f)) (aggregate observations (covered_first_keys indexes))
        → credit indexes dv ds f observations ≡ 0)
aggregate-credit_example = aggregate-credit observations indexes

aggregate-IsUnled_example :
    All (IsUnled indexes) (aggregate observations (covered_first_keys indexes))
aggregate-IsUnled_example = aggregate-IsUnled observations indexes

abbrev candidates : List Candidate
unfolding aggregate
candidates = aggregate observations covered

rank_candidates-IsRanked_example :
    IsDescending (rank_candidates candidates)
    × ((x : Candidate) → Has x (rank_candidates candidates) ↔ Has x candidates)
    × (length (merge_recommendations [] (rank candidates)) ≤ max_recommendations)
rank_candidates-IsRanked_example = rank_candidates-IsRanked [] candidates

abbrev no_text : Json → String
no_text v = ""

abbrev no_wide : Char → Bool
no_wide c = false

abbrev call : Arguments
call = record {
  statement = "SELECT x FROM Yelp.Business";
  dataverse = none;
  offset = pos 0;
  limit = pos 20;
  compiler_parameters = [];
  profile = false;
  signature = false;
  max_warnings = 5;
  user_tag = none;
}

abbrev uses : List Call
uses = record_call 3 submitted ∷ get_call 5 "alpha::_::u1" ∷ forget_call "alpha::_::u9" ∷ []

get-promised_example :
    (get 9 "alpha::_::u1" (after_all uses (record { ttl_s = 60; entries = [] }))).0
    ≡ live 60 9 (promised_all uses nothing "alpha::_::u1")
unfolding init time_of
get-promised_example =
    get-promised 60 9 uses (record { ttl_s = 60; entries = [] }) "alpha::_::u1" refl
      (omega arith, (omega arith, (omega arith, tt)))

abbrev workload : List String
workload = "SELECT STDEV(x) FROM t" ∷ "SELECT 1;" ∷ []

recommend_indexes-IsComplete_example : IsComplete (length workload) (
    recommend_indexes the_env no_wide (λ w. ("u4", w)) the_client the_settings none none workload 1)
recommend_indexes-IsComplete_example =
    recommend_indexes-IsComplete the_env no_wide (λ w. ("u4", w)) the_client the_settings none none
      workload 1
