-- ===== src/Recommend/Workload.antt =====
-- The loop over a workload: `run_recommend_indexes` of src/asterixdb_mcp/tools/recommend_indexes.py,
-- up to the recommendations. `uuid` makes the last segment of an id.
use asterixdb_mcp_server.Prelude.{
  ℕ, suc, Bool, String, Option, none, some, List, [], ◌∷◌, ◌++◌, ltb, show, length, ◌<>◌,
  if◌then◌else◌,
}
use Prim.Native.Char.{Char}
use asterixdb_mcp_server.Prelude.Dict.{Dict}
use asterixdb_mcp_server.Prelude.Sorted.{sorted_set}
use asterixdb_mcp_server.Json.{Fields}
use asterixdb_mcp_server.Errors.{
  GatewayError, gateway_error, invalid_parameter, Result, ok, err, crash,
}
use asterixdb_mcp_server.Config.{Settings}
use asterixdb_mcp_server.ContextId.{make_client_context_id}
use asterixdb_mcp_server.Http.{Env, Exec}
use asterixdb_mcp_server.CcClient.{Client}
use asterixdb_mcp_server.Recommend.{SecondaryIndex, covered_first_keys, Observation, aggregate}
use asterixdb_mcp_server.Recommend.Report.{Recommendation, rank}
use asterixdb_mcp_server.Recommend.Advise.{
  Advice, advise_statement, accumulate_all, guard, merge_recommendations, method,
}
use asterixdb_mcp_server.Recommend.Observe.{
  Analysis, observed, skipped, analyze_statement, fetch_secondary_indexes,
}

abbrev pub max_statements : ℕ
max_statements = 25

-- What the loop has gathered.
pub record Progress : Type 0 where
  pub native : Dict Recommendation
  pub current_indexes : List String
  pub observations : List Observation
  pub analyzed : ℕ
  pub native_used : ℕ
  pub skips : List Fields

unfoldable pub with_advice : Advice → Progress → Progress
unfolding accumulate_all
with_advice advice p = record p {
  native = accumulate_all advice.recommended p.native;
  current_indexes = p.current_indexes ++ advice.current;
  analyzed = suc p.analyzed;
  native_used = suc p.native_used;
}

unfoldable pub with_skip : Fields → Progress → Progress
with_skip reason p = record p { skips = p.skips ++ (reason ∷ []) }

unfoldable pub with_analysis : Analysis → Progress → Progress
unfolding with_skip
with_analysis (skipped reason) p = with_skip reason p
with_analysis (observed observations) p = record p {
  observations = p.observations ++ observations;
  analyzed = suc p.analyzed;
}

abbrev pub no_progress : Progress
no_progress = record {
  native = [];
  current_indexes = [];
  observations = [];
  analyzed = 0;
  native_used = 0;
  skips = [];
}

-- The answer's recommendations, method and current indexes.
pub record Report : Type 0 where
  pub recommendations : List Recommendation
  pub chosen_method : String
  pub indexes_known : ℕ
  pub current : List String
  pub progress : Progress

abbrev no_statement : GatewayError
no_statement =
    gateway_error invalid_parameter "Provide at least one SQL++ SELECT statement in `statements`."

module _ {W : Type 0} where
  unfoldable pub analyzed_as : Progress → Result Analysis × W → Result Progress × W
  unfolding with_analysis
  analyzed_as p (ok analysis, w) = (ok (with_analysis analysis p), w)
  analyzed_as p (err e, w) = (err e, w)
  analyzed_as p (crash, w) = (crash, w)

  abbrev pub and_then : (Progress → Exec W Progress) → Result Progress × W → Result Progress × W
  and_then rest (ok p, w) = rest p w
  and_then rest (err e, w) = (err e, w)
  and_then rest (crash, w) = (crash, w)

  unfoldable pub reported : List SecondaryIndex → Result Progress × W → Result Report × W
  unfolding covered_first_keys aggregate merge_recommendations method sorted_set
  reported indexes (ok p, w) = (
    ok (record {
      recommendations =
          merge_recommendations p.native
            (rank (aggregate p.observations (covered_first_keys indexes)));
      chosen_method = method p.native_used p.analyzed;
      indexes_known = length indexes;
      current = sorted_set p.current_indexes;
      progress = p;
    }),
    w,
  )
  reported indexes (err e, w) = (err e, w)
  reported indexes (crash, w) = (crash, w)

module _ {W : Type 0} (env : Env W) (wide_word : Char → Bool) (uuid : W → String × W)
    (client : Client) (settings : Settings) (dataverse user_tag : Option String) where
  -- An id of its own for each request.
  abbrev pub with_id : {A : Type 0} → (String → Exec W A) → Exec W A
  unfolding make_client_context_id
  with_id action w =
      let (new_uuid, w') = uuid w in
      action (make_client_context_id settings.agent_session_id user_tag new_uuid) w'

  -- The advisor's answer, or else the plans.
  unfoldable pub advised_as : String → Progress → Result (Option Advice) × W → Result Progress × W
  unfolding with_advice analyzed_as with_id analyze_statement
  advised_as statement p (ok (some advice), w) = (ok (with_advice advice p), w)
  advised_as statement p (ok none, w) =
      analyzed_as p (with_id (λ id. analyze_statement env client id statement dataverse) w)
  advised_as statement p (err e, w) = (err e, w)
  advised_as statement p (crash, w) = (crash, w)

  -- The body of the loop.
  unfoldable pub take_statement : String → Progress → Exec W Progress
  unfolding guard with_skip advised_as with_id advise_statement
  take_statement statement p w = elim (guard wide_word statement) [
    | some reason ↦ (ok (with_skip reason p), w)
    | none ↦
        advised_as statement p
          (with_id (λ id. advise_statement env client id statement dataverse) w)
  ]

  unfoldable pub take_statements : List String → Progress → Exec W Progress
  unfolding take_statement
  take_statements [] p w = (ok p, w)
  take_statements (statement ∷ statements) p w =
      and_then (take_statements statements) (take_statement statement p w)

  unfoldable pub with_indexes : List String → Result (List SecondaryIndex) × W → Result Report × W
  unfolding reported take_statements
  with_indexes statements (ok indexes, w) =
      reported indexes (take_statements statements no_progress w)
  with_indexes statements (err e, w) = (err e, w)
  with_indexes statements (crash, w) = (crash, w)

  unfoldable pub recommend_indexes : List String → Exec W Report
  unfolding with_indexes with_id fetch_secondary_indexes show ◌<>◌
  recommend_indexes [] w = (err no_statement, w)
  recommend_indexes (statement ∷ statements) w =
      if ltb max_statements (length (statement ∷ statements))
      then (
        err (
            gateway_error invalid_parameter (
              "Too many statements ("
              <> show (length (statement ∷ statements))
              <> "); pass at most "
              <> show max_statements
              <> ".")),
        w,
      )
      else with_indexes (statement ∷ statements)
          (with_id (λ id. fetch_secondary_indexes env client id dataverse) w)
