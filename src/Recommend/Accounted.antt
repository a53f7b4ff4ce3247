-- ===== src/Recommend/Accounted.antt =====
-- What becomes of each statement of a workload: src/asterixdb_mcp/tools/recommend_indexes.py.
use mathlib.Core.Path.{subst}
use asterixdb_mcp_server.Prelude.{
  ℕ, suc, ◌+◌, ◌≤◌, ◌≡◌, Bool, String, Option, none, some, List, [], ◌∷◌, ltb, length,
  length-append, arith, Option-cases, Bool-cases, inl, inr,
}
use Prim.Native.Char.{Char}
use asterixdb_mcp_server.Json.{Fields}
use asterixdb_mcp_server.Errors.{Result, ok, err, crash}
use asterixdb_mcp_server.Config.{Settings}
use asterixdb_mcp_server.Http.{Env}
use asterixdb_mcp_server.CcClient.{Client}
use asterixdb_mcp_server.Recommend.{SecondaryIndex}
use asterixdb_mcp_server.Recommend.Advise.{Advice, guard}
use asterixdb_mcp_server.Recommend.Observe.{Analysis, observed, skipped}
use asterixdb_mcp_server.Recommend.Workload.{
  max_statements, Progress, with_advice, with_skip, with_analysis, analyzed_as, advised_as,
  take_statement, take_statements, and_then, no_progress, Report, reported, with_indexes,
  recommend_indexes,
}

-- The statements that the progress accounts for.
unfoldable pub accounted : Progress → ℕ
accounted p = p.analyzed + length p.skips

-- The outcome, if there is one, accounts for so many statements, and the advisor answered no more of
-- them than were analyzed.
unfoldable pub Accounts : {W : Type 0} → ℕ → Result Progress × W → Type 0
unfolding accounted
Accounts n (ok p, w) = (accounted p ≡ n) × (p.native_used ≤ p.analyzed)
Accounts n (err e, w) = Unit {0}
Accounts n (crash, w) = Unit {0}

with_skip-accounted :
    (reason : Fields) (p : Progress) → accounted (with_skip reason p) ≡ suc (accounted p)
unfolding with_skip accounted
with_skip-accounted reason p = omega (arith, length-append p.skips (reason ∷ []))

with_analysis-Accounts :
    {W : Type 0} (analysis : Analysis) (p : Progress) (w : W)
    → p.native_used ≤ p.analyzed
    → Accounts (suc (accounted p)) (ok (with_analysis analysis p), w)
unfolding Accounts with_analysis accounted
with_analysis-Accounts (skipped reason) p w h = (with_skip-accounted reason p, h)
with_analysis-Accounts (observed observations) p w h = (omega arith, omega (arith, h))

analyzed_as-Accounts :
    {W : Type 0} (p : Progress) (outcome : Result Analysis × W)
    → p.native_used ≤ p.analyzed
    → Accounts (suc (accounted p)) (analyzed_as p outcome)
unfolding Accounts analyzed_as
analyzed_as-Accounts p (ok analysis, w) h = with_analysis-Accounts analysis p w h
analyzed_as-Accounts p (err e, w) h = tt
analyzed_as-Accounts p (crash, w) h = tt

-- A report accounts for so many statements: each was analyzed or is listed as skipped, and the advisor
-- answered no more than were analyzed.
unfoldable pub IsComplete : {W : Type 0} → ℕ → Result Report × W → Type 0
IsComplete n (ok report, w) =
    (report.progress.analyzed + length report.progress.skips ≡ n)
    × (report.progress.native_used ≤ report.progress.analyzed)
IsComplete n (err e, w) = Unit {0}
IsComplete n (crash, w) = Unit {0}

reported-IsComplete :
    {W : Type 0} (n : ℕ) (indexes : List SecondaryIndex) (outcome : Result Progress × W)
    → Accounts n outcome
    → IsComplete n (reported indexes outcome)
unfolding Accounts IsComplete reported accounted
reported-IsComplete n indexes (ok p, w) a = a
reported-IsComplete n indexes (err e, w) a = tt
reported-IsComplete n indexes (crash, w) a = tt

module _ {W : Type 0} (env : Env W) (wide_word : Char → Bool) (uuid : W → String × W)
    (client : Client) (settings : Settings) (dataverse user_tag : Option String) where
  advised_as-Accounts :
      (statement : String) (p : Progress) (outcome : Result (Option Advice) × W)
      → p.native_used ≤ p.analyzed
      → Accounts
          (suc (accounted p))
          (advised_as env wide_word uuid client settings dataverse user_tag statement p outcome)
  unfolding advised_as Accounts with_advice accounted
  advised_as-Accounts statement p (ok (some advice), w) h = (omega arith, omega (arith, h))
  advised_as-Accounts statement p (ok none, w) h = analyzed_as-Accounts p _ h
  advised_as-Accounts statement p (err e, w) h = tt
  advised_as-Accounts statement p (crash, w) h = tt

  take_statement-Accounts :
      (statement : String) (p : Progress) (w : W)
      → p.native_used ≤ p.analyzed
      → Accounts
          (suc (accounted p))
          (take_statement env wide_word uuid client settings dataverse user_tag statement p w)
  unfolding take_statement Accounts with_skip
  take_statement-Accounts statement p w h = elim (Option-cases (guard wide_word statement)) [
    | inr (reason, e) ↦ rw (e, take_statement) (with_skip-accounted reason p, h)
    | inl e ↦ rw (e, take_statement) (advised_as-Accounts statement p _ h)
  ]

  take_statements-Accounts :
      (statements : List String) (p : Progress) (w : W)
      → p.native_used ≤ p.analyzed
      → Accounts
          (length statements + accounted p)
          (take_statements env wide_word uuid client settings dataverse user_tag statements p w)
  unfolding take_statements Accounts
  take_statements-Accounts [] p w h = (omega arith, h)
  take_statements-Accounts (statement ∷ statements) p w h =
      rest (take_statement env wide_word uuid client settings dataverse user_tag statement p w)
        (λ q w' k. take_statements-Accounts statements q w' k)
        (take_statement-Accounts statement p w h)
    where
      rest :
          (outcome : Result Progress × W)
          → ((q : Progress) (w' : W)
              → q.native_used ≤ q.analyzed
              → Accounts (length statements + accounted q) (
                  take_statements env wide_word uuid client settings dataverse user_tag statements q
                    w'))
          → Accounts (suc (accounted p)) outcome
          → Accounts (length (statement ∷ statements) + accounted p) (
              and_then
                (take_statements env wide_word uuid client settings dataverse user_tag statements)
                outcome)
      rest (ok q, w') later (same, k) =
          let sum : length statements + accounted q ≡ suc (length statements) + accounted p =
            omega (arith, same) in
          subst
            (λ n. Accounts n (
              take_statements env wide_word uuid client settings dataverse user_tag statements q
                w'))
            sum (later q w' k)
      rest (err e, w') later a = tt
      rest (crash, w') later a = tt

  with_indexes-IsComplete :
      (statements : List String) (outcome : Result (List SecondaryIndex) × W)
      → IsComplete
          (length statements)
          (with_indexes env wide_word uuid client settings dataverse user_tag statements outcome)
  unfolding with_indexes IsComplete accounted
  with_indexes-IsComplete statements (ok indexes, w) =
      let sum : length statements + accounted no_progress ≡ length statements = omega arith in
      reported-IsComplete (length statements) indexes _ (
        subst
          (λ n. Accounts n (
            take_statements env wide_word uuid client settings dataverse user_tag statements
              no_progress w))
          sum (take_statements-Accounts statements no_progress w (omega arith)))
  with_indexes-IsComplete statements (err e, w) = tt
  with_indexes-IsComplete statements (crash, w) = tt

  -- Whatever the cluster answers, a report accounts for every statement of the workload: each was
  -- analyzed, by the advisor or by its plans, or is listed as skipped with the reason.
  pub recommend_indexes-IsComplete :
      (statements : List String) (w : W)
      → IsComplete
          (length statements)
          (recommend_indexes env wide_word uuid client settings dataverse user_tag statements w)
  unfolding recommend_indexes IsComplete
  recommend_indexes-IsComplete [] w = tt
  recommend_indexes-IsComplete (statement ∷ statements) w =
      elim (Bool-cases (ltb max_statements (length (statement ∷ statements)))) [
        | inl e ↦ rw (e, recommend_indexes) tt
        | inr e ↦ rw (e, recommend_indexes) (with_indexes-IsComplete (statement ∷ statements) _)
      ]
