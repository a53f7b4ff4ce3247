-- ===== src/Recommend/Report.antt =====
-- The recommendations that the tool reports: src/asterixdb_mcp/tools/recommend_indexes.py. A score, a
-- scan flag and predicates are the candidate's; an advised index has none.
use asterixdb_mcp_server.Prelude.{
  ℕ, Bool, true, false, ◌&&◌, ◌||◌, String, Option, none, some, List, [], ◌∷◌, map, ltb, leb,
  nat_eq, nonempty, show, strip, strip_left, strip_right, split, ◌<>◌, if◌then◌else◌,
}
use Prim.Native.Char.{Char, code}
use Prim.Native.String.{compare}
use Prim.Native.Nat.{Ordering}
use asterixdb_mcp_server.Prelude.{is_space}
use asterixdb_mcp_server.Recommend.{Candidate}

abbrev pub max_recommendations : ℕ
max_recommendations = 20

pub record Recommendation : Type 0 where
  pub source : String
  pub confidence : String
  pub dataverse : Option String
  pub dataset : Option String
  pub field : Option String
  pub recommended_ddl : Option String
  pub supporting_statements : ℕ
  pub rationale : String
  pub candidate : Option Candidate

is_alnum : Char → Bool
is_alnum c =
    let n = code c in (leb 48 n && leb n 57) || (leb 65 n && leb n 90) || (leb 97 n && leb n 122)

-- `re.sub(r"[^0-9A-Za-z]+", "_", s)`, given whether the last character was replaced
underscored : Bool → String → String
unfolding is_alnum
underscored inside String.[] = String.[]
underscored inside (String.◌∷◌ c s) = elim (is_alnum c) [
  | true ↦ String.◌∷◌ c (underscored false s)
  | false ↦ if inside then underscored true s else "_" <> underscored true s
]

abbrev text_or_default : String → String → String
text_or_default default String.[] = default
text_or_default default (String.◌∷◌ c s) = String.◌∷◌ c s

strip_char : ℕ → String → String
unfolding strip_left strip_right
strip_char n s = strip_right (λ c. nat_eq (code c) n) (strip_left (λ c. nat_eq (code c) n) s)

-- `_index_name`
unfoldable pub index_name : String → String → String
unfolding underscored strip_char ◌<>◌
index_name dataset key_field =
    "idx_"
    <> dataset
    <> "_"
    <> text_or_default "field" (strip_char b'_' (underscored false key_field))

abbrev scan_note : Bool → String
scan_note true = "; those queries fall back to a full scan."
scan_note false = "."

-- `_finalize`
unfoldable pub finalize : Candidate → Recommendation
unfolding index_name show ◌<>◌
finalize c = elim c.field [
  | some key_field ↦ record {
    source = "heuristic";
    confidence = if c.uses_full_scan then "high" else "medium";
    dataverse = some c.dataverse;
    dataset = some c.dataset;
    field = some key_field;
    recommended_ddl = some (
        "CREATE INDEX "
        <> index_name c.dataset key_field
        <> " ON "
        <> c.dataverse
        <> "."
        <> c.dataset
        <> "("
        <> key_field
        <> ");");
    supporting_statements = c.supporting_statements;
    rationale =
        key_field
        <> " is filtered by "
        <> show c.supporting_statements
        <> " workload statement(s) on "
        <> c.dataverse
        <> "."
        <> c.dataset
        <> " with no covering secondary index"
        <> scan_note c.uses_full_scan;
    candidate = some c;
  }
  | none ↦ record {
    source = "heuristic";
    confidence = "low";
    dataverse = some c.dataverse;
    dataset = some c.dataset;
    field = none;
    recommended_ddl = none;
    supporting_statements = c.supporting_statements;
    rationale =
        c.dataverse
        <> "."
        <> c.dataset
        <> " is full-scanned by "
        <> show c.supporting_statements
        <> " workload statement(s) but no filter field could be attributed from the plan. Inspect the WHERE clause and index the most selective equality/range field.";
    candidate = some c;
  }
]

abbrev then_by : Ordering → Bool → Bool
then_by Ordering.lt rest = true
then_by Ordering.gt rest = false
then_by Ordering.eq rest = rest

-- `field or "~"`
abbrev sort_field : Option String → String
sort_field none = "~"
sort_field (some s) = text_or_default "~" s

-- Whether the first may stand before the second: by `(-score, dataverse, dataset, field or "~")`.
unfoldable pub goes_before : Candidate → Candidate → Bool
goes_before a b =
    if ltb b.score a.score
    then true
    else if ltb a.score b.score
    then false
    else then_by (compare a.dataverse b.dataverse) (
        then_by (compare a.dataset b.dataset)
          (then_by (compare (sort_field a.field) (sort_field b.field)) true))

-- `sort`: stable, each element put before the first later one that it may stand before.
unfoldable pub insert_candidate : Candidate → List Candidate → List Candidate
unfolding goes_before
insert_candidate c [] = c ∷ []
insert_candidate c (d ∷ ds) = elim (goes_before c d) [
  | true ↦ c ∷ d ∷ ds
  | false ↦ d ∷ insert_candidate c ds
]

unfoldable pub rank_candidates : List Candidate → List Candidate
unfolding insert_candidate
rank_candidates [] = []
rank_candidates (c ∷ cs) = insert_candidate c (rank_candidates cs)

-- `_rank`
abbrev pub rank : List Candidate → List Recommendation
unfolding finalize rank_candidates
rank candidates = map finalize (rank_candidates candidates)

-- The names in an advised statement.
abbrev unnamed : Option String × Option String × Option String
unnamed = (none, none, none)

-- The text up to the first such character, which must be there, and what follows it.
unfoldable pub up_to : ℕ → String → Option (String × String)
up_to n String.[] = none
up_to n (String.◌∷◌ c s) = elim (nat_eq (code c) n) [
  | true ↦ some (String.[], s)
  | false ↦ elim (up_to n s) [
    | none ↦ none
    | some (before, rest) ↦ some (String.◌∷◌ c before, rest)
  ]
]

-- The character, and what follows it.
unfoldable pub expect : ℕ → String → Option String
expect n String.[] = none
expect n (String.◌∷◌ c s) = if nat_eq (code c) n then some s else none

filled : String × String → Option (String × String)
filled (before, rest) = if nonempty before then some (before, rest) else none

infixl 10 ◌>>=◌
abbrev ◌>>=◌ : {A B : Type 0} → Option A → (A → Option B) → Option B
none >>= f = none
some a >>= f = f a

-- A name in backticks.
unfoldable pub quoted : String → Option (String × String)
unfolding expect up_to filled
quoted s = expect b'`' s >>= λ inner. up_to b'`' inner >>= filled

-- `\s+`
spaces : String → Option String
unfolding strip_left is_space
spaces String.[] = none
spaces (String.◌∷◌ c s) = if is_space c then some (strip_left is_space s) else none

-- `first.split(",")[0].strip().strip("`")`
unfoldable pub leading_field : String → Option String
unfolding split strip strip_char
leading_field s = elim (split b',' s) [
  | [] ↦ none
  | first ∷ rest ↦
      let name = strip_char b'`' (strip first) in if nonempty name then some name else none
]

-- The pattern `_ADVISE_DDL_RE` at the start of a text.
unfoldable pub match_ddl : String → Option (String × String × Option String)
unfolding expect spaces quoted strip_left is_space up_to leading_field
match_ddl s = expect b'O' s >>= λ s1. expect b'N' s1 >>= λ s2. spaces s2 >>= λ s3.
    quoted s3 >>= λ (database, s4). expect b'.' s4 >>= λ s5. quoted s5 >>= λ (dv, s6).
    expect b'.' s6 >>= λ s7. quoted s7 >>= λ (ds, s8).
    expect b'(' (strip_left is_space s8) >>= λ s9.
    up_to b')' s9 >>= λ (fields, s10). some (dv, ds, leading_field fields)

-- `_parse_advise_ddl`
unfoldable pub parse_advise_ddl : String → Option String × Option String × Option String
unfolding match_ddl
parse_advise_ddl String.[] = unnamed
parse_advise_ddl (String.◌∷◌ c s) = elim (match_ddl (String.◌∷◌ c s)) [
  | some (dv, ds, key_field) ↦ (some dv, some ds, key_field)
  | none ↦ parse_advise_ddl s
]
