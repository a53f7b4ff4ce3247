-- ===== src/JobParser/Summaries.antt =====
-- The summaries of a parsed job: src/asterixdb_mcp/job_parser.py.
use asterixdb_mcp_server.Prelude.{
  ℕ, ◌+◌, ◌≡◌, refl, true, false, String, Option, none, some, List, [], ◌∷◌, map, Has, All, ◌==◌,
  eq_iff, arith, Bool-cases, inl, inr, if◌then◌else◌,
}
use asterixdb_mcp_server.Prelude.Dict
use asterixdb_mcp_server.Prelude.Dict.{Dict, count_of, get-put}
use asterixdb_mcp_server.Json.{obj, ℤ, pos, negsuc, Fields, lookup}
use asterixdb_mcp_server.JobParser.{
  JobOperator, JobConnector, ParsedJob, count_kinds_from, count_kinds, int_leb, larger, max_count,
  max_partition_count, parse_operators, parse_connectors, job_of, parse_job,
}

-- How often the kind stands in the list.
unfoldable pub occurrences : String → List (Option String) → ℕ
occurrences kind [] = 0
occurrences kind (none ∷ kinds) = occurrences kind kinds
occurrences kind (some k ∷ kinds) = (if k == kind then 1 else 0) + occurrences kind kinds

count_kinds_from-occurrences :
    (kind : String) (counts : Dict ℕ) (kinds : List (Option String))
    → count_of (Dict.get kind (count_kinds_from counts kinds))
      ≡ count_of (Dict.get kind counts) + occurrences kind kinds
unfolding count_kinds_from occurrences
count_kinds_from-occurrences kind counts [] = omega arith
count_kinds_from-occurrences kind counts (none ∷ kinds) =
    count_kinds_from-occurrences kind counts kinds
count_kinds_from-occurrences kind counts (some k ∷ kinds) = ground (
  arith,
  count_kinds_from-occurrences kind (Dict.put k (count_of (Dict.get k counts) + 1) counts) kinds,
  get-put k kind (count_of (Dict.get k counts) + 1) counts,
  eq_iff k kind,
)

count_kinds-occurrences :
    (kind : String) (kinds : List (Option String))
    → count_of (Dict.get kind (count_kinds kinds)) ≡ occurrences kind kinds
unfolding count_kinds Dict.get
count_kinds-occurrences kind kinds = omega (arith, count_kinds_from-occurrences kind [] kinds)

-- An operator that names no count is under any bound.
unfoldable pub IsWithin : ℤ → Option ℤ → Type 0
IsWithin top none = Unit {0}
IsWithin top (some n) = int_leb n top ≡ true

-- The largest count there is, if there is one.
unfoldable pub IsLargest : List (Option ℤ) → Option ℤ → Type 0
IsLargest counts none = All (λ c. c ≡ none) counts
IsLargest counts (some top) = Has (some top) counts × All (IsWithin top) counts

int_leb_refl : (n : ℤ) → int_leb n n ≡ true
unfolding int_leb
int_leb_refl (pos n) = ground arith
int_leb_refl (negsuc n) = ground arith

int_leb_trans : (a b c : ℤ) → int_leb a b ≡ true → int_leb b c ≡ true → int_leb a c ≡ true
unfolding int_leb
int_leb_trans (pos a) (pos b) (pos c) h k = ground arith
int_leb_trans (pos a) (pos b) (negsuc c) h k = ground arith
int_leb_trans (pos a) (negsuc b) c h k = ground arith
int_leb_trans (negsuc a) (pos b) (pos c) h k = refl
int_leb_trans (negsuc a) (pos b) (negsuc c) h k = ground arith
int_leb_trans (negsuc a) (negsuc b) (pos c) h k = refl
int_leb_trans (negsuc a) (negsuc b) (negsuc c) h k = ground arith

int_leb_total : (a b : ℤ) → int_leb a b ≡ false → int_leb b a ≡ true
unfolding int_leb
int_leb_total (pos a) (pos b) h = ground arith
int_leb_total (pos a) (negsuc b) h = refl
int_leb_total (negsuc a) (pos b) h = ground arith
int_leb_total (negsuc a) (negsuc b) h = ground arith

All-IsWithin :
    (a b : ℤ) (counts : List (Option ℤ))
    → int_leb a b ≡ true
    → All (IsWithin a) counts
    → All (IsWithin b) counts
unfolding IsWithin
All-IsWithin a b [] h w = tt
All-IsWithin a b (none ∷ counts) h w = (tt, All-IsWithin a b counts h w.1)
All-IsWithin a b (some n ∷ counts) h w = (int_leb_trans n a b w.0 h, All-IsWithin a b counts h w.1)

All-none-IsWithin :
    (top : ℤ) (counts : List (Option ℤ)) → All (λ c. c ≡ none) counts → All (IsWithin top) counts
unfolding IsWithin
All-none-IsWithin top [] h = tt
All-none-IsWithin top (none ∷ counts) h = (tt, All-none-IsWithin top counts h.1)
All-none-IsWithin top (some n ∷ counts) h = ground (arith, h.0)

larger-IsLargest :
    (n : ℤ) (m : Option ℤ) (counts : List (Option ℤ))
    → IsLargest counts m
    → IsLargest (some n ∷ counts) (larger n m)
unfolding IsLargest IsWithin larger
larger-IsLargest n none counts h = (inl refl, (int_leb_refl n, All-none-IsWithin n counts h))
larger-IsLargest n (some m) counts h = elim (Bool-cases (int_leb n m)) [
  | inl e ↦ rw e (inr h.0, (e, h.1))
  | inr e ↦
      let below : int_leb m n ≡ true = int_leb_total n m e in
      rw e (inl refl, (int_leb_refl n, All-IsWithin m n counts below h.1))
]

none-IsLargest :
    (counts : List (Option ℤ)) (m : Option ℤ) → IsLargest counts m → IsLargest (none ∷ counts) m
unfolding IsLargest IsWithin
none-IsLargest counts none h = (refl, h)
none-IsLargest counts (some m) h = (inr h.0, (tt, h.1))

max_count-IsLargest : (counts : List (Option ℤ)) → IsLargest counts (max_count counts)
unfolding IsLargest max_count
max_count-IsLargest [] = tt
max_count-IsLargest (none ∷ counts) =
    none-IsLargest counts (max_count counts) (max_count-IsLargest counts)
max_count-IsLargest (some n ∷ counts) =
    larger-IsLargest n (max_count counts) counts (max_count-IsLargest counts)

-- The summaries of a job count its parts: by kind, and the widest of them.
unfoldable pub IsSummary : ParsedJob → Type 0
unfolding IsLargest occurrences
IsSummary job =
    ((kind : String)
      → (count_of (Dict.get kind job.operator_counts)
          ≡ occurrences kind (map (λ op. op.kind) job.operators))
        × (count_of (Dict.get kind job.connector_counts)
            ≡ occurrences kind (map (λ conn. conn.kind) job.connectors)))
    × IsLargest (map (λ op. op.partition_count) job.operators) job.max_partition_count

job_of-IsSummary :
    (operators : List JobOperator) (connectors : List JobConnector)
    → IsSummary (job_of operators connectors)
unfolding IsSummary job_of max_partition_count
job_of-IsSummary operators connectors = (
  (λ kind. (
    count_kinds-occurrences kind (map (λ op. op.kind) operators),
    count_kinds-occurrences kind (map (λ conn. conn.kind) connectors),
  )),
  max_count-IsLargest (map (λ op. op.partition_count) operators),
)

-- Plans that hold an object under the key parse to a job.
-- What is parsed has an operator and a connector for each object in the job's lists, in their
-- order. The two counts give for each kind how many of these are of it, and the peak
-- partition count is the largest that an operator names, or none if no operator names one.
pub parse_job-IsSummary :
    (plans fields : Fields) (key : String)
    → lookup key plans ≡ obj fields
    → (job : ParsedJob) × (parse_job (obj plans) key ≡ some job)
      × (job.operators ≡ parse_operators (lookup "operators" fields))
      × (job.connectors ≡ parse_connectors (lookup "connectors" fields))
      × IsSummary job
unfolding job_of parse_job parse_operators parse_connectors
parse_job-IsSummary plans fields key found =
    let operators : List JobOperator = parse_operators (lookup "operators" fields) in
    let connectors : List JobConnector = parse_connectors (lookup "connectors" fields) in
    (
      job_of operators connectors,
      rw (found, parse_job) refl,
      refl,
      refl,
      job_of-IsSummary operators connectors,
    )
