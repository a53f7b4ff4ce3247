-- ===== src/PlanParser/Counts.antt =====
-- What `_collect` accumulates, against counts and sources read off the tree.
use asterixdb_mcp_server.Prelude.{
  ℕ, ◌+◌, ◌≤◌, ◌≡◌, refl, sym, ◌∙◌, String, Option, none, some, List, [], ◌++◌, arith, ◌==◌, eq_iff,
  if◌then◌else◌,
}
use mathlib.Core.List.{append-nil, append_assoc}
use asterixdb_mcp_server.Prelude.Dict
use asterixdb_mcp_server.Prelude.Dict.{Dict, count_of, get-put}
use asterixdb_mcp_server.PlanParser.{
  PlanOperator, node, Operators, leaf, child, Collected, count_kind, add_source, collect,
  collect_all, depth, max_depth,
}

is_kind : String → Option String → ℕ
is_kind k none = 0
is_kind k (some j) = if j == k then 1 else 0

-- How many operators of the tree have the kind, and how many there are.
mutual
  pub occurrences : String → PlanOperator → ℕ
  occurrences k (node o cs) = is_kind k o.kind + occurrences_all k cs

  pub occurrences_all : String → Operators → ℕ
  occurrences_all k leaf = 0
  occurrences_all k (child c cs) = occurrences k c + occurrences_all k cs

mutual
  pub size : PlanOperator → ℕ
  size (node o cs) = 1 + size_all cs

  pub size_all : Operators → ℕ
  size_all leaf = 0
  size_all (child c cs) = size c + size_all cs

-- The data sources in preorder.
unfoldable mutual
  pub sources_of : PlanOperator → List String
  sources_of (node o cs) = add_source o.data_source [] ++ sources_all cs

  pub sources_all : Operators → List String
  sources_all leaf = []
  sources_all (child c cs) = sources_of c ++ sources_all cs

get-count_kind :
    (k : String) (o : Option String) (d : Dict ℕ)
    → count_of (Dict.get k (count_kind o d)) ≡ count_of (Dict.get k d) + is_kind k o
unfolding is_kind
get-count_kind k none d = omega arith
get-count_kind k (some j) d =
    ground (arith, get-put j k (count_of (Dict.get j d) + 1) d, eq_iff j k)

add_source-append : (o : Option String) (l : List String) → add_source o l ≡ l ++ add_source o []
add_source-append none l = sym (append-nil l)
add_source-append (some s) l = refl

mutual
  unfolding collect occurrences

  collect_counts :
      (k : String) (op : PlanOperator) (acc : Collected)
      → count_of (Dict.get k (collect op acc).counts)
        ≡ count_of (Dict.get k acc.counts) + occurrences k op
  collect_counts k (node o cs) acc = omega (
    arith,
    collect_all_counts k cs (record {
      counts = count_kind o.kind acc.counts;
      sources = add_source o.data_source acc.sources;
    }),
    get-count_kind k o.kind acc.counts,
  )

  collect_all_counts :
      (k : String) (ops : Operators) (acc : Collected)
      → count_of (Dict.get k (collect_all ops acc).counts)
        ≡ count_of (Dict.get k acc.counts) + occurrences_all k ops
  collect_all_counts k leaf acc = omega arith
  collect_all_counts k (child c cs) acc =
      omega (arith, collect_all_counts k cs (collect c acc), collect_counts k c acc)

mutual
  unfolding collect sources_of

  collect_sources :
      (op : PlanOperator) (acc : Collected)
      → (collect op acc).sources ≡ acc.sources ++ sources_of op
  collect_sources (node o cs) acc =
      collect_all_sources cs _
      ∙ rw (add_source-append o.data_source acc.sources)
          (append_assoc acc.sources (add_source o.data_source []) (sources_all cs))

  collect_all_sources :
      (ops : Operators) (acc : Collected)
      → (collect_all ops acc).sources ≡ acc.sources ++ sources_all ops
  collect_all_sources leaf acc = sym (append-nil _)
  collect_all_sources (child c cs) acc =
      collect_all_sources cs _
      ∙ rw (collect_sources c acc) (append_assoc acc.sources (sources_of c) (sources_all cs))

mutual
  unfolding depth size

  depth_bounds : (op : PlanOperator) → (1 ≤ depth op) × (depth op ≤ size op)
  depth_bounds (node o cs) = omega (arith, max_depth_bound cs)

  max_depth_bound : (ops : Operators) → max_depth ops ≤ size_all ops
  max_depth_bound leaf = omega arith
  max_depth_bound (child c cs) = omega (arith, (depth_bounds c).1, max_depth_bound cs)

abbrev pub start : Collected
start = record { counts = []; sources = [] }

-- The walk of a parsed tree counts every operator of each kind exactly once, and lists the data
-- sources of all operators in preorder, none left out.
pub collect_lem :
    (op : PlanOperator)
    → ((k : String) → count_of (Dict.get k (collect op start).counts) ≡ occurrences k op)
      × ((collect op start).sources ≡ sources_of op)
unfolding Dict.get
collect_lem op = (λ k. omega (arith, collect_counts k op start), collect_sources op start)

-- The depth of a parsed tree is at least 1 and at most its number of operators.
pub depth-le-size : (op : PlanOperator) → (1 ≤ depth op) × (depth op ≤ size op)
depth-le-size op = depth_bounds op
