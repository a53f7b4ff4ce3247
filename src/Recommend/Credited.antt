-- ===== src/Recommend/Credited.antt =====
-- What a candidate is credited with: src/asterixdb_mcp/tools/recommend_indexes.py.
use asterixdb_mcp_server.Prelude.{
  ℕ, ◌+◌, ◌≡◌, refl, Bool, true, false, not, ◌&&◌, String, Option, none, some, List, [], ◌∷◌, map,
  keep, ◌==◌, eq_iff, arith, Bool-cases, inl, inr, if◌then◌else◌,
}
use asterixdb_mcp_server.PlanParser.{contains}
use asterixdb_mcp_server.Recommend.{
  SecondaryIndex, covered_at, covered_first_keys, Observation, same_field, novel_fields,
  is_unattributed,
}
use asterixdb_mcp_server.Recommend.Led.{is_led, covered_first_keys-is_led}
use asterixdb_mcp_server.Recommend.Tally.{ballot, one_if, votes_in, votes}

-- How often a text stands in the list.
unfoldable pub times : String → List String → ℕ
times g [] = 0
times g (f ∷ fs) = (if f == g then 1 else 0) + times g fs

abbrev pub is_empty : List String → Bool
is_empty [] = true
is_empty (f ∷ fs) = false

-- How often an observation speaks for a candidate. For a field: as often as it filters the field in
-- that dataset, unless an index of the dataset is led by it. For no field in particular: once, if it
-- scans that dataset in full and filters no field.
unfoldable pub credit_of : List SecondaryIndex → String → String → Option String → Observation → ℕ
unfolding is_led times
credit_of indexes dv ds none obs =
    if (obs.dataverse == dv) && (obs.dataset == ds) && obs.full_scan && is_empty obs.fields
    then 1
    else 0
credit_of indexes dv ds (some g) obs =
    if (obs.dataverse == dv)
      && (obs.dataset == ds)
      && not (is_led obs.dataverse obs.dataset g indexes)
    then times g obs.fields
    else 0

unfoldable pub credit : List SecondaryIndex → String → String → Option String → List Observation → ℕ
unfolding credit_of
credit indexes dv ds f [] = 0
credit indexes dv ds f (obs ∷ observations) =
    credit_of indexes dv ds f obs + credit indexes dv ds f observations

votes_in-map :
    (dv ds g : String) (obs : Observation) (fs : List String)
    → votes_in dv ds (some g) obs (map some fs)
      ≡ (if (obs.dataverse == dv) && (obs.dataset == ds) then times g fs else 0)
unfolding votes_in times one_if same_field
votes_in-map dv ds g obs [] = ground arith
votes_in-map dv ds g obs (f ∷ fs) = ground (arith, votes_in-map dv ds g obs fs)

unfiltered_votes :
    (dv ds : String) (obs : Observation) (fs : List String)
    → votes_in dv ds none obs (map some fs) ≡ 0
unfolding votes_in one_if same_field
unfiltered_votes dv ds obs [] = refl
unfiltered_votes dv ds obs (f ∷ fs) = ground (arith, unfiltered_votes dv ds obs fs)

times-keep :
    (g : String) (p : String → Bool) (fs : List String)
    → times g (keep p fs) ≡ (if p g then times g fs else 0)
unfolding times
times-keep g p [] = ground arith
times-keep g p (f ∷ fs) = elim (Bool-cases (f == g)) [
  | inl e ↦ rw ((eq_iff f g).0 e) (ground (arith, times-keep g p fs, eq_iff g g))
  | inr e ↦ elim (Bool-cases (p f)) [
    | inl d ↦ ground (arith, times-keep g p fs, d, e)
    | inr d ↦ ground (arith, times-keep g p fs, d, e)
  ]
]

votes_in-ballot :
    (dv ds g : String) (obs : Observation) (novel : List String)
    → votes_in dv ds (some g) obs (ballot obs novel)
      ≡ (if (obs.dataverse == dv) && (obs.dataset == ds) then times g novel else 0)
unfolding ballot votes_in one_if same_field times
votes_in-ballot dv ds g obs [] = elim (Bool-cases (is_unattributed obs.full_scan obs.fields)) [
  | inl e ↦ rw e (ground arith)
  | inr e ↦ rw e (ground arith)
]
votes_in-ballot dv ds g obs (f ∷ fs) = votes_in-map dv ds g obs (f ∷ fs)

unattributed_in :
    (dv ds : String) (obs : Observation) (novel : List String)
    → votes_in dv ds none obs (ballot obs novel) ≡ (
        if (obs.dataverse == dv)
          && (obs.dataset == ds)
          && is_empty novel
          && is_unattributed obs.full_scan obs.fields
        then 1
        else 0)
unfolding ballot votes_in one_if same_field
unattributed_in dv ds obs [] = elim (Bool-cases (is_unattributed obs.full_scan obs.fields)) [
  | inl e ↦ rw e (ground arith)
  | inr e ↦ rw e (ground arith)
]
unattributed_in dv ds obs (f ∷ fs) = ground (arith, unfiltered_votes dv ds obs (f ∷ fs))

none_filtered :
    (p : String → Bool) (full : Bool) (fields : List String)
    → (is_empty (keep p fields) && is_unattributed full fields) ≡ (full && is_empty fields)
none_filtered p full [] = ground arith
none_filtered p full (f ∷ fields) = ground arith

module _ (indexes : List SecondaryIndex) (dv ds : String) where
  credited :
      (f : Option String) (obs : Observation)
      → votes_in dv ds f obs (ballot obs (novel_fields (covered_first_keys indexes) obs))
        ≡ credit_of indexes dv ds f obs
  unfolding credit_of novel_fields
  credited none obs =
      let p : String → Bool = λ f.
        not (contains f (covered_at (obs.dataverse, obs.dataset) (covered_first_keys indexes))) in
      ground (
        arith,
        unattributed_in dv ds obs (keep p obs.fields),
        none_filtered p obs.full_scan obs.fields,
      )
  credited (some g) obs =
      let p : String → Bool = λ f.
        not (contains f (covered_at (obs.dataverse, obs.dataset) (covered_first_keys indexes))) in
      ground (
        arith,
        votes_in-ballot dv ds g obs (keep p obs.fields),
        times-keep g p obs.fields,
        covered_first_keys-is_led obs.dataverse obs.dataset g indexes,
      )

  -- The votes of the observations are what they credit the key with.
  pub votes-credit :
      (f : Option String) (observations : List Observation)
      → votes dv ds f (covered_first_keys indexes) observations
        ≡ credit indexes dv ds f observations
  unfolding votes credit
  votes-credit f [] = refl
  votes-credit f (obs ∷ observations) = omega (arith, credited f obs, votes-credit f observations)
