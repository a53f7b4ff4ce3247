-- ===== src/Recommend/Novel.antt =====
-- Which fields become candidates: src/asterixdb_mcp/tools/recommend_indexes.py.
use asterixdb_mcp_server.Prelude.{
  ◌≡◌, refl, sym, ◌∙◌, false, not, String, Option, none, some, List, [], ◌∷◌, Has, All, Has-keep,
  Bool-cases, inl, inr, arith,
}
use asterixdb_mcp_server.PlanParser.{contains}
use asterixdb_mcp_server.Recommend.Led.{leads, is_led, covered_first_keys-is_led}
use asterixdb_mcp_server.Recommend.{
  SecondaryIndex, covered_first_keys, Covered, covered_at, Observation, Candidate, bump, fresh,
  is_of, accumulate, accumulate_each, novel_fields, is_unattributed, observe_fields, aggregate_from,
  aggregate,
}

module _ (covered : Covered) where
  -- No index of the dataset is led by the field.
  unfoldable pub IsNovel : String → String → Option String → Type 0
  IsNovel dv ds none = Unit {0}
  IsNovel dv ds (some f) = contains f (covered_at (dv, ds) covered) ≡ false

  unfoldable pub IsUncovered : Candidate → Type 0
  IsUncovered c = IsNovel c.dataverse c.dataset c.field

  accumulate-All :
      (obs : Observation) (g : Option String) (cs : List Candidate)
      → IsNovel obs.dataverse obs.dataset g
      → All IsUncovered cs
      → All IsUncovered (accumulate obs g cs)
  unfolding accumulate IsUncovered bump fresh
  accumulate-All obs g [] n h = (n, tt)
  accumulate-All obs g (c ∷ cs) n h = elim (Bool-cases (is_of obs.dataverse obs.dataset g c)) [
    | inl e ↦ rw (e, accumulate) h
    | inr e ↦ rw (e, accumulate) (h.0, accumulate-All obs g cs n h.1)
  ]

  accumulate_each-All :
      (obs : Observation) (fs : List String) (cs : List Candidate)
      → ((f : String) → Has f fs → IsNovel obs.dataverse obs.dataset (some f))
      → All IsUncovered cs
      → All IsUncovered (accumulate_each obs fs cs)
  unfolding accumulate_each
  accumulate_each-All obs [] cs n h = h
  accumulate_each-All obs (f ∷ fs) cs n h =
      accumulate_each-All obs fs (accumulate obs (some f) cs) (λ g m. n g (inr m))
        (accumulate-All obs (some f) cs (n f (inl refl)) h)

  novel_fields-IsNovel :
      (obs : Observation) (f : String)
      → Has f (novel_fields covered obs)
      → IsNovel obs.dataverse obs.dataset (some f)
  unfolding novel_fields IsNovel
  novel_fields-IsNovel obs f m =
      let test =
        (Has-keep (λ g. not (contains g (covered_at (obs.dataverse, obs.dataset) covered)))
          obs.fields f m).1 in
      ground arith

  observe_fields-All :
      (obs : Observation) (fs : List String) (cs : List Candidate)
      → ((f : String) → Has f fs → IsNovel obs.dataverse obs.dataset (some f))
      → All IsUncovered cs
      → All IsUncovered (observe_fields obs fs cs)
  unfolding observe_fields IsNovel
  observe_fields-All obs [] cs n h = elim (Bool-cases (is_unattributed obs.full_scan obs.fields)) [
    | inl e ↦ rw e (accumulate-All obs none cs tt h)
    | inr e ↦ rw e h
  ]
  observe_fields-All obs (f ∷ fs) cs n h = accumulate_each-All obs (f ∷ fs) cs n h

  aggregate_from-All :
      (cs : List Candidate) (observations : List Observation)
      → All IsUncovered cs
      → All IsUncovered (aggregate_from covered cs observations)
  unfolding aggregate_from
  aggregate_from-All cs [] h = h
  aggregate_from-All cs (obs ∷ observations) h =
      aggregate_from-All (observe_fields obs (novel_fields covered obs) cs) observations
        (observe_fields-All obs (novel_fields covered obs) cs (novel_fields-IsNovel obs) h)

  aggregate-IsUncovered :
      (observations : List Observation) → All IsUncovered (aggregate observations covered)
  unfolding aggregate
  aggregate-IsUncovered observations = aggregate_from-All [] observations tt

-- No index of the list is one of the candidate's dataset with its field as the first key.
unfoldable pub IsUnled : List SecondaryIndex → Candidate → Type 0
IsUnled indexes c = elim c.field [
  | none ↦ Unit {0}
  | some f ↦
      (index : SecondaryIndex) → Has index indexes → leads c.dataverse c.dataset f index ≡ false
]

leads_of_is_led :
    (dv ds f : String) (indexes : List SecondaryIndex) (index : SecondaryIndex)
    → is_led dv ds f indexes ≡ false
    → Has index indexes
    → leads dv ds f index ≡ false
unfolding is_led
leads_of_is_led dv ds f [] index h m = elim m [ ]
leads_of_is_led dv ds f (i ∷ is) index h (inl e) = rw e (ground (arith, h))
leads_of_is_led dv ds f (i ∷ is) index h (inr m) =
    leads_of_is_led dv ds f is index (ground (arith, h)) m

unled :
    (indexes : List SecondaryIndex) (c : Candidate) (g : Option String)
    → c.field ≡ g
    → IsUncovered (covered_first_keys indexes) c
    → IsUnled indexes c
unfolding IsUncovered IsNovel IsUnled
unled indexes c none e h = rw e tt
unled indexes c (some f) e h = rw e (λ index m.
    leads_of_is_led c.dataverse c.dataset f indexes index
      (sym (covered_first_keys-is_led c.dataverse c.dataset f indexes) ∙ (rw e at h)) m)

All-IsUnled :
    (indexes : List SecondaryIndex) (cs : List Candidate)
    → All (IsUncovered (covered_first_keys indexes)) cs
    → All (IsUnled indexes) cs
All-IsUnled indexes [] h = tt
All-IsUnled indexes (c ∷ cs) h = (unled indexes c c.field refl h.0, All-IsUnled indexes cs h.1)

-- No candidate, of whatever observations, is for a field that is the first key of an index of its
-- dataset, among the indexes that the leading fields were taken from.
pub aggregate-IsUnled :
    (observations : List Observation) (indexes : List SecondaryIndex)
    → All (IsUnled indexes) (aggregate observations (covered_first_keys indexes))
aggregate-IsUnled observations indexes =
    All-IsUnled indexes _ (aggregate-IsUncovered (covered_first_keys indexes) observations)
