-- ===== src/Recommend/Tally.antt =====
-- Counting by candidate and counting by observation: src/asterixdb_mcp/tools/recommend_indexes.py.
use asterixdb_mcp_server.Prelude.{
  ℕ, ◌+◌, ◌≡◌, refl, ◌∙◌, Bool, true, ◌&&◌, String, Option, none, some, List, [], ◌∷◌, map, ◌==◌,
  eq_iff, arith, Bool-cases, inl, inr, if◌then◌else◌,
}
use asterixdb_mcp_server.Recommend.{
  Covered, Observation, Candidate, same_field, is_of, bump, fresh, accumulate, accumulate_each,
  novel_fields, is_unattributed, observe_fields, aggregate_from, aggregate,
}

-- What an observation speaks for: each novel field, or no field in particular.
unfoldable pub ballot : Observation → List String → List (Option String)
ballot obs [] = if is_unattributed obs.full_scan obs.fields then none ∷ [] else []
ballot obs (f ∷ fs) = map some (f ∷ fs)

unfoldable pub one_if : Bool → ℕ
one_if b = if b then 1 else 0

module _ (dv ds : String) (f : Option String) where
  unfoldable pub votes_in : Observation → List (Option String) → ℕ
  unfolding one_if same_field
  votes_in obs [] = 0
  votes_in obs (g ∷ gs) =
      one_if ((obs.dataverse == dv) && (obs.dataset == ds) && same_field g f) + votes_in obs gs

  -- How often the observations speak for the key.
  unfoldable pub votes : Covered → List Observation → ℕ
  unfolding votes_in ballot novel_fields
  votes covered [] = 0
  votes covered (obs ∷ observations) =
      votes_in obs (ballot obs (novel_fields covered obs)) + votes covered observations

  -- The supporting statements of the candidates under the key.
  unfoldable pub supports : List Candidate → ℕ
  unfolding is_of
  supports [] = 0
  supports (c ∷ cs) = (if is_of dv ds f c then c.supporting_statements else 0) + supports cs

  same_field-agree : (a b : Option String) → same_field a b ≡ true → same_field a f ≡ same_field b f
  unfolding same_field
  same_field-agree none none h = refl
  same_field-agree none (some y) h = ground arith
  same_field-agree (some x) none h = ground arith
  same_field-agree (some x) (some y) h = rw ((eq_iff x y).0 h) refl

  is_of-agree :
      (odv ods : String) (g : Option String) (c : Candidate)
      → is_of odv ods g c ≡ true
      → is_of dv ds f c ≡ ((odv == dv) && (ods == ds) && same_field g f)
  unfolding is_of
  is_of-agree odv ods g c h =
      ground (arith, eq_iff c.dataverse odv, eq_iff c.dataset ods, same_field-agree c.field g)

  bumped :
      (obs : Observation) (g : Option String) (c : Candidate) (cs : List Candidate)
      → is_of obs.dataverse obs.dataset g c ≡ true
      → supports (bump obs c ∷ cs)
        ≡ one_if ((obs.dataverse == dv) && (obs.dataset == ds) && same_field g f)
          + supports (c ∷ cs)
  unfolding supports bump one_if
  bumped obs g c cs e = ground (arith, is_of-agree obs.dataverse obs.dataset g c)

  supports-accumulate :
      (obs : Observation) (g : Option String) (cs : List Candidate)
      → supports (accumulate obs g cs)
        ≡ one_if ((obs.dataverse == dv) && (obs.dataset == ds) && same_field g f) + supports cs
  unfolding supports accumulate bump fresh one_if is_of
  supports-accumulate obs g [] = refl
  supports-accumulate obs g (c ∷ cs) = elim (Bool-cases (is_of obs.dataverse obs.dataset g c)) [
    | inl e ↦
        let here : supports (accumulate obs g (c ∷ cs)) ≡ supports (bump obs c ∷ cs) =
          rw (e, accumulate) refl in
        here ∙ bumped obs g c cs e
    | inr e ↦
        let past : supports (accumulate obs g (c ∷ cs)) ≡ supports (c ∷ accumulate obs g cs) =
          rw (e, accumulate) refl in
        past ∙ omega (arith, supports-accumulate obs g cs)
  ]

  supports-accumulate_each :
      (obs : Observation) (fs : List String) (cs : List Candidate)
      → supports (accumulate_each obs fs cs) ≡ votes_in obs (map some fs) + supports cs
  unfolding accumulate_each votes_in
  supports-accumulate_each obs [] cs = omega arith
  supports-accumulate_each obs (g ∷ gs) cs = omega (
    arith,
    supports-accumulate_each obs gs (accumulate obs (some g) cs),
    supports-accumulate obs (some g) cs,
  )

  supports-observe_fields :
      (obs : Observation) (novel : List String) (cs : List Candidate)
      → supports (observe_fields obs novel cs) ≡ votes_in obs (ballot obs novel) + supports cs
  unfolding observe_fields ballot votes_in
  supports-observe_fields obs [] cs = elim (Bool-cases (is_unattributed obs.full_scan obs.fields)) [
    | inl e ↦ rw (e, observe_fields) (omega (arith, supports-accumulate obs none cs))
    | inr e ↦ rw (e, observe_fields) (omega arith)
  ]
  supports-observe_fields obs (g ∷ gs) cs = supports-accumulate_each obs (g ∷ gs) cs

  supports-aggregate_from :
      (covered : Covered) (cs : List Candidate) (observations : List Observation)
      → supports (aggregate_from covered cs observations) ≡ votes covered observations + supports cs
  unfolding aggregate_from votes
  supports-aggregate_from covered cs [] = omega arith
  supports-aggregate_from covered cs (obs ∷ observations) = omega (
    arith,
    supports-aggregate_from covered (observe_fields obs (novel_fields covered obs) cs) observations,
    supports-observe_fields obs (novel_fields covered obs) cs,
  )

  -- The candidates under a key have one supporting statement for each vote for it.
  pub supports-aggregate :
      (observations : List Observation) (covered : Covered)
      → supports (aggregate observations covered) ≡ votes covered observations
  unfolding aggregate supports
  supports-aggregate observations covered =
      omega (arith, supports-aggregate_from covered [] observations)
