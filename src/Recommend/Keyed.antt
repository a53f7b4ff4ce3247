-- ===== src/Recommend/Keyed.antt =====
-- The candidates have different keys, and each has the credit of its key:
-- src/asterixdb_mcp/tools/recommend_indexes.py.
use mathlib.Core.Path.{subst}
use asterixdb_mcp_server.Prelude.{
  ◌≡◌, ◌≢◌, refl, sym, ap, ◌∙◌, true, false, String, Option, none, some, List, [], ◌∷◌, Has, All,
  All-has, eq_iff, arith, Bool-cases, inl, inr,
}
use asterixdb_mcp_server.Recommend.{
  SecondaryIndex, covered_first_keys, Covered, Observation, Candidate, same_field, is_of, bump,
  fresh, accumulate, accumulate_each, novel_fields, is_unattributed, observe_fields, aggregate_from,
  aggregate,
}
use asterixdb_mcp_server.Recommend.Tally.{supports, supports-aggregate}
use asterixdb_mcp_server.Recommend.Credited.{credit, votes-credit}

-- What a candidate stands under.
abbrev pub Key : Type 0
Key = String × String × Option String

abbrev pub key_of : Candidate → Key
key_of c = (c.dataverse, c.dataset, c.field)

-- No two candidates stand under one key.
unfoldable pub AreDistinct : List Candidate → Type 0
AreDistinct [] = Unit {0}
AreDistinct (c ∷ cs) = All (λ d. key_of d ≢ key_of c) cs × AreDistinct cs

same_field-eq : (a b : Option String) → same_field a b ≡ true → a ≡ b
unfolding same_field
same_field-eq none none h = refl
same_field-eq none (some y) h = ground (arith, h)
same_field-eq (some x) none h = ground (arith, h)
same_field-eq (some x) (some y) h = ap some ((eq_iff x y).0 h)

same_field_refl : (a : Option String) → same_field a a ≡ true
unfolding same_field
same_field_refl none = refl
same_field_refl (some x) = (eq_iff x x).1 refl

key_of-is_of :
    (dv ds : String) (f : Option String) (c : Candidate)
    → is_of dv ds f c ≡ true
    → key_of c ≡ (dv, ds, f)
unfolding is_of
key_of-is_of dv ds f c h =
    ground (arith, eq_iff c.dataverse dv, eq_iff c.dataset ds, same_field-eq c.field f)

is_of-key_of :
    (dv ds : String) (f : Option String) (c : Candidate)
    → key_of c ≡ (dv, ds, f)
    → is_of dv ds f c ≡ true
unfolding is_of
is_of-key_of dv ds f c h = ground (arith, h, eq_iff dv dv, eq_iff ds ds, same_field_refl f)

is_of-false :
    (dv ds : String) (f : Option String) (c : Candidate)
    → key_of c ≢ (dv, ds, f)
    → is_of dv ds f c ≡ false
is_of-false dv ds f c h = elim (Bool-cases (is_of dv ds f c)) [
  | inl e ↦ absurd (h (key_of-is_of dv ds f c e))
  | inr e ↦ e
]

others-accumulate :
    (obs : Observation) (g : Option String) (k : Key) (cs : List Candidate)
    → (obs.dataverse, obs.dataset, g) ≢ k
    → All (λ d. key_of d ≢ k) cs
    → All (λ d. key_of d ≢ k) (accumulate obs g cs)
unfolding accumulate bump fresh
others-accumulate obs g k [] n h = (n, tt)
others-accumulate obs g k (c ∷ cs) n h = elim (Bool-cases (is_of obs.dataverse obs.dataset g c)) [
  | inl e ↦ rw (e, accumulate) (h.0, h.1)
  | inr e ↦ rw (e, accumulate) (h.0, others-accumulate obs g k cs n h.1)
]

accumulate-AreDistinct :
    (obs : Observation) (g : Option String) (cs : List Candidate)
    → AreDistinct cs
    → AreDistinct (accumulate obs g cs)
unfolding accumulate AreDistinct bump fresh
accumulate-AreDistinct obs g [] h = (tt, tt)
accumulate-AreDistinct obs g (c ∷ cs) h = elim (Bool-cases (is_of obs.dataverse obs.dataset g c)) [
  | inl e ↦ rw (e, accumulate) h
  | inr e ↦
      let other : (obs.dataverse, obs.dataset, g) ≢ key_of c =
        λ p. absurd (ground (arith, e, is_of-key_of obs.dataverse obs.dataset g c (sym p))) in
      rw (e, accumulate)
        (others-accumulate obs g (key_of c) cs other h.0, accumulate-AreDistinct obs g cs h.1)
]

accumulate_each-AreDistinct :
    (obs : Observation) (fs : List String) (cs : List Candidate)
    → AreDistinct cs
    → AreDistinct (accumulate_each obs fs cs)
unfolding accumulate_each
accumulate_each-AreDistinct obs [] cs h = h
accumulate_each-AreDistinct obs (f ∷ fs) cs h =
    accumulate_each-AreDistinct obs fs (accumulate obs (some f) cs)
      (accumulate-AreDistinct obs (some f) cs h)

observe_fields-AreDistinct :
    (obs : Observation) (fs : List String) (cs : List Candidate)
    → AreDistinct cs
    → AreDistinct (observe_fields obs fs cs)
unfolding observe_fields
observe_fields-AreDistinct obs [] cs h =
    elim (Bool-cases (is_unattributed obs.full_scan obs.fields)) [
      | inl e ↦ rw e (accumulate-AreDistinct obs none cs h)
      | inr e ↦ rw e h
    ]
observe_fields-AreDistinct obs (f ∷ fs) cs h = accumulate_each-AreDistinct obs (f ∷ fs) cs h

aggregate_from-AreDistinct :
    (covered : Covered) (cs : List Candidate) (observations : List Observation)
    → AreDistinct cs
    → AreDistinct (aggregate_from covered cs observations)
unfolding aggregate_from
aggregate_from-AreDistinct covered cs [] h = h
aggregate_from-AreDistinct covered cs (obs ∷ observations) h =
    aggregate_from-AreDistinct covered (observe_fields obs (novel_fields covered obs) cs)
      observations (observe_fields-AreDistinct obs (novel_fields covered obs) cs h)

supports_none :
    (dv ds : String) (f : Option String) (cs : List Candidate)
    → All (λ d. key_of d ≢ (dv, ds, f)) cs
    → supports dv ds f cs ≡ 0
unfolding supports
supports_none dv ds f [] h = refl
supports_none dv ds f (c ∷ cs) h =
    ground (arith, is_of-false dv ds f c h.0, supports_none dv ds f cs h.1)

supports_head :
    (c : Candidate) (cs : List Candidate)
    → All (λ d. key_of d ≢ key_of c) cs
    → supports c.dataverse c.dataset c.field (c ∷ cs) ≡ c.supporting_statements
unfolding supports
supports_head c cs u = ground (
  arith,
  is_of-key_of c.dataverse c.dataset c.field c refl,
  supports_none c.dataverse c.dataset c.field cs u,
)

supports_one :
    (c : Candidate) (cs : List Candidate)
    → AreDistinct cs
    → Has c cs
    → supports c.dataverse c.dataset c.field cs ≡ c.supporting_statements
unfolding supports AreDistinct
supports_one c [] u m = elim m [ ]
supports_one c (d ∷ cs) u (inl e) =
    subst (λ x. supports x.dataverse x.dataset x.field (d ∷ cs) ≡ x.supporting_statements) (sym e)
      (supports_head d cs u.0)
supports_one c (d ∷ cs) u (inr m) = ground (
  arith,
  is_of-false c.dataverse c.dataset c.field d
      (λ p. All-has (λ b. key_of b ≢ key_of d) cs c u.0 m (sym p)),
  supports_one c cs u.1 m,
)

module _ (observations : List Observation) (indexes : List SecondaryIndex) where
  supports-credit :
      (dv ds : String) (f : Option String)
      → supports dv ds f (aggregate observations (covered_first_keys indexes))
        ≡ credit indexes dv ds f observations
  supports-credit dv ds f =
      supports-aggregate dv ds f observations (covered_first_keys indexes)
      ∙ votes-credit indexes dv ds f observations

  aggregate-AreDistinct : AreDistinct (aggregate observations (covered_first_keys indexes))
  unfolding aggregate AreDistinct
  aggregate-AreDistinct = aggregate_from-AreDistinct (covered_first_keys indexes) [] observations tt

  -- No two candidates stand under one key. A candidate's supporting statements are as many as the
  -- observations credit its key with: for a field, each filter on it in its dataset, unless it is the
  -- first key of an index there; for no field, each full scan of the dataset that filters none. A key
  -- without a candidate has no credit.
  pub aggregate-credit :
      AreDistinct (aggregate observations (covered_first_keys indexes))
      × ((c : Candidate)
          → Has c (aggregate observations (covered_first_keys indexes))
          → c.supporting_statements ≡ credit indexes c.dataverse c.dataset c.field observations)
      × ((dv ds : String) (f : Option String)
          → All (λ c. key_of c ≢ (dv, ds, f)) (aggregate observations (covered_first_keys indexes))
          → credit indexes dv ds f observations ≡ 0)
  aggregate-credit = (
    aggregate-AreDistinct,
    (λ c m.
        sym (supports_one c _ aggregate-AreDistinct m)
        ∙ supports-credit c.dataverse c.dataset c.field),
    (λ dv ds f none_there. sym (supports-credit dv ds f) ∙ supports_none dv ds f _ none_there),
  )
