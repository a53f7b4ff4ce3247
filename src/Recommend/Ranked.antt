-- ===== src/Recommend/Ranked.antt =====
-- The order and the number of the recommendations: src/asterixdb_mcp/tools/recommend_indexes.py.
use asterixdb_mcp_server.Prelude.{
  ℕ, ◌≤◌, ◌≡◌, true, false, List, [], ◌∷◌, ◌++◌, ◌⊎◌, ◌↔◌, inl, inr, length, length-take, Has, All,
  Bool-cases, arith,
}
use asterixdb_mcp_server.Prelude.Dict.{Dict}
use asterixdb_mcp_server.Recommend.{Candidate}
use asterixdb_mcp_server.Recommend.Report.{
  Recommendation, max_recommendations, goes_before, insert_candidate, rank_candidates, rank,
}
use asterixdb_mcp_server.Recommend.Advise.{native_recommendations, merge_recommendations}

-- No later candidate has a higher score.
unfoldable pub IsDescending : List Candidate → Type 0
IsDescending [] = Unit {0}
IsDescending (c ∷ cs) = All (λ d. d.score ≤ c.score) cs × IsDescending cs

before_score : (c d : Candidate) → goes_before c d ≡ true → d.score ≤ c.score
unfolding goes_before
before_score c d h = ground arith

after_score : (c d : Candidate) → goes_before c d ≡ false → c.score ≤ d.score
unfolding goes_before
after_score c d h = ground arith

All-weaker :
    (m n : ℕ) (cs : List Candidate) → m ≤ n → All (λ d. d.score ≤ m) cs → All (λ d. d.score ≤ n) cs
All-weaker m n [] h a = tt
All-weaker m n (c ∷ cs) h a =
    let b : c.score ≤ m = a.0 in (omega (arith, h, b), All-weaker m n cs h a.1)

All-insert_candidate :
    (P : Candidate → Type 0) (c : Candidate) (ds : List Candidate)
    → P c
    → All P ds
    → All P (insert_candidate c ds)
unfolding insert_candidate
All-insert_candidate P c [] p a = (p, tt)
All-insert_candidate P c (d ∷ ds) p a = elim (Bool-cases (goes_before c d)) [
  | inl e ↦ rw (e, insert_candidate) (p, a)
  | inr e ↦ rw (e, insert_candidate) (a.0, All-insert_candidate P c ds p a.1)
]

insert_candidate-IsDescending :
    (c : Candidate) (ds : List Candidate) → IsDescending ds → IsDescending (insert_candidate c ds)
unfolding insert_candidate IsDescending
insert_candidate-IsDescending c [] h = (tt, tt)
insert_candidate-IsDescending c (d ∷ ds) h = elim (Bool-cases (goes_before c d)) [
  | inl e ↦
      let le = before_score c d e in
      rw (e, insert_candidate) ((le, All-weaker d.score c.score ds le h.0), h)
  | inr e ↦
      rw (e, insert_candidate)
        (
          All-insert_candidate (λ b. b.score ≤ d.score) c ds (after_score c d e) h.0,
          insert_candidate-IsDescending c ds h.1,
        )
]

Has-insert_candidate :
    (x c : Candidate) (ds : List Candidate)
    → (Has x (insert_candidate c ds) → (x ≡ c) ⊎ Has x ds)
      × ((x ≡ c) ⊎ Has x ds → Has x (insert_candidate c ds))
unfolding insert_candidate
Has-insert_candidate x c [] = ((λ m. m), (λ m. m))
Has-insert_candidate x c (d ∷ ds) = elim (Bool-cases (goes_before c d)) [
  | inl e ↦ rw (e, insert_candidate) ((λ m. m), (λ m. m))
  | inr e ↦
      rw (e, insert_candidate)
        (swap (Has-insert_candidate x c ds).0, back (Has-insert_candidate x c ds).1)
]
  where
    swap :
        (Has x (insert_candidate c ds) → (x ≡ c) ⊎ Has x ds)
        → (x ≡ d) ⊎ Has x (insert_candidate c ds)
        → (x ≡ c) ⊎ Has x (d ∷ ds)
    swap f (inl here) = inr (inl here)
    swap f (inr there) = elim (f there) [ inl p ↦ inl p | inr q ↦ inr (inr q) ]

    back :
        ((x ≡ c) ⊎ Has x ds → Has x (insert_candidate c ds))
        → (x ≡ c) ⊎ Has x (d ∷ ds)
        → (x ≡ d) ⊎ Has x (insert_candidate c ds)
    back f (inl p) = inr (f (inl p))
    back f (inr (inl here)) = inl here
    back f (inr (inr there)) = inr (f (inr there))

rank_candidates-IsDescending : (cs : List Candidate) → IsDescending (rank_candidates cs)
unfolding rank_candidates IsDescending
rank_candidates-IsDescending [] = tt
rank_candidates-IsDescending (c ∷ cs) =
    insert_candidate-IsDescending c (rank_candidates cs) (rank_candidates-IsDescending cs)

Has-rank_candidates :
    (x : Candidate) (cs : List Candidate)
    → (Has x (rank_candidates cs) → Has x cs) × (Has x cs → Has x (rank_candidates cs))
unfolding rank_candidates
Has-rank_candidates x [] = ((λ m. m), (λ m. m))
Has-rank_candidates x (c ∷ cs) = (
  (λ m. elim ((Has-insert_candidate x c (rank_candidates cs)).0 m) [
    | inl p ↦ inl p
    | inr q ↦ inr ((Has-rank_candidates x cs).0 q)
  ]),
  (λ m.
      (Has-insert_candidate x c (rank_candidates cs)).1
        (elim m [ inl p ↦ inl p | inr q ↦ inr ((Has-rank_candidates x cs).1 q) ])),
)

-- The ranking holds the candidates there were and no other, none of them after one with a lower
-- score; and with the advised indexes in front of it, the report has at most twenty recommendations.
pub rank_candidates-IsRanked :
    (native : Dict Recommendation) (cs : List Candidate)
    → IsDescending (rank_candidates cs)
      × ((x : Candidate) → Has x (rank_candidates cs) ↔ Has x cs)
      × (length (merge_recommendations native (rank cs)) ≤ max_recommendations)
unfolding merge_recommendations
rank_candidates-IsRanked native cs = (
  rank_candidates-IsDescending cs,
  (λ x. Has-rank_candidates x cs),
  omega (arith, length-take max_recommendations (native_recommendations native ++ rank cs)),
)
