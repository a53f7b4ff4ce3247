-- ===== src/PlanParser/Sources.antt =====
-- `_dedupe_preserving_order` and `resolve_sources` of src/asterixdb_mcp/plan_parser.py.
use asterixdb_mcp_server.Prelude.{
  ◌≡◌, refl, ◌↔◌, ◌⊎◌, inl, inr, true, String, Option, none, some, List, [], ◌∷◌, arith, ◌==◌,
  eq_iff, Has, Bool-cases, Has-append_left, Has-append_right,
}
use asterixdb_mcp_server.PlanParser.{
  contains, dedupe_from, dedupe_preserving_order, ResolvedSources, pair_eq, contains_pair,
  resolve_source, note_source, resolve_from, resolve_sources,
}

pub Has-of_contains : (s : String) (l : List String) → contains s l ≡ true → Has s l
unfolding contains
Has-of_contains s [] h = cc
Has-of_contains s (t ∷ l) h = elim (Bool-cases (s == t)) [
  | inl e ↦ inl ((eq_iff s t).0 e)
  | inr e ↦ inr (Has-of_contains s l (ground arith))
]

pub contains_of_Has : (s : String) (l : List String) → Has s l → contains s l ≡ true
unfolding contains
contains_of_Has s [] m = elim m [ ]
contains_of_Has s (t ∷ l) (inl e) = ground (arith, eq_iff s t)
contains_of_Has s (t ∷ l) (inr m) = ground (arith, contains_of_Has s l m)

dedupe_from-Has :
    (s : String) (seen l : List String) → Has s l → Has s seen ⊎ Has s (dedupe_from seen l)
unfolding dedupe_from
dedupe_from-Has s seen [] m = elim m [ ]
dedupe_from-Has s seen (t ∷ l) (inl e) = elim (Bool-cases (contains t seen)) [
  | inl c ↦ rw e (inl (Has-of_contains t seen c))
  | inr c ↦ rw (c, dedupe_from) (inr (inl e))
]
dedupe_from-Has s seen (t ∷ l) (inr m) = elim (Bool-cases (contains t seen)) [
  | inl c ↦ rw (c, dedupe_from) (dedupe_from-Has s seen l m)
  | inr c ↦
      rw (c, dedupe_from)
        (elim (dedupe_from-Has s (t ∷ seen) l m) [
          | inl old ↦ elim old [ inl e ↦ inr (inl e) | inr n ↦ inl n ]
          | inr new ↦ inr (inr new)
        ])
]

Has-of_dedupe : (s : String) (seen l : List String) → Has s (dedupe_from seen l) → Has s l
unfolding dedupe_from
Has-of_dedupe s seen [] m = m
Has-of_dedupe s seen (t ∷ l) m = elim (Bool-cases (contains t seen)) [
  | inl c ↦ inr (Has-of_dedupe s seen l (rw (c, dedupe_from) at m))
  | inr c ↦
      let m' : (s ≡ t) ⊎ Has s (dedupe_from (t ∷ seen) l) = rw (c, dedupe_from) at m in
      elim m' [ inl e ↦ inl e | inr n ↦ inr (Has-of_dedupe s (t ∷ seen) l n) ]
]

-- No text twice.
abbrev pub NoRepeat : List String → Type 0
NoRepeat [] = Unit
NoRepeat (s ∷ l) = ((Has s l) → ⊥) × NoRepeat l

dedupe_from_fresh :
    (s : String) (seen l : List String) → Has s seen → Has s (dedupe_from seen l) → ⊥
unfolding dedupe_from
dedupe_from_fresh s seen [] old m = elim m [ ]
dedupe_from_fresh s seen (t ∷ l) old m = elim (Bool-cases (contains t seen)) [
  | inl c ↦ dedupe_from_fresh s seen l old (rw (c, dedupe_from) at m)
  | inr c ↦
      let m' : (s ≡ t) ⊎ Has s (dedupe_from (t ∷ seen) l) = rw (c, dedupe_from) at m in
      elim m' [
        | inl e ↦ ground (arith, contains_of_Has s seen old)
        | inr n ↦ dedupe_from_fresh s (t ∷ seen) l (inr old) n
      ]
]

dedupe_from-NoRepeat : (seen l : List String) → NoRepeat (dedupe_from seen l)
unfolding dedupe_from
dedupe_from-NoRepeat seen [] = tt
dedupe_from-NoRepeat seen (t ∷ l) = elim (Bool-cases (contains t seen)) [
  | inl c ↦ rw (c, dedupe_from) (dedupe_from-NoRepeat seen l)
  | inr c ↦
      rw (c, dedupe_from)
        (dedupe_from_fresh t (t ∷ seen) l (inl refl), dedupe_from-NoRepeat (t ∷ seen) l)
]

-- Removing repeated sources keeps exactly the sources that were there, each once.
pub dedupe_preserving_order_lem :
    (l : List String)
    → ((s : String) → Has s (dedupe_preserving_order l) ↔ Has s l)
      × NoRepeat (dedupe_preserving_order l)
unfolding dedupe_preserving_order
dedupe_preserving_order_lem l = (λ s. (Has-of_dedupe s [] l, all s), dedupe_from-NoRepeat [] l)
  where
    all : (s : String) → Has s l → Has s (dedupe_from [] l)
    all s m = elim (dedupe_from-Has s [] l m) [ inl none_seen ↦ elim none_seen [ ] | inr n ↦ n ]

pair_of_eq : (p q : String × String) → pair_eq p q ≡ true → p ≡ q
unfolding pair_eq
pair_of_eq (a, b) (c, d) h = ground (arith, eq_iff a c, eq_iff b d)

Has-of_contains_pair :
    (p : String × String) (l : List (String × String)) → contains_pair p l ≡ true → Has p l
unfolding contains_pair
Has-of_contains_pair p [] h = cc
Has-of_contains_pair p (q ∷ l) h = elim (Bool-cases (pair_eq p q)) [
  | inl e ↦ inl (pair_of_eq p q e)
  | inr e ↦ inr (Has-of_contains_pair p l (ground arith))
]

-- Where a source is noted: under its dataset if it resolved, among the unresolved if not.
abbrev pub IsNoted : String → Option (String × String) → ResolvedSources → Type 0
IsNoted source none r = Has source r.unresolved
IsNoted source (some pair) r = Has pair r.datasets

note_source-IsNoted :
    (source : String) (o : Option (String × String)) (r : ResolvedSources)
    → IsNoted source o (note_source source o r)
unfolding note_source
note_source-IsNoted source none r = elim (Bool-cases (contains source r.unresolved)) [
  | inl c ↦ rw (c, note_source) (Has-of_contains source r.unresolved c)
  | inr c ↦ rw (c, note_source) (Has-append_right source r.unresolved (source ∷ []) (inl refl))
]
note_source-IsNoted source (some p) r = elim (Bool-cases (contains_pair p r.datasets)) [
  | inl c ↦ rw (c, note_source) (Has-of_contains_pair p r.datasets c)
  | inr c ↦ rw (c, note_source) (Has-append_right p r.datasets (p ∷ []) (inl refl))
]

note_source_keeps :
    (other : String) (q : Option (String × String)) (source : String) (o : Option (String × String))
    (r : ResolvedSources)
    → IsNoted other q r
    → IsNoted other q (note_source source o r)
unfolding note_source
note_source_keeps other none source none r m = elim (Bool-cases (contains source r.unresolved)) [
  | inl c ↦ rw (c, note_source) m
  | inr c ↦ rw (c, note_source) (Has-append_left other r.unresolved (source ∷ []) m)
]
note_source_keeps other none source (some p) r m = elim (Bool-cases (contains_pair p r.datasets)) [
  | inl c ↦ rw (c, note_source) m
  | inr c ↦ rw (c, note_source) m
]
note_source_keeps other (some q) source none r m =
    elim (Bool-cases (contains source r.unresolved)) [
      | inl c ↦ rw (c, note_source) m
      | inr c ↦ rw (c, note_source) m
    ]
note_source_keeps other (some q) source (some p) r m =
    elim (Bool-cases (contains_pair p r.datasets)) [
      | inl c ↦ rw (c, note_source) m
      | inr c ↦ rw (c, note_source) (Has-append_left q r.datasets (p ∷ []) m)
    ]

module _ (dv : Option String) where
  resolve_from_keeps :
      (other : String) (q : Option (String × String)) (l : List String) (r : ResolvedSources)
      → IsNoted other q r
      → IsNoted other q (resolve_from dv l r)
  unfolding resolve_from
  resolve_from_keeps other q [] r m = m
  resolve_from_keeps other q (s ∷ l) r m =
      resolve_from_keeps other q l _ (note_source_keeps other q s (resolve_source dv s) r m)

  resolve_from-IsNoted :
      (l : List String) (r : ResolvedSources) (source : String)
      → Has source l
      → IsNoted source (resolve_source dv source) (resolve_from dv l r)
  unfolding resolve_from
  resolve_from-IsNoted [] r source m = elim m [ ]
  resolve_from-IsNoted (s ∷ l) r source (inl e) = rw e (
      resolve_from_keeps s (resolve_source dv s) l _
        (note_source-IsNoted s (resolve_source dv s) r))
  resolve_from-IsNoted (s ∷ l) r source (inr m) = resolve_from-IsNoted l _ source m

-- Every source of a plan is accounted for: its dataset is among the resolved ones, or, if it has no
-- dataverse and no default one is given, its name is among the unresolved. None is dropped.
pub resolve_sources-IsNoted :
    (data_sources : List String) (default_dataverse : Option String) (source : String)
    → Has source data_sources
    → IsNoted source
        (resolve_source default_dataverse source)
        (resolve_sources data_sources default_dataverse)
unfolding resolve_sources
resolve_sources-IsNoted data_sources default_dataverse source m =
    resolve_from-IsNoted default_dataverse data_sources (record { datasets = []; unresolved = [] })
      source m
