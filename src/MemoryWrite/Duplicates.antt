-- ===== src/MemoryWrite/Duplicates.antt =====
-- What a new note is compared with before it is written: `near_duplicate_block` and
-- `numeric_conflicts` of src/asterixdb_mcp/tools/memory_write.py.
use asterixdb_mcp_server.Prelude.{
  ℕ, zero, suc, ◌+◌, ◌*◌, ◌≤◌, ◌≡◌, Bool, true, false, ◌&&◌, String, Option, none, some, List, [],
  ◌∷◌, map, length, leb, nonempty, strip, Has, Bool-cases, inl, inr, arith, ◌==◌, eq_iff, ap, sym,
  ◌<>◌, if◌then◌else◌,
}
use asterixdb_mcp_server.Prelude.Dict
use asterixdb_mcp_server.Prelude.Dict.{Dict}
use asterixdb_mcp_server.Prelude.Sorted.{insert_text, sorted_set, sorted_set_keeps}
use asterixdb_mcp_server.Claims.{
  content_words, is_among, numeric_claims, values_conflict, fmt_values,
}
use asterixdb_mcp_server.Claims.Scan.{number_texts}
use asterixdb_mcp_server.MemoryWrite.{blocks_of}

abbrev pub max_reported_conflicts : ℕ
max_reported_conflicts = 3

-- `a | b`, on sorted sets
unfoldable pub union : List String → List String → List String
unfolding insert_text
union [] set = set
union (s ∷ ss) set = insert_text s (union ss set)

unfoldable pub all_among : List String → List String → Bool
unfolding is_among
all_among [] ts = true
all_among (s ∷ ss) ts = is_among s ts && all_among ss ts

-- `len(a & b)`
unfoldable pub shared : List String → List String → ℕ
unfolding is_among
shared [] ts = 0
shared (s ∷ ss) ts = (if is_among s ts then 1 else 0) + shared ss ts

abbrev no_texts : List String → Bool
no_texts [] = true
no_texts (s ∷ ss) = false

Has-is_among : (s : String) (l : List String) → is_among s l ≡ true → Has s l
unfolding is_among
Has-is_among s [] h = cc
Has-is_among s (t ∷ l) h = elim (Bool-cases (s == t)) [
  | inl e ↦ inl ((eq_iff s t).0 e)
  | inr e ↦ inr (Has-is_among s l (ground (arith, h, e)))
]

Has-all_among : (s : String) (ss ts : List String) → all_among ss ts ≡ true → Has s ss → Has s ts
unfolding all_among
Has-all_among s [] ts h m = elim m [ ]
Has-all_among s (t ∷ ss) ts h (inl e) = Has-is_among s ts (rw e (ground (arith, h)))
Has-all_among s (t ∷ ss) ts h (inr m) = Has-all_among s ss ts (ground (arith, h)) m

Has-map : (f : String → String) (s : String) (l : List String) → Has s l → Has (f s) (map f l)
Has-map f s [] m = elim m [ ]
Has-map f s (t ∷ l) (inl e) = inl (ap f e)
Has-map f s (t ∷ l) (inr m) = inr (Has-map f s l m)

module _ (float_text : String → String) where
  -- `{normalize_number(n) for n in NUMBER_RE.findall(text)}`
  unfoldable pub number_tokens : String → List String
  unfolding sorted_set number_texts
  number_tokens text = sorted_set (map float_text (number_texts text))

  -- `_content_tokens`
  unfoldable pub content_tokens : String → List String
  unfolding union content_words number_tokens
  content_tokens text = union (content_words text) (number_tokens text)

  -- The tests of one block; a share of 0.8 is one of four fifths.
  unfoldable pub covers : String → String → Bool
  unfolding all_among shared content_tokens number_tokens
  covers note block =
      all_among (number_tokens note) (content_tokens block)
      && leb (4 * length (content_tokens note))
          (5 * shared (content_tokens note) (content_tokens block))

  unfoldable pub first_covering : String → List String → Option String
  unfolding covers
  first_covering note [] = none
  first_covering note (block ∷ blocks) =
      let rest = first_covering note blocks in if covers note block then some block else rest

  -- `near_duplicate_block`
  unfoldable pub near_duplicate_block : String → String → Option String
  unfolding content_tokens first_covering blocks_of
  near_duplicate_block note existing_text =
      if no_texts (content_tokens note) then none else first_covering note (blocks_of existing_text)

  module _ (float_leb : String → String → Bool) where
    abbrev conflict_text : String → List String → List String → String
    unfolding fmt_values ◌<>◌
    conflict_text label old_values new_values =
        "'"
        <> label
        <> "': stored "
        <> fmt_values float_leb old_values
        <> " vs new "
        <> fmt_values float_leb new_values

    abbrev conflict_of : String → List String → Option (List String) → List String
    unfolding values_conflict conflict_text
    conflict_of label new_values none = []
    conflict_of label new_values (some old_values) =
        if values_conflict float_leb new_values old_values
        then conflict_text label old_values new_values ∷ []
        else []

    abbrev values_at : Option (List String) → List String
    values_at none = []
    values_at (some values) = values

    -- The loop over the labels, for the number of conflicts that may still be reported.
    unfoldable pub conflicts_from :
        ℕ → Dict (List String) → Dict (List String) → List String → List String
    unfolding Dict.get conflict_of
    conflicts_from zero new_claims old_claims labels = []
    conflicts_from (suc room) new_claims old_claims [] = []
    conflicts_from (suc room) new_claims old_claims (label ∷ labels) =
        next (conflict_of label (values_at (Dict.get label new_claims)) (Dict.get label old_claims))
          (conflicts_from (suc room) new_claims old_claims labels)
          (conflicts_from room new_claims old_claims labels)
      where
        next : List String → List String → List String → List String
        next [] skip rest = skip
        next (c ∷ cs) skip rest = c ∷ rest

    abbrev labels_of : Dict (List String) → List String
    labels_of [] = []
    labels_of ((label, values) ∷ claims) = label ∷ labels_of claims

    -- `numeric_conflicts`
    unfoldable pub numeric_conflicts : String → String → List String
    unfolding conflicts_from numeric_claims sorted_set strip
    numeric_conflicts new_note existing_text =
        if nonempty (strip existing_text)
        then conflicts_from max_reported_conflicts (numeric_claims float_text new_note)
            (numeric_claims float_text existing_text)
            (sorted_set (labels_of (numeric_claims float_text new_note)))
        else []

  -- Every number of the note is a token of the block, by its value, and the block has at least
  -- four fifths of the note's tokens.
  unfoldable pub IsCovered : String → String → Type 0
  unfolding number_texts
  IsCovered note block =
      ((n : String) → Has n (number_texts note) → Has (float_text n) (content_tokens block))
      × (4 * length (content_tokens note) ≤ 5 * shared (content_tokens note) (content_tokens block))

  all_among-number_tokens :
      (note : String) (tokens : List String)
      → all_among (number_tokens note) tokens ≡ true
      → (n : String) → Has n (number_texts note)
      → Has (float_text n) tokens
  unfolding number_tokens
  all_among-number_tokens note tokens h n m =
      Has-all_among (float_text n) (sorted_set (map float_text (number_texts note))) tokens h (
        sorted_set_keeps (float_text n) (map float_text (number_texts note))
          (Has-map float_text n (number_texts note) m))

  covers-IsCovered : (note block : String) → covers note block ≡ true → IsCovered note block
  unfolding covers IsCovered
  covers-IsCovered note block h =
      (all_among-number_tokens note (content_tokens block) (ground (arith, h)), ground (arith, h))

  first_covering-IsCovered :
      (note block : String) (blocks : List String)
      → first_covering note blocks ≡ some block
      → Has block blocks × IsCovered note block
  unfolding first_covering
  first_covering-IsCovered note block [] h = ground (arith, h)
  first_covering-IsCovered note block (b ∷ blocks) h = elim (Bool-cases (covers note b)) [
    | inl e ↦
        let same : b ≡ block = ground (arith, h, e) in
        (inl (sym same), rw (sym same) (covers-IsCovered note b e))
    | inr e ↦
        let later = first_covering-IsCovered note block blocks (ground (arith, h, e)) in
        (inr later.0, later.1)
  ]

  -- A note is only taken for a duplicate of a block of the stored text that has all of its
  -- numbers, by value, and at least four fifths of its content tokens.
  pub near_duplicate_block-IsCovered :
      (note existing_text block : String)
      → near_duplicate_block note existing_text ≡ some block
      → Has block (blocks_of existing_text) × IsCovered note block
  unfolding near_duplicate_block
  near_duplicate_block-IsCovered note existing_text block h =
      first_covering-IsCovered note block (blocks_of existing_text) (ground (arith, h))
