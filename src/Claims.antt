-- ===== src/Claims.antt =====
-- What a note claims: the numbers of its text, each under the words near it. All of
-- src/asterixdb_mcp/claims.py. Python's `float` is a parameter: `float_text` is `str(float(s))` and
-- `float_leb` compares two such texts by value. `\d` stands for the digits of ASCII.
pub mod Scan
use asterixdb_mcp_server.Prelude.{
  ℕ, zero, suc, ◌+◌, ◌-◌, ◌≡◌, refl, Bool, true, false, not, ◌&&◌, ◌||◌, String, Option, none, some,
  List, [], ◌∷◌, ◌++◌, map, keep, leb, nat_eq, nonempty, chars, take_text, lower, join, ◌<>◌, ◌==◌,
  if◌then◌else◌,
}
use asterixdb_mcp_server.Prelude.Dict
use asterixdb_mcp_server.Prelude.Dict.{Dict}
use asterixdb_mcp_server.Prelude.Sorted.{insert_text, sorted_set}
use asterixdb_mcp_server.Claims.Scan.{Match, words, numbers, segments, drop_text}

abbrev pub context_chars : ℕ
context_chars = 30

abbrev pub stopwords : List String
stopwords =
    "the" ∷ "and" ∷ "for" ∷ "with" ∷ "not" ∷ "are" ∷ "was" ∷ "this" ∷ "that" ∷ "from" ∷ "use"
    ∷ "using" ∷ "into" ∷ "have" ∷ "has" ∷ []

abbrev string_words : List String
string_words = "string" ∷ "strings" ∷ "text" ∷ "textual" ∷ "varchar" ∷ []

abbrev number_words : List String
number_words = "number" ∷ "numbers" ∷ "numeric" ∷ "integer" ∷ "int" ∷ "double" ∷ "float" ∷ []

-- `s in texts`
unfoldable pub is_among : String → List String → Bool
is_among s [] = false
is_among s (t ∷ ts) = (s == t) || is_among s ts

-- `{w.lower() for w in WORD_RE.findall(text)} - STOPWORDS`
unfoldable pub content_words : String → List String
unfolding sorted_set lower words is_among
content_words text = keep (λ w. not (is_among w stopwords)) (sorted_set (map lower (words text)))

-- `labels_near`
unfoldable pub labels_near : String → ℕ → ℕ → List String
unfolding content_words drop_text
labels_near text start end =
    content_words (drop_text (start - context_chars) (take_text (end + context_chars) text))

abbrev values_of : Option (List String) → List String
values_of none = []
values_of (some values) = values

-- `claims[label].add(value)` for each label
unfoldable pub add_claims : String → List String → Dict (List String) → Dict (List String)
unfolding Dict.get Dict.put insert_text
add_claims value [] claims = claims
add_claims value (label ∷ labels) claims =
    add_claims value labels
      (Dict.put label (insert_text value (values_of (Dict.get label claims))) claims)

module _ (float_text : String → String) where
  -- The loop over the numbers of a text.
  unfoldable pub claims_from : String → List Match → Dict (List String) → Dict (List String)
  unfolding add_claims labels_near
  claims_from text [] claims = claims
  claims_from text (found ∷ rest) claims = claims_from text rest (
      add_claims (float_text found.group)
        (labels_near text found.start (found.start + chars found.group)) claims)

  -- `numeric_claims`
  unfoldable pub numeric_claims : String → Dict (List String)
  unfolding claims_from numbers
  numeric_claims text = claims_from text (numbers text) []

  -- The loop over the segments of a text.
  unfoldable pub claims_of_segments : List String → Dict (List String) → Dict (List String)
  unfolding claims_from numbers
  claims_of_segments [] claims = claims
  claims_of_segments (segment ∷ rest) claims =
      claims_of_segments rest (claims_from segment (numbers segment) claims)

  -- `segment_claims`
  unfoldable pub segment_claims : String → Dict (List String)
  unfolding claims_of_segments segments
  segment_claims text = claims_of_segments (segments text) []

module _ (float_leb : String → String → Bool) where
  -- `min` and `max` of the values, by their floats
  unfoldable pub least : String → List String → String
  least v [] = v
  least v (u ∷ values) = let rest = least u values in if float_leb v rest then v else rest

  unfoldable pub greatest : String → List String → String
  greatest v [] = v
  greatest v (u ∷ values) = let rest = greatest u values in if float_leb rest v then v else rest

  unfoldable pub any_outside : String → String → List String → Bool
  any_outside low high [] = false
  any_outside low high (v ∷ values) =
      not (float_leb low v && float_leb v high) || any_outside low high values

  unfoldable pub share_value : List String → List String → Bool
  unfolding is_among
  share_value [] values = false
  share_value (v ∷ vs) values = is_among v values || share_value vs values

  -- `values_conflict`; a label of `claims` has a value, so `[]` is not asked for.
  unfoldable pub values_conflict : List String → List String → Bool
  unfolding share_value any_outside least greatest
  values_conflict new_values [] = false
  values_conflict new_values (v ∷ old_values) =
      not (share_value new_values (v ∷ old_values))
      && any_outside (least v old_values) (greatest v old_values) new_values

  insert_value : String → List String → List String
  insert_value v [] = v ∷ []
  insert_value v (u ∷ values) =
      let rest = insert_value v values in if float_leb v u then v ∷ u ∷ values else u ∷ rest

  sort_values : List String → List String
  unfolding insert_value
  sort_values [] = []
  sort_values (v ∷ values) = insert_value v (sort_values values)

  -- `fmt_values`
  unfoldable pub fmt_values : List String → String
  unfolding sort_values join
  fmt_values values = join ", " (sort_values values)
