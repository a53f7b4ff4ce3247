-- ===== src/MemoryWrite.antt =====
-- How a note is reconciled with the row that the store holds: `_reconcile` and what it calls, of
-- src/asterixdb_mcp/tools/memory_write.py. `container_text` is `str` of a list or a dict.
pub mod Rows
pub mod Core
pub mod Repeat
pub mod Evidence
pub mod Duplicates
pub mod Arguments
pub mod Answers
pub mod Run
use asterixdb_mcp_server.Prelude.{
  ℕ, zero, suc, ◌-◌, ◌≡◌, refl, Bool, true, false, not, ◌&&◌, ◌||◌, String, Option, none, some,
  List, [], ◌∷◌, ◌++◌, map, keep, length, nat_eq, nonempty, chars, lower, starts, within, is_space,
  strip_right, strip, join, ◌<>◌, ◌==◌, if◌then◌else◌,
}
use Prim.Native.Char.{Char, code}
use asterixdb_mcp_server.Json
use asterixdb_mcp_server.Json.{
  Json, str, float, end, find, lookup, set, truthy, array, of_fields, of_list,
}
use asterixdb_mcp_server.Envelope.{py_text}

-- `s.split("\n\n")`, with the piece that is being read
unfoldable pub split_blocks : String → String → List String
unfolding ◌<>◌
split_blocks piece String.[] = piece ∷ []
split_blocks piece (String.◌∷◌ c String.[]) = (piece <> String.◌∷◌ c String.[]) ∷ []
split_blocks piece (String.◌∷◌ c (String.◌∷◌ d s)) =
    elim (nat_eq (code c) b'\n' && nat_eq (code d) b'\n') [
      | true ↦ piece ∷ split_blocks String.[] s
      | false ↦ split_blocks (piece <> String.◌∷◌ c String.[]) (String.◌∷◌ d s)
    ]

-- `[block.strip() for block in overlay.split("\n\n") if block.strip()]`
unfoldable pub blocks_of : String → List String
unfolding split_blocks strip
blocks_of overlay = keep nonempty (map strip (split_blocks "" overlay))

-- `s.replace(old, new)` for a text `old` that is not empty; `skip` characters of a match are left.
unfoldable pub replace_from : String → String → ℕ → String → String
unfolding ◌<>◌
replace_from old new skip String.[] = String.[]
replace_from old new (suc skip) (String.◌∷◌ c s) = replace_from old new skip s
replace_from old new zero (String.◌∷◌ c s) = elim (starts old (String.◌∷◌ c s)) [
  | true ↦ new <> replace_from old new (chars old - 1) s
  | false ↦ String.◌∷◌ c (replace_from old new zero s)
]

unfoldable pub replace_text : String → String → String → String
unfolding replace_from
replace_text old new s = replace_from old new zero s

-- `_retire_overlay_blocks`
unfoldable pub retire_overlay_blocks : String → Option String → List String × ℕ
unfolding blocks_of lower
retire_overlay_blocks overlay none = (blocks_of overlay, 0)
retire_overlay_blocks overlay (some replaces) =
    if nonempty replaces
    then (let blocks = blocks_of overlay in
        let kept = keep (λ block. not (within (lower replaces) (lower block))) blocks in
        (kept, length blocks - length kept))
    else (blocks_of overlay, 0)

-- `any(s in block for block in blocks)`
unfoldable pub any_within : String → List String → Bool
any_within s [] = false
any_within s (block ∷ blocks) = within s block || any_within s blocks

unfoldable pub has_evidence : Option String → Bool
has_evidence none = false
has_evidence (some source_query) = nonempty source_query

-- `{**fs, **entries}`
unfoldable pub merge : List (String × Json) → Json.Fields → Json.Fields
unfolding set
merge [] fs = fs
merge ((key, value) ∷ entries) fs = merge entries (set key value fs)

abbrev one : Json
one = float (record { literal = "1.0"; is_zero = false })

-- The arguments of a write, besides the row that is stored.
pub record Note : Type 0 where
  pub subject : String
  pub text : String
  pub now : String
  pub links : List String
  pub tags : List String
  pub source_query : Option String
  pub replaces : Option String

abbrev list_field : String → List String → List (String × Json)
unfolding of_list
list_field key [] = []
list_field key (s ∷ ss) = (key, array (map str (s ∷ ss))) ∷ []

unfoldable pub query_field : Option String → List (String × Json)
query_field none = []
query_field (some source_query) =
    if nonempty source_query then ("source_query", str source_query) ∷ [] else []

-- `optional`
unfoldable pub optional : Note → List (String × Json)
unfolding query_field of_list
optional note =
    list_field "links" note.links ++ (list_field "tags" note.tags ++ query_field note.source_query)

unfoldable pub unverified : String → String
unfolding ◌<>◌
unverified note = "(unverified) " <> note

unfoldable pub row_id : Note → String
unfolding ◌<>◌
row_id note = note.subject <> "@" <> note.now

unfoldable pub trim_newlines : String → String
unfolding strip_right
trim_newlines s = strip_right (λ c. nat_eq (code c) b'\n') s

-- An action, the new row, and how many blocks were retired.
abbrev pub Outcome : Type 0
Outcome = String × Json.Fields × ℕ

abbrev pub unchanged : Outcome
unchanged = ("unchanged", end, 0)

unfoldable pub created : Note → Outcome
unfolding merge optional row_id of_fields
created note = (
  "created",
  merge (optional note) (
      of_fields (
        ("id", str (row_id note))
        ∷ ("subject", str note.subject)
        ∷ ("type", str "Note")
        ∷ ("kind", str "semantic")
        ∷ ("text", str note.text)
        ∷ ("valid_from", str note.now)
        ∷ ("trust", one)
        ∷ ("last_used", str note.now)
        ∷ [])),
  0,
)

module _ (container_text : Json → String) where
  -- `str(row.get(key) or "")`
  unfoldable pub text_or_empty : Json → String
  unfolding truthy py_text
  text_or_empty value = if truthy value then py_text container_text value else ""

  -- `str(row.get(key, ""))`
  unfoldable pub text_of : Option Json → String
  unfolding py_text
  text_of none = ""
  text_of (some value) = py_text container_text value

  -- `_is_walk_owned`
  unfoldable pub is_walk_owned : Json.Fields → Bool
  unfolding text_of find
  is_walk_owned row = starts "AsterixDB " (text_of (find "type" row))

  -- `str(existing.get("core") or existing.get("text", ""))`
  unfoldable pub core_text : Json.Fields → String
  unfolding text_of find lookup truthy py_text
  core_text row =
      if truthy (lookup "core" row)
      then py_text container_text (lookup "core" row)
      else text_of (find "text" row)

  unfoldable pub overlay_text : Json.Fields → String
  unfolding text_or_empty lookup
  overlay_text row = text_or_empty (lookup "overlay" row)

  -- The blocks of the new overlay.
  unfoldable pub appended : Note → List String → List String
  unfolding any_within has_evidence unverified
  appended note kept =
      if any_within note.text kept
      then kept
      else kept
        ++ ((if has_evidence note.source_query then note.text else unverified note.text) ∷ [])

  unfoldable pub annotation_fields : Json.Fields → Note → List String → List (String × Json)
  unfolding core_text appended row_id trim_newlines ◌<>◌ join
  annotation_fields existing note kept =
      let core = core_text existing in
      let overlay = join "\n\n" (appended note kept) <> "\n" in
      ("id", str (row_id note))
      ∷ ("valid_from", str note.now)
      ∷ ("core", str core)
      ∷ ("overlay", str overlay)
      ∷ ("text", str (trim_newlines core <> "\n\n" <> overlay))
      ∷ ("last_used", str note.now)
      ∷ []

  unfoldable pub annotated : String → Json.Fields → Note → List String → ℕ → Outcome
  unfolding merge annotation_fields
  annotated action existing note kept retired =
      (action, merge (annotation_fields existing note kept) existing, retired)

  -- The branch of a row that the catalog walk owns.
  unfoldable pub annotate : Json.Fields → Note → Outcome
  unfolding annotated overlay_text retire_overlay_blocks has_evidence any_within unverified
      replace_text
  annotate existing note =
      let overlay = overlay_text existing in
      let (kept, retired) = retire_overlay_blocks overlay note.replaces in
      if has_evidence note.source_query && any_within (unverified note.text) kept
      then annotated "regrounded" existing note
          (map (replace_text (unverified note.text) note.text) kept) retired
      else if nat_eq retired 0 && within note.text overlay
      then unchanged
      else annotated "annotated" existing note kept retired

  unfoldable pub regrounded : Json.Fields → Note → Outcome
  unfolding merge optional row_id
  regrounded existing note = (
    "regrounded",
    merge (optional note) (
        merge
          (("id", str (row_id note))
            ∷ ("valid_from", str note.now)
            ∷ ("trust", one)
            ∷ ("last_used", str note.now)
            ∷ [])
          existing),
    0,
  )

  unfoldable pub superseded_fields : Note → List (String × Json)
  unfolding row_id
  superseded_fields note =
      ("id", str (row_id note))
      ∷ ("text", str note.text)
      ∷ ("valid_from", str note.now)
      ∷ ("trust", one)
      ∷ ("last_used", str note.now)
      ∷ []

  unfoldable pub superseded : Json.Fields → Note → Outcome
  unfolding merge optional superseded_fields
  superseded existing note =
      ("superseded", merge (optional note) (merge (superseded_fields note) existing), 0)

  -- The branch of a standalone note.
  unfoldable pub rewrite : Json.Fields → Note → Outcome
  unfolding regrounded superseded text_of find lookup truthy has_evidence strip
  rewrite existing note =
      if strip (text_of (find "text" existing)) == note.text
      then (if has_evidence note.source_query && not (truthy (lookup "source_query" existing))
          then regrounded existing note
          else unchanged)
      else superseded existing note

  -- `_reconcile`
  unfoldable pub reconcile : Option Json.Fields → Note → Outcome
  unfolding created annotate rewrite is_walk_owned
  reconcile none note = created note
  reconcile (some existing) note =
      if is_walk_owned existing then annotate existing note else rewrite existing note

  -- `_existing_note_text`
  unfoldable pub existing_note_text : Option Json.Fields → String
  unfolding text_or_empty lookup is_walk_owned
  existing_note_text none = ""
  existing_note_text (some existing) =
      text_or_empty
        (if is_walk_owned existing then lookup "overlay" existing else lookup "text" existing)

  -- `_block_grounded`
  unfoldable pub block_grounded : String → Json.Fields → Bool
  unfolding is_walk_owned lookup truthy
  block_grounded block existing =
      if is_walk_owned existing
      then not (within "(unverified)" block)
      else truthy (lookup "source_query" existing)

-- `row = {**row, "author": author}`
unfoldable pub authored : Option String → Json.Fields → Json.Fields
unfolding set
authored none row = row
authored (some author) row = if nonempty author then set "author" (str author) row else row

abbrev pub settled : Option String → Option Json.Fields → Outcome → Option Json.Fields
unfolding authored
settled author existing (action, row, retired) =
    if action == "unchanged" then existing else some (authored author row)

-- The current row of a subject once the write is done: an unchanged note writes nothing, and any
-- other outcome supersedes the stored row.
unfoldable pub current_after :
    (Json → String) → Option String → Option Json.Fields → Note → Option Json.Fields
unfolding reconcile settled
current_after container_text author existing note =
    settled author existing (reconcile container_text existing note)

-- A sequence of writes to one subject, each with its author.
unfoldable pub current_after_all :
    (Json → String) → Option Json.Fields → List (Option String × Note) → Option Json.Fields
unfolding current_after
current_after_all container_text existing [] = existing
current_after_all container_text existing ((author, note) ∷ notes) =
    current_after_all container_text (current_after container_text author existing note) notes
