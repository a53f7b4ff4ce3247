-- ===== src/MemoryWrite/Evidence.antt =====
-- The evidence that a rewritten note carries: src/asterixdb_mcp/tools/memory_write.py.
use asterixdb_mcp_server.Prelude.{
  ◌≡◌, refl, ◌∙◌, false, String, Option, none, some, ◌==◌, strip, nonempty, Bool-cases, inl, inr,
  if◌then◌else◌,
}
use asterixdb_mcp_server.Prelude.Dict
use asterixdb_mcp_server.Json
use asterixdb_mcp_server.Json.{Json, null, str, find, lookup}
use asterixdb_mcp_server.MemoryWrite.{
  Note, is_walk_owned, text_of, has_evidence, query_field, optional, merge, superseded_fields,
  superseded, authored, current_after, settled,
}
use asterixdb_mcp_server.MemoryWrite.Rows.{
  or_else, find-merge, find-authored, get-optional-source_query, optional-Distinct,
}
use asterixdb_mcp_server.MemoryWrite.Repeat.{of_agent, rewrite_other}

-- A field that may be absent.
abbrev pub given : Option String → Option Json
given none = none
given (some s) = some (str s)

get-query_field :
    (q : Option String)
    → Dict.get "source_query" (query_field q) ≡ (if has_evidence q then given q else none)
unfolding query_field has_evidence Dict.get
get-query_field none = refl
get-query_field (some q) = elim (Bool-cases (nonempty q)) [
  | inl e ↦ rw (e, query_field) refl
  | inr e ↦ rw (e, query_field) refl
]

module _ (container_text : Json → String) where
  superseded-source_query :
      (existing : Json.Fields) (note : Note) (author : Option String)
      → find "source_query" (authored author (superseded container_text existing note).1)
        ≡ or_else
            (if has_evidence note.source_query then given note.source_query else none)
            (find "source_query" existing)
  unfolding superseded superseded_fields Dict.get
  superseded-source_query existing note author =
      let fields = superseded_fields container_text note in
      let row = merge fields existing in
      find-authored "source_query" author _ refl
      ∙ (find-merge "source_query" (optional note) row (optional-Distinct note)
          ∙ rw (get-optional-source_query note, get-query_field note.source_query)
              (rw
                (find-merge "source_query" fields existing
                  (refl, (refl, (refl, (refl, (refl, tt))))))
                refl))

  -- When an agent's note is replaced by another text, the new row carries the evidence of the new
  -- text if there is some, and otherwise the evidence of the text that it replaced; so an unproved
  -- correction of a proved note counts as grounded.
  pub reconcile-evidence :
      (author : Option String) (existing : Json.Fields) (note : Note)
      → is_walk_owned container_text existing ≡ false
      → (strip (text_of container_text (find "text" existing)) == note.text) ≡ false
      → (row : Json.Fields) × (current_after container_text author (some existing) note ≡ some row)
        × (find "source_query" row
            ≡ or_else
                (if has_evidence note.source_query then given note.source_query else none)
                (find "source_query" existing))
  unfolding current_after settled superseded
  reconcile-evidence author existing note owned other = (
    authored author (superseded container_text existing note).1,
    rw
        (of_agent container_text existing note owned
          ∙ rewrite_other container_text existing note other)
        refl,
    superseded-source_query existing note author,
  )
