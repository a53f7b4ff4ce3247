-- ===== src/MemoryWrite/Repeat/Later.antt =====
-- A text that is written again later, with other tags and links: src/asterixdb_mcp/tools/memory_write.py.
use asterixdb_mcp_server.Prelude.{
  ◌≡◌, refl, sym, ◌∙◌, false, String, Option, none, some, ◌==◌, arith, strip, within, Bool-cases,
  inl, inr,
}
use asterixdb_mcp_server.Json
use asterixdb_mcp_server.Json.{Json, find}
use asterixdb_mcp_server.MemoryWrite.{
  Note, Outcome, unchanged, is_walk_owned, overlay_text, text_of, has_evidence, created, superseded,
  annotate, annotated, rewrite, reconcile, current_after,
}
use asterixdb_mcp_server.MemoryWrite.Repeat.{
  annotate_again, annotate_new, rewrite_same, rewrite_other, of_walk, of_agent, reconcile-repeated,
}

-- A note without a correction and without evidence.
pub record IsPlain (note : Note) : Type 0 where
  pub corrects_nothing : note.replaces ≡ none
  pub bare : has_evidence note.source_query ≡ false

not_unchanged : (o : Outcome) → (o.0 == "unchanged") ≡ false → o ≡ unchanged → ⊥
not_unchanged o differs same = ground (arith, (rw same at differs))

module _ (container_text : Json → String) (note later : Note) (same : later.text ≡ note.text)
    (plain : IsPlain note) (later_plain : IsPlain later) where
  annotate_later :
      (row : Json.Fields)
      → annotate container_text row note ≡ unchanged
      → annotate container_text row later ≡ unchanged
  unfolding annotated
  annotate_later row h = elim (Bool-cases (within note.text (overlay_text container_text row))) [
    | inl e ↦
        annotate_again container_text row later later_plain.corrects_nothing later_plain.bare
          (rw same e)
    | inr e ↦ absurd (
        not_unchanged _ refl
          (sym (annotate_new container_text row note plain.corrects_nothing plain.bare e) ∙ h))
  ]

  rewrite_later :
      (row : Json.Fields)
      → rewrite container_text row note ≡ unchanged
      → rewrite container_text row later ≡ unchanged
  unfolding superseded
  rewrite_later row h =
      elim (Bool-cases (strip (text_of container_text (find "text" row)) == note.text)) [
        | inl e ↦ rewrite_same container_text row later later_plain.bare (rw same e)
        | inr e ↦ absurd (not_unchanged _ refl (sym (rewrite_other container_text row note e) ∙ h))
      ]

  reconcile_later :
      (existing : Option Json.Fields)
      → reconcile container_text existing note ≡ unchanged
      → reconcile container_text existing later ≡ unchanged
  unfolding reconcile created
  reconcile_later none h = ground (arith, h)
  reconcile_later (some row) h = elim (Bool-cases (is_walk_owned container_text row)) [
    | inl e ↦
        of_walk container_text row later e
        ∙ annotate_later row (sym (of_walk container_text row note e) ∙ h)
    | inr e ↦
        of_agent container_text row later e
        ∙ rewrite_later row (sym (of_agent container_text row note e) ∙ h)
  ]

  -- A text that is written again, at whatever time and with whatever links and tags, with nothing to
  -- correct and no evidence either time, is found to be there already: whatever row there was before
  -- the first write, of the walk or an agent's note or none, the second changes nothing. The text has
  -- no space at its ends, as the tool strips it.
  pub reconcile-repeated_later :
      (author : Option String) (existing : Option Json.Fields)
      → strip note.text ≡ note.text
      → reconcile container_text (current_after container_text author existing note) later
        ≡ unchanged
  reconcile-repeated_later author existing stripped =
      reconcile_later (current_after container_text author existing note) (
        reconcile-repeated container_text author existing note plain.corrects_nothing plain.bare
          stripped)
