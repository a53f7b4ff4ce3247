-- ===== src/MemoryWrite/Core.antt =====
-- The part of a catalog concept that the walk owns, under any writes: src/asterixdb_mcp/tools/memory_write.py.
use asterixdb_mcp_server.Prelude.{
  ℕ, ◌≡◌, refl, ◌∙◌, Bool, true, false, String, Option, none, some, List, [], ◌∷◌, nonempty, map,
  join, ◌&&◌, nat_eq, within, ◌<>◌, if◌then◌else◌,
}
use asterixdb_mcp_server.Prelude.Dict
use asterixdb_mcp_server.Json
use asterixdb_mcp_server.Json.{Json, str, find, lookup}
use asterixdb_mcp_server.MemoryWrite.{
  Note, Outcome, unchanged, is_walk_owned, core_text, appended, annotation_fields, annotated,
  annotate, settled, retire_overlay_blocks, overlay_text, has_evidence, any_within, unverified,
  replace_text, current_after_all, reconcile, authored, current_after,
}
use asterixdb_mcp_server.MemoryWrite.Rows.{find-merge, find-authored}

module _ (container_text : Json → String) where
  -- A current row that the walk owns and whose core is the given text.
  unfoldable pub HasCore : String → Option Json.Fields → Type 0
  HasCore core none = ⊥
  HasCore core (some row) =
      (is_walk_owned container_text row ≡ true) × (core_text container_text row ≡ core)

  pub annotated-find :
      (action : String) (existing : Json.Fields) (note : Note) (kept : List String) (retired : ℕ)
      (author : Option String)
      → let row = authored author (annotated container_text action existing note kept retired).1 in
        (find "type" row ≡ find "type" existing)
        × (find "core" row ≡ some (str (core_text container_text existing)))
        × (find "overlay" row
            ≡ some (str (join "\n\n" (appended container_text note kept) <> "\n")))
  unfolding annotated annotation_fields Dict.get
  annotated-find action existing note kept retired author =
      let entries = annotation_fields container_text existing note kept in
      (
        find-authored "type" author _ refl
            ∙ find-merge "type" entries existing (refl, (refl, (refl, (refl, (refl, (refl, tt)))))),
        find-authored "core" author _ refl
            ∙ find-merge "core" entries existing (refl, (refl, (refl, (refl, (refl, (refl, tt)))))),
        find-authored "overlay" author _ refl
            ∙ find-merge "overlay" entries existing
                (refl, (refl, (refl, (refl, (refl, (refl, tt)))))),
      )

  has_core :
      (existing row : Json.Fields) (core : String)
      → nonempty core ≡ true
      → HasCore core (some existing)
      → find "type" row ≡ find "type" existing
      → find "core" row ≡ some (str (core_text container_text existing))
      → HasCore core (some row)
  unfolding HasCore is_walk_owned core_text lookup
  has_core existing row core h (owned, same) t c = (rw t owned, rw c (rw same (rw h refl)))

  annotated-HasCore :
      (action : String) (existing : Json.Fields) (note : Note) (kept : List String) (retired : ℕ)
      (author : Option String) (core : String)
      → nonempty core ≡ true
      → HasCore core (some existing)
      → HasCore core
          (some (authored author (annotated container_text action existing note kept retired).1))
  annotated-HasCore action existing note kept retired author core h holds =
      let found = annotated-find action existing note kept retired author in
      has_core existing _ core h holds found.0 found.1

  pub settled-test :
      (P : Outcome → Type 0) (test : Bool) (taken skipped : Outcome)
      → P taken
      → P skipped
      → P (if test then taken else skipped)
  settled-test P true taken skipped p q = p
  settled-test P false taken skipped p q = q

  annotate-HasCore :
      (author : Option String) (existing : Json.Fields) (note : Note) (core : String)
      → nonempty core ≡ true
      → HasCore core (some existing)
      → HasCore core (settled author (some existing) (annotate container_text existing note))
  unfolding annotate settled annotated
  annotate-HasCore author existing note core h holds =
      let (kept, retired) =
        retire_overlay_blocks (overlay_text container_text existing) note.replaces in
      let grounds : Bool =
        has_evidence note.source_query && any_within (unverified note.text) kept in
      let again : Bool =
        nat_eq retired 0 && within note.text (overlay_text container_text existing) in
      let upgraded =
        annotated container_text "regrounded" existing note
          (map (replace_text (unverified note.text) note.text) kept) retired in
      let added = annotated container_text "annotated" existing note kept retired in
      let P : Outcome → Type 0 = λ o. HasCore core (settled author (some existing) o) in
      settled-test P grounds upgraded (if again then unchanged else added)
        (annotated-HasCore "regrounded" existing note
          (map (replace_text (unverified note.text) note.text) kept) retired author core h holds)
        (settled-test P again unchanged added holds
          (annotated-HasCore "annotated" existing note kept retired author core h holds))

  current_after-HasCore :
      (author : Option String) (existing : Json.Fields) (note : Note) (core : String)
      → nonempty core ≡ true
      → HasCore core (some existing)
      → HasCore core (current_after container_text author (some existing) note)
  unfolding current_after reconcile HasCore
  current_after-HasCore author existing note core h (owned, same) =
      rw (owned, reconcile) (annotate-HasCore author existing note core h (owned, same))

  -- Over any notes written to a concept that the catalog walk owns, with any corrections, evidence
  -- and authors, the concept keeps the core that the walk gave it, and stays owned by the walk. The
  -- core must not be empty.
  pub current_after_all-HasCore :
      (notes : List (Option String × Note)) (existing : Option Json.Fields) (core : String)
      → nonempty core ≡ true
      → HasCore core existing
      → HasCore core (current_after_all container_text existing notes)
  unfolding current_after_all HasCore
  current_after_all-HasCore [] existing core h holds = holds
  current_after_all-HasCore ((author, note) ∷ notes) (some existing) core h holds =
      current_after_all-HasCore notes _ core h
        (current_after-HasCore author existing note core h holds)
  current_after_all-HasCore ((author, note) ∷ notes) none core h holds = absurd holds
