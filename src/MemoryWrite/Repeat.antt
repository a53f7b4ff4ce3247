-- ===== src/MemoryWrite/Repeat.antt =====
-- A note that is written twice: src/asterixdb_mcp/tools/memory_write.py.
pub mod Later
use mathlib.Core.Path.{subst, sym}
use asterixdb_mcp_server.Prelude.{
  ℕ, ◌≡◌, refl, ◌∙◌, Bool, true, false, String, Option, none, some, List, [], ◌∷◌, ◌++◌, ◌==◌,
  eq_iff, arith, starts, within, strip, nonempty, join, ◌<>◌, Bool-cases, inl, inr, if◌then◌else◌,
}
use asterixdb_mcp_server.Prelude.Dict
use asterixdb_mcp_server.Prelude.Dict.{Distinct}
use asterixdb_mcp_server.Json
use asterixdb_mcp_server.Json.{Json, str, find, lookup}
use asterixdb_mcp_server.MemoryWrite.{
  Note, Outcome, unchanged, is_walk_owned, text_of, overlay_text, any_within, has_evidence, merge,
  superseded_fields, unverified, retire_overlay_blocks, appended, annotated, annotate, created,
  superseded, rewrite, reconcile, authored, settled, current_after,
}
use asterixdb_mcp_server.MemoryWrite.Rows.{find-merge-optional, find-merge, find-authored}
use asterixdb_mcp_server.MemoryWrite.Core.{annotated-find}

starts_self : (s : String) → starts s s ≡ true
starts_self String.[] = refl
starts_self (String.◌∷◌ c s) = ground (arith, starts_self s)

within_self : (s : String) → within s s ≡ true
within_self String.[] = refl
within_self (String.◌∷◌ c s) = ground (arith, starts_self s)

starts-append : (p s t : String) → starts p s ≡ true → starts p (s <> t) ≡ true
unfolding ◌<>◌
starts-append String.[] s t h = refl
starts-append (String.◌∷◌ c p) String.[] t h = ground arith
starts-append (String.◌∷◌ c p) (String.◌∷◌ d s) t h = ground (arith, starts-append p s t)

within-append_left : (p s t : String) → within p s ≡ true → within p (s <> t) ≡ true
unfolding ◌<>◌
within-append_left String.[] String.[] String.[] h = refl
within-append_left String.[] String.[] (String.◌∷◌ d t) h = refl
within-append_left (String.◌∷◌ c p) String.[] t h = ground arith
within-append_left p (String.◌∷◌ d s) t h =
    ground (arith, starts-append p (String.◌∷◌ d s) t, within-append_left p s t)

within-append_right : (p s t : String) → within p t ≡ true → within p (s <> t) ≡ true
unfolding ◌<>◌
within-append_right p String.[] t h = h
within-append_right p (String.◌∷◌ d s) t h = ground (arith, within-append_right p s t)

within-join :
    (p sep : String) (blocks : List String)
    → any_within p blocks ≡ true
    → within p (join sep blocks) ≡ true
unfolding any_within join
within-join p sep [] h = ground arith
within-join p sep (s ∷ []) h = ground arith
within-join p sep (s ∷ t ∷ rest) h = elim (Bool-cases (within p s)) [
  | inl e ↦ within-append_left p s (sep <> join sep (t ∷ rest)) e
  | inr e ↦
      within-append_right p s (sep <> join sep (t ∷ rest))
        (within-append_right p sep (join sep (t ∷ rest)) (within-join p sep (t ∷ rest) (rw e at h)))
]

any_within-append :
    (p : String) (xs : List String) (y : String)
    → within p y ≡ true
    → any_within p (xs ++ (y ∷ [])) ≡ true
unfolding any_within
any_within-append p [] y h = ground arith
any_within-append p (x ∷ xs) y h = ground (arith, any_within-append p xs y h)

nonempty-append : (s t : String) → nonempty t ≡ true → nonempty (s <> t) ≡ true
unfolding ◌<>◌
nonempty-append String.[] t h = h
nonempty-append (String.◌∷◌ c s) t h = refl

module _ (container_text : Json → String) where
  any_within-appended :
      (note : Note) (kept : List String)
      → any_within note.text (appended container_text note kept) ≡ true
  unfolding appended unverified
  any_within-appended note kept = elim (Bool-cases (any_within note.text kept)) [
    | inl e ↦ rw (e, appended) e
    | inr e ↦
        rw (e, appended)
          (any_within-append note.text kept _ (marked (has_evidence note.source_query)))
  ]
    where
      marked :
          (b : Bool)
          → within note.text (if b then note.text else "(unverified) " <> note.text) ≡ true
      marked true = within_self note.text
      marked false = within-append_right note.text "(unverified) " note.text (within_self note.text)

  overlay-within :
      (row : Json.Fields) (note : Note) (kept : List String)
      → find "overlay" row ≡ some (str (join "\n\n" (appended container_text note kept) <> "\n"))
      → within note.text (overlay_text container_text row) ≡ true
  unfolding overlay_text lookup
  overlay-within row note kept h =
      let blocks = join "\n\n" (appended container_text note kept) in
      rw h (
        rw (nonempty-append blocks "\n" refl) (
          within-append_left note.text blocks "\n"
            (within-join note.text "\n\n" _ (any_within-appended note kept))))

  annotate_again :
      (row : Json.Fields) (note : Note)
      → note.replaces ≡ none
      → has_evidence note.source_query ≡ false
      → within note.text (overlay_text container_text row) ≡ true
      → annotate container_text row note ≡ unchanged
  unfolding annotate retire_overlay_blocks
  annotate_again row note plain bare inside = rw (plain, bare, inside, annotate) refl

  rewrite_again :
      (row : Json.Fields) (note : Note)
      → has_evidence note.source_query ≡ false
      → strip note.text ≡ note.text
      → find "text" row ≡ some (str note.text)
      → rewrite container_text row note ≡ unchanged
  unfolding rewrite text_of
  rewrite_again row note bare stripped h =
      rw (h, stripped, (eq_iff note.text note.text).1 refl, bare, rewrite) refl

  same_owner :
      (row existing : Json.Fields)
      → find "type" row ≡ find "type" existing
      → is_walk_owned container_text row ≡ is_walk_owned container_text existing
  unfolding is_walk_owned
  same_owner row existing h = rw h refl

  annotated_again :
      (action : String) (existing : Json.Fields) (note : Note) (kept : List String) (retired : ℕ)
      (author : Option String)
      → is_walk_owned container_text existing ≡ true
      → note.replaces ≡ none
      → has_evidence note.source_query ≡ false
      → reconcile container_text
          (some (authored author (annotated container_text action existing note kept retired).1))
          note
        ≡ unchanged
  unfolding reconcile
  annotated_again action existing note kept retired author owned plain bare =
      let row = authored author (annotated container_text action existing note kept retired).1 in
      let found = annotated-find container_text action existing note kept retired author in
      rw (same_owner row existing found.0 ∙ owned, reconcile)
        (annotate_again row note plain bare (overlay-within row note kept found.2))

  annotate_new :
      (existing : Json.Fields) (note : Note)
      → note.replaces ≡ none
      → has_evidence note.source_query ≡ false
      → within note.text (overlay_text container_text existing) ≡ false
      → annotate container_text existing note
        ≡ annotated container_text "annotated" existing note
            (retire_overlay_blocks (overlay_text container_text existing) none).0
            0
  unfolding annotate retire_overlay_blocks
  annotate_new existing note plain bare e = rw (plain, bare, e, annotate) refl

  abbrev StaysAfter : Option String → Json.Fields → Note → Outcome → Type 0
  StaysAfter author existing note o =
      reconcile container_text (settled author (some existing) o) note ≡ unchanged

  annotate-StaysAfter :
      (author : Option String) (existing : Json.Fields) (note : Note)
      → is_walk_owned container_text existing ≡ true
      → note.replaces ≡ none
      → has_evidence note.source_query ≡ false
      → StaysAfter author existing note (annotate container_text existing note)
  unfolding settled reconcile annotated
  annotate-StaysAfter author existing note owned plain bare =
      elim (Bool-cases (within note.text (overlay_text container_text existing))) [
        | inl e ↦
            let again = annotate_again existing note plain bare e in
            subst (StaysAfter author existing note) (sym again) (rw (owned, reconcile) again)
        | inr e ↦
            subst (StaysAfter author existing note) (sym (annotate_new existing note plain bare e))
              (annotated_again "annotated" existing note _ 0 author owned plain bare)
      ]

  rewritten :
      (row : Json.Fields) (note : Note)
      → is_walk_owned container_text row ≡ false
      → has_evidence note.source_query ≡ false
      → strip note.text ≡ note.text
      → find "text" row ≡ some (str note.text)
      → reconcile container_text (some row) note ≡ unchanged
  unfolding reconcile
  rewritten row note owned bare stripped h =
      rw (owned, reconcile) (rewrite_again row note bare stripped h)

  unowned :
      (row : Json.Fields)
      → find "type" row ≡ some (str "Note")
      → is_walk_owned container_text row ≡ false
  unfolding is_walk_owned
  unowned row h = rw h refl

  superseded-find :
      (existing : Json.Fields) (note : Note) (author : Option String)
      → let row = authored author (superseded container_text existing note).1 in
        (find "type" row ≡ find "type" existing) × (find "text" row ≡ some (str note.text))
  unfolding superseded superseded_fields Dict.get
  superseded-find existing note author =
      let fields = superseded_fields container_text note in
      let row = merge fields existing in
      (
        find-authored "type" author _ refl
            ∙ (find-merge-optional "type" note row refl refl refl
                ∙ find-merge "type" fields existing (refl, (refl, (refl, (refl, (refl, tt)))))),
        find-authored "text" author _ refl
            ∙ (find-merge-optional "text" note row refl refl refl
                ∙ find-merge "text" fields existing (refl, (refl, (refl, (refl, (refl, tt)))))),
      )

  created-find :
      (note : Note) (author : Option String)
      → let row = authored author (created note).1 in
        (find "type" row ≡ some (str "Note")) × (find "text" row ≡ some (str note.text))
  unfolding created find
  created-find note author = (
    find-authored "type" author _ refl ∙ find-merge-optional "type" note _ refl refl refl,
    find-authored "text" author _ refl ∙ find-merge-optional "text" note _ refl refl refl,
  )

  rewrite_same :
      (existing : Json.Fields) (note : Note)
      → has_evidence note.source_query ≡ false
      → (strip (text_of container_text (find "text" existing)) == note.text) ≡ true
      → rewrite container_text existing note ≡ unchanged
  unfolding rewrite
  rewrite_same existing note bare e = rw (e, bare, rewrite) refl

  pub rewrite_other :
      (existing : Json.Fields) (note : Note)
      → (strip (text_of container_text (find "text" existing)) == note.text) ≡ false
      → rewrite container_text existing note ≡ superseded container_text existing note
  unfolding rewrite
  rewrite_other existing note e = rw (e, rewrite) refl

  rewrite-StaysAfter :
      (author : Option String) (existing : Json.Fields) (note : Note)
      → is_walk_owned container_text existing ≡ false
      → has_evidence note.source_query ≡ false
      → strip note.text ≡ note.text
      → StaysAfter author existing note (rewrite container_text existing note)
  unfolding settled superseded reconcile
  rewrite-StaysAfter author existing note owned bare stripped =
      elim (Bool-cases (strip (text_of container_text (find "text" existing)) == note.text)) [
        | inl e ↦
            let again = rewrite_same existing note bare e in
            subst (StaysAfter author existing note) (sym again) (rw (owned, reconcile) again)
        | inr e ↦
            let found = superseded-find existing note author in
            let row : Json.Fields = authored author (superseded container_text existing note).1 in
            subst (StaysAfter author existing note) (sym (rewrite_other existing note e))
              (rewritten row note (same_owner row existing found.0 ∙ owned) bare stripped found.1)
      ]

  of_walk :
      (existing : Json.Fields) (note : Note)
      → is_walk_owned container_text existing ≡ true
      → reconcile container_text (some existing) note ≡ annotate container_text existing note
  unfolding reconcile
  of_walk existing note owned = rw (owned, reconcile) refl

  pub of_agent :
      (existing : Json.Fields) (note : Note)
      → is_walk_owned container_text existing ≡ false
      → reconcile container_text (some existing) note ≡ rewrite container_text existing note
  unfolding reconcile
  of_agent existing note owned = rw (owned, reconcile) refl

  -- The same note again, with nothing to correct and no evidence, changes nothing.
  pub reconcile-repeated :
      (author : Option String) (existing : Option Json.Fields) (note : Note)
      → note.replaces ≡ none
      → has_evidence note.source_query ≡ false
      → strip note.text ≡ note.text
      → reconcile container_text (current_after container_text author existing note) note
        ≡ unchanged
  unfolding current_after reconcile settled created
  reconcile-repeated author none note plain bare stripped =
      let found = created-find note author in
      rewritten (authored author (created note).1) note
        (unowned (authored author (created note).1) found.0) bare stripped found.1
  reconcile-repeated author (some existing) note plain bare stripped =
      elim (Bool-cases (is_walk_owned container_text existing)) [
        | inl owned ↦
            subst (StaysAfter author existing note) (sym (of_walk existing note owned))
              (annotate-StaysAfter author existing note owned plain bare)
        | inr owned ↦
            subst (StaysAfter author existing note) (sym (of_agent existing note owned))
              (rewrite-StaysAfter author existing note owned bare stripped)
      ]
