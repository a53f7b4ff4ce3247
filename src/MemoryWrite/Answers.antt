-- ===== src/MemoryWrite/Answers.antt =====
-- What `run_memory_write` of src/asterixdb_mcp/tools/memory_write.py answers.
use asterixdb_mcp_server.Prelude.{
  ℕ, Bool, false, not, String, Option, List, [], ◌∷◌, map, leb, nat_eq, chars, take_text, show,
  join, ◌<>◌, ◌==◌, if◌then◌else◌,
}
use asterixdb_mcp_server.Json
use asterixdb_mcp_server.Json.{
  Json, null, bool, str, arr, obj, nat, int, ℤ, pos, negsuc, end, find, lookup, set, truthy,
  to_list, dicts, array, of_fields, of_list,
}
use asterixdb_mcp_server.Envelope.{py_text}
use asterixdb_mcp_server.Tools.{ToolResult}
use asterixdb_mcp_server.MemoryWrite.{Note, has_evidence}

abbrev pub dup_preview_len : ℕ
dup_preview_len = 160

-- `_canonicalized_field`
abbrev canonicalized : String → String → Json.Fields → Json.Fields
unfolding set
canonicalized subject original fs =
    if subject == original then fs else set "canonicalizedFrom" (str original) fs

-- `_duplicate_result`
abbrev preview_of : String → String
unfolding ◌<>◌
preview_of duplicate =
    if leb (chars duplicate) dup_preview_len
    then duplicate
    else take_text dup_preview_len duplicate <> "…"

unfoldable pub duplicate_result : String → String → String → Bool → ToolResult
unfolding preview_of canonicalized of_fields ◌<>◌
duplicate_result subject duplicate original grounded = record {
  text =
      "Memory for '"
      <> subject
      <> "' already covers this — stored note: \""
      <> preview_of duplicate
      <> "\". "
      <> (if grounded
          then "The stored note is already grounded; your confirmation reinforced it — nothing further to do. If your note adds a genuinely new fact, rephrase it to state only the new part; if it corrects the stored note, rewrite with replaces=<fragment of the stored note>."
          else "Nothing written. If your note adds a genuinely new fact, rephrase it to state only the new part; if it corrects the stored note, rewrite with replaces=<fragment of the stored note>; if a query proved it, include source_query to ground the stored claim.");
  structured = canonicalized subject original (
      of_fields (
        ("status", str "success")
        ∷ ("subject", str subject)
        ∷ ("action", str "duplicate")
        ∷ ("id", null)
        ∷ ("retired", nat 0)
        ∷ ("duplicateOf", str (preview_of duplicate))
        ∷ ("duplicateGrounded", bool grounded)
        ∷ []));
  is_error = false;
}

unfoldable pub unchanged_result : String → String → ToolResult
unfolding canonicalized of_fields ◌<>◌
unchanged_result subject original = record {
  text = "Memory for '" <> subject <> "' already contains this note; nothing written.";
  structured = canonicalized subject original (
      of_fields (
        ("status", str "success")
        ∷ ("subject", str subject)
        ∷ ("action", str "unchanged")
        ∷ ("id", null)
        ∷ ("retired", nat 0)
        ∷ []));
  is_error = false;
}

-- `_conflict_warning` and `_verification_guidance`
abbrev conflict_warning : List String → String
unfolding join ◌<>◌
conflict_warning [] = ""
conflict_warning (c ∷ cs) =
    " Possible conflict with an existing note on this subject ("
    <> join "; " (c ∷ cs)
    <> "). If the new value is correct, rewrite with replaces=<fragment of the stale note> so the contradiction does not sit in the store."

abbrev verification_guidance : Option String → ℕ → String
unfolding has_evidence
verification_guidance source_query retired =
    if has_evidence source_query
    then ""
    else if not (nat_eq retired 0)
    then " The replacement is UNVERIFIED and just displaced prior knowledge: confirm it with a query against the data, then write it again with source_query so revalidation keeps it correct."
    else " Note stored unverified — when a query can prove this fact, include it as source_query so the note stays grounded."

abbrev with_conflicts : List String → Json.Fields → Json.Fields
unfolding set of_list
with_conflicts [] fs = fs
with_conflicts (c ∷ cs) fs = set "conflicts" (array (map str (c ∷ cs))) fs

unfoldable pub written_result :
    (Json → String) → Note → String → String → Json.Fields → ℕ → List String → ToolResult
unfolding with_conflicts conflict_warning verification_guidance canonicalized of_fields lookup
    has_evidence py_text show ◌<>◌
written_result container_text note original action row retired conflicts = record {
  text =
      "Memory "
      <> action
      <> ": '"
      <> note.subject
      <> "' ("
      <> py_text container_text (lookup "id" row)
      <> ")"
      <> (if nat_eq retired 0 then "" else ", " <> show retired <> " outdated line(s) retired")
      <> "."
      <> verification_guidance note.source_query retired
      <> conflict_warning conflicts;
  structured = with_conflicts conflicts (
      canonicalized note.subject original (
        of_fields (
          ("status", str "success")
          ∷ ("subject", str note.subject)
          ∷ ("action", str action)
          ∷ ("id", lookup "id" row)
          ∷ ("retired", nat retired)
          ∷ ("verified", bool (has_evidence note.source_query))
          ∷ [])));
  is_error = false;
}
