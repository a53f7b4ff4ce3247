-- ===== src/MemoryWrite/Run.antt =====
-- `run_memory_write` of src/asterixdb_mcp/tools/memory_write.py, with `reinforce_notes` of
-- src/asterixdb_mcp/tools/memory_notes.py. The clock's two readings, as texts, and the id's last
-- segment are arguments; `to_int` is Python's `int`, `none` where it raises.
pub mod Settled
pub mod Reported
use asterixdb_mcp_server.Prelude.{
  ℕ, zero, suc, ◌+◌, Bool, true, false, not, ◌&&◌, ◌||◌, String, Option, none, some, List, [], ◌∷◌,
  ◌++◌, map, leb, nat_eq, nonempty, chars, take_text, within, strip, show, join, ◌<>◌, ◌==◌,
  if◌then◌else◌,
}
use asterixdb_mcp_server.Prelude.Dict.{Dict}
use asterixdb_mcp_server.Json
use asterixdb_mcp_server.Json.{
  Json, null, bool, str, arr, obj, nat, int, ℤ, pos, negsuc, end, find, lookup, set, truthy,
  to_list, dicts, array, of_fields, of_list,
}
use asterixdb_mcp_server.Envelope.{py_text}
use asterixdb_mcp_server.Errors.{Result, ok, err, crash}
use asterixdb_mcp_server.Config.{Settings}
use asterixdb_mcp_server.ContextId.{make_client_context_id}
use asterixdb_mcp_server.Http.{Env, Exec, pure, lift, ◌>>=◌, ◌>>◌, try_except}
use asterixdb_mcp_server.CcClient.{Client, execute_memory_read, execute_memory_write}
use asterixdb_mcp_server.Tools.{ToolResult, tool_error}
use asterixdb_mcp_server.Inventory.{dataverse_names, dataset_names, fetch_dataset_rows}
use asterixdb_mcp_server.Claims.{is_among}
use asterixdb_mcp_server.MemoryWrite.{
  Note, Outcome, reconcile, authored, has_evidence, existing_note_text, block_grounded,
}
use asterixdb_mcp_server.MemoryWrite.Duplicates.{near_duplicate_block, numeric_conflicts}
use asterixdb_mcp_server.MemoryWrite.Answers.{duplicate_result, unchanged_result, written_result}
use asterixdb_mcp_server.MemoryWrite.Arguments.{Call, check_arguments, stripped}

abbrev pub current_query : String
current_query =
    "SELECT VALUE m FROM AgentMemory.Memory m WHERE m.subject = $subject AND m.valid_to IS UNKNOWN AND (m.principal = $principal OR m.principal = \"*\");"

abbrev pub upsert : String
upsert = "UPSERT INTO AgentMemory.Memory ([$row]);"

abbrev pub insert : String
insert = "INSERT INTO AgentMemory.Memory ([$row]);"

-- `_canonicalize_subject`, from the rows of the catalog
unfoldable pub owners_of : List Json.Fields → String → List String → List String
unfolding is_among dataset_names
owners_of rows subject [] = []
owners_of rows subject (dv ∷ dvs) =
    let rest = owners_of rows subject dvs in
    if is_among subject (dataset_names rows dv) then dv ∷ rest else rest

abbrev sole_owner : String → List String → String
unfolding ◌<>◌
sole_owner subject (dv ∷ []) = dv <> "." <> subject
sole_owner subject _ = subject

unfoldable pub canonical : List Json.Fields → String → String
unfolding dataverse_names is_among owners_of sole_owner
canonical rows subject =
    if is_among subject (dataverse_names rows)
    then subject
    else sole_owner subject (owners_of rows subject (dataverse_names rows))

-- `[row for row in envelope.get("results", []) if isinstance(row, dict)]`
unfoldable pub given_dicts : Option Json → Result (List Json.Fields)
unfolding to_list dicts
given_dicts none = ok []
given_dicts (some (arr vs)) = ok (dicts (to_list vs))
given_dicts (some (str s)) = ok []
given_dicts (some (obj fs)) = ok []
given_dicts (some _) = crash

abbrev first_row : List Json.Fields → Option Json.Fields
first_row [] = none
first_row (row ∷ rows) = some row

abbrev pub row_or_empty : Option Json.Fields → Json.Fields
row_or_empty none = end
row_or_empty (some row) = row

abbrev int_suc : ℤ → ℤ
int_suc (pos n) = pos (suc n)
int_suc (negsuc zero) = pos 0
int_suc (negsuc (suc n)) = negsuc n

module _ {W : Type 0} (env : Env W) (client : Client) where
  unfoldable pub canonicalize_subject : String → String → Exec W String
  unfolding fetch_dataset_rows canonical try_except
  canonicalize_subject ccid subject =
      if within "." subject || within "/" subject
      then pure subject
      else try_except (fetch_dataset_rows env client ccid) (λ rows. pure (canonical rows subject))
          (λ e. pure subject)

  -- A write of one row.
  unfoldable pub write_row : String → String → Json.Fields → Exec W Json.Fields
  unfolding execute_memory_write
  write_row statement ccid row =
      execute_memory_write env client statement ccid (("row", obj row) ∷ [])

  module _ (to_int : Json → Option ℤ) where
    -- `int(row.get("recall_count") or 0) + 1`
    abbrev next_count : Json.Fields → Result ℤ
    unfolding lookup truthy
    next_count row =
        if truthy (lookup "recall_count" row)
        then elim (to_int (lookup "recall_count" row)) [ none ↦ crash | some n ↦ ok (int_suc n) ]
        else ok (pos 1)

    -- `reinforce_notes`: the first write that fails ends it.
    unfoldable pub reinforce_notes : String → String → List Json.Fields → Exec W Json.Fields
    unfolding next_count set write_row try_except
    reinforce_notes ccid now [] = pure end
    reinforce_notes ccid now (row ∷ rows) = do
      count ← lift (next_count row)
      try_except
          (write_row upsert ccid
            (set "last_recalled_at" (str now) (set "recall_count" (int count) row)))
          (λ envelope. reinforce_notes ccid now rows) (λ e. pure end)

  -- `{**existing, "valid_to": now}`, if there is a row
  unfoldable pub supersede : String → String → Option Json.Fields → Exec W Json.Fields
  unfolding write_row set
  supersede ccid now none = pure end
  supersede ccid now (some existing) = write_row upsert ccid (set "valid_to" (str now) existing)

  -- The two writes, and the answer.
  unfoldable pub record_note :
      String
      → String
      → Option Json.Fields
      → Option String
      → Note
      → List String
      → Outcome
      → Exec W ToolResult
  unfolding supersede write_row authored written_result unchanged_result
  record_note ccid original existing author note conflicts (action, row, retired) =
      if action == "unchanged" then pure (unchanged_result note.subject original) else do
        supersede ccid note.now existing
        write_row insert ccid (authored author row)
        pure (
            written_result env.container_text note original action (authored author row) retired
              conflicts)

module _ (container_text : Json → String) (float_text : String → String) where
  -- The stored block that the note repeats and that is to be left alone.
  unfoldable pub duplicate_of : Option Json.Fields → Note → Option String
  unfolding existing_note_text near_duplicate_block block_grounded
  duplicate_of existing note = elim note.replaces [
    | some replaces ↦ none
    | none ↦
        if within note.text (existing_note_text container_text existing)
        then none
        else elim (near_duplicate_block float_text note.text
            (existing_note_text container_text existing)) [
              | none ↦ none
              | some block ↦ elim note.source_query [
                | none ↦ some block
                | some source_query ↦
                    if block_grounded container_text block (row_or_empty existing)
                    then some block
                    else none
              ]
            ]
  ]

  unfoldable pub conflicts_of : (String → String → Bool) → Option Json.Fields → Note → List String
  unfolding existing_note_text numeric_conflicts
  conflicts_of float_leb existing note = elim note.replaces [
    | some replaces ↦ []
    | none ↦
        numeric_conflicts float_text float_leb note.text
          (existing_note_text container_text existing)
  ]

module _ {W : Type 0} (env : Env W) (client : Client) (to_int : Json → Option ℤ)
    (float_text : String → String) (float_leb : String → String → Bool) where
  -- The `try` block from the stored row on.
  unfoldable pub write_note :
      String → String → String → Option String → Option Json.Fields → Note → Exec W ToolResult
  unfolding duplicate_of conflicts_of reinforce_notes duplicate_result block_grounded record_note
      reconcile
  write_note ccid reinforced_at original author existing note =
      elim (duplicate_of env.container_text float_text existing note) [
        | some block ↦ do
          reinforce_notes env client to_int ccid reinforced_at (row_or_empty existing ∷ [])
          pure (
              duplicate_result note.subject block original
                (block_grounded env.container_text block (row_or_empty existing)))
        | none ↦
            record_note env client ccid original existing author note
              (conflicts_of env.container_text float_text float_leb existing note)
              (reconcile env.container_text existing note)
      ]

  unfoldable pub note_of : Call → String → String → Note
  unfolding strip stripped
  note_of call subject now = record {
    subject = subject;
    text = strip call.text;
    now = now;
    links = call.links;
    tags = call.tags;
    source_query = call.source_query;
    replaces = stripped call.replaces;
  }

  -- The `try` block.
  unfoldable pub write_current : String → String → String → Call → String → Exec W ToolResult
  unfolding write_note given_dicts find execute_memory_read note_of
  write_current ccid now reinforced_at call subject = do
    envelope ← execute_memory_read env client current_query ccid (("subject", str subject) ∷ [])
    rows ← lift (given_dicts (find "results" envelope))
    write_note ccid reinforced_at call.subject call.author (first_row rows)
        (note_of call subject now)

  -- `run_memory_write`
  unfoldable pub run_memory_write : Settings → String → String → String → Call → Exec W ToolResult
  unfolding check_arguments canonicalize_subject write_current make_client_context_id tool_error
  run_memory_write settings new_uuid now reinforced_at call = elim (check_arguments settings call) [
    | some e ↦ pure (tool_error e)
    | none ↦ do
      subject ←
          canonicalize_subject env client
            (make_client_context_id settings.agent_session_id (some "memory_write") new_uuid)
            call.subject
      try_except
          (write_current
            (make_client_context_id settings.agent_session_id (some "memory_write") new_uuid) now
            reinforced_at call subject)
          pure (λ e. pure (tool_error e))
  ]
