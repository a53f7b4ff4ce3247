-- ===== src/Decay.antt =====
-- The decay pass over the notes of a tenant: src/asterixdb_mcp/decay.py. `fromisoformat` is the
-- parser of `datetime`, `none` where it raises; `to_int` is Python's `int`. The clock's one reading
-- comes as a time and as its text.
pub mod Archived
use asterixdb_mcp_server.Prelude.{
  ℕ, zero, suc, ◌+◌, ◌*◌, ◌≡◌, refl, Bool, true, false, not, ◌&&◌, ◌||◌, String, Option, none, some,
  List, [], ◌∷◌, length, ltb, show, ◌<>◌, ◌==◌, if◌then◌else◌,
}
use asterixdb_mcp_server.Json
use asterixdb_mcp_server.Json.{Json, str, ℤ, pos, negsuc, find, lookup, set, truthy}
use asterixdb_mcp_server.Envelope.{py_text}
use asterixdb_mcp_server.Errors.{Result, ok, err, crash}
use asterixdb_mcp_server.Config.{Settings}
use asterixdb_mcp_server.ContextId.{make_client_context_id}
use asterixdb_mcp_server.Http.{Env, Exec, pure, lift, ◌>>=◌, ◌>>◌}
use asterixdb_mcp_server.CcClient.{Client, execute_memory_read}
use asterixdb_mcp_server.MemoryWrite.Run.{upsert, given_dicts, write_row}

abbrev pub decay_after_days : ℕ
decay_after_days = 30

abbrev pub candidates_query : String
candidates_query =
    "SELECT VALUE m FROM AgentMemory.Memory m WHERE m.valid_to IS UNKNOWN AND m.`type` = \"Note\" AND (m.principal = $principal OR m.principal = \"*\") LIMIT 10000;"

-- A `datetime`: the microseconds its fields stand for, and how far its zone is ahead of UTC.
pub record DateTime : Type 0 where
  pub local : ℕ
  pub utcoffset : Option ℤ

abbrev pub day : ℕ
day = 86400000000

-- `(now - then) > timedelta(days=DECAY_AFTER_DAYS)`; a time without a zone is one of UTC, as `now`.
unfoldable pub is_older : ℕ → DateTime → Bool
is_older now stamp = elim stamp.utcoffset [
  | none ↦ ltb (stamp.local + decay_after_days * day) now
  | some (pos ahead) ↦ ltb (stamp.local + decay_after_days * day) (now + ahead)
  | some (negsuc behind) ↦ ltb (stamp.local + (suc behind) + decay_after_days * day) now
]

abbrev is_positive : ℤ → Bool
is_positive (pos zero) = false
is_positive (pos (suc n)) = true
is_positive (negsuc n) = false

abbrev is_string : Json → String → Bool
is_string (str s) t = s == t
is_string _ t = false

abbrev pub Clock : Type 0
Clock = ℕ × String

-- `int(row.get("recall_count") or 0) > 0`
unfoldable pub was_recalled : (Json → Option ℤ) → Json.Fields → Result Bool
unfolding lookup truthy
was_recalled to_int row =
    if truthy (lookup "recall_count" row)
    then elim (to_int (lookup "recall_count" row)) [ none ↦ crash | some n ↦ ok (is_positive n) ]
    else ok false

module _ (container_text : Json → String) (to_int : Json → Option ℤ)
    (fromisoformat : String → Option DateTime) where
  abbrev older_than : ℕ → Option DateTime → Bool
  unfolding is_older
  older_than now none = false
  older_than now (some stamp) = is_older now stamp

  abbrev last_stamp : Json.Fields → Json
  unfolding lookup truthy
  last_stamp row =
      if truthy (lookup "last_recalled_at" row)
      then lookup "last_recalled_at" row
      else lookup "valid_from" row

  -- `is_decay_candidate`
  unfoldable pub is_decay_candidate : Json.Fields → ℕ → Result Bool
  unfolding was_recalled last_stamp older_than lookup truthy py_text
  is_decay_candidate row now =
      if not (is_string (lookup "type" row) "Note") || truthy (lookup "source_query" row)
      then ok false
      else elim (was_recalled to_int row) [
        | err e ↦ err e
        | crash ↦ crash
        | ok true ↦ ok false
        | ok false ↦ ok (older_than now (fromisoformat (py_text container_text (last_stamp row))))
      ]

-- The archived row.
unfoldable pub stamped : String → Json.Fields → Json.Fields
unfolding set show ◌<>◌
stamped now row =
    set "archived_reason"
      (str ("unverified and never recalled within " <> show decay_after_days <> " days"))
      (set "valid_to" (str now) row)

-- The answer's counters.
pub record Summary : Type 0 where
  pub candidates : ℕ
  pub archived : ℕ

module _ {W : Type 0} (env : Env W) (client : Client) (to_int : Json → Option ℤ)
    (fromisoformat : String → Option DateTime) where
  -- The loop's body for one row: how many rows it archives.
  unfoldable pub archive_one : String → Clock → Json.Fields → Bool → Exec W ℕ
  unfolding write_row stamped
  archive_one ccid (now, text) row false = pure 0
  archive_one ccid (now, text) row true = do
    write_row env client upsert ccid (stamped text row)
    pure 1

  -- The loop
  unfoldable pub archive_all : String → Clock → List Json.Fields → Exec W ℕ
  unfolding is_decay_candidate archive_one
  archive_all ccid clock [] = pure 0
  archive_all ccid clock (row ∷ rows) = do
    due ← lift (is_decay_candidate env.container_text to_int fromisoformat row clock.0)
    first ← archive_one ccid clock row due
    rest ← archive_all ccid clock rows
    pure (first + rest)

  -- `run_decay`
  unfoldable pub run_decay : Settings → String → Clock → Exec W Summary
  unfolding execute_memory_read given_dicts archive_all make_client_context_id find
  run_decay settings new_uuid clock = do
    envelope ←
        execute_memory_read env client candidates_query
          (make_client_context_id settings.agent_session_id (some "decay") new_uuid) []
    rows ← lift (given_dicts (find "results" envelope))
    archived ←
        archive_all (make_client_context_id settings.agent_session_id (some "decay") new_uuid) clock
          rows
    pure (record { candidates = length rows; archived = archived })
