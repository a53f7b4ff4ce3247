-- ===== src/Examples/Notes.antt =====
-- Notes written to the memory store, on concrete data.
use asterixdb_mcp_server.Prelude.{
  ℕ, ◌≡◌, refl, Bool, true, strip, Has, ◌<>◌, String, Option, none, some, List, [], ◌∷◌,
  if◌then◌else◌,
}
use asterixdb_mcp_server.Json
use asterixdb_mcp_server.Json.{Json, ℤ, obj, str, field, end, find}
use asterixdb_mcp_server.MemoryWrite.{
  blocks_of, Note, is_walk_owned, core_text, unchanged, has_evidence, reconcile, current_after,
  current_after_all,
}
use asterixdb_mcp_server.MemoryWrite.Rows.{or_else}
use asterixdb_mcp_server.MemoryWrite.Core.{HasCore, current_after_all-HasCore}
use asterixdb_mcp_server.MemoryWrite.Repeat.Later.{reconcile-repeated_later}
use asterixdb_mcp_server.MemoryWrite.Evidence.{given, reconcile-evidence}
use asterixdb_mcp_server.MemoryWrite.Duplicates.{
  IsCovered, near_duplicate_block, near_duplicate_block-IsCovered,
}
use asterixdb_mcp_server.Http.{Env}
use asterixdb_mcp_server.CcClient.{Client}
use asterixdb_mcp_server.Examples.{the_settings, the_env}

abbrev no_text : Json → String
no_text v = ""

abbrev concept : Json.Fields
concept = field "type" (str "AsterixDB Dataset") (
    field "text" (str "Business: 12 fields")
      (field "overlay" (str "(unverified) stars is a float\n") end))

abbrev note : String → Option String → Option String → Note
note text source_query replaces = record {
  subject = "Yelp.Business";
  text = text;
  now = "2026-01-01";
  links = [];
  tags = "yelp" ∷ [];
  source_query = source_query;
  replaces = replaces;
}

abbrev some_notes : List (Option String × Note)
some_notes =
    (some "agent/1", note "stars is a float" (some "SELECT 1;") none)
    ∷ (none, note "stars is a double" none (some "float"))
    ∷ []

current_after_all-HasCore_example :
    HasCore no_text "Business: 12 fields" (current_after_all no_text (some concept) some_notes)
unfolding HasCore is_walk_owned core_text
current_after_all-HasCore_example =
    current_after_all-HasCore no_text some_notes (some concept) "Business: 12 fields" refl
      (refl, refl)

abbrev again : Note
again = record {
  subject = "Yelp.Business";
  text = "city is open";
  now = "2026-02-02";
  links = "Yelp.City" ∷ [];
  tags = [];
  source_query = none;
  replaces = none;
}

reconcile-repeated_later_example :
    reconcile no_text
      (current_after no_text (some "agent/1") (some concept) (note "city is open" none none))
      again
    ≡ unchanged
unfolding has_evidence strip
reconcile-repeated_later_example =
    reconcile-repeated_later no_text (note "city is open" none none) again refl
      (record { corrects_nothing = refl; bare = refl })
      (record { corrects_nothing = refl; bare = refl }) (some "agent/1") (some concept) refl

abbrev proved : Json.Fields
proved =
    field "type" (str "Note")
      (field "text" (str "city is a text") (field "source_query" (str "SELECT 2;") end))

reconcile-evidence_example :
    (row : Json.Fields) × (current_after no_text none
        (some proved)
        (note "city is a list" none none)
      ≡ some row)
    × (find "source_query" row
        ≡ or_else (if has_evidence none then given none else none) (find "source_query" proved))
unfolding is_walk_owned strip
reconcile-evidence_example =
    reconcile-evidence no_text none proved (note "city is a list" none none) refl refl

abbrev decimal : String → String
unfolding ◌<>◌
decimal s = s <> ".0"

near_duplicate_block-IsCovered_example :
    Has "Business rows have 12 fields" (blocks_of "city is open\n\nBusiness rows have 12 fields")
    × IsCovered decimal "the Business has 12 fields" "Business rows have 12 fields"
unfolding near_duplicate_block decimal
near_duplicate_block-IsCovered_example =
    near_duplicate_block-IsCovered decimal "the Business has 12 fields"
      "city is open\n\nBusiness rows have 12 fields" "Business rows have 12 fields" refl

abbrev no_int : Json → Option ℤ
no_int v = none

abbrev always : String → String → Bool
always s t = true

abbrev writing_client : Client
writing_client = record {
  settings = record the_settings { memory_write_enabled = true };
  principal = some "alice";
}

abbrev stored : Json.Fields
stored = field "status" (str "success") end

abbrev store_env : Env ℕ
store_env = record the_env { loads = λ body. some (obj stored) }
