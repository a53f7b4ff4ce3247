-- ===== src/MemoryStore/Owner.antt =====
-- The owner of a written row: `tag` of src/asterixdb_mcp/memory_store.py, and `_owned_by` of
-- src/asterixdb_mcp/cc_client.py.
use asterixdb_mcp_server.Prelude.{◌≡◌, false, String, some, arith, ◌==◌, eq_iff, if◌then◌else◌}
use asterixdb_mcp_server.Prelude.Dict
use asterixdb_mcp_server.Prelude.Dict.{Dict, get-put}
use asterixdb_mcp_server.Json.{Json, str, obj, Fields, end, field, find, lookup, set}
use asterixdb_mcp_server.MemoryStore.{principal_field, tag, owned_by}

pub find-set :
    (k j : String) (v : Json) (fs : Fields)
    → find j (set k v fs) ≡ (if k == j then some v else find j fs)
unfolding find set
find-set k j v end = ground arith
find-set k j v (field i w fs) =
    ground (arith, find-set k j v fs, eq_iff i k, eq_iff i j, eq_iff k j)

-- What the parameters of a write say of its row.
pub record IsOwned (row : Fields) (principal : String) (before after : Dict Json) : Type 0 where
  pub row_field : Dict.get "row" after ≡ some (obj (tag row principal))
  pub owner : lookup principal_field (tag row principal) ≡ str principal
  pub content :
      (key : String)
      → (principal_field == key) ≡ false
      → lookup key (tag row principal) ≡ lookup key row
  pub others :
      (name : String) → ("row" == name) ≡ false → Dict.get name after ≡ Dict.get name before

-- A row that is written is its writer's: whatever owner the row claims, the bound principal replaces
-- it, and nothing else of the row or of the other parameters changes.
pub owned_by-IsOwned :
    (parameters : Dict Json) (principal : String) (row : Fields)
    → Dict.get "row" parameters ≡ some (obj row)
    → IsOwned row principal parameters (owned_by parameters principal)
unfolding owned_by tag lookup
owned_by-IsOwned parameters principal row h = record {
  row_field = rw (h, owned_by) (get-put "row" "row" (obj (tag row principal)) parameters);
  owner = ground (arith, find-set principal_field principal_field (str principal) row);
  content = λ key ne. ground (arith, find-set principal_field key (str principal) row);
  others = λ name ne.
      rw (h, owned_by) (ground (arith, get-put "row" name (obj (tag row principal)) parameters));
}
