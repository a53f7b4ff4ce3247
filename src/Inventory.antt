-- ===== src/Inventory.antt =====
-- The catalog's dataverses and datasets: src/asterixdb_mcp/inventory.py.
use asterixdb_mcp_server.Prelude.{
  Bool, false, String, Option, none, some, List, [], ◌∷◌, ◌++◌, ◌==◌, if◌then◌else◌,
}
use asterixdb_mcp_server.Json.{Fields, lookup, as_str}
use asterixdb_mcp_server.Http.{Env, Exec, lift, ◌>>=◌}
use asterixdb_mcp_server.QueryForm.{query}
use asterixdb_mcp_server.CcClient.{Client, execute}
use asterixdb_mcp_server.PlanGuard.{result_dicts}
use asterixdb_mcp_server.Claims.{is_among}

abbrev pub inventory_query : String
inventory_query =
    "SELECT VALUE d FROM Metadata.`Dataset` d ORDER BY d.DataverseName, d.DatasetName;"

-- `dataverse_names`, from the names seen so far
unfoldable pub names_from : List String → List Fields → List String
unfolding is_among lookup as_str
names_from seen [] = seen
names_from seen (row ∷ rows) = names_from (add_name (as_str (lookup "DataverseName" row)) seen) rows
  where
    add_name : Option String → List String → List String
    add_name none names = names
    add_name (some name) names = if is_among name names then names else names ++ (name ∷ [])

unfoldable pub dataverse_names : List Fields → List String
unfolding names_from
dataverse_names rows = names_from [] rows

abbrev pub is_text : Option String → String → Bool
is_text none s = false
is_text (some t) s = t == s

abbrev cons_some : Option String → List String → List String
cons_some none names = names
cons_some (some name) names = name ∷ names

-- `dataset_names`
unfoldable pub dataset_names : List Fields → String → List String
unfolding lookup as_str
dataset_names [] dataverse = []
dataset_names (row ∷ rows) dataverse =
    let rest = dataset_names rows dataverse in
    if is_text (as_str (lookup "DataverseName" row)) dataverse
    then cons_some (as_str (lookup "DatasetName" row)) rest
    else rest

-- `fetch_dataset_rows`
unfoldable pub fetch_dataset_rows : {W : Type 0} → Env W → Client → String → Exec W (List Fields)
unfolding execute result_dicts lookup
fetch_dataset_rows env client ccid = do
  envelope ← execute env client (query inventory_query ccid)
  lift (result_dicts (lookup "results" envelope))
