-- ===== src/Tools/Fetch/Complete.antt =====
-- A page and its flag `moreAvailable` (src/asterixdb_mcp/tools/async_query.py).
use asterixdb_mcp_server.Prelude.{
  ℕ, zero, suc, ◌≤◌, ◌≡◌, refl, ◌∙◌, false, Option, List, [], ◌∷◌, map, arith, length, take, drop,
  length-drop,
}
use asterixdb_mcp_server.Json.{Json, Fields}
use asterixdb_mcp_server.Config.{Settings}
use asterixdb_mcp_server.Egress.{clamp_long_values, truncate_for_llm, bound_rows_for_llm}
use asterixdb_mcp_server.Egress.Window.{truncate_for_llm-IsWindow}
use asterixdb_mcp_server.Tools.Fetch.{caps, page_of}

take_all : (n : ℕ) (xs : List Json) → length xs ≤ n → take n xs ≡ xs
take_all zero [] h = refl
take_all zero (x ∷ xs) h = ground (arith, h)
take_all (suc n) [] h = refl
take_all (suc n) (x ∷ xs) h = rw (take_all n xs (omega (arith, h)))

length-map : (f : Json → Json) (xs : List Json) → length (map f xs) ≡ length xs
length-map f [] = refl
length-map f (x ∷ xs) = omega (arith, length-map f xs)

module _ (row_bytes : Json → ℕ) where
  delivered_all :
      (rows : List Json) (max_rows max_bytes : ℕ)
      → (truncate_for_llm row_bytes rows max_rows max_bytes).1.truncated ≡ false
      → (truncate_for_llm row_bytes rows max_rows max_bytes).0 ≡ rows
  delivered_all rows max_rows max_bytes h =
      let (delivered, meta) = truncate_for_llm row_bytes rows max_rows max_bytes in
      let (window, total, shown, bytes, flag) =
        truncate_for_llm-IsWindow row_bytes rows max_rows max_bytes in
      window.leading ∙ take_all (length delivered) rows (ground (arith, flag, h))

  -- If a page says that there is no more, its rows are all rows of the result from the offset on,
  -- each with nothing but its overlong texts cut.
  pub page_of_complete :
      (settings : Settings) (advisory : Option Fields) (offset limit : ℕ) (rows : List Json)
      → (page_of row_bytes settings advisory offset limit rows).more_available ≡ false
      → (page_of row_bytes settings advisory offset limit rows).window
        ≡ map (clamp_long_values settings.max_field_chars) (drop offset rows)
  unfolding page_of bound_rows_for_llm
  page_of_complete settings advisory offset limit rows h =
      let shown = take limit (drop offset rows) in
      let clamped = map (clamp_long_values settings.max_field_chars) shown in
      let (max_rows, max_bytes) = caps settings advisory in
      let all : shown ≡ drop offset rows =
        take_all limit (drop offset rows) (ground (arith, length-drop offset rows)) in
      delivered_all clamped max_rows max_bytes (ground arith) ∙ rw all
