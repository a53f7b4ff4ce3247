-- ===== src/Recommend/Led.antt =====
-- Which fields an index leads already: `_covered_first_keys` of
-- src/asterixdb_mcp/tools/recommend_indexes.py, against the list of the indexes.
use asterixdb_mcp_server.Prelude.{
  ◌≡◌, refl, Bool, false, ◌&&◌, ◌||◌, String, Option, none, some, List, [], ◌∷◌, ◌==◌, eq_iff,
  arith,
}
use asterixdb_mcp_server.PlanParser.{contains}
use asterixdb_mcp_server.Recommend.{
  SecondaryIndex, Covered, same_place, covered_at, cover, cover_index, covered_from,
  covered_first_keys,
}

unfoldable pub is_text : Option String → String → Bool
is_text none s = false
is_text (some t) s = t == s

unfoldable pub is_first : String → List String → Bool
is_first f [] = false
is_first f (key ∷ keys) = f == key

-- Whether the index is one of the dataset and has the field as its first key.
unfoldable pub leads : String → String → String → SecondaryIndex → Bool
unfolding is_text is_first
leads dv ds f index =
    is_text index.dataverse dv && is_text index.dataset ds && is_first f index.key_fields

unfoldable pub is_led : String → String → String → List SecondaryIndex → Bool
unfolding leads
is_led dv ds f [] = false
is_led dv ds f (index ∷ indexes) = leads dv ds f index || is_led dv ds f indexes

module _ (x y f : String) where
  contains-cover :
      (a b k : String) (covered : Covered)
      → contains f (covered_at (x, y) (cover (a, b) k covered))
        ≡ (((a == x) && (b == y) && (f == k)) || contains f (covered_at (x, y) covered))
  unfolding contains covered_at cover same_place
  contains-cover a b k [] = ground arith
  contains-cover a b k (((c, d), fields) ∷ rest) = ground (
    arith,
    eq_iff c a,
    eq_iff d b,
    eq_iff a x,
    eq_iff b y,
    eq_iff c x,
    eq_iff d y,
    contains-cover a b k rest,
  )

  contains-cover_index :
      (dv ds : Option String) (keys : List String) (covered : Covered)
      → contains f (covered_at (x, y) (cover_index dv ds keys covered)) ≡ (
          (is_text dv x && is_text ds y && is_first f keys)
          || contains f (covered_at (x, y) covered))
  unfolding cover_index is_text is_first
  contains-cover_index none ds keys covered = refl
  contains-cover_index (some a) none keys covered = ground arith
  contains-cover_index (some a) (some b) [] covered = ground arith
  contains-cover_index (some a) (some b) (k ∷ keys) covered = contains-cover a b k covered

  contains-covered_from :
      (covered : Covered) (indexes : List SecondaryIndex)
      → contains f (covered_at (x, y) (covered_from covered indexes))
        ≡ (is_led x y f indexes || contains f (covered_at (x, y) covered))
  unfolding covered_from is_led leads
  contains-covered_from covered [] = refl
  contains-covered_from covered (index ∷ indexes) = ground (
    arith,
    contains-covered_from (cover_index index.dataverse index.dataset index.key_fields covered)
        indexes,
    contains-cover_index index.dataverse index.dataset index.key_fields covered,
  )

  -- The map of the leading fields holds a field exactly if an index of the dataset has it as its
  -- first key.
  pub covered_first_keys-is_led :
      (indexes : List SecondaryIndex)
      → contains f (covered_at (x, y) (covered_first_keys indexes)) ≡ is_led x y f indexes
  unfolding covered_first_keys covered_at contains
  covered_first_keys-is_led indexes = ground (arith, contains-covered_from [] indexes)
