-- ===== src/MemoryWrite/Rows.antt =====
-- The fields of the rows that src/asterixdb_mcp/tools/memory_write.py builds.
use asterixdb_mcp_server.Prelude.{
  ◌≡◌, refl, ◌∙◌, false, String, Option, none, some, List, [], ◌∷◌, ◌++◌, ◌==◌, eq_iff, arith,
  nonempty, Bool-cases, inl, inr,
}
use asterixdb_mcp_server.Prelude.Dict
use asterixdb_mcp_server.Prelude.Dict.{Dict, Distinct}
use asterixdb_mcp_server.Json
use asterixdb_mcp_server.Json.{Json, str, find, lookup, set}
use asterixdb_mcp_server.MemoryStore.Owner.{find-set}
use asterixdb_mcp_server.MemoryWrite.{merge, Note, list_field, query_field, optional, authored}

-- `first if first is not None else second`
abbrev pub or_else : {A : Type 0} → Option A → Option A → Option A
or_else none second = second
or_else (some a) second = some a

or_else-none : {A : Type 0} (o : Option A) → or_else o none ≡ o
or_else-none none = refl
or_else-none (some a) = refl

-- A field of the merged dict is the entry's, if there is one.
pub find-merge :
    (j : String) (entries : Dict Json) (fs : Json.Fields)
    → Distinct entries
    → find j (merge entries fs) ≡ or_else (Dict.get j entries) (find j fs)
unfolding merge Dict.get
find-merge j [] fs u = refl
find-merge j ((key, value) ∷ entries) fs u =
    ground
      (arith, find-merge j entries (set key value fs) u.1, find-set key j value fs, eq_iff key j)

get-append :
    (j : String) (d e : Dict Json) → Dict.get j (d ++ e) ≡ or_else (Dict.get j d) (Dict.get j e)
unfolding Dict.get
get-append j [] e = refl
get-append j ((k, v) ∷ d) e = ground (arith, get-append j d e)

get-list_field :
    (key j : String) (ss : List String) → (key == j) ≡ false → Dict.get j (list_field key ss) ≡ none
unfolding Dict.get list_field
get-list_field key j [] h = refl
get-list_field key j (s ∷ ss) h = rw h refl

get-query_field :
    (j : String) (q : Option String)
    → ("source_query" == j) ≡ false
    → Dict.get j (query_field q) ≡ none
unfolding Dict.get query_field
get-query_field j none h = refl
get-query_field j (some q) h = ground arith

-- Only three fields of a row are optional.
pub get-optional :
    (j : String) (note : Note)
    → ("links" == j) ≡ false
    → ("tags" == j) ≡ false
    → ("source_query" == j) ≡ false
    → Dict.get j (optional note) ≡ none
unfolding optional
get-optional j note l t q =
    get-append j (list_field "links" note.links) _
    ∙ rw (get-list_field "links" j note.links l) (
        get-append j (list_field "tags" note.tags) (query_field note.source_query)
        ∙ rw (get-list_field "tags" j note.tags t) (get-query_field j note.source_query q))

pub get-optional-source_query :
    (note : Note)
    → Dict.get "source_query" (optional note)
      ≡ Dict.get "source_query" (query_field note.source_query)
unfolding optional
get-optional-source_query note =
    get-append "source_query" (list_field "links" note.links) _
    ∙ rw (get-list_field "links" "source_query" note.links refl) (
        get-append "source_query" (list_field "tags" note.tags) (query_field note.source_query)
        ∙ rw (get-list_field "tags" "source_query" note.tags refl) refl)

list_field-Distinct :
    (key : String) (ss : List String) (d : Dict Json)
    → Dict.get key d ≡ none
    → Distinct d
    → Distinct (list_field key ss ++ d)
unfolding list_field Dict.get
list_field-Distinct key [] d h u = u
list_field-Distinct key (s ∷ ss) d h u = (h, u)

query_field-Distinct : (q : Option String) → Distinct (query_field q)
unfolding query_field Dict.get
query_field-Distinct none = tt
query_field-Distinct (some q) = elim (Bool-cases (nonempty q)) [
  | inl e ↦ rw (e, query_field) (refl, tt)
  | inr e ↦ rw (e, query_field) tt
]

pub optional-Distinct : (note : Note) → Distinct (optional note)
unfolding optional
optional-Distinct note =
    list_field-Distinct "links" note.links
      (list_field "tags" note.tags ++ query_field note.source_query)
      (get-append "links" (list_field "tags" note.tags) (query_field note.source_query)
        ∙ rw (get-list_field "tags" "links" note.tags refl)
            (get-query_field "links" note.source_query refl))
      (list_field-Distinct "tags" note.tags (query_field note.source_query)
        (get-query_field "tags" note.source_query refl) (query_field-Distinct note.source_query))

pub find-merge-optional :
    (j : String) (note : Note) (fs : Json.Fields)
    → ("links" == j) ≡ false
    → ("tags" == j) ≡ false
    → ("source_query" == j) ≡ false
    → find j (merge (optional note) fs) ≡ find j fs
find-merge-optional j note fs l t q =
    find-merge j (optional note) fs (optional-Distinct note) ∙ rw (get-optional j note l t q) refl

pub find-authored :
    (j : String) (author : Option String) (row : Json.Fields)
    → ("author" == j) ≡ false
    → find j (authored author row) ≡ find j row
unfolding authored
find-authored j none row h = refl
find-authored j (some a) row h = ground (arith, find-set "author" j (str a) row)
