-- ===== src/Json.antt =====
-- JSON values as Python holds them (`Any` in the source): what `json.loads` returns, and what the
-- tools put into their payloads.
use asterixdb_mcp_server.Prelude.{
  ℕ, Bool, true, false, not, String, Option, none, some, List, [], ◌∷◌, nonempty, ◌==◌,
  if◌then◌else◌,
}

-- `negative n` is -(n + 1).
pub data ℤ : Type 0 where
  pos : ℕ → ℤ
  negsuc : ℕ → ℤ

-- The program computes with no float of a payload; it passes them on, and may ask if one is 0.
pub record Float : Type 0 where
  pub literal : String
  pub is_zero : Bool

mutual
  pub data Json : Type 0 where
    null : Json
    bool : Bool → Json
    int : ℤ → Json
    float : Float → Json
    str : String → Json
    arr : Items → Json
    obj : Fields → Json

  pub data Items : Type 0 where
    nil : Items
    cons : Json → Items → Items

  pub data Fields : Type 0 where
    end : Fields
    field : String → Json → Fields → Fields

abbrev pub nat : ℕ → Json
nat n = int (pos n)

-- `d.get(k)`; an absent key and a `null` are told apart.
unfoldable pub find : String → Fields → Option Json
find k end = none
find k (field j v fs) = if j == k then some v else find k fs

-- `d.get(k)` where an absent key reads as `None`.
abbrev or_null : Option Json → Json
or_null none = null
or_null (some v) = v

unfoldable pub lookup : String → Fields → Json
unfolding find
lookup k fs = or_null (find k fs)

-- `isinstance(v, dict)` and the dict
abbrev pub as_dict : Json → Option Fields
as_dict (obj fs) = some fs
as_dict _ = none

-- `v.get(k)` of a value that may be no dict: `None` there.
unfoldable pub member : String → Json → Json
unfolding lookup
member k (obj fs) = lookup k fs
member k _ = null

unfoldable pub to_list : Items → List Json
to_list nil = []
to_list (cons v vs) = v ∷ to_list vs

unfoldable pub of_list : List Json → Items
of_list [] = nil
of_list (v ∷ vs) = cons v (of_list vs)

abbrev pub array : List Json → Json
unfolding of_list
array vs = arr (of_list vs)

-- A dict display; its keys are different.
unfoldable pub of_fields : List (String × Json) → Fields
of_fields [] = end
of_fields ((k, v) ∷ fs) = field k v (of_fields fs)

abbrev pub dict : List (String × Json) → Json
unfolding of_fields
dict fs = obj (of_fields fs)

-- `d[k] = v`
unfoldable pub set : String → Json → Fields → Fields
set k v end = field k v end
set k v (field j w fs) = if j == k then field j v fs else field j w (set k v fs)

-- `bool(v)`
unfoldable pub truthy : Json → Bool
truthy null = false
truthy (bool b) = b
truthy (int (pos ℕ.zero)) = false
truthy (int (pos (ℕ.suc n))) = true
truthy (int (negsuc n)) = true
truthy (float x) = not x.is_zero
truthy (str s) = nonempty s
truthy (arr nil) = false
truthy (arr (cons v vs)) = true
truthy (obj end) = false
truthy (obj (field k v fs)) = true

-- `v if isinstance(v, str) else None`, the `_as_str` of several modules
unfoldable pub as_str : Json → Option String
as_str (str s) = some s
as_str _ = none

-- `v if isinstance(v, list) else []`
unfoldable pub as_list : Json → List Json
unfolding to_list
as_list (arr vs) = to_list vs
as_list _ = []

-- `v if isinstance(v, int) and not isinstance(v, bool) else None`
unfoldable pub as_int : Json → Option ℤ
as_int (int n) = some n
as_int _ = none

-- The dicts of a list: `[r for r in rows if isinstance(r, dict)]`.
unfoldable pub dicts : List Json → List Fields
dicts [] = []
dicts (obj fs ∷ vs) = fs ∷ dicts vs
dicts (null ∷ vs) = dicts vs
dicts (bool _ ∷ vs) = dicts vs
dicts (int _ ∷ vs) = dicts vs
dicts (float _ ∷ vs) = dicts vs
dicts (str _ ∷ vs) = dicts vs
dicts (arr _ ∷ vs) = dicts vs

-- The strings of a list: `[item for item in value if isinstance(item, str)]`.
unfoldable pub strings : List Json → List String
strings [] = []
strings (str s ∷ vs) = s ∷ strings vs
strings (null ∷ vs) = strings vs
strings (bool _ ∷ vs) = strings vs
strings (int _ ∷ vs) = strings vs
strings (float _ ∷ vs) = strings vs
strings (obj _ ∷ vs) = strings vs
strings (arr _ ∷ vs) = strings vs
