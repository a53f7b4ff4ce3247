-- ===== src/Egress/Clamp.antt =====
-- What `clamp_long_values` leaves of the texts in a value.
use asterixdb_mcp_server.Prelude.{
  ℕ, zero, suc, refl, ap, Never, ◌≤◌, ◌<◌, ◌≡◌, inl, inr, String, List, [], ◌∷◌, ◌++◌, arith, leb,
  chars, take_text, ◌<>◌, Bool-cases, leb→le,
}
use asterixdb_mcp_server.Json.{
  Json, null, bool, int, float, str, arr, obj, Items, nil, cons, Fields, end, field,
}
use asterixdb_mcp_server.Egress.{marker, clamp_text, clamp_long_values, clamp_items, clamp_fields}

-- The texts in a value; keys are none of them.
unfoldable mutual
  pub texts : Json → List String
  texts (str s) = s ∷ []
  texts (obj fs) = field_texts fs
  texts (arr vs) = item_texts vs
  texts null = []
  texts (bool b) = []
  texts (int i) = []
  texts (float x) = []

  item_texts : Items → List String
  item_texts nil = []
  item_texts (cons v vs) = texts v ++ item_texts vs

  field_texts : Fields → List String
  field_texts end = []
  field_texts (field k v fs) = texts v ++ field_texts fs

-- What a text becomes: itself within the bound; beyond it, its first `n` characters and a marker of
-- the length that it had.
pub data IsClamped (n : ℕ) (s t : String) : Type 0 where
  short : chars s ≤ n → t ≡ s → IsClamped n s t
  cut :
      (front rest : String)
      → n < chars s
      → s ≡ front <> rest
      → chars front ≡ n
      → t ≡ front <> marker (chars s)
      → IsClamped n s t

-- The two lists have as many texts, and each of the second is what the first's becomes.
unfoldable pub AreClamped : ℕ → List String → List String → Type 0
AreClamped n [] [] = Unit {0}
AreClamped n [] (t ∷ ts) = Never {0}
AreClamped n (s ∷ ss) [] = Never {0}
AreClamped n (s ∷ ss) (t ∷ ts) = IsClamped n s t × AreClamped n ss ts

AreClamped-append :
    (n : ℕ) (ss ts us vs : List String)
    → AreClamped n ss ts
    → AreClamped n us vs
    → AreClamped n (ss ++ us) (ts ++ vs)
unfolding AreClamped
AreClamped-append n [] [] us vs h k = k
AreClamped-append n [] (t ∷ ts) us vs h k = elim h [ ]
AreClamped-append n (s ∷ ss) [] us vs h k = elim h [ ]
AreClamped-append n (s ∷ ss) (t ∷ ts) us vs h k = (h.0, AreClamped-append n ss ts us vs h.1 k)

-- What `s[:n]` leaves out.
past : ℕ → String → String
past zero s = s
past (suc n) String.[] = String.[]
past (suc n) (String.◌∷◌ c s) = past n s

take_text-past : (n : ℕ) (s : String) → s ≡ take_text n s <> past n s
unfolding past ◌<>◌
take_text-past zero s = refl
take_text-past (suc n) String.[] = refl
take_text-past (suc n) (String.◌∷◌ c s) = ap (String.◌∷◌ c) (take_text-past n s)

chars-take_text : (n : ℕ) (s : String) → n < chars s → chars (take_text n s) ≡ n
chars-take_text zero s h = refl
chars-take_text (suc n) String.[] h = omega arith
chars-take_text (suc n) (String.◌∷◌ c s) h = omega (arith, chars-take_text n s (omega arith))

clamp_text-IsClamped : (n : ℕ) (s : String) → IsClamped n s (clamp_text n s)
unfolding clamp_text
clamp_text-IsClamped n s = elim (Bool-cases (leb (chars s) n)) [
  | inl e ↦ rw (e, clamp_text) (short (leb→le (chars s) n e) refl)
  | inr e ↦
      let longer : n < chars s = ground arith in
      rw (e, clamp_text)
        (cut (take_text n s) (past n s) longer (take_text-past n s) (chars-take_text n s longer)
          refl)
]

mutual
  unfolding clamp_long_values texts AreClamped

  value_clamped : (n : ℕ) (v : Json) → AreClamped n (texts v) (texts (clamp_long_values n v))
  value_clamped n (str s) = (clamp_text-IsClamped n s, tt)
  value_clamped n (obj fs) = fields_clamped n fs
  value_clamped n (arr vs) = items_clamped n vs
  value_clamped n null = tt
  value_clamped n (bool b) = tt
  value_clamped n (int i) = tt
  value_clamped n (float x) = tt

  items_clamped :
      (n : ℕ) (vs : Items) → AreClamped n (item_texts vs) (item_texts (clamp_items n vs))
  items_clamped n nil = tt
  items_clamped n (cons v vs) =
      AreClamped-append n (texts v) (texts (clamp_long_values n v)) _ _ (value_clamped n v)
        (items_clamped n vs)

  fields_clamped :
      (n : ℕ) (fs : Fields) → AreClamped n (field_texts fs) (field_texts (clamp_fields n fs))
  fields_clamped n end = tt
  fields_clamped n (field k v fs) =
      AreClamped-append n (texts v) (texts (clamp_long_values n v)) _ _ (value_clamped n v)
        (fields_clamped n fs)

-- However a value nests lists and dicts, the texts in what is delivered are those of the value, in
-- their order: each one within the bound as it was, each longer one as its first characters up to the
-- bound and the marker of the length that it had.
pub clamp_long_values-IsClamped :
    (n : ℕ) (v : Json) → AreClamped n (texts v) (texts (clamp_long_values n v))
clamp_long_values-IsClamped n v = value_clamped n v
