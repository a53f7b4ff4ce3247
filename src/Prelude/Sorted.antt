-- ===== src/Prelude/Sorted.antt =====
-- Python's `sorted` on texts, and a set of texts as its sorted list.
use Prim.Native.Nat.{Ordering}
use Prim.Native.String.{String, compare}
use mathlib.Core.Path.{◌≡◌, refl}
use text.Mathlib.TextEquality.{path_by_compare}
use mathlib.Core.List.{List, [], ◌∷◌}
use native.Mathlib.Omega.{arith}
use mathlib.Core.Logic.{◌⊎◌, inl, inr}
use asterixdb_mcp_server.Prelude.Lists.{Has}

-- `set.add`, on the set's sorted list
unfoldable pub insert_text : String → List String → List String
insert_text s [] = s ∷ []
insert_text s (t ∷ ts) = elim (compare s t) [
  | Ordering.lt ↦ s ∷ t ∷ ts
  | Ordering.eq ↦ t ∷ ts
  | Ordering.gt ↦ t ∷ insert_text s ts
]

-- `sorted(set(xs))`
unfoldable pub sorted_set : List String → List String
unfolding insert_text
sorted_set [] = []
sorted_set (s ∷ ss) = insert_text s (sorted_set ss)

insert_text-ne-nil : (s : String) (l : List String) → insert_text s l ≡ [] → ⊥
unfolding insert_text
insert_text-ne-nil s [] h = cc
insert_text-ne-nil s (t ∷ l) h = ground arith

pub nil_of_sorted_set : (l : List String) → sorted_set l ≡ [] → l ≡ []
unfolding sorted_set
nil_of_sorted_set [] h = refl
nil_of_sorted_set (s ∷ l) h = absurd (insert_text-ne-nil s (sorted_set l) h)

Has-insert_text : (x s : String) (l : List String) → Has x (insert_text s l) → (x ≡ s) ⊎ Has x l
unfolding insert_text
Has-insert_text x s [] m = m
Has-insert_text x s (t ∷ l) m = split (Has-insert_text x s l) (compare s t) m
  where
    split :
        (Has x (insert_text s l) → (x ≡ s) ⊎ Has x l)
        → (o : Ordering)
        → Has x (elim o [
          | Ordering.lt ↦ s ∷ t ∷ l
          | Ordering.eq ↦ t ∷ l
          | Ordering.gt ↦ t ∷ insert_text s l
        ])
        → (x ≡ s) ⊎ Has x (t ∷ l)
    split earlier Ordering.lt h = h
    split earlier Ordering.eq h = inr h
    split earlier Ordering.gt (inl here) = inr (inl here)
    split earlier Ordering.gt (inr there) = elim (earlier there) [
      | inl p ↦ inl p
      | inr q ↦ inr (inr q)
    ]

pub Has-sorted_set : (x : String) (l : List String) → Has x (sorted_set l) → Has x l
unfolding sorted_set
Has-sorted_set x [] m = m
Has-sorted_set x (s ∷ l) m = elim (Has-insert_text x s (sorted_set l) m) [
  | inl p ↦ inl p
  | inr q ↦ inr (Has-sorted_set x l q)
]

pub insert_text_keeps_new : (s : String) (l : List String) → Has s (insert_text s l)
unfolding insert_text
insert_text_keeps_new s [] = inl refl
insert_text_keeps_new s (t ∷ l) = go (compare s t) refl (insert_text_keeps_new s l)
  where
    go :
        (o : Ordering)
        → compare s t ≡ o
        → Has s (insert_text s l)
        → Has s (elim o [
          | Ordering.lt ↦ s ∷ t ∷ l
          | Ordering.eq ↦ t ∷ l
          | Ordering.gt ↦ t ∷ insert_text s l
        ])
    go Ordering.lt e h = inl refl
    go Ordering.eq e h = inl (path_by_compare s t e)
    go Ordering.gt e h = inr h

pub insert_text_keeps_old : (x s : String) (l : List String) → Has x l → Has x (insert_text s l)
unfolding insert_text
insert_text_keeps_old x s [] m = elim m [ ]
insert_text_keeps_old x s (t ∷ l) m = go (compare s t) (insert_text_keeps_old x s l) m
  where
    go :
        (o : Ordering)
        → (Has x l → Has x (insert_text s l))
        → Has x (t ∷ l)
        → Has x (elim o [
          | Ordering.lt ↦ s ∷ t ∷ l
          | Ordering.eq ↦ t ∷ l
          | Ordering.gt ↦ t ∷ insert_text s l
        ])
    go Ordering.lt earlier h = inr h
    go Ordering.eq earlier h = h
    go Ordering.gt earlier (inl e) = inl e
    go Ordering.gt earlier (inr h) = inr (earlier h)

pub sorted_set_keeps : (x : String) (l : List String) → Has x l → Has x (sorted_set l)
unfolding sorted_set
sorted_set_keeps x [] m = elim m [ ]
sorted_set_keeps x (s ∷ l) (inl e) = rw e (insert_text_keeps_new s (sorted_set l))
sorted_set_keeps x (s ∷ l) (inr m) =
    insert_text_keeps_old x s (sorted_set l) (sorted_set_keeps x l m)
