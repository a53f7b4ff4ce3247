-- ===== src/Prelude/Lists.antt =====
-- Lists measured by the native numbers, membership by recursion, and the loops of list
-- comprehensions.
use Prim.Native.Nat.{ℕ, zero, suc, ◌+◌, ◌-◌, ◌≤◌, min}
use mathlib.Core.Path.{◌≡◌, refl, ap}
use mathlib.Core.Logic.{◌⊎◌, inl, inr}
use mathlib.Core.Bool.{Bool, true, false}
use mathlib.Core.List.{List, [], ◌∷◌, ◌++◌}
use native.Mathlib.Omega.{arith}
use asterixdb_mcp_server.Prelude.Tests.{Bool-cases, if◌then◌else◌}

-- The empty type, at every level.
pub data Never {ℓ} : Type ℓ where

module _ {ℓ} {A : Type ℓ} where
  abbrev pub length : List A → ℕ
  length [] = 0
  length (x ∷ xs) = suc (length xs)

  -- `xs[:n]` and `xs[n:]`
  abbrev pub take : ℕ → List A → List A
  take zero xs = []
  take (suc n) [] = []
  take (suc n) (x ∷ xs) = x ∷ take n xs

  abbrev pub drop : ℕ → List A → List A
  drop zero xs = xs
  drop (suc n) [] = []
  drop (suc n) (x ∷ xs) = drop n xs

  -- `[x for x in xs if p(x)]`
  abbrev pub keep : (A → Bool) → List A → List A
  keep p [] = []
  keep p (x ∷ xs) = let rest = keep p xs in if p x then x ∷ rest else rest

  -- `a in xs`, as data: where the element stands.
  abbrev pub Has : A → List A → Type ℓ
  Has a [] = Never
  Has a (x ∷ xs) = (a ≡ x) ⊎ Has a xs

  abbrev pub All {κ} : (A → Type κ) → List A → Type κ
  All P [] = Unit
  All P (x ∷ xs) = P x × All P xs

module _ {ℓ} {A : Type ℓ} where
  pub length-append : (xs ys : List A) → length (xs ++ ys) ≡ length xs + length ys
  length-append [] ys = omega arith
  length-append (x ∷ xs) ys = omega (arith, length-append xs ys)

  pub length-take : (n : ℕ) (xs : List A) → length (take n xs) ≡ min n (length xs)
  length-take zero xs = omega arith
  length-take (suc n) [] = omega arith
  length-take (suc n) (x ∷ xs) = omega (arith, length-take n xs)

  pub take-take : (k n : ℕ) (xs : List A) → k ≤ n → take k (take n xs) ≡ take k xs
  take-take zero n xs h = refl
  take-take (suc k) zero xs h = elim h [ ]
  take-take (suc k) (suc n) [] h = refl
  take-take (suc k) (suc n) (x ∷ xs) h = ap (◌∷◌ x) (take-take k n xs (omega arith))

  pub length-drop : (n : ℕ) (xs : List A) → length (drop n xs) ≡ length xs - n
  length-drop zero xs = omega arith
  length-drop (suc n) [] = omega arith
  length-drop (suc n) (x ∷ xs) = omega (arith, length-drop n xs)

  pub All-append {κ} : (P : A → Type κ) (xs ys : List A) → All P xs → All P ys → All P (xs ++ ys)
  All-append P [] ys h k = k
  All-append P (x ∷ xs) ys h k = (h.0, All-append P xs ys h.1 k)

  pub All-has {κ} : (P : A → Type κ) (xs : List A) (a : A) → All P xs → Has a xs → P a
  All-has P [] a h m = elim m [ ]
  All-has P (x ∷ xs) a h (inl e) = rw e h.0
  All-has P (x ∷ xs) a h (inr m) = All-has P xs a h.1 m

  pub All-of_Has {κ} : (P : A → Type κ) (xs : List A) → ((a : A) → Has a xs → P a) → All P xs
  All-of_Has P [] f = tt
  All-of_Has P (x ∷ xs) f = (f x (inl refl), All-of_Has P xs (λ a m. f a (inr m)))

  pub Has-append_left : (a : A) (xs ys : List A) → Has a xs → Has a (xs ++ ys)
  Has-append_left a [] ys m = elim m [ ]
  Has-append_left a (x ∷ xs) ys (inl e) = inl e
  Has-append_left a (x ∷ xs) ys (inr m) = inr (Has-append_left a xs ys m)

  pub Has-append_right : (a : A) (xs ys : List A) → Has a ys → Has a (xs ++ ys)
  Has-append_right a [] ys m = m
  Has-append_right a (x ∷ xs) ys m = inr (Has-append_right a xs ys m)

  pub Has-append_cases : (a : A) (xs ys : List A) → Has a (xs ++ ys) → Has a xs ⊎ Has a ys
  Has-append_cases a [] ys m = inr m
  Has-append_cases a (x ∷ xs) ys (inl e) = inl (inl e)
  Has-append_cases a (x ∷ xs) ys (inr m) = elim (Has-append_cases a xs ys m) [
    | inl l ↦ inl (inr l)
    | inr r ↦ inr r
  ]

  pub Has-take : (n : ℕ) (xs : List A) (a : A) → Has a (take n xs) → Has a xs
  Has-take zero xs a m = elim m [ ]
  Has-take (suc n) [] a m = elim m [ ]
  Has-take (suc n) (x ∷ xs) a (inl e) = inl e
  Has-take (suc n) (x ∷ xs) a (inr m) = inr (Has-take n xs a m)

  pub All-take {κ} : (P : A → Type κ) (n : ℕ) (xs : List A) → All P xs → All P (take n xs)
  All-take P zero xs h = tt
  All-take P (suc n) [] h = tt
  All-take P (suc n) (x ∷ xs) h = (h.0, All-take P n xs h.1)

  pub Has-keep : (p : A → Bool) (xs : List A) (a : A) → Has a (keep p xs) → Has a xs × (p a ≡ true)
  Has-keep p [] a m = elim m [ ]
  Has-keep p (x ∷ xs) a m = elim (Bool-cases (p x)) [
    | inl e ↦
        let m' : (a ≡ x) ⊎ Has a (keep p xs) = rw e at m in
        elim m' [
          | inl here ↦ (inl here, rw here e)
          | inr there ↦ let (n, h) = Has-keep p xs a there in (inr n, h)
        ]
    | inr e ↦ let (n, h) = Has-keep p xs a (rw e at m) in (inr n, h)
  ]

  pub keep-Has : (p : A → Bool) (xs : List A) (a : A) → Has a xs → p a ≡ true → Has a (keep p xs)
  keep-Has p [] a m h = elim m [ ]
  keep-Has p (x ∷ xs) a m h = elim (Bool-cases (p x)) [
    | inl e ↦ rw e (elim m [ inl here ↦ inl here | inr there ↦ inr (keep-Has p xs a there h) ])
    | inr e ↦ rw e (elim m [
      | inl here ↦ absurd (false_of_true (rw here at h) e)
      | inr there ↦ keep-Has p xs a there h
    ])
  ]
    where
      false_of_true : {b : Bool} → b ≡ true → b ≡ false → ⊥
      false_of_true t f = cc
