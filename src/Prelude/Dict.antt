-- ===== src/Prelude/Dict.antt =====
-- Python's `dict` with text keys, in insertion order; an overwritten key keeps its place.
use mathlib.Core.Path.{◌≡◌, refl}
use mathlib.Core.Bool.{Bool, true}
use mathlib.Core.Option.{Option, none, some}
use mathlib.Core.List.{List, [], ◌∷◌, map}
use mathlib.Core.Logic.{◌⊎◌, inl, inr}
use Prim.Native.Nat.{ℕ, ◌+◌, ◌≤◌}
use Prim.Native.String.{String}
use native.Mathlib.Omega.{arith}
use text.Mathlib.Text.{◌==◌}
use text.Mathlib.TextEquality.{eq_iff}
use asterixdb_mcp_server.Prelude.Tests.{Bool-cases, if◌then◌else◌}
use asterixdb_mcp_server.Prelude.Lists.{Has, All}

abbrev pub Dict {ℓ} : Type ℓ → Type ℓ
Dict V = List (String × V)

module _ {ℓ} {V : Type ℓ} where
  -- `d.get(k)`
  unfoldable pub get : String → Dict V → Option V
  get k [] = none
  get k ((j, v) ∷ d) = if j == k then some v else get k d

  -- `d[k] = v`
  unfoldable pub put : String → V → Dict V → Dict V
  put k v [] = (k, v) ∷ []
  put k v ((j, w) ∷ d) = if j == k then (j, v) ∷ d else (j, w) ∷ put k v d

  -- `d.pop(k, None)`
  unfoldable pub remove : String → Dict V → Dict V
  remove k [] = []
  remove k ((j, w) ∷ d) = let rest = remove k d in if j == k then rest else (j, w) ∷ rest

  -- `{k: v for k, v in d.items() if p(v)}`
  unfoldable pub select : (V → Bool) → Dict V → Dict V
  select p [] = []
  select p ((j, w) ∷ d) = let rest = select p d in if p w then (j, w) ∷ rest else rest

  -- `list(d.values())`
  abbrev pub values : Dict V → List V
  values = map (λ e. e.1)

  abbrev pub keys : Dict V → List String
  keys = map (λ e. e.0)

  -- What every dict satisfies: no key twice.
  abbrev pub Distinct : Dict V → Type ℓ
  Distinct [] = Unit
  Distinct ((k, v) ∷ d) = (get k d ≡ none) × Distinct d

module _ {ℓ} {V : Type ℓ} where
  pub get-put :
      (written asked : String) (value : V) (d : Dict V)
      → get asked (put written value d) ≡ (if written == asked then some value else get asked d)
  unfolding get put
  get-put written asked value [] = ground arith
  get-put written asked value ((here, old) ∷ rest) = ground (
    arith,
    get-put written asked value rest,
    eq_iff here written,
    eq_iff here asked,
    eq_iff written asked,
  )

  pub get-remove :
      (k j : String) (d : Dict V) → get j (remove k d) ≡ (if k == j then none else get j d)
  unfolding get remove
  get-remove k j [] = ground arith
  get-remove k j ((i, w) ∷ d) = ground (arith, eq_iff k j, eq_iff i k, eq_iff i j, get-remove k j d)

  pub get-select-none :
      (q : V → Bool) (k : String) (e : Dict V) → get k e ≡ none → get k (select q e) ≡ none
  unfolding get select
  get-select-none q k [] g = refl
  get-select-none q k ((l, x) ∷ e) g = ground (arith, get-select-none q k e)

  -- A key whose value is dropped reads as missing; all others read as before.
  pub get-select :
      (p : V → Bool) (j : String) (d : Dict V) {v : V}
      → Distinct d
      → get j d ≡ some v
      → get j (select p d) ≡ (if p v then some v else none)
  unfolding get select
  get-select p j [] u h = ground arith
  get-select p j ((i, w) ∷ d) {v} u h =
      ground (arith, eq_iff i j, get-select p j d {v = v} u.1, get-select-none p j d)

  pub put-Distinct : (k : String) (v : V) (d : Dict V) → Distinct d → Distinct (put k v d)
  unfolding get put
  put-Distinct k v [] u = (refl, tt)
  put-Distinct k v ((i, w) ∷ d) u =
      ground (arith, put-Distinct k v d u.1, get-put k i v d, eq_iff i k, eq_iff k i)

  pub remove-Distinct : (k : String) (d : Dict V) → Distinct d → Distinct (remove k d)
  unfolding get remove
  remove-Distinct k [] u = tt
  remove-Distinct k ((i, w) ∷ d) u =
      ground (arith, remove-Distinct k d u.1, get-remove k i d, eq_iff i k)

  pub select-Distinct : (p : V → Bool) (d : Dict V) → Distinct d → Distinct (select p d)
  unfolding get select
  select-Distinct p [] u = tt
  select-Distinct p ((i, w) ∷ d) u =
      ground (arith, select-Distinct p d u.1, get-select-none p i d u.0)

  pub remove_absent : (k : String) (d : Dict V) → get k d ≡ none → remove k d ≡ d
  unfolding get remove
  remove_absent k [] h = refl
  remove_absent k ((i, w) ∷ d) h = ground (arith, remove_absent k d)

  pub Has-select :
      (p : V → Bool) (d : Dict V) (v : V) → Has v (values (select p d)) → Has v (values d)
  unfolding select
  Has-select p [] v m = m
  Has-select p ((i, w) ∷ d) v m = elim (Bool-cases (p w)) [
    | inl e ↦
        let kept : (v ≡ w) ⊎ Has v (values (select p d)) = rw e at m in
        elim kept [ inl here ↦ inl here | inr there ↦ inr (Has-select p d v there) ]
    | inr e ↦ inr (Has-select p d v (rw e at m))
  ]

  pub select-Has :
      (p : V → Bool) (d : Dict V) (v : V)
      → Has v (values d)
      → p v ≡ true
      → Has v (values (select p d))
  unfolding select
  select-Has p [] v m h = elim m [ ]
  select-Has p ((i, w) ∷ d) v (inl e) h = rw (← e, h, select) (inl refl)
  select-Has p ((i, w) ∷ d) v (inr m) h = elim (Bool-cases (p w)) [
    | inl e ↦ rw (e, select) (inr (select-Has p d v m h))
    | inr e ↦ rw (e, select) (select-Has p d v m h)
  ]

  pub All-select {κ} :
      (P : V → Type κ) (p : V → Bool) (d : Dict V)
      → ((v : V) → p v ≡ true → P v)
      → All P (values (select p d))
  unfolding select
  All-select P p [] f = tt
  All-select P p ((i, w) ∷ d) f = elim (Bool-cases (p w)) [
    | inl e ↦ rw e (f w e, All-select P p d f)
    | inr e ↦ rw e (All-select P p d f)
  ]

pub ruleset dict_laws = (get-put, get-remove)

-- The sum of the counters in a dict, and the counter of one key (`d.get(k, 0)`).
unfoldable pub total : Dict ℕ → ℕ
total [] = 0
total ((k, n) ∷ d) = n + total d

abbrev pub count_of : Option ℕ → ℕ
count_of none = 0
count_of (some n) = n

pub total-put :
    (k : String) (n : ℕ) (d : Dict ℕ) → total (put k n d) + count_of (get k d) ≡ total d + n
unfolding get put total
total-put k n [] = omega arith
total-put k n ((i, m) ∷ d) = ground (arith, total-put k n d)

pub total-remove :
    (k : String) (d : Dict ℕ) → Distinct d → total (remove k d) + count_of (get k d) ≡ total d
unfolding get remove total
total-remove k [] u = omega arith
total-remove k ((i, m) ∷ d) u = ground (arith, total-remove k d u.1, eq_iff i k, remove_absent k d)

pub get-le-total : (k : String) (d : Dict ℕ) → count_of (get k d) ≤ total d
unfolding get total
get-le-total k [] = omega arith
get-le-total k ((i, m) ∷ d) = ground (arith, get-le-total k d)
