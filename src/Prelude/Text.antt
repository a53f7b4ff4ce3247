-- ===== src/Prelude/Text.antt =====
-- Python's `str` methods that the program calls, on native texts: character by character.
use Prim.Native.Nat.{ℕ, zero, suc, ◌≤◌, ◌-◌, ◌/◌, ◌%◌}
use Prim.Native.Char.{Char, code}
use Prim.Native.String.{String, [], ◌∷◌, char_at}
use mathlib.Core.Path.{◌≡◌, refl}
use mathlib.Core.Bool.{Bool, true, false, ◌&&◌, ◌||◌}
use mathlib.Core.List.{List}
use native.Mathlib.Omega.{arith}
use asterixdb_mcp_server.Prelude.Tests.{leb, nat_eq, if◌then◌else◌}

-- `s + t`
infixr 65 ◌<>◌
unfoldable pub ◌<>◌ : String → String → String
[] <> t = t
(c ∷ s) <> t = c ∷ (s <> t)

-- `len(s)`: the number of characters.
abbrev pub chars : String → ℕ
chars [] = 0
chars (c ∷ s) = suc (chars s)

-- `s[:n]`
abbrev pub take_text : ℕ → String → String
take_text zero s = []
take_text (suc n) [] = []
take_text (suc n) (c ∷ s) = c ∷ take_text n s

-- `s.startswith(p)`
abbrev pub starts : String → String → Bool
starts [] s = true
starts (c ∷ p) [] = false
starts (c ∷ p) (d ∷ s) = nat_eq (code c) (code d) && starts p s

-- `p in s`
abbrev pub within : String → String → Bool
within p [] = starts p []
within p (c ∷ s) = starts p (c ∷ s) || within p s

-- `sep.join(parts)`
unfoldable pub join : String → List String → String
unfolding ◌<>◌
join sep List.[] = []
join sep (List.◌∷◌ s List.[]) = s
join sep (List.◌∷◌ s (List.◌∷◌ t rest)) = s <> sep <> join sep (List.◌∷◌ t rest)

-- `s.split(sep)` for a one-character separator, and the piece that is being read.
unfoldable pub split_from : ℕ → String → String → List String
unfolding ◌<>◌
split_from sep piece [] = List.◌∷◌ piece List.[]
split_from sep piece (c ∷ s) = elim (nat_eq (code c) sep) [
  | true ↦ List.◌∷◌ piece (split_from sep [] s)
  | false ↦ split_from sep (piece <> (c ∷ [])) s
]

unfoldable pub split : ℕ → String → List String
unfolding split_from
split sep s = split_from sep [] s

-- `c.lower()`. Letters beyond ASCII are left alone, but the Kelvin sign, which lowers to `k`.
abbrev lower_char : Char → Char
lower_char c =
    if leb 65 (code c) && leb (code c) 90
    then char_at "abcdefghijklmnopqrstuvwxyz" (code c - 65)
    else if nat_eq (code c) 8490
    then char_at "k" 0
    else c

-- `s.lower()`
unfoldable pub lower : String → String
lower [] = []
lower (c ∷ s) = lower_char c ∷ lower s

-- What `str.strip` and the `\s` of a pattern take for a space.
unfoldable pub is_space : Char → Bool
is_space c =
    let n = code c in
    (leb 9 n && leb n 13)
    || (leb 28 n && leb n 32)
    || nat_eq n 133
    || nat_eq n 160
    || nat_eq n 5760
    || (leb 8192 n && leb n 8202)
    || nat_eq n 8232
    || nat_eq n 8233
    || nat_eq n 8239
    || nat_eq n 8287
    || nat_eq n 12288

-- The text less the leading characters that pass the test, and less the trailing ones.
unfoldable pub strip_left : (Char → Bool) → String → String
strip_left p [] = []
strip_left p (c ∷ s) = elim (p c) [ true ↦ strip_left p s | false ↦ c ∷ s ]

abbrev pub keep_char : Char → String → Bool → String
keep_char c [] true = []
keep_char c [] false = c ∷ []
keep_char c (d ∷ s) b = c ∷ d ∷ s

unfoldable pub strip_right : (Char → Bool) → String → String
strip_right p [] = []
strip_right p (c ∷ s) = keep_char c (strip_right p s) (p c)

-- `s.strip()`
unfoldable pub strip : String → String
unfolding strip_left strip_right is_space
strip s = strip_right is_space (strip_left is_space s)

-- `bool(s)`
abbrev pub nonempty : String → Bool
nonempty [] = false
nonempty (c ∷ s) = true

digit : ℕ → String
digit n = take_text 1 (char_at "0123456789" n ∷ [])

digits_fuel : ℕ → ℕ → String
unfolding ◌<>◌
digits_fuel zero n = digit (n % 10)
digits_fuel (suc f) n = elim (leb 10 n) [
  | true ↦ digits_fuel f (n / 10) <> digit (n % 10)
  | false ↦ digit n
]

-- `str(n)`: a number has no more digits than its value, so the fuel suffices.
unfoldable pub show : ℕ → String
unfolding digit digits_fuel
show n = digits_fuel n n

abbrev escape : Char → String
escape c =
    if nat_eq (code c) 92
    then "\\\\"
    else if nat_eq (code c) 39
    then "\\'"
    else if nat_eq (code c) 10
    then "\\n"
    else if nat_eq (code c) 13
    then "\\r"
    else if nat_eq (code c) 9
    then "\\t"
    else c ∷ []

escaped : String → String
unfolding ◌<>◌
escaped [] = []
escaped (c ∷ s) = escape c <> escaped s

-- `repr(s)`, for a text that holds no double quote beside a single one and no other control
-- character: it only serves messages.
unfoldable pub repr : String → String
unfolding escaped
repr s = "'" <> escaped s <> "'"

test_split : split b'.' "Yelp.Business" ≡ List.◌∷◌ "Yelp" (List.◌∷◌ "Business" List.[])
unfolding split ◌<>◌
test_split = refl

test_texts : show 1024 <> repr (strip (lower " A b ")) ≡ "1024'a b'"
unfolding show repr strip lower ◌<>◌
test_texts = refl

pub take_text-chars : (n : ℕ) (s : String) → chars (take_text n s) ≤ n
take_text-chars zero s = omega arith
take_text-chars (suc n) [] = omega arith
take_text-chars (suc n) (c ∷ s) = omega (arith, take_text-chars n s)
