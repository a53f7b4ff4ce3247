-- ===== src/StatementGuard.antt =====
-- The checks of a statement's text: src/asterixdb_mcp/statement_guard.py, its patterns written out.
pub mod NoSet
use asterixdb_mcp_server.Prelude.{
  ℕ, zero, suc, Bool, true, false, not, ◌&&◌, ◌||◌, String, Option, none, some, List, [], ◌∷◌, ◌≡◌,
  refl, ◌+◌, leb, ltb, nat_eq, chars, take_text, lower, is_space, strip_left, strip_right, strip,
  show, ◌<>◌, ◌==◌, if◌then◌else◌,
}
use Prim.Native.Char.{Char, code}
use Prim.Native.String.{char_at}
use asterixdb_mcp_server.Errors.{GatewayError, gateway_error, invalid_parameter}

-- A character as `(?i)` compares it with an ASCII letter: besides the case, Python takes the two
-- dotted and dotless letters for `i`, the long s for `s` and the Kelvin sign for `k`.
unfoldable pub fold : Char → ℕ
fold c =
    let n = code c in
    if leb 65 n && leb n 90
    then n + 32
    else if nat_eq n 304 || nat_eq n 305
    then 105
    else if nat_eq n 383
    then 115
    else if nat_eq n 8490
    then 107
    else n

-- What follows the word, if the text begins with it; the word is given in small letters.
unfoldable pub after_word : String → String → Option String
unfolding fold
after_word String.[] s = some s
after_word (String.◌∷◌ a word) String.[] = none
after_word (String.◌∷◌ a word) (String.◌∷◌ c s) = elim (nat_eq (code a) (fold c)) [
  | true ↦ after_word word s
  | false ↦ none
]

-- What follows the first semicolon.
unfoldable pub after_semicolon : String → Option String
after_semicolon String.[] = none
after_semicolon (String.◌∷◌ c s) = elim (nat_eq (code c) b';') [
  | true ↦ some s
  | false ↦ after_semicolon s
]

-- `\s+[^;]+;`: a space, at least one more character, and the first semicolon.
unfoldable pub after_clause : String → Option String
unfolding after_semicolon is_space
after_clause String.[] = none
after_clause (String.◌∷◌ c String.[]) = none
after_clause (String.◌∷◌ c (String.◌∷◌ d s)) =
    if is_space c && not (nat_eq (code d) b';') then after_semicolon s else none

abbrev then_clause : Option String → Option String
unfolding after_clause
then_clause none = none
then_clause (some s) = after_clause s

-- `_SET_PREFIX_RE.match(core)`: what follows the match, its trailing spaces aside.
unfoldable pub after_set : String → Option String
unfolding then_clause after_word strip_left is_space
after_set core = then_clause (after_word "set" (strip_left is_space core))

-- The loop of `strip_set_prefix`; a turn shortens the text, so its length is fuel enough.
unfoldable pub strip_sets : ℕ → String → String
unfolding after_set strip_left is_space
strip_sets zero core = core
strip_sets (suc fuel) core = elim (after_set core) [
  | none ↦ core
  | some rest ↦ strip_sets fuel (strip_left is_space rest)
]

unfoldable pub strip_set_prefix : String → String
unfolding strip_sets strip
strip_set_prefix statement = strip_sets (chars (strip statement)) (strip statement)

-- `core[:-1].rstrip()` if the text ends in a semicolon
unfoldable pub drop_semicolon : String → String
drop_semicolon String.[] = String.[]
drop_semicolon (String.◌∷◌ c String.[]) =
    if nat_eq (code c) b';' then String.[] else String.◌∷◌ c String.[]
drop_semicolon (String.◌∷◌ c (String.◌∷◌ d s)) = String.◌∷◌ c (drop_semicolon (String.◌∷◌ d s))

unfoldable pub ends_in_semicolon : String → Bool
ends_in_semicolon String.[] = false
ends_in_semicolon (String.◌∷◌ c String.[]) = nat_eq (code c) b';'
ends_in_semicolon (String.◌∷◌ c (String.◌∷◌ d s)) = ends_in_semicolon (String.◌∷◌ d s)

unfoldable pub core_of : String → String
unfolding strip_set_prefix drop_semicolon ends_in_semicolon strip_right is_space
core_of statement =
    let core = strip_right is_space (strip_set_prefix statement) in
    if ends_in_semicolon core then strip_right is_space (drop_semicolon core) else core

-- `wide_word` tells of a character beyond ASCII if `\w` matches it: Python's Unicode tables.
module _ (wide_word : Char → Bool) where
  unfoldable pub is_word : Char → Bool
  is_word c =
      let n = code c in
      if ltb n 128
      then (leb 48 n && leb n 57)
        || (leb 65 n && leb n 90)
        || nat_eq n 95
        || (leb 97 n && leb n 122)
      else wide_word c

  -- `\b` before the text, given whether the character before it is of a word.
  abbrev begins_word : Bool → String → Bool
  unfolding is_word
  begins_word before String.[] = before
  begins_word false (String.◌∷◌ c s) = is_word c
  begins_word true (String.◌∷◌ c s) = not (is_word c)

  -- Every word searched for ends in a letter, so `\b` behind it asks for no further one.
  abbrev pub ends_word : Option String → Bool
  unfolding is_word
  ends_word none = false
  ends_word (some String.[]) = true
  ends_word (some (String.◌∷◌ c s)) = not (is_word c)

  -- `\s*\(`
  abbrev is_called : Option String → Bool
  unfolding strip_left is_space after_word
  is_called none = false
  is_called (some s) = elim (after_word "(" (strip_left is_space s)) [
    | none ↦ false
    | some rest ↦ true
  ]

  -- The search for a pattern that begins with `\b` and the word.
  unfoldable pub search_from : (Option String → Bool) → String → Bool → String → Bool
  unfolding begins_word after_word is_word
  search_from tail word before String.[] = false
  search_from tail word before (String.◌∷◌ c s) =
      (begins_word before (String.◌∷◌ c s) && tail (after_word word (String.◌∷◌ c s)))
      || search_from tail word (is_word c) s

  -- `_LIMIT_RE.search` and `_FROM_RE.search`
  unfoldable pub has_word : String → String → Bool
  unfolding search_from ends_word
  has_word word s = search_from ends_word word false s

  -- `re.compile(rf"(?i)\b{name}\s*\(").search`
  unfoldable pub calls_function : String → String → Bool
  unfolding search_from is_called lower
  calls_function name s = search_from is_called (lower name) false s

  -- A `SELECT ... FROM` without a `LIMIT`.
  unfoldable pub is_unbounded : String → Bool
  unfolding has_word lower
  is_unbounded core =
      (lower (take_text 6 core) == "select") && has_word "from" core && not (has_word "limit" core)

  unfoldable pub with_limit : ℕ → String → String
  unfolding ◌<>◌ is_unbounded
  with_limit default_limit core =
      if is_unbounded core then core <> " LIMIT " <> show default_limit else core

  abbrev pub finish : String → ℕ → String → String
  unfolding with_limit ◌<>◌
  finish statement default_limit String.[] = statement
  finish statement default_limit (String.◌∷◌ c core) =
      with_limit default_limit (String.◌∷◌ c core) <> ";"

  unfoldable pub normalize_statement : String → ℕ → String
  unfolding finish core_of
  normalize_statement statement default_limit = finish statement default_limit (core_of statement)

  abbrev pub unsupported_functions : List (String × String)
  unsupported_functions =
      ("STDEV", "STDDEV_SAMP (sample) or STDDEV_POP (population)")
      ∷ ("STDDEV", "STDDEV_SAMP (sample) or STDDEV_POP (population)")
      ∷ ("VARIANCE", "VAR_SAMP (sample) or VAR_POP (population)")
      ∷ []

  unfoldable unsupported_error : String → String → GatewayError
  unfolding ◌<>◌
  unsupported_error name instead = gateway_error invalid_parameter (
      name <> "(...) is not an AsterixDB function. Use " <> instead
      <> " instead, and do not nest an aggregate inside another aggregate in the same SELECT.")

  unfoldable pub first_unsupported : List (String × String) → String → Option GatewayError
  unfolding calls_function unsupported_error
  first_unsupported [] statement = none
  first_unsupported ((name, instead) ∷ rest) statement =
      if calls_function name statement
      then some (unsupported_error name instead)
      else first_unsupported rest statement

  unfoldable pub check_unsupported_functions : String → Option GatewayError
  unfolding first_unsupported
  check_unsupported_functions statement = first_unsupported unsupported_functions statement

no_wide : Char → Bool
no_wide c = false

test_normalize :
    normalize_statement no_wide " SET `a` \"b\"; set x y; select x from Limits ; " 20
    ≡ "select x from Limits LIMIT 20;"
unfolding normalize_statement no_wide show
test_normalize = refl

test_calls :
    (calls_function no_wide "STDDEV" "select StdDev  (x)"
      && not (calls_function no_wide "STDDEV" "stddev_samp(x)"))
    ≡ true
unfolding calls_function no_wide
test_calls = refl
