-- ===== src/Claims/Scan.antt =====
-- The regular expressions of src/asterixdb_mcp/claims.py, as scanners.
use Prim.Native.Char.{Char, code}
use asterixdb_mcp_server.Prelude.{
  ℕ, zero, suc, ◌+◌, ◌-◌, ◌≡◌, refl, Bool, true, false, ◌&&◌, ◌||◌, String, List, [], ◌∷◌, leb,
  nat_eq, nonempty, chars, is_space, ◌<>◌, if◌then◌else◌,
}

unfoldable pub is_letter : Char → Bool
is_letter c = (leb b'A' (code c) && leb (code c) b'Z') || (leb b'a' (code c) && leb (code c) b'z')

unfoldable pub is_digit : Char → Bool
is_digit c = leb b'0' (code c) && leb (code c) b'9'

-- The longest leading run of characters that pass the test.
unfoldable pub run : (Char → Bool) → String → String
run p String.[] = String.[]
run p (String.◌∷◌ c s) = let rest = run p s in if p c then String.◌∷◌ c rest else String.[]

unfoldable pub drop_text : ℕ → String → String
drop_text zero s = s
drop_text (suc n) String.[] = String.[]
drop_text (suc n) (String.◌∷◌ c s) = drop_text n s

-- `(?:\.\d+)?`
unfoldable pub fraction_at : String → String
unfolding run is_digit
fraction_at String.[] = String.[]
fraction_at (String.◌∷◌ c s) =
    if nat_eq (code c) b'.' && nonempty (run is_digit s)
    then String.◌∷◌ c (run is_digit s)
    else String.[]

-- `\d+(?:\.\d+)?`
unfoldable pub unsigned_at : String → String
unfolding run is_digit fraction_at drop_text ◌<>◌
unsigned_at s =
    let whole = run is_digit s in
    if nonempty whole then whole <> fraction_at (drop_text (chars whole) s) else String.[]

-- `NUMBER_RE` at the beginning of a text; the empty text where it does not match.
unfoldable pub number_at : String → String
unfolding unsigned_at
number_at String.[] = String.[]
number_at (String.◌∷◌ c s) =
    if nat_eq (code c) b'-'
    then (if nonempty (unsigned_at s) then String.◌∷◌ c (unsigned_at s) else String.[])
    else unsigned_at (String.◌∷◌ c s)

-- `WORD_RE` at the beginning of a text
unfoldable pub word_at : String → String
unfolding run is_letter
word_at String.[] = String.[]
word_at (String.◌∷◌ c s) =
    let rest = run (λ d. is_letter d || nat_eq (code d) b'_') s in
    if is_letter c && leb 2 (chars rest) then String.◌∷◌ c rest else String.[]

-- What `finditer` finds.
pub record Match : Type 0 where
  pub start : ℕ
  pub group : String

module _ (match_at : String → String) where
  -- The matches from a position on; `skip` characters belong to the match before.
  unfoldable pub matches_from : ℕ → ℕ → String → List Match
  matches_from at skip String.[] = []
  matches_from at (suc skip) (String.◌∷◌ c s) = matches_from (at + 1) skip s
  matches_from at zero (String.◌∷◌ c s) = elim (nonempty (match_at (String.◌∷◌ c s))) [
    | true ↦
        record { start = at; group = match_at (String.◌∷◌ c s) }
        ∷ matches_from (at + 1) (chars (match_at (String.◌∷◌ c s)) - 1) s
    | false ↦ matches_from (at + 1) 0 s
  ]

abbrev groups : List Match → List String
groups [] = []
groups (found ∷ rest) = found.group ∷ groups rest

-- `NUMBER_RE.finditer(text)`
unfoldable pub numbers : String → List Match
unfolding matches_from number_at
numbers text = matches_from number_at 0 0 text

-- `NUMBER_RE.findall(text)`
unfoldable pub number_texts : String → List String
unfolding numbers
number_texts text = groups (numbers text)

-- `WORD_RE.findall(text)`
unfoldable pub words : String → List String
unfolding matches_from word_at
words text = groups (matches_from word_at 0 0 text)

-- `SEGMENT_RE.split(text)`, and the segment that is being read
unfoldable pub segments_from : String → String → List String
unfolding is_space ◌<>◌
segments_from piece String.[] = piece ∷ []
segments_from piece (String.◌∷◌ c String.[]) =
    if nat_eq (code c) b',' || nat_eq (code c) b';' || nat_eq (code c) b'\n'
    then piece ∷ String.[] ∷ []
    else (piece <> String.◌∷◌ c String.[]) ∷ []
segments_from piece (String.◌∷◌ c (String.◌∷◌ d s)) =
    elim (nat_eq (code c) b',' || nat_eq (code c) b';' || nat_eq (code c) b'\n') [
      | true ↦ piece ∷ segments_from String.[] (String.◌∷◌ d s)
      | false ↦ elim (nat_eq (code c) b'.' && is_space d) [
        | true ↦ piece ∷ segments_from String.[] s
        | false ↦ segments_from (piece <> String.◌∷◌ c String.[]) (String.◌∷◌ d s)
      ]
    ]

unfoldable pub segments : String → List String
unfolding segments_from
segments text = segments_from String.[] text

test_numbers : number_texts "-1.5 to 20., x-3" ≡ "-1.5" ∷ "20" ∷ "-3" ∷ []
unfolding number_texts numbers matches_from number_at unsigned_at fraction_at run is_digit drop_text
    ◌<>◌
test_numbers = refl

test_words : words "at low_kV 17, no" ≡ "low_kV" ∷ []
unfolding words matches_from word_at run is_letter
test_words = refl

test_segments : segments "a 1. b, c" ≡ "a 1" ∷ "b" ∷ " c" ∷ []
unfolding segments segments_from is_space ◌<>◌
test_segments = refl
