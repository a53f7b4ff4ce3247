-- ===== src/ContextId.antt =====
-- The clientContextID namespace: src/asterixdb_mcp/context_id.py. The random identifier that
-- `uuid.uuid4` makes is an argument.
pub mod RoundTrip
use Prim.Native.Char.{Char, code}
use Prim.Native.String
use mathlib.Core.Path.{◌≡◌, refl}
use asterixdb_mcp_server.Prelude.{
  ℕ, Bool, true, false, ◌||◌, ◌&&◌, String, Option, none, some, List, [], ◌∷◌, nat_eq, is_space,
  strip, strip_left, strip_right, take_text, join, ◌<>◌, if◌then◌else◌,
}

abbrev pub segment_delimiter : String
segment_delimiter = "::"

abbrev pub max_user_tag_length : ℕ
max_user_tag_length = 64

abbrev pub empty_segment_placeholder : String
empty_segment_placeholder = "_"

-- `_UNSAFE_SEGMENT_CHARS`: a colon or white space
unfoldable pub is_unsafe : Char → Bool
unfolding is_space
is_unsafe c = nat_eq (code c) b':' || is_space c

abbrev is_dash : Char → Bool
is_dash c = nat_eq (code c) b'-'

-- `_UNSAFE_SEGMENT_CHARS.sub("-", ...)`; the flag is set inside a run of unsafe characters.
unfoldable pub collapse : Bool → String → String
unfolding ◌<>◌
collapse inside String.[] = String.[]
collapse inside (String.◌∷◌ c s) = elim (is_unsafe c) [
  | true ↦ if inside then collapse true s else "-" <> collapse true s
  | false ↦ String.◌∷◌ c (collapse false s)
]

-- `s.strip("-")`
unfoldable pub strip_dashes : String → String
unfolding strip_left strip_right
strip_dashes s = strip_right is_dash (strip_left is_dash s)

abbrev cut : Option ℕ → String → String
unfolding strip_dashes
cut none s = s
cut (some n) s = strip_dashes (take_text n s)

-- `cleaned or EMPTY_SEGMENT_PLACEHOLDER`
abbrev or_placeholder : String → String
or_placeholder String.[] = empty_segment_placeholder
or_placeholder (String.◌∷◌ c s) = String.◌∷◌ c s

unfoldable pub sanitize_segment : String → Option ℕ → String
unfolding collapse strip_dashes strip cut
sanitize_segment value max_length =
    or_placeholder (cut max_length (strip_dashes (collapse false (strip value))))

abbrev pub or_empty : Option String → String
or_empty none = ""
or_empty (some s) = s

unfoldable pub make_client_context_id : String → Option String → String → String
unfolding sanitize_segment join
make_client_context_id agent_session_id user_tag new_uuid = join segment_delimiter (
    sanitize_segment agent_session_id none
    ∷ sanitize_segment (or_empty user_tag) (some max_user_tag_length)
    ∷ sanitize_segment new_uuid none
    ∷ [])

-- `s.split("::")`, with the piece that is being read
unfoldable pub split_segments : String → String → List String
unfolding ◌<>◌
split_segments piece String.[] = piece ∷ []
split_segments piece (String.◌∷◌ c String.[]) = (piece <> String.◌∷◌ c String.[]) ∷ []
split_segments piece (String.◌∷◌ c (String.◌∷◌ d s)) =
    elim (nat_eq (code c) b':' && nat_eq (code d) b':') [
      | true ↦ piece ∷ split_segments String.[] s
      | false ↦ split_segments (piece <> String.◌∷◌ c String.[]) (String.◌∷◌ d s)
    ]

three_parts : List String → Option (String × String × String)
three_parts (session ∷ tag ∷ tail ∷ []) = some (session, tag, tail)
three_parts _ = none

-- `parse_client_context_id`; `none` is the `ValueError`.
unfoldable pub parse_client_context_id : String → Option (String × String × String)
unfolding split_segments three_parts
parse_client_context_id client_context_id = three_parts (split_segments String.[] client_context_id)

test_make : make_client_context_id " my: session " (some "tag") "u1" ≡ "my-session::tag::u1"
unfolding make_client_context_id is_unsafe
test_make = refl
