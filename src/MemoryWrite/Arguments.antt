-- ===== src/MemoryWrite/Arguments.antt =====
-- What is checked of a note before it is written: the beginning of `run_memory_write` of
-- src/asterixdb_mcp/tools/memory_write.py.
use Prim.Native.Char.{Char, code}
use asterixdb_mcp_server.Prelude.{
  ℕ, Bool, not, ◌&&◌, ◌||◌, String, Option, none, some, List, [], ◌∷◌, ltb, nat_eq, nonempty, chars,
  strip, length, show, repr, ◌<>◌, ◌==◌, if◌then◌else◌,
}
use asterixdb_mcp_server.Config.{Settings}
use asterixdb_mcp_server.Errors.{GatewayError, gateway_error, forbidden, invalid_parameter}
use asterixdb_mcp_server.Claims.Scan.{is_letter, is_digit, run, drop_text}

abbrev pub max_text_len : ℕ
max_text_len = 4000

abbrev pub max_links : ℕ
max_links = 16

-- The arguments of a call; no links, or no tags, are the empty list.
pub record Call : Type 0 where
  pub subject : String
  pub text : String
  pub links : List String
  pub tags : List String
  pub source_query : Option String
  pub replaces : Option String
  pub author : Option String

abbrev is_identifier_char : Char → Bool
unfolding is_letter is_digit
is_identifier_char c =
    is_letter c
    || is_digit c
    || nat_eq (code c) b'_'
    || nat_eq (code c) b'.'
    || nat_eq (code c) b'@'
    || nat_eq (code c) b'/'
    || nat_eq (code c) b'-'

-- `_IDENTIFIER_RE.match(value)`; the `$` of a pattern also stands before a last line break.
unfoldable pub is_identifier : String → Bool
unfolding run is_identifier_char drop_text
is_identifier value =
    let name = run is_identifier_char value in
    let rest = drop_text (chars name) value in
    nonempty name && (not (nonempty rest) || rest == "\n")

abbrev write_disabled_error : GatewayError
write_disabled_error =
    gateway_error forbidden
      "Memory writes are disabled on this gateway. Ask the operator to set ASTERIXDB_MCP_MEMORY_WRITE_ENABLED=true; every other statement stays read-only either way."

abbrev identifier_error : String → String → GatewayError
unfolding repr ◌<>◌
identifier_error label value = gateway_error invalid_parameter (
    "Invalid "
    <> label
    <> " "
    <> repr value
    <> ": expected a concept identifier (letters, digits, '_', '.', '/', '@', '-').")

unfoldable pub invalid_identifier : String → List String → Option GatewayError
unfolding is_identifier identifier_error
invalid_identifier label [] = none
invalid_identifier label (value ∷ values) =
    let rest = invalid_identifier label values in
    if is_identifier value then rest else some (identifier_error label value)

abbrev check_replaces : Option String → Option GatewayError
unfolding strip
check_replaces none = none
check_replaces (some replaces) =
    if nonempty (strip replaces)
    then none
    else some (gateway_error invalid_parameter "Provide a non-empty replaces fragment, or omit it.")

abbrev or_error : Option GatewayError → Option GatewayError → Option GatewayError
or_error (some e) later = some e
or_error none later = later

abbrev error_if : Bool → GatewayError → Option GatewayError
error_if test e = if test then some e else none

-- The first complaint about the arguments, if there is one.
unfoldable pub check_arguments : Settings → Call → Option GatewayError
unfolding strip invalid_identifier check_replaces show ◌<>◌
check_arguments settings call =
    or_error (error_if (not settings.memory_write_enabled) write_disabled_error) (
      or_error
        (error_if (not (nonempty (strip call.text)))
          (gateway_error invalid_parameter "Provide a non-empty note text."))
        (or_error
          (error_if (ltb max_text_len (chars (strip call.text))) (
            gateway_error invalid_parameter (
              "Note text is too long (max "
              <> show max_text_len
              <> " characters); distill it first.")))
          (or_error (invalid_identifier "subject" (call.subject ∷ [])) (
            or_error (invalid_identifier "links" call.links) (
              or_error
                (error_if (ltb max_links (length call.links)) (
                  gateway_error invalid_parameter
                    ("Too many links (max " <> show max_links <> ").")))
                (check_replaces call.replaces))))))

-- `replaces.strip()`
unfoldable pub stripped : Option String → Option String
unfolding strip
stripped none = none
stripped (some replaces) = some (strip replaces)
