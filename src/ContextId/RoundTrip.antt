-- ===== src/ContextId/RoundTrip.antt =====
-- Segments and the ids made of them: src/asterixdb_mcp/context_id.py.
use Prim.Native.Char.{Char, code}
use asterixdb_mcp_server.Prelude.{
  take_text-chars, ℕ, zero, suc, ◌≤◌, ◌≡◌, refl, ap, ◌∙◌, Bool, true, false, String, Option, none,
  some, [], ◌∷◌, nat_eq, strip, strip_left, strip_right, take_text, chars, keep_char, ◌<>◌, arith,
  Bool-cases, inl, inr,
}
use asterixdb_mcp_server.ContextId.{
  max_user_tag_length, is_unsafe, is_dash, collapse, strip_dashes, cut, or_placeholder,
  sanitize_segment, or_empty, make_client_context_id, split_segments, parse_client_context_id,
}

-- The text holds no colon.
abbrev pub Free : String → Type 0
Free String.[] = Unit
Free (String.◌∷◌ c s) = (nat_eq (code c) b':' ≡ false) × Free s

collapse-Free : (inside : Bool) (s : String) → Free (collapse inside s)
unfolding collapse ◌<>◌
collapse-Free inside String.[] = tt
collapse-Free true (String.◌∷◌ c s) = elim (Bool-cases (is_unsafe c)) [
  | inl u ↦ rw (u, collapse) (collapse-Free true s)
  | inr u ↦ rw (u, collapse) (unfold is_unsafe in ground arith, collapse-Free false s)
]
collapse-Free false (String.◌∷◌ c s) = elim (Bool-cases (is_unsafe c)) [
  | inl u ↦ rw (u, collapse) (refl, collapse-Free true s)
  | inr u ↦ rw (u, collapse) (unfold is_unsafe in ground arith, collapse-Free false s)
]

strip_left-Free : (p : Char → Bool) (s : String) → Free s → Free (strip_left p s)
unfolding strip_left
strip_left-Free p String.[] f = tt
strip_left-Free p (String.◌∷◌ c s) f = elim (Bool-cases (p c)) [
  | inl e ↦ rw (e, strip_left) (strip_left-Free p s f.1)
  | inr e ↦ rw (e, strip_left) f
]

keep_char-Free :
    (c : Char) (s : String) (b : Bool)
    → nat_eq (code c) b':' ≡ false
    → Free s
    → Free (keep_char c s b)
keep_char-Free c String.[] true h f = tt
keep_char-Free c String.[] false h f = (h, tt)
keep_char-Free c (String.◌∷◌ d s) b h f = (h, f)

strip_right-Free : (p : Char → Bool) (s : String) → Free s → Free (strip_right p s)
unfolding strip_right
strip_right-Free p String.[] f = tt
strip_right-Free p (String.◌∷◌ c s) f =
    keep_char-Free c (strip_right p s) (p c) f.0 (strip_right-Free p s f.1)

take_text-Free : (n : ℕ) (s : String) → Free s → Free (take_text n s)
take_text-Free zero s f = tt
take_text-Free (suc n) String.[] f = tt
take_text-Free (suc n) (String.◌∷◌ c s) f = (f.0, take_text-Free n s f.1)

strip_dashes-Free : (s : String) → Free s → Free (strip_dashes s)
unfolding strip_dashes
strip_dashes-Free s f = strip_right-Free is_dash _ (strip_left-Free is_dash s f)

cut-Free : (m : Option ℕ) (s : String) → Free s → Free (cut m s)
unfolding cut
cut-Free none s f = f
cut-Free (some n) s f = strip_dashes-Free _ (take_text-Free n s f)

or_placeholder-Free : (s : String) → Free s → Free (or_placeholder s)
or_placeholder-Free String.[] f = (refl, tt)
or_placeholder-Free (String.◌∷◌ c s) f = f

pub sanitize_segment-Free : (value : String) (m : Option ℕ) → Free (sanitize_segment value m)
unfolding sanitize_segment
sanitize_segment-Free value m =
    or_placeholder-Free _ (cut-Free m _ (strip_dashes-Free _ (collapse-Free false (strip value))))

append-assoc_char :
    (p : String) (c : Char) (s : String) → (p <> String.◌∷◌ c String.[]) <> s ≡ p <> String.◌∷◌ c s
unfolding ◌<>◌
append-assoc_char String.[] c s = refl
append-assoc_char (String.◌∷◌ d p) c s = ap (String.◌∷◌ d) (append-assoc_char p c s)

append-nil_text : (p : String) → p <> String.[] ≡ p
unfolding ◌<>◌
append-nil_text String.[] = refl
append-nil_text (String.◌∷◌ c p) = ap (String.◌∷◌ c) (append-nil_text p)

-- A free text is one piece.
split_segments-last : (s piece : String) → Free s → split_segments piece s ≡ (piece <> s) ∷ []
unfolding split_segments
split_segments-last String.[] piece f = rw append-nil_text
split_segments-last (String.◌∷◌ c String.[]) piece f = refl
split_segments-last (String.◌∷◌ c (String.◌∷◌ d s)) piece f =
    rw (f.0, split_segments)
      (split_segments-last (String.◌∷◌ d s) (piece <> String.◌∷◌ c String.[]) f.1
        ∙ rw append-assoc_char)

-- Up to a delimiter, it is the piece before the rest.
split_segments-first :
    (s piece rest : String)
    → Free s
    → split_segments piece (s <> "::" <> rest) ≡ (piece <> s) ∷ split_segments String.[] rest
unfolding split_segments ◌<>◌
split_segments-first String.[] piece rest f = rw append-nil_text
split_segments-first (String.◌∷◌ c String.[]) piece rest f = rw (f.0, split_segments)
split_segments-first (String.◌∷◌ c (String.◌∷◌ d s)) piece rest f =
    rw (f.0, split_segments)
      (split_segments-first (String.◌∷◌ d s) (piece <> String.◌∷◌ c String.[]) rest f.1
        ∙ rw append-assoc_char)

parse_joined :
    (a b c : String)
    → Free a
    → Free b
    → Free c
    → parse_client_context_id (a <> "::" <> b <> "::" <> c) ≡ some (a, b, c)
unfolding parse_client_context_id
parse_joined a b c fa fb fc =
    rw
      (
        split_segments-first a "" (b <> "::" <> c) fa,
        split_segments-first b "" c fb,
        split_segments-last c "" fc,
      )
      (unfold ◌<>◌ in refl)

-- Every id that the gateway makes splits into its three sanitized segments, whatever the session
-- name, the tag and the random part hold.
pub parse-make_client_context_id :
    (agent_session_id : String) (user_tag : Option String) (new_uuid : String)
    → parse_client_context_id (make_client_context_id agent_session_id user_tag new_uuid)
      ≡ some (
        sanitize_segment agent_session_id none,
        sanitize_segment (or_empty user_tag) (some max_user_tag_length),
        sanitize_segment new_uuid none,
      )
unfolding make_client_context_id
parse-make_client_context_id agent_session_id user_tag new_uuid =
    parse_joined _ _ _ (sanitize_segment-Free agent_session_id none)
      (sanitize_segment-Free (or_empty user_tag) (some max_user_tag_length))
      (sanitize_segment-Free new_uuid none)

strip_left-chars : (p : Char → Bool) (s : String) → chars (strip_left p s) ≤ chars s
unfolding strip_left
strip_left-chars p String.[] = omega arith
strip_left-chars p (String.◌∷◌ c s) = ground (arith, strip_left-chars p s)

keep_char-chars : (c : Char) (s : String) (b : Bool) → chars (keep_char c s b) ≤ suc (chars s)
keep_char-chars c String.[] true = omega arith
keep_char-chars c String.[] false = omega arith
keep_char-chars c (String.◌∷◌ d s) b = omega arith

strip_right-chars : (p : Char → Bool) (s : String) → chars (strip_right p s) ≤ chars s
unfolding strip_right
strip_right-chars p String.[] = omega arith
strip_right-chars p (String.◌∷◌ c s) =
    omega (arith, strip_right-chars p s, keep_char-chars c (strip_right p s) (p c))

or_placeholder-chars :
    (n : ℕ) (s : String)
    → 1 ≤ n
    → chars s ≤ n
    → (1 ≤ chars (or_placeholder s)) × (chars (or_placeholder s) ≤ n)
or_placeholder-chars n String.[] one h = omega arith
or_placeholder-chars n (String.◌∷◌ c s) one h = omega arith

-- A sanitized tag is never empty and never longer than its limit, for any limit of at least 1.
pub sanitize_segment-chars :
    (value : String) (n : ℕ)
    → 1 ≤ n
    → (1 ≤ chars (sanitize_segment value (some n))) × (chars (sanitize_segment value (some n)) ≤ n)
unfolding sanitize_segment strip_dashes cut
sanitize_segment-chars value n one =
    let taken = take_text n (strip_dashes (collapse false (strip value))) in
    or_placeholder-chars n (strip_dashes taken) one (
      omega (
        arith,
        strip_right-chars is_dash (strip_left is_dash taken),
        strip_left-chars is_dash taken,
        take_text-chars n (strip_dashes (collapse false (strip value))),
      ))
