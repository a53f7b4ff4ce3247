-- ===== src/StatementGuard/NoSet.antt =====
-- The removal of leading SET clauses in src/asterixdb_mcp/statement_guard.py.
use asterixdb_mcp_server.Prelude.{
  ℕ, zero, suc, ◌≤◌, ◌<◌, ◌≡◌, String, none, some, arith, chars, is_space, strip_left, strip,
  Option-cases, inl, inr,
}
use asterixdb_mcp_server.StatementGuard.{
  after_word, after_semicolon, after_clause, after_set, strip_sets, strip_set_prefix,
}

strip_left-chars : (s : String) → chars (strip_left is_space s) ≤ chars s
unfolding strip_left
strip_left-chars String.[] = omega arith
strip_left-chars (String.◌∷◌ c s) = ground (arith, strip_left-chars s)

after_word-chars : (word s r : String) → after_word word s ≡ some r → chars r ≤ chars s
unfolding after_word
after_word-chars String.[] s r h = ground arith
after_word-chars (String.◌∷◌ a word) String.[] r h = ground arith
after_word-chars (String.◌∷◌ a word) (String.◌∷◌ c s) r h =
    ground (arith, after_word-chars word s r)

after_semicolon-chars : (s r : String) → after_semicolon s ≡ some r → chars r < chars s
unfolding after_semicolon
after_semicolon-chars String.[] r h = ground arith
after_semicolon-chars (String.◌∷◌ c s) r h = ground (arith, after_semicolon-chars s r)

after_clause-chars : (s r : String) → after_clause s ≡ some r → chars r < chars s
unfolding after_clause
after_clause-chars String.[] r h = ground arith
after_clause-chars (String.◌∷◌ c String.[]) r h = ground arith
after_clause-chars (String.◌∷◌ c (String.◌∷◌ d s)) r h = ground (arith, after_semicolon-chars s r)

after_set-chars : (core r : String) → after_set core ≡ some r → chars r < chars core
unfolding after_set
after_set-chars core r h = elim (Option-cases (after_word "set" (strip_left is_space core))) [
  | inl e ↦ ground arith
  | inr (s, e) ↦ ground (
    arith,
    after_clause-chars s r,
    after_word-chars "set" (strip_left is_space core) s,
    strip_left-chars core,
  )
]

strip_sets-none :
    (fuel : ℕ) (core : String) → chars core ≤ fuel → after_set (strip_sets fuel core) ≡ none
unfolding strip_sets
strip_sets-none zero core h = elim (Option-cases (after_set core)) [
  | inl e ↦ e
  | inr (r, e) ↦ absurd (omega (arith, after_set-chars core r e))
]
strip_sets-none (suc fuel) core h = elim (Option-cases (after_set core)) [
  | inl e ↦ rw (e, strip_sets) e
  | inr (r, e) ↦
      rw (e, strip_sets)
        (strip_sets-none fuel (strip_left is_space r)
          (omega (arith, after_set-chars core r e, strip_left-chars r)))
]

-- The loop ends within as many turns as the statement has characters, and then no SET clause is left
-- at the start of what it returns.
pub strip_set_prefix-none : (statement : String) → after_set (strip_set_prefix statement) ≡ none
unfolding strip_set_prefix
strip_set_prefix-none statement =
    strip_sets-none (chars (strip statement)) (strip statement) (omega arith)
