-- ===== src/Decay/Archived.antt =====
-- What the decay pass of src/asterixdb_mcp/decay.py leaves alone.
use asterixdb_mcp_server.Prelude.{
  ℕ, ◌+◌, ◌≡◌, refl, ap, Bool, true, false, ◌||◌, ◌⊎◌, inl, inr, String, Option, List, [], ◌∷◌,
  ◌++◌, arith,
}
use asterixdb_mcp_server.Json
use asterixdb_mcp_server.Json.{Json, ℤ, pos, lookup, truthy}
use asterixdb_mcp_server.Errors.{Result, ok, err, crash}
use asterixdb_mcp_server.Http
use asterixdb_mcp_server.Http.{Env, Exec, pure, lift, ◌>>=◌}
use asterixdb_mcp_server.CcClient.{Client}
use asterixdb_mcp_server.Decay.{
  DateTime, Clock, was_recalled, is_decay_candidate, archive_one, archive_all,
}

-- A row with evidence, or one that was recalled.
unfoldable pub IsInUse : (Json → Option ℤ) → Json.Fields → Type 0
unfolding lookup truthy was_recalled
IsInUse to_int row =
    (truthy (lookup "source_query" row) ≡ true) ⊎ (was_recalled to_int row ≡ ok true)

or_true : (b : Bool) → (b || true) ≡ true
or_true b = ground arith

is_decay_candidate-IsInUse :
    (container_text : Json → String) (to_int : Json → Option ℤ)
    (fromisoformat : String → Option DateTime) (row : Json.Fields) (now : ℕ)
    → IsInUse to_int row
    → is_decay_candidate container_text to_int fromisoformat row now ≡ ok false
unfolding IsInUse is_decay_candidate
is_decay_candidate-IsInUse container_text to_int fromisoformat row now (inl e) = ground (arith, e)
is_decay_candidate-IsInUse container_text to_int fromisoformat row now (inr e) = ground (arith, e)

module _ {W : Type 0} (env : Env W) (client : Client) (to_int : Json → Option ℤ)
    (fromisoformat : String → Option DateTime) where
  add_none :
      (o : Result ℕ × W) → (let (r, w) = o in Http.continue r (λ rest. pure (0 + rest)) w) ≡ o
  add_none (ok n, w) = ap (λ k. (ok k, w)) (omega arith)
  add_none (err e, w) = refl
  add_none (crash, w) = refl

  -- The decay pass does with the rows what it would do without a row that has evidence, or that
  -- was recalled: it asks nothing of the cluster for it, and does not count it.
  pub archive_all-IsInUse :
      (ccid : String) (clock : Clock) (before after : List Json.Fields) (row : Json.Fields) (w : W)
      → IsInUse to_int row
      → archive_all env client to_int fromisoformat ccid clock (before ++ (row ∷ after)) w
        ≡ archive_all env client to_int fromisoformat ccid clock (before ++ after) w
  unfolding archive_all archive_one ◌>>=◌
  archive_all-IsInUse ccid clock [] after row w used =
      rw (is_decay_candidate-IsInUse env.container_text to_int fromisoformat row clock.0 used)
        (add_none (archive_all env client to_int fromisoformat ccid clock after w))
  archive_all-IsInUse ccid clock (b ∷ before) after row w used =
      let rest : (v : W)
          → archive_all env client to_int fromisoformat ccid clock (before ++ (row ∷ after)) v
            ≡ archive_all env client to_int fromisoformat ccid clock (before ++ after) v =
        λ v. archive_all-IsInUse ccid clock before after row v used in
      let same : archive_all env client to_int fromisoformat ccid clock (before ++ (row ∷ after))
          ≡ archive_all env client to_int fromisoformat ccid clock (before ++ after) =
        λ i v. rest v i in
      rw same refl
