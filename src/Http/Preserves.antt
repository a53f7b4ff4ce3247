-- ===== src/Http/Preserves.antt =====
-- Invariants of actions: what holds of the world before an action holds after it, however it ends.
use asterixdb_mcp_server.Prelude.{◌≡◌, refl, Bool, true, false, if◌then◌else◌}
use asterixdb_mcp_server.Errors.{GatewayError, Result, ok, err, crash}
use asterixdb_mcp_server.Http.{Exec, pure, raise, lift, ◌>>=◌, continue}

module _ {W : Type 0} (Inv : W → Type 0) where
  pub record Preserves {A : Type 0} (action : Exec W A) : Type 0 where
    pub after : (before : W) → Inv before → Inv (action before).1

module _ {W A B : Type 0} {Inv : W → Type 0} where
  -- What follows a result runs only from a value, and may use that it is the result.
  Preserves-continue :
      (outcome : Result A) (next : A → Exec W B)
      → ((value : A) → outcome ≡ ok value → Preserves Inv (next value))
      → Preserves Inv (continue outcome next)
  Preserves-continue (ok value) next each = each value refl
  Preserves-continue (err e) next each = record { after = λ before inv. inv }
  Preserves-continue crash next each = record { after = λ before inv. inv }

  pub Preserves-lift-then :
      (outcome : Result A) (next : A → Exec W B)
      → ((value : A) → outcome ≡ ok value → Preserves Inv (next value))
      → Preserves Inv (lift outcome >>= next)
  unfolding ◌>>=◌
  Preserves-lift-then outcome next each = record {
    after = λ before inv. (Preserves-continue outcome next each).after before inv;
  }

  pub Preserves-then :
      (action : Exec W A) (next : A → Exec W B)
      → Preserves Inv action
      → ((value : A) → Preserves Inv (next value))
      → Preserves Inv (action >>= next)
  unfolding ◌>>=◌
  Preserves-then action next first each = record {
    after = λ before inv.
        let (outcome, between) = action before in
        (Preserves-continue outcome next λ value _. each value).after between
          (first.after before inv);
  }

module _ {W A : Type 0} {Inv : W → Type 0} where
  pub Preserves-pure : (value : A) → Preserves Inv (pure {W = W} value)
  Preserves-pure value = record { after = λ before inv. inv }

  pub Preserves-raise : (e : GatewayError) → Preserves Inv (raise {W = W} {A = A} e)
  Preserves-raise e = record { after = λ before inv. inv }

  -- A guard: each branch may use how the test came out.
  pub Preserves-test :
      (test : Bool) (taken skipped : Exec W A)
      → (test ≡ true → Preserves Inv taken)
      → (test ≡ false → Preserves Inv skipped)
      → Preserves Inv (if test then taken else skipped)
  Preserves-test true taken skipped on off = on refl
  Preserves-test false taken skipped on off = off refl
