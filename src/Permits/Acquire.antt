-- ===== src/Permits/Acquire.antt =====
-- `async with pool.acquire(principal): body`. The body is a function on the pool and the rest of the
-- state; it has no value if it has not ended.
use asterixdb_mcp_server.Prelude.{
  ℕ, ◌+◌, ◌<◌, ◌≡◌, refl, String, Option, none, some, [], ◌∷◌, arith, eq_iff, Option-cases, inl,
  inr,
}
use asterixdb_mcp_server.Prelude.Dict
use asterixdb_mcp_server.Prelude.Dict.{Dict, get-put, remove_absent}
use asterixdb_mcp_server.Errors.{Result, ok, err, crash}
use asterixdb_mcp_server.Permits.{PermitPool, who, take, give_back}

abbrev pub Body : Type 0 → Type 0 → Type 0
Body S A = PermitPool × S → Option (Result A × (PermitPool × S))

-- Returning the permit in `finally`, however the body ended.
module _ {S A : Type 0} where
  abbrev pub finally :
      String → Option (Result A × (PermitPool × S)) → Option (Result A × (PermitPool × S))
  finally principal none = none
  finally principal (some (r, (p, s))) = some (r, (give_back principal p, s))

  abbrev pub with_permit : String → Result PermitPool → Body S A → Body S A
  with_permit principal (ok p') body (p, s) = finally principal (body (p', s))
  with_permit principal (err e) body (p, s) = some (err e, (p, s))
  with_permit principal crash body (p, s) = some (crash, (p, s))

  unfoldable pub acquire : Option String → Body S A → Body S A
  unfolding take who
  acquire principal body (p, s) = with_permit (who principal) (take (who principal) p) body (p, s)

put_over : (k : String) (m n : ℕ) (d : Dict ℕ) → Dict.put k n (Dict.put k m d) ≡ Dict.put k n d
unfolding Dict.put
put_over k m n [] = ground (arith, eq_iff k k)
put_over k m n ((j, w) ∷ d) = ground (arith, eq_iff j k, put_over k m n d)

put_same : (k : String) (n : ℕ) (d : Dict ℕ) → Dict.get k d ≡ some n → Dict.put k n d ≡ d
unfolding Dict.put Dict.get
put_same k n [] h = ground arith
put_same k n ((j, w) ∷ d) h = ground (arith, eq_iff j k, put_same k n d)

remove-put :
    (k : String) (n : ℕ) (d : Dict ℕ) → Dict.get k d ≡ none → Dict.remove k (Dict.put k n d) ≡ d
unfolding Dict.put Dict.get Dict.remove
remove-put k n [] h = ground (arith, eq_iff k k)
remove-put k n ((j, w) ∷ d) h = ground (arith, eq_iff j k, remove-put k n d, remove_absent k d)

-- No principal is kept with a counter of 0.
abbrev pub IsTidy : PermitPool → Type 0
IsTidy p = (k : String) (n : ℕ) → Dict.get k p.held ≡ some n → 0 < n

-- The permit that is given back is the one that was taken: nothing else of the pool changes.
pub give_back-take :
    (k : String) (p p' : PermitPool) → IsTidy p → take k p ≡ ok p' → give_back k p' ≡ p
unfolding take give_back
give_back-take k p p' tidy h = elim (Option-cases (Dict.get k p.held)) [
  | inl absent ↦ ground (arith, get-put k k 1 p.held, eq_iff k k, remove-put k 1 p.held)
  | inr (n, present) ↦ ground (
    arith,
    get-put k k (n + 1) p.held,
    eq_iff k k,
    put_over k (n + 1) n p.held,
    put_same k n p.held,
    tidy k n,
  )
]

module _ {S A : Type 0} where
  -- A body that leaves the pool as it found it.
  abbrev pub KeepsPool : PermitPool → Option (Result A × (PermitPool × S)) → Type 0
  KeepsPool p none = Unit {0}
  KeepsPool p (some (r, (p', s))) = p' ≡ p

  finally-KeepsPool :
      (k : String) (p p' : PermitPool) (out : Option (Result A × (PermitPool × S)))
      → give_back k p' ≡ p
      → KeepsPool p' out
      → KeepsPool p (finally k out)
  finally-KeepsPool k p p' none h keeps = tt
  finally-KeepsPool k p p' (some (r, (q, s))) h keeps = rw keeps h

  with_permit-KeepsPool :
      (k : String) (p : PermitPool) (s : S) (body : Body S A) (r : Result PermitPool)
      → IsTidy p
      → ((q : PermitPool) (t : S) → KeepsPool q (body (q, t)))
      → take k p ≡ r
      → KeepsPool p (with_permit k r body (p, s))
  with_permit-KeepsPool k p s body (ok p') tidy keeps e =
      finally-KeepsPool k p p' (body (p', s)) (give_back-take k p p' tidy e) (keeps p' s)
  with_permit-KeepsPool k p s body (err e') tidy keeps e = refl
  with_permit-KeepsPool k p s body crash tidy keeps e = refl

  -- Whether the pool is full, the principal is at its share, the body succeeds, is refused by the
  -- cluster or fails in another way: after the block the pool is what it was before, to the counter.
  pub acquire-KeepsPool :
      (principal : Option String) (p : PermitPool) (s : S) (body : Body S A)
      → IsTidy p
      → ((q : PermitPool) (t : S) → KeepsPool q (body (q, t)))
      → KeepsPool p (acquire principal body (p, s))
  unfolding acquire
  acquire-KeepsPool principal p s body tidy keeps =
      with_permit-KeepsPool (who principal) p s body (take (who principal) p) tidy keeps refl
