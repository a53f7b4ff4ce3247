-- ===== src/Permits/Steps.antt =====
-- Any interleaving of callers: which bodies of `async with pool.acquire(...)` are running.
use asterixdb_mcp_server.Prelude.{
  ℕ, ◌+◌, ◌-◌, ◌≤◌, ◌<◌, ◌≡◌, String, Option, some, List, [], ◌∷◌, arith, length, ◌==◌, eq_iff,
  if◌then◌else◌,
}
use asterixdb_mcp_server.Prelude.Dict
use asterixdb_mcp_server.Prelude.Dict.{
  Dict, Distinct, count_of, total, total-put, total-remove, get-put, get-remove, get-le-total,
  put-Distinct, remove-Distinct,
}
use asterixdb_mcp_server.Errors.{ok}
use asterixdb_mcp_server.Permits.{PermitPool, init, holds, take, give_back}

-- The running bodies, by principal: how many a principal has, and all but one of it.
unfoldable pub count : String → List String → ℕ
count k [] = 0
count k (j ∷ l) = (if j == k then 1 else 0) + count k l

unfoldable pub leave : String → List String → List String
leave k [] = []
leave k (j ∷ l) = if j == k then l else j ∷ leave k l

pub record State : Type 0 where
  pub pool : PermitPool
  pub running : List String

-- A body starts where `_take` succeeds; a running body ends, in any order, by `_give_back`.
pub data Step (s : State) : State → Type 0 where
  enter :
      (principal : String) {p : PermitPool}
      → take principal s.pool ≡ ok p
      → Step s (record { pool = p; running = principal ∷ s.running })
  exit :
      (principal : String)
      → 0 < count principal s.running
      → Step s (record { pool = give_back principal s.pool; running = leave principal s.running })

pub data Reach (s : State) : State → Type 0 where
  here : Reach s s
  next : {t u : State} → Reach s t → Step t u → Reach s u

-- The pool's counters tell exactly what is running, and both limits hold.
pub record IsAccurate (s : State) : Type 0 where
  pub distinct : Distinct s.pool.held
  pub in_use_running : s.pool.in_use ≡ length s.running
  pub held_running : (k : String) → holds s.pool k ≡ count k s.running
  pub positive : (k : String) (n : ℕ) → Dict.get k s.pool.held ≡ some n → 0 < n
  pub in_capacity : s.pool.in_use ≤ s.pool.capacity
  pub in_share : (k : String) → holds s.pool k ≤ s.pool.per_principal

count-leave :
    (k j : String) (l : List String)
    → 0 < count k l
    → count j (leave k l) + (if k == j then 1 else 0) ≡ count j l
unfolding count leave
count-leave k j [] h = omega arith
count-leave k j (i ∷ l) h = ground (arith, eq_iff i k, eq_iff i j, eq_iff k j, count-leave k j l)

length-leave : (k : String) (l : List String) → 0 < count k l → length (leave k l) + 1 ≡ length l
unfolding count leave
length-leave k [] h = omega arith
length-leave k (i ∷ l) h = ground (arith, eq_iff i k, length-leave k l)

enter-IsAccurate :
    (s : State) (k : String) (p : PermitPool)
    → IsAccurate s
    → take k s.pool ≡ ok p
    → IsAccurate (record { pool = p; running = k ∷ s.running })
unfolding take count
enter-IsAccurate s k p v e = record {
  distinct = ground (arith, put-Distinct k (holds s.pool k + 1) s.pool.held v.distinct);
  in_use_running = ground (arith, v.in_use_running);
  held_running = λ j. ground (
    arith,
    get-put k j (holds s.pool k + 1) s.pool.held,
    v.held_running j,
    v.held_running k,
    eq_iff k j,
  );
  positive = λ j n h. ground (arith, get-put k j (holds s.pool k + 1) s.pool.held, v.positive j n);
  in_capacity = ground (arith, v.in_capacity);
  in_share =
      λ j. ground (arith, get-put k j (holds s.pool k + 1) s.pool.held, v.in_share j, eq_iff k j);
}

exit-IsAccurate :
    (s : State) (k : String)
    → IsAccurate s
    → 0 < count k s.running
    → IsAccurate (record { pool = give_back k s.pool; running = leave k s.running })
unfolding give_back
exit-IsAccurate s k v h = record {
  distinct = ground (
    arith,
    put-Distinct k (holds s.pool k - 1) s.pool.held v.distinct,
    remove-Distinct k s.pool.held v.distinct,
  );
  in_use_running = ground (arith, v.in_use_running, length-leave k s.running h);
  held_running = λ j. ground (
    arith,
    get-put k j (holds s.pool k - 1) s.pool.held,
    get-remove k j s.pool.held,
    v.held_running j,
    v.held_running k,
    count-leave k j s.running h,
    eq_iff k j,
  );
  positive = λ j n e. ground (
    arith,
    get-put k j (holds s.pool k - 1) s.pool.held,
    get-remove k j s.pool.held,
    v.positive j n,
    eq_iff k j,
  );
  in_capacity = ground (arith, v.in_capacity);
  in_share = λ j. ground (
    arith,
    get-put k j (holds s.pool k - 1) s.pool.held,
    get-remove k j s.pool.held,
    v.in_share j,
    v.in_share k,
    eq_iff k j,
  );
}

Step-IsAccurate : {s t : State} → Step s t → IsAccurate s → IsAccurate t
Step-IsAccurate {s} (enter k {p} e) v = enter-IsAccurate s k p v e
Step-IsAccurate {s} (exit k h) v = exit-IsAccurate s k v h

init-IsAccurate :
    (capacity : ℕ) (name : String) (per_principal : Option ℕ) {p : PermitPool}
    → init capacity name per_principal ≡ some p
    → IsAccurate (record { pool = p; running = [] })
unfolding init Dict.get count
init-IsAccurate capacity name per_principal {p} e = record {
  distinct = ground arith;
  in_use_running = ground arith;
  held_running = λ k. ground arith;
  positive = λ k n h. ground arith;
  in_capacity = ground arith;
  in_share = λ k. ground arith;
}

-- From a new pool, whatever the order in which callers come and go: the pool's counters are exactly
-- the numbers of running bodies, in all and of each principal, no counter of 0 is kept, and neither
-- the capacity nor a principal's share is ever exceeded.
pub Reach-IsAccurate :
    (capacity : ℕ) (name : String) (per_principal : Option ℕ) {p : PermitPool} {s : State}
    → init capacity name per_principal ≡ some p
    → Reach (record { pool = p; running = [] }) s
    → IsAccurate s
Reach-IsAccurate capacity name per_principal e here = init-IsAccurate capacity name per_principal e
Reach-IsAccurate capacity name per_principal e (next r st) =
    Step-IsAccurate st (Reach-IsAccurate capacity name per_principal e r)
