-- ===== src/Scopes/Isolated.antt =====
-- Who is handed which scope: `ScopeRegistry.for_call` of src/asterixdb_mcp/scopes.py.
use asterixdb_mcp_server.Prelude.{
  ◌<◌, ◌≡◌, ◌≢◌, refl, ap, false, String, Option, none, some, arith, ◌==◌, eq_iff, Bool-cases, inl,
  inr, ◌⊎◌,
}
use asterixdb_mcp_server.Prelude.Dict
use asterixdb_mcp_server.Prelude.Dict.{Dict, get-put, get-remove}
use asterixdb_mcp_server.Scopes.{
  Identity, SessionScope, ScopeRegistry, empty, new_scope, bind_tenant, bind_session, for_call,
  drop_session,
}

-- A scope without a connection is its tenant's, and the next serial number is new.
pub record IsKeyed (r : ScopeRegistry) : Type 0 where
  pub own :
      (k : String) (s : SessionScope)
      → Dict.get k r.connectionless ≡ some s
      → s.identity.principal ≡ k
  pub made_connectionless :
      (k : String) (s : SessionScope) → Dict.get k r.connectionless ≡ some s → s.serial < r.made
  pub made_by_session :
      (k : String) (s : SessionScope) → Dict.get k r.by_session ≡ some s → s.serial < r.made

-- The scope stands in the registry under the call's key: under its connection, for the caller's
-- tenant, or under the tenant, where there is no connection.
unfoldable pub Holds : Option String → Identity → ScopeRegistry → SessionScope → Type 0
Holds none who r s = Dict.get who.principal r.connectionless ≡ some s
Holds (some session) who r s =
    (Dict.get session r.by_session ≡ some s) × (s.identity.principal ≡ who.principal)

-- What a call gets: a scope of its own tenant, held under its key afterwards. It is the one that was
-- held there, and nothing changes; or none was, and the scope is one that nothing held before has.
-- Another call of the tenant there gets the same one.
pub record IsOwn (session : Option String) (who : Identity) (r : ScopeRegistry)
    (out : SessionScope × ScopeRegistry) : Type 0 where
  pub principal : out.0.identity.principal ≡ who.principal
  pub keyed : IsKeyed out.1
  pub kept :
      (Holds session who r out.0 × (out.1 ≡ r))
      ⊎ (((s : SessionScope) → ¬ Holds session who r s) × (out.0.serial ≡ r.made))
  pub held : Holds session who out.1 out.0
  pub others :
      (k : String) → session ≢ some k → Dict.get k out.1.by_session ≡ Dict.get k r.by_session
  pub again :
      (who' : Identity) → who'.principal ≡ who.principal → (for_call session who' out.1).0 ≡ out.0

bind_tenant-IsOwn :
    (who : Identity) (r : ScopeRegistry) (o : Option SessionScope)
    → IsKeyed r
    → Dict.get who.principal r.connectionless ≡ o
    → IsOwn none who r (bind_tenant who r o)
unfolding bind_tenant for_call Holds
bind_tenant-IsOwn who r (some s) v h = record {
  principal = v.own who.principal s h;
  keyed = v;
  kept = inl (h, refl);
  held = h;
  others = λ k other. refl;
  again = λ who' e. ground arith;
}
bind_tenant-IsOwn who r none v h = record {
  principal = refl;
  keyed = record {
    own = λ k s e. ground (
      arith,
      get-put who.principal k (new_scope who r) r.connectionless,
      eq_iff who.principal k,
      v.own k s,
    );
    made_connectionless = λ k s e. ground (
      arith,
      get-put who.principal k (new_scope who r) r.connectionless,
      v.made_connectionless k s,
    );
    made_by_session = λ k s e. ground (arith, v.made_by_session k s);
  };
  kept = inr ((λ s e. ground (arith, h, e)), refl);
  held = ground (
    arith,
    get-put who.principal who.principal (new_scope who r) r.connectionless,
    eq_iff who.principal who.principal,
  );
  others = λ k other. refl;
  again = λ who' e. ground (
    arith,
    get-put who.principal who'.principal (new_scope who r) r.connectionless,
    eq_iff who.principal who'.principal,
  );
}

new_session-IsOwn :
    (session : String) (who : Identity) (r : ScopeRegistry)
    → IsKeyed r
    → ((s : SessionScope) → ¬ Holds (some session) who r s)
    → IsOwn (some session) who r (bind_session session who r none)
unfolding bind_session for_call Holds
new_session-IsOwn session who r v absent = record {
  principal = refl;
  keyed = record {
    own = λ k s e. v.own k s e;
    made_connectionless = λ k s e. ground (arith, v.made_connectionless k s);
    made_by_session = λ k s e.
        ground (arith, get-put session k (new_scope who r) r.by_session, v.made_by_session k s);
  };
  kept = inr (absent, refl);
  held = (
    ground (arith, get-put session session (new_scope who r) r.by_session, eq_iff session session),
    refl,
  );
  others = λ k other. elim (Bool-cases (session == k)) [
    | inl e ↦ absurd (other (ap some ((eq_iff session k).0 e)))
    | inr e ↦ ground (arith, get-put session k (new_scope who r) r.by_session, e)
  ];
  again = λ who' e. ground (
    arith,
    get-put session session (new_scope who r) r.by_session,
    eq_iff session session,
    eq_iff who.principal who'.principal,
  );
}

bind_session-IsOwn :
    (session : String) (who : Identity) (r : ScopeRegistry) (o : Option SessionScope)
    → IsKeyed r
    → Dict.get session r.by_session ≡ o
    → IsOwn (some session) who r (bind_session session who r o)
unfolding bind_session for_call Holds
bind_session-IsOwn session who r none v h =
    new_session-IsOwn session who r v (λ s e. ground (arith, h, e.0))
bind_session-IsOwn session who r (some s) v h =
    elim (Bool-cases (s.identity.principal == who.principal)) [
      | inl e ↦
          rw (e, bind_session)
            (record {
              principal = (eq_iff s.identity.principal who.principal).0 e;
              keyed = v;
              kept = inl ((h, (eq_iff s.identity.principal who.principal).0 e), refl);
              held = (h, (eq_iff s.identity.principal who.principal).0 e);
              others = λ k other. refl;
              again = λ who' e'. ground (
                arith,
                eq_iff s.identity.principal who.principal,
                eq_iff s.identity.principal who'.principal,
              );
            })
      | inr e ↦ rw (e, bind_session) (new_session-IsOwn session who r v (other_tenant e))
    ]
  where
    other_tenant :
        (s.identity.principal == who.principal) ≡ false
        → (t : SessionScope) → ¬ Holds (some session) who r t
    other_tenant e t held =
        ground (arith, h, held.0, held.1, e, eq_iff s.identity.principal who.principal)

for_call-IsOwn :
    (session : Option String) (who : Identity) (r : ScopeRegistry)
    → IsKeyed r
    → IsOwn session who r (for_call session who r)
unfolding for_call
for_call-IsOwn none who r v = bind_tenant-IsOwn who r _ v refl
for_call-IsOwn (some session) who r v = bind_session-IsOwn session who r _ v refl

drop_session-IsKeyed :
    (session : String) (r : ScopeRegistry) → IsKeyed r → IsKeyed (drop_session session r)
unfolding drop_session
drop_session-IsKeyed session r v = record {
  own = v.own;
  made_connectionless = v.made_connectionless;
  made_by_session =
      λ k s e. ground (arith, get-remove session k r.by_session, v.made_by_session k s);
}

empty-IsKeyed : IsKeyed empty
unfolding Dict.get
empty-IsKeyed = record {
  own = λ k s e. ground arith;
  made_connectionless = λ k s e. ground arith;
  made_by_session = λ k s e. ground arith;
}

-- What happens to a registry: a call, on a connection or on none, or the end of a connection.
pub data Reach : ScopeRegistry → Type 0 where
  start : Reach empty
  called :
      {r : ScopeRegistry} (session : Option String) (who : Identity)
      → Reach r
      → Reach (for_call session who r).1
  ended : {r : ScopeRegistry} (session : String) → Reach r → Reach (drop_session session r)

Reach-IsKeyed : {r : ScopeRegistry} → Reach r → IsKeyed r
Reach-IsKeyed start = empty-IsKeyed
Reach-IsKeyed (called {r} session who h) = (for_call-IsOwn session who r (Reach-IsKeyed h)).keyed
Reach-IsKeyed (ended {r} session h) = drop_session-IsKeyed session r (Reach-IsKeyed h)

-- Whatever calls and disconnections came before, a call gets a scope of its own tenant, which the
-- registry then holds under its key: its connection, or the tenant for a call on none. If one of the
-- tenant was held there, it is that one, and the registry stays as it is; if not, it is one that
-- nothing held before has. No other connection's scope changes, and the next call of that tenant
-- there gets the same scope.
pub for_call-Reach :
    (session : Option String) (who : Identity) {r : ScopeRegistry}
    → Reach r
    → IsOwn session who r (for_call session who r)
for_call-Reach session who {r} h = for_call-IsOwn session who r (Reach-IsKeyed h)
