-- ===== src/Scopes.antt =====
-- Who is calling, and the state that a connection owns: src/asterixdb_mcp/identity.py and
-- src/asterixdb_mcp/scopes.py. A scope's three state objects are shared by whoever is handed the
-- scope; a serial number tells which scope it is.
pub mod Isolated
pub mod Principal
use asterixdb_mcp_server.Prelude.{
  ℕ, suc, ◌+◌, Bool, true, false, String, Option, none, some, List, [], length, ◌==◌, nonempty,
  strip, take_text, if◌then◌else◌,
}
use asterixdb_mcp_server.Prelude.Dict
use asterixdb_mcp_server.Prelude.Dict.{Dict}
use asterixdb_mcp_server.Config.{Settings}

abbrev pub max_principal_len : ℕ
max_principal_len = 80

abbrev pub local_principal : String
local_principal = "local"

abbrev pub shared_bearer_principal : String
shared_bearer_principal = "shared-bearer"

pub record Identity : Type 0 where
  pub principal : String
  pub session : String

abbrev unattributed : Settings → String
unattributed settings =
    if settings.auth_mode == "bearer" then shared_bearer_principal else local_principal

-- `resolve_principal`, of the client id in the verified token, if there is a token
unfoldable pub resolve_principal : Settings → Option String → String
unfolding strip
resolve_principal settings none = unattributed settings
resolve_principal settings (some client_id) =
    let name = strip client_id in
    if nonempty name then take_text max_principal_len name else unattributed settings

pub record SessionScope : Type 0 where
  pub identity : Identity
  pub serial : ℕ

-- `class ScopeRegistry`; a session object that can be held weakly is a text here.
pub record ScopeRegistry : Type 0 where
  pub by_session : Dict SessionScope
  pub connectionless : Dict SessionScope
  pub made : ℕ

abbrev pub empty : ScopeRegistry
empty = record { by_session = []; connectionless = []; made = 0 }

abbrev pub new_scope : Identity → ScopeRegistry → SessionScope
new_scope who r = record { identity = who; serial = r.made }

unfoldable pub bind_tenant :
    Identity → ScopeRegistry → Option SessionScope → SessionScope × ScopeRegistry
bind_tenant who r (some scope) = (scope, r)
bind_tenant who r none = (
  new_scope who r,
  record r {
    connectionless = Dict.put who.principal (new_scope who r) r.connectionless;
    made = r.made + 1;
  },
)

abbrev bind_new : String → Identity → ScopeRegistry → SessionScope × ScopeRegistry
bind_new session who r = (
  new_scope who r,
  record r { by_session = Dict.put session (new_scope who r) r.by_session; made = r.made + 1 },
)

unfoldable pub bind_session :
    String → Identity → ScopeRegistry → Option SessionScope → SessionScope × ScopeRegistry
bind_session session who r none = bind_new session who r
bind_session session who r (some scope) =
    if scope.identity.principal == who.principal then (scope, r) else bind_new session who r

-- `for_call`, with the session object and the identity that `ctx` and `settings` resolve to
unfoldable pub for_call : Option String → Identity → ScopeRegistry → SessionScope × ScopeRegistry
unfolding bind_tenant bind_session
for_call none who r = bind_tenant who r (Dict.get who.principal r.connectionless)
for_call (some session) who r = bind_session session who r (Dict.get session r.by_session)

-- A connection that ends releases its scope.
unfoldable pub drop_session : String → ScopeRegistry → ScopeRegistry
drop_session session r = record r { by_session = Dict.remove session r.by_session }

unfoldable pub live_count : ScopeRegistry → ℕ
live_count r = length r.by_session + length r.connectionless
