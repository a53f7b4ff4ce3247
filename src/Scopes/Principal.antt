-- ===== src/Scopes/Principal.antt =====
-- The name that a caller's state is kept under: `resolve_principal` of src/asterixdb_mcp/identity.py.
use asterixdb_mcp_server.Prelude.{
  ◌≤◌, ◌≡◌, true, String, Option, none, some, arith, chars, nonempty, strip, take_text,
  take_text-chars, ◌==◌, Bool-cases, inl, inr,
}
use asterixdb_mcp_server.Config.{Settings}
use asterixdb_mcp_server.Scopes.{max_principal_len, unattributed, resolve_principal}

abbrev pub Bounded : String → Type 0
Bounded name = (1 ≤ chars name) × (chars name ≤ max_principal_len)

unattributed-Bounded : (settings : Settings) → Bounded (unattributed settings)
unattributed-Bounded settings = elim (Bool-cases (settings.auth_mode == "bearer")) [
  | inl e ↦ rw e (omega arith, omega arith)
  | inr e ↦ rw e (omega arith, omega arith)
]

cut_name-Bounded :
    (name : String) → nonempty name ≡ true → Bounded (take_text max_principal_len name)
cut_name-Bounded String.[] h = cc
cut_name-Bounded (String.◌∷◌ c s) h = (omega arith, omega (arith, take_text-chars 79 s))

-- Whatever the client id in a token holds, and if there is none: a tenant's name has at least one
-- character and at most 80, so no caller is kept under the empty name.
pub resolve_principal-Bounded :
    (settings : Settings) (client_id : Option String)
    → Bounded (resolve_principal settings client_id)
unfolding resolve_principal
resolve_principal-Bounded settings none = unattributed-Bounded settings
resolve_principal-Bounded settings (some client_id) =
    elim (Bool-cases (nonempty (strip client_id))) [
      | inl e ↦ rw (e, resolve_principal) (cut_name-Bounded (strip client_id) e)
      | inr e ↦ rw (e, resolve_principal) (unattributed-Bounded settings)
    ]
