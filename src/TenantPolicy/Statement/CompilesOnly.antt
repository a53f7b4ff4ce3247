-- ===== src/TenantPolicy/Statement/CompilesOnly.antt =====
-- What authorizing a statement asks of the cluster.
use asterixdb_mcp_server.Prelude.{
  ◌≡◌, refl, true, not, String, Option, some, List, [], All, All-append, Bool-cases, inl, inr,
}
use asterixdb_mcp_server.Prelude.Dict
use asterixdb_mcp_server.Prelude.Dict.{get-put}
use asterixdb_mcp_server.Config.{Settings}
use asterixdb_mcp_server.Http.{Form, Transport, Env}
use asterixdb_mcp_server.Http.Preserves.{
  Preserves, Preserves-lift-then, Preserves-then, Preserves-pure, Preserves-test,
}
use asterixdb_mcp_server.QueryForm.{Query}
use asterixdb_mcp_server.QueryForm.Enforced.{build_query_form-compile_only}
use asterixdb_mcp_server.CcClient.{Client, query_form, post_query, compile_query}
use asterixdb_mcp_server.CcClient.ReadOnly.{recording, query_form_lem, timeout_text}
use asterixdb_mcp_server.CcClient.Retry.{answer, posts, is_stale, post_query-posted}
use asterixdb_mcp_server.TenantPolicy.{is_enforced}
use asterixdb_mcp_server.TenantPolicy.Statement.{
  compilation, authorize_compiled, authorize_statement,
}

abbrev pub IsCompilation : Form → Type 0
IsCompilation form = Dict.get "compile-only" form ≡ some "true"

module _ {W : Type 0} (env : Env W) (client : Client) where
  -- Every form that was posted asks for a compilation.
  abbrev pub OnlyCompiled : W × List Form → Type 0
  OnlyCompiled (w, posted) = All IsCompilation posted

  posts-OnlyCompiled :
      (form : Form) (first : Transport)
      → IsCompilation form
      → All IsCompilation (posts env client form first)
  posts-OnlyCompiled form first h = elim (Bool-cases (is_stale first)) [
    | inl e ↦ rw e (h, (h, tt))
    | inr e ↦ rw e (h, tt)
  ]

  post_query-OnlyCompiled :
      (form : Form)
      → IsCompilation form
      → Preserves OnlyCompiled (post_query (recording env) client form)
  post_query-OnlyCompiled form h = record {
    after = λ (w, posted) before. rw (post_query-posted env client form w posted) (
        All-append IsCompilation posted _ before
          (posts-OnlyCompiled form (answer env client form w).0 h));
  }

  -- A compilation posts only compilations.
  pub compile_query-OnlyCompiled :
      (q : Query)
      → q.compiler_parameters ≡ []
      → Preserves OnlyCompiled (compile_query (recording env) client q)
  unfolding compile_query Dict.get
  compile_query-OnlyCompiled q free =
      let q' : Query = record q { compile_only = true } in
      Preserves-lift-then (query_form (recording env) client q') _ (λ form e.
        post_query-OnlyCompiled form (
          rw (query_form_lem env client q' form e) (
            build_query_form-compile_only env.dumps env.container_text (timeout_text env client) q'
              refl (rw free))))

  -- Authorizing a statement only ever asks the cluster to compile: every form that it posts says
  -- `compile-only=true`, whatever the statement and whatever comes back.
  pub authorize_statement-OnlyCompiled :
      (settings : Settings) (statement : String) (dataverse : Option String) (ccid : String) (w : W)
      → All IsCompilation
          (authorize_statement (recording env) client settings statement dataverse ccid (w, [])).1.1
  unfolding authorize_statement authorize_compiled
  authorize_statement-OnlyCompiled settings statement dataverse ccid w =
      (Preserves-test (not (is_enforced settings)) _ _
          (λ off. Preserves-pure {Inv = OnlyCompiled} tt)
          (λ on.
            Preserves-then
              (compile_query (recording env) client (compilation statement dataverse ccid)) _
              (compile_query-OnlyCompiled (compilation statement dataverse ccid) refl)
              (λ envelope. record { after = λ before inv. inv }))).after
        (w, []) tt
