-- ===== src/QueryForm/Enforced.antt =====
-- Single fields of the form that `_build_query_form` makes (src/asterixdb_mcp/cc_client.py).
use mathlib.Core.Path.{subst, sym}
use asterixdb_mcp_server.Prelude.{
  true, Bool, ◌≡◌, refl, ◌∙◌, Bool, false, String, Option, none, some, [], ◌∷◌, ◌==◌, eq_iff, arith,
  starts, ◌<>◌, Bool-cases, inl, inr,
}
use asterixdb_mcp_server.Prelude.Dict
use asterixdb_mcp_server.Prelude.Dict.{Dict, get-put}
use asterixdb_mcp_server.Json.{Json}
use asterixdb_mcp_server.Http.{Form}
use asterixdb_mcp_server.QueryForm.{
  Query, scalar_param, put_text, put_if, put_all, base_form, with_parameters, build_query_form,
}

module _ (dumps container_text : Json → String) where
  -- Whatever the statement, the tuning knobs and the bound parameters are called and hold, the form
  -- says `readonly=true` and carries the gateway's own timeout.
  pub build_query_form-readonly :
      (timeout : String) (q : Query)
      → (Dict.get "readonly" (build_query_form dumps container_text timeout q) ≡ some "true")
        × (Dict.get "timeout" (build_query_form dumps container_text timeout q) ≡ some timeout)
  unfolding build_query_form
  build_query_form-readonly timeout q =
      let form = with_parameters dumps container_text q in
      let readonly = Dict.put "readonly" "true" form in
      (
        get-put "timeout" "readonly" timeout readonly ∙ get-put "readonly" "readonly" "true" form,
        get-put "timeout" "timeout" timeout readonly,
      )

  get-put_text :
      (key : String) (value : Option String) (form : Form) (j : String)
      → (key == j) ≡ false
      → Dict.get j (put_text key value form) ≡ Dict.get j form
  unfolding put_text
  get-put_text key none form j h = refl
  get-put_text key (some s) form j h = ground (arith, get-put key j s form)

  get-put_if :
      (test : Bool) (key value : String) (form : Form) (j : String)
      → (key == j) ≡ false
      → Dict.get j (put_if test key value form) ≡ Dict.get j form
  unfolding put_if
  get-put_if test key value form j h = ground (arith, get-put key j value form)

  base_form-statement :
      (q : Query) → Dict.get "statement" (base_form dumps container_text q) ≡ some q.statement
  unfolding base_form Dict.get
  base_form-statement q = simp (get-put_if, get-put_text)

  bound_ne : (key j : String) → starts "$" j ≡ false → (("$" <> key) == j) ≡ false
  unfolding ◌<>◌
  bound_ne key j h = elim (Bool-cases (("$" <> key) == j)) [
    | inl e ↦
        let p : "$" <> key ≡ j = (eq_iff ("$" <> key) j).0 e in
        let no : starts "$" ("$" <> key) ≡ false = subst (λ t. starts "$" t ≡ false) (sym p) h in cc
    | inr e ↦ e
  ]

  -- A bound parameter's field begins with `$`, so it is no other field of the form.
  get-put_all_bound :
      (text : Json → String) (parameters : Dict Json) (form : Form) (j : String)
      → starts "$" j ≡ false
      → Dict.get j (put_all "$" text parameters form) ≡ Dict.get j form
  unfolding put_all
  get-put_all_bound text [] form j h = refl
  get-put_all_bound text ((key, value) ∷ rest) form j h =
      get-put_all_bound text rest (Dict.put ("$" <> key) (text value) form) j h
      ∙ (get-put ("$" <> key) j (text value) form ∙ rw (bound_ne key j h))

  get-put_all_free :
      (text : Json → String) (parameters : Dict Json) (form : Form) (j : String)
      → Dict.get j parameters ≡ none
      → Dict.get j (put_all "" text parameters form) ≡ Dict.get j form
  unfolding put_all Dict.get ◌<>◌
  get-put_all_free text [] form j h = refl
  get-put_all_free text ((key, value) ∷ rest) form j h = ground (
    arith,
    get-put_all_free text rest (Dict.put ("" <> key) (text value) form) j,
    get-put ("" <> key) j (text value) form,
  )

  -- The statement reaches the cluster as it was given: no bound parameter can change it, whatever
  -- its name and value, and no tuning knob but one that is itself called `statement`.
  pub build_query_form-statement :
      (timeout : String) (q : Query)
      → Dict.get "statement" q.compiler_parameters ≡ none
      → Dict.get "statement" (build_query_form dumps container_text timeout q) ≡ some q.statement
  unfolding build_query_form
  build_query_form-statement timeout q h =
      get-put "timeout" "statement" timeout _
      ∙ (get-put "readonly" "statement" "true" _
          ∙ (get-put_all_bound dumps q.statement_parameters _ "statement" refl
              ∙ (get-put_all_free (scalar_param container_text) q.compiler_parameters _ "statement"
                    h
                  ∙ base_form-statement q)))

  get-put_if_here :
      (test : Bool) (value : String) (form : Form)
      → test ≡ true
      → Dict.get "compile-only" (put_if test "compile-only" value form) ≡ some value
  unfolding put_if
  get-put_if_here test value form h =
      rw (h, put_if) (get-put "compile-only" "compile-only" value form)

  base_form-compile_only :
      (q : Query)
      → q.compile_only ≡ true
      → Dict.get "compile-only" (base_form dumps container_text q) ≡ some "true"
  unfolding base_form Dict.get
  base_form-compile_only q h = simp (get-put_if) (get-put_if_here q.compile_only "true" _ h)

  -- A request to compile says so, whatever its bound parameters are called and hold, unless a tuning
  -- knob is itself called `compile-only`.
  pub build_query_form-compile_only :
      (timeout : String) (q : Query)
      → q.compile_only ≡ true
      → Dict.get "compile-only" q.compiler_parameters ≡ none
      → Dict.get "compile-only" (build_query_form dumps container_text timeout q) ≡ some "true"
  unfolding build_query_form
  build_query_form-compile_only timeout q on free =
      get-put "timeout" "compile-only" timeout _
      ∙ (get-put "readonly" "compile-only" "true" _
          ∙ (get-put_all_bound dumps q.statement_parameters _ "compile-only" refl
              ∙ (get-put_all_free (scalar_param container_text) q.compiler_parameters _
                    "compile-only" free
                  ∙ base_form-compile_only q on)))

  put-agree :
      (key value : String) (form other : Form) (j : String)
      → Dict.get j form ≡ Dict.get j other
      → Dict.get j (Dict.put key value form) ≡ Dict.get j (Dict.put key value other)
  put-agree key value form other j h = rw (get-put key j value form, get-put key j value other, h)

  put_all-agree :
      (prefix : String) (text : Json → String) (parameters : Dict Json) (form other : Form)
      (j : String)
      → Dict.get j form ≡ Dict.get j other
      → Dict.get j (put_all prefix text parameters form)
        ≡ Dict.get j (put_all prefix text parameters other)
  unfolding put_all
  put_all-agree prefix text [] form other j h = h
  put_all-agree prefix text ((key, value) ∷ rest) form other j h =
      put_all-agree prefix text rest _ _ j (put-agree (prefix <> key) (text value) form other j h)

  -- A field that no knob names reads as it would without knobs.
  pub build_query_form-free_knobs :
      (timeout : String) (q : Query) (knobs : Dict Json) (j : String)
      → Dict.get j knobs ≡ none
      → Dict.get j
          (build_query_form dumps container_text timeout (record q { compiler_parameters = knobs }))
        ≡ Dict.get j
            (build_query_form dumps container_text timeout (record q { compiler_parameters = [] }))
  unfolding build_query_form with_parameters put_all base_form
  build_query_form-free_knobs timeout q knobs j h = put-agree "timeout" timeout _ _ j (
      put-agree "readonly" "true" _ _ j (
        put_all-agree "$" dumps q.statement_parameters _ _ j
          (get-put_all_free (scalar_param container_text) knobs _ j h)))
