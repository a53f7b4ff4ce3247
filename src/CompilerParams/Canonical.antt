-- ===== src/CompilerParams/Canonical.antt =====
-- What the validation of src/asterixdb_mcp/compiler_params.py lets through.
use mathlib.Core.Path.{subst, sym}
use asterixdb_mcp_server.Prelude.{
  ℕ, ◌≤◌, Never, true, false, String, Option, none, some, [], ◌∷◌, ◌==◌, eq_iff, ◌≡◌, refl, ◌∙◌,
  ◌⊎◌, ◌↔◌, inl, inr, Bool-cases, Option-cases, arith, lower, strip,
}
use asterixdb_mcp_server.Prelude.Dict
use asterixdb_mcp_server.Prelude.Dict.{Dict, Distinct, get-put}
use asterixdb_mcp_server.Json.{Json, null, bool, int, float, str, arr, obj, ℤ, pos, negsuc}
use asterixdb_mcp_server.Errors.{Result, ok, err, crash}
use asterixdb_mcp_server.QueryForm.{Query, build_query_form, int_text}
use asterixdb_mcp_server.QueryForm.Enforced.{build_query_form-free_knobs}
use asterixdb_mcp_server.CompilerParams.{
  ParamKind, boolean, integer, bytes, ParamSpec, known_parameters, below, above, validate_boolean,
  coerce_int, in_range, as_knobs, validate_value, checked, validate_from,
  validate_compiler_parameters,
}

-- The number is no smaller than the one bound, and no greater than the other.
unfoldable pub AtLeast : Option ℕ → ℤ → Type 0
AtLeast none n = Unit {0}
AtLeast (some least) (pos n) = least ≤ n
AtLeast (some least) (negsuc n) = Never {0}

unfoldable pub AtMost : Option ℕ → ℤ → Type 0
AtMost none n = Unit {0}
AtMost (some most) (pos n) = n ≤ most
AtMost (some most) (negsuc n) = Unit {0}

-- The values that a knob may have on the wire: `true` or `false` for a boolean one; for any other the
-- text of a number within the bounds.
unfoldable pub IsCanonical : ParamSpec → String → Type 0
IsCanonical spec s =
    ((spec.kind ≡ boolean) × ((s ≡ "true") ⊎ (s ≡ "false")))
    ⊎ (((spec.kind ≡ integer) ⊎ (spec.kind ≡ bytes))
        × ((n : ℤ) × (s ≡ int_text n) × AtLeast spec.minimum n × AtMost spec.maximum n))

below-AtLeast : (n : ℤ) (least : Option ℕ) → below n least ≡ false → AtLeast least n
unfolding AtLeast below
below-AtLeast n none h = tt
below-AtLeast (pos n) (some least) h = ground arith
below-AtLeast (negsuc n) (some least) h = ground arith

above-AtMost : (n : ℤ) (most : Option ℕ) → above n most ≡ false → AtMost most n
unfolding AtMost above
above-AtMost n none h = tt
above-AtMost (pos n) (some most) h = ground arith
above-AtMost (negsuc n) (some most) h = tt

ok-injective : {A : Type 0} {a b : A} → ok a ≡ ok b → a ≡ b
ok-injective p = ground arith

some-injective : {A : Type 0} {a b : A} → some a ≡ some b → a ≡ b
some-injective p = ground arith

some-none : {A : Type 0} {a : A} → some a ≡ none → ⊥
some-none p = ground arith

-- What may stand under a key of the form.
unfoldable pub IsForwarded : String → String → Type 0
IsForwarded key s =
    (spec : ParamSpec) × (Dict.get key known_parameters ≡ some spec) × IsCanonical spec s

abbrev absent : Option String
absent = none

-- How the field of a key relates to the parameters that were given.
unfoldable pub Answers : Dict Json → String → Option String → Type 0
Answers params key none = Dict.get key params ≡ none
Answers params key (some s) =
    ((value : Json) × (Dict.get key params ≡ some value)) × IsForwarded key s

module _ (repr_value : Json → String) where
  in_range-IsCanonical :
      (key : String) (spec : ParamSpec) (number : Result ℤ) (s : String)
      → (spec.kind ≡ integer) ⊎ (spec.kind ≡ bytes)
      → in_range repr_value key spec number ≡ ok s
      → IsCanonical spec s
  unfolding IsCanonical in_range
  in_range-IsCanonical key spec (ok n) s kind h = elim (Bool-cases (below n spec.minimum)) [
    | inl e ↦ ground arith
    | inr e ↦ elim (Bool-cases (above n spec.maximum)) [
      | inl d ↦ ground arith
      | inr d ↦ inr (
        kind,
        (
          n,
          ok-injective (sym h ∙ rw (e, d) refl),
          below-AtLeast n spec.minimum e,
          above-AtMost n spec.maximum d,
        ),
      )
    ]
  ]
  in_range-IsCanonical key spec (err e) s kind h = ground arith
  in_range-IsCanonical key spec crash s kind h = ground arith

  validate_boolean-true_or_false :
      (key : String) (value : Json) (s : String)
      → validate_boolean repr_value key value ≡ ok s
      → (s ≡ "true") ⊎ (s ≡ "false")
  unfolding validate_boolean
  validate_boolean-true_or_false key (bool true) s h = ground arith
  validate_boolean-true_or_false key (bool false) s h = ground arith
  validate_boolean-true_or_false key (str t) s h =
      ground (arith, eq_iff (lower (strip t)) "true", eq_iff (lower (strip t)) "false")
  validate_boolean-true_or_false key null s h = ground arith
  validate_boolean-true_or_false key (int n) s h = ground arith
  validate_boolean-true_or_false key (float x) s h = ground arith
  validate_boolean-true_or_false key (arr vs) s h = ground arith
  validate_boolean-true_or_false key (obj fs) s h = ground arith

  validate_value-IsCanonical :
      (key : String) (value : Json) (spec : ParamSpec) (s : String)
      → validate_value repr_value key value spec ≡ ok s
      → IsCanonical spec s
  unfolding validate_value IsCanonical
  validate_value-IsCanonical key value spec s h = by_kind spec.kind refl h
    where
      by_kind :
          (k : ParamKind)
          → spec.kind ≡ k
          → elim k [
            | boolean ↦ validate_boolean repr_value key value
            | _ ↦ in_range repr_value key spec (coerce_int repr_value key value spec.kind)
          ]
            ≡ ok s
          → IsCanonical spec s
      by_kind boolean p h = inl (p, validate_boolean-true_or_false key value s h)
      by_kind integer p h = in_range-IsCanonical key spec _ s (inl p) h
      by_kind bytes p h = in_range-IsCanonical key spec _ s (inr p) h

  checked-IsForwarded :
      (key : String) (value : Json) (s : String)
      → checked repr_value key value (Dict.get key known_parameters) ≡ ok s
      → IsForwarded key s
  unfolding IsForwarded checked
  checked-IsForwarded key value s h = elim (Option-cases (Dict.get key known_parameters)) [
    | inl e ↦ absurd (ground (arith, (rw e at h)))
    | inr (spec, e) ↦ (spec, e, validate_value-IsCanonical key value spec s (rw e at h))
  ]

  -- What the loop has put in so far stays, and what it puts in passes.
  validate_from-get :
      (validated : Dict String) (params : Dict Json) (out : Dict String)
      → validate_from repr_value validated params ≡ ok out
      → (key s : String) → Dict.get key out ≡ some s
      → (Dict.get key validated ≡ some s) ⊎ IsForwarded key s
  unfolding validate_from Dict.get Dict.put
  validate_from-get validated [] out h key s g = inl (rw (ok-injective h) g)
  validate_from-get validated ((k, v) ∷ params) out h key s g =
      by_check (checked repr_value k v (Dict.get k known_parameters)) (checked-IsForwarded k v)
        (λ t h'. validate_from-get (Dict.put k t validated) params out h' key s g) h
    where
      by_check :
          (r : Result String)
          → ((t : String) → r ≡ ok t → IsForwarded k t)
          → ((t : String)
              → validate_from repr_value (Dict.put k t validated) params ≡ ok out
              → (Dict.get key (Dict.put k t validated) ≡ some s) ⊎ IsForwarded key s)
          → elim r [
            | ok t ↦ validate_from repr_value (Dict.put k t validated) params
            | err e ↦ err e
            | crash ↦ crash
          ]
            ≡ ok out
          → (Dict.get key validated ≡ some s) ⊎ IsForwarded key s
      by_check (ok t) f later h = elim (later t h) [
        | inl e ↦ elim (Bool-cases (k == key)) [
          | inl same ↦ inr (entry same (rw (get-put k key t validated, same) at e))
          | inr other ↦ inl (rw (get-put k key t validated, other) at e)
        ]
        | inr passed ↦ inr passed
      ]
        where
          entry : (k == key) ≡ true → some t ≡ some s → IsForwarded key s
          entry same e =
              subst (λ j. IsForwarded j s) ((eq_iff k key).0 same)
                (subst (λ x. IsForwarded k x) (some-injective e) (f t refl))
      by_check (err e) f later h = ground arith
      by_check crash f later h = ground arith

  validate_from-none :
      (validated : Dict String) (params : Dict Json) (out : Dict String)
      → validate_from repr_value validated params ≡ ok out
      → (key : String)
      → (Dict.get key out ≡ none) ↔ ((Dict.get key validated ≡ none) × (Dict.get key params ≡ none))
  unfolding validate_from Dict.get
  validate_from-none validated [] out h key =
      rw (sym (ok-injective h)) ((λ e. (e, refl)), (λ e. e.0))
  validate_from-none validated ((k, v) ∷ params) out h key =
      by_check (checked repr_value k v (Dict.get k known_parameters))
        (λ t h'. validate_from-none (Dict.put k t validated) params out h' key) h
    where
      by_check :
          (r : Result String)
          → ((t : String)
              → validate_from repr_value (Dict.put k t validated) params ≡ ok out
              → (Dict.get key out ≡ none)
                ↔ ((Dict.get key (Dict.put k t validated) ≡ none) × (Dict.get key params ≡ none)))
          → elim r [
            | ok t ↦ validate_from repr_value (Dict.put k t validated) params
            | err e ↦ err e
            | crash ↦ crash
          ]
            ≡ ok out
          → (Dict.get key out ≡ none)
            ↔ ((Dict.get key validated ≡ none) × (Dict.get key ((k, v) ∷ params) ≡ none))
      by_check (ok t) later h = elim (Bool-cases (k == key)) [
        | inl same ↦
            let held = rw (get-put k key t validated, same) at (later t h) in
            rw same ((λ e. absurd (some-none (held.0 e).0)), (λ e. absurd (some-none e.1)))
        | inr other ↦
            let held = rw (get-put k key t validated, other) at (later t h) in rw other held
      ]
      by_check (err e) later h = ground arith
      by_check crash later h = ground arith

  -- What the validation returns holds the keys it was given and no other, each of them a key of the
  -- allowlist, with a canonical value: `true` or `false`, or the text of a number in the key's range.
  pub validate_compiler_parameters-Answers :
      (params : Dict Json) (out : Dict String)
      → validate_compiler_parameters repr_value params ≡ ok out
      → (key : String) → Answers params key (Dict.get key out)
  unfolding validate_compiler_parameters Answers Dict.get
  validate_compiler_parameters-Answers params out h key =
      by_field (Dict.get key out) refl (validate_from-none [] params out h key)
        (validate_from-get [] params out h key)
    where
      by_field :
          (o : Option String)
          → Dict.get key out ≡ o
          → ((Dict.get key out ≡ none) ↔ ((absent ≡ none) × (Dict.get key params ≡ none)))
          → ((s : String) → Dict.get key out ≡ some s → (none ≡ some s) ⊎ IsForwarded key s)
          → Answers params key o
      by_field none e same given = (same.0 e).1
      by_field (some s) e same given = (
        elim (Option-cases (Dict.get key params)) [
          | inl missing ↦ absurd (some-none (sym e ∙ same.1 (refl, missing)))
          | inr found ↦ found
        ],
        elim (given s e) [ inl f ↦ absurd (some-none (sym f)) | inr passed ↦ passed ],
      )

get-as_knobs :
    (key : String) (d : Dict String) → Dict.get key d ≡ none → Dict.get key (as_knobs d) ≡ none
unfolding as_knobs Dict.get
get-as_knobs key [] h = refl
get-as_knobs key ((k, s) ∷ d) h = ground (arith, get-as_knobs key d)

module _ (repr_value dumps container_text : Json → String) where
  unknown-unset :
      (params : Dict Json) (out : Dict String)
      → validate_compiler_parameters repr_value params ≡ ok out
      → (key : String) → Dict.get key known_parameters ≡ none
      → Dict.get key out ≡ none
  unfolding IsForwarded Answers
  unknown-unset params out h key unknown =
      by_field (Dict.get key out) refl
        (validate_compiler_parameters-Answers repr_value params out h key)
    where
      by_field :
          (o : Option String)
          → Dict.get key out ≡ o
          → Answers params key o
          → Dict.get key out ≡ none
      by_field none e given = e
      by_field (some s) e given = absurd (some-none (sym given.1.1 ∙ unknown))

  -- Validated knobs set no field of the form but those of the allowlist: any other field reads as it
  -- would without knobs, the statement, its mode and its parameters among them.
  pub validated_knobs-own_fields :
      (timeout : String) (q : Query) (params : Dict Json) (out : Dict String)
      → validate_compiler_parameters repr_value params ≡ ok out
      → (key : String) → Dict.get key known_parameters ≡ none
      → Dict.get key (
          build_query_form dumps container_text timeout
            (record q { compiler_parameters = as_knobs out }))
        ≡ Dict.get key
            (build_query_form dumps container_text timeout (record q { compiler_parameters = [] }))
  validated_knobs-own_fields timeout q params out h key unknown =
      build_query_form-free_knobs dumps container_text timeout q (as_knobs out) key
        (get-as_knobs key out (unknown-unset params out h key unknown))
