-- ===== src/Workflow/Handler/Binding.antt =====
-- Which parameters parseParameters of internal/workflow/handler.go binds, and to values of which
-- types.
use sqlproxy.Prelude.{
  ◌≡◌, refl, sym, ap, ◌∙◌, inl, inr, arith, List, [], ◌∷◌, Text, Bool, false, ◌||◌, Option, none,
  some, Option-cases, Bool-cases, All, All-map, Ensures, gives, fails, of_Ensures, text_eq,
  text_eq_refl, Dict, lookup, insert, lookup-insert, Result, ok, err, ok-injective, >>=-eq-ok,
  map_err,
}
use sqlproxy.Params.Values.{ValueLibrary}
use sqlproxy.Params.{
  ParamConfig, Any, Kind, as_json, as_array, as_int, as_bool, as_datetime, as_float, as_other,
  kind_of, convert_value,
}
use sqlproxy.Params.Typing.{
  HasKind, HasJsonKind, convert_value-HasKind, convert_json_value-HasJsonKind,
}
use sqlproxy.Workflow.Handler.Parameters.{
  FormRequest, invalid_value, given, from_json, bind_param, bind_params, body_params, check_form,
  extract_path_params, parse_parameters,
}

-- Is a parameter of the name declared?
abbrev pub declares : List ParamConfig → Text → Bool
declares [] name = false
declares (p ∷ ps) name = text_eq p.name name || declares ps name

abbrev pub IsDistinct : List ParamConfig → Type 0
IsDistinct [] = Unit
IsDistinct (p ∷ ps) = (declares ps p.name ≡ false) × IsDistinct ps

name_differs :
    (p : ParamConfig) (ps : List ParamConfig) (name : Text)
    → declares (p ∷ ps) name ≡ false
    → text_eq p.name name ≡ false
name_differs p ps name d = ground (arith, d)

Ensures-of_eq {ℓ κ μ ν} :
    {E : Type ℓ} {F : Type κ} {A : Type μ} (P : A → Type ν) (f : E → F) (m : Result E A)
    → ((a : A) → m ≡ ok a → P a)
    → Ensures P (map_err f m)
Ensures-of_eq P f (ok a) h = gives (h a refl)
Ensures-of_eq P f (err e) h = fails (f e)

module _ (lib : ValueLibrary) where
  -- The type of a bound value: that of its parameter; any for json.
  abbrev pub IsTyped : Kind → Any lib → Type 0
  IsTyped as_json v = Unit
  IsTyped k v = HasKind lib k v

  IsTyped-of_kind : (k : Kind) (v : Any lib) → HasKind lib k v → IsTyped k v
  IsTyped-of_kind as_json v h = tt
  IsTyped-of_kind (as_array base) v h = h
  IsTyped-of_kind as_int v h = h
  IsTyped-of_kind as_bool v h = h
  IsTyped-of_kind as_datetime v h = h
  IsTyped-of_kind as_float v h = h
  IsTyped-of_kind as_other v h = h

  IsTyped-of_json : (k : Kind) (v r : Any lib) → HasJsonKind lib k v r → IsTyped k r
  IsTyped-of_json as_json v r h = tt
  IsTyped-of_json (as_array base) v r h = h
  IsTyped-of_json as_int v r h = h
  IsTyped-of_json as_bool v r h = h
  IsTyped-of_json as_datetime v r h = h
  IsTyped-of_json as_float v r h = h
  IsTyped-of_json as_other v r h = h

  module _ (path : List Text) (r : FormRequest lib) (json : Option (Dict (Any lib))) where
    -- the value that a parameter is bound to
    abbrev IsBound : Dict (Any lib) → ParamConfig → Type 0
    IsBound params p =
        (v : Any lib) × (bind_param lib path r json p ≡ ok v) × (lookup p.name params ≡ some v)

    bind_params_keeps :
        (ps : List ParamConfig) (acc params : Dict (Any lib)) (name : Text)
        → bind_params lib path r json ps acc ≡ ok params
        → declares ps name ≡ false
        → lookup name params ≡ lookup name acc
    unfolding bind_params
    bind_params_keeps [] acc params name h d = ap (lookup name) (sym (ok-injective h))
    bind_params_keeps (p ∷ ps) acc params name h d =
        let (v, _, h1) = >>=-eq-ok (bind_param lib path r json p) _ h in
        bind_params_keeps ps (insert p.name v acc) params name h1 (ground (arith, d))
        ∙ lookup-insert p.name name v acc
        ∙ rw (name_differs p ps name d) refl

    bind_params-IsBound :
        (ps : List ParamConfig) (acc params : Dict (Any lib))
        → IsDistinct ps
        → bind_params lib path r json ps acc ≡ ok params
        → All (IsBound params) ps
    unfolding bind_params
    bind_params-IsBound [] acc params d h = tt
    bind_params-IsBound (p ∷ ps) acc params d h =
        let (v, e, h1) = >>=-eq-ok (bind_param lib path r json p) _ h in
        (
          (
            v,
            e,
            bind_params_keeps ps (insert p.name v acc) params p.name h1 d.0
                ∙ lookup-insert p.name p.name v acc
                ∙ rw (text_eq_refl p.name) refl,
          ),
          bind_params-IsBound ps (insert p.name v acc) params d.1 h1,
        )

    pub bind_params-All :
        (ps : List ParamConfig) (acc params : Dict (Any lib))
        → bind_params lib path r json ps acc ≡ ok params
        → All (λ p. (v : Any lib) × (bind_param lib path r json p ≡ ok v)) ps
    unfolding bind_params
    bind_params-All [] acc params h = tt
    bind_params-All (p ∷ ps) acc params h =
        let (v, e, h1) = >>=-eq-ok (bind_param lib path r json p) _ h in
        ((v, e), bind_params-All ps (insert p.name v acc) params h1)

    text-IsTyped :
        (p : ParamConfig) (value : Text)
        → Ensures
            (IsTyped (kind_of p.type_name))
            (map_err (invalid_value p.name) (convert_value lib value p.type_name))
    text-IsTyped p value =
        Ensures-of_eq (IsTyped (kind_of p.type_name)) (invalid_value p.name) _ λ v e.
          IsTyped-of_kind (kind_of p.type_name) v (convert_value-HasKind lib value p.type_name v e)

    bind_param-IsTyped :
        (p : ParamConfig) → Ensures (IsTyped (kind_of p.type_name)) (bind_param lib path r json p)
    unfolding bind_param
    bind_param-IsTyped p = elim (Bool-cases (text_eq (given lib path r p.name) [])) [
      | inr e ↦ simp (bind_param, e) (text-IsTyped p _)
      | inl e ↦ elim (Option-cases (from_json lib json p.name)) [
        | inr (v, q) ↦
            simp (bind_param, e, q)
              (Ensures-of_eq (IsTyped (kind_of p.type_name)) (invalid_value p.name) _ λ w c.
                IsTyped-of_json (kind_of p.type_name) v w
                  (convert_json_value-HasJsonKind lib v p.type_name w c))
        | inl q ↦ elim (Bool-cases p.required) [
          | inl n ↦ simp (bind_param, e, q, n) (fails _)
          | inr n ↦ simp (bind_param, e, q, n) (text-IsTyped p _)
        ]
      ]
    ]

  -- When the declared names differ and the parameters parse, each declared parameter is bound to a
  -- value of the type that it declares, and no other name is bound.
  pub parse_parameters-IsTyped :
      (path : Text) (configs : List ParamConfig) (r : FormRequest lib) (params : Dict (Any lib))
      → IsDistinct configs
      → parse_parameters lib path configs r ≡ ok params
      → All
          (λ p. (v : Any lib) × (lookup p.name params ≡ some v) × IsTyped (kind_of p.type_name) v)
          configs
        × ((name : Text) → declares configs name ≡ false → lookup name params ≡ none)
  unfolding parse_parameters lookup
  parse_parameters-IsTyped path configs r params d h =
      let (json, _, h1) = >>=-eq-ok (body_params lib configs r) _ h in
      let (_, _, h2) = >>=-eq-ok (check_form lib r) _ h1 in
      let names = extract_path_params path in
      (
        All-map _
            (λ p b. (
              b.0,
              b.2,
              of_Ensures (IsTyped (kind_of p.type_name)) (bind_param-IsTyped names r json p) b.1,
            ))
            configs (bind_params-IsBound names r json configs [] params d h2),
        (λ name n. bind_params_keeps names r json configs [] params name h2 n),
      )
