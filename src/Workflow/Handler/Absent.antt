-- ===== src/Workflow/Handler/Absent.antt =====
-- Parameters that a request leaves out, in parseParameters of internal/workflow/handler.go.
use sqlproxy.Prelude.{
  ℕ, ◌≡◌, ◌≢◌, refl, sym, ◌∙◌, ◌⊎◌, inl, inr, arith, List, [], Text, codes, true, false, Option,
  none, some, Bool-cases, All-get_elem?, get_elem?, text_eq, has_prefix, Dict, ok, ok-injective,
  >>=-eq-ok, map_err, map_err-eq-ok,
}
use mathlib.Core.Path.{subst}
use sqlproxy.Params.Values.{ValueLibrary}
use sqlproxy.Params.{ParamConfig, Any, kind_of, convert_value}
use sqlproxy.Params.Typing.{NeedsText, convert_value-empty}
use sqlproxy.Workflow.Handler.Binding.{bind_params-All}
use sqlproxy.Workflow.Handler.Parameters.{
  FormRequest, invalid_value, given, from_json, bind_param, body_params, check_form,
  extract_path_params, parse_parameters,
}

module _ (lib : ValueLibrary) where
  -- The request has a value for the parameter: a text, or a member of the JSON body.
  abbrev pub IsSupplied :
      List Text → FormRequest lib → Option (Dict (Any lib)) → ParamConfig → Type 0
  IsSupplied path r json p =
      (text_eq (given lib path r p.name) [] ≡ false)
      ⊎ ((v : Any lib) × (from_json lib json p.name ≡ some v))

  optional_fails :
      (path : List Text) (r : FormRequest lib) (p : ParamConfig) (v : Any lib)
      → p.default ≡ []
      → NeedsText (kind_of p.type_name)
      → text_eq (given lib path r p.name) [] ≡ true
      → bind_param lib path r none p ≢ ok v
  unfolding bind_param from_json
  optional_fails path r p v d k g b = elim (Bool-cases p.required) [
    | inl q ↦ ground (arith, b, g, q)
    | inr q ↦
        let m : map_err (invalid_value p.name) (convert_value lib p.default p.type_name) ≡ ok v =
          ground (arith, b, g, q) in
        convert_value-empty lib p.type_name v k (rw⁻¹ d (map_err-eq-ok _ _ m))
  ]

  -- Without a JSON body the parameters do not parse when a declared one of type int or bool, even
  -- an optional one, has no default and is given neither in the path nor in the query or the form.
  pub parse_parameters_optional :
      (path : Text) (configs : List ParamConfig) (r : FormRequest lib) (i : ℕ) (p : ParamConfig)
      → get_elem? configs i ≡ some p
      → p.default ≡ []
      → NeedsText (kind_of p.type_name)
      → text_eq (given lib (extract_path_params path) r p.name) [] ≡ true
      → has_prefix r.content_type (codes "application/json") ≡ false
      → ¬ ((params : Dict (Any lib)) × (parse_parameters lib path configs r ≡ ok params))
  unfolding parse_parameters body_params
  parse_parameters_optional path configs r i p e d k g c (params, h) =
      let (json, e0, h1) = >>=-eq-ok (body_params lib configs r) _ h in
      let (_, _, h2) = >>=-eq-ok (check_form lib r) _ h1 in
      let names = extract_path_params path in
      let no_json : none ≡ json = ok-injective (sym (rw (body_params, c) refl) ∙ e0) in
      let (v, b) =
        All-get_elem? _ configs i (bind_params-All lib names r json configs [] params h2) e in
      optional_fails names r p v d k g
        (subst (λ j. bind_param lib names r j p ≡ ok v) (sym no_json) b)
