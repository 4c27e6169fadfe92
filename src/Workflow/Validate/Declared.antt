-- ===== src/Workflow/Validate/Declared.antt =====
-- The parameters of the triggers that internal/workflow/validate.go accepts.
use sqlproxy.Prelude.{
  ℕ, suc, ◌≡◌, refl, inl, inr, List, [], ◌∷◌, Text, codes, true, false, not, ◌&&◌, Option, none,
  some, Bool-cases, All, All-map, All-get_elem?, get_elem?, Dict, lookup, ok, arith,
}
use sqlproxy.Params.Values.{ValueLibrary}
use sqlproxy.Params.{ParamConfig, Any, kind_of}
use sqlproxy.Params.Texts.{one_of}
use sqlproxy.Workflow.Config.{TriggerConfig, WorkflowConfig, filled}
use sqlproxy.Workflow.Handler.Parameters.{FormRequest, parse_parameters, extract_path_params}
use sqlproxy.Workflow.Handler.Binding.{declares, IsDistinct, IsTyped, parse_parameters-IsTyped}
use sqlproxy.Workflow.Validate.{validate, is_http}
use sqlproxy.Workflow.Validate.Cron.{CronLibrary}
use sqlproxy.Workflow.Validate.Triggers.{
  ValidationContext, indexed, names_set, validate_parameter, validate_parameters,
  validate_http_trigger, validate_trigger,
}
use sqlproxy.Workflow.Validate.Steps.{ExprLibrary}
use sqlproxy.Workflow.Validate.Sections.{validate-Passed}
use sqlproxy.Workflow.Validate.Report.{
  NoErrors, NoErrors-when, duplicate_parameter, path_parameter_optional,
}

-- A parameter that does not bear one of the names.
abbrev IsNew : List Text → ParamConfig → Type 0
IsNew seen p = one_of p.name seen ≡ false

-- A parameter with a name, required if it stands in the path.
abbrev pub IsComplete : List Text → ParamConfig → Type 0
IsComplete path p = (filled p.name ≡ true) × (one_of p.name path ≡ true → p.required ≡ true)

IsNew-tail : (n : Text) (seen : List Text) (p : ParamConfig) → IsNew (n ∷ seen) p → IsNew seen p
IsNew-tail n seen p h = ground arith

declares_new :
    (ps : List ParamConfig) (n : Text) (seen : List Text)
    → All (IsNew (n ∷ seen)) ps
    → declares ps n ≡ false
declares_new [] n seen h = refl
declares_new (p ∷ ps) n seen h =
    let first = h.0 in let rest = declares_new ps n seen h.1 in ground arith

validate_parameter-IsNew :
    (path seen : List Text) (p : ParamConfig) (place : Text)
    → NoErrors (validate_parameter path seen p place)
    → IsNew seen p
unfolding validate_parameter
validate_parameter-IsNew path seen p place h =
    NoErrors-when (one_of p.name seen) place duplicate_parameter h.0

validate_parameter_required :
    (path seen : List Text) (p : ParamConfig) (place : Text)
    → NoErrors (validate_parameter path seen p place)
    → one_of p.name path ≡ true
    → p.required ≡ true
unfolding validate_parameter
validate_parameter_required path seen p place h e =
    let checked =
      NoErrors-when (one_of p.name path && not p.required) place path_parameter_optional h.1.1.1 in
    ground arith

validate_parameters_passed :
    (path : List Text) (prefix : Text) (i : ℕ) (ps : List ParamConfig) (seen : List Text)
    → NoErrors (validate_parameters path prefix i ps seen).0
    → IsDistinct ps × All (IsNew seen) ps × All (IsComplete path) ps
unfolding validate_parameters
validate_parameters_passed path prefix i [] seen h = (tt, tt, tt)
validate_parameters_passed path prefix i (p ∷ ps) seen h = elim (Bool-cases (filled p.name)) [
  | inr empty ↦ absurd (rw empty at h.0)
  | inl named ↦
      let here = rw named at h.0 in
      let (distinct, fresh, complete) =
        validate_parameters_passed path prefix (suc i) ps (p.name ∷ seen) (rw named at h.1) in
      (
        (declares_new ps p.name seen fresh, distinct),
        (
          validate_parameter-IsNew path seen p (indexed prefix (codes "parameters") i) here,
          All-map (IsNew seen) (λ q. IsNew-tail p.name seen q) ps fresh,
        ),
        (
          (
            named,
            validate_parameter_required path seen p (indexed prefix (codes "parameters") i) here,
          ),
          complete,
        ),
      )
]

module _ (cron : CronLibrary) (ctx : Option ValidationContext) where
  validate_trigger_passed :
      (t : TriggerConfig) (place : Text)
      → is_http t ≡ true
      → NoErrors (validate_trigger cron ctx t place)
      → IsDistinct t.parameters
        × All (IsComplete (names_set (extract_path_params t.path) [])) t.parameters
  unfolding validate_trigger validate_http_trigger is_http
  validate_trigger_passed t place http h = elim (Bool-cases (filled t.trigger_type)) [
    | inr empty ↦ absurd (rw empty at h)
    | inl typed ↦
        let checked = rw (typed, http) at h in
        let (distinct, _, complete) =
          validate_parameters_passed (names_set (extract_path_params t.path) []) place 0
            t.parameters [] checked.1.1.0 in
        (distinct, complete)
  ]

  -- The parameters of an HTTP trigger of a workflow that validates have distinct names, and those that
  -- stand in its path are required.
  pub validate-IsComplete :
      (exprs : ExprLibrary) {depth : ℕ} (cfg : WorkflowConfig depth)
      → (validate cron exprs ctx cfg).valid ≡ true
      → (i : ℕ) (t : TriggerConfig) → get_elem? cfg.triggers i ≡ some t
      → is_http t ≡ true
      → IsDistinct t.parameters
        × All (IsComplete (names_set (extract_path_params t.path) [])) t.parameters
  validate-IsComplete exprs cfg e i t found http =
      let (place, passed) =
        All-get_elem? _ cfg.triggers i (validate-Passed cron exprs ctx cfg e).0 found in
      validate_trigger_passed t place http passed

  -- For an HTTP trigger of a workflow that validates, parameters that parse bind each declared
  -- parameter to a value of the Go type for its declared type, and no other name: an array to the
  -- JSON text of an array whose elements are checked against the base type where that is string or
  -- one of the types of int, float and bool, and json to any value.
  pub validate-parse_parameters :
      (exprs : ExprLibrary) {depth : ℕ} (cfg : WorkflowConfig depth)
      → (validate cron exprs ctx cfg).valid ≡ true
      → (i : ℕ) (t : TriggerConfig) → get_elem? cfg.triggers i ≡ some t
      → is_http t ≡ true
      → (lib : ValueLibrary) (r : FormRequest lib) (params : Dict (Any lib))
      → parse_parameters lib t.path t.parameters r ≡ ok params
      → All
          (λ p.
            (v : Any lib) × (lookup p.name params ≡ some v) × IsTyped lib (kind_of p.type_name) v)
          t.parameters
        × ((name : Text) → declares t.parameters name ≡ false → lookup name params ≡ none)
  validate-parse_parameters exprs cfg e i t found http lib r params parsed =
      parse_parameters-IsTyped lib t.path t.parameters r params
        (validate-IsComplete exprs cfg e i t found http).0 parsed
