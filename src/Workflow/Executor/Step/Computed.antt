-- ===== src/Workflow/Executor/Step/Computed.antt =====
-- The params that evaluateStepParams of internal/workflow/executor.go computes.
use sqlproxy.Prelude.{
  ◌≡◌, refl, sym, ◌∙◌, ap, inl, inr, [], ◌∷◌, Text, Option, none, some, Bool-cases, All, text_eq,
  text_eq_iff, if◌then◌else◌, Dict, lookup, insert, lookup-insert, Distinct, Result, ok, err,
}
use sqlproxy.Params.Values.{ValueLibrary}
use sqlproxy.Params.{Any}
use sqlproxy.Workflow.Executor.Step.{
  StepServices, CompiledStep, param_value, params_of, with_params, compute_params,
  evaluate_step_params,
}

module _ {lib : ValueLibrary} {Nested : Type 0} (s : StepServices lib Nested)
    (env : Dict (Any lib)) where
  -- The template runs, and its text is the same whatever the params are.
  abbrev pub IsPlain : Text × s.Template → Type 0
  IsPlain (name, t) =
      (v : Text) × ((params : Dict (Any lib)) → s.run_template t (with_params s env params) ≡ ok v)

  abbrev value_of_run : Result Text Text → Option (Any lib)
  value_of_run (ok v) = some (param_value s v)
  value_of_run (err e) = none

  -- the value of a template on the data without params
  abbrev pub computed : s.Template → Option (Any lib)
  computed t = value_of_run (s.run_template t (with_params s env []))

  abbrev pub computed_or : Option (Any lib) → Option s.Template → Option (Any lib)
  computed_or v none = v
  computed_or v (some t) = computed t

  -- One more param, which no template after it computes again.
  computed_step :
      (name k : Text) (t : s.Template) (v : Text) (ts : Dict s.Template) (params : Dict (Any lib))
      → s.run_template t (with_params s env []) ≡ ok v
      → lookup name ts ≡ none
      → computed_or (lookup k (insert name (param_value s v) params)) (lookup k ts)
        ≡ computed_or (lookup k params) (if text_eq name k then some t else lookup k ts)
  computed_step name k t v ts params run absent =
      let inserted = lookup-insert name k (param_value s v) params in
      elim (Bool-cases (text_eq name k)) [
        | inl e ↦
            let same : lookup k ts ≡ none = rw (← (text_eq_iff name k).0 e) absent in
            rw (inserted, e, same) (sym (ap value_of_run run))
        | inr e ↦ rw (inserted, e) refl
      ]

  compute_params_lem :
      (ts : Dict s.Template) (params : Dict (Any lib))
      → Distinct ts
      → All IsPlain ts
      → (params' : Dict (Any lib)) × (compute_params s env ts params ≡ ok params')
        × ((k : Text) → lookup k params' ≡ computed_or (lookup k params) (lookup k ts))
  unfolding compute_params lookup
  compute_params_lem [] params d a = (params, refl, λ k. refl)
  compute_params_lem ((name, t) ∷ ts) params d ((v, run), a) =
      let rest = compute_params_lem ts (insert name (param_value s v) params) d.1 a in
      (
        rest.0,
        simp (compute_params, run params) rest.1,
        λ k. rest.2 k ∙ computed_step name k t v ts params (run []) d.0,
      )

  -- If the names of the params differ, and each template runs with the same text whatever the
  -- params are, the params can be computed, and then each has the value of its own template,
  -- whatever their order is, and every other name keeps its value.
  pub evaluate_step_params_computes :
      (cs : CompiledStep s)
      → Distinct cs.param_tmpls
      → All IsPlain cs.param_tmpls
      → (params : Dict (Any lib)) × (evaluate_step_params s cs env ≡ ok (with_params s env params))
        × ((k : Text)
            → lookup k params ≡ computed_or (lookup k (params_of s env)) (lookup k cs.param_tmpls))
  unfolding evaluate_step_params
  evaluate_step_params_computes cs d a =
      let c = compute_params_lem cs.param_tmpls (params_of s env) d a in
      (c.0, simp (evaluate_step_params, c.1) refl, c.2)
