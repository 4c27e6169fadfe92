-- ===== src/Workflow/Executor/Step.antt =====
-- executeStep, executeStepByType, evaluateCacheKey and evaluateStepParams of
-- internal/workflow/executor.go.
pub mod Computed
pub mod Replay
mod Tests
use sqlproxy.Prelude.{
  ℕ, zero, suc, List, [], ◌∷◌, ◌++◌, Text, codes, Bool, true, false, ◌&&◌, ◌||◌, not, Option, none,
  some, length, if◌then◌else◌, text_eq, Dict, lookup, insert, Result, ok, err, ℤ, pos, negsuc,
}
use sqlproxy.Params.Values.{ValueLibrary, Fields, int, text, object, no_more, field}
use sqlproxy.Params.{Any}
use sqlproxy.Params.Texts.{atoi}
use sqlproxy.SqlUtil.Words.{trim_space, contains}
use sqlproxy.Workflow.Config.{
  StepConfig, StepCacheConfig, resolved_type, type_query, type_httpcall, type_response,
}
use sqlproxy.Workflow.Context.{object_of, build_expr_env}
use sqlproxy.Workflow.Context.Results.{Row, StepResult, IterationResult, Context, empty_result}

-- text/template, exprFuncs, strconv's floats, the cache of steps, and the four kinds of steps.
pub record StepServices (lib : ValueLibrary) (Nested : Type 0) : Type 1 where
  pub World : Type 0
  pub Template : Type 0
  pub Compiled : Type 0
  pub expr_funcs : Dict (Any lib)
  pub run_template : Template → Dict (Any lib) → Result Text Text
  pub is_whole : lib.Float → Bool
  pub is_in_range : lib.Float → Bool
  pub has_cache : Bool
  pub cache_get : Text → Text → World → World × Option (List (Row lib))
  pub cache_set : Text → Text → List (Row lib) → ℤ → World → World
  pub execute_query_step :
      StepConfig Nested
      → Compiled
      → Dict (Any lib)
      → Dict (Any lib)
      → World
      → World × Result Text (StepResult lib (IterationResult lib))
  pub execute_http_call_step :
      StepConfig Nested
      → Compiled
      → Dict (Any lib)
      → Dict (Any lib)
      → World
      → World × Result Text (StepResult lib (IterationResult lib))
  pub execute_response_step :
      StepConfig Nested
      → Compiled
      → Dict (Any lib)
      → World
      → World × Result Text (StepResult lib (IterationResult lib))
  pub execute_block_step :
      StepConfig Nested
      → Compiled
      → Context lib
      → World
      → World × Result Text (StepResult lib (IterationResult lib))

module _ {lib : ValueLibrary} {Nested : Type 0} (s : StepServices lib Nested) where
  -- `compiled` is what the kind of the step needs; the params in the order of the range over the map
  pub record CompiledStep : Type 0 where
    pub config : StepConfig Nested
    pub compiled : s.Compiled
    pub param_tmpls : Dict s.Template
    pub cache_key_tmpl : Option s.Template

  abbrev pub Outcome : Type 0
  Outcome = s.World × Result Text (StepResult lib (IterationResult lib))

  -- an integer as in "123", or a whole number as in "123.0"; an error is `none`
  unfoldable pub parse_int64 : Text → Option ℤ
  parse_int64 t = elim (atoi (trim_space t)) [
    | ok i ↦ some i
    | err _ ↦
        if contains (trim_space t) (codes ".")
        then elim (lib.parse_float (trim_space t)) [
          | err _ ↦ none
          | ok f ↦ if s.is_in_range f && s.is_whole f then some (lib.truncate f) else none
        ]
        else none
  ]

  unfoldable pub param_value : Text → Any lib
  unfolding parse_int64
  param_value t = elim (parse_int64 t) [ some i ↦ int i | none ↦ text t ]

  unfoldable pub dict_of : Fields lib.Float lib.Time → Dict (Any lib)
  dict_of no_more = []
  dict_of (field k v fs) = (k, v) ∷ dict_of fs

  -- data["params"], an empty map without it
  unfoldable pub params_of : Dict (Any lib) → Dict (Any lib)
  unfolding dict_of
  params_of env = elim (lookup (codes "params") env) [
    | some (object fs) ↦ dict_of fs
    | some v ↦ []
    | none ↦ []
  ]

  abbrev pub with_params : Dict (Any lib) → Dict (Any lib) → Dict (Any lib)
  with_params env params = insert (codes "params") (object_of lib params) env

  -- the loop over the params, whose templates see those before them
  unfoldable pub compute_params :
      Dict (Any lib) → Dict s.Template → Dict (Any lib) → Result Text (Dict (Any lib))
  unfolding param_value
  compute_params env [] params = ok params
  compute_params env ((name, t) ∷ ts) params = elim (s.run_template t (with_params env params)) [
    | err e ↦ err (codes "param " ++ name ++ codes ": " ++ e)
    | ok v ↦ compute_params env ts (insert name (param_value v) params)
  ]

  unfoldable pub evaluate_step_params : CompiledStep → Dict (Any lib) → Result Text (Dict (Any lib))
  unfolding params_of compute_params
  evaluate_step_params cs env = elim (compute_params env cs.param_tmpls (params_of env)) [
    | err e ↦ err e
    | ok params ↦ ok (with_params env params)
  ]

  unfoldable pub evaluate_cache_key : s.Template → Dict (Any lib) → Result Text Text
  evaluate_cache_key t env = elim (s.run_template t env) [
    | err e ↦ err (codes "evaluating cache key: " ++ e)
    | ok k ↦ ok k
  ]

  unfoldable pub execute_step_by_type :
      CompiledStep → Context lib → Dict (Any lib) → s.World → Outcome
  unfolding build_expr_env
  execute_step_by_type cs c env w =
      let step_type = resolved_type cs.config in
      if text_eq step_type type_query
      then s.execute_query_step cs.config cs.compiled env (build_expr_env lib s.expr_funcs c) w
      else if text_eq step_type type_httpcall
      then s.execute_http_call_step cs.config cs.compiled env (build_expr_env lib s.expr_funcs c) w
      else if text_eq step_type type_response
      then s.execute_response_step cs.config cs.compiled env w
      else if text_eq step_type (codes "block")
      then s.execute_block_step cs.config cs.compiled c w
      else (
        w,
        ok (record (empty_result lib (IterationResult lib)) {
          error = some (codes "unknown step type: " ++ step_type);
        }),
      )

  -- the seconds that a result is kept, 0 for the default
  unfoldable pub step_ttl : CompiledStep → ℤ
  step_ttl cs = elim cs.config.cache [
    | none ↦ pos 0
    | some cfg ↦ elim cfg.ttl_sec [ pos n ↦ pos n | negsuc n ↦ pos 0 ]
  ]

  -- the result of a step, stored when it has rows
  unfoldable pub store_result : CompiledStep → Text → Text → Outcome → Outcome
  unfolding step_ttl
  store_result cs workflow_name key (w, err e) = (w, err e)
  store_result cs workflow_name key (w, ok r) = elim r.rows [
    | none ↦ (w, ok r)
    | some rows ↦
        (if r.success then s.cache_set workflow_name key rows (step_ttl cs) w else w, ok r)
  ]

  abbrev pub hit_result : List (Row lib) → StepResult lib (IterationResult lib)
  hit_result rows = record (empty_result lib (IterationResult lib)) {
    success = true;
    cache_hit = true;
    rows = some rows;
    count = length rows;
  }

  -- the step behind the cache
  unfoldable pub execute_cached :
      CompiledStep → Context lib → Dict (Any lib) → Text → s.World → Outcome
  unfolding execute_step_by_type store_result
  execute_cached cs c env key w =
      let got = s.cache_get c.workflow_name key w in
      elim got.1 [
        | some rows ↦ (got.0, ok (hit_result rows))
        | none ↦ store_result cs c.workflow_name key (execute_step_by_type cs c env got.0)
      ]

  -- the key that the step is cached under; a key that cannot be evaluated is none
  unfoldable pub step_cache_key : CompiledStep → Dict (Any lib) → Option Text
  unfolding evaluate_cache_key
  step_cache_key cs env =
      let step_type = resolved_type cs.config in
      if (text_eq step_type type_query || text_eq step_type type_httpcall) && s.has_cache
      then elim cs.cache_key_tmpl [
        | none ↦ none
        | some t ↦ elim (evaluate_cache_key t env) [ err _ ↦ none | ok key ↦ some key ]
      ]
      else none

  -- the data of the templates with the computed params
  unfoldable pub template_data : CompiledStep → Context lib → Result Text (Dict (Any lib))
  unfolding evaluate_step_params build_expr_env
  template_data cs c = elim cs.param_tmpls [
    | [] ↦ ok (build_expr_env lib s.expr_funcs c)
    | p ∷ ps ↦ evaluate_step_params cs (build_expr_env lib s.expr_funcs c)
  ]

  unfoldable pub execute_step : CompiledStep → Context lib → s.World → Outcome
  unfolding template_data step_cache_key execute_cached execute_step_by_type
  execute_step cs c w = elim (template_data cs c) [
    | err e ↦ (w, err (codes "evaluating params: " ++ e))
    | ok env ↦ elim (step_cache_key cs env) [
      | some key ↦ execute_cached cs c env key w
      | none ↦ execute_step_by_type cs c env w
    ]
  ]
