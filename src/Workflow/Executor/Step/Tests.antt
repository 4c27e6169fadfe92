-- ===== src/Workflow/Executor/Step/Tests.antt =====
-- Runs of executeStep of internal/workflow/executor.go.
use sqlproxy.Prelude.{
  ℕ, ◌+◌, ◌≡◌, refl, List, [], ◌∷◌, Text, codes, true, Option, some, text_eq, has_prefix, Dict,
  lookup, insert, ok, err, pos,
}
use sqlproxy.Params.Values.{int, text}
use sqlproxy.Params.{Any}
use sqlproxy.Params.Texts.{atoi}
use sqlproxy.Params.Tests.{whole}
use sqlproxy.SqlUtil.Words.{trim_space, trim_left, is_space, contains}
use sqlproxy.Workflow.Context.Results.{Row, StepResult, IterationResult, empty_result}
use sqlproxy.Workflow.Context.Tests.{one_row}
use sqlproxy.Workflow.Executor.Tests.{named_step}
use sqlproxy.Workflow.Executor.Step.{
  StepServices, CompiledStep, parse_int64, param_value, params_of, with_params, compute_params,
  evaluate_step_params,
}
use sqlproxy.Workflow.Executor.Step.Computed.{computed_or, evaluate_step_params_computes}

abbrev called : StepResult whole (IterationResult whole)
called = record (empty_result whole (IterationResult whole)) {
  success = true;
  rows = some one_row;
  count = 1;
  status_code = pos 200;
  response_body = codes "[...]";
}

-- A template is its text, and the cache holds one entry, whatever its key; the world counts the
-- calls beside it.
abbrev services : StepServices whole Unit
services = record {
  World = ℕ × Option (List (Row whole));
  Template = Text;
  Compiled = Unit;
  expr_funcs = [];
  run_template = λ t env. ok t;
  is_whole = λ x. true;
  is_in_range = λ x. true;
  has_cache = true;
  cache_get = λ wf key w. (w, w.1);
  cache_set = λ wf key rows ttl w. (w.0, some rows);
  execute_query_step = λ cfg c env expr w. (w, err (codes "unreachable"));
  execute_http_call_step = λ cfg c env expr w. ((w.0 + 1, w.1), ok called);
  execute_response_step = λ cfg c env w. (w, err (codes "unreachable"));
  execute_block_step = λ cfg c ctx w. (w, err (codes "unreachable"));
}

abbrev call : CompiledStep services
call = record {
  config = record (named_step (codes "call") []) { step_type = codes "httpcall" };
  compiled = tt;
  param_tmpls = [];
  cache_key_tmpl = some (codes "k");
}

abbrev with_limit : CompiledStep services
with_limit = record call {
  param_tmpls = (codes "limit", codes " 10 ") ∷ (codes "sort", codes "name") ∷ [];
}

limit_run :
    compute_params services [] with_limit.param_tmpls []
    ≡ ok ((codes "limit", int (pos 10)) ∷ (codes "sort", text (codes "name")) ∷ [])
unfolding compute_params param_value parse_int64 atoi trim_space trim_left is_space contains
    has_prefix insert text_eq
limit_run = refl

evaluate_step_params_computes_example :
    (params : Dict (Any whole)) × (evaluate_step_params services with_limit []
      ≡ ok (with_params services [] params))
    × ((k : Text)
        → lookup k params
          ≡ computed_or services []
              (lookup k (params_of services []))
              (lookup k with_limit.param_tmpls))
unfolding lookup text_eq
evaluate_step_params_computes_example =
    evaluate_step_params_computes services [] with_limit (refl, (refl, tt))
      ((codes " 10 ", λ params. refl), ((codes "name", λ params. refl), tt))
