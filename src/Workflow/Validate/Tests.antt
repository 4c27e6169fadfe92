-- ===== src/Workflow/Validate/Tests.antt =====
-- Runs of internal/workflow/validate.go.
use sqlproxy.Prelude.{
  ◌≡◌, refl, inl, inr, [], ◌∷◌, Text, codes, true, false, not, ◌||◌, none, some, Bool-cases,
  Option-cases, All, text_eq, has_prefix, Dict, lookup, insert, ok, ℤ, pos,
}
use sqlproxy.Params.Values.{Value, int}
use sqlproxy.Params.{ParamConfig, kind_of, convert_value}
use sqlproxy.Params.Texts.{atoi, to_lower}
use sqlproxy.Params.Tests.{whole}
use sqlproxy.Workflow.Config.{StepTree, TriggerConfig, WorkflowConfig, is_response, resolved_type}
use sqlproxy.Workflow.Handler.Parameters.{
  FormRequest, extract_path_params, given, from_json, bind_param, bind_params, body_params,
  check_form, parse_parameters,
}
use sqlproxy.Workflow.Handler.Binding.{declares, IsTyped}
use sqlproxy.Workflow.Validate.{validate, is_http, is_cron, any_trigger, count_responses}
use sqlproxy.Workflow.Validate.Cron.{CronLibrary, has_tz_prefix, from_space, Panics}
use sqlproxy.Workflow.Validate.Triggers.{
  ValidationContext, is_valid_http_method, names_set, validate_parameter, is_valid_param_type,
  undefined_path_params,
}
use sqlproxy.Workflow.Validate.Leaves.{
  is_empty, check_name, note_name, step_place, validate_database, contains_template_interpolation,
  closes_template, unknown_word,
}
use sqlproxy.SqlUtil.Samples.{select_one, select_one_reads}
use sqlproxy.RateLimit.InlineKey.{decimal}
use sqlproxy.Workflow.Validate.Steps.{
  ExprLibrary, validate_step, validate_condition, all_refs, with_aliases, check_found, check_refs,
  check_index,
}
use sqlproxy.Workflow.Validate.ReadOnly.{IsGuarded, validate-IsGuarded}
use sqlproxy.Workflow.Validate.Declared.{validate-parse_parameters}
use sqlproxy.Workflow.Validate.Report.{add_issues, add_issue, when}

abbrev query : StepTree 1
query = record {
  name = codes "fetch";
  disabled = false;
  condition = [];
  on_error = [];
  step_type = codes "query";
  cache = none;
  params = [];
  database = codes "main";
  sql = select_one;
  isolation = [];
  lock_timeout_ms = none;
  deadlock_priority = [];
  json_columns = [];
  url = [];
  http_method = [];
  headers = [];
  body = [];
  parse = [];
  timeout_sec = pos 0;
  retry = none;
  status_code = pos 0;
  template = [];
  iterate = none;
  inputs = [];
  steps = none;
  outputs = [];
}

abbrev guarded : StepTree 1
guarded = record query { name = codes "more"; condition = codes "steps.fetch.count > 0" }

abbrev mistyped : StepTree 1
mistyped = record query { step_type = codes "script" }

abbrev by_id : ParamConfig
by_id = record { name = codes "id"; type_name = codes "int"; required = true; default = [] }

abbrev trigger : TriggerConfig
trigger = record {
  trigger_type = codes "http";
  path = codes "/u/{id}";
  method = codes "GET";
  parameters = by_id ∷ [];
  rate_limit = [];
  cache = none;
  schedule = [];
  params = [];
}

abbrev workflow : WorkflowConfig 1
workflow = record {
  name = codes "users";
  timeout_sec = pos 0;
  conditions = [];
  triggers = trigger ∷ [];
  steps = query ∷ guarded ∷ [];
}

abbrev exprs : ExprLibrary
exprs = record {
  valid_expr = λ e. true;
  step_refs = λ e. some (codes "fetch" ∷ []);
  alias_refs = λ e names. some [];
}

abbrev cron : CronLibrary
cron = record { parse_standard = λ e. true; parse_duration = λ e. none }

abbrev careful : CronLibrary
careful = record {
  parse_standard =
      λ e. not (has_tz_prefix e) || (elim (from_space e) [ none ↦ false | some _ ↦ true ]);
  parse_duration = λ e. none;
}

abbrev context : ValidationContext
context = record { databases = (codes "main", true) ∷ []; rate_limit_pools = [] }

valid : (validate cron exprs (some context) workflow).valid ≡ true
unfolding validate add_issues add_issue when has_prefix is_valid_http_method names_set
    extract_path_params validate_parameter is_valid_param_type to_lower undefined_path_params
    is_http is_cron any_trigger is_empty check_name note_name step_place validate_step
    validate_database contains_template_interpolation closes_template unknown_word count_responses
    decimal text_eq lookup insert is_response resolved_type validate_condition all_refs check_found
    check_refs check_index with_aliases
valid = rw select_one_reads refl

validate-IsGuarded_example : All (IsGuarded context 1) (query ∷ guarded ∷ [])
validate-IsGuarded_example = validate-IsGuarded context exprs cron workflow valid

abbrev form : FormRequest whole
form = record {
  content_type = [];
  json_body = none;
  form_error = none;
  path_value = λ name. codes "42";
  form_value = λ name. [];
}

abbrev bound : Dict (Value ℤ Text)
bound = (codes "id", int (pos 42)) ∷ []

parsed : parse_parameters whole trigger.path trigger.parameters form ≡ ok bound
unfolding parse_parameters kind_of bind_params bind_param given from_json body_params check_form
    extract_path_params convert_value atoi has_prefix insert text_eq
parsed = refl

-- A block with the two steps.
abbrev both : StepTree 2
both = record {
  name = codes "both";
  disabled = false;
  condition = [];
  on_error = [];
  step_type = [];
  cache = none;
  params = [];
  database = [];
  sql = [];
  isolation = [];
  lock_timeout_ms = none;
  deadlock_priority = [];
  json_columns = [];
  url = [];
  http_method = [];
  headers = [];
  body = [];
  parse = [];
  timeout_sec = pos 0;
  retry = none;
  status_code = pos 0;
  template = [];
  iterate = none;
  inputs = [];
  steps = some (query ∷ guarded ∷ []);
  outputs = [];
}

abbrev nested : WorkflowConfig 2
nested = record {
  name = codes "users";
  timeout_sec = pos 0;
  conditions = [];
  triggers = trigger ∷ [];
  steps = both ∷ [];
}

validate-parse_parameters_example :
    All
      (λ p.
        (v : Value ℤ Text) × (lookup p.name bound ≡ some v) × IsTyped whole (kind_of p.type_name) v)
      trigger.parameters
    × ((name : Text) → declares trigger.parameters name ≡ false → lookup name bound ≡ none)
unfolding is_http text_eq
validate-parse_parameters_example =
    validate-parse_parameters cron (some context) exprs workflow valid 0 trigger refl refl whole
      form bound parsed

same_standard : (e : Text) → ¬ Panics e → cron.parse_standard e ≡ careful.parse_standard e
same_standard e calm = elim (Bool-cases (has_tz_prefix e)) [
  | inr plain ↦ rw plain refl
  | inl zoned ↦ elim (Option-cases (from_space e)) [
    | inl missing ↦ absurd (calm (zoned, missing))
    | inr (s, found) ↦ rw (zoned, found) refl
  ]
]
