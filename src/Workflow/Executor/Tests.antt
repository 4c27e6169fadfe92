-- ===== src/Workflow/Executor/Tests.antt =====
-- Runs of Execute of internal/workflow/executor.go, with steps whose names say how they end.
use sqlproxy.Prelude.{
  ℕ, ◌+◌, ◌≡◌, refl, List, [], ◌∷◌, Text, codes, Bool, true, false, Option, none, some,
  if◌then◌else◌, text_eq, ok, pos,
}
use sqlproxy.Workflow.Config.{StepConfig, is_response}
use sqlproxy.Workflow.Executor.{
  Runner, StepResult, CompiledStep, IsDecided, execute, execute-IsDecided, run_steps, record_step,
  should_run, aborts,
}

abbrev result_of : Bool → Option Text → StepResult Text Unit
result_of success error = record {
  name = [];
  result_type = [];
  success = success;
  error = error;
  detail = tt;
}

-- Steps named "bad" fail; `error` is the error that they report, and the world counts the steps.
abbrev runner : Option Text → Runner Unit
runner error = record {
  World = ℕ;
  Error = Text;
  Detail = Unit;
  Condition = Bool;
  cancelled = λ w. none;
  holds = λ c results. ok c;
  execute_step = λ cfg results w. (
    w + 1,
    ok (if text_eq cfg.name (codes "bad") then result_of false error else result_of true none),
  );
}

abbrev pub named_step : Text → Text → StepConfig Unit
named_step name on_error = record {
  name = name;
  disabled = false;
  condition = [];
  on_error = on_error;
  step_type = codes "response";
  cache = none;
  params = [];
  database = [];
  sql = [];
  isolation = [];
  lock_timeout_ms = none;
  deadlock_priority = [];
  json_columns = [];
  url = [];
  http_method = [];
  headers = [];
  body = [];
  parse = [];
  timeout_sec = pos 0;
  retry = none;
  status_code = pos 0;
  template = [];
  iterate = none;
  inputs = [];
  steps = none;
  outputs = [];
}

abbrev step_of : (error : Option Text) → Text → Text → CompiledStep (runner error)
step_of error name on_error = record { config = named_step name on_error; condition = none }

abbrev loud : Option Text
loud = some (codes "failed")

abbrev passing_over : List (CompiledStep (runner loud))
passing_over = step_of loud (codes "bad") (codes "continue") ∷ step_of loud (codes "good") [] ∷ []

-- The first step fails and is passed over, the second responds.
execute_run :
    ((execute (runner loud) passing_over 0).0 ≡ 2)
    × ((execute (runner loud) passing_over 0).1.success ≡ true)
    × ((execute (runner loud) passing_over 0).1.response_sent ≡ true)
unfolding execute run_steps record_step should_run aborts text_eq is_response
execute_run = (refl, refl, refl)

execute-IsDecided_example : IsDecided (runner loud) (execute (runner loud) passing_over 0).1
execute-IsDecided_example = execute-IsDecided (runner loud) passing_over 0
