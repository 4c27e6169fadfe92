-- ===== src/Workflow/Tests.antt =====
-- Runs of internal/workflow, with a network that counts requests and waits.
use sqlproxy.Prelude.{
  ℕ, ◌+◌, ◌*◌, ◌≡◌, refl, arith, [], Text, codes, true, false, none, some, ok, err, ltb,
  if◌then◌else◌, text_eq, pos,
}
use sqlproxy.Workflow.Config.{StepConfig}
use sqlproxy.Workflow.HttpCall.Library.{HttpLibrary, Request, other}
use sqlproxy.Workflow.HttpCall.Requests.{read_response, build_http_request}
use sqlproxy.Workflow.HttpCall.Retry.{IsBounded, attempts-IsBounded}
use sqlproxy.Workflow.HttpCall.Outcome.{IsConsistent, execute_http_call_step-IsConsistent}
use sqlproxy.Workflow.HttpCall.Bounds.{IsLimited, execute_http_call_step-IsLimited}
use sqlproxy.Workflow.HttpCall.ServerErrors.{server_error_lost}
use sqlproxy.Workflow.HttpCall.{
  CompiledStep, next_backoff, attempts, plan_of, failure, second, start, execute_http_call_step,
}

abbrev retried : StepConfig Unit
retried = record {
  name = codes "call";
  disabled = false;
  condition = [];
  on_error = [];
  step_type = codes "httpcall";
  cache = none;
  params = [];
  database = [];
  sql = [];
  isolation = [];
  lock_timeout_ms = none;
  deadlock_priority = [];
  json_columns = [];
  url = codes "http://a/";
  http_method = [];
  headers = [];
  body = [];
  parse = codes "text";
  timeout_sec = pos 0;
  retry = some (record {
    enabled = true;
    max_attempts = pos 3;
    initial_backoff_sec = pos 1;
    max_backoff_sec = pos 2;
  });
  status_code = pos 0;
  template = [];
  iterate = none;
  inputs = [];
  steps = none;
  outputs = [];
}

abbrev untyped : StepConfig Unit
untyped = record retried { step_type = []; url = []; template = codes "{}" }

abbrev World : Type 0
World = ℕ × ℕ

-- The server answers the n-th request with the status `status n`.
abbrev network : (ℕ → ℕ) → HttpLibrary
network status = record {
  World = World;
  Template = Text;
  Body = Text;
  Value = Text;
  execute = λ t. ok t;
  invalid_request = λ m u. none;
  canonical = λ t. t;
  with_timeout = λ t w. w;
  send = λ req w. (
    (w.0 + 1, w.1),
    ok (record { status_code = status w.0; headers = []; body = codes "hello" }),
  );
  wait = λ b w. ((w.0, w.1 + b), none);
  read_all = λ closed b. if closed then err (codes "closed") else ok b;
  unmarshal = λ t. ok t;
  kind = λ v. other;
  parse_query = λ t. ok [];
  string = λ t. t;
  strings = λ ts. [];
}

-- two failures, and then success
abbrev flaky : HttpLibrary
flaky = network (λ n. if ltb n 2 then 500 else 200)

abbrev broken : HttpLibrary
broken = network (λ n. 503)

abbrev compiled : (lib : ℕ → ℕ) → CompiledStep (network lib) Unit
compiled status = record {
  config = retried;
  url_tmpl = codes "http://a/";
  body_tmpl = none;
  header_tmpls = [];
}

abbrev two_failures : ℕ → ℕ
two_failures n = if ltb n 2 then 500 else 200

abbrev request : Request
request = record { method = codes "GET"; url = codes "http://a/"; headers = []; body = none }

-- The third attempt is kept, after waits of one and two seconds.
flaky_run : (execute_http_call_step flaky (compiled two_failures) (0, 0)).0 ≡ (3, 3 * second)
unfolding next_backoff execute_http_call_step plan_of attempts start build_http_request text_eq
flaky_run = refl

attempts-IsBounded_example :
    IsBounded flaky
      (λ w. w.0)
      (λ w. w.1)
      2
      (2 * second)
      (0, 0)
      (attempts flaky (ok request) (2 * second) 2 second request (0, 0))
attempts-IsBounded_example =
    attempts-IsBounded flaky (λ w. w.0) (λ w. w.1) (λ req w. refl) (λ req w. refl) (λ b w. refl)
      (λ b w. omega arith) (ok request) (2 * second) 2 second (2 * second) request (0, 0)
      (omega arith) (omega arith)

execute_http_call_step-IsConsistent_example :
    IsConsistent flaky (execute_http_call_step flaky (compiled two_failures) (0, 0)).1
execute_http_call_step-IsConsistent_example =
    execute_http_call_step-IsConsistent flaky (compiled two_failures) (0, 0)

execute_http_call_step-IsLimited_example :
    IsLimited {World = World}
      (λ w. w.0)
      (λ w. w.1)
      (plan_of retried.retry).max_attempts
      (2 * second)
      (0, 0)
      (execute_http_call_step flaky (compiled two_failures) (0, 0)).0
unfolding plan_of
execute_http_call_step-IsLimited_example =
    execute_http_call_step-IsLimited flaky (λ w. w.0) (λ w. w.1) (λ req w. refl) (λ req w. refl)
      (λ b w. refl) (λ b w. omega arith) (λ t w. refl) (λ t w. refl) (compiled two_failures) (0, 0)
      (2 * second) (omega arith) (omega arith)

server_error_lost_example :
    (execute_http_call_step broken (compiled (λ n. 503)) (0, 0)).1
    ≡ failure broken (read_response (codes "closed"))
unfolding build_http_request text_eq
server_error_lost_example =
    server_error_lost broken (record { status_code = 503; headers = []; body = codes "hello" })
      (λ req w. refl) (omega arith) (λ b w. refl) (compiled (λ n. 503)) (0, 0) (codes "http://a/")
      request (codes "closed") refl refl refl
