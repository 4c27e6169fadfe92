-- ===== src/Workflow/Handler/Runs.antt =====
-- Runs of ServeHTTP of internal/workflow/handler.go, with a cache that is a map and steps that
-- answer 200.
use sqlproxy.Prelude.{
  ℕ, ◌≡◌, refl, arith, List, [], ◌∷◌, ◌++◌, Text, codes, Bool, true, false, none, some, text_eq,
  has_prefix, Dict, lookup, insert, ok, pos,
}
use sqlproxy.Params.Tests.{whole}
use sqlproxy.Workflow.Handler.Parameters.{parse_parameters, body_params, check_form, bind_params}
use sqlproxy.Workflow.Handler.Headers.{HeaderRequest}
use sqlproxy.Workflow.Handler.Writer.{
  Response, Write, write_header, write, is_informational, allows_body, with_status, perform,
  perform_all, capture_of, capture_write_header, capture_write, capture, capture_all,
}
use sqlproxy.Workflow.Handler.Capture.{
  status_number, is_written, capture_all-perform_all, informational_status_lost,
}
use sqlproxy.Workflow.Handler.Serve.{
  common_headers, check_limits, refusal_of, evaluate_cache_key, cache_key_of, lookup_of,
  check_cache, all_writes, store_capture, respond, serve_checked, serve_params, serve_http,
}
use sqlproxy.Workflow.Handler.Interface.{HttpRequest, Services, HttpHandler}
use sqlproxy.Workflow.Handler.Refusals.{IsRefusal, IsAdmitted, serve_http_refused}
use sqlproxy.Workflow.Handler.Replay.{IsLookedUp, get_after, executed, serve_http_replays}
use sqlproxy.Workflow.Handler.Answers.{IsHonest, reply-IsAnswer, serve_http_answers}

abbrev ascii : Text
ascii = codes "id"

abbrev headers : HeaderRequest
headers = record {
  header = λ name. [];
  cookies = (codes "a", codes "1") ∷ (codes "a", codes "2") ∷ [];
  remote_addr = codes "10.0.0.1:80";
  remote_host = some (codes "10.0.0.1");
  random_id = codes "beef";
}

abbrev clean : Response
clean = record { headers = []; status = none; body = [] }

abbrev created : List Write
created = write_header 201 ∷ write (codes "{}") ∷ []

capture_all-perform_all_example :
    let c = capture_all created (capture_of clean) in
    (c.response ≡ perform_all created clean)
    × (c.status_code ≡ status_number (perform_all created clean).status)
    × (allows_body (perform_all created clean).status ≡ true
        → (perform_all created clean).body ≡ clean.body ++ c.body)
unfolding is_informational
capture_all-perform_all_example = capture_all-perform_all created clean (refl, (tt, tt)) refl

early_hints_run :
    let ws = write_header 103 ∷ write_header 404 ∷ write (codes "{}") ∷ [] in
    ((perform_all ws clean).status ≡ some 404)
    × ((capture_all ws (capture_of clean)).response.status ≡ some 200)
unfolding is_informational
early_hints_run = informational_status_lost 103 404 (codes "{}") clean refl refl refl

abbrev stub : Bool → Services whole
stub allowed = record {
  World = Dict (Text × ℕ);
  Limit = Text;
  Template = Text;
  check_trigger_limits = λ limits c w. (w, ok (allowed, pos 3));
  cache_get = λ name key w. (w, lookup key w);
  cache_set = λ name key body code ttl w. insert key (body, code) w;
  execute = λ d id w. (w, record { error = none; response_sent = true; writes = created });
  execute_template = λ t d. ok t;
  describe = λ e. codes "bad request";
  encode = λ m. codes "{}";
}

abbrev handler : (allowed : Bool) → HttpHandler (stub allowed)
handler allowed = record {
  workflow_name = codes "users";
  method = codes "GET";
  path = codes "/users";
  parameters = [];
  limits = codes "pool" ∷ [];
  cache_key = some (codes "all");
  ttl_sec = some (pos 60);
  has_limiter = true;
  has_cache = true;
  trust_proxy_headers = false;
  version = [];
  build_time = [];
}

abbrev request : HttpRequest whole
request = record {
  method = codes "GET";
  url_path = codes "/users";
  header_request = headers;
  header_map = [];
  query_map = [];
  form = record {
    content_type = [];
    json_body = none;
    form_error = none;
    path_value = λ name. [];
    form_value = λ name. [];
  };
}

limited : ¬ IsAdmitted (stub false) (handler false) request []
unfolding check_limits refusal_of
limited (same, (params, parses, passed)) = cc

serve_http_refused_example :
    let served = serve_http (stub false) (handler false) request [] clean in
    (served.0 ≡ []) × ((code : ℕ) × IsRefusal code × (served.1.status ≡ some code))
serve_http_refused_example =
    serve_http_refused (stub false) (handler false) request (λ w. w ≡ []) (λ limits c w e. e) []
      clean limited refl refl

honest : IsHonest (stub true) (handler true) request
honest d id w sent = reply-IsAnswer 201 (codes "{}")

serve_http_answers_example :
    is_written (serve_http (stub true) (handler true) request [] clean).1.status ≡ true
serve_http_answers_example =
    serve_http_answers (stub true) (handler true) request honest [] clean refl

passes : (w : Dict (Text × ℕ)) → IsLookedUp (stub true) (handler true) request [] (codes "all") w
unfolding check_limits refusal_of cache_key_of evaluate_cache_key parse_parameters body_params
    check_form bind_params has_prefix
passes w = record { method = refl; parses = refl; allowed = refl; keyed = refl }

absent : (get_after (stub true) (handler true) request [] (codes "all") []).1 ≡ none
unfolding check_limits refusal_of lookup
absent = refl

served : Unit {0}
unfolding serve_http serve_params serve_checked respond check_cache lookup_of lookup check_limits
    refusal_of cache_key_of evaluate_cache_key all_writes capture_all capture capture_of
    capture_write_header capture_write perform_all perform with_status is_informational allows_body
    store_capture common_headers text_eq parse_parameters body_params check_form bind_params
    has_prefix
served = tt

answered : (serve_http (stub true) (handler true) request [] clean).1.status ≡ some 201
unfolding served
answered = refl

found_again :
    let first = serve_http (stub true) (handler true) request [] clean in
    (get_after (stub true) (handler true) request [] (codes "all") first.0).1
    ≡ some (first.1.body, 201)
unfolding served insert
found_again = refl

serve_http_replays_example :
    let first = serve_http (stub true) (handler true) request [] clean in
    let second = serve_http (stub true) (handler true) request first.0 clean in
    (first.0
      ≡ insert
          (codes "all")
          (first.1.body, 201)
          (executed (stub true) (handler true) request [] (codes "all") []).0)
    × (second.1.status ≡ first.1.status)
    × (second.1.body ≡ first.1.body)
    × (second.0 ≡ (get_after (stub true) (handler true) request [] (codes "all") first.0).0)
unfolding is_informational allows_body
serve_http_replays_example =
    serve_http_replays (stub true) (handler true) request request [] [] (codes "all") []
      (serve_http (stub true) (handler true) request [] clean).0 clean (passes []) refl refl absent
      (refl, (tt, tt)) 201 answered (omega arith) (omega arith) refl
      (passes (serve_http (stub true) (handler true) request [] clean).0) found_again
