-- ===== src/Workflow/Handler/Serve.antt =====
-- ServeHTTP of internal/workflow/handler.go, with what it calls of the limiter, the cache and the
-- executor.
use sqlproxy.Prelude.{
  ℕ, ◌*◌, ◌-◌, ◌%◌, ◌^◌, List, [], ◌∷◌, ◌++◌, Text, codes, Bool, true, false, not, ◌&&◌, Option,
  none, some, ltb, leb, if◌then◌else◌, text_eq, Dict, Result, ok, err, ℤ, pos, negsuc,
}
use sqlproxy.RateLimit.InlineKey.{decimal}
use sqlproxy.Params.Values.{ValueLibrary}
use sqlproxy.Params.{Any}
use sqlproxy.Workflow.Handler.Parameters.{parse_parameters}
use sqlproxy.Workflow.Handler.Headers.{
  get_or_generate_request_id, resolve_client_ip, parse_cookies, flatten,
}
use sqlproxy.Workflow.Handler.Writer.{
  Response, Write, set_header, write_header, write, perform, perform_all, ResponseCapture,
  capture_of, capture_all,
}
use sqlproxy.Workflow.Handler.Interface.{
  HttpRequest, RateLimitContext, TriggerData, http_response, rate_limit_response, Execution,
  Services, HttpHandler, Lookup, disabled, hit, miss,
}

module _ {lib : ValueLibrary} (s : Services lib) where
  -- writeError and writeSuccess
  unfoldable pub write_error : ℕ → Text → Text → List Write
  write_error status message id =
      write_header status ∷ write (s.encode (http_response false message id)) ∷ []

  unfoldable pub write_success : Text → List Write
  write_success id = write_header 200 ∷ write (s.encode (http_response true [] id)) ∷ []

  -- writeRateLimitError
  unfoldable pub write_rate_limit_error : ℤ → Text → List Write
  write_rate_limit_error retry id =
      set_header (codes "Retry-After") (decimal retry [])
      ∷ write_header 429
      ∷ write (s.encode (rate_limit_response (codes "rate limit exceeded") id retry))
      ∷ []

  -- the headers of every answer
  unfoldable pub common_headers : HttpHandler s → Text → List Write
  common_headers h id =
      set_header (codes "Content-Type") (codes "application/json")
      ∷ set_header (codes "X-Request-ID") id
      ∷ (if text_eq h.version []
          then []
          else set_header (codes "X-Server-Version") (
              if not (text_eq h.build_time []) && not (text_eq h.build_time (codes "unknown"))
              then h.version ++ (codes " (built " ++ (h.build_time ++ codes ")"))
              else h.version)
            ∷ [])

  unfoldable pub rate_limit_context :
      HttpHandler s → HttpRequest lib → Dict (Any lib) → RateLimitContext lib
  rate_limit_context h r params = record {
    client_ip = resolve_client_ip r.header_request h.trust_proxy_headers;
    params = params;
    headers = flatten r.header_map;
    query = flatten r.query_map;
    cookies = parse_cookies r.header_request;
  }

  -- len(limits) > 0
  abbrev pub has_limits : List s.Limit → Bool
  has_limits [] = false
  has_limits (l ∷ ls) = true

  -- The refusal that follows from the limiter's answer, if there is one.
  unfoldable pub refusal_of : Text → Result Text (Bool × ℤ) → Option (List Write)
  unfolding write_error write_rate_limit_error
  refusal_of id (err _) = some (write_error 500 (codes "rate limit check failed") id)
  refusal_of id (ok (true, _)) = none
  refusal_of id (ok (false, retry)) = some (write_rate_limit_error retry id)

  unfoldable pub check_limits :
      HttpHandler s
      → HttpRequest lib
      → Dict (Any lib)
      → Text
      → s.World
      → s.World × Option (List Write)
  unfolding refusal_of rate_limit_context
  check_limits h r params id w =
      if h.has_limiter && has_limits h.limits
      then (let answer = s.check_trigger_limits h.limits (rate_limit_context h r params) w in
          (answer.0, refusal_of id answer.1))
      else (w, none)

  unfoldable pub evaluate_cache_key :
      HttpHandler s → s.Template → HttpRequest lib → Dict (Any lib) → Text → Result Text Text
  evaluate_cache_key h t r params id = s.execute_template t record {
    params = params;
    client_ip = resolve_client_ip r.header_request h.trust_proxy_headers;
    method = r.method;
    path = r.url_path;
    headers = flatten r.header_map;
    query = flatten r.query_map;
    cookies = parse_cookies r.header_request;
    request_id = id;
  }

  -- The key of the cache; none without a cache, or when the template fails.
  unfoldable pub cache_key_of :
      HttpHandler s → HttpRequest lib → Dict (Any lib) → Text → Option Text
  unfolding evaluate_cache_key
  cache_key_of h r params id =
      if h.has_cache
      then elim h.cache_key [
        | none ↦ none
        | some t ↦ elim (evaluate_cache_key h t r params id) [ err _ ↦ none | ok key ↦ some key ]
      ]
      else none

  -- TriggerCache.Get with its key: a miss or a hit
  unfoldable pub lookup_of : Text → Option (Text × ℕ) → Lookup
  lookup_of key none = miss key
  lookup_of key (some (body, status)) = hit body status

  unfoldable pub check_cache : HttpHandler s → Option Text → s.World → s.World × Lookup
  unfolding lookup_of
  check_cache h none w = (w, disabled)
  check_cache h (some key) w =
      let found = s.cache_get h.workflow_name key w in (found.0, lookup_of key found.1)

  unfoldable pub trigger_data : HttpHandler s → HttpRequest lib → Dict (Any lib) → TriggerData lib
  trigger_data h r params = record {
    trigger_type = codes "http";
    params = params;
    headers = r.header_map;
    cookies = parse_cookies r.header_request;
    client_ip = resolve_client_ip r.header_request h.trust_proxy_headers;
    method = r.method;
    path = r.url_path;
  }

  -- The answer where no step sent one.
  unfoldable pub default_response : Option Text → Text → List Write
  unfolding write_error write_success
  default_response (some _) id = write_error 500 (codes "workflow execution failed") id
  default_response none id = write_success id

  -- The calls of the steps, and those of the default answer.
  unfoldable pub all_writes : Execution → Text → List Write
  unfolding default_response
  all_writes x id = x.writes ++ (if x.response_sent then [] else default_response x.error id)

  -- time.Duration(n) * time.Second, an int64
  unfoldable pub seconds : ℕ → ℤ
  seconds n =
      let ns = n * 1000000000 % 2 ^ 64 in
      if ltb ns (2 ^ 63) then pos ns else negsuc (2 ^ 64 - 1 - ns)

  -- The time to live, 0 where none is configured.
  unfoldable pub trigger_ttl : HttpHandler s → ℤ
  unfolding seconds
  trigger_ttl h = elim h.ttl_sec [
    | none ↦ pos 0
    | some (pos n) ↦ seconds n
    | some (negsuc n) ↦ pos 0
  ]

  -- The answer is kept in the cache when its status says success.
  unfoldable pub store_capture : HttpHandler s → Text → ResponseCapture → s.World → s.World
  unfolding trigger_ttl
  store_capture h key c w =
      if leb 200 c.status_code && ltb c.status_code 400
      then s.cache_set h.workflow_name key c.body c.status_code (trigger_ttl h) w
      else w

  -- The execution, after the lookup in the cache.
  unfoldable pub respond :
      HttpHandler s
      → HttpRequest lib
      → Dict (Any lib)
      → Text
      → Lookup
      → s.World
      → Response
      → s.World × Response
  unfolding all_writes store_capture trigger_data perform perform_all
  respond h r params id (hit body status) w out = (
    w,
    perform_all (set_header (codes "X-Cache") (codes "HIT") ∷ write_header status ∷ write body ∷ [])
        out,
  )
  respond h r params id disabled w out =
      let run = s.execute (trigger_data h r params) id w in
      (run.0, perform_all (all_writes run.1 id) out)
  respond h r params id (miss key) w out =
      let run = s.execute (trigger_data h r params) id w in
      let c =
        capture_all (all_writes run.1 id)
          (capture_of (perform (set_header (codes "X-Cache") (codes "MISS")) out)) in
      (store_capture h key c run.0, c.response)

  -- ServeHTTP after the check of the limits, with the refusal if there is one
  unfoldable pub serve_checked :
      HttpHandler s
      → HttpRequest lib
      → Dict (Any lib)
      → Text
      → Option (List Write)
      → s.World
      → Response
      → s.World × Response
  unfolding respond check_cache cache_key_of
  serve_checked h r params id (some ws) w out = (w, perform_all ws out)
  serve_checked h r params id none w out =
      let found = check_cache h (cache_key_of h r params id) w in
      respond h r params id found.1 found.0 out

  -- ServeHTTP after the parameters are read
  unfoldable pub serve_params :
      HttpHandler s
      → HttpRequest lib
      → Dict (Any lib)
      → Text
      → s.World
      → Response
      → s.World × Response
  unfolding check_limits serve_checked
  serve_params h r params id w out =
      let limited = check_limits h r params id w in
      serve_checked h r params id limited.1 limited.0 out

  unfoldable pub serve_http :
      HttpHandler s → HttpRequest lib → s.World → Response → s.World × Response
  unfolding serve_params common_headers write_error
  serve_http h r w out =
      let id = get_or_generate_request_id r.header_request in
      let out' = perform_all (common_headers h id) out in
      if text_eq r.method h.method
      then elim (parse_parameters lib h.path h.parameters r.form) [
        | err e ↦ (w, perform_all (write_error 400 (s.describe e) id) out')
        | ok params ↦ serve_params h r params id w out'
      ]
      else (w, perform_all (write_error 405 (codes "method not allowed") id) out')
