-- ===== src/Workflow/HttpCall/ServerErrors.antt =====
-- A server that answers each attempt of internal/workflow/execute_httpcall.go with a status of 500
-- or more.
use sqlproxy.Prelude.{
  ℕ, zero, suc, ◌-◌, ◌≤◌, ◌≡◌, refl, arith, ◌∙◌, ap, Text, codes, true, false, none, ok, err,
}
use sqlproxy.Workflow.HttpCall.Library.{HttpLibrary, Request, Response}
use sqlproxy.Workflow.HttpCall.Requests.{read_response, build_http_request}
use sqlproxy.Workflow.HttpCall.{
  responded, attempts, is_final, last_attempt, next_backoff, plan_of, CompiledStep, failure, finish,
  text_or, start, execute_http_call_step,
}

module _ (lib : HttpLibrary) (resp : Response lib.Body)
    (answers : (req : Request) (w : lib.World) → (lib.send req w).1 ≡ ok resp)
    (server_error : 500 ≤ resp.status_code)
    (waits : (b : ℕ) (w : lib.World) → (lib.wait b w).1 ≡ none) where
  not_final : is_final lib (ok resp) ≡ false
  unfolding is_final
  not_final = ground (arith, server_error)

  attempts_all_fail :
      (built : Request) (maximum n backoff : ℕ) (req : Request) (w : lib.World)
      → (attempts lib (ok built) maximum n backoff req w).1 ≡ responded true resp
  unfolding attempts last_attempt
  attempts_all_fail built maximum zero backoff req w =
      simp (attempts, answers req w, not_final) refl
  attempts_all_fail built maximum (suc n) backoff req w =
      let w2 = (lib.wait backoff (lib.send req w).0).0 in
      simp (attempts, answers req w, not_final, waits backoff (lib.send req w).0)
        (attempts_all_fail built maximum n (next_backoff maximum backoff) built w2)

  -- If the server answers each attempt with one response of status 500 or more, no wait is
  -- cancelled, the request can be built, and the body cannot be read after it is closed, the step
  -- reports that it could not read the response, with the status 0.
  pub server_error_lost :
      {Nested : Type 0} (cs : CompiledStep lib Nested) (w : lib.World) (url : Text) (req : Request)
      (e : Text)
      → lib.execute cs.url_tmpl ≡ ok url
      → build_http_request lib
          (text_or lib cs.config.http_method (codes "GET"))
          url
          cs.body_tmpl
          cs.header_tmpls
        ≡ ok req
      → lib.read_all true resp.body ≡ err e
      → (execute_http_call_step lib cs w).1 ≡ failure lib (read_response e)
  unfolding execute_http_call_step finish
  server_error_lost cs w url req e hu hb hr =
      let plan = plan_of cs.config.retry in
      let parse = text_or lib cs.config.parse (codes "json") in
      let ended =
        attempts_all_fail req plan.max_backoff (plan.max_attempts - 1) plan.backoff req
          (start lib cs.config.timeout_sec w) in
      simp (execute_http_call_step, hu, hb) (ap (finish lib parse) ended ∙ simp (finish, hr) refl)
