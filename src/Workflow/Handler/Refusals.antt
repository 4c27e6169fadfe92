-- ===== src/Workflow/Handler/Refusals.antt =====
-- The requests that ServeHTTP of internal/workflow/handler.go refuses.
use sqlproxy.Prelude.{
  ℕ, ◌≡◌, refl, sym, ap, ◌∙◌, arith, inl, inr, List, Text, codes, Bool, true, false, ◌&&◌, none,
  some, Option-cases, Bool-cases, text_eq, text_eq_iff, Dict, Result, ok, err, Result-cases,
  some-injective, ℤ,
}
use sqlproxy.Params.Values.{ValueLibrary}
use sqlproxy.Params.{Any}
use sqlproxy.Workflow.Handler.Parameters.{parse_parameters}
use sqlproxy.Workflow.Handler.Headers.{get_or_generate_request_id}
use sqlproxy.Workflow.Handler.Writer.{
  Response, Write, is_informational, with_status, with_status_open, perform, perform_all,
}
use sqlproxy.Workflow.Handler.Serve.{
  common_headers, rate_limit_context, has_limits, refusal_of, check_limits, write_error,
  write_rate_limit_error, serve_checked, serve_params, serve_http,
}
use sqlproxy.Workflow.Handler.Interface.{HttpRequest, Services, HttpHandler, RateLimitContext}

-- The statuses of a refusal: the method, the parameters, the limits, or their check.
pub data IsRefusal : ℕ → Type 0 where
  bad_request : IsRefusal 400
  method_not_allowed : IsRefusal 405
  too_many_requests : IsRefusal 429
  internal_error : IsRefusal 500

module _ {lib : ValueLibrary} (s : Services lib) (h : HttpHandler s) (r : HttpRequest lib) where
  abbrev pub request_id : Text
  request_id = get_or_generate_request_id r.header_request

  -- A request that the handler passes on to the cache and the executor.
  abbrev pub IsAdmitted : s.World → Type 0
  IsAdmitted w =
      (r.method ≡ h.method)
      × ((params : Dict (Any lib)) × (parse_parameters lib h.path h.parameters r.form ≡ ok params)
          × ((check_limits s h r params request_id w).1 ≡ none))

  pub common_headers-status :
      (id : Text) (out : Response) → (perform_all (common_headers s h id) out).status ≡ out.status
  unfolding common_headers perform_all perform
  common_headers-status id out = ground arith

  -- The writes that answer with a status.
  abbrev Answers : ℕ → List Write → Type 0
  Answers code ws = (out : Response) → out.status ≡ none → (perform_all ws out).status ≡ some code

  write_error-Answers :
      (code : ℕ) (message id : Text)
      → is_informational code ≡ false
      → Answers code (write_error s code message id)
  unfolding write_error perform_all perform with_status
  write_error-Answers code message id final out e = simp (with_status_open code out e final) refl

  write_rate_limit_error-Answers :
      (retry : ℤ) (id : Text) → Answers 429 (write_rate_limit_error s retry id)
  unfolding write_rate_limit_error perform_all perform with_status is_informational
  write_rate_limit_error-Answers retry id out e = simp (with_status, e) refl

  refusal_of-Answers :
      (id : Text) (answer : Result Text (Bool × ℤ)) (ws : List Write)
      → refusal_of s id answer ≡ some ws
      → (code : ℕ) × IsRefusal code × Answers code ws
  unfolding refusal_of is_informational
  refusal_of-Answers id (err x) ws e =
      (500, internal_error, rw (sym (some-injective e)) (write_error-Answers 500 _ id refl))
  refusal_of-Answers id (ok (true, retry)) ws e = cc
  refusal_of-Answers id (ok (false, retry)) ws e = (
    429,
    too_many_requests,
    rw (sym (some-injective e)) (write_rate_limit_error-Answers retry id),
  )

  -- A refusal of the limits follows from an answer of the limiter.
  pub check_limits_refused :
      (params : Dict (Any lib)) (id : Text) (w : s.World) (ws : List Write)
      → (check_limits s h r params id w).1 ≡ some ws
      → (answer : Result Text (Bool × ℤ)) × (refusal_of s id answer ≡ some ws)
  unfolding check_limits
  check_limits_refused params id w ws e =
      elim (Bool-cases (h.has_limiter && has_limits s h.limits)) [
        | inl on ↦
            ((s.check_trigger_limits h.limits (rate_limit_context s h r params) w).1, rw on at e)
        | inr off ↦ (let never = rw off at e in cc)
      ]

  -- What the limiter preserves, the check preserves.
  pub check_limits_preserves :
      (P : s.World → Type 0)
      → ((limits : List s.Limit) (c : RateLimitContext lib) (w : s.World)
          → P w
          → P (s.check_trigger_limits limits c w).0)
      → (params : Dict (Any lib)) (id : Text) (w : s.World) → P w
      → P (check_limits s h r params id w).0
  unfolding check_limits
  check_limits_preserves P keeps params id w p =
      elim (Bool-cases (h.has_limiter && has_limits s h.limits)) [
        | inl on ↦ rw on (keeps h.limits (rate_limit_context s h r params) w p)
        | inr off ↦ rw off p
      ]

  perform_all-Answers :
      (id : Text) (out : Response) (code : ℕ) (ws : List Write)
      → Answers code ws
      → out.status ≡ none
      → (perform_all ws (perform_all (common_headers s h id) out)).status ≡ some code
  perform_all-Answers id out code ws a e =
      a (perform_all (common_headers s h id) out) (common_headers-status id out ∙ e)

  error-status :
      (code : ℕ) (message : Text) (out : Response)
      → is_informational code ≡ false
      → out.status ≡ none
      → (perform_all
          (write_error s code message request_id)
          (perform_all (common_headers s h request_id) out)).status
        ≡ some code
  error-status code message out final e =
      perform_all-Answers request_id out code (write_error s code message request_id)
        (write_error-Answers code message request_id final) e

  -- A request with its method and its parameters in order.
  pub serve_http_params :
      (params : Dict (Any lib)) (w : s.World) (out : Response)
      → r.method ≡ h.method
      → parse_parameters lib h.path h.parameters r.form ≡ ok params
      → serve_http s h r w out
        ≡ serve_params s h r params request_id w (perform_all (common_headers s h request_id) out)
  unfolding serve_http
  serve_http_params params w out same good = rw ((text_eq_iff r.method h.method).1 same, good) refl

  serve_params_refused :
      (params : Dict (Any lib)) (id : Text) (w : s.World) (out : Response) (ws : List Write)
      → (check_limits s h r params id w).1 ≡ some ws
      → serve_params s h r params id w out
        ≡ ((check_limits s h r params id w).0, perform_all ws out)
  unfolding serve_params serve_checked
  serve_params_refused params id w out ws over =
      ap (λ x. serve_checked s h r params id x (check_limits s h r params id w).0 out) over

  -- A request with another method, with parameters that do not parse, or refused by the rate
  -- limits is answered with 400, 405, 429 or 500, and what the limiter preserves of the world is
  -- preserved.
  pub serve_http_refused :
      (P : s.World → Type 0)
      → ((limits : List s.Limit) (c : RateLimitContext lib) (w : s.World)
          → P w
          → P (s.check_trigger_limits limits c w).0)
      → (w : s.World) (out : Response) → ¬ IsAdmitted w
      → P w
      → out.status ≡ none
      → let served = serve_http s h r w out in
        P served.0 × ((code : ℕ) × IsRefusal code × (served.1.status ≡ some code))
  unfolding serve_http serve_params is_informational
  serve_http_refused P keeps w out refused p e = elim (Bool-cases (text_eq r.method h.method)) [
    | inr other ↦
        rw other
          (p, (405, method_not_allowed, error-status 405 (codes "method not allowed") out refl e))
    | inl same ↦ elim (Result-cases (parse_parameters lib h.path h.parameters r.form)) [
      | inl (x, bad) ↦
          rw (same, bad) (p, (400, bad_request, error-status 400 (s.describe x) out refl e))
      | inr (params, good) ↦ elim (Option-cases (check_limits s h r params request_id w).1) [
        | inl passed ↦
            absurd (refused ((text_eq_iff r.method h.method).0 same, (params, good, passed)))
        | inr (ws, over) ↦
            let (answer, why) = check_limits_refused params request_id w ws over in
            let (code, which, a) = refusal_of-Answers request_id answer ws why in
            rw
              (
                serve_http_params params w out ((text_eq_iff r.method h.method).0 same) good,
                serve_params_refused params request_id w
                    (perform_all (common_headers s h request_id) out) ws over,
              )
              (
                check_limits_preserves P keeps params request_id w p,
                (code, which, perform_all-Answers request_id out code ws a e),
              )
      ]
    ]
  ]
