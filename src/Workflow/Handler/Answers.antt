-- ===== src/Workflow/Handler/Answers.antt =====
-- ServeHTTP of internal/workflow/handler.go answers every request.
use sqlproxy.Prelude.{
  ℕ, ◌≡◌, refl, ap, sym, ◌∙◌, arith, inl, inr, List, [], ◌∷◌, ◌++◌, Text, codes, Bool, true, false,
  Option, none, some, Option-cases, Bool-cases, text_eq, Dict, Result, ok, err, Result-cases,
  some-injective, ℤ,
}
use mathlib.Core.List.{append-nil}
use sqlproxy.RateLimit.InlineKey.{decimal}
use sqlproxy.Params.Values.{ValueLibrary}
use sqlproxy.Params.{Any}
use sqlproxy.Workflow.Handler.Parameters.{parse_parameters}
use sqlproxy.Workflow.Handler.Writer.{
  is_informational, Response, Write, set_header, write_header, write, with_status, perform,
  perform_all, ResponseCapture, capture_of, capture_write_header, capture_write, capture,
  capture_all,
}
use sqlproxy.Workflow.Handler.Capture.{is_written}
use sqlproxy.Workflow.Handler.Refusals.{request_id, check_limits_refused, common_headers-status}
use sqlproxy.Workflow.Handler.Serve.{
  common_headers, default_response, refusal_of, write_rate_limit_error, write_error, write_success,
  check_limits, cache_key_of, check_cache, trigger_data, all_writes, respond, serve_checked,
  serve_params, serve_http,
}
use sqlproxy.Workflow.Handler.Interface.{
  HttpRequest, Services, HttpHandler, TriggerData, Lookup, hit, miss, disabled, http_response,
  rate_limit_response,
}

-- A list of calls that ends a response: they write a final status, whatever was written before,
-- through a capture too.
abbrev pub IsAnswer : List Write → Type 0
IsAnswer ws =
    ((out : Response) → is_written (perform_all ws out).status ≡ true)
    × ((c : ResponseCapture) → is_written (capture_all ws c).response.status ≡ true)

perform_written :
    (w : Write) (out : Response)
    → is_written out.status ≡ true
    → is_written (perform w out).status ≡ true
unfolding perform with_status
perform_written (set_header n v) out e = e
perform_written (write_header code) out e = ground arith
perform_written (write b) out e = ground arith

write_written : (b : Text) (out : Response) → is_written (perform (write b) out).status ≡ true
unfolding perform with_status is_informational
write_written b out = elim (Option-cases out.status) [
  | inl n ↦ simp (with_status, n) refl
  | inr (code, n) ↦ simp (with_status, n) refl
]

capture-write :
    (b : Text) (c : ResponseCapture) → (capture (write b) c).response ≡ perform (write b) c.response
unfolding capture capture_write
capture-write b c = elim (Bool-cases c.wrote_header) [
  | inl e ↦ simp (capture_write, e) refl
  | inr e ↦ simp (capture_write, e) refl
]

capture_written :
    (w : Write) (c : ResponseCapture)
    → is_written c.response.status ≡ true
    → is_written (capture w c).response.status ≡ true
unfolding capture capture_write_header perform
capture_written (set_header n v) c e = e
capture_written (write_header code) c e = elim (Bool-cases c.wrote_header) [
  | inl seen ↦ simp (capture_write_header, seen) e
  | inr fresh ↦
      simp (capture_write_header, fresh) (perform_written (write_header code) c.response e)
]
capture_written (write b) c e =
    ap (λ (r : Response). is_written r.status) (capture-write b c) ∙ write_written b c.response

perform_all_written :
    (ws : List Write) (out : Response)
    → is_written out.status ≡ true
    → is_written (perform_all ws out).status ≡ true
unfolding perform_all
perform_all_written [] out e = e
perform_all_written (w ∷ ws) out e =
    perform_all_written ws (perform w out) (perform_written w out e)

capture_all_written :
    (ws : List Write) (c : ResponseCapture)
    → is_written c.response.status ≡ true
    → is_written (capture_all ws c).response.status ≡ true
unfolding capture_all
capture_all_written [] c e = e
capture_all_written (w ∷ ws) c e = capture_all_written ws (capture w c) (capture_written w c e)

pub write-IsAnswer : (b : Text) (ws : List Write) → IsAnswer (write b ∷ ws)
unfolding perform_all capture_all
write-IsAnswer b ws = (
  λ out. perform_all_written ws (perform (write b) out) (write_written b out),
  λ c.
      capture_all_written ws (capture (write b) c) (
        ap (λ (r : Response). is_written r.status) (capture-write b c)
        ∙ write_written b c.response),
)

pub ++-IsAnswer : (ws vs : List Write) → IsAnswer vs → IsAnswer (ws ++ vs)
unfolding perform_all capture_all
++-IsAnswer [] vs a = a
++-IsAnswer (w ∷ ws) vs a =
    let (plain, captured) = ++-IsAnswer ws vs a in
    (λ out. plain (perform w out), λ c. captured (capture w c))

-- a status and a body
pub reply-IsAnswer : (code : ℕ) (b : Text) → IsAnswer (write_header code ∷ write b ∷ [])
reply-IsAnswer code b = ++-IsAnswer (write_header code ∷ []) (write b ∷ []) (write-IsAnswer b [])

module _ {lib : ValueLibrary} (s : Services lib) (h : HttpHandler s) (r : HttpRequest lib) where
  -- What the executor promises by ResponseSent.
  abbrev pub IsHonest : Type 0
  IsHonest =
      (d : TriggerData lib) (id : Text) (w : s.World)
      → (s.execute d id w).1.response_sent ≡ true
      → IsAnswer (s.execute d id w).1.writes

  write_error-IsAnswer : (code : ℕ) (message id : Text) → IsAnswer (write_error s code message id)
  unfolding write_error
  write_error-IsAnswer code message id =
      reply-IsAnswer code (s.encode (http_response false message id))

  default_response-IsAnswer : (e : Option Text) (id : Text) → IsAnswer (default_response s e id)
  unfolding default_response write_success
  default_response-IsAnswer none id = reply-IsAnswer 200 (s.encode (http_response true [] id))
  default_response-IsAnswer (some x) id =
      write_error-IsAnswer 500 (codes "workflow execution failed") id

  all_writes-IsAnswer :
      IsHonest
      → (d : TriggerData lib) (id : Text) (w : s.World)
      → IsAnswer (all_writes s (s.execute d id w).1 id)
  unfolding all_writes
  all_writes-IsAnswer honest d id w = elim (Bool-cases (s.execute d id w).1.response_sent) [
    | inl sent ↦ rw (sent, append-nil (s.execute d id w).1.writes) (honest d id w sent)
    | inr none_sent ↦ rw none_sent (
        ++-IsAnswer (s.execute d id w).1.writes (default_response s (s.execute d id w).1.error id)
          (default_response-IsAnswer (s.execute d id w).1.error id))
  ]

  refusal_of-IsAnswer :
      (id : Text) (answer : Result Text (Bool × ℤ)) (ws : List Write)
      → refusal_of s id answer ≡ some ws
      → IsAnswer ws
  unfolding refusal_of write_rate_limit_error perform_all
  refusal_of-IsAnswer id (err x) ws e =
      rw (sym (some-injective e)) (write_error-IsAnswer 500 (codes "rate limit check failed") id)
  refusal_of-IsAnswer id (ok (true, retry)) ws e = cc
  refusal_of-IsAnswer id (ok (false, retry)) ws e =
      let answer =
        reply-IsAnswer 429
          (s.encode (rate_limit_response (codes "rate limit exceeded") id retry)) in
      rw (sym (some-injective e))
        (++-IsAnswer (set_header (codes "Retry-After") (decimal retry []) ∷ []) _ answer)

  respond_answered :
      IsHonest
      → (params : Dict (Any lib)) (id : Text) (l : Lookup) (w : s.World) (out : Response)
      → out.status ≡ none
      → is_written (respond s h r params id l w out).1.status ≡ true
  unfolding respond perform_all perform
  respond_answered honest params id (hit body status) w out e =
      (reply-IsAnswer status body).0 (perform (set_header (codes "X-Cache") (codes "HIT")) out)
  respond_answered honest params id disabled w out e =
      (all_writes-IsAnswer honest (trigger_data s h r params) id w).0 out
  respond_answered honest params id (miss key) w out e =
      let missed = perform (set_header (codes "X-Cache") (codes "MISS")) out in
      (all_writes-IsAnswer honest (trigger_data s h r params) id w).1 (capture_of missed)

  serve_params_answered :
      IsHonest
      → (params : Dict (Any lib)) (id : Text) (w : s.World) (out : Response) → out.status ≡ none
      → is_written (serve_params s h r params id w out).1.status ≡ true
  unfolding serve_params
  serve_params_answered honest params id w out e =
      elim (Option-cases (check_limits s h r params id w).1) [
        | inl passed ↦
            rw (passed, serve_checked)
              (respond_answered honest params id
                (check_cache s h (cache_key_of s h r params id)
                  (check_limits s h r params id w).0).1
                (check_cache s h (cache_key_of s h r params id)
                  (check_limits s h r params id w).0).0
                out e)
        | inr (ws, over) ↦
            let (answer, why) = check_limits_refused s h r params id w ws over in
            rw (over, serve_checked) ((refusal_of-IsAnswer id answer ws why).0 out)
      ]

  -- If the calls of the steps write a final status, through a capture too, whenever they report a
  -- response as sent, then every request is answered with a status.
  pub serve_http_answers :
      IsHonest
      → (w : s.World) (out : Response) → out.status ≡ none
      → is_written (serve_http s h r w out).1.status ≡ true
  unfolding serve_http
  serve_http_answers honest w out e = elim (Bool-cases (text_eq r.method h.method)) [
    | inr other ↦ rw other (
        (write_error-IsAnswer 405 (codes "method not allowed") (request_id s h r)).0
          (perform_all (common_headers s h (request_id s h r)) out))
    | inl same ↦ elim (Result-cases (parse_parameters lib h.path h.parameters r.form)) [
      | inl (x, bad) ↦
          rw (same, bad)
            ((write_error-IsAnswer 400 (s.describe x) (request_id s h r)).0
              (perform_all (common_headers s h (request_id s h r)) out))
      | inr (params, good) ↦
          rw (same, good)
            (serve_params_answered honest params (request_id s h r) w
              (perform_all (common_headers s h (request_id s h r)) out)
              (common_headers-status s h r (request_id s h r) out ∙ e))
    ]
  ]
