-- ===== src/Workflow/Handler/Replay.antt =====
-- Answers that ServeHTTP of internal/workflow/handler.go keeps in the trigger's cache, and gives
-- again.
use sqlproxy.Prelude.{
  All, true, false, ◌∷◌, Bool-cases, inl, inr, ℕ, ◌≤◌, ◌<◌, ◌≡◌, refl, sym, ap, ◌∙◌, arith, List,
  [], ◌++◌, Text, codes, Option, none, some, Dict, ok,
}
use sqlproxy.Params.Values.{ValueLibrary}
use sqlproxy.Params.{Any}
use sqlproxy.Workflow.Handler.Parameters.{parse_parameters}
use sqlproxy.Workflow.Handler.Writer.{
  Response, set_header, is_informational, allows_body, Write, with_status_open, perform,
  perform_all, ResponseCapture, capture_of, capture_all,
}
use sqlproxy.Workflow.Handler.Capture.{status_number, IsFinal, capture_all-perform_all}
use sqlproxy.Workflow.Handler.Refusals.{request_id, common_headers-status, serve_http_params}
use sqlproxy.Workflow.Handler.Serve.{
  write_error, write_success, default_response, common_headers, check_limits, cache_key_of,
  lookup_of, check_cache, trigger_data, trigger_ttl, all_writes, store_capture, respond,
  serve_checked, serve_params, serve_http,
}
use sqlproxy.Workflow.Handler.Interface.{Execution, HttpRequest, Services, HttpHandler}

module _ {lib : ValueLibrary} (s : Services lib) (h : HttpHandler s) where
  -- A request that the handler passes on, with its parameters and its key of the cache.
  pub record IsLookedUp (r : HttpRequest lib) (params : Dict (Any lib)) (key : Text) (w : s.World)
      : Type 0 where
    pub method : r.method ≡ h.method
    pub parses : parse_parameters lib h.path h.parameters r.form ≡ ok params
    pub allowed : (check_limits s h r params (request_id s h r) w).1 ≡ none
    pub keyed : cache_key_of s h r params (request_id s h r) ≡ some key

  -- the world after the limits, and the cache's answer in it
  abbrev pub get_after :
      HttpRequest lib → Dict (Any lib) → Text → s.World → s.World × Option (Text × ℕ)
  get_after r params key w =
      s.cache_get h.workflow_name key (check_limits s h r params (request_id s h r) w).0

  -- the world and the result after the steps, where the lookup misses
  abbrev pub executed : HttpRequest lib → Dict (Any lib) → Text → s.World → s.World × Execution
  executed r params key w =
      s.execute (trigger_data s h r params) (request_id s h r) (get_after r params key w).0

  All-++ : (ws vs : List Write) → All IsFinal ws → All IsFinal vs → All IsFinal (ws ++ vs)
  All-++ [] vs f g = g
  All-++ (w ∷ ws) vs (h, f) g = (h, All-++ ws vs f g)

  default_response-IsFinal : (e : Option Text) (id : Text) → All IsFinal (default_response s e id)
  unfolding default_response write_error write_success is_informational
  default_response-IsFinal none id = (refl, (tt, tt))
  default_response-IsFinal (some e) id = (refl, (tt, tt))

  all_writes-IsFinal :
      (x : Execution) (id : Text) → All IsFinal x.writes → All IsFinal (all_writes s x id)
  unfolding all_writes
  all_writes-IsFinal x id f = elim (Bool-cases x.response_sent) [
    | inl e ↦ rw e (All-++ x.writes [] f tt)
    | inr e ↦
        rw e
          (All-++ x.writes (default_response s x.error id) f (default_response-IsFinal x.error id))
  ]

  abbrev greeted : HttpRequest lib → Response → Response
  greeted r out = perform_all (common_headers s h (request_id s h r)) out

  greeted-body : (r : HttpRequest lib) (out : Response) → (greeted r out).body ≡ out.body
  unfolding common_headers perform_all perform
  greeted-body r out = ground arith

  store_capture_kept :
      (key : Text) (c : ResponseCapture) (code : ℕ) (w : s.World)
      → c.status_code ≡ code
      → 200 ≤ code
      → code < 400
      → store_capture s h key c w ≡ s.cache_set h.workflow_name key c.body code (trigger_ttl s h) w
  unfolding store_capture
  store_capture_kept key c code w e low high = rw e (ground arith)

  module _ (r : HttpRequest lib) (params : Dict (Any lib)) (key : Text) (w : s.World)
      (out : Response) (p : IsLookedUp r params key w) where
    serve_http-respond :
        serve_http s h r w out
        ≡ respond s h r params
            (request_id s h r)
            (lookup_of s key (get_after r params key w).1)
            (get_after r params key w).0
            (greeted r out)
    unfolding serve_params serve_checked check_cache
    serve_http-respond =
        let limited = check_limits s h r params (request_id s h r) w in
        serve_http_params s h r params w out p.method p.parses
        ∙ (ap (λ x. serve_checked s h r params (request_id s h r) x limited.0 (greeted r out))
              p.allowed
            ∙ ap
                (λ k.
                  let found = check_cache s h k limited.0 in
                  respond s h r params (request_id s h r) found.1 found.0 (greeted r out))
                p.keyed)

    module _ (clean : out.status ≡ none) (empty : out.body ≡ []) where
      clean_after : (greeted r out).status ≡ none
      clean_after = common_headers-status s h r (request_id s h r) out ∙ clean

      -- A hit answers with what the cache has, and nothing is executed.
      pub serve_http_hit :
          (body : Text) (code : ℕ)
          → (get_after r params key w).1 ≡ some (body, code)
          → is_informational code ≡ false
          → allows_body (some code) ≡ true
          → let served = serve_http s h r w out in
            (served.0 ≡ (get_after r params key w).0)
            × (served.1.status ≡ some code)
            × (served.1.body ≡ body)
      unfolding respond lookup_of perform_all perform
      serve_http_hit body code found final allowed =
          let sent =
            with_status_open code
              (perform (set_header (codes "X-Cache") (codes "HIT")) (greeted r out)) clean_after
              final in
          let same =
            serve_http-respond
            ∙ ap
                (λ x.
                  respond s h r params (request_id s h r) (lookup_of s key x)
                    (get_after r params key w).0 (greeted r out))
                found in
          rw same (
            refl,
            simp sent refl,
            simp (sent, allowed) (ap (λ t. t ++ body) (greeted-body r out ∙ empty)),
          )

      -- A miss with an answer of success is kept: what the cache gets is the status and the body of
      -- that answer.
      pub serve_http_stored :
          (get_after r params key w).1 ≡ none
          → All IsFinal (executed r params key w).1.writes
          → (code : ℕ)
          → let served = serve_http s h r w out in
            served.1.status ≡ some code
            → 200 ≤ code
            → code < 400
            → allows_body (some code) ≡ true
            → served.0
              ≡ s.cache_set h.workflow_name key served.1.body code
                  (trigger_ttl s h)
                  (executed r params key w).0
      unfolding respond lookup_of store_capture perform
      serve_http_stored found finals code sent low high allowed =
          let run = executed r params key w in
          let missed = perform (set_header (codes "X-Cache") (codes "MISS")) (greeted r out) in
          let c = capture_all (all_writes s run.1 (request_id s h r)) (capture_of missed) in
          let same =
            serve_http-respond
            ∙ ap
                (λ x.
                  respond s h r params (request_id s h r) (lookup_of s key x)
                    (get_after r params key w).0 (greeted r out))
                found in
          let seen =
            capture_all-perform_all (all_writes s run.1 (request_id s h r)) missed
              (all_writes-IsFinal run.1 (request_id s h r) finals) clean_after in
          let sent' : c.response.status ≡ some code = sym (ap (λ x. x.1.status) same) ∙ sent in
          let code' =
            seen.1 ∙ ap (λ x. status_number x.status) (sym seen.0) ∙ ap status_number sent' in
          let open_body =
            ap (λ (x : Response). allows_body x.status) (sym seen.0)
            ∙ ap allows_body sent'
            ∙ allowed in
          let body' : c.response.body ≡ c.body =
            ap (λ x. x.body) seen.0
            ∙ seen.2 open_body
            ∙ ap (λ t. t ++ c.body) (greeted-body r out ∙ empty) in
          rw (same, body') (store_capture_kept key c code run.0 code' low high)

-- A request that misses in the trigger cache and is answered with a status from 200 to 399 that
-- allows a body, by steps that write no informational status, gives the cache this status and the
-- body of the answer, under its key. When a later lookup under the same key finds what was given,
-- that request is answered with the same status and body, and nothing is executed for it.
pub serve_http_replays :
    {lib : ValueLibrary} (s : Services lib) (h : HttpHandler s) (r1 r2 : HttpRequest lib)
    (params1 params2 : Dict (Any lib)) (key : Text) (w later : s.World) (out : Response)
    → IsLookedUp s h r1 params1 key w
    → out.status ≡ none
    → out.body ≡ []
    → (get_after s h r1 params1 key w).1 ≡ none
    → All IsFinal (executed s h r1 params1 key w).1.writes
    → (code : ℕ) → (serve_http s h r1 w out).1.status ≡ some code
    → 200 ≤ code
    → code < 400
    → allows_body (some code) ≡ true
    → IsLookedUp s h r2 params2 key later
    → (get_after s h r2 params2 key later).1 ≡ some ((serve_http s h r1 w out).1.body, code)
    → let first = serve_http s h r1 w out in
      let second = serve_http s h r2 later out in
      (first.0
        ≡ s.cache_set h.workflow_name key first.1.body code
            (trigger_ttl s h)
            (executed s h r1 params1 key w).0)
      × (second.1.status ≡ first.1.status)
      × (second.1.body ≡ first.1.body)
      × (second.0 ≡ (get_after s h r2 params2 key later).0)
unfolding is_informational
serve_http_replays s h r1 r2 params1 params2 key w later out p1 clean empty missed finals code sent
      low high allowed p2 found =
    let first = serve_http s h r1 w out in
    let stored =
      serve_http_stored s h r1 params1 key w out p1 clean empty missed finals code sent low high
        allowed in
    let final : is_informational code ≡ false = ground arith in
    let replayed =
      serve_http_hit s h r2 params2 key later out p2 clean empty first.1.body code found final
        allowed in
    (stored, replayed.1 ∙ sym sent, replayed.2, replayed.0)
