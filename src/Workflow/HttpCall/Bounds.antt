-- ===== src/Workflow/HttpCall/Bounds.antt =====
-- How often a step of internal/workflow/execute_httpcall.go calls, and how long it waits.
use sqlproxy.Prelude.{
  ℕ, zero, suc, ◌+◌, ◌-◌, ◌*◌, ◌≤◌, ◌≡◌, refl, inl, inr, arith, codes, Option, none, some, Result,
  Result-cases, ℤ, pos, negsuc,
}
use sqlproxy.Workflow.Config.{RetryConfig}
use sqlproxy.Workflow.HttpCall.Library.{HttpLibrary, Request}
use sqlproxy.Workflow.HttpCall.Requests.{Error, build_http_request}
use sqlproxy.Workflow.HttpCall.Retry.{attempts-IsBounded}
use sqlproxy.Workflow.HttpCall.{
  attempts, Plan, plan_of, positive_or, CompiledStep, text_or, start, execute_http_call_step,
}

positive_or-pos : (z : ℤ) (d : ℕ) → 1 ≤ d → 1 ≤ positive_or z d
positive_or-pos (pos zero) d h = h
positive_or-pos (pos (suc n)) d h = omega arith
positive_or-pos (negsuc n) d h = h

pub plan_of-max_attempts : (r : Option RetryConfig) → 1 ≤ (plan_of r).max_attempts
unfolding plan_of
plan_of-max_attempts none = omega arith
plan_of-max_attempts (some r) = ground (arith, positive_or-pos r.max_attempts 3 (omega arith))

-- At most n requests are sent, with waits of at most `longest` between them.
pub record IsLimited {World : Type 0} (calls waited : World → ℕ) (n longest : ℕ) (w end : World)
    : Type 0 where
  pub calls_most : calls end ≤ calls w + n
  pub waited_most : waited end ≤ waited w + (n - 1) * longest

module _ (lib : HttpLibrary) (calls waited : lib.World → ℕ)
    (send_once : (req : Request) (w : lib.World) → calls (lib.send req w).0 ≡ calls w + 1)
    (send_now : (req : Request) (w : lib.World) → waited (lib.send req w).0 ≡ waited w)
    (wait_silent : (b : ℕ) (w : lib.World) → calls (lib.wait b w).0 ≡ calls w)
    (wait_at_most : (b : ℕ) (w : lib.World) → waited (lib.wait b w).0 ≤ waited w + b)
    (timeout_silent : (t : ℕ) (w : lib.World) → calls (lib.with_timeout t w) ≡ calls w)
    (timeout_now : (t : ℕ) (w : lib.World) → waited (lib.with_timeout t w) ≡ waited w) where
  at_rest :
      (n longest : ℕ) (w w0 : lib.World)
      → calls w0 ≡ calls w
      → waited w0 ≡ waited w
      → IsLimited calls waited n longest w w0
  at_rest n longest w w0 hc hw = record {
    calls_most = omega (arith, hc);
    waited_most = omega (arith, hw);
  }

  module _ (plan : Plan) (longest : ℕ) (hb : plan.backoff ≤ longest)
      (hm : plan.max_backoff ≤ longest) (positive : 1 ≤ plan.max_attempts) where
    looped :
        (rebuilt : Result Error Request) (req : Request) (w w0 : lib.World)
        → calls w0 ≡ calls w
        → waited w0 ≡ waited w
        → IsLimited calls waited plan.max_attempts longest w
            (attempts lib rebuilt plan.max_backoff (plan.max_attempts - 1) plan.backoff req w0).0
    looped rebuilt req w w0 hc hw =
        let b =
          attempts-IsBounded lib calls waited send_once send_now wait_silent wait_at_most rebuilt
            plan.max_backoff (plan.max_attempts - 1) plan.backoff longest req w0 hb hm in
        record {
          calls_most = omega (arith, b.sent_most, hc, positive);
          waited_most = omega (arith, b.waited_most, hw);
        }

  start_silent :
      (z : ℤ) (w : lib.World)
      → (calls (start lib z w) ≡ calls w) × (waited (start lib z w) ≡ waited w)
  unfolding start
  start_silent (pos zero) w = (refl, refl)
  start_silent (pos (suc n)) w = (timeout_silent _ w, timeout_now _ w)
  start_silent (negsuc n) w = (refl, refl)

  -- If the client sends one request at a time, and only waiting takes time, at most as long as
  -- asked for, an HTTP step sends at most max_attempts requests, and its waits add up to at most
  -- max_attempts - 1 times any bound on its first and its maximal backoff.
  pub execute_http_call_step-IsLimited :
      {Nested : Type 0} (cs : CompiledStep lib Nested) (w : lib.World) (longest : ℕ)
      → (plan_of cs.config.retry).backoff ≤ longest
      → (plan_of cs.config.retry).max_backoff ≤ longest
      → IsLimited calls waited
          (plan_of cs.config.retry).max_attempts
          longest
          w
          (execute_http_call_step lib cs w).0
  unfolding execute_http_call_step
  execute_http_call_step-IsLimited cs w longest hb hm =
      let method = text_or lib cs.config.http_method (codes "GET") in
      let plan = plan_of cs.config.retry in
      let (hc, hw) = start_silent cs.config.timeout_sec w in
      let rest = at_rest plan.max_attempts longest w (start lib cs.config.timeout_sec w) hc hw in
      elim (Result-cases (lib.execute cs.url_tmpl)) [
        | inl (e, u) ↦ simp (execute_http_call_step, u) rest
        | inr (url, u) ↦
            elim (Result-cases (build_http_request lib method url cs.body_tmpl cs.header_tmpls)) [
              | inl (e, b) ↦ simp (execute_http_call_step, u, b) rest
              | inr (req, b) ↦
                  simp (execute_http_call_step, u, b)
                    (looped plan longest hb hm (plan_of-max_attempts cs.config.retry) _ req w _ hc
                      hw)
            ]
      ]
