-- ===== src/Workflow/HttpCall/Retry.antt =====
-- How often the loop of internal/workflow/execute_httpcall.go calls, and how it ends.
use sqlproxy.Prelude.{
  ℕ, zero, suc, ◌+◌, ◌*◌, ◌≤◌, ◌<◌, ◌≡◌, refl, inl, inr, arith, Text, Bool, true, false,
  Option-cases, Bool-cases, Result, ok, err, Result-cases,
}
use sqlproxy.Workflow.HttpCall.Library.{HttpLibrary, Request, Response}
use sqlproxy.Workflow.HttpCall.Requests.{Error}
use sqlproxy.Workflow.HttpCall.{
  Attempted, returned, failed, responded, attempts, is_final, kept, last_attempt, next_backoff,
}

module _ (lib : HttpLibrary) where
  -- The loop ends without an early return: with `last` if every attempt was used up.
  abbrev pub gave_up : Attempted lib → Bool
  gave_up (returned e) = false
  gave_up (failed e) = true
  gave_up (responded closed resp) = closed

  abbrev pub IsJudged : Attempted lib → Type 0
  IsJudged (returned e) = Unit
  IsJudged (failed e) = Unit
  IsJudged (responded true resp) = 500 ≤ resp.status_code
  IsJudged (responded false resp) = resp.status_code < 500

  -- `calls` and `waited` read the number of requests sent and the time waited off the world.
  module _ (calls waited : lib.World → ℕ) where
    -- What n + 1 attempts do to the world: they send up to n + 1 requests and wait up to n times.
    pub record IsBounded (n : ℕ) (longest : ℕ) (w : lib.World) (end : lib.World × Attempted lib)
        : Type 0 where
      pub sent_one : calls w < calls end.0
      pub sent_most : calls end.0 ≤ calls w + suc n
      pub sent_all : gave_up end.1 ≡ true → calls end.0 ≡ calls w + suc n
      pub waited_most : waited end.0 ≤ waited w + n * longest
      pub judged : IsJudged end.1

    kept-IsJudged :
        (r : Result Text (Response lib.Body)) → is_final lib r ≡ true → IsJudged (kept lib r)
    unfolding is_final kept
    kept-IsJudged (err e) h = tt
    kept-IsJudged (ok resp) h = ground (arith, h)

    last_attempt-IsJudged :
        (r : Result Text (Response lib.Body))
        → is_final lib r ≡ false
        → IsJudged (last_attempt lib r)
    unfolding is_final last_attempt
    last_attempt-IsJudged (err e) h = tt
    last_attempt-IsJudged (ok resp) h = ground (arith, h)

    gave_up-kept :
        (r : Result Text (Response lib.Body)) → is_final lib r ≡ true → gave_up (kept lib r) ≡ false
    unfolding is_final kept
    gave_up-kept (err e) h = ground (arith, h)
    gave_up-kept (ok resp) h = refl

    module _ (send_once : (req : Request) (w : lib.World) → calls (lib.send req w).0 ≡ calls w + 1)
        (send_now : (req : Request) (w : lib.World) → waited (lib.send req w).0 ≡ waited w)
        (wait_silent : (b : ℕ) (w : lib.World) → calls (lib.wait b w).0 ≡ calls w)
        (wait_at_most : (b : ℕ) (w : lib.World) → waited (lib.wait b w).0 ≤ waited w + b) where
      next_backoff-le :
          (maximum backoff longest : ℕ) → maximum ≤ longest → next_backoff maximum backoff ≤ longest
      unfolding next_backoff
      next_backoff-le maximum backoff longest h = ground (arith, h)

      sent_and_kept :
          (n longest : ℕ) (req : Request) (w : lib.World)
          → is_final lib (lib.send req w).1 ≡ true
          → IsBounded n longest w ((lib.send req w).0, kept lib (lib.send req w).1)
      sent_and_kept n longest req w e = record {
        sent_one = ground (arith, send_once req w);
        sent_most = ground (arith, send_once req w);
        sent_all = λ h. ground (arith, gave_up-kept (lib.send req w).1 e, h);
        waited_most = omega (arith, send_now req w);
        judged = kept-IsJudged (lib.send req w).1 e;
      }

      -- An early return after the wait.
      sent_and_returned :
          (n backoff longest : ℕ) (req : Request) (w : lib.World) (e : Error)
          → backoff ≤ longest
          → IsBounded (suc n) longest w ((lib.wait backoff (lib.send req w).0).0, returned e)
      sent_and_returned n backoff longest req w e hb =
          let w1 = (lib.send req w).0 in
          record {
            sent_one = omega (arith, send_once req w, wait_silent backoff w1);
            sent_most = omega (arith, send_once req w, wait_silent backoff w1);
            sent_all = λ h. ground (arith, h);
            waited_most = omega (arith, send_now req w, wait_at_most backoff w1, hb);
            judged = tt;
          }

      sent_again :
          (n backoff longest : ℕ) (req : Request) (w : lib.World) (end : lib.World × Attempted lib)
          → backoff ≤ longest
          → IsBounded n longest (lib.wait backoff (lib.send req w).0).0 end
          → IsBounded (suc n) longest w end
      sent_again n backoff longest req w end hb b =
          let w1 = (lib.send req w).0 in
          record {
            sent_one = omega (arith, send_once req w, wait_silent backoff w1, b.sent_one);
            sent_most = omega (arith, send_once req w, wait_silent backoff w1, b.sent_most);
            sent_all = λ h. omega (arith, send_once req w, wait_silent backoff w1, b.sent_all h);
            waited_most = omega (arith, send_now req w, wait_at_most backoff w1, b.waited_most, hb);
            judged = b.judged;
          }

      -- If the client sends one request at a time, and only waiting takes time, at most as long as
      -- asked for, a loop with n + 1 attempts sends at least one and at most n + 1 requests, all n
      -- + 1 of them if it ends with an error of the client or a closed response, waits at most n
      -- times a bound on its backoffs, and ends with an open response below 500, or a closed one
      -- of 500 or more, or an error.
      pub attempts-IsBounded :
          (rebuilt : Result Error Request) (maximum n backoff longest : ℕ) (req : Request)
          (w : lib.World)
          → backoff ≤ longest
          → maximum ≤ longest
          → IsBounded n longest w (attempts lib rebuilt maximum n backoff req w)
      unfolding attempts
      attempts-IsBounded rebuilt maximum zero backoff longest req w hb hm =
          let (w1, r) = lib.send req w in
          elim (Bool-cases (is_final lib r)) [
            | inl e ↦ simp (attempts, e) (sent_and_kept 0 longest req w e)
            | inr e ↦
                simp (attempts, e)
                  (record {
                    sent_one = ground (arith, send_once req w);
                    sent_most = ground (arith, send_once req w);
                    sent_all = λ h. ground (arith, send_once req w);
                    waited_most = ground (arith, send_now req w);
                    judged = last_attempt-IsJudged r e;
                  })
          ]
      attempts-IsBounded rebuilt maximum (suc n) backoff longest req w hb hm =
          let (w1, r) = lib.send req w in
          let (w2, cancelled) = lib.wait backoff w1 in
          elim (Bool-cases (is_final lib r)) [
            | inl e ↦ simp (attempts, e) (sent_and_kept (suc n) longest req w e)
            | inr e ↦ elim (Option-cases cancelled) [
              | inr (x, c) ↦ simp (attempts, e, c) (sent_and_returned n backoff longest req w _ hb)
              | inl c ↦ elim (Result-cases rebuilt) [
                | inl (x, g) ↦
                    simp (attempts, e, c, g) (sent_and_returned n backoff longest req w _ hb)
                | inr (req', g) ↦
                    simp (attempts, e, c, g)
                      (sent_again n backoff longest req w _ hb (
                        attempts-IsBounded rebuilt maximum n (next_backoff maximum backoff) longest
                          req' w2 (next_backoff-le maximum backoff longest hm) hm))
              ]
            ]
          ]
