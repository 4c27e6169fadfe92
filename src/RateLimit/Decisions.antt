-- ===== src/RateLimit/Decisions.antt =====
-- What the decisions of internal/ratelimit/ratelimit.go count and answer.
use sqlproxy.Prelude.{
  ℕ, suc, ◌+◌, ◌≤◌, ◌≡◌, refl, ap, ◌∙◌, inl, inr, arith, List, [], ◌∷◌, Text, Bool, true, false,
  Option, none, some, Option-cases, Bool-cases, Result, ok, err, Result-cases, length, ◌==◌,
  if◌then◌else◌,
}
use mathlib.Core.Path.{subst}
use sqlproxy.RateLimit.Buckets.{RateLibrary, Pool, Clock}
use sqlproxy.RateLimit.InlineKey.{RateLimitConfig}
use sqlproxy.RateLimit.{
  select, put_pool, count, reserve_in, decision, decide, key_template_of, decide_on, allow_one,
  allow,
}
use sqlproxy.RateLimit.State.{Limiter, Metrics, Error, Place, named, inline, Decision}

-- One for a request that was refused.
abbrev pub refusals : Result Error Decision → ℕ
refusals (err e) = 0
refusals (ok d) = if d.allowed then 0 else 1

-- From one limiter to the next: the refusals counted, and at most n more allowances.
pub record Counted {lib : RateLibrary} (n : ℕ) (l : Limiter lib) (l' : Limiter lib)
    (r : Result Error Decision) : Type 0 where
  pub denied : l'.metrics.total_denied ≡ l.metrics.total_denied + refusals r
  pub allowed_more : l.metrics.total_allowed ≤ l'.metrics.total_allowed
  pub allowed_most : l'.metrics.total_allowed ≤ l.metrics.total_allowed + n

module _ (lib : RateLibrary) where
  count-denied :
      (b : Bool) (name : Text) (m : Metrics)
      → (count lib b name m).total_denied ≡ m.total_denied + (if b then 0 else 1)
  unfolding count
  count-denied true name m = ground arith
  count-denied false name m = ground arith

  count-allowed :
      (b : Bool) (name : Text) (m : Metrics)
      → (count lib b name m).total_allowed ≡ m.total_allowed + (if b then 1 else 0)
  unfolding count
  count-allowed true name m = ground arith
  count-allowed false name m = ground arith

  put_pool_metrics :
      (place : Place) (p : Pool lib) (l : Limiter lib)
      → (put_pool lib place p l).metrics ≡ l.metrics
  unfolding put_pool
  put_pool_metrics (named n) p l = refl
  put_pool_metrics (inline n) p l = refl

  module _ (l : Limiter lib) where
    decide-Counted :
        (place : Place) (pool : Pool lib) (key : Text) (clock : Clock)
        → Counted 1 l
            (decide lib l place pool key clock).0
            (ok (decide lib l place pool key clock).1)
    unfolding decide decision
    decide-Counted place pool key clock =
        let free = (reserve_in lib pool key clock).1 == 0 in
        let allowed : (decide lib l place pool key clock).0.metrics.total_allowed
            ≡ l.metrics.total_allowed + (if free then 1 else 0) =
          ap (λ m. m.total_allowed) (put_pool_metrics place _ _)
          ∙ count-allowed free pool.name l.metrics in
        record {
          denied =
              ap (λ m. m.total_denied) (put_pool_metrics place _ _)
              ∙ count-denied free pool.name l.metrics;
          allowed_more = ground (arith, allowed);
          allowed_most = ground (arith, allowed);
        }

    select_metrics :
        (limit : RateLimitConfig)
        → ((select lib l limit).0.metrics.total_denied ≡ l.metrics.total_denied)
          × ((select lib l limit).0.metrics.total_allowed ≡ l.metrics.total_allowed)
    unfolding select
    select_metrics limit = (ground arith, ground arith)

    decide_on-Counted :
        (evaluate : Text → Option Text) (limit : RateLimitConfig)
        (selected : Result Error (Option (Place × Pool lib))) (clock : Clock)
        → Counted 1 l
            (decide_on lib evaluate l limit selected clock).0
            (decide_on lib evaluate l limit selected clock).1
    unfolding decide_on
    decide_on-Counted evaluate limit (err e) clock = record {
      denied = ground arith;
      allowed_more = ground arith;
      allowed_most = ground arith;
    }
    decide_on-Counted evaluate limit (ok none) clock = record {
      denied = ground arith;
      allowed_more = ground arith;
      allowed_most = ground arith;
    }
    decide_on-Counted evaluate limit (ok (some (place, pool))) clock =
        elim (Option-cases (evaluate (key_template_of lib limit pool))) [
          | inl e ↦
              rw (e, decide_on)
                record {
                  denied = ground arith;
                  allowed_more = ground arith;
                  allowed_most = ground arith;
                }
          | inr (key, e) ↦ rw (e, decide_on) (decide-Counted place pool key clock)
        ]

  allow_one-Counted :
      (evaluate : Text → Option Text) (l : Limiter lib) (limit : RateLimitConfig) (clock : Clock)
      → Counted 1 l
          (allow_one lib evaluate l limit clock).0
          (allow_one lib evaluate l limit clock).1
  unfolding allow_one
  allow_one-Counted evaluate l limit clock =
      let (l', selected) = select lib l limit in
      let c = decide_on-Counted l' evaluate limit selected clock in
      let (d, a) = select_metrics l limit in
      record {
        denied = ground (arith, c.denied, d);
        allowed_more = ground (arith, c.allowed_more, a);
        allowed_most = ground (arith, c.allowed_most, a);
      }

  passed_on :
      {n : ℕ} {l l' l'' : Limiter lib} {r r' : Result Error Decision}
      → refusals r ≡ 0
      → Counted 1 l l' r
      → Counted n l' l'' r'
      → Counted (suc n) l l'' r'
  passed_on h c c' = record {
    denied = ground (arith, c.denied, c'.denied);
    allowed_more = ground (arith, c.allowed_more, c'.allowed_more);
    allowed_most = ground (arith, c.allowed_most, c'.allowed_most);
  }

  stopped :
      {l l' : Limiter lib} {r : Result Error Decision} (n : ℕ)
      → Counted 1 l l' r
      → Counted (suc n) l l' r
  stopped n c = record {
    denied = c.denied;
    allowed_more = c.allowed_more;
    allowed_most = ground (arith, c.allowed_most);
  }

  -- Whatever its limits are, a request adds one to the denials counted exactly when it is refused,
  -- and to the allowances counted at most one for each limit.
  pub allow-Counted :
      (evaluate : Text → Option Text) (l : Limiter lib) (limits : List (RateLimitConfig × Clock))
      → Counted (length limits) l (allow lib evaluate l limits).0 (allow lib evaluate l limits).1
  unfolding allow
  allow-Counted evaluate l [] = record {
    denied = ground arith;
    allowed_more = ground arith;
    allowed_most = ground arith;
  }
  allow-Counted evaluate l ((limit, clock) ∷ limits) =
      elim (Result-cases (allow_one lib evaluate l limit clock).1) [
        | inl (e, r) ↦
            rw (r, allow)
              (stopped (length limits) (
                subst (Counted 1 l (allow_one lib evaluate l limit clock).0) r
                  (allow_one-Counted evaluate l limit clock)))
        | inr (d, r) ↦ elim (Bool-cases d.allowed) [
          | inl pass ↦
              rw (r, allow, pass)
                (passed_on (rw (r, pass)) (allow_one-Counted evaluate l limit clock)
                  (allow-Counted evaluate (allow_one lib evaluate l limit clock).0 limits))
          | inr stop ↦
              simp (r, allow, stop)
                (stopped (length limits) (
                  subst (Counted 1 l (allow_one lib evaluate l limit clock).0) r
                    (allow_one-Counted evaluate l limit clock)))
        ]
      ]
