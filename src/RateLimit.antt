-- ===== src/RateLimit.antt =====
-- internal/ratelimit/ratelimit.go: rate limits by pools of token buckets.
pub mod State
pub mod Buckets
pub mod Isolation
pub mod Snapshot
pub mod Decisions
mod Tests
pub mod InlineKey
pub mod InlinePools
use sqlproxy.Prelude.{
  ℕ, zero, suc, ◌+◌, ◌-◌, ◌*◌, ◌/◌, ◌%◌, List, [], ◌∷◌, ◌++◌, Text, codes, Bool, true, false, not,
  ◌&&◌, ◌||◌, Option, none, some, ltb, leb, ◌==◌, if◌then◌else◌, text_eq, Dict, lookup, insert,
  delete, Result, ok, err, ◌>>=◌, ℤ, pos, negsuc,
}
use Buckets.{
  RateLibrary, Bucket, Pool, Clock, get_or_create_bucket, maybe_cleanup, reset, reset_key, second,
}
use InlineKey.{
  RateLimitConfig, is_pool_reference, is_inline, default_key, inline_pool_key, effective_key,
  is_positive, natural,
}
use sqlproxy.RateLimit.State.{
  RateLimitPoolConfig, PoolMetrics, Metrics, Limiter, Error, missing_name, duplicate_name,
  rate_not_positive, burst_not_positive, key_required, invalid_key, pool_not_found,
  key_not_evaluated, no_metrics, Place, named, inline, Decision,
}

module _ (lib : RateLibrary) where
  pub new_pool : Text → ℤ → ℤ → Text → Pool lib
  new_pool name rps burst key = record {
    name = name;
    requests_per_second = natural rps;
    burst = natural burst;
    key_template = key;
    buckets = [];
    last_clean = none;
    clean_every = 300 * second;
  }

  -- the limiter with one more pool and its metrics
  abbrev pub with_pool : Limiter lib → RateLimitPoolConfig → Limiter lib
  with_pool l cfg = record {
    pools = insert cfg.name (new_pool cfg.name cfg.requests_per_second cfg.burst cfg.key) l.pools;
    inline_pools = l.inline_pools;
    metrics = record l.metrics { pools = insert cfg.name no_metrics l.metrics.pools };
  }

  -- The body of New's loop; `valid` is the template engine's check of a key.
  unfoldable pub add_pool :
      (Text → Bool) → Limiter lib → RateLimitPoolConfig → Result Error (Limiter lib)
  add_pool valid l cfg =
      if text_eq cfg.name [] then err missing_name else elim (lookup cfg.name l.pools) [
        | some p ↦ err (duplicate_name cfg.name)
        | none ↦
            if not (is_positive cfg.requests_per_second)
            then err (rate_not_positive cfg.name)
            else if not (is_positive cfg.burst)
            then err (burst_not_positive cfg.name)
            else if text_eq cfg.key []
            then err (key_required cfg.name)
            else if not (valid cfg.key)
            then err (invalid_key cfg.name)
            else ok (with_pool l cfg)
      ]

  unfoldable pub add_pools :
      (Text → Bool) → Limiter lib → List RateLimitPoolConfig → Result Error (Limiter lib)
  add_pools valid l [] = ok l
  add_pools valid l (cfg ∷ cfgs) = add_pool valid l cfg >>= λ l'. add_pools valid l' cfgs

  abbrev pub empty_limiter : Limiter lib
  empty_limiter = record {
    pools = [];
    inline_pools = [];
    metrics = record { total_allowed = 0; total_denied = 0; pools = [] };
  }

  unfoldable pub new_limiter : (Text → Bool) → List RateLimitPoolConfig → Result Error (Limiter lib)
  unfolding add_pools add_pool
  new_limiter valid cfgs = add_pools valid empty_limiter cfgs

  -- the pool of a limit: looked up, or made for an inline one
  pub select :
      Limiter lib → RateLimitConfig → Limiter lib × Result Error (Option (Place × Pool lib))
  unfolding new_pool
  select l limit =
      let key = inline_pool_key limit in
      let name = codes "_inline:" ++ key in
      let made = new_pool name limit.requests_per_second limit.burst (effective_key limit) in
      if is_pool_reference limit
      then elim (lookup limit.pool l.pools) [
        | none ↦ (l, err (pool_not_found limit.pool))
        | some p ↦ (l, ok (some (named limit.pool, p)))
      ]
      else if is_inline limit
      then elim (lookup key l.inline_pools) [
        | some p ↦ (l, ok (some (inline key, p)))
        | none ↦ (
          record l {
            inline_pools = insert key made l.inline_pools;
            metrics = record l.metrics { pools = insert name no_metrics l.metrics.pools };
          },
          ok (some (inline key, made)),
        )
      ]
      else (l, ok none)

  pub put_pool : Place → Pool lib → Limiter lib → Limiter lib
  put_pool (named k) p l = record l { pools = insert k p l.pools }
  put_pool (inline k) p l = record l { inline_pools = insert k p l.inline_pools }

  -- delay.Truncate(time.Second) + time.Second
  pub round_up : ℕ → ℕ
  round_up delay = delay - delay % second + second

  bump : Bool → PoolMetrics → PoolMetrics
  bump allowed m =
      if allowed then record m { allowed = m.allowed + 1 } else record m { denied = m.denied + 1 }

  -- the block that updates the metrics
  count : Bool → Text → Metrics → Metrics
  unfolding bump
  count allowed name m =
      let pools : Dict PoolMetrics = (elim (lookup name m.pools) [
        | none ↦ m.pools
        | some pm ↦ insert name (bump allowed pm) m.pools
      ]) in
      if allowed
      then record m { total_allowed = m.total_allowed + 1; pools = pools }
      else record m { total_denied = m.total_denied + 1; pools = pools }

  -- one reservation on a pool's bucket; the delay is 0 if a token was there
  pub reserve_in : Pool lib → Text → Clock → Pool lib × ℕ
  reserve_in pool key clock =
      let (p, b) = get_or_create_bucket lib pool key clock.created in
      let (tokens, delay) = lib.reserve b.limiter clock.reserved in
      let tokens' = if delay == 0 then tokens else lib.cancel tokens clock.cancelled in
      let b' : Bucket lib = record { limiter = tokens'; last_used = clock.used / second } in
      (record p { buckets = insert key b' p.buckets }, delay)

  decision : Text → ℕ → Decision
  decision name delay = record {
    allowed = delay == 0;
    retry_after = if delay == 0 then 0 else round_up delay;
    pool_name = name;
  }

  -- what follows the evaluation of the key
  pub decide : Limiter lib → Place → Pool lib → Text → Clock → Limiter lib × Decision
  unfolding decision
  decide l place pool key clock =
      let (p, delay) = reserve_in pool key clock in
      let l' = record l { metrics = count (delay == 0) pool.name l.metrics } in
      (put_pool place (maybe_cleanup lib p clock.cleaned) l', decision pool.name delay)

  unlimited : Decision
  unlimited = record { allowed = true; retry_after = 0; pool_name = [] }

  -- the template of the bucket's key
  pub key_template_of : RateLimitConfig → Pool lib → Text
  key_template_of limit pool =
      if is_pool_reference limit then pool.key_template else effective_key limit

  -- `evaluate` is the template engine on the request at hand.
  pub decide_on :
      (Text → Option Text)
      → Limiter lib
      → RateLimitConfig
      → Result Error (Option (Place × Pool lib))
      → Clock
      → Limiter lib × Result Error Decision
  unfolding unlimited
  decide_on evaluate l limit (err e) clock = (l, err e)
  decide_on evaluate l limit (ok none) clock = (l, ok unlimited)
  decide_on evaluate l limit (ok (some (place, pool))) clock =
      elim (evaluate (key_template_of limit pool)) [
        | none ↦ (l, err key_not_evaluated)
        | some key ↦ let (l', d) = decide l place pool key clock in (l', ok d)
      ]

  pub allow_one :
      (Text → Option Text)
      → Limiter lib
      → RateLimitConfig
      → Clock
      → Limiter lib × Result Error Decision
  unfolding decide_on
  allow_one evaluate l limit clock =
      let (l', selected) = select l limit in decide_on evaluate l' limit selected clock

  pub allow :
      (Text → Option Text)
      → Limiter lib
      → List (RateLimitConfig × Clock)
      → Limiter lib × Result Error Decision
  unfolding unlimited
  allow evaluate l [] = (l, ok unlimited)
  allow evaluate l ((limit, clock) ∷ limits) =
      let (l', r) = allow_one evaluate l limit clock in
      let rest = allow evaluate l' limits in
      elim r [ err e ↦ (l', err e) | ok d ↦ if d.allowed then rest else (l', ok d) ]

  -- l.pools[name], or else l.inlinePools[name]
  find_pool : Limiter lib → Text → Option (Place × Pool lib)
  find_pool l name = elim (lookup name l.pools) [
    | some p ↦ some (named name, p)
    | none ↦ elim (lookup name l.inline_pools) [ some p ↦ some (inline name, p) | none ↦ none ]
  ]

  pub reset_pool : Limiter lib → Text → ℕ → Limiter lib × Result Error ℕ
  unfolding find_pool
  reset_pool l name now = elim (find_pool l name) [
    | none ↦ (l, err (pool_not_found name))
    | some (place, p) ↦ (put_pool place (reset lib p now).0 l, ok (reset lib p now).1)
  ]

  pub reset_bucket : Limiter lib → Text → Text → Limiter lib × Result Error Bool
  unfolding find_pool
  reset_bucket l name key = elim (find_pool l name) [
    | none ↦ (l, err (pool_not_found name))
    | some (place, p) ↦ (put_pool place (reset_key lib p key).0 l, ok (reset_key lib p key).1)
  ]

  reset_each : ℕ → Dict (Pool lib) → Dict (Pool lib) × ℕ
  reset_each now [] = ([], 0)
  reset_each now ((name, p) ∷ m) =
      let (m', n) = reset_each now m in let (p', k) = reset lib p now in ((name, p') ∷ m', k + n)

  pub reset_all : Limiter lib → ℕ → Limiter lib × ℕ
  unfolding reset_each
  reset_all l now =
      let (pools, n) = reset_each now l.pools in
      let (inlines, k) = reset_each now l.inline_pools in
      (record l { pools = pools; inline_pools = inlines }, n + k)
