-- ===== src/RateLimit/State.antt =====
-- The limiter of internal/ratelimit/ratelimit.go, its configuration and its decisions.
use sqlproxy.Prelude.{ℕ, Text, Bool, Dict, ℤ}
use sqlproxy.RateLimit.Buckets.{RateLibrary, Pool}

pub record RateLimitPoolConfig : Type 0 where
  pub name : Text
  pub requests_per_second : ℤ
  pub burst : ℤ
  pub key : Text

pub record PoolMetrics : Type 0 where
  pub allowed : ℕ
  pub denied : ℕ

pub record Metrics : Type 0 where
  pub total_allowed : ℕ
  pub total_denied : ℕ
  pub pools : Dict PoolMetrics

pub record Limiter (lib : RateLibrary) : Type 0 where
  pub pools : Dict (Pool lib)
  pub inline_pools : Dict (Pool lib)
  pub metrics : Metrics

pub data Error : Type 0 where
  missing_name : Error
  duplicate_name rate_not_positive burst_not_positive key_required invalid_key : Text → Error
  pool_not_found : Text → Error
  key_not_evaluated : Error

abbrev pub no_metrics : PoolMetrics
no_metrics = record { allowed = 0; denied = 0 }

-- Which of the two maps holds a pool, and under which key.
pub data Place : Type 0 where
  named inline : Text → Place

pub record Decision : Type 0 where
  pub allowed : Bool
  pub retry_after : ℕ
  pub pool_name : Text
