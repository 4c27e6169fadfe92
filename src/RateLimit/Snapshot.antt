-- ===== src/RateLimit/Snapshot.antt =====
-- Snapshot of internal/ratelimit/ratelimit.go, GetPool and PoolNames.
use sqlproxy.Prelude.{ℕ, List, [], ◌∷◌, map, Text, Option, none, some, length, Dict, lookup, insert}
use sqlproxy.RateLimit.Buckets.{RateLibrary, Pool}
use sqlproxy.RateLimit.State.{Limiter, PoolMetrics}

-- PoolMetrics as Snapshot fills it in
pub record PoolSnapshot : Type 0 where
  pub allowed : ℕ
  pub denied : ℕ
  pub active_buckets : ℕ

pub record Snapshot : Type 0 where
  pub total_allowed : ℕ
  pub total_denied : ℕ
  pub pools : Dict PoolSnapshot

module _ (lib : RateLibrary) where
  pool_snapshot : PoolMetrics → Pool lib → PoolSnapshot
  pool_snapshot m p = record {
    allowed = m.allowed;
    denied = m.denied;
    active_buckets = length p.buckets;
  }

  -- The loop over the named pools; `none` is the panic on a pool without metrics.
  add_named : Dict PoolMetrics → Dict (Pool lib) → Dict PoolSnapshot → Option (Dict PoolSnapshot)
  unfolding pool_snapshot
  add_named metrics [] acc = some acc
  add_named metrics ((name, p) ∷ pools) acc = elim (lookup name metrics) [
    | none ↦ none
    | some m ↦ add_named metrics pools (insert name (pool_snapshot m p) acc)
  ]

  -- The loop over the inline pools; a pool without metrics is left out.
  add_inline : Dict PoolMetrics → Dict (Pool lib) → Dict PoolSnapshot → Dict PoolSnapshot
  unfolding pool_snapshot
  add_inline metrics [] acc = acc
  add_inline metrics ((_, p) ∷ pools) acc = elim (lookup p.name metrics) [
    | none ↦ add_inline metrics pools acc
    | some m ↦ add_inline metrics pools (insert p.name (pool_snapshot m p) acc)
  ]

  pub snapshot : Limiter lib → Option Snapshot
  unfolding add_inline
  snapshot l = elim (add_named l.metrics.pools l.pools []) [
    | none ↦ none
    | some named ↦ some (record {
      total_allowed = l.metrics.total_allowed;
      total_denied = l.metrics.total_denied;
      pools = add_inline l.metrics.pools l.inline_pools named;
    })
  ]

  pub get_pool : Limiter lib → Text → Option (Pool lib)
  get_pool l name = lookup name l.pools

  pub pool_names : Limiter lib → List Text
  pool_names l = map (λ e. e.0) l.pools
