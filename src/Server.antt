-- ===== src/Server.antt =====
-- The adapters of internal/server/server.go that the workflow handler is given:
-- workflowRateLimiterAdapter and triggerCacheAdapter.
pub mod Adapters
mod Tests
use sqlproxy.Prelude.{
  ℕ, ◌/◌, List, [], ◌∷◌, Text, codes, Bool, true, false, not, ◌&&◌, ◌||◌, Option, none, some, ltb,
  if◌then◌else◌, text_eq, Dict, lookup, Result, ok, err, ℤ, pos,
}
use sqlproxy.Params.Values.{ValueLibrary, text, float}
use sqlproxy.Params.{Any}
use sqlproxy.RateLimit.InlineKey.{RateLimitConfig}

-- What Allow answers, in nanoseconds.
pub record Verdict : Type 0 where
  pub allowed : Bool
  pub retry_after : ℕ
  pub denying_pool : Text

-- The limiter and the cache behind the adapters, the counters of the metrics, and float64(n).
pub record Backends (lib : ValueLibrary) : Type 1 where
  pub World : Type 0
  pub Context : Type 0
  pub has_limiter : Bool
  pub has_cache : Bool
  pub allow : List RateLimitConfig → Context → World → World × Result Text Verdict
  pub record_allowed : Text → World → World
  pub record_denied : Text → World → World
  pub record_cache_miss : Text → World → World
  pub cache_get : Text → Text → World → World × Option (List (Dict (Any lib)))
  pub cache_set : Text → Text → List (Dict (Any lib)) → ℤ → World → World × Bool
  pub float_of : ℕ → lib.Float

module _ {lib : ValueLibrary} (b : Backends lib) where
  -- the loop over the limits that let a request pass
  unfoldable pub record_all_allowed : List RateLimitConfig → b.World → b.World
  record_all_allowed [] w = w
  record_all_allowed (limit ∷ limits) w =
      record_all_allowed limits
        (b.record_allowed (if text_eq limit.pool [] then codes "inline" else limit.pool) w)

  -- int(retryAfter.Seconds()), at least 1 for a request that is denied
  unfoldable pub retry_after_sec : Verdict → ℕ
  retry_after_sec d =
      let sec = d.retry_after / 1000000000 in if ltb sec 1 && not d.allowed then 1 else sec

  unfoldable pub check_trigger_limits :
      List RateLimitConfig → b.Context → b.World → b.World × Result Text (Bool × ℕ)
  unfolding record_all_allowed retry_after_sec
  check_trigger_limits [] ctx w = (w, ok (true, 0))
  check_trigger_limits (limit ∷ limits) ctx w =
      let done = b.allow (limit ∷ limits) ctx w in
      if not b.has_limiter then (w, ok (true, 0)) else elim done.1 [
        | err e ↦ (done.0, err e)
        | ok d ↦ (
          if d.allowed
              then record_all_allowed (limit ∷ limits) done.0
              else b.record_denied d.denying_pool done.0,
          ok (d.allowed, retry_after_sec d),
        )
      ]

  -- the body and the status of a row, none when one is not there
  unfoldable pub stored_response : Dict (Any lib) → Option (Text × ℤ)
  stored_response entry = elim (lookup (codes "__body__") entry) [
    | some (text body) ↦ elim (lookup (codes "__status__") entry) [
      | some (float status) ↦ some (body, lib.truncate status)
      | some v ↦ none
      | none ↦ none
    ]
    | some v ↦ none
    | none ↦ none
  ]

  -- data[0] as a response
  unfoldable pub response_of : Option (List (Dict (Any lib))) → Option (Text × ℤ)
  unfolding stored_response
  response_of none = none
  response_of (some []) = none
  response_of (some (entry ∷ entries)) = stored_response entry

  -- triggerCacheAdapter.Get
  unfoldable pub get_response : Text → Text → b.World → b.World × Option (Text × ℤ)
  unfolding response_of
  get_response workflow_name key w =
      let got = b.cache_get workflow_name key w in
      if not b.has_cache then (w, none) else elim (response_of got.1) [
        | some r ↦ (got.0, some r)
        | none ↦ (b.record_cache_miss workflow_name got.0, none)
      ]

  abbrev pub response_row : Text → ℕ → Dict (Any lib)
  response_row body status =
      (codes "__body__", text body) ∷ (codes "__status__", float (b.float_of status)) ∷ []

  -- triggerCacheAdapter.Set
  unfoldable pub set_response : Text → Text → Text → ℕ → ℤ → b.World → b.World × Bool
  set_response workflow_name key body status ttl w =
      if not b.has_cache
      then (w, false)
      else b.cache_set workflow_name key (response_row body status ∷ []) ttl w
