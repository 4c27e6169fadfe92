-- ===== src/Checks/Pools.antt =====
-- validateRateLimits of internal/validate/validate.go.
use sqlproxy.Prelude.{
  ℕ, suc, List, [], ◌∷◌, ◌++◌, Text, codes, true, not, Option, none, some, if◌then◌else◌, text_eq,
  has_prefix, pos,
}
use sqlproxy.RateLimit.InlineKey.{decimal, is_positive}
use sqlproxy.RateLimit.State.{RateLimitPoolConfig}
use sqlproxy.SqlUtil.Words.{contains_word}
use sqlproxy.Checks.{Message, error_if}

-- `check_key` is the error of the template engine for a key, none for a good one.
module _ (check_key : Text → Option Text) where
  unfoldable pub validate_key : Text → Text → List Message
  unfolding error_if
  validate_key prefix key =
      if text_eq key []
      then error_if true (prefix ++ codes ": key template is required")
      else elim (check_key key) [
        | none ↦ []
        | some e ↦ error_if true (prefix ++ codes ": invalid key template: " ++ e)
      ]

  -- the body of the loop for a pool with a name, after the names in `names`
  unfoldable pub validate_pool : Text → List Text → RateLimitPoolConfig → List Message
  unfolding validate_key error_if
  validate_pool prefix names pool =
      error_if (contains_word names pool.name) (prefix ++ codes ": duplicate pool name")
      ++ (error_if (has_prefix pool.name (codes "_inline:"))
            (prefix ++ codes ": pool name cannot start with '_inline:' (reserved for internal use)")
          ++ (error_if (not (is_positive pool.requests_per_second))
                (prefix ++ codes ": requests_per_second must be positive")
              ++ (error_if (not (is_positive pool.burst))
                    (prefix ++ codes ": burst must be positive")
                  ++ validate_key prefix pool.key)))

  unfoldable pub validate_pools : ℕ → List Text → List RateLimitPoolConfig → List Message
  unfolding validate_pool error_if
  validate_pools i names [] = []
  validate_pools i names (pool ∷ pools) =
      let prefix = codes "rate_limits[" ++ decimal (pos i) [] ++ codes "]" in
      if text_eq pool.name []
      then error_if true (prefix ++ codes ": name is required")
        ++ validate_pools (suc i) names pools
      else validate_pool (prefix ++ codes " (" ++ pool.name ++ codes ")") names pool
        ++ validate_pools (suc i) (pool.name ∷ names) pools

  unfoldable pub validate_rate_limits : List RateLimitPoolConfig → List Message
  unfolding validate_pools
  validate_rate_limits pools = validate_pools 0 [] pools
