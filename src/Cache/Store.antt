-- ===== src/Cache/Store.antt =====
-- The types of internal/cache/cache.go, and the libraries that the cache calls.
use sqlproxy.Prelude.{ℕ, ◌*◌, List, Text, Bool, Option, Dict}
use sqlproxy.Cache.Endpoint.{EndpointCache}

pub record CacheConfig : Type 0 where
  pub enabled : Bool
  pub max_size_mb : ℕ
  pub default_ttl_sec : ℕ

pub record EndpointCacheConfig : Type 0 where
  pub enabled : Bool
  pub max_size_mb : ℕ
  pub evict_cron : Text

pub data Error : Type 0 where
  creating_store invalid_evict_cron : Error

abbrev pub second : ℕ
second = 1000000000

abbrev pub default_max_cache_size_mb : ℕ
default_max_cache_size_mb = 256

abbrev pub default_cache_ttl : ℕ
default_cache_ttl = 300 * second

-- Entry, the value in the store
pub record Entry (Row : Type 0) : Type 0 where
  pub rows : List Row
  pub size_bytes : ℕ
  pub cached_at : ℕ
  pub ttl : ℕ

-- The libraries that the cache calls: the ristretto store, encoding/json for the size of rows, and
-- the cron parser. Times are nanoseconds.
pub record Backend (Row : Type 0) : Type 1 where
  pub Store : Type 0
  pub new_store : ℕ → Option Store
  pub store_get : Store → Text → Option (Entry Row)
  pub store_set_with_ttl : Store → Text → Entry Row → ℕ → ℕ → Store × Bool
  pub store_del : Store → Text → Store
  pub store_clear : Store → Store
  pub marshal_length : List Row → ℕ
  pub valid_cron : Text → Bool

pub record Cache {Row : Type 0} (b : Backend Row) : Type 0 where
  pub store : b.Store
  pub max_cost : ℕ
  pub default_ttl : ℕ
  pub endpoints : Dict EndpointCache
  pub total_hits : ℕ
  pub total_misses : ℕ
