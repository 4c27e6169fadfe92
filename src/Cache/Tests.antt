-- ===== src/Cache/Tests.antt =====
-- A cache over a plain map, for internal/cache/cache.go.
use sqlproxy.Prelude.{
  ℕ, ◌+◌, ◌≡◌, refl, arith, Text, codes, true, List, [], ◌∷◌, none, some, Dict, lookup, insert,
  delete, text_eq, pos,
}
use sqlproxy.Cache.Endpoint.{EndpointCache}
use sqlproxy.Cache.Bounds.{Limited, set-Limited}
use sqlproxy.Cache.Views.{view}
use sqlproxy.Cache.Invariant.{IsConsistent}
use sqlproxy.Cache.Invariant.Ops
use sqlproxy.Cache.Invariant.Ops.{run, run-new_cache}
use sqlproxy.Cache.{new_cache, set, calculate_size}
use sqlproxy.Cache.Store.{Backend, Cache, CacheConfig, Entry}

-- Rows are numbers of bytes; the store keeps everything.
abbrev row_bytes : List ℕ → ℕ
row_bytes [] = 0
row_bytes (r ∷ rows) = r + row_bytes rows

abbrev plain : Backend ℕ
plain = record {
  Store = Dict (Entry ℕ);
  new_store = λ max. some [];
  store_get = λ s k. lookup k s;
  store_set_with_ttl = λ s k v cost ttl. (insert k v s, true);
  store_del = λ s k. delete k s;
  store_clear = λ s. [];
  marshal_length = row_bytes;
  valid_cron = λ expr. true;
}

abbrev config : CacheConfig
config = record { enabled = true; max_size_mb = 1; default_ttl_sec = 0 }

abbrev e : Text
e = codes "tasks"

abbrev endpoint : EndpointCache
endpoint = record {
  name = e;
  max_cost = 100;
  keys = (codes "a", record { size_bytes = 60; cached_at = 1; ttl = 9 }) ∷ [];
  cron_evict = none;
  hits = 0;
  misses = 0;
  sets = 1;
  evictions = 0;
  size_bytes = pos 60;
}

abbrev cache : Cache plain
cache = record {
  store = [];
  max_cost = 1000;
  default_ttl = 9;
  endpoints = (e, endpoint) ∷ [];
  total_hits = 0;
  total_misses = 0;
}

endpoint-Limited : Limited endpoint
unfolding lookup
endpoint-Limited = record {
  accounted = record { distinct = (refl, tt); size = refl };
  limited = omega arith;
  within = omega arith;
}

set-Limited_example :
    (ep' : EndpointCache) × (view plain (set plain cache e (codes "b") (70 ∷ []) 0 2 3).0 e
      ≡ some ep')
    × Limited ep'
    × (ep'.max_cost ≡ 100)
unfolding lookup text_eq calculate_size
set-Limited_example =
    set-Limited plain cache e (codes "b") (70 ∷ []) 0 2 3 endpoint refl endpoint-Limited
      (omega arith)

abbrev fresh_cache : Cache plain
fresh_cache = record {
  store = [];
  max_cost = 1048576;
  default_ttl = 300000000000;
  endpoints = [];
  total_hits = 0;
  total_misses = 0;
}

abbrev calls : List (Ops.Call plain)
calls =
    Ops.register_call e (some (record { enabled = true; max_size_mb = 1; evict_cron = [] }))
    ∷ Ops.set_call e (codes "a") (7 ∷ []) 0 1 1
    ∷ Ops.get_call e (codes "a")
    ∷ Ops.clear_call e
    ∷ []

run-new_cache_example : IsConsistent plain (run plain fresh_cache calls)
unfolding new_cache
run-new_cache_example = run-new_cache plain config fresh_cache calls refl
