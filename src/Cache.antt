-- ===== src/Cache.antt =====
-- internal/cache/cache.go: the query cache with its accounting for each endpoint.
pub mod Store
pub mod Endpoint
pub mod Evict
pub mod Accounting
pub mod Views
pub mod Invariant
pub mod Bounds
pub mod Counters
pub mod Keys
mod Tests
use sqlproxy.Prelude.{
  ℕ, zero, suc, ◌+◌, ◌-◌, ◌*◌, List, [], ◌∷◌, ◌++◌, Text, codes, Bool, true, false, not, ◌&&◌, ◌||◌,
  Option, none, some, length, ltb, leb, ◌==◌, if◌then◌else◌, text_eq, Dict, lookup, insert, delete,
  Result, ok, err, ℤ, pos, negsuc, add_size, sub_size, above, total,
}
use Endpoint.{
  EntryMeta, EndpointCache, KeyAge, forget, remember, needs_eviction, key_ages, sort_by_age,
}
use sqlproxy.Cache.Store.{
  CacheConfig, EndpointCacheConfig, Error, creating_store, invalid_evict_cron, second,
  default_max_cache_size_mb, default_cache_ttl, Entry, Backend, Cache,
}

-- endpoint + ":" + key
unfoldable pub full_key : Text → Text → Text
full_key endpoint key = endpoint ++ (codes ":" ++ key)

module _ {Row : Type 0} (b : Backend Row) where
  -- A disabled cache is the nil pointer.
  pub new_cache : CacheConfig → Result Error (Option (Cache b))
  new_cache cfg =
      let max_cost =
        (if cfg.max_size_mb * 1024 * 1024 == 0
          then default_max_cache_size_mb * 1024 * 1024
          else cfg.max_size_mb * 1024 * 1024) in
      let ttl =
        (if cfg.default_ttl_sec * second == 0
          then default_cache_ttl
          else cfg.default_ttl_sec * second) in
      if not cfg.enabled then ok none else elim (b.new_store max_cost) [
        | none ↦ err creating_store
        | some store ↦ ok (
            some (record {
              store = store;
              max_cost = max_cost;
              default_ttl = ttl;
              endpoints = [];
              total_hits = 0;
              total_misses = 0;
            }))
      ]

  new_endpoint : Text → EndpointCacheConfig → Option Text → EndpointCache
  new_endpoint endpoint cfg cron = record {
    name = endpoint;
    max_cost = cfg.max_size_mb * 1024 * 1024;
    keys = [];
    cron_evict = cron;
    hits = 0;
    misses = 0;
    sets = 0;
    evictions = 0;
    size_bytes = pos 0;
  }

  pub register_endpoint : Cache b → Text → Option EndpointCacheConfig → Result Error (Cache b)
  unfolding new_endpoint
  register_endpoint c endpoint none = ok c
  register_endpoint c endpoint (some cfg) =
      let add = λ (cron : Option Text). record c {
        endpoints = insert endpoint (new_endpoint endpoint cfg cron) c.endpoints;
      } in
      if not cfg.enabled
      then ok c
      else if not (text_eq cfg.evict_cron [])
      then (if not (b.valid_cron cfg.evict_cron)
          then err invalid_evict_cron
          else ok (add (some cfg.evict_cron)))
      else ok (add none)

  pub get_endpoint : Cache b → Text → Option EndpointCache
  get_endpoint c endpoint = lookup endpoint c.endpoints

  -- A change of the object that the endpoint's pointer leads to; nothing for a nil pointer.
  pub update_endpoint : (EndpointCache → EndpointCache) → Cache b → Text → Cache b
  update_endpoint f c endpoint = elim (lookup endpoint c.endpoints) [
    | none ↦ c
    | some ep ↦ record c { endpoints = insert endpoint (f ep) c.endpoints }
  ]

  count_miss : EndpointCache → EndpointCache
  count_miss ep = record ep { misses = ep.misses + 1 }

  count_hit : EndpointCache → EndpointCache
  count_hit ep = record ep { hits = ep.hits + 1 }

  -- Every value in the store is an Entry, so the type assertion holds.
  pub get : Cache b → Text → Text → Cache b × Option (List Row)
  unfolding update_endpoint count_miss count_hit
  get c endpoint key = elim (b.store_get c.store (full_key endpoint key)) [
    | none ↦
        (update_endpoint count_miss (record c { total_misses = c.total_misses + 1 }) endpoint, none)
    | some entry ↦ (
      update_endpoint count_hit (record c { total_hits = c.total_hits + 1 }) endpoint,
      some entry.rows,
    )
  ]

  pub delete_key : Cache b → Text → Text → Cache b
  delete_key c endpoint key =
      update_endpoint (forget key)
        (record c { store = b.store_del c.store (full_key endpoint key) }) endpoint

  -- the loop of evictFromEndpoint
  pub evict_loop : Text → ℕ → ℕ → List KeyAge → Cache b → Cache b
  evict_loop endpoint needed freed [] c = c
  evict_loop endpoint needed freed (ka ∷ keys) c =
      let rest = evict_loop endpoint needed (freed + ka.size) keys (delete_key c endpoint ka.key) in
      if leb needed freed then c else rest

  pub evict_from_endpoint : Cache b → Text → ℕ → Cache b
  evict_from_endpoint c endpoint needed = elim (lookup endpoint c.endpoints) [
    | none ↦ c
    | some ep ↦ evict_loop endpoint needed 0 (sort_by_age (key_ages ep.keys)) c
  ]

  pub calculate_size : List Row → ℕ
  calculate_size [] = 0
  calculate_size (row ∷ rows) = b.marshal_length (row ∷ rows)

  -- the part of Set before the store is written
  pub make_room : Cache b → Text → ℕ → Cache b
  make_room c endpoint size = elim (lookup endpoint c.endpoints) [
    | none ↦ c
    | some ep ↦ if needs_eviction size ep then evict_from_endpoint c endpoint size else c
  ]

  -- the part of Set behind the store's answer
  pub finish_set : Bool → Text → EntryMeta → Cache b → Text → Cache b
  finish_set success key meta c endpoint =
      if success then update_endpoint (remember key meta) c endpoint else c

  -- `created` and `stamped` are the two readings of the clock.
  pub set : Cache b → Text → Text → List Row → ℕ → ℕ → ℕ → Cache b × Bool
  set c endpoint key rows ttl created stamped =
      let size = calculate_size rows in
      let c' = make_room c endpoint size in
      let entry : Entry Row = record {
        rows = rows;
        size_bytes = size;
        cached_at = created;
        ttl = ttl;
      } in
      let ttl' = if ttl == 0 then c.default_ttl else ttl in
      let (store, success) =
        b.store_set_with_ttl c'.store (full_key endpoint key) entry size ttl' in
      let stored = record c' { store = store } in
      let meta : EntryMeta = record { size_bytes = size; cached_at = stamped; ttl = ttl' } in
      (finish_set success key meta stored endpoint, success)

  delete_keys : Text → Dict EntryMeta → Cache b → Cache b
  delete_keys endpoint [] c = c
  delete_keys endpoint ((k, meta) ∷ m) c = delete_keys endpoint m (delete_key c endpoint k)

  pub clear : Cache b → Text → Cache b
  unfolding delete_keys
  clear c endpoint = elim (lookup endpoint c.endpoints) [
    | none ↦ c
    | some ep ↦ delete_keys endpoint ep.keys c
  ]

  reset_endpoint : EndpointCache → EndpointCache
  reset_endpoint ep = record ep { keys = []; size_bytes = pos 0 }

  reset_endpoints : Dict EndpointCache → Dict EndpointCache
  unfolding reset_endpoint
  reset_endpoints [] = []
  reset_endpoints ((name, ep) ∷ m) = (name, reset_endpoint ep) ∷ reset_endpoints m

  pub clear_all : Cache b → Cache b
  unfolding reset_endpoints
  clear_all c = record c { store = b.store_clear c.store; endpoints = reset_endpoints c.endpoints }

  -- The remaining TTL at the time `now`, which is not before the entry was cached.
  pub get_ttl_remaining : Cache b → Text → Text → ℕ → ℕ
  get_ttl_remaining c endpoint key now = elim (lookup endpoint c.endpoints) [
    | none ↦ 0
    | some ep ↦ elim (lookup key ep.keys) [
      | none ↦ 0
      | some meta ↦
          let elapsed = now - meta.cached_at in
          if ltb meta.ttl elapsed then 0 else meta.ttl - elapsed
    ]
  ]

  pub data Computed (E : Type 0) : Type 0 where
    hit : List Row → Computed E
    fresh : List Row → Computed E
    failed : E → Computed E

  -- The function that the singleflight group runs, by a caller that nothing runs beside.
  compute_and_set :
      {E : Type 0} → Cache b → Text → Text → ℕ → ℕ → ℕ → Result E (List Row) → Cache b × Computed E
  compute_and_set c endpoint key ttl created stamped (err e) = (c, failed e)
  compute_and_set c endpoint key ttl created stamped (ok rows) =
      ((set c endpoint key rows ttl created stamped).0, fresh rows)

  -- the double check, and the computation
  fly :
      {E : Type 0}
      → Cache b × Option (List Row)
      → Text
      → Text
      → ℕ
      → ℕ
      → ℕ
      → Result E (List Row)
      → Cache b × Computed E
  unfolding compute_and_set
  fly (c, some rows) endpoint key ttl created stamped result = (c, fresh rows)
  fly (c, none) endpoint key ttl created stamped result =
      compute_and_set c endpoint key ttl created stamped result

  pub get_or_compute :
      {E : Type 0} → Cache b → Text → Text → ℕ → ℕ → ℕ → Result E (List Row) → Cache b × Computed E
  unfolding fly
  get_or_compute c endpoint key ttl created stamped result =
      let (c', found) = get c endpoint key in
      elim found [
        | some rows ↦ (c', hit rows)
        | none ↦ fly (get c' endpoint key) endpoint key ttl created stamped result
      ]
