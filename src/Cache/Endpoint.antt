-- ===== src/Cache/Endpoint.antt =====
-- EndpointCache of internal/cache/cache.go: what the cache records for one endpoint, and the
-- blocks that change it under its lock.
use sqlproxy.Prelude.{
  ℕ, ◌+◌, List, [], ◌∷◌, Text, Bool, ◌&&◌, Option, none, some, ltb, if◌then◌else◌, Dict, lookup,
  insert, delete, ℤ, add_size, sub_size, above,
}

pub record EntryMeta : Type 0 where
  pub size_bytes : ℕ
  pub cached_at : ℕ
  pub ttl : ℕ

-- `cron_evict` is the schedule of the cron job, if there is one.
pub record EndpointCache : Type 0 where
  pub name : Text
  pub max_cost : ℕ
  pub keys : Dict EntryMeta
  pub cron_evict : Option Text
  pub hits : ℕ
  pub misses : ℕ
  pub sets : ℕ
  pub evictions : ℕ
  pub size_bytes : ℤ

-- the locked block of Delete
unfoldable pub forget : Text → EndpointCache → EndpointCache
forget key ep = elim (lookup key ep.keys) [
  | none ↦ ep
  | some meta ↦ record ep {
    size_bytes = sub_size ep.size_bytes meta.size_bytes;
    keys = delete key ep.keys;
    evictions = ep.evictions + 1;
  }
]

-- the subtraction of an updated key's old size, in Set
unfoldable pub without_old : Text → EndpointCache → ℤ
without_old key ep = elim (lookup key ep.keys) [
  | none ↦ ep.size_bytes
  | some existing ↦ sub_size ep.size_bytes existing.size_bytes
]

-- the last locked block of Set
unfoldable pub remember : Text → EntryMeta → EndpointCache → EndpointCache
unfolding without_old
remember key meta ep = record ep {
  keys = insert key meta ep.keys;
  size_bytes = add_size (without_old key ep) meta.size_bytes;
  sets = ep.sets + 1;
}

-- the first locked block of Set
unfoldable pub needs_eviction : ℕ → EndpointCache → Bool
needs_eviction size ep = ltb 0 ep.max_cost && above (add_size ep.size_bytes size) ep.max_cost

pub record KeyAge : Type 0 where
  pub key : Text
  pub cached_at : ℕ
  pub size : ℕ

-- the keys that evictFromEndpoint collects
unfoldable pub key_ages : Dict EntryMeta → List KeyAge
key_ages [] = []
key_ages ((k, meta) ∷ m) =
    record { key = k; cached_at = meta.cached_at; size = meta.size_bytes } ∷ key_ages m

-- sort.Slice by age, oldest first
unfoldable pub insert_by_age : KeyAge → List KeyAge → List KeyAge
insert_by_age a [] = a ∷ []
insert_by_age a (b ∷ l) = if ltb b.cached_at a.cached_at then b ∷ insert_by_age a l else a ∷ b ∷ l

unfoldable pub sort_by_age : List KeyAge → List KeyAge
unfolding insert_by_age
sort_by_age [] = []
sort_by_age (a ∷ l) = insert_by_age a (sort_by_age l)
