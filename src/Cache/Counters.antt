-- ===== src/Cache/Counters.antt =====
-- The totals of hits and misses in internal/cache/cache.go.
use sqlproxy.Prelude.{
  ℕ, ◌+◌, ◌≡◌, refl, ap, ◌∙◌, inl, inr, arith, Text, Bool, true, false, none, Option-cases,
  Bool-cases, List, [], ◌∷◌, lookup, Result, ok, err, leb,
}
use sqlproxy.Cache.Endpoint.{
  EntryMeta, EndpointCache, KeyAge, needs_eviction, key_ages, sort_by_age,
}
use sqlproxy.Cache.{
  full_key, update_endpoint, get, count_miss, delete_key, evict_loop, evict_from_endpoint,
  make_room, finish_set, calculate_size, set, get_or_compute, fly, compute_and_set,
}
use sqlproxy.Cache.Store.{Backend, Cache}

module _ {Row : Type 0} (b : Backend Row) where
  -- hits and misses counted over all endpoints
  abbrev totals : Cache b → ℕ × ℕ
  totals c = (c.total_hits, c.total_misses)

  totals-update :
      (f : EndpointCache → EndpointCache) (c : Cache b) (e : Text)
      → totals (update_endpoint b f c e) ≡ totals c
  unfolding update_endpoint
  totals-update f c e = ground arith

  totals-evict_loop :
      (e : Text) (needed freed : ℕ) (keys : List KeyAge) (c : Cache b)
      → totals (evict_loop b e needed freed keys c) ≡ totals c
  unfolding evict_loop delete_key
  totals-evict_loop e needed freed [] c = refl
  totals-evict_loop e needed freed (ka ∷ keys) c = elim (Bool-cases (leb needed freed)) [
    | inl done ↦ rw done
    | inr more ↦ rw more (
        totals-evict_loop e needed (freed + ka.size) keys (delete_key b c e ka.key)
        ∙ totals-update _ _ e)
  ]

  totals-make_room : (c : Cache b) (e : Text) (size : ℕ) → totals (make_room b c e size) ≡ totals c
  unfolding make_room evict_from_endpoint
  totals-make_room c e size = elim (Option-cases (lookup e c.endpoints)) [
    | inl x ↦ rw (x, make_room)
    | inr (ep, x) ↦ elim (Bool-cases (needs_eviction size ep)) [
      | inl full ↦
          rw (x, make_room, full)
            (rw (x, evict_from_endpoint)
              (totals-evict_loop e size 0 (sort_by_age (key_ages ep.keys)) c))
      | inr fits ↦ rw (x, make_room, fits)
    ]
  ]

  totals-finish_set :
      (s : Bool) (key : Text) (meta : EntryMeta) (c : Cache b) (e : Text)
      → totals (finish_set b s key meta c e) ≡ totals c
  unfolding finish_set
  totals-finish_set true key meta c e = totals-update _ c e
  totals-finish_set false key meta c e = refl

  totals-set :
      (c : Cache b) (e key : Text) (rows : List Row) (ttl created stamped : ℕ)
      → totals (set b c e key rows ttl created stamped).0 ≡ totals c
  unfolding set
  totals-set c e key rows ttl created stamped =
      totals-finish_set _ key _ _ e ∙ totals-make_room c e (calculate_size b rows)

  module _ (c : Cache b) (e key : Text) (absent : b.store_get c.store (full_key e key) ≡ none) where
    get_miss : get b c e key ≡ (
      update_endpoint b (count_miss b) (record c { total_misses = c.total_misses + 1 }) e,
      none,
    )
    unfolding get
    get_miss = rw (absent, get)

  store-get : (c : Cache b) (e key : Text) → (get b c e key).0.store ≡ c.store
  unfolding get update_endpoint
  store-get c e key = ground arith

  totals-get_miss :
      (c : Cache b) (e key : Text)
      → b.store_get c.store (full_key e key) ≡ none
      → totals (get b c e key).0 ≡ (c.total_hits, c.total_misses + 1)
  totals-get_miss c e key absent = rw (get_miss c e key absent) (totals-update _ _ e)

  totals-compute :
      {E : Type 0} (c : Cache b) (e key : Text) (ttl created stamped : ℕ) (r : Result E (List Row))
      → totals (compute_and_set b c e key ttl created stamped r).0 ≡ totals c
  unfolding compute_and_set
  totals-compute c e key ttl created stamped (ok rows) = totals-set c e key rows ttl created stamped
  totals-compute c e key ttl created stamped (err x) = refl

  rows-get_miss :
      (c : Cache b) (e key : Text)
      → b.store_get c.store (full_key e key) ≡ none
      → (get b c e key).1 ≡ none
  rows-get_miss c e key absent = rw (get_miss c e key absent)

  totals-get_or_compute_miss :
      {E : Type 0} (c : Cache b) (e key : Text) (ttl created stamped : ℕ) (r : Result E (List Row))
      → b.store_get c.store (full_key e key) ≡ none
      → totals (get_or_compute b c e key ttl created stamped r).0
        ≡ (c.total_hits, c.total_misses + 1 + 1)
  unfolding get_or_compute fly
  totals-get_or_compute_miss c e key ttl created stamped r absent =
      let c1 = (get b c e key).0 in
      let still : b.store_get c1.store (full_key e key) ≡ none = rw (store-get c e key) absent in
      let once = totals-get_miss c e key absent in
      rw (rows-get_miss c e key absent, get_or_compute)
        (rw (rows-get_miss c1 e key still, fly)
          (totals-compute (get b c1 e key).0 e key ttl created stamped r
            ∙ totals-get_miss c1 e key still
            ∙ ap (λ (t : ℕ × ℕ). (t.0, t.1 + 1)) once))

  -- A request that misses the cache adds two to the total of misses and nothing to the hits.
  pub miss_counted_twice :
      {E : Type 0} (c : Cache b) (e key : Text) (ttl created stamped : ℕ) (r : Result E (List Row))
      → b.store_get c.store (full_key e key) ≡ none
      → ((get_or_compute b c e key ttl created stamped r).0.total_misses ≡ c.total_misses + 2)
        × ((get_or_compute b c e key ttl created stamped r).0.total_hits ≡ c.total_hits)
  miss_counted_twice c e key ttl created stamped r absent =
      let t = totals-get_or_compute_miss c e key ttl created stamped r absent in
      (omega (arith, ap (λ (t : ℕ × ℕ). t.1) t), ap (λ (t : ℕ × ℕ). t.0) t)
