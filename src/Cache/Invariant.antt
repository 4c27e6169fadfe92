-- ===== src/Cache/Invariant.antt =====
-- Every operation of internal/cache/cache.go keeps the accounting of every endpoint.
pub mod Ops
use sqlproxy.Prelude.{
  ℕ, ◌+◌, ◌≡◌, refl, sym, ap, ◌∙◌, ◌⊎◌, inl, inr, arith, Text, text_eq, text_eq_iff, text_eq_refl,
  Bool, true, false, Option, none, some, Option-cases, Bool-cases, List, [], ◌∷◌, Dict, lookup,
  insert, lookup-insert, pos, if◌then◌else◌, not, leb,
}
use sqlproxy.Cache.Endpoint.{
  EntryMeta, EndpointCache, KeyAge, forget, remember, needs_eviction, key_ages, sort_by_age,
}
use sqlproxy.Cache.Evict.{evicted, evicted_frees}
use sqlproxy.Cache.Accounting.{IsAccounted, forget-IsAccounted, remember-IsAccounted}
use sqlproxy.Cache.Views.{
  view, view-update_endpoint, on_endpoint, view-make_room, view-make_room_other, roomy,
}
use sqlproxy.Cache.{
  full_key, update_endpoint, get, count_hit, count_miss, delete_key, evict_loop,
  evict_from_endpoint, make_room, finish_set, calculate_size, set, delete_keys, clear, clear_all,
  reset_endpoint, reset_endpoints, new_endpoint, register_endpoint,
}
use sqlproxy.Cache.Store.{Backend, Cache, Entry, Error, EndpointCacheConfig}

module _ {Row : Type 0} (b : Backend Row) where
  -- Of every endpoint the recorded size is the sum over its keys.
  pub record IsConsistent (c : Cache b) : Type 0 where
    pub at : (j : Text) (ep : EndpointCache) → view b c j ≡ some ep → IsAccounted ep

  update-IsConsistent :
      (f : EndpointCache → EndpointCache)
      → ((ep : EndpointCache) → IsAccounted ep → IsAccounted (f ep))
      → (c : Cache b) (e : Text) → IsConsistent c
      → IsConsistent (update_endpoint b f c e)
  update-IsConsistent f keeps c e h = record {
    at = λ j ep p. elim (Bool-cases (text_eq e j)) [
      | inl x ↦ elim (Option-cases (view b c j)) [
        | inl y ↦ absurd (ground (arith, view-update_endpoint b f c e j))
        | inr (old, y) ↦
            let same : f old ≡ ep = ground (arith, view-update_endpoint b f c e j) in
            rw (← same) (keeps old (h.at j old y))
      ]
      | inr x ↦ h.at j ep (ground (arith, view-update_endpoint b f c e j))
    ];
  }

  pub delete_key-IsConsistent :
      (c : Cache b) (e k : Text) → IsConsistent c → IsConsistent (delete_key b c e k)
  unfolding delete_key
  delete_key-IsConsistent c e k h =
      update-IsConsistent (forget k) (forget-IsAccounted k)
        (record c { store = b.store_del c.store (full_key e k) }) e (record { at = h.at })

  evict_loop-IsConsistent :
      (e : Text) (needed freed : ℕ) (keys : List KeyAge) (c : Cache b)
      → IsConsistent c
      → IsConsistent (evict_loop b e needed freed keys c)
  unfolding evict_loop
  evict_loop-IsConsistent e needed freed [] c h = h
  evict_loop-IsConsistent e needed freed (ka ∷ keys) c h = elim (Bool-cases (leb needed freed)) [
    | inl done ↦ rw done h
    | inr more ↦ rw more (
        evict_loop-IsConsistent e needed (freed + ka.size) keys (delete_key b c e ka.key)
          (delete_key-IsConsistent c e ka.key h))
  ]

  make_room-IsConsistent :
      (c : Cache b) (e : Text) (size : ℕ) → IsConsistent c → IsConsistent (make_room b c e size)
  unfolding make_room evict_from_endpoint
  make_room-IsConsistent c e size h = elim (Option-cases (lookup e c.endpoints)) [
    | inl x ↦ rw (x, make_room) h
    | inr (ep, x) ↦ elim (Bool-cases (needs_eviction size ep)) [
      | inl full ↦
          rw (x, make_room, full)
            (rw (x, evict_from_endpoint)
              (evict_loop-IsConsistent e size 0 (sort_by_age (key_ages ep.keys)) c h))
      | inr fits ↦ rw (x, make_room, fits) h
    ]
  ]

  finish_set-IsConsistent :
      (s : Bool) (key : Text) (meta : EntryMeta) (c : Cache b) (e : Text)
      → IsConsistent c
      → IsConsistent (finish_set b s key meta c e)
  unfolding finish_set
  finish_set-IsConsistent true key meta c e h =
      update-IsConsistent (remember key meta) (λ ep v. remember-IsAccounted key ep v meta) c e h
  finish_set-IsConsistent false key meta c e h = h

  pub set-IsConsistent :
      (c : Cache b) (e key : Text) (rows : List Row) (ttl created stamped : ℕ)
      → IsConsistent c
      → IsConsistent (set b c e key rows ttl created stamped).0
  unfolding set
  set-IsConsistent c e key rows ttl created stamped h =
      finish_set-IsConsistent _ key _ _ e
        (record { at = (make_room-IsConsistent c e (calculate_size b rows) h).at })

  count_miss-IsConsistent :
      (c : Cache b) (e : Text)
      → IsConsistent c
      → IsConsistent (update_endpoint b (count_miss b) c e)
  count_miss-IsConsistent =
      update-IsConsistent (count_miss b)
        (λ ep v. unfold count_miss in record { distinct = v.distinct; size = v.size })

  count_hit-IsConsistent :
      (c : Cache b) (e : Text) → IsConsistent c → IsConsistent (update_endpoint b (count_hit b) c e)
  count_hit-IsConsistent =
      update-IsConsistent (count_hit b)
        (λ ep v. unfold count_hit in record { distinct = v.distinct; size = v.size })

  pub get-IsConsistent :
      (c : Cache b) (e key : Text) → IsConsistent c → IsConsistent (get b c e key).0
  unfolding get
  get-IsConsistent c e key h = elim (Option-cases (b.store_get c.store (full_key e key))) [
    | inl x ↦
        rw (x, get)
          (count_miss-IsConsistent (record c { total_misses = c.total_misses + 1 }) e
            (record { at = h.at }))
    | inr (entry, x) ↦
        rw (x, get)
          (count_hit-IsConsistent (record c { total_hits = c.total_hits + 1 }) e
            (record { at = h.at }))
  ]

  delete_keys-IsConsistent :
      (e : Text) (m : Dict EntryMeta) (c : Cache b)
      → IsConsistent c
      → IsConsistent (delete_keys b e m c)
  unfolding delete_keys
  delete_keys-IsConsistent e [] c h = h
  delete_keys-IsConsistent e ((k, meta) ∷ m) c h =
      delete_keys-IsConsistent e m (delete_key b c e k) (delete_key-IsConsistent c e k h)

  pub clear-IsConsistent : (c : Cache b) (e : Text) → IsConsistent c → IsConsistent (clear b c e)
  unfolding clear
  clear-IsConsistent c e h = elim (Option-cases (lookup e c.endpoints)) [
    | inl x ↦ rw (x, clear) h
    | inr (ep, x) ↦ rw (x, clear) (delete_keys-IsConsistent e ep.keys c h)
  ]

  reset-IsAccounted :
      (j : Text) (m : Dict EndpointCache) (ep : EndpointCache)
      → lookup j (reset_endpoints b m) ≡ some ep
      → IsAccounted ep
  unfolding reset_endpoints reset_endpoint lookup
  reset-IsAccounted j [] ep p = absurd (ground arith)
  reset-IsAccounted j ((k, old) ∷ m) ep p = elim (Bool-cases (text_eq k j)) [
    | inl x ↦
        let same : reset_endpoint b old ≡ ep = ground arith in
        rw (← same) (record { distinct = tt; size = refl })
    | inr x ↦ reset-IsAccounted j m ep (rw x at p)
  ]

  pub clear_all-IsConsistent : (c : Cache b) → IsConsistent (clear_all b c)
  unfolding clear_all
  clear_all-IsConsistent c = record { at = λ j ep p. reset-IsAccounted j c.endpoints ep p }
