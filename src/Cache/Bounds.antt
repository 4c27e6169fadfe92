-- ===== src/Cache/Bounds.antt =====
-- The size limit of an endpoint in internal/cache/cache.go.
use sqlproxy.Prelude.{
  ℕ, ◌+◌, ◌≤◌, ◌<◌, ◌≡◌, refl, ◌∙◌, inl, inr, arith, Text, Bool, true, false, some, Bool-cases,
  List, [], ◌∷◌, lookup, of_option, total-insert, total-delete, ltb, above, add_size_pos,
}
use sqlproxy.Cache.Endpoint.{
  EntryMeta, EndpointCache, KeyAge, forget, remember, needs_eviction, key_ages, sort_by_age,
}
use sqlproxy.Cache.Evict.{forget_until, evicted, evicted_frees}
use sqlproxy.Cache.Accounting.{
  IsAccounted, tracked, meta_size, tracked-remember, remember-IsAccounted,
}
use sqlproxy.Cache.Views.{view, view-set, after_set, set_meta, roomy}
use sqlproxy.Cache.{calculate_size, set}
use sqlproxy.Cache.Store.{Backend, Cache}

max_cost-forget : (k : Text) (ep : EndpointCache) → (forget k ep).max_cost ≡ ep.max_cost
unfolding forget
max_cost-forget k ep = ground arith

max_cost-forget_until :
    (needed freed : ℕ) (keys : List KeyAge) (ep : EndpointCache)
    → (forget_until needed freed keys ep).max_cost ≡ ep.max_cost
unfolding forget_until
max_cost-forget_until needed freed [] ep = refl
max_cost-forget_until needed freed (ka ∷ keys) ep = ground (
  arith,
  max_cost-forget_until needed (freed + ka.size) keys (forget ka.key ep),
  max_cost-forget ka.key ep,
)

max_cost-evicted : (size : ℕ) (ep : EndpointCache) → (evicted size ep).max_cost ≡ ep.max_cost
unfolding evicted
max_cost-evicted size ep = max_cost-forget_until size 0 (sort_by_age (key_ages ep.keys)) ep

-- The test of Set, on an endpoint whose size is accounted for.
needs_eviction_lem :
    (size : ℕ) (ep : EndpointCache)
    → IsAccounted ep
    → 0 < ep.max_cost
    → needs_eviction size ep ≡ ltb ep.max_cost (tracked ep + size)
unfolding needs_eviction above
needs_eviction_lem size ep v h = rw (v.size, add_size_pos (tracked ep) size) (ground arith)

pub record Limited (ep : EndpointCache) : Type 0 where
  pub accounted : IsAccounted ep
  pub limited : 0 < ep.max_cost
  pub within : tracked ep ≤ ep.max_cost

module _ {Row : Type 0} (b : Backend Row) (size : ℕ) (ep : EndpointCache) (h : Limited ep) where
  roomy_fits : size ≤ ep.max_cost → tracked (roomy b size ep) + size ≤ ep.max_cost
  roomy_fits fits = elim (Bool-cases (needs_eviction size ep)) [
    | inl e ↦ rw e (
        let (v, frees) = evicted_frees size ep h.accounted in
        elim frees [ inl a ↦ omega (arith, h.within) | inr a ↦ omega arith ])
    | inr e ↦ rw e (ground (arith, needs_eviction_lem size ep h.accounted h.limited))
  ]

  roomy_empties : ep.max_cost < size → tracked (roomy b size ep) ≡ 0
  roomy_empties over = elim (Bool-cases (needs_eviction size ep)) [
    | inl e ↦ rw e (
        let (v, frees) = evicted_frees size ep h.accounted in
        elim frees [ inl a ↦ absurd (omega (arith, h.within)) | inr a ↦ a ])
    | inr e ↦ absurd (ground (arith, needs_eviction_lem size ep h.accounted h.limited))
  ]

  roomy-IsAccounted : IsAccounted (roomy b size ep)
  roomy-IsAccounted = elim (Bool-cases (needs_eviction size ep)) [
    | inl e ↦ rw e (evicted_frees size ep h.accounted).0
    | inr e ↦ rw e h.accounted
  ]

  max_cost-roomy : (roomy b size ep).max_cost ≡ ep.max_cost
  max_cost-roomy = ground (arith, max_cost-evicted size ep)

max_cost-remember :
    (k : Text) (m : EntryMeta) (ep : EndpointCache) → (remember k m ep).max_cost ≡ ep.max_cost
unfolding remember
max_cost-remember k m ep = refl

of_option-le :
    (k : Text) (ep : EndpointCache)
    → IsAccounted ep
    → of_option meta_size (lookup k ep.keys) ≤ tracked ep
of_option-le k ep v = omega (arith, total-delete meta_size k ep.keys v.distinct)

tracked-remember_empty :
    (k : Text) (m : EntryMeta) (ep : EndpointCache)
    → IsAccounted ep
    → tracked ep ≡ 0
    → tracked (remember k m ep) ≡ m.size_bytes
unfolding remember
tracked-remember_empty k m ep v e =
    omega (arith, total-insert meta_size k m ep.keys, of_option-le k ep v)

module _ {Row : Type 0} (b : Backend Row) (key : Text) (meta : EntryMeta) (ep : EndpointCache)
    (h : Limited ep) where
  after_set-Limited :
      (s : Bool)
      → meta.size_bytes ≤ ep.max_cost
      → Limited (after_set b s key meta ep) × ((after_set b s key meta ep).max_cost ≡ ep.max_cost)
  after_set-Limited true fits =
      let r = roomy b meta.size_bytes ep in
      let same = max_cost-roomy b meta.size_bytes ep h in
      let sum = roomy_fits b meta.size_bytes ep h fits in
      let acc = roomy-IsAccounted b meta.size_bytes ep h in
      let cost : (remember key meta r).max_cost ≡ ep.max_cost =
        max_cost-remember key meta r ∙ same in
      (
        record {
          accounted = remember-IsAccounted key r acc meta;
          limited = rw cost h.limited;
          within = rw cost (omega (arith, tracked-remember key r acc meta));
        },
        cost,
      )
  after_set-Limited false fits =
      let same = max_cost-roomy b meta.size_bytes ep h in
      (
        record {
          accounted = roomy-IsAccounted b meta.size_bytes ep h;
          limited = rw same h.limited;
          within = rw same (omega (arith, roomy_fits b meta.size_bytes ep h fits));
        },
        same,
      )

module _ {Row : Type 0} (b : Backend Row) (c : Cache b) (e key : Text) (rows : List Row)
    (ttl created stamped : ℕ) (ep : EndpointCache) (here : view b c e ≡ some ep)
    (h : Limited ep) where
  -- Storing rows that fit an endpoint keeps the endpoint within its size limit.
  pub set-Limited :
      calculate_size b rows ≤ ep.max_cost
      → (ep' : EndpointCache) × (view b (set b c e key rows ttl created stamped).0 e ≡ some ep')
        × Limited ep'
        × (ep'.max_cost ≡ ep.max_cost)
  set-Limited fits =
      let success = (set b c e key rows ttl created stamped).1 in
      let meta = set_meta b c rows ttl stamped in
      let (limited, cost) = after_set-Limited b key meta ep h success fits in
      (
        after_set b success key meta ep,
        view-set b c e key rows ttl created stamped ep here,
        limited,
        cost,
      )

  -- Rows larger than the limit evict all else and leave the endpoint over its limit.
  pub set_oversized :
      ep.max_cost < calculate_size b rows
      → (set b c e key rows ttl created stamped).1 ≡ true
      → (ep' : EndpointCache) × (view b (set b c e key rows ttl created stamped).0 e ≡ some ep')
        × (tracked ep' ≡ calculate_size b rows)
        × (ep'.max_cost < tracked ep')
  set_oversized over taken =
      let meta = set_meta b c rows ttl stamped in
      let r = roomy b meta.size_bytes ep in
      let size : tracked (remember key meta r) ≡ calculate_size b rows =
        tracked-remember_empty key meta r (roomy-IsAccounted b meta.size_bytes ep h)
          (roomy_empties b meta.size_bytes ep h over) in
      let cost : (remember key meta r).max_cost ≡ ep.max_cost =
        max_cost-remember key meta r ∙ max_cost-roomy b meta.size_bytes ep h in
      (
        remember key meta r,
        view-set b c e key rows ttl created stamped ep here ∙ rw taken,
        size,
        rw (cost, size) over,
      )
