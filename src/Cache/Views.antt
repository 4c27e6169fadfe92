-- ===== src/Cache/Views.antt =====
-- What each operation of internal/cache/cache.go does to the record of one endpoint.
use sqlproxy.Prelude.{
  ℕ, ◌+◌, ◌≡◌, refl, ◌∙◌, inl, inr, arith, Text, text_eq, text_eq_iff, text_eq_refl, Bool, true,
  false, Option, none, some, Option-cases, Bool-cases, List, [], ◌∷◌, lookup, lookup-insert, leb,
  ◌==◌, if◌then◌else◌,
}
use sqlproxy.Cache.Endpoint.{
  EntryMeta, EndpointCache, KeyAge, forget, remember, needs_eviction, key_ages, sort_by_age,
}
use sqlproxy.Cache.Evict.{forget_until, evicted}
use sqlproxy.Cache.{
  full_key, update_endpoint, delete_key, evict_loop, evict_from_endpoint, make_room, calculate_size,
  finish_set, set,
}
use sqlproxy.Cache.Store.{Backend, Cache}

abbrev pub on_endpoint :
    (EndpointCache → EndpointCache) → Option EndpointCache → Option EndpointCache
on_endpoint f none = none
on_endpoint f (some ep) = some (f ep)

on_endpoint-on_endpoint :
    (f g : EndpointCache → EndpointCache) (o : Option EndpointCache)
    → on_endpoint f (on_endpoint g o) ≡ on_endpoint (λ ep. f (g ep)) o
on_endpoint-on_endpoint f g none = refl
on_endpoint-on_endpoint f g (some ep) = refl

module _ {Row : Type 0} (b : Backend Row) where
  -- the record of an endpoint, if it is registered
  abbrev pub view : Cache b → Text → Option EndpointCache
  view c endpoint = lookup endpoint c.endpoints

  pub view-update_endpoint :
      (f : EndpointCache → EndpointCache) (c : Cache b) (e j : Text)
      → view (update_endpoint b f c e) j
        ≡ (if text_eq e j then on_endpoint f (view c j) else view c j)
  unfolding update_endpoint
  view-update_endpoint f c e j = elim (Option-cases (lookup e c.endpoints)) [
    | inl x ↦ rw (x, update_endpoint) (ground (arith, text_eq_iff e j))
    | inr (ep, x) ↦
        rw (x, update_endpoint)
          (lookup-insert e j (f ep) c.endpoints ∙ ground (arith, text_eq_iff e j))
  ]

  pub view-update_endpoint_self :
      (f : EndpointCache → EndpointCache) (c : Cache b) (e : Text)
      → view (update_endpoint b f c e) e ≡ on_endpoint f (view c e)
  view-update_endpoint_self f c e = view-update_endpoint f c e e ∙ rw (text_eq_refl e)

  view_here :
      (f : EndpointCache → EndpointCache) (c : Cache b) (e : Text) (ep : EndpointCache)
      → view c e ≡ some ep
      → view (update_endpoint b f c e) e ≡ some (f ep)
  view_here f c e ep h = view-update_endpoint_self f c e ∙ rw h

  view_there :
      (f : EndpointCache → EndpointCache) (c : Cache b) (e j : Text)
      → text_eq e j ≡ false
      → view (update_endpoint b f c e) j ≡ view c j
  view_there f c e j h = view-update_endpoint f c e j ∙ rw h

  view-delete_key :
      (c : Cache b) (e k : Text) (ep : EndpointCache)
      → view c e ≡ some ep
      → view (delete_key b c e k) e ≡ some (forget k ep)
  unfolding delete_key
  view-delete_key c e k ep h =
      view_here (forget k) (record c { store = b.store_del c.store (full_key e k) }) e ep h

  view-delete_key_other :
      (c : Cache b) (e j k : Text) → text_eq e j ≡ false → view (delete_key b c e k) j ≡ view c j
  unfolding delete_key
  view-delete_key_other c e j k h =
      view_there (forget k) (record c { store = b.store_del c.store (full_key e k) }) e j h

  -- The loop on the cache is the loop on the record of its endpoint.
  view-evict_loop :
      (e : Text) (needed freed : ℕ) (keys : List KeyAge) (c : Cache b) (ep : EndpointCache)
      → view c e ≡ some ep
      → view (evict_loop b e needed freed keys c) e ≡ some (forget_until needed freed keys ep)
  unfolding evict_loop forget_until
  view-evict_loop e needed freed [] c ep h = h
  view-evict_loop e needed freed (ka ∷ keys) c ep h = elim (Bool-cases (leb needed freed)) [
    | inl done ↦ rw done h
    | inr more ↦ rw more (
        view-evict_loop e needed (freed + ka.size) keys (delete_key b c e ka.key) (forget ka.key ep)
          (view-delete_key c e ka.key ep h))
  ]

  view-evict_loop_other :
      (e : Text) (needed freed : ℕ) (keys : List KeyAge) (c : Cache b) (j : Text)
      → text_eq e j ≡ false
      → view (evict_loop b e needed freed keys c) j ≡ view c j
  unfolding evict_loop
  view-evict_loop_other e needed freed [] c j h = refl
  view-evict_loop_other e needed freed (ka ∷ keys) c j h = elim (Bool-cases (leb needed freed)) [
    | inl done ↦ rw done
    | inr more ↦ rw more (
        view-evict_loop_other e needed (freed + ka.size) keys (delete_key b c e ka.key) j h
        ∙ view-delete_key_other c e j ka.key h)
  ]

  -- the record after the first half of Set
  abbrev pub roomy : ℕ → EndpointCache → EndpointCache
  roomy size ep = if needs_eviction size ep then evicted size ep else ep

  pub view-make_room :
      (c : Cache b) (e : Text) (size : ℕ) (ep : EndpointCache)
      → view c e ≡ some ep
      → view (make_room b c e size) e ≡ some (roomy size ep)
  unfolding make_room evict_from_endpoint evicted
  view-make_room c e size ep h = elim (Bool-cases (needs_eviction size ep)) [
    | inl yes' ↦
        rw (h, make_room, yes')
          (rw (h, evict_from_endpoint)
            (view-evict_loop e size 0 (sort_by_age (key_ages ep.keys)) c ep h))
    | inr no' ↦ rw (h, make_room, no') h
  ]

  pub view-make_room_other :
      (c : Cache b) (e : Text) (size : ℕ) (j : Text)
      → text_eq e j ≡ false
      → view (make_room b c e size) j ≡ view c j
  unfolding make_room evict_from_endpoint
  view-make_room_other c e size j h = elim (Option-cases (lookup e c.endpoints)) [
    | inl x ↦ rw (x, make_room)
    | inr (ep, x) ↦ elim (Bool-cases (needs_eviction size ep)) [
      | inl yes' ↦
          rw (x, make_room, yes')
            (rw (x, evict_from_endpoint)
              (view-evict_loop_other e size 0 (sort_by_age (key_ages ep.keys)) c j h))
      | inr no' ↦ rw (x, make_room, no')
    ]
  ]

  -- what Set records, and the record of the endpoint after Set
  abbrev pub set_meta : Cache b → List Row → ℕ → ℕ → EntryMeta
  set_meta c rows ttl stamped = record {
    size_bytes = calculate_size b rows;
    cached_at = stamped;
    ttl = if ttl == 0 then c.default_ttl else ttl;
  }

  abbrev pub after_set : Bool → Text → EntryMeta → EndpointCache → EndpointCache
  after_set success key meta ep =
      if success then remember key meta (roomy meta.size_bytes ep) else roomy meta.size_bytes ep

  view-finish_set :
      (s : Bool) (key : Text) (meta : EntryMeta) (c : Cache b) (e : Text) (ep : EndpointCache)
      → view c e ≡ some ep
      → view (finish_set b s key meta c e) e ≡ some (if s then remember key meta ep else ep)
  unfolding finish_set
  view-finish_set true key meta c e ep h = view_here (remember key meta) c e ep h
  view-finish_set false key meta c e ep h = h

  view-finish_set_other :
      (s : Bool) (key : Text) (meta : EntryMeta) (c : Cache b) (e j : Text)
      → text_eq e j ≡ false
      → view (finish_set b s key meta c e) j ≡ view c j
  unfolding finish_set
  view-finish_set_other true key meta c e j h = view_there (remember key meta) c e j h
  view-finish_set_other false key meta c e j h = refl

  module _ (c : Cache b) (e key : Text) (rows : List Row) (ttl created stamped : ℕ) where
    pub view-set :
        (ep : EndpointCache)
        → view c e ≡ some ep
        → view (set b c e key rows ttl created stamped).0 e
          ≡ some (
              after_set
                (set b c e key rows ttl created stamped).1
                key
                (set_meta c rows ttl stamped)
                ep)
    unfolding set
    view-set ep h = view-finish_set _ key _ _ e _ (view-make_room c e (calculate_size b rows) ep h)

    pub view-set_other :
        (j : Text)
        → text_eq e j ≡ false
        → view (set b c e key rows ttl created stamped).0 j ≡ view c j
    unfolding set
    view-set_other j h =
        view-finish_set_other _ key _ _ e j h ∙ view-make_room_other c e (calculate_size b rows) j h
