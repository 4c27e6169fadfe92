-- ===== src/Cache/Invariant/Ops.antt =====
-- Runs of internal/cache/cache.go: any sequence of calls, cron evictions among them as Clear.
use sqlproxy.Prelude.{
  ℕ, ◌≡◌, refl, inl, inr, arith, Text, text_eq, Option, none, some, Option-cases, Bool-cases, List,
  [], ◌∷◌, lookup, insert, lookup-insert, Result, ok, err, Result-cases, ok-injective,
}
use sqlproxy.Cache.Endpoint.{EndpointCache}
use sqlproxy.Cache.Accounting.{IsAccounted}
use sqlproxy.Cache.{
  get, set, delete_key, clear, clear_all, new_cache, new_endpoint, register_endpoint,
  get_or_compute, fly, compute_and_set,
}
use sqlproxy.Cache.Store.{Backend, Cache, CacheConfig, Error, EndpointCacheConfig}
use sqlproxy.Cache.Invariant.{
  IsConsistent, get-IsConsistent, set-IsConsistent, delete_key-IsConsistent, clear-IsConsistent,
  clear_all-IsConsistent,
}

module _ {Row : Type 0} (b : Backend Row) where
  new_endpoint-IsAccounted :
      (e : Text) (cfg : EndpointCacheConfig) (cron : Option Text)
      → IsAccounted (new_endpoint b e cfg cron)
  unfolding new_endpoint
  new_endpoint-IsAccounted e cfg cron = record { distinct = tt; size = refl }

  insert-IsConsistent :
      (c : Cache b) (e : Text) (new : EndpointCache)
      → IsAccounted new
      → IsConsistent b c
      → IsConsistent b (record c { endpoints = insert e new c.endpoints })
  insert-IsConsistent c e new v h = record {
    at = λ j ep p. elim (Bool-cases (text_eq e j)) [
      | inl x ↦
          let same : new ≡ ep = ground (arith, lookup-insert e j new c.endpoints) in rw (← same) v
      | inr x ↦ h.at j ep (ground (arith, lookup-insert e j new c.endpoints))
    ];
  }

  register-IsConsistent :
      (c c' : Cache b) (e : Text) (cfg : Option EndpointCacheConfig)
      → register_endpoint b c e cfg ≡ ok c'
      → IsConsistent b c
      → IsConsistent b c'
  unfolding register_endpoint
  register-IsConsistent c c' e none p h = let same : c ≡ c' = ground arith in rw (← same) h
  register-IsConsistent c c' e (some cfg) p h = elim (Bool-cases cfg.enabled) [
    | inl on ↦ elim (Bool-cases (text_eq cfg.evict_cron [])) [
      | inl plain ↦
          rw (← ok-injective (rw (on, plain) at p))
            (insert-IsConsistent c e _ (new_endpoint-IsAccounted e cfg none) h)
      | inr timed ↦ elim (Bool-cases (b.valid_cron cfg.evict_cron)) [
        | inl valid ↦
            rw (← ok-injective (rw (on, timed, valid) at p))
              (insert-IsConsistent c e _ (new_endpoint-IsAccounted e cfg (some cfg.evict_cron)) h)
        | inr invalid ↦ absurd (ground arith)
      ]
    ]
    | inr off ↦ rw (← ok-injective (rw off at p)) h
  ]

  compute-IsConsistent :
      {E : Type 0} (c : Cache b) (e key : Text) (ttl created stamped : ℕ) (r : Result E (List Row))
      → IsConsistent b c
      → IsConsistent b (compute_and_set b c e key ttl created stamped r).0
  unfolding compute_and_set
  compute-IsConsistent c e key ttl created stamped (ok rows) h =
      set-IsConsistent b c e key rows ttl created stamped h
  compute-IsConsistent c e key ttl created stamped (err x) h = h

  fly-IsConsistent :
      {E : Type 0} (c : Cache b) (found : Option (List Row)) (e key : Text)
      (ttl created stamped : ℕ) (r : Result E (List Row))
      → IsConsistent b c
      → IsConsistent b (fly b (c, found) e key ttl created stamped r).0
  unfolding fly
  fly-IsConsistent c none e key ttl created stamped r h =
      compute-IsConsistent c e key ttl created stamped r h
  fly-IsConsistent c (some rows) e key ttl created stamped r h = h

  get_or_compute-IsConsistent :
      {E : Type 0} (c : Cache b) (e key : Text) (ttl created stamped : ℕ) (r : Result E (List Row))
      → IsConsistent b c
      → IsConsistent b (get_or_compute b c e key ttl created stamped r).0
  unfolding get_or_compute
  get_or_compute-IsConsistent c e key ttl created stamped r h =
      elim (Option-cases (get b c e key).1) [
        | inl x ↦
            rw (x, get_or_compute)
              (fly-IsConsistent _ _ e key ttl created stamped r
                (get-IsConsistent b _ e key (get-IsConsistent b c e key h)))
        | inr (rows, x) ↦ rw (x, get_or_compute) (get-IsConsistent b c e key h)
      ]

  -- A call of the cache, with what the clock and the computation give it.
  pub data Call : Type 0 where
    get_call delete_call : Text → Text → Call
    set_call : Text → Text → List Row → ℕ → ℕ → ℕ → Call
    clear_call : Text → Call
    clear_all_call : Call
    register_call : Text → Option EndpointCacheConfig → Call
    compute_call : Text → Text → ℕ → ℕ → ℕ → Result Text (List Row) → Call

  registered : Cache b → Result Error (Cache b) → Cache b
  registered c (ok c') = c'
  registered c (err e) = c

  pub run_call : Cache b → Call → Cache b
  unfolding registered
  run_call c (get_call e k) = (get b c e k).0
  run_call c (delete_call e k) = delete_key b c e k
  run_call c (set_call e k rows ttl t t') = (set b c e k rows ttl t t').0
  run_call c (clear_call e) = clear b c e
  run_call c clear_all_call = clear_all b c
  run_call c (register_call e cfg) = registered c (register_endpoint b c e cfg)
  run_call c (compute_call e k ttl t t' r) = (get_or_compute b c e k ttl t t' r).0

  pub run : Cache b → List Call → Cache b
  run c [] = c
  run c (call ∷ calls) = run (run_call c call) calls

  run_call-IsConsistent :
      (c : Cache b) (call : Call) → IsConsistent b c → IsConsistent b (run_call c call)
  unfolding run_call
  run_call-IsConsistent c (get_call e k) h = get-IsConsistent b c e k h
  run_call-IsConsistent c (delete_call e k) h = delete_key-IsConsistent b c e k h
  run_call-IsConsistent c (set_call e k rows ttl t t') h = set-IsConsistent b c e k rows ttl t t' h
  run_call-IsConsistent c (clear_call e) h = clear-IsConsistent b c e h
  run_call-IsConsistent c clear_all_call h = clear_all-IsConsistent b c
  run_call-IsConsistent c (register_call e cfg) h =
      elim (Result-cases (register_endpoint b c e cfg)) [
        | inl (x, p) ↦ rw p h
        | inr (c', p) ↦ rw p (register-IsConsistent c c' e cfg p h)
      ]
  run_call-IsConsistent c (compute_call e k ttl t t' r) h =
      get_or_compute-IsConsistent c e k ttl t t' r h

  run-IsConsistent :
      (c : Cache b) (calls : List Call) → IsConsistent b c → IsConsistent b (run c calls)
  unfolding run
  run-IsConsistent c [] h = h
  run-IsConsistent c (call ∷ calls) h =
      run-IsConsistent (run_call c call) calls (run_call-IsConsistent c call h)

  endpoints-new_cache :
      (cfg : CacheConfig) (c : Cache b) → new_cache b cfg ≡ ok (some c) → c.endpoints ≡ []
  unfolding new_cache
  endpoints-new_cache cfg c p = ground arith

  empty-IsConsistent : (c : Cache b) → c.endpoints ≡ [] → IsConsistent b c
  unfolding lookup
  empty-IsConsistent c e = record { at = λ j ep p. absurd (ground arith) }

  -- After any calls on a new cache the size recorded for each endpoint is the sum over the keys
  -- tracked for it.
  pub run-new_cache :
      (cfg : CacheConfig) (c : Cache b) (calls : List Call)
      → new_cache b cfg ≡ ok (some c)
      → IsConsistent b (run c calls)
  run-new_cache cfg c calls p =
      run-IsConsistent c calls (empty-IsConsistent c (endpoints-new_cache cfg c p))
