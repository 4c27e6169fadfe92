-- ===== src/Checks/Accepted.antt =====
-- What a configuration that internal/validate/validate.go accepts is good for.
use sqlproxy.Prelude.{
  ℕ, suc, ◌≡◌, refl, ◌∙◌, inl, inr, arith, List, [], ◌∷◌, ◌++◌, Text, codes, Bool, true, false, not,
  Option, none, Option-cases, Bool-cases, text_eq, has_prefix, lookup, lookup-insert, ok, pos,
}
use sqlproxy.SqlUtil.Words.{contains_word}
use sqlproxy.RateLimit.InlineKey.{decimal, is_positive}
use sqlproxy.RateLimit.Buckets.{RateLibrary}
use sqlproxy.RateLimit.{new_pool, with_pool, add_pool, add_pools, new_limiter, empty_limiter}
use sqlproxy.RateLimit.State.{RateLimitPoolConfig, Limiter}
use sqlproxy.Checks.{
  Report, error_if, NoErrors, NoErrors-error_if, NoErrors-++, add_messages, add_messages_valid,
}
use sqlproxy.Checks.Pools.{validate_key, validate_pool, validate_pools, validate_rate_limits}

module _ (check_key : Text → Option Text) where
  record IsGood (names : List Text) (pool : RateLimitPoolConfig) : Type 0 where
    new_name : contains_word names pool.name ≡ false
    rate : is_positive pool.requests_per_second ≡ true
    burst : is_positive pool.burst ≡ true
    has_key : text_eq pool.key [] ≡ false
    key : check_key pool.key ≡ none

  validate_key_accepts :
      (prefix key : Text)
      → NoErrors (validate_key check_key prefix key)
      → (text_eq key [] ≡ false) × (check_key key ≡ none)
  unfolding validate_key error_if
  validate_key_accepts prefix key h = elim (Bool-cases (text_eq key [])) [
    | inl e ↦ absurd (simp (validate_key, e) at h).0
    | inr e ↦ elim (Option-cases (check_key key)) [
      | inl c ↦ (e, c)
      | inr (x, c) ↦ absurd (simp (validate_key, e, c) at h).0
    ]
  ]

  validate_pool-IsGood :
      (prefix : Text) (names : List Text) (pool : RateLimitPoolConfig)
      → NoErrors (validate_pool check_key prefix names pool)
      → IsGood names pool
  unfolding validate_pool
  validate_pool-IsGood prefix names pool h =
      let keys = validate_key check_key prefix pool.key in
      let bursts =
        error_if (not (is_positive pool.burst)) (prefix ++ codes ": burst must be positive") in
      let rates =
        error_if (not (is_positive pool.requests_per_second))
          (prefix ++ codes ": requests_per_second must be positive") in
      let inline =
        error_if (has_prefix pool.name (codes "_inline:")) (
          prefix ++ codes ": pool name cannot start with '_inline:' (reserved for internal use)") in
      let (d, h1) =
        NoErrors-++
          (error_if (contains_word names pool.name) (prefix ++ codes ": duplicate pool name"))
          (inline ++ (rates ++ (bursts ++ keys))) h in
      let (i, h2) = NoErrors-++ inline (rates ++ (bursts ++ keys)) h1 in
      let (r, h3) = NoErrors-++ rates (bursts ++ keys) h2 in
      let (b, k) = NoErrors-++ bursts keys h3 in
      let rate : not (is_positive pool.requests_per_second) ≡ false =
        NoErrors-error_if (not (is_positive pool.requests_per_second))
          (prefix ++ codes ": requests_per_second must be positive") r in
      let burst : not (is_positive pool.burst) ≡ false =
        NoErrors-error_if (not (is_positive pool.burst))
          (prefix ++ codes ": burst must be positive") b in
      let key = validate_key_accepts prefix pool.key k in
      record {
        new_name =
            NoErrors-error_if (contains_word names pool.name)
              (prefix ++ codes ": duplicate pool name") d;
        rate = ground arith;
        burst = ground arith;
        has_key = key.0;
        key = key.1;
      }

  module _ (lib : RateLibrary) (valid : Text → Bool)
      (agrees : (k : Text) → check_key k ≡ none → valid k ≡ true) where
    -- The limiter has no pool but those of the names.
    abbrev Has : List Text → Limiter lib → Type 0
    Has names l = (k : Text) → contains_word names k ≡ false → lookup k l.pools ≡ none

    add_pool_accepts :
        (names : List Text) (l : Limiter lib) (pool : RateLimitPoolConfig)
        → text_eq pool.name [] ≡ false
        → IsGood names pool
        → Has names l
        → (l' : Limiter lib) × (add_pool lib valid l pool ≡ ok l') × Has (pool.name ∷ names) l'
    unfolding add_pool contains_word
    add_pool_accepts names l pool named g has =
        let absent = has pool.name g.new_name in
        let good = agrees pool.key g.key in
        (
          with_pool lib l pool,
          simp (add_pool, named, absent, g.rate, g.burst, g.has_key, good) refl,
          λ k h.
              let other : text_eq pool.name k ≡ false = ground arith in
              let rest : contains_word names k ≡ false = ground arith in
              lookup-insert pool.name k
                (new_pool lib pool.name pool.requests_per_second pool.burst pool.key) l.pools
              ∙ rw other (has k rest),
        )

    add_pools_accepts :
        (i : ℕ) (names : List Text) (l : Limiter lib) (pools : List RateLimitPoolConfig)
        → NoErrors (validate_pools check_key i names pools)
        → Has names l
        → (l' : Limiter lib) × (add_pools lib valid l pools ≡ ok l')
    unfolding add_pools validate_pools error_if
    add_pools_accepts i names l [] h has = (l, refl)
    add_pools_accepts i names l (pool ∷ pools) h has =
        let prefix = codes "rate_limits[" ++ decimal (pos i) [] ++ codes "]" in
        let named_prefix = prefix ++ codes " (" ++ pool.name ++ codes ")" in
        elim (Bool-cases (text_eq pool.name [])) [
          | inl e ↦ absurd (simp (validate_pools, e) at h).0
          | inr e ↦
              let both =
                NoErrors-++ (validate_pool check_key named_prefix names pool)
                  (validate_pools check_key (suc i) (pool.name ∷ names) pools)
                  (simp (validate_pools, e) at h) in
              let added =
                add_pool_accepts names l pool e
                  (validate_pool-IsGood named_prefix names pool both.0) has in
              let rest =
                add_pools_accepts (suc i) (pool.name ∷ names) added.0 pools both.1 added.2 in
              (rest.0, rw added.1 rest.1)
        ]

    -- If the limiter accepts each key template that the check accepts, then with pools of rate
    -- limits that pass the check, New of the rate limiter succeeds.
    pub validate_rate_limits-new_limiter :
        (pools : List RateLimitPoolConfig) (r : Report)
        → (add_messages (validate_rate_limits check_key pools) r).valid ≡ true
        → (l : Limiter lib) × (new_limiter lib valid pools ≡ ok l)
    unfolding validate_rate_limits new_limiter contains_word lookup
    validate_rate_limits-new_limiter pools r h =
        add_pools_accepts 0 [] (empty_limiter lib) pools
          (add_messages_valid (validate_rate_limits check_key pools) r h) (λ k n. refl)
