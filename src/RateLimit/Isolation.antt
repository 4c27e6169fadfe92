-- ===== src/RateLimit/Isolation.antt =====
-- One decision of internal/ratelimit/ratelimit.go touches one bucket of one pool.
use sqlproxy.Prelude.{
  ℕ, ◌/◌, ◌≡◌, refl, inl, inr, arith, Text, text_eq, text_eq_iff, Bool, false, Option, none, some,
  Bool-cases, [], ◌∷◌, Dict, lookup, Distinct, ◌==◌, if◌then◌else◌,
}
use sqlproxy.RateLimit.Buckets.{
  RateLibrary, Bucket, Pool, Clock, get_or_create_bucket, needs_clean, is_stale, remove_stale,
  maybe_cleanup, second,
}
use sqlproxy.RateLimit.State.{Limiter, Place, named, inline}

abbrev pub same_place : Place → Place → Bool
same_place (named n) (named m) = text_eq n m
same_place (inline n) (inline m) = text_eq n m
same_place _ _ = false

module _ (lib : RateLibrary) where
  -- What a cleanup leaves of one bucket.
  abbrev pub fresh_only : ℕ → Option (Bucket lib) → Option (Bucket lib)
  fresh_only now none = none
  fresh_only now (some b) = if is_stale lib now b then none else some b

  abbrev pub cleaned : Pool lib → ℕ → Option (Bucket lib) → Option (Bucket lib)
  cleaned p now b = if needs_clean lib p now then fresh_only now b else b

  lookup-remove_stale :
      (now : ℕ) (k : Text) (m : Dict (Bucket lib))
      → Distinct m
      → lookup k (remove_stale lib now m) ≡ fresh_only now (lookup k m)
  unfolding lookup remove_stale
  lookup-remove_stale now k [] h = refl
  lookup-remove_stale now k ((j, b) ∷ m) h = elim (Bool-cases (is_stale lib now b)) [
    | inl old ↦ ground (arith, text_eq_iff j k, lookup-remove_stale now k m h.1, h.0)
    | inr new ↦ ground (arith, text_eq_iff j k, lookup-remove_stale now k m h.1)
  ]

  pub lookup-maybe_cleanup :
      (p : Pool lib) (now : ℕ) (k : Text)
      → Distinct p.buckets
      → lookup k (maybe_cleanup lib p now).buckets ≡ cleaned p now (lookup k p.buckets)
  unfolding maybe_cleanup
  lookup-maybe_cleanup p now k h = ground (arith, lookup-remove_stale now k p.buckets h)

  module _ (pool : Pool lib) (key : Text) (clock : Clock) where
    abbrev found : Bucket lib
    found = (get_or_create_bucket lib pool key clock.created).1

    -- The bucket after the decision: a token reserved, or the reservation cancelled.
    abbrev pub spent : Bucket lib
    spent =
        let r =
          lib.reserve (get_or_create_bucket lib pool key clock.created).1.limiter clock.reserved in
        record {
          limiter = if r.1 == 0 then r.0 else lib.cancel r.0 clock.cancelled;
          last_used = clock.used / second;
        }

  abbrev pub pool_at : Place → Limiter lib → Option (Pool lib)
  pool_at (named n) l = lookup n l.pools
  pool_at (inline n) l = lookup n l.inline_pools
