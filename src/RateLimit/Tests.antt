-- ===== src/RateLimit/Tests.antt =====
-- Runs of internal/ratelimit/ratelimit.go with a bucket that counts its tokens and never refills.
use sqlproxy.Prelude.{ℕ, ◌-◌, ◌*◌, [], ◌∷◌, Text, codes, none, some, ◌==◌, if◌then◌else◌, pos}
use sqlproxy.RateLimit.Buckets.{RateLibrary, Bucket, Pool, Clock, second}
use sqlproxy.RateLimit.InlineKey.{RateLimitConfig}
use sqlproxy.RateLimit.Isolation.{cleaned}
use sqlproxy.RateLimit.Decisions.{Counted, allow-Counted}
use sqlproxy.RateLimit.{allow}
use sqlproxy.RateLimit.State.{Limiter}

abbrev counting : RateLibrary
counting = record {
  Tokens = ℕ;
  new_limiter = λ rate burst. burst;
  reserve = λ n now. (n - 1, if n == 0 then 1500000000 else 0);
  cancel = λ n now. n;
}

abbrev at : ℕ → Clock
at t = record { created = t; used = t; reserved = t; cancelled = t; cleaned = t }

abbrev bucket_of : ℕ → ℕ → Bucket counting
bucket_of tokens used = record { limiter = tokens; last_used = used }

-- one client has a token left, one has none, and one has not come for a long time
abbrev pool_a : Pool counting
pool_a = record {
  name = codes "a";
  requests_per_second = 1;
  burst = 2;
  key_template = codes "k";
  buckets =
      (codes "x", bucket_of 1 1000)
      ∷ (codes "y", bucket_of 0 1000)
      ∷ (codes "z", bucket_of 2 1)
      ∷ [];
  last_clean = none;
  clean_every = 300 * second;
}

abbrev limiter_a : Limiter counting
limiter_a = record {
  pools = (codes "a", pool_a) ∷ [];
  inline_pools = [];
  metrics = record { total_allowed = 5; total_denied = 3; pools = [] };
}

abbrev by_pool : RateLimitConfig
by_pool = record { pool = codes "a"; requests_per_second = pos 0; burst = pos 0; key = [] }

abbrev by_rate : Text → RateLimitConfig
by_rate key = record { pool = []; requests_per_second = pos 10; burst = pos 2; key = key }

abbrev now : ℕ
now = 1001 * second

allow-Counted_example :
    let r =
      allow counting
        (λ t. some (codes "x"))
        limiter_a
        ((by_pool, at now) ∷ (by_pool, at now) ∷ []) in
    Counted 2 limiter_a r.0 r.1
allow-Counted_example =
    allow-Counted counting (λ t. some (codes "x")) limiter_a
      ((by_pool, at now) ∷ (by_pool, at now) ∷ [])
