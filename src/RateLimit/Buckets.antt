-- ===== src/RateLimit/Buckets.antt =====
-- A pool of internal/ratelimit/ratelimit.go and its buckets. Times are nanoseconds since the Unix
-- epoch; a time that was never set is `none`, older than every other.
use sqlproxy.Prelude.{
  ℕ, ◌+◌, ◌-◌, ◌*◌, ◌/◌, [], ◌∷◌, Text, Bool, true, false, Option, none, some, length, ltb,
  if◌then◌else◌, Dict, lookup, insert, delete,
}

-- rate.Limiter of golang.org/x/time/rate: a token bucket, the delay of a reservation, and its
-- cancellation.
pub record RateLibrary : Type 1 where
  pub Tokens : Type 0
  pub new_limiter : ℕ → ℕ → Tokens
  pub reserve : Tokens → ℕ → Tokens × ℕ
  pub cancel : Tokens → ℕ → Tokens

abbrev pub second : ℕ
second = 1000000000

pub record Bucket (lib : RateLibrary) : Type 0 where
  pub limiter : lib.Tokens
  pub last_used : ℕ

pub record Pool (lib : RateLibrary) : Type 0 where
  pub name : Text
  pub requests_per_second : ℕ
  pub burst : ℕ
  pub key_template : Text
  pub buckets : Dict (Bucket lib)
  pub last_clean : Option ℕ
  pub clean_every : ℕ

-- The readings of the clock in one decision.
pub record Clock : Type 0 where
  pub created : ℕ
  pub used : ℕ
  pub reserved : ℕ
  pub cancelled : ℕ
  pub cleaned : ℕ

module _ (lib : RateLibrary) where
  unfoldable pub get_or_create_bucket : Pool lib → Text → ℕ → Pool lib × Bucket lib
  get_or_create_bucket p key now = elim (lookup key p.buckets) [
    | some b ↦ (p, b)
    | none ↦
        let b : Bucket lib = record {
          limiter = lib.new_limiter p.requests_per_second p.burst;
          last_used = now / second;
        } in
        (record p { buckets = insert key b p.buckets }, b)
  ]

  -- now.Sub(p.lastClean) > p.cleanEvery
  unfoldable pub needs_clean : Pool lib → ℕ → Bool
  needs_clean p now = elim p.last_clean [ none ↦ true | some t ↦ ltb (t + p.clean_every) now ]

  -- b.lastUsed < threshold, the Unix second ten minutes before now
  unfoldable pub is_stale : ℕ → Bucket lib → Bool
  is_stale now b = ltb b.last_used ((now - 600 * second) / second)

  unfoldable pub remove_stale : ℕ → Dict (Bucket lib) → Dict (Bucket lib)
  unfolding is_stale
  remove_stale now [] = []
  remove_stale now ((key, b) ∷ m) =
      let rest = remove_stale now m in if is_stale now b then rest else (key, b) ∷ rest

  unfoldable pub maybe_cleanup : Pool lib → ℕ → Pool lib
  unfolding needs_clean remove_stale
  maybe_cleanup p now =
      if needs_clean p now
      then record p { buckets = remove_stale now p.buckets; last_clean = some now }
      else p

  unfoldable pub reset : Pool lib → ℕ → Pool lib × ℕ
  reset p now = (record p { buckets = []; last_clean = some now }, length p.buckets)

  unfoldable pub reset_key : Pool lib → Text → Pool lib × Bool
  reset_key p key = elim (lookup key p.buckets) [
    | some b ↦ (record p { buckets = delete key p.buckets }, true)
    | none ↦ (p, false)
  ]
