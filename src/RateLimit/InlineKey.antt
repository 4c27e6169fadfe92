-- ===== src/RateLimit/InlineKey.antt =====
-- The limits of a trigger, in internal/workflow/config.go, and inlinePoolKey of
-- internal/ratelimit/ratelimit.go.
use sqlproxy.Prelude.{
  ℕ, zero, suc, ◌+◌, ◌/◌, ◌%◌, [], ◌∷◌, Text, codes, Bool, true, false, not, ◌&&◌, if◌then◌else◌,
  text_eq, ltb, ℤ, pos, negsuc,
}

-- RateLimitRefConfig
pub record RateLimitConfig : Type 0 where
  pub pool : Text
  pub requests_per_second : ℤ
  pub burst : ℤ
  pub key : Text

-- n > 0
unfoldable pub is_positive : ℤ → Bool
is_positive (pos zero) = false
is_positive (pos (suc n)) = true
is_positive (negsuc n) = false

unfoldable pub natural : ℤ → ℕ
natural (pos n) = n
natural (negsuc n) = 0

unfoldable pub is_pool_reference : RateLimitConfig → Bool
is_pool_reference limit = not (text_eq limit.pool [])

unfoldable pub is_inline : RateLimitConfig → Bool
unfolding is_positive
is_inline limit = is_positive limit.requests_per_second && is_positive limit.burst

-- The decimal digits of n in front of `rest`, as %d prints them; n + 1 is fuel enough.
unfoldable pub decimal_from : ℕ → ℕ → Text → Text
decimal_from zero n rest = rest
decimal_from (suc fuel) n rest =
    let more = decimal_from fuel (n / 10) ((b'0' + n % 10) ∷ rest) in
    if ltb n 10 then (b'0' + n) ∷ rest else more

unfoldable pub decimal : ℤ → Text → Text
decimal (pos n) rest = decimal_from (suc n) n rest
decimal (negsuc n) rest = b'-' ∷ decimal_from (suc (suc n)) (suc n) rest

abbrev pub default_key : Text
default_key = codes "{{.trigger.client_ip}}"

unfoldable pub effective_key : RateLimitConfig → Text
effective_key limit = if text_eq limit.key [] then default_key else limit.key

-- fmt.Sprintf("%d:%d:%s", ...)
unfoldable pub inline_pool_key : RateLimitConfig → Text
unfolding decimal decimal_from effective_key
inline_pool_key limit =
    decimal limit.requests_per_second (b':' ∷ decimal limit.burst (b':' ∷ effective_key limit))
