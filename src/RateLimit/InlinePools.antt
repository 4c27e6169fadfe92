-- ===== src/RateLimit/InlinePools.antt =====
-- The inline pools of internal/ratelimit/ratelimit.go and their keys (inlinePoolKey).
use sqlproxy.Prelude.{
  ℕ, zero, suc, ◌+◌, ◌-◌, ◌*◌, ◌/◌, ◌%◌, ◌<◌, ◌≡◌, refl, sym, ap, ◌∙◌, inl, inr, arith, [], ◌∷◌,
  ◌++◌, Text, codes, true, false, none, some, ◌&&◌, Bool-cases, ok, err, length, lookup,
  lookup-insert, ltb, leb, if◌then◌else◌, text_eq, text_eq_iff, ℤ, pos, negsuc,
}
use sqlproxy.RateLimit.Buckets.{RateLibrary, Pool}
use sqlproxy.RateLimit.InlineKey.{
  RateLimitConfig, is_positive, is_inline, is_pool_reference, decimal, decimal_from, effective_key,
  inline_pool_key,
}
use sqlproxy.RateLimit.{new_pool, select, find_pool, reset_pool}
use sqlproxy.RateLimit.State.{Limiter, pool_not_found, inline}

-- The number that a text begins with, after n, and the text that follows it.
read : ℕ → Text → ℕ × Text
read n [] = (n, [])
read n (c ∷ t) =
    let more = read (n * 10 + (c - b'0')) t in if leb b'0' c && leb c b'9' then more else (n, c ∷ t)

read-digit : (n d : ℕ) (t : Text) → d < 10 → read n ((b'0' + d) ∷ t) ≡ read (n * 10 + d) t
unfolding read
read-digit n d t h =
    let low : leb b'0' (b'0' + d) ≡ true = ground arith in
    let high : leb (b'0' + d) b'9' ≡ true = ground (arith, h) in
    let back : b'0' + d - b'0' ≡ d = omega arith in rw (low, high, back) refl

read-decimal_from :
    (fuel n : ℕ) (rest : Text) → n < fuel → read 0 (decimal_from fuel n rest) ≡ read n rest
unfolding decimal_from
read-decimal_from zero n rest h = ground (arith, h)
read-decimal_from (suc fuel) n rest h = elim (Bool-cases (ltb n 10)) [
  | inl small ↦
      rw (small, decimal_from)
        (read-digit 0 n rest (ground (arith, small)) ∙ ap (λ k. read k rest) (omega arith))
  | inr large ↦
      rw (large, decimal_from)
        (read-decimal_from fuel (n / 10) _ (ground (arith, large))
          ∙ read-digit (n / 10) (n % 10) rest (omega arith)
          ∙ ap (λ k. read k rest) (omega arith))
]

-- a decimal is read back up to the colon after it
read-decimal : (n : ℕ) (rest : Text) → read 0 (decimal (pos n) (b':' ∷ rest)) ≡ (n, b':' ∷ rest)
unfolding decimal read
read-decimal n rest = read-decimal_from (suc n) n (b':' ∷ rest) (omega arith)

decimal-injective :
    (n m : ℕ) (s t : Text)
    → decimal (pos n) (b':' ∷ s) ≡ decimal (pos m) (b':' ∷ t)
    → (n ≡ m) × (s ≡ t)
decimal-injective n m s t h =
    let e : ◌≡◌ {A = ℕ × Text} (n, b':' ∷ s) (m, b':' ∷ t) =
      sym (read-decimal n s) ∙ ap (read 0) h ∙ read-decimal m t in
    (cc, cc)

is_positive-pos : (z : ℤ) → is_positive z ≡ true → (n : ℕ) × (z ≡ pos n)
unfolding is_positive
is_positive-pos (pos n) h = (n, refl)
is_positive-pos (negsuc n) h = ground (arith, h)

key_parts :
    (a : RateLimitConfig) (n k : ℕ)
    → a.requests_per_second ≡ pos n
    → a.burst ≡ pos k
    → inline_pool_key a ≡ decimal (pos n) (b':' ∷ decimal (pos k) (b':' ∷ effective_key a))
unfolding inline_pool_key
key_parts a n k r b = cc

-- Inline limits with the same pool key agree on the rate, the burst and the key template.
pub inline_pool_key-injective :
    (a b : RateLimitConfig)
    → is_inline a ≡ true
    → is_inline b ≡ true
    → inline_pool_key a ≡ inline_pool_key b
    → (a.requests_per_second ≡ b.requests_per_second)
      × (a.burst ≡ b.burst)
      × (effective_key a ≡ effective_key b)
unfolding is_inline
inline_pool_key-injective a b ha hb h =
    let (n, en) = is_positive-pos a.requests_per_second (ground (arith, ha)) in
    let (k, ek) = is_positive-pos a.burst (ground (arith, ha)) in
    let (m, em) = is_positive-pos b.requests_per_second (ground (arith, hb)) in
    let (j, ej) = is_positive-pos b.burst (ground (arith, hb)) in
    let same = sym (key_parts a n k en ek) ∙ h ∙ key_parts b m j em ej in
    let (e1, rest) = decimal-injective n m _ _ same in
    let (e2, e3) = decimal-injective k j _ _ rest in
    (en ∙ ap pos e1 ∙ sym em, ek ∙ ap pos e2 ∙ sym ej, e3)

module _ (lib : RateLibrary) where
  -- a name is longer than the key in it
  prefixed_key : (key : Text) → text_eq key (codes "_inline:" ++ key) ≡ false
  prefixed_key key = elim (Bool-cases (text_eq key (codes "_inline:" ++ key))) [
    | inl e ↦
        let e' : length key ≡ length (codes "_inline:" ++ key) =
          ap length ((text_eq_iff key (codes "_inline:" ++ key)).0 e) in
        ground (arith, e')
    | inr e ↦ e
  ]

  reset_pool_missing :
      (l : Limiter lib) (name : Text) (now : ℕ)
      → lookup name l.pools ≡ none
      → lookup name l.inline_pools ≡ none
      → reset_pool lib l name now ≡ (l, err (pool_not_found name))
  unfolding reset_pool find_pool
  reset_pool_missing l name now h k = rw (reset_pool, find_pool, h, k) refl

  -- A pool made for an inline limit has the name _inline: and its key; if no named or inline pool
  -- is stored under that name, resetting the pool by its name finds nothing.
  pub reset_pool_inline :
      (l : Limiter lib) (limit : RateLimitConfig) (now : ℕ)
      → is_pool_reference limit ≡ false
      → is_inline limit ≡ true
      → lookup (inline_pool_key limit) l.inline_pools ≡ none
      → let name = codes "_inline:" ++ inline_pool_key limit in
        lookup name l.pools ≡ none
        → lookup name l.inline_pools ≡ none
        → let l' = (select lib l limit).0 in
          (p : Pool lib) × ((select lib l limit).1 ≡ ok (some (inline (inline_pool_key limit), p)))
          × (p.name ≡ name)
          × (reset_pool lib l' p.name now ≡ (l', err (pool_not_found p.name)))
  unfolding select new_pool
  reset_pool_inline l limit now h1 h2 h3 h4 h5 =
      let key = inline_pool_key limit in
      let gone =
        lookup-insert key (codes "_inline:" ++ key) _ l.inline_pools ∙ rw (prefixed_key key) h5 in
      rw (h1, h2, h3) (_, refl, refl, reset_pool_missing _ _ now h4 gone)
