-- ===== src/PublicId/Xtea.antt =====
-- xteaEncrypt and xteaDecrypt of internal/publicid/publicid.go.
pub mod Inverse
mod Tests
use Prim.Native.Nat.{bit_or, bit_and}
use sqlproxy.Prelude.{ℕ, zero, suc, ◌+◌, ◌*◌, ◌/◌, ◌^◌, u32, add32, sub32, xor32}

-- [4]uint32
pub record Key : Type 0 where
  pub k0 : ℕ
  pub k1 : ℕ
  pub k2 : ℕ
  pub k3 : ℕ

-- key[i], where every index of the source is masked by 3
key_at : Key → ℕ → ℕ
key_at k zero = k.k0
key_at k (suc zero) = k.k1
key_at k (suc (suc zero)) = k.k2
key_at k (suc (suc (suc i))) = k.k3

-- the three local variables of the loops
pub record Block : Type 0 where
  pub v0 : ℕ
  pub v1 : ℕ
  pub sum : ℕ

abbrev pub xtea_delta : ℕ
xtea_delta = 0x9E3779B9

abbrev pub xtea_rounds : ℕ
xtea_rounds = 32

-- ((v << 4) ^ (v >> 5)) + v
scramble : ℕ → ℕ
scramble v = add32 (xor32 (u32 (v * 2 ^ 4)) (v / 2 ^ 5)) v

-- what a round adds to or takes from v0, and to or from v1
mix0 : Key → ℕ → ℕ → ℕ
unfolding scramble key_at
mix0 key sum v1 = xor32 (scramble v1) (add32 sum (key_at key (bit_and sum 3)))

mix1 : Key → ℕ → ℕ → ℕ
unfolding scramble key_at
mix1 key sum v0 = xor32 (scramble v0) (add32 sum (key_at key (bit_and (sum / 2 ^ 11) 3)))

-- the body of the encrypting loop
encrypt_round : Key → Block → Block
encrypt_round key b =
    let v0 = add32 b.v0 (mix0 key b.sum b.v1) in
    let sum = add32 b.sum xtea_delta in
    let v1 = add32 b.v1 (mix1 key sum v0) in record { v0 = v0; v1 = v1; sum = sum }

-- the body of the decrypting loop
decrypt_round : Key → Block → Block
decrypt_round key b =
    let v1 = sub32 b.v1 (mix1 key b.sum b.v0) in
    let sum = sub32 b.sum xtea_delta in
    let v0 = sub32 b.v0 (mix0 key sum v1) in record { v0 = v0; v1 = v1; sum = sum }

-- for i := 0; i < n; i++ { body }
repeat {ℓ} : {S : Type ℓ} → ℕ → (S → S) → S → S
repeat zero body s = s
repeat (suc n) body s = repeat n body (body s)

-- (uint64(v0) << 32) | uint64(v1)
join_words : ℕ → ℕ → ℕ
join_words v0 v1 = bit_or (v0 * 2 ^ 32) v1

split_words : ℕ → ℕ → Block
split_words v sum = record { v0 = u32 (v / 2 ^ 32); v1 = u32 v; sum = sum }

pub xtea_encrypt : Key → ℕ → ℕ
xtea_encrypt key v =
    let b = repeat xtea_rounds (encrypt_round key) (split_words v 0) in join_words b.v0 b.v1

-- the first loop of xteaDecrypt
decrypt_sum : ℕ
decrypt_sum = repeat xtea_rounds (λ sum. add32 sum xtea_delta) 0

pub xtea_decrypt : Key → ℕ → ℕ
xtea_decrypt key v =
    let b = repeat xtea_rounds (decrypt_round key) (split_words v decrypt_sum) in
    join_words b.v0 b.v1
