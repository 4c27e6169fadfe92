-- ===== src/PublicId/Xtea/Inverse.antt =====
-- The two ciphers of PublicId/Xtea.antt undo one another on 64-bit words.
use sqlproxy.Prelude.{
  ℕ, zero, suc, ◌/◌, ◌^◌, ◌<◌, ◌≡◌, refl, sym, ap, ◌∙◌, arith, u32, add32, sub32, bit_or_shifted,
}
use sqlproxy.PublicId.Xtea.{
  Key, Block, encrypt_round, decrypt_round, repeat, join_words, split_words, xtea_encrypt,
  xtea_decrypt, xtea_rounds, xtea_delta, decrypt_sum,
}

-- Every word of the block is a uint32.
record IsWords (b : Block) : Type 0 where
  v0 : b.v0 < 2 ^ 32
  v1 : b.v1 < 2 ^ 32
  sum : b.sum < 2 ^ 32

block_eq : {a b : Block} → a.v0 ≡ b.v0 → a.v1 ≡ b.v1 → a.sum ≡ b.sum → a ≡ b
block_eq p q r = λ i. record { v0 = p i; v1 = q i; sum = r i }

sub32-add32 : (a b : ℕ) → a < 2 ^ 32 → sub32 (add32 a b) b ≡ a
sub32-add32 a b h = omega arith

add32-sub32 : (a b : ℕ) → a < 2 ^ 32 → add32 (sub32 a b) b ≡ a
add32-sub32 a b h = omega arith

module _ (key : Key) (b : Block) where
  encrypt_round-IsWords : IsWords (encrypt_round key b)
  unfolding encrypt_round
  encrypt_round-IsWords = omega arith

  decrypt_round-IsWords : IsWords (decrypt_round key b)
  unfolding decrypt_round
  decrypt_round-IsWords = omega arith

  decrypt-encrypt_round : IsWords b → decrypt_round key (encrypt_round key b) ≡ b
  unfolding encrypt_round decrypt_round
  decrypt-encrypt_round h =
      rw (sub32-add32 b.v1 _ h.v1, sub32-add32 b.sum xtea_delta h.sum, sub32-add32 b.v0 _ h.v0) refl

  encrypt-decrypt_round : IsWords b → encrypt_round key (decrypt_round key b) ≡ b
  unfolding encrypt_round decrypt_round
  encrypt-decrypt_round h =
      rw (add32-sub32 b.v0 _ h.v0, add32-sub32 b.sum xtea_delta h.sum, add32-sub32 b.v1 _ h.v1) refl

module _ {S : Type 0} (f g : S → S) where
  repeat-step : (n : ℕ) (s : S) → repeat n g (g s) ≡ g (repeat n g s)
  unfolding repeat
  repeat-step zero s = refl
  repeat-step (suc n) s = repeat-step n (g s)

  module _ {P : S → Type 0} (keeps : (s : S) → P (f s)) (undo : (s : S) → P s → g (f s) ≡ s) where
    repeat_undo : (n : ℕ) (s : S) → P s → repeat n g (repeat n f s) ≡ s
    unfolding repeat
    repeat_undo zero s h = refl
    repeat_undo (suc n) s h =
        repeat-step n (repeat n f (f s)) ∙ ap g (repeat_undo n (f s) (keeps s)) ∙ undo s h

    repeat_keeps : (n : ℕ) (s : S) → P s → P (repeat n f s)
    unfolding repeat
    repeat_keeps zero s h = h
    repeat_keeps (suc n) s h = repeat_keeps n (f s) (keeps s)

sum-encrypt :
    (key : Key) (n : ℕ) (b : Block)
    → (repeat n (encrypt_round key) b).sum ≡ repeat n (λ s. add32 s xtea_delta) b.sum
unfolding repeat encrypt_round
sum-encrypt key zero b = refl
sum-encrypt key (suc n) b = sum-encrypt key n (encrypt_round key b)

sum-decrypt :
    (key : Key) (n : ℕ) (b : Block)
    → (repeat n (decrypt_round key) b).sum ≡ repeat n (λ s. sub32 s xtea_delta) b.sum
unfolding repeat decrypt_round
sum-decrypt key zero b = refl
sum-decrypt key (suc n) b = sum-decrypt key n (decrypt_round key b)

-- A block is the split of its joined words.
split-join : (b : Block) → IsWords b → split_words (join_words b.v0 b.v1) b.sum ≡ b
unfolding split_words join_words
split-join b h = rw (bit_or_shifted 32 b.v0 b.v1 h.v1) (block_eq (omega arith) (omega arith) refl)

split-IsWords : (v sum : ℕ) → sum < 2 ^ 32 → IsWords (split_words v sum)
unfolding split_words
split-IsWords v sum h = omega arith

join-split : (v sum : ℕ) → v < 2 ^ 64 → join_words (split_words v sum).v0 (split_words v sum).v1 ≡ v
unfolding split_words join_words
join-split v sum h = rw (bit_or_shifted 32 (u32 (v / 2 ^ 32)) (u32 v) (omega arith)) (omega arith)

join-lt : (b : Block) → IsWords b → join_words b.v0 b.v1 < 2 ^ 64
unfolding join_words
join-lt b h = rw (bit_or_shifted 32 b.v0 b.v1 h.v1) (omega arith)

abbrev join_block : Block → ℕ
join_block b = join_words b.v0 b.v1

decrypt_sum-lt : decrypt_sum < 2 ^ 32
unfolding decrypt_sum repeat
decrypt_sum-lt = omega arith

module _ (key : Key) (v : ℕ) where
  encrypted : Block
  encrypted = repeat xtea_rounds (encrypt_round key) (split_words v 0)

  decrypted : Block
  decrypted = repeat xtea_rounds (decrypt_round key) (split_words v decrypt_sum)

  encrypted-IsWords : IsWords encrypted
  unfolding encrypted
  encrypted-IsWords =
      repeat_keeps (encrypt_round key) (decrypt_round key) (encrypt_round-IsWords key)
        (decrypt-encrypt_round key) xtea_rounds (split_words v 0) (split-IsWords v 0 (omega arith))

  decrypted-IsWords : IsWords decrypted
  unfolding decrypted
  decrypted-IsWords =
      repeat_keeps (decrypt_round key) (encrypt_round key) (decrypt_round-IsWords key)
        (encrypt-decrypt_round key) xtea_rounds (split_words v decrypt_sum)
        (split-IsWords v decrypt_sum decrypt_sum-lt)

  sum-encrypted : encrypted.sum ≡ decrypt_sum
  unfolding encrypted decrypt_sum split_words
  sum-encrypted = sum-encrypt key xtea_rounds (split_words v 0)

  sum-decrypted : decrypted.sum ≡ 0
  unfolding decrypted split_words repeat decrypt_sum
  sum-decrypted = sum-decrypt key xtea_rounds (split_words v decrypt_sum)

  -- Decryption undoes encryption on every 64-bit word, whatever the key.
  pub decrypt-encrypt : v < 2 ^ 64 → xtea_decrypt key (xtea_encrypt key v) ≡ v
  unfolding xtea_encrypt xtea_decrypt encrypted
  decrypt-encrypt h =
      ap (λ (b : Block). join_block (repeat xtea_rounds (decrypt_round key) b))
        (ap (split_words (join_block encrypted)) (sym sum-encrypted)
          ∙ split-join encrypted encrypted-IsWords)
      ∙ ap join_block (
          repeat_undo (encrypt_round key) (decrypt_round key) (encrypt_round-IsWords key)
            (decrypt-encrypt_round key) xtea_rounds (split_words v 0)
            (split-IsWords v 0 (omega arith)))
      ∙ join-split v 0 h

  -- Encryption undoes decryption on every 64-bit word, whatever the key.
  pub encrypt-decrypt : v < 2 ^ 64 → xtea_encrypt key (xtea_decrypt key v) ≡ v
  unfolding xtea_encrypt xtea_decrypt decrypted
  encrypt-decrypt h =
      ap (λ (b : Block). join_block (repeat xtea_rounds (encrypt_round key) b))
        (ap (split_words (join_block decrypted)) (sym sum-decrypted)
          ∙ split-join decrypted decrypted-IsWords)
      ∙ ap join_block (
          repeat_undo (decrypt_round key) (encrypt_round key) (decrypt_round-IsWords key)
            (encrypt-decrypt_round key) xtea_rounds (split_words v decrypt_sum)
            (split-IsWords v decrypt_sum decrypt_sum-lt))
      ∙ join-split v decrypt_sum h

  pub xtea_encrypt-lt : xtea_encrypt key v < 2 ^ 64
  unfolding xtea_encrypt encrypted
  xtea_encrypt-lt = join-lt encrypted encrypted-IsWords

  pub xtea_decrypt-lt : xtea_decrypt key v < 2 ^ 64
  unfolding xtea_decrypt decrypted
  xtea_decrypt-lt = join-lt decrypted decrypted-IsWords
