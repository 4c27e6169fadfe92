-- ===== src/PublicId/Base62.antt =====
-- encodeBase62 and decodeBase62 of internal/publicid/publicid.go.
pub mod RoundTrip
mod Tests
use sqlproxy.Prelude.{
  ℕ, zero, suc, ◌+◌, ◌-◌, ◌*◌, ◌/◌, ◌%◌, ◌^◌, Option, none, some, List, [], ◌∷◌, Text, codes,
  length, ltb, ◌==◌, if◌then◌else◌, not, u64, Result, ok, err, ◌>>=◌,
}

abbrev pub base62_alphabet : Text
base62_alphabet = codes "0123456789ABCDEFGHIJKLMNOPQRSTUVWXYZabcdefghijklmnopqrstuvwxyz"

abbrev pub max_uint64 : ℕ
max_uint64 = 2 ^ 64 - 1

-- Base62Alphabet[i]; every index of the source is a remainder by 62
char_at : ℕ → Text → ℕ
char_at i [] = 0
char_at zero (c ∷ s) = c
char_at (suc i) (c ∷ s) = char_at i s

-- strings.IndexRune(s, c) for an ASCII s, from the index i on; `none` is the -1
index_from : ℕ → Text → ℕ → Option ℕ
index_from i [] c = none
index_from i (d ∷ s) c = if d == c then some i else index_from (suc i) s c

pub index_rune : Text → ℕ → Option ℕ
unfolding index_from
index_rune s c = index_from 0 s c

-- for i := 10; i >= 0; i-- { result[i] = ...; n /= 62 }, with the `i` digits still to write
fill : ℕ → ℕ → Text → Text
fill zero n acc = acc
fill (suc i) n acc = fill i (n / 62) (char_at (n % 62) base62_alphabet ∷ acc)

pub encode_base62 : ℕ → Text
encode_base62 n = if n == 0 then codes "00000000000" else fill 11 n []

pub data DecodeError : Type 0 where
  invalid_length : ℕ → DecodeError
  invalid_character : ℕ → DecodeError
  overflow : DecodeError

abbrev pub Decoded : Type 0
Decoded = Result DecodeError ℕ

-- the overflow tests and the two assignments of the loop body
accumulate : ℕ → ℕ → Decoded
accumulate result idx =
    if ltb (max_uint64 / 62) result
    then err overflow
    else if ltb (max_uint64 - idx) (u64 (result * 62))
    then err overflow
    else ok (u64 (u64 (result * 62) + idx))

-- One byte of the text. A rune that is not ASCII is not in the alphabet, nor is any of its bytes.
decode_char : ℕ → ℕ → Decoded
decode_char result c = elim (index_rune base62_alphabet c) [
  | none ↦ err (invalid_character c)
  | some idx ↦ accumulate result idx
]

decode_loop : ℕ → Text → Decoded
decode_loop result [] = ok result
decode_loop result (c ∷ s) = decode_char result c >>= λ r. decode_loop r s

pub decode_base62 : Text → Decoded
decode_base62 s = if not (length s == 11) then err (invalid_length (length s)) else decode_loop 0 s
