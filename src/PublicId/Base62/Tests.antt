-- ===== src/PublicId/Base62/Tests.antt =====
-- Runs of encodeBase62 and decodeBase62 of internal/publicid/publicid.go.
use sqlproxy.Prelude.{ℕ, ◌≡◌, refl, codes, err, List, [], ◌∷◌}
use sqlproxy.PublicId.Base62.{
  char_at, index_from, index_rune, fill, encode_base62, accumulate, decode_char, decode_loop,
  decode_base62, overflow, invalid_length, invalid_character,
}

program : Unit {0}
unfolding char_at index_from index_rune fill encode_base62 accumulate decode_char decode_loop
    decode_base62
program = tt

max_encoded : encode_base62 18446744073709551615 ≡ codes "LygHa16AHYF"
unfolding program
max_encoded = refl

one_more : decode_base62 (codes "LygHa16AHYG") ≡ err overflow
unfolding program
one_more = refl

short : decode_base62 (codes "12") ≡ err (invalid_length 2)
unfolding program
short = refl

stranger : decode_base62 (codes "0000000000-") ≡ err (invalid_character b'-')
unfolding program
stranger = refl

abbrev digits : List ℕ
digits = 0 ∷ 0 ∷ 0 ∷ 0 ∷ 0 ∷ 0 ∷ 0 ∷ 0 ∷ 0 ∷ 1 ∷ 61 ∷ []
