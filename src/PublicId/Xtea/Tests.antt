-- ===== src/PublicId/Xtea/Tests.antt =====
-- The published test vector of XTEA, through xteaEncrypt of internal/publicid/publicid.go.
use sqlproxy.Prelude.{◌≡◌, refl}
use sqlproxy.PublicId.Xtea.{
  Key, key_at, scramble, mix0, mix1, encrypt_round, repeat, join_words, split_words, xtea_encrypt,
}

abbrev key : Key
key = record { k0 = 0x00010203; k1 = 0x04050607; k2 = 0x08090a0b; k3 = 0x0c0d0e0f }

vector : xtea_encrypt key 0x4142434445464748 ≡ 0x497df3d072612cb5
unfolding xtea_encrypt encrypt_round repeat join_words split_words mix0 mix1 scramble key_at
vector = refl
