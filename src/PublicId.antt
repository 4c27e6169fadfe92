-- ===== src/PublicId.antt =====
-- internal/publicid/publicid.go: the encoder, over the cipher of Xtea and the digits of Base62.
pub mod Xtea
pub mod Base62
pub mod RoundTrip
mod Tests
pub mod Namespaces
use sqlproxy.Prelude.{
  ℕ, zero, suc, ◌+◌, ◌*◌, ◌^◌, List, [], ◌∷◌, ◌++◌, Text, codes, length, drop, get_elem?, Option,
  none, some, ltb, not, if◌then◌else◌, text_eq, has_prefix, Dict, lookup, insert, Result, ok, err,
  ◌>>=◌, map_err, ℤ, to_uint64, to_int64, Bool, true, false,
}
use Xtea.{Key, xtea_encrypt, xtea_decrypt}
use Base62.{DecodeError, encode_base62, decode_base62}

pub record Namespace : Type 0 where
  pub name : Text
  pub prefix : Text
  pub key : Key

pub record NamespaceConfig : Type 0 where
  pub name : Text
  pub prefix : Text

pub record Encoder : Type 0 where
  pub secret : Text
  pub namespaces : Dict Namespace

pub data Error : Type 0 where
  secret_too_short empty_name : Error
  unknown_namespace invalid_prefix : Text → Error
  invalid_format : DecodeError → Error

-- hash[i]; a SHA-256 sum has 32 bytes
byte_at : Text → ℕ → ℕ
byte_at hash i = elim (get_elem? hash i) [ none ↦ 0 | some b ↦ b ]

-- binary.BigEndian.Uint32(hash[i*4 : (i+1)*4])
big_endian_uint32 : Text → ℕ → ℕ
unfolding byte_at
big_endian_uint32 hash i =
    byte_at hash (i * 4) * 2 ^ 24
    + byte_at hash (i * 4 + 1) * 2 ^ 16
    + byte_at hash (i * 4 + 2) * 2 ^ 8
    + byte_at hash (i * 4 + 3)

-- HMAC-SHA256 of the standard library is the argument `hmac secret message`.
module _ (hmac : Text → Text → Text) where
  unfoldable pub derive_key : Text → Text → Key
  unfolding big_endian_uint32
  derive_key secret namespace =
      let hash = hmac secret namespace in
      record {
        k0 = big_endian_uint32 hash 0;
        k1 = big_endian_uint32 hash 1;
        k2 = big_endian_uint32 hash 2;
        k3 = big_endian_uint32 hash 3;
      }

  -- the loop over the configured namespaces
  add_namespaces : Text → Dict Namespace → List NamespaceConfig → Result Error (Dict Namespace)
  add_namespaces secret m [] = ok m
  add_namespaces secret m (ns ∷ rest) =
      let entry : Namespace = record {
        name = ns.name;
        prefix = ns.prefix;
        key = derive_key secret ns.name;
      } in
      let next = add_namespaces secret (insert ns.name entry m) rest in
      if text_eq ns.name [] then err empty_name else next

  pub new_encoder : Text → List NamespaceConfig → Result Error Encoder
  new_encoder secret namespaces =
      if ltb (length secret) 32
      then err secret_too_short
      else add_namespaces secret [] namespaces >>= λ m.
          ok (record { secret = secret; namespaces = m })

-- the text of a public ID, with the prefix of the namespace if it has one
with_prefix : Namespace → Text → Text
with_prefix ns encoded =
    if not (text_eq ns.prefix []) then ns.prefix ++ (codes "_" ++ encoded) else encoded

encode_in : Namespace → ℤ → Text
encode_in ns id = with_prefix ns (encode_base62 (xtea_encrypt ns.key (to_uint64 id)))

pub encode : Encoder → Text → ℤ → Result Error Text
encode e namespace id = elim (lookup namespace e.namespaces) [
  | none ↦ err (unknown_namespace namespace)
  | some ns ↦ ok (encode_in ns id)
]

-- the prefix test, and strings.TrimPrefix
strip_prefix : Text → Namespace → Text → Result Error Text
strip_prefix namespace ns public_id =
    let expected = ns.prefix ++ codes "_" in
    if not (text_eq ns.prefix [])
    then (if not (has_prefix public_id expected)
        then err (invalid_prefix namespace)
        else ok (drop (length expected) public_id))
    else ok public_id

decode_in : Text → Namespace → Text → Result Error ℤ
decode_in namespace ns public_id = strip_prefix namespace ns public_id >>= λ encoded.
    map_err invalid_format (decode_base62 encoded) >>= λ encrypted.
    ok (to_int64 (xtea_decrypt ns.key encrypted))

pub decode : Encoder → Text → Text → Result Error ℤ
decode e namespace public_id = elim (lookup namespace e.namespaces) [
  | none ↦ err (unknown_namespace namespace)
  | some ns ↦ decode_in namespace ns public_id
]

pub has_namespace : Encoder → Text → Bool
has_namespace e namespace = elim (lookup namespace e.namespaces) [ none ↦ false | some _ ↦ true ]
