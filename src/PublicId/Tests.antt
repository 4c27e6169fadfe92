-- ===== src/PublicId/Tests.antt =====
-- An encoder with one namespace, for internal/publicid/publicid.go.
use sqlproxy.Prelude.{
  ◌≡◌, refl, arith, Text, codes, List, [], ◌∷◌, lookup, text_eq, ok, negsuc, IsInt64,
}
use sqlproxy.PublicId.{Namespace, NamespaceConfig, Encoder, encode, decode}
use sqlproxy.PublicId.RoundTrip.{decode-encode, encode-decode}

abbrev user : Text
user = codes "user"

abbrev users : Namespace
users = record {
  name = user;
  prefix = codes "usr";
  key = record { k0 = 1; k1 = 2; k2 = 3; k3 = 4 };
}

abbrev encoder : Encoder
encoder = record { secret = []; namespaces = (user, users) ∷ [] }

abbrev configs : List NamespaceConfig
configs = record { name = user; prefix = codes "usr" } ∷ record { name = user; prefix = [] } ∷ []

abbrev hmac : Text → Text → Text
hmac secret message = secret

abbrev secret : Text
secret = codes "0123456789abcdef0123456789abcdef"

decode-encode_example :
    (public_id : Text) × (encode encoder user (negsuc 4) ≡ ok public_id)
    × (decode encoder user public_id ≡ ok (negsuc 4))
unfolding lookup text_eq
decode-encode_example = decode-encode encoder user users (negsuc 4) refl (omega arith)

encode-decode_example :
    IsInt64 (negsuc 4) × (encode encoder user (negsuc 4) ≡ ok decode-encode_example.0)
encode-decode_example =
    encode-decode encoder user decode-encode_example.0 (negsuc 4) decode-encode_example.2
