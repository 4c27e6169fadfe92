-- ===== src/PublicId/RoundTrip.antt =====
-- Encode and Decode of internal/publicid/publicid.go undo one another.
use mathlib.Core.List.{append_assoc}
use sqlproxy.Prelude.{
  ◌≡◌, ap, inl, inr, some, [], ◌++◌, arith, Text, codes, length, drop, drop_of_append, text_eq,
  has_prefix, has_prefix-append, append-drop, ok-injective, Bool-cases, Option-cases, ok,
  Result-cases, ℤ, IsInt64, to_uint64, to_int64, to_int64-to_uint64, to_uint64-lt,
  to_uint64-to_int64, to_int64-IsInt64, lookup,
}
use sqlproxy.PublicId.Xtea.Inverse.{
  decrypt-encrypt, encrypt-decrypt, xtea_encrypt-lt, xtea_decrypt-lt,
}
use sqlproxy.PublicId.Xtea.{xtea_encrypt, xtea_decrypt}
use sqlproxy.PublicId.Base62.{encode_base62, decode_base62}
use sqlproxy.PublicId.Base62.RoundTrip.{decode-encode_base62, encode-decode_base62}
use sqlproxy.PublicId.{
  Namespace, Encoder, with_prefix, encode_in, encode, strip_prefix, decode_in, decode,
}

module _ (name : Text) (ns : Namespace) where
  strip-with_prefix : (s : Text) → strip_prefix name ns (with_prefix ns s) ≡ ok s
  unfolding strip_prefix with_prefix
  strip-with_prefix s = elim (Bool-cases (text_eq ns.prefix [])) [
    | inl e ↦ rw e
    | inr e ↦
        rw (e, ← append_assoc ns.prefix (codes "_") s)
          (rw (has_prefix-append (ns.prefix ++ codes "_") s)
            (ap ok (drop_of_append (ns.prefix ++ codes "_") s)))
  ]

  with-strip_prefix : (s t : Text) → strip_prefix name ns s ≡ ok t → with_prefix ns t ≡ s
  unfolding strip_prefix with_prefix
  with-strip_prefix s t h = elim (Bool-cases (text_eq ns.prefix [])) [
    | inl e ↦ ground arith
    | inr e ↦ elim (Bool-cases (has_prefix s (ns.prefix ++ codes "_"))) [
      | inl p ↦
          let rest : drop (length (ns.prefix ++ codes "_")) s ≡ t = ok-injective (rw (e, p) at h) in
          rw (e, ← append_assoc ns.prefix (codes "_") t, ← rest) (append-drop _ s p)
      | inr p ↦ ground arith
    ]
  ]

  decode_in-encode_in : (id : ℤ) → IsInt64 id → decode_in name ns (encode_in ns id) ≡ ok id
  unfolding decode_in encode_in
  decode_in-encode_in id h =
      rw (strip-with_prefix (encode_base62 (xtea_encrypt ns.key (to_uint64 id)))) (
        rw
          (decode-encode_base62 (xtea_encrypt ns.key (to_uint64 id))
            (xtea_encrypt-lt ns.key (to_uint64 id)))
          (rw (decrypt-encrypt ns.key (to_uint64 id) (to_uint64-lt id))
            (ap ok (to_int64-to_uint64 id h))))

  encode_in-decode_in :
      (s : Text) (id : ℤ) → decode_in name ns s ≡ ok id → IsInt64 id × (encode_in ns id ≡ s)
  unfolding decode_in encode_in
  encode_in-decode_in s id h = elim (Result-cases (strip_prefix name ns s)) [
    | inl (e, f) ↦ ground arith
    | inr (t, f) ↦ elim (Result-cases (decode_base62 t)) [
      | inl (e, g) ↦ ground arith
      | inr (n, g) ↦
          let w = xtea_decrypt ns.key n in
          let e : to_int64 w ≡ id = ok-injective (rw (f, g) at h) in
          let (bound, same) = encode-decode_base62 t n g in
          (
            rw (← e) (to_int64-IsInt64 w (xtea_decrypt-lt ns.key n)),
            rw
                (
                  ← e,
                  to_uint64-to_int64 w (xtea_decrypt-lt ns.key n),
                  encrypt-decrypt ns.key n bound,
                  same,
                )
                (with-strip_prefix s t f),
          )
    ]
  ]

module _ (e : Encoder) (namespace : Text) where
  -- Under a configured namespace every int64 is encoded, and its public ID decodes to it.
  pub decode-encode :
      (ns : Namespace) (id : ℤ)
      → lookup namespace e.namespaces ≡ some ns
      → IsInt64 id
      → (public_id : Text) × (encode e namespace id ≡ ok public_id)
        × (decode e namespace public_id ≡ ok id)
  unfolding encode decode
  decode-encode ns id found h = (
    encode_in ns id,
    rw (found, encode),
    rw (found, decode) (decode_in-encode_in namespace ns id h),
  )

  -- A public ID that decodes is the one its number encodes to, so decoding is injective and
  -- refuses what Encode did not make.
  pub encode-decode :
      (public_id : Text) (id : ℤ)
      → decode e namespace public_id ≡ ok id
      → IsInt64 id × (encode e namespace id ≡ ok public_id)
  unfolding encode decode
  encode-decode public_id id h = elim (Option-cases (lookup namespace e.namespaces)) [
    | inl f ↦ ground arith
    | inr (ns, f) ↦
        let (bound, same) = encode_in-decode_in namespace ns public_id id (rw (f, decode) at h) in
        (bound, rw (f, encode) (ap ok same))
  ]
