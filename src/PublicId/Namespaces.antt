-- ===== src/PublicId/Namespaces.antt =====
-- NewEncoder of internal/publicid/publicid.go: what it accepts, and what it configures.
use sqlproxy.Prelude.{
  ◌≤◌, ◌≡◌, refl, inl, inr, false, Option, none, some, List, [], ◌∷◌, arith, Text, length, text_eq,
  All, Bool-cases, ok, Dict, lookup, insert, lookup-insert, if◌then◌else◌, ltb, Result-cases,
}
use sqlproxy.PublicId.{Namespace, NamespaceConfig, Encoder, derive_key, add_namespaces, new_encoder}

abbrev pub IsNamed : NamespaceConfig → Type 0
IsNamed c = text_eq c.name [] ≡ false

module _ (hmac : Text → Text → Text) (secret : Text) where
  abbrev pub namespace_of : NamespaceConfig → Namespace
  namespace_of c = record { name = c.name; prefix = c.prefix; key = derive_key hmac secret c.name }

  -- The namespace that the configuration gives a name: the last entry of that name.
  abbrev pub configured : Text → Option Namespace → List NamespaceConfig → Option Namespace
  configured n found [] = found
  configured n found (c ∷ cs) =
      configured n (if text_eq c.name n then some (namespace_of c) else found) cs

  lookup-add_namespaces :
      (cs : List NamespaceConfig) (m : Dict Namespace)
      → All IsNamed cs
      → (m' : Dict Namespace) × (add_namespaces hmac secret m cs ≡ ok m')
        × ((n : Text) → lookup n m' ≡ configured n (lookup n m) cs)
  unfolding add_namespaces
  lookup-add_namespaces [] m h = (m, refl, λ n. refl)
  lookup-add_namespaces (c ∷ cs) m h =
      let (m', done, found) = lookup-add_namespaces cs (insert c.name (namespace_of c) m) h.1 in
      (m', rw h.0 done, λ n. rw found (rw lookup-insert refl))

  add_namespaces-IsNamed :
      (cs : List NamespaceConfig) (m m' : Dict Namespace)
      → add_namespaces hmac secret m cs ≡ ok m'
      → All IsNamed cs
  unfolding add_namespaces
  add_namespaces-IsNamed [] m m' h = tt
  add_namespaces-IsNamed (c ∷ cs) m m' h = elim (Bool-cases (text_eq c.name [])) [
    | inl e ↦ ground arith
    | inr e ↦ (e, add_namespaces-IsNamed cs (insert c.name (namespace_of c) m) m' (rw e at h))
  ]

  -- A long enough secret and named namespaces make an encoder that maps each name to its last
  -- configuration.
  pub new_encoder-configured :
      (cs : List NamespaceConfig)
      → 32 ≤ length secret
      → All IsNamed cs
      → (e : Encoder) × (new_encoder hmac secret cs ≡ ok e)
        × ((n : Text) → lookup n e.namespaces ≡ configured n none cs)
  unfolding new_encoder lookup
  new_encoder-configured cs len h =
      let (m, done, found) = lookup-add_namespaces cs [] h in
      (
        record { secret = secret; namespaces = m },
        (let long : ltb (length secret) 32 ≡ false = ground arith in rw (long, done)),
        found,
      )

  -- An encoder is made only of a secret of 32 bytes or more and of namespaces that all have names.
  pub new_encoder_accepts :
      (cs : List NamespaceConfig) (e : Encoder)
      → new_encoder hmac secret cs ≡ ok e
      → (32 ≤ length secret) × All IsNamed cs
  unfolding new_encoder
  new_encoder_accepts cs e h = elim (Result-cases (add_namespaces hmac secret [] cs)) [
    | inl (x, f) ↦ ground arith
    | inr (m, f) ↦ (ground arith, add_namespaces-IsNamed cs [] m f)
  ]
