-- ===== src/Cache/Evict.antt =====
-- The eviction loop of internal/cache/cache.go on one endpoint.
use sqlproxy.Prelude.{
  ℕ, ◌+◌, ◌≤◌, ◌≡◌, refl, ◌∙◌, ◌⊎◌, inl, inr, arith, Text, text_eq, text_eq_refl, text_eq_comm,
  false, none, Option-cases, Bool-cases, List, [], ◌∷◌, All, Dict, lookup, lookup-delete, Distinct,
  total, of_option, ltb, leb, if◌then◌else◌,
}
use sqlproxy.Cache.Endpoint.{
  EntryMeta, EndpointCache, KeyAge, forget, key_ages, insert_by_age, sort_by_age,
}
use sqlproxy.Cache.Accounting.{IsAccounted, tracked, meta_size, tracked-forget, forget-IsAccounted}

-- What the loop does to the endpoint: it forgets keys until enough is freed.
unfoldable pub forget_until : ℕ → ℕ → List KeyAge → EndpointCache → EndpointCache
forget_until needed freed [] ep = ep
forget_until needed freed (ka ∷ keys) ep =
    let rest = forget_until needed (freed + ka.size) keys (forget ka.key ep) in
    if leb needed freed then ep else rest

abbrev sum_sizes : List KeyAge → ℕ
sum_sizes [] = 0
sum_sizes (ka ∷ keys) = ka.size + sum_sizes keys

-- Every key of the list is tracked with its size, and no key is listed twice.
abbrev Lists : List KeyAge → Dict EntryMeta → Type 0
Lists [] m = Unit {0}
Lists (ka ∷ keys) m =
    (of_option meta_size (lookup ka.key m) ≡ ka.size)
    × All (λ (x : KeyAge). text_eq ka.key x.key ≡ false) keys
    × Lists keys m

lookup-forget_other :
    (k j : Text) (ep : EndpointCache)
    → text_eq k j ≡ false
    → lookup j (forget k ep).keys ≡ lookup j ep.keys
unfolding forget
lookup-forget_other k j ep h = elim (Option-cases (lookup k ep.keys)) [
  | inl e ↦ rw (e, forget)
  | inr (m, e) ↦ rw (e, forget) (lookup-delete k j ep.keys ∙ rw h)
]

Lists-forget :
    (k : Text) (keys : List KeyAge) (ep : EndpointCache)
    → All (λ (x : KeyAge). text_eq k x.key ≡ false) keys
    → Lists keys ep.keys
    → Lists keys (forget k ep).keys
Lists-forget k [] ep a h = tt
Lists-forget k (x ∷ keys) ep a h =
    (rw (lookup-forget_other k x.key ep a.0) h.0, h.1, Lists-forget k keys ep a.1 h.2)

-- The loop frees what is needed or everything that it was given.
forget_until_frees :
    (needed freed : ℕ) (keys : List KeyAge) (ep : EndpointCache)
    → IsAccounted ep
    → Lists keys ep.keys
    → tracked ep ≡ sum_sizes keys
    → IsAccounted (forget_until needed freed keys ep)
      × ((tracked (forget_until needed freed keys ep) + needed ≤ tracked ep + freed)
          ⊎ (tracked (forget_until needed freed keys ep) ≡ 0))
unfolding forget_until
forget_until_frees needed freed [] ep v h e = (v, inr e)
forget_until_frees needed freed (ka ∷ keys) ep v h e = elim (Bool-cases (leb needed freed)) [
  | inl done ↦ rw (done, forget_until) (v, inl (ground arith))
  | inr more ↦
      let gone : tracked (forget ka.key ep) + ka.size ≡ tracked ep =
        rw h.0 at (tracked-forget ka.key ep v) in
      let (valid, freed') =
        forget_until_frees needed (freed + ka.size) keys (forget ka.key ep)
          (forget-IsAccounted ka.key ep v) (Lists-forget ka.key keys ep h.1 h.2) (omega arith) in
      rw (more, forget_until) (valid, frees gone freed')
]
  where
    frees :
        {t : ℕ}
        → tracked (forget ka.key ep) + ka.size ≡ tracked ep
        → (t + needed ≤ tracked (forget ka.key ep) + (freed + ka.size)) ⊎ (t ≡ 0)
        → (t + needed ≤ tracked ep + freed) ⊎ (t ≡ 0)
    frees gone (inl a) = inl (omega arith)
    frees gone (inr a) = inr a

Lists-cons :
    (k : Text) (v : EntryMeta) (keys : List KeyAge) (m : Dict EntryMeta)
    → All (λ (x : KeyAge). text_eq k x.key ≡ false) keys
    → Lists keys m
    → Lists keys ((k, v) ∷ m)
unfolding lookup
Lists-cons k v [] m a h = tt
Lists-cons k v (x ∷ keys) m a h = (rw (a.0, lookup) h.0, h.1, Lists-cons k v keys m a.1 h.2)

absent-key_ages :
    (k : Text) (m : Dict EntryMeta)
    → lookup k m ≡ none
    → All (λ (x : KeyAge). text_eq k x.key ≡ false) (key_ages m)
unfolding lookup key_ages
absent-key_ages k [] h = tt
absent-key_ages k ((j, v) ∷ m) h = elim (Bool-cases (text_eq j k)) [
  | inl e ↦ ground arith
  | inr e ↦ (text_eq_comm k j ∙ e, absent-key_ages k m (rw e at h))
]

key_ages-Lists : (m : Dict EntryMeta) → Distinct m → Lists (key_ages m) m
unfolding key_ages
key_ages-Lists [] h = tt
key_ages-Lists ((k, v) ∷ m) h = (
  self,
  absent-key_ages k m h.0,
  Lists-cons k v (key_ages m) m (absent-key_ages k m h.0) (key_ages-Lists m h.1),
)
  where
    self : of_option meta_size (lookup k ((k, v) ∷ m)) ≡ v.size_bytes
    self = unfold lookup in rw (text_eq_refl k)

sum_sizes-key_ages : (m : Dict EntryMeta) → sum_sizes (key_ages m) ≡ total meta_size m
unfolding key_ages
sum_sizes-key_ages [] = refl
sum_sizes-key_ages ((k, v) ∷ m) = omega (arith, sum_sizes-key_ages m)

sum_sizes-insert_by_age :
    (a : KeyAge) (l : List KeyAge) → sum_sizes (insert_by_age a l) ≡ a.size + sum_sizes l
unfolding insert_by_age
sum_sizes-insert_by_age a [] = refl
sum_sizes-insert_by_age a (b ∷ l) = ground (arith, sum_sizes-insert_by_age a l)

sum_sizes-sort_by_age : (l : List KeyAge) → sum_sizes (sort_by_age l) ≡ sum_sizes l
unfolding sort_by_age
sum_sizes-sort_by_age [] = refl
sum_sizes-sort_by_age (a ∷ l) =
    omega (arith, sum_sizes-insert_by_age a (sort_by_age l), sum_sizes-sort_by_age l)

All-insert_by_age :
    (P : KeyAge → Type 0) (a : KeyAge) (l : List KeyAge) → P a → All P l → All P (insert_by_age a l)
unfolding insert_by_age
All-insert_by_age P a [] p h = (p, h)
All-insert_by_age P a (b ∷ l) p h = elim (Bool-cases (ltb b.cached_at a.cached_at)) [
  | inl e ↦ rw (e, insert_by_age) (h.0, All-insert_by_age P a l p h.1)
  | inr e ↦ rw (e, insert_by_age) (p, h)
]

All-sort_by_age : (P : KeyAge → Type 0) (l : List KeyAge) → All P l → All P (sort_by_age l)
unfolding sort_by_age
All-sort_by_age P [] h = h
All-sort_by_age P (a ∷ l) h = All-insert_by_age P a (sort_by_age l) h.0 (All-sort_by_age P l h.1)

Lists-insert_by_age :
    (a : KeyAge) (l : List KeyAge) (m : Dict EntryMeta)
    → Lists (a ∷ l) m
    → Lists (insert_by_age a l) m
unfolding insert_by_age
Lists-insert_by_age a [] m h = h
Lists-insert_by_age a (b ∷ l) m h = elim (Bool-cases (ltb b.cached_at a.cached_at)) [
  | inl e ↦
      rw (e, insert_by_age)
        (
          h.2.0,
          All-insert_by_age (λ (x : KeyAge). text_eq b.key x.key ≡ false) a l
              (text_eq_comm b.key a.key ∙ h.1.0) h.2.1,
          Lists-insert_by_age a l m (h.0, h.1.1, h.2.2),
        )
  | inr e ↦ rw (e, insert_by_age) h
]

Lists-sort_by_age : (l : List KeyAge) (m : Dict EntryMeta) → Lists l m → Lists (sort_by_age l) m
unfolding sort_by_age
Lists-sort_by_age [] m h = h
Lists-sort_by_age (a ∷ l) m h = Lists-insert_by_age a (sort_by_age l) m (
  h.0,
  All-sort_by_age (λ (x : KeyAge). text_eq a.key x.key ≡ false) l h.1,
  Lists-sort_by_age l m h.2,
)

-- What evictFromEndpoint does to the endpoint.
unfoldable pub evicted : ℕ → EndpointCache → EndpointCache
unfolding forget_until
evicted needed ep = forget_until needed 0 (sort_by_age (key_ages ep.keys)) ep

-- Eviction frees the needed bytes, or empties the endpoint.
pub evicted_frees :
    (needed : ℕ) (ep : EndpointCache)
    → IsAccounted ep
    → IsAccounted (evicted needed ep)
      × ((tracked (evicted needed ep) + needed ≤ tracked ep) ⊎ (tracked (evicted needed ep) ≡ 0))
unfolding evicted
evicted_frees needed ep v =
    let (valid, frees) =
      forget_until_frees needed 0 (sort_by_age (key_ages ep.keys)) ep v
        (Lists-sort_by_age (key_ages ep.keys) ep.keys (key_ages-Lists ep.keys v.distinct))
        (omega (arith, sum_sizes-sort_by_age (key_ages ep.keys), sum_sizes-key_ages ep.keys)) in
    (valid, elim frees [ inl a ↦ inl (omega arith) | inr a ↦ inr a ])
