-- ===== src/Cache/Keys.antt =====
-- The keys under which internal/cache/cache.go stores the rows of all endpoints.
use mathlib.Core.List.{append_assoc}
use sqlproxy.Prelude.{
  ◌≡◌, refl, sym, ap, ◌∙◌, arith, Text, codes, List, [], ◌∷◌, ◌++◌, false, ◌==◌, ==_iff, All,
  Option, none, some, Option-cases, inl, inr,
}
use sqlproxy.Cache.{full_key, get}
use sqlproxy.Cache.Store.{Backend, Cache, Entry}

abbrev pub HasNoColon : Text → Type 0
HasNoColon = All (λ c. (c == b':') ≡ false)

-- Endpoints whose names hold no colon never share a key of the store.
pub full_key-injective :
    (e e' k k' : Text)
    → HasNoColon e
    → HasNoColon e'
    → full_key e k ≡ full_key e' k'
    → (e ≡ e') × (k ≡ k')
unfolding full_key
full_key-injective [] [] k k' h h' p = (refl, cc)
full_key-injective [] (c ∷ e') k k' h h' p = absurd (ground (arith, ==_iff c b':'))
full_key-injective (c ∷ e) [] k k' h h' p = absurd (ground (arith, ==_iff c b':'))
full_key-injective (c ∷ e) (d ∷ e') k k' h h' p =
    let (same, rest) = full_key-injective e e' k k' h.1 h'.1 (cc) in (cc, rest)

module _ {Row : Type 0} (b : Backend Row) where
  found_rows : Option (Entry Row) → Option (List Row)
  found_rows none = none
  found_rows (some entry) = some entry.rows

  get-found_rows :
      (c : Cache b) (e k : Text) → (get b c e k).1 ≡ found_rows (b.store_get c.store (full_key e k))
  unfolding get found_rows
  get-found_rows c e k = elim (Option-cases (b.store_get c.store (full_key e k))) [
    | inl x ↦ rw (x, get, found_rows)
    | inr (entry, x) ↦ rw (x, get, found_rows)
  ]

-- The endpoints e:x and e read the same rows under the keys k and x:k.
pub get_collides :
    {Row : Type 0} (b : Backend Row) (c : Cache b) (e x k : Text)
    → (get b c (e ++ (codes ":" ++ x)) k).1 ≡ (get b c e (x ++ (codes ":" ++ k))).1
unfolding full_key
get_collides b c e x k =
    let same : full_key (e ++ (codes ":" ++ x)) k ≡ full_key e (x ++ (codes ":" ++ k)) =
      append_assoc e (codes ":" ++ x) (codes ":" ++ k) in
    get-found_rows b c (e ++ (codes ":" ++ x)) k
    ∙ ap (λ (f : Text). found_rows b (b.store_get c.store f)) same
    ∙ sym (get-found_rows b c e (x ++ (codes ":" ++ k)))
