-- ===== src/Workflow/Aliases/Keys.antt =====
-- The keys of a map.
use sqlproxy.Prelude.{
  ◌≡◌, refl, ap, inl, inr, arith, [], ◌∷◌, Text, true, false, none, some, Bool-cases, text_eq,
  text_eq_iff, text_eq_refl, Dict, Distinct, lookup, insert,
}
use sqlproxy.SqlUtil.Words.{contains_word}
use sqlproxy.Workflow.Aliases.{dict_keys}
use sqlproxy.Workflow.Aliases.Sums.{NoRepeat}

pub lookup_lacking :
    {V : Type 0}
    → (k : Text) (m : Dict V) → contains_word (dict_keys m) k ≡ false
    → lookup k m ≡ none
unfolding contains_word dict_keys lookup
lookup_lacking k [] n = refl
lookup_lacking k ((j, v) ∷ m) n = ground (arith, lookup_lacking k m)

pub dict_keys-insert :
    {V : Type 0}
    → (k : Text) (v : V) (m : Dict V) → contains_word (dict_keys m) k ≡ true
    → dict_keys (insert k v m) ≡ dict_keys m
unfolding contains_word dict_keys insert
dict_keys-insert k v [] h = absurd (cc (h))
dict_keys-insert k v ((j, w) ∷ m) h = elim (Bool-cases (text_eq j k)) [
  | inl e ↦ rw (e, (text_eq_iff j k).0 e) refl
  | inr n ↦ rw n (ap (λ l. j ∷ l) (dict_keys-insert k v m (ground arith)))
]

pub lookup_behind :
    {V : Type 0}
    → (k x : Text) (d v : V) (m : Dict V) → contains_word (dict_keys m) k ≡ false
    → lookup x m ≡ some v
    → lookup x ((k, d) ∷ m) ≡ some v
unfolding lookup
lookup_behind k x d v m n e = elim (Bool-cases (text_eq k x)) [
  | inl i ↦ absurd (let none_there = lookup_lacking k m n in let same = (text_eq_iff k x).0 i in cc)
  | inr i ↦ rw i e
]

pub lookup_front : {V : Type 0} → (k : Text) (d : V) (m : Dict V) → lookup k ((k, d) ∷ m) ≡ some d
unfolding lookup
lookup_front k d m = rw (text_eq_refl k) refl

pub lookup_missing :
    {V : Type 0}
    → (k : Text) (m : Dict V) → lookup k m ≡ none
    → contains_word (dict_keys m) k ≡ false
unfolding lookup contains_word dict_keys
lookup_missing k [] e = refl
lookup_missing k ((j, v) ∷ m) e = elim (Bool-cases (text_eq j k)) [
  | inl i ↦ absurd (let e' = rw i at e in cc)
  | inr i ↦ rw i (lookup_missing k m (rw i at e))
]

pub lookup_there :
    {V : Type 0}
    → (k : Text) (v : V) (m : Dict V) → lookup k m ≡ some v
    → contains_word (dict_keys m) k ≡ true
unfolding lookup contains_word dict_keys
lookup_there k v [] e = absurd (cc (e))
lookup_there k v ((j, w) ∷ m) e = elim (Bool-cases (text_eq j k)) [
  | inl i ↦ rw i refl
  | inr i ↦ rw i (lookup_there k v m (rw i at e))
]

pub there_lookup :
    {V : Type 0}
    → (k : Text) (m : Dict V) → contains_word (dict_keys m) k ≡ true
    → (v : V) × (lookup k m ≡ some v)
unfolding lookup contains_word dict_keys
there_lookup k [] h = absurd (cc (h))
there_lookup k ((j, v) ∷ m) h = elim (Bool-cases (text_eq j k)) [
  | inl i ↦ (v, rw i refl)
  | inr i ↦ let (w, e) = there_lookup k m (rw i at h) in (w, rw i e)
]

pub dict_keys-NoRepeat : {V : Type 0} → (m : Dict V) → Distinct m → NoRepeat (dict_keys m)
unfolding dict_keys
dict_keys-NoRepeat [] d = tt
dict_keys-NoRepeat ((k, v) ∷ m) (n, d) = (lookup_missing k m n, dict_keys-NoRepeat m d)
