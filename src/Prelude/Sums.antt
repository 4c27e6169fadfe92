-- ===== src/Prelude/Sums.antt =====
-- Go maps whose keys are distinct, and a sum over their values.
use mathlib.Core.Path.{◌≡◌, refl, ◌∙◌}
use mathlib.Core.Bool.{false}
use mathlib.Core.Logic.{inl, inr}
use mathlib.Core.Option.{Option, none, some}
use mathlib.Core.List.{[], ◌∷◌}
use Prim.Native.Nat.{ℕ, ◌+◌}
use native.Mathlib.Omega.{arith}
use sqlproxy.Prelude.Tests.{if◌then◌else◌, Bool-cases}
use sqlproxy.Prelude.Strings.{Text, text_eq, text_eq_iff}
use sqlproxy.Prelude.Maps.{Dict, lookup, insert, delete, lookup-insert, lookup-delete}

module _ {ℓ} {V : Type ℓ} where
  -- Every key of a Go map is there once.
  abbrev pub Distinct : Dict V → Type ℓ
  Distinct [] = Unit
  Distinct ((k, v) ∷ m) = (lookup k m ≡ none) × Distinct m

  pub delete_absent : (k : Text) (m : Dict V) → lookup k m ≡ none → delete k m ≡ m
  unfolding lookup delete
  delete_absent k [] h = refl
  delete_absent k ((j, w) ∷ m) h = ground (arith, delete_absent k m)

  pub delete-Distinct : (k : Text) (m : Dict V) → Distinct m → Distinct (delete k m)
  unfolding delete
  delete-Distinct k [] h = h
  delete-Distinct k ((j, w) ∷ m) h = elim (Bool-cases (text_eq j k)) [
    | inl e ↦ rw e (delete-Distinct k m h.1)
    | inr e ↦ rw e ((lookup-delete k j m ∙ absent e), delete-Distinct k m h.1)
  ]
    where
      absent : text_eq j k ≡ false → (if text_eq k j then none else lookup j m) ≡ none
      absent e = ground (arith, text_eq_iff k j, text_eq_iff j k, h.0)

  pub insert-Distinct : (k : Text) (v : V) (m : Dict V) → Distinct m → Distinct (insert k v m)
  unfolding insert lookup
  insert-Distinct k v [] h = (refl, h)
  insert-Distinct k v ((j, w) ∷ m) h = elim (Bool-cases (text_eq j k)) [
    | inl e ↦ rw (e, insert) (rw (← (text_eq_iff j k).0 e) h)
    | inr e ↦ rw (e, insert) ((lookup-insert k j v m ∙ absent e), insert-Distinct k v m h.1)
  ]
    where
      absent : text_eq j k ≡ false → (if text_eq k j then some v else lookup j m) ≡ none
      absent e = ground (arith, text_eq_iff k j, text_eq_iff j k, h.0)

module _ {ℓ} {V : Type ℓ} (f : V → ℕ) where
  abbrev pub total : Dict V → ℕ
  total [] = 0
  total ((k, v) ∷ m) = f v + total m

  abbrev pub of_option : Option V → ℕ
  of_option none = 0
  of_option (some v) = f v

  pub total-delete :
      (k : Text) (m : Dict V) → Distinct m → total (delete k m) + of_option (lookup k m) ≡ total m
  unfolding lookup delete
  total-delete k [] h = omega arith
  total-delete k ((j, w) ∷ m) h = elim (Bool-cases (text_eq j k)) [
    | inl e ↦
        rw (e, delete)
          (let gone : lookup k m ≡ none = rw (← (text_eq_iff j k).0 e) h.0 in
            rw (delete_absent k m gone) (omega arith))
    | inr e ↦ rw (e, delete) (omega (arith, total-delete k m h.1))
  ]

  pub total-insert :
      (k : Text) (v : V) (m : Dict V)
      → total (insert k v m) + of_option (lookup k m) ≡ total m + f v
  unfolding lookup insert
  total-insert k v [] = omega arith
  total-insert k v ((j, w) ∷ m) = elim (Bool-cases (text_eq j k)) [
    | inl e ↦ rw e (omega arith)
    | inr e ↦ rw e (omega (arith, total-insert k v m))
  ]
