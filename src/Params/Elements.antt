-- ===== src/Params/Elements.antt =====
-- The elements of the arrays that internal/types/params.go accepts.
use sqlproxy.Prelude.{
  ℕ, suc, ◌≡◌, refl, inl, inr, Text, codes, true, false, Bool-cases, text_eq, Result, ok, err,
  ◌>>=◌, Ensures, gives, fails, map_err,
}
use sqlproxy.Params.Values.{ValueLibrary, boolean, int, float, text, array, none_left, item}
use sqlproxy.Params.{
  Error, Kind, as_json, as_array, as_int, as_bool, as_datetime, as_float, as_other, element,
  not_serializable, Any, Elements, scalar_kind, convert_element, convert_string, element_of,
  elements_from, validate_array_elements, serialize_array,
}

Ensures->>= {ℓ κ μ ν ξ} :
    {E : Type ℓ} {A : Type κ} {B : Type μ} {Q : A → Type ν} {P : B → Type ξ} (m : Result E A)
    (f : A → Result E B)
    → Ensures Q m
    → ((a : A) → Q a → Ensures P (f a))
    → Ensures P (m >>= f)
Ensures->>= (ok a) f (gives q) k = k a q
Ensures->>= (err e) f (fails x) k = fails e

Ensures-map_err {ℓ κ μ ν} :
    {E : Type ℓ} {F : Type κ} {A : Type μ} {P : A → Type ν} (g : E → F) (m : Result E A)
    → Ensures P m
    → Ensures P (map_err g m)
Ensures-map_err g (ok a) (gives p) = gives p
Ensures-map_err g (err e) (fails x) = fails (g e)

Ensures-refl {ℓ κ} : {E : Type ℓ} {A : Type κ} (m : Result E A) → Ensures (λ a. m ≡ ok a) m
Ensures-refl (ok a) = gives refl
Ensures-refl (err e) = fails e

module _ (lib : ValueLibrary) where
  -- The type of an element that was checked; of the types that are no text, number or truth value
  -- elements are not checked.
  abbrev pub HasScalar : Kind → Any lib → Type 0
  HasScalar as_int (int n) = Unit
  HasScalar as_int _ = ⊥
  HasScalar as_float (float x) = Unit
  HasScalar as_float _ = ⊥
  HasScalar as_bool (boolean b) = Unit
  HasScalar as_bool _ = ⊥
  HasScalar _ v = Unit

  abbrev pub IsText : Any lib → Type 0
  IsText (text s) = Unit
  IsText _ = ⊥

  abbrev pub HasElement : Text → Any lib → Type 0
  HasElement base v =
      (text_eq base (codes "string") ≡ true → IsText v)
      × (text_eq base (codes "string") ≡ false → HasScalar (scalar_kind base) v)

  abbrev pub HasElements : Text → Elements lib → Type 0
  HasElements base none_left = Unit
  HasElements base (item v vs) = HasElement base v × HasElements base vs

  -- the JSON text of an array whose elements have the type
  abbrev pub IsArrayText : Text → Text → Type 0
  IsArrayText base s = (vs : Elements lib) × HasElements base vs × (lib.marshal (array vs) ≡ ok s)

  convert_element-HasScalar :
      (k : Kind) (v : Any lib) → Ensures (HasScalar k) (convert_element lib k v)
  unfolding convert_element
  convert_element-HasScalar as_int (float x) = gives tt
  convert_element-HasScalar as_int _ = fails _
  convert_element-HasScalar as_float (float x) = gives tt
  convert_element-HasScalar as_float _ = fails _
  convert_element-HasScalar as_bool (boolean b) = gives tt
  convert_element-HasScalar as_bool _ = fails _
  convert_element-HasScalar as_json v = gives tt
  convert_element-HasScalar (as_array base) v = gives tt
  convert_element-HasScalar as_datetime v = gives tt
  convert_element-HasScalar as_other v = gives tt

  convert_string-IsText : (v : Any lib) → Ensures IsText (convert_string lib v)
  unfolding convert_string
  convert_string-IsText (text s) = gives tt
  convert_string-IsText _ = fails _

  Ensures-weaken :
      (P Q : Any lib → Type 0) (m : Result Error (Any lib))
      → Ensures P m
      → ((v : Any lib) → P v → Q v)
      → Ensures Q m
  Ensures-weaken P Q (ok v) (gives p) f = gives (f v p)
  Ensures-weaken P Q (err e) (fails x) f = fails e

  element_of-HasElement :
      (base : Text) (v : Any lib) → Ensures (HasElement base) (element_of lib base v)
  unfolding element_of
  element_of-HasElement base v = elim (Bool-cases (text_eq base (codes "string"))) [
    | inl e ↦
        simp (element_of, e)
          (Ensures-weaken IsText (HasElement base) _ (convert_string-IsText v)
            (λ w t. (λ q. t, λ q. absurd (cc (e, q)))))
    | inr e ↦
        simp (element_of, e)
          (Ensures-weaken (HasScalar (scalar_kind base)) (HasElement base) _
            (convert_element-HasScalar (scalar_kind base) v)
            (λ w t. (λ q. absurd (cc (e, q)), λ q. t)))
  ]

  elements_from-HasElements :
      (i : ℕ) (base : Text) (vs : Elements lib)
      → Ensures (HasElements base) (elements_from lib i base vs)
  unfolding elements_from
  elements_from-HasElements i base none_left = gives tt
  elements_from-HasElements i base (item v vs) =
      Ensures->>= (map_err (element i) (element_of lib base v)) _
        (Ensures-map_err (element i) (element_of lib base v) (element_of-HasElement base v))
        λ w h.
          Ensures->>= (elements_from lib (suc i) base vs) _
            (elements_from-HasElements (suc i) base vs) λ ws hs. gives (h, hs)

  abbrev pub IsArrayValue : Text → Any lib → Type 0
  IsArrayValue base (text s) = IsArrayText base s
  IsArrayValue base _ = ⊥

  pub serialize_array-IsArrayValue :
      (base : Text) (arr : Elements lib)
      → Ensures (IsArrayValue base) (serialize_array lib base arr)
  unfolding serialize_array validate_array_elements
  serialize_array-IsArrayValue base arr =
      Ensures->>= (elements_from lib 0 base arr) _ (elements_from-HasElements 0 base arr) λ vs h.
        Ensures->>= (map_err not_serializable (lib.marshal (array vs))) _
          (Ensures-map_err not_serializable (lib.marshal (array vs))
            (Ensures-refl (lib.marshal (array vs))))
          λ s e. gives (vs, h, e)
