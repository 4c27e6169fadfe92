-- ===== src/Prelude/Results.antt =====
-- A Go result with an error: the value, or the error's kind.
use mathlib.Core.Path.{◌≡◌, refl, subst}
use mathlib.Core.Logic.{◌⊎◌, inl, inr}

pub data Result {ℓ κ} (E : Type ℓ) (A : Type κ) : Type (ℓ ⊔ κ) where
  ok : A → Result E A
  err : E → Result E A

module _ {ℓ κ} {E : Type ℓ} {A : Type κ} where
  infixl 5 ◌>>=◌
  abbrev pub ◌>>=◌ {μ} : {B : Type μ} → Result E A → (A → Result E B) → Result E B
  ok a >>= f = f a
  err e >>= f = err e

  -- fmt.Errorf("...: %w", err) around an error
  abbrev pub map_err {μ} : {F : Type μ} → (E → F) → Result E A → Result F A
  map_err f (ok a) = ok a
  map_err f (err e) = err (f e)

  pub Result-cases : (r : Result E A) → ((e : E) × (r ≡ err e)) ⊎ ((a : A) × (r ≡ ok a))
  Result-cases (ok a) = inr (a, refl)
  Result-cases (err e) = inl (e, refl)

  pub ok-injective : {a b : A} → ◌≡◌ {A = Result E A} (ok a) (ok b) → a ≡ b
  ok-injective h = cc

-- A predicate of the value, where there is one.
pub data Ensures {ℓ κ μ} {E : Type ℓ} {A : Type κ} (P : A → Type μ)
    : Result E A → Type (ℓ ⊔ κ ⊔ μ) where
  gives : {a : A} → P a → Ensures P (ok a)
  fails : (e : E) → Ensures P (err e)

pub of_Ensures {ℓ κ μ} :
    {E : Type ℓ} {A : Type κ} (P : A → Type μ) {r : Result E A} {a : A}
    → Ensures P r
    → r ≡ ok a
    → P a
of_Ensures P (gives h) e = subst P (ok-injective e) h
of_Ensures P (fails x) e = cc

pub >>=-Ensures {ℓ κ μ ν} :
    {E : Type ℓ} {A : Type κ} {B : Type μ} {P : B → Type ν} (m : Result E A) (f : A → Result E B)
    → ((a : A) → Ensures P (f a))
    → Ensures P (m >>= f)
>>=-Ensures (ok a) f h = h a
>>=-Ensures (err e) f h = fails e

-- What a step that succeeded went through.
pub >>=-eq-ok {ℓ κ μ} :
    {E : Type ℓ} {A : Type κ} {B : Type μ} (r : Result E A) (k : A → Result E B) {z : B}
    → (r >>= k) ≡ ok z
    → (y : A) × (r ≡ ok y) × (k y ≡ ok z)
>>=-eq-ok (err x) k e = cc
>>=-eq-ok (ok y) k e = (y, refl, e)

pub map_err-eq-ok {ℓ κ μ} :
    {E : Type ℓ} {F : Type κ} {A : Type μ} (f : E → F) (m : Result E A) {a : A}
    → map_err f m ≡ ok a
    → m ≡ ok a
map_err-eq-ok f (ok b) h = cc
map_err-eq-ok f (err e) h = cc
