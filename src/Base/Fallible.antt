-- ===== src/Base/Fallible.antt =====
-- The result of a fallible Go function: its value, or its error.
use mathlib.Core.Path.{◌≡◌, refl}
use mathlib.Core.Logic.{◌⊎◌, inl, inr}

pub data Result {ℓ κ} (E : Type ℓ) (A : Type κ) : Type (ℓ ⊔ κ) where
  ok : A → Result E A
  err : E → Result E A

module _ {ℓ κ} {E : Type ℓ} {A : Type κ} where
  infixl 5 ◌>>=◌
  abbrev pub ◌>>=◌ {μ} : {B : Type μ} → Result E A → (A → Result E B) → Result E B
  ok a >>= f = f a
  err e >>= f = err e

  -- fmt.Errorf("…: %w", err) around a call.
  abbrev pub map_err {μ} : {F : Type μ} → (E → F) → Result E A → Result F A
  map_err f (ok a) = ok a
  map_err f (err e) = err (f e)

  -- What a chain that ends well went through: the value of its first call, and what came of it.
  pub record Through {μ} {B : Type μ} (first : Result E A) (rest : A → Result E B) (end : B)
      : Type (ℓ ⊔ κ ⊔ μ) where
    pub value : A
    pub first_ok : first ≡ ok value
    pub rest_ok : rest value ≡ ok end

  pub >>=-Through {μ} :
      {B : Type μ} (r : Result E A) (k : A → Result E B) (end : B)
      → (r >>= k) ≡ ok end
      → Through r k end
  >>=-Through (err e) k end h = cc
  >>=-Through (ok v) k end h = record { value = v; first_ok = refl; rest_ok = h }

  pub Result-cases : (r : Result E A) → ((a : A) × (r ≡ ok a)) ⊎ ((e : E) × (r ≡ err e))
  Result-cases (ok a) = inl (a, refl)
  Result-cases (err e) = inr (e, refl)
