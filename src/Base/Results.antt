-- ===== src/Base/Results.antt =====
-- A Go function's `(value, error)` pair: the error, or the value.
use mathlib.Core.Path.{◌≡◌, refl}
use mathlib.Core.Logic.{◌⊎◌, inl, inr}
use native.Mathlib.Omega.{arith}

pub data Result {ℓ} (E A : Type ℓ) : Type ℓ where
  ok : A → Result E A
  err : E → Result E A

module _ {ℓ} {E A : Type ℓ} where
  pub Result-cases : (r : Result E A) → ((a : A) × (r ≡ ok a)) ⊎ ((e : E) × (r ≡ err e))
  Result-cases (ok a) = inl (a, refl)
  Result-cases (err e) = inr (e, refl)

  pub ok_inj : {a b : A} → ◌≡◌ {A = Result E A} (ok a) (ok b) → a ≡ b
  ok_inj h = ground arith

module _ {ℓ} {E A B : Type ℓ} where
  infixl 5 ◌>>=◌
  abbrev pub ◌>>=◌ : Result E A → (A → Result E B) → Result E B
  err x >>= next = err x
  ok a >>= next = next a

  -- Inversion of a chain that gives a value.
  pub >>=-eq-ok :
      (r : Result E A) (next : A → Result E B) {given : B}
      → (r >>= next) ≡ ok given
      → (a : A) × (r ≡ ok a) × (next a ≡ ok given)
  >>=-eq-ok (ok a) next h = (a, refl, h)
  >>=-eq-ok (err x) next h = cc

  -- A chain whose parts give at least the values of another's gives its value.
  pub >>=-extends :
      (m m' : Result E A) (f f' : A → Result E B) {b : B}
      → ((a : A) → m ≡ ok a → m' ≡ ok a)
      → ((a : A) → f a ≡ ok b → f' a ≡ ok b)
      → (m >>= f) ≡ ok b
      → (m' >>= f') ≡ ok b
  >>=-extends m m' f f' hm hf h = let (a, e, k) = >>=-eq-ok m f h in rw (hm a e) (hf a k)
