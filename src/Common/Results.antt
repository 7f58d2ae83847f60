-- ===== src/Common/Results.antt =====
-- The result of code that throws: the value, or the exception.
use mathlib.Core.Path.{◌≡◌, refl}

pub data Outcome {ℓ κ} (E : Type κ) (A : Type ℓ) : Type (ℓ ⊔ κ) where
  ok : A → Outcome E A
  throw : E → Outcome E A

module _ {ℓ κ λ'} {E : Type κ} {A : Type ℓ} {B : Type λ'} where
  infixl 5 ◌>>=◌
  abbrev pub ◌>>=◌ : Outcome E A → (A → Outcome E B) → Outcome E B
  throw thrown >>= next = throw thrown
  ok value >>= next = next value

  -- A sequence returns only where both of its parts do.
  pub >>=-eq-ok :
      (first : Outcome E A) (next : A → Outcome E B) {result : B}
      → (first >>= next) ≡ ok result
      → (between : A) × (first ≡ ok between) × (next between ≡ ok result)
  >>=-eq-ok (throw thrown) next returned = cc
  >>=-eq-ok (ok between) next returned = (between, refl, returned)

pub ok_inj {ℓ κ} : {E : Type κ} {A : Type ℓ} {a b : A} → ◌≡◌ {A = Outcome E A} (ok a) (ok b) → a ≡ b
ok_inj h = cc
