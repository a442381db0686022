-- ===== src/Prelude/Exceptions.antt =====
-- A computation that returns a value or throws.
use mathlib.Core.Logic.{◌⊎◌, inl, inr}
use mathlib.Core.Path.{◌≡◌, refl}

pub data Result {ℓ κ} (E : Type κ) (A : Type ℓ) : Type (ℓ ⊔ κ) where
  ok : A → Result E A
  err : E → Result E A

module _ {ℓ κ μ} {E : Type μ} {A : Type ℓ} {B : Type κ} where
  infixl 5 ◌>>=◌
  -- What follows runs on the value; an exception passes it by.
  abbrev pub ◌>>=◌ : Result E A → (A → Result E B) → Result E B
  ◌>>=◌ (err thrown) next = err thrown
  ◌>>=◌ (ok value) next = next value

  pub >>=-eq-ok :
      (r : Result E A) (next : A → Result E B) {b : B}
      → (r >>= next) ≡ ok b
      → (value : A) × (r ≡ ok value) × (next value ≡ ok b)
  >>=-eq-ok (err thrown) next h = cc
  >>=-eq-ok (ok value) next h = (value, refl, h)

pub Result-cases {ℓ κ} :
    {E : Type κ} {A : Type ℓ} (r : Result E A)
    → ((value : A) × (r ≡ ok value)) ⊎ ((thrown : E) × (r ≡ err thrown))
Result-cases (err thrown) = inr (thrown, refl)
Result-cases (ok value) = inl (value, refl)

infixl 5 ◌>>◌
-- A part that gives nothing back.
abbrev pub ◌>>◌ {ℓ κ} : {E : Type κ} {A : Type ℓ} → Result E (Unit {0}) → Result E A → Result E A
◌>>◌ first second = first >>= λ done. second
