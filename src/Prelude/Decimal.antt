-- ===== src/Prelude/Decimal.antt =====
-- Decimal numbers: `std::to_string`, and the value that `std::from_chars` reads from digits.
use Prim.Native.Nat.{ℕ, zero, suc, ◌+◌, ◌-◌, ◌*◌, ◌/◌, ◌%◌, ◌<◌}
use mathlib.Core.Path.{◌≡◌, refl, ap, ◌∙◌}
use mathlib.Core.Bool.{Bool, true, ◌&&◌}
use mathlib.Core.List.{[], ◌∷◌}
use mathlib.Core.Logic.{◌≢◌, inl, inr}
use native.Mathlib.Omega.{arith}
use package.tin_dox.Prelude.Lists.{all}
use package.tin_dox.Prelude.Tests.{ltb, leb, Bool-cases, if◌then◌else◌}
use package.tin_dox.Prelude.Text.{Bytes}

abbrev pub is_digit : ℕ → Bool
is_digit c = leb b'0' c && leb c b'9'

-- The digits of `n` in front of `acc`; the fuel is more than the number of digits.
decimal_onto : ℕ → ℕ → Bytes → Bytes
decimal_onto zero n acc = acc
decimal_onto (suc f) n acc =
    let digit = b'0' + n % 10 in
    let rest = decimal_onto f (n / 10) (digit ∷ acc) in if ltb n 10 then digit ∷ acc else rest

unfoldable pub to_decimal : ℕ → Bytes
unfolding decimal_onto
to_decimal n = decimal_onto (suc n) n []

-- The value of a run of digits behind those that gave `acc`.
unfoldable pub digits_value : ℕ → Bytes → ℕ
digits_value acc [] = acc
digits_value acc (c ∷ cs) = digits_value (acc * 10 + (c - b'0')) cs

decimal_onto-value :
    (f n : ℕ) (acc : Bytes) → n < f → digits_value 0 (decimal_onto f n acc) ≡ digits_value n acc
unfolding decimal_onto digits_value
decimal_onto-value zero n acc h = elim h [ ]
decimal_onto-value (suc f) n acc h = elim (Bool-cases (ltb n 10)) [
  | inl small ↦ rw small (ap (λ v. digits_value v acc) (ground arith))
  | inr large ↦
      rw large (
        decimal_onto-value f (n / 10) _ (ground arith) ∙ ap (λ v. digits_value v acc) (omega arith))
]

pub digits_value-to_decimal : (n : ℕ) → digits_value 0 (to_decimal n) ≡ n
unfolding to_decimal digits_value
digits_value-to_decimal n = decimal_onto-value (suc n) n [] (omega arith)

decimal_onto-digits :
    (f n : ℕ) (acc : Bytes) → all is_digit acc ≡ true → all is_digit (decimal_onto f n acc) ≡ true
unfolding decimal_onto
decimal_onto-digits zero n acc h = h
decimal_onto-digits (suc f) n acc h =
    ground (arith, decimal_onto-digits f (n / 10) ((b'0' + n % 10) ∷ acc))

pub all-to_decimal : (n : ℕ) → all is_digit (to_decimal n) ≡ true
unfolding to_decimal
all-to_decimal n = decimal_onto-digits (suc n) n [] refl

decimal_onto-ne-nil : (f n c : ℕ) (acc : Bytes) → decimal_onto f n (c ∷ acc) ≢ []
unfolding decimal_onto
decimal_onto-ne-nil zero n c acc e = cc
decimal_onto-ne-nil (suc f) n c acc e =
    ground (arith, decimal_onto-ne-nil f (n / 10) (b'0' + n % 10) (c ∷ acc))

pub to_decimal-ne-nil : (n : ℕ) → to_decimal n ≢ []
unfolding to_decimal decimal_onto
to_decimal-ne-nil n = ground (arith, decimal_onto-ne-nil n (n / 10) (b'0' + n % 10) [])
