-- ===== src/Prelude/Decimal.antt =====
-- `%d` of a number that is not negative.
use Prim.Native.Nat.{ℕ, zero, suc, ◌+◌, ◌-◌, ◌*◌, ◌/◌, ◌%◌, ◌<◌}
use mathlib.Core.Path.{◌≡◌, sym, ◌∙◌, ap}
use mathlib.Core.Logic.{inl, inr}
use mathlib.Core.List.{[], ◌∷◌, reverse, reverse-reverse}
use native.Mathlib.Omega.{arith}
use grpc_gateway.Prelude.Tests.{ltb, not_ltb→le, if◌then◌else◌, Bool-cases}
use grpc_gateway.Prelude.Texts.{Text}

-- The digits, the lowest first; there are at most as many as the number has units, and one.
unfoldable pub low_digits : ℕ → ℕ → Text
low_digits zero n = []
low_digits (suc f) n =
    let rest = low_digits f (n / 10) in if ltb n 10 then (b'0' + n) ∷ [] else (b'0' + n % 10) ∷ rest

unfoldable pub itoa : ℕ → Text
unfolding low_digits
itoa n = reverse (low_digits (suc n) n)

value : Text → ℕ
value [] = 0
value (c ∷ s) = (c - b'0') + 10 * value s

value-low_digits : (f n : ℕ) → n < f → value (low_digits f n) ≡ n
unfolding low_digits value
value-low_digits zero n h = elim h [ ]
value-low_digits (suc f) n h = elim (Bool-cases (ltb n 10)) [
  | inl e ↦ rw e (omega arith)
  | inr e ↦ rw e (omega (arith, value-low_digits f (n / 10), not_ltb→le n 10 e))
]

-- Two numbers are not written alike.
pub itoa_injective : (m n : ℕ) → itoa m ≡ itoa n → m ≡ n
unfolding itoa
itoa_injective m n e =
    let same : low_digits (suc m) m ≡ low_digits (suc n) n =
      sym (reverse-reverse (low_digits (suc m) m))
      ∙ (ap reverse e ∙ reverse-reverse (low_digits (suc n) n)) in
    sym (value-low_digits (suc m) m (omega arith))
    ∙ (ap value same ∙ value-low_digits (suc n) n (omega arith))
