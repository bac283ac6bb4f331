-- ===== src/Common/Digits.antt =====
-- The digits of a number: what they are, and the number that they stand for.
use Prim.Native.Nat.{ℕ, zero, suc, ◌+◌, ◌-◌, ◌*◌, ◌/◌, ◌%◌, ◌≤◌, ◌<◌}
use mathlib.Core.Path.{◌≡◌, refl}
use mathlib.Core.Logic.{◌≢◌, inl, inr}
use mathlib.Core.List.{[], ◌∷◌, ◌++◌, concat-ne-nil}
use native.Mathlib.Omega.{arith}
use c_modern.Common.Tests.{ltb, if_rule, Bool-cases}
use c_modern.Common.Text.{Bytes}
use c_modern.Common.Decimal.{decimal_of, decimal}

-- Decimal digits only.
abbrev pub AllDigits : Bytes → Type 0
AllDigits [] = Unit {0}
AllDigits (ch ∷ text) = (b'0' ≤ ch) × (ch ≤ b'9') × AllDigits text

pub AllDigits-append : (xs ys : Bytes) → AllDigits xs → AllDigits ys → AllDigits (xs ++ ys)
AllDigits-append [] ys h k = k
AllDigits-append (x ∷ xs) ys (a, b, h) k = (a, b, AllDigits-append xs ys h k)

pub decimal_of-AllDigits : (fuel n : ℕ) → AllDigits (decimal_of fuel n)
unfolding decimal_of
decimal_of-AllDigits zero n = tt
decimal_of-AllDigits (suc fuel) n = elim (Bool-cases (ltb n 10)) [
  | inl small ↦ rw small (ground arith)
  | inr large ↦ rw large (
      AllDigits-append (decimal_of fuel (n / 10)) _ (decimal_of-AllDigits fuel (n / 10))
        (omega arith))
]

pub decimal-ne-nil : (n : ℕ) → decimal n ≢ []
unfolding decimal
decimal-ne-nil n = if_rule (λ x. x ≢ []) (ltb n 10) (λ e. cc) (concat-ne-nil _ _)

-- The number that a text of digits stands for, read from the left behind `value`.
abbrev pub digits_value : ℕ → Bytes → ℕ
digits_value value [] = value
digits_value value (ch ∷ text) = digits_value (value * 10 + (ch - b'0')) text

digits_value-append :
    (value : ℕ) (xs ys : Bytes)
    → digits_value value (xs ++ ys) ≡ digits_value (digits_value value xs) ys
digits_value-append value [] ys = refl
digits_value-append value (x ∷ xs) ys = digits_value-append (value * 10 + (x - b'0')) xs ys

pub digits_value-decimal_of : (fuel n : ℕ) → n < fuel → digits_value 0 (decimal_of fuel n) ≡ n
unfolding decimal_of
digits_value-decimal_of zero n h = absurd (omega arith)
digits_value-decimal_of (suc fuel) n h = elim (Bool-cases (ltb n 10)) [
  | inl small ↦ rw small (omega arith)
  | inr large ↦
      rw
        (
          large,
          digits_value-append 0 (decimal_of fuel (n / 10)) ((b'0' + n % 10) ∷ []),
          digits_value-decimal_of fuel (n / 10) (ground arith),
        )
        (omega arith)
]
