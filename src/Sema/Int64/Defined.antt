-- ===== src/Sema/Int64/Defined.antt =====
-- Where the checked operations give a result, and which one.
use c_modern.Common.{
  ℕ, ◌*◌, ◌%◌, ◌^◌, ◌≤◌, ◌<◌, true, false, none, some, ◌≡◌, ◌≢◌, refl, sym, ap, arith, inl, inr,
  Bool-cases, subst,
}
use native.Mathlib.Nat.{pow-le-pow_right}
use c_modern.Common.Int.{ℤ, pos, negsuc, abs_ℕ}
use c_modern.Sema.Int64.{
  IsInt64, to_bits, of_bits, quotient, remainder, shift_right, checked_divide_int64,
  checked_remainder_int64, checked_shift_left_int64, checked_shift_right_int64, undefined_quotient,
}
use c_modern.Sema.Int64.Divide.{Undefined, undefined_quotient_iff, IsDivision}

pub zero_divisor : (lhs rhs q m : ℤ) → IsDivision lhs rhs q m → rhs ≢ pos 0
zero_divisor lhs rhs q m d z = let lt = d.small in let none = ap abs_ℕ z in omega arith

pub quotient_fits : (lhs rhs : ℤ) → rhs ≢ pos 0 → IsInt64 (quotient lhs rhs) → ¬ Undefined lhs rhs
unfolding quotient
quotient_fits lhs rhs ne h (inl z) = ne z
quotient_fits lhs rhs ne h (inr (l, r)) =
    subst (λ z. IsInt64 (quotient lhs z) → ⊥) (sym r)
      (subst (λ z. IsInt64 (quotient z (negsuc 0)) → ⊥) (sym l) (λ f. omega arith)) h

not-Undefined : (a b : ℤ) → ¬ Undefined a b → undefined_quotient a b ≡ false
not-Undefined a b d = elim (Bool-cases (undefined_quotient a b)) [
  | inl e ↦ absurd (d ((undefined_quotient_iff a b).0 e))
  | inr e ↦ e
]

pub divide_defined : (a b : ℤ) → ¬ Undefined a b → checked_divide_int64 a b ≡ some (quotient a b)
unfolding checked_divide_int64 quotient
divide_defined a b d = rw (not-Undefined a b d) refl

pub remainder_defined :
    (a b : ℤ) → ¬ Undefined a b → checked_remainder_int64 a b ≡ some (remainder a b)
unfolding checked_remainder_int64 remainder
remainder_defined a b d = rw (not-Undefined a b d) refl

pub remainder_undefined :
    (a b : ℤ) → undefined_quotient a b ≡ true → checked_remainder_int64 a b ≡ none
unfolding checked_remainder_int64
remainder_undefined a b e = rw e refl

pub shift_right_defined :
    (a b : ℤ) (k : ℕ) → b ≡ pos k → k < 64 → checked_shift_right_int64 a b ≡ some (shift_right a k)
unfolding checked_shift_right_int64
shift_right_defined a b k e lt =
    subst (λ z. checked_shift_right_int64 a z ≡ some (shift_right a k)) (sym e) (ground (arith, lt))

pub shift_left_defined :
    (a b : ℤ) (k : ℕ)
    → b ≡ pos k
    → k < 64
    → checked_shift_left_int64 a b ≡ some (of_bits (to_bits a * 2 ^ k % 2 ^ 64))
unfolding checked_shift_left_int64
shift_left_defined a b k e lt =
    subst (λ z. checked_shift_left_int64 a z ≡ some (of_bits (to_bits a * 2 ^ k % 2 ^ 64))) (sym e)
      (ground (arith, lt))

pub power_bound : (k : ℕ) → k < 64 → 2 ^ k < 2 ^ 64
power_bound k lt =
    let below : 2 ^ k ≤ 2 ^ 63 = pow-le-pow_right (omega arith) {j = 63} (omega arith) in
    omega arith
