-- ===== src/Sema/ConstEval/Integers.antt =====
-- The evaluation of integer operators against arithmetic on unbounded integers.
use mathlib.Core.Option
use c_modern.Common.{
  ℕ, ◌^◌, ◌<◌, Bytes, codes, Option, none, some, ◌≡◌, refl, sym, ap, ◌∙◌, inl, inr, Bool-cases,
  subst,
}
use c_modern.Common.Int.{ℤ, pos, negsuc, ◌+ℤ◌, ◌-ℤ◌, ◌*ℤ◌}
use c_modern.Sema.Int64.{
  int64_min, IsInt64, wrap_add_int64, wrap_sub_int64, wrap_mul_int64, checked_divide_int64,
  checked_remainder_int64, checked_shift_left_int64, checked_shift_right_int64, undefined_quotient,
}
use c_modern.Sema.Int64.Wrap.{
  wrap_add_int64-exact, wrap_sub_int64-exact, wrap_mul_int64-exact, of_bits-exact,
}
use c_modern.Sema.Int64.Divide.{Undefined, undefined_quotient_iff, IsDivision}
use c_modern.Sema.Int64.Defined.{
  zero_divisor, quotient_fits, divide_defined, remainder_defined, remainder_undefined,
  shift_right_defined, shift_left_defined, power_bound,
}
use c_modern.Sema.Int64.Unique.{IsDivision-unique, shift_right_unique}
use c_modern.Sema.ConstValue.{DoubleOps, ConstValue, make_integer}
use c_modern.Sema.ConstEval.{evaluate_const_binary_op}

-- What an operator means on unbounded integers, where it means anything: the quotient and the
-- remainder of the division that rounds towards zero, and for shifts the product with a power of two
-- and the quotient by one that leaves a remainder which is not negative.
pub data Meaning (lhs rhs : ℤ) : Bytes → ℤ → Type 0 where
  plus : Meaning lhs rhs (codes "+") (lhs +ℤ rhs)
  minus : Meaning lhs rhs (codes "-") (lhs -ℤ rhs)
  times : Meaning lhs rhs (codes "*") (lhs *ℤ rhs)
  divided : (q m : ℤ) → IsDivision lhs rhs q m → Meaning lhs rhs (codes "/") q
  modulo : (q m : ℤ) → IsDivision lhs rhs q m → Meaning lhs rhs (codes "%") m
  shifted_left : (k : ℕ) → rhs ≡ pos k → k < 64 → Meaning lhs rhs (codes "<<") (lhs *ℤ pos (2 ^ k))
  shifted_right :
      (z : ℤ) (k r : ℕ)
      → rhs ≡ pos k
      → k < 64
      → z *ℤ pos (2 ^ k) +ℤ pos r ≡ lhs
      → r < 2 ^ k
      → Meaning lhs rhs (codes ">>") z

-- The one operation that the evaluation refuses though its value, 0, is an int64.
abbrev pub IsRefused : Bytes → ℤ → ℤ → Type 0
IsRefused op lhs rhs = (op ≡ codes "%") × (lhs ≡ int64_min) × (rhs ≡ negsuc 0)

module _ {F : Type 0} (double : DoubleOps F) where
  -- What is returned where the operator means `z`.
  pub data Value (op : Bytes) (lhs rhs z : ℤ) : Option (ConstValue F) → Type 0 where
    refused : IsRefused op lhs rhs → Value op lhs rhs z none
    valued : ¬ IsRefused op lhs rhs → Value op lhs rhs z (some (make_integer double z))

  at_integers : Bytes → ℤ → ℤ → Option (ConstValue F)
  at_integers op lhs rhs =
      evaluate_const_binary_op double op (make_integer double lhs) (make_integer double rhs)

  -- The operators that the table has.
  plus_runs :
      (a b : ℤ)
      → at_integers (codes "+") a b ≡ Option.map (make_integer double) (some (wrap_add_int64 a b))
  unfolding at_integers evaluate_const_binary_op
  plus_runs a b = refl

  minus_runs :
      (a b : ℤ)
      → at_integers (codes "-") a b ≡ Option.map (make_integer double) (some (wrap_sub_int64 a b))
  unfolding at_integers evaluate_const_binary_op
  minus_runs a b = refl

  times_runs :
      (a b : ℤ)
      → at_integers (codes "*") a b ≡ Option.map (make_integer double) (some (wrap_mul_int64 a b))
  unfolding at_integers evaluate_const_binary_op
  times_runs a b = refl

  divided_runs :
      (a b : ℤ)
      → at_integers (codes "/") a b ≡ Option.map (make_integer double) (checked_divide_int64 a b)
  unfolding at_integers evaluate_const_binary_op
  divided_runs a b = refl

  modulo_runs :
      (a b : ℤ)
      → at_integers (codes "%") a b ≡ Option.map (make_integer double) (checked_remainder_int64 a b)
  unfolding at_integers evaluate_const_binary_op
  modulo_runs a b = refl

  left_runs :
      (a b : ℤ)
      → at_integers (codes "<<") a b
        ≡ Option.map (make_integer double) (checked_shift_left_int64 a b)
  unfolding at_integers evaluate_const_binary_op
  left_runs a b = refl

  right_runs :
      (a b : ℤ)
      → at_integers (codes ">>") a b
        ≡ Option.map (make_integer double) (checked_shift_right_int64 a b)
  unfolding at_integers evaluate_const_binary_op
  right_runs a b = refl

  -- A value that the operation in the table returns.
  returns :
      {op : Bytes} {lhs rhs z : ℤ} {result : Option ℤ}
      → at_integers op lhs rhs ≡ Option.map (make_integer double) result
      → result ≡ some z
      → ¬ IsRefused op lhs rhs
      → Value op lhs rhs z (at_integers op lhs rhs)
  returns {op} {lhs} {rhs} {z} runs e other =
      subst (Value op lhs rhs z) (sym (runs ∙ ap (Option.map (make_integer double)) e))
        (valued other)

  module _ (lhs rhs : ℤ) (hl : IsInt64 lhs) where
    divided-Value :
        (q m : ℤ)
        → IsInt64 q
        → IsDivision lhs rhs q m
        → Value (codes "/") lhs rhs q (at_integers (codes "/") lhs rhs)
    divided-Value q m hz d =
        let (same, _) = IsDivision-unique lhs rhs q m d in
        let fits = quotient_fits lhs rhs (zero_divisor lhs rhs q m d) (subst IsInt64 same hz) in
        returns (divided_runs lhs rhs) (divide_defined lhs rhs fits ∙ ap some (sym same))
          (λ (e, _, _). absurd cc)

    modulo-Value :
        (q m : ℤ)
        → IsDivision lhs rhs q m
        → Value (codes "%") lhs rhs m (at_integers (codes "%") lhs rhs)
    modulo-Value q m d = elim (Bool-cases (undefined_quotient lhs rhs)) [
      | inl e ↦ elim ((undefined_quotient_iff lhs rhs).0 e) [
        | inl z ↦ absurd (zero_divisor lhs rhs q m d z)
        | inr (l, r) ↦
            subst (Value (codes "%") lhs rhs m)
              (sym (
                modulo_runs lhs rhs
                ∙ ap (Option.map (make_integer double)) (remainder_undefined lhs rhs e)))
              (refused (refl, l, r))
      ]
      | inr e ↦
          let other : ¬ Undefined lhs rhs =
            λ u. let back = (undefined_quotient_iff lhs rhs).1 u in cc in
          let (_, same) = IsDivision-unique lhs rhs q m d in
          returns (modulo_runs lhs rhs) (remainder_defined lhs rhs other ∙ ap some (sym same))
            (λ (_, l, r). other (inr (l, r)))
    ]

    shifted_left-Value :
        (k : ℕ)
        → rhs ≡ pos k
        → k < 64
        → IsInt64 (lhs *ℤ pos (2 ^ k))
        → Value (codes "<<") lhs rhs (lhs *ℤ pos (2 ^ k)) (at_integers (codes "<<") lhs rhs)
    shifted_left-Value k e lt hz =
        returns (left_runs lhs rhs)
          (shift_left_defined lhs rhs k e lt
            ∙ ap some (of_bits-exact lhs (2 ^ k) hl (power_bound k lt) hz))
          (λ (e, _, _). absurd cc)

    shifted_right-Value :
        (z : ℤ) (k r : ℕ)
        → rhs ≡ pos k
        → k < 64
        → z *ℤ pos (2 ^ k) +ℤ pos r ≡ lhs
        → r < 2 ^ k
        → Value (codes ">>") lhs rhs z (at_integers (codes ">>") lhs rhs)
    shifted_right-Value z k r e lt exact small =
        returns (right_runs lhs rhs)
          (shift_right_defined lhs rhs k e lt
            ∙ ap some (sym (shift_right_unique lhs z k r exact small)))
          (λ (e, _, _). absurd cc)

    plus-Value :
        IsInt64 rhs
        → IsInt64 (lhs +ℤ rhs)
        → Value (codes "+") lhs rhs (lhs +ℤ rhs) (at_integers (codes "+") lhs rhs)
    plus-Value hr hz =
        returns (plus_runs lhs rhs) (ap some (wrap_add_int64-exact lhs rhs hl hr hz))
          (λ (e, _, _). absurd cc)

    minus-Value :
        IsInt64 rhs
        → IsInt64 (lhs -ℤ rhs)
        → Value (codes "-") lhs rhs (lhs -ℤ rhs) (at_integers (codes "-") lhs rhs)
    minus-Value hr hz =
        returns (minus_runs lhs rhs) (ap some (wrap_sub_int64-exact lhs rhs hl hr hz))
          (λ (e, _, _). absurd cc)

    times-Value :
        IsInt64 rhs
        → IsInt64 (lhs *ℤ rhs)
        → Value (codes "*") lhs rhs (lhs *ℤ rhs) (at_integers (codes "*") lhs rhs)
    times-Value hr hz =
        returns (times_runs lhs rhs) (ap some (wrap_mul_int64-exact lhs rhs hl hr hz))
          (λ (e, _, _). absurd cc)

  at_integers-Meaning :
      (op : Bytes) (lhs rhs z : ℤ)
      → IsInt64 lhs
      → IsInt64 rhs
      → IsInt64 z
      → Meaning lhs rhs op z
      → Value op lhs rhs z (at_integers op lhs rhs)
  at_integers-Meaning _ lhs rhs _ hl hr hz plus = plus-Value lhs rhs hl hr hz
  at_integers-Meaning _ lhs rhs _ hl hr hz minus = minus-Value lhs rhs hl hr hz
  at_integers-Meaning _ lhs rhs _ hl hr hz times = times-Value lhs rhs hl hr hz
  at_integers-Meaning _ lhs rhs _ hl hr hz (divided q m d) = divided-Value lhs rhs hl q m hz d
  at_integers-Meaning _ lhs rhs _ hl hr hz (modulo q m d) = modulo-Value lhs rhs hl q m d
  at_integers-Meaning _ lhs rhs _ hl hr hz (shifted_left k e lt) =
      shifted_left-Value lhs rhs hl k e lt hz
  at_integers-Meaning _ lhs rhs _ hl hr hz (shifted_right z k r e lt exact small) =
      shifted_right-Value lhs rhs hl z k r e lt exact small

  -- `EvaluateConstBinaryOp` gives two int64s the value that the operator means over unbounded
  -- integers, for each of + - * / % << >> where it means one that is an int64, with one exception: it
  -- refuses the remainder of the least int64 by -1.
  pub evaluate_const_binary_op-Meaning :
      (op : Bytes) (lhs rhs z : ℤ)
      → IsInt64 lhs
      → IsInt64 rhs
      → IsInt64 z
      → Meaning lhs rhs op z
      → Value op lhs rhs z
          (evaluate_const_binary_op double op (make_integer double lhs) (make_integer double rhs))
  unfolding at_integers
  evaluate_const_binary_op-Meaning op lhs rhs z hl hr hz m =
      at_integers-Meaning op lhs rhs z hl hr hz m
