-- ===== src/Tests/Consts.antt =====
-- Constants on concrete values.
use c_modern.Common.{arith, true, codes, none, some, ◌≡◌, refl}
use c_modern.Common.Int.{ℤ, pos, negsuc, ◌+ℤ◌, ◌-ℤ◌, ◌*ℤ◌, eqb_ℤ, ltb_ℤ, leb_ℤ}
use c_modern.Sema.Int64.{
  int64_min, int64_max, quotient, wrap_add_int64, checked_divide_int64, checked_remainder_int64,
}
use c_modern.Sema.Int64.Divide.{Division, checked_divide_int64-Division}
use c_modern.Sema.ConstValue.{
  DoubleOps, int64_to_string, text_of, render_const_value, make_integer, make_bool,
}
use c_modern.Sema.ConstEval.{evaluate_const_binary_op}
use c_modern.Sema.ConstEval.Integers.{Value, divided, evaluate_const_binary_op-Meaning}
use c_modern.Sema.ConstEval.Rendered.{evaluate_const_binary_op-render_const_value}

-- Whole numbers in the place of `double`.
abbrev whole : DoubleOps ℤ
whole = record {
  zero_value = pos 0;
  of_int64 = λ a. a;
  plus = ◌+ℤ◌;
  minus = ◌-ℤ◌;
  times = ◌*ℤ◌;
  divided = quotient;
  negated = λ a. pos 0 -ℤ a;
  equal = eqb_ℤ;
  less = ltb_ℤ;
  less_equal = leb_ℤ;
  print = int64_to_string;
}

checked_divide_int64-Division_example :
    Division
      (negsuc 6)
      (pos 2)
      (checked_divide_int64 (negsuc 6) (pos 2))
      (checked_remainder_int64 (negsuc 6) (pos 2))
checked_divide_int64-Division_example =
    checked_divide_int64-Division (negsuc 6) (pos 2) (omega arith) (omega arith)

evaluate_const_binary_op-Meaning_example : Value whole (codes "/") (negsuc 6) (pos 2) (negsuc 2) (
    evaluate_const_binary_op whole
      (codes "/")
      (make_integer whole (negsuc 6))
      (make_integer whole (pos 2)))
unfolding ◌+ℤ◌ ◌*ℤ◌
evaluate_const_binary_op-Meaning_example =
    evaluate_const_binary_op-Meaning whole (codes "/") (negsuc 6) (pos 2) (negsuc 2) (omega arith)
      (omega arith) (omega arith)
      (divided (negsuc 2) (negsuc 0) (record {
        exact = refl;
        small = omega arith;
        negative = λ e. refl;
        positive = λ e. omega arith;
      }))

least_modulo :
    evaluate_const_binary_op whole
      (codes "%")
      (make_integer whole int64_min)
      (make_integer whole (negsuc 0))
    ≡ none
unfolding evaluate_const_binary_op checked_remainder_int64
least_modulo = refl

less_runs :
    evaluate_const_binary_op whole
      (codes "<")
      (make_integer whole (pos 2))
      (make_integer whole (pos 5))
    ≡ some (make_bool whole true)
unfolding evaluate_const_binary_op
less_runs = refl

evaluate_const_binary_op-render_const_value_example :
    text_of (make_bool whole true) ≡ render_const_value whole (make_bool whole true)
evaluate_const_binary_op-render_const_value_example =
    evaluate_const_binary_op-render_const_value whole (codes "<") (make_integer whole (pos 2))
      (make_integer whole (pos 5)) (make_bool whole true) less_runs

wraps : wrap_add_int64 int64_max (pos 1) ≡ int64_min
unfolding wrap_add_int64
wraps = refl
