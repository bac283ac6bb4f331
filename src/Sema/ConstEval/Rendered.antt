-- ===== src/Sema/ConstEval/Rendered.antt =====
-- Every value that an operator gives carries its own text.
use mathlib.Core.Option
use c_modern.Common.{
  Bool, not, Bytes, codes, text_eq, Option, none, some, ◌≡◌, refl, if_rule, Option-cases, inl, inr,
  if◌then◌else◌, ◌&&◌, ◌||◌,
}
use c_modern.Common.Int.{ℤ, eqb_ℤ, ltb_ℤ, leb_ℤ}
use c_modern.Sema.ConstValue.{
  DoubleOps, ConstValue, kind_of, integer_of, bool_of, text_of, render_const_value, make_integer,
  make_bool, make_float,
}
use c_modern.Sema.ConstEval.{
  evaluate_const_binary_op, evaluate_const_logical_binary, evaluate_const_comparison,
  evaluate_const_float_binary, evaluate_const_integer_binary, find_const_integer_binary_op,
  is_const_comparison_op, is_enum, is_float, is_integer, is_bool, as_float, const_values_equal,
  evaluate_ordered_comparison,
}

module _ {F : Type 0} (double : DoubleOps F) where
  -- The text of a result is the one that its other fields have.
  pub data IsRendered : Option (ConstValue F) → Type 0 where
    nothing : IsRendered none
    rendered :
        (value : ConstValue F)
        → text_of value ≡ render_const_value double value
        → IsRendered (some value)

  bool-IsRendered : (b : Bool) → IsRendered (some (make_bool double b))
  unfolding make_bool render_const_value
  bool-IsRendered b = rendered (make_bool double b) refl

  float-IsRendered : (x : F) → IsRendered (some (make_float double x))
  unfolding make_float render_const_value
  float-IsRendered x = rendered (make_float double x) refl

  integer-IsRendered : (z : Option ℤ) → IsRendered (Option.map (make_integer double) z)
  unfolding make_integer render_const_value
  integer-IsRendered none = nothing
  integer-IsRendered (some z) = rendered (make_integer double z) refl

  logical-IsRendered :
      (op : Bytes) (left right : ConstValue F)
      → IsRendered (evaluate_const_logical_binary double op left right)
  unfolding evaluate_const_logical_binary
  logical-IsRendered op left right =
      if_rule IsRendered
        ((not (text_eq op (codes "&&")) && not (text_eq op (codes "||")))
          || not (is_bool (kind_of left))
          || not (is_bool (kind_of right)))
        nothing
        (bool-IsRendered (
          if text_eq op (codes "&&")
          then bool_of left && bool_of right
          else bool_of left || bool_of right))

  comparison-IsRendered :
      (op : Bytes) (left right : ConstValue F)
      → IsRendered (evaluate_const_comparison double op left right)
  unfolding evaluate_const_comparison
  comparison-IsRendered op left right =
      if_rule IsRendered (not (is_const_comparison_op op)) nothing (
        if_rule IsRendered (is_enum (kind_of left) || is_enum (kind_of right))
          (if_rule IsRendered
            (not (is_enum (kind_of left))
              || not (is_enum (kind_of right))
              || (not (text_eq op (codes "==")) && not (text_eq op (codes "!="))))
            nothing
            (bool-IsRendered (
              if text_eq op (codes "==")
              then const_values_equal double left right
              else not (const_values_equal double left right))))
          (if_rule IsRendered (is_float (kind_of left) || is_float (kind_of right))
            (bool-IsRendered (
              evaluate_ordered_comparison double.equal double.less double.less_equal op
                (as_float double left) (as_float double right)))
            (if_rule IsRendered
              (not (is_integer (kind_of left)) || not (is_integer (kind_of right))) nothing
              (bool-IsRendered (
                evaluate_ordered_comparison eqb_ℤ ltb_ℤ leb_ℤ op (integer_of left)
                  (integer_of right))))))

  float_binary-IsRendered :
      (op : Bytes) (lhs rhs : F) → IsRendered (evaluate_const_float_binary double op lhs rhs)
  unfolding evaluate_const_float_binary
  float_binary-IsRendered op lhs rhs =
      if_rule IsRendered (text_eq op (codes "/") && double.equal rhs double.zero_value) nothing (
        if_rule IsRendered (text_eq op (codes "+")) (float-IsRendered (double.plus lhs rhs)) (
          if_rule IsRendered (text_eq op (codes "-")) (float-IsRendered (double.minus lhs rhs)) (
            if_rule IsRendered (text_eq op (codes "*")) (float-IsRendered (double.times lhs rhs)) (
              if_rule IsRendered (text_eq op (codes "/"))
                (float-IsRendered (double.divided lhs rhs)) nothing))))

  integer_binary-IsRendered :
      (op : Bytes) (lhs rhs : ℤ) → IsRendered (evaluate_const_integer_binary double op lhs rhs)
  unfolding evaluate_const_integer_binary
  integer_binary-IsRendered op lhs rhs = elim (Option-cases (find_const_integer_binary_op op)) [
    | inl e ↦ rw (e, evaluate_const_integer_binary) nothing
    | inr (evaluate, e) ↦
        rw (e, evaluate_const_integer_binary) (integer-IsRendered (evaluate lhs rhs))
  ]

  binary-IsRendered :
      (op : Bytes) (left right : ConstValue F)
      → IsRendered (evaluate_const_binary_op double op left right)
  unfolding evaluate_const_binary_op
  binary-IsRendered op left right =
      elim (Option-cases (evaluate_const_logical_binary double op left right)) [
        | inr (v, e) ↦ rw (e, evaluate_const_binary_op) (rw e at (logical-IsRendered op left right))
        | inl e ↦
            rw (e, evaluate_const_binary_op)
              (elim (Option-cases (evaluate_const_comparison double op left right)) [
                | inr (v, e') ↦ rw e' (rw e' at (comparison-IsRendered op left right))
                | inl e' ↦ rw e' (
                    if_rule IsRendered (is_float (kind_of left) || is_float (kind_of right))
                      (float_binary-IsRendered op (as_float double left) (as_float double right))
                      (if_rule IsRendered
                        (not (is_integer (kind_of left)) || not (is_integer (kind_of right)))
                        nothing
                        (integer_binary-IsRendered op (integer_of left) (integer_of right))))
              ])
      ]

  text_of_rendered :
      {r : Option (ConstValue F)}
      → IsRendered r
      → (value : ConstValue F) → r ≡ some value
      → text_of value ≡ render_const_value double value
  text_of_rendered nothing value e = cc
  text_of_rendered (rendered v h) value e = let same : v ≡ value = cc in cc

  -- The value that `EvaluateConstBinaryOp` gives for any two values and any operator carries the text
  -- that `RenderConstValue` gives for it.
  pub evaluate_const_binary_op-render_const_value :
      (op : Bytes) (left right value : ConstValue F)
      → evaluate_const_binary_op double op left right ≡ some value
      → text_of value ≡ render_const_value double value
  evaluate_const_binary_op-render_const_value op left right value e =
      text_of_rendered (binary-IsRendered op left right) value e
