-- ===== src/Sema/ConstEval.antt =====
-- compiler/sema/const_eval.cpp: the evaluation of unary and binary operators on constants.
pub mod Integers
pub mod Rendered
use mathlib.Core.Option
use c_modern.Common.{
  ℕ, zero, suc, Bool, true, false, not, ◌&&◌, ◌||◌, List, [], ◌∷◌, ◌++◌, Option, none, some, Bytes,
  codes, text_eq, if◌then◌else◌, ◌==◌,
}
use c_modern.Common.Int.{ℤ, pos, negsuc, ltb_ℤ, leb_ℤ, eqb_ℤ}
use c_modern.Sema.SemaType.{SemaType, type_eq}
use c_modern.Sema.Int64.{
  wrap_add_int64, wrap_sub_int64, wrap_mul_int64, checked_negate_int64, checked_divide_int64,
  checked_remainder_int64, checked_shift_left_int64, checked_shift_right_int64, bitwise_and_int64,
  bitwise_or_int64, bitwise_xor_int64,
}
use c_modern.Sema.ConstValue.{
  DoubleOps, ConstKind, ConstValue, ConstValues, make_const, no_values, more_values, kind_of,
  integer_of, float_of, bool_of, make_bool, make_integer, make_float, plain_value,
}

-- `kConstIntegerBinaryOps` and `FindConstIntegerBinaryOp`.
unfoldable pub find_const_integer_binary_op : Bytes → Option (ℤ → ℤ → Option ℤ)
unfolding text_eq
find_const_integer_binary_op op =
    if text_eq op (codes "+")
    then some (λ lhs rhs. some (wrap_add_int64 lhs rhs))
    else if text_eq op (codes "-")
    then some (λ lhs rhs. some (wrap_sub_int64 lhs rhs))
    else if text_eq op (codes "*")
    then some (λ lhs rhs. some (wrap_mul_int64 lhs rhs))
    else if text_eq op (codes "/")
    then some checked_divide_int64
    else if text_eq op (codes "%")
    then some checked_remainder_int64
    else if text_eq op (codes "<<")
    then some checked_shift_left_int64
    else if text_eq op (codes ">>")
    then some checked_shift_right_int64
    else if text_eq op (codes "&")
    then some bitwise_and_int64
    else if text_eq op (codes "|")
    then some bitwise_or_int64
    else if text_eq op (codes "^")
    then some bitwise_xor_int64
    else none

-- `IsConstComparisonOp`
unfoldable pub is_const_comparison_op : Bytes → Bool
unfolding text_eq
is_const_comparison_op op =
    text_eq op (codes "==")
    || text_eq op (codes "!=")
    || text_eq op (codes "<")
    || text_eq op (codes ">")
    || text_eq op (codes "<=")
    || text_eq op (codes ">=")

-- `EvaluateOrderedComparison`, over the three comparisons that its operators stand for.
unfoldable pub evaluate_ordered_comparison {ℓ} :
    {A : Type ℓ} → (A → A → Bool) → (A → A → Bool) → (A → A → Bool) → Bytes → A → A → Bool
unfolding text_eq
evaluate_ordered_comparison equal less less_equal op lhs rhs =
    if text_eq op (codes "==")
    then equal lhs rhs
    else if text_eq op (codes "!=")
    then not (equal lhs rhs)
    else if text_eq op (codes "<")
    then less lhs rhs
    else if text_eq op (codes ">")
    then less rhs lhs
    else if text_eq op (codes "<=")
    then less_equal lhs rhs
    else less_equal rhs lhs

unfoldable pub names_eq : List Bytes → List Bytes → Bool
unfolding text_eq
names_eq [] [] = true
names_eq (name ∷ names) (name' ∷ names') = text_eq name name' && names_eq names names'
names_eq _ _ = false

abbrev pub is_float : ConstKind → Bool
is_float ConstKind.k_float = true
is_float _ = false

abbrev pub is_enum : ConstKind → Bool
is_enum ConstKind.k_enum = true
is_enum _ = false

abbrev pub is_integer : ConstKind → Bool
is_integer ConstKind.k_integer = true
is_integer _ = false

abbrev pub is_bool : ConstKind → Bool
is_bool ConstKind.k_bool = true
is_bool _ = false

module _ {F : Type 0} (double : DoubleOps F) where
  -- `ConstValuesEqual`, and its loops over the elements behind the test of their number.
  unfoldable mutual
    unfolding text_eq names_eq type_eq

    pub const_values_equal : ConstValue F → ConstValue F → Bool
    const_values_equal
          (make_const ConstKind.k_bool i f b text procedure enum variant tag names elements)
          (make_const ConstKind.k_bool i' f' b' text' procedure' enum' variant' tag' names'
            elements') =
        if b then b' else not b'
    const_values_equal
          (make_const ConstKind.k_integer i f b text procedure enum variant tag names elements)
          (make_const ConstKind.k_integer i' f' b' text' procedure' enum' variant' tag' names'
            elements') =
        eqb_ℤ i i'
    const_values_equal
          (make_const ConstKind.k_float i f b text procedure enum variant tag names elements)
          (make_const ConstKind.k_float i' f' b' text' procedure' enum' variant' tag' names'
            elements') =
        double.equal f f'
    const_values_equal
          (make_const ConstKind.k_string i f b text procedure enum variant tag names elements)
          (make_const ConstKind.k_string i' f' b' text' procedure' enum' variant' tag' names'
            elements') =
        text_eq text text'
    const_values_equal
          (make_const ConstKind.k_nil i f b text procedure enum variant tag names elements)
          (make_const ConstKind.k_nil i' f' b' text' procedure' enum' variant' tag' names'
            elements') =
        true
    const_values_equal
          (make_const ConstKind.k_procedure i f b text procedure enum variant tag names elements)
          (make_const ConstKind.k_procedure i' f' b' text' procedure' enum' variant' tag' names'
            elements') =
        text_eq procedure procedure'
    const_values_equal
          (make_const ConstKind.k_enum i f b text procedure enum variant tag names elements)
          (make_const ConstKind.k_enum i' f' b' text' procedure' enum' variant' tag' names'
            elements') =
        type_eq enum enum'
        && (text_eq variant variant'
            && (eqb_ℤ tag tag' && (names_eq names names' && all_values_equal elements elements')))
    const_values_equal
          (make_const ConstKind.k_aggregate i f b text procedure enum variant tag names elements)
          (make_const ConstKind.k_aggregate i' f' b' text' procedure' enum' variant' tag' names'
            elements') =
        names_eq names names' && all_values_equal elements elements'
    const_values_equal _ _ = false

    pub all_values_equal : ConstValues F → ConstValues F → Bool
    all_values_equal no_values no_values = true
    all_values_equal (more_values value values) (more_values value' values') =
        const_values_equal value value' && all_values_equal values values'
    all_values_equal _ _ = false

  -- The value of an operand that may be an integer beside a float.
  abbrev pub as_float : ConstValue F → F
  as_float value =
      if is_float (kind_of value) then float_of value else double.of_int64 (integer_of value)

  -- `EvaluateConstComparison`
  unfoldable pub evaluate_const_comparison :
      Bytes → ConstValue F → ConstValue F → Option (ConstValue F)
  unfolding is_const_comparison_op text_eq const_values_equal make_bool evaluate_ordered_comparison
  evaluate_const_comparison op left right =
      if not (is_const_comparison_op op)
      then none
      else if is_enum (kind_of left) || is_enum (kind_of right)
      then (if not (is_enum (kind_of left))
            || not (is_enum (kind_of right))
            || (not (text_eq op (codes "==")) && not (text_eq op (codes "!=")))
          then none
          else some (
              make_bool double (
                if text_eq op (codes "==")
                then const_values_equal left right
                else not (const_values_equal left right))))
      else if is_float (kind_of left) || is_float (kind_of right)
      then some (
          make_bool double (
            evaluate_ordered_comparison double.equal double.less double.less_equal op
              (as_float left) (as_float right)))
      else if not (is_integer (kind_of left)) || not (is_integer (kind_of right))
      then none
      else some (
          make_bool double
            (evaluate_ordered_comparison eqb_ℤ ltb_ℤ leb_ℤ op (integer_of left) (integer_of right)))

  -- `EvaluateConstLogicalBinary`
  unfoldable pub evaluate_const_logical_binary :
      Bytes → ConstValue F → ConstValue F → Option (ConstValue F)
  unfolding text_eq make_bool
  evaluate_const_logical_binary op left right =
      if (not (text_eq op (codes "&&")) && not (text_eq op (codes "||")))
        || not (is_bool (kind_of left))
        || not (is_bool (kind_of right))
      then none
      else some (
          make_bool double (
            if text_eq op (codes "&&")
            then bool_of left && bool_of right
            else bool_of left || bool_of right))

  -- `EvaluateConstFloatBinary`
  unfoldable pub evaluate_const_float_binary : Bytes → F → F → Option (ConstValue F)
  unfolding text_eq make_float
  evaluate_const_float_binary op lhs rhs =
      if text_eq op (codes "/") && double.equal rhs double.zero_value
      then none
      else if text_eq op (codes "+")
      then some (make_float double (double.plus lhs rhs))
      else if text_eq op (codes "-")
      then some (make_float double (double.minus lhs rhs))
      else if text_eq op (codes "*")
      then some (make_float double (double.times lhs rhs))
      else if text_eq op (codes "/")
      then some (make_float double (double.divided lhs rhs))
      else none

  -- `EvaluateConstUnaryOp`
  unfoldable pub evaluate_const_unary_op : Bytes → ConstValue F → Option (ConstValue F)
  unfolding text_eq checked_negate_int64 make_integer make_float make_bool
  evaluate_const_unary_op op value =
      if text_eq op (codes "+")
      then (if is_integer (kind_of value) || is_float (kind_of value) then some value else none)
      else if text_eq op (codes "-")
      then (if is_integer (kind_of value)
          then Option.map (make_integer double) (checked_negate_int64 (integer_of value))
          else if is_float (kind_of value)
          then some (make_float double (double.negated (float_of value)))
          else none)
      else if text_eq op (codes "!")
      then (if is_bool (kind_of value) then some (make_bool double (not (bool_of value))) else none)
      else none

  -- The last part of `EvaluateConstBinaryOp`, for two integers.
  unfoldable pub evaluate_const_integer_binary : Bytes → ℤ → ℤ → Option (ConstValue F)
  unfolding find_const_integer_binary_op make_integer
  evaluate_const_integer_binary op lhs rhs = elim (find_const_integer_binary_op op) [
    | none ↦ none
    | some evaluate ↦ Option.map (make_integer double) (evaluate lhs rhs)
  ]

  -- `EvaluateConstBinaryOp`
  unfoldable pub evaluate_const_binary_op :
      Bytes → ConstValue F → ConstValue F → Option (ConstValue F)
  unfolding evaluate_const_logical_binary evaluate_const_comparison evaluate_const_float_binary
      evaluate_const_integer_binary
  evaluate_const_binary_op op left right = elim (evaluate_const_logical_binary op left right) [
    | some logical ↦ some logical
    | none ↦ elim (evaluate_const_comparison op left right) [
      | some comparison ↦ some comparison
      | none ↦
          if is_float (kind_of left) || is_float (kind_of right)
          then evaluate_const_float_binary op (as_float left) (as_float right)
          else if not (is_integer (kind_of left)) || not (is_integer (kind_of right))
          then none
          else evaluate_const_integer_binary op (integer_of left) (integer_of right)
    ]
  ]

-- `ParseLiteralConstValue`, of the text of a literal and the values that the lexer gave it.
module _ {F : Type 0} (double : DoubleOps F) where
  abbrev starts_string : Bytes → Bool
  starts_string [] = false
  starts_string (ch ∷ text) = ch == b'"'

  unfoldable pub parse_literal_const_value : Bytes → Option F → Option ℤ → Option (ConstValue F)
  unfolding text_eq make_bool make_float make_integer
  parse_literal_const_value text float_literal_value integer_literal_value =
      if text_eq text (codes "true")
      then some (make_bool double true)
      else if text_eq text (codes "false")
      then some (make_bool double false)
      else if text_eq text (codes "nil")
      then some
          (plain_value double ConstKind.k_nil (pos 0) double.zero_value false (codes "nil") [])
      else if starts_string text
      then some (plain_value double ConstKind.k_string (pos 0) double.zero_value false text [])
      else elim float_literal_value [
        | some value ↦ some (make_float double value)
        | none ↦ Option.map (make_integer double) integer_literal_value
      ]

-- `ParseGlobalConstValue`, of the names and the values of a global.
unfoldable pub parse_global_const_value {ℓ} :
    {A : Type ℓ} → List Bytes → List (Option A) → Bytes → Option A
unfolding text_eq
parse_global_const_value (global ∷ names) (value ∷ values) name =
    let rest = parse_global_const_value names values name in
    if text_eq global name then value else rest
parse_global_const_value _ _ name = none
