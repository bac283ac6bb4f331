-- ===== src/Sema/Conversion.antt =====
-- compiler/sema/type_utils.cpp: the explicit conversions, and the predicates on types that open aliases.
use mathlib.Core.Option
use c_modern.Common.{
  ℕ, ◌-◌, Bool, true, false, ◌&&◌, ◌||◌, List, [], ◌∷◌, Option, none, some, Bytes, codes, text_eq,
  length, drop, leb, if◌then◌else◌, ◌==◌,
}
use c_modern.Sema.TypeKind.{TypeKind, kind_eq}
use c_modern.Sema.SemaType.{
  SemaType, SemaTypes, make_type, nil, cons, bool_type, string_type, canonicalize_builtin_type,
}
use c_modern.Sema.Layout.{TypeDeclSummary}
use c_modern.Sema.Strip.{TypeStripMode}
use c_modern.Sema.Assignable.{
  type_name, type_subtypes, has_kind, first_subtype, is_integer_type_name, is_float_type_name,
  is_integer_type, is_numeric_type, is_uint_ptr_convertible_type, is_uint_ptr_type, stripped,
  canonical_of, is_assignable,
}

-- `InferSliceElementType`
unfoldable pub infer_slice_element_type : SemaType → Option SemaType
unfolding kind_eq text_eq
infer_slice_element_type type =
    if has_kind TypeKind.k_array type
      || (has_kind TypeKind.k_named type
          && (text_eq (type_name type) (codes "Slice")
              || text_eq (type_name type) (codes "Buffer")))
    then first_subtype (type_subtypes type)
    else none

-- `HasSuffix`
unfoldable pub has_suffix : Bytes → Bytes → Bool
unfolding text_eq
has_suffix text suffix =
    leb (length suffix) (length text) && text_eq (drop (length text - length suffix) text) suffix

-- `IsBuiltinNamedType`
unfoldable pub is_builtin_named_type : Bytes → Bool
unfolding text_eq is_integer_type_name is_float_type_name
is_builtin_named_type name =
    is_integer_type_name name
    || is_float_type_name name
    || text_eq name (codes "bool")
    || text_eq name (codes "string")
    || text_eq name (codes "str")
    || text_eq name (codes "cstr")
    || text_eq name (codes "void")
    || text_eq name (codes "Slice")
    || text_eq name (codes "Buffer")
    || text_eq name (codes "Result")

-- `IsIntegerLikeType` and `IsBoolType` of type_predicates.h.
unfoldable pub is_integer_like_type : SemaType → Bool
unfolding kind_eq is_integer_type
is_integer_like_type type = has_kind TypeKind.k_int_literal type || is_integer_type type

unfoldable pub is_bool_type : SemaType → Bool
unfolding kind_eq text_eq
is_bool_type type =
    has_kind TypeKind.k_bool type
    || (has_kind TypeKind.k_named type && text_eq (type_name type) (codes "bool"))

-- A slice that names no element type, and one that does.
abbrev pub is_slice : SemaType → Bool
unfolding kind_eq text_eq
is_slice type = has_kind TypeKind.k_named type && text_eq (type_name type) (codes "Slice")

abbrev pub no_subtypes : SemaTypes → Bool
no_subtypes nil = true
no_subtypes (cons type types) = false

-- `target.subtypes.push_back(element_type)` where there are no subtypes.
abbrev pub with_element : SemaType → SemaType → SemaType
with_element (make_type kind name metadata subtypes) element =
    make_type kind name metadata (cons element nil)

-- `InferLiteralType`, of the two texts of a literal.
abbrev pub starts_with : ℕ → Bytes → Bool
starts_with ch [] = false
starts_with ch (first ∷ text) = first == ch

unfoldable pub has_float_sign : Bytes → Bool
has_float_sign [] = false
has_float_sign (ch ∷ text) = ch == b'.' || ch == b'e' || ch == b'E' || has_float_sign text

unfoldable pub infer_literal_type : Bytes → Bytes → SemaType
unfolding text_eq has_float_sign
infer_literal_type text secondary_text =
    if text_eq text (codes "true") || text_eq text (codes "false")
    then bool_type
    else if text_eq text (codes "nil")
    then make_type TypeKind.k_nil [] [] nil
    else if starts_with b'"' text
    then string_type
    else if text_eq secondary_text (codes "char_lit") || starts_with b'\'' text
    then make_type TypeKind.k_int_literal [] [] nil
    else if has_float_sign text
    then make_type TypeKind.k_float_literal [] [] nil
    else make_type TypeKind.k_int_literal [] [] nil

module _ (decls : List TypeDeclSummary) where
  -- `IsNumericType`, `IsUintPtrConvertibleType` and `IsUintPtrType` of a type in a module.
  unfoldable pub is_numeric_type_in : SemaType → Bool
  unfolding canonical_of is_numeric_type
  is_numeric_type_in type = is_numeric_type (canonical_of decls type)

  unfoldable pub is_uint_ptr_convertible_type_in : SemaType → Bool
  unfolding stripped is_uint_ptr_convertible_type
  is_uint_ptr_convertible_type_in type =
      is_uint_ptr_convertible_type (stripped decls TypeStripMode.k_aliases_only type)

  unfoldable pub is_uint_ptr_type_in : SemaType → Bool
  unfolding stripped is_uint_ptr_type
  is_uint_ptr_type_in type = is_uint_ptr_type (stripped decls TypeStripMode.k_aliases_only type)

  -- `IsIntegerLikeType` and `IsBoolType` of a type in a module.
  unfoldable pub is_integer_like_type_in : SemaType → Bool
  unfolding canonical_of is_integer_like_type
  is_integer_like_type_in type = is_integer_like_type (canonical_of decls type)

  unfoldable pub is_bool_type_in : SemaType → Bool
  unfolding canonical_of is_bool_type
  is_bool_type_in type = is_bool_type (canonical_of decls type)

  -- `IsErrorType`
  unfoldable pub is_error_type : SemaType → Bool
  unfolding stripped canonicalize_builtin_type kind_eq text_eq has_suffix
  is_error_type type =
      let opened =
        canonicalize_builtin_type (stripped decls TypeStripMode.k_aliases_and_distinct type) in
      has_kind TypeKind.k_named opened
      && (text_eq (type_name opened) (codes "Error")
          || has_suffix (type_name opened) (codes ".Error"))

  -- `IsValidDistinctBaseType`
  unfoldable pub is_valid_distinct_base_type : SemaType → Bool
  unfolding canonical_of kind_eq is_integer_type_name is_float_type_name
  is_valid_distinct_base_type type =
      let opened = canonical_of decls type in
      (has_kind TypeKind.k_bool opened || has_kind TypeKind.k_pointer opened)
      || (has_kind TypeKind.k_named opened
          && (is_integer_type_name (type_name opened) || is_float_type_name (type_name opened)))

  -- A slice without an element type takes the one of the actual type; none where there is none to take.
  abbrev pub infer_slice : SemaType → SemaType → Option SemaType
  infer_slice target actual =
      if is_slice target && no_subtypes (type_subtypes target)
      then Option.map (with_element target) (infer_slice_element_type actual)
      else none

  abbrev pub first_of : Option SemaType → Option SemaType → SemaType → SemaType
  first_of (some type) second target = type
  first_of none (some type) target = type
  first_of none none target = target

  -- `InferExplicitConversionTarget`
  unfoldable pub infer_explicit_conversion_target : SemaType → SemaType → SemaType
  unfolding infer_slice_element_type stripped
  infer_explicit_conversion_target target actual =
      first_of (infer_slice target actual)
        (infer_slice (stripped decls TypeStripMode.k_aliases_and_distinct target) actual) target

  -- The element types of two slices; `none` where the test of the source does not return.
  abbrev pub slice_assignable : SemaType → SemaType → Option Bool
  slice_assignable expected actual =
      if is_slice expected
      then elements_assignable (first_subtype (type_subtypes expected))
          (infer_slice_element_type actual)
      else none
    where
      elements_assignable : Option SemaType → Option SemaType → Option Bool
      elements_assignable (some element) (some element') =
          some (is_assignable decls element element')
      elements_assignable _ _ = none

  abbrev pub or_test : Option Bool → Bool → Bool
  or_test none rest = rest
  or_test (some result) rest = result

  -- `IsExplicitlyConvertible`
  unfoldable pub is_explicitly_convertible : SemaType → SemaType → Bool
  unfolding is_assignable infer_slice_element_type stripped is_numeric_type_in
      is_uint_ptr_convertible_type_in is_uint_ptr_type_in
  is_explicitly_convertible expected actual =
      let expected' = stripped decls TypeStripMode.k_aliases_and_distinct expected in
      let actual' = stripped decls TypeStripMode.k_aliases_and_distinct actual in
      is_assignable decls expected actual
      || or_test (slice_assignable expected actual) (
          is_assignable decls expected' actual'
          || or_test (slice_assignable expected' actual') (
              (is_uint_ptr_convertible_type_in expected' && is_uint_ptr_type_in actual')
              || (is_uint_ptr_type_in expected' && is_uint_ptr_convertible_type_in actual')
              || (is_numeric_type_in expected' && is_numeric_type_in actual')))
