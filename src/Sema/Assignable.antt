-- ===== src/Sema/Assignable.antt =====
-- compiler/sema/type_predicates.h and type_utils.cpp: the predicates on types, `IsAssignable`, `MergeNumericTypes` and the
-- explicit conversions.
pub mod Merge
pub mod Takes
pub mod Agree
use c_modern.Common.{
  ℕ, Bool, true, false, not, ◌&&◌, ◌||◌, List, [], ◌∷◌, Option, none, some, Bytes, codes, text_eq,
  if◌then◌else◌,
}
use c_modern.Sema.TypeKind.{TypeKind, kind_eq}
use c_modern.Sema.SemaType.{
  SemaType, SemaTypes, make_type, nil, cons, type_eq, canonicalize_builtin_type,
}
use c_modern.Sema.Layout.{TypeDeclSummary}
use c_modern.Sema.Strip.{TypeStripMode, strip_type}

-- The fields of a type.
abbrev pub type_kind : SemaType → TypeKind
type_kind (make_type kind name metadata subtypes) = kind

abbrev pub type_name : SemaType → Bytes
type_name (make_type kind name metadata subtypes) = name

abbrev pub type_subtypes : SemaType → SemaTypes
type_subtypes (make_type kind name metadata subtypes) = subtypes

abbrev pub has_kind : TypeKind → SemaType → Bool
has_kind kind type = kind_eq (type_kind type) kind

abbrev pub first_subtype : SemaTypes → Option SemaType
first_subtype nil = none
first_subtype (cons type types) = some type

abbrev pub unknown : SemaType
unknown = make_type TypeKind.k_unknown [] [] nil

-- `IsIntegerTypeName` and `IsFloatTypeName`
unfoldable pub is_integer_type_name : Bytes → Bool
unfolding text_eq
is_integer_type_name name =
    text_eq name (codes "i8")
    || text_eq name (codes "i16")
    || text_eq name (codes "i32")
    || text_eq name (codes "i64")
    || text_eq name (codes "isize")
    || text_eq name (codes "u8")
    || text_eq name (codes "u16")
    || text_eq name (codes "u32")
    || text_eq name (codes "u64")
    || text_eq name (codes "usize")
    || text_eq name (codes "uintptr")

unfoldable pub is_float_type_name : Bytes → Bool
unfolding text_eq
is_float_type_name name = text_eq name (codes "f32") || text_eq name (codes "f64")

-- The predicates on a type of its own.
unfoldable pub is_integer_type : SemaType → Bool
unfolding kind_eq is_integer_type_name
is_integer_type type = has_kind TypeKind.k_named type && is_integer_type_name (type_name type)

unfoldable pub is_float_type : SemaType → Bool
unfolding kind_eq is_float_type_name
is_float_type type = has_kind TypeKind.k_named type && is_float_type_name (type_name type)

unfoldable pub is_numeric_type : SemaType → Bool
unfolding kind_eq is_integer_type is_float_type
is_numeric_type type =
    has_kind TypeKind.k_int_literal type
    || has_kind TypeKind.k_float_literal type
    || is_integer_type type
    || is_float_type type

unfoldable pub is_pointer_like_type : SemaType → Bool
unfolding kind_eq
is_pointer_like_type type = has_kind TypeKind.k_pointer type

unfoldable pub is_uint_ptr_convertible_type : SemaType → Bool
unfolding kind_eq
is_uint_ptr_convertible_type type =
    has_kind TypeKind.k_pointer type || has_kind TypeKind.k_procedure type

unfoldable pub is_uint_ptr_type : SemaType → Bool
unfolding kind_eq text_eq
is_uint_ptr_type type = has_kind TypeKind.k_named type && text_eq (type_name type) (codes "uintptr")

-- `MergeNumericTypes` behind the canonical forms of its arguments.
unfoldable pub merge_canonical : SemaType → SemaType → SemaType
unfolding kind_eq type_eq is_integer_type is_float_type
merge_canonical left right =
    if has_kind TypeKind.k_unknown left || has_kind TypeKind.k_unknown right
    then unknown
    else if type_eq left right
    then left
    else if is_integer_type left && has_kind TypeKind.k_int_literal right
    then left
    else if is_integer_type right && has_kind TypeKind.k_int_literal left
    then right
    else if is_float_type left && has_kind TypeKind.k_float_literal right
    then left
    else if is_float_type right && has_kind TypeKind.k_float_literal left
    then right
    else if has_kind TypeKind.k_float_literal left && has_kind TypeKind.k_int_literal right
    then left
    else if has_kind TypeKind.k_float_literal right && has_kind TypeKind.k_int_literal left
    then right
    else unknown

-- `IsAssignable` behind the canonical forms; a canonical type has no alias, so the predicate on pointers needs no module.
unfoldable pub assignable_canonical : Bool → SemaType → SemaType → Bool
unfolding kind_eq type_eq is_integer_type is_float_type
assignable_canonical pointer_like expected actual =
    (has_kind TypeKind.k_unknown expected || has_kind TypeKind.k_unknown actual)
    || type_eq expected actual
    || (is_integer_type expected && has_kind TypeKind.k_int_literal actual)
    || (is_float_type expected && has_kind TypeKind.k_float_literal actual)
    || (pointer_like && has_kind TypeKind.k_nil actual)

abbrev pub or_same : SemaType → Option SemaType → SemaType
or_same type none = type
or_same type (some result) = result

module _ (decls : List TypeDeclSummary) where
  -- `StripType`, which always gives a type.
  unfoldable pub stripped : TypeStripMode → SemaType → SemaType
  unfolding strip_type
  stripped mode type = or_same type (strip_type decls mode type)

  -- `CanonicalizeBuiltinType(StripType(type, module, TypeStripMode::kAliasesOnly))`
  unfoldable pub canonical_of : SemaType → SemaType
  unfolding stripped canonicalize_builtin_type
  canonical_of type = canonicalize_builtin_type (stripped TypeStripMode.k_aliases_only type)

  -- `IsAssignable`
  unfoldable pub is_assignable : SemaType → SemaType → Bool
  unfolding canonical_of assignable_canonical stripped is_pointer_like_type
  is_assignable expected actual =
      let canonical_expected = canonical_of expected in
      assignable_canonical
        (is_pointer_like_type (stripped TypeStripMode.k_aliases_only canonical_expected))
        canonical_expected (canonical_of actual)

  -- `MergeNumericTypes`
  unfoldable pub merge_numeric_types : SemaType → SemaType → SemaType
  unfolding canonical_of merge_canonical
  merge_numeric_types left right = merge_canonical (canonical_of left) (canonical_of right)
