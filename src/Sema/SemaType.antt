-- ===== src/Sema/SemaType.antt =====
-- compiler/sema/type.h and type.cpp: `Type`, its canonical form, `==` and `FormatType`;
-- compiler/sema/type_utils.cpp: `SubstituteTypeParams`.
pub mod Canonical
use c_modern.Common.{
  ℕ, zero, suc, ◌+◌, ◌-◌, Bool, true, false, not, ◌&&◌, ◌||◌, List, [], ◌∷◌, ◌++◌, Option, none,
  some, Bytes, codes, text_eq, length, take, drop, decimal, leb, if◌then◌else◌,
}
use c_modern.Support.Diagnostics.{parse_array_length}
use c_modern.Sema.TypeKind.{TypeKind, kind_eq}

-- `Type`, with its fields in the order of the source: kind, name, metadata and subtypes.
mutual
  pub data SemaType : Type 0 where
    make_type : TypeKind → Bytes → Bytes → SemaTypes → SemaType

  pub data SemaTypes : Type 0 where
    nil : SemaTypes
    cons : SemaType → SemaTypes → SemaTypes

abbrev pub bool_type : SemaType
bool_type = make_type TypeKind.k_bool [] [] nil

abbrev pub string_type : SemaType
string_type = make_type TypeKind.k_string [] [] nil

abbrev pub named_type : Bytes → SemaType
named_type name = make_type TypeKind.k_named name [] nil

-- `IsStringBuiltinName`
unfoldable pub is_string_builtin_name : Bytes → Bool
unfolding text_eq
is_string_builtin_name name =
    text_eq name (codes "str") || text_eq name (codes "string") || text_eq name (codes "cstr")

-- `NamedOrBuiltinType`
unfoldable pub named_or_builtin_type : Bytes → SemaType
unfolding text_eq is_string_builtin_name
named_or_builtin_type name =
    if text_eq name (codes "bool")
    then bool_type
    else if is_string_builtin_name name
    then string_type
    else named_type name

-- What `CanonicalizeBuiltinType` does behind its loop.
unfoldable pub canonical_head : TypeKind → Bytes → Bytes → SemaTypes → SemaType
unfolding text_eq is_string_builtin_name
canonical_head TypeKind.k_named name metadata nil =
    if text_eq name (codes "bool")
    then bool_type
    else if is_string_builtin_name name
    then string_type
    else make_type TypeKind.k_named name metadata nil
canonical_head kind name metadata subtypes = make_type kind name metadata subtypes

-- `CanonicalizeBuiltinType`
unfoldable mutual
  unfolding canonical_head

  pub canonicalize_builtin_type : SemaType → SemaType
  canonicalize_builtin_type (make_type kind name metadata subtypes) =
      canonical_head kind name metadata (canonicalize_all subtypes)

  pub canonicalize_all : SemaTypes → SemaTypes
  canonicalize_all nil = nil
  canonicalize_all (cons type types) =
      cons (canonicalize_builtin_type type) (canonicalize_all types)

-- The fields of two canonical types, one by one. Their subtypes are canonical too, and so are
-- compared in the same way: the source's `==` makes them canonical again first.
unfoldable mutual
  unfolding text_eq kind_eq

  pub same_fields : SemaType → SemaType → Bool
  same_fields (make_type kind name metadata subtypes) (make_type kind' name' metadata' subtypes') =
      kind_eq kind kind'
      && (text_eq name name' && (text_eq metadata metadata' && same_all subtypes subtypes'))

  pub same_all : SemaTypes → SemaTypes → Bool
  same_all nil nil = true
  same_all (cons type types) (cons type' types') = same_fields type type' && same_all types types'
  same_all _ _ = false

-- `operator==`
unfoldable pub type_eq : SemaType → SemaType → Bool
unfolding same_fields canonicalize_builtin_type
type_eq left right = same_fields (canonicalize_builtin_type left) (canonicalize_builtin_type right)

-- `==` of two vectors of types, and of the fields of two types with `==` on their subtypes.
unfoldable pub types_eq : SemaTypes → SemaTypes → Bool
unfolding type_eq
types_eq nil nil = true
types_eq (cons type types) (cons type' types') = type_eq type type' && types_eq types types'
types_eq _ _ = false

unfoldable pub fields_eq : SemaType → SemaType → Bool
unfolding text_eq kind_eq types_eq
fields_eq (make_type kind name metadata subtypes) (make_type kind' name' metadata' subtypes') =
    kind_eq kind kind'
    && (text_eq name name' && (text_eq metadata metadata' && types_eq subtypes subtypes'))

abbrev pub to_list : SemaTypes → List SemaType
to_list nil = []
to_list (cons type types) = type ∷ to_list types

-- The types with ", " between two of them.
abbrev pub join : List Bytes → Bytes
join [] = []
join (text ∷ []) = text
join (text ∷ next ∷ texts) = text ++ (codes ", " ++ join (next ∷ texts))

-- `subtypes.front()`, which a type of such a kind has.
abbrev front : List Bytes → Bytes
front [] = []
front (text ∷ _) = text

-- The returns of a procedure type.
abbrev pub format_returns : List Bytes → Bytes
format_returns [] = codes "->void"
format_returns (text ∷ []) = codes "->" ++ text
format_returns (text ∷ next ∷ texts) = codes "->tuple<" ++ (join (text ∷ next ∷ texts) ++ codes ">")

-- `ParseArrayLength(metadata).value_or(0)`
abbrev pub param_count : Bytes → ℕ
unfolding parse_array_length
param_count metadata = elim (parse_array_length metadata) [ some count ↦ count | none ↦ 0 ]

-- The switch of `FormatType`, on the texts of the subtypes.
unfoldable pub format_head : TypeKind → Bytes → Bytes → List Bytes → Bytes
unfolding parse_array_length
format_head TypeKind.k_unknown name metadata subtypes = codes "unknown"
format_head TypeKind.k_void name metadata subtypes = codes "void"
format_head TypeKind.k_bool name metadata subtypes = codes "bool"
format_head TypeKind.k_string name metadata subtypes = codes "string"
format_head TypeKind.k_nil name metadata subtypes = codes "nil"
format_head TypeKind.k_int_literal name metadata subtypes = codes "int_literal"
format_head TypeKind.k_float_literal name metadata subtypes = codes "float_literal"
format_head TypeKind.k_named name metadata [] = name
format_head TypeKind.k_named name metadata (text ∷ texts) =
    name ++ (codes "<" ++ (join (text ∷ texts) ++ codes ">"))
format_head TypeKind.k_pointer name metadata subtypes = codes "*" ++ front subtypes
format_head TypeKind.k_const name metadata subtypes = codes "const " ++ front subtypes
format_head TypeKind.k_array name metadata subtypes =
    codes "[" ++ (metadata ++ (codes "]" ++ front subtypes))
format_head TypeKind.k_tuple name metadata subtypes = codes "tuple<" ++ (join subtypes ++ codes ">")
format_head TypeKind.k_range name metadata subtypes =
    codes "range<" ++ (front subtypes ++ codes ">")
format_head TypeKind.k_procedure name metadata subtypes =
    let count = param_count metadata in
    codes "proc("
    ++ (join (take count subtypes) ++ (codes ")" ++ format_returns (drop count subtypes)))

-- The text of a canonical type, whose subtypes are canonical too.
unfoldable mutual
  unfolding format_head

  pub format_canonical : SemaType → Bytes
  format_canonical (make_type kind name metadata subtypes) =
      format_head kind name metadata (format_all subtypes)

  pub format_all : SemaTypes → List Bytes
  format_all nil = []
  format_all (cons type types) = format_canonical type ∷ format_all types

-- `FormatType`
unfoldable pub format_type : SemaType → Bytes
unfolding format_canonical canonicalize_builtin_type
format_type type = format_canonical (canonicalize_builtin_type type)

-- The loop of `SubstituteTypeParams` over the parameters.
unfoldable pub find_type_arg : Bytes → List Bytes → SemaTypes → Option SemaType
unfolding text_eq
find_type_arg name (type_param ∷ type_params) (cons type_arg type_args) =
    let rest = find_type_arg name type_params type_args in
    if text_eq name type_param then some type_arg else rest
find_type_arg name _ _ = none

unfoldable pub substitute_head :
    List Bytes → SemaTypes → TypeKind → Bytes → Bytes → SemaTypes → SemaType
unfolding find_type_arg
substitute_head type_params type_args TypeKind.k_named name metadata subtypes =
    elim (find_type_arg name type_params type_args) [
      | some type_arg ↦ type_arg
      | none ↦ make_type TypeKind.k_named name metadata subtypes
    ]
substitute_head type_params type_args kind name metadata subtypes =
    make_type kind name metadata subtypes

-- `SubstituteTypeParams`
unfoldable mutual
  unfolding substitute_head

  pub substitute_type_params : List Bytes → SemaTypes → SemaType → SemaType
  substitute_type_params type_params type_args (make_type kind name metadata subtypes) =
      substitute_head type_params type_args kind name metadata
        (substitute_all type_params type_args subtypes)

  pub substitute_all : List Bytes → SemaTypes → SemaTypes → SemaTypes
  substitute_all type_params type_args nil = nil
  substitute_all type_params type_args (cons type types) =
      cons (substitute_type_params type_params type_args type)
        (substitute_all type_params type_args types)
