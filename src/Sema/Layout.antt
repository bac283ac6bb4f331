-- ===== src/Sema/Layout.antt =====
-- compiler/sema/layout.h and layout.cpp: the size, the alignment and the offsets of the fields of a
-- type. `std::size_t` wraps at 2 ^ 64. `module_.type_decls`, the active types and the reports are
-- one state that is passed along; a report keeps the span and the message.
pub mod Arithmetic
pub mod Compute
pub mod Sound
pub mod Total
use c_modern.Common.{
  ℕ, Bool, true, false, List, [], ◌∷◌, Option, none, some, Bytes, codes, text_eq, if◌then◌else◌,
}
use c_modern.Support.Span.{SourceSpan}
use c_modern.Sema.SemaType.{SemaType, SemaTypes, substitute_type_params}

pub record LayoutInfo : Type 0 where
  pub valid : Bool
  pub size : ℕ
  pub alignment : ℕ
  pub field_offsets : List ℕ

-- `LayoutInfo {}`, and a layout without fields.
abbrev pub no_layout : LayoutInfo
no_layout = record { valid = false; size = 0; alignment = 0; field_offsets = [] }

abbrev pub flat : ℕ → ℕ → LayoutInfo
flat size alignment = record {
  valid = true;
  size = size;
  alignment = alignment;
  field_offsets = [];
}

pub data DeclKind : Type 0 where
  k_func k_extern_func k_struct k_enum k_distinct k_type_alias k_const k_var : DeclKind

pub record VariantSummary : Type 0 where
  pub name : Bytes
  pub payload_fields : List (Bytes × SemaType)

-- `TypeDeclSummary`, without its attributes and `is_abi_c`, which the layout does not read.
pub record TypeDeclSummary : Type 0 where
  pub kind : DeclKind
  pub name : Bytes
  pub type_params : List Bytes
  pub fields : List (Bytes × SemaType)
  pub variants : List VariantSummary
  pub aliased_type : SemaType
  pub is_packed : Bool
  pub layout : LayoutInfo

pub record LayoutState : Type 0 where
  pub type_decls : List TypeDeclSummary
  pub active_types : List Bytes
  pub reports : List (SourceSpan × Bytes)

-- `FindMutableTypeDecl`
unfoldable pub find_type_decl : List TypeDeclSummary → Bytes → Option TypeDeclSummary
unfolding text_eq
find_type_decl [] name = none
find_type_decl (decl ∷ decls) name =
    let rest = find_type_decl decls name in if text_eq decl.name name then some decl else rest

-- `type_decl.layout = layout`, at the declaration that `FindMutableTypeDecl` finds.
unfoldable pub store_layout : Bytes → LayoutInfo → List TypeDeclSummary → List TypeDeclSummary
unfolding text_eq
store_layout name layout [] = []
store_layout name layout (decl ∷ decls) =
    let rest = store_layout name layout decls in
    if text_eq decl.name name then record decl { layout = layout } ∷ decls else decl ∷ rest

-- `active_types.erase(key)`
unfoldable pub erase : Bytes → List Bytes → List Bytes
unfolding text_eq
erase key [] = []
erase key (active ∷ actives) =
    let rest = erase key actives in if text_eq active key then rest else active ∷ rest

-- The type of a field, of the payload of a variant or of an alias, with the arguments of the type
-- in place of the parameters.
unfoldable pub instantiate : List Bytes → SemaTypes → SemaType → SemaType
unfolding substitute_type_params
instantiate [] type_args type = type
instantiate (type_param ∷ type_params) type_args type =
    substitute_type_params (type_param ∷ type_params) type_args type
