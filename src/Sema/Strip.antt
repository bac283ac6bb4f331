-- ===== src/Sema/Strip.antt =====
-- compiler/sema/type_utils.cpp: `StripType`, which opens the aliases in a type.
pub mod Ends
use c_modern.Common.{
  ℕ, zero, suc, ◌+◌, Bool, true, false, ◌&&◌, ◌||◌, List, [], ◌∷◌, Option, none, some, Bytes,
  length, if◌then◌else◌,
}
use c_modern.Common.Sets.{contains}
use c_modern.Sema.TypeKind.{TypeKind, kind_eq}
use c_modern.Sema.SemaType.{SemaType, SemaTypes, make_type, nil, cons}
use c_modern.Sema.Layout.{DeclKind, TypeDeclSummary, find_type_decl, instantiate}

-- `TypeStripMode`
pub data TypeStripMode : Type 0 where
  k_aliases_only k_aliases_and_distinct : TypeStripMode

-- `ShouldStripTypeDeclKind`
unfoldable pub should_strip_type_decl_kind : DeclKind → TypeStripMode → Bool
should_strip_type_decl_kind DeclKind.k_type_alias mode = true
should_strip_type_decl_kind DeclKind.k_distinct TypeStripMode.k_aliases_and_distinct = true
should_strip_type_decl_kind _ mode = false

module _ (decls : List TypeDeclSummary) (mode : TypeStripMode) where
  -- What `StripTypeInternal` does with a named type behind the loop over its subtypes; `expand` is the call for
  -- the type of the alias.
  unfoldable pub strip_named :
      (List Bytes → SemaType → Option SemaType)
      → List Bytes
      → Bytes
      → Bytes
      → SemaTypes
      → Option SemaType
  unfolding find_type_decl should_strip_type_decl_kind contains instantiate
  strip_named expand active_names name metadata subtypes = elim (find_type_decl decls name) [
    | none ↦ some (make_type TypeKind.k_named name metadata subtypes)
    | some type_decl ↦
        if should_strip_type_decl_kind type_decl.kind mode
        then (if contains active_names name
            then some (make_type TypeKind.k_named name metadata subtypes)
            else expand (name ∷ active_names)
                (instantiate type_decl.type_params subtypes type_decl.aliased_type))
        else some (make_type TypeKind.k_named name metadata subtypes)
  ]

  unfoldable pub strip_head :
      (List Bytes → SemaType → Option SemaType)
      → List Bytes
      → TypeKind
      → Bytes
      → Bytes
      → SemaTypes
      → Option SemaType
  unfolding strip_named
  strip_head expand active_names TypeKind.k_named name metadata subtypes =
      strip_named expand active_names name metadata subtypes
  strip_head expand active_names kind name metadata subtypes =
      some (make_type kind name metadata subtypes)

  abbrev pub prepend : Option SemaType → Option SemaTypes → Option SemaTypes
  prepend (some type) (some types) = some (cons type types)
  prepend _ _ = none

  abbrev pub strip_behind :
      (List Bytes → SemaType → Option SemaType)
      → List Bytes
      → TypeKind
      → Bytes
      → Bytes
      → Option SemaTypes
      → Option SemaType
  unfolding strip_head
  strip_behind expand active_names kind name metadata none = none
  strip_behind expand active_names kind name metadata (some subtypes) =
      strip_head expand active_names kind name metadata subtypes

  unfoldable mutual
    unfolding strip_head

    pub strip_with :
        (List Bytes → SemaType → Option SemaType) → List Bytes → SemaType → Option SemaType
    strip_with expand active_names (make_type kind name metadata subtypes) =
        strip_behind expand active_names kind name metadata (strip_all expand active_names subtypes)

    pub strip_all :
        (List Bytes → SemaType → Option SemaType) → List Bytes → SemaTypes → Option SemaTypes
    strip_all expand active_names nil = some nil
    strip_all expand active_names (cons type types) =
        prepend (strip_with expand active_names type) (strip_all expand active_names types)

  -- `StripTypeInternal`, on fuel for the aliases that are being opened. `active_names` is the same behind the call as
  -- before it, and so is an argument.
  unfoldable pub strip_type_internal : ℕ → List Bytes → SemaType → Option SemaType
  unfolding strip_with
  strip_type_internal zero active_names type = none
  strip_type_internal (suc fuel) active_names type =
      strip_with (strip_type_internal fuel) active_names type

  -- `StripType`
  unfoldable pub strip_type : SemaType → Option SemaType
  unfolding strip_type_internal
  strip_type type = strip_type_internal (length decls + 1) [] type
