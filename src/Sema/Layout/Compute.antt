-- ===== src/Sema/Layout/Compute.antt =====
-- compiler/sema/layout.cpp: `LayoutComputer` and `ComputeTypeLayout`. `Compute` calls itself through
-- declarations, so it runs on fuel; `none` means that the fuel ran out.
use mathlib.Core.Option
use c_modern.Common.{
  ℕ, not, get_elem?, length, zero, suc, ◌*◌, ◌%◌, ◌^◌, Bool, true, false, ◌&&◌, ◌||◌, List, [], ◌∷◌,
  ◌++◌, Option, none, some, Bytes, codes, text_eq, if◌then◌else◌,
}
use c_modern.Common.Sets.{contains}
use c_modern.Support.Span.{SourceSpan}
use c_modern.Support.Diagnostics.{parse_array_length}
use c_modern.Sema.TypeKind.{TypeKind}
use c_modern.Sema.SemaType.{SemaType, SemaTypes, make_type, nil, cons, format_type, named_type}
use c_modern.Sema.Layout.{
  LayoutInfo, no_layout, flat, DeclKind, VariantSummary, TypeDeclSummary, LayoutState,
  find_type_decl, store_layout, erase, instantiate,
}
use c_modern.Sema.Layout.Arithmetic.{
  place_field, open_struct, close_struct, Extent, no_extent, add_payload, add_variant, close_enum,
}

-- The layouts of the named types that the compiler knows.
unfoldable pub builtin_layout : Bytes → Option LayoutInfo
unfolding text_eq
builtin_layout name =
    if text_eq name (codes "i8") || text_eq name (codes "u8")
    then some (flat 1 1)
    else if text_eq name (codes "i16") || text_eq name (codes "u16")
    then some (flat 2 2)
    else if text_eq name (codes "i32") || text_eq name (codes "u32") || text_eq name (codes "f32")
    then some (flat 4 4)
    else if text_eq name (codes "i64")
        || text_eq name (codes "u64")
        || text_eq name (codes "isize")
        || text_eq name (codes "usize")
        || text_eq name (codes "uintptr")
        || text_eq name (codes "f64")
    then some (flat 8 8)
    else if text_eq name (codes "Slice")
    then some (flat 16 8)
    else if text_eq name (codes "Buffer")
    then some (flat 32 8)
    else none

-- What a computation gives: a layout, which may be invalid, and the state.
abbrev pub Computed : Type 0
Computed = Option (LayoutInfo × LayoutState)

-- `Report`
unfoldable pub report_layout : SourceSpan → Bytes → LayoutState → LayoutState
report_layout span message s = record s { reports = s.reports ++ (span, message) ∷ [] }

abbrev pub refused : SourceSpan → Bytes → LayoutState → Computed
unfolding report_layout
refused span message s = some (no_layout, report_layout span message s)

-- The type of an array, when the layout of its element is known.
unfoldable pub array_layout :
    SourceSpan → Bytes → LayoutInfo × LayoutState → LayoutInfo × LayoutState
unfolding parse_array_length report_layout
array_layout span metadata (element, s) =
    if element.valid
    then elim (parse_array_length metadata) [
      | none ↦ (
        no_layout,
        report_layout span
            (codes "array layout requires an integer constant length, got " ++ metadata) s,
      )
      | some length ↦ (flat (element.size * length % 2 ^ 64) element.alignment, s)
    ]
    else (no_layout, s)

-- What follows the loops of a struct or an enum: the type is active no more, and the layout of a type
-- without parameters is stored.
unfoldable pub leave : TypeDeclSummary → Bytes → LayoutInfo × LayoutState → LayoutInfo × LayoutState
unfolding erase store_layout
leave decl key (layout, s) =
    let s' : LayoutState = record s { active_types = erase key s.active_types } in
    if layout.valid
    then elim decl.type_params [
      | [] ↦ (layout, record s' { type_decls = store_layout decl.name layout s'.type_decls })
      | _ ∷ _ ↦ (layout, s')
    ]
    else (no_layout, s')

abbrev pub is_generic : TypeDeclSummary → Bool
is_generic decl = elim decl.type_params [ [] ↦ false | _ ∷ _ ↦ true ]

-- `Compute` as a step over its own calls, which are `compute`.
module _ (span : SourceSpan) (compute : SemaType → LayoutState → Computed) where
  -- The loop over the fields of a struct; an invalid field ends it.
  unfoldable pub struct_loop :
      Bool → List Bytes → SemaTypes → List (Bytes × SemaType) → LayoutInfo → LayoutState → Computed
  unfolding instantiate place_field close_struct
  struct_loop is_packed type_params type_args [] acc s = some (close_struct acc, s)
  struct_loop is_packed type_params type_args ((_, type) ∷ fields) acc s =
      elim (compute (instantiate type_params type_args type) s) [
        | none ↦ none
        | some (layout, s') ↦
            let next =
              struct_loop is_packed type_params type_args fields (place_field is_packed layout acc)
                s' in
            if layout.valid then next else some (no_layout, s')
      ]

  -- The loop over the payload of a variant, whose result is `none` at an invalid field.
  unfoldable pub payload_loop :
      List Bytes
      → SemaTypes
      → List (Bytes × SemaType)
      → Extent
      → LayoutState
      → Option (Option Extent × LayoutState)
  unfolding instantiate add_payload
  payload_loop type_params type_args [] variant s = some (some variant, s)
  payload_loop type_params type_args ((_, type) ∷ fields) variant s =
      elim (compute (instantiate type_params type_args type) s) [
        | none ↦ none
        | some (layout, s') ↦
            let next = payload_loop type_params type_args fields (add_payload layout variant) s' in
            if layout.valid then next else some (none, s')
      ]

  -- The loop over the variants of an enum.
  unfoldable pub enum_loop :
      List Bytes → SemaTypes → List VariantSummary → Extent → LayoutState → Computed
  unfolding payload_loop add_variant close_enum
  enum_loop type_params type_args [] payload s = some (close_enum payload, s)
  enum_loop type_params type_args (variant ∷ variants) payload s =
      elim (payload_loop type_params type_args variant.payload_fields no_extent s) [
        | none ↦ none
        | some (none, s') ↦ some (no_layout, s')
        | some (some extent, s') ↦
            enum_loop type_params type_args variants (add_variant extent payload) s'
      ]

  -- The body of `ComputeStructLayout` or `ComputeEnumLayout`, between entering and leaving.
  unfoldable pub aggregate_loop : TypeDeclSummary → SemaTypes → LayoutState → Computed
  unfolding struct_loop enum_loop
  aggregate_loop decl type_args s = elim decl.kind [
    | DeclKind.k_enum ↦ enum_loop decl.type_params type_args decl.variants no_extent s
    | _ ↦
        struct_loop decl.is_packed decl.type_params type_args decl.fields
          (open_struct decl.is_packed) s
  ]

  -- `ComputeStructLayout` and `ComputeEnumLayout`, which enter and leave a type in the same way.
  unfoldable pub compute_aggregate_layout :
      TypeDeclSummary → Bytes → SemaTypes → LayoutState → Computed
  unfolding contains aggregate_loop leave report_layout
  compute_aggregate_layout decl active_key type_args s =
      if not (is_generic decl) && decl.layout.valid
      then some (decl.layout, s)
      else if contains s.active_types active_key
      then refused span (codes "type layout cycle requires indirection: " ++ active_key) s
      else Option.map (leave decl active_key)
          (aggregate_loop decl type_args (record s { active_types = active_key ∷ s.active_types }))

  -- `Compute` on a named type that the module declares.
  unfoldable pub compute_declared :
      DeclKind → TypeDeclSummary → SemaType → SemaTypes → LayoutState → Computed
  unfolding instantiate compute_aggregate_layout report_layout format_type
  compute_declared DeclKind.k_distinct decl type type_args s =
      compute (instantiate decl.type_params type_args decl.aliased_type) s
  compute_declared DeclKind.k_type_alias decl type type_args s =
      compute (instantiate decl.type_params type_args decl.aliased_type) s
  compute_declared DeclKind.k_enum decl type type_args s =
      compute_aggregate_layout decl (format_type type) type_args s
  compute_declared DeclKind.k_struct decl type type_args s =
      compute_aggregate_layout decl (format_type type) type_args s
  compute_declared _ decl type type_args s =
      refused span
        (codes "layout is not available for type " ++ (decl.name ++ codes " in bootstrap sema")) s

  unfoldable pub compute_named : Bytes → SemaType → SemaTypes → LayoutState → Computed
  unfolding builtin_layout find_type_decl compute_declared report_layout format_type
  compute_named name type type_args s = elim (builtin_layout name) [
    | some layout ↦ some (layout, s)
    | none ↦ elim (find_type_decl s.type_decls name) [
      | none ↦ refused span (codes "layout is not available for type " ++ format_type type) s
      | some decl ↦ compute_declared decl.kind decl type type_args s
    ]
  ]

  -- The switch of `Compute`.
  unfoldable pub compute_step : SemaType → LayoutState → Computed
  unfolding compute_named array_layout
  compute_step (make_type TypeKind.k_bool name metadata subtypes) s = some (flat 1 1, s)
  compute_step (make_type TypeKind.k_string name metadata subtypes) s = some (flat 16 8, s)
  compute_step (make_type TypeKind.k_pointer name metadata subtypes) s = some (flat 8 8, s)
  compute_step (make_type TypeKind.k_procedure name metadata subtypes) s = some (flat 8 8, s)
  compute_step (make_type TypeKind.k_const name metadata nil) s = some (no_layout, s)
  compute_step (make_type TypeKind.k_const name metadata (cons type _)) s = compute type s
  compute_step (make_type TypeKind.k_array name metadata nil) s = some (no_layout, s)
  compute_step (make_type TypeKind.k_array name metadata (cons type _)) s =
      Option.map (array_layout span metadata) (compute type s)
  compute_step (make_type TypeKind.k_named name metadata subtypes) s =
      compute_named name (make_type TypeKind.k_named name metadata subtypes) subtypes s
  compute_step (make_type _ name metadata subtypes) s = some (no_layout, s)

-- `Compute`
unfoldable pub compute : ℕ → SourceSpan → SemaType → LayoutState → Computed
unfolding compute_step
compute zero span type s = none
compute (suc fuel) span type s = compute_step span (compute fuel span) type s

-- `ComputeTypeLayout`
unfoldable pub compute_type_layout : ℕ → List TypeDeclSummary → SemaType → SourceSpan → Computed
unfolding compute
compute_type_layout fuel type_decls type span =
    compute fuel span type (record { type_decls = type_decls; active_types = []; reports = [] })

-- The test of `ComputeTypeLayouts` for a declaration whose layout is still to be computed.
unfoldable pub is_pending : TypeDeclSummary → Bool
is_pending decl = elim decl.kind [
  | DeclKind.k_struct ↦ not (is_generic decl || decl.layout.valid)
  | DeclKind.k_enum ↦ not (is_generic decl || decl.layout.valid)
  | _ ↦ false
]

-- The loop of `ComputeTypeLayouts` from a position on, over the declarations as they are by then.
unfoldable pub compute_type_layouts_from : ℕ → SourceSpan → ℕ → ℕ → LayoutState → Option LayoutState
unfolding compute is_pending
compute_type_layouts_from fuel span zero position s = some s
compute_type_layouts_from fuel span (suc count) position s =
    elim (get_elem? s.type_decls position) [
      | none ↦ some s
      | some decl ↦ elim (is_pending decl) [
        | false ↦ compute_type_layouts_from fuel span count (suc position) s
        | true ↦ elim (compute fuel span (named_type decl.name) s) [
          | none ↦ none
          | some (_, s') ↦
              compute_type_layouts_from fuel span count (suc position)
                (record s' { active_types = [] })
        ]
      ]
    ]

-- `ComputeTypeLayouts`
unfoldable pub compute_type_layouts : ℕ → List TypeDeclSummary → SourceSpan → Option LayoutState
unfolding compute_type_layouts_from
compute_type_layouts fuel type_decls span =
    compute_type_layouts_from fuel span (length type_decls) 0
      (record { type_decls = type_decls; active_types = []; reports = [] })
