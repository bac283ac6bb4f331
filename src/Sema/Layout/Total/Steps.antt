-- ===== src/Sema/Layout/Total/Steps.antt =====
-- Each step of `Compute` returns, and so does the whole of it.
use c_modern.Common.{
  ℕ, zero, suc, not, ◌++◌, Bool, ◌&&◌, List, [], ◌∷◌, Option, none, some, Bytes, codes, ◌≡◌, refl,
  if_rule, ap, ◌∙◌, ◌≤◌, arith, Option-cases, inl, inr, subst,
}
use c_modern.Common.Sets.{contains}
use c_modern.Support.Span.{SourceSpan}
use c_modern.Sema.TypeKind.{TypeKind}
use c_modern.Sema.SemaType.{SemaType, SemaTypes, make_type, nil, cons, format_type}
use c_modern.Sema.Layout.{
  LayoutInfo, DeclKind, VariantSummary, TypeDeclSummary, LayoutState, find_type_decl, instantiate,
}
use c_modern.Sema.Layout.Arithmetic.{
  place_field, open_struct, Extent, no_extent, add_payload, add_variant,
}
use c_modern.Sema.Layout.Compute.{
  Computed, builtin_layout, is_generic, struct_loop, payload_loop, enum_loop, aggregate_loop,
  compute_aggregate_layout, compute_declared, compute_named, compute_step, compute,
  compute_type_layout,
}
use c_modern.Sema.Layout.Sound.{IsSound, AllSound, Sound}
use c_modern.Sema.Layout.Sound.Steps.{compute-Sound}
use c_modern.Sema.Layout.Total.{
  height, AllFieldsWithin, AllVariantsWithin, Grounded, AllGrounded, Returns, Found,
  find_type_decl-Found, leave-Returns, array_layout-Returns, refused-Returns,
}

-- A step returns where its calls on types of a smaller cost do.
module _ (cost : Bytes → ℕ) (span : SourceSpan) (compute : SemaType → LayoutState → Computed)
    (n : ℕ)
    (ih : (type : SemaType) (s : LayoutState)
      → height cost type ≤ n
      → AllGrounded cost s.type_decls
      → Returns cost (compute type s)) where
  struct_loop-Returns :
      (is_packed : Bool) (type_args : SemaTypes) (fields : List (Bytes × SemaType))
      (acc : LayoutInfo) (s : LayoutState)
      → AllFieldsWithin cost n fields
      → AllGrounded cost s.type_decls
      → Returns cost (struct_loop span compute is_packed [] type_args fields acc s)
  unfolding struct_loop
  struct_loop-Returns is_packed type_args [] acc s h all = all
  struct_loop-Returns is_packed type_args ((_, type) ∷ fields) acc s (low, h) all =
      elim (Option-cases (compute type s)) [
        | inl e ↦ absurd (subst (Returns cost) e (ih type s low all))
        | inr ((layout, s'), e) ↦
            let stored : AllGrounded cost s'.type_decls =
              subst (Returns cost) e (ih type s low all) in
            rw (e, struct_loop)
              (if_rule (Returns cost) layout.valid
                (struct_loop-Returns is_packed type_args fields (place_field is_packed layout acc)
                  s' h stored)
                stored)
      ]

  abbrev PayloadReturns : Option (Option Extent × LayoutState) → Type 0
  PayloadReturns none = ⊥
  PayloadReturns (some (extent, s)) = AllGrounded cost s.type_decls

  payload_loop-Returns :
      (type_args : SemaTypes) (fields : List (Bytes × SemaType)) (variant : Extent)
      (s : LayoutState)
      → AllFieldsWithin cost n fields
      → AllGrounded cost s.type_decls
      → PayloadReturns (payload_loop span compute [] type_args fields variant s)
  unfolding payload_loop
  payload_loop-Returns type_args [] variant s h all = all
  payload_loop-Returns type_args ((_, type) ∷ fields) variant s (low, h) all =
      elim (Option-cases (compute type s)) [
        | inl e ↦ absurd (subst (Returns cost) e (ih type s low all))
        | inr ((layout, s'), e) ↦
            let stored : AllGrounded cost s'.type_decls =
              subst (Returns cost) e (ih type s low all) in
            rw (e, payload_loop)
              (if_rule PayloadReturns layout.valid
                (payload_loop-Returns type_args fields (add_payload layout variant) s' h stored)
                stored)
      ]

  enum_loop-Returns :
      (type_args : SemaTypes) (variants : List VariantSummary) (payload : Extent) (s : LayoutState)
      → AllVariantsWithin cost n variants
      → AllGrounded cost s.type_decls
      → Returns cost (enum_loop span compute [] type_args variants payload s)
  unfolding enum_loop
  enum_loop-Returns type_args [] payload s h all = all
  enum_loop-Returns type_args (variant ∷ variants) payload s (low, h) all =
      let inner = payload_loop-Returns type_args variant.payload_fields no_extent s low all in
      elim (Option-cases
        (payload_loop span compute [] type_args variant.payload_fields no_extent s)) [
          | inl e ↦ absurd (subst PayloadReturns e inner)
          | inr ((none, s'), e) ↦ rw (e, enum_loop) (subst PayloadReturns e inner)
          | inr ((some extent, s'), e) ↦
              let stored : AllGrounded cost s'.type_decls = subst PayloadReturns e inner in
              rw (e, enum_loop)
                (enum_loop-Returns type_args variants (add_variant extent payload) s' h stored)
        ]

  aggregate_loop-Returns :
      (k : DeclKind) (decl : TypeDeclSummary) (type_args : SemaTypes) (s : LayoutState)
      → decl.kind ≡ k
      → Grounded cost decl
      → cost decl.name ≡ n
      → AllGrounded cost s.type_decls
      → Returns cost (aggregate_loop span compute decl type_args s)
  unfolding aggregate_loop
  aggregate_loop-Returns DeclKind.k_enum decl type_args s e g same all =
      rw (e, g.plain)
        (enum_loop-Returns type_args decl.variants no_extent s
          (subst (λ m. AllVariantsWithin cost m decl.variants) same g.variants) all)
  aggregate_loop-Returns _ decl type_args s e g same all =
      rw (e, g.plain)
        (struct_loop-Returns decl.is_packed type_args decl.fields (open_struct decl.is_packed) s
          (subst (λ m. AllFieldsWithin cost m decl.fields) same g.fields) all)

  compute_aggregate_layout-Returns :
      (decl : TypeDeclSummary) (key : Bytes) (type_args : SemaTypes) (s : LayoutState)
      → Grounded cost decl
      → cost decl.name ≡ n
      → AllGrounded cost s.type_decls
      → Returns cost (compute_aggregate_layout span compute decl key type_args s)
  unfolding compute_aggregate_layout
  compute_aggregate_layout-Returns decl key type_args s g same all =
      let entered : LayoutState = record s { active_types = key ∷ s.active_types } in
      if_rule (Returns cost) (not (is_generic decl) && decl.layout.valid) all (
        if_rule (Returns cost) (contains s.active_types key)
          (refused-Returns cost span (codes "type layout cycle requires indirection: " ++ key) s
            all)
          (leave-Returns cost decl key (aggregate_loop span compute decl type_args entered)
            (aggregate_loop-Returns decl.kind decl type_args entered refl g same all)))

  aliased-Returns :
      (decl : TypeDeclSummary) (type_args : SemaTypes) (s : LayoutState)
      → Grounded cost decl
      → cost decl.name ≡ n
      → AllGrounded cost s.type_decls
      → Returns cost (compute (instantiate decl.type_params type_args decl.aliased_type) s)
  unfolding instantiate
  aliased-Returns decl type_args s g same all =
      rw g.plain
        (ih decl.aliased_type s (subst (λ m. height cost decl.aliased_type ≤ m) same g.alias) all)

  compute_declared-Returns :
      (k : DeclKind) (decl : TypeDeclSummary) (type : SemaType) (type_args : SemaTypes)
      (s : LayoutState)
      → Grounded cost decl
      → cost decl.name ≡ n
      → AllGrounded cost s.type_decls
      → Returns cost (compute_declared span compute k decl type type_args s)
  unfolding compute_declared
  compute_declared-Returns DeclKind.k_distinct decl type type_args s g same all =
      aliased-Returns decl type_args s g same all
  compute_declared-Returns DeclKind.k_type_alias decl type type_args s g same all =
      aliased-Returns decl type_args s g same all
  compute_declared-Returns DeclKind.k_enum decl type type_args s g same all =
      compute_aggregate_layout-Returns decl (format_type type) type_args s g same all
  compute_declared-Returns DeclKind.k_struct decl type type_args s g same all =
      compute_aggregate_layout-Returns decl (format_type type) type_args s g same all
  compute_declared-Returns _ decl type type_args s g same all =
      refused-Returns cost span
        (codes "layout is not available for type " ++ (decl.name ++ codes " in bootstrap sema")) s
        all

  compute_named-Returns :
      (name : Bytes) (type : SemaType) (type_args : SemaTypes) (s : LayoutState)
      → cost name ≡ n
      → AllGrounded cost s.type_decls
      → Returns cost (compute_named span compute name type type_args s)
  unfolding compute_named
  compute_named-Returns name type type_args s same all = elim (Option-cases (builtin_layout name)) [
    | inr (layout, e) ↦ rw (e, compute_named) all
    | inl e ↦ elim (Option-cases (find_type_decl s.type_decls name)) [
      | inl e' ↦
          rw (e, e', compute_named)
            (refused-Returns cost span
              (codes "layout is not available for type " ++ format_type type) s all)
      | inr (decl, e') ↦
          let (g, named) : Grounded cost decl × (decl.name ≡ name) =
            unfold Found in
            subst (Found cost name) e' (find_type_decl-Found cost s.type_decls name all) in
          rw (e, e', compute_named)
            (compute_declared-Returns decl.kind decl type type_args s g (ap cost named ∙ same) all)
    ]
  ]

compute_step-Returns :
    (cost : Bytes → ℕ) (span : SourceSpan) (compute : SemaType → LayoutState → Computed) (fuel : ℕ)
    → ((type : SemaType) (s : LayoutState)
        → height cost type ≤ fuel
        → AllGrounded cost s.type_decls
        → Returns cost (compute type s))
    → (k : TypeKind) (name metadata : Bytes) (types : SemaTypes) (s : LayoutState)
    → height cost (make_type k name metadata types) ≤ suc fuel
    → AllGrounded cost s.type_decls
    → Returns cost (compute_step span compute (make_type k name metadata types) s)
unfolding compute_step
compute_step-Returns cost span compute fuel ih TypeKind.k_named name metadata types s h all =
    compute_named-Returns cost span compute (cost name)
      (λ type s' low all'. ih type s' (omega arith) all') name
      (make_type TypeKind.k_named name metadata types) types s refl all
compute_step-Returns cost span compute fuel ih TypeKind.k_const name metadata nil s h all = all
compute_step-Returns cost span compute fuel ih TypeKind.k_const name metadata (cons type types) s h
      all =
    ih type s (omega arith) all
compute_step-Returns cost span compute fuel ih TypeKind.k_array name metadata nil s h all = all
compute_step-Returns cost span compute fuel ih TypeKind.k_array name metadata (cons type types) s h
      all =
    array_layout-Returns cost span metadata (compute type s) (ih type s (omega arith) all)
compute_step-Returns cost span compute fuel ih _ name metadata types s h all = all

positive :
    (cost : Bytes → ℕ) (k : TypeKind) (name metadata : Bytes) (types : SemaTypes)
    → ¬ (height cost (make_type k name metadata types) ≤ 0)
positive cost TypeKind.k_named name metadata types h = omega arith
positive cost TypeKind.k_const name metadata nil h = omega arith
positive cost TypeKind.k_const name metadata (cons type types) h = omega arith
positive cost TypeKind.k_array name metadata nil h = omega arith
positive cost TypeKind.k_array name metadata (cons type types) h = omega arith
positive cost _ name metadata types h = omega arith

compute-Returns :
    (cost : Bytes → ℕ) (fuel : ℕ) (span : SourceSpan) (type : SemaType) (s : LayoutState)
    → height cost type ≤ fuel
    → AllGrounded cost s.type_decls
    → Returns cost (compute fuel span type s)
unfolding compute
compute-Returns cost zero span (make_type k name metadata types) s h all =
    absurd (positive cost k name metadata types h)
compute-Returns cost (suc fuel) span (make_type k name metadata types) s h all =
    compute_step-Returns cost span (compute fuel span) fuel
      (λ type s' low all'. compute-Returns cost fuel span type s' low all') k name metadata types s
      h all

-- Where declarations without parameters contain each other by value without a cycle, and the layouts
-- that they hold are aligned, `ComputeTypeLayout` returns for every type, within a depth of calls that
-- the type and the declarations bound. If the layout is valid, its alignment is 0, 1, 2, 4 or 8 and
-- its size is a multiple of it, 0 for an alignment of 0, even where an array or a struct is so large
-- that its size wraps around; and so are the layouts that the declarations then hold.
pub compute_type_layout-Sound :
    (cost : Bytes → ℕ) (decls : List TypeDeclSummary) (type : SemaType) (span : SourceSpan)
    → AllGrounded cost decls
    → AllSound decls
    → (layout : LayoutInfo) × (s : LayoutState) × (compute_type_layout
          (height cost type)
          decls
          type
          span
        ≡ some (layout, s))
      × IsSound layout
      × AllSound s.type_decls
unfolding compute_type_layout
compute_type_layout-Sound cost decls type span grounded sound =
    let start : LayoutState = record { type_decls = decls; active_types = []; reports = [] } in
    let fuel = height cost type in
    elim (Option-cases (compute fuel span type start)) [
      | inl e ↦ absurd (
          subst (Returns cost) e (compute-Returns cost fuel span type start (omega arith) grounded))
      | inr ((layout, s), e) ↦
          let (it, stored) : Sound (some (layout, s)) =
            subst Sound e (compute-Sound fuel span type start sound) in
          (layout, s, e, it, stored)
    ]
