-- ===== src/Sema/Layout/Sound/Steps.antt =====
-- Each step of `Compute` keeps the layouts aligned, and so does the whole of it.
use c_modern.Common.{
  ℕ, zero, suc, not, ◌++◌, Bool, ◌&&◌, List, [], ◌∷◌, Option, none, some, Bytes, codes, ◌≡◌, refl,
  if_rule, if_cases, Option-cases, inl, inr, subst,
}
use c_modern.Common.Sets.{contains}
use c_modern.Support.Span.{SourceSpan}
use c_modern.Sema.TypeKind.{TypeKind}
use c_modern.Sema.SemaType.{SemaType, SemaTypes, make_type, nil, cons, format_type}
use c_modern.Sema.Layout.{
  LayoutInfo, DeclKind, VariantSummary, TypeDeclSummary, LayoutState, find_type_decl, instantiate,
}
use c_modern.Sema.Layout.Arithmetic.{
  place_field, open_struct, Extent, no_extent, add_payload, add_variant,
}
use c_modern.Sema.Layout.Arithmetic.Aligned.{
  Aligned, byte, eight, IsAlignment, place_field-IsAlignment, open_struct-IsAlignment,
  close_struct-Aligned, add_payload-IsAlignment, add_variant-IsAlignment, close_enum-Aligned,
}
use c_modern.Sema.Layout.Compute.{
  Computed, builtin_layout, is_generic, struct_loop, payload_loop, enum_loop, aggregate_loop,
  compute_aggregate_layout, compute_declared, compute_named, compute_step, compute,
}
use c_modern.Sema.Layout.Sound.{
  IsSound, AllSound, Sound, no_layout-IsSound, BuiltinSound, builtin_layout-Sound, Found,
  find_type_decl-Found, leave-Sound, array_layout-Sound, refused-Sound,
}

module _ (span : SourceSpan) (compute : SemaType → LayoutState → Computed)
    (ih : (type : SemaType) (s : LayoutState)
      → AllSound s.type_decls
      → Sound (compute type s)) where
  struct_loop-Sound :
      (is_packed : Bool) (type_params : List Bytes) (type_args : SemaTypes)
      (fields : List (Bytes × SemaType)) (acc : LayoutInfo) (s : LayoutState)
      → IsAlignment acc.size acc.alignment
      → AllSound s.type_decls
      → Sound (struct_loop span compute is_packed type_params type_args fields acc s)
  unfolding struct_loop
  struct_loop-Sound is_packed type_params type_args [] acc s h all =
      ((λ _. close_struct-Aligned acc h), all)
  struct_loop-Sound is_packed type_params type_args ((_, type) ∷ fields) acc s h all =
      let t = instantiate type_params type_args type in
      elim (Option-cases (compute t s)) [
        | inl e ↦ rw (e, struct_loop) tt
        | inr ((layout, s'), e) ↦
            let (field, stored) : Sound (some (layout, s')) = subst Sound e (ih t s all) in
            rw (e, struct_loop)
              (if_cases Sound layout.valid
                (λ valid.
                  struct_loop-Sound is_packed type_params type_args fields
                    (place_field is_packed layout acc) s'
                    (place_field-IsAlignment is_packed layout acc h (field valid)) stored)
                (λ _. (no_layout-IsSound, stored)))
      ]

  abbrev PayloadSound : Option (Option Extent × LayoutState) → Type 0
  PayloadSound none = Unit {0}
  PayloadSound (some (none, s)) = AllSound s.type_decls
  PayloadSound (some (some variant, s)) =
      IsAlignment variant.size variant.alignment × AllSound s.type_decls

  payload_loop-Sound :
      (type_params : List Bytes) (type_args : SemaTypes) (fields : List (Bytes × SemaType))
      (variant : Extent) (s : LayoutState)
      → IsAlignment variant.size variant.alignment
      → AllSound s.type_decls
      → PayloadSound (payload_loop span compute type_params type_args fields variant s)
  unfolding payload_loop
  payload_loop-Sound type_params type_args [] variant s h all = (h, all)
  payload_loop-Sound type_params type_args ((_, type) ∷ fields) variant s h all =
      let t = instantiate type_params type_args type in
      elim (Option-cases (compute t s)) [
        | inl e ↦ rw (e, payload_loop) tt
        | inr ((layout, s'), e) ↦
            let (field, stored) : Sound (some (layout, s')) = subst Sound e (ih t s all) in
            rw (e, payload_loop)
              (if_cases PayloadSound layout.valid
                (λ valid.
                  payload_loop-Sound type_params type_args fields (add_payload layout variant) s'
                    (add_payload-IsAlignment layout variant h (field valid)) stored)
                (λ _. stored))
      ]

  enum_loop-Sound :
      (type_params : List Bytes) (type_args : SemaTypes) (variants : List VariantSummary)
      (payload : Extent) (s : LayoutState)
      → IsAlignment payload.size payload.alignment
      → AllSound s.type_decls
      → Sound (enum_loop span compute type_params type_args variants payload s)
  unfolding enum_loop
  enum_loop-Sound type_params type_args [] payload s h all =
      ((λ _. close_enum-Aligned payload h), all)
  enum_loop-Sound type_params type_args (variant ∷ variants) payload s h all =
      let o = payload_loop span compute type_params type_args variant.payload_fields no_extent s in
      let sound =
        payload_loop-Sound type_params type_args variant.payload_fields no_extent s byte all in
      elim (Option-cases o) [
        | inl e ↦ rw (e, enum_loop) tt
        | inr ((none, s'), e) ↦ rw (e, enum_loop) (no_layout-IsSound, subst PayloadSound e sound)
        | inr ((some extent, s'), e) ↦
            let (inner, stored) : PayloadSound (some (some extent, s')) =
              subst PayloadSound e sound in
            rw (e, enum_loop)
              (enum_loop-Sound type_params type_args variants (add_variant extent payload) s'
                (add_variant-IsAlignment extent payload inner h) stored)
      ]

  aggregate_loop-Sound :
      (k : DeclKind) (decl : TypeDeclSummary) (type_args : SemaTypes) (s : LayoutState)
      → decl.kind ≡ k
      → AllSound s.type_decls
      → Sound (aggregate_loop span compute decl type_args s)
  unfolding aggregate_loop
  aggregate_loop-Sound DeclKind.k_enum decl type_args s e all =
      rw e (enum_loop-Sound decl.type_params type_args decl.variants no_extent s byte all)
  aggregate_loop-Sound _ decl type_args s e all = rw e (
      struct_loop-Sound decl.is_packed decl.type_params type_args decl.fields
        (open_struct decl.is_packed) s (open_struct-IsAlignment decl.is_packed) all)

  compute_aggregate_layout-Sound :
      (decl : TypeDeclSummary) (key : Bytes) (type_args : SemaTypes) (s : LayoutState)
      → IsSound decl.layout
      → AllSound s.type_decls
      → Sound (compute_aggregate_layout span compute decl key type_args s)
  unfolding compute_aggregate_layout
  compute_aggregate_layout-Sound decl key type_args s sound all =
      let entered : LayoutState = record s { active_types = key ∷ s.active_types } in
      if_rule Sound (not (is_generic decl) && decl.layout.valid) (sound, all)
        (if_rule Sound (contains s.active_types key)
          (refused-Sound span (codes "type layout cycle requires indirection: " ++ key) s all)
          (leave-Sound decl key (aggregate_loop span compute decl type_args entered)
            (aggregate_loop-Sound decl.kind decl type_args entered refl all)))

  compute_declared-Sound :
      (k : DeclKind) (decl : TypeDeclSummary) (type : SemaType) (type_args : SemaTypes)
      (s : LayoutState)
      → IsSound decl.layout
      → AllSound s.type_decls
      → Sound (compute_declared span compute k decl type type_args s)
  unfolding compute_declared
  compute_declared-Sound DeclKind.k_distinct decl type type_args s sound all = ih _ s all
  compute_declared-Sound DeclKind.k_type_alias decl type type_args s sound all = ih _ s all
  compute_declared-Sound DeclKind.k_enum decl type type_args s sound all =
      compute_aggregate_layout-Sound decl (format_type type) type_args s sound all
  compute_declared-Sound DeclKind.k_struct decl type type_args s sound all =
      compute_aggregate_layout-Sound decl (format_type type) type_args s sound all
  compute_declared-Sound _ decl type type_args s sound all =
      refused-Sound span
        (codes "layout is not available for type " ++ (decl.name ++ codes " in bootstrap sema")) s
        all

  compute_named-Sound :
      (name : Bytes) (type : SemaType) (type_args : SemaTypes) (s : LayoutState)
      → AllSound s.type_decls
      → Sound (compute_named span compute name type type_args s)
  unfolding compute_named
  compute_named-Sound name type type_args s all = elim (Option-cases (builtin_layout name)) [
    | inr (layout, e) ↦
        let sound : Aligned layout.size layout.alignment =
          unfold BuiltinSound in subst BuiltinSound e (builtin_layout-Sound name) in
        rw (e, compute_named) ((λ _. sound), all)
    | inl e ↦ elim (Option-cases (find_type_decl s.type_decls name)) [
      | inl e' ↦
          rw (e, e', compute_named)
            (refused-Sound span (codes "layout is not available for type " ++ format_type type) s
              all)
      | inr (decl, e') ↦
          let sound : IsSound decl.layout =
            unfold Found in subst Found e' (find_type_decl-Found s.type_decls name all) in
          rw (e, e', compute_named)
            (compute_declared-Sound decl.kind decl type type_args s sound all)
    ]
  ]

  compute_step-Sound :
      (k : TypeKind) (name metadata : Bytes) (types : SemaTypes) (s : LayoutState)
      → AllSound s.type_decls
      → Sound (compute_step span compute (make_type k name metadata types) s)
  unfolding compute_step
  compute_step-Sound TypeKind.k_bool name metadata types s all = ((λ _. byte), all)
  compute_step-Sound TypeKind.k_string name metadata types s all = ((λ _. eight refl), all)
  compute_step-Sound TypeKind.k_pointer name metadata types s all = ((λ _. eight refl), all)
  compute_step-Sound TypeKind.k_procedure name metadata types s all = ((λ _. eight refl), all)
  compute_step-Sound TypeKind.k_const name metadata nil s all = (no_layout-IsSound, all)
  compute_step-Sound TypeKind.k_const name metadata (cons type types) s all = ih type s all
  compute_step-Sound TypeKind.k_array name metadata nil s all = (no_layout-IsSound, all)
  compute_step-Sound TypeKind.k_array name metadata (cons type types) s all =
      array_layout-Sound span metadata (compute type s) (ih type s all)
  compute_step-Sound TypeKind.k_named name metadata types s all =
      compute_named-Sound name (make_type TypeKind.k_named name metadata types) types s all
  compute_step-Sound _ name metadata types s all = (no_layout-IsSound, all)

-- Whatever `Compute` returns and stores is sound again.
pub compute-Sound :
    (fuel : ℕ) (span : SourceSpan) (type : SemaType) (s : LayoutState)
    → AllSound s.type_decls
    → Sound (compute fuel span type s)
unfolding compute
compute-Sound zero span type s all = tt
compute-Sound (suc fuel) span (make_type k name metadata types) s all =
    compute_step-Sound span (compute fuel span) (compute-Sound fuel span) k name metadata types s
      all
