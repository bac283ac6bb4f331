-- ===== src/Sema/Layout/Sound.antt =====
-- The layouts that `Compute` returns and stores are aligned.
pub mod Steps
pub mod Fields
use mathlib.Core.Option
use c_modern.Common.{
  ℕ, zero, suc, not, ◌+◌, ◌*◌, ◌%◌, ◌^◌, ◌++◌, ◌||◌, Bool, true, false, ◌&&◌, List, [], ◌∷◌, Option,
  none, some, Bytes, text_eq, codes, if◌then◌else◌, ◌≡◌, refl, if_rule, if_cases, Bool-cases,
  Option-cases, ◌⊎◌, inl, inr, subst,
}
use c_modern.Common.Sets.{contains}
use c_modern.Support.Span.{SourceSpan}
use c_modern.Support.Diagnostics.{parse_array_length}
use c_modern.Sema.TypeKind.{TypeKind}
use c_modern.Sema.SemaType.{SemaType, SemaTypes, make_type, nil, cons, format_type}
use c_modern.Sema.Layout.{
  LayoutInfo, no_layout, flat, DeclKind, VariantSummary, TypeDeclSummary, LayoutState,
  find_type_decl, store_layout, erase, instantiate,
}
use c_modern.Sema.Layout.Arithmetic.{
  place_field, open_struct, close_struct, Extent, no_extent, add_payload, add_variant, close_enum,
}
use c_modern.Sema.Layout.Arithmetic.Aligned.{
  Aligned, empty, byte, two, four, eight, IsAlignment, place_field-IsAlignment,
  open_struct-IsAlignment, close_struct-Aligned, add_payload-IsAlignment, add_variant-IsAlignment,
  close_enum-Aligned, Aligned-array,
}
use c_modern.Sema.Layout.Compute.{
  Computed, builtin_layout, report_layout, refused, array_layout, leave, is_generic, struct_loop,
  payload_loop, enum_loop, aggregate_loop, compute_aggregate_layout, compute_declared,
  compute_named, compute_step, compute, compute_type_layout,
}

-- A valid layout is aligned, and so is each one that a declaration holds.
abbrev pub IsSound : LayoutInfo → Type 0
IsSound layout = layout.valid ≡ true → Aligned layout.size layout.alignment

abbrev pub AllSound : List TypeDeclSummary → Type 0
AllSound [] = Unit {0}
AllSound (decl ∷ decls) = IsSound decl.layout × AllSound decls

abbrev pub Sound : Computed → Type 0
Sound none = Unit {0}
Sound (some (layout, s)) = IsSound layout × AllSound s.type_decls

no_layout-IsSound : IsSound no_layout
no_layout-IsSound h = absurd cc

BuiltinSound : Option LayoutInfo → Type 0
BuiltinSound none = Unit {0}
BuiltinSound (some layout) = Aligned layout.size layout.alignment

builtin_layout-Sound : (name : Bytes) → BuiltinSound (builtin_layout name)
unfolding builtin_layout BuiltinSound
builtin_layout-Sound name =
    if_rule BuiltinSound (text_eq name (codes "i8") || text_eq name (codes "u8")) byte (
      if_rule BuiltinSound (text_eq name (codes "i16") || text_eq name (codes "u16")) (two refl) (
        if_rule BuiltinSound
          (text_eq name (codes "i32") || text_eq name (codes "u32") || text_eq name (codes "f32"))
          (four refl)
          (if_rule BuiltinSound
            (text_eq name (codes "i64")
              || text_eq name (codes "u64")
              || text_eq name (codes "isize")
              || text_eq name (codes "usize")
              || text_eq name (codes "uintptr")
              || text_eq name (codes "f64"))
            (eight refl)
            (if_rule BuiltinSound (text_eq name (codes "Slice")) (eight refl)
              (if_rule BuiltinSound (text_eq name (codes "Buffer")) (eight refl) tt)))))

store_layout-AllSound :
    (name : Bytes) (layout : LayoutInfo) (decls : List TypeDeclSummary)
    → IsSound layout
    → AllSound decls
    → AllSound (store_layout name layout decls)
unfolding store_layout
store_layout-AllSound name layout [] sound all = tt
store_layout-AllSound name layout (decl ∷ decls) sound (one, all) =
    if_rule AllSound (text_eq decl.name name) (sound, all)
      (one, store_layout-AllSound name layout decls sound all)

Found : Option TypeDeclSummary → Type 0
Found none = Unit {0}
Found (some decl) = IsSound decl.layout

find_type_decl-Found :
    (decls : List TypeDeclSummary) (name : Bytes)
    → AllSound decls
    → Found (find_type_decl decls name)
unfolding find_type_decl Found
find_type_decl-Found [] name all = tt
find_type_decl-Found (decl ∷ decls) name (one, all) =
    if_rule Found (text_eq decl.name name) one (find_type_decl-Found decls name all)

leave-Sound :
    (decl : TypeDeclSummary) (key : Bytes) (o : Computed)
    → Sound o
    → Sound (Option.map (leave decl key) o)
leave-Sound decl key none h = tt
leave-Sound decl key (some (layout, s)) (sound, all) =
    unfold leave in
    if_cases (λ (p : LayoutInfo × LayoutState). IsSound p.0 × AllSound p.1.type_decls) layout.valid
      (λ _. keep decl.type_params) (λ _. (no_layout-IsSound, all))
  where
    keep :
        (type_params : List Bytes)
        → Sound (
            some (elim type_params [
              | [] ↦ (
                layout,
                record s {
                  active_types = erase key s.active_types;
                  type_decls = store_layout decl.name layout s.type_decls;
                },
              )
              | _ ∷ _ ↦ (layout, record s { active_types = erase key s.active_types })
            ]))
    keep [] = (sound, store_layout-AllSound decl.name layout s.type_decls sound all)
    keep (_ ∷ _) = (sound, all)

array_layout-Sound :
    (span : SourceSpan) (metadata : Bytes) (o : Computed)
    → Sound o
    → Sound (Option.map (array_layout span metadata) o)
array_layout-Sound span metadata none h = tt
array_layout-Sound span metadata (some (element, s)) (sound, all) =
    unfold array_layout in
    if_cases (λ (p : LayoutInfo × LayoutState). IsSound p.0 × AllSound p.1.type_decls) element.valid
      (λ valid. sized (sound valid) (parse_array_length metadata)) (λ _. (no_layout-IsSound, all))
  where
    sized :
        Aligned element.size element.alignment
        → (length : Option ℕ)
        → Sound (
            some (elim length [
              | none ↦ (
                no_layout,
                report_layout span
                    (codes "array layout requires an integer constant length, got " ++ metadata)
                    s,
              )
              | some length ↦ (flat (element.size * length % 2 ^ 64) element.alignment, s)
            ]))
    sized h none = unfold report_layout in (no_layout-IsSound, all)
    sized h (some length) = ((λ _. Aligned-array element.size element.alignment length h), all)

refused-Sound :
    (span : SourceSpan) (message : Bytes) (s : LayoutState)
    → AllSound s.type_decls
    → Sound (refused span message s)
unfolding report_layout
refused-Sound span message s all = (no_layout-IsSound, all)
