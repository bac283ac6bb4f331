-- ===== src/Sema/Layout/Total.antt =====
-- `Compute` returns, for a type whose declarations contain each other by value without a cycle.
pub mod Steps
use mathlib.Core.Option
use c_modern.Common.{
  ℕ, zero, suc, not, ◌+◌, ◌*◌, ◌%◌, ◌^◌, ◌++◌, ◌||◌, Bool, true, false, ◌&&◌, List, [], ◌∷◌, Option,
  none, some, Bytes, text_eq, codes, if◌then◌else◌, ◌≡◌, refl, if_rule, if_cases, ap, ◌∙◌, ◌≤◌,
  text_eq_iff, arith, Bool-cases, Option-cases, ◌⊎◌, inl, inr, subst,
}
use c_modern.Common.Sets.{contains}
use c_modern.Support.Span.{SourceSpan}
use c_modern.Support.Diagnostics.{parse_array_length}
use c_modern.Sema.TypeKind.{TypeKind}
use c_modern.Sema.SemaType.{SemaType, SemaTypes, make_type, nil, cons, format_type}
use c_modern.Sema.Layout.{
  LayoutInfo, no_layout, flat, DeclKind, VariantSummary, TypeDeclSummary, LayoutState,
  find_type_decl, store_layout, erase, instantiate,
}
use c_modern.Sema.Layout.Arithmetic.{
  place_field, open_struct, close_struct, Extent, no_extent, add_payload, add_variant, close_enum,
}
use c_modern.Sema.Layout.Compute.{
  Computed, builtin_layout, report_layout, refused, array_layout, leave, is_generic, struct_loop,
  payload_loop, enum_loop, aggregate_loop, compute_aggregate_layout, compute_declared,
  compute_named, compute_step, compute, compute_type_layout,
}

-- The calls of `Compute` below a call on the type, where `cost` bounds those below a named type.
abbrev pub height : (Bytes → ℕ) → SemaType → ℕ
height cost (make_type TypeKind.k_named name metadata types) = suc (cost name)
height cost (make_type TypeKind.k_const name metadata (cons type types)) = suc (height cost type)
height cost (make_type TypeKind.k_array name metadata (cons type types)) = suc (height cost type)
height cost (make_type k name metadata types) = 1

abbrev pub AllFieldsWithin : (Bytes → ℕ) → ℕ → List (Bytes × SemaType) → Type 0
AllFieldsWithin cost n [] = Unit {0}
AllFieldsWithin cost n ((_, type) ∷ fields) = (height cost type ≤ n) × AllFieldsWithin cost n fields

abbrev pub AllVariantsWithin : (Bytes → ℕ) → ℕ → List VariantSummary → Type 0
AllVariantsWithin cost n [] = Unit {0}
AllVariantsWithin cost n (variant ∷ variants) =
    AllFieldsWithin cost n variant.payload_fields × AllVariantsWithin cost n variants

-- The declaration has no parameters, and the types in it cost less than itself: there is such a cost
-- exactly when no type contains itself by value.
pub record Grounded (cost : Bytes → ℕ) (decl : TypeDeclSummary) : Type 0 where
  pub plain : decl.type_params ≡ []
  pub fields : AllFieldsWithin cost (cost decl.name) decl.fields
  pub variants : AllVariantsWithin cost (cost decl.name) decl.variants
  pub alias : height cost decl.aliased_type ≤ cost decl.name

abbrev pub AllGrounded : (Bytes → ℕ) → List TypeDeclSummary → Type 0
AllGrounded cost [] = Unit {0}
AllGrounded cost (decl ∷ decls) = Grounded cost decl × AllGrounded cost decls

-- A computation that returns leaves the declarations grounded.
abbrev pub Returns : (Bytes → ℕ) → Computed → Type 0
Returns cost none = ⊥
Returns cost (some (layout, s)) = AllGrounded cost s.type_decls

store_layout-AllGrounded :
    (cost : Bytes → ℕ) (name : Bytes) (layout : LayoutInfo) (decls : List TypeDeclSummary)
    → AllGrounded cost decls
    → AllGrounded cost (store_layout name layout decls)
unfolding store_layout
store_layout-AllGrounded cost name layout [] all = tt
store_layout-AllGrounded cost name layout (decl ∷ decls) (one, all) =
    if_rule (AllGrounded cost) (text_eq decl.name name)
      (
        record {
          plain = one.plain;
          fields = one.fields;
          variants = one.variants;
          alias = one.alias;
        },
        all,
      )
      (one, store_layout-AllGrounded cost name layout decls all)

Found : (Bytes → ℕ) → Bytes → Option TypeDeclSummary → Type 0
Found cost name none = Unit {0}
Found cost name (some decl) = Grounded cost decl × (decl.name ≡ name)

find_type_decl-Found :
    (cost : Bytes → ℕ) (decls : List TypeDeclSummary) (name : Bytes)
    → AllGrounded cost decls
    → Found cost name (find_type_decl decls name)
unfolding find_type_decl Found
find_type_decl-Found cost [] name all = tt
find_type_decl-Found cost (decl ∷ decls) name (one, all) =
    if_cases (Found cost name) (text_eq decl.name name)
      (λ same. (one, (text_eq_iff decl.name name).0 same))
      (λ _. find_type_decl-Found cost decls name all)

leave-Returns :
    (cost : Bytes → ℕ) (decl : TypeDeclSummary) (key : Bytes) (o : Computed)
    → Returns cost o
    → Returns cost (Option.map (leave decl key) o)
leave-Returns cost decl key none h = h
leave-Returns cost decl key (some (layout, s)) all =
    unfold leave in
    if_rule (λ (p : LayoutInfo × LayoutState). AllGrounded cost p.1.type_decls) layout.valid
      (keep decl.type_params) all
  where
    keep :
        (type_params : List Bytes)
        → Returns cost (
            some (elim type_params [
              | [] ↦ (
                layout,
                record s {
                  active_types = erase key s.active_types;
                  type_decls = store_layout decl.name layout s.type_decls;
                },
              )
              | _ ∷ _ ↦ (layout, record s { active_types = erase key s.active_types })
            ]))
    keep [] = store_layout-AllGrounded cost decl.name layout s.type_decls all
    keep (_ ∷ _) = all

array_layout-Returns :
    (cost : Bytes → ℕ) (span : SourceSpan) (metadata : Bytes) (o : Computed)
    → Returns cost o
    → Returns cost (Option.map (array_layout span metadata) o)
array_layout-Returns cost span metadata none h = h
array_layout-Returns cost span metadata (some (element, s)) all =
    unfold array_layout in
    if_rule (λ (p : LayoutInfo × LayoutState). AllGrounded cost p.1.type_decls) element.valid
      (sized (parse_array_length metadata)) all
  where
    sized :
        (length : Option ℕ)
        → Returns cost (
            some (elim length [
              | none ↦ (
                no_layout,
                report_layout span
                    (codes "array layout requires an integer constant length, got " ++ metadata)
                    s,
              )
              | some length ↦ (flat (element.size * length % 2 ^ 64) element.alignment, s)
            ]))
    sized none = unfold report_layout in all
    sized (some length) = all

refused-Returns :
    (cost : Bytes → ℕ) (span : SourceSpan) (message : Bytes) (s : LayoutState)
    → AllGrounded cost s.type_decls
    → Returns cost (refused span message s)
unfolding report_layout
refused-Returns cost span message s all = all
