-- ===== src/Tests/Types.antt =====
-- compiler/sema/type.cpp and layout.cpp at concrete types.
use c_modern.Common.{
  ℕ, true, false, List, [], ◌∷◌, some, Bytes, codes, text_eq, ◌≡◌, refl, ◌↔◌, arith, if◌then◌else◌,
}
use c_modern.Support.Span.{SourceSpan}
use c_modern.Sema.TypeKind.{TypeKind}
use c_modern.Sema.SemaType.{
  SemaType, make_type, nil, cons, named_type, string_type, type_eq, canonicalize_builtin_type,
  format_type,
}
use c_modern.Sema.SemaType.Canonical.{type_eq_iff}
use c_modern.Sema.Layout.Arithmetic.{place_field, open_struct, close_struct}
use c_modern.Sema.Layout.Arithmetic.Placed.{place_fields, InOrder}
use c_modern.Sema.Layout.Sound.Fields.{Fields, done, field, struct_loop-InOrder}
use c_modern.Sema.Layout.{flat, DeclKind, TypeDeclSummary, LayoutInfo, LayoutState, no_layout}
use c_modern.Sema.Layout.Compute.{struct_loop, compute, compute_type_layout}
use c_modern.Sema.Layout.Sound.{IsSound, AllSound}
use c_modern.Sema.Layout.Total.{height, AllGrounded}
use c_modern.Sema.Layout.Total.Steps.{compute_type_layout-Sound}

abbrev slice_of_str : SemaType
slice_of_str = make_type TypeKind.k_named (codes "Slice") [] (cons (named_type (codes "str")) nil)

abbrev slice_of_string : SemaType
slice_of_string = make_type TypeKind.k_named (codes "Slice") [] (cons string_type nil)

formatted_slice : format_type slice_of_str ≡ codes "Slice<string>"
unfolding format_type
formatted_slice = refl

type_eq_iff_example :
    (type_eq slice_of_str slice_of_string ≡ true)
    ↔ (canonicalize_builtin_type slice_of_str ≡ canonicalize_builtin_type slice_of_string)
type_eq_iff_example = type_eq_iff slice_of_str slice_of_string

-- A struct of a byte, a word of eight bytes and an array of three pairs of bytes.
abbrev record_decl : TypeDeclSummary
record_decl = record {
  kind = DeclKind.k_struct;
  name = codes "Record";
  type_params = [];
  fields =
      (codes "tag", named_type (codes "u8"))
      ∷ (codes "count", named_type (codes "i64"))
      ∷ (
        codes "pairs",
        make_type TypeKind.k_array [] (codes "3") (cons (named_type (codes "u16")) nil),
      )
      ∷ [];
  variants = [];
  aliased_type = make_type TypeKind.k_unknown [] [] nil;
  is_packed = false;
  layout = no_layout;
}

abbrev one_decl : List TypeDeclSummary
one_decl = record_decl ∷ []

abbrev nowhere : SourceSpan
nowhere = record { begin = record { line = 1; column = 1 }; end = record { line = 1; column = 1 } }

abbrev name_cost : Bytes → ℕ
unfolding text_eq
name_cost name = if text_eq name (codes "Record") then 2 else 0

one_decl-AllGrounded : AllGrounded name_cost one_decl
unfolding text_eq
one_decl-AllGrounded = (
  record {
    plain = refl;
    fields = (omega arith, (omega arith, (omega arith, tt)));
    variants = tt;
    alias = omega arith;
  },
  tt,
)

one_decl-AllSound : AllSound one_decl
one_decl-AllSound = ((λ h. absurd cc), tt)

compute_type_layout-Sound_example :
    (layout : LayoutInfo) × (s : LayoutState) × (compute_type_layout
        (height name_cost (named_type (codes "Record")))
        one_decl
        (named_type (codes "Record"))
        nowhere
      ≡ some (layout, s))
    × IsSound layout
    × AllSound s.type_decls
compute_type_layout-Sound_example =
    compute_type_layout-Sound name_cost one_decl (named_type (codes "Record")) nowhere
      one_decl-AllGrounded one_decl-AllSound

-- A byte, a word of eight bytes and two bytes.
abbrev three_fields : List LayoutInfo
three_fields = flat 1 1 ∷ flat 8 8 ∷ flat 2 2 ∷ []

padded_size : (close_struct (place_fields false three_fields (open_struct false))).size ≡ 24
unfolding close_struct place_field
padded_size = refl

abbrev at_start : LayoutState
at_start = record { type_decls = one_decl; active_types = []; reports = [] }

abbrev field_layouts : List LayoutInfo
field_layouts = flat 1 1 ∷ flat 8 8 ∷ flat 6 2 ∷ []

record_fields : Fields 2 nowhere [] nil at_start record_decl.fields field_layouts at_start
unfolding compute
record_fields = field refl refl (field refl refl (field refl refl done))

struct_loop-InOrder_example :
    (result : LayoutInfo) × (struct_loop nowhere
        (compute 2 nowhere)
        false
        []
        nil
        record_decl.fields
        (open_struct false)
        at_start
      ≡ some (result, at_start))
    × InOrder false 0 field_layouts result.field_offsets result.size
struct_loop-InOrder_example =
    struct_loop-InOrder 2 nowhere [] nil false at_start at_start record_decl.fields field_layouts
      record_fields one_decl-AllSound (omega arith)
