-- ===== src/Sema/Layout/Arithmetic.antt =====
-- compiler/sema/layout.cpp: `AlignTo`, and how the loops of `ComputeStructLayout` and
-- `ComputeEnumLayout` place one field after the other.
pub mod Aligned
pub mod Placed
use c_modern.Common.{
  ℕ, ◌+◌, ◌-◌, ◌*◌, ◌%◌, ◌^◌, max, Bool, true, false, List, [], ◌∷◌, ◌++◌, ◌==◌, if◌then◌else◌,
}
use c_modern.Sema.Layout.{LayoutInfo}

-- `AlignTo`
unfoldable pub align_to : ℕ → ℕ → ℕ
align_to value alignment =
    if alignment == 0
    then value
    else if value % alignment == 0
    then value
    else (value + (alignment - value % alignment)) % 2 ^ 64

-- What a valid field does to `size`, `layout.alignment` and `layout.field_offsets`.
unfoldable pub place_field : Bool → LayoutInfo → LayoutInfo → LayoutInfo
unfolding align_to
place_field is_packed field acc =
    let field_alignment = if is_packed then 1 else field.alignment in
    let offset = align_to acc.size field_alignment in
    record {
      valid = acc.valid;
      size = (offset + field.size) % 2 ^ 64;
      alignment = max acc.alignment field_alignment;
      field_offsets = acc.field_offsets ++ offset ∷ [];
    }

-- `layout` and `size` before the loop.
abbrev pub open_struct : Bool → LayoutInfo
open_struct is_packed = record {
  valid = true;
  size = 0;
  alignment = if is_packed then 1 else 0;
  field_offsets = [];
}

-- `layout.size = AlignTo(size, layout.alignment)`
unfoldable pub close_struct : LayoutInfo → LayoutInfo
unfolding align_to
close_struct acc = record acc { size = align_to acc.size acc.alignment }

-- `variant_size` and `variant_alignment`, or `payload_size` and `payload_alignment`.
pub record Extent : Type 0 where
  pub size : ℕ
  pub alignment : ℕ

abbrev pub no_extent : Extent
no_extent = record { size = 0; alignment = 1 }

-- What a valid field does to the extent of its variant.
unfoldable pub add_payload : LayoutInfo → Extent → Extent
unfolding align_to
add_payload field variant = record {
  size = (align_to variant.size field.alignment + field.size) % 2 ^ 64;
  alignment = max variant.alignment field.alignment;
}

-- What a variant does to the extent of the payload.
unfoldable pub add_variant : Extent → Extent → Extent
unfolding align_to
add_variant variant payload = record {
  size = max payload.size (align_to variant.size variant.alignment);
  alignment = max payload.alignment variant.alignment;
}

-- The layout of the enum: a tag of eight bytes, and the payload behind it.
unfoldable pub close_enum : Extent → LayoutInfo
unfolding align_to
close_enum payload =
    let alignment = max 8 payload.alignment in
    record {
      valid = true;
      size = align_to ((8 + payload.size) % 2 ^ 64) alignment;
      alignment = alignment;
      field_offsets = [];
    }
