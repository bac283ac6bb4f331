-- ===== src/Sema/Layout/Arithmetic/Aligned.antt =====
-- Every alignment is a power of two up to 8, or 0 for a struct without fields, and the size is a
-- multiple of it, even where the size wraps.
use c_modern.Common.{ℕ, ◌+◌, ◌*◌, ◌/◌, ◌%◌, ◌^◌, max, Bool, true, false, ◌≡◌, refl, arith, ap, ◌∙◌}
use native.Mathlib.Nat.{mul_assoc}
use c_modern.Sema.Layout.{LayoutInfo}
use c_modern.Sema.Layout.Arithmetic.{
  align_to, place_field, open_struct, close_struct, Extent, add_payload, add_variant, close_enum,
}

-- The size is a multiple of the alignment.
pub data Aligned (size : ℕ) : ℕ → Type 0 where
  empty : size ≡ 0 → Aligned size 0
  byte : Aligned size 1
  two : size % 2 ≡ 0 → Aligned size 2
  four : size % 4 ≡ 0 → Aligned size 4
  eight : size % 8 ≡ 0 → Aligned size 8

-- An alignment, where a size of 0 goes with none.
pub data IsAlignment (size : ℕ) : ℕ → Type 0 where
  empty : size ≡ 0 → IsAlignment size 0
  byte : IsAlignment size 1
  two : IsAlignment size 2
  four : IsAlignment size 4
  eight : IsAlignment size 8

align_to-Aligned :
    (size alignment : ℕ) → IsAlignment size alignment → Aligned (align_to size alignment) alignment
unfolding align_to
align_to-Aligned size _ (empty e) = empty e
align_to-Aligned size _ byte = byte
align_to-Aligned size _ two = two (ground arith)
align_to-Aligned size _ four = four (ground arith)
align_to-Aligned size _ eight = eight (ground arith)

-- The alignments before and behind a field.
IsAlignment-max :
    (size size' a b : ℕ)
    → IsAlignment size a
    → Aligned size' b
    → IsAlignment ((align_to size b + size') % 2 ^ 64) (max a b)
unfolding align_to
IsAlignment-max size size' _ _ (empty e) (empty e') = empty (omega arith)
IsAlignment-max size size' _ _ (empty e) byte = byte
IsAlignment-max size size' _ _ (empty e) (two e') = two
IsAlignment-max size size' _ _ (empty e) (four e') = four
IsAlignment-max size size' _ _ (empty e) (eight e') = eight
IsAlignment-max size size' _ _ byte (empty e') = byte
IsAlignment-max size size' _ _ byte byte = byte
IsAlignment-max size size' _ _ byte (two e') = two
IsAlignment-max size size' _ _ byte (four e') = four
IsAlignment-max size size' _ _ byte (eight e') = eight
IsAlignment-max size size' _ _ two (empty e') = two
IsAlignment-max size size' _ _ two byte = two
IsAlignment-max size size' _ _ two (two e') = two
IsAlignment-max size size' _ _ two (four e') = four
IsAlignment-max size size' _ _ two (eight e') = eight
IsAlignment-max size size' _ _ four (empty e') = four
IsAlignment-max size size' _ _ four byte = four
IsAlignment-max size size' _ _ four (two e') = four
IsAlignment-max size size' _ _ four (four e') = four
IsAlignment-max size size' _ _ four (eight e') = eight
IsAlignment-max size size' _ _ eight (empty e') = eight
IsAlignment-max size size' _ _ eight byte = eight
IsAlignment-max size size' _ _ eight (two e') = eight
IsAlignment-max size size' _ _ eight (four e') = eight
IsAlignment-max size size' _ _ eight (eight e') = eight

IsAlignment-join :
    (size size' a b : ℕ)
    → IsAlignment size a
    → IsAlignment size' b
    → IsAlignment (max size (align_to size' b)) (max a b)
unfolding align_to
IsAlignment-join size size' _ _ (empty e) (empty e') = empty (omega arith)
IsAlignment-join size size' _ _ (empty e) byte = byte
IsAlignment-join size size' _ _ (empty e) two = two
IsAlignment-join size size' _ _ (empty e) four = four
IsAlignment-join size size' _ _ (empty e) eight = eight
IsAlignment-join size size' _ _ byte (empty e') = byte
IsAlignment-join size size' _ _ byte byte = byte
IsAlignment-join size size' _ _ byte two = two
IsAlignment-join size size' _ _ byte four = four
IsAlignment-join size size' _ _ byte eight = eight
IsAlignment-join size size' _ _ two (empty e') = two
IsAlignment-join size size' _ _ two byte = two
IsAlignment-join size size' _ _ two two = two
IsAlignment-join size size' _ _ two four = four
IsAlignment-join size size' _ _ two eight = eight
IsAlignment-join size size' _ _ four (empty e') = four
IsAlignment-join size size' _ _ four byte = four
IsAlignment-join size size' _ _ four two = four
IsAlignment-join size size' _ _ four four = four
IsAlignment-join size size' _ _ four eight = eight
IsAlignment-join size size' _ _ eight (empty e') = eight
IsAlignment-join size size' _ _ eight byte = eight
IsAlignment-join size size' _ _ eight two = eight
IsAlignment-join size size' _ _ eight four = eight
IsAlignment-join size size' _ _ eight eight = eight

eight_most : (size a : ℕ) → IsAlignment size a → max 8 a ≡ 8
eight_most size _ (empty e) = refl
eight_most size _ byte = refl
eight_most size _ two = refl
eight_most size _ four = refl
eight_most size _ eight = refl

pub place_field-IsAlignment :
    (is_packed : Bool) (field acc : LayoutInfo)
    → IsAlignment acc.size acc.alignment
    → Aligned field.size field.alignment
    → IsAlignment (place_field is_packed field acc).size (place_field is_packed field acc).alignment
unfolding place_field
place_field-IsAlignment true field acc h f =
    IsAlignment-max acc.size field.size acc.alignment 1 h byte
place_field-IsAlignment false field acc h f =
    IsAlignment-max acc.size field.size acc.alignment field.alignment h f

pub open_struct-IsAlignment : (is_packed : Bool) → IsAlignment 0 (open_struct is_packed).alignment
open_struct-IsAlignment true = byte
open_struct-IsAlignment false = empty refl

pub close_struct-Aligned :
    (acc : LayoutInfo)
    → IsAlignment acc.size acc.alignment
    → Aligned (close_struct acc).size (close_struct acc).alignment
unfolding close_struct
close_struct-Aligned acc h = align_to-Aligned acc.size acc.alignment h

pub add_payload-IsAlignment :
    (field : LayoutInfo) (variant : Extent)
    → IsAlignment variant.size variant.alignment
    → Aligned field.size field.alignment
    → IsAlignment (add_payload field variant).size (add_payload field variant).alignment
unfolding add_payload
add_payload-IsAlignment field variant h f =
    IsAlignment-max variant.size field.size variant.alignment field.alignment h f

pub add_variant-IsAlignment :
    (variant payload : Extent)
    → IsAlignment variant.size variant.alignment
    → IsAlignment payload.size payload.alignment
    → IsAlignment (add_variant variant payload).size (add_variant variant payload).alignment
unfolding add_variant
add_variant-IsAlignment variant payload h h' =
    IsAlignment-join payload.size variant.size payload.alignment variant.alignment h' h

pub close_enum-Aligned :
    (payload : Extent)
    → IsAlignment payload.size payload.alignment
    → Aligned (close_enum payload).size (close_enum payload).alignment
unfolding close_enum
close_enum-Aligned payload h =
    rw (eight_most payload.size payload.alignment h)
      (align_to-Aligned ((8 + payload.size) % 2 ^ 64) 8 eight)

multiple : (a size length : ℕ) → size ≡ a * (size / a) → size * length ≡ a * (size / a * length)
multiple a size length e = ap (λ x. x * length) e ∙ mul_assoc a (size / a) length

-- An array of aligned elements, even where its size wraps.
pub Aligned-array : (size a length : ℕ) → Aligned size a → Aligned (size * length % 2 ^ 64) a
Aligned-array size _ length (empty e) =
    empty (let zeros : size * length ≡ 0 = rw e (omega arith) in omega arith)
Aligned-array size _ length byte = byte
Aligned-array size _ length (two e) =
    two (let m = multiple 2 size length (omega arith) in omega arith)
Aligned-array size _ length (four e) =
    four (let m = multiple 4 size length (omega arith) in omega arith)
Aligned-array size _ length (eight e) =
    eight (let m = multiple 8 size length (omega arith) in omega arith)
