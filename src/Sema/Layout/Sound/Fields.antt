-- ===== src/Sema/Layout/Sound/Fields.antt =====
-- `ComputeStructLayout` places the layouts of its fields in order.
use c_modern.Common.{ℕ, ◌+◌, ◌^◌, ◌<◌, Bool, true, List, [], ◌∷◌, some, Bytes, ◌≡◌, refl, subst}
use c_modern.Support.Span.{SourceSpan}
use c_modern.Sema.SemaType.{SemaType, SemaTypes}
use c_modern.Sema.Layout.{LayoutInfo, LayoutState, instantiate}
use c_modern.Sema.Layout.Arithmetic.{place_field, open_struct, close_struct}
use c_modern.Sema.Layout.Arithmetic.Placed.{
  place_fields, AllAligned, InOrder, room, close_struct-InOrder,
}
use c_modern.Sema.Layout.Compute.{struct_loop, compute}
use c_modern.Sema.Layout.Sound.{AllSound, Sound}
use c_modern.Sema.Layout.Sound.Steps.{compute-Sound}

module _ (fuel : ℕ) (span : SourceSpan) (type_params : List Bytes) (type_args : SemaTypes) where
  -- `Compute` gives the fields, one after the other from one state to the next, these valid layouts.
  pub data Fields
      : LayoutState → List (Bytes × SemaType) → List LayoutInfo → LayoutState → Type 0 where
    done : {s : LayoutState} → Fields s [] [] s
    field :
        {s : LayoutState} {name : Bytes} {type : SemaType} {fields : List (Bytes × SemaType)}
        {layout : LayoutInfo} {layouts : List LayoutInfo} {next end : LayoutState}
        → compute fuel span (instantiate type_params type_args type) s ≡ some (layout, next)
        → layout.valid ≡ true
        → Fields next fields layouts end
        → Fields s ((name, type) ∷ fields) (layout ∷ layouts) end

  struct_loop-Fields :
      (is_packed : Bool) (acc : LayoutInfo) {s end : LayoutState} {fields : List (Bytes × SemaType)}
      {layouts : List LayoutInfo}
      → Fields s fields layouts end
      → struct_loop span (compute fuel span) is_packed type_params type_args fields acc s
        ≡ some (close_struct (place_fields is_packed layouts acc), end)
  unfolding struct_loop
  struct_loop-Fields is_packed acc done = refl
  struct_loop-Fields is_packed acc (field {layout = layout} e valid more) =
      rw (e, struct_loop)
        (rw valid (struct_loop-Fields is_packed (place_field is_packed layout acc) more))

  Fields-AllAligned :
      {s end : LayoutState} {fields : List (Bytes × SemaType)} {layouts : List LayoutInfo}
      → AllSound s.type_decls
      → Fields s fields layouts end
      → AllAligned layouts
  Fields-AllAligned all done = tt
  Fields-AllAligned {s} all (field {type = type} e valid more) =
      let t = instantiate type_params type_args type in
      let (sound, stored) = subst Sound e (compute-Sound fuel span t s all) in
      (sound valid, Fields-AllAligned stored more)

-- Where `Compute` gives the fields of a struct, one after the other, valid layouts whose sizes with
-- seven bytes more for each and seven for the struct are below 2 ^ 64, and the layouts that the
-- declarations hold are aligned, the loop of `ComputeStructLayout` returns a layout with an offset for each
-- field, which is a multiple of the field's alignment (if that is not 0) unless the struct is packed; no
-- field begins before the one ahead of it ends, and the last ends within the size of the struct.
pub struct_loop-InOrder :
    (fuel : ℕ) (span : SourceSpan) (type_params : List Bytes) (type_args : SemaTypes)
    (is_packed : Bool) (s end : LayoutState) (fields : List (Bytes × SemaType))
    (layouts : List LayoutInfo)
    → Fields fuel span type_params type_args s fields layouts end
    → AllSound s.type_decls
    → room layouts + 7 < 2 ^ 64
    → (result : LayoutInfo) × (struct_loop span
          (compute fuel span)
          is_packed
          type_params
          type_args
          fields
          (open_struct is_packed)
          s
        ≡ some (result, end))
      × InOrder is_packed 0 layouts result.field_offsets result.size
struct_loop-InOrder fuel span type_params type_args is_packed s end fields layouts known all h = (
  close_struct (place_fields is_packed layouts (open_struct is_packed)),
  struct_loop-Fields fuel span type_params type_args is_packed (open_struct is_packed) known,
  close_struct-InOrder is_packed layouts
      (Fields-AllAligned fuel span type_params type_args all known) h,
)
