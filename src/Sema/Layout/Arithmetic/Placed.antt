-- ===== src/Sema/Layout/Arithmetic/Placed.antt =====
-- The fields of a struct lie behind each other, each at a multiple of its alignment, within the size.
use c_modern.Common.{
  ℕ, ◌+◌, ◌^◌, ◌≤◌, ◌<◌, max, Bool, true, false, List, [], ◌∷◌, ◌++◌, append-nil, append_assoc,
  if◌then◌else◌, ◌≡◌, refl, sym, ap, ◌∙◌, arith, subst,
}
use c_modern.Sema.Layout.{LayoutInfo}
use c_modern.Sema.Layout.Arithmetic.{align_to, place_field, open_struct, close_struct}
use c_modern.Sema.Layout.Arithmetic.Aligned.{
  Aligned, IsAlignment, empty, byte, two, four, eight, place_field-IsAlignment,
  open_struct-IsAlignment,
}

-- The loop over fields whose layouts are known.
abbrev pub place_fields : Bool → List LayoutInfo → LayoutInfo → LayoutInfo
place_fields is_packed [] acc = acc
place_fields is_packed (field ∷ fields) acc =
    place_fields is_packed fields (place_field is_packed field acc)

abbrev pub AllAligned : List LayoutInfo → Type 0
AllAligned [] = Unit {0}
AllAligned (field ∷ fields) = Aligned field.size field.alignment × AllAligned fields

-- Room enough for the fields: their sizes, and seven bytes of padding before each.
abbrev pub room : List LayoutInfo → ℕ
room [] = 0
room (field ∷ fields) = field.size + 7 + room fields

-- The offset is a multiple of the alignment, where there is one.
abbrev pub AtMultiple : ℕ → ℕ → Type 0
AtMultiple offset alignment = Aligned offset (max 1 alignment)

-- From `start` on there are the fields at their offsets, one behind the other, up to `end`.
abbrev pub InOrder : Bool → ℕ → List LayoutInfo → List ℕ → ℕ → Type 0
InOrder is_packed start [] [] end = start ≤ end
InOrder is_packed start (field ∷ fields) (offset ∷ offsets) end =
    (start ≤ offset)
    × (is_packed ≡ false → AtMultiple offset field.alignment)
    × InOrder is_packed (offset + field.size) fields offsets end
InOrder is_packed start _ _ end = ⊥

-- A field is placed at most seven bytes further on, at a multiple of its alignment.
record Step (size alignment : ℕ) : Type 0 where
  behind : size ≤ align_to size alignment
  near : align_to size alignment ≤ size + 7
  multiple : AtMultiple (align_to size alignment) alignment

step :
    (size size' alignment : ℕ) → Aligned size' alignment → size + 7 < 2 ^ 64 → Step size alignment
unfolding align_to
step size size' _ (empty e) h = record { behind = omega arith; near = omega arith; multiple = byte }
step size size' _ byte h = record { behind = ground arith; near = ground arith; multiple = byte }
step size size' _ (two e) h = record {
  behind = ground arith;
  near = ground arith;
  multiple = two (ground arith);
}
step size size' _ (four e) h = record {
  behind = ground arith;
  near = ground arith;
  multiple = four (ground arith);
}
step size size' _ (eight e) h = record {
  behind = ground arith;
  near = ground arith;
  multiple = eight (ground arith);
}

field_step :
    (is_packed : Bool) (field : LayoutInfo) (size : ℕ)
    → Aligned field.size field.alignment
    → size + 7 < 2 ^ 64
    → (size ≤ align_to size (if is_packed then 1 else field.alignment))
      × (align_to size (if is_packed then 1 else field.alignment) ≤ size + 7)
      × (is_packed ≡ false
          → AtMultiple (align_to size (if is_packed then 1 else field.alignment)) field.alignment)
field_step true field size f h =
    let s = step size field.size 1 byte h in (s.behind, s.near, (λ e. absurd cc))
field_step false field size f h =
    let s = step size field.size field.alignment f h in (s.behind, s.near, (λ _. s.multiple))

-- What the loop adds to the offsets.
record Placing (is_packed : Bool) (fields : List LayoutInfo) (acc end : LayoutInfo) : Type 0 where
  offsets : List ℕ
  added : end.field_offsets ≡ acc.field_offsets ++ offsets
  ordered : InOrder is_packed acc.size fields offsets end.size
  bounded : end.size ≤ acc.size + room fields
  aligned : IsAlignment end.size end.alignment

place_fields-Placing :
    (is_packed : Bool) (fields : List LayoutInfo) (acc : LayoutInfo)
    → AllAligned fields
    → acc.size + room fields < 2 ^ 64
    → IsAlignment acc.size acc.alignment
    → Placing is_packed fields acc (place_fields is_packed fields acc)
place_fields-Placing is_packed [] acc all h a = record {
  offsets = [];
  added = sym (append-nil acc.field_offsets);
  ordered = omega arith;
  bounded = omega arith;
  aligned = a;
}
place_fields-Placing is_packed (field ∷ fields) acc (f, all) h a =
    let offset = align_to acc.size (if is_packed then 1 else field.alignment) in
    let (behind, near, multiple) = field_step is_packed field acc.size f (omega arith) in
    let size : (place_field is_packed field acc).size ≡ offset + field.size =
      unfold place_field in omega arith in
    let p =
      place_fields-Placing is_packed fields (place_field is_packed field acc) all (omega arith)
        (place_field-IsAlignment is_packed field acc a f) in
    let first : (place_field is_packed field acc).field_offsets ≡ acc.field_offsets ++ offset ∷ [] =
      unfold place_field in refl in
    record {
      offsets = offset ∷ p.offsets;
      added =
          p.added
          ∙ ap (λ xs. xs ++ p.offsets) first
          ∙ append_assoc acc.field_offsets (offset ∷ []) p.offsets;
      ordered = (
        behind,
        multiple,
        subst
            (λ n.
              InOrder is_packed n fields p.offsets
                (place_fields is_packed (field ∷ fields) acc).size)
            size p.ordered,
      );
      bounded = omega (arith, p.bounded);
      aligned = p.aligned;
    }

InOrder-later :
    (is_packed : Bool) (start : ℕ) (fields : List LayoutInfo) (offsets : List ℕ) (end later : ℕ)
    → end ≤ later
    → InOrder is_packed start fields offsets end
    → InOrder is_packed start fields offsets later
InOrder-later is_packed start [] [] end later h i = omega arith
InOrder-later is_packed start (field ∷ fields) (offset ∷ offsets) end later h (a, b, i) =
    (a, b, InOrder-later is_packed (offset + field.size) fields offsets end later h i)
InOrder-later is_packed start [] (offset ∷ offsets) end later h i = absurd i
InOrder-later is_packed start (field ∷ fields) [] end later h i = absurd i

close_behind :
    (size alignment : ℕ)
    → IsAlignment size alignment
    → size + 7 < 2 ^ 64
    → size ≤ align_to size alignment
unfolding align_to
close_behind size _ (empty e) h = omega arith
close_behind size _ byte h = ground arith
close_behind size _ two h = ground arith
close_behind size _ four h = ground arith
close_behind size _ eight h = ground arith

-- In a struct of fields whose layouts are aligned, and whose sizes with seven bytes more for each and
-- seven for the struct are below 2 ^ 64, each
-- field has its own offset, which is a multiple of the field's alignment (if that is not 0) unless the
-- struct is packed; no field begins before the one ahead of it ends, and the last ends within the size
-- of the struct.
pub close_struct-InOrder :
    (is_packed : Bool) (fields : List LayoutInfo)
    → AllAligned fields
    → room fields + 7 < 2 ^ 64
    → InOrder is_packed 0 fields
        (close_struct (place_fields is_packed fields (open_struct is_packed))).field_offsets
        (close_struct (place_fields is_packed fields (open_struct is_packed))).size
unfolding close_struct
close_struct-InOrder is_packed fields all h =
    let end = place_fields is_packed fields (open_struct is_packed) in
    let p =
      place_fields-Placing is_packed fields (open_struct is_packed) all (omega arith)
        (open_struct-IsAlignment is_packed) in
    let later = close_behind end.size end.alignment p.aligned (omega (arith, p.bounded)) in
    subst (λ xs. InOrder is_packed 0 fields xs (align_to end.size end.alignment)) (sym p.added)
      (InOrder-later is_packed 0 fields p.offsets end.size (align_to end.size end.alignment) later
        p.ordered)
