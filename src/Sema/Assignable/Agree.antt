-- ===== src/Sema/Assignable/Agree.antt =====
-- What is assignable to a type merges into it.
use c_modern.Common.{Bool, true, false, ◌&&◌, List, ◌≡◌, ◌≢◌, refl, arith, Bool-cases, inl, inr}
use c_modern.Sema.TypeKind.{TypeKind, kind_eq, kind_eq_iff}
use c_modern.Sema.SemaType.{SemaType, type_eq}
use c_modern.Sema.Layout.{TypeDeclSummary}
use c_modern.Sema.Strip.{TypeStripMode}
use c_modern.Sema.Assignable.Merge.{one_kind}
use c_modern.Sema.Assignable.{
  type_kind, has_kind, stripped, is_pointer_like_type, is_integer_type, is_float_type,
  assignable_canonical, merge_canonical, canonical_of, is_assignable, merge_numeric_types,
}

other_kind : (k k' : TypeKind) → k ≢ k' → kind_eq k k' ≡ false
other_kind k k' h = elim (Bool-cases (kind_eq k k')) [
  | inl e ↦ absurd (h ((kind_eq_iff k k').0 e))
  | inr e ↦ e
]

module _ (pointer : Bool) (left right : SemaType) where
  -- The one that is left of the tests that hold of what is assignable.
  float_test :
      has_kind TypeKind.k_unknown left ≡ false
      → has_kind TypeKind.k_unknown right ≡ false
      → has_kind TypeKind.k_nil right ≡ false
      → type_eq left right ≡ false
      → (is_integer_type left && has_kind TypeKind.k_int_literal right) ≡ false
      → assignable_canonical pointer left right ≡ true
      → (is_float_type left && has_kind TypeKind.k_float_literal right) ≡ true
  unfolding assignable_canonical
  float_test hl hr hn other whole h = ground arith

  not-is_integer_type :
      (is_float_type left && has_kind TypeKind.k_float_literal right) ≡ true
      → (is_integer_type right && has_kind TypeKind.k_int_literal left) ≡ false
  unfolding is_integer_type kind_eq
  not-is_integer_type h =
      let apart = one_kind (type_kind right) TypeKind.k_named TypeKind.k_float_literal refl in
      ground arith

  assignable-merge :
      has_kind TypeKind.k_unknown left ≡ false
      → has_kind TypeKind.k_unknown right ≡ false
      → has_kind TypeKind.k_nil right ≡ false
      → assignable_canonical pointer left right ≡ true
      → merge_canonical left right ≡ left
  unfolding merge_canonical
  assignable-merge hl hr hn h = elim (Bool-cases (type_eq left right)) [
    | inl same ↦ rw (hl, hr, same) refl
    | inr other ↦
        elim (Bool-cases (is_integer_type left && has_kind TypeKind.k_int_literal right)) [
          | inl literal ↦ rw (hl, hr, other, literal) refl
          | inr whole ↦
              let float = float_test hl hr hn other whole h in
              rw (hl, hr, other, whole, not-is_integer_type float, float) refl
        ]
  ]

-- `MergeNumericTypes` of a type and of one that `IsAssignable` lets it take is the first type in its
-- canonical form, where neither type is unknown and the second is not the null pointer's.
pub merge_numeric_types-is_assignable :
    (decls : List TypeDeclSummary) (expected actual : SemaType)
    → type_kind (canonical_of decls expected) ≢ TypeKind.k_unknown
    → type_kind (canonical_of decls actual) ≢ TypeKind.k_unknown
    → type_kind (canonical_of decls actual) ≢ TypeKind.k_nil
    → is_assignable decls expected actual ≡ true
    → merge_numeric_types decls expected actual ≡ canonical_of decls expected
unfolding is_assignable merge_numeric_types
merge_numeric_types-is_assignable decls expected actual known known' value h =
    assignable-merge
      (is_pointer_like_type
        (stripped decls TypeStripMode.k_aliases_only (canonical_of decls expected)))
      (canonical_of decls expected) (canonical_of decls actual)
      (other_kind (type_kind (canonical_of decls expected)) TypeKind.k_unknown known)
      (other_kind (type_kind (canonical_of decls actual)) TypeKind.k_unknown known')
      (other_kind (type_kind (canonical_of decls actual)) TypeKind.k_nil value) h
