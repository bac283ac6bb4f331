-- ===== src/Sema/Assignable/Merge.antt =====
-- The merging of two types does not depend on their order.
use c_modern.Common.{
  Bool, true, false, ◌&&◌, ◌||◌, List, if◌then◌else◌, ◌≡◌, refl, sym, ap, ◌∙◌, arith, Bool-cases,
  inl, inr,
}
use c_modern.Sema.TypeKind.{TypeKind, kind_eq, kind_eq_iff}
use c_modern.Sema.SemaType.{SemaType, type_eq, canonicalize_builtin_type}
use c_modern.Sema.SemaType.Canonical.{type_eq_iff, canonicalize_builtin_type_idem}
use c_modern.Sema.Layout.{TypeDeclSummary}
use c_modern.Sema.Strip.{TypeStripMode}
use c_modern.Sema.Assignable.{
  type_kind, has_kind, unknown, is_integer_type, is_float_type, merge_canonical, canonical_of,
  stripped, merge_numeric_types,
}

-- Two chains of tests that differ in the order of the pairs.
choose : Bool → Bool → Bool → Bool → Bool → Bool → Bool → Bool → SemaType → SemaType → SemaType
choose u e a b c d f g left right =
    if u
    then unknown
    else if e
    then left
    else if a
    then left
    else if b
    then right
    else if c
    then left
    else if d
    then right
    else if f
    then left
    else if g
    then right
    else unknown

choose-swap :
    (u e a b c d f g : Bool) (left right : SemaType)
    → (e ≡ true → left ≡ right)
    → ((a || (c || f)) && (b || (d || g))) ≡ false
    → choose u e a b c d f g left right ≡ choose u e b a d c g f right left
unfolding choose
choose-swap u e a b c d f g left right same apart = ground (arith, same)

-- No type has two kinds.
pub one_kind : (k a b : TypeKind) → kind_eq a b ≡ false → (kind_eq k a && kind_eq k b) ≡ false
one_kind k a b h = elim (Bool-cases (kind_eq k a)) [
  | inr out ↦ ground arith
  | inl first ↦ elim (Bool-cases (kind_eq k b)) [
    | inr out ↦ ground arith
    | inl second ↦
        let e : a ≡ b = sym ((kind_eq_iff k a).0 first) ∙ (kind_eq_iff k b).0 second in
        let both = (kind_eq_iff a b).1 e in absurd cc
  ]
]

type_eq-swap : (left right : SemaType) → type_eq left right ≡ type_eq right left
type_eq-swap left right = ground (arith, type_eq_iff left right, type_eq_iff right left)

module _ (left right : SemaType) where
  named_int :
      (type : SemaType)
      → (has_kind TypeKind.k_named type && has_kind TypeKind.k_int_literal type) ≡ false
  unfolding kind_eq
  named_int type = one_kind (type_kind type) TypeKind.k_named TypeKind.k_int_literal refl

  named_float :
      (type : SemaType)
      → (has_kind TypeKind.k_named type && has_kind TypeKind.k_float_literal type) ≡ false
  unfolding kind_eq
  named_float type = one_kind (type_kind type) TypeKind.k_named TypeKind.k_float_literal refl

  int_float :
      (type : SemaType)
      → (has_kind TypeKind.k_int_literal type && has_kind TypeKind.k_float_literal type) ≡ false
  unfolding kind_eq
  int_float type = one_kind (type_kind type) TypeKind.k_int_literal TypeKind.k_float_literal refl

  -- The tests that choose the left type and those that choose the right one exclude each other.
  tests_apart :
      (((is_integer_type left && has_kind TypeKind.k_int_literal right)
          || ((is_float_type left && has_kind TypeKind.k_float_literal right)
              || (has_kind TypeKind.k_float_literal left && has_kind TypeKind.k_int_literal right)))
        && ((is_integer_type right && has_kind TypeKind.k_int_literal left)
            || ((is_float_type right && has_kind TypeKind.k_float_literal left)
                || (has_kind TypeKind.k_float_literal right
                    && has_kind TypeKind.k_int_literal left))))
      ≡ false
  unfolding is_integer_type is_float_type
  tests_apart = ground (
    arith,
    named_int left,
    named_int right,
    named_float left,
    named_float right,
    int_float left,
    int_float right,
  )

  merge_canonical-swap :
      canonicalize_builtin_type left ≡ left
      → canonicalize_builtin_type right ≡ right
      → merge_canonical left right ≡ merge_canonical right left
  unfolding merge_canonical choose
  merge_canonical-swap hl hr =
      let swapped =
        choose-swap (has_kind TypeKind.k_unknown left || has_kind TypeKind.k_unknown right)
          (type_eq left right) (is_integer_type left && has_kind TypeKind.k_int_literal right)
          (is_integer_type right && has_kind TypeKind.k_int_literal left)
          (is_float_type left && has_kind TypeKind.k_float_literal right)
          (is_float_type right && has_kind TypeKind.k_float_literal left)
          (has_kind TypeKind.k_float_literal left && has_kind TypeKind.k_int_literal right)
          (has_kind TypeKind.k_float_literal right && has_kind TypeKind.k_int_literal left) left
          right (λ e. sym hl ∙ (type_eq_iff left right).0 e ∙ hr) tests_apart in
      let e : type_eq left right ≡ type_eq right left = type_eq-swap left right in
      let u : (has_kind TypeKind.k_unknown left || has_kind TypeKind.k_unknown right)
          ≡ (has_kind TypeKind.k_unknown right || has_kind TypeKind.k_unknown left) =
        ground arith in
      swapped
      ∙ ap
          (λ b.
            choose b (type_eq left right)
              (is_integer_type right && has_kind TypeKind.k_int_literal left)
              (is_integer_type left && has_kind TypeKind.k_int_literal right)
              (is_float_type right && has_kind TypeKind.k_float_literal left)
              (is_float_type left && has_kind TypeKind.k_float_literal right)
              (has_kind TypeKind.k_float_literal right && has_kind TypeKind.k_int_literal left)
              (has_kind TypeKind.k_float_literal left && has_kind TypeKind.k_int_literal right)
              right left)
          u
      ∙ ap
          (λ b.
            choose (has_kind TypeKind.k_unknown right || has_kind TypeKind.k_unknown left) b
              (is_integer_type right && has_kind TypeKind.k_int_literal left)
              (is_integer_type left && has_kind TypeKind.k_int_literal right)
              (is_float_type right && has_kind TypeKind.k_float_literal left)
              (is_float_type left && has_kind TypeKind.k_float_literal right)
              (has_kind TypeKind.k_float_literal right && has_kind TypeKind.k_int_literal left)
              (has_kind TypeKind.k_float_literal left && has_kind TypeKind.k_int_literal right)
              right left)
          e

-- `MergeNumericTypes` gives the same type for two types in either order.
pub merge_numeric_types_comm :
    (decls : List TypeDeclSummary) (left right : SemaType)
    → merge_numeric_types decls left right ≡ merge_numeric_types decls right left
unfolding merge_numeric_types canonical_of
merge_numeric_types_comm decls left right =
    merge_canonical-swap (canonical_of decls left) (canonical_of decls right)
      (canonicalize_builtin_type_idem (stripped decls TypeStripMode.k_aliases_only left))
      (canonicalize_builtin_type_idem (stripped decls TypeStripMode.k_aliases_only right))
