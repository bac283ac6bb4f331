-- ===== src/Sema/SemaType/Canonical.antt =====
-- `==` on types is the equality of their canonical forms.
use c_modern.Common.{
  Bool, true, ◌&&◌, Bytes, codes, text_eq, text_eq_iff, ◌≡◌, refl, sym, ap, ◌∙◌, ◌↔◌, arith,
  if_rule, Bool-cases, inl, inr, subst,
}
use c_modern.Sema.TypeKind.{TypeKind, kind_eq_iff}
use c_modern.Sema.SemaType.{
  SemaType, SemaTypes, make_type, nil, cons, is_string_builtin_name, canonical_head,
  canonicalize_builtin_type, canonicalize_all, same_fields, same_all, type_eq, types_eq, fields_eq,
}

canonical_named :
    (name metadata : Bytes)
    → canonicalize_builtin_type (canonical_head TypeKind.k_named name metadata nil)
      ≡ canonical_head TypeKind.k_named name metadata nil
unfolding canonicalize_builtin_type canonical_head
canonical_named name metadata = elim (Bool-cases (text_eq name (codes "bool"))) [
  | inl is_bool ↦ rw is_bool
  | inr other ↦ elim (Bool-cases (is_string_builtin_name name)) [
    | inl is_string ↦ rw (other, is_string)
    | inr plain ↦ rw (other, plain, other, plain)
  ]
]

canonical_again :
    (k : TypeKind) (name metadata : Bytes) (types : SemaTypes)
    → canonicalize_all types ≡ types
    → canonicalize_builtin_type (canonical_head k name metadata types)
      ≡ canonical_head k name metadata types
unfolding canonicalize_builtin_type canonical_head
canonical_again TypeKind.k_named name metadata nil h = canonical_named name metadata
canonical_again TypeKind.k_named name metadata (cons type types) h = rw h
canonical_again k name metadata types h = rw h

mutual
  unfolding canonicalize_builtin_type

  -- A canonical form is its own canonical form.
  pub canonicalize_builtin_type_idem :
      (type : SemaType)
      → canonicalize_builtin_type (canonicalize_builtin_type type) ≡ canonicalize_builtin_type type
  canonicalize_builtin_type_idem (make_type kind name metadata subtypes) =
      canonical_again kind name metadata (canonicalize_all subtypes)
        (canonicalize_all_idem subtypes)

  canonicalize_all_idem :
      (types : SemaTypes) → canonicalize_all (canonicalize_all types) ≡ canonicalize_all types
  canonicalize_all_idem nil = refl
  canonicalize_all_idem (cons type types) =
      rw (canonicalize_builtin_type_idem type, canonicalize_all_idem types)

and_iff : (a b : Bool) → ((a && b) ≡ true) ↔ ((a ≡ true) × (b ≡ true))
and_iff a b = ground arith

mutual
  unfolding same_fields

  same_fields→≡ : (a b : SemaType) → same_fields a b ≡ true → a ≡ b
  same_fields→≡ (make_type k name metadata types) (make_type k' name' metadata' types') h =
      let (kind, h1) = (and_iff _ _).0 h in
      let (names, h2) = (and_iff _ _).0 h1 in
      let (metadatas, subtypes) = (and_iff _ _).0 h2 in
      ap (λ x. make_type x name metadata types) ((kind_eq_iff k k').0 kind)
      ∙ ap (λ x. make_type k' x metadata types) ((text_eq_iff name name').0 names)
      ∙ ap (λ x. make_type k' name' x types) ((text_eq_iff metadata metadata').0 metadatas)
      ∙ ap (make_type k' name' metadata') (same_all→≡ types types' subtypes)

  same_all→≡ : (a b : SemaTypes) → same_all a b ≡ true → a ≡ b
  same_all→≡ nil nil h = refl
  same_all→≡ (cons a xs) (cons b ys) h =
      let (one, more) = (and_iff (same_fields a b) (same_all xs ys)).0 h in
      ap (λ x. cons x xs) (same_fields→≡ a b one) ∙ ap (cons b) (same_all→≡ xs ys more)
  same_all→≡ nil (cons b ys) h = absurd cc
  same_all→≡ (cons a xs) nil h = absurd cc

mutual
  unfolding same_fields

  same_fields_refl : (a : SemaType) → same_fields a a ≡ true
  same_fields_refl (make_type k name metadata types) = (and_iff _ _).1 (
    (kind_eq_iff k k).1 refl,
    (and_iff _ _).1 (
      (text_eq_iff name name).1 refl,
      (and_iff _ _).1 ((text_eq_iff metadata metadata).1 refl, same_all_refl types),
    ),
  )

  same_all_refl : (a : SemaTypes) → same_all a a ≡ true
  same_all_refl nil = refl
  same_all_refl (cons a xs) = (and_iff _ _).1 (same_fields_refl a, same_all_refl xs)

same_fields_iff : (a b : SemaType) → (same_fields a b ≡ true) ↔ (a ≡ b)
same_fields_iff a b =
    (same_fields→≡ a b, λ e. subst (λ x. same_fields a x ≡ true) e (same_fields_refl a))

-- `==` holds of two types exactly when their canonical forms are one type.
pub type_eq_iff :
    (left right : SemaType)
    → (type_eq left right ≡ true)
      ↔ (canonicalize_builtin_type left ≡ canonicalize_builtin_type right)
unfolding type_eq
type_eq_iff left right =
    same_fields_iff (canonicalize_builtin_type left) (canonicalize_builtin_type right)

abbrev HasCanonical : SemaType → Type 0
HasCanonical (make_type k name metadata types) = canonicalize_all types ≡ types

canonical_head-HasCanonical :
    (k : TypeKind) (name metadata : Bytes) (types : SemaTypes)
    → canonicalize_all types ≡ types
    → HasCanonical (canonical_head k name metadata types)
unfolding canonical_head canonicalize_builtin_type
canonical_head-HasCanonical TypeKind.k_named name metadata nil h =
    if_rule HasCanonical (text_eq name (codes "bool")) refl
      (if_rule HasCanonical (is_string_builtin_name name) refl refl)
canonical_head-HasCanonical TypeKind.k_named name metadata (cons type types) h = h
canonical_head-HasCanonical k name metadata types h = h

canonicalize_builtin_type-HasCanonical :
    (type : SemaType) → HasCanonical (canonicalize_builtin_type type)
unfolding canonicalize_builtin_type
canonicalize_builtin_type-HasCanonical (make_type k name metadata types) =
    canonical_head-HasCanonical k name metadata (canonicalize_all types)
      (canonicalize_all_idem types)

types_eq-same :
    (xs ys : SemaTypes)
    → canonicalize_all xs ≡ xs
    → canonicalize_all ys ≡ ys
    → types_eq xs ys ≡ same_all xs ys
unfolding types_eq same_fields canonicalize_builtin_type
types_eq-same nil nil h h' = refl
types_eq-same nil (cons b ys) h h' = refl
types_eq-same (cons a xs) nil h h' = refl
types_eq-same (cons a xs) (cons b ys) h h' =
    let a_same : canonicalize_builtin_type a ≡ a = cc in
    let b_same : canonicalize_builtin_type b ≡ b = cc in
    let xs_same : canonicalize_all xs ≡ xs = cc in
    let ys_same : canonicalize_all ys ≡ ys = cc in
    let more = types_eq-same xs ys xs_same ys_same in rw (a_same, b_same, more)

fields_eq-same :
    (a b : SemaType) → HasCanonical a → HasCanonical b → fields_eq a b ≡ same_fields a b
unfolding fields_eq same_fields
fields_eq-same (make_type k name metadata types) (make_type k' name' metadata' types') h h' =
    rw (types_eq-same types types' h h')

-- The definition of `==` that makes both types canonical once compares them as the source does, where
-- each level makes its subtypes canonical again.
type_eq-fields :
    (left right : SemaType)
    → type_eq left right
      ≡ fields_eq (canonicalize_builtin_type left) (canonicalize_builtin_type right)
unfolding type_eq
type_eq-fields left right = sym (
    fields_eq-same (canonicalize_builtin_type left) (canonicalize_builtin_type right)
      (canonicalize_builtin_type-HasCanonical left) (canonicalize_builtin_type-HasCanonical right))
