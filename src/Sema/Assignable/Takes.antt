-- ===== src/Sema/Assignable/Takes.antt =====
-- Which types a type takes values of: `IsAssignable` against a relation on types without aliases.
use c_modern.Common.{
  Bool, true, false, ◌&&◌, ◌||◌, List, [], ◌∷◌, Bytes, codes, text_eq, text_eq_iff, ◌≡◌, refl, sym,
  ◌∙◌, ◌↔◌, subst, arith, Bool-cases, inl, inr,
}
use c_modern.Common.Sets.{contains, In}
use c_modern.Sema.TypeKind.{TypeKind, kind_eq_iff}
use c_modern.Sema.SemaType.{SemaType, type_eq, canonicalize_builtin_type}
use c_modern.Sema.SemaType.Canonical.{type_eq_iff, canonicalize_builtin_type_idem}
use c_modern.Sema.Layout.{TypeDeclSummary}
use c_modern.Sema.Strip.{TypeStripMode}
use c_modern.Sema.Assignable.{
  type_kind, type_name, has_kind, is_integer_type_name, is_float_type_name, is_integer_type,
  is_float_type, is_pointer_like_type, assignable_canonical, canonical_of, stripped, is_assignable,
}

-- The types of the language's integers and of its floats.
abbrev pub integer_names : List Bytes
integer_names =
    codes "i8"
    ∷ codes "i16"
    ∷ codes "i32"
    ∷ codes "i64"
    ∷ codes "isize"
    ∷ codes "u8"
    ∷ codes "u16"
    ∷ codes "u32"
    ∷ codes "u64"
    ∷ codes "usize"
    ∷ codes "uintptr"
    ∷ []

abbrev pub float_names : List Bytes
float_names = codes "f32" ∷ codes "f64" ∷ []

-- What a variable of one type takes: a value of the same type, a literal of its sort, the null
-- pointer, and anything where one of the two types is not known.
-- `opened` is the first type, its aliases opened again.
pub data Takes (opened : SemaType) : SemaType → SemaType → Type 0 where
  unknown_target : (e a : SemaType) → type_kind e ≡ TypeKind.k_unknown → Takes opened e a
  unknown_value : (e a : SemaType) → type_kind a ≡ TypeKind.k_unknown → Takes opened e a
  same_type : (e : SemaType) → Takes opened e e
  integer_literal :
      (e a : SemaType)
      → type_kind e ≡ TypeKind.k_named
      → In (type_name e) integer_names
      → type_kind a ≡ TypeKind.k_int_literal
      → Takes opened e a
  float_literal :
      (e a : SemaType)
      → type_kind e ≡ TypeKind.k_named
      → In (type_name e) float_names
      → type_kind a ≡ TypeKind.k_float_literal
      → Takes opened e a
  null_pointer :
      (e a : SemaType)
      → type_kind opened ≡ TypeKind.k_pointer
      → type_kind a ≡ TypeKind.k_nil
      → Takes opened e a

text_eq_comm : (a b : Bytes) → text_eq a b ≡ text_eq b a
text_eq_comm a b = ground (arith, text_eq_iff a b, text_eq_iff b a)

-- A chain of tests that is bracketed to the left.
any_of : Bool → List Bytes → Bytes → Bool
any_of found [] name = found
any_of found (x ∷ xs) name = any_of (found || text_eq x name) xs name

any_of-contains :
    (found : Bool) (xs : List Bytes) (name : Bytes)
    → any_of found xs name ≡ (found || contains xs name)
unfolding any_of contains
any_of-contains found [] name = ground arith
any_of-contains found (x ∷ xs) name =
    let ih = any_of-contains (found || text_eq x name) xs name in ground arith

integer_name : (name : Bytes) → is_integer_type_name name ≡ contains integer_names name
unfolding is_integer_type_name any_of contains
integer_name name =
    rw
      (
        text_eq_comm name (codes "i8"),
        text_eq_comm name (codes "i16"),
        text_eq_comm name (codes "i32"),
        text_eq_comm name (codes "i64"),
        text_eq_comm name (codes "isize"),
        text_eq_comm name (codes "u8"),
        text_eq_comm name (codes "u16"),
        text_eq_comm name (codes "u32"),
        text_eq_comm name (codes "u64"),
        text_eq_comm name (codes "usize"),
        text_eq_comm name (codes "uintptr"),
      )
      (any_of-contains false integer_names name)

float_name : (name : Bytes) → is_float_type_name name ≡ contains float_names name
unfolding is_float_type_name any_of contains
float_name name =
    rw (text_eq_comm name (codes "f32"), text_eq_comm name (codes "f64"))
      (any_of-contains false float_names name)

-- The tests on a type that is named.
module _ (type : SemaType) where
  integer_iff :
      (is_integer_type type ≡ true)
      ↔ ((type_kind type ≡ TypeKind.k_named) × In (type_name type) integer_names)
  unfolding is_integer_type
  integer_iff =
      let e = integer_name (type_name type) in
      ground (arith, kind_eq_iff (type_kind type) TypeKind.k_named)

  float_iff :
      (is_float_type type ≡ true)
      ↔ ((type_kind type ≡ TypeKind.k_named) × In (type_name type) float_names)
  unfolding is_float_type
  float_iff =
      let e = float_name (type_name type) in
      ground (arith, kind_eq_iff (type_kind type) TypeKind.k_named)

module _ (opened e a : SemaType) where
  assignable→Takes :
      canonicalize_builtin_type e ≡ e
      → canonicalize_builtin_type a ≡ a
      → assignable_canonical (is_pointer_like_type opened) e a ≡ true
      → Takes opened e a
  unfolding assignable_canonical is_pointer_like_type
  assignable→Takes he ha h =
      let kind = λ (type : SemaType) (k : TypeKind). (kind_eq_iff (type_kind type) k).0 in
      elim (Bool-cases (has_kind TypeKind.k_unknown e)) [
        | inl p ↦ unknown_target e a (kind e TypeKind.k_unknown p)
        | inr no1 ↦ elim (Bool-cases (has_kind TypeKind.k_unknown a)) [
          | inl p ↦ unknown_value e a (kind a TypeKind.k_unknown p)
          | inr no2 ↦ elim (Bool-cases (type_eq e a)) [
            | inl p ↦
                let same = sym he ∙ (type_eq_iff e a).0 p ∙ ha in
                subst (Takes opened e) same (same_type e)
            | inr no3 ↦ elim (Bool-cases (is_integer_type e && has_kind TypeKind.k_int_literal a)) [
              | inl p ↦
                  let (named, name) = (integer_iff e).0 (ground arith) in
                  integer_literal e a named name (kind a TypeKind.k_int_literal (ground arith))
              | inr no4 ↦
                  elim (Bool-cases (is_float_type e && has_kind TypeKind.k_float_literal a)) [
                    | inl p ↦
                        let (named, name) = (float_iff e).0 (ground arith) in
                        float_literal e a named name
                          (kind a TypeKind.k_float_literal (ground arith))
                    | inr no5 ↦
                        null_pointer e a (kind opened TypeKind.k_pointer (ground arith))
                          (kind a TypeKind.k_nil (ground arith))
                  ]
            ]
          ]
        ]
      ]

chosen :
    (before first second after : Bool)
    → first ≡ true
    → second ≡ true
    → (before || (first && second) || after) ≡ true
chosen before first second after h h' = ground arith

last_of :
    (before first second : Bool)
    → first ≡ true
    → second ≡ true
    → (before || (first && second)) ≡ true
last_of before first second h h' = ground arith

or_more : (found more : Bool) → found ≡ true → (found || more) ≡ true
or_more found more h = ground arith

Takes→assignable :
    (opened e a : SemaType)
    → Takes opened e a
    → assignable_canonical (is_pointer_like_type opened) e a ≡ true
unfolding assignable_canonical is_pointer_like_type
Takes→assignable opened e a (unknown_target _ _ h) =
    let p = (kind_eq_iff (type_kind e) TypeKind.k_unknown).1 h in ground arith
Takes→assignable opened e a (unknown_value _ _ h) =
    let p = (kind_eq_iff (type_kind a) TypeKind.k_unknown).1 h in ground arith
Takes→assignable opened e _ (same_type _) = let p = (type_eq_iff e e).1 refl in ground arith
Takes→assignable opened e a (integer_literal _ _ named name h) =
    let p = (integer_iff e).1 (named, name) in
    let q = (kind_eq_iff (type_kind a) TypeKind.k_int_literal).1 h in
    or_more _ (has_kind TypeKind.k_pointer opened && has_kind TypeKind.k_nil a) (
      chosen (has_kind TypeKind.k_unknown e || has_kind TypeKind.k_unknown a || type_eq e a)
        (is_integer_type e) (has_kind TypeKind.k_int_literal a)
        (is_float_type e && has_kind TypeKind.k_float_literal a) p q)
Takes→assignable opened e a (float_literal _ _ named name h) =
    let p = (float_iff e).1 (named, name) in
    let q = (kind_eq_iff (type_kind a) TypeKind.k_float_literal).1 h in
    chosen
      (has_kind TypeKind.k_unknown e
        || has_kind TypeKind.k_unknown a
        || type_eq e a
        || (is_integer_type e && has_kind TypeKind.k_int_literal a))
      (is_float_type e) (has_kind TypeKind.k_float_literal a)
      (has_kind TypeKind.k_pointer opened && has_kind TypeKind.k_nil a) p q
Takes→assignable opened e a (null_pointer _ _ h h') =
    let p = (kind_eq_iff (type_kind opened) TypeKind.k_pointer).1 h in
    let q = (kind_eq_iff (type_kind a) TypeKind.k_nil).1 h' in
    last_of _ (has_kind TypeKind.k_pointer opened) (has_kind TypeKind.k_nil a) p q

-- `IsAssignable` holds exactly of a type that takes values of the other one, by their canonical
-- forms without aliases: of two equal types, of an integer type with an integer literal, a float type
-- with a float literal, a pointer with the null pointer, and where one of the types is unknown.
pub is_assignable_iff :
    (decls : List TypeDeclSummary) (expected actual : SemaType)
    → (is_assignable decls expected actual ≡ true)
      ↔ Takes
          (stripped decls TypeStripMode.k_aliases_only (canonical_of decls expected))
          (canonical_of decls expected)
          (canonical_of decls actual)
unfolding is_assignable canonical_of
is_assignable_iff decls expected actual =
    let mode = TypeStripMode.k_aliases_only in
    let e = canonical_of decls expected in
    let a = canonical_of decls actual in
    let opened = stripped decls mode e in
    (
      assignable→Takes opened e a (canonicalize_builtin_type_idem (stripped decls mode expected))
          (canonicalize_builtin_type_idem (stripped decls mode actual)),
      Takes→assignable opened e a,
    )
