-- ===== src/Sema/Strip/Ends.antt =====
-- The opening of aliases ends, also where they contain each other in a cycle.
use c_modern.Common.{
  ℕ, zero, suc, ◌+◌, ◌<◌, false, not, List, [], ◌∷◌, Option, none, some, Bytes, text_eq,
  text_eq_iff, text_eq_refl, length, ◌≡◌, refl, ap, inl, inr, arith, Bool-cases, Option-cases,
  if_cases, subst,
}
use c_modern.Common.Sets.{contains, In, In-head, In-tail}
use c_modern.Common.Counting.{count, count-lt, count-bound}
use c_modern.Sema.TypeKind.{TypeKind}
use c_modern.Sema.SemaType.{SemaType, SemaTypes, make_type, nil, cons}
use c_modern.Sema.Layout.{TypeDeclSummary, find_type_decl, instantiate}
use c_modern.Sema.Strip.{
  TypeStripMode, should_strip_type_decl_kind, strip_named, strip_head, prepend, strip_behind,
  strip_with, strip_all, strip_type_internal, strip_type,
}

names_of : List TypeDeclSummary → List Bytes
names_of [] = []
names_of (decl ∷ decls) = decl.name ∷ names_of decls

length-names_of : (decls : List TypeDeclSummary) → length (names_of decls) ≡ length decls
unfolding names_of
length-names_of [] = refl
length-names_of (decl ∷ decls) = ap suc (length-names_of decls)

find_type_decl-In :
    (decls : List TypeDeclSummary) (name : Bytes) (decl : TypeDeclSummary)
    → find_type_decl decls name ≡ some decl
    → In name (names_of decls)
unfolding find_type_decl names_of
find_type_decl-In [] name decl h = absurd cc
find_type_decl-In (first ∷ decls) name decl h = elim (Bool-cases (text_eq first.name name)) [
  | inl same ↦
      subst (λ x. In x (first.name ∷ names_of decls)) ((text_eq_iff first.name name).0 same)
        (In-head first.name (names_of decls))
  | inr other ↦
      In-tail name first.name (names_of decls)
        (find_type_decl-In decls name decl (rw (other, find_type_decl) at h))
]

module _ (decls : List TypeDeclSummary) (mode : TypeStripMode) where
  -- The names that are not being opened.
  room : List Bytes → ℕ
  room active_names = count (λ k. not (contains active_names k)) (names_of decls)

  room-cons :
      (name : Bytes) (active_names : List Bytes)
      → In name (names_of decls)
      → contains active_names name ≡ false
      → room (name ∷ active_names) < room active_names
  unfolding room contains
  room-cons name active_names i free =
      count-lt (λ k. not (contains (name ∷ active_names) k)) (λ k. not (contains active_names k))
        name (names_of decls) (λ k. ground arith) i (ground (arith, text_eq_refl name))
        (ground arith)

  abbrev Ends {ℓ} : {A : Type ℓ} → Option A → Type ℓ
  Ends {A = A} o = (r : A) × (o ≡ some r)

  EndsBelow : ℕ → (List Bytes → SemaType → Option SemaType) → Type 0
  EndsBelow n expand =
      (active_names : List Bytes) (type : SemaType)
      → room active_names < n
      → Ends (expand active_names type)

  strip_named-Ends :
      (n : ℕ) (expand : List Bytes → SemaType → Option SemaType) (active_names : List Bytes)
      (name metadata : Bytes) (subtypes : SemaTypes)
      → EndsBelow n expand
      → room active_names < suc n
      → Ends (strip_named decls mode expand active_names name metadata subtypes)
  unfolding strip_named EndsBelow
  strip_named-Ends n expand active_names name metadata subtypes ends lt =
      let same : SemaType = make_type TypeKind.k_named name metadata subtypes in
      elim (Option-cases (find_type_decl decls name)) [
        | inl e ↦ (same, rw (e, strip_named) refl)
        | inr (d, e) ↦
            rw (e, strip_named)
              (if_cases (λ o. (r : SemaType) × (o ≡ some r))
                (should_strip_type_decl_kind d.kind mode)
                (λ _.
                  if_cases (λ o. (r : SemaType) × (o ≡ some r)) (contains active_names name)
                    (λ _. (same, refl))
                    (λ free.
                      ends (name ∷ active_names) (instantiate d.type_params subtypes d.aliased_type)
                        (omega (
                          arith,
                          lt,
                          room-cons name active_names (find_type_decl-In decls name d e) free,
                        ))))
                (λ _. (same, refl)))
      ]

  strip_behind-Ends :
      (n : ℕ) (expand : List Bytes → SemaType → Option SemaType) (active_names : List Bytes)
      (kind : TypeKind) (name metadata : Bytes) (o : Option SemaTypes)
      → EndsBelow n expand
      → room active_names < suc n
      → Ends o
      → Ends (strip_behind decls mode expand active_names kind name metadata o)
  unfolding strip_head
  strip_behind-Ends n expand active_names kind name metadata none ends lt (r, e) = absurd cc
  strip_behind-Ends n expand active_names TypeKind.k_named name metadata (some subtypes) ends lt _ =
      strip_named-Ends n expand active_names name metadata subtypes ends lt
  strip_behind-Ends n expand active_names kind name metadata (some subtypes) ends lt _ =
      (make_type kind name metadata subtypes, refl)

  prepend-Ends :
      (a : Option SemaType) (b : Option SemaTypes) → Ends a → Ends b → Ends (prepend decls mode a b)
  prepend-Ends none b (r, e) _ = absurd cc
  prepend-Ends (some type) none _ (r, e) = absurd cc
  prepend-Ends (some type) (some types) _ _ = (cons type types, refl)

  mutual
    unfolding strip_with

    strip_with-Ends :
        (n : ℕ) (expand : List Bytes → SemaType → Option SemaType) (active_names : List Bytes)
        (type : SemaType)
        → EndsBelow n expand
        → room active_names < suc n
        → Ends (strip_with decls mode expand active_names type)
    strip_with-Ends n expand active_names (make_type kind name metadata subtypes) ends lt =
        strip_behind-Ends n expand active_names kind name metadata
          (strip_all decls mode expand active_names subtypes) ends lt
          (strip_all-Ends n expand active_names subtypes ends lt)

    strip_all-Ends :
        (n : ℕ) (expand : List Bytes → SemaType → Option SemaType) (active_names : List Bytes)
        (types : SemaTypes)
        → EndsBelow n expand
        → room active_names < suc n
        → Ends (strip_all decls mode expand active_names types)
    strip_all-Ends n expand active_names nil ends lt = (nil, refl)
    strip_all-Ends n expand active_names (cons type types) ends lt =
        prepend-Ends (strip_with decls mode expand active_names type)
          (strip_all decls mode expand active_names types)
          (strip_with-Ends n expand active_names type ends lt)
          (strip_all-Ends n expand active_names types ends lt)

  strip_type_internal-Ends : (fuel : ℕ) → EndsBelow fuel (strip_type_internal decls mode fuel)
  unfolding strip_type_internal EndsBelow
  strip_type_internal-Ends zero active_names type lt = absurd (omega arith)
  strip_type_internal-Ends (suc fuel) active_names type lt =
      strip_with-Ends fuel (strip_type_internal decls mode fuel) active_names type
        (strip_type_internal-Ends fuel) lt

  -- `StripType` ends for every type over every list of declarations, those included whose aliases contain each other in a
  -- cycle: its calls for aliases are not nested deeper than there are declarations.
  pub strip_type-total : (type : SemaType) → (r : SemaType) × (strip_type decls mode type ≡ some r)
  unfolding strip_type EndsBelow room
  strip_type-total type = strip_type_internal-Ends (length decls + 1) [] type (
      omega (arith, count-bound (λ k. not (contains [] k)) (names_of decls), length-names_of decls))
