-- ===== src/Mir/Dominance/Meet.antt =====
-- The sets of `dominators` by their members: what the loop over the predecessors computes, and the
-- comparison of two sets.
use c_modern.Common.{
  Bool, true, false, ◌||◌, ◌&&◌, List, [], ◌∷◌, Option, none, some, Bytes, text_eq, text_eq_iff,
  ◌≡◌, refl, ap, inl, inr, arith, Bool-cases, subst,
}
use c_modern.Common.Sets.{contains, In, In-head, In-tail, In-cons, not-In-nil}
use c_modern.Mir.Dominance.{Dominators, keep_common, meet, insert, subset, same_set, set_of}

-- The map as a relation: `x` is in the set of `v`.
abbrev pub has : Dominators → Bytes → Bytes → Bool
has dominators v x = contains (set_of (dominators v)) x

-- The labels that are in the set of each of some predecessors.
unfoldable pub in_all : Dominators → List Bytes → Bytes → Bool
unfolding contains
in_all dominators [] x = true
in_all dominators (pred ∷ preds) x = has dominators pred x && in_all dominators preds x

keep_common-contains :
    (set xs : List Bytes) (x : Bytes)
    → contains (keep_common set xs) x ≡ (contains xs x && contains set x)
unfolding keep_common contains
keep_common-contains set [] x = refl
keep_common-contains set (y ∷ ys) x = elim (Bool-cases (text_eq y x)) [
  | inl same ↦
      let e = (text_eq_iff y x).0 same in
      let there : contains set y ≡ contains set x = ap (contains set) e in
      ground (arith, keep_common-contains set ys x)
  | inr other ↦ ground (arith, keep_common-contains set ys x)
]

-- The predecessors all have a set.
pub data AllMapped (dominators : Dominators) : List Bytes → Type 0 where
  none_left : AllMapped dominators []
  mapped :
      (pred : Bytes) (preds set : List Bytes)
      → dominators pred ≡ some set
      → AllMapped dominators preds
      → AllMapped dominators (pred ∷ preds)

-- A set by its members.
abbrev pub Holds : Option (List Bytes) → (Bytes → Bool) → Type 0
Holds o p = (set : List Bytes) × (o ≡ some set) × ((x : Bytes) → contains set x ≡ p x)

meet-some :
    (dominators : Dominators) (preds new_dominators : List Bytes)
    → AllMapped dominators preds
    → Holds
        (meet dominators preds (some new_dominators))
        (λ x. contains new_dominators x && in_all dominators preds x)
unfolding meet in_all
meet-some dominators [] new_dominators none_left = (new_dominators, refl, λ x. ground arith)
meet-some dominators (pred ∷ preds) new_dominators (mapped _ _ set e rest) =
    let (r, eq, members) = meet-some dominators preds (keep_common set new_dominators) rest in
    (
      r,
      rw (e, meet) eq,
      λ x.
          let step : set_of (dominators pred) ≡ set = ap set_of e in
          let same : has dominators pred x ≡ contains set x = ap (λ s. contains s x) step in
          ground (arith, members x, keep_common-contains set new_dominators x),
    )

-- With a predecessor, the loop gives what is in the sets of all of them.
pub meet_preds :
    (dominators : Dominators) (pred : Bytes) (preds : List Bytes)
    → AllMapped dominators (pred ∷ preds)
    → Holds (meet dominators (pred ∷ preds) none) (in_all dominators (pred ∷ preds))
unfolding meet in_all
meet_preds dominators pred preds (mapped _ _ set e rest) =
    let (r, eq, members) = meet-some dominators preds set rest in
    (
      r,
      rw (e, meet) eq,
      λ x.
          let same : has dominators pred x ≡ contains set x = ap (λ s. contains (set_of s) x) e in
          ground (arith, members x),
    )

pub insert-contains :
    (label : Bytes) (set : List Bytes) (x : Bytes)
    → contains (insert label set) x ≡ (text_eq label x || contains set x)
unfolding insert contains
insert-contains label set x = elim (Bool-cases (contains set label)) [
  | inl old ↦
      rw (old, insert)
        (elim (Bool-cases (text_eq label x)) [
          | inl same ↦
              let e = (text_eq_iff label x).0 same in
              let there : contains set label ≡ contains set x = ap (contains set) e in ground arith
          | inr other ↦ ground arith
        ])
  | inr new ↦ rw (new, insert) refl
]

subset-In : (xs ys : List Bytes) (x : Bytes) → subset xs ys ≡ true → In x xs → In x ys
unfolding subset
subset-In [] ys x h i = absurd (not-In-nil x i)
subset-In (y ∷ xs) ys x h i = elim (In-cons x y xs i) [
  | inl e ↦ subst (λ z. In z ys) e (ground arith)
  | inr more ↦ subset-In xs ys x (ground arith) more
]

subset-missing :
    (xs ys : List Bytes) → subset xs ys ≡ false → (x : Bytes) × (In x xs) × (contains ys x ≡ false)
unfolding subset
subset-missing [] ys h = absurd cc
subset-missing (y ∷ xs) ys h = elim (Bool-cases (contains ys y)) [
  | inr missing ↦ (y, In-head y xs, missing)
  | inl there ↦
      let (x, i, missing) = subset-missing xs ys (ground arith) in (x, In-tail x y xs i, missing)
]

pub same_set-contains :
    (xs ys : List Bytes) (x : Bytes) → same_set xs ys ≡ true → contains xs x ≡ contains ys x
same_set-contains xs ys x h =
    ground (arith, subset-In xs ys x (ground arith), subset-In ys xs x (ground arith))

-- A set that is not the same as one within it has a member more.
pub same_set-missing :
    (xs ys : List Bytes)
    → ((x : Bytes) → In x ys → In x xs)
    → same_set xs ys ≡ false
    → (x : Bytes) × (In x xs) × (contains ys x ≡ false)
same_set-missing xs ys within h = elim (Bool-cases (subset xs ys)) [
  | inr e ↦ subset-missing xs ys e
  | inl e ↦
      let (x, i, missing) = subset-missing ys xs (ground arith) in
      let there = within x i in absurd cc
]
