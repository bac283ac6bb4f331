-- ===== src/Common/Sets.antt =====
-- Sets of texts, and membership in them with the laws that the proofs use.
use mathlib.Core.Path.{◌≡◌, subst}
use mathlib.Core.Logic.{◌⊎◌, inl, inr}
use mathlib.Core.Bool.{Bool, true, false, ◌||◌}
use mathlib.Core.List.{List, [], ◌∷◌, ◌++◌}
use native.Mathlib.Omega.{arith}
use c_modern.Common.Tests.{Bool-cases}
use c_modern.Common.Text.{Bytes, text_eq, text_eq_iff, text_eq_refl}

-- `contains` of a set of texts.
unfoldable pub contains : List Bytes → Bytes → Bool
unfolding text_eq
contains [] text = false
contains (x ∷ xs) text = text_eq x text || contains xs text

abbrev pub In : Bytes → List Bytes → Type 0
In v xs = contains xs v ≡ true

pub In-head : (x : Bytes) (xs : List Bytes) → In x (x ∷ xs)
unfolding contains
In-head x xs = ground (arith, text_eq_refl x)

pub In-tail : (v x : Bytes) (xs : List Bytes) → In v xs → In v (x ∷ xs)
unfolding contains
In-tail v x xs h = ground arith

pub In-cons : (v x : Bytes) (xs : List Bytes) → In v (x ∷ xs) → (x ≡ v) ⊎ In v xs
unfolding contains
In-cons v x xs h = elim (Bool-cases (text_eq x v)) [
  | inl same ↦ inl ((text_eq_iff x v).0 same)
  | inr other ↦ inr (ground arith)
]

pub not-In-nil : (v : Bytes) → ¬ (In v [])
unfolding contains
not-In-nil v h = cc

pub In-append_left : (v : Bytes) (xs ys : List Bytes) → In v xs → In v (xs ++ ys)
In-append_left v [] ys h = absurd (not-In-nil v h)
In-append_left v (x ∷ xs) ys h = elim (In-cons v x xs h) [
  | inl same ↦ subst (λ u. In u (x ∷ (xs ++ ys))) same (In-head x (xs ++ ys))
  | inr more ↦ In-tail v x (xs ++ ys) (In-append_left v xs ys more)
]

pub In-append_right : (v : Bytes) (xs ys : List Bytes) → In v ys → In v (xs ++ ys)
In-append_right v [] ys h = h
In-append_right v (x ∷ xs) ys h = In-tail v x (xs ++ ys) (In-append_right v xs ys h)

pub In-append : (v : Bytes) (xs ys : List Bytes) → In v (xs ++ ys) → In v xs ⊎ In v ys
In-append v [] ys h = inr h
In-append v (x ∷ xs) ys h = elim (In-cons v x (xs ++ ys) h) [
  | inl same ↦ inl (subst (λ u. In u (x ∷ xs)) same (In-head x xs))
  | inr more ↦ elim (In-append v xs ys more) [
    | inl left ↦ inl (In-tail v x xs left)
    | inr right ↦ inr right
  ]
]
