-- ===== src/Common/Counting.antt =====
-- Sums over a list of texts, which count the texts with a property.
use c_modern.Common.{
  ℕ, ◌+◌, ◌*◌, ◌≤◌, ◌<◌, Bool, true, false, List, [], ◌∷◌, Bytes, length, ◌≡◌, sym, inl, inr, arith,
  if◌then◌else◌, subst,
}
use c_modern.Common.Sets.{In, In-cons, not-In-nil}

unfoldable pub sum_by : (Bytes → ℕ) → List Bytes → ℕ
sum_by f [] = 0
sum_by f (x ∷ xs) = f x + sum_by f xs

pub sum_by-le :
    (f g : Bytes → ℕ) (xs : List Bytes) → ((x : Bytes) → f x ≤ g x) → sum_by f xs ≤ sum_by g xs
unfolding sum_by
sum_by-le f g [] h = omega arith
sum_by-le f g (x ∷ xs) h = omega (arith, h x, sum_by-le f g xs h)

pub sum_by-lt :
    (f g : Bytes → ℕ) (y : Bytes) (xs : List Bytes)
    → ((x : Bytes) → f x ≤ g x)
    → In y xs
    → f y < g y
    → sum_by f xs < sum_by g xs
unfolding sum_by
sum_by-lt f g y [] h i lt = absurd (not-In-nil y i)
sum_by-lt f g y (x ∷ xs) h i lt = elim (In-cons y x xs i) [
  | inl e ↦
      let less : f x < g x = subst (λ z. f z < g z) (sym e) lt in omega (arith, sum_by-le f g xs h)
  | inr more ↦ omega (arith, h x, sum_by-lt f g y xs h more lt)
]

pub sum_by-bound :
    (f : Bytes → ℕ) (bound : ℕ) (xs : List Bytes)
    → ((x : Bytes) → f x ≤ bound)
    → sum_by f xs ≤ length xs * bound
unfolding sum_by
sum_by-bound f bound [] h = grind arith
sum_by-bound f bound (x ∷ xs) h = grind (arith, h x, sum_by-bound f bound xs h)

-- The labels of `labels` for which a test holds.
unfoldable pub count : (Bytes → Bool) → List Bytes → ℕ
unfolding sum_by
count p labels = sum_by (λ x. if p x then 1 else 0) labels

pub count-le :
    (p q : Bytes → Bool) (labels : List Bytes)
    → ((x : Bytes) → p x ≡ true → q x ≡ true)
    → count p labels ≤ count q labels
unfolding count
count-le p q labels h =
    sum_by-le (λ x. if p x then 1 else 0) (λ x. if q x then 1 else 0) labels
      (λ x. ground (arith, h x))

pub count-lt :
    (p q : Bytes → Bool) (y : Bytes) (labels : List Bytes)
    → ((x : Bytes) → p x ≡ true → q x ≡ true)
    → In y labels
    → p y ≡ false
    → q y ≡ true
    → count p labels < count q labels
unfolding count
count-lt p q y labels h i np yq =
    sum_by-lt (λ x. if p x then 1 else 0) (λ x. if q x then 1 else 0) y labels
      (λ x. ground (arith, h x)) i (ground arith)

pub count-bound : (p : Bytes → Bool) (labels : List Bytes) → count p labels ≤ length labels
unfolding count
count-bound p labels =
    let b = sum_by-bound (λ x. if p x then 1 else 0) 1 labels (λ x. ground arith) in omega arith
