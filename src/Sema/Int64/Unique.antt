-- ===== src/Sema/Int64/Unique.antt =====
-- A division has one quotient and one remainder, and a shift to the right is the quotient by a power
-- of two, rounded down.
use c_modern.Common.{
  ℕ, zero, suc, ◌+◌, ◌-◌, ◌*◌, ◌/◌, ◌%◌, ◌^◌, ◌≤◌, ◌<◌, true, false, ◌≡◌, refl, sym, ap, ◌∙◌, arith,
  ◌⊎◌, inl, inr,
}
use native.Mathlib.Nat.{mul-add-div_right, div-eq_of_lt, div-add-mod'}
use c_modern.Common.Int.{ℤ, pos, negsuc, pos_part, neg_part, sub_ℕ, ◌+ℤ◌, ◌*ℤ◌}
use c_modern.Sema.Int64.{of_sign, quotient, remainder, shift_right}
use c_modern.Sema.Int64.Divide.{IsDivision}

-- An equation between integers, by their parts.
parts :
    (q r m l : ℤ)
    → q *ℤ r +ℤ m ≡ l
    → pos_part q * pos_part r + neg_part q * neg_part r + pos_part m + neg_part l
      ≡ pos_part q * neg_part r + neg_part q * pos_part r + neg_part m + pos_part l
unfolding ◌*ℤ◌ ◌+ℤ◌
parts q r m l h =
    let x = pos_part q * pos_part r + neg_part q * neg_part r in
    let y = pos_part q * neg_part r + neg_part q * pos_part r in
    let product = sub_ℕ_parts x y in
    let z = sub_ℕ x y in
    let total = sub_ℕ_parts (pos_part z + pos_part m) (neg_part z + neg_part m) in
    let up = ap pos_part h in let down = ap neg_part h in omega arith
  where
    sub_ℕ_parts : (x y : ℕ) → pos_part (sub_ℕ x y) + y ≡ neg_part (sub_ℕ x y) + x
    sub_ℕ_parts x y = ground arith

one_sign : (q : ℤ) → (pos_part q ≡ 0) ⊎ (neg_part q ≡ 0)
one_sign (pos n) = inr refl
one_sign (negsuc n) = inl refl

nonnegative : (q : ℤ) → neg_part q ≡ 0 → q ≡ of_sign false (pos_part q)
nonnegative (pos n) h = refl
nonnegative (negsuc n) h = absurd (omega arith)

nonpositive : (q : ℤ) → pos_part q ≡ 0 → q ≡ of_sign true (neg_part q)
nonpositive (pos zero) h = refl
nonpositive (pos (suc n)) h = absurd (omega arith)
nonpositive (negsuc n) h = refl

divided_by : (a b n c : ℕ) → n * b + c ≡ a → c < b → (n ≡ a / b) × (c ≡ a % b)
divided_by a b n c e lt =
    let quot : n ≡ a / b = sym (
      ap (λ x. x / b) (sym e)
      ∙ mul-add-div_right {m = b} (omega arith) n c
      ∙ (rw (div-eq_of_lt lt) (omega arith))) in
    let again = div-add-mod' a b in let same = ap (λ x. x * b) quot in (quot, omega arith)

at_least : (n b : ℕ) → b ≤ suc n * b
at_least n b = ground arith

-- A magnitude that is given as a difference of which one side is 0.
magnitude :
    (a b p n c : ℕ)
    → (p ≡ 0) ⊎ (n ≡ 0)
    → p * b + c ≡ n * b + a
    → c < b
    → (n ≡ 0) × (p ≡ a / b) × (c ≡ a % b)
magnitude a b p zero c one e lt =
    let (quot, rest) = divided_by a b p c (omega arith) lt in (refl, quot, rest)
magnitude a b p (suc n) c (inl z) e lt =
    absurd (let more = at_least n b in let gone = ap (λ x. x * b) z in omega arith)
magnitude a b p (suc n) c (inr z) e lt = absurd (omega arith)

swapped : (q : ℤ) → (neg_part q ≡ 0) ⊎ (pos_part q ≡ 0)
swapped (pos n) = inl refl
swapped (negsuc n) = inr refl

-- The quotient and the remainder that round towards zero are the only ones of their division.
pub IsDivision-unique :
    (lhs rhs q m : ℤ) → IsDivision lhs rhs q m → (q ≡ quotient lhs rhs) × (m ≡ remainder lhs rhs)
unfolding quotient remainder
IsDivision-unique (pos a) (pos b) q m d =
    let e = parts q (pos b) m (pos a) d.exact in
    let down = d.positive refl in
    let (none_left, quot, rest) =
      magnitude a b (pos_part q) (neg_part q) (pos_part m) (one_sign q) (omega arith)
        (let lt = d.small in omega arith) in
    (
      nonnegative q none_left ∙ ap (of_sign false) quot,
      nonnegative m down ∙ ap (of_sign false) rest,
    )
IsDivision-unique (pos a) (negsuc b) q m d =
    let e = parts q (negsuc b) m (pos a) d.exact in
    let down = d.positive refl in
    let (none_left, quot, rest) =
      magnitude a (suc b) (neg_part q) (pos_part q) (pos_part m) (swapped q) (omega arith)
        (let lt = d.small in omega arith) in
    (nonpositive q none_left ∙ ap (of_sign true) quot, nonnegative m down ∙ ap (of_sign false) rest)
IsDivision-unique (negsuc a) (pos b) q m d =
    let e = parts q (pos b) m (negsuc a) d.exact in
    let up = d.negative refl in
    let (none_left, quot, rest) =
      magnitude (suc a) b (neg_part q) (pos_part q) (neg_part m) (swapped q) (omega arith)
        (let lt = d.small in omega arith) in
    (nonpositive q none_left ∙ ap (of_sign true) quot, nonpositive m up ∙ ap (of_sign true) rest)
IsDivision-unique (negsuc a) (negsuc b) q m d =
    let e = parts q (negsuc b) m (negsuc a) d.exact in
    let up = d.negative refl in
    let (none_left, quot, rest) =
      magnitude (suc a) (suc b) (pos_part q) (neg_part q) (neg_part m) (one_sign q) (omega arith)
        (let lt = d.small in omega arith) in
    (nonnegative q none_left ∙ ap (of_sign false) quot, nonpositive m up ∙ ap (of_sign true) rest)

-- A shift to the right is the quotient by a power of two that leaves a remainder which is not negative.
pub shift_right_unique :
    (lhs z : ℤ) (k r : ℕ) → z *ℤ pos (2 ^ k) +ℤ pos r ≡ lhs → r < 2 ^ k → z ≡ shift_right lhs k
unfolding shift_right
shift_right_unique (pos a) z k r h lt =
    let e = parts z (pos (2 ^ k)) (pos r) (pos a) h in
    let (none_left, quot, rest) =
      magnitude a (2 ^ k) (pos_part z) (neg_part z) r (one_sign z) (omega arith) lt in
    nonnegative z none_left ∙ ap pos quot
shift_right_unique (negsuc a) (pos n) k r h lt =
    let e = parts (pos n) (pos (2 ^ k)) (pos r) (negsuc a) h in absurd (omega arith)
shift_right_unique (negsuc a) (negsuc n) k r h lt =
    let e = parts (negsuc n) (pos (2 ^ k)) (pos r) (negsuc a) h in
    let (quot, rest) = divided_by a (2 ^ k) n (2 ^ k - 1 - r) (omega arith) (omega arith) in
    ap negsuc quot
