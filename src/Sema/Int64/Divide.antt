-- ===== src/Sema/Int64/Divide.antt =====
-- The division of int64s: exact, rounded towards zero, and undefined only where the quotient is.
use c_modern.Common.{
  ℕ, zero, suc, ◌+◌, ◌-◌, ◌*◌, ◌/◌, ◌%◌, ◌^◌, ◌≤◌, ◌<◌, true, Option, none, some, ◌≡◌, ◌≢◌, refl,
  ap, arith, ◌⊎◌, inl, inr, Bool-cases, ◌↔◌,
}
use native.Mathlib.Nat.{div-add-mod', mod-lt, div-le_self, div-mul-le_self}
use c_modern.Common.Int.{ℤ, pos, negsuc, pos_part, neg_part, abs_ℕ, sub_ℕ, ◌+ℤ◌, ◌*ℤ◌, eqb_ℤ_iff}
use c_modern.Sema.Int64.{
  int64_min, IsInt64, of_sign, quotient, remainder, undefined_quotient, checked_divide_int64,
  checked_remainder_int64,
}

sub_ℕ_parts : (x y : ℕ) → pos_part (sub_ℕ x y) + y ≡ neg_part (sub_ℕ x y) + x
sub_ℕ_parts x y = ground arith

-- A product and a sum, by their parts.
combine :
    (q r m l : ℤ)
    → pos_part q * pos_part r + neg_part q * neg_part r + pos_part m + neg_part l
      ≡ pos_part q * neg_part r + neg_part q * pos_part r + neg_part m + pos_part l
    → q *ℤ r +ℤ m ≡ l
unfolding ◌*ℤ◌ ◌+ℤ◌
combine q r m l h =
    let x = pos_part q * pos_part r + neg_part q * neg_part r in
    let y = pos_part q * neg_part r + neg_part q * pos_part r in
    let product = sub_ℕ_parts x y in
    let z = sub_ℕ x y in
    let total = sub_ℕ_parts (pos_part z + pos_part m) (neg_part z + neg_part m) in
    eq_of_parts (sub_ℕ (pos_part z + pos_part m) (neg_part z + neg_part m)) l (omega arith)
  where
    eq_of_parts : (a b : ℤ) → pos_part a + neg_part b ≡ pos_part b + neg_part a → a ≡ b
    eq_of_parts a b e = ground arith

-- The quotient and the remainder of a division that rounds towards zero.
pub record IsDivision (lhs rhs q m : ℤ) : Type 0 where
  pub exact : q *ℤ rhs +ℤ m ≡ lhs
  pub small : abs_ℕ m < abs_ℕ rhs
  pub negative : pos_part lhs ≡ 0 → pos_part m ≡ 0
  pub positive : neg_part lhs ≡ 0 → neg_part m ≡ 0

of_sign_pos : (n : ℕ) → pos_part (of_sign true n) ≡ 0
of_sign_pos zero = refl
of_sign_pos (suc n) = refl

of_sign_neg : (n : ℕ) → neg_part (of_sign true n) ≡ n
of_sign_neg zero = refl
of_sign_neg (suc n) = refl

quotient-IsDivision :
    (lhs rhs : ℤ) → rhs ≢ pos 0 → IsDivision lhs rhs (quotient lhs rhs) (remainder lhs rhs)
unfolding quotient remainder
quotient-IsDivision (pos a) (pos zero) h = absurd (h refl)
quotient-IsDivision (pos a) (pos (suc b)) h = record {
  exact =
      combine (pos (a / suc b)) (pos (suc b)) (pos (a % suc b)) (pos a)
        (omega (arith, div-add-mod' a (suc b)));
  small = omega (arith, mod-lt a {m = suc b} (omega arith));
  negative = λ e. omega arith;
  positive = λ e. refl;
}
quotient-IsDivision (pos a) (negsuc b) h = record {
  exact = combine (of_sign true (a / suc b)) (negsuc b) (pos (a % suc b)) (pos a) (
      rw (of_sign_pos (a / suc b), of_sign_neg (a / suc b))
        (omega (arith, div-add-mod' a (suc b))));
  small = omega (arith, mod-lt a {m = suc b} (omega arith));
  negative = λ e. omega arith;
  positive = λ e. refl;
}
quotient-IsDivision (negsuc a) (pos zero) h = absurd (h refl)
quotient-IsDivision (negsuc a) (pos (suc b)) h =
    let q = suc a / suc b in
    let m = suc a % suc b in
    record {
      exact = combine (of_sign true q) (pos (suc b)) (of_sign true m) (negsuc a) (
          rw (of_sign_pos q, of_sign_neg q, of_sign_pos m, of_sign_neg m)
            (omega (arith, div-add-mod' (suc a) (suc b))));
      small =
          rw (of_sign_pos m, of_sign_neg m)
            (omega (arith, mod-lt (suc a) {m = suc b} (omega arith)));
      negative = λ e. of_sign_pos m;
      positive = λ e. omega arith;
    }
quotient-IsDivision (negsuc a) (negsuc b) h =
    let q = suc a / suc b in
    let m = suc a % suc b in
    record {
      exact =
          combine (pos q) (negsuc b) (of_sign true m) (negsuc a)
            (rw (of_sign_pos m, of_sign_neg m) (omega (arith, div-add-mod' (suc a) (suc b))));
      small =
          rw (of_sign_pos m, of_sign_neg m)
            (omega (arith, mod-lt (suc a) {m = suc b} (omega arith)));
      negative = λ e. of_sign_pos m;
      positive = λ e. omega arith;
    }

-- Where the language defines the quotient: what fits an int64.
abbrev pub Undefined : ℤ → ℤ → Type 0
Undefined lhs rhs = (rhs ≡ pos 0) ⊎ ((lhs ≡ int64_min) × (rhs ≡ negsuc 0))

pub undefined_quotient_iff : (lhs rhs : ℤ) → (undefined_quotient lhs rhs ≡ true) ↔ Undefined lhs rhs
undefined_quotient_iff lhs rhs =
    ground (arith, eqb_ℤ_iff rhs (pos 0), eqb_ℤ_iff lhs int64_min, eqb_ℤ_iff rhs (negsuc 0))

half : (n b : ℕ) → n / suc (suc b) * 2 ≤ n
half n b = grind (arith, div-mul-le_self n (suc (suc b)))

of_sign-IsInt64 : (n : ℕ) → n ≤ 2 ^ 63 → IsInt64 (of_sign true n)
of_sign-IsInt64 zero h = omega arith
of_sign-IsInt64 (suc n) h = omega arith

pub quotient-IsInt64 :
    (lhs rhs : ℤ) → IsInt64 lhs → ¬ Undefined lhs rhs → IsInt64 (quotient lhs rhs)
unfolding quotient
quotient-IsInt64 (pos a) (pos b) h d = omega (arith, div-le_self a b)
quotient-IsInt64 (pos a) (negsuc b) h d =
    of_sign-IsInt64 (a / suc b) (omega (arith, div-le_self a (suc b)))
quotient-IsInt64 (negsuc a) (pos b) h d =
    of_sign-IsInt64 (suc a / b) (omega (arith, div-le_self (suc a) b))
quotient-IsInt64 (negsuc a) (negsuc zero) h d =
    let other : a ≢ 2 ^ 63 - 1 = λ e. d (inr (ap negsuc e, refl)) in
    omega (arith, div-le_self (suc a) 1)
quotient-IsInt64 (negsuc a) (negsuc (suc b)) h d = omega (arith, half (suc a) b)

-- What the two operations return together.
pub data Division (lhs rhs : ℤ) : Option ℤ → Option ℤ → Type 0 where
  undefined : Undefined lhs rhs → Division lhs rhs none none
  defined :
      (q m : ℤ)
      → ¬ Undefined lhs rhs
      → IsDivision lhs rhs q m
      → IsInt64 q
      → Division lhs rhs (some q) (some m)

-- `CheckedDivideInt64` and `CheckedRemainderInt64` refuse a division by 0 and the one whose quotient is
-- no int64, and nothing else; for other int64s they return the quotient rounded towards zero, which
-- is an int64, and the remainder, which is smaller than the divisor and has the sign of the dividend.
pub checked_divide_int64-Division :
    (lhs rhs : ℤ)
    → IsInt64 lhs
    → IsInt64 rhs
    → Division lhs rhs (checked_divide_int64 lhs rhs) (checked_remainder_int64 lhs rhs)
unfolding checked_divide_int64 checked_remainder_int64
checked_divide_int64-Division lhs rhs hl hr = elim (Bool-cases (undefined_quotient lhs rhs)) [
  | inl e ↦ rw e (undefined ((undefined_quotient_iff lhs rhs).0 e))
  | inr e ↦
      let ok : ¬ Undefined lhs rhs = λ u. let back = (undefined_quotient_iff lhs rhs).1 u in cc in
      rw e (
        defined (quotient lhs rhs) (remainder lhs rhs) ok
          (quotient-IsDivision lhs rhs (λ z. ok (inl z))) (quotient-IsInt64 lhs rhs hl ok))
]
