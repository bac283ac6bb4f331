-- ===== src/Sema/Int64/Wrap.antt =====
-- The wrapping operations are exact where the result fits, and always give an int64.
use c_modern.Common.{ℕ, suc, ◌+◌, ◌-◌, ◌*◌, ◌%◌, ◌^◌, ◌<◌, ◌≡◌, sym, ◌∙◌, arith}
use native.Mathlib.Nat.{mul-add, mul_comm}
use c_modern.Common.Int.{ℤ, pos, negsuc, ◌+ℤ◌, ◌-ℤ◌, ◌*ℤ◌}
use c_modern.Sema.Int64.{IsInt64, to_bits, of_bits, wrap_add_int64, wrap_sub_int64, wrap_mul_int64}

pub of_bits-IsInt64 : (w : ℕ) → w < 2 ^ 64 → IsInt64 (of_bits w)
of_bits-IsInt64 w h = ground arith

pub to_bits-lt : (a : ℤ) → IsInt64 a → to_bits a < 2 ^ 64
to_bits-lt a h = ground arith

pub wrap_add_int64-exact :
    (a b : ℤ) → IsInt64 a → IsInt64 b → IsInt64 (a +ℤ b) → wrap_add_int64 a b ≡ a +ℤ b
unfolding wrap_add_int64 ◌+ℤ◌
wrap_add_int64-exact a b ha hb h = ground arith

pub wrap_sub_int64-exact :
    (a b : ℤ) → IsInt64 a → IsInt64 b → IsInt64 (a -ℤ b) → wrap_sub_int64 a b ≡ a -ℤ b
unfolding wrap_sub_int64 ◌-ℤ◌
wrap_sub_int64-exact a b ha hb h = ground arith

-- A product with the bits of a negative number.
mul_complement : (a b : ℕ) → b < 2 ^ 64 → a * (2 ^ 64 - 1 - b) + a * suc b ≡ 2 ^ 64 * a
mul_complement a b h =
    sym (mul-add a (2 ^ 64 - 1 - b) (suc b))
    ∙ let e : 2 ^ 64 - 1 - b + suc b ≡ 2 ^ 64 = omega arith in rw e (mul_comm a (2 ^ 64))

mul_complements :
    (a b : ℕ)
    → a < 2 ^ 64
    → b < 2 ^ 64
    → (2 ^ 64 - 1 - a) * (2 ^ 64 - 1 - b) + 2 ^ 64 * suc b
      ≡ suc a * suc b + 2 ^ 64 * (2 ^ 64 - 1 - a)
mul_complements a b ha hb = omega (
  arith,
  mul_complement (2 ^ 64 - 1 - a) b hb,
  mul_complement (suc b) a ha,
  mul_comm (suc b) (2 ^ 64 - 1 - a),
  mul_comm (suc b) (suc a),
)

pub wrap_mul_int64-exact :
    (a b : ℤ) → IsInt64 a → IsInt64 b → IsInt64 (a *ℤ b) → wrap_mul_int64 a b ≡ a *ℤ b
unfolding wrap_mul_int64 ◌*ℤ◌
wrap_mul_int64-exact (pos a) (pos b) ha hb h = ground arith
wrap_mul_int64-exact (pos a) (negsuc b) ha hb h = ground (arith, mul_complement a b (ground arith))
wrap_mul_int64-exact (negsuc a) (pos b) ha hb h =
    ground
      (arith, mul_complement b a (ground arith), mul_comm (2 ^ 64 - 1 - a) b, mul_comm (suc a) b)
wrap_mul_int64-exact (negsuc a) (negsuc b) ha hb h =
    ground (arith, mul_complements a b (ground arith) (ground arith))

-- The product with a number that is no int64 itself, as the powers of two up to 2 ^ 63 are.
pub of_bits-exact :
    (a : ℤ) (b : ℕ)
    → IsInt64 a
    → b < 2 ^ 64
    → IsInt64 (a *ℤ pos b)
    → of_bits (to_bits a * b % 2 ^ 64) ≡ a *ℤ pos b
unfolding ◌*ℤ◌
of_bits-exact (pos a) b ha hb h = ground arith
of_bits-exact (negsuc a) b ha hb h =
    ground
      (arith, mul_complement b a (ground arith), mul_comm (2 ^ 64 - 1 - a) b, mul_comm (suc a) b)
