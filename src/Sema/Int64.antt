-- ===== src/Sema/Int64.antt =====
-- compiler/sema/const_eval.cpp: the operations on `std::int64_t`. An int64 is the integer that it
-- stands for; `bit_cast` to and from `std::uint64_t` is two's complement.
pub mod Wrap
pub mod Divide
pub mod Unique
pub mod Defined
use Prim.Native.Nat.{bit_and, bit_or, bit_xor}
use c_modern.Common.{
  ℕ, zero, suc, ◌+◌, ◌-◌, ◌*◌, ◌/◌, ◌%◌, ◌^◌, ◌≤◌, ◌<◌, Bool, true, false, ◌&&◌, ◌||◌, Option, none,
  some, ltb, leb, ◌==◌, if◌then◌else◌, ◌≡◌,
}
use c_modern.Common.Int.{ℤ, pos, negsuc, pos_part, neg_part, ◌-ℤ◌, ◌≤ℤ◌, ltb_ℤ, leb_ℤ, eqb_ℤ}

-- The integers that an int64 holds.
abbrev pub int64_min : ℤ
int64_min = negsuc (2 ^ 63 - 1)

abbrev pub int64_max : ℤ
int64_max = pos (2 ^ 63 - 1)

abbrev pub IsInt64 : ℤ → Type 0
IsInt64 a = (int64_min ≤ℤ a) × (a ≤ℤ int64_max)

-- `std::bit_cast<std::uint64_t>` and `std::bit_cast<std::int64_t>`.
abbrev pub to_bits : ℤ → ℕ
to_bits (pos n) = n
to_bits (negsuc n) = 2 ^ 64 - 1 - n

abbrev pub of_bits : ℕ → ℤ
of_bits w = if ltb w (2 ^ 63) then pos w else negsuc (2 ^ 64 - 1 - w)

unfoldable pub wrap_add_int64 : ℤ → ℤ → ℤ
wrap_add_int64 lhs rhs = of_bits ((to_bits lhs + to_bits rhs) % 2 ^ 64)

unfoldable pub wrap_sub_int64 : ℤ → ℤ → ℤ
wrap_sub_int64 lhs rhs = of_bits ((to_bits lhs + 2 ^ 64 - to_bits rhs) % 2 ^ 64)

unfoldable pub wrap_mul_int64 : ℤ → ℤ → ℤ
wrap_mul_int64 lhs rhs = of_bits (to_bits lhs * to_bits rhs % 2 ^ 64)

-- `-value`, which is defined for every other value than the least.
unfoldable pub checked_negate_int64 : ℤ → Option ℤ
unfolding ◌-ℤ◌
checked_negate_int64 value = if eqb_ℤ value int64_min then none else some (pos 0 -ℤ value)

-- `/` and `%` of the language: the quotient is rounded towards zero, and the remainder has the
-- sign of the dividend.
abbrev pub of_sign : Bool → ℕ → ℤ
of_sign false n = pos n
of_sign true zero = pos zero
of_sign true (suc n) = negsuc n

unfoldable pub quotient : ℤ → ℤ → ℤ
quotient (pos a) (pos b) = of_sign false (a / b)
quotient (pos a) (negsuc b) = of_sign true (a / suc b)
quotient (negsuc a) (pos b) = of_sign true (suc a / b)
quotient (negsuc a) (negsuc b) = of_sign false (suc a / suc b)

unfoldable pub remainder : ℤ → ℤ → ℤ
remainder (pos a) (pos b) = of_sign false (a % b)
remainder (pos a) (negsuc b) = of_sign false (a % suc b)
remainder (negsuc a) (pos b) = of_sign true (suc a % b)
remainder (negsuc a) (negsuc b) = of_sign true (suc a % suc b)

-- The guard of the division and of the remainder.
abbrev pub undefined_quotient : ℤ → ℤ → Bool
undefined_quotient lhs rhs = eqb_ℤ rhs (pos 0) || (eqb_ℤ lhs int64_min && eqb_ℤ rhs (negsuc 0))

unfoldable pub checked_divide_int64 : ℤ → ℤ → Option ℤ
unfolding quotient
checked_divide_int64 lhs rhs = if undefined_quotient lhs rhs then none else some (quotient lhs rhs)

unfoldable pub checked_remainder_int64 : ℤ → ℤ → Option ℤ
unfolding remainder
checked_remainder_int64 lhs rhs =
    if undefined_quotient lhs rhs then none else some (remainder lhs rhs)

abbrev undefined_shift : ℤ → Bool
undefined_shift rhs = ltb_ℤ rhs (pos 0) || leb_ℤ (pos 64) rhs

unfoldable pub checked_shift_left_int64 : ℤ → ℤ → Option ℤ
checked_shift_left_int64 lhs rhs =
    if undefined_shift rhs then none else some (of_bits (to_bits lhs * 2 ^ pos_part rhs % 2 ^ 64))

-- `lhs >> rhs` is arithmetic: the quotient by a power of two, rounded down.
unfoldable pub shift_right : ℤ → ℕ → ℤ
shift_right (pos a) k = pos (a / 2 ^ k)
shift_right (negsuc a) k = negsuc (a / 2 ^ k)

unfoldable pub checked_shift_right_int64 : ℤ → ℤ → Option ℤ
unfolding shift_right
checked_shift_right_int64 lhs rhs =
    if undefined_shift rhs then none else some (shift_right lhs (pos_part rhs))

unfoldable pub bitwise_and_int64 : ℤ → ℤ → Option ℤ
bitwise_and_int64 lhs rhs = some (of_bits (bit_and (to_bits lhs) (to_bits rhs)))

unfoldable pub bitwise_or_int64 : ℤ → ℤ → Option ℤ
bitwise_or_int64 lhs rhs = some (of_bits (bit_or (to_bits lhs) (to_bits rhs)))

unfoldable pub bitwise_xor_int64 : ℤ → ℤ → Option ℤ
bitwise_xor_int64 lhs rhs = some (of_bits (bit_xor (to_bits lhs) (to_bits rhs)))
