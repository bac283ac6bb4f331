-- ===== src/Support/Diagnostics/ArrayLength.antt =====
-- `ParseArrayLength` reads decimal digits, modulo what `std::size_t` holds.
use c_modern.Common.{
  ℕ, suc, ◌+◌, ◌-◌, ◌*◌, ◌%◌, ◌^◌, Bool, true, false, ◌&&◌, [], ◌∷◌, none, some, Bytes, leb,
  if◌then◌else◌, ◌≡◌, ◌≢◌, refl, arith, ◌∙◌, decimal, decimal_of,
}
use c_modern.Common.Digits.{
  AllDigits, decimal_of-AllDigits, decimal-ne-nil, digits_value, digits_value-decimal_of,
}
use c_modern.Support.Diagnostics.{parse_array_length_loop, parse_array_length}

-- One or more decimal digits, and nothing else.
abbrev pub all_digits : Bytes → Bool
all_digits [] = true
all_digits (ch ∷ text) = (leb b'0' ch && leb ch b'9') && all_digits text

abbrev pub is_number : Bytes → Bool
is_number [] = false
is_number text = all_digits text

parse_array_length_loop-value :
    (text : Bytes) (value : ℕ)
    → parse_array_length_loop (value % 2 ^ 64) text
      ≡ (if all_digits text then some (digits_value value text % 2 ^ 64) else none)
unfolding parse_array_length_loop
parse_array_length_loop-value [] value = refl
parse_array_length_loop-value (ch ∷ text) value =
    let rest = parse_array_length_loop-value text (value * 10 + (ch - b'0')) in
    let wrap : (value % 2 ^ 64 * 10 + (ch - b'0')) % 2 ^ 64 ≡ (value * 10 + (ch - b'0')) % 2 ^ 64 =
      omega arith in
    rw (wrap, rest) (ground arith)

-- `ParseArrayLength` returns a number exactly for a text of one or more decimal digits, and then it
-- is the number that the digits stand for, modulo 2 ^ 64.
pub parse_array_length-value :
    (text : Bytes)
    → parse_array_length text
      ≡ (if is_number text then some (digits_value 0 text % 2 ^ 64) else none)
unfolding parse_array_length
parse_array_length-value [] = refl
parse_array_length-value (ch ∷ text) = parse_array_length_loop-value (ch ∷ text) 0

all_digits-AllDigits : (text : Bytes) → AllDigits text → all_digits text ≡ true
all_digits-AllDigits [] h = refl
all_digits-AllDigits (ch ∷ text) (lo, hi, h) = ground (arith, all_digits-AllDigits text h)

is_number-AllDigits : (text : Bytes) → text ≢ [] → AllDigits text → is_number text ≡ true
is_number-AllDigits [] ne h = absurd (ne refl)
is_number-AllDigits (ch ∷ text) ne h = all_digits-AllDigits (ch ∷ text) h

-- `ParseArrayLength` reads the decimal digits of every number as that number modulo 2 ^ 64, so those of
-- a number that `std::size_t` holds as the number itself, and those of a larger one are not refused.
pub parse_array_length-decimal : (n : ℕ) → parse_array_length (decimal n) ≡ some (n % 2 ^ 64)
unfolding decimal
parse_array_length-decimal n =
    let text = decimal_of (suc n) n in
    let number = is_number-AllDigits text (decimal-ne-nil n) (decimal_of-AllDigits (suc n) n) in
    parse_array_length-value text
    ∙ rw (number, digits_value-decimal_of (suc n) n (omega arith)) refl
