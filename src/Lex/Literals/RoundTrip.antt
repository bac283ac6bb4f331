-- ===== src/Lex/Literals/RoundTrip.antt =====
-- `std::to_string` of an int64 reads back as an integer literal.
use c_modern.Common.{
  ℕ, zero, suc, ◌+◌, ◌-◌, ◌*◌, ◌/◌, ◌%◌, ◌≤◌, ◌<◌, true, [], ◌∷◌, ◌++◌, none, some, Bytes, ltb, leb,
  if◌then◌else◌, ◌≡◌, ◌≢◌, refl, arith, Bool-cases, ap, sym, ◌∙◌, decimal, decimal_of, inl, inr,
}
use c_modern.Common.Digits.{AllDigits, decimal_of-AllDigits, decimal-ne-nil}
use c_modern.Lex.Literals.{parse_integer_literal_value, int64_max, digit_value}
use c_modern.Lex.Literals.Value.{
  unbounded, has_digit, base_of, digits_of, parse_integer_literal_value-unbounded,
}

unbounded_digit :
    (value ch : ℕ) (text : Bytes)
    → b'0' ≤ ch
    → ch ≤ b'9'
    → unbounded 10 value (ch ∷ text) ≡ unbounded 10 (value * 10 + (ch - b'0')) text
unfolding unbounded digit_value
unbounded_digit value ch text lo hi = ground arith

unbounded-nil : (value : ℕ) → unbounded 10 value [] ≡ some value
unfolding unbounded
unbounded-nil value = refl

-- One more digit behind a text of digits.
unbounded-append :
    (value v d : ℕ) (text : Bytes)
    → AllDigits text
    → d < 10
    → unbounded 10 value text ≡ some v
    → unbounded 10 value (text ++ (b'0' + d) ∷ []) ≡ some (v * 10 + d)
unbounded-append value v d [] all h e =
    unbounded_digit value (b'0' + d) [] (omega arith) (omega arith)
    ∙ unbounded-nil _
    ∙ let same : value ≡ v = unfold unbounded in ground arith in ap some (rw same (omega arith))
unbounded-append value v d (ch ∷ text) (lo, hi, all) h e =
    unbounded_digit value ch (text ++ (b'0' + d) ∷ []) lo hi
    ∙ unbounded-append (value * 10 + (ch - b'0')) v d text all h
        (sym (unbounded_digit value ch text lo hi) ∙ e)

unbounded-decimal_of : (fuel n : ℕ) → n < fuel → unbounded 10 0 (decimal_of fuel n) ≡ some n
unfolding decimal_of
unbounded-decimal_of zero n h = absurd (omega arith)
unbounded-decimal_of (suc fuel) n h = elim (Bool-cases (ltb n 10)) [
  | inl small ↦ rw small (
      unbounded_digit 0 (b'0' + n) [] (omega arith) (ground arith)
      ∙ unbounded-nil _
      ∙ ap some (omega arith))
  | inr large ↦ rw large (
      unbounded-append 0 (n / 10) (n % 10) (decimal_of fuel (n / 10))
        (decimal_of-AllDigits fuel (n / 10)) (omega arith)
        (unbounded-decimal_of fuel (n / 10) (ground arith))
      ∙ ap some (omega arith))
]

-- A text of digits has no prefix `0x`.
digits_of-AllDigits :
    (text : Bytes) → AllDigits text → (digits_of text ≡ text) × (base_of text ≡ 10)
digits_of-AllDigits [] all = (refl, refl)
digits_of-AllDigits (a ∷ []) all = (refl, refl)
digits_of-AllDigits (a ∷ b ∷ text) all = ground arith

decimal-has_digit : (text : Bytes) → AllDigits text → text ≢ [] → has_digit text ≡ true
decimal-has_digit [] all ne = absurd (ne refl)
decimal-has_digit (ch ∷ text) (lo, hi, all) ne = ground arith

-- `ParseIntegerLiteralValue` reads the decimal digits of a number that fits an int64 as that number,
-- and those of a larger one as nothing.
pub parse_integer_literal_value-decimal :
    (n : ℕ) → parse_integer_literal_value (decimal n) ≡ (if leb n int64_max then some n else none)
unfolding decimal
parse_integer_literal_value-decimal n =
    let all = decimal_of-AllDigits (suc n) n in
    let (digits, base) = digits_of-AllDigits (decimal_of (suc n) n) all in
    parse_integer_literal_value-unbounded (decimal_of (suc n) n)
    ∙ rw
        (
          digits,
          base,
          unbounded-decimal_of (suc n) n (omega arith),
          decimal-has_digit _ all (decimal-ne-nil n),
        )
        refl
