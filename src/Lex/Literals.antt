-- ===== src/Lex/Literals.antt =====
-- compiler/lex/lexer.cpp: the values of integer and character literals.
pub mod Value
pub mod RoundTrip
use c_modern.Common.{
  ℕ, ◌+◌, ◌-◌, ◌*◌, ◌/◌, ◌^◌, Bool, true, false, ◌&&◌, ◌||◌, [], ◌∷◌, Option, none, some, Bytes,
  ltb, leb, ◌==◌, if◌then◌else◌,
}

abbrev pub within : ℕ → ℕ → ℕ → Bool
within lo hi ch = leb lo ch && leb ch hi

-- `DigitValue`; -1 is `none`.
unfoldable pub digit_value : ℕ → Option ℕ
digit_value ch =
    if within b'0' b'9' ch
    then some (ch - b'0')
    else if within b'a' b'f' ch
    then some (10 + (ch - b'a'))
    else if within b'A' b'F' ch
    then some (10 + (ch - b'A'))
    else none

-- `std::numeric_limits<std::int64_t>::max()`
abbrev pub int64_max : ℕ
int64_max = 2 ^ 63 - 1

-- One digit of the loop; the guard keeps `value * base + digit` within `int64_max`.
unfoldable pub push_digit : ℕ → ℕ → ℕ → Option ℕ
push_digit base value ch = elim (digit_value ch) [
  | none ↦ none
  | some digit ↦
      if leb base digit
      then none
      else if ltb ((int64_max - digit) / base) value
      then none
      else some (value * base + digit)
]

-- The loop and the test of `saw_digit` behind it.
unfoldable pub digits_loop : ℕ → ℕ → Bool → Bytes → Option ℕ
digits_loop base value saw_digit [] = if saw_digit then some value else none
digits_loop base value saw_digit (ch ∷ text) = elim (ch == b'_') [
  | true ↦ digits_loop base value saw_digit text
  | false ↦ elim (push_digit base value ch) [
    | none ↦ none
    | some next ↦ digits_loop base next true text
  ]
]

abbrev pub is_x : ℕ → Bool
is_x ch = ch == b'x' || ch == b'X'

-- `ParseIntegerLiteralValue`
unfoldable pub parse_integer_literal_value : Bytes → Option ℕ
unfolding digits_loop push_digit digit_value
parse_integer_literal_value [] = none
parse_integer_literal_value (first ∷ []) = digits_loop 10 0 false (first ∷ [])
parse_integer_literal_value (first ∷ second ∷ text) =
    if first == b'0' && is_x second
    then digits_loop 16 0 false text
    else digits_loop 10 0 false (first ∷ second ∷ text)

-- `normalized` of `ParseFloatLiteralValue`: the text with no separators.
unfoldable pub normalized : Bytes → Bytes
normalized [] = []
normalized (ch ∷ text) = if ch == b'_' then normalized text else ch ∷ normalized text

-- `DecodeCharEscape`
unfoldable pub decode_char_escape : ℕ → Option ℕ
decode_char_escape escape =
    if escape == b'\''
    then some b'\''
    else if escape == b'\\'
    then some b'\\'
    else if escape == b'n'
    then some b'\n'
    else if escape == b'r'
    then some b'\r'
    else if escape == b't'
    then some b'\t'
    else if escape == b'0'
    then some 0
    else none
