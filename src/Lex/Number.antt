-- ===== src/Lex/Number.antt =====
-- compiler/lex/lexer.cpp: `LexNumber` and `ConsumeDigitSequence`.
use c_modern.Common.{
  ℕ, Bool, true, false, not, ◌&&◌, ◌||◌, [], ◌∷◌, Option, none, Bytes, codes, ◌==◌, if◌then◌else◌,
}
use c_modern.Support.Span.{SourcePosition}
use c_modern.Lex.Token.{Token, TokenKind}
use c_modern.Lex.Literals.{is_x, parse_integer_literal_value, normalized}
use c_modern.Lex.Cursor.{
  Cursor, at, at_end, peek, peek_next, advance_position, advance, is_decimal_digit, is_hex_digit,
  lexeme_between,
}
use c_modern.Lex.Status.{Status, fail}

-- Where a scan stopped, and what it reported.
pub record Scan : Type 0 where
  pub cursor : Cursor
  pub status : Status

-- The loop of `ConsumeDigitSequence`, with `saw_digit` as its last value.
pub record DigitScan : Type 0 where
  pub cursor : Cursor
  pub saw_digit : Bool
  pub status : Status

module _ (start : SourcePosition) (is_digit : ℕ → Bool) (allow_separator : Bool)
    (missing separator : Bytes) where
  unfoldable pub digit_loop : Bytes → SourcePosition → Bool → Bool → Status → DigitScan
  unfolding advance_position fail
  digit_loop [] p saw_digit just_saw s = record {
    cursor = at [] p;
    saw_digit = saw_digit;
    status = s;
  }
  digit_loop (ch ∷ rest) p saw_digit just_saw s =
      let p' = advance_position ch p in
      let next = peek rest in
      let digit = digit_loop rest p' true false s in
      let valid = digit_loop rest p' saw_digit true s in
      let invalid = digit_loop rest p' saw_digit just_saw (fail start p separator s) in
      if is_digit ch
      then digit
      else if ch == b'_'
      then (if allow_separator && saw_digit && not just_saw && not (next == 0) && is_digit next
          then valid
          else invalid)
      else record { cursor = at (ch ∷ rest) p; saw_digit = saw_digit; status = s }

  -- The test behind the loop.
  unfoldable pub close_digits : DigitScan → Scan
  unfolding fail
  close_digits d = record {
    cursor = d.cursor;
    status = if d.saw_digit then d.status else fail start d.cursor.position missing d.status;
  }

  -- `ConsumeDigitSequence`
  unfoldable pub consume_digit_sequence : Scan → Scan
  unfolding digit_loop close_digits
  consume_digit_sequence s =
      close_digits (digit_loop s.cursor.rest s.cursor.position false false s.status)

abbrev pub separator_message : Bytes
separator_message = codes "numeric separator must appear between digits"

abbrev pub skip : Scan → Scan
skip s = record s { cursor = advance s.cursor }

-- A scan, and whether `is_float` is set.
abbrev pub Literal : Type 0
Literal = Scan × Bool

-- The four calls of `ConsumeDigitSequence`.
unfoldable pub hex_digits : SourcePosition → Scan → Scan
unfolding consume_digit_sequence
hex_digits start =
    consume_digit_sequence start is_hex_digit true (codes "expected hexadecimal digits after 0x")
      separator_message

unfoldable pub integer_part : SourcePosition → Scan → Scan
unfolding consume_digit_sequence
integer_part start =
    consume_digit_sequence start is_decimal_digit true (codes "expected digits in numeric literal")
      separator_message

unfoldable pub fraction_digits : SourcePosition → Scan → Scan
unfolding consume_digit_sequence
fraction_digits start =
    consume_digit_sequence start is_decimal_digit true (codes "expected digit after decimal point")
      separator_message

unfoldable pub exponent_digits : SourcePosition → Scan → Scan
unfolding consume_digit_sequence
exponent_digits start =
    consume_digit_sequence start is_decimal_digit false
      (codes "expected digits after exponent marker")
      (codes "numeric separator is not allowed in exponent")

-- The branch of `0x`.
unfoldable pub hex_part : SourcePosition → Scan → Scan
unfolding hex_digits advance
hex_part start s = hex_digits start (skip (skip s))

unfoldable pub fraction_part : SourcePosition → Scan → Literal
unfolding fraction_digits advance
fraction_part start s =
    let rest = s.cursor.rest in
    if not (at_end rest) && peek rest == b'.' && not (peek_next rest == b'.')
    then (fraction_digits start (skip s), true)
    else (s, false)

-- The optional sign behind the exponent marker.
unfoldable pub exponent_sign : Scan → Scan
unfolding advance
exponent_sign s =
    let rest = s.cursor.rest in
    if not (at_end rest) && (peek rest == b'+' || peek rest == b'-') then skip s else s

unfoldable pub exponent_part : SourcePosition → Literal → Literal
unfolding exponent_digits exponent_sign advance
exponent_part start (s, is_float) =
    let rest = s.cursor.rest in
    if not (at_end rest) && (peek rest == b'e' || peek rest == b'E')
    then (exponent_digits start (exponent_sign (skip s)), true)
    else (s, is_float)

-- What `LexNumber` consumes.
unfoldable pub scan_number : Cursor → Status → Literal
unfolding hex_part integer_part fraction_part exponent_part
scan_number c status =
    let s : Scan = record { cursor = c; status = status } in
    let start = c.position in
    if peek c.rest == b'0' && is_x (peek_next c.rest)
    then (hex_part start s, false)
    else exponent_part start (fraction_part start (integer_part start s))

-- `read_double` is what `stream >> value` reads from a text, or `none` where it fails or leaves
-- some of the text.
module _ {F : Type 0} (read_double : Bytes → Option F) where
  unfoldable pub number_token : SourcePosition → Bytes → Literal → Token F
  unfolding parse_integer_literal_value normalized
  number_token start text (s, is_float) =
      let lexeme = lexeme_between text s.cursor.rest in
      record {
        kind = if is_float then TokenKind.k_float_literal else TokenKind.k_int_literal;
        lexeme = lexeme;
        integer_value = if is_float then none else parse_integer_literal_value lexeme;
        float_value = if is_float then read_double (normalized lexeme) else none;
        span = record { begin = start; end = s.cursor.position };
      }

  -- `LexNumber`: the token, the position behind it and what was reported.
  unfoldable pub lex_number : Cursor → Status → Token F × Cursor × Status
  unfolding scan_number number_token
  lex_number c status =
      let scanned = scan_number c status in
      (number_token c.position c.rest scanned, scanned.0.cursor, scanned.0.status)
