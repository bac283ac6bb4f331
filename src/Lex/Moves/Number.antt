-- ===== src/Lex/Moves/Number.antt =====
-- `LexNumber` only moves forward.
use c_modern.Common.{
  ℕ, Bool, true, false, [], ◌∷◌, Bytes, ◌≡◌, refl, ◌==◌, if_rule, if_cases, codes,
}
use c_modern.Support.Span.{SourcePosition}
use c_modern.Lex.Cursor.{Cursor, at, advance, is_hex_digit, is_decimal_digit}
use c_modern.Lex.Status.{Status}
use c_modern.Lex.Number.{
  Scan, DigitScan, digit_loop, consume_digit_sequence, skip, Literal, separator_message, hex_digits,
  fraction_digits, exponent_digits, hex_part, integer_part, fraction_part, exponent_sign,
  exponent_part, scan_number,
}
use c_modern.Lex.Moves.{
  Moves, Any, Moves-stay, Moves-step, Moves-trans, Proper, Proper-step, Proper-trans,
}

module _ (start : SourcePosition) (is_digit : ℕ → Bool) (allow : Bool)
    (missing separator : Bytes) where
  digit_loop-Moves :
      (r : Bytes) (p : SourcePosition) (saw just : Bool) (s : Status)
      → Moves Any (at r p) (digit_loop start is_digit allow missing separator r p saw just s).cursor
  unfolding digit_loop
  digit_loop-Moves [] p saw just s = Moves-stay _
  digit_loop-Moves (ch ∷ r) p saw just s =
      if_rule P (is_digit ch) (Moves-step ch r p (digit_loop-Moves r _ _ _ _)) (
        if_rule P (ch == b'_')
          (if_rule P _ (Moves-step ch r p (digit_loop-Moves r _ _ _ _))
            (Moves-step ch r p (digit_loop-Moves r _ _ _ _)))
          (Moves-stay _))
    where
      P : DigitScan → Type 0
      P d = Moves Any (at (ch ∷ r) p) d.cursor

  consume-Moves :
      (s : Scan)
      → Moves Any s.cursor (consume_digit_sequence start is_digit allow missing separator s).cursor
  unfolding consume_digit_sequence
  consume-Moves s = digit_loop-Moves s.cursor.rest s.cursor.position false false s.status

advance_from-Moves : (r : Bytes) (p : SourcePosition) → Moves Any (at r p) (advance (at r p))
unfolding advance
advance_from-Moves [] p = Moves-stay _
advance_from-Moves (ch ∷ r) p = (ch ∷ [], tt, refl, refl)

pub advance-Moves : (c : Cursor) → Moves Any c (advance c)
advance-Moves c = advance_from-Moves c.rest c.position

exponent_sign-Moves : (s : Scan) → Moves Any s.cursor (exponent_sign s).cursor
unfolding exponent_sign
exponent_sign-Moves s = if_rule P _ (advance-Moves s.cursor) (Moves-stay _)
  where
    P : Scan → Type 0
    P t = Moves Any s.cursor t.cursor

abbrev Forward : (SourcePosition → Scan → Scan) → Type 0
Forward f = (start : SourcePosition) (s : Scan) → Moves Any s.cursor (f start s).cursor

hex_digits-Moves : Forward hex_digits
unfolding hex_digits
hex_digits-Moves start =
    consume-Moves start is_hex_digit true (codes "expected hexadecimal digits after 0x")
      separator_message

integer_part-Moves : Forward integer_part
unfolding integer_part
integer_part-Moves start =
    consume-Moves start is_decimal_digit true (codes "expected digits in numeric literal")
      separator_message

fraction_digits-Moves : Forward fraction_digits
unfolding fraction_digits
fraction_digits-Moves start =
    consume-Moves start is_decimal_digit true (codes "expected digit after decimal point")
      separator_message

exponent_digits-Moves : Forward exponent_digits
unfolding exponent_digits
exponent_digits-Moves start =
    consume-Moves start is_decimal_digit false (codes "expected digits after exponent marker")
      (codes "numeric separator is not allowed in exponent")

hex_part-Moves : Forward hex_part
unfolding hex_part
hex_part-Moves start s =
    Moves-trans (advance-Moves s.cursor)
      (Moves-trans (advance-Moves (skip s).cursor) (hex_digits-Moves start (skip (skip s))))

fraction_part-Moves :
    (start : SourcePosition) (s : Scan) → Moves Any s.cursor (fraction_part start s).0.cursor
unfolding fraction_part
fraction_part-Moves start s =
    if_rule P _ (Moves-trans (advance-Moves s.cursor) (fraction_digits-Moves start (skip s)))
      (Moves-stay _)
  where
    P : Literal → Type 0
    P l = Moves Any s.cursor l.0.cursor

exponent_part-Moves :
    (start : SourcePosition) (l : Literal) → Moves Any l.0.cursor (exponent_part start l).0.cursor
unfolding exponent_part
exponent_part-Moves start (s, is_float) =
    if_rule P _
      (Moves-trans (advance-Moves s.cursor) (
        Moves-trans (exponent_sign-Moves (skip s))
          (exponent_digits-Moves start (exponent_sign (skip s)))))
      (Moves-stay _)
  where
    P : Literal → Type 0
    P l = Moves Any s.cursor l.0.cursor

pub scan_number-Moves : (c : Cursor) (s : Status) → Moves Any c (scan_number c s).0.cursor
unfolding scan_number
scan_number-Moves c s =
    let opened : Scan = record { cursor = c; status = s } in
    let integer = integer_part c.position opened in
    let fraction = fraction_part c.position integer in
    if_rule P _ (hex_part-Moves c.position opened) (
      Moves-trans (integer_part-Moves c.position opened) (
        Moves-trans (fraction_part-Moves c.position integer)
          (exponent_part-Moves c.position fraction)))
  where
    P : Literal → Type 0
    P l = Moves Any c l.0.cursor

-- With a digit at the front `LexNumber` consumes at least that.
module _ (ch : ℕ) (r : Bytes) (p : SourcePosition) (s : Status)
    (h : is_decimal_digit ch ≡ true) where
  opened : Scan
  opened = record { cursor = at (ch ∷ r) p; status = s }

  digit_loop-Proper :
      (start : SourcePosition) (allow : Bool) (missing separator : Bytes)
      → Moves Proper
          (at (ch ∷ r) p)
          (digit_loop start is_decimal_digit allow missing separator
            (ch ∷ r)
            p
            false
            false
            s).cursor
  unfolding digit_loop
  digit_loop-Proper start allow missing separator =
      if_cases P (is_decimal_digit ch)
        (λ _.
          Proper-step ch r p
            (digit_loop-Moves start is_decimal_digit allow missing separator r _ true false s))
        (λ e. cc)
    where
      P : DigitScan → Type 0
      P d = Moves Proper (at (ch ∷ r) p) d.cursor

  integer_part-Proper : Moves Proper (at (ch ∷ r) p) (integer_part p opened).cursor
  unfolding integer_part consume_digit_sequence opened
  integer_part-Proper =
      digit_loop-Proper p true (codes "expected digits in numeric literal") separator_message

  hex_part-Proper : Moves Proper (at (ch ∷ r) p) (hex_part p opened).cursor
  unfolding hex_part advance opened
  hex_part-Proper =
      Proper-step ch r p (Moves-trans (advance-Moves _) (hex_digits-Moves p (skip (skip opened))))

  pub scan_number-Proper : Moves Proper (at (ch ∷ r) p) (scan_number (at (ch ∷ r) p) s).0.cursor
  unfolding scan_number opened
  scan_number-Proper =
      let integer = integer_part p opened in
      let fraction = fraction_part p integer in
      if_rule P _ hex_part-Proper (
        Proper-trans integer_part-Proper
          (Moves-trans (fraction_part-Moves p integer) (exponent_part-Moves p fraction)))
    where
      P : Literal → Type 0
      P l = Moves Proper (at (ch ∷ r) p) l.0.cursor
