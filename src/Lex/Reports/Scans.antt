-- ===== src/Lex/Reports/Scans.antt =====
-- Numbers, strings and character literals report only by adding to the sink.
use c_modern.Common.{ℕ, Bool, true, false, [], ◌∷◌, Bytes, Option, none, some, ◌==◌, if_rule, codes}
use c_modern.Support.Span.{SourcePosition}
use c_modern.Lex.Literals.{decode_char_escape}
use c_modern.Lex.Cursor.{Cursor, advance, is_hex_digit, is_decimal_digit}
use c_modern.Lex.Status.{Status}
use c_modern.Lex.Number.{
  Scan, DigitScan, digit_loop, close_digits, consume_digit_sequence, skip, Literal,
  separator_message, hex_part, integer_part, fraction_part, exponent_sign, exponent_part,
  scan_number,
}
use c_modern.Lex.Quoted.{
  StringScan, string_loop, scan_string, CharState, CharScan, char_loop, scan_char, closed_char,
  check_extra, check_terminated, report_escape, is_string_escape, is_line_end, no_chars,
}
use c_modern.Lex.Reports.{Reports, Reports-stay, Reports-fail, Reports-trans}

module _ (start : SourcePosition) (is_digit : ℕ → Bool) (allow : Bool)
    (missing separator : Bytes) where
  digit_loop-Reports :
      (r : Bytes) (p : SourcePosition) (saw just : Bool) (s : Status)
      → Reports s (digit_loop start is_digit allow missing separator r p saw just s).status
  unfolding digit_loop
  digit_loop-Reports [] p saw just s = Reports-stay s
  digit_loop-Reports (ch ∷ r) p saw just s =
      if_rule P (is_digit ch) (digit_loop-Reports r _ _ _ s) (
        if_rule P (ch == b'_')
          (if_rule P _ (digit_loop-Reports r _ _ _ s)
            (Reports-trans (Reports-fail start p separator s) (digit_loop-Reports r _ _ _ _)))
          (Reports-stay s))
    where
      P : DigitScan → Type 0
      P d = Reports s d.status

  close_digits-Reports :
      (d : DigitScan)
      → Reports d.status (close_digits start is_digit allow missing separator d).status
  unfolding close_digits
  close_digits-Reports d =
      if_rule (Reports d.status) d.saw_digit (Reports-stay _) (Reports-fail start _ missing _)

  consume-Reports :
      (s : Scan)
      → Reports s.status (consume_digit_sequence start is_digit allow missing separator s).status
  unfolding consume_digit_sequence
  consume-Reports s =
      Reports-trans (digit_loop-Reports s.cursor.rest s.cursor.position false false s.status) (
        close_digits-Reports (
          digit_loop start is_digit allow missing separator s.cursor.rest s.cursor.position false
            false s.status))

abbrev Silent : (SourcePosition → Scan → Scan) → Type 0
Silent f = (start : SourcePosition) (s : Scan) → Reports s.status (f start s).status

hex_part-Reports : Silent hex_part
unfolding hex_part
hex_part-Reports start s =
    consume-Reports start is_hex_digit true (codes "expected hexadecimal digits after 0x")
      separator_message (skip (skip s))

integer_part-Reports : Silent integer_part
unfolding integer_part
integer_part-Reports start =
    consume-Reports start is_decimal_digit true (codes "expected digits in numeric literal")
      separator_message

fraction_part-Reports :
    (start : SourcePosition) (s : Scan) → Reports s.status (fraction_part start s).0.status
unfolding fraction_part
fraction_part-Reports start s =
    if_rule P _
      (consume-Reports start is_decimal_digit true (codes "expected digit after decimal point")
        separator_message (skip s))
      (Reports-stay _)
  where
    P : Literal → Type 0
    P l = Reports s.status l.0.status

exponent_sign-Reports : (s : Scan) → Reports s.status (exponent_sign s).status
unfolding exponent_sign
exponent_sign-Reports s = if_rule P _ (Reports-stay _) (Reports-stay _)
  where
    P : Scan → Type 0
    P t = Reports s.status t.status

exponent_part-Reports :
    (start : SourcePosition) (l : Literal) → Reports l.0.status (exponent_part start l).0.status
unfolding exponent_part
exponent_part-Reports start (s, is_float) =
    if_rule P _
      (Reports-trans (exponent_sign-Reports (skip s)) (
        consume-Reports start is_decimal_digit false (codes "expected digits after exponent marker")
          (codes "numeric separator is not allowed in exponent") (exponent_sign (skip s))))
      (Reports-stay _)
  where
    P : Literal → Type 0
    P l = Reports s.status l.0.status

pub scan_number-Reports : (c : Cursor) (s : Status) → Reports s (scan_number c s).0.status
unfolding scan_number
scan_number-Reports c s =
    let opened : Scan = record { cursor = c; status = s } in
    let integer = integer_part c.position opened in
    let fraction = fraction_part c.position integer in
    if_rule P _ (hex_part-Reports c.position opened) (
      Reports-trans (integer_part-Reports c.position opened) (
        Reports-trans (fraction_part-Reports c.position integer)
          (exponent_part-Reports c.position fraction)))
  where
    P : Literal → Type 0
    P l = Reports s l.0.status

string_loop-Reports :
    (start : SourcePosition) (escaped : Bool) (r : Bytes) (p : SourcePosition) (s : Status)
    → Reports s (string_loop start escaped r p s).status
unfolding string_loop
string_loop-Reports start escaped [] p s = Reports-stay s
string_loop-Reports start true (ch ∷ r) p s =
    Reports-trans
      (if_rule (Reports s) (is_string_escape ch) (Reports-stay s) (Reports-fail start _ _ s))
      (string_loop-Reports start false r _ _)
string_loop-Reports start false (ch ∷ r) p s = if_rule P (ch == b'"') (Reports-stay s) (
    if_rule P (ch == b'\\') (string_loop-Reports start true r _ s)
      (if_rule P (is_line_end ch) (Reports-stay s) (string_loop-Reports start false r _ s)))
  where
    P : StringScan → Type 0
    P d = Reports s d.status

pub scan_string-Reports : (c : Cursor) (s : Status) → Reports s (scan_string c s).status
unfolding scan_string
scan_string-Reports c s =
    string_loop-Reports c.position false (advance c).rest (advance c).position s

report_escape-Reports :
    (start p : SourcePosition) (d : Option ℕ) (s : Status) → Reports s (report_escape start p d s)
unfolding report_escape
report_escape-Reports start p none s = Reports-fail start p _ s
report_escape-Reports start p (some d) s = Reports-stay s

char_loop-Reports :
    (start : SourcePosition) (escaped : Bool) (r : Bytes) (p : SourcePosition) (chars : CharState)
    (s : Status)
    → Reports s (char_loop start escaped r p chars s).status
unfolding char_loop
char_loop-Reports start escaped [] p chars s = Reports-stay s
char_loop-Reports start true (ch ∷ r) p chars s =
    Reports-trans (report_escape-Reports start _ (decode_char_escape ch) s)
      (char_loop-Reports start false r _ _ _)
char_loop-Reports start false (ch ∷ r) p chars s = if_rule P (is_line_end ch) (Reports-stay s) (
    if_rule P (ch == b'\'') (if_rule P _ (Reports-fail start _ _ s) (Reports-stay s)) (
      if_rule P (ch == b'\\') (char_loop-Reports start true r _ _ s)
        (char_loop-Reports start false r _ _ s)))
  where
    P : CharScan → Type 0
    P d = Reports s d.status

check_terminated-Reports :
    (start : SourcePosition) (r : CharScan) → Reports r.status (check_terminated start r).status
unfolding check_terminated
check_terminated-Reports start r =
    if_rule P r.terminated (Reports-stay _) (Reports-fail start _ _ _)
  where
    P : CharScan → Type 0
    P d = Reports r.status d.status

check_extra-Reports :
    (start : SourcePosition) (r : CharScan) → Reports r.status (check_extra start r).status
unfolding check_extra
check_extra-Reports start r = if_rule P _ (Reports-fail start _ _ _) (Reports-stay _)
  where
    P : CharScan → Type 0
    P d = Reports r.status d.status

scan_char-Reports : (c : Cursor) (s : Status) → Reports s (scan_char c s).status
unfolding scan_char
scan_char-Reports c s =
    char_loop-Reports c.position false (advance c).rest (advance c).position no_chars s

pub closed_char-Reports : (c : Cursor) (s : Status) → Reports s (closed_char c s).status
unfolding closed_char
closed_char-Reports c s = Reports-trans (scan_char-Reports c s) (
    Reports-trans (check_terminated-Reports c.position (scan_char c s))
      (check_extra-Reports c.position (check_terminated c.position (scan_char c s))))
