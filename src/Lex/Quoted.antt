-- ===== src/Lex/Quoted.antt =====
-- compiler/lex/lexer.cpp: `LexString` and `LexCharLiteral`.
use c_modern.Common.{
  ℕ, Bool, true, false, not, ◌&&◌, ◌||◌, [], ◌∷◌, Option, none, some, Bytes, codes, ◌==◌,
  if◌then◌else◌,
}
use c_modern.Support.Span.{SourcePosition}
use c_modern.Lex.Token.{Token, TokenKind}
use c_modern.Lex.Literals.{decode_char_escape}
use c_modern.Lex.Cursor.{Cursor, at, advance_position, advance, lexeme_between}
use c_modern.Lex.Status.{Status, fail}

pub record StringScan : Type 0 where
  pub cursor : Cursor
  pub terminated : Bool
  pub status : Status

abbrev pub is_line_end : ℕ → Bool
is_line_end ch = ch == b'\n' || ch == b'\r'

unfoldable pub is_string_escape : ℕ → Bool
is_string_escape ch =
    ch == b'"' || ch == b'\\' || ch == b'n' || ch == b'r' || ch == b't' || ch == b'0'

-- The loop of `LexString`; `escaped` says that the byte to read is the one behind a backslash.
unfoldable pub string_loop : SourcePosition → Bool → Bytes → SourcePosition → Status → StringScan
unfolding advance_position fail is_string_escape
string_loop start escaped [] p s = record { cursor = at [] p; terminated = false; status = s }
string_loop start true (escape ∷ rest) p s =
    let p' = advance_position escape p in
    string_loop start false rest p'
      (if is_string_escape escape then s else fail start p' (codes "unsupported string escape") s)
string_loop start false (value ∷ rest) p s =
    let p' = advance_position value p in
    let after_backslash = string_loop start true rest p' s in
    let next = string_loop start false rest p' s in
    if value == b'"'
    then record { cursor = at rest p'; terminated = true; status = s }
    else if value == b'\\'
    then after_backslash
    else if is_line_end value
    then record { cursor = at rest p'; terminated = false; status = s }
    else next

unfoldable pub scan_string : Cursor → Status → StringScan
unfolding string_loop advance
scan_string c s =
    let opened = advance c in string_loop c.position false opened.rest opened.position s

-- `LexString`
unfoldable pub lex_string : {F : Type 0} → Cursor → Status → Token F × Cursor × Status
unfolding scan_string fail
lex_string c s =
    let scanned = scan_string c s in
    let end = scanned.cursor.position in
    (
      record {
        kind = TokenKind.k_string_literal;
        lexeme = lexeme_between c.rest scanned.cursor.rest;
        integer_value = none;
        float_value = none;
        span = record { begin = c.position; end = end };
      },
      scanned.cursor,
      if scanned.terminated
          then scanned.status
          else fail c.position end (codes "unterminated string literal") scanned.status,
    )

-- The locals of `LexCharLiteral`.
pub record CharState : Type 0 where
  pub saw_value : Bool
  pub has_extra : Bool
  pub invalid : Bool
  pub value : Option ℕ

pub record CharScan : Type 0 where
  pub cursor : Cursor
  pub terminated : Bool
  pub chars : CharState
  pub status : Status

-- The test of `decoded_value` at the end of a round.
unfoldable pub push_value : ℕ → CharState → CharState
push_value decoded chars =
    if not chars.saw_value
    then record chars { saw_value = true; value = some decoded }
    else record chars { has_extra = true }

-- What an escape does: `invalid` is set and reported where it cannot be decoded.
unfoldable pub push_escape : Option ℕ → CharState → CharState
unfolding push_value
push_escape none chars = record chars { invalid = true }
push_escape (some decoded) chars = push_value decoded chars

unfoldable pub report_escape : SourcePosition → SourcePosition → Option ℕ → Status → Status
unfolding fail
report_escape start p none s = fail start p (codes "unsupported character escape") s
report_escape start p (some decoded) s = s

-- The loop of `LexCharLiteral`; `escaped` says that the byte to read is the one behind a backslash.
unfoldable pub char_loop :
    SourcePosition → Bool → Bytes → SourcePosition → CharState → Status → CharScan
unfolding advance_position fail decode_char_escape push_value push_escape report_escape
char_loop start escaped [] p chars s = record {
  cursor = at [] p;
  terminated = false;
  chars = chars;
  status = s;
}
char_loop start true (escape ∷ rest) p chars s =
    let p' = advance_position escape p in
    let decoded = decode_char_escape escape in
    char_loop start false rest p' (push_escape decoded chars) (report_escape start p' decoded s)
char_loop start false (current ∷ rest) p chars s =
    let p' = advance_position current p in
    let after_backslash = char_loop start true rest p' chars s in
    let next = char_loop start false rest p' (push_value current chars) s in
    if is_line_end current
    then record { cursor = at rest p'; terminated = false; chars = chars; status = s }
    else if current == b'\''
    then (if not chars.saw_value
        then record {
          cursor = at rest p';
          terminated = true;
          chars = record chars { invalid = true };
          status = fail start p' (codes "empty character literal") s;
        }
        else record { cursor = at rest p'; terminated = true; chars = chars; status = s })
    else if current == b'\\'
    then after_backslash
    else next

abbrev pub no_chars : CharState
no_chars = record { saw_value = false; has_extra = false; invalid = false; value = none }

unfoldable pub scan_char : Cursor → Status → CharScan
unfolding char_loop advance
scan_char c s =
    let opened = advance c in char_loop c.position false opened.rest opened.position no_chars s

-- The test of `terminated` behind the loop.
unfoldable pub check_terminated : SourcePosition → CharScan → CharScan
unfolding fail
check_terminated start r = if r.terminated then r else record r {
  chars = record {
    saw_value = r.chars.saw_value;
    has_extra = r.chars.has_extra;
    invalid = true;
    value = r.chars.value;
  };
  status = fail start r.cursor.position (codes "unterminated character literal") r.status;
}

-- The test of `saw_value && has_extra`.
unfoldable pub check_extra : SourcePosition → CharScan → CharScan
unfolding fail
check_extra start r =
    if r.chars.saw_value && r.chars.has_extra
    then record r {
      chars = record {
        saw_value = r.chars.saw_value;
        has_extra = r.chars.has_extra;
        invalid = true;
        value = r.chars.value;
      };
      status =
          fail start r.cursor.position (codes "character literal may contain only one byte")
            r.status;
    }
    else r

-- The value of the token.
unfoldable pub char_value : CharScan → Option ℕ
char_value r =
    if not r.chars.invalid && r.chars.saw_value && r.terminated && not r.chars.has_extra
    then r.chars.value
    else none

unfoldable pub closed_char : Cursor → Status → CharScan
unfolding scan_char check_terminated check_extra
closed_char c s = check_extra c.position (check_terminated c.position (scan_char c s))

-- `LexCharLiteral`
unfoldable pub lex_char_literal : {F : Type 0} → Cursor → Status → Token F × Cursor × Status
unfolding closed_char char_value
lex_char_literal c s =
    let scanned = closed_char c s in
    (
      record {
        kind = TokenKind.k_char_literal;
        lexeme = lexeme_between c.rest scanned.cursor.rest;
        integer_value = char_value scanned;
        float_value = none;
        span = record { begin = c.position; end = scanned.cursor.position };
      },
      scanned.cursor,
      scanned.status,
    )
