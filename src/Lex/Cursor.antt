-- ===== src/Lex/Cursor.antt =====
-- compiler/lex/lexer.cpp: the reading position of `class Lexer`, and the loops that only move it.
use c_modern.Common.{
  ℕ, suc, zero, ◌+◌, ◌-◌, Bool, true, false, not, ◌&&◌, ◌||◌, [], ◌∷◌, Bytes, ◌==◌, length, take,
  if◌then◌else◌,
}
use c_modern.Support.Span.{SourcePosition}
use c_modern.Lex.Literals.{within}

-- `rest` is `source_text_.substr(index_)`; `position` is `line_` and `column_`.
pub record Cursor : Type 0 where
  pub rest : Bytes
  pub position : SourcePosition

abbrev pub at : Bytes → SourcePosition → Cursor
at rest position = record { rest = rest; position = position }

-- `AtEnd`
abbrev pub at_end : Bytes → Bool
at_end [] = true
at_end (_ ∷ _) = false

-- `Peek`
abbrev pub peek : Bytes → ℕ
peek [] = 0
peek (ch ∷ _) = ch

-- `PeekNext`
abbrev pub peek_next : Bytes → ℕ
peek_next [] = 0
peek_next (_ ∷ rest) = peek rest

-- What `Advance` does to `line_` and `column_` as it passes a byte.
unfoldable pub advance_position : ℕ → SourcePosition → SourcePosition
advance_position ch p =
    if ch == b'\n'
    then record { line = p.line + 1; column = 1 }
    else record { line = p.line; column = p.column + 1 }

unfoldable pub advance_from : Bytes → SourcePosition → Cursor
unfolding advance_position
advance_from [] p = at [] p
advance_from (ch ∷ rest) p = at rest (advance_position ch p)

-- `Advance`, whose callers have seen that there is a byte.
unfoldable pub advance : Cursor → Cursor
unfolding advance_from
advance c = advance_from c.rest c.position

-- `std::isalpha`, `std::isdigit` and `std::isxdigit` in the "C" locale.
abbrev pub is_alpha : ℕ → Bool
is_alpha ch = within b'a' b'z' ch || within b'A' b'Z' ch

abbrev pub is_decimal_digit : ℕ → Bool
is_decimal_digit ch = within b'0' b'9' ch

abbrev pub is_hex_digit : ℕ → Bool
is_hex_digit ch = within b'0' b'9' ch || within b'a' b'f' ch || within b'A' b'F' ch

unfoldable pub is_identifier_start : ℕ → Bool
is_identifier_start ch = is_alpha ch || ch == b'_'

unfoldable pub is_identifier_continue : ℕ → Bool
is_identifier_continue ch = is_alpha ch || is_decimal_digit ch || ch == b'_'

abbrev pub is_blank : ℕ → Bool
is_blank ch = ch == b' ' || ch == b'\t' || ch == b'\r'

-- The two loops of `SkipTrivia` as one: `in_comment` says that the inner one is running.
unfoldable pub skip_from : Bool → Bytes → SourcePosition → Cursor
unfolding advance_position
skip_from in_comment [] p = at [] p
skip_from in_comment (ch ∷ rest) p =
    let inside = skip_from true rest (advance_position ch p) in
    let outside = skip_from false rest (advance_position ch p) in
    if in_comment && not (ch == b'\n')
    then inside
    else if is_blank ch
    then outside
    else if ch == b'/' && peek rest == b'/'
    then inside
    else at (ch ∷ rest) p

-- `SkipTrivia`
unfoldable pub skip_trivia : Cursor → Cursor
unfolding skip_from
skip_trivia c = skip_from false c.rest c.position

-- The loop of `ConsumeNewline`, whose rounds the fuel bounds.
unfoldable pub newlines : ℕ → Cursor → Cursor
unfolding advance skip_trivia
newlines zero c = c
newlines (suc fuel) c =
    let next = newlines fuel (skip_trivia (advance c)) in
    if not (at_end c.rest) && peek c.rest == b'\n' then next else c

-- The loop of `LexIdentifier`.
unfoldable pub identifier_loop : Bytes → SourcePosition → Cursor
unfolding advance_position is_identifier_continue
identifier_loop [] p = at [] p
identifier_loop (ch ∷ rest) p =
    let next = identifier_loop rest (advance_position ch p) in
    if is_identifier_continue ch then next else at (ch ∷ rest) p

-- `source_text_.substr(start_index, index_ - start_index)`
abbrev pub lexeme_between : Bytes → Bytes → Bytes
lexeme_between start rest = take (length start - length rest) start
