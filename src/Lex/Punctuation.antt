-- ===== src/Lex/Punctuation.antt =====
-- compiler/lex/lexer.cpp: `LexPunctuation`.
use c_modern.Common.{ℕ, zero, suc, Option, none, some, ◌==◌, take, if◌then◌else◌}
use c_modern.Lex.Token.{Token, TokenKind}
use c_modern.Lex.Cursor.{Cursor, peek, peek_next, advance}

-- The switch: the kind and the width that `emit` is called with.
unfoldable pub punctuation : ℕ → ℕ → Option (TokenKind × ℕ)
punctuation ch next =
    if ch == b'{'
    then some (TokenKind.k_l_brace, 1)
    else if ch == b'}'
    then some (TokenKind.k_r_brace, 1)
    else if ch == b'('
    then some (TokenKind.k_l_paren, 1)
    else if ch == b')'
    then some (TokenKind.k_r_paren, 1)
    else if ch == b'['
    then some (TokenKind.k_l_bracket, 1)
    else if ch == b']'
    then some (TokenKind.k_r_bracket, 1)
    else if ch == b','
    then some (TokenKind.k_comma, 1)
    else if ch == b':'
    then (if next == b'=' then some (TokenKind.k_colon_assign, 2) else some (TokenKind.k_colon, 1))
    else if ch == b'@'
    then some (TokenKind.k_at, 1)
    else if ch == b'.'
    then (if next == b'*'
        then some (TokenKind.k_dot_deref, 2)
        else if next == b'.'
        then some (TokenKind.k_range, 2)
        else some (TokenKind.k_dot, 1))
    else if ch == b'='
    then (if next == b'=' then some (TokenKind.k_eq_eq, 2) else some (TokenKind.k_assign, 1))
    else if ch == b'!'
    then (if next == b'=' then some (TokenKind.k_bang_eq, 2) else some (TokenKind.k_bang, 1))
    else if ch == b'<'
    then (if next == b'<'
        then some (TokenKind.k_lt_lt, 2)
        else if next == b'='
        then some (TokenKind.k_lt_eq, 2)
        else some (TokenKind.k_lt, 1))
    else if ch == b'>'
    then (if next == b'>'
        then some (TokenKind.k_gt_gt, 2)
        else if next == b'='
        then some (TokenKind.k_gt_eq, 2)
        else some (TokenKind.k_gt, 1))
    else if ch == b'+'
    then some (TokenKind.k_plus, 1)
    else if ch == b'-'
    then (if next == b'>' then some (TokenKind.k_arrow, 2) else some (TokenKind.k_minus, 1))
    else if ch == b'*'
    then some (TokenKind.k_star, 1)
    else if ch == b'/'
    then some (TokenKind.k_slash, 1)
    else if ch == b'%'
    then some (TokenKind.k_percent, 1)
    else if ch == b'&'
    then (if next == b'&' then some (TokenKind.k_amp_amp, 2) else some (TokenKind.k_amp, 1))
    else if ch == b'|'
    then (if next == b'|' then some (TokenKind.k_pipe_pipe, 2) else some (TokenKind.k_pipe, 1))
    else if ch == b'^'
    then some (TokenKind.k_caret, 1)
    else none

-- The loop of `emit`.
unfoldable pub advance_by : ℕ → Cursor → Cursor
unfolding advance
advance_by zero c = c
advance_by (suc width) c = advance_by width (advance c)

-- `emit`
unfoldable pub emit : {F : Type 0} → TokenKind → ℕ → Cursor → Token F × Cursor
unfolding advance_by
emit kind width c =
    let behind = advance_by width c in
    (
      record {
        kind = kind;
        lexeme = take width c.rest;
        integer_value = none;
        float_value = none;
        span = record { begin = c.position; end = behind.position };
      },
      behind,
    )

unfoldable pub lex_punctuation : {F : Type 0} → Cursor → Option (Token F × Cursor)
unfolding punctuation emit
lex_punctuation c = elim (punctuation (peek c.rest) (peek_next c.rest)) [
  | none ↦ none
  | some (kind, width) ↦ some (emit kind width c)
]
