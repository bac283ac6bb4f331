-- ===== src/Lex/Run.antt =====
-- compiler/lex/lexer.cpp: `Lexer::Run` and `Lex`. A token list grows at its end, as the vector does.
use c_modern.Common.{
  ℕ, zero, suc, true, List, [], ◌∷◌, Option, none, some, Bytes, codes, ◌==◌, length, if◌then◌else◌,
}
use mathlib.Core.Option
use c_modern.Support.Diagnostics.{DiagnosticSink}
use c_modern.Lex.Token.{Token, TokenKind, identifier_kind}
use c_modern.Lex.Cursor.{
  Cursor, at, at_end, peek, advance, skip_trivia, newlines, identifier_loop, is_identifier_start,
  is_decimal_digit, lexeme_between,
}
use c_modern.Lex.Status.{Status, fail}
use c_modern.Lex.Number.{lex_number}
use c_modern.Lex.Quoted.{lex_string, lex_char_literal}
use c_modern.Lex.Punctuation.{lex_punctuation}

-- `ConsumeNewline`, called where `Peek()` is a newline.
unfoldable pub consume_newline : {F : Type 0} → Cursor → Token F × Cursor
unfolding newlines
consume_newline c =
    let behind = newlines (length c.rest) c in
    (
      record {
        kind = TokenKind.k_newline;
        lexeme = codes "\\n";
        integer_value = none;
        float_value = none;
        span = record { begin = c.position; end = behind.position };
      },
      behind,
    )

-- `LexIdentifier`
unfoldable pub lex_identifier : {F : Type 0} → Cursor → Token F × Cursor
unfolding identifier_loop identifier_kind
lex_identifier c =
    let behind = identifier_loop c.rest c.position in
    let text = lexeme_between c.rest behind.rest in
    (
      record {
        kind = identifier_kind text;
        lexeme = text;
        integer_value = none;
        float_value = none;
        span = record { begin = c.position; end = behind.position };
      },
      behind,
    )

-- What one round of the loop of `Run` leaves: a token or none, the position and the status.
pub record Round (F : Type 0) : Type 0 where
  pub token : Option (Token F)
  pub cursor : Cursor
  pub status : Status

abbrev pub emitted : {F : Type 0} → Status → Token F × Cursor → Round F
emitted s (token, cursor) = record { token = some token; cursor = cursor; status = s }

abbrev pub scanned : {F : Type 0} → Token F × Cursor × Status → Round F
scanned (token, cursor, s) = record { token = some token; cursor = cursor; status = s }

pub record LexResult (F : Type 0) : Type 0 where
  pub tokens : List (Token F)
  pub status : Status

-- `tokens.push_back(...)`, seen from the tokens that follow.
abbrev pub push_back : {F : Type 0} → Option (Token F) → List (Token F) → List (Token F)
push_back none tokens = tokens
push_back (some token) tokens = token ∷ tokens

abbrev pub push_token : {F : Type 0} → Option (Token F) → LexResult F → LexResult F
push_token token r = record r { tokens = push_back token r.tokens }

-- The token behind the loop.
unfoldable pub finish : {F : Type 0} → Cursor → Status → LexResult F
finish c s = record {
  tokens =
      record {
        kind = TokenKind.k_eof;
        lexeme = [];
        integer_value = none;
        float_value = none;
        span = record { begin = c.position; end = c.position };
      }
      ∷ [];
  status = s;
}

-- The last branch of the loop: a byte that starts no token is reported and passed over.
unfoldable pub unexpected : {F : Type 0} → Cursor → Status → Round F
unfolding advance fail
unexpected c s =
    let behind = advance c in
    record {
      token = none;
      cursor = behind;
      status = fail c.position behind.position (codes "unexpected character") s;
    }

unfoldable pub punctuation_or_unexpected :
    {F : Type 0} → Option (Token F × Cursor) → Cursor → Status → Round F
unfolding unexpected
punctuation_or_unexpected none c s = unexpected c s
punctuation_or_unexpected (some p) c s = emitted s p

module _ {F : Type 0} (read_double : Bytes → Option F) where
  -- A round of `Run` behind its `SkipTrivia`, where `AtEnd()` does not hold.
  unfoldable pub lex_token : Cursor → Status → Round F
  unfolding consume_newline is_identifier_start lex_identifier lex_number lex_string
      lex_char_literal lex_punctuation punctuation_or_unexpected
  lex_token c s =
      let current = peek c.rest in
      if current == b'\n'
      then emitted s (consume_newline c)
      else if is_identifier_start current
      then emitted s (lex_identifier c)
      else if is_decimal_digit current
      then scanned (lex_number read_double c s)
      else if current == b'"'
      then scanned (lex_string c s)
      else if current == b'\''
      then scanned (lex_char_literal c s)
      else punctuation_or_unexpected (lex_punctuation c) c s

  -- The loop of `Run`; `none` means that the fuel ran out.
  unfoldable pub run_loop : ℕ → Cursor → Status → Option (LexResult F)
  unfolding skip_trivia finish lex_token
  run_loop zero c s = none
  run_loop (suc fuel) c s =
      let c' = skip_trivia c in
      let round = lex_token c' s in
      let rest = run_loop fuel round.cursor round.status in
      if at_end c.rest
      then some (finish c s)
      else if at_end c'.rest
      then some (finish c' s)
      else Option.map (push_token round.token) rest

  -- `Lex`, on a sink that holds the earlier reports; the fuel is one round for each byte and one
  -- for the end.
  unfoldable pub lex : Bytes → Bytes → DiagnosticSink → Option (LexResult F)
  unfolding run_loop
  lex source_text file_path diagnostics =
      run_loop (suc (length source_text)) (at source_text (record { line = 1; column = 1 }))
        (record { file_path = file_path; ok = true; diagnostics = diagnostics })
