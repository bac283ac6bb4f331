-- ===== src/Lex/Tiling.antt =====
-- What the tokens say of the text: they and the gaps between them are the whole of it.
pub mod Punctuation
pub mod Tokens
pub mod Rounds
pub mod Whole
use c_modern.Common.{ℕ, Bool, true, false, List, [], ◌∷◌, ◌++◌, ◌≡◌, ◌≢◌, Bytes, codes, none}
use c_modern.Support.Span.{SourcePosition, SourceSpan}
use c_modern.Lex.Token.{TokenKind, Token, to_string}
use c_modern.Lex.Cursor.{advance_position, peek, is_identifier_start, is_decimal_digit}
use c_modern.Lex.Punctuation.{punctuation}
use c_modern.Lex.Moves.{walk}
use c_modern.Lex.Moves.Trivia.{Trivia, NewlineRun}

-- The two kinds that stand for no text of their own.
abbrev pub is_layout : TokenKind → Bool
is_layout TokenKind.k_newline = true
is_layout TokenKind.k_eof = true
is_layout _ = false

-- The kinds with one spelling: keywords and punctuation.
abbrev pub has_spelling : TokenKind → Bool
has_spelling TokenKind.k_newline = false
has_spelling TokenKind.k_identifier = false
has_spelling TokenKind.k_int_literal = false
has_spelling TokenKind.k_float_literal = false
has_spelling TokenKind.k_string_literal = false
has_spelling TokenKind.k_char_literal = false
has_spelling TokenKind.k_eof = false
has_spelling _ = true

-- A token of such a kind has the text that `ToString` gives its kind.
abbrev pub Spelled : TokenKind → Bytes → Type 0
Spelled kind lexeme = has_spelling kind ≡ true → lexeme ≡ to_string kind

abbrev pub span_of : SourcePosition → SourcePosition → SourceSpan
span_of begin end = record { begin = begin; end = end }

-- No token starts with the byte `ch` before `next`.
abbrev pub StartsNone : ℕ → ℕ → Type 0
StartsNone ch next =
    (is_identifier_start ch ≡ false)
    × (is_decimal_digit ch ≡ false)
    × (ch ≢ b'"')
    × (ch ≢ b'\'')
    × (punctuation ch next ≡ none)

-- The text `src` at the position `p` reads as the tokens, with trivia between them. A byte that
-- starts no token may be left out only if `ok` is false.
pub data Tiles (F : Type 0) (ok : Bool) : SourcePosition → Bytes → List (Token F) → Type 0 where
  done :
      {p : SourcePosition} {src : Bytes} {t : Token F}
      → src ≡ []
      → t.kind ≡ TokenKind.k_eof
      → t.lexeme ≡ []
      → t.span ≡ span_of p p
      → Tiles F ok p src (t ∷ [])
  gap :
      {p : SourcePosition} {src : Bytes} {ts : List (Token F)} (w rest : Bytes)
      → Trivia false w
      → src ≡ w ++ rest
      → Tiles F ok (walk p w) rest ts
      → Tiles F ok p src ts
  solid :
      {p : SourcePosition} {src : Bytes} {t : Token F} {ts : List (Token F)} (rest : Bytes)
      → is_layout t.kind ≡ false
      → Spelled t.kind t.lexeme
      → t.lexeme ≢ []
      → src ≡ t.lexeme ++ rest
      → t.span ≡ span_of p (walk p t.lexeme)
      → Tiles F ok (walk p t.lexeme) rest ts
      → Tiles F ok p src (t ∷ ts)
  line_breaks :
      {p : SourcePosition} {src : Bytes} {t : Token F} {ts : List (Token F)} (w rest : Bytes)
      → t.kind ≡ TokenKind.k_newline
      → t.lexeme ≡ codes "\\n"
      → w ≢ []
      → NewlineRun w
      → peek rest ≢ b'\n'
      → src ≡ w ++ rest
      → t.span ≡ span_of p (walk p w)
      → Tiles F ok (walk p w) rest ts
      → Tiles F ok p src (t ∷ ts)
  stray :
      {p : SourcePosition} {src : Bytes} {ts : List (Token F)} (ch : ℕ) (rest : Bytes)
      → ok ≡ false
      → StartsNone ch (peek rest)
      → src ≡ ch ∷ rest
      → Tiles F ok (advance_position ch p) rest ts
      → Tiles F ok p src ts
