-- ===== src/Tests/Lexer.antt =====
-- compiler/lex/lexer.cpp at concrete texts.
use c_modern.Common.{
  ℕ, true, [], ◌++◌, Option, none, some, Bytes, codes, ◌≡◌, refl, ◌↔◌, if◌then◌else◌, decimal, leb,
  text_eq,
}
use c_modern.Support.Diagnostics.{DiagnosticSink}
use c_modern.Lex.Literals.{parse_integer_literal_value, int64_max}
use c_modern.Lex.Literals.Value.{
  unbounded, has_digit, accept, base_of, digits_of, parse_integer_literal_value-unbounded,
}
use c_modern.Lex.Literals.RoundTrip.{parse_integer_literal_value-decimal}
use c_modern.Lex.Run.{LexResult, lex}
use c_modern.Lex.Reports.{AllErrors}
use c_modern.Lex.Tiling.{Tiles}
use c_modern.Lex.Tiling.Whole.{lex-Tiles, lex-Reports}

-- A reader of doubles that accepts nothing but the text `1.5`, and gives its tenths.
abbrev one_and_a_half : Bytes → Option ℕ
unfolding text_eq
one_and_a_half text = if text_eq text (codes "1.5") then some 15 else none

abbrev program : Bytes
program = codes "var x = 0x1F // one\n\n  y += 1.5 @"

abbrev broken : Bytes
broken = codes "@"

abbrev no_diagnostics : DiagnosticSink
no_diagnostics = []

hexadecimal : parse_integer_literal_value (codes "0xFF_ff") ≡ some 65535
unfolding parse_integer_literal_value
hexadecimal = refl

lex-Tiles_example :
    (r : LexResult ℕ) × (lex one_and_a_half program (codes "main.mc") no_diagnostics ≡ some r)
    × Tiles ℕ r.status.ok (record { line = 1; column = 1 }) program r.tokens
lex-Tiles_example = lex-Tiles one_and_a_half program (codes "main.mc") no_diagnostics

abbrev after_broken : LexResult ℕ
unfolding lex
after_broken = elim (lex one_and_a_half broken (codes "main.mc") no_diagnostics) [
  | some r ↦ r
  | none ↦ record { tokens = []; status = record { file_path = []; ok = true; diagnostics = [] } }
]

stray_byte : lex one_and_a_half broken (codes "main.mc") no_diagnostics ≡ some after_broken
unfolding lex
stray_byte = refl

lex-Reports_example :
    (added : DiagnosticSink) × (after_broken.status.diagnostics ≡ no_diagnostics ++ added)
    × AllErrors (codes "main.mc") added
    × ((after_broken.status.ok ≡ true) ↔ (added ≡ []))
lex-Reports_example =
    lex-Reports one_and_a_half broken (codes "main.mc") no_diagnostics {r = after_broken} stray_byte

parse_integer_literal_value-unbounded_example :
    parse_integer_literal_value (codes "0x1_0")
    ≡ accept
        (has_digit (digits_of (codes "0x1_0")))
        (unbounded (base_of (codes "0x1_0")) 0 (digits_of (codes "0x1_0")))
parse_integer_literal_value-unbounded_example =
    parse_integer_literal_value-unbounded (codes "0x1_0")

parse_integer_literal_value-decimal_example :
    parse_integer_literal_value (decimal 4096) ≡ (if leb 4096 int64_max then some 4096 else none)
parse_integer_literal_value-decimal_example = parse_integer_literal_value-decimal 4096
