-- ===== src/Tests/Paths.antt =====
-- compiler/support/diagnostics.cpp at concrete inputs.
use c_modern.Common.{
  ◌%◌, ◌^◌, Bool, List, [], ◌∷◌, ◌++◌, none, some, Bytes, codes, text_eq, ◌≡◌, refl, if◌then◌else◌,
  decimal,
}
use c_modern.Common.Digits.{digits_value}
use c_modern.Support.Span.{SourceSpan}
use c_modern.Support.Diagnostics.{DiagnosticSink, parse_array_length, format_diagnostic}
use c_modern.Support.Diagnostics.ArrayLength.{
  is_number, parse_array_length-value, parse_array_length-decimal,
}
use c_modern.Support.Imports.{unresolved, ambiguous, resolve_import_path_from_roots}
use c_modern.Support.Imports.Unique.{Resolution, resolve_import_path_from_roots-Resolution}

abbrev candidate : Bytes → Bytes → Bytes
candidate root name = root ++ (b'/' ∷ (name ++ codes ".mc"))

abbrev is_file : Bytes → Bool
unfolding text_eq
is_file path = text_eq path (codes "/lib/io.mc")

abbrev roots : List Bytes
roots = codes "/src" ∷ codes "/lib" ∷ codes "/lib" ∷ []

abbrev here : SourceSpan
here = record { begin = record { line = 3; column = 1 }; end = record { line = 3; column = 9 } }

abbrev nothing_reported : DiagnosticSink
nothing_reported = []

formatted :
    format_diagnostic (unresolved (codes "main.mc") (codes "io") here)
    ≡ codes "main.mc:3:1: error: unable to resolve import module: io"
unfolding format_diagnostic
formatted = refl

parse_array_length-value_example :
    parse_array_length (codes "12x")
    ≡ (if is_number (codes "12x") then some (digits_value 0 (codes "12x") % 2 ^ 64) else none)
parse_array_length-value_example = parse_array_length-value (codes "12x")

parse_array_length-decimal_example : parse_array_length (decimal 4096) ≡ some (4096 % 2 ^ 64)
parse_array_length-decimal_example = parse_array_length-decimal 4096

resolve_import_path_from_roots-Resolution_example :
    Resolution candidate is_file
      (codes "io")
      roots
      nothing_reported
      (unresolved (codes "/src/main.mc") (codes "io") here)
      (λ matches. ambiguous (codes "/src/main.mc") (codes "io") matches here)
      (resolve_import_path_from_roots candidate is_file
        (codes "/src/main.mc")
        (codes "io")
        roots
        nothing_reported
        here)
resolve_import_path_from_roots-Resolution_example =
    resolve_import_path_from_roots-Resolution candidate is_file (codes "io") (codes "/src/main.mc")
      roots nothing_reported here
