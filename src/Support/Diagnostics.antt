-- ===== src/Support/Diagnostics.antt =====
-- compiler/support/diagnostics.h and diagnostics.cpp: the sink that every phase reports to, its
-- rendering, and `ParseArrayLength`. A path is its generic string.
pub mod ArrayLength
use c_modern.Common.{
  ℕ, ◌+◌, ◌-◌, ◌*◌, ◌%◌, ◌^◌, Bool, true, false, ◌||◌, List, [], ◌∷◌, ◌++◌, Option, none, some,
  Bytes, codes, decimal, ltb, if◌then◌else◌,
}
use c_modern.Support.Span.{SourceSpan}

pub data DiagnosticSeverity : Type 0 where
  k_error k_warning k_note : DiagnosticSeverity

pub record Diagnostic : Type 0 where
  pub file_path : Bytes
  pub span : SourceSpan
  pub severity : DiagnosticSeverity
  pub message : Bytes

-- `DiagnosticSink::diagnostics_`, in the order of the reports.
abbrev pub DiagnosticSink : Type 0
DiagnosticSink = List Diagnostic

-- `DiagnosticSink::Report`
unfoldable pub report : Diagnostic → DiagnosticSink → DiagnosticSink
report d sink = sink ++ d ∷ []

abbrev pub is_error : DiagnosticSeverity → Bool
is_error DiagnosticSeverity.k_error = true
is_error _ = false

unfoldable pub has_errors : DiagnosticSink → Bool
has_errors [] = false
has_errors (d ∷ ds) = is_error d.severity || has_errors ds

unfoldable pub severity_to_string : DiagnosticSeverity → Bytes
severity_to_string DiagnosticSeverity.k_error = codes "error"
severity_to_string DiagnosticSeverity.k_warning = codes "warning"
severity_to_string DiagnosticSeverity.k_note = codes "note"

rendered_path : Bytes → Bytes
rendered_path [] = codes "<unknown>"
rendered_path path = path

unfoldable pub format_diagnostic : Diagnostic → Bytes
unfolding rendered_path severity_to_string decimal
format_diagnostic d =
    rendered_path d.file_path
    ++ (b':'
        ∷ (decimal d.span.begin.line
            ++ (b':'
                ∷ (decimal d.span.begin.column
                    ++ (codes ": "
                        ++ (severity_to_string d.severity ++ (codes ": " ++ d.message)))))))

-- `DiagnosticSink::Render`: a newline between two diagnostics, none behind the last.
unfoldable pub render : DiagnosticSink → Bytes
render [] = []
render (d ∷ []) = format_diagnostic d
render (d ∷ e ∷ ds) = format_diagnostic d ++ (b'\n' ∷ render (e ∷ ds))

-- The loop of `ParseArrayLength`; `std::size_t` wraps at 2 ^ 64.
unfoldable pub parse_array_length_loop : ℕ → Bytes → Option ℕ
parse_array_length_loop value [] = some value
parse_array_length_loop value (ch ∷ text) =
    let next = parse_array_length_loop ((value * 10 + (ch - b'0')) % 2 ^ 64) text in
    if ltb ch b'0' || ltb b'9' ch then none else next

unfoldable pub parse_array_length : Bytes → Option ℕ
unfolding parse_array_length_loop
parse_array_length [] = none
parse_array_length text = parse_array_length_loop 0 text
