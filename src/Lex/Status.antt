-- ===== src/Lex/Status.antt =====
-- compiler/lex/lexer.cpp: `result.ok`, `file_path_` and `diagnostics_`, which the loops pass along.
use c_modern.Common.{Bool, false, Bytes}
use c_modern.Support.Span.{SourcePosition}
use c_modern.Support.Diagnostics.{DiagnosticSink, DiagnosticSeverity, report}

pub record Status : Type 0 where
  pub file_path : Bytes
  pub ok : Bool
  pub diagnostics : DiagnosticSink

-- `ok = false; diagnostics_.Report({file_path_, {begin, end}, kError, message});`
unfoldable pub fail : SourcePosition → SourcePosition → Bytes → Status → Status
unfolding report
fail begin end message s = record s {
  ok = false;
  diagnostics =
      report
        (record {
          file_path = s.file_path;
          span = record { begin = begin; end = end };
          severity = DiagnosticSeverity.k_error;
          message = message;
        })
        s.diagnostics;
}
