-- ===== src/Support/Span.antt =====
-- compiler/support/source_span.h.
use c_modern.Common.{ℕ}

pub record SourcePosition : Type 0 where
  pub line : ℕ
  pub column : ℕ

pub record SourceSpan : Type 0 where
  pub begin : SourcePosition
  pub end : SourcePosition
