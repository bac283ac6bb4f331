-- ===== src/Support.antt =====
-- compiler/support: source positions, diagnostics, artifact names.
pub mod Span
pub mod Diagnostics
pub mod Imports
