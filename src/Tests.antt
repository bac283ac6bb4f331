-- ===== src/Tests.antt =====
-- Runs of the model at concrete inputs.
mod Consts
mod Dominance
mod Driver
mod Strip
mod Lexer
mod Validation
mod Paths
mod Types
