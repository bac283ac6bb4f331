-- ===== src/Lex.antt =====
-- compiler/lex: the lexer.
pub mod Token
pub mod Literals
pub mod Cursor
pub mod Status
pub mod Number
pub mod Quoted
pub mod Punctuation
pub mod Run
pub mod Moves
pub mod Reports
pub mod Tiling
