-- ===== src/Mir.antt =====
-- compiler/mir: the control flow of a function, and the checks of it.
pub mod Function
pub mod Structure
pub mod Dominance
