-- ===== src/Sema.antt =====
-- compiler/sema: the types of the semantic checker and their layouts.
pub mod TypeKind
pub mod SemaType
pub mod Layout
pub mod Int64
pub mod ConstValue
pub mod ConstEval
pub mod Strip
pub mod Assignable
pub mod Conversion
