-- ===== src/Mir/Function.antt =====
-- compiler/mir/mir.h: the parts of a function that its control-flow checks read.
use c_modern.Common.{List, Bytes}

pub data TerminatorKind : Type 0 where
  k_none k_return k_branch k_cond_branch k_panic : TerminatorKind

pub record Terminator : Type 0 where
  pub kind : TerminatorKind
  pub values : List Bytes
  pub true_target : Bytes
  pub false_target : Bytes

-- The result and the operands of an instruction are all that the control-flow checks read.
pub record Instruction : Type 0 where
  pub result : Bytes
  pub operands : List Bytes

pub record BasicBlock : Type 0 where
  pub label : Bytes
  pub instructions : List Instruction
  pub terminator : Terminator

pub record Function : Type 0 where
  pub name : Bytes
  pub blocks : List BasicBlock
