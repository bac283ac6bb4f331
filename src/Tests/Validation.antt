-- ===== src/Tests/Validation.antt =====
-- compiler/mir/mir_validate_flow.cpp at a function with a loop.
use c_modern.Common.{true, [], ◌∷◌, none, some, Bytes, codes, ◌≡◌, ◌≢◌, refl, ◌↔◌}
use c_modern.Common.Sets.{In, contains}
use c_modern.Mir.Function.{TerminatorKind, Terminator, BasicBlock, Function}
use c_modern.Mir.Structure.{Structure, find_block, validate_function_structure}
use c_modern.Mir.Structure.Reach.{Reachable}
use c_modern.Mir.Structure.Checks.{WellFormed}
use c_modern.Mir.Structure.Valid.{
  validate_function_structure-ok, validate_function_structure-reachable,
  validate_function_structure-safe,
}

abbrev jump : Bytes → Terminator
jump target = record {
  kind = TerminatorKind.k_branch;
  values = [];
  true_target = target;
  false_target = [];
}

abbrev choose : Bytes → Bytes → Terminator
choose yes_target no_target = record {
  kind = TerminatorKind.k_cond_branch;
  values = codes "c" ∷ [];
  true_target = yes_target;
  false_target = no_target;
}

abbrev give_back : Terminator
give_back = record {
  kind = TerminatorKind.k_return;
  values = [];
  true_target = [];
  false_target = [];
}

abbrev block_of : Bytes → Terminator → BasicBlock
block_of label terminator = record { label = label; instructions = []; terminator = terminator }

abbrev looping : Function
looping = record {
  name = codes "main";
  blocks =
      block_of (codes "entry") (jump (codes "head"))
      ∷ block_of (codes "head") (choose (codes "body") (codes "exit"))
      ∷ block_of (codes "body") (jump (codes "head"))
      ∷ block_of (codes "exit") give_back
      ∷ block_of (codes "dead") give_back
      ∷ [];
}

abbrev checked : Structure
unfolding validate_function_structure
checked = elim (validate_function_structure looping) [
  | some s ↦ s
  | none ↦ record { report = record { ok = true; messages = [] }; reachable = [] }
]

validates : validate_function_structure looping ≡ some checked
unfolding validate_function_structure
validates = refl

reaches : checked.reachable ≡ codes "body" ∷ codes "exit" ∷ codes "head" ∷ codes "entry" ∷ []
unfolding validate_function_structure
reaches = refl

succeeds : checked.report.ok ≡ true
unfolding validate_function_structure
succeeds = refl

reaches_body : In (codes "body") checked.reachable
unfolding validate_function_structure contains
reaches_body = refl

validate_function_structure-ok_example :
    (s : Structure) × (validate_function_structure looping ≡ some s)
    × ((s.report.ok ≡ true) ↔ ((looping.blocks ≢ []) × WellFormed looping.blocks))
validate_function_structure-ok_example = validate_function_structure-ok looping

validate_function_structure-reachable_example :
    In (codes "body") checked.reachable ↔ Reachable looping.blocks (codes "entry") (codes "body")
validate_function_structure-reachable_example =
    validate_function_structure-reachable looping checked (codes "entry") (codes "body") validates
      refl

validate_function_structure-safe_example :
    (b : BasicBlock) × (find_block looping.blocks (codes "body") ≡ some b)
validate_function_structure-safe_example =
    validate_function_structure-safe looping checked (codes "body") validates succeeds reaches_body
