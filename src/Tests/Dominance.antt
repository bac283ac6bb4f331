-- ===== src/Tests/Dominance.antt =====
-- compiler/mir/mir_validate_flow.cpp at a function whose two arms meet: `ValidateFunctionDominance`.
use c_modern.Common.{true, List, [], ◌∷◌, some, Bytes, codes, text_eq, ◌≡◌, refl, ◌↔◌}
use c_modern.Common.Sets.{In, contains}
use c_modern.Mir.Function.{TerminatorKind, Terminator, Instruction, Function}
use c_modern.Mir.Structure.{Structure, find_block, validate_function_structure}
use c_modern.Mir.Structure.Reach.{branch, cond_true}
use c_modern.Mir.Structure.Checks.{Distinct}
use c_modern.Mir.Structure.Valid.{validate_function_structure-reachable}
use c_modern.Mir.Dominance.{
  Dominators, find_dominators, find_def, violation, validate_function_dominance,
}
use c_modern.Mir.Dominance.Meet.{has}
use c_modern.Mir.Dominance.Routes.{Route, start, along, Dominates, find_dominators-Dominates}
use c_modern.Mir.Dominance.Clean.{Uses, used, later}
use c_modern.Mir.Dominance.Valid.{
  validate_function_dominance-total, validate_function_dominance-safe, Violation,
  validate_function_dominance-Violation,
}

abbrev jump : Bytes → Terminator
jump target = record {
  kind = TerminatorKind.k_branch;
  values = [];
  true_target = target;
  false_target = [];
}

abbrev choose : Terminator
choose = record {
  kind = TerminatorKind.k_cond_branch;
  values = codes "c" ∷ [];
  true_target = codes "left";
  false_target = codes "right";
}

abbrev give_back : Bytes → Terminator
give_back value = record {
  kind = TerminatorKind.k_return;
  values = value ∷ [];
  true_target = [];
  false_target = [];
}

abbrev sets : Bytes → List Instruction
sets result = record { result = result; operands = [] } ∷ []

-- The entry defines "c", the left arm "x", and the join returns one of them.
abbrev diamond : Bytes → Function
diamond value = record {
  name = codes "main";
  blocks =
      record { label = codes "entry"; instructions = sets (codes "c"); terminator = choose }
      ∷ record {
        label = codes "left";
        instructions = sets (codes "x");
        terminator = jump (codes "join");
      }
      ∷ record { label = codes "right"; instructions = []; terminator = jump (codes "join") }
      ∷ record { label = codes "join"; instructions = []; terminator = give_back value }
      ∷ [];
}

abbrev reached : List Bytes
reached = codes "left" ∷ codes "join" ∷ codes "right" ∷ codes "entry" ∷ []

abbrev checked : Structure
checked = record { report = record { ok = true; messages = [] }; reachable = reached }

validates : (value : Bytes) → validate_function_structure (diamond value) ≡ some checked
unfolding validate_function_structure
validates value = refl

good_is_silent : validate_function_dominance (diamond (codes "c")) reached ≡ some []
unfolding validate_function_dominance
good_is_silent = refl

bad_is_reported :
    validate_function_dominance (diamond (codes "x")) reached
    ≡ some (violation (codes "main") (codes "x") ∷ [])
unfolding validate_function_dominance
bad_is_reported = refl

validate_function_dominance-total_example :
    (reports : List Bytes) × (validate_function_dominance (diamond (codes "x")) reached
      ≡ some reports)
validate_function_dominance-total_example =
    validate_function_dominance-total (diamond (codes "x")) checked (validates (codes "x"))

join_returns : Uses reached ((diamond (codes "c")).blocks) (codes "c") (codes "join")
unfolding contains
join_returns = later _ _ _ _ (later _ _ _ _ (later _ _ _ _ (used _ _ _ refl refl (λ e. cc))))

entry_defines : find_def ((diamond (codes "c")).blocks) reached (codes "c") ≡ some (codes "entry")
unfolding find_def
entry_defines = refl

through_left :
    Route
      ((diamond (codes "c")).blocks)
      (codes "entry")
      (codes "join")
      (codes "join" ∷ codes "left" ∷ codes "entry" ∷ [])
unfolding find_block text_eq
through_left = along (along start (cond_true _ refl refl refl)) (branch _ refl refl refl)

validate_function_dominance-safe_example :
    In (codes "entry") (codes "join" ∷ codes "left" ∷ codes "entry" ∷ [])
validate_function_dominance-safe_example =
    validate_function_dominance-safe (diamond (codes "c")) checked (codes "entry") (codes "c")
      (codes "join") (codes "entry") (codes "join" ∷ codes "left" ∷ codes "entry" ∷ [])
      (validates (codes "c")) refl refl good_is_silent join_returns entry_defines through_left

reported : In (violation (codes "main") (codes "x")) (violation (codes "main") (codes "x") ∷ [])
unfolding contains
reported = refl

validate_function_dominance-Violation_example :
    Violation (diamond (codes "x")) reached (codes "entry") (violation (codes "main") (codes "x"))
validate_function_dominance-Violation_example =
    validate_function_dominance-Violation (diamond (codes "x")) checked (codes "entry")
      (violation (codes "main") (codes "x")) (violation (codes "main") (codes "x") ∷ [])
      (validates (codes "x")) refl refl bad_is_reported reported

labels-Distinct : Distinct ((diamond (codes "c")).blocks)
unfolding contains
labels-Distinct = (refl, (refl, (refl, (refl, tt))))

find_dominators-Dominates_example :
    (dominators : Dominators) × (find_dominators
        ((diamond (codes "c")).blocks)
        reached
        (codes "entry")
      ≡ some dominators)
    × ((v d : Bytes)
        → In v reached
        → (has dominators v d ≡ true)
          ↔ Dominates ((diamond (codes "c")).blocks) (codes "entry") v d)
find_dominators-Dominates_example =
    find_dominators-Dominates ((diamond (codes "c")).blocks) (codes "entry") reached
      (λ v.
        validate_function_structure-reachable (diamond (codes "c")) checked (codes "entry") v
          (validates (codes "c")) refl)
      labels-Distinct
