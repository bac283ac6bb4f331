-- ===== src/Mir/Dominance.antt =====
-- compiler/mir/mir_validate_flow.cpp: `ValidateFunctionDominance`.
pub mod Order
pub mod Meet
pub mod Predecessors
pub mod Fixpoint
pub mod Routes
pub mod Clean
pub mod Valid
use c_modern.Common.{
  ℕ, zero, suc, ◌+◌, ◌*◌, Bool, true, false, not, ◌||◌, ◌&&◌, List, [], ◌∷◌, ◌++◌, Option, none,
  some, Bytes, codes, text_eq, length, if◌then◌else◌,
}
use mathlib.Core.Option
use c_modern.Mir.Function.{TerminatorKind, Terminator, Instruction, BasicBlock, Function}
use c_modern.Common.Sets.{contains}
use c_modern.Mir.Structure.{find_block, is_nil}

-- The targets of a terminator, in the order of the calls of `add_edge`.
abbrev pub jumps : TerminatorKind → Terminator → List Bytes
jumps TerminatorKind.k_branch t = t.true_target ∷ []
jumps TerminatorKind.k_cond_branch t = t.true_target ∷ t.false_target ∷ []
jumps _ t = []

-- What the calls of `add_edge` for the targets of a block put in `preds[label]`.
unfoldable pub add_edges : Bytes → List Bytes → Bytes → List Bytes → List Bytes
unfolding contains text_eq
add_edges source reachable label [] = []
add_edges source reachable label (target ∷ targets) =
    let rest = add_edges source reachable label targets in
    if contains reachable target && text_eq target label then source ∷ rest else rest

-- `preds[label]`
unfoldable pub predecessors : List BasicBlock → List Bytes → Bytes → List Bytes
unfolding contains add_edges
predecessors [] reachable label = []
predecessors (block ∷ blocks) reachable label =
    let rest = predecessors blocks reachable label in
    if contains reachable block.label
    then add_edges block.label reachable label (jumps block.terminator.kind block.terminator)
      ++ rest
    else rest

-- What goes on the stack above a label that was found: the last of the source is the head here.
abbrev pub unprocessed : List Bytes → List (Bytes × Bool)
unprocessed [] = []
unprocessed (label ∷ labels) = (label, false) ∷ unprocessed labels

abbrev pub children : Option BasicBlock → List Bytes
children none = []
children (some block) = jumps block.terminator.kind block.terminator

-- The loop that orders the blocks; `none` means that the fuel ran out. `rpo` is reversed behind the
-- loop: here each label goes to the front.
unfoldable pub order_loop :
    List BasicBlock → ℕ → List (Bytes × Bool) → List Bytes → List Bytes → Option (List Bytes)
unfolding contains find_block
order_loop blocks zero stack visited rpo = none
order_loop blocks (suc fuel) [] visited rpo = some rpo
order_loop blocks (suc fuel) ((label, true) ∷ stack) visited rpo =
    order_loop blocks fuel stack visited (label ∷ rpo)
order_loop blocks (suc fuel) ((label, false) ∷ stack) visited rpo =
    let skip = order_loop blocks fuel stack visited rpo in
    let visit =
      order_loop blocks fuel
        (unprocessed (children (find_block blocks label)) ++ (label, true) ∷ stack)
        (label ∷ visited) rpo in
    if contains visited label then skip else visit

abbrev pub order_fuel : List BasicBlock → ℕ
order_fuel blocks = 4 * length blocks + 3

-- `dominators`: the sets of a map from labels.
abbrev pub Dominators : Type 0
Dominators = Bytes → Option (List Bytes)

unfoldable pub initial_dominators : List Bytes → Bytes → Dominators
unfolding contains text_eq
initial_dominators reachable entry label =
    if contains reachable label
    then some (if text_eq label entry then label ∷ [] else reachable)
    else none

-- The loop over `new_dominators` that erases what is not in another set.
unfoldable pub keep_common : List Bytes → List Bytes → List Bytes
unfolding contains
keep_common set [] = []
keep_common set (x ∷ xs) =
    let rest = keep_common set xs in if contains set x then x ∷ rest else rest

-- One predecessor; `none` is `!have_pred_dominators`.
abbrev pub meet_one : Option (List Bytes) → Option (List Bytes) → Option (List Bytes)
meet_one none new_dominators = new_dominators
meet_one (some found) none = some found
meet_one (some found) (some new_dominators) = some (keep_common found new_dominators)

unfoldable pub meet : Dominators → List Bytes → Option (List Bytes) → Option (List Bytes)
unfolding keep_common
meet dominators [] new_dominators = new_dominators
meet dominators (pred ∷ preds) new_dominators =
    meet dominators preds (meet_one (dominators pred) new_dominators)

unfoldable pub insert : Bytes → List Bytes → List Bytes
unfolding contains
insert x xs = if contains xs x then xs else x ∷ xs

-- `==` of two sets.
unfoldable pub subset : List Bytes → List Bytes → Bool
unfolding contains
subset [] ys = true
subset (x ∷ xs) ys = contains ys x && subset xs ys

abbrev pub same_set : List Bytes → List Bytes → Bool
same_set xs ys = subset xs ys && subset ys xs

-- `dominators[label]`, where a missing set is empty.
abbrev pub set_of : Option (List Bytes) → List Bytes
set_of none = []
set_of (some set) = set

unfoldable pub assign : Dominators → Bytes → List Bytes → Dominators
unfolding text_eq
assign dominators label set x = if text_eq label x then some set else dominators x

-- The body of the loop over `rpo` behind `new_dominators`.
abbrev pub replace : Bytes → Option (List Bytes) → Dominators → Bool → Dominators × Bool
replace label none dominators changed = (dominators, changed)
replace label (some new_dominators) dominators changed =
    if same_set (set_of (dominators label)) (insert label new_dominators)
    then (dominators, changed)
    else (assign dominators label (insert label new_dominators), true)

module _ (preds : Bytes → List Bytes) (entry : Bytes) where
  unfoldable pub update_label : Bytes → Dominators → Bool → Dominators × Bool
  unfolding meet insert subset assign text_eq
  update_label label dominators changed =
      if text_eq label entry
      then (dominators, changed)
      else replace label (meet dominators (preds label) none) dominators changed

  -- The loop over `rpo`.
  unfoldable pub update_all : List Bytes → Dominators → Bool → Dominators × Bool
  unfolding update_label
  update_all [] dominators changed = (dominators, changed)
  update_all (label ∷ rpo) dominators changed =
      let (dominators', changed') = update_label label dominators changed in
      update_all rpo dominators' changed'

  -- `while (changed)`; `none` means that the fuel ran out.
  unfoldable pub fixpoint_loop : ℕ → List Bytes → Dominators → Option Dominators
  unfolding update_all
  fixpoint_loop zero rpo dominators = none
  fixpoint_loop (suc fuel) rpo dominators =
      let (dominators', changed) = update_all rpo dominators false in
      let rest = fixpoint_loop fuel rpo dominators' in if changed then rest else some dominators'

-- A pass that changes something takes a label out of a set.
abbrev pub fixpoint_fuel : List Bytes → ℕ
fixpoint_fuel reachable = length reachable * length reachable + 1

-- The dominators of the blocks behind both loops.
unfoldable pub find_dominators : List BasicBlock → List Bytes → Bytes → Option Dominators
unfolding predecessors order_loop fixpoint_loop initial_dominators
find_dominators blocks reachable entry =
    elim (order_loop blocks (order_fuel blocks) ((entry, false) ∷ []) [] []) [
      | none ↦ none
      | some rpo ↦
          fixpoint_loop (predecessors blocks reachable) entry (fixpoint_fuel reachable) rpo
            (initial_dominators reachable entry)
    ]

-- The `result` of an instruction in `value_defs`: a later block or instruction takes the place of an earlier one.
unfoldable pub defines : List Instruction → Bytes → Bool
unfolding text_eq
defines [] operand = false
defines (instruction ∷ instructions) operand =
    (not (is_nil instruction.result) && text_eq instruction.result operand)
    || defines instructions operand

-- `value_defs.find(operand)`
unfoldable pub find_def : List BasicBlock → List Bytes → Bytes → Option Bytes
unfolding contains defines
find_def [] reachable operand = none
find_def (block ∷ blocks) reachable operand = elim (find_def blocks reachable operand) [
  | some later ↦ some later
  | none ↦
      if contains reachable block.label && defines block.instructions operand
      then some block.label
      else none
]

-- The lambda `dominates`.
unfoldable pub dominates : Dominators → Bytes → Bytes → Bool
unfolding contains text_eq
dominates dominators def_block use_block =
    text_eq def_block use_block || contains (set_of (dominators use_block)) def_block

abbrev pub violation : Bytes → Bytes → Bytes
violation name operand =
    codes "SSA dominance violation in function "
    ++ (name ++ (codes ": operand " ++ (operand ++ codes " does not dominate its use")))

-- The names that a block uses: the operands of its instructions and the values of its terminator.
abbrev pub operands_of : List Instruction → List Bytes
operands_of [] = []
operands_of (instruction ∷ instructions) = instruction.operands ++ operands_of instructions

abbrev pub uses_of : BasicBlock → List Bytes
uses_of block = operands_of block.instructions ++ block.terminator.values

module _ (name : Bytes) (defs : Bytes → Option Bytes) (dominators : Dominators) where
  -- `check_operand_dominance`: what it reports.
  unfoldable pub check_operand_dominance : Bytes → Bytes → List Bytes
  unfolding dominates
  check_operand_dominance operand use_block = elim (defs operand) [
    | none ↦ []
    | some def_block ↦
        if dominates dominators def_block use_block then [] else violation name operand ∷ []
  ]

  unfoldable pub check_operands : List Bytes → Bytes → List Bytes
  unfolding check_operand_dominance
  check_operands [] use_block = []
  check_operands (operand ∷ operands) use_block =
      (if is_nil operand then [] else check_operand_dominance operand use_block)
      ++ check_operands operands use_block

  -- The loop over the blocks.
  unfoldable pub check_uses : List BasicBlock → List Bytes → List Bytes
  unfolding contains check_operands
  check_uses [] reachable = []
  check_uses (block ∷ blocks) reachable =
      (if contains reachable block.label then check_operands (uses_of block) block.label else [])
      ++ check_uses blocks reachable

-- The reports of `ValidateFunctionDominance` on a function with a block, which its caller makes sure of; `none`
-- means that the fuel of a loop ran out.
unfoldable pub dominance_reports :
    Bytes → List BasicBlock → List Bytes → Bytes → Option (List Bytes)
unfolding find_dominators find_def check_uses
dominance_reports name blocks reachable entry =
    Option.map
      (λ dominators. check_uses name (find_def blocks reachable) dominators blocks reachable)
      (find_dominators blocks reachable entry)

unfoldable pub reports_of : Bytes → List BasicBlock → List Bytes → Option (List Bytes)
unfolding dominance_reports
reports_of name [] reachable = some []
reports_of name (block ∷ blocks) reachable =
    dominance_reports name (block ∷ blocks) reachable block.label

unfoldable pub validate_function_dominance : Function → List Bytes → Option (List Bytes)
unfolding reports_of
validate_function_dominance function reachable = reports_of function.name function.blocks reachable
