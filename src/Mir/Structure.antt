-- ===== src/Mir/Structure.antt =====
-- compiler/mir/mir_validate_flow.cpp: `ValidateFunctionStructure`.
pub mod Reach
pub mod Checks
pub mod Valid
use c_modern.Common.{
  ℕ, zero, suc, ◌+◌, ◌*◌, Bool, true, false, not, ◌||◌, ◌&&◌, List, [], ◌∷◌, ◌++◌, Option, none,
  some, Bytes, codes, text_eq, length, ◌==◌, if◌then◌else◌,
}
use mathlib.Core.Option
use c_modern.Mir.Function.{TerminatorKind, Terminator, BasicBlock, Function}
use c_modern.Common.Sets.{contains}

-- `ok`, and what the reporter was called with.
pub record Report : Type 0 where
  pub ok : Bool
  pub messages : List Bytes

-- The lambda `fail`, behind its condition.
unfoldable pub fail_if : Bool → Bytes → Report → Report
fail_if bad message r =
    if bad then record { ok = false; messages = r.messages ++ message ∷ [] } else r

abbrev pub is_nil {ℓ} : {A : Type ℓ} → List A → Bool
is_nil [] = true
is_nil (_ ∷ _) = false

abbrev pub duplicate_label : Bytes → Bytes → Bytes
duplicate_label name label =
    codes "duplicate MIR block label in function " ++ (name ++ (codes ": " ++ label))

-- `block_labels` and the reports of duplicates.
unfoldable pub check_labels : Bytes → List BasicBlock → List Bytes → Report → List Bytes × Report
unfolding contains
check_labels name [] labels r = (labels, r)
check_labels name (block ∷ blocks) labels r =
    let duplicate = contains labels block.label in
    check_labels name blocks (if duplicate then labels else block.label ∷ labels)
      (fail_if duplicate (duplicate_label name block.label) r)

-- `blocks_by_label[label]`: a later block takes the place of an earlier one of its label.
unfoldable pub find_block : List BasicBlock → Bytes → Option BasicBlock
find_block [] label = none
find_block (block ∷ blocks) label = elim (find_block blocks label) [
  | some later ↦ some later
  | none ↦ if text_eq block.label label then some block else none
]

abbrev in_function : Bytes → Bytes → Bytes → Bytes
in_function message name label =
    message ++ (codes " in function " ++ (name ++ (codes ": " ++ label)))

-- The two tests of a target: that it is named, and that it is the label of a block.
unfoldable pub check_target : List Bytes → Bytes → Bytes → Bytes → Bytes → Bytes → Report → Report
unfolding contains
check_target labels name label unnamed missing target r =
    if is_nil target
    then fail_if true (in_function unnamed name label) r
    else fail_if (not (contains labels target)) (in_function missing name target) r

-- `case kReturn: case kPanic:`; `word` is "return" or "panic".
unfoldable pub check_exit : Bool → Bytes → Bytes → BasicBlock → Report → Report
check_exit is_panic word name block r =
    let t = block.terminator in
    fail_if (is_panic && not (length t.values == 1))
      (in_function (codes "panic terminator must carry exactly one fault code value") name
        block.label)
      (fail_if (not (is_nil t.true_target) || not (is_nil t.false_target))
        (in_function (word ++ codes " terminator must not name branch targets") name block.label) r)

unfoldable pub check_branch : List Bytes → Bytes → BasicBlock → Report → Report
check_branch labels name block r =
    let t = block.terminator in
    fail_if (not (is_nil t.false_target))
      (in_function (codes "branch terminator must not name a false target") name block.label)
      (check_target labels name block.label (codes "branch terminator must name a target")
        (codes "branch targets missing MIR block") t.true_target
        (fail_if (not (is_nil t.values))
          (in_function (codes "branch terminator must not carry values") name block.label) r))

unfoldable pub check_cond_branch : List Bytes → Bytes → BasicBlock → Report → Report
check_cond_branch labels name block r =
    let t = block.terminator in
    check_target labels name block.label (codes "conditional branch must name a false target")
      (codes "conditional branch false target missing MIR block") t.false_target
      (check_target labels name block.label (codes "conditional branch must name a true target")
        (codes "conditional branch true target missing MIR block") t.true_target
        (fail_if (not (length t.values == 1))
          (in_function (codes "conditional branch must use exactly one condition value") name
            block.label)
          r))

-- The switch on a block's terminator.
unfoldable pub check_terminator : List Bytes → Bytes → TerminatorKind → BasicBlock → Report → Report
check_terminator labels name TerminatorKind.k_none block r =
    fail_if true (in_function (codes "unterminated MIR block") name block.label) r
check_terminator labels name TerminatorKind.k_return block r =
    check_exit false (codes "return") name block r
check_terminator labels name TerminatorKind.k_panic block r =
    check_exit true (codes "panic") name block r
check_terminator labels name TerminatorKind.k_branch block r = check_branch labels name block r
check_terminator labels name TerminatorKind.k_cond_branch block r =
    check_cond_branch labels name block r

unfoldable pub check_terminators : List Bytes → Bytes → List BasicBlock → Report → Report
check_terminators labels name [] r = r
check_terminators labels name (block ∷ blocks) r =
    check_terminators labels name blocks
      (check_terminator labels name block.terminator.kind block r)

-- What the worklist gets for a terminator; its back is the head of the list here.
abbrev pub pushed : TerminatorKind → Terminator → List Bytes
pushed TerminatorKind.k_branch t = t.true_target ∷ []
pushed TerminatorKind.k_cond_branch t = t.false_target ∷ t.true_target ∷ []
pushed _ t = []

abbrev pub successors : Option BasicBlock → List Bytes
successors none = []
successors (some block) = pushed block.terminator.kind block.terminator

-- The worklist loop; `none` means that the fuel ran out.
unfoldable pub reach_loop : List BasicBlock → ℕ → List Bytes → List Bytes → Option (List Bytes)
unfolding contains find_block
reach_loop blocks zero worklist reachable = none
reach_loop blocks (suc fuel) [] reachable = some reachable
reach_loop blocks (suc fuel) (label ∷ worklist) reachable =
    let skip = reach_loop blocks fuel worklist reachable in
    let visit =
      reach_loop blocks fuel (successors (find_block blocks label) ++ worklist)
        (label ∷ reachable) in
    if contains reachable label then skip else visit

-- `ok`, the messages and `reachable_blocks`.
pub record Structure : Type 0 where
  pub report : Report
  pub reachable : List Bytes

abbrev no_report : Report
no_report = record { ok = true; messages = [] }

-- A block puts two labels on the worklist at most.
abbrev pub reach_fuel : List BasicBlock → ℕ
reach_fuel blocks = 2 * length blocks + 2

-- `ValidateFunctionStructure` behind the check that there is a block.
unfoldable pub check_blocks : Bytes → List BasicBlock → Report
unfolding check_labels check_terminators check_terminator check_exit check_branch check_cond_branch
    check_target fail_if
check_blocks name blocks =
    let (labels, r) = check_labels name blocks [] no_report in
    check_terminators labels name blocks r

unfoldable pub validate_blocks : Bytes → List BasicBlock → Option Structure
unfolding check_blocks reach_loop fail_if
validate_blocks name [] = some (record {
  report = fail_if true (codes "function has no MIR blocks: " ++ name) no_report;
  reachable = [];
})
validate_blocks name (block ∷ blocks) =
    Option.map
      (λ reachable. record { report = check_blocks name (block ∷ blocks); reachable = reachable })
      (reach_loop (block ∷ blocks) (reach_fuel (block ∷ blocks)) (block.label ∷ []) [])

-- `ValidateFunctionStructure`
unfoldable pub validate_function_structure : Function → Option Structure
unfolding validate_blocks
validate_function_structure function = validate_blocks function.name function.blocks
