-- ===== src/Mir/Structure/Reach/Fuel.antt =====
-- The fuel suffices: a block is expanded once, and puts two labels on the worklist at most.
use c_modern.Common.{
  ℕ, zero, suc, ◌+◌, ◌*◌, ◌≤◌, ◌<◌, true, false, List, [], ◌∷◌, ◌++◌, Option, none, some, Bytes,
  text_eq, text_eq_iff, length, length-append, if◌then◌else◌, ◌≡◌, refl, sym, ap, ◌∙◌, inl, inr,
  arith, Bool-cases, Option-cases, if_cases,
}
use c_modern.Mir.Function.{TerminatorKind, Terminator, BasicBlock}
use c_modern.Common.Sets.{contains}
use c_modern.Mir.Structure.{find_block, pushed, successors, reach_loop, reach_fuel}

-- The blocks that are not expanded yet.
pub fresh : List BasicBlock → List Bytes → ℕ
fresh [] reached = 0
fresh (block ∷ blocks) reached =
    (if contains reached block.label then 0 else 1) + fresh blocks reached

pub fresh-cons :
    (blocks : List BasicBlock) (label : Bytes) (reached : List Bytes)
    → fresh blocks (label ∷ reached) ≤ fresh blocks reached
unfolding fresh contains
fresh-cons [] label reached = omega arith
fresh-cons (block ∷ blocks) label reached = ground (arith, fresh-cons blocks label reached)

-- A new label of a block takes that block from the fresh ones.
pub fresh-visit :
    (blocks : List BasicBlock) (label : Bytes) (reached : List Bytes) (block : BasicBlock)
    → contains reached label ≡ false
    → find_block blocks label ≡ some block
    → fresh blocks (label ∷ reached) < fresh blocks reached
unfolding fresh find_block contains
fresh-visit [] label reached block new found = cc
fresh-visit (b ∷ blocks) label reached block new found =
    elim (Option-cases (find_block blocks label)) [
      | inl nothing ↦ elim (Bool-cases (text_eq b.label label)) [
        | inl same ↦
            let e = (text_eq_iff b.label label).0 same in
            let named : text_eq label b.label ≡ true = (text_eq_iff label b.label).1 (sym e) in
            let unseen : contains reached b.label ≡ false = ap (contains reached) e ∙ new in
            ground (arith, fresh-cons blocks label reached)
        | inr other ↦ ground arith
      ]
      | inr (later, e) ↦ ground (arith, fresh-visit blocks label reached later new e)
    ]

pub fresh-length : (blocks : List BasicBlock) → fresh blocks [] ≤ length blocks
unfolding fresh contains
fresh-length [] = omega arith
fresh-length (block ∷ blocks) = ground (arith, fresh-length blocks)

length-pushed : (k : TerminatorKind) (t : Terminator) → length (pushed k t) ≤ 2
length-pushed TerminatorKind.k_none t = omega arith
length-pushed _ t = omega arith

length-successors : (o : Option BasicBlock) → length (successors o) ≤ 2
length-successors none = omega arith
length-successors (some block) = length-pushed block.terminator.kind block.terminator

-- A visit makes the worklist longer by less than it takes from the fresh blocks.
visit_work :
    (blocks : List BasicBlock) (label : Bytes) (worklist reached : List Bytes)
    → contains reached label ≡ false
    → length (successors (find_block blocks label) ++ worklist) + 2 * fresh blocks (label ∷ reached)
      ≤ length worklist + 2 * fresh blocks reached
visit_work blocks label worklist reached new = elim (Option-cases (find_block blocks label)) [
  | inl e ↦ rw e (omega (arith, fresh-cons blocks label reached))
  | inr (block, e) ↦ rw e (
      omega (
        arith,
        length-append (pushed block.terminator.kind block.terminator) worklist,
        length-pushed block.terminator.kind block.terminator,
        fresh-visit blocks label reached block new e,
      ))
]

reach_loop-Ends :
    (blocks : List BasicBlock) (fuel : ℕ) (worklist reached : List Bytes)
    → length worklist + 2 * fresh blocks reached < fuel
    → (r : List Bytes) × (reach_loop blocks fuel worklist reached ≡ some r)
unfolding reach_loop
reach_loop-Ends blocks zero worklist reached h = absurd (omega arith)
reach_loop-Ends blocks (suc fuel) [] reached h = (reached, refl)
reach_loop-Ends blocks (suc fuel) (label ∷ worklist) reached h =
    if_cases (λ o. (r : List Bytes) × (o ≡ some r)) (contains reached label)
      (λ _. reach_loop-Ends blocks fuel worklist reached (omega arith))
      (λ new.
        reach_loop-Ends blocks fuel (successors (find_block blocks label) ++ worklist)
          (label ∷ reached) (omega (arith, visit_work blocks label worklist reached new)))

-- The loop of a function ends within the fuel that it is given.
pub reach_loop-total :
    (blocks : List BasicBlock) (entry : Bytes)
    → (r : List Bytes) × (reach_loop blocks (reach_fuel blocks) (entry ∷ []) [] ≡ some r)
reach_loop-total blocks entry =
    reach_loop-Ends blocks (reach_fuel blocks) (entry ∷ []) [] (omega (arith, fresh-length blocks))
