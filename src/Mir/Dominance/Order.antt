-- ===== src/Mir/Dominance/Order.antt =====
-- The loop that orders the blocks ends.
pub mod Members
use c_modern.Common.{
  ℕ, zero, suc, ◌+◌, ◌*◌, ◌≤◌, ◌<◌, Bool, true, false, List, [], ◌∷◌, ◌++◌, Option, none, some,
  Bytes, length, ◌≡◌, refl, sym, ◌⊎◌, inl, inr, ◌↔◌, arith, Bool-cases, Option-cases, subst,
  if_cases,
}
use c_modern.Mir.Function.{TerminatorKind, Terminator, BasicBlock}
use c_modern.Common.Sets.{
  contains, In, In-head, In-tail, In-cons, not-In-nil, In-append, In-append_left, In-append_right,
}
use c_modern.Mir.Structure.{find_block, pushed, successors}
use c_modern.Mir.Structure.Reach.{Edge, Reachable}
use c_modern.Mir.Structure.Reach.Fuel.{fresh, fresh-cons, fresh-visit, fresh-length}
use c_modern.Mir.Structure.Reach.Exact.{Inv, Inv-start, Inv-skip, Inv-visit, complete}
use c_modern.Mir.Dominance.{jumps, children, unprocessed, order_loop, order_fuel}

-- What the stack costs: an unprocessed label comes back once.
weight : List (Bytes × Bool) → ℕ
weight [] = 0
weight ((label, true) ∷ stack) = 1 + weight stack
weight ((label, false) ∷ stack) = 2 + weight stack

weight-unprocessed :
    (labels : List Bytes) (stack : List (Bytes × Bool))
    → weight (unprocessed labels ++ stack) ≡ 2 * length labels + weight stack
unfolding weight
weight-unprocessed [] stack = omega arith
weight-unprocessed (label ∷ labels) stack = omega (arith, weight-unprocessed labels stack)

length-jumps : (k : TerminatorKind) (t : Terminator) → length (jumps k t) ≤ 2
length-jumps TerminatorKind.k_none t = omega arith
length-jumps _ t = omega arith

visit_weight :
    (blocks : List BasicBlock) (label : Bytes) (stack : List (Bytes × Bool)) (visited : List Bytes)
    → contains visited label ≡ false
    → weight (unprocessed (children (find_block blocks label)) ++ (label, true) ∷ stack)
        + 4 * fresh blocks (label ∷ visited)
      ≤ 1 + weight stack + 4 * fresh blocks visited
unfolding weight
visit_weight blocks label stack visited new = elim (Option-cases (find_block blocks label)) [
  | inl e ↦ rw e (omega (arith, fresh-cons blocks label visited))
  | inr (block, e) ↦
      let k = block.terminator.kind in
      let t = block.terminator in
      rw e (
        omega (
          arith,
          weight-unprocessed (jumps k t) ((label, true) ∷ stack),
          length-jumps k t,
          fresh-visit blocks label visited block new e,
        ))
]

order_loop-Ends :
    (blocks : List BasicBlock) (fuel : ℕ) (stack : List (Bytes × Bool)) (visited rpo : List Bytes)
    → weight stack + 4 * fresh blocks visited < fuel
    → (r : List Bytes) × (order_loop blocks fuel stack visited rpo ≡ some r)
unfolding order_loop weight
order_loop-Ends blocks zero stack visited rpo h = absurd (omega arith)
order_loop-Ends blocks (suc fuel) [] visited rpo h = (rpo, refl)
order_loop-Ends blocks (suc fuel) ((label, true) ∷ stack) visited rpo h =
    order_loop-Ends blocks fuel stack visited (label ∷ rpo) (omega arith)
order_loop-Ends blocks (suc fuel) ((label, false) ∷ stack) visited rpo h =
    if_cases (λ o. (r : List Bytes) × (o ≡ some r)) (contains visited label)
      (λ _. order_loop-Ends blocks fuel stack visited rpo (omega arith))
      (λ new.
        order_loop-Ends blocks fuel
          (unprocessed (children (find_block blocks label)) ++ (label, true) ∷ stack)
          (label ∷ visited) rpo (omega (arith, visit_weight blocks label stack visited new)))

-- The loop of a function ends within the fuel that it is given.
pub order_loop-total :
    (blocks : List BasicBlock) (entry : Bytes)
    → (r : List Bytes) × (order_loop blocks (order_fuel blocks) ((entry, false) ∷ []) [] []
        ≡ some r)
unfolding weight
order_loop-total blocks entry =
    order_loop-Ends blocks (order_fuel blocks) ((entry, false) ∷ []) [] []
      (omega (arith, fresh-length blocks))
