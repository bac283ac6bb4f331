-- ===== src/Mir/Structure/Reach.antt =====
-- The worklist loop ends, and `reachable_blocks` is what the control flow reaches.
pub mod Fuel
pub mod Exact
use mathlib.Core.Option
use c_modern.Common.{
  ℕ, zero, suc, ◌+◌, ◌*◌, ◌≤◌, ◌<◌, Bool, true, false, ◌||◌, List, [], ◌∷◌, ◌++◌, Option, none,
  some, Bytes, text_eq, text_eq_iff, length, length-append, if◌then◌else◌, ◌≡◌, refl, sym, ap, ◌∙◌,
  ◌⊎◌, inl, inr, ◌↔◌, arith, Bool-cases, Option-cases, subst, if_cases,
}
use c_modern.Mir.Function.{TerminatorKind, Terminator, BasicBlock, Function}
use c_modern.Common.Sets.{contains}
use c_modern.Common.Sets.{
  In, In-head, In-tail, In-cons, not-In-nil, In-append, In-append_left, In-append_right,
}
use c_modern.Mir.Structure.{find_block, pushed, successors, reach_loop, reach_fuel}

-- The jumps of the block that a label names.
pub data Edge (blocks : List BasicBlock) (u v : Bytes) : Type 0 where
  branch :
      (block : BasicBlock)
      → find_block blocks u ≡ some block
      → block.terminator.kind ≡ TerminatorKind.k_branch
      → block.terminator.true_target ≡ v
      → Edge blocks u v
  cond_true :
      (block : BasicBlock)
      → find_block blocks u ≡ some block
      → block.terminator.kind ≡ TerminatorKind.k_cond_branch
      → block.terminator.true_target ≡ v
      → Edge blocks u v
  cond_false :
      (block : BasicBlock)
      → find_block blocks u ≡ some block
      → block.terminator.kind ≡ TerminatorKind.k_cond_branch
      → block.terminator.false_target ≡ v
      → Edge blocks u v

-- The labels that some path from the entry leads to.
pub data Reachable (blocks : List BasicBlock) (entry : Bytes) : Bytes → Type 0 where
  here : {v : Bytes} → entry ≡ v → Reachable blocks entry v
  step : {u v : Bytes} → Reachable blocks entry u → Edge blocks u v → Reachable blocks entry v

abbrev pub Succ : List BasicBlock → Bytes → Bytes → Type 0
Succ blocks u v = In v (successors (find_block blocks u))

pub Edge→Succ : {blocks : List BasicBlock} {u v : Bytes} → Edge blocks u v → Succ blocks u v
Edge→Succ {v = v} (branch block found kind target) = rw found (rw kind (rw target (In-head v [])))
Edge→Succ {v = v} (cond_true block found kind target) =
    rw found (rw kind (rw target (In-tail v _ _ (In-head v []))))
Edge→Succ {v = v} (cond_false block found kind target) =
    rw found (rw kind (rw target (In-head v _)))

In-one : (v x : Bytes) → In v (x ∷ []) → x ≡ v
In-one v x h = elim (In-cons v x [] h) [ inl e ↦ e | inr n ↦ absurd (not-In-nil v n) ]

pushed→Edge :
    (blocks : List BasicBlock) (u v : Bytes) (block : BasicBlock) (k : TerminatorKind)
    → find_block blocks u ≡ some block
    → block.terminator.kind ≡ k
    → In v (pushed k block.terminator)
    → Edge blocks u v
pushed→Edge blocks u v block TerminatorKind.k_branch found kind h =
    branch block found kind (In-one v _ h)
pushed→Edge blocks u v block TerminatorKind.k_cond_branch found kind h =
    elim (In-cons v block.terminator.false_target (block.terminator.true_target ∷ []) h) [
      | inl e ↦ cond_false block found kind e
      | inr t ↦ cond_true block found kind (In-one v _ t)
    ]
pushed→Edge blocks u v block _ found kind h = absurd (not-In-nil v h)

pub Succ→Edge : (blocks : List BasicBlock) (u v : Bytes) → Succ blocks u v → Edge blocks u v
Succ→Edge blocks u v h = elim (Option-cases (find_block blocks u)) [
  | inl e ↦ absurd (not-In-nil v (rw e at h))
  | inr (block, e) ↦ pushed→Edge blocks u v block block.terminator.kind e refl (rw e at h)
]
