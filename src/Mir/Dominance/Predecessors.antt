-- ===== src/Mir/Dominance/Predecessors.antt =====
-- `preds` against the jumps between reachable blocks.
use c_modern.Common.{
  true, false, ◌&&◌, List, [], ◌∷◌, none, Bytes, text_eq, text_eq_iff, ◌≡◌, refl, sym, ◌⊎◌, inl,
  inr, arith, Bool-cases, Option-cases, if_cases, subst,
}
use c_modern.Mir.Function.{BasicBlock}
use c_modern.Common.Sets.{
  contains, In, In-head, In-tail, In-cons, not-In-nil, In-append, In-append_left, In-append_right,
}
use c_modern.Mir.Structure.{find_block}
use c_modern.Mir.Structure.Checks.{labels_of, Distinct}
use c_modern.Mir.Structure.Reach.{Edge, Edge→Succ, Succ→Edge}
use c_modern.Mir.Dominance.{jumps, children, add_edges, predecessors}
use c_modern.Mir.Dominance.Order.Members.{children_iff}

jumps_of : BasicBlock → List Bytes
jumps_of block = jumps block.terminator.kind block.terminator

-- Some block of a label jumps to a label.
HasJump : List BasicBlock → Bytes → Bytes → Type 0
HasJump [] u v = ⊥
HasJump (block ∷ blocks) u v = ((block.label ≡ u) × In v (jumps_of block)) ⊎ HasJump blocks u v

find_block-unlabelled :
    (blocks : List BasicBlock) (u : Bytes)
    → contains (labels_of blocks) u ≡ false
    → find_block blocks u ≡ none
unfolding find_block contains
find_block-unlabelled [] u h = refl
find_block-unlabelled (block ∷ blocks) u h =
    let rest = find_block-unlabelled blocks u (ground arith) in
    let other : text_eq block.label u ≡ false = ground arith in rw (rest, other) refl

HasJump-children :
    (blocks : List BasicBlock) (u v : Bytes)
    → Distinct blocks
    → HasJump blocks u v
    → In v (children (find_block blocks u))
unfolding HasJump find_block jumps_of
HasJump-children [] u v d h = absurd h
HasJump-children (block ∷ blocks) u v (new, d) (inl (e, j)) =
    let rest =
      find_block-unlabelled blocks u (subst (λ x. contains (labels_of blocks) x ≡ false) e new) in
    let here = (text_eq_iff block.label u).1 e in rw (rest, here) j
HasJump-children (block ∷ blocks) u v (new, d) (inr more) =
    let i = HasJump-children blocks u v d more in
    elim (Option-cases (find_block blocks u)) [
      | inl e ↦ absurd (not-In-nil v (rw e at i))
      | inr (later, e) ↦ rw e (rw e at i)
    ]

children-HasJump :
    (blocks : List BasicBlock) (u v : Bytes)
    → In v (children (find_block blocks u))
    → HasJump blocks u v
unfolding HasJump find_block jumps_of
children-HasJump [] u v i = absurd (not-In-nil v i)
children-HasJump (block ∷ blocks) u v i = elim (Option-cases (find_block blocks u)) [
  | inr (later, e) ↦ inr (children-HasJump blocks u v (rw e (rw e at i)))
  | inl e ↦ elim (Bool-cases (text_eq block.label u)) [
    | inl same ↦ inl ((text_eq_iff block.label u).0 same, rw (e, same) at i)
    | inr other ↦ absurd (not-In-nil v (rw (e, other) at i))
  ]
]

module _ (reachable : List Bytes) (v : Bytes) where
  add_edges-from :
      (source : Bytes) (targets : List Bytes) (u : Bytes)
      → In u (add_edges source reachable v targets)
      → (source ≡ u) × In v targets
  unfolding add_edges
  add_edges-from source [] u i = absurd (not-In-nil u i)
  add_edges-from source (target ∷ targets) u i =
      if_cases (λ xs. In u xs → (source ≡ u) × In v (target ∷ targets))
        (contains reachable target && text_eq target v)
        (λ yes_edge j.
          let e = (text_eq_iff target v).0 (ground arith) in
          let there : In v (target ∷ targets) =
            subst (λ x. In x (target ∷ targets)) e (In-head target targets) in
          elim (In-cons u source (add_edges source reachable v targets) j) [
            | inl s ↦ (s, there)
            | inr more ↦ ((add_edges-from source targets u more).0, there)
          ])
        (λ _ j. let (s, t) = add_edges-from source targets u j in (s, In-tail v target targets t)) i

  add_edges-to :
      (source : Bytes) (targets : List Bytes)
      → In v reachable
      → In v targets
      → In source (add_edges source reachable v targets)
  unfolding add_edges
  add_edges-to source [] r i = absurd (not-In-nil v i)
  add_edges-to source (target ∷ targets) r i =
      if_cases (λ xs. In source xs) (contains reachable target && text_eq target v)
        (λ _. In-head source (add_edges source reachable v targets))
        (λ no_edge. elim (In-cons v target targets i) [
          | inl e ↦
              let same = (text_eq_iff target v).1 e in
              let there : contains reachable target ≡ true =
                subst (λ x. In x reachable) (sym e) r in
              absurd (ground arith)
          | inr more ↦ add_edges-to source targets r more
        ])

  predecessors-from :
      (blocks : List BasicBlock) (u : Bytes)
      → In u (predecessors blocks reachable v)
      → In u reachable × HasJump blocks u v
  unfolding predecessors HasJump jumps_of
  predecessors-from [] u i = absurd (not-In-nil u i)
  predecessors-from (block ∷ blocks) u i =
      if_cases (λ xs. In u xs → In u reachable × HasJump (block ∷ blocks) u v)
        (contains reachable block.label)
        (λ r j.
          elim (In-append u (add_edges block.label reachable v (jumps_of block))
            (predecessors blocks reachable v) j) [
              | inl edge ↦
                  let (s, t) = add_edges-from block.label (jumps_of block) u edge in
                  (subst (λ x. In x reachable) s r, inl (s, t))
              | inr more ↦ let (a, b) = predecessors-from blocks u more in (a, inr b)
            ])
        (λ _ j. let (a, b) = predecessors-from blocks u j in (a, inr b)) i

  predecessors-to :
      (blocks : List BasicBlock) (u : Bytes)
      → In u reachable
      → In v reachable
      → HasJump blocks u v
      → In u (predecessors blocks reachable v)
  unfolding predecessors HasJump jumps_of
  predecessors-to [] u ru rv h = absurd h
  predecessors-to (block ∷ blocks) u ru rv (inl (s, t)) =
      if_cases (λ xs. In u xs) (contains reachable block.label)
        (λ _. In-append_left u (add_edges block.label reachable v (jumps_of block)) _ (
          subst (λ x. In x (add_edges block.label reachable v (jumps_of block))) s
            (add_edges-to block.label (jumps_of block) rv t)))
        (λ bad.
          let there : contains reachable block.label ≡ true =
            subst (λ x. In x reachable) (sym s) ru in
          absurd cc)
  predecessors-to (block ∷ blocks) u ru rv (inr more) =
      if_cases (λ xs. In u xs) (contains reachable block.label)
        (λ _.
          In-append_right u (add_edges block.label reachable v (jumps_of block)) _
            (predecessors-to blocks u ru rv more))
        (λ _. predecessors-to blocks u ru rv more)

-- A predecessor is reachable, whatever the labels of the blocks.
pub predecessors-reachable :
    (blocks : List BasicBlock) (reachable : List Bytes) (u v : Bytes)
    → In u (predecessors blocks reachable v)
    → In u reachable
predecessors-reachable blocks reachable u v i = (predecessors-from reachable v blocks u i).0

-- With distinct labels, the predecessors of a label are the sources of its edges.
pub predecessors-Edge :
    (blocks : List BasicBlock) (reachable : List Bytes) (u v : Bytes)
    → Distinct blocks
    → In u (predecessors blocks reachable v)
    → Edge blocks u v
predecessors-Edge blocks reachable u v d i = Succ→Edge blocks u v (
    (children_iff (find_block blocks u) v).0
      (HasJump-children blocks u v d (predecessors-from reachable v blocks u i).1))

pub Edge-predecessors :
    (blocks : List BasicBlock) (reachable : List Bytes) (u v : Bytes)
    → In u reachable
    → In v reachable
    → Edge blocks u v
    → In u (predecessors blocks reachable v)
Edge-predecessors blocks reachable u v ru rv e =
    predecessors-to reachable v blocks u ru rv
      (children-HasJump blocks u v ((children_iff (find_block blocks u) v).1 (Edge→Succ e)))
