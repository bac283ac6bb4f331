-- ===== src/Mir/Structure/Valid.antt =====
-- What `ValidateFunctionStructure` says of a whole function.
use c_modern.Common.{
  true, List, [], ◌∷◌, Option, none, some, Bytes, text_eq, text_eq_iff, ◌≡◌, ◌≢◌, refl, sym, ◌∙◌,
  inl, inr, ◌↔◌, Bool-cases, Option-cases, subst,
}
use c_modern.Mir.Function.{BasicBlock, Function}
use c_modern.Common.Sets.{In, In-head, In-cons, not-In-nil}
use c_modern.Mir.Structure.{
  Structure, fail_if, find_block, check_blocks, reach_fuel, validate_blocks,
  validate_function_structure,
}
use c_modern.Mir.Structure.Reach.{Edge, Reachable, here, step, branch, cond_true, cond_false}
use c_modern.Mir.Structure.Reach.Fuel.{reach_loop-total}
use c_modern.Mir.Structure.Reach.Exact.{reach_loop-exact}
use c_modern.Mir.Structure.Checks.{
  WellFormedTerminator, AllWellFormed, labels_of, WellFormed, check_blocks_iff,
}

-- The label of the first block.
abbrev pub Starts : List BasicBlock → Bytes → Type 0
Starts [] entry = ⊥
Starts (block ∷ blocks) entry = block.label ≡ entry

-- What the result says of the blocks.
record Meaning (name : Bytes) (blocks : List BasicBlock) (s : Structure) : Type 0 where
  verdict : (s.report.ok ≡ true) ↔ ((blocks ≢ []) × WellFormed blocks)
  exact : (entry v : Bytes) → Starts blocks entry → In v s.reachable ↔ Reachable blocks entry v

validate_blocks-Meaning :
    (name : Bytes) (blocks : List BasicBlock)
    → (s : Structure) × (validate_blocks name blocks ≡ some s) × Meaning name blocks s
unfolding validate_blocks fail_if
validate_blocks-Meaning name [] = (
  _,
  refl,
  record { verdict = ((λ h. cc), (λ h. absurd (h.0 refl))); exact = λ entry v h. absurd h },
)
validate_blocks-Meaning name (block ∷ blocks) =
    let (r, e) = reach_loop-total (block ∷ blocks) block.label in
    let (there, back) = check_blocks_iff name (block ∷ blocks) in
    (
      record { report = check_blocks name (block ∷ blocks); reachable = r },
      rw e refl,
      record {
        verdict = ((λ h. ((λ x. cc), there h)), (λ h. back h.1));
        exact = λ entry v start.
            let (sound, complete) =
              reach_loop-exact (block ∷ blocks) block.label (reach_fuel (block ∷ blocks)) r v e in
            (
              (λ i. subst (λ x. Reachable (block ∷ blocks) x v) start (sound i)),
              (λ p. complete (subst (λ x. Reachable (block ∷ blocks) x v) (sym start) p)),
            );
      },
    )

-- `ValidateFunctionStructure` ends for every function, within the fuel of two steps for each
-- block and two more, and it reports success exactly when the function has a block, no two blocks have one
-- label, and each block ends in a terminator that carries the values of its kind and names
-- exactly the targets of its kind, each of them the label of a block.
pub validate_function_structure-ok :
    (f : Function)
    → (s : Structure) × (validate_function_structure f ≡ some s)
      × ((s.report.ok ≡ true) ↔ ((f.blocks ≢ []) × WellFormed f.blocks))
unfolding validate_function_structure
validate_function_structure-ok f =
    let (s, e, m) = validate_blocks-Meaning f.name f.blocks in (s, e, m.verdict)

-- Whatever `ValidateFunctionStructure` reports, the labels it returns as reachable are exactly
-- those that a path of jumps leads to from the label of the first block.
pub validate_function_structure-reachable :
    (f : Function) (s : Structure) (entry v : Bytes)
    → validate_function_structure f ≡ some s
    → Starts f.blocks entry
    → In v s.reachable ↔ Reachable f.blocks entry v
unfolding validate_function_structure
validate_function_structure-reachable f s entry v h start =
    let (s', e, m) = validate_blocks-Meaning f.name f.blocks in
    let same : s' ≡ s = cc in
    subst (λ x. In v x.reachable ↔ Reachable f.blocks entry v) same (m.exact entry v start)

Labelled : List BasicBlock → Bytes → Option BasicBlock → Type 0
Labelled blocks v found = In v (labels_of blocks) → (b : BasicBlock) × (found ≡ some b)

find_block-label : (blocks : List BasicBlock) (v : Bytes) → Labelled blocks v (find_block blocks v)
unfolding Labelled find_block
find_block-label [] v h = absurd (not-In-nil v h)
find_block-label (block ∷ blocks) v h = elim (Option-cases (find_block blocks v)) [
  | inr (later, e) ↦ (later, rw e refl)
  | inl e ↦ elim (In-cons v block.label (labels_of blocks) h) [
    | inl same ↦ (block, rw (e, (text_eq_iff block.label v).1 same) refl)
    | inr more ↦ let (b, found) = find_block-label blocks v more in (b, rw e (absurd cc))
  ]
]

some_inj : {a b : BasicBlock} → some a ≡ some b → a ≡ b
some_inj h = cc

find_block-WellFormed :
    (labels : List Bytes) (blocks : List BasicBlock) (v : Bytes) (b : BasicBlock)
    → AllWellFormed labels [] blocks
    → find_block blocks v ≡ some b
    → WellFormedTerminator labels b.terminator.kind b.terminator
unfolding find_block
find_block-WellFormed labels [] v b w h = absurd cc
find_block-WellFormed labels (block ∷ blocks) v b (w, ws) h =
    elim (Option-cases (find_block blocks v)) [
      | inr (later, e) ↦ find_block-WellFormed labels blocks v b ws (e ∙ (rw e at h))
      | inl e ↦ elim (Bool-cases (text_eq block.label v)) [
        | inl same ↦
            let it : some block ≡ some b = (rw (e, same) at h) in
            subst (λ (x : BasicBlock). WellFormedTerminator labels x.terminator.kind x.terminator)
              (some_inj it) w
        | inr other ↦ let no : none ≡ some b = (rw (e, other) at h) in absurd cc
      ]
    ]

-- A target of a jump from a well-formed block is the label of a block.
Edge-label :
    (blocks : List BasicBlock) (u v : Bytes)
    → AllWellFormed (labels_of blocks) [] blocks
    → Edge blocks u v
    → In v (labels_of blocks)
Edge-label blocks u v w (branch b found kind target) =
    let (_, (_, h), _) = rw kind at (find_block-WellFormed (labels_of blocks) blocks u b w found) in
    subst (λ x. In x (labels_of blocks)) target h
Edge-label blocks u v w (cond_true b found kind target) =
    let (_, (_, h), _) = rw kind at (find_block-WellFormed (labels_of blocks) blocks u b w found) in
    subst (λ x. In x (labels_of blocks)) target h
Edge-label blocks u v w (cond_false b found kind target) =
    let (_, _, (_, h)) = rw kind at (find_block-WellFormed (labels_of blocks) blocks u b w found) in
    subst (λ x. In x (labels_of blocks)) target h

Reachable-label :
    (blocks : List BasicBlock) (entry v : Bytes)
    → Starts blocks entry
    → AllWellFormed (labels_of blocks) [] blocks
    → Reachable blocks entry v
    → In v (labels_of blocks)
Reachable-label [] entry v start w _ = absurd start
Reachable-label (block ∷ blocks) entry v start w (here e) =
    subst (λ x. In x (labels_of (block ∷ blocks))) (start ∙ e)
      (In-head block.label (labels_of blocks))
Reachable-label (block ∷ blocks) entry v start w (step {u} path edge) =
    Edge-label (block ∷ blocks) u v w edge

starts : (blocks : List BasicBlock) → blocks ≢ [] → (entry : Bytes) × Starts blocks entry
starts [] ne = absurd (ne refl)
starts (block ∷ blocks) ne = (block.label, refl)

-- When `ValidateFunctionStructure` reports success, every label that it returns as reachable
-- names a block of the function.
pub validate_function_structure-safe :
    (f : Function) (s : Structure) (v : Bytes)
    → validate_function_structure f ≡ some s
    → s.report.ok ≡ true
    → In v s.reachable
    → (b : BasicBlock) × (find_block f.blocks v ≡ some b)
unfolding Labelled
validate_function_structure-safe f s v h ok seen =
    let (s', e, verdict) = validate_function_structure-ok f in
    let same : s' ≡ s = cc in
    let (ne, w) = verdict.0 (subst (λ x. x.report.ok ≡ true) (sym same) ok) in
    let (entry, start) = starts f.blocks ne in
    let path = (validate_function_structure-reachable f s entry v h start).0 seen in
    find_block-label f.blocks v (Reachable-label f.blocks entry v start w.terminators path)
