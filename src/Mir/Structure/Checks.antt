-- ===== src/Mir/Structure/Checks.antt =====
-- `ok` says exactly that the labels are distinct and that every terminator is well formed.
use c_modern.Common.{
  Bool, true, false, not, ◌||◌, ◌&&◌, List, [], ◌∷◌, Bytes, length, ◌==◌, ◌≡◌, ◌≢◌, refl, sym, ◌∙◌,
  inl, inr, ◌↔◌, Bool-cases, arith, text_eq_iff,
}
use c_modern.Mir.Function.{TerminatorKind, Terminator, BasicBlock}
use c_modern.Common.Sets.{contains}
use c_modern.Common.Sets.{In}
use c_modern.Mir.Structure.{
  Report, fail_if, is_nil, check_labels, check_target, check_exit, check_branch, check_cond_branch,
  check_terminator, check_terminators, check_blocks, no_report, duplicate_label,
}

-- A target that is named and is one of the labels.
abbrev pub IsTarget : List Bytes → Bytes → Type 0
IsTarget labels target = (target ≢ []) × In target labels

-- The terminators that the rest of the pipeline relies on.
abbrev pub WellFormedTerminator : List Bytes → TerminatorKind → Terminator → Type 0
WellFormedTerminator labels TerminatorKind.k_none t = ⊥
WellFormedTerminator labels TerminatorKind.k_return t = (t.true_target ≡ []) × (t.false_target ≡ [])
WellFormedTerminator labels TerminatorKind.k_panic t =
    (t.true_target ≡ []) × (t.false_target ≡ []) × (length t.values ≡ 1)
WellFormedTerminator labels TerminatorKind.k_branch t =
    (t.values ≡ []) × IsTarget labels t.true_target × (t.false_target ≡ [])
WellFormedTerminator labels TerminatorKind.k_cond_branch t =
    (length t.values ≡ 1) × IsTarget labels t.true_target × IsTarget labels t.false_target

empty_iff {ℓ} : {A : Type ℓ} (xs : List A) → (is_nil xs ≡ true) ↔ (xs ≡ [])
empty_iff [] = ((λ _. refl), (λ _. refl))
empty_iff (x ∷ xs) = ((λ h. cc), (λ h. cc))

-- One more test behind a check.
fail_if-ok :
    (bad : Bool) (message : Bytes) (r : Report) → (fail_if bad message r).ok ≡ (r.ok && not bad)
unfolding fail_if
fail_if-ok bad message r = ground arith

and_assoc : (a b c : Bool) → ((a && b) && c) ≡ (a && (b && c))
and_assoc a b c = ground arith

module _ (labels : List Bytes) (name : Bytes) where
  is_target : Bytes → Bool
  is_target target = not (is_nil target) && contains labels target

  is_target_iff : (target : Bytes) → (is_target target ≡ true) ↔ IsTarget labels target
  unfolding is_target
  is_target_iff [] = ((λ h. cc), (λ h. absurd (h.0 refl)))
  is_target_iff (ch ∷ target) = ((λ h. ((λ e. cc), h)), (λ h. h.1))

  check_target-ok :
      (label unnamed missing target : Bytes) (r : Report)
      → (check_target labels name label unnamed missing target r).ok ≡ (r.ok && is_target target)
  unfolding check_target fail_if is_target
  check_target-ok label unnamed missing target r = ground arith

  -- The switch as one test.
  passes : TerminatorKind → Terminator → Bool
  passes TerminatorKind.k_none t = false
  passes TerminatorKind.k_return t = is_nil t.true_target && is_nil t.false_target
  passes TerminatorKind.k_panic t =
      (is_nil t.true_target && is_nil t.false_target) && length t.values == 1
  passes TerminatorKind.k_branch t =
      is_nil t.values && (is_target t.true_target && is_nil t.false_target)
  passes TerminatorKind.k_cond_branch t =
      length t.values == 1 && (is_target t.true_target && is_target t.false_target)

  check_terminator-ok :
      (k : TerminatorKind) (block : BasicBlock) (r : Report)
      → (check_terminator labels name k block r).ok ≡ (r.ok && passes k block.terminator)
  unfolding check_terminator check_exit check_branch check_cond_branch passes
  check_terminator-ok TerminatorKind.k_none block r = simp fail_if-ok
  check_terminator-ok TerminatorKind.k_return block r = simp fail_if-ok (ground arith)
  check_terminator-ok TerminatorKind.k_panic block r = simp fail_if-ok (ground arith)
  check_terminator-ok TerminatorKind.k_branch block r =
      simp (fail_if-ok, check_target-ok) (ground arith)
  check_terminator-ok TerminatorKind.k_cond_branch block r =
      simp (fail_if-ok, check_target-ok) (ground arith)

  passes_iff :
      (k : TerminatorKind) (t : Terminator) → (passes k t ≡ true) ↔ WellFormedTerminator labels k t
  unfolding passes
  passes_iff TerminatorKind.k_none t = ((λ h. cc), absurd)
  passes_iff TerminatorKind.k_return t =
      ground (arith, empty_iff t.true_target, empty_iff t.false_target)
  passes_iff TerminatorKind.k_panic t =
      ground (arith, empty_iff t.true_target, empty_iff t.false_target)
  passes_iff TerminatorKind.k_branch t =
      ground (arith, empty_iff t.values, is_target_iff t.true_target, empty_iff t.false_target)
  passes_iff TerminatorKind.k_cond_branch t =
      ground (arith, is_target_iff t.true_target, is_target_iff t.false_target)

  abbrev pub AllWellFormed : List BasicBlock → Type 0
  AllWellFormed [] = Unit {0}
  AllWellFormed (block ∷ blocks) =
      WellFormedTerminator labels block.terminator.kind block.terminator × AllWellFormed blocks

  check_terminators_iff :
      (blocks : List BasicBlock) (r : Report)
      → ((check_terminators labels name blocks r).ok ≡ true)
        ↔ ((r.ok ≡ true) × AllWellFormed blocks)
  unfolding check_terminators
  check_terminators_iff [] r = ((λ h. (h, tt)), (λ h. h.0))
  check_terminators_iff (block ∷ blocks) r =
      let k = block.terminator.kind in
      let t = block.terminator in
      ground (
        arith,
        check_terminators_iff blocks (check_terminator labels name k block r),
        check_terminator-ok k block r,
        passes_iff k t,
      )

abbrev pub labels_of : List BasicBlock → List Bytes
labels_of [] = []
labels_of (block ∷ blocks) = block.label ∷ labels_of blocks

-- No two blocks have one label.
abbrev pub Distinct : List BasicBlock → Type 0
Distinct [] = Unit {0}
Distinct (block ∷ blocks) = (contains (labels_of blocks) block.label ≡ false) × Distinct blocks

abbrev AllNew : List Bytes → List BasicBlock → Type 0
AllNew labels [] = Unit {0}
AllNew labels (block ∷ blocks) = (contains labels block.label ≡ false) × AllNew labels blocks

AllNew-cons :
    (l : Bytes) (labels : List Bytes) (blocks : List BasicBlock)
    → AllNew (l ∷ labels) blocks ↔ ((contains (labels_of blocks) l ≡ false) × AllNew labels blocks)
unfolding contains
AllNew-cons l labels [] = ((λ _. (refl, tt)), (λ _. tt))
AllNew-cons l labels (block ∷ blocks) =
    ground
      (arith, AllNew-cons l labels blocks, text_eq_iff l block.label, text_eq_iff block.label l)

AllNew-nil : (blocks : List BasicBlock) → AllNew [] blocks
unfolding contains
AllNew-nil [] = tt
AllNew-nil (block ∷ blocks) = (refl, AllNew-nil blocks)

check_labels_iff :
    (name : Bytes) (blocks : List BasicBlock) (labels : List Bytes) (r : Report)
    → ((check_labels name blocks labels r).1.ok ≡ true)
      ↔ ((r.ok ≡ true) × (AllNew labels blocks × Distinct blocks))
unfolding check_labels
check_labels_iff name [] labels r = ((λ h. (h, (tt, tt))), (λ h. h.0))
check_labels_iff name (block ∷ blocks) labels r = elim (Bool-cases (contains labels block.label)) [
  | inl old ↦
      let m = duplicate_label name block.label in
      rw (old, check_labels)
        (ground
          (arith, check_labels_iff name blocks labels (fail_if true m r), fail_if-ok true m r))
  | inr new ↦
      let m = duplicate_label name block.label in
      rw (new, check_labels)
        (ground (
          arith,
          check_labels_iff name blocks (block.label ∷ labels) (fail_if false m r),
          fail_if-ok false m r,
          AllNew-cons block.label labels blocks,
        ))
]

contains-nil_or : (v : Bytes) (xs : List Bytes) → (contains [] v || contains xs v) ≡ contains xs v
unfolding contains
contains-nil_or v xs = refl

-- The set of labels behind the loop.
check_labels-contains :
    (name : Bytes) (blocks : List BasicBlock) (labels : List Bytes) (r : Report) (v : Bytes)
    → contains (check_labels name blocks labels r).0 v
      ≡ (contains labels v || contains (labels_of blocks) v)
unfolding check_labels contains
check_labels-contains name [] labels r v = ground arith
check_labels-contains name (block ∷ blocks) labels r v =
    let m = duplicate_label name block.label in
    elim (Bool-cases (contains labels block.label)) [
      | inl old ↦
          rw (old, check_labels)
            (ground (
              arith,
              check_labels-contains name blocks labels (fail_if true m r) v,
              text_eq_iff block.label v,
            ))
      | inr new ↦
          rw (new, check_labels)
            (ground (
              arith,
              check_labels-contains name blocks (block.label ∷ labels) (fail_if false m r) v,
            ))
    ]

-- Sets with the same texts allow the same terminators.
WellFormedTerminator-same :
    (xs ys : List Bytes) (k : TerminatorKind) (t : Terminator)
    → ((v : Bytes) → contains xs v ≡ contains ys v)
    → WellFormedTerminator xs k t
    → WellFormedTerminator ys k t
WellFormedTerminator-same xs ys TerminatorKind.k_branch t same (a, (b, c), d) =
    (a, (b, sym (same t.true_target) ∙ c), d)
WellFormedTerminator-same xs ys TerminatorKind.k_cond_branch t same (a, (b, c), (d, e)) =
    (a, (b, sym (same t.true_target) ∙ c), (d, sym (same t.false_target) ∙ e))
WellFormedTerminator-same xs ys _ t same h = h

AllWellFormed-same :
    (xs ys : List Bytes) (blocks : List BasicBlock)
    → ((v : Bytes) → contains xs v ≡ contains ys v)
    → AllWellFormed xs [] blocks
    → AllWellFormed ys [] blocks
AllWellFormed-same xs ys [] same h = tt
AllWellFormed-same xs ys (block ∷ blocks) same (h, hs) = (
  WellFormedTerminator-same xs ys block.terminator.kind block.terminator same h,
  AllWellFormed-same xs ys blocks same hs,
)

-- Distinct labels, and terminators whose targets are labels of blocks.
pub record WellFormed (blocks : List BasicBlock) : Type 0 where
  pub distinct : Distinct blocks
  pub terminators : AllWellFormed (labels_of blocks) [] blocks

pub check_blocks_iff :
    (name : Bytes) (blocks : List BasicBlock)
    → ((check_blocks name blocks).ok ≡ true) ↔ WellFormed blocks
unfolding check_blocks
check_blocks_iff name blocks = (
  λ h.
      let (ok, all) = (terms r).0 h in
      let (_, (_, distinct)) = labels_ok.0 ok in
      record { distinct = distinct; terminators = AllWellFormed-same _ _ blocks same all },
  λ w. (terms r).1 (
    labels_ok.1 (refl, (AllNew-nil blocks, w.distinct)),
    AllWellFormed-same _ _ blocks (λ v. sym (same v)) w.terminators,
  ),
)
  where
    labels : List Bytes
    labels = (check_labels name blocks [] no_report).0

    r : Report
    r = (check_labels name blocks [] no_report).1

    same : (v : Bytes) → contains labels v ≡ contains (labels_of blocks) v
    same v = check_labels-contains name blocks [] no_report v ∙ contains-nil_or v (labels_of blocks)

    terms :
        (q : Report)
        → ((check_terminators labels name blocks q).ok ≡ true)
          ↔ ((q.ok ≡ true) × AllWellFormed labels name blocks)
    terms q = check_terminators_iff labels name blocks q

    labels_ok : (r.ok ≡ true) ↔ ((true ≡ true) × (AllNew [] blocks × Distinct blocks))
    labels_ok = check_labels_iff name blocks [] no_report
