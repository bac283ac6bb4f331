-- ===== src/Mir/Dominance/Routes.antt =====
-- The sets of `dominators` against the paths of the control flow.
use c_modern.Common.{
  true, List, [], ◌∷◌, some, Bytes, text_eq, text_eq_iff, ◌≡◌, ◌≢◌, refl, sym, ◌∙◌, ◌⊎◌, inl, inr,
  ◌↔◌, arith, Bool-cases, subst,
}
use c_modern.Mir.Function.{BasicBlock}
use c_modern.Common.Sets.{In, In-head, In-tail, In-cons, not-In-nil}
use c_modern.Mir.Structure.Checks.{Distinct}
use c_modern.Mir.Structure.Reach.{Edge, Reachable, here, step}
use c_modern.Mir.Dominance.{Dominators, order_fuel, predecessors, find_dominators}
use c_modern.Mir.Dominance.Order.{order_loop-total}
use c_modern.Mir.Dominance.Order.Members.{order_loop-exact}
use c_modern.Mir.Dominance.Predecessors.{
  predecessors-reachable, predecessors-Edge, Edge-predecessors,
}
use c_modern.Mir.Dominance.Meet.{has}
use c_modern.Mir.Dominance.Fixpoint.{Flow, transfer, in_all-elim}
use c_modern.Mir.Dominance.Fixpoint.Ends.{Solved, fixpoint-Solved}

module _ (blocks : List BasicBlock) (entry : Bytes) where
  -- A path of jumps from the entry to a label, with its labels, the last one first.
  pub data Route : Bytes → List Bytes → Type 0 where
    start : Route entry (entry ∷ [])
    along : {u v : Bytes} {path : List Bytes} → Route u path → Edge blocks u v → Route v (v ∷ path)

  -- Every path from the entry to `v` leads through `d`.
  abbrev pub Dominates : Bytes → Bytes → Type 0
  Dominates v d = (path : List Bytes) → Route v path → In d path

  pub Route-last : {v : Bytes} {path : List Bytes} → Route v path → In v path
  Route-last start = In-head entry []
  Route-last (along {v = v} {path} r e) = In-head v path

  Route-Reachable : {v : Bytes} {path : List Bytes} → Route v path → Reachable blocks entry v
  Route-Reachable start = here refl
  Route-Reachable (along r e) = step (Route-Reachable r) e

  Route-all :
      {v : Bytes} {path : List Bytes} (d : Bytes)
      → Route v path
      → In d path
      → Reachable blocks entry d
  Route-all d start i = elim (In-cons d entry [] i) [
    | inl e ↦ here e
    | inr n ↦ absurd (not-In-nil d n)
  ]
  Route-all d (along {v = v} {path} r e) i = elim (In-cons d v path i) [
    | inl same ↦ subst (Reachable blocks entry) same (step (Route-Reachable r) e)
    | inr more ↦ Route-all d r more
  ]

  Reachable-Route : {v : Bytes} → Reachable blocks entry v → (path : List Bytes) × Route v path
  Reachable-Route (here e) = (entry ∷ [], subst (λ x. Route x (entry ∷ [])) e start)
  Reachable-Route (step {v = v} p e) = let (path, r) = Reachable-Route p in (v ∷ path, along r e)

  module _ (reachable : List Bytes)
      (exact : (v : Bytes) → In v reachable ↔ Reachable blocks entry v) where
    preds : Bytes → List Bytes
    preds = predecessors blocks reachable

    dominance-Flow : Distinct blocks → Flow preds entry reachable Dominates
    unfolding preds
    dominance-Flow distinct = record {
      inside_preds = predecessors-reachable blocks reachable;
      inside = λ v d i dom.
          let (path, r) = Reachable-Route ((exact v).0 i) in
          (exact d).1 (Route-all d r (dom path r));
      at_entry = λ d dom. elim (In-cons d entry [] (dom (entry ∷ []) start)) [
        | inl e ↦ e
        | inr n ↦ absurd (not-In-nil d n)
      ];
      at_preds = λ v d dom. elim (Bool-cases (text_eq v d)) [
        | inl same ↦ inl ((text_eq_iff v d).0 same)
        | inr other ↦ inr (λ p i path r.
            elim (In-cons d v path
              (dom (v ∷ path) (along r (predecessors-Edge blocks reachable p v distinct i)))) [
                | inl e ↦ let same = (text_eq_iff v d).1 e in absurd cc
                | inr more ↦ more
              ])
      ];
    }

    -- With no claim of dominance, the flow needs no distinct labels.
    NoClaim : Bytes → Bytes → Type 0
    NoClaim v d = (entry ≢ entry) × (v ≡ d)

    plain-Flow : Flow preds entry reachable NoClaim
    unfolding NoClaim preds
    plain-Flow = record {
      inside_preds = predecessors-reachable blocks reachable;
      inside = λ v d i no_claim. absurd (no_claim.0 refl);
      at_entry = λ d no_claim. absurd (no_claim.0 refl);
      at_preds = λ v d no_claim. absurd (no_claim.0 refl);
    }

    order : List Bytes
    order = (order_loop-total blocks entry).0

    order-exact : (v : Bytes) → In v order ↔ Reachable blocks entry v
    unfolding order
    order-exact v =
        order_loop-exact blocks entry (order_fuel blocks) order v (order_loop-total blocks entry).1

    solved :
        (D : Bytes → Bytes → Type 0) (flow : Flow preds entry reachable D)
        → Solved preds entry reachable D flow order (find_dominators blocks reachable entry)
    unfolding order preds find_dominators predecessors
    solved D flow =
        rw ((order_loop-total blocks entry).1, find_dominators)
          (fixpoint-Solved preds entry reachable D flow order ((exact entry).1 (here refl))
            (λ v i. (exact v).1 ((order-exact v).0 i)))

    pub find_dominators-total :
        (dominators : Dominators) × (find_dominators blocks reachable entry ≡ some dominators)
    find_dominators-total = let s = solved NoClaim plain-Flow in (s.solution, s.ends)

    module _ (distinct : Distinct blocks) where
      abbrev result :
          Solved preds entry reachable Dominates
            (dominance-Flow distinct)
            order
            (find_dominators blocks reachable entry)
      result = solved Dominates (dominance-Flow distinct)

      jump_source :
          {u v : Bytes} {path : List Bytes} → Route u path → Edge blocks u v → In u (preds v)
      unfolding preds
      jump_source {u} {v} r e =
          Edge-predecessors blocks reachable u v ((exact u).1 (Route-Reachable r))
            ((exact v).1 (step (Route-Reachable r) e)) e

      -- A label in the set of `v` is `v` or in the set of each predecessor.
      from_equation :
          (u v d : Bytes)
          → In u (preds v)
          → has result.solution v d ≡ true
          → has result.solution v d
            ≡ transfer preds entry reachable Dominates (dominance-Flow distinct) result.solution v d
          → (v ≡ d) ⊎ (has result.solution u d ≡ true)
      unfolding transfer
      from_equation u v d i h equation = elim (Bool-cases (text_eq v d)) [
        | inl same ↦ inl ((text_eq_iff v d).0 same)
        | inr other ↦ inr (in_all-elim result.solution (preds v) d u (ground (arith, equation)) i)
      ]

      -- A label in the set of `v` is on every path to `v`.
      member_passed :
          {v : Bytes} {path : List Bytes} (d : Bytes)
          → Route v path
          → has result.solution v d ≡ true
          → In d path
      member_passed d start h =
          let e = (text_eq_iff entry d).0 (sym (result.good.start d) ∙ h) in
          subst (λ x. In x (entry ∷ [])) e (In-head entry [])
      member_passed d (along {u} {v} {path} r e) h =
          let v_in : In v order = (order-exact v).1 (step (Route-Reachable r) e) in
          elim (result.all_settled v v_in) [
            | inl first ↦
                let same = (text_eq_iff v entry).0 first in
                let at_start : has result.solution entry d ≡ true =
                  subst (λ x. has result.solution x d ≡ true) same h in
                let d_is = (text_eq_iff entry d).0 (sym (result.good.start d) ∙ at_start) in
                subst (λ x. In x (v ∷ path)) (same ∙ d_is) (In-head v path)
            | inr (inl none_left) ↦ absurd (not-In-nil u (subst (In u) none_left (jump_source r e)))
            | inr (inr equation) ↦ elim (from_equation u v d (jump_source r e) h (equation d)) [
              | inl e' ↦ subst (λ x. In x (v ∷ path)) e' (In-head v path)
              | inr before ↦ In-tail d v path (member_passed d r before)
            ]
          ]

      -- For distinct labels, both loops of `ValidateFunctionDominance` end, and the set of a reachable block
      -- then holds exactly the labels that every path from the entry to the block leads through.
      pub find_dominators-Dominates :
          (dominators : Dominators) × (find_dominators blocks reachable entry ≡ some dominators)
          × ((v d : Bytes) → In v reachable → (has dominators v d ≡ true) ↔ Dominates v d)
      find_dominators-Dominates = (
        result.solution,
        result.ends,
        λ v d i. ((λ h path r. member_passed d r h), λ dom. result.good.above v d i dom),
      )
