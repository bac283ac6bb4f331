-- ===== src/Mir/Structure/Reach/Exact.antt =====
-- The loop's invariant: the labels seen and waiting are reachable, and the seen ones are closed
-- under edges up to what waits.
use c_modern.Common.{
  ℕ, zero, suc, List, [], ◌∷◌, ◌++◌, some, Bytes, ◌≡◌, sym, ◌⊎◌, inl, inr, subst, if_cases,
}
use c_modern.Mir.Function.{BasicBlock}
use c_modern.Common.Sets.{contains}
use c_modern.Common.Sets.{
  In, In-head, In-tail, In-cons, not-In-nil, In-append, In-append_left, In-append_right,
}
use c_modern.Mir.Structure.{find_block, successors, reach_loop}
use c_modern.Mir.Structure.Reach.{Edge, Reachable, here, step, Edge→Succ, Succ→Edge}

module _ (blocks : List BasicBlock) (entry : Bytes) where
  pub record Inv (worklist reached : List Bytes) : Type 0 where
    pub waiting : (v : Bytes) → In v worklist → Reachable blocks entry v
    pub sound : (v : Bytes) → In v reached → Reachable blocks entry v
    pub started : In entry reached ⊎ In entry worklist
    pub closed : (u v : Bytes) → In u reached → Edge blocks u v → In v reached ⊎ In v worklist

  pub Inv-start : Inv (entry ∷ []) []
  Inv-start = record {
    waiting =
        λ v h. elim (In-cons v entry [] h) [ inl e ↦ here e | inr n ↦ absurd (not-In-nil v n) ];
    sound = λ v h. absurd (not-In-nil v h);
    started = inr (In-head entry []);
    closed = λ u v h _. absurd (not-In-nil u h);
  }

  -- A label on the worklist that was seen before may be dropped.
  drop_seen :
      (label v : Bytes) (worklist reached : List Bytes)
      → In label reached
      → In v reached ⊎ In v (label ∷ worklist)
      → In v reached ⊎ In v worklist
  drop_seen label v worklist reached seen (inl h) = inl h
  drop_seen label v worklist reached seen (inr h) = elim (In-cons v label worklist h) [
    | inl e ↦ inl (subst (λ x. In x reached) e seen)
    | inr w ↦ inr w
  ]

  pub Inv-skip :
      (label : Bytes) (worklist reached : List Bytes)
      → In label reached
      → Inv (label ∷ worklist) reached
      → Inv worklist reached
  Inv-skip label worklist reached seen i = record {
    waiting = λ v h. i.waiting v (In-tail v label worklist h);
    sound = i.sound;
    started = drop_seen label entry worklist reached seen i.started;
    closed = λ u v h e. drop_seen label v worklist reached seen (i.closed u v h e);
  }

  -- What waits or was seen still does when a label is visited.
  keep_visit :
      (label v : Bytes) (more worklist reached : List Bytes)
      → In v reached ⊎ In v (label ∷ worklist)
      → In v (label ∷ reached) ⊎ In v (more ++ worklist)
  keep_visit label v more worklist reached (inl h) = inl (In-tail v label reached h)
  keep_visit label v more worklist reached (inr h) = elim (In-cons v label worklist h) [
    | inl e ↦ inl (subst (λ x. In x (label ∷ reached)) e (In-head label reached))
    | inr w ↦ inr (In-append_right v more worklist w)
  ]

  pub Inv-visit :
      (label : Bytes) (worklist reached : List Bytes)
      → Inv (label ∷ worklist) reached
      → Inv (successors (find_block blocks label) ++ worklist) (label ∷ reached)
  Inv-visit label worklist reached i = record {
    waiting = λ v h. elim (In-append v (successors (find_block blocks label)) worklist h) [
      | inl s ↦ step from (Succ→Edge blocks label v s)
      | inr w ↦ i.waiting v (In-tail v label worklist w)
    ];
    sound = λ v h. elim (In-cons v label reached h) [
      | inl e ↦ subst (Reachable blocks entry) e from
      | inr r ↦ i.sound v r
    ];
    started = keep_visit label entry _ worklist reached i.started;
    closed = λ u v h e. elim (In-cons u label reached h) [
      | inl same ↦ inr (
          In-append_left v (successors (find_block blocks label)) worklist
            (Edge→Succ (subst (λ x. Edge blocks x v) (sym same) e)))
      | inr r ↦ keep_visit label v _ worklist reached (i.closed u v r e)
    ];
  }
    where
      from : Reachable blocks entry label
      from = i.waiting label (In-head label worklist)

  reach_loop-Inv :
      (fuel : ℕ) (worklist reached r : List Bytes)
      → Inv worklist reached
      → reach_loop blocks fuel worklist reached ≡ some r
      → Inv [] r
  unfolding reach_loop
  reach_loop-Inv zero worklist reached r i = λ h. cc
  reach_loop-Inv (suc fuel) [] reached r i =
      λ h. let same : reached ≡ r = cc in subst (Inv []) same i
  reach_loop-Inv (suc fuel) (label ∷ worklist) reached r i =
      if_cases (λ o. o ≡ some r → Inv [] r) (contains reached label)
        (λ seen. reach_loop-Inv fuel worklist reached r (Inv-skip label worklist reached seen i))
        (λ _. reach_loop-Inv fuel _ (label ∷ reached) r (Inv-visit label worklist reached i))

  pub complete : {r : List Bytes} {v : Bytes} → Inv [] r → Reachable blocks entry v → In v r
  complete {r} i (here e) = elim i.started [
    | inl seen ↦ subst (λ x. In x r) e seen
    | inr w ↦ absurd (not-In-nil entry w)
  ]
  complete i (step {u} {v} path edge) = elim (i.closed u v (complete i path) edge) [
    | inl seen ↦ seen
    | inr w ↦ absurd (not-In-nil v w)
  ]

  -- The labels that the loop returns are the reachable ones.
  pub reach_loop-exact :
      (fuel : ℕ) (r : List Bytes) (v : Bytes)
      → reach_loop blocks fuel (entry ∷ []) [] ≡ some r
      → (In v r → Reachable blocks entry v) × (Reachable blocks entry v → In v r)
  reach_loop-exact fuel r v h =
      let inv = reach_loop-Inv fuel (entry ∷ []) [] r Inv-start h in (inv.sound v, complete inv)
