-- ===== src/Mir/Dominance/Fixpoint.antt =====
-- The loop over `dominators`, for any predecessors: it ends, and what it ends with is the greatest solution of
-- the equation that its body computes.
pub mod Steps
pub mod Ends
use c_modern.Common.{
  ℕ, zero, suc, ◌+◌, ◌*◌, ◌≤◌, ◌<◌, Bool, true, false, not, ◌||◌, ◌&&◌, List, [], ◌∷◌, Option, none,
  some, Bytes, text_eq, text_eq_iff, text_eq_refl, length, if◌then◌else◌, ◌≡◌, refl, sym, ap, ◌∙◌,
  ◌⊎◌, inl, inr, ◌↔◌, arith, Bool-cases, Option-cases, if_cases, subst,
}
use c_modern.Common.Sets.{contains, In, In-head, In-tail, In-cons, not-In-nil}
use c_modern.Mir.Dominance.{
  Dominators, meet, insert, same_set, set_of, assign, replace, initial_dominators, update_label,
  update_all, fixpoint_loop, fixpoint_fuel,
}
use c_modern.Common.Counting.{
  sum_by, sum_by-le, sum_by-lt, sum_by-bound, count, count-le, count-lt, count-bound,
}
use c_modern.Mir.Dominance.Meet.{
  has, in_all, AllMapped, none_left, mapped, Holds, meet_preds, insert-contains, same_set-contains,
  same_set-missing,
}

pub assign-has :
    (dominators : Dominators) (label : Bytes) (set : List Bytes) (v x : Bytes)
    → has (assign dominators label set) v x
      ≡ (if text_eq label v then contains set x else has dominators v x)
unfolding assign
assign-has dominators label set v x = ground arith

in_all-intro :
    (dominators : Dominators) (preds : List Bytes) (x : Bytes)
    → ((p : Bytes) → In p preds → has dominators p x ≡ true)
    → in_all dominators preds x ≡ true
unfolding in_all
in_all-intro dominators [] x h = refl
in_all-intro dominators (p ∷ preds) x h = ground (
  arith,
  h p (In-head p preds),
  in_all-intro dominators preds x (λ q i. h q (In-tail q p preds i)),
)

pub in_all-elim :
    (dominators : Dominators) (preds : List Bytes) (x p : Bytes)
    → in_all dominators preds x ≡ true
    → In p preds
    → has dominators p x ≡ true
unfolding in_all
in_all-elim dominators [] x p h i = absurd (not-In-nil p i)
in_all-elim dominators (q ∷ preds) x p h i = elim (In-cons p q preds i) [
  | inl e ↦ subst (λ z. has dominators z x ≡ true) e (ground arith)
  | inr more ↦ in_all-elim dominators preds x p (ground arith) more
]

pub AllMapped-intro :
    (dominators : Dominators) (preds : List Bytes)
    → ((p : Bytes) → In p preds → (set : List Bytes) × (dominators p ≡ some set))
    → AllMapped dominators preds
AllMapped-intro dominators [] h = none_left
AllMapped-intro dominators (p ∷ preds) h =
    let (set, e) = h p (In-head p preds) in
    mapped p preds set e (AllMapped-intro dominators preds (λ q i. h q (In-tail q p preds i)))

-- The predecessors of the reachable labels, and a relation that holds of a label where it holds of all its predecessors.
pub record Flow (preds : Bytes → List Bytes) (entry : Bytes) (reachable : List Bytes)
    (D : Bytes → Bytes → Type 0) : Type 0 where
  pub inside_preds : (u v : Bytes) → In u (preds v) → In u reachable
  pub inside : (v d : Bytes) → In v reachable → D v d → In d reachable
  pub at_entry : (d : Bytes) → D entry d → entry ≡ d
  pub at_preds : (v d : Bytes) → D v d → (v ≡ d) ⊎ ((p : Bytes) → In p (preds v) → D p d)

module _ (preds : Bytes → List Bytes) (entry : Bytes) (reachable : List Bytes)
    (D : Bytes → Bytes → Type 0) (flow : Flow preds entry reachable D) where
  -- The right-hand side of the equation of a label.
  unfoldable pub transfer : Dominators → Bytes → Bytes → Bool
  unfolding in_all
  transfer dominators v x = text_eq v x || in_all dominators (preds v) x

  pub record Good (dominators : Dominators) : Type 0 where
    pub total : (v : Bytes) → In v reachable → (set : List Bytes) × (dominators v ≡ some set)
    pub start : (x : Bytes) → has dominators entry x ≡ text_eq entry x
    pub bounded : (v x : Bytes) → In v reachable → has dominators v x ≡ true → In x reachable
    pub above : (v d : Bytes) → In v reachable → D v d → has dominators v d ≡ true
    pub shrinks :
        (v p : Bytes) (ps : List Bytes) (x : Bytes)
        → In v reachable
        → text_eq v entry ≡ false
        → preds v ≡ p ∷ ps
        → transfer dominators v x ≡ true
        → has dominators v x ≡ true

  pub measure : Dominators → ℕ
  measure dominators = sum_by (λ v. count (has dominators v) reachable) reachable

  in_all-le :
      (a b : Dominators) (labels : List Bytes) (x : Bytes)
      → ((v : Bytes) → has a v x ≡ true → has b v x ≡ true)
      → in_all a labels x ≡ true
      → in_all b labels x ≡ true
  in_all-le a b labels x le h = in_all-intro b labels x (λ p i. le p (in_all-elim a labels x p h i))

  transfer-le :
      (a b : Dominators) (v x : Bytes)
      → ((u : Bytes) → has a u x ≡ true → has b u x ≡ true)
      → transfer a v x ≡ true
      → transfer b v x ≡ true
  unfolding transfer
  transfer-le a b v x le h = elim (Bool-cases (text_eq v x)) [
    | inl same ↦ ground arith
    | inr other ↦ ground (arith, in_all-le a b (preds v) x le (ground arith))
  ]

  transfer-above :
      (dominators : Dominators) (v d : Bytes)
      → Good dominators
      → D v d
      → transfer dominators v d ≡ true
  unfolding transfer
  transfer-above dominators v d good dom = elim (flow.at_preds v d dom) [
    | inl e ↦ ground (arith, (text_eq_iff v d).1 e)
    | inr h ↦
        let all =
          in_all-intro dominators (preds v) d
            (λ p i. good.above p d (flow.inside_preds p v i) (h p i)) in
        ground (arith, all)
  ]

  -- A label whose equation holds.
  abbrev pub Settled : Dominators → Bytes → Type 0
  Settled dominators v =
      (text_eq v entry ≡ true)
      ⊎ (preds v ≡ [])
      ⊎ ((x : Bytes) → has dominators v x ≡ transfer dominators v x)

  -- The label gets the right-hand side of its equation.
  module _ (label : Bytes) (set : List Bytes) (dominators : Dominators) (good : Good dominators)
      (p : Bytes) (ps : List Bytes) (here : In label reachable)
      (other : text_eq label entry ≡ false) (split : preds label ≡ p ∷ ps)
      (right : (x : Bytes) → contains set x ≡ transfer dominators label x) where
    unfoldable pub assigned : Dominators
    assigned = assign dominators label set

    pub assigned-le : (v x : Bytes) → has assigned v x ≡ true → has dominators v x ≡ true
    unfolding assigned
    assigned-le v x h = elim (Bool-cases (text_eq label v)) [
      | inl same ↦
          let e = (text_eq_iff label v).0 same in
          subst (λ z. has dominators z x ≡ true) e
            (good.shrinks label p ps x here other split
              (ground (arith, right x, assign-has dominators label set v x)))
      | inr different ↦ ground (arith, assign-has dominators label set v x)
    ]

    pub assigned-Good : Good assigned
    unfolding assigned assign
    assigned-Good = record {
      total = λ v i.
          if_cases (λ o. (s : List Bytes) × (o ≡ some s)) (text_eq label v) (λ _. (set, refl))
            (λ _. good.total v i);
      start = λ x. ground (arith, assign-has dominators label set entry x, good.start x);
      bounded = λ v x i h. good.bounded v x i (assigned-le v x h);
      above = λ v d i dom. elim (Bool-cases (text_eq label v)) [
        | inl same ↦
            let dom' = subst (λ z. D z d) (sym ((text_eq_iff label v).0 same)) dom in
            ground (
              arith,
              assign-has dominators label set v d,
              right d,
              transfer-above dominators label d good dom',
            )
        | inr different ↦ ground (arith, assign-has dominators label set v d, good.above v d i dom)
      ];
      shrinks = λ v q qs x i ne e h.
          let before = transfer-le assigned dominators v x (λ u. assigned-le u x) h in
          elim (Bool-cases (text_eq label v)) [
            | inl same ↦
                let before' =
                  subst (λ z. transfer dominators z x ≡ true) (sym ((text_eq_iff label v).0 same))
                    before in
                ground (arith, assign-has dominators label set v x, right x)
            | inr different ↦
                ground
                  (arith, assign-has dominators label set v x, good.shrinks v q qs x i ne e before)
          ];
    }
