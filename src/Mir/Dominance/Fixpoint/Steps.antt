-- ===== src/Mir/Dominance/Fixpoint/Steps.antt =====
-- What the body of the loop over the labels does to the sets: it settles the label, or a set gets smaller.
use c_modern.Common.{
  ℕ, ◌<◌, Bool, true, false, List, [], ◌∷◌, none, some, Bytes, text_eq, text_eq_refl, ◌≡◌, refl,
  sym, ap, ◌∙◌, inl, inr, arith, if_cases, subst,
}
use c_modern.Common.Sets.{contains, In}
use c_modern.Mir.Dominance.{Dominators, meet, insert, same_set, set_of, replace, update_label}
use c_modern.Common.Counting.{sum_by-lt, count, count-le, count-lt}
use c_modern.Mir.Dominance.Meet.{
  has, in_all, AllMapped, meet_preds, insert-contains, same_set-contains, same_set-missing,
}
use c_modern.Mir.Dominance.Fixpoint.{
  Flow, Good, transfer, measure, Settled, assigned, assigned-le, assigned-Good, assign-has,
  AllMapped-intro,
}

module _ (preds : Bytes → List Bytes) (entry : Bytes) (reachable : List Bytes)
    (D : Bytes → Bytes → Type 0) (flow : Flow preds entry reachable D) where
  abbrev pub IsGood : Dominators → Type 0
  IsGood = Good preds entry reachable D flow

  abbrev pub size : Dominators → ℕ
  size = measure preds entry reachable D flow

  abbrev pub IsSettled : Dominators → Bytes → Type 0
  IsSettled = Settled preds entry reachable D flow

  abbrev right : Dominators → Bytes → Bytes → Bool
  right = transfer preds entry reachable D flow

  -- What the body of the loop does to a label.
  pub data Stepped (label : Bytes) (dominators : Dominators) (changed : Bool)
      : Dominators × Bool → Type 0 where
    kept : IsSettled dominators label → Stepped label dominators changed (dominators, changed)
    lowered :
        (next : Dominators)
        → IsGood next
        → size next < size dominators
        → Stepped label dominators changed (next, true)

  size-lt :
      (a b : Dominators) (label y : Bytes)
      → ((v x : Bytes) → has a v x ≡ true → has b v x ≡ true)
      → In label reachable
      → In y reachable
      → has a label y ≡ false
      → has b label y ≡ true
      → size a < size b
  unfolding measure
  size-lt a b label y le il iy out there =
      sum_by-lt (λ v. count (has a v) reachable) (λ v. count (has b v) reachable) label reachable
        (λ v. count-le (has a v) (has b v) reachable (le v)) il
        (count-lt (has a label) (has b label) y reachable (le label) iy out there)

  replace-Stepped :
      (label p : Bytes) (ps : List Bytes) (dominators : Dominators) (changed : Bool)
      → IsGood dominators
      → In label reachable
      → text_eq label entry ≡ false
      → preds label ≡ p ∷ ps
      → Stepped label dominators changed
          (replace label (meet dominators (preds label) none) dominators changed)
  unfolding assigned transfer
  replace-Stepped label p ps dominators changed good il other split =
      let all =
        AllMapped-intro dominators (preds label)
          (λ q i. good.total q (flow.inside_preds q label i)) in
      let (new_set, e, members) =
        meet_preds dominators p ps (subst (AllMapped dominators) split all) in
      let set = insert label new_set in
      let same_preds : (x : Bytes)
          → in_all dominators (p ∷ ps) x ≡ in_all dominators (preds label) x =
        λ x. ap (λ ls. in_all dominators ls x) (sym split) in
      let right_set : (x : Bytes) → contains set x ≡ right dominators label x =
        λ x. ground (arith, insert-contains label new_set x, members x, same_preds x) in
      let old = set_of (dominators label) in
      let met : meet dominators (preds label) none ≡ some new_set =
        ap (λ ls. meet dominators ls none) split ∙ e in
      subst (λ o. Stepped label dominators changed (replace label o dominators changed)) (sym met)
        (if_cases (Stepped label dominators changed) (same_set old set)
          (λ same. kept (inr (inr (λ x. same_set-contains old set x same ∙ right_set x))))
          (λ differ.
            let next =
              assigned preds entry reachable D flow label set dominators good p ps il other split
                right_set in
            let le =
              assigned-le preds entry reachable D flow label set dominators good p ps il other split
                right_set in
            let (y, there, out) =
              same_set-missing old set
                (λ x i. good.shrinks label p ps x il other split (ground (arith, right_set x)))
                differ in
            lowered next
              (assigned-Good preds entry reachable D flow label set dominators good p ps il other
                split right_set)
              (size-lt next dominators label y le il (good.bounded label y il there)
                (ground (arith, assign-has dominators label set label y, text_eq_refl label))
                there)))

  pub update_label-Stepped :
      (label : Bytes) (dominators : Dominators) (changed : Bool)
      → IsGood dominators
      → In label reachable
      → Stepped label dominators changed (update_label preds entry label dominators changed)
  unfolding update_label
  update_label-Stepped label dominators changed good il =
      if_cases (Stepped label dominators changed) (text_eq label entry) (λ e. kept (inl e))
        (λ other. go (preds label) refl other)
    where
      go :
          (ls : List Bytes)
          → preds label ≡ ls
          → text_eq label entry ≡ false
          → Stepped label dominators changed
              (replace label (meet dominators (preds label) none) dominators changed)
      go [] e other =
          subst
            (λ ls.
              Stepped label dominators changed
                (replace label (meet dominators ls none) dominators changed))
            (sym e) (kept (inr (inl e)))
      go (p ∷ ps) e other = replace-Stepped label p ps dominators changed good il other e
