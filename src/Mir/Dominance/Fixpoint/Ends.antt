-- ===== src/Mir/Dominance/Fixpoint/Ends.antt =====
-- A pass over the labels takes a label out of a set or settles every label; so the loop ends.
use c_modern.Common.{
  ℕ, zero, suc, ◌<◌, Bool, true, false, List, [], ◌∷◌, Option, some, Bytes, text_eq, text_eq_iff,
  text_eq_refl, length, if◌then◌else◌, ◌≡◌, refl, sym, ◌∙◌, inl, inr, arith, Bool-cases, subst,
}
use c_modern.Common.Sets.{contains, In, In-head, In-tail, In-cons, not-In-nil}
use c_modern.Mir.Dominance.{
  Dominators, initial_dominators, update_label, update_all, fixpoint_loop, fixpoint_fuel,
}
use c_modern.Common.Counting.{sum_by-bound, count, count-bound}
use c_modern.Mir.Dominance.Meet.{has}
use c_modern.Mir.Dominance.Fixpoint.{Flow, Good, transfer, measure, Settled, in_all-elim}
use c_modern.Mir.Dominance.Fixpoint.Steps.{Stepped, kept, lowered, update_label-Stepped}

module _ (preds : Bytes → List Bytes) (entry : Bytes) (reachable : List Bytes)
    (D : Bytes → Bytes → Type 0) (flow : Flow preds entry reachable D) where
  abbrev IsGood : Dominators → Type 0
  IsGood = Good preds entry reachable D flow

  abbrev size : Dominators → ℕ
  size = measure preds entry reachable D flow

  abbrev IsSettled : Dominators → Bytes → Type 0
  IsSettled = Settled preds entry reachable D flow

  abbrev IsStepped : Bytes → Dominators → Bool → Dominators × Bool → Type 0
  IsStepped = Stepped preds entry reachable D flow

  -- What a pass over some labels does: it settles them all, or it makes a set smaller.
  data Passed (labels : List Bytes) (dominators : Dominators) (changed : Bool)
      : Dominators × Bool → Type 0 where
    settled :
        ((v : Bytes) → In v labels → IsSettled dominators v)
        → Passed labels dominators changed (dominators, changed)
    smaller :
        (next : Dominators)
        → IsGood next
        → size next < size dominators
        → Passed labels dominators changed (next, true)

  Passed-kept :
      (label : Bytes) (labels : List Bytes) (dominators : Dominators) (changed : Bool)
      (r : Dominators × Bool)
      → IsSettled dominators label
      → Passed labels dominators changed r
      → Passed (label ∷ labels) dominators changed r
  Passed-kept label labels dominators changed _ s (settled all) = settled (λ v i.
      elim (In-cons v label labels i) [
        | inl e ↦ subst (IsSettled dominators) e s
        | inr more ↦ all v more
      ])
  Passed-kept label labels dominators changed _ s (smaller next good lt) = smaller next good lt

  Passed-lowered :
      (label : Bytes) (labels : List Bytes) (dominators next : Dominators) (changed : Bool)
      (r : Dominators × Bool)
      → IsGood next
      → size next < size dominators
      → Passed labels next true r
      → Passed (label ∷ labels) dominators changed r
  Passed-lowered label labels dominators next changed _ good lt (settled all) = smaller next good lt
  Passed-lowered label labels dominators next changed _ good lt (smaller last good' lt') =
      smaller last good' (omega (arith, lt, lt'))

  Stepped-Passed :
      (label : Bytes) (labels : List Bytes) (dominators : Dominators) (changed : Bool)
      (r : Dominators × Bool)
      → IsGood dominators
      → ((d : Dominators) (c : Bool)
          → IsGood d
          → Passed labels d c (update_all preds entry labels d c))
      → IsStepped label dominators changed r
      → Passed (label ∷ labels) dominators changed (update_all preds entry labels r.0 r.1)
  Stepped-Passed label labels dominators changed _ good rest (kept s) =
      Passed-kept label labels dominators changed (update_all preds entry labels dominators changed)
        s (rest dominators changed good)
  Stepped-Passed label labels dominators changed _ good rest (lowered next good' lt) =
      Passed-lowered label labels dominators next changed (update_all preds entry labels next true)
        good' lt (rest next true good')

  update_all-Passed :
      (labels : List Bytes) (dominators : Dominators) (changed : Bool)
      → IsGood dominators
      → ((v : Bytes) → In v labels → In v reachable)
      → Passed labels dominators changed (update_all preds entry labels dominators changed)
  unfolding update_all
  update_all-Passed [] dominators changed good inside = settled (λ v i. absurd (not-In-nil v i))
  update_all-Passed (label ∷ labels) dominators changed good inside =
      Stepped-Passed label labels dominators changed
        (update_label preds entry label dominators changed) good
        (λ d c g. update_all-Passed labels d c g (λ v i. inside v (In-tail v label labels i)))
        (update_label-Stepped preds entry reachable D flow label dominators changed good
          (inside label (In-head label labels)))

  -- The loop ends with sets that solve the equation of every label.
  pub record Solved (labels : List Bytes) (r : Option Dominators) : Type 0 where
    pub solution : Dominators
    pub ends : r ≡ some solution
    pub good : Good preds entry reachable D flow solution
    pub all_settled : (v : Bytes) → In v labels → Settled preds entry reachable D flow solution v

  Passed-Solved :
      (labels : List Bytes) (dominators : Dominators) (r : Dominators × Bool)
      (rest : Dominators → Option Dominators)
      → IsGood dominators
      → ((next : Dominators)
          → IsGood next
          → size next < size dominators
          → Solved labels (rest next))
      → Passed labels dominators false r
      → Solved labels (if r.1 then rest r.0 else some r.0)
  Passed-Solved labels dominators _ rest good more (settled all) = record {
    solution = dominators;
    ends = refl;
    good = good;
    all_settled = all;
  }
  Passed-Solved labels dominators _ rest good more (smaller next good' lt) = more next good' lt

  fixpoint_loop-Solved :
      (fuel : ℕ) (labels : List Bytes) (dominators : Dominators)
      → IsGood dominators
      → ((v : Bytes) → In v labels → In v reachable)
      → size dominators < fuel
      → Solved labels (fixpoint_loop preds entry fuel labels dominators)
  unfolding fixpoint_loop
  fixpoint_loop-Solved zero labels dominators good inside h = absurd (omega arith)
  fixpoint_loop-Solved (suc fuel) labels dominators good inside h =
      Passed-Solved labels dominators (update_all preds entry labels dominators false)
        (fixpoint_loop preds entry fuel labels) good
        (λ next g lt. fixpoint_loop-Solved fuel labels next g inside (omega (arith, lt, h)))
        (update_all-Passed labels dominators false good inside)

  size-bound : (dominators : Dominators) → size dominators < fixpoint_fuel reachable
  unfolding measure
  size-bound dominators = omega (
    arith,
    sum_by-bound (λ v. count (has dominators v) reachable) (length reachable) reachable
        (λ v. count-bound (has dominators v) reachable),
  )

  initial-has :
      (v x : Bytes)
      → In v reachable
      → has (initial_dominators reachable entry) v x
        ≡ (if text_eq v entry then text_eq v x else contains reachable x)
  unfolding initial_dominators contains
  initial-has v x i = ground arith

  initial-bounded :
      (v x : Bytes)
      → In v reachable
      → has (initial_dominators reachable entry) v x ≡ true
      → In x reachable
  initial-bounded v x i h = elim (Bool-cases (text_eq v entry)) [
    | inl first ↦
        let e : v ≡ x = (text_eq_iff v x).0 (ground (arith, initial-has v x i)) in
        subst (λ z. In z reachable) e i
    | inr other ↦ ground (arith, initial-has v x i)
  ]

  initial-above :
      (v d : Bytes) → In v reachable → D v d → has (initial_dominators reachable entry) v d ≡ true
  initial-above v d i dom = elim (Bool-cases (text_eq v entry)) [
    | inl first ↦
        let e = (text_eq_iff v entry).0 first in
        let d_is : entry ≡ d = flow.at_entry d (subst (λ z. D z d) e dom) in
        ground (arith, initial-has v d i, (text_eq_iff v d).1 (e ∙ d_is))
    | inr other ↦ ground (arith, initial-has v d i, flow.inside v d i dom)
  ]

  initial-shrinks :
      (v p : Bytes) (ps : List Bytes) (x : Bytes)
      → In v reachable
      → text_eq v entry ≡ false
      → preds v ≡ p ∷ ps
      → transfer preds entry reachable D flow (initial_dominators reachable entry) v x ≡ true
      → has (initial_dominators reachable entry) v x ≡ true
  unfolding transfer
  initial-shrinks v p ps x i other split h = elim (Bool-cases (text_eq v x)) [
    | inl same ↦
        let ix : In x reachable = subst (λ z. In z reachable) ((text_eq_iff v x).0 same) i in
        ground (arith, initial-has v x i)
    | inr different ↦
        let first : In p (preds v) = subst (In p) (sym split) (In-head p ps) in
        let shared =
          in_all-elim (initial_dominators reachable entry) (preds v) x p (ground arith) first in
        let ix = initial-bounded p x (flow.inside_preds p v first) shared in
        ground (arith, initial-has v x i)
  ]

  initial-Good : In entry reachable → IsGood (initial_dominators reachable entry)
  unfolding initial_dominators
  initial-Good ie = record {
    total = λ v i. (if text_eq v entry then v ∷ [] else reachable, rw i refl);
    start = λ x. ground (arith, initial-has entry x ie, text_eq_refl entry);
    bounded = initial-bounded;
    above = initial-above;
    shrinks = initial-shrinks;
  }

  pub fixpoint-Solved :
      (labels : List Bytes)
      → In entry reachable
      → ((v : Bytes) → In v labels → In v reachable)
      → Solved labels (
          fixpoint_loop preds entry
            (fixpoint_fuel reachable)
            labels
            (initial_dominators reachable entry))
  fixpoint-Solved labels ie inside =
      fixpoint_loop-Solved (fixpoint_fuel reachable) labels (initial_dominators reachable entry)
        (initial-Good ie) inside (size-bound (initial_dominators reachable entry))
