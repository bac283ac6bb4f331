-- ===== src/Mir/Dominance/Order/Members.antt =====
-- The order of the blocks holds the labels that the control flow reaches, and no other.
use c_modern.Common.{
  ℕ, zero, suc, Bool, true, false, List, [], ◌∷◌, ◌++◌, Option, none, some, Bytes, ◌≡◌, refl, sym,
  ap, ◌⊎◌, inl, inr, ◌↔◌, subst, if_cases,
}
use c_modern.Mir.Function.{TerminatorKind, Terminator, BasicBlock}
use c_modern.Common.Sets.{
  contains, In, In-head, In-tail, In-cons, not-In-nil, In-append, In-append_left, In-append_right,
}
use c_modern.Mir.Structure.{find_block, pushed, successors}
use c_modern.Mir.Structure.Reach.{Reachable}
use c_modern.Mir.Structure.Reach.Exact.{Inv, Inv-start, Inv-skip, Inv-visit, complete}
use c_modern.Mir.Dominance.{jumps, children, unprocessed, order_loop}

-- The unprocessed and the processed labels of a stack.
waiting_of : List (Bytes × Bool) → List Bytes
waiting_of [] = []
waiting_of ((label, true) ∷ stack) = waiting_of stack
waiting_of ((label, false) ∷ stack) = label ∷ waiting_of stack

open_of : List (Bytes × Bool) → List Bytes
open_of [] = []
open_of ((label, true) ∷ stack) = label ∷ open_of stack
open_of ((label, false) ∷ stack) = open_of stack

waiting_of-unprocessed :
    (labels : List Bytes) (stack : List (Bytes × Bool))
    → waiting_of (unprocessed labels ++ stack) ≡ labels ++ waiting_of stack
unfolding waiting_of
waiting_of-unprocessed [] stack = refl
waiting_of-unprocessed (label ∷ labels) stack =
    ap (λ xs. label ∷ xs) (waiting_of-unprocessed labels stack)

open_of-unprocessed :
    (labels : List Bytes) (stack : List (Bytes × Bool))
    → open_of (unprocessed labels ++ stack) ≡ open_of stack
unfolding open_of
open_of-unprocessed [] stack = refl
open_of-unprocessed (label ∷ labels) stack = open_of-unprocessed labels stack

In-swap : (v x y : Bytes) → In v (x ∷ y ∷ []) → In v (y ∷ x ∷ [])
In-swap v x y h = elim (In-cons v x (y ∷ []) h) [
  | inl e ↦ subst (λ z. In z (y ∷ x ∷ [])) e (In-tail x y (x ∷ []) (In-head x []))
  | inr t ↦ elim (In-cons v y [] t) [
    | inl e ↦ subst (λ z. In z (y ∷ x ∷ [])) e (In-head y (x ∷ []))
    | inr n ↦ absurd (not-In-nil v n)
  ]
]

-- The two traversals put the same labels on their stacks, in another order.
jumps_iff : (k : TerminatorKind) (t : Terminator) (v : Bytes) → In v (jumps k t) ↔ In v (pushed k t)
jumps_iff TerminatorKind.k_cond_branch t v =
    (In-swap v t.true_target t.false_target, In-swap v t.false_target t.true_target)
jumps_iff TerminatorKind.k_branch t v = ((λ h. h), (λ h. h))
jumps_iff _ t v = ((λ h. h), (λ h. h))

pub children_iff : (o : Option BasicBlock) (v : Bytes) → In v (children o) ↔ In v (successors o)
children_iff none v = ((λ h. h), (λ h. h))
children_iff (some block) v = jumps_iff block.terminator.kind block.terminator v

In-append_map :
    (v : Bytes) (xs ys zs : List Bytes) → (In v xs → In v ys) → In v (xs ++ zs) → In v (ys ++ zs)
In-append_map v xs ys zs f h = elim (In-append v xs zs h) [
  | inl a ↦ In-append_left v ys zs (f a)
  | inr b ↦ In-append_right v ys zs b
]

module _ (blocks : List BasicBlock) (entry : Bytes) where
  Inv-same :
      (xs ys reached : List Bytes)
      → ((v : Bytes) → In v xs ↔ In v ys)
      → Inv blocks entry xs reached
      → Inv blocks entry ys reached
  Inv-same xs ys reached same i = record {
    waiting = λ v h. i.waiting v ((same v).1 h);
    sound = i.sound;
    started = elim i.started [ inl a ↦ inl a | inr b ↦ inr ((same entry).0 b) ];
    closed = λ u v h e. elim (i.closed u v h e) [ inl a ↦ inl a | inr b ↦ inr ((same v).0 b) ];
  }

  -- The labels visited are those placed and those on the stack.
  record Ordered (stack : List (Bytes × Bool)) (visited rpo : List Bytes) : Type 0 where
    inv : Inv blocks entry (waiting_of stack) visited
    kept : (v : Bytes) → In v visited → In v rpo ⊎ In v (open_of stack)
    from : (v : Bytes) → In v rpo ⊎ In v (open_of stack) → In v visited

  Ordered-place :
      (label : Bytes) (stack : List (Bytes × Bool)) (visited rpo : List Bytes)
      → Ordered ((label, true) ∷ stack) visited rpo
      → Ordered stack visited (label ∷ rpo)
  unfolding waiting_of open_of
  Ordered-place label stack visited rpo o = record {
    inv = o.inv;
    kept = λ v h. elim (o.kept v h) [
      | inl a ↦ inl (In-tail v label rpo a)
      | inr b ↦ elim (In-cons v label (open_of stack) b) [
        | inl e ↦ inl (subst (λ x. In x (label ∷ rpo)) e (In-head label rpo))
        | inr c ↦ inr c
      ]
    ];
    from = λ v h. elim h [
      | inl a ↦ elim (In-cons v label rpo a) [
        | inl e ↦ subst (λ x. In x visited) e (o.from label (inr (In-head label (open_of stack))))
        | inr b ↦ o.from v (inl b)
      ]
      | inr c ↦ o.from v (inr (In-tail v label (open_of stack) c))
    ];
  }

  Ordered-skip :
      (label : Bytes) (stack : List (Bytes × Bool)) (visited rpo : List Bytes)
      → In label visited
      → Ordered ((label, false) ∷ stack) visited rpo
      → Ordered stack visited rpo
  unfolding waiting_of open_of
  Ordered-skip label stack visited rpo seen o = record {
    inv = Inv-skip blocks entry label (waiting_of stack) visited seen o.inv;
    kept = o.kept;
    from = o.from;
  }

  Ordered-visit :
      (label : Bytes) (stack : List (Bytes × Bool)) (visited rpo : List Bytes)
      → Ordered ((label, false) ∷ stack) visited rpo
      → Ordered
          (unprocessed (children (find_block blocks label)) ++ (label, true) ∷ stack)
          (label ∷ visited)
          rpo
  unfolding waiting_of open_of
  Ordered-visit label stack visited rpo o =
      let found = find_block blocks label in
      let above = unprocessed (children found) in
      let all_open : open_of (above ++ (label, true) ∷ stack) ≡ label ∷ open_of stack =
        open_of-unprocessed (children found) ((label, true) ∷ stack) in
      let all_waiting : waiting_of (above ++ (label, true) ∷ stack)
          ≡ children found ++ waiting_of stack =
        waiting_of-unprocessed (children found) ((label, true) ∷ stack) in
      record {
        inv =
            subst (λ ws. Inv blocks entry ws (label ∷ visited)) (sym all_waiting)
              (Inv-same (successors found ++ waiting_of stack) (children found ++ waiting_of stack)
                (label ∷ visited)
                (λ v. (
                  In-append_map v (successors found) (children found) (waiting_of stack)
                      (children_iff found v).1,
                  In-append_map v (children found) (successors found) (waiting_of stack)
                      (children_iff found v).0,
                ))
                (Inv-visit blocks entry label (waiting_of stack) visited o.inv));
        kept =
            subst (λ xs. (v : Bytes) → In v (label ∷ visited) → In v rpo ⊎ In v xs) (sym all_open)
              (λ v h. elim (In-cons v label visited h) [
                | inl e ↦
                    inr
                      (subst (λ x. In x (label ∷ open_of stack)) e (In-head label (open_of stack)))
                | inr w ↦ elim (o.kept v w) [
                  | inl a ↦ inl a
                  | inr b ↦ inr (In-tail v label (open_of stack) b)
                ]
              ]);
        from =
            subst (λ xs. (v : Bytes) → In v rpo ⊎ In v xs → In v (label ∷ visited)) (sym all_open)
              (λ v h. elim h [
                | inl a ↦ In-tail v label visited (o.from v (inl a))
                | inr b ↦ elim (In-cons v label (open_of stack) b) [
                  | inl e ↦ subst (λ x. In x (label ∷ visited)) e (In-head label visited)
                  | inr c ↦ In-tail v label visited (o.from v (inr c))
                ]
              ]);
      }

  order_loop-Ordered :
      (fuel : ℕ) (stack : List (Bytes × Bool)) (visited rpo r : List Bytes)
      → Ordered stack visited rpo
      → order_loop blocks fuel stack visited rpo ≡ some r
      → (seen : List Bytes) × Ordered [] seen r
  unfolding order_loop
  order_loop-Ordered zero stack visited rpo r o = λ h. absurd cc
  order_loop-Ordered (suc fuel) [] visited rpo r o =
      λ h. let same : rpo ≡ r = cc in (visited, subst (Ordered [] visited) same o)
  order_loop-Ordered (suc fuel) ((label, true) ∷ stack) visited rpo r o =
      order_loop-Ordered fuel stack visited (label ∷ rpo) r
        (Ordered-place label stack visited rpo o)
  order_loop-Ordered (suc fuel) ((label, false) ∷ stack) visited rpo r o =
      if_cases (λ p. p ≡ some r → (seen : List Bytes) × Ordered [] seen r) (contains visited label)
        (λ seen.
          order_loop-Ordered fuel stack visited rpo r (Ordered-skip label stack visited rpo seen o))
        (λ _.
          order_loop-Ordered fuel
            (unprocessed (children (find_block blocks label)) ++ (label, true) ∷ stack)
            (label ∷ visited) rpo r (Ordered-visit label stack visited rpo o))

  Ordered-start : Ordered ((entry, false) ∷ []) [] []
  unfolding waiting_of open_of
  Ordered-start = record {
    inv = Inv-start blocks entry;
    kept = λ v h. absurd (not-In-nil v h);
    from = λ v h. elim h [ inl a ↦ a | inr b ↦ b ];
  }

  pub order_loop-exact :
      (fuel : ℕ) (r : List Bytes) (v : Bytes)
      → order_loop blocks fuel ((entry, false) ∷ []) [] [] ≡ some r
      → In v r ↔ Reachable blocks entry v
  unfolding waiting_of open_of
  order_loop-exact fuel r v h =
      let (seen, o) = order_loop-Ordered fuel ((entry, false) ∷ []) [] [] r Ordered-start h in
      (
        λ a. o.inv.sound v (o.from v (inl a)),
        λ path. elim (o.kept v (complete blocks entry o.inv path)) [
          | inl a ↦ a
          | inr b ↦ absurd (not-In-nil v b)
        ],
      )
