-- ===== src/Mir/Dominance/Clean.antt =====
-- The reports of `ValidateFunctionDominance` against the uses of operands.
use c_modern.Common.{
  true, false, List, [], ◌∷◌, ◌++◌, Option, some, Bytes, if◌then◌else◌, ◌≡◌, ◌≢◌, refl, sym, ◌⊎◌,
  inl, inr, Bool-cases, Option-cases, subst,
}
use c_modern.Mir.Function.{BasicBlock}
use c_modern.Common.Sets.{contains, In, In-head, In-tail, In-cons, not-In-nil}
use c_modern.Mir.Structure.{is_nil}
use c_modern.Mir.Dominance.{
  Dominators, dominates, violation, uses_of, check_operand_dominance, check_operands, check_uses,
}

-- A named operand that a reachable block uses, with the label of the block.
pub data Uses (reachable : List Bytes) : List BasicBlock → Bytes → Bytes → Type 0 where
  used :
      (block : BasicBlock) (blocks : List BasicBlock) (operand : Bytes)
      → In block.label reachable
      → In operand (uses_of block)
      → operand ≢ []
      → Uses reachable (block ∷ blocks) operand block.label
  later :
      (block : BasicBlock) (blocks : List BasicBlock) (operand use_block : Bytes)
      → Uses reachable blocks operand use_block
      → Uses reachable (block ∷ blocks) operand use_block

append_nil : (xs ys : List Bytes) → xs ++ ys ≡ [] → (xs ≡ []) × (ys ≡ [])
append_nil [] ys h = (refl, h)
append_nil (x ∷ xs) ys h = absurd cc

In-append_cases : (m : Bytes) (xs ys : List Bytes) → In m (xs ++ ys) → In m xs ⊎ In m ys
In-append_cases m [] ys h = inr h
In-append_cases m (x ∷ xs) ys h = elim (In-cons m x (xs ++ ys) h) [
  | inl e ↦ inl (subst (λ z. In z (x ∷ xs)) e (In-head x xs))
  | inr more ↦ elim (In-append_cases m xs ys more) [
    | inl a ↦ inl (In-tail m x xs a)
    | inr b ↦ inr b
  ]
]

module _ (name : Bytes) (defs : Bytes → Option Bytes) (dominators : Dominators) where
  operand_clean :
      (operand use_block def_block : Bytes)
      → check_operand_dominance name defs dominators operand use_block ≡ []
      → defs operand ≡ some def_block
      → dominates dominators def_block use_block ≡ true
  unfolding check_operand_dominance
  operand_clean operand use_block def_block h e =
      elim (Bool-cases (dominates dominators def_block use_block)) [
        | inl good ↦ good
        | inr bad ↦ absurd (
            let z : (violation name operand ∷ []) ≡ [] =
              (rw (e, bad, check_operand_dominance) at h) in
            cc)
      ]

  operands_clean :
      (operands : List Bytes) (operand use_block def_block : Bytes)
      → check_operands name defs dominators operands use_block ≡ []
      → In operand operands
      → operand ≢ []
      → defs operand ≡ some def_block
      → dominates dominators def_block use_block ≡ true
  unfolding check_operands
  operands_clean [] operand use_block def_block h i ne e = absurd (not-In-nil operand i)
  operands_clean (first ∷ operands) operand use_block def_block h i ne e =
      let (now, rest) =
        append_nil
          (if is_nil first
            then []
            else check_operand_dominance name defs dominators first use_block)
          (check_operands name defs dominators operands use_block) h in
      elim (In-cons operand first operands i) [
        | inl same ↦ operand_clean operand use_block def_block (named first now same) e
        | inr more ↦ operands_clean operands operand use_block def_block rest more ne e
      ]
    where
      named :
          (text : Bytes)
          → (if is_nil text
              then []
              else check_operand_dominance name defs dominators text use_block)
            ≡ []
          → text ≡ operand
          → check_operand_dominance name defs dominators operand use_block ≡ []
      named [] q same = absurd (ne (sym same))
      named (ch ∷ text) q same =
          subst (λ t. check_operand_dominance name defs dominators t use_block ≡ []) same q

  pub silent_use :
      (reachable : List Bytes) (blocks : List BasicBlock) (operand use_block def_block : Bytes)
      → check_uses name defs dominators blocks reachable ≡ []
      → Uses reachable blocks operand use_block
      → defs operand ≡ some def_block
      → dominates dominators def_block use_block ≡ true
  unfolding check_uses
  silent_use reachable _ operand _ def_block h (used block blocks _ r i ne) e =
      let (now, rest) =
        append_nil
          (if contains reachable block.label
            then check_operands name defs dominators (uses_of block) block.label
            else [])
          (check_uses name defs dominators blocks reachable) h in
      operands_clean (uses_of block) operand block.label def_block (rw r at now) i ne e
  silent_use reachable _ operand _ def_block h (later block blocks _ use_block u) e =
      let (now, rest) =
        append_nil
          (if contains reachable block.label
            then check_operands name defs dominators (uses_of block) block.label
            else [])
          (check_uses name defs dominators blocks reachable) h in
      silent_use reachable blocks operand use_block def_block rest u e

  -- What a report of an operand says.
  operand_reported :
      (operand use_block message : Bytes)
      → In message (check_operand_dominance name defs dominators operand use_block)
      → (def_block : Bytes) × (message ≡ violation name operand)
        × (defs operand ≡ some def_block)
        × (dominates dominators def_block use_block ≡ false)
  unfolding check_operand_dominance
  operand_reported operand use_block message i = elim (Option-cases (defs operand)) [
    | inl e ↦ absurd (not-In-nil message (rw (e, check_operand_dominance) at i))
    | inr (def_block, e) ↦ elim (Bool-cases (dominates dominators def_block use_block)) [
      | inl good ↦ absurd (not-In-nil message (rw (e, good, check_operand_dominance) at i))
      | inr bad ↦
          elim (In-cons message (violation name operand) []
            (rw (e, bad, check_operand_dominance) at i)) [
              | inl same ↦ (def_block, sym same, e, bad)
              | inr n ↦ absurd (not-In-nil message n)
            ]
    ]
  ]

  -- The operand that a report names, among some operands.
  record Reported (operands : List Bytes) (use_block message : Bytes) : Type 0 where
    operand : Bytes
    def_block : Bytes
    named : operand ≢ []
    among : In operand operands
    says : message ≡ violation name operand
    defined : defs operand ≡ some def_block
    bad : dominates dominators def_block use_block ≡ false

  first-Reported :
      (first : Bytes) (operands : List Bytes) (use_block message : Bytes)
      → In message (
          if is_nil first then [] else check_operand_dominance name defs dominators first use_block)
      → Reported (first ∷ operands) use_block message
  first-Reported [] operands use_block message i = absurd (not-In-nil message i)
  first-Reported (ch ∷ first) operands use_block message i =
      let (d, says, e, bad) = operand_reported (ch ∷ first) use_block message i in
      record {
        operand = ch ∷ first;
        def_block = d;
        named = λ z. cc;
        among = In-head (ch ∷ first) operands;
        says = says;
        defined = e;
        bad = bad;
      }

  operands-Reported :
      (operands : List Bytes) (use_block message : Bytes)
      → In message (check_operands name defs dominators operands use_block)
      → Reported operands use_block message
  unfolding check_operands
  operands-Reported [] use_block message i = absurd (not-In-nil message i)
  operands-Reported (first ∷ operands) use_block message i =
      elim (In-append_cases message
        (if is_nil first then [] else check_operand_dominance name defs dominators first use_block)
        (check_operands name defs dominators operands use_block) i) [
          | inl now ↦ first-Reported first operands use_block message now
          | inr rest ↦
              let r = operands-Reported operands use_block message rest in
              record {
                operand = r.operand;
                def_block = r.def_block;
                named = r.named;
                among = In-tail r.operand first operands r.among;
                says = r.says;
                defined = r.defined;
                bad = r.bad;
              }
        ]

  -- The use that a report is about.
  pub record Violated (reachable : List Bytes) (blocks : List BasicBlock) (message : Bytes)
      : Type 0 where
    pub operand : Bytes
    pub use_block : Bytes
    pub def_block : Bytes
    pub uses : Uses reachable blocks operand use_block
    pub says : message ≡ violation name operand
    pub defined : defs operand ≡ some def_block
    pub bad : dominates dominators def_block use_block ≡ false

  pub uses_reported :
      (reachable : List Bytes) (blocks : List BasicBlock) (message : Bytes)
      → In message (check_uses name defs dominators blocks reachable)
      → Violated reachable blocks message
  unfolding check_uses
  uses_reported reachable [] message i = absurd (not-In-nil message i)
  uses_reported reachable (block ∷ blocks) message i =
      elim (In-append_cases message
        (if contains reachable block.label
          then check_operands name defs dominators (uses_of block) block.label
          else [])
        (check_uses name defs dominators blocks reachable) i) [
          | inl now ↦ elim (Bool-cases (contains reachable block.label)) [
            | inr out ↦ absurd (not-In-nil message (rw out at now))
            | inl there ↦
                let r = operands-Reported (uses_of block) block.label message (rw there at now) in
                record {
                  operand = r.operand;
                  use_block = block.label;
                  def_block = r.def_block;
                  uses = used block blocks r.operand there r.among r.named;
                  says = r.says;
                  defined = r.defined;
                  bad = r.bad;
                }
          ]
          | inr rest ↦
              let r = uses_reported reachable blocks message rest in
              record {
                operand = r.operand;
                use_block = r.use_block;
                def_block = r.def_block;
                uses = later block blocks r.operand r.use_block r.uses;
                says = r.says;
                defined = r.defined;
                bad = r.bad;
              }
        ]
