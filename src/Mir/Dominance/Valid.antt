-- ===== src/Mir/Dominance/Valid.antt =====
-- What `ValidateFunctionDominance` says of a function behind `ValidateFunctionStructure`.
use mathlib.Core.Option
use c_modern.Common.{
  true, List, [], ◌∷◌, some, Bytes, text_eq, text_eq_iff, ◌≡◌, refl, sym, ap, ◌∙◌, inl, inr, ◌↔◌,
  arith, Bool-cases, subst,
}
use c_modern.Mir.Function.{BasicBlock, Function}
use c_modern.Common.Sets.{In}
use c_modern.Mir.Structure.{Structure, validate_function_structure}
use c_modern.Mir.Structure.Checks.{Distinct}
use c_modern.Mir.Structure.Reach.{Reachable}
use c_modern.Mir.Structure.Valid.{
  Starts, validate_function_structure-ok, validate_function_structure-reachable,
}
use c_modern.Mir.Dominance.{
  Dominators, find_def, dominates, violation, check_uses, dominance_reports, reports_of,
  validate_function_dominance,
}
use c_modern.Mir.Dominance.Meet.{has}
use c_modern.Mir.Dominance.Routes.{
  Route, Dominates, Route-last, find_dominators-total, find_dominators-Dominates,
}
use c_modern.Mir.Dominance.Clean.{Uses, used, later, silent_use, uses_reported}

reports_from :
    (name : Bytes) (blocks : List BasicBlock) (reachable : List Bytes) (entry : Bytes)
    → Starts blocks entry
    → reports_of name blocks reachable ≡ dominance_reports name blocks reachable entry
unfolding reports_of
reports_from name [] reachable entry start = absurd start
reports_from name (block ∷ blocks) reachable entry start =
    ap (dominance_reports name (block ∷ blocks) reachable) start

reports_end :
    (name : Bytes) (blocks : List BasicBlock) (reachable : List Bytes)
    → ((entry v : Bytes) → Starts blocks entry → In v reachable ↔ Reachable blocks entry v)
    → (reports : List Bytes) × (reports_of name blocks reachable ≡ some reports)
unfolding reports_of dominance_reports
reports_end name [] reachable exact = ([], refl)
reports_end name (block ∷ blocks) reachable exact =
    let (d, e) =
      find_dominators-total (block ∷ blocks) block.label reachable
        (λ v. exact block.label v refl) in
    (
      check_uses name (find_def (block ∷ blocks) reachable) d (block ∷ blocks) reachable,
      ap
          (Option.map (λ d.
            check_uses name (find_def (block ∷ blocks) reachable) d (block ∷ blocks) reachable))
          e,
    )

-- Behind `ValidateFunctionStructure`, whatever it reports, both loops of `ValidateFunctionDominance` end within their fuel.
pub validate_function_dominance-total :
    (f : Function) (s : Structure)
    → validate_function_structure f ≡ some s
    → (reports : List Bytes) × (validate_function_dominance f s.reachable ≡ some reports)
unfolding validate_function_dominance
validate_function_dominance-total f s h =
    reports_end f.name f.blocks s.reachable
      (λ entry v start. validate_function_structure-reachable f s entry v h start)

Uses-reachable :
    (reachable : List Bytes) (blocks : List BasicBlock) (operand use_block : Bytes)
    → Uses reachable blocks operand use_block
    → In use_block reachable
Uses-reachable reachable _ operand _ (used block blocks _ r i ne) = r
Uses-reachable reachable _ operand _ (later block blocks _ use_block u) =
    Uses-reachable reachable blocks operand use_block u

-- What the rest of a run knows: the sets, what they mean, and the reports that come of them.
record Run (f : Function) (reachable : List Bytes) (entry : Bytes) : Type 0 where
  sets : Dominators
  exact : (v d : Bytes) → In v reachable → (has sets v d ≡ true) ↔ Dominates f.blocks entry v d
  reports :
      validate_function_dominance f reachable
      ≡ some (check_uses f.name (find_def f.blocks reachable) sets f.blocks reachable)

labels-Distinct :
    (f : Function) (s : Structure)
    → validate_function_structure f ≡ some s
    → s.report.ok ≡ true
    → Distinct f.blocks
labels-Distinct f s h ok =
    let (s', e, verdict) = validate_function_structure-ok f in
    let same : s' ≡ s = cc in
    let (ne, w) = verdict.0 (subst (λ x. x.report.ok ≡ true) (sym same) ok) in w.distinct

run :
    (f : Function) (s : Structure) (entry : Bytes)
    → validate_function_structure f ≡ some s
    → s.report.ok ≡ true
    → Starts f.blocks entry
    → Run f s.reachable entry
unfolding validate_function_dominance dominance_reports
run f s entry h ok start =
    let (d, e, members) =
      find_dominators-Dominates f.blocks entry s.reachable
        (λ v. validate_function_structure-reachable f s entry v h start)
        (labels-Distinct f s h ok) in
    record {
      sets = d;
      exact = members;
      reports =
          reports_from f.name f.blocks s.reachable entry start
          ∙ ap
              (Option.map
                (λ d. check_uses f.name (find_def f.blocks s.reachable) d f.blocks s.reachable))
              e;
    }

-- When `ValidateFunctionStructure` reports success and `ValidateFunctionDominance` then reports nothing, every path of
-- jumps from the entry to a reachable block leads through the block that defines an operand that
-- the block uses, for every named operand that some reachable block defines.
pub validate_function_dominance-safe :
    (f : Function) (s : Structure) (entry operand use_block def_block : Bytes) (path : List Bytes)
    → validate_function_structure f ≡ some s
    → s.report.ok ≡ true
    → Starts f.blocks entry
    → validate_function_dominance f s.reachable ≡ some []
    → Uses s.reachable f.blocks operand use_block
    → find_def f.blocks s.reachable operand ≡ some def_block
    → Route f.blocks entry use_block path
    → In def_block path
unfolding dominates
validate_function_dominance-safe f s entry operand use_block def_block path h ok start silent uses
      defined route =
    let r = run f s entry h ok start in
    let nothing : check_uses f.name (find_def f.blocks s.reachable) r.sets f.blocks s.reachable
        ≡ [] =
      let both = sym r.reports ∙ silent in cc in
    let test : dominates r.sets def_block use_block ≡ true =
      silent_use f.name (find_def f.blocks s.reachable) r.sets s.reachable f.blocks operand
        use_block def_block nothing uses defined in
    elim (Bool-cases (text_eq def_block use_block)) [
      | inl same ↦
          subst (λ x. In x path) (sym ((text_eq_iff def_block use_block).0 same))
            (Route-last f.blocks entry route)
      | inr other ↦
          (r.exact use_block def_block
              (Uses-reachable s.reachable f.blocks operand use_block uses)).0
            (ground arith) path route
    ]

-- The use that a message of `ValidateFunctionDominance` is about: of a named operand in a reachable block, which
-- the block of its definition does not dominate.
pub record Violation (f : Function) (reachable : List Bytes) (entry message : Bytes) : Type 0 where
  pub operand : Bytes
  pub use_block : Bytes
  pub def_block : Bytes
  pub uses : Uses reachable f.blocks operand use_block
  pub says : message ≡ violation f.name operand
  pub defined : find_def f.blocks reachable operand ≡ some def_block
  pub refuted : ¬ Dominates f.blocks entry use_block def_block

-- When `ValidateFunctionStructure` reports success, every message of `ValidateFunctionDominance` names an operand that some
-- reachable block uses although not every path from the entry to that block leads through the
-- block that defines the operand.
pub validate_function_dominance-Violation :
    (f : Function) (s : Structure) (entry message : Bytes) (reports : List Bytes)
    → validate_function_structure f ≡ some s
    → s.report.ok ≡ true
    → Starts f.blocks entry
    → validate_function_dominance f s.reachable ≡ some reports
    → In message reports
    → Violation f s.reachable entry message
unfolding dominates
validate_function_dominance-Violation f s entry message reports h ok start e i =
    let r = run f s entry h ok start in
    let same : reports
        ≡ check_uses f.name (find_def f.blocks s.reachable) r.sets f.blocks s.reachable =
      let both = sym e ∙ r.reports in cc in
    let v =
      uses_reported f.name (find_def f.blocks s.reachable) r.sets s.reachable f.blocks message
        (subst (In message) same i) in
    let there = Uses-reachable s.reachable f.blocks v.operand v.use_block v.uses in
    record {
      operand = v.operand;
      use_block = v.use_block;
      def_block = v.def_block;
      uses = v.uses;
      says = v.says;
      defined = v.defined;
      refuted = λ dom.
          let member = (r.exact v.use_block v.def_block there).1 dom in
          let bad = v.bad in ground arith;
    }
