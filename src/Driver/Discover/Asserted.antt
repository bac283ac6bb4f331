-- ===== src/Driver/Discover/Asserted.antt =====
-- The assertion about a graph that was found.
use c_modern.Common.{
  ℕ, suc, ◌+◌, ◌<◌, true, ◌&&◌, List, [], ◌∷◌, ◌++◌, some, Bytes, text_eq, text_eq_iff, length,
  append_assoc, append-nil, ◌≡◌, refl, sym, ap, ◌∙◌, inl, inr, arith, Bool-cases, subst,
}
use c_modern.Common.Sets.{contains, In, In-cons, not-In-nil}
use c_modern.Support.Diagnostics.{DiagnosticSink}
use c_modern.Driver.Resolve.{CompileImport, ResolvedModuleSource, Sources}
use c_modern.Driver.Discover.{
  Parser, CompileNode, Search, discover_module_graph_recursive, find_index, all_before,
  assert_topological, assert_compile_graph_topological_order,
}
use c_modern.Driver.Discover.Ordered.{keys_of, AllSeen, Ordered, no_nodes, added}
use c_modern.Driver.Discover.Topological.{empty_search, discover_module_graph_recursive-Ordered}

module _ {R : Type 0} (sources : Sources) where
  -- The first index of a key among the first nodes.
  find_index-front :
      (nodes more : List (CompileNode R)) (key : Bytes)
      → In key (keys_of nodes)
      → (i : ℕ) × (find_index (nodes ++ more) key ≡ some i) × (i < length nodes)
  unfolding find_index
  find_index-front [] more key h = absurd (not-In-nil key h)
  find_index-front (node ∷ nodes) more key h = elim (Bool-cases (text_eq node.artifact_key key)) [
    | inl same ↦ (0, rw same refl, omega arith)
    | inr other ↦ elim (In-cons key node.artifact_key (keys_of nodes) h) [
      | inl e ↦ let same = (text_eq_iff node.artifact_key key).1 e in absurd cc
      | inr rest ↦
          let (i, found, lt) = find_index-front nodes more key rest in
          (suc i, rw (other, found) refl, omega (arith, lt))
    ]
  ]

  all_before-front :
      (nodes more : List (CompileNode R)) (imports : List CompileImport)
      → AllSeen sources [] (keys_of nodes) imports
      → all_before (nodes ++ more) (length nodes) imports ≡ true
  unfolding all_before contains
  all_before-front nodes more [] h = refl
  all_before-front nodes more (import ∷ imports) (h, hs) = elim h [
    | inl bad ↦ absurd cc
    | inr i ↦
        let (index, found, lt) = find_index-front nodes more import.artifact_key i in
        rw found (ground (arith, lt, all_before-front nodes more imports hs))
  ]

  assert_topological-append :
      (graph : List (CompileNode R)) (index : ℕ) (xs ys : List (CompileNode R))
      → assert_topological graph index (xs ++ ys)
        ≡ (assert_topological graph index xs && assert_topological graph (index + length xs) ys)
  unfolding assert_topological
  assert_topological-append graph index [] ys =
      ap (λ i. assert_topological graph i ys) (omega arith)
  assert_topological-append graph index (x ∷ xs) ys =
      let step : suc index + length xs ≡ index + suc (length xs) = omega arith in
      let same = ap (λ i. assert_topological graph i ys) step in
      ground (arith, assert_topological-append graph (suc index) xs ys, same)

  Ordered-assert :
      (nodes more : List (CompileNode R))
      → Ordered sources [] nodes
      → assert_topological (nodes ++ more) 0 nodes ≡ true
  unfolding assert_topological
  Ordered-assert _ more no_nodes = refl
  Ordered-assert _ more (added nodes node ordered new seen) =
      let graph = (nodes ++ node ∷ []) ++ more in
      let same : graph ≡ nodes ++ node ∷ more = append_assoc nodes (node ∷ []) more in
      let before = Ordered-assert nodes (node ∷ more) ordered in
      let last = all_before-front nodes (node ∷ more) node.imports seen in
      subst (λ g. assert_topological g 0 (nodes ++ node ∷ []) ≡ true) (sym same)
        (assert_topological-append (nodes ++ node ∷ more) 0 nodes (node ∷ [])
          ∙ ground (arith, before, last))

module _ {R : Type 0} (parser : Parser R) (sources : Sources) (import_roots : List Bytes) where
  -- The assertion of `AssertCompileGraphTopologicalOrder` holds of every graph that `DiscoverModuleGraphRecursive` finds
  -- from empty sets, where no module is external.
  pub assert_compile_graph_topological_order-discover :
      (fuel : ℕ) (source : ResolvedModuleSource) (sink : DiagnosticSink) (s : Search R)
      → discover_module_graph_recursive parser sources import_roots [] fuel source
          (empty_search parser sources import_roots [] sink)
        ≡ some (true, s)
      → assert_compile_graph_topological_order s.nodes ≡ true
  unfolding assert_compile_graph_topological_order
  assert_compile_graph_topological_order-discover fuel source sink s h =
      let (ordered, found, free) =
        discover_module_graph_recursive-Ordered parser sources import_roots [] fuel source sink s
          h in
      let all = Ordered-assert sources s.nodes [] ordered in
      subst (λ g. assert_topological g 0 s.nodes ≡ true) (append-nil s.nodes) all
