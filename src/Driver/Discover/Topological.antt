-- ===== src/Driver/Discover/Topological.antt =====
-- A graph that was found is in topological order.
use mathlib.Core.Option
use c_modern.Common.{
  ℕ, zero, suc, Bool, true, false, ◌&&◌, List, [], ◌∷◌, Option, none, some, Bytes, ◌≡◌, refl, inl,
  inr, Option-cases, if_cases, subst,
}
use c_modern.Common.Sets.{contains, In}
use c_modern.Support.Diagnostics.{DiagnosticSink}
use c_modern.Driver.Resolve.{CompileImport, ResolvedModuleSource, Sources, identity_of, is_internal}
use c_modern.Driver.Discover.{
  Parser, Search, visit_imports, give_up, is_none, close_module, visit_parsed, discover_step,
  discover_module_graph_recursive, or_else,
}
use c_modern.Driver.Discover.Ordered.{keys_of, Ordered, no_nodes, Grown-refl}
use c_modern.Driver.Discover.Sound.{
  IsConsistent, Grows, IsSound, visit_imports-Grown, closed, closed-Grown, closed-done,
}

module _ {R : Type 0} (parser : Parser R) (sources : Sources)
    (import_roots external : List Bytes) where
  abbrev Good : Search R → Type 0
  Good = IsConsistent parser sources import_roots external

  -- What a call that ends with true leaves.
  abbrev Done : ResolvedModuleSource → Search R → Search R → Type 0
  Done source s s' =
      Grows parser sources import_roots external s s' × In source.artifact_key s'.visited

  closed_cases :
      (source : ResolvedModuleSource) (identity : Option Bytes) (parsed : R)
      (o : Option (Option (List CompileImport) × Search R)) (s' : Search R)
      → Option.map (close_module parser sources import_roots external source identity parsed) o
        ≡ some (true, s')
      → (imports : List CompileImport) × (s1 : Search R) × (o ≡ some (some imports, s1))
        × ((close_module parser sources import_roots external source identity parsed
              (some imports, s1)).1
            ≡ s')
  unfolding close_module
  closed_cases source identity parsed none s' h = absurd cc
  closed_cases source identity parsed (some (none, s1)) s' h = absurd cc
  closed_cases source identity parsed (some (some imports, s1)) s' h = (imports, s1, refl, cc)

  visit_parsed-Done :
      (next : ResolvedModuleSource → Search R → Option (Bool × Search R))
      (source : ResolvedModuleSource) (parsed : R) (s entered s' : Search R)
      → IsSound parser sources import_roots external next
      → Good entered
      → contains s.visited source.artifact_key ≡ false
      → contains s.visiting source.artifact_key ≡ false
      → entered.visited ≡ s.visited
      → entered.visiting ≡ source.artifact_key ∷ s.visiting
      → visit_parsed parser sources import_roots external next source parsed entered
        ≡ some (true, s')
      → Done source s s'
  unfolding visit_parsed closed
  visit_parsed-Done next source parsed s entered s' sound c new free same_visited same_visiting =
      let path = sources.normal source.primary_source_path in
      let identity = or_else source.package_identity (identity_of sources path) in
      if_cases (λ o. o ≡ some (true, s') → Done source s s')
        (is_internal source.module_kind && is_none identity) (λ _ h. absurd cc)
        (λ _ h.
          let (imports, s1, e, last) =
            closed_cases source identity parsed
              (visit_imports parser sources import_roots external next path identity
                (parser.imports_of parsed) [] entered)
              s' h in
          let (g, all) =
            visit_imports-Grown parser sources import_roots external next path identity
              (parser.imports_of parsed) [] imports entered s1 sound c tt e in
          subst (Done source s) last (
            closed-Grown parser sources import_roots external source identity parsed imports s
                entered s1 new free same_visited same_visiting g all,
            closed-done parser sources import_roots external source identity parsed imports s
                entered s1 new free same_visited same_visiting g all,
          ))

  discover_step-Done :
      (next : ResolvedModuleSource → Search R → Option (Bool × Search R))
      → IsSound parser sources import_roots external next
      → IsSound parser sources import_roots external
          (discover_step parser sources import_roots external next)
  unfolding discover_step
  discover_step-Done next sound source s s' c =
      if_cases (λ o. o ≡ some (true, s') → Done source s s')
        (contains s.visited source.artifact_key)
        (λ done h.
          let e : s ≡ s' = cc in
          subst (Done source s) e (Grown-refl parser sources import_roots external s c, done))
        (λ new.
          if_cases (λ o. o ≡ some (true, s') → Done source s s')
            (contains s.visiting source.artifact_key) (λ _ h. absurd cc)
            (λ free h.
              let answer = parser.parse_sources source.source_paths s.diagnostics in
              let entered = record s {
                diagnostics = answer.1;
                visiting = source.artifact_key ∷ s.visiting;
              } in
              elim (Option-cases answer.0) [
                | inl e ↦ absurd (
                    let bad : some (give_up source.artifact_key entered) ≡ some (true, s') =
                      (rw e at h) in
                    cc)
                | inr (parsed, e) ↦
                    visit_parsed-Done next source parsed s entered s' sound
                      (record { ordered = c.ordered; same = c.same }) new free refl refl (rw e at h)
              ]))

  discover-Done :
      (fuel : ℕ)
      → IsSound parser sources import_roots external
          (discover_module_graph_recursive parser sources import_roots external fuel)
  unfolding discover_module_graph_recursive
  discover-Done zero source s s' c h = absurd cc
  discover-Done (suc fuel) source s s' c h =
      discover_step-Done (discover_module_graph_recursive parser sources import_roots external fuel)
        (discover-Done fuel) source s s' c h

  abbrev pub empty_search : DiagnosticSink → Search R
  empty_search sink = record { diagnostics = sink; visiting = []; visited = []; nodes = [] }

  empty_search-Good : (sink : DiagnosticSink) → Good (empty_search sink)
  empty_search-Good sink = record { ordered = no_nodes; same = λ k. ((λ i. i), (λ i. i)) }

  -- When `DiscoverModuleGraphRecursive` succeeds from empty sets, every node of the graph has a key of its own, the imports of a
  -- node that are not external are nodes in front of it, the module asked for is a node, and no
  -- module is left in `visiting`.
  pub discover_module_graph_recursive-Ordered :
      (fuel : ℕ) (source : ResolvedModuleSource) (sink : DiagnosticSink) (s : Search R)
      → discover_module_graph_recursive parser sources import_roots external fuel source
          (empty_search sink)
        ≡ some (true, s)
      → Ordered sources external s.nodes
        × In source.artifact_key (keys_of s.nodes)
        × (s.visiting ≡ [])
  discover_module_graph_recursive-Ordered fuel source sink s h =
      let (g, done) = discover-Done fuel source (empty_search sink) s (empty_search-Good sink) h in
      (g.consistent.ordered, (g.consistent.same source.artifact_key).0 done, g.visiting)
