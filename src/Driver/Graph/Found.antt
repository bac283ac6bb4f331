-- ===== src/Driver/Graph/Found.antt =====
-- The whole search for the modules of a build.
use c_modern.Common.{ℕ, ◌+◌, Bool, true, false, List, Option, none, some, Bytes, length, ◌≡◌}
use c_modern.Common.Sets.{In}
use c_modern.Support.Diagnostics.{DiagnosticSink}
use c_modern.Driver.Resolve.{ResolvedModuleSource, Sources}
use c_modern.Driver.Discover.{Parser, CompileNode, Search, discover_module_graph_recursive}
use c_modern.Driver.Discover.Ordered.{keys_of, Ordered}
use c_modern.Driver.Discover.Topological.{empty_search, discover_module_graph_recursive-Ordered}
use c_modern.Driver.Discover.Ends.{Closed, discover_module_graph_recursive-total}
use c_modern.Driver.Graph.{entry_module_of, graph_of, discover_module_graph}

-- A result: no graph, or one in order with the entry in it.
pub data Result {R : Type 0} (sources : Sources) (external : List Bytes) (entry : Bytes)
    : Option (Option (List (CompileNode R)) × DiagnosticSink) → Type 0 where
  no_graph : (sink : DiagnosticSink) → Result sources external entry (some (none, sink))
  graph :
      (nodes : List (CompileNode R)) (sink : DiagnosticSink)
      → Ordered sources external nodes
      → In entry (keys_of nodes)
      → Result sources external entry (some (some nodes, sink))

module _ {R : Type 0} (parser : Parser R) (sources : Sources)
    (import_roots external universe : List Bytes) (stem : Bytes → Bytes) where
  search_Result :
      (fuel : ℕ) (source : ResolvedModuleSource) (sink : DiagnosticSink) (r : Bool × Search R)
      → discover_module_graph_recursive parser sources import_roots external fuel source
          (empty_search parser sources import_roots external sink)
        ≡ some r
      → Result sources external source.artifact_key
          (some (graph_of parser sources import_roots external stem r))
  search_Result fuel source sink (false, s) h = no_graph s.diagnostics
  search_Result fuel source sink (true, s) h =
      let (ordered, found, free) =
        discover_module_graph_recursive-Ordered parser sources import_roots external fuel source
          sink s h in
      graph s.nodes s.diagnostics ordered found

  -- Where each import resolves to a module of a finite list that the entry module is in too, `DiscoverModuleGraph` ends, with no
  -- graph or with one that has the entry module, each module once, and each import that is not
  -- external in front of the modules that import it.
  pub discover_module_graph-Result :
      (path : Bytes) (sink : DiagnosticSink)
      → Closed sources import_roots universe
      → In
          ((entry_module_of parser sources import_roots external stem
            (sources.normal path)).artifact_key)
          universe
      → Result sources external
          ((entry_module_of parser sources import_roots external stem
            (sources.normal path)).artifact_key)
          (discover_module_graph parser sources import_roots external stem
            (length universe + 1)
            path
            sink)
  unfolding discover_module_graph
  discover_module_graph-Result path sink finite i =
      let source =
        entry_module_of parser sources import_roots external stem (sources.normal path) in
      let (r, e) =
        discover_module_graph_recursive-total parser sources import_roots external universe finite
          source sink i in
      rw e (search_Result (length universe + 1) source sink r e)
