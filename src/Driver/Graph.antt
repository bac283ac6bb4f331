-- ===== src/Driver/Graph.antt =====
-- compiler/driver/build_graph.cpp: the sources of a module, and `DiscoverModuleGraph` around the search. Of the graph,
-- the entry and the nodes: the other fields are copies of arguments.
pub mod Found
pub mod Canonical
use mathlib.Core.Option
use c_modern.Common.{
  ℕ, Bool, true, false, not, List, [], ◌∷◌, ◌++◌, Option, none, some, Bytes, codes, text_eq,
  text_eq_iff, if◌then◌else◌, ◌≡◌, refl, sym, ap, ◌∙◌, ◌⊎◌, inl, inr, ◌↔◌, arith, Bool-cases,
  if_cases, if_rule, subst,
}
use c_modern.Common.Sets.{contains, In, In-head, In-tail, In-cons, not-In-nil}
use c_modern.Support.Diagnostics.{DiagnosticSink}
use c_modern.Driver.Resolve.{
  ModuleKind, CompileImport, ResolvedModuleSource, Sources, identity_of, kind_of_path, known_of,
  of_known,
}
use c_modern.Driver.Discover.{Parser, CompileNode, Search, discover_module_graph_recursive}

-- `MakeModuleArtifactKey`
unfoldable pub make_module_artifact_key : Bytes → Bytes → Bytes
make_module_artifact_key [] module_name = module_name
make_module_artifact_key (ch ∷ identity) module_name =
    (ch ∷ identity) ++ (codes "::" ++ module_name)

-- The loop of `CanonicalizeModuleSourcePaths`; `seen` holds the paths of `normalized`.
unfoldable pub canonicalize_loop : (Bytes → Bytes) → List Bytes → List Bytes → List Bytes
unfolding contains
canonicalize_loop normal [] seen = []
canonicalize_loop normal (source_path ∷ source_paths) seen =
    let path = normal source_path in
    let skip = canonicalize_loop normal source_paths seen in
    let keep = path ∷ canonicalize_loop normal source_paths (path ∷ seen) in
    if contains seen path then skip else keep

unfoldable pub canonicalize_module_source_paths : (Bytes → Bytes) → List Bytes → List Bytes
unfolding canonicalize_loop
canonicalize_module_source_paths normal source_paths = canonicalize_loop normal source_paths []

-- `source_paths.front()` of a list that the callers never leave empty.
abbrev pub first_path : List Bytes → Bytes
first_path [] = []
first_path (path ∷ paths) = path

abbrev pub text_of_identity : Option Bytes → Bytes
text_of_identity none = []
text_of_identity (some identity) = identity

abbrev pub preferred_path : (Bytes → Bytes) → Option Bytes → List Bytes → Bytes
preferred_path normal none paths = first_path paths
preferred_path normal (some path) paths = normal path

-- `BuildResolvedModuleSource`
unfoldable pub build_resolved_module_source :
    (Bytes → Bytes)
    → Bytes
    → Option Bytes
    → List Bytes
    → ModuleKind
    → Option Bytes
    → ResolvedModuleSource
unfolding canonicalize_module_source_paths make_module_artifact_key
build_resolved_module_source normal module_name package_identity source_paths module_kind
      preferred =
    let paths = canonicalize_module_source_paths normal source_paths in
    record {
      module_name = module_name;
      artifact_key = make_module_artifact_key (text_of_identity package_identity) module_name;
      primary_source_path = preferred_path normal preferred paths;
      source_paths = paths;
      package_identity = package_identity;
      module_kind = module_kind;
    }

-- `std::any_of` over the paths of a known module.
unfoldable pub owns_entry : (Bytes → Bytes) → Bytes → List Bytes → Bool
unfolding text_eq
owns_entry normal entry [] = false
owns_entry normal entry (path ∷ paths) =
    let rest = owns_entry normal entry paths in if text_eq (normal path) entry then true else rest

-- The first known module that owns the entry takes its place.
unfoldable pub find_owner :
    (Bytes → Bytes) → Bytes → List CompileImport → ResolvedModuleSource → ResolvedModuleSource
unfolding owns_entry
find_owner normal entry [] entry_module = entry_module
find_owner normal entry (known ∷ rest) entry_module =
    let other = find_owner normal entry rest entry_module in
    if owns_entry normal entry known.source_paths then of_known known else other

module _ {R : Type 0} (parser : Parser R) (sources : Sources)
    (import_roots external_module_paths : List Bytes) (stem : Bytes → Bytes) where
  -- `entry_module`; `stem` is the method of a path.
  unfoldable pub entry_module_of : Bytes → ResolvedModuleSource
  unfolding find_owner kind_of_path
  entry_module_of normalized_entry =
      find_owner sources.normal normalized_entry (known_of sources (stem normalized_entry))
        (record {
          module_name = stem normalized_entry;
          artifact_key = normalized_entry;
          primary_source_path = normalized_entry;
          source_paths = normalized_entry ∷ [];
          package_identity = identity_of sources normalized_entry;
          module_kind = kind_of_path sources normalized_entry;
        })

  -- The result of the search: the nodes, where it succeeds.
  abbrev pub graph_of : Bool × Search R → Option (List (CompileNode R)) × DiagnosticSink
  graph_of (false, s) = (none, s.diagnostics)
  graph_of (true, s) = (some s.nodes, s.diagnostics)

  -- `DiscoverModuleGraph`; the outer `none` means that the fuel ran out.
  unfoldable pub discover_module_graph :
      ℕ → Bytes → DiagnosticSink → Option (Option (List (CompileNode R)) × DiagnosticSink)
  unfolding entry_module_of discover_module_graph_recursive
  discover_module_graph fuel entry_source_path diagnostics = Option.map graph_of (
      discover_module_graph_recursive parser sources import_roots external_module_paths fuel
        (entry_module_of (sources.normal entry_source_path))
        (record { diagnostics = diagnostics; visiting = []; visited = []; nodes = [] }))
