-- ===== src/Tests/Driver.antt =====
-- compiler/driver/build_graph.cpp at three modules: main imports a and b, and a imports b.
use c_modern.Common.{
  Bool, true, List, [], ◌∷◌, ◌++◌, Option, none, some, Bytes, codes, text_eq, ◌≡◌, refl, map, ◌↔◌,
  if_cases, subst, if◌then◌else◌,
}
use c_modern.Common.Sets.{contains, In}
use c_modern.Driver.Resolve.{
  ModuleKind, ResolvedModuleSource, Sources, Matches, of_candidate, choose_source,
  resolve_import_path_with_package_rules,
}
use c_modern.Driver.Resolve.Access.{Resolution, resolve_import_path_with_package_rules-Resolution}
use c_modern.Driver.Discover.{
  origin, ImportDecl, Parser, Search, discover_module_graph_recursive,
  assert_compile_graph_topological_order,
}
use c_modern.Driver.Discover.Ordered.{keys_of}
use c_modern.Driver.Discover.Topological.{empty_search}
use c_modern.Driver.Discover.Asserted.{assert_compile_graph_topological_order-discover}
use c_modern.Driver.Discover.Ends.{Closed}
use c_modern.Driver.Graph.{canonicalize_module_source_paths, entry_module_of, discover_module_graph}
use c_modern.Driver.Graph.Canonical.{canonicalize_module_source_paths-NoRepeat}
use c_modern.Driver.Graph.Found.{Result, discover_module_graph-Result}
use c_modern.Support.Imports.Unique.{NoRepeat}

abbrev files : List Bytes
files = codes "r/main.mc" ∷ codes "r/a.mc" ∷ codes "r/b.mc" ∷ []

abbrev disk : Sources
disk = record {
  candidate = λ root name. root ++ (codes "/" ++ (name ++ codes ".mc"));
  normal = λ path. path;
  exists = contains files;
  filename = λ path. [];
  package_identity_for_source = none;
  known_module_sources = none;
}

abbrev import_of : Bytes → ImportDecl
import_of name = record { module_name = name; span = origin }

abbrev imports_at : List Bytes → List ImportDecl
imports_at [] = []
imports_at (path ∷ paths) =
    if text_eq path (codes "r/main.mc")
    then import_of (codes "a") ∷ import_of (codes "b") ∷ []
    else if text_eq path (codes "r/a.mc")
    then import_of (codes "b") ∷ []
    else []

abbrev reader : Parser (List ImportDecl)
reader = record {
  parse_sources = λ paths sink. (some (imports_at paths), sink);
  imports_of = λ decls. decls;
}

abbrev main_module : ResolvedModuleSource
main_module = record {
  module_name = codes "main";
  artifact_key = codes "r/main.mc";
  primary_source_path = codes "r/main.mc";
  source_paths = codes "r/main.mc" ∷ [];
  package_identity = none;
  module_kind = ModuleKind.k_ordinary;
}

abbrev roots : List Bytes
roots = codes "r" ∷ []

abbrev start : Search (List ImportDecl)
start = empty_search reader disk roots [] []

abbrev run : Option (Bool × Search (List ImportDecl))
unfolding discover_module_graph_recursive
run = discover_module_graph_recursive reader disk roots [] 4 main_module start

abbrev state_of : Option (Bool × Search (List ImportDecl)) → Search (List ImportDecl)
state_of none = start
state_of (some (ok, s)) = s

abbrev found : Search (List ImportDecl)
found = state_of run

succeeds :
    discover_module_graph_recursive reader disk roots [] 4 main_module start ≡ some (true, found)
unfolding discover_module_graph_recursive
succeeds = refl

in_order : keys_of found.nodes ≡ codes "r/b.mc" ∷ codes "r/a.mc" ∷ codes "r/main.mc" ∷ []
unfolding discover_module_graph_recursive
in_order = refl

assert_compile_graph_topological_order-discover_example :
    assert_compile_graph_topological_order found.nodes ≡ true
assert_compile_graph_topological_order-discover_example =
    assert_compile_graph_topological_order-discover reader disk roots 4 main_module [] found
      succeeds

resolve_import_path_with_package_rules-Resolution_example : Resolution none [] (
    resolve_import_path_with_package_rules disk
      (codes "r/main.mc")
      (codes "a")
      roots
      none
      []
      origin)
resolve_import_path_with_package_rules-Resolution_example =
    resolve_import_path_with_package_rules-Resolution disk (codes "r/main.mc") (codes "a") roots
      none [] origin

disk-Closed : Closed disk roots files
unfolding resolve_import_path_with_package_rules
disk-Closed = record {
  listed = λ path name identity sink span source h.
      let file = codes "r/" ++ (name ++ codes ".mc") in
      let none_found : Matches = record {
        matches = [];
        seen_matches = [];
        rejected_internal_reason = none;
      } in
      let one_found : Matches = record {
        matches = of_candidate disk name file ∷ [];
        seen_matches = file ∷ [];
        rejected_internal_reason = none;
      } in
      if_cases
        (λ (m : Matches).
          (choose_source path name span sink m.rejected_internal_reason m.matches).0 ≡ some source
          → In source.artifact_key files)
        (contains files file) {x = one_found} {y = none_found}
        (λ there e.
          let same : of_candidate disk name file ≡ source = cc in
          subst (λ (x : ResolvedModuleSource). In x.artifact_key files) same there)
        (λ _ e. absurd cc) h;
}

main_listed : In (codes "r/main.mc") files
unfolding contains
main_listed = refl

abbrev stem_of : Bytes → Bytes
stem_of path = codes "main"

discover_module_graph-Result_example :
    Result disk []
      (codes "r/main.mc")
      (discover_module_graph reader disk roots [] stem_of 4 (codes "r/main.mc") [])
unfolding entry_module_of
discover_module_graph-Result_example =
    discover_module_graph-Result reader disk roots [] files stem_of (codes "r/main.mc") []
      disk-Closed main_listed

canonicalize_module_source_paths-NoRepeat_example :
    NoRepeat (canonicalize_module_source_paths (λ path. path) files)
    × ((p : Bytes)
        → In p (canonicalize_module_source_paths (λ path. path) files)
          ↔ In p (map (λ path. path) files))
canonicalize_module_source_paths-NoRepeat_example =
    canonicalize_module_source_paths-NoRepeat (λ path. path) files
