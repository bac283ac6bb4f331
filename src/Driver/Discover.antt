-- ===== src/Driver/Discover.antt =====
-- compiler/driver/build_graph.cpp: `DiscoverModuleGraphRecursive` and `AssertCompileGraphTopologicalOrder`. The parser is a
-- parameter: the sources of a module give a result with its imports, or none, and reports.
pub mod Ordered
pub mod Sound
pub mod Topological
pub mod Asserted
pub mod Ends
use mathlib.Core.Option
use c_modern.Common.{
  ℕ, zero, suc, ◌+◌, Bool, true, false, not, ◌&&◌, List, [], ◌∷◌, ◌++◌, Option, none, some, Bytes,
  codes, text_eq, ltb, if◌then◌else◌,
}
use c_modern.Common.Sets.{contains}
use c_modern.Support.Span.{SourceSpan, SourcePosition}
use c_modern.Support.Diagnostics.{DiagnosticSeverity, Diagnostic, DiagnosticSink, report}
use c_modern.Driver.Resolve.{
  ModuleKind, is_internal, CompileImport, ResolvedModuleSource, Sources, identity_of,
  resolve_import_path_with_package_rules,
}

abbrev pub origin : SourceSpan
origin = record { begin = record { line = 1; column = 1 }; end = record { line = 1; column = 1 } }

pub record ImportDecl : Type 0 where
  pub module_name : Bytes
  pub span : SourceSpan

-- The parser as the search sees it: `ParseLogicalModuleSources`, and the imports of its result.
pub record Parser (R : Type 0) : Type 0 where
  pub parse_sources : List Bytes → DiagnosticSink → Option R × DiagnosticSink
  pub imports_of : R → List ImportDecl

pub record CompileNode (R : Type 0) : Type 0 where
  pub module_name : Bytes
  pub artifact_key : Bytes
  pub package_identity : Bytes
  pub source_path : Bytes
  pub source_paths : List Bytes
  pub parse_result : R
  pub imports : List CompileImport

-- What the calls share: `diagnostics`, `visiting`, `visited` and `nodes`.
pub record Search (R : Type 0) : Type 0 where
  pub diagnostics : DiagnosticSink
  pub visiting : List Bytes
  pub visited : List Bytes
  pub nodes : List (CompileNode R)

abbrev pub value_or_empty : Option Bytes → Bytes
value_or_empty none = []
value_or_empty (some text) = text

abbrev pub compile_import : Bytes → ResolvedModuleSource → CompileImport
compile_import name found = record {
  module_name = name;
  artifact_key = found.artifact_key;
  package_identity = value_or_empty found.package_identity;
  source_path = found.primary_source_path;
  source_paths = found.source_paths;
  module_kind = found.module_kind;
}

abbrev pub error_at : Bytes → Bytes → Diagnostic
error_at path message = record {
  file_path = path;
  span = origin;
  severity = DiagnosticSeverity.k_error;
  message = message;
}

-- `visiting.erase(path_key)`
unfoldable pub erase_key : Bytes → List Bytes → List Bytes
unfolding text_eq
erase_key key [] = []
erase_key key (x ∷ xs) = let rest = erase_key key xs in if text_eq x key then rest else x ∷ rest

abbrev pub is_none {ℓ} : {A : Type ℓ} → Option A → Bool
is_none none = true
is_none (some _) = false

abbrev pub or_else {ℓ} : {A : Type ℓ} → Option A → Option A → Option A
or_else none other = other
or_else (some value) other = some value

module _ {R : Type 0} where
  -- `visiting.erase(path_key); return false;`
  abbrev pub give_up : Bytes → Search R → Bool × Search R
  give_up key s = (false, record s { visiting = erase_key key s.visiting })

  -- Behind the call for an import: a failure ends the loop.
  abbrev pub go_on :
      Option (Bool × Search R)
      → (Search R → Option (Option (List CompileImport) × Search R))
      → Option (Option (List CompileImport) × Search R)
  go_on none rest = none
  go_on (some (false, s)) rest = some (none, s)
  go_on (some (true, s)) rest = rest s

module _ {R : Type 0} (parser : Parser R) (sources : Sources)
    (import_roots external_module_paths : List Bytes) where
  -- The loop over the imports of a module; `next` is the call for an imported module. It returns the
  -- imports of the node, or none where the module fails; the outer `none` means that the fuel ran out.
  unfoldable pub visit_imports :
      (ResolvedModuleSource → Search R → Option (Bool × Search R))
      → Bytes
      → Option Bytes
      → List ImportDecl
      → List CompileImport
      → Search R
      → Option (Option (List CompileImport) × Search R)
  unfolding contains resolve_import_path_with_package_rules
  visit_imports next path identity [] imports s = some (some imports, s)
  visit_imports next path identity (decl ∷ decls) imports s =
      let (found, sink) =
        resolve_import_path_with_package_rules sources path decl.module_name import_roots identity
          s.diagnostics decl.span in
      let reported = record s { diagnostics = sink } in
      elim found [
        | none ↦ some (none, reported)
        | some source ↦
            let more = imports ++ compile_import decl.module_name source ∷ [] in
            go_on
              (if contains external_module_paths (sources.normal source.primary_source_path)
                then some (true, reported)
                else next source reported)
              (λ s'. visit_imports next path identity decls more s')
      ]

  abbrev pub make_node :
      ResolvedModuleSource → Option Bytes → R → List CompileImport → CompileNode R
  make_node source identity parsed imports = record {
    module_name = source.module_name;
    artifact_key = source.artifact_key;
    package_identity = value_or_empty identity;
    source_path = sources.normal source.primary_source_path;
    source_paths = source.source_paths;
    parse_result = parsed;
    imports = imports;
  }

  -- What follows the loop: `visited.insert`, `visiting.erase` and `nodes.push_back`.
  unfoldable pub close_module :
      ResolvedModuleSource
      → Option Bytes
      → R
      → Option (List CompileImport) × Search R
      → Bool × Search R
  unfolding erase_key
  close_module source identity parsed (none, s) = give_up source.artifact_key s
  close_module source identity parsed (some imports, s) = (
    true,
    record {
      diagnostics = s.diagnostics;
      visiting = erase_key source.artifact_key s.visiting;
      visited = source.artifact_key ∷ s.visited;
      nodes = s.nodes ++ make_node source identity parsed imports ∷ [];
    },
  )

  -- A module behind its parsing.
  unfoldable pub visit_parsed :
      (ResolvedModuleSource → Search R → Option (Bool × Search R))
      → ResolvedModuleSource
      → R
      → Search R
      → Option (Bool × Search R)
  unfolding visit_imports close_module report
  visit_parsed next source parsed s =
      let path = sources.normal source.primary_source_path in
      let identity = or_else source.package_identity (identity_of sources path) in
      if is_internal source.module_kind && is_none identity
      then some (
          give_up source.artifact_key (record s {
            diagnostics =
                report
                  (error_at path
                    (codes "direct source mode does not support internal module roots"))
                  s.diagnostics;
          }))
      else Option.map (close_module source identity parsed)
          (visit_imports next path identity (parser.imports_of parsed) [] s)

  -- The body of `DiscoverModuleGraphRecursive`.
  unfoldable pub discover_step :
      (ResolvedModuleSource → Search R → Option (Bool × Search R))
      → ResolvedModuleSource
      → Search R
      → Option (Bool × Search R)
  unfolding contains visit_parsed report erase_key
  discover_step next source s =
      let key = source.artifact_key in
      if contains s.visited key
      then some (true, s)
      else if contains s.visiting key
      then some (
        false,
        record s {
          diagnostics =
              report
                (error_at (sources.normal source.primary_source_path)
                  (codes "import cycle detected involving module: " ++ source.module_name))
                s.diagnostics;
        },
      )
      else (let (parsed, sink) = parser.parse_sources source.source_paths s.diagnostics in
          let entered = record s { diagnostics = sink; visiting = key ∷ s.visiting } in
          elim parsed [
            | none ↦ some (give_up key entered)
            | some result ↦ visit_parsed next source result entered
          ])

  -- `DiscoverModuleGraphRecursive`; `none` means that the fuel ran out.
  unfoldable pub discover_module_graph_recursive :
      ℕ → ResolvedModuleSource → Search R → Option (Bool × Search R)
  unfolding discover_step
  discover_module_graph_recursive zero source s = none
  discover_module_graph_recursive (suc fuel) source s =
      discover_step (discover_module_graph_recursive fuel) source s

-- `AssertCompileGraphTopologicalOrder`: `emplace` keeps the first index of a key.
abbrev pub is_before : Option ℕ → ℕ → Bool
is_before none index = true
is_before (some i) index = ltb i index

module _ {R : Type 0} where
  unfoldable pub find_index : List (CompileNode R) → Bytes → Option ℕ
  unfolding text_eq
  find_index [] key = none
  find_index (node ∷ nodes) key =
      if text_eq node.artifact_key key then some 0 else Option.map suc (find_index nodes key)

  unfoldable pub all_before : List (CompileNode R) → ℕ → List CompileImport → Bool
  unfolding find_index
  all_before graph index [] = true
  all_before graph index (import ∷ imports) =
      is_before (find_index graph import.artifact_key) index && all_before graph index imports

  unfoldable pub assert_topological : List (CompileNode R) → ℕ → List (CompileNode R) → Bool
  unfolding all_before
  assert_topological graph index [] = true
  assert_topological graph index (node ∷ nodes) =
      all_before graph index node.imports && assert_topological graph (suc index) nodes

  -- The assertion holds at every import of every node.
  unfoldable pub assert_compile_graph_topological_order : List (CompileNode R) → Bool
  unfolding assert_topological
  assert_compile_graph_topological_order nodes = assert_topological nodes 0 nodes
