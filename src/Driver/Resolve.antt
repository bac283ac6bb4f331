-- ===== src/Driver/Resolve.antt =====
-- compiler/driver/build_graph.cpp: `ResolveImportPathWithPackageRules`. A path is its generic string; what the
-- code asks of the file system and of its caller is a parameter.
pub mod Access
use mathlib.Core.Option
use c_modern.Common.{
  Bool, true, false, not, ◌&&◌, List, [], ◌∷◌, ◌++◌, Option, none, some, Bytes, codes, text_eq,
  if◌then◌else◌,
}
use c_modern.Common.Sets.{contains}
use c_modern.Support.Span.{SourceSpan}
use c_modern.Support.Diagnostics.{DiagnosticSeverity, Diagnostic, DiagnosticSink, report}
use c_modern.Support.Imports.{unresolved, ambiguous}

-- `ast::SourceFile::ModuleKind`
pub data ModuleKind : Type 0 where
  k_ordinary k_internal : ModuleKind

abbrev pub is_internal : ModuleKind → Bool
is_internal ModuleKind.k_ordinary = false
is_internal ModuleKind.k_internal = true

pub record CompileImport : Type 0 where
  pub module_name : Bytes
  pub artifact_key : Bytes
  pub package_identity : Bytes
  pub source_path : Bytes
  pub source_paths : List Bytes
  pub module_kind : ModuleKind

pub record ResolvedModuleSource : Type 0 where
  pub module_name : Bytes
  pub artifact_key : Bytes
  pub primary_source_path : Bytes
  pub source_paths : List Bytes
  pub package_identity : Option Bytes
  pub module_kind : ModuleKind

-- `std::filesystem`, and the two functions that the caller hands over: `candidate root name` is the
-- normal form of the absolute path of `root / (name + ".mc")`, `normal` that of a path.
pub record Sources : Type 0 where
  pub candidate : Bytes → Bytes → Bytes
  pub normal : Bytes → Bytes
  pub exists : Bytes → Bool
  pub filename : Bytes → Bytes
  pub package_identity_for_source : Option (Bytes → Option Bytes)
  pub known_module_sources : Option (Bytes → List CompileImport)

-- `matches`, `seen_matches` and `rejected_internal_reason`.
pub record Matches : Type 0 where
  pub matches : List ResolvedModuleSource
  pub seen_matches : List Bytes
  pub rejected_internal_reason : Option Bytes

-- A string that is empty where there is no package.
abbrev pub optional_identity : Bytes → Option Bytes
optional_identity [] = none
optional_identity (ch ∷ text) = some (ch ∷ text)

abbrev pub no_direct : Bytes → Bytes
no_direct module_name =
    codes "direct source mode does not support importing internal module: " ++ module_name

abbrev pub no_package : Bytes → Bytes
no_package path = codes "unable to determine package identity for internal module: " ++ path

abbrev pub other_package : Bytes → Bytes → Bytes → Bytes
other_package module_name owner importer_package =
    codes "module "
    ++ (module_name
        ++ (codes " is internal to package '"
            ++ (owner
                ++ (codes "' and cannot be imported from package '"
                    ++ (importer_package ++ codes "'")))))

-- Why an internal module may not be imported.
unfoldable pub rejection : Bytes → Option Bytes → ResolvedModuleSource → Option Bytes
unfolding text_eq
rejection module_name none match = some (no_direct module_name)
rejection module_name (some importer_package) match = elim match.package_identity [
  | none ↦ some (no_package match.primary_source_path)
  | some owner ↦
      if text_eq owner importer_package
      then none
      else some (other_package module_name owner importer_package)
]

abbrev pub keep_match : Matches → ResolvedModuleSource → Option Bytes → Matches
keep_match seen match none = record seen { matches = seen.matches ++ match ∷ [] }
keep_match seen match (some reason) = record seen { rejected_internal_reason = some reason }

-- The lambda `append_match`.
unfoldable pub append_match : Bytes → Option Bytes → ResolvedModuleSource → Matches → Matches
unfolding contains rejection
append_match module_name importer_package match found =
    if contains found.seen_matches match.primary_source_path
    then found
    else (let seen = record found {
      seen_matches = match.primary_source_path ∷ found.seen_matches;
    } in
        keep_match seen match (
          if is_internal match.module_kind
          then rejection module_name importer_package match
          else none))

abbrev pub of_known : CompileImport → ResolvedModuleSource
of_known known = record {
  module_name = known.module_name;
  artifact_key = known.artifact_key;
  primary_source_path = known.source_path;
  source_paths = known.source_paths;
  package_identity = optional_identity known.package_identity;
  module_kind = known.module_kind;
}

-- The two loops.
unfoldable pub append_known : Bytes → Option Bytes → List CompileImport → Matches → Matches
unfolding append_match
append_known module_name importer_package [] found = found
append_known module_name importer_package (known ∷ rest) found =
    append_known module_name importer_package rest
      (append_match module_name importer_package (of_known known) found)

abbrev pub no_matches : Matches
no_matches = record { matches = []; seen_matches = []; rejected_internal_reason = none }

module _ (sources : Sources) where
  -- `package_identity_for_source ? package_identity_for_source(path) : std::nullopt`
  abbrev pub identity_of : Bytes → Option Bytes
  identity_of path = elim sources.package_identity_for_source [
    | none ↦ none
    | some identity ↦ identity path
  ]

  abbrev pub known_of : Bytes → List CompileImport
  known_of module_name = elim sources.known_module_sources [
    | none ↦ []
    | some known ↦ known module_name
  ]

  -- `IsInternalModulePath`
  unfoldable pub kind_of_path : Bytes → ModuleKind
  unfolding text_eq
  kind_of_path path =
      if text_eq (sources.filename path) (codes "internal.mc")
      then ModuleKind.k_internal
      else ModuleKind.k_ordinary

  abbrev pub of_candidate : Bytes → Bytes → ResolvedModuleSource
  of_candidate module_name path = record {
    module_name = module_name;
    artifact_key = path;
    primary_source_path = path;
    source_paths = path ∷ [];
    package_identity = identity_of path;
    module_kind = kind_of_path path;
  }

  unfoldable pub append_roots : Bytes → Option Bytes → List Bytes → Matches → Matches
  unfolding append_match kind_of_path
  append_roots module_name importer_package [] found = found
  append_roots module_name importer_package (root ∷ roots) found =
      let path = sources.candidate root module_name in
      append_roots module_name importer_package roots (
        if sources.exists path
        then append_match module_name importer_package (of_candidate module_name path) found
        else found)

  unfoldable pub all_matches : Bytes → List Bytes → Option Bytes → Matches
  unfolding append_known append_roots
  all_matches module_name search_roots importer_package =
      append_roots module_name importer_package search_roots
        (append_known module_name importer_package (known_of module_name) no_matches)

-- The report of a module without a match.
abbrev pub rejected : Bytes → Bytes → SourceSpan → Option Bytes → Diagnostic
rejected importer_path module_name span none = unresolved importer_path module_name span
rejected importer_path module_name span (some reason) = record {
  file_path = importer_path;
  span = span;
  severity = DiagnosticSeverity.k_error;
  message = reason;
}

abbrev pub paths_of : List ResolvedModuleSource → List Bytes
paths_of [] = []
paths_of (match ∷ matches) = match.primary_source_path ∷ paths_of matches

-- What follows the loops.
unfoldable pub choose_source :
    Bytes
    → Bytes
    → SourceSpan
    → DiagnosticSink
    → Option Bytes
    → List ResolvedModuleSource
    → Option ResolvedModuleSource × DiagnosticSink
unfolding report
choose_source importer_path module_name span sink reason [] =
    (none, report (rejected importer_path module_name span reason) sink)
choose_source importer_path module_name span sink reason (match ∷ []) = (some match, sink)
choose_source importer_path module_name span sink reason (match ∷ other ∷ matches) = (
  none,
  report (ambiguous importer_path module_name (paths_of (match ∷ other ∷ matches)) span) sink,
)

unfoldable pub resolve_import_path_with_package_rules :
    Sources
    → Bytes
    → Bytes
    → List Bytes
    → Option Bytes
    → DiagnosticSink
    → SourceSpan
    → Option ResolvedModuleSource × DiagnosticSink
unfolding all_matches choose_source
resolve_import_path_with_package_rules sources importer_path module_name search_roots
      importer_package sink span =
    let found = all_matches sources module_name search_roots importer_package in
    choose_source importer_path module_name span sink found.rejected_internal_reason found.matches
