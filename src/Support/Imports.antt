-- ===== src/Support/Imports.antt =====
-- compiler/support/diagnostics.cpp: `ResolveImportPathFromRoots` and `ResolveImportPath`. The file
-- system is a parameter: `candidate root name` is the normal form of the absolute path of
-- `root / (name + ".mc")` as a generic string, `is_file` is `std::filesystem::exists`, and
-- `parent_path` is the method of a path.
pub mod Unique
use c_modern.Common.{
  ℕ, Bool, true, false, not, ◌&&◌, List, [], ◌∷◌, ◌++◌, Option, none, some, Bytes, codes,
  if◌then◌else◌, ◌≡◌, ◌≢◌, refl, ◌⊎◌, inl, inr,
}
use c_modern.Common.Sets.{contains}
use c_modern.Support.Span.{SourceSpan}
use c_modern.Support.Diagnostics.{DiagnosticSeverity, Diagnostic, DiagnosticSink, report}

-- `JoinPaths`
unfoldable pub join_paths : List Bytes → Bytes
join_paths [] = []
join_paths (path ∷ []) = path
join_paths (path ∷ next ∷ paths) = path ++ (codes ", " ++ join_paths (next ∷ paths))

-- The two reports of a failed resolution.
abbrev pub unresolved : Bytes → Bytes → SourceSpan → Diagnostic
unresolved diagnostic_path module_name span = record {
  file_path = diagnostic_path;
  span = span;
  severity = DiagnosticSeverity.k_error;
  message = codes "unable to resolve import module: " ++ module_name;
}

abbrev pub ambiguous : Bytes → Bytes → List Bytes → SourceSpan → Diagnostic
ambiguous diagnostic_path module_name matches span = record {
  file_path = diagnostic_path;
  span = span;
  severity = DiagnosticSeverity.k_error;
  message =
      codes "ambiguous import module '"
      ++ (module_name ++ (codes "' matched multiple roots: " ++ join_paths matches));
}

module _ (candidate : Bytes → Bytes → Bytes) (is_file : Bytes → Bool) where
  -- The loop over the roots; `seen_matches` holds the matches found so far.
  unfoldable pub find_matches : Bytes → List Bytes → List Bytes → List Bytes
  unfolding contains
  find_matches module_name [] matches = matches
  find_matches module_name (root ∷ roots) matches =
      let path = candidate root module_name in
      let fresh = is_file path && not (contains matches path) in
      find_matches module_name roots (if fresh then matches ++ path ∷ [] else matches)

  -- What follows the loop.
  unfoldable pub choose_match :
      Bytes → Bytes → SourceSpan → DiagnosticSink → List Bytes → Option Bytes × DiagnosticSink
  unfolding report
  choose_match diagnostic_path module_name span sink [] =
      (none, report (unresolved diagnostic_path module_name span) sink)
  choose_match diagnostic_path module_name span sink (match ∷ []) = (some match, sink)
  choose_match diagnostic_path module_name span sink (match ∷ other ∷ matches) =
      (none, report (ambiguous diagnostic_path module_name (match ∷ other ∷ matches) span) sink)

  -- `ResolveImportPathFromRoots`
  unfoldable pub resolve_import_path_from_roots :
      Bytes → Bytes → List Bytes → DiagnosticSink → SourceSpan → Option Bytes × DiagnosticSink
  unfolding find_matches choose_match
  resolve_import_path_from_roots diagnostic_path module_name search_roots sink span =
      choose_match diagnostic_path module_name span sink (find_matches module_name search_roots [])

  -- `ResolveImportPath`: the importer's own directory comes before the import roots.
  unfoldable pub resolve_import_path :
      (Bytes → Bytes)
      → Bytes
      → Bytes
      → List Bytes
      → DiagnosticSink
      → SourceSpan
      → Option Bytes × DiagnosticSink
  unfolding resolve_import_path_from_roots
  resolve_import_path parent_path importer_path module_name import_roots sink span =
      resolve_import_path_from_roots importer_path module_name
        (parent_path importer_path ∷ import_roots) sink span
