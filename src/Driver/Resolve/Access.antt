-- ===== src/Driver/Resolve/Access.antt =====
-- An internal module is imported from its own package only.
use c_modern.Common.{
  false, List, [], ◌∷◌, ◌++◌, Option, none, some, Bytes, text_eq, text_eq_iff, if◌then◌else◌, ◌≡◌,
  refl, sym, ap, ◌⊎◌, inl, inr, Bool-cases, if_cases, if_rule,
}
use c_modern.Common.Sets.{contains}
use c_modern.Support.Span.{SourceSpan}
use c_modern.Support.Diagnostics.{DiagnosticSeverity, Diagnostic, DiagnosticSink, report}
use c_modern.Support.Imports.{ambiguous}
use c_modern.Driver.Resolve.{
  is_internal, CompileImport, ResolvedModuleSource, Sources, Matches, rejection, keep_match,
  append_match, of_known, of_candidate, append_known, append_roots, no_matches, all_matches,
  known_of, rejected, paths_of, choose_source, resolve_import_path_with_package_rules,
}

-- An ordinary module, or one of the importer's package.
abbrev pub MayImport : Option Bytes → ResolvedModuleSource → Type 0
MayImport importer_package source =
    (is_internal source.module_kind ≡ false)
    ⊎ ((owner : Bytes) × (importer_package ≡ some owner) × (source.package_identity ≡ some owner))

AllMay : Option Bytes → List ResolvedModuleSource → Type 0
AllMay importer_package [] = Unit {0}
AllMay importer_package (source ∷ sources) =
    MayImport importer_package source × AllMay importer_package sources

AllMay-snoc :
    (importer_package : Option Bytes) (xs : List ResolvedModuleSource) (x : ResolvedModuleSource)
    → AllMay importer_package xs
    → MayImport importer_package x
    → AllMay importer_package (xs ++ x ∷ [])
unfolding AllMay
AllMay-snoc importer_package [] x h m = (m, tt)
AllMay-snoc importer_package (first ∷ xs) x (h, hs) m = (h, AllMay-snoc importer_package xs x hs m)

rejection-none :
    (module_name : Bytes) (importer_package : Option Bytes) (source : ResolvedModuleSource)
    (owner : Option Bytes)
    → source.package_identity ≡ owner
    → rejection module_name importer_package source ≡ none
    → MayImport importer_package source
unfolding rejection
rejection-none module_name none source owner e h = absurd cc
rejection-none module_name (some importer) source none e h = absurd (let bad = (rw e at h) in cc)
rejection-none module_name (some importer) source (some owner) e h =
    elim (Bool-cases (text_eq owner importer)) [
      | inl same ↦ inr (owner, ap some (sym ((text_eq_iff owner importer).0 same)), e)
      | inr other ↦ absurd (let bad = (rw (e, other) at h) in cc)
    ]

module _ (module_name : Bytes) (importer_package : Option Bytes) where
  keep_match-AllMay :
      (seen : Matches) (match : ResolvedModuleSource) (reason : Option Bytes)
      → AllMay importer_package seen.matches
      → (reason ≡ none → MayImport importer_package match)
      → AllMay importer_package ((keep_match seen match reason).matches)
  keep_match-AllMay seen match none all may =
      AllMay-snoc importer_package seen.matches match all (may refl)
  keep_match-AllMay seen match (some reason) all may = all

  append_match-AllMay :
      (match : ResolvedModuleSource) (found : Matches)
      → AllMay importer_package found.matches
      → AllMay importer_package ((append_match module_name importer_package match found).matches)
  unfolding append_match
  append_match-AllMay match found all =
      if_cases (λ (m : Matches). AllMay importer_package m.matches)
        (contains found.seen_matches match.primary_source_path) (λ _. all)
        (λ _.
          keep_match-AllMay
            (record found { seen_matches = match.primary_source_path ∷ found.seen_matches }) match
            (if is_internal match.module_kind
              then rejection module_name importer_package match
              else none)
            all
            (if_cases (λ o. o ≡ none → MayImport importer_package match)
              (is_internal match.module_kind)
              (λ _ h.
                rejection-none module_name importer_package match match.package_identity refl h)
              (λ ordinary _. inl ordinary)))

  append_known-AllMay :
      (known : List CompileImport) (found : Matches)
      → AllMay importer_package found.matches
      → AllMay importer_package ((append_known module_name importer_package known found).matches)
  unfolding append_known
  append_known-AllMay [] found all = all
  append_known-AllMay (first ∷ known) found all =
      append_known-AllMay known (append_match module_name importer_package (of_known first) found)
        (append_match-AllMay (of_known first) found all)

  append_roots-AllMay :
      (sources : Sources) (roots : List Bytes) (found : Matches)
      → AllMay importer_package found.matches
      → AllMay importer_package
          ((append_roots sources module_name importer_package roots found).matches)
  unfolding append_roots
  append_roots-AllMay sources [] found all = all
  append_roots-AllMay sources (root ∷ roots) found all =
      let path = sources.candidate root module_name in
      let match = of_candidate sources module_name path in
      append_roots-AllMay sources roots
        (if sources.exists path
          then append_match module_name importer_package match found
          else found)
        (if_rule (λ (m : Matches). AllMay importer_package m.matches) (sources.exists path)
          (append_match-AllMay match found all) all)

-- What a resolution gives: a module that the importer may import and no report, or none and one error.
pub data Resolution (importer_package : Option Bytes) (sink : DiagnosticSink)
    : Option ResolvedModuleSource × DiagnosticSink → Type 0 where
  resolved :
      (source : ResolvedModuleSource)
      → MayImport importer_package source
      → Resolution importer_package sink (some source, sink)
  denied :
      (d : Diagnostic)
      → d.severity ≡ DiagnosticSeverity.k_error
      → Resolution importer_package sink (none, report d sink)

rejected-severity :
    (path name : Bytes) (span : SourceSpan) (reason : Option Bytes)
    → (rejected path name span reason).severity ≡ DiagnosticSeverity.k_error
rejected-severity path name span none = refl
rejected-severity path name span (some reason) = refl

choose_source-Resolution :
    (path name : Bytes) (span : SourceSpan) (sink : DiagnosticSink)
    (importer_package reason : Option Bytes) (matches : List ResolvedModuleSource)
    → AllMay importer_package matches
    → Resolution importer_package sink (choose_source path name span sink reason matches)
unfolding choose_source AllMay
choose_source-Resolution path name span sink importer_package reason [] all =
    denied (rejected path name span reason) (rejected-severity path name span reason)
choose_source-Resolution path name span sink importer_package reason (match ∷ []) all =
    resolved match all.0
choose_source-Resolution path name span sink importer_package reason (match ∷ other ∷ matches) all =
    denied (ambiguous path name (paths_of (match ∷ other ∷ matches)) span) refl

-- `ResolveImportPathWithPackageRules` gives a module and reports nothing, or gives none and reports one error; a module
-- that it gives is ordinary, or the importer has a package and the module is of that package.
pub resolve_import_path_with_package_rules-Resolution :
    (sources : Sources) (importer_path module_name : Bytes) (search_roots : List Bytes)
    (importer_package : Option Bytes) (sink : DiagnosticSink) (span : SourceSpan)
    → Resolution importer_package sink (
        resolve_import_path_with_package_rules sources importer_path module_name search_roots
          importer_package sink span)
unfolding resolve_import_path_with_package_rules all_matches AllMay
resolve_import_path_with_package_rules-Resolution sources importer_path module_name search_roots
      importer_package sink span =
    let known =
      append_known module_name importer_package (known_of sources module_name) no_matches in
    choose_source-Resolution importer_path module_name span sink importer_package
      (all_matches sources module_name search_roots importer_package).rejected_internal_reason
      (all_matches sources module_name search_roots importer_package).matches
      (append_roots-AllMay module_name importer_package sources search_roots known (
        append_known-AllMay module_name importer_package (known_of sources module_name) no_matches
          tt))
