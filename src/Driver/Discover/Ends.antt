-- ===== src/Driver/Discover/Ends.antt =====
-- The search ends where the imports lead to finitely many modules: each call below visits one more.
use mathlib.Core.Option
use c_modern.Common.{
  ℕ, zero, suc, ◌+◌, ◌<◌, Bool, true, false, not, ◌&&◌, List, [], ◌∷◌, ◌++◌, Option, none, some,
  Bytes, text_eq_refl, length, if◌then◌else◌, ◌≡◌, refl, sym, ap, ◌∙◌, inl, inr, arith,
  Option-cases, if_cases, if_rule, subst,
}
use c_modern.Common.Sets.{contains, In}
use c_modern.Common.Counting.{count, count-lt, count-bound}
use c_modern.Support.Span.{SourceSpan}
use c_modern.Support.Diagnostics.{DiagnosticSink, report}
use c_modern.Driver.Resolve.{
  CompileImport, ResolvedModuleSource, Sources, identity_of, is_internal,
  resolve_import_path_with_package_rules,
}
use c_modern.Driver.Discover.{
  ImportDecl, Parser, Search, compile_import, erase_key, go_on, visit_imports, give_up, is_none,
  close_module, visit_parsed, discover_step, discover_module_graph_recursive, or_else,
}
use c_modern.Driver.Discover.Ordered.{erase_key-head}
use c_modern.Driver.Discover.Topological.{empty_search}

-- The keys of all modules that some import leads to.
pub record Closed (sources : Sources) (import_roots universe : List Bytes) : Type 0 where
  pub listed :
      (path name : Bytes) (identity : Option Bytes) (sink : DiagnosticSink) (span : SourceSpan)
      (source : ResolvedModuleSource)
      → (resolve_import_path_with_package_rules sources path name import_roots identity sink span).0
        ≡ some source
      → In source.artifact_key universe

module _ {R : Type 0} (parser : Parser R) (sources : Sources)
    (import_roots external universe : List Bytes)
    (finite : Closed sources import_roots universe) where
  -- The modules that are not being visited.
  room : List Bytes → ℕ
  room visiting = count (λ k. not (contains visiting k)) universe

  room-cons :
      (key : Bytes) (visiting : List Bytes)
      → In key universe
      → contains visiting key ≡ false
      → room (key ∷ visiting) < room visiting
  unfolding room contains
  room-cons key visiting i free =
      count-lt (λ k. not (contains (key ∷ visiting) k)) (λ k. not (contains visiting k)) key
        universe (λ k. ground arith) i (ground (arith, text_eq_refl key)) (ground arith)

  data Ended (s : Search R) : Option (Bool × Search R) → Type 0 where
    failed : (s' : Search R) → Ended s (some (false, s'))
    succeeded : (s' : Search R) → s'.visiting ≡ s.visiting → Ended s (some (true, s'))

  data Looped (s : Search R) : Option (Option (List CompileImport) × Search R) → Type 0 where
    broken : (s' : Search R) → Looped s (some (none, s'))
    complete :
        (imports : List CompileImport) (s' : Search R)
        → s'.visiting ≡ s.visiting
        → Looped s (some (some imports, s'))

  EndsBelow : ℕ → (ResolvedModuleSource → Search R → Option (Bool × Search R)) → Type 0
  EndsBelow n next =
      (source : ResolvedModuleSource) (s : Search R)
      → In source.artifact_key universe
      → room s.visiting < n
      → Ended s (next source s)

  Looped-from :
      (s s1 : Search R) (o : Option (Option (List CompileImport) × Search R))
      → s1.visiting ≡ s.visiting
      → Looped s1 o
      → Looped s o
  Looped-from s s1 _ e (broken s') = broken s'
  Looped-from s s1 _ e (complete imports s' e') = complete imports s' (e' ∙ e)

  go_on-Looped :
      (s : Search R) (o : Option (Bool × Search R))
      (rest : Search R → Option (Option (List CompileImport) × Search R))
      → Ended s o
      → ((s1 : Search R) → s1.visiting ≡ s.visiting → Looped s1 (rest s1))
      → Looped s (go_on o rest)
  go_on-Looped s _ rest (failed s') more = broken s'
  go_on-Looped s _ rest (succeeded s1 e) more = Looped-from s s1 (rest s1) e (more s1 e)

  visit_imports-Looped :
      (n : ℕ) (next : ResolvedModuleSource → Search R → Option (Bool × Search R)) (path : Bytes)
      (identity : Option Bytes) (decls : List ImportDecl) (imports : List CompileImport)
      (s : Search R)
      → EndsBelow n next
      → room s.visiting < n
      → Looped s
          (visit_imports parser sources import_roots external next path identity decls imports s)
  unfolding visit_imports EndsBelow
  visit_imports-Looped n next path identity [] imports s ends lt = complete imports s refl
  visit_imports-Looped n next path identity (decl ∷ decls) imports s ends lt =
      let answer =
        resolve_import_path_with_package_rules sources path decl.module_name import_roots identity
          s.diagnostics decl.span in
      let reported = record s { diagnostics = answer.1 } in
      elim (Option-cases answer.0) [
        | inl e ↦ rw (e, visit_imports) (broken reported)
        | inr (source, e) ↦
            let i = finite.listed path decl.module_name identity s.diagnostics decl.span source e in
            let import = compile_import decl.module_name source in
            rw (e, visit_imports)
              (Looped-from s reported
                (go_on
                  (if contains external (sources.normal source.primary_source_path)
                    then some (true, reported)
                    else next source reported)
                  (λ s'.
                    visit_imports parser sources import_roots external next path identity decls
                      (imports ++ import ∷ []) s'))
                refl
                (go_on-Looped reported
                  (if contains external (sources.normal source.primary_source_path)
                    then some (true, reported)
                    else next source reported)
                  (λ s'.
                    visit_imports parser sources import_roots external next path identity decls
                      (imports ++ import ∷ []) s')
                  (if_rule (Ended reported)
                    (contains external (sources.normal source.primary_source_path))
                    (succeeded reported refl) (ends source reported i lt))
                  (λ s1 same.
                    visit_imports-Looped n next path identity decls (imports ++ import ∷ []) s1 ends
                      (subst (λ v. room v < n) (sym same) lt))))
      ]

  close_module-Ended :
      (source : ResolvedModuleSource) (identity : Option Bytes) (parsed : R) (s entered : Search R)
      (o : Option (Option (List CompileImport) × Search R))
      → contains s.visiting source.artifact_key ≡ false
      → entered.visiting ≡ source.artifact_key ∷ s.visiting
      → Looped entered o
      → Ended s
          (Option.map (close_module parser sources import_roots external source identity parsed) o)
  unfolding close_module
  close_module-Ended source identity parsed s entered _ free same (broken s') =
      failed (give_up source.artifact_key s').1
  close_module-Ended source identity parsed s entered _ free same (complete imports s' e) =
      succeeded
        (close_module parser sources import_roots external source identity parsed
          (some imports, s')).1
        (ap (erase_key source.artifact_key) (e ∙ same)
          ∙ erase_key-head source.artifact_key s.visiting free)

  visit_parsed-Ended :
      (n : ℕ) (next : ResolvedModuleSource → Search R → Option (Bool × Search R))
      (source : ResolvedModuleSource) (parsed : R) (s entered : Search R)
      → EndsBelow n next
      → room entered.visiting < n
      → contains s.visiting source.artifact_key ≡ false
      → entered.visiting ≡ source.artifact_key ∷ s.visiting
      → Ended s (visit_parsed parser sources import_roots external next source parsed entered)
  unfolding visit_parsed report
  visit_parsed-Ended n next source parsed s entered ends lt free same =
      let path = sources.normal source.primary_source_path in
      let identity = or_else source.package_identity (identity_of sources path) in
      if_cases (Ended s) (is_internal source.module_kind && is_none identity) (λ _. failed _)
        (λ _.
          close_module-Ended source identity parsed s entered
            (visit_imports parser sources import_roots external next path identity
              (parser.imports_of parsed) [] entered)
            free same
            (visit_imports-Looped n next path identity (parser.imports_of parsed) [] entered ends
              lt))

  discover_step-Ended :
      (n : ℕ) (next : ResolvedModuleSource → Search R → Option (Bool × Search R))
      → EndsBelow n next
      → EndsBelow (suc n) (discover_step parser sources import_roots external next)
  unfolding discover_step EndsBelow report
  discover_step-Ended n next ends source s i lt =
      if_cases (Ended s) (contains s.visited source.artifact_key) (λ _. succeeded s refl)
        (λ _.
          if_cases (Ended s) (contains s.visiting source.artifact_key) (λ _. failed _)
            (λ free.
              let answer = parser.parse_sources source.source_paths s.diagnostics in
              let entered : Search R = record s {
                diagnostics = answer.1;
                visiting = source.artifact_key ∷ s.visiting;
              } in
              let less : room entered.visiting < n =
                omega (arith, lt, room-cons source.artifact_key s.visiting i free) in
              elim (Option-cases answer.0) [
                | inl e ↦ rw e (failed (give_up source.artifact_key entered).1)
                | inr (parsed, e) ↦
                    rw e (visit_parsed-Ended n next source parsed s entered ends less free refl)
              ]))

  discover-Ended :
      (fuel : ℕ)
      → EndsBelow fuel (discover_module_graph_recursive parser sources import_roots external fuel)
  unfolding discover_module_graph_recursive EndsBelow
  discover-Ended zero source s i lt = absurd (omega arith)
  discover-Ended (suc fuel) source s i lt =
      discover_step-Ended fuel
        (discover_module_graph_recursive parser sources import_roots external fuel)
        (discover-Ended fuel) source s i lt

  Ended-result :
      (s : Search R) (o : Option (Bool × Search R))
      → Ended s o
      → (r : Bool × Search R) × (o ≡ some r)
  Ended-result s _ (failed s') = ((false, s'), refl)
  Ended-result s _ (succeeded s' e) = ((true, s'), refl)

  -- Where each import resolves to a module of a finite list and so does the first module,
  -- `DiscoverModuleGraphRecursive` ends from empty sets, and its calls are not nested deeper than there are modules in
  -- the list, and one: that much fuel gives a result, whether the imports have a cycle or not.
  pub discover_module_graph_recursive-total :
      (source : ResolvedModuleSource) (sink : DiagnosticSink)
      → In source.artifact_key universe
      → (r : Bool × Search R) × (discover_module_graph_recursive parser sources import_roots
            external
            (length universe + 1)
            source
            (empty_search parser sources import_roots external sink)
          ≡ some r)
  unfolding EndsBelow room
  discover_module_graph_recursive-total source sink i =
      let start = empty_search parser sources import_roots external sink in
      Ended-result start
        (discover_module_graph_recursive parser sources import_roots external (length universe + 1)
          source start)
        (discover-Ended (length universe + 1) source start i
          (omega (arith, count-bound (λ k. not (contains [] k)) universe)))
