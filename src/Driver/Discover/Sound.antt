-- ===== src/Driver/Discover/Sound.antt =====
-- The search keeps its state in order: the loop over the imports, and the recursion.
use c_modern.Common.{
  Bool, true, false, List, [], ◌∷◌, ◌++◌, Option, none, some, Bytes, if◌then◌else◌, ◌≡◌, sym, ap,
  ◌∙◌, inl, inr, ◌↔◌, Bool-cases, Option-cases, subst,
}
use c_modern.Common.Sets.{
  contains, In, In-head, In-tail, In-cons, not-In-nil, In-append, In-append_left, In-append_right,
}
use c_modern.Driver.Resolve.{
  CompileImport, ResolvedModuleSource, Sources, resolve_import_path_with_package_rules,
}
use c_modern.Driver.Discover.{
  ImportDecl, Parser, Search, compile_import, erase_key, visit_imports, make_node, close_module,
}
use c_modern.Driver.Discover.Ordered.{
  keys_of, keys_of-snoc, AllSeen, added, AllIn-mono, AllIn-snoc, Consistent, Grown, Grown-refl,
  Grown-trans, SoundNext, with_sink, Consistent-sink, Grown-sink, go_on-some, import_Seen,
  erase_key-head,
}

module _ {R : Type 0} (parser : Parser R) (sources : Sources)
    (import_roots external : List Bytes) where
  abbrev pub IsConsistent : Search R → Type 0
  IsConsistent = Consistent parser sources import_roots external

  abbrev pub Grows : Search R → Search R → Type 0
  Grows = Grown parser sources import_roots external

  abbrev pub IsSound : (ResolvedModuleSource → Search R → Option (Bool × Search R)) → Type 0
  IsSound = SoundNext parser sources import_roots external

  abbrev pub AllOf : List Bytes → List CompileImport → Type 0
  AllOf = AllSeen sources external

  pub visit_imports-Grown :
      (next : ResolvedModuleSource → Search R → Option (Bool × Search R)) (path : Bytes)
      (identity : Option Bytes) (decls : List ImportDecl) (imports out : List CompileImport)
      (s s' : Search R)
      → IsSound next
      → IsConsistent s
      → AllOf s.visited imports
      → visit_imports parser sources import_roots external next path identity decls imports s
        ≡ some (some out, s')
      → Grows s s' × AllOf s'.visited out
  unfolding visit_imports
  visit_imports-Grown next path identity [] imports out s s' sound c all h =
      let e : s ≡ s' = cc in
      let e' : imports ≡ out = cc in
      subst (λ x. Grows s s' × AllOf s'.visited x) e'
        (subst (λ x. Grows s x × AllOf x.visited imports) e
          (Grown-refl parser sources import_roots external s c, all))
  visit_imports-Grown next path identity (decl ∷ decls) imports out s s' sound c all h =
      let answer =
        resolve_import_path_with_package_rules sources path decl.module_name import_roots identity
          s.diagnostics decl.span in
      let reported = with_sink parser sources import_roots external s answer.1 in
      let c' = Consistent-sink parser sources import_roots external s answer.1 c in
      elim (Option-cases answer.0) [
        | inl e ↦ absurd (
            let bad : some (none, reported) ≡ some (some out, s') = (rw (e, visit_imports) at h) in
            cc)
        | inr (source, e) ↦
            let import = compile_import decl.module_name source in
            let (s1, called, rest) =
              go_on-some parser sources import_roots external
                (if contains external (sources.normal source.primary_source_path)
                  then some (true, reported)
                  else next source reported)
                (λ s''.
                  visit_imports parser sources import_roots external next path identity decls
                    (imports ++ import ∷ []) s'')
                out s' (rw (e, visit_imports) at h) in
            let (g, seen) =
              import_Seen parser sources import_roots external next source decl.module_name reported
                s1 sound c' called in
            let before =
              AllIn-mono parser sources import_roots external s.visited s1.visited imports g.keeps
                all in
            let (g', all') =
              visit_imports-Grown next path identity decls (imports ++ import ∷ []) out s1 s' sound
                g.consistent
                (AllIn-snoc parser sources import_roots external s1.visited imports import before
                  seen)
                rest in
            (
              Grown-sink parser sources import_roots external s s' answer.1
                  (Grown-trans parser sources import_roots external reported s1 s' g g'),
              all',
            )
      ]

  -- The module behind its imports.
  module _ (source : ResolvedModuleSource) (identity : Option Bytes) (parsed : R)
      (imports : List CompileImport) (s entered s1 : Search R)
      (new : contains s.visited source.artifact_key ≡ false)
      (free : contains s.visiting source.artifact_key ≡ false)
      (same_visited : entered.visited ≡ s.visited)
      (same_visiting : entered.visiting ≡ source.artifact_key ∷ s.visiting) (g : Grows entered s1)
      (all : AllOf s1.visited imports) where
    unfoldable pub closed : Search R
    unfolding close_module
    closed =
        (close_module parser sources import_roots external source identity parsed
          (some imports, s1)).1

    -- No call below finishes the module that is being visited.
    unfinished : contains s1.visited source.artifact_key ≡ false
    unfinished = elim (Bool-cases (contains s1.visited source.artifact_key)) [
      | inr e ↦ e
      | inl there ↦
          let head : In source.artifact_key entered.visiting =
            subst (In source.artifact_key) (sym same_visiting)
              (In-head source.artifact_key s.visiting) in
          let before =
            subst (In source.artifact_key) same_visited (g.apart source.artifact_key head there) in
          absurd cc
    ]

    no_key : contains (keys_of s1.nodes) source.artifact_key ≡ false
    no_key = elim (Bool-cases (contains (keys_of s1.nodes) source.artifact_key)) [
      | inr e ↦ e
      | inl there ↦
          let before = (g.consistent.same source.artifact_key).1 there in
          let out = unfinished in absurd cc
    ]

    closed_same :
        (k : Bytes)
        → In k (source.artifact_key ∷ s1.visited)
          ↔ In k (keys_of s1.nodes ++ source.artifact_key ∷ [])
    closed_same k = (
      λ i. elim (In-cons k source.artifact_key s1.visited i) [
        | inl e ↦
            In-append_right k (keys_of s1.nodes) (source.artifact_key ∷ [])
              (subst (λ x. In x (source.artifact_key ∷ [])) e (In-head source.artifact_key []))
        | inr old ↦
            In-append_left k (keys_of s1.nodes) (source.artifact_key ∷ [])
              ((g.consistent.same k).0 old)
      ],
      λ i. elim (In-append k (keys_of s1.nodes) (source.artifact_key ∷ []) i) [
        | inl old ↦ In-tail k source.artifact_key s1.visited ((g.consistent.same k).1 old)
        | inr last ↦ elim (In-cons k source.artifact_key [] last) [
          | inl e ↦
              subst (λ x. In x (source.artifact_key ∷ s1.visited)) e
                (In-head source.artifact_key s1.visited)
          | inr n ↦ absurd (not-In-nil k n)
        ]
      ],
    )

    closed-Consistent : IsConsistent closed
    unfolding closed close_module
    closed-Consistent = record {
      ordered =
          added s1.nodes
            (make_node parser sources import_roots external source identity parsed imports)
            g.consistent.ordered no_key
            (AllIn-mono parser sources import_roots external s1.visited (keys_of s1.nodes) imports
              (λ k i. (g.consistent.same k).0 i) all);
      same = λ k.
          subst (λ ks. In k (source.artifact_key ∷ s1.visited) ↔ In k ks)
            (sym (
              keys_of-snoc s1.nodes
                (make_node parser sources import_roots external source identity parsed imports)))
            (closed_same k);
    }

    pub closed-Grown : Grows s closed
    unfolding closed close_module
    closed-Grown = record {
      consistent = closed-Consistent;
      visiting =
          ap (erase_key source.artifact_key) (g.visiting ∙ same_visiting)
          ∙ erase_key-head source.artifact_key s.visiting free;
      keeps = λ k i.
          In-tail k source.artifact_key s1.visited (g.keeps k (subst (In k) (sym same_visited) i));
      apart = λ k v i. elim (In-cons k source.artifact_key s1.visited i) [
        | inl e ↦
            let there : In source.artifact_key s.visiting =
              subst (λ x. In x s.visiting) (sym e) v in
            absurd cc
        | inr old ↦ subst (In k) same_visited (
            g.apart k
              (subst (In k) (sym same_visiting) (In-tail k source.artifact_key s.visiting v)) old)
      ];
    }

    pub closed-done : In source.artifact_key closed.visited
    unfolding closed close_module
    closed-done = In-head source.artifact_key s1.visited
