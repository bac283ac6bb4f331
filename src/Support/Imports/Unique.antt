-- ===== src/Support/Imports/Unique.antt =====
-- An import is resolved exactly when one file matches it.
use c_modern.Common.{
  Bool, true, false, List, [], ◌∷◌, ◌++◌, Option, none, some, Bytes, ◌≡◌, ◌≢◌, sym, ap, ◌∙◌, ◌⊎◌,
  inl, inr, subst, Bool-cases,
}
use c_modern.Common.Sets.{
  contains, In, In-head, In-tail, In-cons, not-In-nil, In-append, In-append_left, In-append_right,
}
use c_modern.Support.Span.{SourceSpan}
use c_modern.Support.Diagnostics.{Diagnostic, DiagnosticSink, report}
use c_modern.Support.Imports.{
  unresolved, ambiguous, find_matches, choose_match, resolve_import_path_from_roots,
}

abbrev pub NoRepeat : List Bytes → Type 0
NoRepeat [] = Unit {0}
NoRepeat (x ∷ xs) = (contains xs x ≡ false) × NoRepeat xs

pub not-In : (v : Bytes) (xs : List Bytes) → ¬ (In v xs) → contains xs v ≡ false
not-In v xs h = elim (Bool-cases (contains xs v)) [ inl there ↦ absurd (h there) | inr e ↦ e ]

NoRepeat-snoc :
    (xs : List Bytes) (v : Bytes) → NoRepeat xs → contains xs v ≡ false → NoRepeat (xs ++ v ∷ [])
NoRepeat-snoc [] v h new = (not-In v [] (not-In-nil v), tt)
NoRepeat-snoc (x ∷ xs) v (h, hs) new = (
  not-In x (xs ++ v ∷ []) (λ i. elim (In-append x xs (v ∷ []) i) [
    | inl old ↦ cc
    | inr it ↦ elim (In-cons x v [] it) [
      | inl same ↦ let there : In v (x ∷ xs) = subst (λ u. In v (u ∷ xs)) same (In-head v xs) in cc
      | inr none_left ↦ absurd (not-In-nil x none_left)
    ]
  ]),
  NoRepeat-snoc xs v hs (not-In v xs (λ i. let there = In-tail v x xs i in cc)),
)

module _ (candidate : Bytes → Bytes → Bytes) (is_file : Bytes → Bool) (module_name : Bytes) where
  -- The path is the existing candidate of one of the roots.
  pub record IsMatch (roots : List Bytes) (path : Bytes) : Type 0 where
    pub root : Bytes
    pub listed : In root roots
    pub named : candidate root module_name ≡ path
    pub exists : is_file path ≡ true

  IsMatch-tail :
      {root : Bytes} {roots : List Bytes} {path : Bytes}
      → IsMatch roots path
      → IsMatch (root ∷ roots) path
  IsMatch-tail {root} {roots} m = record {
    root = m.root;
    listed = In-tail m.root root roots m.listed;
    named = m.named;
    exists = m.exists;
  }

  IsMatch-nil : {path : Bytes} → ¬ (IsMatch [] path)
  IsMatch-nil m = not-In-nil m.root m.listed

  -- What the loop has found, with the matches that it starts from.
  record Found (roots matches found : List Bytes) : Type 0 where
    sound : (path : Bytes) → In path found → In path matches ⊎ IsMatch roots path
    kept : (path : Bytes) → In path matches → In path found
    complete : (path : Bytes) → IsMatch roots path → In path found
    single : NoRepeat found

  Found-add :
      (root : Bytes) (roots matches found : List Bytes)
      → is_file (candidate root module_name) ≡ true
      → Found roots (matches ++ candidate root module_name ∷ []) found
      → Found (root ∷ roots) matches found
  Found-add root roots matches found there f = record {
    sound = λ path i. elim (f.sound path i) [
      | inl i ↦ elim (In-append path matches (candidate root module_name ∷ []) i) [
        | inl old ↦ inl old
        | inr new ↦ elim (In-cons path (candidate root module_name) [] new) [
          | inl same ↦ inr (record {
            root = root;
            listed = In-head root roots;
            named = same;
            exists = subst (λ p. is_file p ≡ true) same there;
          })
          | inr none_left ↦ absurd (not-In-nil path none_left)
        ]
      ]
      | inr m ↦ inr (IsMatch-tail m)
    ];
    kept = λ path i. f.kept path (In-append_left path matches _ i);
    complete = λ path m. elim (In-cons m.root root roots m.listed) [
      | inl same ↦ f.kept path (
          In-append_right path matches (candidate root module_name ∷ []) (
            subst (λ p. In p (candidate root module_name ∷ []))
              (ap (λ r. candidate r module_name) same ∙ m.named)
              (In-head (candidate root module_name) [])))
      | inr more ↦
          f.complete path
            (record { root = m.root; listed = more; named = m.named; exists = m.exists })
    ];
    single = f.single;
  }

  Found-skip :
      (root : Bytes) (roots matches found : List Bytes)
      → (is_file (candidate root module_name) ≡ true → In (candidate root module_name) matches)
      → Found roots matches found
      → Found (root ∷ roots) matches found
  Found-skip root roots matches found seen f = record {
    sound = λ path i. elim (f.sound path i) [ inl old ↦ inl old | inr m ↦ inr (IsMatch-tail m) ];
    kept = f.kept;
    complete = λ path m. elim (In-cons m.root root roots m.listed) [
      | inl same ↦
          let named : candidate root module_name ≡ path =
            ap (λ r. candidate r module_name) same ∙ m.named in
          let there : In (candidate root module_name) matches =
            seen (subst (λ p. is_file p ≡ true) (sym named) m.exists) in
          f.kept path (subst (λ p. In p matches) named there)
      | inr more ↦
          f.complete path
            (record { root = m.root; listed = more; named = m.named; exists = m.exists })
    ];
    single = f.single;
  }

  find_matches-Found :
      (roots matches : List Bytes)
      → NoRepeat matches
      → Found roots matches (find_matches candidate is_file module_name roots matches)
  unfolding find_matches
  find_matches-Found [] matches h = record {
    sound = λ path i. inl i;
    kept = λ path i. i;
    complete = λ path m. absurd (IsMatch-nil m);
    single = h;
  }
  find_matches-Found (root ∷ roots) matches h =
      let path = candidate root module_name in
      elim (Bool-cases (is_file path)) [
        | inr absent ↦ rw absent (
            Found-skip root roots matches _ (λ yes. absurd cc) (find_matches-Found roots matches h))
        | inl there ↦ elim (Bool-cases (contains matches path)) [
          | inl old ↦
              rw (there, old)
                (Found-skip root roots matches _ (λ yes. old) (find_matches-Found roots matches h))
          | inr new ↦
              rw (there, new)
                (Found-add root roots matches _ there (
                  find_matches-Found roots (matches ++ path ∷ [])
                    (NoRepeat-snoc matches path h new)))
        ]
      ]

  -- No match, one, or two different ones, with what is returned and reported.
  pub data Resolution (roots : List Bytes) (sink : DiagnosticSink) (missing : Diagnostic)
      (clash : List Bytes → Diagnostic) : Option Bytes × DiagnosticSink → Type 0 where
    no_match :
        ((path : Bytes) → ¬ (IsMatch roots path))
        → Resolution roots sink missing clash (none, sink ++ missing ∷ [])
    one_match :
        (path : Bytes)
        → IsMatch roots path
        → ((other : Bytes) → IsMatch roots other → path ≡ other)
        → Resolution roots sink missing clash (some path, sink)
    two_matches :
        (path other : Bytes) (more : List Bytes)
        → path ≢ other
        → IsMatch roots path
        → IsMatch roots other
        → Resolution roots sink missing clash (none, sink ++ clash (path ∷ other ∷ more) ∷ [])

  from_start :
      {roots found : List Bytes} {path : Bytes}
      → Found roots [] found
      → In path found
      → IsMatch roots path
  from_start {path = path} f i = elim (f.sound path i) [
    | inl old ↦ absurd (not-In-nil path old)
    | inr m ↦ m
  ]

  choose_match-Resolution :
      (diagnostic_path : Bytes) (roots found : List Bytes) (sink : DiagnosticSink)
      (span : SourceSpan)
      → Found roots [] found
      → Resolution roots sink
          (unresolved diagnostic_path module_name span)
          (λ matches. ambiguous diagnostic_path module_name matches span)
          (choose_match candidate is_file diagnostic_path module_name span sink found)
  unfolding choose_match report
  choose_match-Resolution diagnostic_path roots [] sink span f =
      no_match (λ path m. not-In-nil path (f.complete path m))
  choose_match-Resolution diagnostic_path roots (path ∷ []) sink span f =
      one_match path (from_start f (In-head path [])) (λ other m.
        elim (In-cons other path [] (f.complete other m)) [
          | inl same ↦ same
          | inr none_left ↦ absurd (not-In-nil other none_left)
        ])
  choose_match-Resolution diagnostic_path roots (path ∷ other ∷ more) sink span f =
      two_matches path other more
        (λ same.
          let there : In path (other ∷ more) =
            subst (λ p. In p (other ∷ more)) (sym same) (In-head other more) in
          let new : contains (other ∷ more) path ≡ false = f.single.0 in cc)
        (from_start f (In-head path (other ∷ more)))
        (from_start f (In-tail other path (other ∷ more) (In-head other more)))

  -- `ResolveImportPathFromRoots` returns a path exactly when one existing file is the candidate of the
  -- roots, that file's, and leaves the sink as it was; with no such file, or with two different ones, it
  -- returns nothing and adds the one error that says which.
  pub resolve_import_path_from_roots-Resolution :
      (diagnostic_path : Bytes) (roots : List Bytes) (sink : DiagnosticSink) (span : SourceSpan)
      → Resolution roots sink
          (unresolved diagnostic_path module_name span)
          (λ matches. ambiguous diagnostic_path module_name matches span)
          (resolve_import_path_from_roots candidate is_file diagnostic_path module_name roots sink
            span)
  unfolding resolve_import_path_from_roots
  resolve_import_path_from_roots-Resolution diagnostic_path roots sink span =
      choose_match-Resolution diagnostic_path roots
        (find_matches candidate is_file module_name roots []) sink span
        (find_matches-Found roots [] tt)
