-- ===== src/Driver/Graph/Canonical.antt =====
-- The canonical paths of a module.
use c_modern.Common.{
  true, false, not, ◌&&◌, ◌||◌, List, [], ◌∷◌, map, Bytes, text_eq, text_eq_iff, ◌≡◌, refl, inl,
  inr, ◌↔◌, arith, Bool-cases, if_cases, subst,
}
use c_modern.Common.Sets.{contains, In}
use c_modern.Support.Imports.Unique.{NoRepeat}
use c_modern.Driver.Graph.{canonicalize_loop, canonicalize_module_source_paths}

module _ (normal : Bytes → Bytes) where
  canonicalize_loop-contains :
      (paths seen : List Bytes) (p : Bytes)
      → contains (canonicalize_loop normal paths seen) p
        ≡ (contains (map normal paths) p && not (contains seen p))
  unfolding canonicalize_loop contains
  canonicalize_loop-contains [] seen p = refl
  canonicalize_loop-contains (path ∷ paths) seen p =
      if_cases
        (λ xs.
          contains xs p
          ≡ ((text_eq (normal path) p || contains (map normal paths) p) && not (contains seen p)))
        (contains seen (normal path))
        (λ old. elim (Bool-cases (text_eq (normal path) p)) [
          | inl same ↦
              let there : contains seen p ≡ true =
                subst (In' seen) ((text_eq_iff (normal path) p).0 same) old in
              ground (arith, canonicalize_loop-contains paths seen p)
          | inr other ↦ ground (arith, canonicalize_loop-contains paths seen p)
        ])
        (λ new. elim (Bool-cases (text_eq (normal path) p)) [
          | inl same ↦
              let out : contains seen p ≡ false =
                subst (λ x. contains seen x ≡ false) ((text_eq_iff (normal path) p).0 same) new in
              ground arith
          | inr other ↦ ground (arith, canonicalize_loop-contains paths (normal path ∷ seen) p)
        ])
    where
      In' : List Bytes → Bytes → Type 0
      In' xs v = In v xs

  canonicalize_loop-NoRepeat :
      (paths seen : List Bytes) → NoRepeat (canonicalize_loop normal paths seen)
  unfolding canonicalize_loop contains
  canonicalize_loop-NoRepeat [] seen = tt
  canonicalize_loop-NoRepeat (path ∷ paths) seen =
      if_cases NoRepeat (contains seen (normal path)) (λ _. canonicalize_loop-NoRepeat paths seen)
        (λ _. (
          out (text_eq_iff (normal path) (normal path)).1,
          canonicalize_loop-NoRepeat paths (normal path ∷ seen),
        ))
    where
      out :
          (((normal path) ≡ (normal path)) → text_eq (normal path) (normal path) ≡ true)
          → contains (canonicalize_loop normal paths (normal path ∷ seen)) (normal path) ≡ false
      out self =
          ground
            (arith, canonicalize_loop-contains paths (normal path ∷ seen) (normal path), self refl)

  -- `CanonicalizeModuleSourcePaths` gives the normal forms of the paths that it gets, all of them and no other, each once.
  pub canonicalize_module_source_paths-NoRepeat :
      (paths : List Bytes)
      → NoRepeat (canonicalize_module_source_paths normal paths)
        × ((p : Bytes)
            → In p (canonicalize_module_source_paths normal paths) ↔ In p (map normal paths))
  unfolding canonicalize_module_source_paths contains
  canonicalize_module_source_paths-NoRepeat paths = (
    canonicalize_loop-NoRepeat paths [],
    λ p. ground (arith, canonicalize_loop-contains paths [] p),
  )
