-- ===== src/Driver/Discover/Ordered.antt =====
-- The nodes of a graph that was found: each key once, and imports in front.
use c_modern.Common.{
  Bool, true, false, List, [], ◌∷◌, ◌++◌, Option, none, some, Bytes, text_eq, text_eq_refl,
  if◌then◌else◌, ◌≡◌, refl, sym, ap, ◌∙◌, ◌⊎◌, inl, inr, ◌↔◌, arith, if_cases, subst,
}
use c_modern.Common.Sets.{contains, In}
use c_modern.Support.Diagnostics.{DiagnosticSink}
use c_modern.Driver.Resolve.{CompileImport, ResolvedModuleSource, Sources}
use c_modern.Driver.Discover.{Parser, CompileNode, Search, compile_import, erase_key, go_on}

erase_key-missing :
    (key : Bytes) (xs : List Bytes) → contains xs key ≡ false → erase_key key xs ≡ xs
unfolding erase_key contains
erase_key-missing key [] h = refl
erase_key-missing key (x ∷ xs) h =
    let other : text_eq x key ≡ false = ground arith in
    rw other (ap (λ ys. x ∷ ys) (erase_key-missing key xs (ground arith)))

pub erase_key-head :
    (key : Bytes) (xs : List Bytes) → contains xs key ≡ false → erase_key key (key ∷ xs) ≡ xs
unfolding erase_key
erase_key-head key xs h = rw (text_eq_refl key) (erase_key-missing key xs h)

-- An import that is external or has one of some keys.
abbrev pub Seen : Sources → List Bytes → List Bytes → CompileImport → Type 0
Seen sources external keys import =
    (contains external (sources.normal import.source_path) ≡ true) ⊎ In import.artifact_key keys

abbrev pub AllSeen : Sources → List Bytes → List Bytes → List CompileImport → Type 0
AllSeen sources external keys [] = Unit {0}
AllSeen sources external keys (import ∷ imports) =
    Seen sources external keys import × AllSeen sources external keys imports

module _ {R : Type 0} where
  abbrev pub keys_of : List (CompileNode R) → List Bytes
  keys_of [] = []
  keys_of (node ∷ nodes) = node.artifact_key ∷ keys_of nodes

  pub keys_of-snoc :
      (nodes : List (CompileNode R)) (node : CompileNode R)
      → keys_of (nodes ++ node ∷ []) ≡ keys_of nodes ++ node.artifact_key ∷ []
  keys_of-snoc [] node = refl
  keys_of-snoc (first ∷ nodes) node = ap (λ ks. first.artifact_key ∷ ks) (keys_of-snoc nodes node)

  -- Each node has a new key, and its imports that are not external are keys of nodes in front of it.
  pub data Ordered (sources : Sources) (external : List Bytes) : List (CompileNode R) → Type 0 where
    no_nodes : Ordered sources external []
    added :
        (nodes : List (CompileNode R)) (node : CompileNode R)
        → Ordered sources external nodes
        → contains (keys_of nodes) node.artifact_key ≡ false
        → AllSeen sources external (keys_of nodes) node.imports
        → Ordered sources external (nodes ++ node ∷ [])

module _ {R : Type 0} (parser : Parser R) (sources : Sources)
    (import_roots external : List Bytes) where
  abbrev pub AllIn : List Bytes → List CompileImport → Type 0
  AllIn = AllSeen sources external

  pub AllIn-mono :
      (xs ys : List Bytes) (imports : List CompileImport)
      → ((k : Bytes) → In k xs → In k ys)
      → AllIn xs imports
      → AllIn ys imports
  AllIn-mono xs ys [] f h = tt
  AllIn-mono xs ys (import ∷ imports) f (h, hs) = (
    elim h [ inl e ↦ inl e | inr i ↦ inr (f import.artifact_key i) ],
    AllIn-mono xs ys imports f hs,
  )

  pub AllIn-snoc :
      (xs : List Bytes) (imports : List CompileImport) (import : CompileImport)
      → AllIn xs imports
      → Seen sources external xs import
      → AllIn xs (imports ++ import ∷ [])
  AllIn-snoc xs [] import h s = (s, tt)
  AllIn-snoc xs (first ∷ imports) import (h, hs) s = (h, AllIn-snoc xs imports import hs s)

  pub record Consistent (s : Search R) : Type 0 where
    pub ordered : Ordered sources external s.nodes
    pub same : (k : Bytes) → In k s.visited ↔ In k (keys_of s.nodes)

  -- What a call that succeeds leaves: no more is being visited, and nothing that is was finished.
  pub record Grown (s s' : Search R) : Type 0 where
    pub consistent : Consistent s'
    pub visiting : s'.visiting ≡ s.visiting
    pub keeps : (k : Bytes) → In k s.visited → In k s'.visited
    pub apart : (k : Bytes) → In k s.visiting → In k s'.visited → In k s.visited

  pub Grown-refl : (s : Search R) → Consistent s → Grown s s
  Grown-refl s c = record { consistent = c; visiting = refl; keeps = λ k i. i; apart = λ k v i. i }

  pub Grown-trans : (a b c : Search R) → Grown a b → Grown b c → Grown a c
  Grown-trans a b c g h = record {
    consistent = h.consistent;
    visiting = h.visiting ∙ g.visiting;
    keeps = λ k i. h.keeps k (g.keeps k i);
    apart = λ k v i. g.apart k v (h.apart k (subst (In k) (sym g.visiting) v) i);
  }

  -- A call that keeps the shared state in order when it succeeds.
  abbrev pub SoundNext : (ResolvedModuleSource → Search R → Option (Bool × Search R)) → Type 0
  SoundNext next =
      (source : ResolvedModuleSource) (s s' : Search R)
      → Consistent s
      → next source s ≡ some (true, s')
      → Grown s s' × In source.artifact_key s'.visited

  abbrev pub with_sink : Search R → DiagnosticSink → Search R
  with_sink s sink = record s { diagnostics = sink }

  pub Consistent-sink :
      (s : Search R) (sink : DiagnosticSink) → Consistent s → Consistent (with_sink s sink)
  Consistent-sink s sink c = record { ordered = c.ordered; same = c.same }

  pub Grown-sink :
      (s s' : Search R) (sink : DiagnosticSink) → Grown (with_sink s sink) s' → Grown s s'
  Grown-sink s s' sink g = record {
    consistent = g.consistent;
    visiting = g.visiting;
    keeps = g.keeps;
    apart = g.apart;
  }

  pub go_on-some :
      (o : Option (Bool × Search R))
      (rest : Search R → Option (Option (List CompileImport) × Search R)) (out : List CompileImport)
      (s' : Search R)
      → go_on o rest ≡ some (some out, s')
      → (s1 : Search R) × (o ≡ some (true, s1)) × (rest s1 ≡ some (some out, s'))
  go_on-some none rest out s' h = absurd cc
  go_on-some (some (false, s)) rest out s' h = absurd cc
  go_on-some (some (true, s)) rest out s' h = (s, refl, h)

  -- An import behind its call, external or not.
  pub import_Seen :
      (next : ResolvedModuleSource → Search R → Option (Bool × Search R))
      (source : ResolvedModuleSource) (name : Bytes) (s s1 : Search R)
      → SoundNext next
      → Consistent s
      → (if contains external (sources.normal source.primary_source_path)
          then some (true, s)
          else next source s)
        ≡ some (true, s1)
      → Grown s s1 × Seen sources external s1.visited (compile_import name source)
  import_Seen next source name s s1 sound c =
      if_cases
        (λ o.
          o ≡ some (true, s1)
          → Grown s s1 × Seen sources external s1.visited (compile_import name source))
        (contains external (sources.normal source.primary_source_path))
        (λ out h. let e : s ≡ s1 = cc in (subst (Grown s) e (Grown-refl s c), inl out))
        (λ _ h. let (g, i) = sound source s s1 c h in (g, inr i))
