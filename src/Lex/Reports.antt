-- ===== src/Lex/Reports.antt =====
-- What a phase of the lexer does to `ok` and to the sink: reports are only added, and `ok` is
-- cleared exactly when there is one.
pub mod Scans
use c_modern.Common.{
  ℕ, Bool, true, false, ◌&&◌, List, [], ◌∷◌, ◌++◌, Bytes, append_assoc, append-nil, arith, ◌≡◌,
  refl, sym, ap, ◌∙◌, subst,
}
use c_modern.Support.Span.{SourcePosition}
use c_modern.Support.Diagnostics.{Diagnostic, DiagnosticSink, DiagnosticSeverity, report}
use c_modern.Lex.Status.{Status, fail}

abbrev pub is_empty : List Diagnostic → Bool
is_empty [] = true
is_empty (_ ∷ _) = false

-- All reports are errors in the file that is read.
abbrev pub AllErrors : Bytes → List Diagnostic → Type 0
AllErrors path [] = Unit {0}
AllErrors path (d ∷ ds) =
    (d.severity ≡ DiagnosticSeverity.k_error) × (d.file_path ≡ path) × AllErrors path ds

-- `s'` is `s` after the reports `added`.
pub record Reports (s s' : Status) : Type 0 where
  pub added : List Diagnostic
  pub sink : s'.diagnostics ≡ s.diagnostics ++ added
  pub cleared : s'.ok ≡ (s.ok && is_empty added)
  pub errors : AllErrors s.file_path added
  pub same_path : s'.file_path ≡ s.file_path

pub Reports-stay : (s : Status) → Reports s s
Reports-stay s = record {
  added = [];
  sink = sym (append-nil _);
  cleared = ground arith;
  errors = tt;
  same_path = refl;
}

pub Reports-fail :
    (begin end : SourcePosition) (message : Bytes) (s : Status)
    → Reports s (fail begin end message s)
unfolding fail report
Reports-fail begin end message s = record {
  added = _ ∷ [];
  sink = refl;
  cleared = ground arith;
  errors = (refl, refl, tt);
  same_path = refl;
}

AllErrors-append :
    (path : Bytes) (ds es : List Diagnostic)
    → AllErrors path ds
    → AllErrors path es
    → AllErrors path (ds ++ es)
AllErrors-append path [] es h k = k
AllErrors-append path (d ∷ ds) es (a, b, h) k = (a, b, AllErrors-append path ds es h k)

is_empty-append :
    (b : Bool) (ds es : List Diagnostic)
    → ((b && is_empty ds) && is_empty es) ≡ (b && is_empty (ds ++ es))
is_empty-append b [] es = ground arith
is_empty-append b (d ∷ ds) es = ground arith

pub Reports-trans : {a b c : Status} → Reports a b → Reports b c → Reports a c
Reports-trans {a} {b} {c} r q = record {
  added = r.added ++ q.added;
  sink = q.sink ∙ ap (λ x. x ++ q.added) r.sink ∙ append_assoc _ r.added q.added;
  cleared =
      q.cleared ∙ ap (λ x. x && is_empty q.added) r.cleared ∙ is_empty-append a.ok r.added q.added;
  errors =
      AllErrors-append _ r.added q.added r.errors
        (subst (λ path. AllErrors path q.added) r.same_path q.errors);
  same_path = q.same_path ∙ r.same_path;
}
