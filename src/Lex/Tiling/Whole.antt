-- ===== src/Lex/Tiling/Whole.antt =====
-- The whole run: `Lex` ends, its tokens tile the text, and `ok` says whether it reported anything.
use mathlib.Core.Option
use c_modern.Common.{
  ℕ, suc, zero, ◌≤◌, ◌<◌, true, false, [], ◌∷◌, ◌++◌, Bytes, length, Option, some, ◌≡◌, refl, ap,
  ◌∙◌, arith, ◌↔◌, subst, ◌&&◌, if◌then◌else◌,
}
use c_modern.Support.Span.{SourcePosition}
use c_modern.Support.Diagnostics.{DiagnosticSink}
use c_modern.Lex.Cursor.{Cursor, at, at_end, skip_trivia}
use c_modern.Lex.Status.{Status}
use c_modern.Lex.Run.{LexResult, push_token, finish, lex_token, run_loop, lex}
use c_modern.Lex.Moves.Trivia.{skip_trivia-Moves, Moves-length}
use c_modern.Lex.Reports.{Reports, Reports-stay, Reports-trans, is_empty, AllErrors}
use c_modern.Lex.Tiling.{Tiles, done, gap}
use c_modern.Lex.Tiling.Rounds.{Steps, lex_token-Steps}

module _ {F : Type 0} (read_double : Bytes → Option F) where
  -- A run that ends, with what holds of it.
  abbrev Ends : Cursor → Status → Option (LexResult F) → Type 0
  Ends c s o =
      (r : LexResult F) × (o ≡ some r)
      × Tiles F r.status.ok c.position c.rest r.tokens
      × Reports s r.status

  finish-Ends : (p : SourcePosition) (s : Status) → Ends (at [] p) s (some (finish (at [] p) s))
  unfolding finish
  finish-Ends p s = (_, refl, done refl refl refl refl, Reports-stay s)

  ok_false : {s s' : Status} → Reports s s' → s.ok ≡ false → s'.ok ≡ false
  ok_false r e = r.cleared ∙ ap (λ b. b && is_empty r.added) e

  skip-Ends :
      (c : Cursor) (s : Status) {o : Option (LexResult F)} → Ends (skip_trivia c) s o → Ends c s o
  skip-Ends c s (r, e, tiles, reports) =
      let (w, trivia, split, q) = skip_trivia-Moves c in
      (
        r,
        e,
        gap w (skip_trivia c).rest trivia split
            (subst (λ p. Tiles F r.status.ok p (skip_trivia c).rest r.tokens) q tiles),
        reports,
      )

  -- One round and the run behind it.
  round-Ends :
      (c : Cursor) (s : Status) {o : Option (LexResult F)}
      → Steps c s (lex_token read_double c s)
      → Ends (lex_token read_double c s).cursor (lex_token read_double c s).status o
      → Ends c s (Option.map (push_token (lex_token read_double c s).token) o)
  round-Ends c s step (r, e, tiles, reports) = (
    push_token (lex_token read_double c s).token r,
    ap (Option.map (push_token (lex_token read_double c s).token)) e,
    step.tiles r.status.ok r.tokens (ok_false reports) tiles,
    Reports-trans step.reports reports,
  )

  abbrev EndsWithin : ℕ → Type 0
  EndsWithin fuel =
      (rest : Bytes) (p : SourcePosition) (s : Status)
      → length rest < fuel
      → Ends (at rest p) s (run_loop read_double fuel (at rest p) s)

  -- What the loop does behind its `SkipTrivia`.
  skipped-Ends :
      (fuel : ℕ) (rest : Bytes) (p : SourcePosition) (s : Status)
      → EndsWithin fuel
      → length rest ≤ fuel
      → Ends (at rest p) s (
          if at_end rest
          then some (finish (at rest p) s)
          else Option.map (push_token (lex_token read_double (at rest p) s).token) (
              run_loop read_double fuel
                (lex_token read_double (at rest p) s).cursor
                (lex_token read_double (at rest p) s).status))
  skipped-Ends fuel [] p s ih h = finish-Ends p s
  skipped-Ends fuel (ch ∷ r) p s ih h =
      let step = lex_token-Steps read_double ch r p s in
      round-Ends (at (ch ∷ r) p) s step (ih _ _ _ (omega (arith, step.shorter)))

  run_loop-Ends : (fuel : ℕ) → EndsWithin fuel
  unfolding run_loop
  run_loop-Ends zero rest p s h = absurd (omega arith)
  run_loop-Ends (suc fuel) [] p s h = finish-Ends p s
  run_loop-Ends (suc fuel) (ch ∷ r) p s h =
      let c' = skip_trivia (at (ch ∷ r) p) in
      skip-Ends (at (ch ∷ r) p) s (
        skipped-Ends fuel c'.rest c'.position s (run_loop-Ends fuel)
          (omega (arith, Moves-length (skip_trivia-Moves (at (ch ∷ r) p)))))

  -- `Lex` returns for every text, and its tokens tile the whole of it: each token's lexeme is the
  -- text at its place and its span the positions at its ends, between tokens there is only trivia,
  -- and a byte that starts no token is left out only if `ok` is false.
  pub lex-Tiles :
      (source_text file_path : Bytes) (sink : DiagnosticSink)
      → (r : LexResult F) × (lex read_double source_text file_path sink ≡ some r)
        × Tiles F r.status.ok (record { line = 1; column = 1 }) source_text r.tokens
  unfolding lex
  lex-Tiles source_text file_path sink =
      let (r, e, tiles, _) =
        run_loop-Ends (suc (length source_text)) source_text (record { line = 1; column = 1 })
          (record { file_path = file_path; ok = true; diagnostics = sink }) (omega arith) in
      (r, e, tiles)

  cleared_iff : (added : DiagnosticSink) → ((true && is_empty added) ≡ true) ↔ (added ≡ [])
  cleared_iff [] = ground arith
  cleared_iff (d ∷ ds) = ground arith

  -- `Lex` only adds errors of its file to the sink, behind what is there, and `ok` is true exactly
  -- when it adds none.
  pub lex-Reports :
      (source_text file_path : Bytes) (sink : DiagnosticSink) {r : LexResult F}
      → lex read_double source_text file_path sink ≡ some r
      → (added : DiagnosticSink) × (r.status.diagnostics ≡ sink ++ added)
        × AllErrors file_path added
        × ((r.status.ok ≡ true) ↔ (added ≡ []))
  unfolding lex
  lex-Reports source_text file_path sink {r} h =
      let (r', e, _, reports) =
        run_loop-Ends (suc (length source_text)) source_text (record { line = 1; column = 1 })
          (record { file_path = file_path; ok = true; diagnostics = sink }) (omega arith) in
      let same : r' ≡ r = cc in
      subst
        (λ (x : LexResult F).
          (added : DiagnosticSink) × (x.status.diagnostics ≡ sink ++ added)
          × AllErrors file_path added
          × ((x.status.ok ≡ true) ↔ (added ≡ [])))
        same
        (
          reports.added,
          reports.sink,
          reports.errors,
          rw reports.cleared (cleared_iff reports.added),
        )
