-- ===== src/Lex/Tiling/Rounds.antt =====
-- One round of `Run` puts its token, or the byte that it passes over, in front of a tiling.
use c_modern.Common.{
  ℕ, suc, ◌<◌, Bool, true, false, List, ◌∷◌, Bytes, length, ◌==◌, Option, some, ◌≡◌, ◌≢◌, refl, sym,
  ap, ◌∙◌, arith, inl, inr, if_cases, if_rule, subst, Option-cases,
}
use c_modern.Support.Span.{SourcePosition}
use c_modern.Lex.Token.{TokenKind, Token}
use c_modern.Lex.Cursor.{
  Cursor, at, peek, advance_position, advance, lexeme_between, newlines, identifier_loop,
  is_identifier_start, is_decimal_digit,
}
use c_modern.Lex.Status.{Status, fail}
use c_modern.Lex.Number.{scan_number, lex_number}
use c_modern.Lex.Quoted.{scan_string, lex_string, closed_char, lex_char_literal}
use c_modern.Lex.Punctuation.{punctuation, advance_by, emit, lex_punctuation}
use c_modern.Lex.Run.{
  Round, emitted, scanned, push_back, consume_newline, lex_identifier, unexpected,
  punctuation_or_unexpected, lex_token,
}
use c_modern.Lex.Moves.{Moves, Moves-weaken, Moves-lexeme, Proper, Proper-length, walk}
use c_modern.Lex.Moves.Number.{scan_number-Proper}
use c_modern.Lex.Moves.Quoted.{scan_string-Proper, closed_char-Proper}
use c_modern.Lex.Moves.Trivia.{newlines-ProperRun, newlines-peek, ProperRun}
use c_modern.Lex.Moves.Punctuation.{advance_by-Moves}
use c_modern.Lex.Reports.{Reports, Reports-stay, Reports-fail, Reports-trans}
use c_modern.Lex.Reports.Scans.{scan_number-Reports, scan_string-Reports, closed_char-Reports}
use c_modern.Lex.Tiling.{Tiles, solid, line_breaks, stray, is_layout, Spelled, span_of, StartsNone}
use c_modern.Lex.Tiling.Punctuation.{punctuation_kind}
use c_modern.Lex.Tiling.Tokens.{
  punctuation_spelling, identifier_kind-Spelled, punctuation_fits, identifier_kind-solid,
  identifier_loop-Proper,
}

module _ {F : Type 0} where
  -- What the main loop needs of a round.
  pub record Steps (c : Cursor) (s : Status) (r : Round F) : Type 0 where
    pub shorter : length r.cursor.rest < length c.rest
    pub reports : Reports s r.status
    pub tiles :
        (ok : Bool) (ts : List (Token F))
        → (r.status.ok ≡ false → ok ≡ false)
        → Tiles F ok r.cursor.position r.cursor.rest ts
        → Tiles F ok c.position c.rest (push_back r.token ts)

  -- A round that makes a token of the bytes that it consumes.
  Steps-token :
      (c c' : Cursor) (s s' : Status) (t : Token F)
      → Moves Proper c c'
      → Reports s s'
      → is_layout t.kind ≡ false
      → Spelled t.kind t.lexeme
      → t.lexeme ≡ lexeme_between c.rest c'.rest
      → t.span ≡ span_of c.position c'.position
      → Steps c s (record { token = some t; cursor = c'; status = s' })
  Steps-token c c' s s' t (w, ne, e, q) r kind spelled text span = record {
    shorter = Proper-length m;
    reports = r;
    tiles = λ ok ts _ rest.
        solid c'.rest kind spelled (λ empty. ne (sym same ∙ empty)) (rw same e)
          (span ∙ ap (span_of c.position) end) (subst (λ p. Tiles F ok p c'.rest ts) end rest);
  }
    where
      m : Moves Proper c c'
      m = (w, ne, e, q)

      same : t.lexeme ≡ w
      same = text ∙ Moves-lexeme m

      end : c'.position ≡ walk c.position t.lexeme
      end = q ∙ ap (walk c.position) (sym same)

  module _ (ch : ℕ) (r : Bytes) (p : SourcePosition) (s : Status) where
    Steps-identifier :
        is_identifier_start ch ≡ true
        → Steps (at (ch ∷ r) p) s (emitted s (lex_identifier (at (ch ∷ r) p)))
    unfolding lex_identifier
    Steps-identifier h =
        let behind = identifier_loop (ch ∷ r) p in
        Steps-token (at (ch ∷ r) p) behind s s _ (identifier_loop-Proper ch r p h) (Reports-stay s)
          (identifier_kind-solid (lexeme_between (ch ∷ r) behind.rest))
          (identifier_kind-Spelled (lexeme_between (ch ∷ r) behind.rest)) refl refl

    Steps-number :
        (read_double : Bytes → Option F)
        → is_decimal_digit ch ≡ true
        → Steps (at (ch ∷ r) p) s (scanned (lex_number read_double (at (ch ∷ r) p) s))
    unfolding lex_number
    Steps-number read_double h =
        let l = scan_number (at (ch ∷ r) p) s in
        Steps-token (at (ch ∷ r) p) l.0.cursor s l.0.status _ (scan_number-Proper ch r p s h)
          (scan_number-Reports (at (ch ∷ r) p) s) (if_rule (λ k. is_layout k ≡ false) l.1 refl refl)
          (if_rule (λ k. Spelled k (lexeme_between (ch ∷ r) l.0.cursor.rest)) l.1 (λ h. cc)
            (λ h. cc))
          refl refl

    Steps-string : Steps (at (ch ∷ r) p) s (scanned (lex_string (at (ch ∷ r) p) s))
    unfolding lex_string
    Steps-string =
        let d = scan_string (at (ch ∷ r) p) s in
        Steps-token (at (ch ∷ r) p) d.cursor s _ _ (scan_string-Proper ch r p s)
          (Reports-trans (scan_string-Reports (at (ch ∷ r) p) s)
            (if_rule (Reports d.status) d.terminated (Reports-stay _) (Reports-fail p _ _ _)))
          refl (λ h. cc) refl refl

    Steps-char : Steps (at (ch ∷ r) p) s (scanned (lex_char_literal (at (ch ∷ r) p) s))
    unfolding lex_char_literal
    Steps-char =
        Steps-token (at (ch ∷ r) p) (closed_char (at (ch ∷ r) p) s).cursor s _ _
          (closed_char-Proper ch r p s) (closed_char-Reports (at (ch ∷ r) p) s) refl (λ h. cc) refl
          refl

    Steps-newline :
        ch ≡ b'\n' → Steps (at (ch ∷ r) p) s (emitted s (consume_newline (at (ch ∷ r) p)))
    unfolding consume_newline
    Steps-newline h = record {
      shorter = Proper-length (Moves-weaken (λ w x. x.1) m);
      reports = Reports-stay s;
      tiles = λ ok ts _ rest.
          let (w, run, e, q) = m in
          line_breaks w (newlines (suc (length r)) (at (ch ∷ r) p)).rest refl refl run.1 run.0
            (newlines-peek (suc (length r)) (ch ∷ r) p (omega arith)) e (ap (span_of p) q)
            (subst (λ x. Tiles F ok x (newlines (suc (length r)) (at (ch ∷ r) p)).rest ts) q rest);
    }
      where
        m : Moves ProperRun (at (ch ∷ r) p) (newlines (suc (length r)) (at (ch ∷ r) p))
        m = newlines-ProperRun (length r) ch r p h

    Steps-unexpected :
        StartsNone ch (peek r) → Steps (at (ch ∷ r) p) s (unexpected (at (ch ∷ r) p) s)
    unfolding unexpected advance fail
    Steps-unexpected unknown = record {
      shorter = omega arith;
      reports = Reports-fail p (advance_position ch p) _ s;
      tiles = λ ok ts failed rest. stray ch r (failed refl) unknown refl rest;
    }

    Steps-emit :
        (kind : TokenKind) (width : ℕ)
        → punctuation ch (peek r) ≡ some (kind, width)
        → Steps (at (ch ∷ r) p) s (emitted s (emit kind width (at (ch ∷ r) p)))
    unfolding emit
    Steps-emit k width e =
        let (proper, fits) = punctuation_fits ch r e in
        let m = advance_by-Moves width (ch ∷ r) p fits in
        Steps-token (at (ch ∷ r) p) (advance_by width (at (ch ∷ r) p)) s s _
          (Moves-weaken (λ w same empty. proper (sym same ∙ empty)) m) (Reports-stay s)
          (punctuation_kind ch (peek r) e) (λ _. punctuation_spelling ch r e)
          (sym (Moves-lexeme m ∙ m.1)) refl

    -- Both branches behind `LexPunctuation`.
    Steps-punctuation :
        is_identifier_start ch ≡ false
        → is_decimal_digit ch ≡ false
        → ch ≢ b'"'
        → ch ≢ b'\''
        → Steps
            (at (ch ∷ r) p)
            s
            (punctuation_or_unexpected (lex_punctuation (at (ch ∷ r) p)) (at (ch ∷ r) p) s)
    unfolding punctuation_or_unexpected lex_punctuation
    Steps-punctuation a b c d = elim (Option-cases (punctuation ch (peek r))) [
      | inl e ↦ rw (e, lex_punctuation) (Steps-unexpected (a, b, c, d, e))
      | inr ((k, width), e) ↦ rw (e, lex_punctuation) (Steps-emit k width e)
    ]

  -- A round of the loop, where there is a byte to read.
  pub lex_token-Steps :
      (read_double : Bytes → Option F) (ch : ℕ) (r : Bytes) (p : SourcePosition) (s : Status)
      → Steps (at (ch ∷ r) p) s (lex_token read_double (at (ch ∷ r) p) s)
  unfolding lex_token
  lex_token-Steps read_double ch r p s =
      if_cases P (ch == b'\n') (λ h. Steps-newline ch r p s (ground arith))
        (λ _. if_cases P (is_identifier_start ch) (Steps-identifier ch r p s) (λ a.
          if_cases P (is_decimal_digit ch) (Steps-number ch r p s read_double) (λ b.
            if_cases P (ch == b'"') (λ _. Steps-string ch r p s)
              (λ c.
                if_cases P (ch == b'\'') (λ _. Steps-char ch r p s)
                  (λ d. Steps-punctuation ch r p s a b (ground arith) (ground arith))))))
    where
      P : Round F → Type 0
      P = Steps (at (ch ∷ r) p) s
