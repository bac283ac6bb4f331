-- ===== src/Lex/Moves/Punctuation.antt =====
-- `emit` consumes the bytes of its lexeme.
use c_modern.Common.{ℕ, suc, zero, ◌≤◌, [], ◌∷◌, Bytes, length, take, ◌≡◌, refl, ap, arith}
use c_modern.Support.Span.{SourcePosition}
use c_modern.Lex.Cursor.{at, advance_position, advance}
use c_modern.Lex.Punctuation.{advance_by}
use c_modern.Lex.Moves.{Moves}

pub advance_by-Moves :
    (width : ℕ) (r : Bytes) (p : SourcePosition)
    → width ≤ length r
    → Moves (λ w. w ≡ take width r) (at r p) (advance_by width (at r p))
unfolding advance_by advance
advance_by-Moves zero r p h = ([], refl, refl, refl)
advance_by-Moves (suc width) [] p h = absurd (omega arith)
advance_by-Moves (suc width) (ch ∷ r) p h =
    let (w, same, e, q) = advance_by-Moves width r (advance_position ch p) (omega arith) in
    (ch ∷ w, ap (◌∷◌ ch) same, ap (◌∷◌ ch) e, q)
