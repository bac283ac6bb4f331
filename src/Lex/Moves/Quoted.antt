-- ===== src/Lex/Moves/Quoted.antt =====
-- `LexString` and `LexCharLiteral` only move forward.
use c_modern.Common.{ℕ, Bool, true, false, [], ◌∷◌, Bytes, ◌==◌, if_rule, not, ◌≡◌, refl}
use c_modern.Support.Span.{SourcePosition}
use c_modern.Lex.Cursor.{at, advance_position, advance}
use c_modern.Lex.Status.{Status}
use c_modern.Lex.Quoted.{
  StringScan, string_loop, scan_string, is_line_end, CharState, CharScan, char_loop, scan_char,
  closed_char, check_extra, check_terminated, no_chars,
}
use c_modern.Lex.Moves.{Moves, Any, Moves-stay, Moves-step, Proper, Proper-step}

string_loop-Moves :
    (start : SourcePosition) (escaped : Bool) (r : Bytes) (p : SourcePosition) (s : Status)
    → Moves Any (at r p) (string_loop start escaped r p s).cursor
unfolding string_loop
string_loop-Moves start escaped [] p s = Moves-stay _
string_loop-Moves start true (ch ∷ r) p s = Moves-step ch r p (string_loop-Moves start false r _ _)
string_loop-Moves start false (ch ∷ r) p s = if_rule P (ch == b'"') one (
    if_rule P (ch == b'\\') (Moves-step ch r p (string_loop-Moves start true r _ _))
      (if_rule P (is_line_end ch) one (Moves-step ch r p (string_loop-Moves start false r _ _))))
  where
    P : StringScan → Type 0
    P d = Moves Any (at (ch ∷ r) p) d.cursor

    one : Moves Any (at (ch ∷ r) p) (at r (advance_position ch p))
    one = Moves-step ch r p (Moves-stay _)

pub scan_string-Proper :
    (ch : ℕ) (r : Bytes) (p : SourcePosition) (s : Status)
    → Moves Proper (at (ch ∷ r) p) (scan_string (at (ch ∷ r) p) s).cursor
unfolding scan_string advance
scan_string-Proper ch r p s = Proper-step ch r p (string_loop-Moves p false r _ s)

char_loop-Moves :
    (start : SourcePosition) (escaped : Bool) (r : Bytes) (p : SourcePosition) (chars : CharState)
    (s : Status)
    → Moves Any (at r p) (char_loop start escaped r p chars s).cursor
unfolding char_loop
char_loop-Moves start escaped [] p chars s = Moves-stay _
char_loop-Moves start true (ch ∷ r) p chars s =
    Moves-step ch r p (char_loop-Moves start false r _ _ _)
char_loop-Moves start false (ch ∷ r) p chars s = if_rule P (is_line_end ch) one (
    if_rule P (ch == b'\'') (if_rule P (not chars.saw_value) one one) (
      if_rule P (ch == b'\\') (Moves-step ch r p (char_loop-Moves start true r _ _ _))
        (Moves-step ch r p (char_loop-Moves start false r _ _ _))))
  where
    P : CharScan → Type 0
    P d = Moves Any (at (ch ∷ r) p) d.cursor

    one : Moves Any (at (ch ∷ r) p) (at r (advance_position ch p))
    one = Moves-step ch r p (Moves-stay _)

check_terminated-cursor :
    (start : SourcePosition) (r : CharScan) → (check_terminated start r).cursor ≡ r.cursor
unfolding check_terminated
check_terminated-cursor start r =
    if_rule (λ (d : CharScan). d.cursor ≡ r.cursor) r.terminated refl refl

check_extra-cursor :
    (start : SourcePosition) (r : CharScan) → (check_extra start r).cursor ≡ r.cursor
unfolding check_extra
check_extra-cursor start r = if_rule (λ (d : CharScan). d.cursor ≡ r.cursor) _ refl refl

scan_char-Proper :
    (ch : ℕ) (r : Bytes) (p : SourcePosition) (s : Status)
    → Moves Proper (at (ch ∷ r) p) (scan_char (at (ch ∷ r) p) s).cursor
unfolding scan_char advance
scan_char-Proper ch r p s = Proper-step ch r p (char_loop-Moves p false r _ no_chars s)

pub closed_char-Proper :
    (ch : ℕ) (r : Bytes) (p : SourcePosition) (s : Status)
    → Moves Proper (at (ch ∷ r) p) (closed_char (at (ch ∷ r) p) s).cursor
unfolding closed_char
closed_char-Proper ch r p s =
    rw (check_extra-cursor, check_terminated-cursor) (scan_char-Proper ch r p s)
