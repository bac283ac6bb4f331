-- ===== src/Lex/Moves.antt =====
-- What the loops of the lexer consume: a text between two cursors, walked over byte by byte.
pub mod Trivia
pub mod Number
pub mod Quoted
pub mod Punctuation
use c_modern.Common.{
  ℕ, suc, zero, ◌+◌, ◌-◌, ◌<◌, Bool, true, false, not, ◌&&◌, ◌||◌, [], ◌∷◌, ◌++◌, Bytes, length,
  take, ◌==◌, ◌≡◌, ◌≢◌, refl, sym, ap, ◌∙◌, arith, append_assoc, if◌then◌else◌, length-append, ◌⊎◌,
  inl, inr, Bool-cases,
}
use c_modern.Support.Span.{SourcePosition}
use c_modern.Lex.Cursor.{
  Cursor, at, at_end, peek, advance_position, advance, is_blank, skip_from, skip_trivia, newlines,
  identifier_loop, lexeme_between, is_identifier_continue,
}

-- The position behind a text that begins at `p`.
abbrev pub walk : SourcePosition → Bytes → SourcePosition
walk p [] = p
walk p (ch ∷ w) = walk (advance_position ch p) w

-- A text `w` with the property `P` lies between two cursors.
abbrev pub Moves : (Bytes → Type 0) → Cursor → Cursor → Type 0
Moves P c c' = (w : Bytes) × P w × (c.rest ≡ w ++ c'.rest) × (c'.position ≡ walk c.position w)

abbrev pub Any : Bytes → Type 0
Any w = Unit

-- Whether the text was some property does not matter.
pub Moves-Any : {P : Bytes → Type 0} {c c' : Cursor} → Moves P c c' → Moves Any c c'
Moves-Any (w, _, e, p) = (w, tt, e, p)

pub Moves-weaken :
    {P Q : Bytes → Type 0} {c c' : Cursor} → ((w : Bytes) → P w → Q w) → Moves P c c' → Moves Q c c'
Moves-weaken f (w, h, e, p) = (w, f w h, e, p)

pub Moves-stay : (c : Cursor) → Moves Any c c
Moves-stay c = ([], tt, refl, refl)

pub Moves-step :
    (ch : ℕ) (r : Bytes) (p : SourcePosition) {c' : Cursor}
    → Moves Any (at r (advance_position ch p)) c'
    → Moves Any (at (ch ∷ r) p) c'
Moves-step ch r p (w, _, e, q) = (ch ∷ w, tt, ap (◌∷◌ ch) e, q)

pub walk-append : (v w : Bytes) (p : SourcePosition) → walk p (v ++ w) ≡ walk (walk p v) w
walk-append [] w p = refl
walk-append (ch ∷ v) w p = walk-append v w (advance_position ch p)

pub Moves-join :
    {P Q R : Bytes → Type 0} {a b c : Cursor}
    → ((v w : Bytes) → P v → Q w → R (v ++ w))
    → Moves P a b
    → Moves Q b c
    → Moves R a c
Moves-join {a = a} join (v, pv, e, p) (w, qw, f, q) = (
  v ++ w,
  join v w pv qw,
  e ∙ ap (◌++◌ v) f ∙ sym (append_assoc v w _),
  q ∙ ap (λ x. walk x w) p ∙ sym (walk-append v w a.position),
)

pub Moves-trans : {a b c : Cursor} → Moves Any a b → Moves Any b c → Moves Any a c
Moves-trans = Moves-join {P = Any} {Q = Any} {R = Any} (λ _ _ _ _. tt)

-- At least one byte lies between two cursors.
abbrev pub Proper : Bytes → Type 0
Proper w = w ≢ []

Proper-append : (v w : Bytes) → Proper v → Any w → Proper (v ++ w)
Proper-append [] w ne _ = absurd (ne refl)
Proper-append (ch ∷ v) w ne _ = λ e. cc

pub Proper-trans : {a b c : Cursor} → Moves Proper a b → Moves Any b c → Moves Proper a c
Proper-trans = Moves-join {P = Proper} {Q = Any} {R = Proper} Proper-append

pub Proper-step :
    (ch : ℕ) (r : Bytes) (p : SourcePosition) {c' : Cursor}
    → Moves Any (at r (advance_position ch p)) c'
    → Moves Proper (at (ch ∷ r) p) c'
Proper-step ch r p (w, _, e, q) = (ch ∷ w, (λ x. cc), ap (◌∷◌ ch) e, q)

pub Proper-length : {c c' : Cursor} (m : Moves Proper c c') → length c'.rest < length c.rest
Proper-length ([], ne, e, q) = absurd (ne refl)
Proper-length {c' = c'} (ch ∷ w, ne, e, q) = rw e (omega (arith, length-append w c'.rest))

take-append_left : (w r : Bytes) → take (length (w ++ r) - length r) (w ++ r) ≡ w
take-append_left [] r = let e : length r - length r ≡ 0 = omega arith in rw e refl
take-append_left (ch ∷ w) r =
    let e : suc (length (w ++ r)) - length r ≡ suc (length (w ++ r) - length r) =
      omega (arith, length-append w r) in
    rw e (ap (◌∷◌ ch) (take-append_left w r))

-- The lexeme between two cursors is the text that was consumed.
pub Moves-lexeme :
    {P : Bytes → Type 0} {c c' : Cursor} (m : Moves P c c') → lexeme_between c.rest c'.rest ≡ m.0
Moves-lexeme {c' = c'} (w, _, e, _) = rw e (take-append_left w c'.rest)
