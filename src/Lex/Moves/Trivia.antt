-- ===== src/Lex/Moves/Trivia.antt =====
-- What `SkipTrivia`, the loop of `ConsumeNewline` and the loop of `LexIdentifier` consume, and
-- where they stop.
use c_modern.Common.{
  ℕ, suc, zero, ◌+◌, ◌≤◌, Bool, true, false, not, ◌&&◌, [], ◌∷◌, ◌++◌, Bytes, length, ◌==◌, ◌≡◌,
  ◌≢◌, refl, sym, ap, ◌∙◌, arith, length-append, ◌⊎◌, inl, inr, append_assoc, if_cases, if_rule,
}
use c_modern.Support.Span.{SourcePosition}
use c_modern.Lex.Cursor.{
  Cursor, at, at_end, peek, peek_next, advance_position, is_blank, skip_from, skip_trivia, newlines,
  identifier_loop, is_identifier_continue,
}
use c_modern.Lex.Moves.{Moves, Moves-weaken, walk, walk-append}

-- Blanks, and comments up to the end of their line; `comment` says that one is open.
abbrev pub Trivia : Bool → Bytes → Type 0
Trivia comment [] = Unit {0}
Trivia true (ch ∷ w) = (ch ≢ b'\n') × Trivia true w
Trivia false (ch ∷ w) = ((is_blank ch ≡ true) × Trivia false w) ⊎ ((ch ≡ b'/') × Trivia true w)

step-Trivia :
    (comment comment' : Bool) (ch : ℕ) (r : Bytes) (p : SourcePosition) {c' : Cursor}
    → ((w : Bytes) → Trivia comment' w → Trivia comment (ch ∷ w))
    → Moves (Trivia comment') (at r (advance_position ch p)) c'
    → Moves (Trivia comment) (at (ch ∷ r) p) c'
step-Trivia comment comment' ch r p more (w, t, e, q) = (ch ∷ w, more w t, ap (◌∷◌ ch) e, q)

skip_from-Moves :
    (comment : Bool) (r : Bytes) (p : SourcePosition)
    → Moves (Trivia comment) (at r p) (skip_from comment r p)
unfolding skip_from
skip_from-Moves comment [] p = ([], tt, refl, refl)
skip_from-Moves true (ch ∷ r) p =
    if_cases P (not (ch == b'\n'))
      (λ h. step-Trivia true true ch r p (λ w t. (ground arith, t)) (skip_from-Moves true r _))
      (λ h.
        if_cases P (is_blank ch) (λ k. absurd (ground arith))
          (λ _.
            if_cases P (ch == b'/' && peek r == b'/') (λ k. absurd (ground arith))
              (λ _. ([], tt, refl, refl))))
  where
    P : Cursor → Type 0
    P = Moves (Trivia true) (at (ch ∷ r) p)
skip_from-Moves false (ch ∷ r) p =
    if_cases P (is_blank ch)
      (λ h. step-Trivia false false ch r p (λ w t. inl (h, t)) (skip_from-Moves false r _))
      (λ _.
        if_cases P (ch == b'/' && peek r == b'/')
          (λ h.
            step-Trivia false true ch r p (λ w t. inr (ground arith, t)) (skip_from-Moves true r _))
          (λ _. ([], tt, refl, refl)))
  where
    P : Cursor → Type 0
    P = Moves (Trivia false) (at (ch ∷ r) p)

pub skip_trivia-Moves : (c : Cursor) → Moves (Trivia false) c (skip_trivia c)
unfolding skip_trivia
skip_trivia-Moves c = skip_from-Moves false c.rest c.position

-- No byte of this kind is left to skip.
abbrev pub Stopped : Bytes → Type 0
Stopped r = (is_blank (peek r) ≡ false) × (at_end r ≡ true ⊎ (peek r ≢ b'/') ⊎ (peek_next r ≢ b'/'))

skip_from-Stopped :
    (comment : Bool) (r : Bytes) (p : SourcePosition) → Stopped (skip_from comment r p).rest
unfolding skip_from
skip_from-Stopped comment [] p = (refl, inl refl)
skip_from-Stopped comment (ch ∷ r) p =
    if_rule P (comment && not (ch == b'\n')) (skip_from-Stopped true r _) (
      if_cases P (is_blank ch) (λ _. skip_from-Stopped false r _)
        (λ h.
          if_cases P (ch == b'/' && peek r == b'/') (λ _. skip_from-Stopped true r _)
            (λ k. (h, ground arith))))
  where
    P : Cursor → Type 0
    P c = Stopped c.rest

pub skip_trivia-Stopped : (c : Cursor) → Stopped (skip_trivia c).rest
unfolding skip_trivia
skip_trivia-Stopped c = skip_from-Stopped false c.rest c.position

-- Newlines, each with the blanks and the comment of the line that it begins.
pub data NewlineRun : Bytes → Type 0 where
  nil : NewlineRun []
  cons :
      (ch : ℕ) (t w : Bytes)
      → ch ≡ b'\n'
      → Trivia false t
      → NewlineRun w
      → NewlineRun (ch ∷ (t ++ w))

-- A run that is not empty.
abbrev pub ProperRun : Bytes → Type 0
ProperRun w = NewlineRun w × (w ≢ [])

newlines_round :
    (ch : ℕ) (r : Bytes) (p : SourcePosition) {a b : Cursor}
    → ch ≡ b'\n'
    → Moves (Trivia false) (at r (advance_position ch p)) a
    → Moves NewlineRun a b
    → Moves ProperRun (at (ch ∷ r) p) b
newlines_round ch r p n (t, trivia, e, q) (w, run, f, q') = (
  ch ∷ (t ++ w),
  (cons ch t w n trivia run, λ x. cc),
  ap (◌∷◌ ch) (e ∙ ap (◌++◌ t) f ∙ sym (append_assoc t w _)),
  q' ∙ ap (λ x. walk x w) q ∙ sym (walk-append t w _),
)

newlines-Moves :
    (fuel : ℕ) (r : Bytes) (p : SourcePosition) → Moves NewlineRun (at r p) (newlines fuel (at r p))
unfolding newlines
newlines-Moves zero r p = ([], nil, refl, refl)
newlines-Moves (suc fuel) [] p = ([], nil, refl, refl)
newlines-Moves (suc fuel) (ch ∷ r) p =
    let next = skip_trivia (at r (advance_position ch p)) in
    if_cases (Moves NewlineRun (at (ch ∷ r) p)) (ch == b'\n')
      (λ h.
        Moves-weaken (λ w x. x.0)
          (newlines_round ch r p (ground arith) (skip_trivia-Moves _)
            (newlines-Moves fuel next.rest next.position)))
      (λ _. ([], nil, refl, refl))

-- From a newline the loop consumes at least that.
pub newlines-ProperRun :
    (fuel ch : ℕ) (r : Bytes) (p : SourcePosition)
    → ch ≡ b'\n'
    → Moves ProperRun (at (ch ∷ r) p) (newlines (suc fuel) (at (ch ∷ r) p))
unfolding newlines
newlines-ProperRun fuel ch r p h =
    let next = skip_trivia (at r (advance_position ch p)) in
    if_cases (Moves ProperRun (at (ch ∷ r) p)) (ch == b'\n')
      (λ _.
        newlines_round ch r p h (skip_trivia-Moves _) (newlines-Moves fuel next.rest next.position))
      (λ e. absurd (ground arith))

pub Moves-length :
    {P : Bytes → Type 0} {c c' : Cursor} (m : Moves P c c')
    → length c.rest ≡ length m.0 + length c'.rest
Moves-length {c' = c'} (w, _, e, _) = rw e (length-append w c'.rest)

-- With a round for each byte the loop of `ConsumeNewline` ends at a byte that is no newline.
pub newlines-peek :
    (fuel : ℕ) (r : Bytes) (p : SourcePosition)
    → length r ≤ fuel
    → peek (newlines fuel (at r p)).rest ≢ b'\n'
unfolding newlines
newlines-peek zero [] p h = omega arith
newlines-peek zero (ch ∷ r) p h = absurd (omega arith)
newlines-peek (suc fuel) [] p h = omega arith
newlines-peek (suc fuel) (ch ∷ r) p h =
    let next = skip_trivia (at r (advance_position ch p)) in
    if_cases (λ (c : Cursor). peek c.rest ≢ b'\n') (ch == b'\n')
      (λ _.
        newlines-peek fuel next.rest next.position
          (omega (arith, Moves-length (skip_trivia-Moves (at r (advance_position ch p))))))
      (λ k. ground arith)

-- The bytes of an identifier.
abbrev pub AllContinue : Bytes → Type 0
AllContinue [] = Unit {0}
AllContinue (ch ∷ w) = (is_identifier_continue ch ≡ true) × AllContinue w

pub identifier_loop-Moves :
    (r : Bytes) (p : SourcePosition) → Moves AllContinue (at r p) (identifier_loop r p)
unfolding identifier_loop
identifier_loop-Moves [] p = ([], tt, refl, refl)
identifier_loop-Moves (ch ∷ r) p =
    if_cases (Moves AllContinue (at (ch ∷ r) p)) (is_identifier_continue ch)
      (λ h.
        let (w, all, e, q) = identifier_loop-Moves r (advance_position ch p) in
        (ch ∷ w, (h, all), ap (◌∷◌ ch) e, q))
      (λ _. ([], tt, refl, refl))

-- An identifier ends where no byte can continue it.
pub identifier_loop-peek :
    (r : Bytes) (p : SourcePosition)
    → is_identifier_continue (peek (identifier_loop r p).rest) ≡ false
unfolding identifier_loop
identifier_loop-peek [] p = refl
identifier_loop-peek (ch ∷ r) p =
    if_cases (λ (c : Cursor). is_identifier_continue (peek c.rest) ≡ false)
      (is_identifier_continue ch) (λ _. identifier_loop-peek r _) (λ h. h)
