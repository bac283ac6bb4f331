-- ===== src/Lex/Tiling/Tokens.antt =====
-- Every branch of a round consumes at least one byte, and what a token's kind says.
use c_modern.Common.{
  ℕ, ◌≤◌, true, false, List, [], ◌∷◌, Bytes, length, take, some, text_eq, text_eq_iff, ◌≡◌, ◌≢◌,
  refl, sym, ap, ◌∙◌, arith, ◌⊎◌, inl, inr, if_rule, if_cases, subst, Option-cases,
}
use c_modern.Support.Span.{SourcePosition}
use c_modern.Lex.Token.{TokenKind, keywords, find_keyword, identifier_kind, to_string}
use c_modern.Lex.Cursor.{
  at, peek, advance, identifier_loop, is_identifier_start, is_identifier_continue,
}
use c_modern.Lex.Punctuation.{punctuation}
use c_modern.Lex.Moves.{Moves, Moves-Any, Moves-stay, Proper, Proper-step}
use c_modern.Lex.Moves.Trivia.{identifier_loop-Moves}
use c_modern.Lex.Tiling.{is_layout, Spelled}
use c_modern.Lex.Tiling.Punctuation.{punctuation-IsWidth, punctuation_text}

abbrev AllSolid : List (Bytes × TokenKind) → Type 0
AllSolid [] = Unit {0}
AllSolid ((_, kind) ∷ table) = (is_layout kind ≡ false) × AllSolid table

keywords-AllSolid : AllSolid keywords
keywords-AllSolid = ground arith

find_keyword-solid :
    (table : List (Bytes × TokenKind)) (text : Bytes) (kind : TokenKind)
    → AllSolid table
    → find_keyword table text ≡ some kind
    → is_layout kind ≡ false
unfolding find_keyword
find_keyword-solid [] text _ h = λ e. cc
find_keyword-solid ((word, k) ∷ table) text kind (h, hs) =
    if_rule (λ o. o ≡ some kind → is_layout kind ≡ false) (text_eq word text)
      (λ e. let same : k ≡ kind = cc in subst (λ j. is_layout j ≡ false) same h)
      (find_keyword-solid table text kind hs)

pub identifier_kind-solid : (text : Bytes) → is_layout (identifier_kind text) ≡ false
unfolding identifier_kind
identifier_kind-solid text = elim (Option-cases (find_keyword keywords text)) [
  | inl e ↦ rw e
  | inr (kind, e) ↦ rw e (find_keyword-solid keywords text kind keywords-AllSolid e)
]

abbrev AllSpelled : List (Bytes × TokenKind) → Type 0
AllSpelled [] = Unit {0}
AllSpelled ((word, kind) ∷ table) = (word ≡ to_string kind) × AllSpelled table

keywords-AllSpelled : AllSpelled keywords
unfolding to_string
keywords-AllSpelled = ground arith

find_keyword-spelled :
    (table : List (Bytes × TokenKind)) (text : Bytes) (kind : TokenKind)
    → AllSpelled table
    → find_keyword table text ≡ some kind
    → text ≡ to_string kind
unfolding find_keyword
find_keyword-spelled [] text _ h = λ e. cc
find_keyword-spelled ((word, k) ∷ table) text kind (h, hs) =
    if_cases (λ o. o ≡ some kind → text ≡ to_string kind) (text_eq word text)
      (λ same e.
        let same_kind : k ≡ kind = cc in
        sym ((text_eq_iff word text).0 same) ∙ h ∙ ap to_string same_kind)
      (λ _. find_keyword-spelled table text kind hs)

pub identifier_kind-Spelled : (text : Bytes) → Spelled (identifier_kind text) text
unfolding identifier_kind
identifier_kind-Spelled text = elim (Option-cases (find_keyword keywords text)) [
  | inl e ↦ rw e (λ h. cc)
  | inr (kind, e) ↦ rw e (λ _. find_keyword-spelled keywords text kind keywords-AllSpelled e)
]

-- `advance` from a cursor with a byte left.
pub advance-Proper :
    (ch : ℕ) (r : Bytes) (p : SourcePosition)
    → Moves Proper (at (ch ∷ r) p) (advance (at (ch ∷ r) p))
unfolding advance
advance-Proper ch r p = Proper-step ch r p (Moves-stay _)

pub identifier_loop-Proper :
    (ch : ℕ) (r : Bytes) (p : SourcePosition)
    → is_identifier_start ch ≡ true
    → Moves Proper (at (ch ∷ r) p) (identifier_loop (ch ∷ r) p)
unfolding identifier_loop is_identifier_start
identifier_loop-Proper ch r p h =
    let e : is_identifier_continue ch ≡ true = ground arith in
    rw e (Proper-step ch r p (Moves-Any (identifier_loop-Moves r _)))

-- The width of a punctuation token fits the text and is not 0.
pub punctuation_fits :
    (ch : ℕ) (r : Bytes) {kind : TokenKind} {width : ℕ}
    → punctuation ch (peek r) ≡ some (kind, width)
    → (take width (ch ∷ r) ≢ []) × (width ≤ length (ch ∷ r))
punctuation_fits ch r {width = width} e = fits r width (punctuation-IsWidth ch (peek r) e)
  where
    fits :
        (r : Bytes) (w : ℕ)
        → (w ≡ 1) ⊎ ((w ≡ 2) × (peek r ≢ 0))
        → (take w (ch ∷ r) ≢ []) × (w ≤ length (ch ∷ r))
    fits r w (inl one) = rw one ((λ x. cc), omega arith)
    fits [] w (inr (two, real)) = absurd (real refl)
    fits (x ∷ r) w (inr (two, real)) = rw two ((λ y. cc), omega arith)

-- The lexeme that `emit` takes is the spelling of its kind.
pub punctuation_spelling :
    (ch : ℕ) (r : Bytes) {kind : TokenKind} {width : ℕ}
    → punctuation ch (peek r) ≡ some (kind, width)
    → take width (ch ∷ r) ≡ to_string kind
punctuation_spelling ch r {width = width} e =
    same r width (punctuation-IsWidth ch (peek r) e) ∙ sym (punctuation_text ch (peek r) e)
  where
    same :
        (r : Bytes) (w : ℕ)
        → (w ≡ 1) ⊎ ((w ≡ 2) × (peek r ≢ 0))
        → take w (ch ∷ r) ≡ take w (ch ∷ peek r ∷ [])
    same r w (inl one) = rw one
    same [] w (inr (two, real)) = absurd (real refl)
    same (x ∷ r) w (inr (two, real)) = rw two
