-- ===== src/Lex/Literals/Value.antt =====
-- What the loop of `ParseIntegerLiteralValue` computes: the value over unbounded numbers, if it
-- fits an int64.
use c_modern.Common.{
  ℕ, ◌+◌, ◌-◌, ◌*◌, ◌/◌, ◌≤◌, ◌<◌, Bool, true, false, ◌&&◌, ◌||◌, [], ◌∷◌, Option, none, some,
  Bytes, ltb, leb, ◌==◌, if◌then◌else◌, ◌≡◌, refl, ◌⊎◌, inl, inr, arith, Bool-cases, Option-cases,
  not, ap, sym, ◌∙◌,
}
use c_modern.Lex.Literals.{
  digit_value, push_digit, digits_loop, int64_max, is_x, parse_integer_literal_value,
}

-- The value of a digit sequence over unbounded numbers: `none` on a byte that is no digit of the
-- base and no separator.
unfoldable pub unbounded : ℕ → ℕ → Bytes → Option ℕ
unbounded base value [] = some value
unbounded base value (ch ∷ text) = elim (ch == b'_') [
  | true ↦ unbounded base value text
  | false ↦ elim (digit_value ch) [
    | none ↦ none
    | some digit ↦ elim (leb base digit) [
      | true ↦ none
      | false ↦ unbounded base (value * base + digit) text
    ]
  ]
]

abbrev pub has_digit : Bytes → Bool
has_digit [] = false
has_digit (ch ∷ text) = not (ch == b'_') || has_digit text

-- A value that is accepted: one that fits, of a text with a digit.
abbrev pub accept : Bool → Option ℕ → Option ℕ
accept digit none = none
accept digit (some v) = if digit && leb v int64_max then some v else none

abbrev pub IsBase : ℕ → Type 0
IsBase base = (base ≡ 10) ⊎ (base ≡ 16)

-- The guard of the loop, as division states it, and what it protects.
guard_iff :
    (base value digit : ℕ)
    → IsBase base
    → digit < base
    → ltb ((int64_max - digit) / base) value ≡ ltb int64_max (value * base + digit)
guard_iff base value digit (inl b) h = let h' : digit < 10 = omega arith in rw b (ground arith)
guard_iff base value digit (inr b) h = let h' : digit < 16 = omega arith in rw b (ground arith)

grow : (base value digit : ℕ) → IsBase base → value ≤ value * base + digit
grow base value digit (inl b) = rw b (omega arith)
grow base value digit (inr b) = rw b (omega arith)

unbounded-le :
    (base value : ℕ) (text : Bytes) (v : ℕ)
    → IsBase base
    → unbounded base value text ≡ some v
    → value ≤ v
unfolding unbounded
unbounded-le base value [] v b e = ground arith
unbounded-le base value (ch ∷ text) v b e = elim (Option-cases (digit_value ch)) [
  | inl nothing ↦ ground (arith, unbounded-le base value text v b)
  | inr (d, is_d) ↦ ground (
    arith,
    unbounded-le base value text v b,
    grow base value d b,
    unbounded-le base (value * base + d) text v b,
  )
]

-- Once the limit is passed nothing is accepted.
accept-beyond :
    (base value : ℕ) (digit : Bool) (text : Bytes)
    → IsBase base
    → int64_max < value
    → accept digit (unbounded base value text) ≡ none
accept-beyond base value digit text b h = elim (Option-cases (unbounded base value text)) [
  | inl e ↦ rw e
  | inr (v, e) ↦ rw e (let le = unbounded-le base value text v b e in ground arith)
]

-- A digit below the base: the guard refuses it exactly where the value passes the limit.
push_digit-some :
    (base value ch d : ℕ)
    → IsBase base
    → digit_value ch ≡ some d
    → leb base d ≡ false
    → push_digit base value ch
      ≡ (if ltb int64_max (value * base + d) then none else some (value * base + d))
unfolding push_digit
push_digit-some base value ch d b is_d small = ground (arith, guard_iff base value d b)

push_digit-none :
    (base value ch : ℕ)
    → (digit_value ch ≡ none) ⊎ ((d : ℕ) × (digit_value ch ≡ some d) × (leb base d ≡ true))
    → push_digit base value ch ≡ none
unfolding push_digit
push_digit-none base value ch (inl e) = ground arith
push_digit-none base value ch (inr (d, e, h)) = ground arith

unbounded-none :
    (base value ch : ℕ) (text : Bytes)
    → (ch == b'_') ≡ false
    → (digit_value ch ≡ none) ⊎ ((d : ℕ) × (digit_value ch ≡ some d) × (leb base d ≡ true))
    → unbounded base value (ch ∷ text) ≡ none
unfolding unbounded
unbounded-none base value ch text other (inl e) = ground arith
unbounded-none base value ch text other (inr (d, e, h)) = ground arith

unbounded-some :
    (base value ch d : ℕ) (text : Bytes)
    → (ch == b'_') ≡ false
    → digit_value ch ≡ some d
    → leb base d ≡ false
    → unbounded base value (ch ∷ text) ≡ unbounded base (value * base + d) text
unfolding unbounded
unbounded-some base value ch d text other e h = ground arith

digits_loop-cons :
    (base value ch : ℕ) (saw : Bool) (text : Bytes) (o : Option ℕ)
    → (ch == b'_') ≡ false
    → push_digit base value ch ≡ o
    → digits_loop base value saw (ch ∷ text)
      ≡ elim o [ none ↦ none | some next ↦ digits_loop base next true text ]
unfolding digits_loop
digits_loop-cons base value ch saw text o other e = ground arith

digits_loop-sep :
    (base value ch : ℕ) (saw : Bool) (text : Bytes)
    → (ch == b'_') ≡ true
    → digits_loop base value saw (ch ∷ text) ≡ digits_loop base value saw text
unfolding digits_loop
digits_loop-sep base value ch saw text e = ground arith

accept-same : (a b : Bool) (o : Option ℕ) → a ≡ b → accept a o ≡ accept b o
accept-same a b o e = rw e

-- The loop gives the unbounded value where it fits an int64 and there is a digit, else nothing.
digits_loop-unbounded :
    (base value : ℕ) (saw : Bool) (text : Bytes)
    → IsBase base
    → value ≤ int64_max
    → digits_loop base value saw text ≡ accept (saw || has_digit text) (unbounded base value text)
digits_loop-unbounded base value saw [] b h = unfold digits_loop unbounded in ground arith
digits_loop-unbounded base value saw (ch ∷ text) b h = elim (Bool-cases (ch == b'_')) [
  | inl sep ↦
      digits_loop-sep base value ch saw text sep
      ∙ digits_loop-unbounded base value saw text b h
      ∙ unfold unbounded in ground arith
  | inr other ↦ elim (Option-cases (digit_value ch)) [
    | inl nothing ↦ refused other (inl nothing)
    | inr (d, is_d) ↦ elim (Bool-cases (leb base d)) [
      | inl large ↦ refused other (inr (d, is_d, large))
      | inr small ↦
          digits_loop-cons base value ch saw text _ other
            (push_digit-some base value ch d b is_d small)
          ∙ next d (digits_loop-unbounded base (value * base + d) true text b)
          ∙ rw (other, unbounded-some base value ch d text other is_d small)
              (accept-same true (saw || true) _ (ground arith))
    ]
  ]
]
  where
    refused :
        (ch == b'_') ≡ false
        → (digit_value ch ≡ none) ⊎ ((d : ℕ) × (digit_value ch ≡ some d) × (leb base d ≡ true))
        → digits_loop base value saw (ch ∷ text)
          ≡ accept (saw || has_digit (ch ∷ text)) (unbounded base value (ch ∷ text))
    refused other no_digit =
        digits_loop-cons base value ch saw text none other (push_digit-none base value ch no_digit)
        ∙ ap (accept _) (sym (unbounded-none base value ch text other no_digit))

    next :
        (d : ℕ)
        → (value * base + d ≤ int64_max
            → digits_loop base (value * base + d) true text
              ≡ accept true (unbounded base (value * base + d) text))
        → elim (if ltb int64_max (value * base + d) then none else some (value * base + d)) [
          | none ↦ none
          | some n ↦ digits_loop base n true text
        ]
          ≡ accept true (unbounded base (value * base + d) text)
    next d ih = elim (Bool-cases (ltb int64_max (value * base + d))) [
      | inl over ↦ rw over (sym (accept-beyond base (value * base + d) true text b (ground arith)))
      | inr fits ↦ rw fits (ih (ground arith))
    ]

-- The digits of a literal behind its base's prefix.
abbrev pub base_of : Bytes → ℕ
base_of (first ∷ second ∷ text) = if first == b'0' && is_x second then 16 else 10
base_of _ = 10

abbrev pub digits_of : Bytes → Bytes
digits_of (first ∷ second ∷ text) =
    if first == b'0' && is_x second then text else first ∷ second ∷ text
digits_of text = text

-- `ParseIntegerLiteralValue` gives a literal the value that its digits have over unbounded numbers,
-- in base 16 behind `0x` or `0X` and else in base 10, if each byte is a digit of the base or a
-- separator, there is a digit, and the value fits an int64; in all other cases nothing.
pub parse_integer_literal_value-unbounded :
    (text : Bytes)
    → parse_integer_literal_value text
      ≡ accept (has_digit (digits_of text)) (unbounded (base_of text) 0 (digits_of text))
unfolding parse_integer_literal_value
parse_integer_literal_value-unbounded [] = unfold unbounded in refl
parse_integer_literal_value-unbounded (first ∷ []) =
    digits_loop-unbounded 10 0 false (first ∷ []) (inl refl) (omega arith)
parse_integer_literal_value-unbounded (first ∷ second ∷ text) =
    elim (Bool-cases (first == b'0' && is_x second)) [
      | inl hex ↦ rw hex (digits_loop-unbounded 16 0 false text (inr refl) (omega arith))
      | inr dec ↦
          rw dec (digits_loop-unbounded 10 0 false (first ∷ second ∷ text) (inl refl) (omega arith))
    ]
