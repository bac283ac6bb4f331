-- ===== src/Lex/Tiling/Punctuation.antt =====
-- Every kind that `LexPunctuation` emits is one of punctuation, and its width is that of its
-- spelling, which is what stands in the text.
use c_modern.Common.{
  ℕ, true, false, [], ◌∷◌, Option, none, some, take, ◌==◌, ==_iff, if◌then◌else◌, ◌≡◌, ◌≢◌, refl,
  sym, ap, ◌∙◌, ◌⊎◌, inl, inr, if_cases, subst,
}
use c_modern.Lex.Token.{TokenKind, to_string}
use c_modern.Lex.Punctuation.{punctuation}
use c_modern.Lex.Tiling.{is_layout}

abbrev pub IsWidth : ℕ → ℕ → Type 0
IsWidth next width = (width ≡ 1) ⊎ ((width ≡ 2) × (next ≢ 0))

abbrev Good : ℕ → ℕ → Option (TokenKind × ℕ) → Type 0
Good ch next none = Unit {0}
Good ch next (some (kind, width)) =
    (is_layout kind ≡ false) × (IsWidth next width × (to_string kind ≡ take width (ch ∷ next ∷ [])))

one :
    (ch next : ℕ) (kind : TokenKind) (c : ℕ)
    → (ch == c) ≡ true
    → is_layout kind ≡ false
    → to_string kind ≡ c ∷ []
    → Good ch next (some (kind, 1))
one ch next _ c h l t = (l, (inl refl, t ∙ ap (λ x. x ∷ []) (sym ((==_iff ch c).0 h))))

two :
    (ch next : ℕ) (kind : TokenKind) (c d : ℕ)
    → (ch == c) ≡ true
    → (next == d) ≡ true
    → is_layout kind ≡ false
    → to_string kind ≡ c ∷ d ∷ []
    → d ≢ 0
    → Good ch next (some (kind, 2))
two ch next _ c d h g l t ne =
    let same : ch ≡ c = (==_iff ch c).0 h in
    let same_next : next ≡ d = (==_iff next d).0 g in
    (l, (inr (refl, (λ z. ne (sym same_next ∙ z))), t ∙ rw (same, same_next)))

module _ (ch next : ℕ) where
  -- The three forms of a case of the switch, before the cases behind it.
  single :
      (kind : TokenKind) (c : ℕ) (rest : Option (TokenKind × ℕ))
      → is_layout kind ≡ false
      → to_string kind ≡ c ∷ []
      → Good ch next rest
      → Good ch next (if ch == c then some (kind, 1) else rest)
  single k c rest l t = λ g. if_cases (Good ch next) (ch == c) (λ h. one ch next k c h l t) (λ _. g)

  double :
      (c d : ℕ) (long short : TokenKind) (rest : Option (TokenKind × ℕ))
      → is_layout long ≡ false
      → to_string long ≡ c ∷ d ∷ []
      → is_layout short ≡ false
      → to_string short ≡ c ∷ []
      → d ≢ 0
      → Good ch next rest
      → Good ch next
          (if ch == c then (if next == d then some (long, 2) else some (short, 1)) else rest)
  double c d long short rest l t l' t' ne = λ g.
      if_cases (Good ch next) (ch == c)
        (λ h.
          if_cases (Good ch next) (next == d) (λ h'. two ch next long c d h h' l t ne)
            (λ _. one ch next short c h l' t'))
        (λ _. g)

  triple :
      (c d : ℕ) (long : TokenKind) (d' : ℕ) (long' short : TokenKind)
      (rest : Option (TokenKind × ℕ))
      → is_layout long ≡ false
      → to_string long ≡ c ∷ d ∷ []
      → is_layout long' ≡ false
      → to_string long' ≡ c ∷ d' ∷ []
      → is_layout short ≡ false
      → to_string short ≡ c ∷ []
      → d ≢ 0
      → d' ≢ 0
      → Good ch next rest
      → Good ch next (
          if ch == c
          then (if next == d
              then some (long, 2)
              else if next == d'
              then some (long', 2)
              else some (short, 1))
          else rest)
  triple c d long d' long' short rest l t l' t' l'' t'' ne ne' = λ g.
      if_cases (Good ch next) (ch == c)
        (λ h.
          if_cases (Good ch next) (next == d) (λ h'. two ch next long c d h h' l t ne)
            (λ _.
              if_cases (Good ch next) (next == d') (λ h'. two ch next long' c d' h h' l' t' ne')
                (λ _. one ch next short c h l'' t'')))
        (λ _. g)

  punctuation-Good : Good ch next (punctuation ch next)
  unfolding punctuation to_string
  punctuation-Good = single TokenKind.k_l_brace b'{' _ refl refl (
      single TokenKind.k_r_brace b'}' _ refl refl (
        single TokenKind.k_l_paren b'(' _ refl refl (
          single TokenKind.k_r_paren b')' _ refl refl (
            single TokenKind.k_l_bracket b'[' _ refl refl (
              single TokenKind.k_r_bracket b']' _ refl refl (
                single TokenKind.k_comma b',' _ refl refl (
                  double b':' b'=' TokenKind.k_colon_assign TokenKind.k_colon _ refl refl refl refl
                    (λ z. cc)
                    (single TokenKind.k_at b'@' _ refl refl (
                      triple b'.' b'*' TokenKind.k_dot_deref b'.' TokenKind.k_range TokenKind.k_dot
                        _ refl refl refl refl refl refl (λ z. cc) (λ z. cc)
                        (double b'=' b'=' TokenKind.k_eq_eq TokenKind.k_assign _ refl refl refl refl
                          (λ z. cc)
                          (double b'!' b'=' TokenKind.k_bang_eq TokenKind.k_bang _ refl refl refl
                            refl (λ z. cc)
                            (triple b'<' b'<' TokenKind.k_lt_lt b'=' TokenKind.k_lt_eq
                              TokenKind.k_lt _ refl refl refl refl refl refl (λ z. cc) (λ z. cc)
                              (triple b'>' b'>' TokenKind.k_gt_gt b'=' TokenKind.k_gt_eq
                                TokenKind.k_gt _ refl refl refl refl refl refl (λ z. cc) (λ z. cc)
                                (single TokenKind.k_plus b'+' _ refl refl (
                                  double b'-' b'>' TokenKind.k_arrow TokenKind.k_minus _ refl refl
                                    refl refl (λ z. cc)
                                    (single TokenKind.k_star b'*' _ refl refl (
                                      single TokenKind.k_slash b'/' _ refl refl (
                                        single TokenKind.k_percent b'%' _ refl refl (
                                          double b'&' b'&' TokenKind.k_amp_amp TokenKind.k_amp _
                                            refl refl refl refl (λ z. cc)
                                            (double b'|' b'|' TokenKind.k_pipe_pipe TokenKind.k_pipe
                                              _ refl refl refl refl (λ z. cc)
                                              (single TokenKind.k_caret b'^' _ refl refl
                                                tt)))))))))))))))))))))

pub punctuation_kind :
    (ch next : ℕ) {kind : TokenKind} {width : ℕ}
    → punctuation ch next ≡ some (kind, width)
    → is_layout kind ≡ false
punctuation_kind ch next e = (subst (Good ch next) e (punctuation-Good ch next)).0

pub punctuation-IsWidth :
    (ch next : ℕ) {kind : TokenKind} {width : ℕ}
    → punctuation ch next ≡ some (kind, width)
    → IsWidth next width
punctuation-IsWidth ch next e = (subst (Good ch next) e (punctuation-Good ch next)).1.0

pub punctuation_text :
    (ch next : ℕ) {kind : TokenKind} {width : ℕ}
    → punctuation ch next ≡ some (kind, width)
    → to_string kind ≡ take width (ch ∷ next ∷ [])
punctuation_text ch next e = (subst (Good ch next) e (punctuation-Good ch next)).1.1
