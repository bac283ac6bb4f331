-- ===== src/Sema/TypeKind.antt =====
-- compiler/sema/type.h: `Type::Kind`, with `==` on it.
use c_modern.Common.{
  ℕ, Bool, true, List, [], ◌∷◌, ◌==◌, ==_iff, get_or, ◌≡◌, refl, sym, ap, ◌∙◌, ◌↔◌,
}

pub data TypeKind : Type 0 where
  k_unknown k_void k_bool k_string k_nil k_int_literal k_float_literal k_named k_pointer k_const
        k_array k_tuple k_range k_procedure :
      TypeKind

-- The enumerators in the order of their values.
abbrev kinds : List TypeKind
kinds =
    TypeKind.k_unknown ∷ TypeKind.k_void ∷ TypeKind.k_bool ∷ TypeKind.k_string ∷ TypeKind.k_nil
    ∷ TypeKind.k_int_literal ∷ TypeKind.k_float_literal ∷ TypeKind.k_named ∷ TypeKind.k_pointer
    ∷ TypeKind.k_const ∷ TypeKind.k_array ∷ TypeKind.k_tuple ∷ TypeKind.k_range
    ∷ TypeKind.k_procedure ∷ []

abbrev index : TypeKind → ℕ
index TypeKind.k_unknown = 0
index TypeKind.k_void = 1
index TypeKind.k_bool = 2
index TypeKind.k_string = 3
index TypeKind.k_nil = 4
index TypeKind.k_int_literal = 5
index TypeKind.k_float_literal = 6
index TypeKind.k_named = 7
index TypeKind.k_pointer = 8
index TypeKind.k_const = 9
index TypeKind.k_array = 10
index TypeKind.k_tuple = 11
index TypeKind.k_range = 12
index TypeKind.k_procedure = 13

unfoldable pub kind_eq : TypeKind → TypeKind → Bool
kind_eq a b = index a == index b

kind_at : (k : TypeKind) → get_or kinds (index k) TypeKind.k_unknown ≡ k
kind_at TypeKind.k_unknown = refl
kind_at TypeKind.k_void = refl
kind_at TypeKind.k_bool = refl
kind_at TypeKind.k_string = refl
kind_at TypeKind.k_nil = refl
kind_at TypeKind.k_int_literal = refl
kind_at TypeKind.k_float_literal = refl
kind_at TypeKind.k_named = refl
kind_at TypeKind.k_pointer = refl
kind_at TypeKind.k_const = refl
kind_at TypeKind.k_array = refl
kind_at TypeKind.k_tuple = refl
kind_at TypeKind.k_range = refl
kind_at TypeKind.k_procedure = refl

pub kind_eq_iff : (a b : TypeKind) → (kind_eq a b ≡ true) ↔ (a ≡ b)
unfolding kind_eq
kind_eq_iff a b = (
  λ h.
      sym (kind_at a)
      ∙ ap (λ i. get_or kinds i TypeKind.k_unknown) ((==_iff (index a) (index b)).0 h)
      ∙ kind_at b,
  λ e. (==_iff (index a) (index b)).1 (ap index e),
)
