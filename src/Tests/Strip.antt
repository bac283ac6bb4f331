-- ===== src/Tests/Strip.antt =====
-- compiler/sema/type_utils.cpp at two aliases that contain each other.
use c_modern.Common.{true, false, List, [], ◌∷◌, some, Bytes, codes, ◌≡◌, refl, ◌↔◌}
use c_modern.Sema.TypeKind.{TypeKind}
use c_modern.Sema.SemaType.{SemaType, make_type, nil, cons, named_type}
use c_modern.Sema.Layout.{DeclKind, TypeDeclSummary, no_layout}
use c_modern.Sema.Strip.{TypeStripMode, strip_type}
use c_modern.Sema.Strip.Ends.{strip_type-total}
use c_modern.Sema.Assignable.{stripped, canonical_of, is_assignable, merge_numeric_types}
use c_modern.Sema.Conversion.{is_explicitly_convertible}
use c_modern.Sema.Assignable.Takes.{Takes, is_assignable_iff}
use c_modern.Sema.Assignable.Agree.{merge_numeric_types-is_assignable}
use c_modern.Sema.Assignable.Merge.{merge_numeric_types_comm}

abbrev alias : Bytes → SemaType → TypeDeclSummary
alias name type = record {
  kind = DeclKind.k_type_alias;
  name = name;
  type_params = [];
  fields = [];
  variants = [];
  aliased_type = type;
  is_packed = false;
  layout = no_layout;
}

abbrev decls : List TypeDeclSummary
decls =
    alias (codes "Left") (named_type (codes "Right"))
    ∷ alias (codes "Right") (named_type (codes "Left"))
    ∷ alias (codes "Size") (named_type (codes "u64"))
    ∷ []

abbrev int_literal : SemaType
int_literal = make_type TypeKind.k_int_literal [] [] nil

cycle :
    strip_type decls TypeStripMode.k_aliases_only (named_type (codes "Left"))
    ≡ some (named_type (codes "Left"))
unfolding strip_type
cycle = refl

alias_opens :
    strip_type decls TypeStripMode.k_aliases_only
      (make_type TypeKind.k_pointer [] [] (cons (named_type (codes "Size")) nil))
    ≡ some (make_type TypeKind.k_pointer [] [] (cons (named_type (codes "u64")) nil))
unfolding strip_type
alias_opens = refl

literal_fits : is_assignable decls (named_type (codes "Size")) int_literal ≡ true
unfolding is_assignable
literal_fits = refl

strip_type-total_example :
    (r : SemaType) × (strip_type decls TypeStripMode.k_aliases_only (named_type (codes "Left"))
      ≡ some r)
strip_type-total_example =
    strip_type-total decls TypeStripMode.k_aliases_only (named_type (codes "Left"))

merge_numeric_types_comm_example :
    merge_numeric_types decls (named_type (codes "Size")) int_literal
    ≡ merge_numeric_types decls int_literal (named_type (codes "Size"))
merge_numeric_types_comm_example =
    merge_numeric_types_comm decls (named_type (codes "Size")) int_literal

is_assignable_iff_example :
    (is_assignable decls (named_type (codes "Size")) int_literal ≡ true)
    ↔ Takes
        (stripped decls TypeStripMode.k_aliases_only
          (canonical_of decls (named_type (codes "Size"))))
        (canonical_of decls (named_type (codes "Size")))
        (canonical_of decls int_literal)
is_assignable_iff_example = is_assignable_iff decls (named_type (codes "Size")) int_literal

literal_converts : is_explicitly_convertible decls (named_type (codes "Size")) int_literal ≡ true
unfolding is_explicitly_convertible
literal_converts = refl

not_boolean : is_assignable decls (named_type (codes "bool")) int_literal ≡ false
unfolding is_assignable
not_boolean = refl

merge_numeric_types-is_assignable_example :
    merge_numeric_types decls (named_type (codes "Size")) int_literal
    ≡ canonical_of decls (named_type (codes "Size"))
unfolding canonical_of
merge_numeric_types-is_assignable_example =
    merge_numeric_types-is_assignable decls (named_type (codes "Size")) int_literal (λ e. cc)
      (λ e. cc) (λ e. cc) literal_fits
