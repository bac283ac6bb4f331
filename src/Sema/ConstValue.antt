-- ===== src/Sema/ConstValue.antt =====
-- compiler/sema/check.h and const_eval.cpp: the values of constant expressions, their text and the
-- functions that make them. What the code does with a `double` is a parameter.
use c_modern.Common.{suc, Bool, false, List, [], ◌∷◌, ◌++◌, Bytes, codes, decimal, if◌then◌else◌}
use c_modern.Common.Int.{ℤ, pos, negsuc}
use c_modern.Sema.SemaType.{SemaType, make_type, nil, format_type}
use c_modern.Sema.TypeKind.{TypeKind}

-- The operations of the language on `double`, the conversion of an int64, and `stream << value`.
pub record DoubleOps (F : Type 0) : Type 0 where
  pub zero_value : F
  pub of_int64 : ℤ → F
  pub plus : F → F → F
  pub minus : F → F → F
  pub times : F → F → F
  pub divided : F → F → F
  pub negated : F → F
  pub equal : F → F → Bool
  pub less : F → F → Bool
  pub less_equal : F → F → Bool
  pub print : F → Bytes

pub data ConstKind : Type 0 where
  k_bool k_integer k_float k_string k_nil k_procedure k_enum k_aggregate : ConstKind

-- `ConstValue`, with its fields in the order of the source: kind, integer_value, float_value, bool_value,
-- text, procedure_name, enum_type, variant_name, variant_tag, field_names, elements.
mutual
  pub data ConstValue (F : Type 0) : Type 0 where
    make_const :
        ConstKind
        → ℤ
        → F
        → Bool
        → Bytes
        → Bytes
        → SemaType
        → Bytes
        → ℤ
        → List Bytes
        → ConstValues F
        → ConstValue F

  pub data ConstValues (F : Type 0) : Type 0 where
    no_values : ConstValues F
    more_values : ConstValue F → ConstValues F → ConstValues F

-- The fields that the operations read.
module _ {F : Type 0} where
  abbrev pub kind_of : ConstValue F → ConstKind
  kind_of (make_const kind i f b text procedure enum variant tag names elements) = kind

  abbrev pub integer_of : ConstValue F → ℤ
  integer_of (make_const kind i f b text procedure enum variant tag names elements) = i

  abbrev pub float_of : ConstValue F → F
  float_of (make_const kind i f b text procedure enum variant tag names elements) = f

  abbrev pub bool_of : ConstValue F → Bool
  bool_of (make_const kind i f b text procedure enum variant tag names elements) = b

  abbrev pub text_of : ConstValue F → Bytes
  text_of (make_const kind i f b text procedure enum variant tag names elements) = text

-- `std::to_string` of an int64.
unfoldable pub int64_to_string : ℤ → Bytes
unfolding decimal
int64_to_string (pos n) = decimal n
int64_to_string (negsuc n) = b'-' ∷ decimal (suc n)

-- `name: ` before an element, where it has a name.
abbrev pub name_prefix : List Bytes → Bytes
name_prefix [] = []
name_prefix ([] ∷ names) = []
name_prefix ((ch ∷ name) ∷ names) = (ch ∷ name) ++ codes ": "

abbrev pub rest_of : List Bytes → List Bytes
rest_of [] = []
rest_of (name ∷ names) = names

-- The texts with ", " between two of them.
abbrev pub join_values : List Bytes → Bytes
join_values [] = []
join_values (text ∷ []) = text
join_values (text ∷ next ∷ texts) = text ++ (codes ", " ++ join_values (next ∷ texts))

-- The text in brackets behind the name of a variant with elements.
abbrev pub render_payload : List Bytes → Bytes
render_payload [] = []
render_payload (text ∷ texts) = codes "(" ++ (join_values (text ∷ texts) ++ codes ")")

module _ {F : Type 0} (double : DoubleOps F) where
  -- `RenderConstValue`, and the texts of the elements with their names.
  unfoldable mutual
    unfolding int64_to_string format_type

    pub render_const_value : ConstValue F → Bytes
    render_const_value
          (make_const ConstKind.k_bool i f b text procedure enum variant tag names elements) =
        if b then codes "true" else codes "false"
    render_const_value
          (make_const ConstKind.k_integer i f b text procedure enum variant tag names elements) =
        int64_to_string i
    render_const_value
          (make_const ConstKind.k_float i f b text procedure enum variant tag names elements) =
        double.print f
    render_const_value
          (make_const ConstKind.k_string i f b text procedure enum variant tag names elements) =
        text
    render_const_value
          (make_const ConstKind.k_nil i f b text procedure enum variant tag names elements) =
        codes "nil"
    render_const_value
          (make_const ConstKind.k_procedure i f b text procedure enum variant tag names elements) =
        procedure
    render_const_value
          (make_const ConstKind.k_enum i f b text procedure enum variant tag names elements) =
        format_type enum ++ (b'.' ∷ (variant ++ render_payload (render_elements names elements)))
    render_const_value
          (make_const ConstKind.k_aggregate i f b text procedure enum variant tag names elements) =
        codes "{" ++ (join_values (render_elements names elements) ++ codes "}")

    pub render_elements : List Bytes → ConstValues F → List Bytes
    render_elements names no_values = []
    render_elements names (more_values value values) =
        (name_prefix names ++ render_const_value value) ∷ render_elements (rest_of names) values

  -- The fields that a value of another kind leaves at their initial value.
  abbrev pub unknown_type : SemaType
  unknown_type = make_type TypeKind.k_unknown [] [] nil

  abbrev pub plain_value : ConstKind → ℤ → F → Bool → Bytes → Bytes → ConstValue F
  plain_value kind i f b text procedure =
      make_const kind i f b text procedure unknown_type [] (pos 0) [] no_values

  -- `MakeConstValue` of a bool, an int64 and a double, and `MakeProcedureConstValue`: `text` is what
  -- `RenderConstValue` gives for the other fields.
  unfoldable pub make_bool : Bool → ConstValue F
  unfolding render_const_value
  make_bool value =
      plain_value ConstKind.k_bool (pos 0) double.zero_value value
        (render_const_value (plain_value ConstKind.k_bool (pos 0) double.zero_value value [] [])) []

  unfoldable pub make_integer : ℤ → ConstValue F
  unfolding render_const_value
  make_integer value =
      plain_value ConstKind.k_integer value double.zero_value false
        (render_const_value (plain_value ConstKind.k_integer value double.zero_value false [] []))
        []

  unfoldable pub make_float : F → ConstValue F
  unfolding render_const_value
  make_float value =
      plain_value ConstKind.k_float (pos 0) value false
        (render_const_value (plain_value ConstKind.k_float (pos 0) value false [] [])) []

  unfoldable pub make_procedure : Bytes → ConstValue F
  unfolding render_const_value
  make_procedure procedure_name =
      plain_value ConstKind.k_procedure (pos 0) double.zero_value false
        (render_const_value
          (plain_value ConstKind.k_procedure (pos 0) double.zero_value false [] procedure_name))
        procedure_name

  -- `MakeEnumConstValue`
  unfoldable pub make_enum : SemaType → Bytes → ℤ → List Bytes → ConstValues F → ConstValue F
  unfolding render_const_value
  make_enum enum_type variant_name variant_tag field_names elements =
      make_const ConstKind.k_enum (pos 0) double.zero_value false
        (render_const_value (
          make_const ConstKind.k_enum (pos 0) double.zero_value false [] [] enum_type variant_name
            variant_tag field_names elements))
        [] enum_type variant_name variant_tag field_names elements
