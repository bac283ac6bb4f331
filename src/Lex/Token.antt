-- ===== src/Lex/Token.antt =====
-- compiler/lex/token.h, and the keyword table and `ToString` of compiler/lex/lexer.cpp.
-- A token's `float_value` is of a type `F` that stands for `double`.
use c_modern.Common.{ℕ, List, [], ◌∷◌, Option, none, some, Bytes, codes, text_eq, if◌then◌else◌}
use c_modern.Support.Span.{SourceSpan}

pub data TokenKind : Type 0 where
  k_newline k_identifier k_import k_export k_func k_struct k_enum k_distinct : TokenKind
  k_type k_extern k_if k_else k_switch k_case k_default k_for k_while k_in k_is : TokenKind
  k_with k_return k_break k_continue k_defer k_var k_const k_nil k_true k_false : TokenKind
  k_int_literal k_float_literal k_string_literal k_char_literal k_l_brace : TokenKind
  k_r_brace k_l_paren k_r_paren k_l_bracket k_r_bracket k_comma k_colon : TokenKind
  k_colon_assign k_dot k_at k_dot_deref k_range k_assign k_eq_eq k_bang_eq k_lt : TokenKind
  k_lt_eq k_lt_lt k_gt k_gt_eq k_gt_gt k_plus k_minus k_star k_slash k_percent : TokenKind
  k_amp k_pipe k_caret k_bang k_amp_amp k_pipe_pipe k_arrow k_eof : TokenKind

pub record Token {ℓ} (F : Type ℓ) : Type ℓ where
  pub kind : TokenKind
  pub lexeme : Bytes
  pub integer_value : Option ℕ
  pub float_value : Option F
  pub span : SourceSpan

-- `kKeywords`, in the order of its initialiser.
abbrev pub keywords : List (Bytes × TokenKind)
keywords =
    (codes "import", TokenKind.k_import)
    ∷ (codes "export", TokenKind.k_export)
    ∷ (codes "func", TokenKind.k_func)
    ∷ (codes "struct", TokenKind.k_struct)
    ∷ (codes "enum", TokenKind.k_enum)
    ∷ (codes "distinct", TokenKind.k_distinct)
    ∷ (codes "type", TokenKind.k_type)
    ∷ (codes "extern", TokenKind.k_extern)
    ∷ (codes "if", TokenKind.k_if)
    ∷ (codes "else", TokenKind.k_else)
    ∷ (codes "switch", TokenKind.k_switch)
    ∷ (codes "case", TokenKind.k_case)
    ∷ (codes "default", TokenKind.k_default)
    ∷ (codes "for", TokenKind.k_for)
    ∷ (codes "while", TokenKind.k_while)
    ∷ (codes "in", TokenKind.k_in)
    ∷ (codes "is", TokenKind.k_is)
    ∷ (codes "with", TokenKind.k_with)
    ∷ (codes "return", TokenKind.k_return)
    ∷ (codes "break", TokenKind.k_break)
    ∷ (codes "continue", TokenKind.k_continue)
    ∷ (codes "defer", TokenKind.k_defer)
    ∷ (codes "var", TokenKind.k_var)
    ∷ (codes "const", TokenKind.k_const)
    ∷ (codes "nil", TokenKind.k_nil)
    ∷ (codes "true", TokenKind.k_true)
    ∷ (codes "false", TokenKind.k_false)
    ∷ []

-- `kKeywords.find(text)`
unfoldable pub find_keyword : List (Bytes × TokenKind) → Bytes → Option TokenKind
find_keyword [] text = none
find_keyword ((word, kind) ∷ table) text =
    if text_eq word text then some kind else find_keyword table text

-- The kind that `LexIdentifier` gives a text.
unfoldable pub identifier_kind : Bytes → TokenKind
unfolding find_keyword text_eq
identifier_kind text = elim (find_keyword keywords text) [
  | none ↦ TokenKind.k_identifier
  | some kind ↦ kind
]

-- `ToString(TokenKind)`
unfoldable pub to_string : TokenKind → Bytes
to_string TokenKind.k_newline = codes "newline"
to_string TokenKind.k_identifier = codes "identifier"
to_string TokenKind.k_import = codes "import"
to_string TokenKind.k_export = codes "export"
to_string TokenKind.k_func = codes "func"
to_string TokenKind.k_struct = codes "struct"
to_string TokenKind.k_enum = codes "enum"
to_string TokenKind.k_distinct = codes "distinct"
to_string TokenKind.k_type = codes "type"
to_string TokenKind.k_extern = codes "extern"
to_string TokenKind.k_if = codes "if"
to_string TokenKind.k_else = codes "else"
to_string TokenKind.k_switch = codes "switch"
to_string TokenKind.k_case = codes "case"
to_string TokenKind.k_default = codes "default"
to_string TokenKind.k_for = codes "for"
to_string TokenKind.k_while = codes "while"
to_string TokenKind.k_in = codes "in"
to_string TokenKind.k_is = codes "is"
to_string TokenKind.k_with = codes "with"
to_string TokenKind.k_return = codes "return"
to_string TokenKind.k_break = codes "break"
to_string TokenKind.k_continue = codes "continue"
to_string TokenKind.k_defer = codes "defer"
to_string TokenKind.k_var = codes "var"
to_string TokenKind.k_const = codes "const"
to_string TokenKind.k_nil = codes "nil"
to_string TokenKind.k_true = codes "true"
to_string TokenKind.k_false = codes "false"
to_string TokenKind.k_int_literal = codes "int_lit"
to_string TokenKind.k_float_literal = codes "float_lit"
to_string TokenKind.k_string_literal = codes "string_lit"
to_string TokenKind.k_char_literal = codes "char_lit"
to_string TokenKind.k_l_brace = codes "{"
to_string TokenKind.k_r_brace = codes "}"
to_string TokenKind.k_l_paren = codes "("
to_string TokenKind.k_r_paren = codes ")"
to_string TokenKind.k_l_bracket = codes "["
to_string TokenKind.k_r_bracket = codes "]"
to_string TokenKind.k_comma = codes ","
to_string TokenKind.k_colon = codes ":"
to_string TokenKind.k_colon_assign = codes ":="
to_string TokenKind.k_dot = codes "."
to_string TokenKind.k_at = codes "@"
to_string TokenKind.k_dot_deref = codes ".*"
to_string TokenKind.k_range = codes ".."
to_string TokenKind.k_assign = codes "="
to_string TokenKind.k_eq_eq = codes "=="
to_string TokenKind.k_bang_eq = codes "!="
to_string TokenKind.k_lt = codes "<"
to_string TokenKind.k_lt_eq = codes "<="
to_string TokenKind.k_lt_lt = codes "<<"
to_string TokenKind.k_gt = codes ">"
to_string TokenKind.k_gt_eq = codes ">="
to_string TokenKind.k_gt_gt = codes ">>"
to_string TokenKind.k_plus = codes "+"
to_string TokenKind.k_minus = codes "-"
to_string TokenKind.k_star = codes "*"
to_string TokenKind.k_slash = codes "/"
to_string TokenKind.k_percent = codes "%"
to_string TokenKind.k_amp = codes "&"
to_string TokenKind.k_pipe = codes "|"
to_string TokenKind.k_caret = codes "^"
to_string TokenKind.k_bang = codes "!"
to_string TokenKind.k_amp_amp = codes "&&"
to_string TokenKind.k_pipe_pipe = codes "||"
to_string TokenKind.k_arrow = codes "->"
to_string TokenKind.k_eof = codes "eof"
