-- ===== src/Token.antt =====
-- token.h: the token classes and the token record; the `AstIntegerFlags` of ast.h.
use dp4c.Prelude.{ℕ, Bool, List, [], ◌==◌}

-- `enum TokenClass`; the classes of keywords end in `_kw`.
pub data TokenClass : Type 0 where
  none_ semicolon identifier type_identifier string_kw integer : TokenClass
  parenth_open parenth_close angle_open angle_close brace_open brace_close : TokenClass
  bracket_open bracket_close dontcare colon dot_prefix comma : TokenClass
  minus unary_minus plus star slash equal two_equal exclamation_equal exclamation : TokenClass
  two_pipe angle_open_equal angle_close_equal tilda ampersand two_ampersand : TokenClass
  three_ampersand pipe circumflex two_angle_open two_angle_close comment : TokenClass
  action_kw actions_kw enum_kw in_kw package_kw select_kw switch_kw tuple_kw void_kw : TokenClass
  apply_kw control_kw error_kw header_kw in_out_kw parser_kw state_kw table_kw : TokenClass
  entries_kw key_kw typedef_kw type_kw bool_kw true_kw false_kw default_kw : TokenClass
  extern_kw header_union_kw int_kw bit_kw varbit_kw out_kw string_literal : TokenClass
  transition_kw else_kw exit_kw if_kw match_kind_kw return_kw struct_kw const_kw : TokenClass
  unknown start_of_input end_of_input lexical_error : TokenClass

-- The value of a class as an `int`, and the test `klass == other`.
abbrev pub code : TokenClass → ℕ
code none_ = 0
code semicolon = 1
code identifier = 2
code type_identifier = 3
code string_kw = 4
code integer = 5
code parenth_open = 6
code parenth_close = 7
code angle_open = 8
code angle_close = 9
code brace_open = 10
code brace_close = 11
code bracket_open = 12
code bracket_close = 13
code dontcare = 14
code colon = 15
code dot_prefix = 16
code comma = 17
code minus = 18
code unary_minus = 19
code plus = 20
code star = 21
code slash = 22
code equal = 23
code two_equal = 24
code exclamation_equal = 25
code exclamation = 26
code two_pipe = 27
code angle_open_equal = 28
code angle_close_equal = 29
code tilda = 30
code ampersand = 31
code two_ampersand = 32
code three_ampersand = 33
code pipe = 34
code circumflex = 35
code two_angle_open = 36
code two_angle_close = 37
code comment = 38
code action_kw = 39
code actions_kw = 40
code enum_kw = 41
code in_kw = 42
code package_kw = 43
code select_kw = 44
code switch_kw = 45
code tuple_kw = 46
code void_kw = 47
code apply_kw = 48
code control_kw = 49
code error_kw = 50
code header_kw = 51
code in_out_kw = 52
code parser_kw = 53
code state_kw = 54
code table_kw = 55
code entries_kw = 56
code key_kw = 57
code typedef_kw = 58
code type_kw = 59
code bool_kw = 60
code true_kw = 61
code false_kw = 62
code default_kw = 63
code extern_kw = 64
code header_union_kw = 65
code int_kw = 66
code bit_kw = 67
code varbit_kw = 68
code out_kw = 69
code string_literal = 70
code transition_kw = 71
code else_kw = 72
code exit_kw = 73
code if_kw = 74
code match_kind_kw = 75
code return_kw = 76
code struct_kw = 77
code const_kw = 78
code unknown = 79
code start_of_input = 80
code end_of_input = 81
code lexical_error = 82

abbrev pub is : TokenClass → TokenClass → Bool
is klass other = code klass == code other

-- `enum AstIntegerFlags`, as bits of a number.
abbrev pub has_width : ℕ
has_width = 1

abbrev pub is_signed : ℕ
is_signed = 2

-- `struct Token`. The union holds an integer's flags, width and value; its other member, `str`, is
-- neither written nor read.
pub record Token : Type 0 where
  pub klass : TokenClass
  pub lexeme : List ℕ
  pub line_nr : ℕ
  pub flags : ℕ
  pub width : ℕ
  pub value : ℕ

-- `memset(token, 0, sizeof(*token))`; a null `lexeme` is the empty string.
abbrev pub zero_token : Token
zero_token = record { klass = none_; lexeme = []; line_nr = 0; flags = 0; width = 0; value = 0 }
