-- ===== src/Syntax/Classes.antt =====
-- build_ast.c: the tests by which the parser reads the class of a token. A function with a `struct
-- Token*` takes the class.
use dp4c.Prelude.{Bool, ◌||◌}
use dp4c.Token.{
  TokenClass, is, action_kw, actions_kw, ampersand, angle_close, angle_close_equal, angle_open,
  angle_open_equal, apply_kw, bit_kw, bool_kw, brace_open, bracket_open, circumflex, const_kw,
  control_kw, default_kw, dontcare, dot_prefix, entries_kw, enum_kw, equal, error_kw, exclamation,
  exclamation_equal, exit_kw, extern_kw, false_kw, header_kw, header_union_kw, identifier, if_kw,
  in_kw, in_out_kw, int_kw, integer, key_kw, match_kind_kw, minus, out_kw, package_kw, parenth_open,
  parser_kw, pipe, plus, return_kw, semicolon, slash, star, state_kw, string_kw, string_literal,
  struct_kw, switch_kw, table_kw, three_ampersand, tilda, true_kw, tuple_kw, two_ampersand,
  two_angle_close, two_angle_open, two_equal, two_pipe, type_identifier, type_kw, typedef_kw,
  unary_minus, varbit_kw, void_kw,
}

unfoldable pub token_is_type_name : TokenClass → Bool
token_is_type_name k = is k type_identifier || is k dot_prefix

unfoldable pub token_is_prefixed_type : TokenClass → Bool
token_is_prefixed_type k = is k type_identifier || is k dot_prefix

unfoldable pub token_is_base_type : TokenClass → Bool
token_is_base_type k =
    is k bool_kw || is k error_kw || is k int_kw || is k bit_kw || is k varbit_kw || is k string_kw

unfoldable pub token_is_type_ref : TokenClass → Bool
token_is_type_ref k = token_is_base_type k || token_is_prefixed_type k || is k tuple_kw

unfoldable pub token_is_direction : TokenClass → Bool
token_is_direction k = is k in_kw || is k out_kw || is k in_out_kw

unfoldable pub token_is_parameter : TokenClass → Bool
token_is_parameter k = token_is_direction k || token_is_type_ref k

unfoldable pub token_is_derived_type_declaration : TokenClass → Bool
token_is_derived_type_declaration k =
    is k header_kw || is k header_union_kw || is k struct_kw || is k enum_kw

unfoldable pub token_is_type_declaration : TokenClass → Bool
token_is_type_declaration k =
    token_is_derived_type_declaration k
    || is k typedef_kw
    || is k type_kw
    || is k parser_kw
    || is k control_kw
    || is k package_kw

unfoldable pub token_is_non_type_name : TokenClass → Bool
token_is_non_type_name k =
    is k identifier
    || is k apply_kw
    || is k key_kw
    || is k actions_kw
    || is k state_kw
    || is k entries_kw
    || is k type_kw

unfoldable pub token_is_name : TokenClass → Bool
token_is_name k = token_is_non_type_name k || is k type_identifier

unfoldable pub token_is_non_table_kw_name : TokenClass → Bool
token_is_non_table_kw_name k =
    is k identifier || is k type_identifier || is k apply_kw || is k state_kw || is k type_kw

unfoldable pub token_is_type_arg : TokenClass → Bool
token_is_type_arg k = is k dontcare || token_is_type_ref k || token_is_non_type_name k

unfoldable pub token_is_type_parameter_list : TokenClass → Bool
token_is_type_parameter_list k = token_is_name k

unfoldable pub token_is_type_or_void : TokenClass → Bool
token_is_type_or_void k = token_is_type_ref k || is k void_kw || is k identifier

unfoldable pub token_is_action_ref : TokenClass → Bool
token_is_action_ref k = is k dot_prefix || token_is_non_type_name k || is k parenth_open

unfoldable pub token_is_table_property : TokenClass → Bool
token_is_table_property k =
    is k key_kw
    || is k actions_kw
    || is k const_kw
    || is k entries_kw
    || token_is_non_table_kw_name k

unfoldable pub token_is_switch_label : TokenClass → Bool
token_is_switch_label k = token_is_name k || is k default_kw

unfoldable pub token_is_expression_primary : TokenClass → Bool
token_is_expression_primary k =
    is k integer
    || is k true_kw
    || is k false_kw
    || is k string_literal
    || is k dot_prefix
    || token_is_non_type_name k
    || is k brace_open
    || is k parenth_open
    || is k exclamation
    || is k tilda
    || is k unary_minus
    || token_is_type_name k
    || is k error_kw
    || token_is_prefixed_type k

unfoldable pub token_is_expression : TokenClass → Bool
token_is_expression k = token_is_expression_primary k

unfoldable pub token_is_method_prototype : TokenClass → Bool
token_is_method_prototype k = token_is_type_or_void k || is k type_identifier

unfoldable pub token_is_struct_field : TokenClass → Bool
token_is_struct_field k = token_is_type_ref k

unfoldable pub token_is_specified_identifier : TokenClass → Bool
token_is_specified_identifier k = token_is_name k

unfoldable pub token_is_declaration : TokenClass → Bool
token_is_declaration k =
    is k const_kw
    || is k extern_kw
    || is k action_kw
    || is k parser_kw
    || token_is_type_declaration k
    || is k control_kw
    || token_is_type_ref k
    || is k error_kw
    || is k match_kind_kw
    || token_is_type_or_void k
    || is k dot_prefix

unfoldable pub token_is_lvalue : TokenClass → Bool
token_is_lvalue k = token_is_non_type_name k || is k dot_prefix

unfoldable pub token_is_assignment_or_method_call_statement : TokenClass → Bool
token_is_assignment_or_method_call_statement k =
    token_is_lvalue k || is k parenth_open || is k angle_open || is k equal

unfoldable pub token_is_statement : TokenClass → Bool
token_is_statement k =
    token_is_assignment_or_method_call_statement k
    || token_is_type_name k
    || is k if_kw
    || is k semicolon
    || is k brace_open
    || is k exit_kw
    || is k return_kw
    || is k switch_kw

unfoldable pub token_is_statement_or_declaration : TokenClass → Bool
token_is_statement_or_declaration k = token_is_type_ref k || is k const_kw || token_is_statement k

unfoldable pub token_is_argument : TokenClass → Bool
token_is_argument k = token_is_expression k || token_is_name k || is k dontcare

unfoldable pub token_is_parser_local_element : TokenClass → Bool
token_is_parser_local_element k = is k const_kw || token_is_type_ref k

unfoldable pub token_is_parser_statement : TokenClass → Bool
token_is_parser_statement k =
    token_is_assignment_or_method_call_statement k
    || token_is_type_name k
    || is k brace_open
    || is k const_kw
    || token_is_type_ref k
    || is k semicolon

unfoldable pub token_is_simple_keyset_expression : TokenClass → Bool
token_is_simple_keyset_expression k = token_is_expression k || is k default_kw || is k dontcare

unfoldable pub token_is_keyset_expression : TokenClass → Bool
token_is_keyset_expression k = is k tuple_kw || token_is_simple_keyset_expression k

unfoldable pub token_is_select_case : TokenClass → Bool
token_is_select_case k = token_is_keyset_expression k

unfoldable pub token_is_control_local_declaration : TokenClass → Bool
token_is_control_local_declaration k =
    is k const_kw || is k action_kw || is k table_kw || token_is_type_ref k || token_is_type_ref k

unfoldable pub token_is_real_type_arg : TokenClass → Bool
token_is_real_type_arg k = is k dontcare || token_is_type_ref k

unfoldable pub token_is_binary_operator : TokenClass → Bool
token_is_binary_operator k =
    is k star
    || is k slash
    || is k plus
    || is k minus
    || is k angle_open_equal
    || is k angle_close_equal
    || is k angle_open
    || is k angle_close
    || is k exclamation_equal
    || is k two_equal
    || is k two_pipe
    || is k two_ampersand
    || is k pipe
    || is k ampersand
    || is k circumflex
    || is k two_angle_open
    || is k two_angle_close
    || is k three_ampersand
    || is k equal

unfoldable pub token_is_expr_operator : TokenClass → Bool
token_is_expr_operator k =
    token_is_binary_operator k
    || is k dot_prefix
    || is k bracket_open
    || is k parenth_open
    || is k angle_open
