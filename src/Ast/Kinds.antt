-- ===== src/Ast/Kinds.antt =====
-- ast.h: the enumerations.

-- `enum AstKind`
pub data AstKind : Type 0 where
  none_ name base_type const_decl extern_decl function_proto action_decl header_decl : AstKind
  header_union_decl struct_decl enum_decl type_decl parser control package_ : AstKind
  instantiation error match_kind function_decl dontcare int_type_size int_ bool_ : AstKind
  string_literal tuple tuple_keyset header_stack specd_type struct_field specd_id : AstKind
  parser_type argument var_decl direct_applic array_index parameter lvalue : AstKind
  assignment_stmt method_call_stmt empty_stmt default_ select_expr select_case : AstKind
  parser_state control_type key_element action_ref table_entry table_prop_key : AstKind
  table_prop_actions table_prop_entries table_prop_single_entry table_decl if_stmt : AstKind
  exit_stmt return_stmt switch_label switch_case switch_stmt block_stmt : AstKind
  expression_list_expr cast_expr unary_expr binary_expr kv_pair member_select_expr : AstKind
  indexed_array_expr function_call_expr type_args_expr p4_program : AstKind

-- `enum AstBaseTypeKind`
pub data AstBaseTypeKind : Type 0 where
  none_ bool_ error int_ bit varbit string : AstBaseTypeKind

-- `enum AstExprOperator`
pub data AstExprOperator : Type 0 where
  none_ add sub mul div and or equal not_equal less greater less_equal : AstExprOperator
  greater_equal bit_and bit_or bit_xor bit_shift_left bit_shift_right mask : AstExprOperator
  minus log_not bit_not : AstExprOperator

-- `enum AstParamDirection`
pub data AstParamDirection : Type 0 where
  none_ in_ out in_out : AstParamDirection

-- `enum AstAttributeType`
pub data AstAttributeType : Type 0 where
  none_ ast ast_list integer string expr_operator : AstAttributeType
