-- ===== src/Syntax/Build/Types.antt =====
-- build_ast.c: types and their arguments. `b` holds the functions that are declared before they are
-- defined.
use dp4c.Prelude.{false, if◌then◌else◌}
use dp4c.Token.{
  TokenClass, is, comma, angle_open, angle_close, dot_prefix, parenth_open, dontcare, bracket_open,
  bracket_close, bool_kw, error_kw, int_kw, bit_kw, varbit_kw, string_kw, tuple_kw, type_identifier,
}
use dp4c.Token
use dp4c.Ast.Kinds.{AstKind, AstBaseTypeKind}
use dp4c.Syntax.Classes.{
  token_is_non_type_name, token_is_type_arg, token_is_type_ref, token_is_base_type,
  token_is_type_name, token_is_expression, token_is_real_type_arg,
}
use dp4c.Syntax.Tree.{Node, Nodes, base_type_value}
use dp4c.Syntax.Build.{
  Build, Builders, pure, ◌>>=◌, ◌>>◌, klass, fault, syntax_failure, expected, next_token, accept,
  new_ast_node, set_ast, set_list, set_integer, list_by_comma, optional_list,
}
use dp4c.Syntax.Build.Names.{build_non_type_name, build_integer, build_prefixed_type}

-- One branch of `build_baseType`.
unfoldable pub base_type_of : AstBaseTypeKind → Node → Build Node
base_type_of kind base_type = do
  base_type ← set_integer base_type "base_type" (base_type_value kind)
  next_token
  pure base_type

module _ (b : Builders) where
  unfoldable pub build_type_arg : Build Node
  build_type_arg = do
    k ← klass
    expected (token_is_type_arg k) "type argument was expected"
    if is k dontcare
        then (do dontcare_arg ← new_ast_node AstKind.dontcare; next_token; pure dontcare_arg)
        else if token_is_type_ref k
        then b.build_type_ref
        else if token_is_non_type_name k
        then build_non_type_name false
        else fault

  unfoldable pub build_integer_type_size : Build Node
  build_integer_type_size = do
    type_size ← new_ast_node AstKind.int_type_size
    k ← klass
    if is k Token.integer
        then (do size ← build_integer; set_ast type_size "size" size)
        else if is k parenth_open
        then (do size ← b.build_expression 1; set_ast type_size "size" size)
        else syntax_failure "`(` was expected"

  -- The size in angle brackets behind a base type, where there is one.
  unfoldable pub type_size : Node → Build Node
  type_size base_type = do
    k ← klass
    if is k angle_open
        then (do
          next_token
          size ← build_integer_type_size
          base_type ← set_ast base_type "size" size
          accept angle_close "`>` was expected"
          pure base_type)
        else pure base_type

  unfoldable pub build_base_type : Build Node
  unfolding base_type_of type_size
  build_base_type = do
    k ← klass
    expected (token_is_base_type k) "type as expected"
    base_type ← new_ast_node AstKind.base_type
    if is k bool_kw
        then base_type_of AstBaseTypeKind.bool_ base_type
        else if is k error_kw
        then base_type_of AstBaseTypeKind.error base_type
        else if is k int_kw
        then base_type_of AstBaseTypeKind.int_ base_type >>= type_size
        else if is k bit_kw
        then base_type_of AstBaseTypeKind.bit base_type >>= type_size
        else if is k varbit_kw
        then base_type_of AstBaseTypeKind.varbit base_type >>= type_size
        else if is k string_kw
        then base_type_of AstBaseTypeKind.string base_type
        else fault

  unfoldable pub build_type_argument_list : Build Nodes
  build_type_argument_list = optional_list token_is_type_arg (list_by_comma build_type_arg)

  unfoldable pub build_tuple_type : Build Node
  build_tuple_type = do
    accept tuple_kw "`tuple` was expected"
    type ← new_ast_node AstKind.tuple
    accept angle_open "`<` was expected"
    type_args ← build_type_argument_list
    type ← set_list type "type_args" type_args
    accept angle_close "`>` was expected"
    pure type

  unfoldable pub build_header_stack_type : Build Node
  build_header_stack_type = do
    accept bracket_open "`[` was expected"
    stack ← new_ast_node AstKind.header_stack
    k ← klass
    expected (token_is_expression k) "an expression expected"
    stack_expr ← b.build_expression 1
    stack ← set_ast stack "stack_expr" stack_expr
    accept bracket_close "`]` was expected"
    pure stack

  unfoldable pub build_specialized_type : Build Node
  build_specialized_type = do
    accept angle_open "`<` was expected"
    type ← new_ast_node AstKind.specd_type
    type_args ← build_type_argument_list
    type ← set_list type "type_args" type_args
    accept angle_close "`>` was expected"
    pure type

  unfoldable pub build_type_name : Build Node
  build_type_name = do
    k ← klass
    expected (token_is_type_name k) "type was expected"
    name ← build_prefixed_type
    k ← klass
    name ←
        (if is k angle_open
          then (do specd_type ← build_specialized_type; set_ast specd_type "name" name)
          else pure name)
    k ← klass
    if is k bracket_open
        then (do stack_type ← build_header_stack_type; set_ast stack_type "name" name)
        else pure name

  unfoldable pub build_type_ref : Build Node
  build_type_ref = do
    k ← klass
    expected (token_is_type_ref k) "type was expected"
    if token_is_base_type k
        then build_base_type
        else if token_is_type_name k
        then build_type_name
        else if is k tuple_kw
        then build_tuple_type
        else fault

  unfoldable pub build_real_type_arg : Build Node
  build_real_type_arg = do
    k ← klass
    if is k dontcare
        then (do next_token; new_ast_node AstKind.dontcare)
        else if token_is_type_ref k
        then b.build_type_ref
        else syntax_failure "type argument was expected"

  unfoldable pub build_real_type_argument_list : Build Nodes
  build_real_type_argument_list =
      optional_list token_is_real_type_arg (list_by_comma build_real_type_arg)
