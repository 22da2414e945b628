-- ===== src/Syntax/Build/Expressions.antt =====
-- build_ast.c: expressions, with their arguments and indices.
use dp4c.Prelude.{true, false, none, if◌then◌else◌}
use dp4c.Token.{
  TokenClass, is, angle_open, angle_close, dot_prefix, parenth_open, parenth_close, dontcare,
  bracket_open, bracket_close, brace_open, brace_close, colon, equal, exclamation, tilda,
  unary_minus, error_kw, type_identifier, true_kw, false_kw,
}
use dp4c.Token
use dp4c.Ast.Kinds.{AstKind, AstAttributeType, AstExprOperator}
use dp4c.Syntax.Classes.{
  token_is_non_type_name, token_is_type_ref, token_is_type_name, token_is_expression, token_is_name,
  token_is_argument,
}
use dp4c.Syntax.Tree.{Node, Nodes, bool_value, set_attr}
use dp4c.Syntax.Tree
use dp4c.Syntax.Build.{
  Build, Builders, pure, lift, ◌>>=◌, ◌>>◌, token, klass, fault, syntax_failure, unexpected,
  expected, next_token, accept, new_ast_node, set_ast, set_list, set_integer, set_operator,
  list_by_comma, optional_list,
}
use dp4c.Syntax.Build.Names.{
  build_non_type_name, build_name, build_integer, build_boolean, build_string_literal,
}
use dp4c.Syntax.Build.Types.{build_type_name}

module _ (b : Builders) where
  unfoldable pub build_expression_list : Build Nodes
  build_expression_list = optional_list token_is_expression (list_by_comma (b.build_expression 1))

  unfoldable pub build_initializer : Build Node
  build_initializer = b.build_expression 1

  unfoldable pub build_opt_initializer : Build Node
  build_opt_initializer = do
    k ← klass
    if is k equal then (do next_token; build_initializer) else pure none

  unfoldable pub build_argument : Build Node
  build_argument = do
    k ← klass
    expected (token_is_argument k) "an argument was expected"
    if token_is_expression k
        then b.build_expression 1
        else if token_is_name k
        then (do
          named_arg ← new_ast_node AstKind.argument
          name ← build_name false
          named_arg ← set_ast named_arg "name" name
          accept equal "`=` was expected"
          k ← klass
          expected (token_is_expression k) "an expression was expected"
          init_expr ← b.build_expression 1
          set_ast named_arg "init_expr" init_expr)
        else if is k dontcare
        then (do dontcare_arg ← new_ast_node AstKind.dontcare; next_token; pure dontcare_arg)
        else fault

  unfoldable pub build_argument_list : Build Nodes
  build_argument_list = optional_list token_is_argument (list_by_comma build_argument)

  unfoldable pub build_array_index : Build Node
  build_array_index = do
    index ← new_ast_node AstKind.array_index
    k ← klass
    expected (token_is_expression k) "an expression was expected"
    expr ← b.build_expression 1
    index ← set_ast index "index" expr
    k ← klass
    if is k colon
        then (do
          next_token
          k ← klass
          expected (token_is_expression k) "an expression was expected"
          colon_index ← b.build_expression 1
          set_ast index "colon_index" colon_index)
        else pure index

  -- The name behind a dot that begins an expression.
  unfoldable pub dot_primary : Build Node
  dot_primary = do
    next_token
    k ← klass
    if is k Token.identifier
        then (do
          name ← build_non_type_name false
          set_integer name "is_dotprefixed" (bool_value true))
        else if is k type_identifier
        then (do name ← build_type_name b; set_integer name "is_dotprefixed" (bool_value true))
        else unexpected

  unfoldable pub expression_list_expr : Build Node
  expression_list_expr = do
    next_token
    expr_list ← new_ast_node AstKind.expression_list_expr
    exprs ← build_expression_list
    expr_list ← set_list expr_list "expr_list" exprs
    accept brace_close "`}` was expected"
    pure expr_list

  -- A cast, or an expression in parentheses.
  unfoldable pub parenth_primary : Build Node
  parenth_primary = do
    next_token
    k ← klass
    if token_is_type_ref k
        then (do
          cast ← new_ast_node AstKind.cast_expr
          to_type ← b.build_type_ref
          cast ← set_ast cast "to_type" to_type
          accept parenth_close "`)` was expected"
          expr ← b.build_expression 1
          set_ast cast "expr" expr)
        else if token_is_expression k
        then (do
          primary ← b.build_expression 1
          accept parenth_close "`)` was expected"
          pure primary)
        else syntax_failure "an expression was expected"

  unfoldable pub unary_expr : AstExprOperator → Build Node
  unary_expr op = do
    next_token
    unary_expr ← new_ast_node AstKind.unary_expr
    unary_expr ← set_operator unary_expr "op" op
    expr ← b.build_expression 1
    set_ast unary_expr "expr" expr

  -- The attribute's type is that of a node, and its value the lexeme of the token behind `error`.
  unfoldable pub error_primary : Build Node
  error_primary = do
    next_token
    name ← new_ast_node AstKind.name
    t ← token
    lift (set_attr "name" AstAttributeType.ast (Tree.string t.lexeme) name)

  unfoldable pub build_expression_primary : Build Node
  unfolding dot_primary expression_list_expr parenth_primary unary_expr error_primary
  build_expression_primary = do
    k ← klass
    expected (token_is_expression k) "an expression was expected"
    if is k Token.integer
        then build_integer
        else if is k true_kw
        then build_boolean
        else if is k false_kw
        then build_boolean
        else if is k Token.string_literal
        then build_string_literal
        else if is k dot_prefix
        then dot_primary
        else if token_is_non_type_name k
        then build_non_type_name false
        else if is k brace_open
        then expression_list_expr
        else if is k parenth_open
        then parenth_primary
        else if is k exclamation
        then unary_expr AstExprOperator.log_not
        else if is k tilda
        then unary_expr AstExprOperator.bit_not
        else if is k unary_minus
        then unary_expr AstExprOperator.minus
        else if token_is_type_name k
        then build_type_name b
        else if is k error_kw
        then error_primary
        else fault
