-- ===== src/Syntax/Build/States.antt =====
-- build_ast.c: the statements, the states and the declaration of a parser.
use dp4c.Prelude.{true, false, none, some, if◌then◌else◌}
use dp4c.Token.{
  is, semicolon, parenth_open, parenth_close, brace_open, brace_close, colon, const_kw, default_kw,
  dontcare, select_kw, transition_kw, state_kw, parser_kw,
}
use dp4c.Ast.Kinds.{AstKind}
use dp4c.Syntax.Classes.{
  token_is_name, token_is_type_ref, token_is_expression, token_is_parser_statement,
  token_is_simple_keyset_expression, token_is_keyset_expression, token_is_select_case,
  token_is_assignment_or_method_call_statement,
}
use dp4c.Syntax.Tree.{Node, Nodes}
use dp4c.Syntax.Build.{
  Build, Builders, pure, ◌>>=◌, ◌>>◌, klass, syntax_failure, expected, next_token, accept,
  new_ast_node, set_ast, set_list, list_by_comma, list_while, optional_list,
}
use dp4c.Syntax.Build.Names.{build_name, build_opt_type_parameters}
use dp4c.Syntax.Build.Types.{build_type_ref}
use dp4c.Syntax.Build.Expressions.{build_expression_list}
use dp4c.Syntax.Build.Prototypes.{parameters, build_parameter_list}
use dp4c.Syntax.Build.Structs.{build_constant_declaration}
use dp4c.Syntax.Build.Locals.{
  build_variable_declaration, build_direct_application, build_parser_local_elements,
  build_assignment_or_method_call_statement,
}

module _ (b : Builders) where
  unfoldable pub build_parser_statements : Build Nodes
  build_parser_statements =
      optional_list token_is_parser_statement
        (list_while token_is_parser_statement b.build_parser_statement)

  unfoldable pub build_parser_block_statements : Build Node
  build_parser_block_statements = do
    k ← klass
    expected (is k brace_open) "`{` was expected"
    stmt ← new_ast_node AstKind.block_stmt
    next_token
    stmt_list ← build_parser_statements
    stmt ← set_list stmt "stmt_list" stmt_list
    accept brace_close "`}` was expected"
    pure stmt

  -- At a semicolon the parser stays where it is.
  unfoldable pub build_parser_statement : Build Node
  build_parser_statement = do
    k ← klass
    if token_is_type_ref k
        then (do
          type_ref ← build_type_ref b
          k ← klass
          if token_is_name k
              then build_variable_declaration b type_ref
              else build_direct_application b type_ref)
        else if token_is_assignment_or_method_call_statement k
        then build_assignment_or_method_call_statement b
        else if is k brace_open
        then build_parser_block_statements
        else if is k const_kw
        then build_constant_declaration b
        else if is k semicolon
        then new_ast_node AstKind.empty_stmt
        else syntax_failure "statement was expected"

  unfoldable pub build_simple_keyset_expression : Build Node
  build_simple_keyset_expression = do
    k ← klass
    if token_is_expression k
        then b.build_expression 1
        else if is k default_kw
        then (do next_token; new_ast_node AstKind.default_)
        else if is k dontcare
        then (do next_token; new_ast_node AstKind.dontcare)
        else syntax_failure "keyset expression was expected"

  unfoldable pub build_tuple_keyset_expression : Build Node
  build_tuple_keyset_expression = do
    k ← klass
    expected (is k parenth_open) "`(` was expected"
    tuple_keyset ← new_ast_node AstKind.tuple_keyset
    next_token
    exprs ← list_by_comma build_simple_keyset_expression
    tuple_keyset ← set_list tuple_keyset "expr_list" (some exprs)
    accept parenth_close "`)` was expected"
    pure tuple_keyset

  unfoldable pub build_keyset_expression : Build Node
  build_keyset_expression = do
    k ← klass
    if is k parenth_open
        then build_tuple_keyset_expression
        else if token_is_simple_keyset_expression k
        then build_simple_keyset_expression
        else syntax_failure "keyset expression was expected"

  unfoldable pub build_select_case : Build Node
  build_select_case = do
    k ← klass
    expected (token_is_keyset_expression k) "keyset expression was expected"
    select_case ← new_ast_node AstKind.select_case
    keyset ← build_keyset_expression
    select_case ← set_ast select_case "keyset" keyset
    accept colon "`:` was expected"
    k ← klass
    expected (token_is_name k) "name was expected"
    name ← build_name false
    select_case ← set_ast select_case "name" name
    accept semicolon "`;` expected"
    pure select_case

  unfoldable pub build_select_case_list : Build Nodes
  build_select_case_list =
      optional_list token_is_select_case (list_while token_is_select_case build_select_case)

  unfoldable pub build_select_expression : Build Node
  build_select_expression = do
    accept select_kw "`select` was expected"
    select_expr ← new_ast_node AstKind.select_expr
    accept parenth_open "`(` was expected"
    expr_list ← build_expression_list b
    select_expr ← set_list select_expr "expr_list" expr_list
    accept parenth_close "`)` was expected"
    accept brace_open "`{` was expected"
    case_list ← build_select_case_list
    select_expr ← set_list select_expr "case_list" case_list
    accept brace_close "`}` was expected"
    pure select_expr

  unfoldable pub build_state_expression : Build Node
  build_state_expression = do
    k ← klass
    if token_is_name k
        then (do
          state_expr ← build_name false
          accept semicolon "`;` was expected"
          pure state_expr)
        else if is k select_kw
        then build_select_expression
        else syntax_failure "state expression was expected"

  unfoldable pub build_transition_statement : Build Node
  build_transition_statement = do
    accept transition_kw "`transition` was expected"
    build_state_expression

  unfoldable pub build_parser_state : Build Node
  build_parser_state = do
    accept state_kw "`state` was expected"
    state ← new_ast_node AstKind.parser_state
    name ← build_name false
    state ← set_ast state "name" name
    accept brace_open "`{` was expected"
    stmt_list ← build_parser_statements
    state ← set_list state "stmt_list" stmt_list
    trans_stmt ← build_transition_statement
    state ← set_ast state "trans_stmt" trans_stmt
    accept brace_close "`}` was expected"
    pure state

  unfoldable pub build_parser_states : Build Nodes
  build_parser_states = do
    k ← klass
    expected (is k state_kw) "`state` was expected"
    states ← list_while (λ k. is k state_kw) build_parser_state
    pure (some states)

  -- `name <type_params> (params)` behind the keyword of a parser, a control or a package.
  unfoldable pub type_declaration : AstKind → Build Node
  type_declaration kind = do
    type ← new_ast_node kind
    k ← klass
    expected (token_is_name k) "name was expected"
    name ← build_name true
    type ← set_ast type "name" name
    type_params ← build_opt_type_parameters
    type ← set_list type "type_params" type_params
    parameters b type

  unfoldable pub build_parser_type_declaration : Build Node
  unfolding type_declaration
  build_parser_type_declaration = do
    accept parser_kw "`parser` was expected"
    type_declaration AstKind.parser_type

  unfoldable pub build_opt_constructor_parameters : Build Nodes
  build_opt_constructor_parameters = do
    k ← klass
    if is k parenth_open
        then (do
          next_token
          ctor_params ← build_parameter_list b
          accept parenth_close "`)` was expected"
          pure ctor_params)
        else pure none

  unfoldable pub parser_body : Node → Build Node
  parser_body decl = do
    ctor_params ← build_opt_constructor_parameters
    decl ← set_list decl "ctor_params" ctor_params
    accept brace_open "`{` was expected"
    local_elements ← build_parser_local_elements b
    decl ← set_list decl "local_elements" local_elements
    states ← build_parser_states
    decl ← set_list decl "states" states
    accept brace_close "`}` was expected"
    pure decl

  unfoldable pub build_parser_declaration : Build Node
  unfolding parser_body
  build_parser_declaration = do
    k ← klass
    expected (is k parser_kw) "`parser` was expected"
    decl ← new_ast_node AstKind.parser
    type_decl ← build_parser_type_declaration
    decl ← set_ast decl "type_decl" type_decl
    k ← klass
    if is k semicolon then (do next_token; pure decl) else parser_body decl
