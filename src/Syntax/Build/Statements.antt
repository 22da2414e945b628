-- ===== src/Syntax/Build/Statements.antt =====
-- build_ast.c: the statements of actions and controls.
use dp4c.Prelude.{◌||◌, false, none, if◌then◌else◌}
use dp4c.Token.{
  is, semicolon, parenth_open, parenth_close, brace_open, brace_close, colon, if_kw, else_kw,
  exit_kw, return_kw, switch_kw, default_kw, const_kw, action_kw,
}
use dp4c.Ast.Kinds.{AstKind}
use dp4c.Syntax.Classes.{
  token_is_name, token_is_type_ref, token_is_type_name, token_is_expression, token_is_statement,
  token_is_statement_or_declaration, token_is_switch_label,
  token_is_assignment_or_method_call_statement,
}
use dp4c.Syntax.Tree.{Node, Nodes}
use dp4c.Syntax.Build.{
  Build, Builders, pure, ◌>>=◌, ◌>>◌, klass, fault, syntax_failure, expected, next_token, accept,
  new_ast_node, set_ast, set_list, list_while, optional_list,
}
use dp4c.Syntax.Build.Names.{build_name}
use dp4c.Syntax.Build.Prototypes.{is_given, build_parameter_list}
use dp4c.Syntax.Build.Structs.{build_constant_declaration}
use dp4c.Syntax.Build.Locals.{
  build_instantiation, build_variable_declaration, build_direct_application,
  build_assignment_or_method_call_statement,
}

module _ (b : Builders) where
  unfoldable pub build_statement_or_decl : Build Node
  build_statement_or_decl = do
    k ← klass
    if token_is_statement_or_declaration k
        then (if token_is_type_ref k
            then (do
              type_ref ← b.build_type_ref
              k ← klass
              if is k parenth_open
                  then build_instantiation b type_ref
                  else if token_is_name k
                  then build_variable_declaration b type_ref
                  else b.build_statement type_ref)
            else if token_is_statement k
            then b.build_statement none
            else if is k const_kw
            then build_constant_declaration b
            else fault)
        else pure none

  unfoldable pub build_statement_or_decl_list : Build Nodes
  build_statement_or_decl_list =
      optional_list token_is_statement_or_declaration
        (list_while token_is_statement_or_declaration build_statement_or_decl)

  unfoldable pub build_block_statement : Build Node
  build_block_statement = do
    k ← klass
    expected (is k brace_open) "`{` was expected"
    stmt ← new_ast_node AstKind.block_stmt
    next_token
    stmt_list ← build_statement_or_decl_list
    stmt ← set_list stmt "stmt_list" stmt_list
    accept brace_close "`}` was expected"
    pure stmt

  -- The `else` of a condition, where it stands.
  unfoldable pub else_branch : Node → Build Node
  else_branch if_stmt = do
    k ← klass
    if is k else_kw
        then (do
          next_token
          k ← klass
          expected (token_is_statement k) "statement was expected"
          else_stmt ← b.build_statement none
          set_ast if_stmt "else_stmt" else_stmt)
        else pure if_stmt

  unfoldable pub build_conditional_statement : Build Node
  unfolding else_branch
  build_conditional_statement = do
    accept if_kw "`if` was expected"
    if_stmt ← new_ast_node AstKind.if_stmt
    accept parenth_open "`(` was expected"
    k ← klass
    expected (token_is_expression k) "an expression was expected"
    cond_expr ← b.build_expression 1
    if_stmt ← set_ast if_stmt "cond_expr" cond_expr
    accept parenth_close "`)` was expected"
    k ← klass
    expected (token_is_statement k) "statement was expected"
    stmt ← b.build_statement none
    if_stmt ← set_ast if_stmt "stmt" stmt
    else_branch if_stmt

  unfoldable pub build_exit_statement : Build Node
  build_exit_statement = do
    accept exit_kw "`exit` was expected"
    exit_stmt ← new_ast_node AstKind.exit_stmt
    accept semicolon "`;` expected"
    pure exit_stmt

  unfoldable pub build_return_statement : Build Node
  build_return_statement = do
    accept return_kw "`return` was expected"
    ret_stmt ← new_ast_node AstKind.return_stmt
    k ← klass
    ret_stmt ←
        (if token_is_expression k
          then (do expr ← b.build_expression 1; set_ast ret_stmt "expr" expr)
          else pure ret_stmt)
    accept semicolon "`;` expected"
    pure ret_stmt

  unfoldable pub build_switch_label : Build Node
  build_switch_label = do
    k ← klass
    if token_is_name k
        then (do
          name_label ← new_ast_node AstKind.switch_label
          name ← build_name false
          set_ast name_label "name" name)
        else if is k default_kw
        then (do next_token; new_ast_node AstKind.default_)
        else syntax_failure "switch label was expected"

  unfoldable pub build_switch_case : Build Node
  build_switch_case = do
    k ← klass
    expected (token_is_switch_label k) "switch label was expected"
    switch_case ← new_ast_node AstKind.switch_case
    label ← build_switch_label
    switch_case ← set_ast switch_case "label" label
    accept colon "`:` was expected"
    k ← klass
    if is k brace_open
        then (do stmt ← build_block_statement; set_ast switch_case "stmt" stmt)
        else pure switch_case

  unfoldable pub build_switch_cases : Build Nodes
  build_switch_cases =
      optional_list token_is_switch_label (list_while token_is_switch_label build_switch_case)

  unfoldable pub build_switch_statement : Build Node
  build_switch_statement = do
    accept switch_kw "`switch` was expected"
    stmt ← new_ast_node AstKind.switch_stmt
    accept parenth_open "`(` was expected"
    expr ← b.build_expression 1
    stmt ← set_ast stmt "expr" expr
    accept parenth_close "`)` was expected"
    accept brace_open "`{` was expected"
    switch_cases ← build_switch_cases
    stmt ← set_list stmt "switch_cases" switch_cases
    accept brace_close "`}` was expected"
    pure stmt

  unfoldable pub build_statement : Node → Build Node
  build_statement type_name = do
    k ← klass
    if token_is_type_name k || is_given type_name
        then build_direct_application b type_name
        else if token_is_assignment_or_method_call_statement k
        then build_assignment_or_method_call_statement b
        else if is k if_kw
        then build_conditional_statement
        else if is k semicolon
        then (do next_token; new_ast_node AstKind.empty_stmt)
        else if is k brace_open
        then build_block_statement
        else if is k exit_kw
        then build_exit_statement
        else if is k return_kw
        then build_return_statement
        else if is k switch_kw
        then build_switch_statement
        else syntax_failure "statement was expected"

  unfoldable pub build_action_declaration : Build Node
  build_action_declaration = do
    accept action_kw "`action` was expected"
    decl ← new_ast_node AstKind.action_decl
    k ← klass
    expected (token_is_name k) "name was expected"
    name ← build_name false
    decl ← set_ast decl "name" name
    accept parenth_open "`(` was expected"
    params ← build_parameter_list b
    decl ← set_list decl "params" params
    accept parenth_close "`}` was expected"
    k ← klass
    expected (is k brace_open) "`{` was expected"
    stmt ← build_block_statement
    set_ast decl "stmt" stmt
