-- ===== src/Syntax/Build/Locals.antt =====
-- build_ast.c: variables, instantiations, direct applications and lvalues.
use dp4c.Prelude.{Bool, ◌||◌, true, false, none, some, if◌then◌else◌}
use dp4c.Token.{
  TokenClass, is, semicolon, parenth_open, parenth_close, dot_prefix, apply_kw, bracket_open,
  bracket_close, angle_open, angle_close, equal, const_kw,
}
use dp4c.Ast.Kinds.{AstKind}
use dp4c.Syntax.Classes.{
  token_is_name, token_is_type_ref, token_is_type_name, token_is_lvalue,
  token_is_parser_local_element,
}
use dp4c.Syntax.Tree.{Node, Nodes, bool_value}
use dp4c.Syntax.Build.{
  Build, Builders, pure, ◌>>=◌, ◌>>◌, klass, fault, syntax_failure, unexpected, expected,
  next_token, accept, new_ast_node, set_ast, set_list, set_integer, list_while, optional_list,
}
use dp4c.Syntax.Build.Names.{build_name, build_prefixed_non_type_name}
use dp4c.Syntax.Build.Types.{build_type_name, build_type_argument_list}
use dp4c.Syntax.Build.Expressions.{build_opt_initializer, build_argument_list, build_array_index}
use dp4c.Syntax.Build.Prototypes.{given_or, is_given}
use dp4c.Syntax.Build.Structs.{build_constant_declaration}

-- `token->klass == Token_DotPrefix || token->klass == Token_BracketOpen`
abbrev pub goes_on : TokenClass → Bool
goes_on k = is k dot_prefix || is k bracket_open

module _ (b : Builders) where
  unfoldable pub build_variable_declaration : Node → Build Node
  build_variable_declaration type_ref = do
    k ← klass
    expected (token_is_type_ref k || is_given type_ref) "type was expected"
    decl ← new_ast_node AstKind.var_decl
    type ← given_or b.build_type_ref type_ref
    decl ← set_ast decl "type" type
    k ← klass
    expected (token_is_name k) "name was expected"
    name ← build_name false
    decl ← set_ast decl "name" name
    init_expr ← build_opt_initializer b
    decl ← set_ast decl "init_expr" init_expr
    accept semicolon "`;` was expected"
    pure decl

  unfoldable pub build_instantiation : Node → Build Node
  build_instantiation type_ref = do
    k ← klass
    expected (token_is_type_ref k || is_given type_ref) "type was expected"
    inst ← new_ast_node AstKind.instantiation
    type ← given_or b.build_type_ref type_ref
    inst ← set_ast inst "type_ref" type
    accept parenth_open "`(` was expected"
    args ← build_argument_list b
    inst ← set_list inst "args" args
    accept parenth_close "`)` was expected"
    k ← klass
    expected (token_is_name k) "instance name was expected"
    name ← build_name false
    inst ← set_ast inst "name" name
    accept semicolon "`;` was expected"
    pure inst

  -- What a local declaration that begins with a type is: an instantiation or a variable.
  unfoldable pub typed_local : Build Node
  typed_local = do
    type_ref ← b.build_type_ref
    k ← klass
    if is k parenth_open
        then build_instantiation type_ref
        else if token_is_name k
        then build_variable_declaration type_ref
        else unexpected

  unfoldable pub build_parser_local_element : Build Node
  unfolding typed_local
  build_parser_local_element = do
    k ← klass
    expected (token_is_parser_local_element k) "local declaration was expected"
    if is k const_kw
        then build_constant_declaration b
        else if token_is_type_ref k
        then typed_local
        else fault

  unfoldable pub build_parser_local_elements : Build Nodes
  build_parser_local_elements =
      optional_list token_is_parser_local_element
        (list_while token_is_parser_local_element build_parser_local_element)

  unfoldable pub build_direct_application : Node → Build Node
  build_direct_application type_name = do
    k ← klass
    expected (token_is_type_name k || is_given type_name) "type name was expected"
    applic ← new_ast_node AstKind.direct_applic
    name ← given_or (build_type_name b) type_name
    applic ← set_ast applic "name" name
    accept dot_prefix "`.` was expected"
    accept apply_kw "`apply` was expected"
    accept parenth_open "`(` was expected"
    args ← build_argument_list b
    applic ← set_list applic "args" args
    accept parenth_close "`)` was expected"
    accept semicolon "`;` was expected"
    pure applic

  unfoldable pub build_lvalue_expr : Build Node
  build_lvalue_expr = do
    k ← klass
    if is k dot_prefix
        then (do
          next_token
          dot_member ← build_name false
          set_integer dot_member "is_dotprefixed" (bool_value true))
        else if is k bracket_open
        then (do
          next_token
          expr ← build_array_index b
          accept bracket_close "`]` was expected"
          pure expr)
        else syntax_failure "lvalue was expected"

  unfoldable pub build_lvalue : Build Node
  build_lvalue = do
    k ← klass
    expected (token_is_lvalue k) "lvalue was expected"
    lvalue ← new_ast_node AstKind.lvalue
    name ← build_prefixed_non_type_name
    lvalue ← set_ast lvalue "name" name
    k ← klass
    if goes_on k
        then (do
          lvalue_expr ← list_while goes_on build_lvalue_expr
          set_list lvalue "expr" (some lvalue_expr))
        else pure lvalue

  -- The type arguments of a call, in angle brackets, where they stand.
  unfoldable pub opt_type_args : Build Nodes
  opt_type_args = do
    k ← klass
    if is k angle_open
        then (do
          next_token
          type_args ← build_type_argument_list b
          accept angle_close "`>` was expected"
          pure type_args)
        else pure none

  unfoldable pub method_call : Node → Nodes → Build Node
  method_call lvalue type_args = do
    next_token
    call_stmt ← new_ast_node AstKind.method_call_stmt
    call_stmt ← set_ast call_stmt "lvalue" lvalue
    call_stmt ← set_list call_stmt "type_args" type_args
    args ← build_argument_list b
    call_stmt ← set_list call_stmt "args" args
    accept parenth_close "`)` was expected"
    pure call_stmt

  unfoldable pub assignment : Node → Build Node
  assignment lvalue = do
    next_token
    assgn_stmt ← new_ast_node AstKind.assignment_stmt
    assgn_stmt ← set_ast assgn_stmt "lvalue" lvalue
    expr ← b.build_expression 1
    set_ast assgn_stmt "expr" expr

  unfoldable pub build_assignment_or_method_call_statement : Build Node
  unfolding opt_type_args method_call assignment
  build_assignment_or_method_call_statement = do
    k ← klass
    expected (token_is_lvalue k) "lvalue was expected"
    lvalue ← build_lvalue
    type_args ← opt_type_args
    k ← klass
    stmt ←
        (if is k parenth_open
          then method_call lvalue type_args
          else if is k equal
          then assignment lvalue
          else syntax_failure "assignment or function call was expected")
    accept semicolon "`;` expected"
    pure stmt
