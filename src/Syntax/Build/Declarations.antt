-- ===== src/Syntax/Build/Declarations.antt =====
-- build_ast.c: controls, packages, type definitions, functions, and the declarations of a program.
use dp4c.Prelude.{◌||◌, true, if◌then◌else◌}
use dp4c.Token.{
  is, semicolon, parenth_open, brace_open, brace_close, const_kw, action_kw, table_kw, control_kw,
  apply_kw, package_kw, typedef_kw, type_kw, parser_kw, extern_kw, error_kw, match_kind_kw,
}
use dp4c.Ast.Kinds.{AstKind}
use dp4c.Syntax.Classes.{
  token_is_name, token_is_type_ref, token_is_derived_type_declaration, token_is_type_declaration,
  token_is_control_local_declaration, token_is_type_or_void, token_is_declaration,
}
use dp4c.Syntax.Tree.{Node, Nodes, bool_value}
use dp4c.Syntax.Build.{
  Build, Builders, pure, ◌>>=◌, ◌>>◌, klass, fault, syntax_failure, unexpected, expected,
  next_token, accept, new_ast_node, set_ast, set_list, set_integer, list_while, optional_list,
}
use dp4c.Syntax.Build.Names.{build_name, build_error_declaration, build_match_kind_declaration}
use dp4c.Syntax.Build.Prototypes.{build_function_prototype, build_extern_declaration}
use dp4c.Syntax.Build.Structs.{build_constant_declaration, build_derived_type_declaration}
use dp4c.Syntax.Build.Locals.{build_instantiation, typed_local}
use dp4c.Syntax.Build.Statements.{build_block_statement, build_action_declaration}
use dp4c.Syntax.Build.States.{
  type_declaration, build_opt_constructor_parameters, build_parser_declaration,
}
use dp4c.Syntax.Build.Tables.{build_table_declaration}

module _ (b : Builders) where
  unfoldable pub build_control_type_declaration : Build Node
  build_control_type_declaration = do
    accept control_kw "`control` was expected"
    type_declaration b AstKind.control_type

  unfoldable pub build_control_local_declaration : Build Node
  build_control_local_declaration = do
    k ← klass
    if is k const_kw
        then build_constant_declaration b
        else if is k action_kw
        then build_action_declaration b
        else if is k table_kw
        then build_table_declaration b
        else if token_is_type_ref k
        then typed_local b
        else syntax_failure "local declaration was expected"

  unfoldable pub build_control_local_declarations : Build Nodes
  build_control_local_declarations =
      optional_list token_is_control_local_declaration
        (list_while token_is_control_local_declaration build_control_local_declaration)

  unfoldable pub control_body : Node → Build Node
  control_body decl = do
    ctor_params ← build_opt_constructor_parameters b
    decl ← set_list decl "ctor_params" ctor_params
    accept brace_open "`{` was expected"
    local_decls ← build_control_local_declarations
    decl ← set_list decl "local_decls" local_decls
    accept apply_kw "`apply` was expected"
    apply_stmt ← build_block_statement b
    decl ← set_ast decl "apply_stmt" apply_stmt
    accept brace_close "`}` was expected"
    pure decl

  unfoldable pub build_control_declaration : Build Node
  unfolding control_body
  build_control_declaration = do
    k ← klass
    expected (is k control_kw) "`control` was expected"
    decl ← new_ast_node AstKind.control
    type_decl ← build_control_type_declaration
    decl ← set_ast decl "type_decl" type_decl
    k ← klass
    if is k semicolon then (do next_token; pure decl) else control_body decl

  unfoldable pub build_package_type_declaration : Build Node
  build_package_type_declaration = do
    accept package_kw "`package` was expected"
    type_declaration b AstKind.package_

  unfoldable pub build_typedef_declaration : Build Node
  build_typedef_declaration = do
    k ← klass
    expected (is k typedef_kw || is k type_kw) "type definition was expected"
    next_token
    let is_typedef = is k typedef_kw
    k ← klass
    expected (token_is_type_ref k || token_is_derived_type_declaration k) "type was expected"
    type_decl ← new_ast_node AstKind.type_decl
    type_decl ← set_integer type_decl "is_typedef" (bool_value is_typedef)
    type_ref ←
        (if token_is_type_ref k
          then b.build_type_ref
          else if token_is_derived_type_declaration k
          then build_derived_type_declaration b
          else fault)
    type_decl ← set_ast type_decl "type_ref" type_ref
    k ← klass
    expected (token_is_name k) "name was expected"
    name ← build_name true
    type_decl ← set_ast type_decl "name" name
    accept semicolon "`;` expected"
    pure type_decl

  unfoldable pub build_type_declaration : Build Node
  build_type_declaration = do
    k ← klass
    expected (token_is_type_declaration k) "type declaration was expected"
    if token_is_derived_type_declaration k
        then build_derived_type_declaration b
        else if is k typedef_kw || is k type_kw
        then build_typedef_declaration
        else if is k parser_kw
        then build_parser_declaration b
        else if is k control_kw
        then build_control_declaration
        else if is k package_kw
        then (do decl ← build_package_type_declaration; accept semicolon "`;` expected"; pure decl)
        else fault

  unfoldable pub build_function_declaration : Node → Build Node
  build_function_declaration type_ref = do
    k ← klass
    expected (token_is_type_or_void k) "type was expected"
    decl ← new_ast_node AstKind.function_decl
    proto ← build_function_prototype b type_ref
    decl ← set_ast decl "proto" proto
    k ← klass
    expected (is k brace_open) "`{` was expected"
    stmt ← build_block_statement b
    set_ast decl "stmt" stmt

  -- What a declaration that begins with a type is: an instantiation or a function.
  unfoldable pub typed_declaration : Build Node
  typed_declaration = do
    type_ref ← b.build_type_ref
    k ← klass
    if is k parenth_open
        then build_instantiation b type_ref
        else if token_is_name k
        then build_function_declaration type_ref
        else unexpected

  unfoldable pub build_declaration : Build Node
  unfolding typed_declaration
  build_declaration = do
    k ← klass
    expected (token_is_declaration k) "top-level declaration as expected"
    if is k const_kw
        then build_constant_declaration b
        else if is k extern_kw
        then build_extern_declaration b
        else if is k action_kw
        then build_action_declaration b
        else if token_is_type_declaration k
        then build_type_declaration
        else if is k error_kw
        then build_error_declaration
        else if is k match_kind_kw
        then build_match_kind_declaration
        else if token_is_type_ref k
        then typed_declaration
        else if token_is_type_or_void k
        then b.build_type_ref >>= build_function_declaration
        else fault
