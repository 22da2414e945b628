-- ===== src/Syntax/Build/Prototypes.antt =====
-- build_ast.c: parameters, prototypes of functions and methods, and `extern` declarations.
use dp4c.Prelude.{Bool, ◌||◌, ◌&&◌, true, false, none, some, if◌then◌else◌}
use dp4c.Token.{
  TokenClass, is, equal, void_kw, identifier, type_identifier, parenth_open, parenth_close,
  semicolon, extern_kw, brace_open, brace_close,
}
use dp4c.Ast.Kinds.{AstKind}
use dp4c.Syntax.Classes.{
  token_is_non_type_name, token_is_name, token_is_type_ref, token_is_parameter, token_is_expression,
  token_is_type_or_void, token_is_method_prototype,
}
use dp4c.Syntax.Tree.{Node, Nodes, direction_value}
use dp4c.Syntax.Build.{
  Build, Builders, pure, ◌>>=◌, ◌>>◌, token, klass, fault, syntax_failure, expected, next_token,
  peek_token, accept, new_ast_node, new_type, set_ast, set_list, set_integer, set_string,
  list_by_comma, list_while, optional_list,
}
use dp4c.Syntax.Build.Names.{
  build_non_type_name, build_name, build_opt_type_parameters, build_direction,
}

-- A pointer to a type that is passed, or the type that is read where the pointer is null.
unfoldable pub given_or : Build Node → Node → Build Node
given_or read none = read
given_or read (some type) = pure (some type)

abbrev pub is_given : Node → Bool
is_given none = false
is_given (some type) = true

module _ (b : Builders) where
  unfoldable pub build_parameter : Build Node
  build_parameter = do
    param ← new_ast_node AstKind.parameter
    direction ← build_direction
    param ← set_integer param "direction" (direction_value direction)
    k ← klass
    expected (token_is_type_ref k) "type was expected"
    type ← b.build_type_ref
    param ← set_ast param "type" type
    k ← klass
    expected (token_is_name k) "name was expected"
    name ← build_name false
    param ← set_ast param "name" name
    k ← klass
    if is k equal
        then (do
          next_token
          k ← klass
          expected (token_is_expression k) "expression was expected"
          init_expr ← b.build_expression 1
          set_ast param "init_expr" init_expr)
        else pure param

  unfoldable pub build_parameter_list : Build Nodes
  build_parameter_list = optional_list token_is_parameter (list_by_comma build_parameter)

  -- The parameters in parentheses, as an attribute of `decl`.
  unfoldable pub parameters : Node → Build Node
  parameters decl = do
    accept parenth_open "`(` was expected"
    params ← build_parameter_list
    decl ← set_list decl "params" params
    accept parenth_close "`)` was expected"
    pure decl

  unfoldable pub build_type_or_void : Bool → Build Node
  build_type_or_void is_type = do
    t ← token
    expected (token_is_type_or_void t.klass) "type was expected"
    if token_is_type_ref t.klass
        then b.build_type_ref
        else if is t.klass void_kw
        then (do
          void_name ← new_ast_node AstKind.name
          void_name ← set_string void_name "name" t.lexeme
          next_token
          pure void_name)
        else if is t.klass identifier
        then (do
          name ← new_ast_node AstKind.name
          name ← set_string name "name" t.lexeme
          if is_type then new_type t.lexeme name else pure tt
          next_token
          pure name)
        else fault

  unfoldable pub build_function_prototype : Node → Build Node
  unfolding given_or parameters
  build_function_prototype type_ref = do
    k ← klass
    expected (token_is_type_or_void k || is_given type_ref) "type was expected"
    proto ← new_ast_node AstKind.function_proto
    return_type ← given_or (build_type_or_void true) type_ref
    proto ← set_ast proto "return_type" return_type
    k ← klass
    expected (token_is_name k) "function name was expected"
    name ← build_name false
    proto ← set_ast proto "name" name
    type_params ← build_opt_type_parameters
    proto ← set_list proto "type_params" type_params
    parameters proto

  -- `token->klass == Token_TypeIdentifier && peek_token()->klass == Token_ParenthOpen`
  unfoldable pub is_constructor : TokenClass → Build Bool
  is_constructor k =
      if is k type_identifier then (do k' ← peek_token; pure (is k' parenth_open)) else pure false

  unfoldable pub build_constructor : Build Node
  build_constructor = do
    proto ← new_ast_node AstKind.function_proto
    name ← build_name false
    proto ← set_ast proto "name" name
    accept parenth_open "`(` as expected"
    params ← build_parameter_list
    proto ← set_list proto "params" params
    accept parenth_close "`)` was expected"
    pure proto

  unfoldable pub build_method_prototype : Build Node
  unfolding is_constructor build_constructor
  build_method_prototype = do
    k ← klass
    expected (token_is_method_prototype k) "type was expected"
    constructs ← is_constructor k
    proto ←
        (if constructs
          then build_constructor
          else if token_is_type_or_void k
          then build_function_prototype none
          else syntax_failure "type was expected")
    accept semicolon "`;` was expected"
    pure proto

  unfoldable pub build_method_prototypes : Build Nodes
  build_method_prototypes =
      optional_list token_is_method_prototype
        (list_while token_is_method_prototype build_method_prototype)

  unfoldable pub is_function_proto : TokenClass → Build Bool
  is_function_proto k =
      if token_is_type_or_void k && token_is_non_type_name k
      then (do k' ← peek_token; pure (token_is_name k'))
      else if token_is_type_or_void k
      then pure true
      else if token_is_non_type_name k
      then pure false
      else syntax_failure "extern declaration was expected"

  unfoldable pub extern_object : Node → Build Node
  extern_object extern_decl = do
    name ← build_non_type_name true
    extern_decl ← set_ast extern_decl "name" name
    type_params ← build_opt_type_parameters
    extern_decl ← set_list extern_decl "type_params" type_params
    accept brace_open "`{` was expected"
    method_protos ← build_method_prototypes
    extern_decl ← set_list extern_decl "method_protos" method_protos
    accept brace_close "`}` was expected"
    pure extern_decl

  unfoldable pub build_extern_declaration : Build Node
  unfolding is_function_proto extern_object
  build_extern_declaration = do
    k ← klass
    if is k extern_kw
        then (do
          next_token
          extern_decl ← new_ast_node AstKind.extern_decl
          k ← klass
          function ← is_function_proto k
          if function
              then (do
                decl ← build_function_prototype none
                accept semicolon "`;` was expected"
                pure decl)
              else extern_object extern_decl)
        else pure none
