-- ===== src/Syntax/Build/Structs.antt =====
-- build_ast.c: structures, enumerations and constants.
use dp4c.Prelude.{true, false, some, if◌then◌else◌}
use dp4c.Token.{
  TokenClass, is, comma, equal, semicolon, brace_open, brace_close, header_kw, header_union_kw,
  struct_kw, enum_kw, bit_kw, angle_open, angle_close, const_kw,
}
use dp4c.Token
use dp4c.Ast.Kinds.{AstKind}
use dp4c.Syntax.Classes.{
  token_is_name, token_is_type_ref, token_is_expression, token_is_struct_field,
  token_is_specified_identifier, token_is_derived_type_declaration,
}
use dp4c.Syntax.Tree.{Node, Nodes}
use dp4c.Syntax.Build.{
  Build, Builders, pure, ◌>>=◌, ◌>>◌, klass, fault, expected, next_token, accept, new_ast_node,
  set_ast, set_list, list_by_comma, list_while, optional_list,
}
use dp4c.Syntax.Build.Names.{build_name, build_integer}
use dp4c.Syntax.Build.Expressions.{build_initializer}

module _ (b : Builders) where
  unfoldable pub build_struct_field : Build Node
  build_struct_field = do
    field ← new_ast_node AstKind.struct_field
    k ← klass
    expected (token_is_type_ref k) "struct field was expected"
    type ← b.build_type_ref
    field ← set_ast field "type" type
    k ← klass
    expected (token_is_name k) "name was expected"
    name ← build_name false
    field ← set_ast field "name" name
    accept semicolon "`;` was expected"
    pure field

  unfoldable pub build_struct_field_list : Build Nodes
  build_struct_field_list =
      optional_list token_is_struct_field (list_while token_is_struct_field build_struct_field)

  -- What follows the keyword of a header, a header union or a struct.
  unfoldable pub fields_declaration : AstKind → Build Node
  fields_declaration kind = do
    decl ← new_ast_node kind
    k ← klass
    expected (token_is_name k) "name was expected"
    name ← build_name true
    decl ← set_ast decl "name" name
    accept brace_open "`{` was expected"
    fields ← build_struct_field_list
    decl ← set_list decl "fields" fields
    accept brace_close "`}` was expected"
    pure decl

  unfoldable pub build_header_type_declaration : Build Node
  unfolding fields_declaration
  build_header_type_declaration = do
    accept header_kw "`header` was expected"
    fields_declaration AstKind.header_decl

  unfoldable pub build_header_union_declaration : Build Node
  unfolding fields_declaration
  build_header_union_declaration = do
    accept header_union_kw "`header_union` was expected"
    fields_declaration AstKind.header_union_decl

  unfoldable pub build_struct_type_declaration : Build Node
  unfolding fields_declaration
  build_struct_type_declaration = do
    accept struct_kw "`struct` was expected"
    fields_declaration AstKind.struct_decl

  unfoldable pub build_specified_identifier : Build Node
  build_specified_identifier = do
    k ← klass
    expected (token_is_specified_identifier k) "name was expected"
    id ← new_ast_node AstKind.specd_id
    name ← build_name false
    id ← set_ast id "name" name
    k ← klass
    if is k equal
        then (do
          next_token
          k ← klass
          expected (token_is_expression k) "an expression was expected"
          init_expr ← build_initializer b
          set_ast id "init_expr" init_expr)
        else pure id

  unfoldable pub build_specified_identifier_list : Build Nodes
  build_specified_identifier_list = do
    k ← klass
    expected (token_is_specified_identifier k) "name was expected"
    ids ← list_by_comma build_specified_identifier
    pure (some ids)

  -- `bit<size>` behind `enum`, where it stands.
  unfoldable pub enum_size : Node → Build Node
  enum_size decl = do
    k ← klass
    if is k bit_kw
        then (do
          next_token
          accept angle_open "`<` was expected"
          k ← klass
          expected (is k Token.integer) "an integer was expected"
          type_size ← build_integer
          decl ← set_ast decl "type_size" type_size
          accept angle_close "`>` was expected"
          pure decl)
        else pure decl

  unfoldable pub build_enum_declaration : Build Node
  unfolding enum_size
  build_enum_declaration = do
    accept enum_kw "`enum` was expected"
    decl ← new_ast_node AstKind.enum_decl
    decl ← enum_size decl
    k ← klass
    expected (token_is_name k) "name was expected"
    name ← build_name true
    decl ← set_ast decl "name" name
    accept brace_open "`{` was expected"
    k ← klass
    expected (token_is_specified_identifier k) "name was expected"
    id_list ← build_specified_identifier_list
    decl ← set_list decl "id_list" id_list
    accept brace_close "`}` was expected"
    pure decl

  unfoldable pub build_derived_type_declaration : Build Node
  build_derived_type_declaration = do
    k ← klass
    expected (token_is_derived_type_declaration k) "structure declaration was expected"
    if is k header_kw
        then build_header_type_declaration
        else if is k header_union_kw
        then build_header_union_declaration
        else if is k struct_kw
        then build_struct_type_declaration
        else if is k enum_kw
        then build_enum_declaration
        else fault

  unfoldable pub build_constant_declaration : Build Node
  build_constant_declaration = do
    accept const_kw "`const` was expected"
    decl ← new_ast_node AstKind.const_decl
    k ← klass
    expected (token_is_type_ref k) "type was expected"
    type_ref ← b.build_type_ref
    decl ← set_ast decl "type_ref" type_ref
    k ← klass
    expected (token_is_name k) "name was expected"
    name ← build_name false
    decl ← set_ast decl "name" name
    accept equal "`=` was expected"
    k ← klass
    expected (token_is_expression k) "an expression was expected"
    expr ← b.build_expression 1
    decl ← set_ast decl "expr" expr
    accept semicolon "`;` expected"
    pure decl
