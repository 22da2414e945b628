-- ===== src/Syntax/Build/Names.antt =====
-- build_ast.c: names, literals, and the declarations that are made of names.
use dp4c.Prelude.{Bool, ◌||◌, true, false, none, some, if◌then◌else◌}
use dp4c.Token.{
  TokenClass, is, type_identifier, comma, angle_open, angle_close, dot_prefix, brace_open,
  brace_close, error_kw, match_kind_kw, true_kw, false_kw, in_kw, out_kw, in_out_kw,
}
use dp4c.Token
use dp4c.Ast.Kinds.{AstKind, AstParamDirection}
use dp4c.Syntax.Classes.{
  token_is_non_type_name, token_is_name, token_is_type_parameter_list, token_is_direction,
}
use dp4c.Syntax.Tree.{Node, Nodes, integer, bool_value}
use dp4c.Syntax.Build.{
  Build, pure, ◌>>=◌, ◌>>◌, token, klass, fault, expected, next_token, accept, new_ast_node,
  new_type, set_list, set_integer, set_string, list_by_comma,
}

unfoldable pub build_non_type_name : Bool → Build Node
build_non_type_name is_type = do
  t ← token
  expected (token_is_non_type_name t.klass) "non-type name was expected"
  name ← new_ast_node AstKind.name
  name ← set_string name "name" t.lexeme
  if is_type then new_type t.lexeme name else pure tt
  next_token
  pure name

unfoldable pub build_name : Bool → Build Node
build_name is_type = do
  t ← token
  expected (token_is_name t.klass) "name was expected"
  if token_is_non_type_name t.klass
      then build_non_type_name is_type
      else if is t.klass type_identifier
      then (do
        type_name ← new_ast_node AstKind.name
        type_name ← set_string type_name "name" t.lexeme
        next_token
        pure type_name)
      else fault

unfoldable pub build_type_parameter_list : Build Nodes
build_type_parameter_list = do
  k ← klass
  expected (token_is_type_parameter_list k) "name was expected"
  params ← list_by_comma (build_name true)
  pure (some params)

unfoldable pub build_opt_type_parameters : Build Nodes
build_opt_type_parameters = do
  k ← klass
  if is k angle_open
      then (do
        next_token
        k' ← klass
        expected (token_is_type_parameter_list k') "name was expected"
        params ← build_type_parameter_list
        accept angle_close "`>` was expected"
        pure params)
      else pure none

unfoldable pub build_direction : Build AstParamDirection
build_direction = do
  k ← klass
  if token_is_direction k
      then (do
        dir ←
            (if is k in_kw
              then pure AstParamDirection.in_
              else if is k out_kw
              then pure AstParamDirection.out
              else if is k in_out_kw
              then pure AstParamDirection.in_out
              else fault)
        next_token
        pure dir)
      else pure AstParamDirection.none_

unfoldable pub build_integer : Build Node
build_integer = do
  t ← token
  if is t.klass Token.integer
      then (do
        int_node ← new_ast_node AstKind.int_
        int_node ← set_integer int_node "flags" (integer t.flags)
        int_node ← set_integer int_node "width" (integer t.width)
        int_node ← set_integer int_node "value" (integer t.value)
        next_token
        pure int_node)
      else pure none

unfoldable pub build_boolean : Build Node
build_boolean = do
  k ← klass
  if is k true_kw || is k false_kw
      then (do
        bool_node ← new_ast_node AstKind.bool_
        bool_node ← set_integer bool_node "value" (bool_value false)
        bool_node ←
            (if is k true_kw
              then set_integer bool_node "value" (bool_value true)
              else pure bool_node)
        next_token
        pure bool_node)
      else pure none

unfoldable pub build_string_literal : Build Node
build_string_literal = do
  t ← token
  if is t.klass Token.string_literal
      then (do
        string ← new_ast_node AstKind.string_literal
        string ← set_string string "value" t.lexeme
        next_token
        pure string)
      else pure none

-- `if (token->klass == Token_DotPrefix) { next_token(); *is_dotprefixed = true; }`
unfoldable pub dot_prefixed : Build Bool
dot_prefixed = do k ← klass; if is k dot_prefix then (do next_token; pure true) else pure false

unfoldable pub build_prefixed_type : Build Node
unfolding dot_prefixed
build_prefixed_type = do
  is_dotprefixed ← dot_prefixed
  t ← token
  expected (is t.klass type_identifier) "type was expected"
  name ← new_ast_node AstKind.name
  name ← set_string name "name" t.lexeme
  name ← set_integer name "is_dotprefixed" (bool_value is_dotprefixed)
  next_token
  pure name

-- The test there is on the function `token_is_nonTypeName` itself, and always true.
unfoldable pub build_prefixed_non_type_name : Build Node
unfolding dot_prefixed
build_prefixed_non_type_name = do
  is_dotprefixed ← dot_prefixed
  name ← build_non_type_name false
  set_integer name "is_dotprefixed" (bool_value is_dotprefixed)

unfoldable pub build_identifier_list : Build Nodes
build_identifier_list = do
  k ← klass
  expected (token_is_name k) "name was expected"
  ids ← list_by_comma (build_name false)
  pure (some ids)

-- The names of an error or of a match kind, in braces.
unfoldable pub braced_identifiers : Node → Build Node
braced_identifiers decl = do
  accept brace_open "`{` was expected"
  k ← klass
  expected (token_is_name k) "name was expected"
  ids ← build_identifier_list
  decl ← set_list decl "id_list" ids
  accept brace_close "`}` was expected"
  pure decl

unfoldable pub build_error_declaration : Build Node
unfolding braced_identifiers
build_error_declaration = do
  accept error_kw "`error` was expected"
  decl ← new_ast_node AstKind.error
  braced_identifiers decl

unfoldable pub build_match_kind_declaration : Build Node
unfolding braced_identifiers
build_match_kind_declaration = do
  accept match_kind_kw "`match_kind` was expected"
  decl ← new_ast_node AstKind.match_kind
  braced_identifiers decl
