-- ===== src/Syntax/Build/Tables.antt =====
-- build_ast.c: the tables of a control.
use dp4c.Prelude.{Bool, ◌||◌, true, false, some, if◌then◌else◌}
use dp4c.Token.{
  is, equal, semicolon, parenth_open, parenth_close, brace_open, brace_close, colon, dot_prefix,
  const_kw, key_kw, actions_kw, entries_kw, table_kw,
}
use dp4c.Ast.Kinds.{AstKind}
use dp4c.Syntax.Classes.{
  token_is_non_type_name, token_is_expression, token_is_action_ref, token_is_keyset_expression,
  token_is_table_property, token_is_non_table_kw_name,
}
use dp4c.Syntax.Tree.{Node, Nodes, bool_value}
use dp4c.Syntax.Build.{
  Build, Builders, pure, ◌>>=◌, ◌>>◌, klass, fault, expected, next_token, accept, new_ast_node,
  set_ast, set_list, set_integer, list_while, optional_list,
}
use dp4c.Syntax.Build.Names.{build_name, build_prefixed_non_type_name}
use dp4c.Syntax.Build.Expressions.{build_initializer, build_argument_list}
use dp4c.Syntax.Build.States.{build_keyset_expression}

module _ (b : Builders) where
  unfoldable pub build_key_element : Build Node
  build_key_element = do
    k ← klass
    expected (token_is_expression k) "an expression was expected"
    key_elem ← new_ast_node AstKind.key_element
    expr ← b.build_expression 1
    key_elem ← set_ast key_elem "expr" expr
    accept colon "`:` was expected"
    name ← build_name false
    key_elem ← set_ast key_elem "name" name
    accept semicolon "`;` was expected"
    pure key_elem

  unfoldable pub build_key_element_list : Build Nodes
  build_key_element_list =
      optional_list token_is_expression (list_while token_is_expression build_key_element)

  unfoldable pub build_action_ref : Build Node
  build_action_ref = do
    k ← klass
    expected (is k dot_prefix || token_is_non_type_name k) "non-type name was expected"
    ref ← new_ast_node AstKind.action_ref
    name ← build_prefixed_non_type_name
    ref ← set_ast ref "name" name
    k ← klass
    if is k parenth_open
        then (do
          next_token
          args ← build_argument_list b
          ref ← set_list ref "args" args
          accept parenth_close "`)` was expected"
          pure ref)
        else pure ref

  -- A reference to an action with the semicolon behind it.
  unfoldable pub listed_action : Build Node
  listed_action = do ref ← build_action_ref; accept semicolon "`;` was expected"; pure ref

  unfoldable pub build_action_list : Build Nodes
  unfolding listed_action
  build_action_list =
      optional_list token_is_action_ref (list_while token_is_action_ref listed_action)

  unfoldable pub build_entry : Build Node
  build_entry = do
    k ← klass
    expected (token_is_keyset_expression k) "keyset was expected"
    entry ← new_ast_node AstKind.table_entry
    keyset ← build_keyset_expression b
    entry ← set_ast entry "keyset" keyset
    accept colon "`:` was expected"
    action ← build_action_ref
    entry ← set_ast entry "action" action
    accept semicolon "`;` was expected"
    pure entry

  unfoldable pub build_entries_list : Build Nodes
  build_entries_list = do
    k ← klass
    expected (token_is_keyset_expression k) "keyset expression was expected"
    entries ← list_while token_is_keyset_expression build_entry
    pure (some entries)

  -- `if (token->klass == Token_Const) { next_token(); *is_const = true; }`
  unfoldable pub const_prefix : Build Bool
  const_prefix = do k ← klass; if is k const_kw then (do next_token; pure true) else pure false

  unfoldable pub key_property : Build Node
  key_property = do
    next_token
    key_prop ← new_ast_node AstKind.table_prop_key
    accept equal "`=` was expected"
    accept brace_open "`{` was expected"
    keyelem_list ← build_key_element_list
    key_prop ← set_list key_prop "keyelem_list" keyelem_list
    accept brace_close "`}` was expected"
    pure key_prop

  unfoldable pub actions_property : Build Node
  actions_property = do
    next_token
    actions_prop ← new_ast_node AstKind.table_prop_actions
    accept equal "`=` was expected"
    accept brace_open "`{` was expected"
    action_list ← build_action_list
    actions_prop ← set_list actions_prop "action_list" action_list
    accept brace_close "`}` was expected"
    pure actions_prop

  unfoldable pub entries_property : Bool → Build Node
  entries_property is_const = do
    next_token
    entries_prop ← new_ast_node AstKind.table_prop_entries
    entries_prop ← set_integer entries_prop "is_const" (bool_value is_const)
    accept equal "`=` was expected"
    accept brace_open "`{` was expected"
    entries ← build_entries_list
    entries_prop ← set_list entries_prop "entries" entries
    accept brace_close "`}` was expected"
    pure entries_prop

  unfoldable pub single_property : Build Node
  single_property = do
    entry_prop ← new_ast_node AstKind.table_prop_single_entry
    name ← build_name false
    entry_prop ← set_ast entry_prop "name" name
    accept equal "`=` was expected"
    init_expr ← build_initializer b
    entry_prop ← set_ast entry_prop "init_expr" init_expr
    accept semicolon "`;` was expected"
    pure entry_prop

  unfoldable pub build_table_property : Build Node
  unfolding const_prefix key_property actions_property entries_property single_property
  build_table_property = do
    k ← klass
    expected (token_is_table_property k) "table property was expected"
    is_const ← const_prefix
    k ← klass
    if is k key_kw
        then key_property
        else if is k actions_kw
        then actions_property
        else if is k entries_kw
        then entries_property is_const
        else if token_is_non_table_kw_name k
        then single_property
        else fault

  unfoldable pub build_table_property_list : Build Nodes
  build_table_property_list = do
    k ← klass
    expected (token_is_table_property k) "table property was expected"
    props ← list_while token_is_table_property build_table_property
    pure (some props)

  unfoldable pub build_table_declaration : Build Node
  build_table_declaration = do
    accept table_kw "`table` was expected"
    table ← new_ast_node AstKind.table_decl
    name ← build_name false
    table ← set_ast table "name" name
    accept brace_open "`{` was expected"
    prop_list ← build_table_property_list
    table ← set_list table "prop_list" prop_list
    accept brace_close "`}` was expected"
    pure table
