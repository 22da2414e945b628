-- ===== src/BuildSymtable/Locals.antt =====
-- build_symtable.c: the names that a control declares.
use dp4c.Prelude.{
  ℕ, zero, suc, Bool, true, false, none, some, ok, failed, out_of_fuel, assertion, if◌then◌else◌,
  ◌>>=◌,
}
use dp4c.Ast.Kinds.{
  AstKind, instantiation, action_decl, var_decl, table_decl, block_stmt, method_call_stmt,
  assignment_stmt, if_stmt, switch_stmt, direct_applic,
}
use dp4c.Syntax.Tree.{Tree, Node, Links}
use dp4c.BuildSymtable.Names.{
  Action, kind_of, value_at, as_ast, as_list, deref, each_link, in_scope, if_list, declare_ident,
}

abbrev pub is_local_name : AstKind → Bool
is_local_name instantiation = true
is_local_name action_decl = true
is_local_name var_decl = true
is_local_name table_decl = true
is_local_name _ = false

abbrev pub is_block : AstKind → Bool
is_block block_stmt = true
is_block _ = false

abbrev pub is_passed : AstKind → Bool
is_passed method_call_stmt = true
is_passed assignment_stmt = true
is_passed if_stmt = true
is_passed switch_stmt = true
is_passed direct_applic = true
is_passed _ = false

-- `block` is `build_symtable_block_statement`.
unfoldable pub build_symtable_local_control_declaration : (Tree → Action) → ℕ → Node → Action
build_symtable_local_control_declaration block page_size n t = do
  decl ← deref n
  if is_local_name (kind_of decl)
      then declare_ident page_size decl t
      else if is_block (kind_of decl)
      then block decl t
      else if is_passed (kind_of decl)
      then ok t
      else failed assertion

unfoldable pub build_symtable_block_statement : ℕ → ℕ → Tree → Action
build_symtable_block_statement zero page_size stmt t = out_of_fuel
build_symtable_block_statement (suc n) page_size stmt t =
    in_scope
      (λ t'. as_list (value_at "stmt_list" stmt) >>= λ stmt_list.
        if_list
          (each_link (
            build_symtable_local_control_declaration (build_symtable_block_statement n page_size)
              page_size))
          stmt_list t')
      t

unfoldable pub build_symtable_local_control_declarations : ℕ → ℕ → Links → Action
build_symtable_local_control_declarations fuel page_size local_decls = in_scope (
    each_link
      (build_symtable_local_control_declaration (build_symtable_block_statement fuel page_size)
        page_size)
      local_decls)

-- The body of an `if` on a node that may be null.
unfoldable pub if_ast : (Tree → Action) → Node → Action
if_ast body none t = ok t
if_ast body (some a) t = body a t

unfoldable pub control_scope : ℕ → ℕ → Tree → Action
control_scope fuel page_size control_decl t = do
  local_decls ← as_list (value_at "local_decls" control_decl)
  t' ← if_list (build_symtable_local_control_declarations fuel page_size) local_decls t
  apply_stmt ← as_ast (value_at "apply_stmt" control_decl)
  if_ast (build_symtable_block_statement fuel page_size) apply_stmt t'
