-- ===== src/BuildSymtable/Aborts.antt =====
-- build_symtable.c: the statements of a block and the declarations of a control that the walk does not
-- know.
use dp4c.Prelude.{ℕ, suc, ◌≡◌, refl, some, Result, ok, failed, assertion, if◌then◌else◌}
use dp4c.Ast.Kinds.{
  AstKind, const_decl, empty_stmt, exit_stmt, return_stmt, method_call_stmt, assignment_stmt,
  if_stmt, switch_stmt, direct_applic,
}
use dp4c.Symtable.Entries.{Symtable}
use dp4c.Syntax.Tree.{Tree, Links, no_links, link, null, ast, ast_list, integer, string, operator}
use dp4c.BuildSymtable.Names.{
  Action, kind_of, value_at, as_ast, as_list, deref, each_link, in_scope, if_list,
}
use dp4c.BuildSymtable.Locals.{
  build_symtable_local_control_declaration, build_symtable_local_control_declarations,
  build_symtable_block_statement, is_local_name, is_block, is_passed,
}

-- Kinds that build_ast.c makes in a block or among the declarations of a control.
pub data IsUnhandled : AstKind → Type 0 where
  constant : IsUnhandled const_decl
  empty : IsUnhandled empty_stmt
  exits : IsUnhandled exit_stmt
  returns_ : IsUnhandled return_stmt

-- Kinds that declare nothing.
pub data IsPassed : AstKind → Type 0 where
  call : IsPassed method_call_stmt
  assigns : IsPassed assignment_stmt
  conditional : IsPassed if_stmt
  switch : IsPassed switch_stmt
  applies : IsPassed direct_applic

-- A statement of an unhandled kind stands behind statements that declare nothing.
pub data HasUnhandled : Links → Type 0 where
  here : {stmt : Tree} {ls : Links} → IsUnhandled (kind_of stmt) → HasUnhandled (link (ast stmt) ls)
  past :
      {stmt : Tree} {ls : Links}
      → IsPassed (kind_of stmt)
      → HasUnhandled ls
      → HasUnhandled (link (ast stmt) ls)

module _ (block : Tree → Action) (page_size : ℕ) where
  kind_stops :
      {k : AstKind} (declares blocks passes : Result (Symtable ℕ))
      → IsUnhandled k
      → (if is_local_name k
          then declares
          else if is_block k
          then blocks
          else if is_passed k
          then passes
          else failed assertion)
        ≡ failed assertion
  kind_stops declares blocks passes constant = refl
  kind_stops declares blocks passes empty = refl
  kind_stops declares blocks passes exits = refl
  kind_stops declares blocks passes returns_ = refl

  kind_passes :
      {k : AstKind} (declares blocks passes : Result (Symtable ℕ))
      → IsPassed k
      → (if is_local_name k
          then declares
          else if is_block k
          then blocks
          else if is_passed k
          then passes
          else failed assertion)
        ≡ passes
  kind_passes declares blocks passes call = refl
  kind_passes declares blocks passes assigns = refl
  kind_passes declares blocks passes conditional = refl
  kind_passes declares blocks passes switch = refl
  kind_passes declares blocks passes applies = refl

  each_link_stops :
      (ls : Links) (t : Symtable ℕ)
      → HasUnhandled ls
      → each_link (build_symtable_local_control_declaration block page_size) ls t ≡ failed assertion
  unfolding each_link build_symtable_local_control_declaration as_ast deref
  each_link_stops no_links t h = elim h [ ]
  each_link_stops (link null ls) t h = elim h [ ]
  each_link_stops (link (ast_list _) ls) t h = elim h [ ]
  each_link_stops (link (integer _) ls) t h = elim h [ ]
  each_link_stops (link (string _) ls) t h = elim h [ ]
  each_link_stops (link (operator _) ls) t h = elim h [ ]
  each_link_stops (link (ast stmt) ls) t (here k) = rw (kind_stops _ _ _ k)
  each_link_stops (link (ast stmt) ls) t (past k h) =
      rw (kind_passes _ _ _ k) (each_link_stops ls t h)

-- A statement that is empty, or a `return`, an `exit` or a constant, behind statements that declare
-- nothing: the walk over a block that has it, and that over a control's declarations that have it, is a
-- failed assertion.
pub unhandled_statement_aborts :
    (fuel page_size : ℕ) (stmt : Tree) (ls : Links) (t : Symtable ℕ)
    → as_list (value_at "stmt_list" stmt) ≡ ok (some ls)
    → HasUnhandled ls
    → (build_symtable_block_statement (suc fuel) page_size stmt t ≡ failed assertion)
      × (build_symtable_local_control_declarations fuel page_size ls t ≡ failed assertion)
unfolding build_symtable_block_statement build_symtable_local_control_declarations in_scope if_list
unhandled_statement_aborts fuel page_size stmt ls t list h = (
  rw list (rw (each_link_stops (build_symtable_block_statement fuel page_size) page_size ls _ h)),
  rw (each_link_stops (build_symtable_block_statement fuel page_size) page_size ls _ h),
)
