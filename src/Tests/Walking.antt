-- ===== src/Tests/Walking.antt =====
-- build_symtable.c at small trees.
use dp4c.Prelude.{
  ℕ, List, [], ◌∷◌, codes, get_or, ◌≡◌, refl, arith, ok, failed, assertion, error, redeclared,
  Ensures, ◌>>=◌,
}
use dp4c.Basic.{cstr_match}
use dp4c.Basic.Strings.{str_eq}
use dp4c.Hash.{hash_string}
use dp4c.Chain.{at, search_chain, write_back}
use dp4c.Ast.Kinds.{AstKind, AstAttributeType}
use dp4c.Symtable.Entries.{Symtable, push_scope, scope_delete_symbol, end_entry, end_chain}
use dp4c.Symtable.Table.{
  get_symtable_entry, insert_entry, grow, collect, rehash, pages, pop_scope, end_slots,
}
use dp4c.Symtable.Declare.{name_is_declared, new_ident, new_type, update_entry}
use dp4c.Syntax.Tree.{
  Tree, Attributes, Links, node, no_more, attribute, ast, ast_list, string, no_links, link,
  get_attr,
}
use dp4c.BuildSymtable.Names.{
  as_ast, as_list, as_string, deref, name_node, declare_ident, declare_type, each_link, in_scope,
  if_list,
}
use dp4c.BuildSymtable.Locals.{
  build_symtable_block_statement, build_symtable_local_control_declarations,
  build_symtable_local_control_declaration, control_scope, if_ast,
}
use dp4c.BuildSymtable.Program.{
  build_symtable_program, build_symtable_declaration, build_symtable_control, declare_type_decl,
}
use dp4c.BuildSymtable.Sizes.{tree_size}
use dp4c.BuildSymtable.Balance.{build_symtable_program_ends}
use dp4c.BuildSymtable.Aborts.{unhandled_statement_aborts, here, past, call, returns_}
use dp4c.BuildSymtable.Redeclared.{Named, second_declaration_refused}
use dp4c.Tests.Scopes.{small, larger, small-IsTable, small_pages}

abbrev name_tree : List ℕ → ℕ → Tree
name_tree text line =
    node AstKind.name 1 line
      (attribute (codes "name") AstAttributeType.string (string text) no_more)

abbrev named : AstKind → ℕ → List ℕ → Attributes → Tree
named kind id text rest =
    node kind id 3 (attribute (codes "name") AstAttributeType.ast (ast (name_tree text id)) rest)

abbrev lists : List ℕ → Links → Attributes
lists name ls = attribute name AstAttributeType.ast_list (ast_list ls) no_more

-- f(); return;
abbrev statements : Links
statements =
    link (ast (node AstKind.method_call_stmt 4 4 no_more))
      (link (ast (node AstKind.return_stmt 5 5 no_more)) no_links)

abbrev block : Tree
block = node AstKind.block_stmt 6 4 (lists (codes "stmt_list") statements)

-- A control `c` that declares a variable `y`, and another one of that name in its block.
abbrev control_c : Tree
control_c = node AstKind.control 9 3 (
    attribute (codes "type_decl") AstAttributeType.ast
      (ast (named AstKind.type_decl 2 (codes "c") no_more))
      (attribute (codes "apply_stmt") AstAttributeType.ast
        (ast (
          node AstKind.block_stmt 6 4 (
            lists (codes "stmt_list")
              (link (ast (named AstKind.var_decl 8 (codes "y") no_more)) no_links))))
        (lists (codes "local_decls")
          (link (ast (named AstKind.var_decl 7 (codes "y") no_more)) no_links))))

abbrev program : Tree
program = node AstKind.p4_program 10 1 (lists (codes "decl_list") (link (ast control_c) no_links))

build_symtable_program_ends_example :
    Ensures
      (λ (new : Symtable ℕ). new.scope_level ≡ 0)
      (build_symtable_program 9 4096 program small)
unfolding tree_size
build_symtable_program_ends_example = build_symtable_program_ends 9 4096 program small (omega arith)

-- The walk over that program returns, at the level where it began.
program_run : (do t ← build_symtable_program 9 4096 program small; ok t.scope_level) ≡ ok 0
unfolding build_symtable_program build_symtable_declaration build_symtable_control declare_type_decl
    control_scope if_ast build_symtable_block_statement build_symtable_local_control_declarations
    build_symtable_local_control_declaration as_ast as_list as_string deref name_node declare_ident
    declare_type each_link in_scope if_list get_attr push_scope pop_scope end_slots end_chain
    end_entry scope_delete_symbol get_symtable_entry grow collect rehash pages insert_entry
    update_entry name_is_declared new_ident new_type hash_string at search_chain write_back
    cstr_match str_eq
program_run = refl

unhandled_statement_aborts_example :
    (build_symtable_block_statement 4 4096 block small ≡ failed assertion)
    × (build_symtable_local_control_declarations 3 4096 statements small ≡ failed assertion)
unfolding get_attr as_list str_eq
unhandled_statement_aborts_example =
    unhandled_statement_aborts 3 4096 block statements small refl (past call (here returns_))

-- var y; var y;
abbrev first_y : Tree
first_y = named AstKind.var_decl 8 (codes "y") no_more

abbrev second_y : Tree
second_y = named AstKind.var_decl 9 (codes "y") no_more

first_y-Named : Named first_y (name_tree (codes "y") 8) (codes "y")
unfolding name_node as_ast deref as_string get_attr str_eq
first_y-Named = record { node_there = refl; string_there = refl }

second_y-Named : Named second_y (name_tree (codes "y") 9) (codes "y")
unfolding name_node as_ast deref as_string get_attr str_eq
second_y-Named = record { node_there = refl; string_there = refl }

-- `small` with an entry for `y`.
abbrev looked_up : Symtable ℕ
looked_up = record (larger 0) {
  array =
      (record { name = codes "y"; id_kw = []; id_type = []; id_ident = [] }
        ∷ get_or small.array 0 [])
      ∷ []
      ∷ []
      ∷ [];
}

second_declaration_refused_example :
    (declare_ident 4096 first_y small ≡ ok (larger 0))
    × (declare_ident 4096 second_y (larger 0) ≡ failed (error (redeclared 9 (codes "y"))))
unfolding get_symtable_entry insert_entry update_entry name_is_declared new_ident hash_string at
    search_chain write_back cstr_match str_eq
second_declaration_refused_example =
    second_declaration_refused 4096 first_y second_y (name_tree (codes "y") 8)
      (name_tree (codes "y") 9) (codes "y") small looked_up (larger 0) _ first_y-Named
      second_y-Named (λ e. cc) small-IsTable small_pages refl small_pages refl small_pages
