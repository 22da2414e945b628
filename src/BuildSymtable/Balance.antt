-- ===== src/BuildSymtable/Balance.antt =====
-- build_symtable.c: the walk over a program ends, and its scopes end.
use dp4c.Prelude.{
  ℕ, ◌≤◌, ◌≡◌, refl, arith, Option, none, some, Ensures-bind, Ensures-if, Ensures, returns, stops,
}
use dp4c.Ast.Kinds.{AstKind}
use dp4c.Symtable.Entries.{Symtable}
use dp4c.Symtable.Levels.{new_ident-level}
use dp4c.Syntax.Tree.{Tree, Node, Links}
use dp4c.BuildSymtable.Names.{Action, kind_of, value_at, each_link, in_scope, if_list}
use dp4c.BuildSymtable.Locals.{build_symtable_local_control_declarations, if_ast, control_scope}
use dp4c.BuildSymtable.Program.{
  declare_type_decl, build_symtable_control, build_symtable_local_parser_element,
  build_symtable_local_parser_elements, parser_scope, build_symtable_parser,
  build_symtable_function_proto, build_symtable_extern_method_protos, build_symtable_extern,
  build_symtable_struct_field, build_symtable_struct_fields, build_symtable_struct,
  build_symtable_package, build_symtable_top_level_instantiation, build_symtable_type_decl,
  build_symtable_const_declaration, build_symtable_declaration, build_symtable_program,
  is_parser_name, is_program,
}
use dp4c.BuildSymtable.Sizes.{tree_size, links_size, value_at-size}
use dp4c.BuildSymtable.Levels.{
  Keeps, node_size, list_size, as_ast-size, as_list-size, as_string-Ends, as_bool-Ends, deref-node,
  deref-list, name_node-Ends, Level-Keeps, in_scope-Keeps, each_link-Keeps, if_list-Keeps,
  declare_type-Keeps, declare_ident-Keeps, local-Keeps, block_statement-Keeps,
}

-- The list of a node, read and handed to an action.
each_node-Keeps :
    (item : Node → Action)
    → ((n : Node) → Keeps (item n))
    → (ls : Links) → Keeps (in_scope (each_link item ls))
each_node-Keeps item h ls =
    in_scope-Keeps (each_link item ls)
      (each_link-Keeps (links_size ls) item (λ n _. h n) ls (omega arith))

any_list-Keeps :
    (body : Links → Action)
    → ((ls : Links) → Keeps (body ls))
    → (o : Option Links) → Keeps (if_list body o)
any_list-Keeps body h o = if_list-Keeps (list_size o) body (λ ls _. h ls) o (omega arith)

if_ast-Keeps :
    (bound : ℕ) (body : Tree → Action)
    → ((a : Tree) → tree_size a ≤ bound → Keeps (body a))
    → (n : Node) → node_size n ≤ bound
    → Keeps (if_ast body n)
unfolding if_ast
if_ast-Keeps bound body h none small t = returns refl
if_ast-Keeps bound body h (some a) small t = h a small t

control_scope-Keeps :
    (fuel page_size : ℕ) (decl : Tree)
    → tree_size decl ≤ fuel
    → Keeps (control_scope fuel page_size decl)
unfolding control_scope build_symtable_local_control_declarations
control_scope-Keeps fuel page_size decl small t =
    let block = block_statement-Keeps fuel page_size in
    Ensures-bind (as_list-size (value_at "local_decls" decl)) λ local_decls size.
      Ensures-bind
        (if_list-Keeps fuel _
          (λ ls h.
            in_scope-Keeps _ (each_link-Keeps fuel _ (local-Keeps fuel _ page_size block) ls h))
          local_decls (omega (arith, value_at-size "local_decls" decl)) t)
        λ t' same. Ensures-bind (as_ast-size (value_at "apply_stmt" decl)) λ apply_stmt size'.
          Level-Keeps _ t'
            (if_ast-Keeps fuel _ block apply_stmt (omega (arith, value_at-size "apply_stmt" decl)))
            same

declare_type_decl-Keeps : (page_size : ℕ) (decl : Tree) → Keeps (declare_type_decl page_size decl)
unfolding declare_type_decl
declare_type_decl-Keeps page_size decl t =
    Ensures-bind (as_ast-size (value_at "type_decl" decl))
      λ n _. Ensures-bind (deref-node n) λ owner _. declare_type-Keeps page_size owner t

control-Keeps :
    (fuel page_size : ℕ) (decl : Tree)
    → tree_size decl ≤ fuel
    → Keeps (build_symtable_control fuel page_size decl)
unfolding build_symtable_control
control-Keeps fuel page_size decl small t =
    Ensures-bind (declare_type_decl-Keeps page_size decl t) λ t' same.
      Level-Keeps _ t' (in_scope-Keeps _ (control_scope-Keeps fuel page_size decl small)) same

parser_element-Keeps :
    (page_size : ℕ) (n : Node) → Keeps (build_symtable_local_parser_element page_size n)
unfolding build_symtable_local_parser_element
parser_element-Keeps page_size n t = Ensures-bind (deref-node n) λ element _.
    Ensures-if (is_parser_name (kind_of element)) (λ _. declare_ident-Keeps page_size element t)
      (λ _. stops)

parser_scope-Keeps : (page_size : ℕ) (decl : Tree) → Keeps (parser_scope page_size decl)
unfolding parser_scope build_symtable_local_parser_elements
parser_scope-Keeps page_size decl t =
    Ensures-bind (as_list-size (value_at "local_elements" decl)) λ local_elements _.
      any_list-Keeps _ (each_node-Keeps _ (parser_element-Keeps page_size)) local_elements t

parser-Keeps : (page_size : ℕ) (decl : Tree) → Keeps (build_symtable_parser page_size decl)
unfolding build_symtable_parser
parser-Keeps page_size decl t =
    Ensures-bind (declare_type_decl-Keeps page_size decl t)
      λ t' same. Level-Keeps _ t' (in_scope-Keeps _ (parser_scope-Keeps page_size decl)) same

function_proto-Keeps :
    (page_size : ℕ) (decl : Tree) → Keeps (build_symtable_function_proto page_size decl)
unfolding build_symtable_function_proto
function_proto-Keeps page_size decl t = Ensures-bind (name_node-Ends decl) λ name _.
    Ensures-bind (as_string-Ends (value_at "name" name))
      λ strname _. Ensures-bind (new_ident-level page_size strname _ t) λ (s, t') same. returns same

extern-Keeps : (page_size : ℕ) (decl : Tree) → Keeps (build_symtable_extern page_size decl)
unfolding build_symtable_extern build_symtable_extern_method_protos
extern-Keeps page_size decl t = Ensures-bind (declare_type-Keeps page_size decl t) λ t' same.
    Ensures-bind (as_list-size (value_at "method_protos" decl)) λ method_protos _.
      Level-Keeps _ t'
        (any_list-Keeps _
          (each_node-Keeps _
            (λ n u. Ensures-bind (deref-node n) λ proto _. function_proto-Keeps page_size proto u))
          method_protos)
        same

struct_field-Keeps : (page_size : ℕ) (n : Node) → Keeps (build_symtable_struct_field page_size n)
unfolding build_symtable_struct_field
struct_field-Keeps page_size n t =
    Ensures-bind (deref-node n) λ field _. declare_ident-Keeps page_size field t

struct-Keeps : (page_size : ℕ) (decl : Tree) → Keeps (build_symtable_struct page_size decl)
unfolding build_symtable_struct build_symtable_struct_fields
struct-Keeps page_size decl t = Ensures-bind (declare_type-Keeps page_size decl t) λ t' same.
    Ensures-bind (as_list-size (value_at "fields" decl)) λ fields _.
      Level-Keeps _ t' (any_list-Keeps _ (each_node-Keeps _ (struct_field-Keeps page_size)) fields)
        same

type_decl-Keeps : (page_size : ℕ) (decl : Tree) → Keeps (build_symtable_type_decl page_size decl)
unfolding build_symtable_type_decl
type_decl-Keeps page_size decl t =
    Ensures-bind (as_bool-Ends (value_at "is_typedef" decl)) λ is_typedef _.
      Ensures-if is_typedef (λ _. declare_type-Keeps page_size decl t) (λ _. returns refl)

declaration-Keeps :
    (fuel page_size : ℕ) (kind : AstKind) (decl : Tree)
    → tree_size decl ≤ fuel
    → Keeps (build_symtable_declaration fuel page_size kind decl)
unfolding build_symtable_declaration build_symtable_package build_symtable_top_level_instantiation
    build_symtable_const_declaration
declaration-Keeps fuel page_size AstKind.control decl small t =
    control-Keeps fuel page_size decl small t
declaration-Keeps fuel page_size AstKind.extern_decl decl small t = extern-Keeps page_size decl t
declaration-Keeps fuel page_size AstKind.struct_decl decl small t = struct-Keeps page_size decl t
declaration-Keeps fuel page_size AstKind.header_decl decl small t = struct-Keeps page_size decl t
declaration-Keeps fuel page_size AstKind.package_ decl small t = declare_type-Keeps page_size decl t
declaration-Keeps fuel page_size AstKind.parser decl small t = parser-Keeps page_size decl t
declaration-Keeps fuel page_size AstKind.instantiation decl small t =
    declare_ident-Keeps page_size decl t
declaration-Keeps fuel page_size AstKind.type_decl decl small t = type_decl-Keeps page_size decl t
declaration-Keeps fuel page_size AstKind.function_proto decl small t =
    function_proto-Keeps page_size decl t
declaration-Keeps fuel page_size AstKind.const_decl decl small t =
    declare_ident-Keeps page_size decl t
declaration-Keeps fuel page_size _ decl small t = returns refl

-- With as much fuel as the tree is large, `build_symtable_program` ends; if it returns, then at the level
-- of the scope where it began.
pub build_symtable_program_ends :
    (fuel page_size : ℕ) (program : Tree) (t : Symtable ℕ)
    → tree_size program ≤ fuel
    → Ensures
        (λ (new : Symtable ℕ). new.scope_level ≡ t.scope_level)
        (build_symtable_program fuel page_size program t)
unfolding build_symtable_program
build_symtable_program_ends fuel page_size program t small =
    Ensures-if (is_program (kind_of program))
      (λ _.
        in_scope-Keeps _
          (λ t'. Ensures-bind (as_list-size (value_at "decl_list" program)) λ list size.
            Ensures-bind (deref-list list) λ decl_list same.
              each_link-Keeps fuel _
                (λ n h u.
                  Ensures-bind (deref-node n)
                    λ decl e. declaration-Keeps fuel page_size (kind_of decl) decl (omega arith) u)
                decl_list (omega (arith, value_at-size "decl_list" program)) t')
          t)
      (λ _. stops)
