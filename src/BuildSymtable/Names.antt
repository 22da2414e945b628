-- ===== src/BuildSymtable/Names.antt =====
-- build_symtable.c: reads of the tree's attributes, and the declaration of a name. A null pointer that is
-- read through, and an attribute of another type than the code expects, are out of bounds. The printed
-- line numbers of `new_type` and `new_ident` are left out.
use Prim.Native.String.{String}
use dp4c.Prelude.{
  ℕ, zero, suc, List, Bool, true, false, Option, none, some, codes, Result, ok, failed, error,
  out_of_bounds, redeclared, if◌then◌else◌, ◌>>=◌,
}
use dp4c.Symtable.Entries.{Symtable, push_scope, type_, ident}
use dp4c.Symtable.Table.{pop_scope}
use dp4c.Symtable.Declare.{name_is_declared, new_type, new_ident}
use dp4c.Ast.Kinds.{AstKind}
use dp4c.Syntax.Tree.{
  Tree, Node, Value, Links, node, null, ast, ast_list, integer, string, operator, no_links, link,
  get_attr,
}

-- A symbol's `ast` is a node, by its id.
abbrev pub Action : Type 0
Action = Symtable ℕ → Result (Symtable ℕ)

abbrev pub kind_of : Tree → AstKind
kind_of (node kind id line_nr attrs) = kind

abbrev pub id_of : Tree → ℕ
id_of (node kind id line_nr attrs) = id

abbrev pub line_of : Tree → ℕ
line_of (node kind id line_nr attrs) = line_nr

abbrev pub value_at : String → Tree → Value
value_at name (node kind id line_nr attrs) = get_attr (codes name) attrs

-- The casts of `ast_getattr` to a pointer, which may be null.
unfoldable pub as_ast : Value → Result Node
as_ast null = ok none
as_ast (ast t) = ok (some t)
as_ast (ast_list ls) = failed out_of_bounds
as_ast (integer n) = failed out_of_bounds
as_ast (string s) = failed out_of_bounds
as_ast (operator op) = failed out_of_bounds

unfoldable pub as_list : Value → Result (Option Links)
as_list null = ok none
as_list (ast_list ls) = ok (some ls)
as_list (ast t) = failed out_of_bounds
as_list (integer n) = failed out_of_bounds
as_list (string s) = failed out_of_bounds
as_list (operator op) = failed out_of_bounds

-- A string that is read, and a `bool` that is.
unfoldable pub as_string : Value → Result (List ℕ)
as_string (string s) = ok s
as_string null = failed out_of_bounds
as_string (ast t) = failed out_of_bounds
as_string (ast_list ls) = failed out_of_bounds
as_string (integer n) = failed out_of_bounds
as_string (operator op) = failed out_of_bounds

unfoldable pub as_bool : Value → Result Bool
as_bool (integer zero) = ok false
as_bool (integer (suc n)) = ok true
as_bool null = failed out_of_bounds
as_bool (ast t) = failed out_of_bounds
as_bool (ast_list ls) = failed out_of_bounds
as_bool (string s) = failed out_of_bounds
as_bool (operator op) = failed out_of_bounds

-- A node through its pointer.
unfoldable pub deref : {A : Type 0} → Option A → Result A
deref none = failed out_of_bounds
deref (some a) = ok a

-- `while (link) { item(link->ast); link = link->next; }`
unfoldable pub each_link : (Node → Action) → Links → Action
each_link item no_links t = ok t
each_link item (link v ls) t = do n ← as_ast v; t' ← item n t; each_link item ls t'

-- `push_scope(); ... pop_scope();`
unfoldable pub in_scope : Action → Action
in_scope body t = do t' ← body (push_scope t); pop_scope t'

-- The body of an `if` on a list that may be null.
unfoldable pub if_list : (Links → Action) → Option Links → Action
if_list body none t = ok t
if_list body (some ls) t = body ls t

-- The name node of a declaration.
unfoldable pub name_node : Tree → Result Tree
name_node decl = do n ← as_ast (value_at "name" decl); deref n

unfoldable pub declare_type : ℕ → Tree → Action
declare_type page_size decl t = do
  name ← name_node decl
  strname ← as_string (value_at "name" name)
  (declared, t') ← name_is_declared page_size strname type_ t
  if declared
      then failed (error (redeclared (line_of name) strname))
      else (do (s, t'') ← new_type page_size strname (some (id_of decl)) t'; ok t'')

unfoldable pub declare_ident : ℕ → Tree → Action
declare_ident page_size decl t = do
  name ← name_node decl
  strname ← as_string (value_at "name" name)
  (declared, t') ← name_is_declared page_size strname ident t
  if declared
      then failed (error (redeclared (line_of name) strname))
      else (do (s, t'') ← new_ident page_size strname (some (id_of decl)) t'; ok t'')
