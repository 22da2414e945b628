-- ===== src/BuildSymtable/Program.antt =====
-- build_symtable.c: the declarations of a program.
use dp4c.Prelude.{ℕ, Bool, true, false, some, ok, failed, assertion, if◌then◌else◌, ◌>>=◌}
use dp4c.Symtable.Declare.{new_ident}
use dp4c.Ast.Kinds.{
  AstKind, instantiation, var_decl, const_decl, control, extern_decl, struct_decl, header_decl,
  package_, parser, type_decl, function_proto, p4_program,
}
use dp4c.Syntax.Tree.{Tree, Node, Links}
use dp4c.BuildSymtable.Names.{
  Action, kind_of, id_of, value_at, as_ast, as_list, as_string, as_bool, deref, each_link, in_scope,
  if_list, name_node, declare_type, declare_ident,
}
use dp4c.BuildSymtable.Locals.{control_scope}

-- The name of the declaration of the type that a control or a parser has.
unfoldable pub declare_type_decl : ℕ → Tree → Action
declare_type_decl page_size decl t = do
  n ← as_ast (value_at "type_decl" decl)
  owner ← deref n
  declare_type page_size owner t

unfoldable pub build_symtable_control : ℕ → ℕ → Tree → Action
build_symtable_control fuel page_size control_decl t = do
  t' ← declare_type_decl page_size control_decl t
  in_scope (control_scope fuel page_size control_decl) t'

abbrev pub is_parser_name : AstKind → Bool
is_parser_name const_decl = true
is_parser_name instantiation = true
is_parser_name var_decl = true
is_parser_name _ = false

unfoldable pub build_symtable_local_parser_element : ℕ → Node → Action
build_symtable_local_parser_element page_size n t = do
  element ← deref n
  if is_parser_name (kind_of element) then declare_ident page_size element t else failed assertion

unfoldable pub build_symtable_local_parser_elements : ℕ → Links → Action
build_symtable_local_parser_elements page_size local_elements =
    in_scope (each_link (build_symtable_local_parser_element page_size) local_elements)

unfoldable pub parser_scope : ℕ → Tree → Action
parser_scope page_size parser_decl t = do
  local_elements ← as_list (value_at "local_elements" parser_decl)
  if_list (build_symtable_local_parser_elements page_size) local_elements t

unfoldable pub build_symtable_parser : ℕ → Tree → Action
build_symtable_parser page_size parser_decl t = do
  t' ← declare_type_decl page_size parser_decl t
  in_scope (parser_scope page_size parser_decl) t'

-- A prototype is declared whether or not its name is.
unfoldable pub build_symtable_function_proto : ℕ → Tree → Action
build_symtable_function_proto page_size decl t = do
  name ← name_node decl
  strname ← as_string (value_at "name" name)
  (s, t') ← new_ident page_size strname (some (id_of decl)) t
  ok t'

unfoldable pub build_symtable_extern_method_protos : ℕ → Links → Action
build_symtable_extern_method_protos page_size method_protos = in_scope (
    each_link (λ n t. deref n >>= λ proto. build_symtable_function_proto page_size proto t)
      method_protos)

unfoldable pub build_symtable_extern : ℕ → Tree → Action
build_symtable_extern page_size decl t = do
  t' ← declare_type page_size decl t
  method_protos ← as_list (value_at "method_protos" decl)
  if_list (build_symtable_extern_method_protos page_size) method_protos t'

unfoldable pub build_symtable_struct_field : ℕ → Node → Action
build_symtable_struct_field page_size n t = do field ← deref n; declare_ident page_size field t

unfoldable pub build_symtable_struct_fields : ℕ → Links → Action
build_symtable_struct_fields page_size fields =
    in_scope (each_link (build_symtable_struct_field page_size) fields)

unfoldable pub build_symtable_struct : ℕ → Tree → Action
build_symtable_struct page_size decl t = do
  t' ← declare_type page_size decl t
  fields ← as_list (value_at "fields" decl)
  if_list (build_symtable_struct_fields page_size) fields t'

unfoldable pub build_symtable_package : ℕ → Tree → Action
build_symtable_package page_size package_decl = declare_type page_size package_decl

unfoldable pub build_symtable_top_level_instantiation : ℕ → Tree → Action
build_symtable_top_level_instantiation page_size instance_ = declare_ident page_size instance_

unfoldable pub build_symtable_type_decl : ℕ → Tree → Action
build_symtable_type_decl page_size decl t = do
  is_typedef ← as_bool (value_at "is_typedef" decl)
  if is_typedef then declare_type page_size decl t else ok t

unfoldable pub build_symtable_const_declaration : ℕ → Tree → Action
build_symtable_const_declaration page_size decl = declare_ident page_size decl

-- The body of the loop of `build_symtable_program`, by the kind of the declaration.
unfoldable pub build_symtable_declaration : ℕ → ℕ → AstKind → Tree → Action
build_symtable_declaration fuel page_size control decl = build_symtable_control fuel page_size decl
build_symtable_declaration fuel page_size extern_decl decl = build_symtable_extern page_size decl
build_symtable_declaration fuel page_size struct_decl decl = build_symtable_struct page_size decl
build_symtable_declaration fuel page_size header_decl decl = build_symtable_struct page_size decl
build_symtable_declaration fuel page_size package_ decl = build_symtable_package page_size decl
build_symtable_declaration fuel page_size parser decl = build_symtable_parser page_size decl
build_symtable_declaration fuel page_size instantiation decl =
    build_symtable_top_level_instantiation page_size decl
build_symtable_declaration fuel page_size type_decl decl = build_symtable_type_decl page_size decl
build_symtable_declaration fuel page_size function_proto decl =
    build_symtable_function_proto page_size decl
build_symtable_declaration fuel page_size const_decl decl =
    build_symtable_const_declaration page_size decl
build_symtable_declaration fuel page_size _ decl = λ t. ok t

abbrev pub is_program : AstKind → Bool
is_program p4_program = true
is_program _ = false

-- A null list is read through.
unfoldable pub build_symtable_program : ℕ → ℕ → Tree → Action
build_symtable_program fuel page_size program t =
    if is_program (kind_of program)
    then in_scope
        (λ t'. as_list (value_at "decl_list" program) >>= λ list. deref list >>= λ decl_list.
          each_link
            (λ n u.
              deref n >>= λ decl. build_symtable_declaration fuel page_size (kind_of decl) decl u)
            decl_list t')
        t
    else failed assertion
