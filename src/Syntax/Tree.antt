-- ===== src/Syntax/Tree.antt =====
-- ast.h, ast.c: the tree that the parser builds. A child is a value, since the parser changes a node
-- through the pointer that the node's own function has returned and through no other; a null pointer is
-- `null`. A node's attributes are the list that its table stands for, in the order of their first
-- writes.
use Prim.Native.String.{String}
use dp4c.Prelude.{
  ℕ, ◌+◌, List, [], ◌∷◌, codes, Bool, true, false, ltb, Option, none, some, Result, ok, failed,
  out_of_bounds, assert, if◌then◌else◌, ◌>>◌,
}
use dp4c.Basic.Strings.{str_eq}
use dp4c.Ast.Kinds.{AstKind, AstAttributeType, AstExprOperator, AstParamDirection, AstBaseTypeKind}
use dp4c.Ast.Table.{ast_attrtable_capacity}

mutual
  pub data Tree : Type 0 where
    node : AstKind → (id line_nr : ℕ) → Attributes → Tree

  pub data Attributes : Type 0 where
    no_more : Attributes
    attribute : List ℕ → AstAttributeType → Value → Attributes → Attributes

  pub data Value : Type 0 where
    null : Value
    ast : Tree → Value
    ast_list : Links → Value
    integer : ℕ → Value
    string : List ℕ → Value
    operator : AstExprOperator → Value

  -- `struct AstList`: the links behind the sentinel, each with what it points to.
  pub data Links : Type 0 where
    no_links : Links
    link : Value → Links → Links

-- `struct Ast*` and `struct AstList*`.
abbrev pub Node : Type 0
Node = Option Tree

abbrev pub Nodes : Type 0
Nodes = Option (List Node)

abbrev pub ast_value : Node → Value
ast_value none = null
ast_value (some t) = ast t

abbrev pub links : List Node → Links
links [] = no_links
links (n ∷ nodes) = link (ast_value n) (links nodes)

abbrev pub list_value : Nodes → Value
list_value none = null
list_value (some nodes) = ast_list (links nodes)

abbrev pub bool_value : Bool → Value
bool_value true = integer 1
bool_value false = integer 0

abbrev pub direction_value : AstParamDirection → Value
direction_value AstParamDirection.none_ = integer 0
direction_value AstParamDirection.in_ = integer 1
direction_value AstParamDirection.out = integer 2
direction_value AstParamDirection.in_out = integer 3

abbrev pub base_type_value : AstBaseTypeKind → Value
base_type_value AstBaseTypeKind.none_ = integer 0
base_type_value AstBaseTypeKind.bool_ = integer 1
base_type_value AstBaseTypeKind.error = integer 2
base_type_value AstBaseTypeKind.int_ = integer 3
base_type_value AstBaseTypeKind.bit = integer 4
base_type_value AstBaseTypeKind.varbit = integer 5
base_type_value AstBaseTypeKind.string = integer 6

unfoldable pub attr_count : Attributes → ℕ
attr_count no_more = 0
attr_count (attribute name t value rest) = attr_count rest + 1

unfoldable pub has_attr : List ℕ → Attributes → Bool
has_attr name no_more = false
has_attr name (attribute n t value rest) = if str_eq n name then true else has_attr name rest

unfoldable pub put_attr : List ℕ → AstAttributeType → Value → Attributes → Attributes
put_attr name t value no_more = attribute name t value no_more
put_attr name t value (attribute n t' value' rest) =
    if str_eq n name
    then attribute n t value rest
    else attribute n t' value' (put_attr name t value rest)

-- `ast_getattr`: null where there is no such attribute.
unfoldable pub get_attr : List ℕ → Attributes → Value
get_attr name no_more = null
get_attr name (attribute n t value rest) = if str_eq n name then value else get_attr name rest

-- `ast_setattr` through a pointer to a node.
unfoldable pub set_attr : String → AstAttributeType → Value → Node → Result Node
set_attr name t value none = failed out_of_bounds
set_attr name t value (some (node kind id line_nr attrs)) = do
  assert
      (if has_attr (codes name) attrs then true else ltb (attr_count attrs) ast_attrtable_capacity)
  ok (some (node kind id line_nr (put_attr (codes name) t value attrs)))
