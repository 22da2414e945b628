-- ===== src/Tests/Nodes.antt =====
-- The theorems on the attributes of nodes at a node that has just been made.
use dp4c.Prelude.{[], codes, ◌≡◌, ◌⊎◌, replicate, Option, some, ok, failed, assertion}
use dp4c.Ast.Kinds.{AstKind, AstAttributeType}
use dp4c.Ast.Table.{Ast, ast_getattr, ast_setattr}
use dp4c.Syntax.Tree.{Value, node, no_more, integer, put_attr, get_attr, set_attr}
use dp4c.Syntax.Attributes.{Stores, pointee, fresh-Stores, get_attr-refines, set_attr-refines}

abbrev new_node : Ast Value
new_node = record {
  kind = AstKind.name;
  id = 3;
  line_nr = 1;
  attr_count = 0;
  attrs = replicate 15 [];
}

new_node-Stores : Stores new_node no_more
new_node-Stores = fresh-Stores AstKind.name 3 1

get_attr-refines_example :
    (p : Option Value) × (ast_getattr new_node (codes "name") ≡ ok p)
    × (pointee p ≡ get_attr (codes "name") no_more)
get_attr-refines_example =
    get_attr-refines new_node no_more new_node-Stores (codes "name") (λ e. cc)

set_attr-refines_example :
    ((new : Ast Value) × (ast_setattr new_node
          (codes "width")
          (some (integer 8))
          AstAttributeType.integer
        ≡ ok new)
      × (set_attr "width" AstAttributeType.integer
            (integer 8)
            (some (node AstKind.name 3 1 no_more))
          ≡ ok (
              some (
                node AstKind.name 3 1
                  (put_attr (codes "width") AstAttributeType.integer (integer 8) no_more))))
      × Stores new (put_attr (codes "width") AstAttributeType.integer (integer 8) no_more))
    ⊎ ((ast_setattr new_node (codes "width") (some (integer 8)) AstAttributeType.integer
          ≡ failed assertion)
        × (set_attr "width" AstAttributeType.integer
              (integer 8)
              (some (node AstKind.name 3 1 no_more))
            ≡ failed assertion))
set_attr-refines_example =
    set_attr-refines new_node no_more new_node-Stores "width" AstAttributeType.integer
      (some (integer 8)) AstKind.name 3 1 (λ e. cc)
