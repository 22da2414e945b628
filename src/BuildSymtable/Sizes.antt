-- ===== src/BuildSymtable/Sizes.antt =====
-- The size of a tree: what it holds is smaller.
use Prim.Native.String.{String}
use dp4c.Prelude.{ℕ, suc, ◌+◌, ◌≤◌, arith, List, codes, inl, inr, Bool-cases}
use dp4c.Basic.Strings.{str_eq}
use dp4c.Syntax.Tree.{
  Tree, Attributes, Value, Links, node, no_more, attribute, null, ast, ast_list, integer, string,
  operator, no_links, link, get_attr,
}
use dp4c.BuildSymtable.Names.{value_at}

unfoldable mutual
  pub tree_size : Tree → ℕ
  tree_size (node kind id line_nr attrs) = suc (attrs_size attrs)

  pub attrs_size : Attributes → ℕ
  attrs_size no_more = 0
  attrs_size (attribute name t v rest) = value_size v + attrs_size rest

  pub value_size : Value → ℕ
  value_size null = 0
  value_size (ast t) = tree_size t
  value_size (ast_list ls) = links_size ls
  value_size (integer n) = 0
  value_size (string s) = 0
  value_size (operator op) = 0

  pub links_size : Links → ℕ
  links_size no_links = 0
  links_size (link v ls) = value_size v + links_size ls

get_attr-size :
    (name : List ℕ) (attrs : Attributes) → value_size (get_attr name attrs) ≤ attrs_size attrs
unfolding get_attr value_size attrs_size
get_attr-size name no_more = omega arith
get_attr-size name (attribute n t v rest) = elim (Bool-cases (str_eq n name)) [
  | inl e ↦ rw e (omega arith)
  | inr e ↦ rw e (omega (arith, get_attr-size name rest))
]

pub value_at-size : (name : String) (t : Tree) → suc (value_size (value_at name t)) ≤ tree_size t
unfolding tree_size
value_at-size name (node kind id line_nr attrs) = omega (arith, get_attr-size (codes name) attrs)
