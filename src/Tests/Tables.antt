-- ===== src/Tests/Tables.antt =====
-- The theorems on the attribute table at a table with two attributes.
use dp4c.Prelude.{
  ℕ, [], ◌∷◌, ◌++◌, codes, ◌≡◌, ◌⊎◌, ◌≤◌, refl, arith, replicate, none, some, if◌then◌else◌, ok,
  failed, assertion, ◌>>=◌,
}
use mathlib.Core.List.{flatten}
use dp4c.Basic.{cstr_match}
use dp4c.Basic.Strings.{str_eq}
use dp4c.Hash.{hash_string}
use dp4c.Chain.{at, search_chain, write_back}
use dp4c.Ast.Kinds.{AstKind, AstAttributeType}
use dp4c.Ast.Table.{Ast, AstAttribute, ast_getattr, ast_setattr, ast_attriter_init}
use dp4c.Ast.Laws.{view, Sets, ast_setattr_lem, ast_getattr-setattr}
use dp4c.Ast.Walk.{visit, visit-init}

abbrev name_attr : AstAttribute ℕ
name_attr = record { attr_type = AstAttributeType.string; name = codes "name"; value = some 7 }

-- A node as `new_ast_node` makes it, and one with an attribute in its home slot.
abbrev empty_node : Ast ℕ
empty_node = record {
  kind = AstKind.none_;
  id = 1;
  line_nr = 1;
  attr_count = 0;
  attrs = replicate 15 [];
}

-- The second set of a name takes the place of the first.
set_twice :
    (do
      a ← ast_setattr empty_node (codes "name") (some 7) AstAttributeType.string
      b ← ast_setattr a (codes "type") (some 8) AstAttributeType.string
      c ← ast_setattr b (codes "name") (some 9) AstAttributeType.string
      ast_getattr c (codes "name"))
    ≡ ok (some 9)
unfolding ast_setattr ast_getattr hash_string at search_chain write_back cstr_match str_eq
set_twice = refl

abbrev one_node : Ast ℕ
one_node = record empty_node {
  attr_count = 1;
  attrs = replicate 6 [] ++ (name_attr ∷ []) ∷ replicate 8 [];
}

ast_setattr_example :
    ((new : Ast ℕ) × (ast_setattr one_node (codes "type") (some 8) AstAttributeType.ast ≡ ok new)
      × Sets one_node (codes "type") (some 8) AstAttributeType.ast new)
    ⊎ ((view one_node (codes "type") ≡ none)
        × (15 ≤ 1)
        × (ast_setattr one_node (codes "type") (some 8) AstAttributeType.ast ≡ failed assertion))
ast_setattr_example =
    ast_setattr_lem one_node (codes "type") (some 8) AstAttributeType.ast refl (λ e. cc)

ast_getattr-setattr_example : ast_getattr one_node (codes "name") ≡ (
    if str_eq (codes "name") (codes "name")
    then ok (some 7)
    else ast_getattr empty_node (codes "name"))
unfolding ast_setattr hash_string at search_chain cstr_match
ast_getattr-setattr_example =
    ast_getattr-setattr empty_node one_node (codes "name") (codes "name") (some 7)
      AstAttributeType.string refl (λ e. cc) (λ e. cc) refl

visit-init_example : visit 1 (ast_attriter_init one_node) ≡ flatten one_node.attrs
unfolding flatten
visit-init_example = visit-init 1 one_node (omega arith)
