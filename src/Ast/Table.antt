-- ===== src/Ast/Table.antt =====
-- ast.c: the attribute table of a node, and its iterator. A chain of attributes is a list. `V` is the
-- type of what a value points to; a null value is `none`.
use dp4c.Prelude.{
  ℕ, ◌+◌, List, [], ◌∷◌, ltb, Option, none, some, set, drop, take, Result, ok, assert, ◌>>=◌, ◌>>◌,
}
use dp4c.Hash.{hash_string}
use dp4c.Chain.{at, search_chain, write_back}
use dp4c.Ast.Kinds.{AstKind, AstAttributeType}

abbrev pub ast_attrtable_capacity_log2 : ℕ
ast_attrtable_capacity_log2 = 4

abbrev pub ast_attrtable_capacity : ℕ
ast_attrtable_capacity = 15

module _ (V : Type 0) where
  pub record AstAttribute : Type 0 where
    pub attr_type : AstAttributeType
    pub name : List ℕ
    pub value : Option V

  pub record Ast : Type 0 where
    pub kind : AstKind
    pub id : ℕ
    pub line_nr : ℕ
    pub attr_count : ℕ
    pub attrs : List (List AstAttribute)

  -- `attr_at` is the chain from the attribute that the iterator stands at.
  pub record AstAttributeIterator : Type 0 where
    pub ast : Ast
    pub table_i : ℕ
    pub attr_at : List AstAttribute

module _ {V : Type 0} where
  abbrev pub attr_name : AstAttribute V → List ℕ
  attr_name e = e.name

  abbrev pub value_of : Option (AstAttribute V) → Option V
  value_of none = none
  value_of (some e) = e.value

  -- A null pointer for a name that is not there.
  unfoldable pub ast_getattr : Ast V → List ℕ → Result (Option V)
  ast_getattr ast name = do
    chain ← at ast.attrs (hash_string name ast_attrtable_capacity_log2)
    entry ← search_chain attr_name name chain
    ok (value_of entry)

  unfoldable pub ast_setattr : Ast V → List ℕ → Option V → AstAttributeType → Result (Ast V)
  ast_setattr ast name value attr_type = do
    let h = hash_string name ast_attrtable_capacity_log2
    let entry : AstAttribute V = record { attr_type = attr_type; name = name; value = value }
    chain ← at ast.attrs h
    old ← search_chain attr_name name chain
    elim old [
      | some e ↦ ok (record ast {
        attrs =
            set ast.attrs h
              (write_back attr_name name (record e { attr_type = attr_type; value = value }) chain);
      })
      | none ↦ do
        assert (ltb ast.attr_count ast_attrtable_capacity)
        ok (record ast { attr_count = ast.attr_count + 1; attrs = set ast.attrs h (entry ∷ chain) })
    ]

  -- The slots that the iterator's loops read: `table_i < AST_ATTRTABLE_CAPACITY`.
  abbrev pub slots_of : Ast V → List (List (AstAttribute V))
  slots_of ast = take ast_attrtable_capacity ast.attrs

  -- The loop over the slots from `i`: it stops at the first chain that is not empty.
  unfoldable pub next_slot : List (List (AstAttribute V)) → ℕ → ℕ × List (AstAttribute V)
  next_slot [] i = (i, [])
  next_slot ([] ∷ slots) i = next_slot slots (i + 1)
  next_slot ((e ∷ chain) ∷ slots) i = (i, e ∷ chain)

  unfoldable pub ast_attriter_init : Ast V → AstAttributeIterator V
  ast_attriter_init ast =
      let (i, chain) = next_slot (slots_of ast) 0 in
      record { ast = ast; table_i = i; attr_at = chain }

  unfoldable pub advance_attr :
      AstAttributeIterator V → List (AstAttribute V) → AstAttributeIterator V
  advance_attr iter [] = iter
  advance_attr iter (_ ∷ e ∷ chain) = record iter { attr_at = e ∷ chain }
  advance_attr iter (_ ∷ []) =
      let (i, chain) = next_slot (drop (iter.table_i + 1) (slots_of iter.ast)) (iter.table_i + 1) in
      record iter { table_i = i; attr_at = chain }

  unfoldable pub ast_attriter_get_next : AstAttributeIterator V → AstAttributeIterator V
  unfolding advance_attr
  ast_attriter_get_next iter = advance_attr iter iter.attr_at
