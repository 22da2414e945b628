-- ===== src/Symtable/Entries.antt =====
-- symtable.h, symtable.c: symbols, entries and the table, and what a scope's end does to an entry.
-- A stack of symbols (`next_in_scope`) is a list, and so is a chain of entries (`next_entry`). `V` is
-- the type of what a symbol's `ast` points to; a null pointer is `none`.
use dp4c.Prelude.{
  ℕ, ◌+◌, ◌-◌, List, [], ◌∷◌, ltb, leb, Option, if◌then◌else◌, Result, ok, assert, ◌>>=◌, ◌>>◌,
}
use dp4c.Token.{TokenClass}

pub data SymbolKind : Type 0 where
  none_ keyword type_ ident : SymbolKind

module _ (V : Type 0) where
  -- `struct Symbol`, with the class that `struct Symbol_Keyword` adds.
  pub record Symbol : Type 0 where
    pub ident_kind : SymbolKind
    pub name : List ℕ
    pub scope_level : ℕ
    pub ast : Option V
    pub token_klass : Option TokenClass

  pub record SymtableEntry : Type 0 where
    pub name : List ℕ
    pub id_kw : List Symbol
    pub id_type : List Symbol
    pub id_ident : List Symbol

  -- The globals of symtable.c; `array` holds the chains.
  pub record Symtable : Type 0 where
    pub array : List (List SymtableEntry)
    pub capacity_log2 : ℕ
    pub capacity : ℕ
    pub entry_count : ℕ
    pub scope_level : ℕ

module _ {V : Type 0} where
  abbrev pub entry_name : SymtableEntry V → List ℕ
  entry_name e = e.name

  unfoldable pub push_scope : Symtable V → Symtable V
  push_scope t = record t { scope_level = t.scope_level + 1 }

  -- The stack that is left is the one below the top, where the top is of the scope that ends, and
  -- empty where it is not: `next_in_scope` starts as a null pointer. The level is above 0 here.
  unfoldable pub scope_delete_symbol : ℕ → List (Symbol V) → Result (List (Symbol V))
  scope_delete_symbol level [] = ok []
  scope_delete_symbol level (s ∷ []) = ok []
  scope_delete_symbol level (s ∷ next ∷ outer) =
      if ltb (level - 1) s.scope_level
      then (do assert (leb next.scope_level level); ok (next ∷ outer))
      else ok []

  unfoldable pub end_entry : ℕ → SymtableEntry V → Result (SymtableEntry V)
  end_entry level e = do
    kw ← scope_delete_symbol level e.id_kw
    ty ← scope_delete_symbol level e.id_type
    id ← scope_delete_symbol level e.id_ident
    ok (record e { id_kw = kw; id_type = ty; id_ident = id })

  unfoldable pub end_chain : ℕ → List (SymtableEntry V) → Result (List (SymtableEntry V))
  end_chain level [] = ok []
  end_chain level (e ∷ chain) = do
    e' ← end_entry level e
    chain' ← end_chain level chain
    ok (e' ∷ chain')
