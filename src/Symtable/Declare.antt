-- ===== src/Symtable/Declare.antt =====
-- symtable.c: the declarations of keywords, types and identifiers. The line number that `new_type` and
-- `new_ident` take is only printed, and left out.
use dp4c.Prelude.{
  ℕ, ◌-◌, ◌^◌, List, [], ◌∷◌, codes, set, replicate, Bool, false, leb, Option, none, some, Result,
  ok, failed, assertion, ◌>>=◌, ◌>>◌,
}
use dp4c.Token.{TokenClass}
use dp4c.Token
use dp4c.Hash.{hash_string}
use dp4c.Chain.{at, write_back}
use dp4c.Symtable.Entries.{
  SymbolKind, Symbol, SymtableEntry, Symtable, entry_name, keyword, type_, ident,
}
use dp4c.Symtable.Table.{get_symtable_entry}

-- The calls of `add_all_keywords`.
abbrev pub all_keywords : List (List ℕ × TokenClass)
all_keywords =
    (codes "action", Token.action_kw)
    ∷ (codes "actions", Token.actions_kw)
    ∷ (codes "entries", Token.entries_kw)
    ∷ (codes "enum", Token.enum_kw)
    ∷ (codes "in", Token.in_kw)
    ∷ (codes "package", Token.package_kw)
    ∷ (codes "select", Token.select_kw)
    ∷ (codes "switch", Token.switch_kw)
    ∷ (codes "tuple", Token.tuple_kw)
    ∷ (codes "control", Token.control_kw)
    ∷ (codes "error", Token.error_kw)
    ∷ (codes "header", Token.header_kw)
    ∷ (codes "inout", Token.in_out_kw)
    ∷ (codes "parser", Token.parser_kw)
    ∷ (codes "state", Token.state_kw)
    ∷ (codes "table", Token.table_kw)
    ∷ (codes "key", Token.key_kw)
    ∷ (codes "typedef", Token.typedef_kw)
    ∷ (codes "type", Token.type_kw)
    ∷ (codes "default", Token.default_kw)
    ∷ (codes "extern", Token.extern_kw)
    ∷ (codes "header_union", Token.header_union_kw)
    ∷ (codes "out", Token.out_kw)
    ∷ (codes "transition", Token.transition_kw)
    ∷ (codes "else", Token.else_kw)
    ∷ (codes "exit", Token.exit_kw)
    ∷ (codes "if", Token.if_kw)
    ∷ (codes "match_kind", Token.match_kind_kw)
    ∷ (codes "return", Token.return_kw)
    ∷ (codes "struct", Token.struct_kw)
    ∷ (codes "apply", Token.apply_kw)
    ∷ (codes "const", Token.const_kw)
    ∷ (codes "bool", Token.bool_kw)
    ∷ (codes "true", Token.true_kw)
    ∷ (codes "false", Token.false_kw)
    ∷ (codes "void", Token.void_kw)
    ∷ (codes "int", Token.int_kw)
    ∷ (codes "bit", Token.bit_kw)
    ∷ (codes "varbit", Token.varbit_kw)
    ∷ (codes "string", Token.string_kw)
    ∷ []

module _ {V : Type 0} where
  -- A write through the pointer that `get_symtable_entry` returned.
  unfoldable pub update_entry : SymtableEntry V → Symtable V → Result (Symtable V)
  update_entry e t = do
    let h = hash_string e.name t.capacity_log2
    chain ← at t.array h
    ok (record t { array = set t.array h (write_back entry_name e.name e chain) })

  abbrev pub top_is_inner : ℕ → List (Symbol V) → Bool
  top_is_inner level [] = false
  top_is_inner level (s ∷ _) = leb level s.scope_level

  unfoldable pub name_is_declared :
      ℕ → List ℕ → SymbolKind → Symtable V → Result (Bool × Symtable V)
  name_is_declared page_size name kind t = do
    (e, t') ← get_symtable_entry page_size name t
    elim kind [
      | keyword ↦ ok (top_is_inner t'.scope_level e.id_kw, t')
      | type_ ↦ ok (top_is_inner t'.scope_level e.id_type, t')
      | ident ↦ ok (top_is_inner t'.scope_level e.id_ident, t')
      | SymbolKind.none_ ↦ failed assertion
    ]

  abbrev pub new_symbol : SymbolKind → List ℕ → ℕ → Option V → Option TokenClass → Symbol V
  new_symbol kind name level ast klass = record {
    ident_kind = kind;
    name = name;
    scope_level = level;
    ast = ast;
    token_klass = klass;
  }

  unfoldable pub new_type : ℕ → List ℕ → Option V → Symtable V → Result (Symbol V × Symtable V)
  new_type page_size name ast t = do
    (e, t') ← get_symtable_entry page_size name t
    let s = new_symbol type_ name t'.scope_level ast none
    t'' ← update_entry (record e { id_type = s ∷ e.id_type }) t'
    ok (s, t'')

  unfoldable pub new_ident : ℕ → List ℕ → Option V → Symtable V → Result (Symbol V × Symtable V)
  new_ident page_size name ast t = do
    (e, t') ← get_symtable_entry page_size name t
    let s = new_symbol ident name t'.scope_level ast none
    t'' ← update_entry (record e { id_ident = s ∷ e.id_ident }) t'
    ok (s, t'')

  unfoldable pub add_keyword : ℕ → List ℕ × TokenClass → Symtable V → Result (Symtable V)
  add_keyword page_size (name, klass) t = do
    (e, t') ← get_symtable_entry page_size name t
    elim e.id_kw [ [] ↦ ok tt | _ ∷ _ ↦ failed assertion ]
    update_entry
        (record e { id_kw = new_symbol keyword name t'.scope_level none (some klass) ∷ [] }) t'

  add_keywords : ℕ → List (List ℕ × TokenClass) → Symtable V → Result (Symtable V)
  unfolding add_keyword
  add_keywords page_size [] t = ok t
  add_keywords page_size (k ∷ keywords) t = do
    t' ← add_keyword page_size k t
    add_keywords page_size keywords t'

  unfoldable pub add_all_keywords : ℕ → Symtable V → Result (Symtable V)
  unfolding add_keywords
  add_all_keywords page_size t = add_keywords page_size all_keywords t

  unfoldable pub symtable_init : ℕ → Symtable V → Result (Symtable V)
  symtable_init page_size t = do
    let capacity = 2 ^ t.capacity_log2 - 1
    add_all_keywords page_size
        (record t { array = replicate (capacity - t.entry_count) []; capacity = capacity })

  unfoldable pub symtable_flush : ℕ → Symtable V → Result (Symtable V)
  symtable_flush page_size t =
      symtable_init page_size (record t { entry_count = 0; scope_level = 0 })
