-- ===== src/Symtable/Levels.antt =====
-- symtable.c: the operations end, and only `push_scope` and `pop_scope` change the level of the scope.
use dp4c.Prelude.{
  ℕ, zero, suc, ◌-◌, ◌≡◌, refl, List, [], ◌∷◌, leb, true, false, Option, none, some, ok, Result,
  Ensures, Ensures-bind, Ensures-elim, Ensures-mono, ◌∙◌, returns, stops, ◌>>=◌,
}
use dp4c.Symtable.Entries.{
  Symbol, SymtableEntry, Symtable, SymbolKind, entry_name, keyword, type_, ident,
  scope_delete_symbol, end_entry, end_chain,
}
use dp4c.Symtable.Table.{end_slots, pop_scope, grow, insert_entry, get_symtable_entry}
use dp4c.Symtable.Declare.{name_is_declared, new_type, new_ident, update_entry}
use dp4c.Symtable.Ends.{Ends, ends_rules, at-Ends, search_chain-Ends}

module _ {V : Type 0} where
  -- The run ends, at the level `level` if it returns.
  abbrev pub Leaves : {A : Type 0} → ℕ → Result (A × Symtable V) → Type 0
  Leaves level r = Ensures (λ (a, t). t.scope_level ≡ level) r

  abbrev pub LeavesTable : ℕ → Result (Symtable V) → Type 0
  LeavesTable level r = Ensures (λ t. t.scope_level ≡ level) r

  LeavesTable-after {ℓ} :
      {A : Type ℓ} {level : ℕ} (m : Result A) (f : A → Result (Symtable V))
      → Ends m
      → ((a : A) → LeavesTable level (f a))
      → LeavesTable level (m >>= f)
  LeavesTable-after m f ends next = Ensures-bind ends λ a _. next a

  LeavesTable-ok : {level : ℕ} (t : Symtable V) → t.scope_level ≡ level → LeavesTable level (ok t)
  LeavesTable-ok t same = returns same

  grow-level : (page_size : ℕ) (t : Symtable V) → LeavesTable t.scope_level (grow page_size t)
  unfolding grow
  grow-level page_size t = search (ends_rules, LeavesTable-after, LeavesTable-ok) depth 20 fits 3000

  insert_entry-level : (name : List ℕ) (t : Symtable V) → Leaves t.scope_level (insert_entry name t)
  unfolding insert_entry
  insert_entry-level name t = Ensures-bind (at-Ends t.array _) λ chain _. returns refl

  insert_missing-level :
      (page_size : ℕ) (name : List ℕ) (t : Symtable V) (entry : Option (SymtableEntry V))
      → Leaves t.scope_level (elim entry [
        | some e ↦ ok (e, t)
        | none ↦
            (elim (leb t.capacity t.entry_count) [ true ↦ grow page_size t | false ↦ ok t ])
            >>= λ t'. insert_entry name t'
      ])
  insert_missing-level page_size name t (some e) = returns refl
  insert_missing-level page_size name t none =
      Ensures-bind (Ensures-elim _ (λ _. grow-level page_size t) (λ _. returns refl))
        λ t' same. Ensures-mono (insert_entry-level name t') λ a e. e ∙ same

  get_symtable_entry-level :
      (page_size : ℕ) (name : List ℕ) (t : Symtable V)
      → Leaves t.scope_level (get_symtable_entry page_size name t)
  unfolding get_symtable_entry
  get_symtable_entry-level page_size name t = Ensures-bind (at-Ends t.array _) λ chain _.
      Ensures-bind (search_chain-Ends entry_name name chain)
        λ entry _. insert_missing-level page_size name t entry

  pub name_is_declared-level :
      (page_size : ℕ) (name : List ℕ) (kind : SymbolKind) (t : Symtable V)
      → Leaves t.scope_level (name_is_declared page_size name kind t)
  unfolding name_is_declared
  name_is_declared-level page_size name keyword t =
      Ensures-bind (get_symtable_entry-level page_size name t) λ (e, t') same. returns same
  name_is_declared-level page_size name type_ t =
      Ensures-bind (get_symtable_entry-level page_size name t) λ (e, t') same. returns same
  name_is_declared-level page_size name ident t =
      Ensures-bind (get_symtable_entry-level page_size name t) λ (e, t') same. returns same
  name_is_declared-level page_size name SymbolKind.none_ t =
      Ensures-bind (get_symtable_entry-level page_size name t) λ (e, t') same. stops

  update_entry-level :
      (e : SymtableEntry V) (t : Symtable V) → LeavesTable t.scope_level (update_entry e t)
  unfolding update_entry
  update_entry-level e t = Ensures-bind (at-Ends t.array _) λ chain _. returns refl

  declared :
      (r : SymtableEntry V) (s : Symbol V) (t : Symtable V) {level : ℕ}
      → t.scope_level ≡ level
      → Leaves level (update_entry r t >>= λ t'. ok (s, t'))
  declared r s t same = Ensures-bind (update_entry-level r t) λ t' e. returns (e ∙ same)

  pub new_type-level :
      (page_size : ℕ) (name : List ℕ) (ast : Option V) (t : Symtable V)
      → Leaves t.scope_level (new_type page_size name ast t)
  unfolding new_type
  new_type-level page_size name ast t =
      Ensures-bind (get_symtable_entry-level page_size name t) λ (e, t') same. declared _ _ t' same

  pub new_ident-level :
      (page_size : ℕ) (name : List ℕ) (ast : Option V) (t : Symtable V)
      → Leaves t.scope_level (new_ident page_size name ast t)
  unfolding new_ident
  new_ident-level page_size name ast t =
      Ensures-bind (get_symtable_entry-level page_size name t) λ (e, t') same. declared _ _ t' same

  scope_delete_symbol-Ends :
      (level : ℕ) (stack : List (Symbol V)) → Ends (scope_delete_symbol level stack)
  unfolding scope_delete_symbol
  scope_delete_symbol-Ends level [] = returns tt
  scope_delete_symbol-Ends level (s ∷ []) = returns tt
  scope_delete_symbol-Ends level (s ∷ next ∷ outer) = search ends_rules

  end_entry-Ends : (level : ℕ) (e : SymtableEntry V) → Ends (end_entry level e)
  unfolding end_entry
  end_entry-Ends level e = search (ends_rules, scope_delete_symbol-Ends)

  end_chain-Ends : (level : ℕ) (chain : List (SymtableEntry V)) → Ends (end_chain level chain)
  unfolding end_chain
  end_chain-Ends level [] = returns tt
  end_chain-Ends level (e ∷ chain) =
      let rest = end_chain-Ends level chain in search (ends_rules, end_entry-Ends)

  end_slots-Ends :
      (level n : ℕ) (array : List (List (SymtableEntry V))) → Ends (end_slots level n array)
  unfolding end_slots
  end_slots-Ends level zero array = returns tt
  end_slots-Ends level (suc n) [] = stops
  end_slots-Ends level (suc n) (chain ∷ array) =
      let rest = end_slots-Ends level n array in search (ends_rules, end_chain-Ends)

  pub pop_scope-level : (t : Symtable V) → LeavesTable (t.scope_level - 1) (pop_scope t)
  unfolding pop_scope
  pop_scope-level t = search (ends_rules, LeavesTable-after, LeavesTable-ok, end_slots-Ends)
