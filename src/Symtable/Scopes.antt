-- ===== src/Symtable/Scopes.antt =====
-- The end of a scope: what is left of the stacks of every name.
use dp4c.Prelude.{
  ℕ, zero, suc, ◌+◌, ◌-◌, ◌≤◌, ◌≡◌, inl, inr, refl, sym, ap, ◌∙◌, arith, List, [], ◌∷◌, length,
  get_or, map, true, false, Bool-cases, Option, none, some, if◌then◌else◌, ltb, leb, ok, ◌>>=◌,
}
use dp4c.Basic.Strings.{str_eq}
use dp4c.Hash.{hash_string}
use dp4c.Chain.Laws.{first}
use dp4c.Symtable.Entries.{
  Symbol, SymtableEntry, Symtable, entry_name, scope_delete_symbol, end_entry, end_chain,
}
use dp4c.Symtable.Table.{end_slots, pop_scope}
use dp4c.Symtable.Below.{IsBelow, EntryIsBelow, ChainIsBelow, ArrayIsBelow}

pub length-map : {A B : Type 0} (f : A → B) (xs : List A) → length (map f xs) ≡ length xs
length-map f [] = refl
length-map f (x ∷ xs) = ap suc (length-map f xs)

module _ {V : Type 0} where
  -- The invariant between the operations: a slot for every hash, and no symbol of a scope that has
  -- ended or is not there yet.
  pub record IsScoped (t : Symtable V) : Type 0 where
    pub slots : length t.array ≡ t.capacity
    pub levels : ArrayIsBelow (t.scope_level + 1) t.array

  -- What the end of the scope leaves of a stack: what is below the top, if the top is of that scope;
  -- nothing, if it is of an outer one.
  unfoldable pub left_of : ℕ → List (Symbol V) → List (Symbol V)
  left_of level [] = []
  left_of level (s ∷ outer) = if ltb s.scope_level level then [] else outer

  abbrev pub left_entry : ℕ → SymtableEntry V → SymtableEntry V
  left_entry level e = record e {
    id_kw = left_of level e.id_kw;
    id_type = left_of level e.id_type;
    id_ident = left_of level e.id_ident;
  }

  abbrev pub map_entry :
      (SymtableEntry V → SymtableEntry V) → Option (SymtableEntry V) → Option (SymtableEntry V)
  map_entry f none = none
  map_entry f (some e) = some (f e)

  scope_delete_symbol-left_of :
      (level : ℕ) (stack : List (Symbol V))
      → IsBelow (suc level + 1) stack
      → (scope_delete_symbol (suc level) stack ≡ ok (left_of (suc level) stack))
        × IsBelow (level + 1) (left_of (suc level) stack)
  unfolding scope_delete_symbol left_of IsBelow
  scope_delete_symbol-left_of level [] h = (refl, tt)
  scope_delete_symbol-left_of level (s ∷ []) h = elim (Bool-cases (ltb s.scope_level (suc level))) [
    | inl q ↦ rw q (refl, tt)
    | inr q ↦ rw q (refl, tt)
  ]
  scope_delete_symbol-left_of level (s ∷ next ∷ outer) (a, (b, c)) =
      elim (Bool-cases (ltb (suc level - 1) s.scope_level)) [
        | inl q ↦
            let r : ltb s.scope_level (suc level) ≡ false = ground arith in
            let within : leb next.scope_level (suc level) ≡ true = ground arith in
            rw (q, r, within) (refl, (ground arith, c))
        | inr q ↦
            let r : ltb s.scope_level (suc level) ≡ true = ground arith in rw (q, r) (refl, tt)
      ]

  end_entry-left_entry :
      (level : ℕ) (e : SymtableEntry V)
      → EntryIsBelow (suc level + 1) e
      → (end_entry (suc level) e ≡ ok (left_entry (suc level) e))
        × EntryIsBelow (level + 1) (left_entry (suc level) e)
  unfolding end_entry
  end_entry-left_entry level e (kw, ty, id) =
      let (kw', kw_left) = scope_delete_symbol-left_of level e.id_kw kw in
      let (ty', ty_left) = scope_delete_symbol-left_of level e.id_type ty in
      let (id', id_left) = scope_delete_symbol-left_of level e.id_ident id in
      (rw (kw', ◌>>=◌, ty', ◌>>=◌, id'), (kw_left, ty_left, id_left))

  end_chain-map :
      (level : ℕ) (chain : List (SymtableEntry V))
      → ChainIsBelow (suc level + 1) chain
      → (end_chain (suc level) chain ≡ ok (map (left_entry (suc level)) chain))
        × ChainIsBelow (level + 1) (map (left_entry (suc level)) chain)
  unfolding end_chain ChainIsBelow
  end_chain-map level [] h = (refl, tt)
  end_chain-map level (e ∷ chain) (h, hs) =
      let (e', left) = end_entry-left_entry level e h in
      let (chain', lefts) = end_chain-map level chain hs in (rw (e', ◌>>=◌, chain'), (left, lefts))

  end_slots-map :
      (level : ℕ) (array : List (List (SymtableEntry V)))
      → ArrayIsBelow (suc level + 1) array
      → (end_slots (suc level) (length array) array ≡ ok (map (map (left_entry (suc level))) array))
        × ArrayIsBelow (level + 1) (map (map (left_entry (suc level))) array)
  unfolding end_slots ArrayIsBelow
  end_slots-map level [] h = (refl, tt)
  end_slots-map level (chain ∷ array) (h, hs) =
      let (chain', left) = end_chain-map level chain h in
      let (array', lefts) = end_slots-map level array hs in
      (rw (chain', ◌>>=◌, array'), (left, lefts))

  pub end_slots-closes :
      (level : ℕ) (array : List (List (SymtableEntry V)))
      → 1 ≤ level
      → ArrayIsBelow (level + 1) array
      → (end_slots level (length array) array ≡ ok (map (map (left_entry level)) array))
        × ArrayIsBelow (level - 1 + 1) (map (map (left_entry level)) array)
  end_slots-closes zero array h below = absurd (omega arith)
  end_slots-closes (suc level) array h below =
      let e : suc level - 1 ≡ level = omega arith in rw e (end_slots-map level array below)

  first-left :
      (level : ℕ) (name : List ℕ) (chain : List (SymtableEntry V))
      → first entry_name name (map (left_entry level) chain)
        ≡ map_entry (left_entry level) (first entry_name name chain)
  unfolding first
  first-left level name [] = refl
  first-left level name (e ∷ chain) = elim (Bool-cases (str_eq e.name name)) [
    | inl q ↦ rw q
    | inr q ↦ rw q (first-left level name chain)
  ]

  get_or-map :
      (level i : ℕ) (array : List (List (SymtableEntry V)))
      → get_or (map (map (left_entry level)) array) i []
        ≡ map (left_entry level) (get_or array i [])
  get_or-map level i [] = refl
  get_or-map level zero (chain ∷ array) = refl
  get_or-map level (suc i) (chain ∷ array) = get_or-map level i array

  -- The entry of a name, `none` for a name that is not there.
  unfoldable pub lookup : Symtable V → List ℕ → Option (SymtableEntry V)
  lookup t name = first entry_name name (get_or t.array (hash_string name t.capacity_log2) [])

  -- In a scope of a table with its invariant, `pop_scope` returns a table of the same invariant, one level down, where each name
  -- has the entry that it had with its three stacks cut by `left_of`: a symbol of the scope is taken
  -- off, and a stack whose top is of an outer scope is emptied.
  pub pop_scope_lem :
      (t : Symtable V)
      → IsScoped t
      → 1 ≤ t.scope_level
      → (new : Symtable V) × (pop_scope t ≡ ok new)
        × IsScoped new
        × (new.scope_level ≡ t.scope_level - 1)
        × ((name : List ℕ) → lookup new name ≡ map_entry (left_entry t.scope_level) (lookup t name))
  unfolding pop_scope lookup
  pop_scope_lem t s h =
      let array = map (map (left_entry t.scope_level)) t.array in
      let (run, below) = end_slots-closes t.scope_level t.array h s.levels in
      let inside : ltb 0 t.scope_level ≡ true = ground arith in
      (
        record t { array = array; scope_level = t.scope_level - 1 },
        rw (inside, sym s.slots, run),
        record {
          slots = length-map (map (left_entry t.scope_level)) t.array ∙ s.slots;
          levels = below;
        },
        refl,
        λ name.
            ap (first entry_name name)
              (get_or-map t.scope_level (hash_string name t.capacity_log2) t.array)
            ∙ first-left t.scope_level name (get_or t.array (hash_string name t.capacity_log2) []),
      )
