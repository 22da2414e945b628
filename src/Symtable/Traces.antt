-- ===== src/Symtable/Traces.antt =====
-- Sequences of operations on the symbol table, as build_symtable.c calls them: a name is declared when
-- it is not yet in the current scope.
use mathlib.Core.Path.{subst}
use mathlib.Core.List.{flatten}
use dp4c.Prelude.{
  ℕ, ◌+◌, ◌-◌, ◌*◌, ◌≤◌, ◌≡◌, ◌≢◌, inl, inr, refl, sym, ◌∙◌, arith, List, [], ◌∷◌, length, map,
  Bool, false, Bool-cases, Option, ltb, ok, length-append,
}
use dp4c.Symtable.Entries.{Symbol, SymtableEntry, Symtable, push_scope}
use dp4c.Symtable.Table.{pages, get_symtable_entry, pop_scope}
use dp4c.Symtable.Declare.{new_ident, new_type, top_is_inner}
use dp4c.Symtable.Below.{IsBelow, ArrayIsBelow}
use dp4c.Symtable.Scopes.{IsScoped, left_entry, end_slots-closes, length-map, pop_scope_lem}
use dp4c.Symtable.Homed.{map-AreHome}
use dp4c.Symtable.Full.{IsTable, Updates, get_symtable_entry-IsTable}
use dp4c.Symtable.Names.{entry_of, entry_of-IsBelow, is_declared_ident, new_ident_lem, new_type_lem}
use dp4c.Symtable.Nesting.{
  push_scope-IsScoped, push_scope-IsTable, new_ident-IsScoped, IsBelow-undeclared,
}

module _ {V : Type 0} where
  abbrev pub is_declared_type : Symtable V → List ℕ → Bool
  is_declared_type t name = top_is_inner t.scope_level (entry_of t name).id_type

  -- The two invariants.
  abbrev pub IsSound : Symtable V → Type 0
  IsSound t = IsTable t × IsScoped t

  length-flatten-map :
      (level : ℕ) (array : List (List (SymtableEntry V)))
      → length (flatten (map (map (left_entry level)) array)) ≡ length (flatten array)
  unfolding flatten
  length-flatten-map level [] = refl
  length-flatten-map level (chain ∷ array) = omega (
    arith,
    length-append (map (left_entry level) chain) (flatten (map (map (left_entry level)) array)),
    length-append chain (flatten array),
    length-map (left_entry level) chain,
    length-flatten-map level array,
  )

  pops-IsSound : (t new : Symtable V) → IsSound t → pop_scope t ≡ ok new → IsSound new
  unfolding pop_scope
  pops-IsSound t new (table, scoped) run = elim (Bool-cases (ltb 0 t.scope_level)) [
    | inr q ↦ cc (rw q at run)
    | inl q ↦
        let inside : 1 ≤ t.scope_level = ground arith in
        let (closes, _) = end_slots-closes t.scope_level t.array inside scoped.levels in
        let (new', run', scoped', _, _) = pop_scope_lem t scoped inside in
        let same' : new' ≡ new = cc in
        let array = map (map (left_entry t.scope_level)) t.array in
        let left = record t { array = array; scope_level = t.scope_level - 1 } in
        let ran : pop_scope t ≡ ok left = rw (q, sym scoped.slots, closes) in
        let same : left ≡ new = cc in
        let table' : IsTable left = record {
          sized = record {
            slots = length-map (map (left_entry t.scope_level)) t.array ∙ table.sized.slots;
            width = table.sized.width;
            log2 = table.sized.log2;
          };
          homed = record {
            home =
                map-AreHome (left_entry t.scope_level) (λ e. refl) t.capacity_log2 0 t.array
                  table.homed.home;
            count = length-flatten-map t.scope_level t.array ∙ table.homed.count;
          };
          bounded = table.bounded;
        } in
        (subst IsTable same table', subst IsScoped same' scoped')
  ]

module _ {V : Type 0} (page_size : ℕ) where
  -- A growth would have room for its pointers.
  abbrev pub HasPages : Symtable V → Type 0
  HasPages t = 8 * t.capacity ≤ pages page_size t.capacity

  -- An operation that returns.
  pub data Step (t : Symtable V) : Symtable V → Type 0 where
    pushes : Step t (push_scope t)
    pops : {new : Symtable V} → pop_scope t ≡ ok new → Step t new
    looks :
        {new : Symtable V} {e : SymtableEntry V} (name : List ℕ)
        → HasPages t
        → name ≢ []
        → get_symtable_entry page_size name t ≡ ok (e, new)
        → Step t new
    declares_ident :
        {new : Symtable V} {s : Symbol V} (name : List ℕ) (ast : Option V)
        → HasPages t
        → name ≢ []
        → is_declared_ident t name ≡ false
        → new_ident page_size name ast t ≡ ok (s, new)
        → Step t new
    declares_type :
        {new : Symtable V} {s : Symbol V} (name : List ℕ) (ast : Option V)
        → HasPages t
        → name ≢ []
        → is_declared_type t name ≡ false
        → new_type page_size name ast t ≡ ok (s, new)
        → Step t new

  -- Any number of operations.
  pub data Steps (t : Symtable V) : Symtable V → Type 0 where
    none_ : Steps t t
    more : {u new : Symtable V} → Steps t u → Step u new → Steps t new

  looks-IsSound :
      (t new : Symtable V) (name : List ℕ) {e : SymtableEntry V}
      → IsSound t
      → HasPages t
      → name ≢ []
      → get_symtable_entry page_size name t ≡ ok (e, new)
      → IsSound new
  looks-IsSound t new name (table, scoped) room n run =
      let (result, run', u) = get_symtable_entry-IsTable page_size name t table n room in
      let same : result ≡ new = cc in
      let v = subst (Updates t name (entry_of t name)) same u in
      (
        v.table,
        record {
          slots = v.table.sized.slots;
          levels =
              subst (λ level. ArrayIsBelow (level + 1) new.array) (sym v.level)
                (v.below (t.scope_level + 1) scoped.levels
                  (entry_of-IsBelow t name (t.scope_level + 1) scoped.levels));
        },
      )

  declares_ident-IsSound :
      (t new : Symtable V) (name : List ℕ) (ast : Option V) {s : Symbol V}
      → IsSound t
      → HasPages t
      → name ≢ []
      → is_declared_ident t name ≡ false
      → new_ident page_size name ast t ≡ ok (s, new)
      → IsSound new
  declares_ident-IsSound t new name ast {s} (table, scoped) room n fresh run =
      let (result, run', u) = new_ident_lem page_size name ast t table n room in
      let same : result ≡ new = cc in
      (
        subst IsTable same u.table,
        new_ident-IsScoped page_size name ast t new s table scoped n room fresh run,
      )

  declares_type-IsSound :
      (t new : Symtable V) (name : List ℕ) (ast : Option V) {s : Symbol V}
      → IsSound t
      → HasPages t
      → name ≢ []
      → is_declared_type t name ≡ false
      → new_type page_size name ast t ≡ ok (s, new)
      → IsSound new
  declares_type-IsSound t new name ast (table, scoped) room n fresh run =
      let (result, run', u) = new_type_lem page_size name ast t table n room in
      let same : result ≡ new = cc in
      let v = subst (Updates t name _) same u in
      let (kw, ty, id) = entry_of-IsBelow t name (t.scope_level + 1) scoped.levels in
      let ty' = IsBelow-undeclared t.scope_level (entry_of t name).id_type ty fresh in
      (
        v.table,
        record {
          slots = v.table.sized.slots;
          levels =
              subst (λ level. ArrayIsBelow (level + 1) new.array) (sym v.level)
                (v.below (t.scope_level + 1) scoped.levels
                  (kw, unfold IsBelow in (omega arith, ty'), id));
        },
      )

  Step-IsSound : {t new : Symtable V} → IsSound t → Step t new → IsSound new
  Step-IsSound {t} h pushes = (push_scope-IsTable t h.0, push_scope-IsScoped t h.1)
  Step-IsSound {t} {new} h (pops run) = pops-IsSound t new h run
  Step-IsSound {t} {new} h (looks name room n run) = looks-IsSound t new name h room n run
  Step-IsSound {t} {new} h (declares_ident name ast room n fresh run) =
      declares_ident-IsSound t new name ast h room n fresh run
  Step-IsSound {t} {new} h (declares_type name ast room n fresh run) =
      declares_type-IsSound t new name ast h room n fresh run

  -- Scopes may begin and end, names may be looked up, and names that the current scope does not have may
  -- be declared, in any order: if each call returns, with pages for the temporary array of a growth, then
  -- the last table has the two invariants that the first one had, that of the table as a map and that of
  -- the scopes.
  pub Steps-IsSound : {t new : Symtable V} → IsSound t → Steps t new → IsSound new
  Steps-IsSound h none_ = h
  Steps-IsSound h (more steps step) = Step-IsSound (Steps-IsSound h steps) step
