-- ===== src/Symtable/Names.antt =====
-- What a declaration makes of the table, and what is declared afterwards.
use mathlib.Core.Path.{subst}
use dp4c.Prelude.{
  ℕ, ◌*◌, ◌≤◌, ◌≡◌, ◌≢◌, inl, inr, refl, ap, ◌∙◌, arith, List, [], ◌∷◌, Bool, true, Bool-cases,
  Option, none, some, Option-cases, if◌then◌else◌, leb, ok, ◌>>=◌,
}
use dp4c.Basic.Strings.{str_eq, str_eq_refl}
use dp4c.Hash.{hash_string}
use dp4c.Chain.Laws.{first-name}
use dp4c.Symtable.Entries.{Symbol, SymtableEntry, Symtable, entry_name, ident, type_}
use dp4c.Symtable.Table.{pages, get_symtable_entry}
use dp4c.Symtable.Declare.{
  update_entry, new_ident, new_type, new_symbol, name_is_declared, top_is_inner,
}
use dp4c.Symtable.Below.{EntryIsBelow, ArrayIsBelow, IsBelow, get_or-IsBelow, first-IsBelow}
use dp4c.Symtable.Scopes.{lookup}
use dp4c.Symtable.Laws.{entry_or_new}
use dp4c.Symtable.Full.{IsTable, Updates, get_symtable_entry-IsTable, update_entry_lem}

module _ {V : Type 0} where
  -- The entry of a name in a table, a new one where there is none.
  abbrev pub entry_of : Symtable V → List ℕ → SymtableEntry V
  entry_of t name = entry_or_new name (lookup t name)

  entry_of-name : (t : Symtable V) (name : List ℕ) → (entry_of t name).name ≡ name
  unfolding lookup
  entry_of-name t name = elim (Option-cases (lookup t name)) [
    | inl old ↦ rw old refl
    | inr (e, old) ↦ rw old (first-name entry_name name _ old)
  ]

  -- The entry of a name has no higher symbols than its table.
  pub entry_of-IsBelow :
      (t : Symtable V) (name : List ℕ) (n : ℕ)
      → ArrayIsBelow n t.array
      → EntryIsBelow n (entry_of t name)
  unfolding lookup
  entry_of-IsBelow t name n h = elim (Option-cases (lookup t name)) [
    | inl old ↦ rw old (unfold IsBelow in (tt, tt, tt))
    | inr (e, old) ↦
        let chain = get_or-IsBelow n (hash_string name t.capacity_log2) t.array h in
        rw old (first-IsBelow n name _ chain old)
  ]

  updated :
      (t new : Symtable V) (name : List ℕ) (e : SymtableEntry V)
      → Updates t name e new
      → lookup new name ≡ some e
  updated t new name e u = u.reads name ∙ rw (str_eq_refl name) refl

  twice :
      (t t1 t2 : Symtable V) (name : List ℕ) (e1 e2 : SymtableEntry V)
      → ((n : ℕ) → ArrayIsBelow n t.array → EntryIsBelow n e1)
      → Updates t name e1 t1
      → Updates t1 name e2 t2
      → Updates t name e2 t2
  twice t t1 t2 name e1 e2 old u v = record {
    table = v.table;
    level = v.level ∙ u.level;
    reads = λ other. elim (Bool-cases (str_eq name other)) [
      | inl q ↦ v.reads other ∙ rw q refl
      | inr q ↦ v.reads other ∙ rw q (u.reads other ∙ rw q refl)
    ];
    below = λ n h h2. v.below n (u.below n h (old n h)) h2;
  }

  -- A lookup and a write through the pointer, which keeps the name.
  change :
      (page_size : ℕ) (name : List ℕ) (t : Symtable V) (f : ℕ → SymtableEntry V → SymtableEntry V)
      → ((level : ℕ) (e : SymtableEntry V) → (f level e).name ≡ e.name)
      → IsTable t
      → name ≢ []
      → 8 * t.capacity ≤ pages page_size t.capacity
      → (t1 new : Symtable V) × (get_symtable_entry page_size name t ≡ ok (entry_of t name, t1))
        × (t1.scope_level ≡ t.scope_level)
        × (update_entry (f t.scope_level (entry_of t name)) t1 ≡ ok new)
        × Updates t name (f t.scope_level (entry_of t name)) new
  change page_size name t f keeps s n room =
      let (t1, run, u) = get_symtable_entry-IsTable page_size name t s n room in
      let e = f t.scope_level (entry_of t name) in
      let named : e.name ≡ name = keeps t.scope_level (entry_of t name) ∙ entry_of-name t name in
      let old : lookup t1 e.name ≡ some (entry_of t name) =
        ap (lookup t1) named ∙ updated t t1 name (entry_of t name) u in
      let (new, write, v) = update_entry_lem t1 e (entry_of t name) u.table old in
      let v' = subst (λ key. Updates t1 key e new) named v in
      (
        t1,
        new,
        run,
        u.level,
        write,
        twice t t1 new name (entry_of t name) e (entry_of-IsBelow t name) u v',
      )

  -- In a table with its invariant, whose pointers fit into the pages of the temporary array of a
  -- growth, `new_ident` of a name that is not empty returns a symbol of the current scope, and a table
  -- with the invariant that reads as before but for that symbol on top of the identifiers of the name.
  pub new_ident_lem :
      (page_size : ℕ) (name : List ℕ) (ast : Option V) (t : Symtable V)
      → IsTable t
      → name ≢ []
      → 8 * t.capacity ≤ pages page_size t.capacity
      → (new : Symtable V) × (new_ident page_size name ast t
          ≡ ok (new_symbol ident name t.scope_level ast none, new))
        × Updates t name
            (record (entry_of t name) {
              id_ident = new_symbol ident name t.scope_level ast none ∷ (entry_of t name).id_ident;
            })
            new
  unfolding new_ident
  new_ident_lem page_size name ast t s n room =
      let (t1, new, run, level, write, u) =
        change page_size name t
          (λ level e. record e { id_ident = new_symbol ident name level ast none ∷ e.id_ident })
          (λ level e. refl) s n room in
      (new, rw (run, ◌>>=◌, level, write), u)

  -- In a table with its invariant, whose pointers fit into the pages of the temporary array of a
  -- growth, `new_type` of a name that is not empty returns a symbol of the current scope, and a table
  -- with the invariant that reads as before but for that symbol on top of the types of the name.
  pub new_type_lem :
      (page_size : ℕ) (name : List ℕ) (ast : Option V) (t : Symtable V)
      → IsTable t
      → name ≢ []
      → 8 * t.capacity ≤ pages page_size t.capacity
      → (new : Symtable V) × (new_type page_size name ast t
          ≡ ok (new_symbol type_ name t.scope_level ast none, new))
        × Updates t name
            (record (entry_of t name) {
              id_type = new_symbol type_ name t.scope_level ast none ∷ (entry_of t name).id_type;
            })
            new
  unfolding new_type
  new_type_lem page_size name ast t s n room =
      let (t1, new, run, level, write, u) =
        change page_size name t
          (λ level e. record e { id_type = new_symbol type_ name level ast none ∷ e.id_type })
          (λ level e. refl) s n room in
      (new, rw (run, ◌>>=◌, level, write), u)

  -- Whether the top identifier of a name is of the current scope.
  abbrev pub is_declared_ident : Symtable V → List ℕ → Bool
  is_declared_ident t name = top_is_inner t.scope_level (entry_of t name).id_ident

  pub name_is_declared-ident :
      (page_size : ℕ) (name : List ℕ) (t : Symtable V)
      → IsTable t
      → name ≢ []
      → 8 * t.capacity ≤ pages page_size t.capacity
      → (new : Symtable V) × (name_is_declared page_size name ident t
          ≡ ok (is_declared_ident t name, new))
        × Updates t name (entry_of t name) new
  unfolding name_is_declared
  name_is_declared-ident page_size name t s n room =
      let (new, run, u) = get_symtable_entry-IsTable page_size name t s n room in
      (new, rw (run, ◌>>=◌, u.level), u)

  -- In a table with its invariant, `name_is_declared` returns behind a `new_ident` that did, if the
  -- pointers of both tables fit into the pages of the temporary array of a growth. It answers yes for an
  -- identifier that is the new one or was declared in the current scope before, and no for the others;
  -- neither name is empty.
  pub name_is_declared-new_ident :
      (page_size : ℕ) (name other : List ℕ) (ast : Option V) (t new : Symtable V) (s : Symbol V)
      → IsTable t
      → name ≢ []
      → other ≢ []
      → 8 * t.capacity ≤ pages page_size t.capacity
      → new_ident page_size name ast t ≡ ok (s, new)
      → 8 * new.capacity ≤ pages page_size new.capacity
      → (last : Symtable V) × (name_is_declared page_size other ident new
          ≡ ok (if str_eq name other then true else is_declared_ident t other, last))
  name_is_declared-new_ident page_size name other ast t new s sized n m room run more =
      let (result, run', u) = new_ident_lem page_size name ast t sized n room in
      let e : result ≡ new = cc in
      let v = subst (Updates t name _) e u in
      let (last, seen, _) = name_is_declared-ident page_size other new v.table m more in
      (
        last,
        seen
            ∙ rw (v.reads other, v.level)
                (elim (Bool-cases (str_eq name other)) [
                  | inl q ↦
                      let inner : leb t.scope_level t.scope_level ≡ true = ground arith in
                      rw (q, inner) refl
                  | inr q ↦ rw q refl
                ]),
      )
