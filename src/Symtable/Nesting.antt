-- ===== src/Symtable/Nesting.antt =====
-- A declaration inside a scope, and the end of that scope.
use mathlib.Core.Path.{subst}
use dp4c.Prelude.{
  ℕ, ◌*◌, ◌+◌, ◌≤◌, ◌≡◌, ◌≢◌, inl, inr, refl, sym, ap, ◌∙◌, arith, List, [], ◌∷◌, true, false,
  Bool-cases, Option, none, some, Option-cases, if◌then◌else◌, ltb, ok,
}
use dp4c.Basic.Strings.{str_eq, str_eq_iff}
use dp4c.Symtable.Entries.{Symbol, Symtable, ident, push_scope}
use dp4c.Symtable.Table.{pages, pop_scope}
use dp4c.Symtable.Declare.{new_ident, new_symbol, top_is_inner}
use dp4c.Symtable.Below.{IsBelow, ArrayIsBelow, ArrayIsBelow-mono}
use dp4c.Symtable.Scopes.{IsScoped, lookup, left_of, left_entry, map_entry, pop_scope_lem}
use dp4c.Symtable.Full.{IsTable, Updates}
use dp4c.Symtable.Names.{entry_of, entry_of-IsBelow, is_declared_ident, new_ident_lem}

module _ {V : Type 0} where
  pub push_scope-IsScoped : (t : Symtable V) → IsScoped t → IsScoped (push_scope t)
  unfolding push_scope
  push_scope-IsScoped t s = record {
    slots = s.slots;
    levels =
        ArrayIsBelow-mono (t.scope_level + 1) (t.scope_level + 1 + 1) t.array (omega arith)
          s.levels;
  }

  pub push_scope-IsTable : (t : Symtable V) → IsTable t → IsTable (push_scope t)
  unfolding push_scope
  push_scope-IsTable t h = record {
    sized = record { slots = h.sized.slots; width = h.sized.width; log2 = h.sized.log2 };
    homed = record { home = h.homed.home; count = h.homed.count };
    bounded = h.bounded;
  }

  pub IsBelow-undeclared :
      (level : ℕ) (stack : List (Symbol V))
      → IsBelow (level + 1) stack
      → top_is_inner level stack ≡ false
      → IsBelow level stack
  unfolding IsBelow
  IsBelow-undeclared level [] h q = tt
  IsBelow-undeclared level (s ∷ outer) (a, b) q = (ground arith, b)

  -- A name that is not an identifier of the current scope may be declared in it: in a table with
  -- its invariant, whose pointers fit into the pages of the temporary array of a growth, a `new_ident` of
  -- a name that is not empty keeps the invariant of the scopes if it returns.
  pub new_ident-IsScoped :
      (page_size : ℕ) (name : List ℕ) (ast : Option V) (t new : Symtable V) (s : Symbol V)
      → IsTable t
      → IsScoped t
      → name ≢ []
      → 8 * t.capacity ≤ pages page_size t.capacity
      → is_declared_ident t name ≡ false
      → new_ident page_size name ast t ≡ ok (s, new)
      → IsScoped new
  new_ident-IsScoped page_size name ast t new s sized scoped n room undeclared run =
      let (result, run', u) = new_ident_lem page_size name ast t sized n room in
      let e : result ≡ new = cc in
      let v = subst (Updates t name _) e u in
      let (kw, ty, id) = entry_of-IsBelow t name (t.scope_level + 1) scoped.levels in
      let id' = IsBelow-undeclared t.scope_level (entry_of t name).id_ident id undeclared in
      record {
        slots = v.table.sized.slots;
        levels =
            subst (λ level. ArrayIsBelow (level + 1) new.array) (sym v.level)
              (v.below (t.scope_level + 1) scoped.levels
                (kw, ty, unfold IsBelow in (omega arith, id')));
      }

  left_of-outer :
      (level : ℕ) (stack : List (Symbol V))
      → IsBelow (level + 1) stack
      → left_of (level + 1) stack ≡ []
  unfolding left_of IsBelow
  left_of-outer level [] h = refl
  left_of-outer level (s ∷ outer) (a, b) =
      let q : ltb s.scope_level (level + 1) ≡ true = ground arith in rw q

  left_of-top :
      (level : ℕ) (s : Symbol V) (stack : List (Symbol V))
      → s.scope_level ≡ level
      → left_of level (s ∷ stack) ≡ stack
  unfolding left_of
  left_of-top level s stack e = let q : ltb s.scope_level level ≡ false = ground arith in rw q

  top_is_inner-outer :
      (level : ℕ) (stack : List (Symbol V))
      → IsBelow (level + 1) stack
      → top_is_inner (level + 1) stack ≡ false
  unfolding IsBelow
  top_is_inner-outer level [] h = refl
  top_is_inner-outer level (s ∷ outer) (a, b) = ground arith

  entry_of-left :
      (t new : Symtable V) (name : List ℕ) (level : ℕ)
      → lookup new name ≡ map_entry (left_entry level) (lookup t name)
      → (entry_of new name).id_ident ≡ left_of level (entry_of t name).id_ident
  unfolding left_of
  entry_of-left t new name level h = elim (Option-cases (lookup t name)) [
    | inl q ↦ rw (h, q)
    | inr (e, q) ↦ rw (h, q)
  ]

  idents :
      (t : Symtable V)
      → IsScoped t
      → (name : List ℕ) → IsBelow (t.scope_level + 1) (entry_of t name).id_ident
  idents t s name = let (kw, ty, id) = entry_of-IsBelow t name (t.scope_level + 1) s.levels in id

  idents_left :
      (t inner : Symtable V) (name other : List ℕ) (ast : Option V)
      → inner.scope_level ≡ t.scope_level + 1
      → lookup inner other ≡ (
          if str_eq name other
          then some (record (entry_of t name) {
            id_ident =
                new_symbol ident name (t.scope_level + 1) ast none ∷ (entry_of t name).id_ident;
          })
          else lookup t other)
      → IsBelow (t.scope_level + 1) (entry_of t other).id_ident
      → left_of inner.scope_level (entry_of inner other).id_ident
        ≡ (if str_eq name other then (entry_of t other).id_ident else [])
  idents_left t inner name other ast level reads below = elim (Bool-cases (str_eq name other)) [
    | inl q ↦
        let same : name ≡ other = (str_eq_iff name other).0 q in
        let s = new_symbol ident name (t.scope_level + 1) ast none in
        rw (reads, q)
          (left_of-top inner.scope_level s (entry_of t name).id_ident (sym level)
            ∙ ap (λ key. (entry_of t key).id_ident) same)
    | inr q ↦ rw (reads, q, level) (left_of-outer t.scope_level (entry_of t other).id_ident below)
  ]

  -- In a table with its invariant and that of the scopes, whose pointers fit into the pages of the
  -- temporary array of a growth, a name that is not empty is declared in a new scope, and the scope ends. If the first call returns then so
  -- does `pop_scope`, at the old level, with the identifiers of that name as they were before, and
  -- without those of every other name.
  pub pop_scope-new_ident :
      (page_size : ℕ) (name : List ℕ) (ast : Option V) (t inner : Symtable V) (s : Symbol V)
      → IsTable t
      → IsScoped t
      → name ≢ []
      → 8 * t.capacity ≤ pages page_size t.capacity
      → new_ident page_size name ast (push_scope t) ≡ ok (s, inner)
      → (outer : Symtable V) × (pop_scope inner ≡ ok outer)
        × (outer.scope_level ≡ t.scope_level)
        × ((other : List ℕ)
            → (entry_of outer other).id_ident
              ≡ (if str_eq name other then (entry_of t other).id_ident else []))
  unfolding push_scope lookup
  pop_scope-new_ident page_size name ast t inner s sized scoped n room run =
      let pushed = push_scope t in
      let sized' = push_scope-IsTable t sized in
      let outside = λ (other : List ℕ).
        top_is_inner-outer t.scope_level (entry_of t other).id_ident (idents t scoped other) in
      let nested =
        new_ident-IsScoped page_size name ast pushed inner s sized' (push_scope-IsScoped t scoped) n
          room (outside name) run in
      let (result, run', u) = new_ident_lem page_size name ast pushed sized' n room in
      let e : result ≡ inner = cc in
      let v = subst (Updates pushed name _) e u in
      let (outer, pops, _, level, reads) = pop_scope_lem inner nested (omega (arith, v.level)) in
      (
        outer,
        pops,
        omega (arith, level, v.level),
        λ other.
            entry_of-left inner outer other inner.scope_level (reads other)
            ∙ idents_left t inner name other ast v.level (v.reads other) (idents t scoped other),
      )
