-- ===== src/Tests/Scopes.antt =====
-- The symbol table: its start, and the theorems on scopes at a small table.
use dp4c.Prelude.{
  ◌*◌, ◌≤◌, ℕ, List, [], ◌∷◌, codes, ◌≡◌, refl, arith, true, if◌then◌else◌, none, some, ok, ◌>>=◌,
}
use dp4c.Basic.{cstr_match}
use dp4c.Hash.{hash_string}
use dp4c.Chain.{at, search_chain, write_back}
use dp4c.Basic.Strings.{str_eq}
use dp4c.Chain.Laws.{first}
use dp4c.Symtable.Entries.{Symbol, Symtable, ident, type_, push_scope}
use dp4c.Symtable.Table.{get_symtable_entry, grow, pages, collect, rehash, insert_entry, pop_scope}
use dp4c.Symtable.Declare.{
  add_all_keywords, add_keyword, update_entry, symtable_init, new_ident, new_type, name_is_declared,
}
use dp4c.Symtable.Below.{IsBelow, ChainIsBelow, ArrayIsBelow}
use dp4c.Symtable.Scopes.{IsScoped, lookup, map_entry, left_entry, pop_scope_lem}
use dp4c.Symtable.Laws.{IsSized}
use dp4c.Symtable.Latest.{IsHome, AreHome}
use dp4c.Symtable.Full.{IsTable, Updates}
use mathlib.Core.List.{flatten}
use dp4c.Symtable.Names.{
  entry_of, is_declared_ident, new_ident_lem, new_type_lem, name_is_declared-new_ident,
}
use dp4c.Symtable.Traces.{IsSound, Steps-IsSound, none_, more, pushes, declares_ident}
use dp4c.Symtable.Nesting.{pop_scope-new_ident}

abbrev start : Symtable ℕ
start = record { array = []; capacity_log2 = 5; capacity = 0; entry_count = 0; scope_level = 0 }

abbrev size_of : Symtable ℕ → ℕ × ℕ
size_of t = (t.capacity, t.entry_count)

-- The 40 keywords do not fit into the 31 slots that the table starts with: it grows once.
init_size : (do t ← symtable_init 4096 start; ok (size_of t)) ≡ ok (63, 40)
unfolding get_symtable_entry grow pages collect rehash insert_entry add_all_keywords add_keyword
    update_entry symtable_init hash_string at search_chain write_back cstr_match str_eq
init_size = refl

-- A table with one identifier of the outermost scope.
abbrev x_symbol : Symbol ℕ
x_symbol = record {
  ident_kind = ident;
  name = codes "x";
  scope_level = 0;
  ast = some 7;
  token_klass = none;
}

abbrev pub small : Symtable ℕ
small = record {
  array =
      (record { name = codes "x"; id_kw = []; id_type = []; id_ident = x_symbol ∷ [] } ∷ [])
      ∷ []
      ∷ []
      ∷ [];
  capacity_log2 = 2;
  capacity = 3;
  entry_count = 1;
  scope_level = 0;
}

abbrev y_symbol : ℕ → Symbol ℕ
y_symbol level = record {
  ident_kind = ident;
  name = codes "y";
  scope_level = level;
  ast = some 8;
  token_klass = none;
}

-- `small` with a second identifier, at a level.
abbrev pub larger : ℕ → Symtable ℕ
larger level = record small {
  array =
      (record { name = codes "y"; id_kw = []; id_type = []; id_ident = y_symbol level ∷ [] }
        ∷ record { name = codes "x"; id_kw = []; id_type = []; id_ident = x_symbol ∷ [] }
        ∷ [])
      ∷ []
      ∷ []
      ∷ [];
  entry_count = 2;
  scope_level = level;
}

small-IsSized : IsSized small
small-IsSized = record { slots = refl; width = refl; log2 = omega arith }

pub small-IsTable : IsTable small
unfolding IsHome AreHome hash_string first flatten
small-IsTable = record {
  sized = small-IsSized;
  homed = record { home = ((refl, refl, tt), (tt, (tt, tt))); count = refl };
  bounded = omega arith;
}

-- Three slots and 24 bytes for their pointers.
pub small_pages : 8 * 3 ≤ pages 4096 3
unfolding pages
small_pages = omega arith

small-IsScoped : IsScoped small
unfolding IsBelow ChainIsBelow ArrayIsBelow
small-IsScoped = record {
  slots = refl;
  levels = (((tt, tt, (omega arith, tt)), tt), (tt, (tt, tt)));
}

larger-IsScoped : IsScoped (larger 1)
unfolding IsBelow ChainIsBelow ArrayIsBelow
larger-IsScoped = record {
  slots = refl;
  levels = (((tt, tt, (omega arith, tt)), ((tt, tt, (omega arith, tt)), tt)), (tt, (tt, tt)));
}

new_ident_example :
    (new : Symtable ℕ) × (new_ident 4096 (codes "y") (some 8) small ≡ ok (y_symbol 0, new))
    × Updates small
        (codes "y")
        (record (entry_of small (codes "y")) {
          id_ident = y_symbol 0 ∷ (entry_of small (codes "y")).id_ident;
        })
        new
new_ident_example =
    new_ident_lem 4096 (codes "y") (some 8) small small-IsTable (λ e. cc) small_pages

name_is_declared-new_ident_example :
    (last : Symtable ℕ) × (name_is_declared 4096 (codes "x") ident (larger 0)
      ≡ ok (
        if str_eq (codes "y") (codes "x") then true else is_declared_ident small (codes "x"),
        last,
      ))
unfolding new_ident get_symtable_entry insert_entry update_entry hash_string at search_chain
    write_back cstr_match str_eq
name_is_declared-new_ident_example =
    name_is_declared-new_ident 4096 (codes "y") (codes "x") (some 8) small (larger 0) (y_symbol 0)
      small-IsTable (λ e. cc) (λ e. cc) small_pages refl small_pages

pop_scope_example :
    (new : Symtable ℕ) × (pop_scope (larger 1) ≡ ok new)
    × IsScoped new
    × (new.scope_level ≡ 0)
    × ((name : List ℕ) → lookup new name ≡ map_entry (left_entry 1) (lookup (larger 1) name))
pop_scope_example = pop_scope_lem (larger 1) larger-IsScoped (omega arith)

pop_scope-new_ident_example :
    (outer : Symtable ℕ) × (pop_scope (larger 1) ≡ ok outer)
    × (outer.scope_level ≡ 0)
    × ((other : List ℕ)
        → (entry_of outer other).id_ident
          ≡ (if str_eq (codes "y") other then (entry_of small other).id_ident else []))
unfolding new_ident get_symtable_entry insert_entry update_entry hash_string at search_chain
    write_back cstr_match str_eq push_scope
pop_scope-new_ident_example =
    pop_scope-new_ident 4096 (codes "y") (some 8) small (larger 1) (y_symbol 1) small-IsTable
      small-IsScoped (λ e. cc) small_pages refl

new_type_example :
    (new : Symtable ℕ) × (new_type 4096 (codes "y") (some 8) small
      ≡ ok (record (y_symbol 0) { ident_kind = type_ }, new))
    × Updates small
        (codes "y")
        (record (entry_of small (codes "y")) {
          id_type =
              record (y_symbol 0) { ident_kind = type_ } ∷ (entry_of small (codes "y")).id_type;
        })
        new
new_type_example = new_type_lem 4096 (codes "y") (some 8) small small-IsTable (λ e. cc) small_pages

Steps-IsSound_example : IsSound (larger 1)
unfolding new_ident get_symtable_entry insert_entry update_entry hash_string at search_chain
    write_back cstr_match str_eq push_scope lookup first
Steps-IsSound_example =
    Steps-IsSound 4096 {t = small} (small-IsTable, small-IsScoped)
      (more (more none_ pushes)
        (declares_ident (codes "y") (some 8) small_pages (λ e. cc) refl refl))
